-- ===== src/Connection/Read/Delivery.antt =====
-- Where a message that was read goes.
use aedis.Prelude.{
  ℕ, ◌+◌, ◌≡◌, ◌≢◌, refl, ap, inl, inr, Bool, true, false, not, Option, none, some, List, [], ◌∷◌,
  ◌++◌, arith, if◌then◌else◌, Bool-cases, if_intro, if_cases, word, sub_word, ◌==◌,
}
use aedis.Prelude.Bytes.{Bytes}
use aedis.Prelude.Run.{Ensures, Ensures-bind, ok}
use aedis.Error.{Failure, Error}
use aedis.Resp3.Node.{Node}
use aedis.Resp3.Parser.{Parsed, needs_more as unfinished, finished, parse, parse_fuel}
use aedis.Connection.{ReqInfo, Connection}
use aedis.Connection.Queue.{is_waiting, proceed}
use aedis.Connection.Read.{
  ReadResult, needs_more, resp, is_next_push, waits_for_response, on_finish_parsing, info_adapter,
  after_push, read_push, count_response, after_response, read_response, on_read,
}

module _ {R : Type 0} where
  -- The front request behind one more response of `n` bytes.
  abbrev pub counted : ReqInfo R → R → ℕ → ReqInfo R
  counted ri a n = record ri {
    resp = a;
    expected_responses = sub_word ri.expected_responses 1;
    read_size = word (ri.read_size + n);
  }

module _ {R S : Type 0} where
  -- What `on_read` did: nothing to the queue (a push), or one thing to its front, `ri`, which was
  -- sent and expects a response; the requests `ris` behind it stay as they are.
  pub data Delivery (c d : Connection R S) (r : ReadResult) : Type 0 where
    to_receiver : d.reqs ≡ c.reqs → d.released ≡ c.released → r.0 ≢ resp → Delivery c d r
    more_to_come :
        (ri : ReqInfo R) (ris : List (ReqInfo R)) (a : R)
        → c.reqs ≡ ri ∷ ris
        → is_waiting ri ≡ false
        → (ri.expected_responses == 0) ≡ false
        → d.reqs ≡ record ri { resp = a } ∷ ris
        → d.released ≡ c.released
        → r.0 ≡ needs_more
        → Delivery c d r
    failed :
        (ri : ReqInfo R) (ris : List (ReqInfo R)) (a : R) (e : Error)
        → c.reqs ≡ ri ∷ ris
        → is_waiting ri ≡ false
        → (ri.expected_responses == 0) ≡ false
        → d.reqs ≡ proceed (record ri { resp = a; ec = some e }) ∷ ris
        → d.released ≡ c.released
        → r ≡ (resp, 0, some e)
        → Delivery c d r
    answered :
        (ri : ReqInfo R) (ris : List (ReqInfo R)) (a : R) (n : ℕ)
        → c.reqs ≡ ri ∷ ris
        → is_waiting ri ≡ false
        → (ri.expected_responses == 0) ≡ false
        → (sub_word ri.expected_responses 1 == 0) ≡ false
        → d.reqs ≡ counted ri a n ∷ ris
        → d.released ≡ c.released
        → r ≡ (resp, n, none)
        → Delivery c d r
    completed :
        (ri : ReqInfo R) (ris : List (ReqInfo R)) (a : R) (n : ℕ)
        → c.reqs ≡ ri ∷ ris
        → is_waiting ri ≡ false
        → (ri.expected_responses == 0) ≡ false
        → (sub_word ri.expected_responses 1 == 0) ≡ true
        → d.reqs ≡ ris
        → d.released ≡ c.released ++ proceed (counted ri a n) ∷ []
        → r ≡ (resp, n, none)
        → Delivery c d r

module _ {R S : Type 0} (adapt : ℕ → R → Node → R × Option Failure)
    (receive_adapter : S → Node → S × Option Failure) where
  after_push-Delivery :
      (c : Connection R S) (b : Bool) (r : Parsed S)
      → let out = after_push adapt receive_adapter (record c { on_push = b }) r in
        Delivery c out.0 out.1
  unfolding after_push on_finish_parsing
  after_push-Delivery c b (unfinished p s) = to_receiver refl refl (λ e. cc)
  after_push-Delivery c b (finished p s (some e)) = to_receiver refl refl (λ e. cc)
  after_push-Delivery c b (finished p s none) = to_receiver refl refl (λ e. cc)

  after_response-Delivery :
      (c : Connection R S) (b : Bool) (ri : ReqInfo R) (ris : List (ReqInfo R)) (r : Parsed R)
      → c.reqs ≡ ri ∷ ris
      → is_waiting ri ≡ false
      → (ri.expected_responses == 0) ≡ false
      → let out = after_response adapt receive_adapter ri ris (record c { on_push = b }) r in
        Delivery c out.0 out.1
  unfolding after_response on_finish_parsing count_response
  after_response-Delivery c b ri ris (unfinished p a) q w x =
      more_to_come ri ris a q w x refl refl refl
  after_response-Delivery c b ri ris (finished p a (some e)) q w x =
      failed ri ris a e q w x refl refl refl
  after_response-Delivery c b ri ris (finished p a none) q w x =
      elim (Bool-cases (sub_word ri.expected_responses 1 == 0)) [
        | inl last ↦ completed ri ris a p.consumed q w x last (rw last) (rw last) (rw last)
        | inr more ↦ answered ri ris a p.consumed q w x more (rw more) (rw more) (rw more)
      ]

  read_push-Delivery :
      (c : Connection R S) (b : Bool) (view : Bytes)
      → Ensures
          (λ out. Delivery c out.0 out.1)
          (read_push adapt receive_adapter (record c { on_push = b }) view)
  unfolding read_push
  read_push-Delivery c b view =
      Ensures-bind (λ out. Delivery c out.0 out.1)
        (parse receive_adapter (parse_fuel view) c.parser view c.receive_response) _
        (after_push-Delivery c b)

  read_response-Delivery :
      (c : Connection R S) (b : Bool) (reqs : List (ReqInfo R)) (view : Bytes)
      → c.reqs ≡ reqs
      → Ensures
          (λ out. Delivery c out.0 out.1)
          (read_response adapt receive_adapter reqs (record c { on_push = b }) view)
  unfolding read_response
  read_response-Delivery c b [] view q = tt
  read_response-Delivery c b (ri ∷ ris) view q =
      if_cases (Ensures λ out. Delivery c out.0 out.1) (not (waits_for_response c.reqs)) _ _
        (λ _. tt)
        λ due.
          if_cases (Ensures λ out. Delivery c out.0 out.1) (ri.expected_responses == 0) _ _
            (λ _. tt)
            λ x.
              let w : is_waiting ri ≡ false = front_sent due in
              Ensures-bind (λ out. Delivery c out.0 out.1)
                (parse (info_adapter adapt receive_adapter ri) (parse_fuel view) c.parser view
                  ri.resp)
                _ (λ r. after_response-Delivery c b ri ris r q w x)
    where
      front_sent : not (waits_for_response c.reqs) ≡ false → is_waiting ri ≡ false
      front_sent due = ground (arith, ap (λ l. not (waits_for_response l)) q)

  -- Each call of `on_read` that returns does one of the five things of `Delivery`: a push or a part
  -- of one leaves the queue alone; else only the first request is touched, and it was sent and has
  -- responses to come. It leaves the queue, notified, exactly with its last response.
  pub on_read-Delivery :
      (c : Connection R S) (view : Bytes)
      → Ensures (λ out. Delivery c out.0 out.1) (on_read adapt receive_adapter c view)
  unfolding on_read
  on_read-Delivery c view =
      Ensures-bind (λ out. Delivery c out.0 out.1) (if c.on_push then ok true else is_next_push c) _
        λ b.
          if_intro (Ensures λ out. Delivery c out.0 out.1) b _ _ (read_push-Delivery c b view)
            (read_response-Delivery c b c.reqs view refl)
