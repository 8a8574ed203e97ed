-- ===== src/Connection/Answered/Replies.antt =====
-- What `on_read` does behind a reply.
use aedis.Prelude.{
  ℕ, suc, ◌+◌, ◌<◌, ◌≡◌, refl, Bool, false, Option, none, List, [], ◌∷◌, ◌++◌, arith, drop, word,
  word_mod, sub_word, ◌==◌,
}
use aedis.Prelude.Bytes.{Bytes}
use aedis.Error.{Failure}
use aedis.Resp3.Node.{Node}
use aedis.Resp3.Parser.{Parser, finished}
use aedis.Resp3.Reply.{Reply}
use aedis.Connection.{ReqInfo, Connection}
use aedis.Connection.Queue.{proceed}
use aedis.Connection.Read.{resp, count_message, on_finish_parsing, count_response, after_response}
use aedis.Connection.Answered.{size, facing}

module _ {R S : Type 0} (adapt : ℕ → R → Node → R × Option Failure)
    (receive_adapter : S → Node → S × Option Failure) where
  -- The front request behind one more reply.
  abbrev pub advanced : ReqInfo R → ℕ → Reply → R → ReqInfo R
  advanced ri n r a = record ri {
    resp = a;
    expected_responses = n;
    read_size = word (ri.read_size + size r);
  }

  abbrev pub noted : Connection R S → Reply → Connection R S
  noted c r = record c { usage = count_message resp (size r) c.usage }

  -- Behind a reply, in whatever it was read: the request waits for the next, or this was the last.
  pub after_response-next :
      (c : Connection R S) (ri : ReqInfo R) (ris reqs : List (ReqInfo R)) (n : ℕ) (r : Reply)
      (p q : Parser) (b : Bool) (seen : Bytes) (a : R)
      → q.consumed ≡ size r
      → ri.expected_responses ≡ suc (suc n)
      → suc (suc n) < word_mod
      → after_response adapt receive_adapter ri ris
          (record c { reqs = reqs; read_buffer = seen; parser = p; on_push = b })
          (finished q a none)
        ≡ (
          facing (noted c r) (advanced ri (suc n) r a ∷ ris) (drop (size r) seen),
          (resp, size r, none),
        )
  unfolding after_response count_response on_finish_parsing
  after_response-next c ri ris reqs n r p q b seen a consumed e small =
      let left : sub_word ri.expected_responses 1 ≡ suc n = omega arith in
      let more : (suc n == 0) ≡ false = ground arith in rw (left, more, consumed) refl

  pub after_response-last :
      (c : Connection R S) (ri : ReqInfo R) (ris reqs : List (ReqInfo R)) (r : Reply) (p q : Parser)
      (b : Bool) (seen : Bytes) (a : R)
      → q.consumed ≡ size r
      → ri.expected_responses ≡ 1
      → after_response adapt receive_adapter ri ris
          (record c { reqs = reqs; read_buffer = seen; parser = p; on_push = b })
          (finished q a none)
        ≡ (
          facing
              (record (noted c r) { released = c.released ++ proceed (advanced ri 0 r a) ∷ [] })
              ris
              (drop (size r) seen),
          (resp, size r, none),
        )
  unfolding after_response count_response on_finish_parsing
  after_response-last c ri ris reqs r p q b seen a consumed e =
      let left : sub_word ri.expected_responses 1 ≡ 0 = omega arith in rw (left, consumed) refl
