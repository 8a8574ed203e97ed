-- ===== src/Connection/Answered/Midway.antt =====
-- A connection in the middle of the replies to a pipeline.
use aedis.Prelude.{
  ℕ, suc, ◌+◌, ◌≤◌, ◌<◌, ◌≡◌, ◌≢◌, refl, ◌∙◌, true, false, Option, List, [], ◌∷◌, ◌++◌, length, All,
  word_mod, ◌==◌,
}
use aedis.Prelude.Bytes.{Bytes}
use aedis.Prelude.Run.{ok, ◌>>=◌}
use aedis.Error.{Failure}
use aedis.Resp3.Node.{Node}
use aedis.Resp3.Parser.{Parser, done, parse, parse_fuel}
use aedis.Resp3.Parser.Trace.{Takes}
use aedis.Resp3.Reply.{Reply, mark, type_of, print}
use aedis.Resp3.Reply.Places.{Stands, Visits}
use aedis.Resp3.Reply.Lengths.{print_first}
use aedis.Connection.{ReqInfo, Connection}
use aedis.Connection.Queue.{is_waiting}
use aedis.Connection.Read.{next_push, info_adapter, after_response, read_response, on_read}
use aedis.Connection.Answered.{IsResponse, print_replies, facing, Fills, Exchange, IsExchange}
use aedis.Connection.Answered.Pipeline.{infos, print_exchanges, handed, all_handed}

module _ {R S : Type 0} where
  -- Inside a message.
  abbrev pub amid : Connection R S → List (ReqInfo R) → Parser → Bytes → Connection R S
  amid c reqs p seen = record c { reqs = reqs; read_buffer = seen; parser = p; on_push = false }

module _ {R S : Type 0} (adapt : ℕ → R → Node → R × Option Failure)
    (receive_adapter : S → Node → S × Option Failure) where
  abbrev pub remaining : List Reply → List (Exchange adapt) → Bytes
  remaining rs xs = print_replies rs (print_exchanges adapt receive_adapter xs)

  -- The front request and the replies to it that are not read, those to the requests behind it, and
  -- what the connection is behind them all.
  pub record Front (c : Connection R S) (ri : ReqInfo R) (ris : List (ReqInfo R)) (reply : Reply)
      (replies : List Reply) (exchanges : List (Exchange adapt)) (command : ℕ) (filled : R)
      (goal : Connection R S) : Type 0 where
    pub behind : List (ReqInfo R)
    pub is_open : c.is_open ≡ true
    pub sent : is_waiting ri ≡ false
    pub expected : ri.expected_responses ≡ suc (length replies)
    pub fresh : ri.req.expected_responses ≡ command + suc (length replies)
    pub small : command + suc (length replies) < word_mod
    pub responses : All IsResponse (reply ∷ replies)
    pub others : All (IsExchange adapt) exchanges
    pub queue : ris ≡ infos adapt receive_adapter exchanges ++ behind
    pub final :
        goal
        ≡ facing
            (all_handed adapt receive_adapter
              (handed adapt receive_adapter c ri (reply ∷ replies) filled)
              exchanges)
            behind
            []

  -- `seen` was received of the reply to the front request and what follows it, and `coming` is to
  -- come.
  pub record Midway (c : Connection R S) (ri : ReqInfo R) (ris : List (ReqInfo R)) (p : Parser)
      (seen coming : Bytes) (goal : Connection R S) : Type 0 where
    pub reply : Reply
    pub replies : List Reply
    pub exchanges : List (Exchange adapt)
    pub command : ℕ
    pub middle : R
    pub filled : R
    pub last : Parser
    pub ahead : List Node
    pub front : Front c ri ris reply replies exchanges command filled goal
    pub visits : Visits (print reply (remaining replies exchanges)) p ahead last
    pub ended : done last ≡ true
    pub stands :
        Stands last.consumed
          (print reply (remaining replies exchanges))
          (remaining replies exchanges)
    pub inside : p.consumed ≤ length seen
    pub takes : Takes (adapt command) ri.resp ahead middle
    pub fills : Fills adapt (command + 1) middle replies filled
    pub stream : seen ++ coming ≡ print reply (remaining replies exchanges)
    pub bound : length (print reply (remaining replies exchanges)) < word_mod

  -- What the adapter has written to the object does not matter for the rest.
  pub Front-resp :
      (c : Connection R S) (ri : ReqInfo R) (ris : List (ReqInfo R)) (r : Reply) (rs : List Reply)
      (xs : List (Exchange adapt)) (i : ℕ) (a b : R) (goal : Connection R S)
      → Front c ri ris r rs xs i b goal
      → Front c (record ri { resp = a }) ris r rs xs i b goal
  Front-resp c ri ris r rs xs i a b goal front = record {
    behind = front.behind;
    is_open = front.is_open;
    sent = front.sent;
    expected = front.expected;
    fresh = front.fresh;
    small = front.small;
    responses = front.responses;
    others = front.others;
    queue = front.queue;
    final = front.final;
  }

  -- The first byte that was received is that of the reply.
  prefix_not_push :
      (seen coming : Bytes) (ri : ReqInfo R) (ris : List (ReqInfo R)) (r : Reply) (rest : Bytes)
      → seen ≢ []
      → seen ++ coming ≡ print r rest
      → is_waiting ri ≡ false
      → (ri.expected_responses == 0) ≡ false
      → IsResponse r
      → next_push seen (ri ∷ ris) ≡ ok false
  prefix_not_push [] coming ri ris r rest ne e sent due h = absurd (ne refl)
  prefix_not_push (x ∷ seen) coming ri ris r rest ne e sent due (fits, response) =
      let (s, printed, typed) = print_first r rest fits in
      let whole = e ∙ printed in
      let same : x ≡ mark (type_of r) = cc in rw (same, typed, response, due, sent) refl

  -- `on_read` runs the parser with the adapter of the front request.
  pub on_read-parse :
      (c : Connection R S) (ri : ReqInfo R) (ris : List (ReqInfo R)) (p : Parser)
      (seen coming : Bytes) (r : Reply) (rest : Bytes)
      → seen ≢ []
      → seen ++ coming ≡ print r rest
      → is_waiting ri ≡ false
      → (ri.expected_responses == 0) ≡ false
      → IsResponse r
      → on_read adapt receive_adapter (amid c (ri ∷ ris) p seen) seen ≡ (
          parse (info_adapter adapt receive_adapter ri) (parse_fuel seen) p seen ri.resp >>= λ x.
          ok (after_response adapt receive_adapter ri ris (amid c (ri ∷ ris) p seen) x))
  unfolding on_read read_response
  on_read-parse c ri ris p seen coming r rest ne e sent due h =
      rw (prefix_not_push seen coming ri ris r rest ne e sent due h, sent, due) refl
