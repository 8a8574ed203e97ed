-- ===== src/Connection/Read.antt =====
-- Reading: pushes are told from responses, and a response goes to the first request of the queue
-- (detail/connection_base.hpp). `adapt` is what `boost_redis_adapt` makes of a response object, with
-- the index of the command first; `receive_adapter` is the adapter for pushes.
pub mod Delivery
pub mod Kept
use aedis.Prelude.{
  ℕ, suc, ◌+◌, Bool, true, false, not, ◌&&◌, Option, none, some, List, [], ◌∷◌, ◌++◌, word,
  sub_word, drop, ◌==◌, if◌then◌else◌,
}
use aedis.Prelude.Bytes.{Bytes}
use aedis.Prelude.Run.{Run, ok, crash, out_of_bounds, assertion, ◌>>=◌}
use aedis.Error.{Failure, Error}
use aedis.Resp3.Types.{RespType, push as push_type, to_type}
use aedis.Resp3.Node.{Node}
use aedis.Resp3.Parser.{
  Parser, reset, get_suggested_buffer_growth, Parsed, needs_more as unfinished, finished, parse,
  parse_fuel,
}
use aedis.Connection.{ReqInfo, Usage, Connection}
use aedis.Connection.Queue.{is_waiting, proceed}

pub data ParseResult : Type 0 where
  needs_more push resp : ParseResult

-- `parse_ret_type`, and the error code.
abbrev pub ReadResult : Type 0
ReadResult = ParseResult × ℕ × Option Error

abbrev pub is_push_type : RespType → Bool
is_push_type push_type = true
is_push_type _ = false

abbrev pub count_message : ParseResult → ℕ → Usage → Usage
count_message push n u = record u {
  pushes_received = word (u.pushes_received + 1);
  push_bytes_received = word (u.push_bytes_received + n);
}
count_message _ n u = record u {
  responses_received = word (u.responses_received + 1);
  response_bytes_received = word (u.response_bytes_received + n);
}

module _ {R : Type 0} where
  -- Whether the front of the queue is no request that waits for a response.
  abbrev pub no_response_due : List (ReqInfo R) → Bool
  no_response_due [] = true
  no_response_due (ri ∷ ris) = if ri.expected_responses == 0 then true else is_waiting ri

  abbrev pub next_push : Bytes → List (ReqInfo R) → Run Bool
  next_push [] reqs = crash assertion
  next_push (c ∷ cs) reqs = ok (if is_push_type (to_type c) then true else no_response_due reqs)

  abbrev pub waits_for_response : List (ReqInfo R) → Bool
  waits_for_response [] = false
  waits_for_response (ri ∷ ris) = not (is_waiting ri)

module _ {R S : Type 0} where
  abbrev pub is_next_push : Connection R S → Run Bool
  is_next_push c = next_push c.read_buffer c.reqs

  abbrev pub is_waiting_response : Connection R S → Bool
  is_waiting_response c = waits_for_response c.reqs

  abbrev pub suggested_growth : Connection R S → ℕ
  suggested_growth c = get_suggested_buffer_growth c.parser 4096

  unfoldable pub on_finish_parsing : ParseResult → Connection R S → Connection R S × ReadResult
  on_finish_parsing t c =
      let n = c.parser.consumed in
      (
        record c {
          usage = count_message t n c.usage;
          on_push = false;
          read_buffer = drop n c.read_buffer;
          parser = reset;
        },
        (t, n, none),
      )

module _ {R S : Type 0} (adapt : ℕ → R → Node → R × Option Failure)
    (receive_adapter : S → Node → S × Option Failure) where
  -- `info_->adapter_`: the index of the command is the number of responses read so far.
  abbrev pub info_adapter : ReqInfo R → R → Node → R × Option Failure
  info_adapter ri = adapt (sub_word ri.req.expected_responses ri.expected_responses)

  unfoldable pub after_push : Connection R S → Parsed S → Connection R S × ReadResult
  unfolding on_finish_parsing
  after_push c (unfinished p s) =
      (record c { parser = p; receive_response = s }, (needs_more, 0, none))
  after_push c (finished p s (some e)) =
      (record c { parser = p; receive_response = s }, (push, 0, some e))
  after_push c (finished p s none) =
      on_finish_parsing push (record c { parser = p; receive_response = s })

  unfoldable pub read_push : Connection R S → Bytes → Run (Connection R S × ReadResult)
  unfolding after_push
  read_push c view = do
    r ← parse receive_adapter (parse_fuel view) c.parser view c.receive_response
    ok (after_push c r)

  -- A whole response: the front request has one response less to wait for, and leaves the queue with
  -- its last one.
  unfoldable pub count_response : ReqInfo R → List (ReqInfo R) → Connection R S → Connection R S
  count_response ri ris c =
      let ri' = record ri {
        read_size = word (ri.read_size + c.parser.consumed);
        expected_responses = sub_word ri.expected_responses 1;
      } in
      if ri'.expected_responses == 0
      then record c { reqs = ris; released = c.released ++ proceed ri' ∷ [] }
      else record c { reqs = ri' ∷ ris }

  unfoldable pub after_response :
      ReqInfo R → List (ReqInfo R) → Connection R S → Parsed R → Connection R S × ReadResult
  unfolding on_finish_parsing count_response
  after_response ri ris c (unfinished p a) =
      (record c { parser = p; reqs = record ri { resp = a } ∷ ris }, (needs_more, 0, none))
  after_response ri ris c (finished p a (some e)) = (
    record c { parser = p; reqs = proceed (record ri { resp = a; ec = some e }) ∷ ris },
    (resp, 0, some e),
  )
  after_response ri ris c (finished p a none) =
      on_finish_parsing resp (count_response (record ri { resp = a }) ris (record c { parser = p }))

  -- The assertions in front of the second call of `parse` are faults where they do not hold.
  unfoldable pub read_response :
      List (ReqInfo R) → Connection R S → Bytes → Run (Connection R S × ReadResult)
  unfolding after_response
  read_response [] c view = crash assertion
  read_response (ri ∷ ris) c view =
      if not (is_waiting_response c)
      then crash assertion
      else if ri.expected_responses == 0
      then crash assertion
      else (do
        r ← parse (info_adapter ri) (parse_fuel view) c.parser view ri.resp
        ok (after_response ri ris c r))

  unfoldable pub on_read : Connection R S → Bytes → Run (Connection R S × ReadResult)
  unfolding read_push read_response
  on_read c view = do
    is_push ← if c.on_push then ok true else is_next_push c
    let c' = record c { on_push = is_push }
    if is_push then read_push c' view else read_response c.reqs c' view
