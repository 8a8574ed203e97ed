-- ===== src/Connection/Queue.antt =====
-- The queue of requests: adding, writing and cancelling (detail/connection_base.hpp).
pub mod Order
use aedis.Prelude.{
  ℕ, suc, ◌+◌, ◌≡◌, Bool, true, false, not, ◌&&◌, none, List, [], ◌∷◌, ◌++◌, map, length, word, ltb,
  ◌==◌, if◌then◌else◌, filter_by, rejected, take_while, drop_while,
}
use mathlib.Core.List.{reverse}
use aedis.Prelude.Bytes.{Bytes}
use aedis.Prelude.Run.{Run, ok, crash, out_of_bounds, null_pointer}
use aedis.Resp3.Parser.{reset}
use aedis.Request.{Request}
use aedis.Connection.{
  Status, waiting, staged, written, Operation, exec, run, receive, all, ReqInfo, Usage, Connection,
}

abbrev pub status_is_waiting : Status → Bool
status_is_waiting waiting = true
status_is_waiting _ = false

abbrev pub status_is_staged : Status → Bool
status_is_staged staged = true
status_is_staged _ = false

module _ {R : Type 0} where
  abbrev pub is_waiting : ReqInfo R → Bool
  is_waiting ri = status_is_waiting ri.status

  abbrev pub is_staged : ReqInfo R → Bool
  is_staged ri = status_is_staged ri.status

  abbrev pub is_sent : ReqInfo R → Bool
  is_sent ri = not (is_waiting ri)

  abbrev pub mark_waiting : ReqInfo R → ReqInfo R
  mark_waiting ri = record ri { status = waiting }

  abbrev pub mark_staged : ReqInfo R → ReqInfo R
  mark_staged ri = record ri { status = staged }

  abbrev pub mark_written : ReqInfo R → ReqInfo R
  mark_written ri = record ri { status = written }

  abbrev pub proceed : ReqInfo R → ReqInfo R
  proceed ri = record ri { notified = true }

  abbrev pub stop : ReqInfo R → ReqInfo R
  stop ri = record ri { stopped = true }

  -- The constructor of `req_info`.
  abbrev pub make_info : ℕ → Request → R → ReqInfo R
  make_info i r resp = record {
    id = i;
    req = r;
    resp = resp;
    expected_responses = r.expected_responses;
    status = waiting;
    ec = none;
    read_size = 0;
    notified = false;
    stopped = false;
  }

  -- The loop of `coalesce_requests`: the buffer, the commands sent and the requests behind it.
  unfoldable pub stage_buffer : Bytes → List (ReqInfo R) → Bytes
  stage_buffer buffer [] = buffer
  stage_buffer buffer (ri ∷ ris) = stage_buffer (buffer ++ ri.req.payload) ris

  unfoldable pub stage_commands : ℕ → List (ReqInfo R) → ℕ
  stage_commands sent [] = sent
  stage_commands sent (ri ∷ ris) = stage_commands (word (sent + ri.expected_responses)) ris

  -- Which requests survive the loss of the connection.
  abbrev pub survives : ReqInfo R → Bool
  survives ri =
      if is_waiting ri
      then not ri.req.cfg.cancel_on_connection_lost
      else not ri.req.cfg.cancel_if_unresponded

  -- A staged request that expects no response.
  abbrev pub is_staged_push : ReqInfo R → Bool
  is_staged_push ri = is_staged ri && ri.req.expected_responses == 0

  abbrev pub mark_if_staged : ReqInfo R → ReqInfo R
  mark_if_staged ri = if is_staged ri then mark_written ri else ri

  -- std::rotate(first, first + 1, last)
  abbrev pub rotate_one : List (ReqInfo R) → List (ReqInfo R)
  rotate_one [] = []
  rotate_one (ri ∷ ris) = ris ++ ri ∷ []

  -- The rotation in `add_request_info`: seen from the back, the last request goes behind the
  -- waiting ones, those up to std::partition_point.
  unfoldable pub rotate_priority : List (ReqInfo R) → List (ReqInfo R)
  rotate_priority reqs =
      let from_back = reverse reqs in
      reverse (rotate_one (take_while is_waiting from_back) ++ drop_while is_waiting from_back)

  -- The queue that `add_request_info` leaves.
  unfoldable pub enqueue : ReqInfo R → List (ReqInfo R) → List (ReqInfo R)
  unfolding rotate_priority
  enqueue info reqs =
      if info.req.has_hello_priority then rotate_priority (reqs ++ info ∷ []) else reqs ++ info ∷ []

  abbrev pub has_id : ℕ → ReqInfo R → Bool
  has_id i ri = ri.id == i

  abbrev pub is_nonempty : List (ReqInfo R) → Bool
  is_nonempty [] = false
  is_nonempty (ri ∷ ris) = true

module _ {R S : Type 0} where
  unfoldable pub cancel_on_conn_lost : Connection R S → Connection R S
  cancel_on_conn_lost c = record c {
    reqs = map mark_waiting (filter_by survives c.reqs);
    released = c.released ++ map stop (rejected survives c.reqs);
  }

  unfoldable pub cancel_unwritten_requests : Connection R S → Connection R S
  cancel_unwritten_requests c = record c {
    reqs = filter_by is_sent c.reqs;
    released = c.released ++ map stop (rejected is_sent c.reqs);
  }

  unfoldable pub close : Connection R S → Connection R S
  close c = record c { is_open = false }

  unfoldable pub cancel_impl : Operation → Connection R S → Connection R S
  unfolding cancel_unwritten_requests close cancel_on_conn_lost
  cancel_impl exec c = cancel_unwritten_requests c
  cancel_impl run c =
      if c.cancel_run_called
      then c
      else cancel_on_conn_lost (record (close c) {
        cancel_run_called = true;
        writer_wakes = c.writer_wakes + 1;
        receive_cancels = c.receive_cancels + 1;
      })
  cancel_impl receive c = record c { receive_cancels = c.receive_cancels + 1 }
  cancel_impl _ c = c

  -- `runner_.cancel(op)` touches the runner alone.
  unfoldable pub cancel : Operation → Connection R S → Connection R S
  unfolding cancel_impl
  cancel all c = cancel_impl exec (cancel_impl receive (cancel_impl run c))
  cancel op c = cancel_impl op c

  unfoldable pub cancel_push_requests : Connection R S → Connection R S
  cancel_push_requests c = record c {
    reqs = rejected is_staged_push c.reqs;
    released = c.released ++ map proceed (filter_by is_staged_push c.reqs);
  }

  unfoldable pub on_write : Connection R S → Connection R S
  unfolding cancel_push_requests
  on_write c =
      let c' = cancel_push_requests (record c { write_buffer = [] }) in
      record c' { reqs = map mark_if_staged c'.reqs }

  abbrev pub is_writing : Connection R S → Bool
  is_writing c = ltb 0 (length c.write_buffer)

  unfoldable pub add_request_info : ReqInfo R → Connection R S → Connection R S
  unfolding enqueue
  add_request_info info c =
      let c' = record c { reqs = enqueue info c.reqs } in
      if c.is_open && not (is_writing c)
      then record c' { writer_wakes = c.writer_wakes + 1 }
      else c'

  -- Whether there is something to write.
  unfoldable pub coalesce_requests : Connection R S → Connection R S × Bool
  unfolding stage_buffer stage_commands
  coalesce_requests c =
      let sent = take_while is_sent c.reqs in
      let point = drop_while is_sent c.reqs in
      let buffer = stage_buffer c.write_buffer point in
      let usage = record c.usage {
        commands_sent = stage_commands c.usage.commands_sent point;
        bytes_sent = word (c.usage.bytes_sent + length buffer);
      } in
      (
        record c { reqs = sent ++ map mark_staged point; write_buffer = buffer; usage = usage },
        is_nonempty point,
      )

  -- `std::remove` moves the matches to the back, and `erase` takes the one element there. With no match
  -- it erases `end()`; with more than one it leaves null pointers in the queue, which its next visitor
  -- follows.
  abbrev pub erase_one : List (ReqInfo R) → Connection R S → Run (Connection R S)
  erase_one [] d = crash out_of_bounds
  erase_one (ri ∷ []) d = ok d
  erase_one (ri ∷ rj ∷ ris) d = crash null_pointer

  unfoldable pub remove_request : ℕ → Connection R S → Run (Connection R S)
  remove_request i c = erase_one (filter_by (has_id i) c.reqs) (record c {
    reqs = rejected (has_id i) c.reqs;
    released = c.released ++ filter_by (has_id i) c.reqs;
  })

  pub erase_one-ok :
      (matches : List (ReqInfo R)) (d e : Connection R S) → erase_one matches d ≡ ok e → d ≡ e
  erase_one-ok [] d e h = cc
  erase_one-ok (ri ∷ []) d e h = cc
  erase_one-ok (ri ∷ rj ∷ ris) d e h = cc

  -- `reset`, at the start of a run.
  unfoldable pub reset_connection : Connection R S → Connection R S
  reset_connection c = record c {
    write_buffer = [];
    read_buffer = [];
    parser = reset;
    on_push = false;
    cancel_run_called = false;
  }
