-- ===== src/Connection/Fifo/Refinement.antt =====
-- Every step of a connection is one, or a few, of the abstract queue.
use aedis.Prelude.{
  ap, map, Bool, ◌++◌, if◌then◌else◌, ℕ, suc, ◌+◌, ◌<◌, ◌≡◌, refl, sym, subst, true, false, not,
  ◌&&◌, Option, List, [], ◌∷◌, All, arith, sub_word, if_intro, rejected,
}
use aedis.Error.{Failure}
use aedis.Resp3.Node.{Node}
use aedis.Connection.{
  Operation, resolve, connect, ssl_handshake, exec, run, receive, reconnection, health_check, all,
  ReqInfo, Connection,
}
use aedis.Connection.Queue.{
  make_info, is_waiting, is_staged_push, enqueue, add_request_info, coalesce_requests, on_write,
  cancel_push_requests, cancel_on_conn_lost, cancel_unwritten_requests, close, cancel_impl, cancel,
  reset_connection, is_writing,
}
use aedis.Connection.Queue.Order.{Partitioned}
use aedis.Connection.Read.{ReadResult}
use aedis.Connection.Read.Delivery.{
  Delivery, to_receiver, more_to_come, failed, answered, completed,
}
use aedis.Connection.Steps.{
  Step, adds, opens, coalesces, writes, cancels, removes, fills, reads, resets, read_Delivery,
  remove_request-reqs,
}
use aedis.Connection.Bounds.{IsBounded, history-All}
use aedis.Connection.History.{History, start, next, steps-Partitioned}
use aedis.Connection.Fifo.{
  Queue, Call, adding, sending, releasing, withdrawing, clearing, losing, answering, Answered,
  unchanged, answers, finishes, Fifo, Fifos, stays, one, between, Fifos-append, ticket,
  abstract_queue,
}
use aedis.Connection.Fifo.Queues.{
  withdraw-Fifo, release-Fifo, clear-Fifo, enqueue-Fifo, coalesce-Fifo, written_same, lost-Fifo,
  abstract-whole,
}

abbrev run_calls : Bool → List Call
run_calls called = if called then [] else losing ∷ []

abbrev impl_calls : Operation → Bool → List Call
impl_calls exec called = clearing ∷ []
impl_calls run called = run_calls called
impl_calls _ called = []

-- What a cancellation asks; `called` tells that the run was cancelled before.
abbrev pub cancel_calls : Operation → Bool → List Call
cancel_calls all called = run_calls called ++ clearing ∷ []
cancel_calls op called = impl_calls op called

module _ {R S : Type 0} where
  abbrev abstract : Connection R S → Queue
  abstract c = abstract_queue c.reqs

  lost_once :
      (called : Bool) (c d : Connection R S)
      → Fifo losing (abstract c) (abstract d)
      → Fifos (run_calls called) (abstract c) (abstract (if called then c else d))
  lost_once true c d f = stays (abstract c)
  lost_once false c d f = one losing (abstract c) (abstract d) f

  cancel_impl-Fifos :
      (op : Operation) (c : Connection R S)
      → Partitioned c.reqs
      → Fifos (impl_calls op c.cancel_run_called) (abstract c) (abstract (cancel_impl op c))
  unfolding cancel_impl cancel_unwritten_requests close cancel_on_conn_lost
  cancel_impl-Fifos exec c p = one clearing (abstract c) _ (clear-Fifo c.reqs)
  cancel_impl-Fifos run c p =
      lost_once c.cancel_run_called c
        (cancel_on_conn_lost (record (close c) {
          cancel_run_called = true;
          writer_wakes = c.writer_wakes + 1;
          receive_cancels = c.receive_cancels + 1;
        }))
        (lost-Fifo c.reqs p)
  cancel_impl-Fifos receive c p = stays (abstract c)
  cancel_impl-Fifos _ c p = stays (abstract c)

  cancel-Fifos :
      (op : Operation) (c : Connection R S)
      → Partitioned c.reqs
      → Fifos (cancel_calls op c.cancel_run_called) (abstract c) (abstract (cancel op c))
  unfolding cancel cancel_impl cancel_unwritten_requests
  cancel-Fifos all c p =
      Fifos-append (cancel_impl-Fifos run c p)
        (one clearing (abstract (cancel_impl run c)) _ (clear-Fifo (cancel_impl run c).reqs))
  cancel-Fifos resolve c p = stays (abstract c)
  cancel-Fifos connect c p = stays (abstract c)
  cancel-Fifos ssl_handshake c p = stays (abstract c)
  cancel-Fifos exec c p = cancel_impl-Fifos exec c p
  cancel-Fifos run c p = cancel_impl-Fifos run c p
  cancel-Fifos receive c p = stays (abstract c)
  cancel-Fifos reconnection c p = stays (abstract c)
  cancel-Fifos health_check c p = stays (abstract c)

  add-Fifo :
      (info : ReqInfo R) (c : Connection R S)
      → is_waiting info ≡ true
      → Partitioned c.reqs
      → Fifo
          (adding info.req.has_hello_priority (ticket info))
          (abstract c)
          (abstract (add_request_info info c))
  unfolding add_request_info
  add-Fifo info c w p =
      let e = enqueue-Fifo info c.reqs w p in
      if_intro
        (λ (d : Connection R S).
          Fifo (adding info.req.has_hello_priority (ticket info)) (abstract c) (abstract d))
        (c.is_open && not (is_writing c))
        (record c { reqs = enqueue info c.reqs; writer_wakes = c.writer_wakes + 1 })
        (record c { reqs = enqueue info c.reqs }) e e

  write-Fifo : (c : Connection R S) → Fifo releasing (abstract c) (abstract (on_write c))
  unfolding on_write cancel_push_requests
  write-Fifo c =
      between releasing refl (written_same (rejected is_staged_push c.reqs)) (release-Fifo c.reqs)

  -- The front of the queue was sent.
  front :
      (ri : ReqInfo R) (ris : List (ReqInfo R)) (d : Connection R S)
      → d.reqs ≡ ri ∷ ris
      → is_waiting ri ≡ false
      → abstract d ≡ (ticket ri ∷ (abstract_queue ris).0, (abstract_queue ris).1)
  front ri ris d q w = rw q (rw w refl)

  Delivery-Answered :
      (c d : Connection R S) (r : ReadResult)
      → Delivery c d r
      → All IsBounded c.reqs
      → Answered (abstract c) (abstract d)
  Delivery-Answered c d r (to_receiver q _ _) b = rw q (unchanged (abstract c))
  Delivery-Answered c d r (more_to_come ri ris a q w _ q' _ _) b =
      rw (front ri ris c q w, front _ ris d q' w) (unchanged _)
  Delivery-Answered c d r (failed ri ris a e q w _ q' _ _) b =
      rw (front ri ris c q w, front _ ris d q' w) (unchanged _)
  Delivery-Answered c d r (answered ri ris a n q w some_due more_due q' _ _) b =
      let (bounded, _) = rw q at b in
      let due : ri.expected_responses ≡ suc (sub_word ri.expected_responses 1) = ground arith in
      let more : 0 < sub_word ri.expected_responses 1 = ground arith in
      rw (front ri ris c q w, front _ ris d q' w)
        (subst
          (λ m.
            Answered ((ri.id, m) ∷ (abstract_queue ris).0, (abstract_queue ris).1)
              (
                (ri.id, sub_word ri.expected_responses 1) ∷ (abstract_queue ris).0,
                (abstract_queue ris).1,
              ))
          (sym due)
          (answers ri.id (sub_word ri.expected_responses 1) (abstract_queue ris).0
            (abstract_queue ris).1 more))
  Delivery-Answered c d r (completed ri ris a n q w some_due last q' _ _) b =
      let (bounded, _) = rw q at b in
      let due : ri.expected_responses ≡ 1 = ground arith in
      rw (front ri ris c q w, q')
        (subst
          (λ m.
            Answered ((ri.id, m) ∷ (abstract_queue ris).0, (abstract_queue ris).1)
              (abstract_queue ris))
          (sym due) (finishes ri.id (abstract_queue ris).0 (abstract_queue ris).1))

module _ {R S : Type 0} (adapt : ℕ → R → Node → R × Option Failure)
    (receive_adapter : S → Node → S × Option Failure) where
  -- What a step asks of the queue.
  abbrev pub asked : {c d : Connection R S} → Step adapt receive_adapter c d → List Call
  asked (adds c i req response w) = adding req.has_hello_priority (i, req.expected_responses) ∷ []
  asked (opens c) = []
  asked (coalesces c) = sending ∷ []
  asked (writes c) = releasing ∷ []
  asked (cancels c op) = cancel_calls op c.cancel_run_called
  asked (removes c d i e) = withdrawing i ∷ []
  asked (fills c more) = []
  asked (reads c d view r e) = answering ∷ []
  asked (resets c) = []

  abbrev pub all_asked : {c d : Connection R S} → History adapt receive_adapter c d → List Call
  all_asked (start c) = []
  all_asked (next h st) = all_asked h ++ asked st

  step-Fifos :
      {c d : Connection R S} (st : Step adapt receive_adapter c d)
      → Partitioned c.reqs
      → All IsBounded c.reqs
      → Fifos (asked st) (abstract_queue c.reqs) (abstract_queue d.reqs)
  unfolding coalesce_requests reset_connection
  step-Fifos (adds c i req response w) p b =
      one (adding req.has_hello_priority (i, req.expected_responses)) (abstract_queue c.reqs) _
        (add-Fifo (make_info i req response) c refl p)
  step-Fifos (opens c) p b = stays (abstract_queue c.reqs)
  step-Fifos (coalesces c) p b = one sending (abstract_queue c.reqs) _ (coalesce-Fifo c.reqs p)
  step-Fifos (writes c) p b = one releasing (abstract_queue c.reqs) _ (write-Fifo c)
  step-Fifos (cancels c op) p b = cancel-Fifos op c p
  step-Fifos (removes c d i e) p b =
      one (withdrawing i) (abstract_queue c.reqs) (abstract_queue d.reqs) (
        between (withdrawing i) refl (ap abstract_queue (remove_request-reqs i c d e))
          (withdraw-Fifo i c.reqs))
  step-Fifos (fills c more) p b = stays (abstract_queue c.reqs)
  step-Fifos (reads c d view r e) p b =
      one answering (abstract_queue c.reqs) (abstract_queue d.reqs)
        (Delivery-Answered c d r (read_Delivery adapt receive_adapter c d view r e) b)
  step-Fifos (resets c) p b = stays (abstract_queue c.reqs)

  -- From an empty queue, whatever is called in whatever order: the abstract queue, from nothing and by
  -- exactly what these calls ask of it in that order, gets to what was sent and what waits, and the
  -- queue is the one in front of the other. There a request that is added waits behind all others, or
  -- with priority before all that wait but behind all that were sent; all that wait are sent at once;
  -- only the first of what was sent is answered, a response at a time, and finished; behind a write
  -- only what was sent leaves; a request that is withdrawn, and all that wait where they are
  -- cancelled, leave; and where the connection is lost, some of all wait in the same order.
  pub History-Fifos :
      {c d : Connection R S} (h : History adapt receive_adapter c d)
      → c.reqs ≡ []
      → Fifos (all_asked h) ([], []) (abstract_queue d.reqs)
        × (map ticket d.reqs ≡ (abstract_queue d.reqs).0 ++ (abstract_queue d.reqs).1)
  History-Fifos {c} {d} h q =
      let p : Partitioned c.reqs = rw q tt in
      (follows h q, abstract-whole d.reqs (steps-Partitioned adapt receive_adapter h p))
    where
      follows :
          {c d : Connection R S} (h : History adapt receive_adapter c d)
          → c.reqs ≡ []
          → Fifos (all_asked h) ([], []) (abstract_queue d.reqs)
      follows (start c) q = rw q (stays ([], []))
      follows {c} (next {d = d} {e = e} h st) q =
          let p : Partitioned c.reqs = rw q tt in
          let b : All IsBounded c.reqs = rw q tt in
          Fifos-append (follows h q) (
            step-Fifos st (steps-Partitioned adapt receive_adapter h p)
              (history-All adapt receive_adapter h p b))
