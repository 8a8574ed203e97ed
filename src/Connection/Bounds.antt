-- ===== src/Connection/Bounds.antt =====
-- How many responses a request has still to come.
use aedis.Prelude.{
  ℕ, ◌+◌, ◌≤◌, ◌<◌, ◌≡◌, refl, Bool, true, false, not, ◌&&◌, Option, List, [], ◌∷◌, All, map, arith,
  ◌==◌, word_mod, sub_word, if_intro, take_while, drop_while, Bool-cases, inl, inr,
}
use aedis.Error.{Failure}
use aedis.Resp3.Node.{Node}
use aedis.Connection.{
  Operation, resolve, connect, ssl_handshake, exec, run, receive, reconnection, health_check, all,
  ReqInfo, Connection,
}
use aedis.Connection.Queue.{
  make_info, is_waiting, is_sent, is_staged_push, mark_waiting, mark_staged, mark_if_staged,
  survives, has_id, enqueue, add_request_info, coalesce_requests, on_write, cancel_push_requests,
  cancel_on_conn_lost, cancel_unwritten_requests, close, cancel_impl, cancel, reset_connection,
  is_writing,
}
use aedis.Connection.Queue.Order.{All-append, filter_by-All, Partitioned, enqueue-place}
use aedis.Connection.Read.{ReadResult}
use aedis.Connection.Read.Delivery.{
  Delivery, to_receiver, more_to_come, failed, answered, completed, counted,
}
use aedis.Connection.Steps.{
  Step, adds, opens, coalesces, writes, cancels, removes, fills, reads, resets, read_Delivery,
  remove_request-reqs,
}
use aedis.Connection.History.{History, start, next, steps-Partitioned}

module _ {R : Type 0} where
  -- No more responses are to come than the request expects, which fits in a std::size_t.
  abbrev pub IsBounded : ReqInfo R → Type 0
  IsBounded ri =
      (ri.expected_responses ≤ ri.req.expected_responses) × (ri.req.expected_responses < word_mod)

  map-All :
      (f : ReqInfo R → ReqInfo R)
      → ((ri : ReqInfo R) → IsBounded ri → IsBounded (f ri))
      → (ris : List (ReqInfo R)) → All IsBounded ris
      → All IsBounded (map f ris)
  map-All f k [] h = tt
  map-All f k (ri ∷ ris) (h, hs) = (k ri h, map-All f k ris hs)

  take_while-All :
      (p : ReqInfo R → Bool) (ris : List (ReqInfo R))
      → All IsBounded ris
      → All IsBounded (take_while p ris)
  take_while-All p [] h = tt
  take_while-All p (ri ∷ ris) (h, hs) = elim (Bool-cases (p ri)) [
    | inl e ↦ rw e (h, take_while-All p ris hs)
    | inr e ↦ rw e tt
  ]

  drop_while-All :
      (p : ReqInfo R → Bool) (ris : List (ReqInfo R))
      → All IsBounded ris
      → All IsBounded (drop_while p ris)
  drop_while-All p [] h = tt
  drop_while-All p (ri ∷ ris) (h, hs) = elim (Bool-cases (p ri)) [
    | inl e ↦ rw e (drop_while-All p ris hs)
    | inr e ↦ rw e (h, hs)
  ]

  enqueue-All :
      (info : ReqInfo R) (ris : List (ReqInfo R))
      → is_waiting info ≡ true
      → Partitioned ris
      → IsBounded info
      → All IsBounded ris
      → All IsBounded (enqueue info ris)
  enqueue-All info ris w p b h = rw (enqueue-place info ris w p) (
      if_intro (All IsBounded) info.req.has_hello_priority _ _
        (All-append IsBounded (take_while is_sent ris) (info ∷ drop_while is_sent ris)
          (take_while-All is_sent ris h) (b, drop_while-All is_sent ris h))
        (All-append IsBounded ris (info ∷ []) h (b, tt)))

module _ {R S : Type 0} where
  conn_lost-All :
      (c : Connection R S) → All IsBounded c.reqs → All IsBounded (cancel_on_conn_lost c).reqs
  unfolding cancel_on_conn_lost
  conn_lost-All c h = map-All mark_waiting (λ ri b. b) _ (filter_by-All IsBounded survives c.reqs h)

  cancel_impl-All :
      (op : Operation) (c : Connection R S)
      → All IsBounded c.reqs
      → All IsBounded (cancel_impl op c).reqs
  unfolding cancel_impl cancel_unwritten_requests
  cancel_impl-All exec c h = filter_by-All IsBounded is_sent c.reqs h
  cancel_impl-All run c h =
      let c' : Connection R S = record (close c) {
        cancel_run_called = true;
        writer_wakes = c.writer_wakes + 1;
        receive_cancels = c.receive_cancels + 1;
      } in
      if_intro (λ (d : Connection R S). All IsBounded d.reqs) c.cancel_run_called c
        (cancel_on_conn_lost c') h (conn_lost-All c' (unfold close in h))
  cancel_impl-All receive c h = h
  cancel_impl-All _ c h = h

  cancel-All :
      (op : Operation) (c : Connection R S)
      → All IsBounded c.reqs
      → All IsBounded (cancel op c).reqs
  unfolding cancel
  cancel-All all c h =
      cancel_impl-All exec (cancel_impl receive (cancel_impl run c))
        (cancel_impl-All receive (cancel_impl run c) (cancel_impl-All run c h))
  cancel-All resolve c h = cancel_impl-All resolve c h
  cancel-All connect c h = cancel_impl-All connect c h
  cancel-All ssl_handshake c h = cancel_impl-All ssl_handshake c h
  cancel-All exec c h = cancel_impl-All exec c h
  cancel-All run c h = cancel_impl-All run c h
  cancel-All receive c h = cancel_impl-All receive c h
  cancel-All reconnection c h = cancel_impl-All reconnection c h
  cancel-All health_check c h = cancel_impl-All health_check c h

  add-All :
      (info : ReqInfo R) (c : Connection R S)
      → is_waiting info ≡ true
      → Partitioned c.reqs
      → IsBounded info
      → All IsBounded c.reqs
      → All IsBounded (add_request_info info c).reqs
  unfolding add_request_info
  add-All info c w p b h =
      let e = enqueue-All info c.reqs w p b h in
      if_intro (λ (d : Connection R S). All IsBounded d.reqs) (c.is_open && not (is_writing c))
        (record c { reqs = enqueue info c.reqs; writer_wakes = c.writer_wakes + 1 })
        (record c { reqs = enqueue info c.reqs }) e e

  coalesce-All :
      (c : Connection R S) → All IsBounded c.reqs → All IsBounded (coalesce_requests c).0.reqs
  unfolding coalesce_requests
  coalesce-All c h =
      All-append IsBounded (take_while is_sent c.reqs) _ (take_while-All is_sent c.reqs h)
        (map-All mark_staged (λ ri b. b) _ (drop_while-All is_sent c.reqs h))

  write-All : (c : Connection R S) → All IsBounded c.reqs → All IsBounded (on_write c).reqs
  unfolding on_write cancel_push_requests
  write-All c h =
      map-All mark_if_staged (λ ri b. ground arith) _
        (filter_by-All IsBounded (λ ri. not (is_staged_push ri)) c.reqs h)

  Delivery-All :
      (c d : Connection R S) (r : ReadResult)
      → Delivery c d r
      → All IsBounded c.reqs
      → All IsBounded d.reqs
  Delivery-All c d r (to_receiver q _ _) h = rw q h
  Delivery-All c d r (more_to_come ri ris a q w _ q' _ _) h =
      let h' = rw q at h in rw q' (h'.0, h'.1)
  Delivery-All c d r (failed ri ris a e q w _ q' _ _) h = let h' = rw q at h in rw q' (h'.0, h'.1)
  Delivery-All c d r (answered ri ris a n q w some_due _ q' _ _) h =
      let h' = rw q at h in rw q' (fewer ri a n some_due h'.0, h'.1)
    where
      fewer :
          (ri : ReqInfo R) (a : R) (n : ℕ)
          → (ri.expected_responses == 0) ≡ false
          → IsBounded ri
          → IsBounded (counted ri a n)
      fewer ri a n due b = ground arith
  Delivery-All c d r (completed ri ris a n q w _ _ q' _ _) h = let h' = rw q at h in rw q' h'.1

module _ {R S : Type 0} (adapt : ℕ → R → Node → R × Option Failure)
    (receive_adapter : S → Node → S × Option Failure) where
  step-All :
      {c d : Connection R S}
      → Step adapt receive_adapter c d
      → Partitioned c.reqs
      → All IsBounded c.reqs
      → All IsBounded d.reqs
  unfolding reset_connection
  step-All (adds c i req response w) p h =
      add-All (make_info i req response) c refl p (omega arith) h
  step-All (opens c) p h = h
  step-All (coalesces c) p h = coalesce-All c h
  step-All (writes c) p h = write-All c h
  step-All (cancels c op) p h = cancel-All op c h
  step-All (removes c d i e) p h =
      rw (remove_request-reqs i c d e) (filter_by-All IsBounded (λ ri. not (has_id i ri)) c.reqs h)
  step-All (fills c more) p h = h
  step-All (reads c d view r e) p h =
      Delivery-All c d r (read_Delivery adapt receive_adapter c d view r e) h
  step-All (resets c) p h = h

  pub history-All :
      {c d : Connection R S}
      → History adapt receive_adapter c d
      → Partitioned c.reqs
      → All IsBounded c.reqs
      → All IsBounded d.reqs
  history-All (start c) p h = h
  history-All (next hist st) p h =
      step-All st (steps-Partitioned adapt receive_adapter hist p) (history-All hist p h)

  -- From an empty queue, whatever is called in whatever order: where the front request has a
  -- response to come, the index that its adapter is called with, that of the command, is below the
  -- number of responses that the request expects.
  pub History-index :
      {c d : Connection R S} (h : History adapt receive_adapter c d) (ri : ReqInfo R)
      (ris : List (ReqInfo R))
      → c.reqs ≡ []
      → d.reqs ≡ ri ∷ ris
      → (ri.expected_responses == 0) ≡ false
      → sub_word ri.req.expected_responses ri.expected_responses < ri.req.expected_responses
  History-index {c} {d} h ri ris q q' due =
      let p : Partitioned c.reqs = rw q tt in
      let b : All IsBounded c.reqs = rw q tt in
      let (front, _) = rw q' at (history-All h p b) in ground arith
