-- ===== src/Connection/Ownership.antt =====
-- No request is lost or doubled: each is in the queue or was handed back to its operation.
use aedis.Prelude.{
  sym, ℕ, ◌+◌, ◌≡◌, refl, ap, ◌∙◌, Bool, true, not, Option, List, [], ◌∷◌, ◌++◌, map, arith,
  if◌then◌else◌, if_intro, filter_by, rejected, take_while, drop_while, Bool-cases, ◌&&◌, inl, inr,
}
use aedis.Error.{Failure}
use aedis.Resp3.Node.{Node}
use aedis.Connection.{
  Operation, resolve, connect, ssl_handshake, exec, run, receive, reconnection, health_check, all,
  ReqInfo, Connection,
}
use aedis.Connection.Queue.{
  make_info, is_waiting, is_sent, mark_waiting, mark_staged, mark_if_staged, stop, proceed,
  survives, is_staged_push, has_id, is_writing, enqueue, add_request_info, coalesce_requests,
  cancel_push_requests, on_write, cancel_on_conn_lost, cancel_unwritten_requests, close,
  cancel_impl, cancel, remove_request, erase_one-ok, reset_connection,
}
use aedis.Prelude.Run.{ok}
use aedis.Connection.Queue.Order.{Partitioned, take_while-append-drop_while, enqueue-place}
use aedis.Connection.Read.{ReadResult}
use aedis.Connection.Read.Delivery.{
  Delivery, to_receiver, more_to_come, failed, answered, completed,
}
use aedis.Connection.Steps.{
  Step, adds, opens, coalesces, writes, cancels, removes, fills, reads, resets, read_Delivery,
}

module _ {R : Type 0} (i : ℕ) where
  abbrev pub one : ReqInfo R → ℕ
  one ri = if has_id i ri then 1 else 0

  abbrev pub count : List (ReqInfo R) → ℕ
  count [] = 0
  count (ri ∷ ris) = one ri + count ris

  count-append : (xs ys : List (ReqInfo R)) → count (xs ++ ys) ≡ count xs + count ys
  count-append [] ys = omega arith
  count-append (x ∷ xs) ys = omega (arith, count-append xs ys)

  count_parts :
      (p : ReqInfo R → Bool) (xs : List (ReqInfo R))
      → count (filter_by p xs) + count (rejected p xs) ≡ count xs
  count_parts p [] = omega arith
  count_parts p (x ∷ xs) = elim (Bool-cases (p x)) [
    | inl e ↦ rw e (omega (arith, count_parts p xs))
    | inr e ↦ rw e (omega (arith, count_parts p xs))
  ]

  pub count-map :
      (f : ReqInfo R → ReqInfo R)
      → ((ri : ReqInfo R) → (f ri).id ≡ ri.id)
      → (xs : List (ReqInfo R)) → count (map f xs) ≡ count xs
  count-map f same [] = refl
  count-map f same (x ∷ xs) = rw (same x, count-map f same xs)

  count-enqueue :
      (info : ReqInfo R) (reqs : List (ReqInfo R))
      → is_waiting info ≡ true
      → Partitioned reqs
      → count (enqueue info reqs) ≡ one info + count reqs
  count-enqueue info reqs w p =
      ap count (enqueue-place info reqs w p)
      ∙ if_intro (λ l. count l ≡ one info + count reqs) info.req.has_hello_priority _ _
          (omega (
            arith,
            count-append (take_while is_sent reqs) (info ∷ drop_while is_sent reqs),
            count-append (take_while is_sent reqs) (drop_while is_sent reqs),
            ap count (take_while-append-drop_while is_sent reqs),
          ))
          (omega (arith, count-append reqs (info ∷ [])))

module _ {R S : Type 0} (i : ℕ) where
  -- How often the request is in the queue or among those handed back.
  abbrev pub held : Connection R S → ℕ
  held c = count i c.reqs + count i c.released

  conn_lost-held : (c : Connection R S) → held (cancel_on_conn_lost c) ≡ held c
  unfolding cancel_on_conn_lost
  conn_lost-held c = omega (
    arith,
    count-append i c.released (map stop (rejected survives c.reqs)),
    count-map i stop (λ ri. refl) (rejected survives c.reqs),
    count-map i mark_waiting (λ ri. refl) (filter_by survives c.reqs),
    count_parts i survives c.reqs,
  )

  unwritten-held : (c : Connection R S) → held (cancel_unwritten_requests c) ≡ held c
  unfolding cancel_unwritten_requests
  unwritten-held c = omega (
    arith,
    count-append i c.released (map stop (rejected is_sent c.reqs)),
    count-map i stop (λ ri. refl) (rejected is_sent c.reqs),
    count_parts i is_sent c.reqs,
  )

  cancel_impl-held : (op : Operation) (c : Connection R S) → held (cancel_impl op c) ≡ held c
  unfolding cancel_impl close
  cancel_impl-held exec c = unwritten-held c
  cancel_impl-held run c =
      let c' : Connection R S = record (close c) {
        cancel_run_called = true;
        writer_wakes = c.writer_wakes + 1;
        receive_cancels = c.receive_cancels + 1;
      } in
      if_intro (λ (d : Connection R S). held d ≡ held c) c.cancel_run_called c
        (cancel_on_conn_lost c') refl (conn_lost-held c')
  cancel_impl-held receive c = refl
  cancel_impl-held _ c = refl

  cancel-held : (op : Operation) (c : Connection R S) → held (cancel op c) ≡ held c
  unfolding cancel
  cancel-held all c =
      cancel_impl-held exec (cancel_impl receive (cancel_impl run c))
      ∙ cancel_impl-held receive (cancel_impl run c)
      ∙ cancel_impl-held run c
  cancel-held resolve c = refl
  cancel-held connect c = refl
  cancel-held ssl_handshake c = refl
  cancel-held exec c = cancel_impl-held exec c
  cancel-held run c = cancel_impl-held run c
  cancel-held receive c = cancel_impl-held receive c
  cancel-held reconnection c = refl
  cancel-held health_check c = refl

  add-held :
      (info : ReqInfo R) (c : Connection R S)
      → is_waiting info ≡ true
      → Partitioned c.reqs
      → held (add_request_info info c) ≡ one i info + held c
  unfolding add_request_info
  add-held info c w p =
      let e = count-enqueue i info c.reqs w p in
      if_intro (λ (d : Connection R S). held d ≡ one i info + held c)
        (c.is_open && not (is_writing c))
        (record c { reqs = enqueue info c.reqs; writer_wakes = c.writer_wakes + 1 })
        (record c { reqs = enqueue info c.reqs }) (omega (arith, e)) (omega (arith, e))

  write-held : (c : Connection R S) → held (on_write c) ≡ held c
  unfolding on_write cancel_push_requests
  write-held c = omega (
    arith,
    count-append i c.released (map proceed (filter_by is_staged_push c.reqs)),
    count-map i proceed (λ ri. refl) (filter_by is_staged_push c.reqs),
    count-map i mark_if_staged (λ ri. ground arith) (rejected is_staged_push c.reqs),
    count_parts i is_staged_push c.reqs,
  )

  coalesce-held : (c : Connection R S) → held (coalesce_requests c).0 ≡ held c
  unfolding coalesce_requests
  coalesce-held c = omega (
    arith,
    count-append i (take_while is_sent c.reqs) (map mark_staged (drop_while is_sent c.reqs)),
    count-append i (take_while is_sent c.reqs) (drop_while is_sent c.reqs),
    count-map i mark_staged (λ ri. refl) (drop_while is_sent c.reqs),
    ap (count i) (take_while-append-drop_while is_sent c.reqs),
  )

  remove_request-queue :
      (j : ℕ) (c d : Connection R S)
      → remove_request j c ≡ ok d
      → d.reqs ≡ rejected (has_id j) c.reqs
  unfolding remove_request
  remove_request-queue j c d e =
      ap (λ (x : Connection R S). x.reqs) (sym (erase_one-ok (filter_by (has_id j) c.reqs) _ d e))

  remove_request-released :
      (j : ℕ) (c d : Connection R S)
      → remove_request j c ≡ ok d
      → d.released ≡ c.released ++ filter_by (has_id j) c.reqs
  unfolding remove_request
  remove_request-released j c d e =
      ap (λ (x : Connection R S). x.released)
        (sym (erase_one-ok (filter_by (has_id j) c.reqs) _ d e))

  remove-held : (j : ℕ) (c d : Connection R S) → remove_request j c ≡ ok d → held d ≡ held c
  remove-held j c d e =
      rw (remove_request-queue j c d e, remove_request-released j c d e)
        (omega (
          arith,
          count-append i c.released (filter_by (has_id j) c.reqs),
          count_parts i (has_id j) c.reqs,
        ))

  Delivery-held : (c d : Connection R S) (r : ReadResult) → Delivery c d r → held d ≡ held c
  Delivery-held c d r (to_receiver q s _) = rw (q, s)
  Delivery-held c d r (more_to_come ri ris a q w _ q' s _) = rw (q, q', s)
  Delivery-held c d r (failed ri ris a e q w _ q' s _) = rw (q, q', s)
  Delivery-held c d r (answered ri ris a n q w _ _ q' s _) = rw (q, q', s)
  Delivery-held c d r (completed ri ris a n q w _ _ q' s _) =
      rw (q, q', s) (omega (arith, count-append i c.released))

module _ {R S : Type 0} (adapt : ℕ → R → Node → R × Option Failure)
    (receive_adapter : S → Node → S × Option Failure) (i : ℕ) where
  -- How often the step hands the request to the connection.
  abbrev pub handed_over : {c d : Connection R S} → Step adapt receive_adapter c d → ℕ
  handed_over (adds c j req response w) = one i (make_info j req response)
  handed_over _ = 0

  -- On a partitioned queue no step loses a request and none doubles it: a request is in the queue
  -- or among those handed back as often as before, and once more where the step adds it.
  pub Step-held :
      {c d : Connection R S} (st : Step adapt receive_adapter c d)
      → Partitioned c.reqs
      → held i d ≡ handed_over st + held i c
  unfolding reset_connection
  Step-held (adds c j req response w) p = add-held i (make_info j req response) c refl p
  Step-held (opens c) p = omega arith
  Step-held (coalesces c) p = omega (arith, coalesce-held i c)
  Step-held (writes c) p = omega (arith, write-held i c)
  Step-held (cancels c op) p = omega (arith, cancel-held i op c)
  Step-held (removes c d j e) p = omega (arith, remove-held i j c d e)
  Step-held (fills c more) p = omega arith
  Step-held (reads c d view r e) p =
      omega (arith, Delivery-held i c d r (read_Delivery adapt receive_adapter c d view r e))
  Step-held (resets c) p = omega arith
