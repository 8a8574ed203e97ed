-- ===== src/Connection/Steps.antt =====
-- Everything that happens to a connection, as a step relation, and what every history keeps.
use aedis.Prelude.{
  ap, sym, ◌<◌, refl, word_mod, ℕ, ◌+◌, ◌≡◌, true, Option, [], ◌++◌, map, filter_by, rejected,
  take_while, drop_while, if_intro, append-nil,
}
use aedis.Prelude.Bytes.{Bytes}
use aedis.Prelude.Run.{ok}
use aedis.Error.{Failure}
use aedis.Resp3.Node.{Node}
use aedis.Connection.{
  Operation, resolve, connect, ssl_handshake, exec, run, receive, reconnection, health_check, all,
  ReqInfo, Connection,
}
use aedis.Request.{Request}
use aedis.Connection.Queue.{
  make_info, is_waiting, is_sent, mark_staged, survives, has_id, add_request_info,
  coalesce_requests, on_write, cancel_on_conn_lost, close, cancel_impl, cancel, remove_request,
  erase_one-ok, reset_connection,
}
use aedis.Connection.Queue.Order.{
  IsSent, Partitioned, All-append, Waiting-Partitioned, append-Partitioned, take_while-Sent,
  filter_by-Partitioned, map_staged-Sent, map-mark_waiting, map_written-Partitioned,
  enqueue-Partitioned,
}
use aedis.Connection.Read.{ReadResult, on_read}
use aedis.Connection.Read.Delivery.{
  Delivery, to_receiver, more_to_come, failed, answered, completed, on_read-Delivery,
}

module _ {R S : Type 0} where
  coalesce-Partitioned :
      (c : Connection R S) → Partitioned c.reqs → Partitioned (coalesce_requests c).0.reqs
  unfolding coalesce_requests
  coalesce-Partitioned c p =
      rw (← append-nil (take_while is_sent c.reqs ++ map mark_staged (drop_while is_sent c.reqs))) (
        append-Partitioned
          (take_while is_sent c.reqs ++ map mark_staged (drop_while is_sent c.reqs)) []
          (All-append IsSent _ _ (take_while-Sent c.reqs)
            (map_staged-Sent (drop_while is_sent c.reqs)))
          tt)

  conn_lost-Partitioned : (c : Connection R S) → Partitioned (cancel_on_conn_lost c).reqs
  unfolding cancel_on_conn_lost
  conn_lost-Partitioned c = Waiting-Partitioned _ (map-mark_waiting (filter_by survives c.reqs))

  pub cancel_impl-Partitioned :
      (op : Operation) (c : Connection R S)
      → Partitioned c.reqs
      → Partitioned (cancel_impl op c).reqs
  unfolding cancel_impl
  cancel_impl-Partitioned exec c p = filter_by-Partitioned is_sent c.reqs p
  cancel_impl-Partitioned run c p =
      let c' : Connection R S = record (close c) {
        cancel_run_called = true;
        writer_wakes = c.writer_wakes + 1;
        receive_cancels = c.receive_cancels + 1;
      } in
      if_intro (λ (d : Connection R S). Partitioned d.reqs) c.cancel_run_called c
        (cancel_on_conn_lost c') p (conn_lost-Partitioned c')
  cancel_impl-Partitioned receive c p = p
  cancel_impl-Partitioned _ c p = p

  cancel-Partitioned :
      (op : Operation) (c : Connection R S) → Partitioned c.reqs → Partitioned (cancel op c).reqs
  unfolding cancel
  cancel-Partitioned all c p =
      cancel_impl-Partitioned exec (cancel_impl receive (cancel_impl run c))
        (cancel_impl-Partitioned receive (cancel_impl run c) (cancel_impl-Partitioned run c p))
  cancel-Partitioned resolve c p = cancel_impl-Partitioned resolve c p
  cancel-Partitioned connect c p = cancel_impl-Partitioned connect c p
  cancel-Partitioned ssl_handshake c p = cancel_impl-Partitioned ssl_handshake c p
  cancel-Partitioned exec c p = cancel_impl-Partitioned exec c p
  cancel-Partitioned run c p = cancel_impl-Partitioned run c p
  cancel-Partitioned receive c p = cancel_impl-Partitioned receive c p
  cancel-Partitioned reconnection c p = cancel_impl-Partitioned reconnection c p
  cancel-Partitioned health_check c p = cancel_impl-Partitioned health_check c p

  add-Partitioned :
      (info : ReqInfo R) (c : Connection R S)
      → is_waiting info ≡ true
      → Partitioned c.reqs
      → Partitioned (add_request_info info c).reqs
  unfolding add_request_info
  add-Partitioned info c w p =
      if_intro (λ (d : Connection R S). Partitioned d.reqs) _ _ _
        (enqueue-Partitioned info c.reqs w p) (enqueue-Partitioned info c.reqs w p)

  pub write-Partitioned : (c : Connection R S) → Partitioned c.reqs → Partitioned (on_write c).reqs
  unfolding on_write
  write-Partitioned c p = map_written-Partitioned _ (filter_by-Partitioned _ c.reqs p)

  pub remove_request-reqs :
      (i : ℕ) (c d : Connection R S)
      → remove_request i c ≡ ok d
      → d.reqs ≡ rejected (has_id i) c.reqs
  unfolding remove_request
  remove_request-reqs i c d e =
      ap (λ (x : Connection R S). x.reqs) (sym (erase_one-ok (filter_by (has_id i) c.reqs) _ d e))

  remove-Partitioned :
      (i : ℕ) (c d : Connection R S)
      → remove_request i c ≡ ok d
      → Partitioned c.reqs
      → Partitioned d.reqs
  remove-Partitioned i c d e p = rw (remove_request-reqs i c d e) (filter_by-Partitioned _ c.reqs p)

  Delivery-Partitioned :
      (c d : Connection R S) (r : ReadResult)
      → Delivery c d r
      → Partitioned c.reqs
      → Partitioned d.reqs
  Delivery-Partitioned c d r (to_receiver q _ _) p = rw q p
  Delivery-Partitioned c d r (more_to_come ri ris a q w _ q' _ _) p =
      let p' = rw q at p in rw q' (p'.0, p'.1)
  Delivery-Partitioned c d r (failed ri ris a e q w _ q' _ _) p =
      let p' = rw q at p in rw q' (p'.0, p'.1)
  Delivery-Partitioned c d r (answered ri ris a n q w _ _ q' _ _) p =
      let p' = rw q at p in rw q' (p'.0, p'.1)
  Delivery-Partitioned c d r (completed ri ris a n q w _ _ q' _ _) p =
      let p' = rw q at p in rw q' p'.1

module _ {R S : Type 0} (adapt : ℕ → R → Node → R × Option Failure)
    (receive_adapter : S → Node → S × Option Failure) where
  -- One call of a member function, the socket's being opened, or bytes that `append_some_op` put in
  -- the buffer. `async_exec` makes the request's info; the bound is that of std::size_t.
  pub data Step : Connection R S → Connection R S → Type 0 where
    adds :
        (c : Connection R S) (i : ℕ) (req : Request) (response : R)
        → req.expected_responses < word_mod
        → Step c (add_request_info (make_info i req response) c)
    opens : (c : Connection R S) → Step c (record c { is_open = true })
    coalesces : (c : Connection R S) → Step c (coalesce_requests c).0
    writes : (c : Connection R S) → Step c (on_write c)
    cancels : (c : Connection R S) (op : Operation) → Step c (cancel op c)
    removes : (c d : Connection R S) (i : ℕ) → remove_request i c ≡ ok d → Step c d
    fills :
        (c : Connection R S) (more : Bytes)
        → Step c (record c { read_buffer = c.read_buffer ++ more })
    reads :
        (c d : Connection R S) (view : Bytes) (r : ReadResult)
        → on_read adapt receive_adapter c view ≡ ok (d, r)
        → Step c d
    resets : (c : Connection R S) → Step c (reset_connection c)

  pub read_Delivery :
      (c d : Connection R S) (view : Bytes) (r : ReadResult)
      → on_read adapt receive_adapter c view ≡ ok (d, r)
      → Delivery c d r
  read_Delivery c d view r e = rw e at (on_read-Delivery adapt receive_adapter c view)

  -- Every step keeps the queue partitioned: what was sent stands in front of what waits, which the
  -- binary searches of `coalesce_requests` and `add_request_info` rely on.
  pub Step-Partitioned : {c d : Connection R S} → Step c d → Partitioned c.reqs → Partitioned d.reqs
  unfolding reset_connection
  Step-Partitioned (adds c i req response w) p = add-Partitioned (make_info i req response) c refl p
  Step-Partitioned (opens c) p = p
  Step-Partitioned (coalesces c) p = coalesce-Partitioned c p
  Step-Partitioned (writes c) p = write-Partitioned c p
  Step-Partitioned (cancels c op) p = cancel-Partitioned op c p
  Step-Partitioned (removes c d i e) p = remove-Partitioned i c d e p
  Step-Partitioned (fills c more) p = p
  Step-Partitioned (reads c d view r e) p =
      Delivery-Partitioned c d r (read_Delivery c d view r e) p
  Step-Partitioned (resets c) p = p
