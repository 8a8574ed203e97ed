-- ===== src/Connection/Cancelled.antt =====
-- The cancellation of `async_exec` (`exec_op` in detail/connection_base.hpp).
use aedis.Prelude.{◌≡◌, refl, false, some, filter_by, map, All, if_cases}
use aedis.Prelude.Run.{ok}
use aedis.Error.{operation_aborted}
use aedis.Connection.{run, ReqInfo, Connection}
use aedis.Connection.Queue.{
  is_waiting, mark_waiting, survives, cancel, cancel_impl, cancel_on_conn_lost,
}
use aedis.Connection.Queue.Order.{IsWaiting, map-mark_waiting}
use aedis.Connection.Ownership.{count, count-map}
use aedis.Connection.Exec.{terminal, complete, exec_cancelled}

module _ {R S : Type 0} where
  run-reqs :
      (c : Connection R S)
      → c.cancel_run_called ≡ false
      → (cancel run c).reqs ≡ map mark_waiting (filter_by survives c.reqs)
  unfolding cancel cancel_impl cancel_on_conn_lost
  run-reqs c e =
      if_cases (λ (d : Connection R S). d.reqs ≡ map mark_waiting (filter_by survives c.reqs))
        c.cancel_run_called _ _ (λ bad. cc) (λ _. refl)

  -- A terminal cancellation of a request that was sent, on a connection that runs: `exec_op`
  -- completes with `operation_aborted`, but the request is still in the queue as often as it is
  -- among those that survive the loss of the connection, and waits to be sent again.
  pub exec_cancelled-sent :
      (info : ReqInfo R) (c : Connection R S)
      → is_waiting info ≡ false
      → c.cancel_run_called ≡ false
      → (d : Connection R S) × (exec_cancelled terminal info c
          ≡ ok (complete d (some operation_aborted) 0))
        × (count info.id d.reqs ≡ count info.id (filter_by survives c.reqs))
        × All IsWaiting d.reqs
  unfolding exec_cancelled
  exec_cancelled-sent info c w running = (
    cancel run c,
    rw w refl,
    rw (run-reqs c running)
        (count-map info.id mark_waiting (λ ri. refl) (filter_by survives c.reqs)),
    rw (run-reqs c running) (map-mark_waiting (filter_by survives c.reqs)),
  )
