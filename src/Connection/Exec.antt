-- ===== src/Connection/Exec.antt =====
-- `exec_op` (detail/connection_base.hpp): the life of one request.
--
-- Its first part runs when `async_exec` starts, and its second each time `async_wait` on the
-- notifier completes. The coroutine's cancellation state is an argument.
use aedis.Prelude.{ℕ, not, ◌&&◌, Option, none, some, if◌then◌else◌}
use aedis.Prelude.Run.{Run, ok, ◌>>=◌}
use aedis.Error.{not_connected, Code, redis, operation_aborted}
use aedis.Connection.{run, ReqInfo, Connection}
use aedis.Connection.Queue.{is_waiting, add_request_info, remove_request, cancel}

-- A cancellation signal: none, `terminal`, or another kind.
pub data Cancellation : Type 0 where
  not_cancelled terminal other : Cancellation

pub data ExecResult (R S : Type 0) : Type 0 where
  complete : Connection R S → Option Code → ℕ → ExecResult R S
  wait : Connection R S → ExecResult R S

module _ {R S : Type 0} where
  unfoldable pub exec_start : ReqInfo R → Connection R S → ExecResult R S
  exec_start info c =
      if info.req.cfg.cancel_if_not_connected && not c.is_open
      then complete c (some (redis not_connected)) 0
      else wait (add_request_info info c)

  unfoldable pub exec_cancelled : Cancellation → ReqInfo R → Connection R S → Run (ExecResult R S)
  exec_cancelled not_cancelled info c = ok (complete c none info.read_size)
  exec_cancelled terminal info c =
      if not (is_waiting info)
      then ok (complete (cancel run c) (some operation_aborted) 0)
      else (do c' ← remove_request info.id c; ok (complete c' (some operation_aborted) 0))
  exec_cancelled other info c =
      if not (is_waiting info)
      then ok (wait c)
      else (do c' ← remove_request info.id c; ok (complete c' (some operation_aborted) 0))

  unfoldable pub exec_wake : Cancellation → ReqInfo R → Connection R S → Run (ExecResult R S)
  unfolding exec_cancelled
  exec_wake how info c = elim info.ec [
    | some e ↦ ok (complete c (some (redis e)) 0)
    | none ↦
        if info.stopped
        then ok (complete c (some operation_aborted) 0)
        else exec_cancelled how info c
  ]
