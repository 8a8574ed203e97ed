-- ===== src/Reconnection.antt =====
-- connection.hpp and impl/connection.ipp: `basic_connection`, which runs the connection again and again.
--
-- `runs` counts the calls of `impl_.async_run`, `stream_resets` those of `reset_stream`; the error code
-- and the cancellation state behind each suspension are arguments.
pub mod Stopped
pub mod Examples
use aedis.Prelude.{ℕ, ◌+◌, Bool, true, false, not, ◌||◌, Option, none, some, ◌==◌, if◌then◌else◌}
use aedis.Prelude.Run.{Run}
use aedis.Error.{Code, operation_aborted}
use aedis.Connection
use aedis.Connection.{Operation, receive, reconnection, all}
use aedis.Connection.Queue
use aedis.Stages.{Timer, cancel_timer, must_stop, or_aborted}
use aedis.Config

pub record BasicConnection (R S : Type 0) : Type 0 where
  pub cfg : Config.Config
  pub impl : Connection.Connection R S
  pub timer : Timer
  pub runs : ℕ
  pub stream_resets : ℕ

-- `reconnection_op`: in a run of the connection, waiting, or complete.
pub data ReconnectionOut (R S : Type 0) : Type 0 where
  running waiting : BasicConnection R S → ReconnectionOut R S
  completed : BasicConnection R S → Option Code → ReconnectionOut R S

module _ {R S : Type 0} where
  abbrev pub stop_reconnecting : BasicConnection R S → BasicConnection R S
  stop_reconnecting b = record b {
    cfg = record b.cfg { reconnect_wait_interval = 0 };
    timer = cancel_timer b.timer;
  }

  abbrev pub stop_timer : Operation → BasicConnection R S → BasicConnection R S
  stop_timer reconnection b = stop_reconnecting b
  stop_timer all b = stop_reconnecting b
  stop_timer _ b = b

  -- `cancel`
  unfoldable pub cancel_basic : Operation → BasicConnection R S → BasicConnection R S
  cancel_basic op b = record (stop_timer op b) { impl = Queue.cancel op b.impl }

  unfoldable pub will_reconnect : BasicConnection R S → Bool
  will_reconnect b = not (b.cfg.reconnect_wait_interval == 0)

  -- A new stream takes the place of the old one, and is not open.
  abbrev pub reset_stream : BasicConnection R S → BasicConnection R S
  reset_stream b = record b {
    impl = record b.impl { is_open = false };
    stream_resets = b.stream_resets + 1;
  }

  -- The head of the loop: `impl_.async_run`.
  unfoldable pub start_run : BasicConnection R S → ReconnectionOut R S
  start_run b = running (record b { runs = b.runs + 1 })

  -- `async_run`
  unfoldable pub run_basic : Config.Config → BasicConnection R S → ReconnectionOut R S
  unfolding start_run
  run_basic cfg b = start_run (record b { cfg = cfg })

  -- Behind a run.
  unfoldable pub run_ended : Option Code → Bool → BasicConnection R S → ReconnectionOut R S
  unfolding cancel_basic will_reconnect
  run_ended ec cancelled b =
      let c = cancel_basic receive b in
      if not (will_reconnect c) || cancelled
      then completed (cancel_basic reconnection c) (some (or_aborted ec))
      else waiting
          (record c { timer = record c.timer { expires_after = c.cfg.reconnect_wait_interval } })

  -- Behind the wait.
  unfoldable pub wait_ended : Option Code → Bool → BasicConnection R S → ReconnectionOut R S
  unfolding will_reconnect start_run
  wait_ended ec cancelled b =
      if must_stop ec cancelled
      then completed b (some (or_aborted ec))
      else if not (will_reconnect b)
      then completed b (some operation_aborted)
      else start_run (reset_stream b)
