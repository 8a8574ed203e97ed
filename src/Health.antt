-- ===== src/Health.antt =====
-- detail/health_checker.hpp: the pings that show whether the server still answers.
--
-- `ping_op` and `check_timeout_op` run side by side between the points where they suspend; the error
-- codes of what they wait for and the cancellation states of their coroutines are arguments. The
-- responses to the pings arrive in `resp` through the adapter of a generic response.
pub mod Pongs
pub mod Examples
use aedis.Prelude.{
  ℕ, zero, suc, ◌+◌, ◌*◌, Bool, true, false, not, ◌||◌, Option, none, some, List, [], ◌∷◌, ◌==◌,
  if◌then◌else◌,
}
use aedis.Prelude.Bytes.{codes}
use aedis.Prelude.Run.{Run, ok, crash, assertion, ◌>>=◌}
use aedis.Error.{pong_timeout, Code, redis, operation_aborted}
use aedis.Resp3.Node.{Node}
use aedis.Resp3.Serialization.{text}
use aedis.Request.{Request, clear, push}
use aedis.Adapter.{value, error}
use aedis.Response.{GenericResponse}
use aedis.Connection.{Operation, run, health_check, all, Connection}
use aedis.Connection.Queue.{cancel}
use aedis.Stages.{Timer, cancel_timer, must_stop, or_aborted}
use aedis.Config

pub record HealthChecker : Type 0 where
  pub ping_timer : Timer
  pub wait_timer : Timer
  pub req : Request
  pub resp : GenericResponse
  pub ping_interval : ℕ
  pub checker_has_exited : Bool

-- Behind the constructor of the members.
unfoldable pub greet_checker : HealthChecker → Run HealthChecker
greet_checker h = do
  q ← push h.req (codes "PING") (text (codes "Boost.Redis") ∷ [])
  ok (record h { req = q })

unfoldable pub configure_checker : Config.Config → HealthChecker → Run HealthChecker
configure_checker cfg h = do
  q ← push (clear h.req) (codes "PING") (text cfg.health_check_id ∷ [])
  ok (record h { req = q; ping_interval = cfg.health_check_interval })

abbrev pub cancel_timers : HealthChecker → HealthChecker
cancel_timers h = record h {
  ping_timer = cancel_timer h.ping_timer;
  wait_timer = cancel_timer h.wait_timer;
}

unfoldable pub cancel_checker : Operation → HealthChecker → HealthChecker
cancel_checker health_check h = cancel_timers h
cancel_checker all h = cancel_timers h
cancel_checker _ h = h

-- `ping_op`: in `async_exec` of the ping, waiting for the interval, or complete.
pub data PingOut : Type 0 where
  executing : HealthChecker → PingOut
  resting : HealthChecker → PingOut
  completed : HealthChecker → Option Code → PingOut

unfoldable pub ping_enter : HealthChecker → PingOut
ping_enter h = if h.checker_has_exited then completed h none else executing h

-- Behind `async_exec`.
unfoldable pub ping_executed : Option Code → Bool → HealthChecker → PingOut
ping_executed ec cancelled h =
    if must_stop ec cancelled
    then completed (record h { wait_timer = cancel_timer h.wait_timer }) (some (or_aborted ec))
    else resting (record h { ping_timer = record h.ping_timer { expires_after = h.ping_interval } })

-- Behind the wait for the interval.
unfoldable pub ping_rested : Option Code → Bool → HealthChecker → PingOut
unfolding ping_enter
ping_rested ec cancelled h =
    if must_stop ec cancelled then completed h (some (or_aborted ec)) else ping_enter h

-- `check_timeout_op`: waiting for the timer, or complete.
pub data CheckOut (R S : Type 0) : Type 0 where
  waiting : HealthChecker → Connection R S → CheckOut R S
  checked : HealthChecker → Connection R S → Option Code → CheckOut R S

module _ {R S : Type 0} where
  unfoldable pub check_enter : HealthChecker → Connection R S → CheckOut R S
  check_enter h c =
      waiting
        (record h { wait_timer = record h.wait_timer { expires_after = 2 * h.ping_interval } }) c

  unfoldable pub check_response : GenericResponse → HealthChecker → Connection R S → CheckOut R S
  unfolding check_enter
  check_response (error t d) h c = checked h c none
  check_response (value []) h c =
      checked (record h { ping_timer = cancel_timer h.ping_timer; checker_has_exited = true })
        (cancel run c) (some (redis pong_timeout))
  check_response (value (nd ∷ ns)) h c = check_enter (record h { resp = value [] }) c

  -- Behind the wait for the timer.
  unfoldable pub check_waited : Option Code → Bool → HealthChecker → Connection R S → CheckOut R S
  unfolding check_response
  check_waited ec cancelled h c =
      if must_stop ec cancelled
      then checked h c (some (or_aborted ec))
      else check_response h.resp h c

-- `async_check_health`
unfoldable pub async_check_health : HealthChecker → HealthChecker
async_check_health h = record h { checker_has_exited = false }

-- `check_health_op`: whether it starts the two, or ends since no interval is set.
unfoldable pub starts_checks : HealthChecker → Bool
starts_checks h = not (h.ping_interval == 0)

-- Behind the group of `ping_op` and `check_timeout_op`.
unfoldable pub check_health_done : Bool → ℕ → Option Code → Option Code → Run (Option Code)
check_health_done true order ec1 ec2 = ok (some operation_aborted)
check_health_done false zero ec1 ec2 = ok ec1
check_health_done false (suc zero) ec1 ec2 = ok ec2
check_health_done false (suc (suc n)) ec1 ec2 = crash assertion
