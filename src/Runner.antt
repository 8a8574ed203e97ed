-- ===== src/Runner.antt =====
-- detail/runner.hpp: the runner, which prepares a run of the connection and watches it.
--
-- The error code and the cancellation state behind each suspension are arguments; so are the order
-- in which the members of a parallel group complete and their codes.
pub mod Outcome
pub mod Examples
use aedis.Prelude.{
  ℕ, zero, suc, Bool, true, false, not, ◌&&◌, ◌||◌, Option, none, some, ◌==◌, if◌then◌else◌,
}
use aedis.Prelude.Run.{Run, ok, crash, assertion, ◌>>=◌}
use aedis.Error.{
  Error, resolve_timeout, connect_timeout, pong_timeout, make_error_code, Code, redis,
  operation_aborted, system,
}
use aedis.Request.{Request}
use aedis.Response.{GenericResponse}
use aedis.Connection.{Operation, run, Connection}
use aedis.Connection.Queue.{cancel, reset_connection}
use aedis.Stages.{
  is_set_code, must_stop, or_aborted, Resolver, cancel_resolver, configure_resolver, Connector,
  cancel_connector, configure_connector, Handshaker, cancel_handshaker, configure_handshaker,
}
use aedis.Health.{HealthChecker, cancel_checker, configure_checker}
use aedis.Config

-- `L` is the type of the resolver's results, and `E` that of an endpoint.
pub record Runner (L E : Type 0) : Type 0 where
  pub resolver : Resolver L
  pub connector : Connector E
  pub handshaker : Handshaker
  pub health_checker : HealthChecker
  pub hello_req : Request
  pub hello_resp : GenericResponse
  pub cfg : Config.Config

module _ {L E : Type 0} where
  unfoldable pub cancel_runner : Operation → Runner L E → Runner L E
  cancel_runner op r = record r {
    resolver = cancel_resolver op r.resolver;
    connector = cancel_connector op r.connector;
    handshaker = cancel_handshaker op r.handshaker;
    health_checker = cancel_checker op r.health_checker;
  }

  unfoldable pub configure_runner : Config.Config → Runner L E → Run (Runner L E)
  configure_runner cfg r = do
    h ← configure_checker cfg r.health_checker
    ok (record r {
      cfg = cfg;
      resolver = configure_resolver cfg r.resolver;
      connector = configure_connector cfg r.connector;
      handshaker = configure_handshaker cfg r.handshaker;
      health_checker = h;
    })

-- Where `run_all_op` is suspended.
pub data Phase : Type 0 where
  resolving connecting handshaking running : Phase

pub data RunAllOut (R S : Type 0) : Type 0 where
  suspended : Phase → Connection R S → RunAllOut R S
  completed : Connection R S → Option Code → RunAllOut R S

abbrev pub next_phase : Bool → Phase → Phase
next_phase use_ssl resolving = connecting
next_phase use_ssl connecting = if use_ssl then handshaking else running
next_phase use_ssl _ = running

-- What is done before a failure in a phase is reported.
abbrev pub leave_phase : {R S : Type 0} → Phase → Connection R S → Connection R S
leave_phase running c = c
leave_phase _ c = cancel run c

abbrev pub enter_phase :
    {R S : Type 0} → Bool → Phase → Option Code → Connection R S → RunAllOut R S
enter_phase use_ssl running ec c = completed c ec
enter_phase use_ssl ph ec c = suspended (next_phase use_ssl ph) c

-- `run_all_op` behind a suspension.
unfoldable pub run_all_next :
    {R S : Type 0} → Bool → Phase → Option Code → Bool → Connection R S → RunAllOut R S
run_all_next use_ssl ph ec cancelled c =
    if must_stop ec cancelled
    then completed (leave_phase ph c) (some (or_aborted ec))
    else enter_phase use_ssl ph ec c

-- `ec == e`
abbrev pub is_code : Error → Option Code → Bool
is_code e none = false
is_code e (some (redis e')) = make_error_code e == make_error_code e'
is_code e (some operation_aborted) = false
is_code e (some (system n)) = false

-- `runner_op` behind its group: the run is 0, the health check 1 and the greeting 2.
unfoldable pub runner_done : Bool → ℕ → Option Code → Option Code → Option Code → Option Code
unfolding make_error_code
runner_done cancelled order ec0 ec1 ec2 =
    if cancelled
    then some operation_aborted
    else if is_code connect_timeout ec0 || is_code resolve_timeout ec0
    then ec0
    else if order == 2 && is_set_code ec2
    then ec2
    else if order == 1 && is_code pong_timeout ec1
    then ec1
    else ec0

-- `run_op` (detail/connection_base.hpp): before its group of the reader and the writer, and behind it.
unfoldable pub run_start : {R S : Type 0} → Connection R S → Connection R S
run_start c = reset_connection c

unfoldable pub run_done : Bool → ℕ → Option Code → Option Code → Run (Option Code)
run_done true order ec0 ec1 = ok (some operation_aborted)
run_done false zero ec0 ec1 = ok ec0
run_done false (suc zero) ec0 ec1 = ok ec1
run_done false (suc (suc n)) ec0 ec1 = crash assertion
