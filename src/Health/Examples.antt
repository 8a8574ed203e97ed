-- ===== src/Health/Examples.antt =====
-- A server that answers two pings and then stops.
use aedis.Prelude.{◌≡◌, refl, ◌*◌, false, none, some, List, [], ◌∷◌, ◌++◌}
use aedis.Prelude.Bytes.{codes}
use aedis.Prelude.Run.{ok}
use aedis.Error.{pong_timeout, redis}
use aedis.Resp3.Types.{simple_string, simple_error}
use aedis.Resp3.Node.{Node}
use aedis.Resp3.Parser.{make_node}
use aedis.Request.{make_request}
use aedis.Request
use aedis.Adapter.{value, error}
use aedis.Connection.{run}
use aedis.Connection.Queue.{cancel}
use aedis.Connection.Examples.{idle}
use aedis.Stages.{Timer}
use aedis.Config.{seconds}
use aedis.Health.{HealthChecker, completed, ping_enter, checked, check_enter}
use aedis.Health.Pongs.{intervals, intervals-answered, intervals-error}

abbrev fresh_timer : Timer
fresh_timer = record { expires_after = 0; cancels = 0 }

abbrev checker : HealthChecker
checker = record {
  ping_timer = fresh_timer;
  wait_timer = fresh_timer;
  req = make_request Request.default_config;
  resp = value [];
  ping_interval = seconds 2;
  checker_has_exited = false;
}

abbrev pong : List Node
pong = make_node simple_string 1 0 (codes "Boost.Redis") ∷ []

intervals-answered_example :
    (intervals (pong ∷ pong ∷ []) (check_enter checker idle) ≡ ok (check_enter checker idle))
    × (h' : HealthChecker) × (intervals (pong ∷ pong ∷ [] ∷ pong ∷ []) (check_enter checker idle)
        ≡ ok (checked h' (cancel run idle) (some (redis pong_timeout))))
    × (ping_enter h' ≡ completed h' none)
intervals-answered_example =
    intervals-answered checker idle (pong ∷ pong ∷ []) (pong ∷ []) ((refl, tt), ((refl, tt), tt))

intervals-error_example :
    intervals
      ((pong ++ make_node simple_error 1 0 (codes "LOADING") ∷ []) ∷ pong ∷ [])
      (check_enter checker idle)
    ≡ ok (
        checked
          (record checker {
            resp = error simple_error (codes "LOADING");
            wait_timer = record fresh_timer { expires_after = 2 * seconds 2 };
          })
          idle
          none)
intervals-error_example =
    intervals-error checker idle pong (make_node simple_error 1 0 (codes "LOADING")) (pong ∷ [])
      (refl, tt) refl
