-- ===== src/Runner/Examples.antt =====
-- Runs that fail in their stages.
use aedis.Prelude.{◌≡◌, refl, true, false, none, some, [], ◌∷◌}
use aedis.Error.{ssl_handshake_timeout, redis}
use aedis.Connection.{run}
use aedis.Connection.Queue.{cancel}
use aedis.Connection.Examples.{idle}
use aedis.Runner.{resolving, handshaking, suspended, completed}
use aedis.Runner.Outcome.{resumes, run_all-outcome}

-- The handshake's timer expires.
run_all-outcome_example :
    (resumes true
        ((none, false) ∷ (none, false) ∷ (some (redis ssl_handshake_timeout), false) ∷ [])
        (suspended resolving idle)
      ≡ completed (cancel run idle) (some (redis ssl_handshake_timeout)))
    × (resumes true
          ((none, false) ∷ (none, false) ∷ (none, false) ∷ (none, false) ∷ [])
          (suspended resolving idle)
        ≡ completed idle none)
run_all-outcome_example =
    run_all-outcome true 2 handshaking (some (redis ssl_handshake_timeout)) false [] idle refl refl
