-- ===== src/Reconnection/Examples.antt =====
-- A connection that is lost, waits, and is cancelled.
use aedis.Prelude.{◌≡◌, refl, inr, Bool, false, Option, none, some, List}
use aedis.Error.{Code}
use aedis.Resp3.Node.{Node}
use aedis.Connection.{all}
use aedis.Connection.Examples.{busy}
use aedis.Config.{default_config}
use aedis.Reconnection.{
  BasicConnection, ReconnectionOut, running, completed, cancel_basic, run_ended, wait_ended,
}
use aedis.Reconnection.Stopped.{ends, start, next, state, cancel-IsFinal}

abbrev basic : BasicConnection (List Node) (List Node)
basic = record {
  cfg = default_config;
  impl = busy;
  timer = record { expires_after = 0; cancels = 0 };
  runs = 1;
  stream_resets = 0;
}

abbrev stopped_basic : ReconnectionOut (List Node) (List Node)
stopped_basic = running (cancel_basic all basic)

abbrev ended : ReconnectionOut (List Node) (List Node)
ended = run_ended none false (cancel_basic all basic)

cancel-IsFinal_example :
    ((state ended).runs ≡ 1)
    × ((ec : Option Code) (x : Bool)
        → (e : Code) × (d : BasicConnection (List Node) (List Node)) × (run_ended ec x (state ended)
            ≡ completed d (some e)))
    × ((ec : Option Code) (x : Bool)
        → (e : Code) × (wait_ended ec x (state ended) ≡ completed (state ended) (some e)))
cancel-IsFinal_example =
    cancel-IsFinal all (running basic) (inr refl)
      (next (start stopped_basic) (ends (cancel_basic all basic) none false))
