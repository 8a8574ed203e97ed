-- ===== src/Health/Pongs.antt =====
-- `check_timeout_op` over many intervals, with the answers that arrive in each.
use aedis.Prelude.{
  ◌*◌, ◌≡◌, refl, ap, sym, true, false, Option, none, some, List, [], ◌∷◌, ◌++◌, All, append_assoc,
  append-nil, ◌∙◌,
}
use aedis.Prelude.Run.{Run, ok, ◌>>=◌}
use aedis.Error.{pong_timeout, Code, redis}
use aedis.Resp3.Node.{Node}
use aedis.Adapter.{value, error, is_error, general_aggregate}
use aedis.Adapter.Replies.{IsPlain}
use aedis.Response.{GenericResponse}
use aedis.Connection.{run, Connection}
use aedis.Connection.Queue.{cancel}
use aedis.Stages.{cancel_timer}
use aedis.Health.{
  HealthChecker, completed, ping_enter, CheckOut, waiting, checked, check_enter, check_response,
  check_waited,
}

-- The nodes reach the response.
abbrev pub arrive : List Node → Run GenericResponse → Run GenericResponse
arrive [] r = r
arrive (nd ∷ ns) r = arrive ns (general_aggregate r nd).0

module _ {R S : Type 0} where
  -- The timer expires behind the nodes of each interval.
  abbrev pub intervals : List (List Node) → CheckOut R S → Run (CheckOut R S)
  intervals [] out = ok out
  intervals (ns ∷ nss) (checked h c ec) = ok (checked h c ec)
  intervals (ns ∷ nss) (waiting h c) = arrive ns (ok h.resp) >>= λ r.
      intervals nss (check_waited none false (record h { resp = r }) c)

-- An interval with an answer, and no RESP3 error in it.
abbrev pub IsAnswered : List Node → Type 0
IsAnswered [] = ⊥
IsAnswered (nd ∷ ns) = All IsPlain (nd ∷ ns)

arrive-plain :
    (ns acc : List Node) → All IsPlain ns → arrive ns (ok (value acc)) ≡ ok (value (acc ++ ns))
unfolding general_aggregate
arrive-plain [] acc h = ap (λ x. ok (value x)) (sym (append-nil acc))
arrive-plain (nd ∷ ns) acc (h, hs) =
    rw (h, ← append_assoc acc (nd ∷ []) ns) (arrive-plain ns (acc ++ nd ∷ []) hs)

arrive-append :
    (ns ms : List Node) (r : Run GenericResponse) → arrive (ns ++ ms) r ≡ arrive ms (arrive ns r)
arrive-append [] ms r = refl
arrive-append (nd ∷ ns) ms r = arrive-append ns ms (general_aggregate r nd).0

module _ {R S : Type 0} where
  intervals-checked :
      (nss : List (List Node)) (h : HealthChecker) (c : Connection R S) (ec : Option Code)
      → intervals nss (checked h c ec) ≡ ok (checked h c ec)
  intervals-checked [] h c ec = refl
  intervals-checked (ns ∷ nss) h c ec = refl

  answered_once :
      (h : HealthChecker) (c : Connection R S) (ns : List Node) (nss : List (List Node))
      → IsAnswered ns
      → intervals (ns ∷ nss) (check_enter (record h { resp = value [] }) c)
        ≡ intervals nss (check_enter (record h { resp = value [] }) c)
  unfolding check_enter check_waited check_response
  answered_once h c [] nss a = absurd a
  answered_once h c (nd ∷ ns) nss a = rw (arrive-plain (nd ∷ ns) [] a) refl

  answered_through :
      (h : HealthChecker) (c : Connection R S) (nss later : List (List Node))
      → All IsAnswered nss
      → intervals (nss ++ later) (check_enter (record h { resp = value [] }) c)
        ≡ intervals later (check_enter (record h { resp = value [] }) c)
  answered_through h c [] later a = refl
  answered_through h c (ns ∷ nss) later (a, rest) =
      answered_once h c ns (nss ++ later) a ∙ answered_through h c nss later rest

  -- From an empty response: as long as something but an error arrives in every interval,
  -- `check_timeout_op` waits on and the response is empty again; in the first interval with no answer it
  -- cancels the run and completes with `pong_timeout`, whatever follows, and has `ping_op` end before the
  -- next ping.
  pub intervals-answered :
      (h : HealthChecker) (c : Connection R S) (nss later : List (List Node))
      → All IsAnswered nss
      → (intervals nss (check_enter (record h { resp = value [] }) c)
          ≡ ok (check_enter (record h { resp = value [] }) c))
        × (h' : HealthChecker) × (intervals
              (nss ++ [] ∷ later)
              (check_enter (record h { resp = value [] }) c)
            ≡ ok (checked h' (cancel run c) (some (redis pong_timeout))))
        × (ping_enter h' ≡ completed h' none)
  unfolding check_enter check_waited check_response ping_enter
  intervals-answered h c nss later a = (
    ap (λ x. intervals x (check_enter (record h { resp = value [] }) c)) (sym (append-nil nss))
        ∙ answered_through h c nss [] a,
    record h {
      resp = value [];
      wait_timer = record h.wait_timer { expires_after = 2 * h.ping_interval };
      ping_timer = cancel_timer h.ping_timer;
      checker_has_exited = true;
    },
    answered_through h c nss ([] ∷ later) a ∙ intervals-checked later _ _ _,
    refl,
  )

  -- A RESP3 error as the last node of an interval whose other nodes are none: `check_timeout_op` completes
  -- without an error code and leaves the connection as it is, whatever follows.
  pub intervals-error :
      (h : HealthChecker) (c : Connection R S) (ns : List Node) (nd : Node)
      (later : List (List Node))
      → All IsPlain ns
      → is_error nd.data_type ≡ true
      → intervals ((ns ++ nd ∷ []) ∷ later) (check_enter (record h { resp = value [] }) c)
        ≡ ok (
            checked
              (record h {
                resp = error nd.data_type nd.value;
                wait_timer = record h.wait_timer { expires_after = 2 * h.ping_interval };
              })
              c
              none)
  unfolding check_enter check_waited check_response general_aggregate
  intervals-error h c ns nd later p e =
      rw (arrive-append ns (nd ∷ []) (ok (value [])), arrive-plain ns [] p)
        (rw e (intervals-checked later _ _ _))
