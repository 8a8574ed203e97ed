-- ===== src/Reconnection/Stopped.antt =====
-- What starts another run, and what does not.
use aedis.Prelude.{ℕ, ◌≡◌, ◌⊎◌, inl, inr, refl, Bool, false, Option, some, arith, Bool-cases}
use aedis.Error.{Code, operation_aborted}
use aedis.Connection
use aedis.Connection.{
  Operation, resolve, connect, ssl_handshake, exec, run, receive, reconnection, health_check, all,
}
use aedis.Stages.{or_aborted, must_stop}
use aedis.Reconnection.{
  BasicConnection, ReconnectionOut, running, waiting, completed, cancel_basic, will_reconnect,
  run_ended, wait_ended,
}

module _ {R S : Type 0} where
  abbrev pub state : ReconnectionOut R S → BasicConnection R S
  state (running b) = b
  state (waiting b) = b
  state (completed b ec) = b

  abbrev pub with_state : ReconnectionOut R S → BasicConnection R S → ReconnectionOut R S
  with_state (running b) b' = running b'
  with_state (waiting b) b' = waiting b'
  with_state (completed b ec) b' = completed b' ec

  -- Whatever can happen: the end of a run or of a wait, a call of `cancel`, and whatever changes the
  -- connection that is run.
  pub data Step : ReconnectionOut R S → ReconnectionOut R S → Type 0 where
    ends :
        (b : BasicConnection R S) (ec : Option Code) (x : Bool)
        → Step (running b) (run_ended ec x b)
    waits :
        (b : BasicConnection R S) (ec : Option Code) (x : Bool)
        → Step (waiting b) (wait_ended ec x b)
    cancels :
        (out : ReconnectionOut R S) (op : Operation)
        → Step out (with_state out (cancel_basic op (state out)))
    works :
        (out : ReconnectionOut R S) (d : Connection.Connection R S)
        → Step out (with_state out (record (state out) { impl = d }))

  pub data Steps : ReconnectionOut R S → ReconnectionOut R S → Type 0 where
    start : (out : ReconnectionOut R S) → Steps out out
    next : {o p q : ReconnectionOut R S} → Steps o p → Step p q → Steps o q

  -- No run will be started from here: so many were.
  abbrev pub IsStopped : ℕ → BasicConnection R S → Type 0
  IsStopped n b = (b.cfg.reconnect_wait_interval ≡ 0) × (b.runs ≡ n)

  cancel-IsStopped :
      (op : Operation) (n : ℕ) (b : BasicConnection R S)
      → IsStopped n b
      → IsStopped n (cancel_basic op b)
  unfolding cancel_basic
  cancel-IsStopped reconnection n b h = (refl, h.1)
  cancel-IsStopped all n b h = (refl, h.1)
  cancel-IsStopped resolve n b h = h
  cancel-IsStopped connect n b h = h
  cancel-IsStopped ssl_handshake n b h = h
  cancel-IsStopped exec n b h = h
  cancel-IsStopped run n b h = h
  cancel-IsStopped receive n b h = h
  cancel-IsStopped health_check n b h = h

  stopped : (n : ℕ) (b : BasicConnection R S) → IsStopped n b → will_reconnect b ≡ false
  unfolding will_reconnect
  stopped n b h = ground (arith, h.0)

  run_ended-completed :
      (n : ℕ) (b : BasicConnection R S) (ec : Option Code) (x : Bool)
      → IsStopped n b
      → run_ended ec x b
        ≡ completed (cancel_basic reconnection (cancel_basic receive b)) (some (or_aborted ec))
  unfolding run_ended
  run_ended-completed n b ec x h =
      rw (stopped n (cancel_basic receive b) (cancel-IsStopped receive n b h)) refl

  wait_ended-completed :
      (n : ℕ) (b : BasicConnection R S) (ec : Option Code) (x : Bool)
      → IsStopped n b
      → (e : Code) × (wait_ended ec x b ≡ completed b (some e))
  unfolding wait_ended
  wait_ended-completed n b ec x h = elim (Bool-cases (must_stop ec x)) [
    | inl m ↦ (or_aborted ec, rw m refl)
    | inr m ↦ (operation_aborted, rw (m, stopped n b h) refl)
  ]

  step-IsStopped :
      (n : ℕ) {o p : ReconnectionOut R S} → Step o p → IsStopped n (state o) → IsStopped n (state p)
  step-IsStopped n (ends b ec x) h =
      rw (run_ended-completed n b ec x h)
        (cancel-IsStopped reconnection n _ (cancel-IsStopped receive n b h))
  step-IsStopped n (waits b ec x) h = let (e, q) = wait_ended-completed n b ec x h in rw q h
  step-IsStopped n (cancels (running b) op) h = cancel-IsStopped op n b h
  step-IsStopped n (cancels (waiting b) op) h = cancel-IsStopped op n b h
  step-IsStopped n (cancels (completed b ec) op) h = cancel-IsStopped op n b h
  step-IsStopped n (works (running b) d) h = h
  step-IsStopped n (works (waiting b) d) h = h
  step-IsStopped n (works (completed b ec) d) h = h

  history-IsStopped :
      (n : ℕ) {o p : ReconnectionOut R S}
      → Steps o p
      → IsStopped n (state o)
      → IsStopped n (state p)
  history-IsStopped n (start o) h = h
  history-IsStopped n (next hist st) h = step-IsStopped n st (history-IsStopped n hist h)

  cancel-stops :
      (op : Operation) (b : BasicConnection R S)
      → (op ≡ reconnection) ⊎ (op ≡ all)
      → IsStopped b.runs (cancel_basic op b)
  unfolding cancel_basic
  cancel-stops op b (inl e) = rw e (refl, refl)
  cancel-stops op b (inr e) = rw e (refl, refl)

  -- Behind `cancel` of the reconnection or of all operations, in whatever state it is called and
  -- whatever happens then in whatever order but a new call of `async_run`, no further run is
  -- started, and the next end of a run or of a wait completes `async_run` with an error.
  pub cancel-IsFinal :
      (op : Operation) (o : ReconnectionOut R S) {p : ReconnectionOut R S}
      → (op ≡ reconnection) ⊎ (op ≡ all)
      → Steps (with_state o (cancel_basic op (state o))) p
      → ((state p).runs ≡ (state o).runs)
        × ((ec : Option Code) (x : Bool)
            → (e : Code) × (d : BasicConnection R S) × (run_ended ec x (state p)
                ≡ completed d (some e)))
        × ((ec : Option Code) (x : Bool)
            → (e : Code) × (wait_ended ec x (state p) ≡ completed (state p) (some e)))
  cancel-IsFinal op o {p} w hist =
      let h = history-IsStopped (state o).runs hist (at_start o) in
      (
        h.1,
        λ ec x. (or_aborted ec, _, run_ended-completed (state o).runs (state p) ec x h),
        λ ec x. wait_ended-completed (state o).runs (state p) ec x h,
      )
    where
      at_start :
          (q : ReconnectionOut R S)
          → IsStopped (state q).runs (state (with_state q (cancel_basic op (state q))))
      at_start (running b) = cancel-stops op b w
      at_start (waiting b) = cancel-stops op b w
      at_start (completed b ec) = cancel-stops op b w
