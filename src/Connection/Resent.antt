-- ===== src/Connection/Resent.antt =====
-- What a new run sends of the requests that survived the loss of the connection.
use aedis.Prelude.{◌≡◌, refl, ap, ◌∙◌, false, List, [], ◌∷◌, ◌++◌, map, filter_by, if_cases}
use aedis.Connection.{run, ReqInfo, Connection}
use aedis.Connection.Queue.{
  is_waiting, mark_waiting, mark_staged, is_nonempty, survives, coalesce_requests, cancel,
  cancel_impl, cancel_on_conn_lost, close, reset_connection,
}
use aedis.Connection.Queue.Order.{Partitioned, Waiting-Partitioned, map-mark_waiting}
use aedis.Connection.Writing.{payloads, stage_waiting, filter_by_waiting, coalesce_requests-staged}

module _ {R : Type 0} where
  payloads-map : (ris : List (ReqInfo R)) → payloads (map mark_waiting ris) ≡ payloads ris
  payloads-map [] = refl
  payloads-map (ri ∷ ris) = ap (λ s. ri.req.payload ++ s) (payloads-map ris)

  nonempty-map : (ris : List (ReqInfo R)) → is_nonempty (map mark_waiting ris) ≡ is_nonempty ris
  nonempty-map [] = refl
  nonempty-map (ri ∷ ris) = refl

  stage_again :
      (ris : List (ReqInfo R)) → map stage_waiting (map mark_waiting ris) ≡ map mark_staged ris
  stage_again [] = refl
  stage_again (ri ∷ ris) = ap (◌∷◌ (mark_staged ri)) (stage_again ris)

module _ {R S : Type 0} (c : Connection R S) where
  abbrev pub next_run : Connection R S
  next_run = reset_connection (cancel run c)

  waiting_again :
      c.cancel_run_called ≡ false → next_run.reqs ≡ map mark_waiting (filter_by survives c.reqs)
  unfolding cancel cancel_impl cancel_on_conn_lost close reset_connection
  waiting_again e =
      if_cases (λ (d : Connection R S). d.reqs ≡ map mark_waiting (filter_by survives c.reqs))
        c.cancel_run_called _ _ (λ bad. cc) (λ _. refl)

  nothing_buffered : next_run.write_buffer ≡ []
  unfolding reset_connection
  nothing_buffered = refl

  -- Behind `cancel(operation::run)` on a running connection and the reset at the start of the next run,
  -- the first turn of the writer sends the payloads of the requests that survive, whole and in order,
  -- and nothing else, and has each of them wait for the responses that were still to come.
  pub coalesce_requests-next_run :
      c.cancel_run_called ≡ false
      → ((coalesce_requests next_run).0.write_buffer ≡ payloads (filter_by survives c.reqs))
        × ((coalesce_requests next_run).0.reqs ≡ map mark_staged (filter_by survives c.reqs))
        × ((coalesce_requests next_run).1 ≡ is_nonempty (filter_by survives c.reqs))
  coalesce_requests-next_run e =
      let q = waiting_again e in
      let left = filter_by survives c.reqs in
      let ws = map-mark_waiting left in
      let p : Partitioned next_run.reqs = rw q (Waiting-Partitioned (map mark_waiting left) ws) in
      let all_wait : filter_by is_waiting next_run.reqs ≡ map mark_waiting left =
        rw q (filter_by_waiting (map mark_waiting left) ws) in
      let (reqs, buffer, some) = coalesce_requests-staged next_run p in
      (
        buffer
            ∙ ap (λ s. s ++ payloads (filter_by is_waiting next_run.reqs)) nothing_buffered
            ∙ ap payloads all_wait
            ∙ payloads-map left,
        reqs ∙ ap (map stage_waiting) q ∙ stage_again left,
        some ∙ ap is_nonempty all_wait ∙ nonempty-map left,
      )
