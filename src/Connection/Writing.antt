-- ===== src/Connection/Writing.antt =====
-- A turn of the writer: what `coalesce_requests` stages and what `on_write` makes of it.
use aedis.Prelude.{
  ◌≡◌, refl, sym, ap, ◌∙◌, Bool, false, ◌&&◌, List, [], ◌∷◌, ◌++◌, append_assoc, append-nil, map,
  All, arith, if◌then◌else◌, if_cases, filter_by, rejected, take_while, drop_while, Bool-cases,
  ◌==◌, inl, inr,
}
use aedis.Prelude.Bytes.{Bytes}
use aedis.Connection.{all, receive, exec, ReqInfo, Connection}
use aedis.Connection.Queue.{
  is_waiting, is_staged, is_sent, mark_waiting, mark_staged, mark_written, mark_if_staged, proceed,
  stage_buffer, is_staged_push, is_nonempty, coalesce_requests, cancel_push_requests, on_write,
  cancel_on_conn_lost, cancel_unwritten_requests, cancel_impl, cancel, survives,
}
use aedis.Connection.Queue.Order.{IsWaiting, Partitioned}

module _ {R : Type 0} where
  abbrev pub payloads : List (ReqInfo R) → Bytes
  payloads [] = []
  payloads (ri ∷ ris) = ri.req.payload ++ payloads ris

  abbrev pub stage_waiting : ReqInfo R → ReqInfo R
  stage_waiting ri = if is_waiting ri then mark_staged ri else ri

  abbrev pub write_waiting : ReqInfo R → ReqInfo R
  write_waiting ri = if is_waiting ri then mark_written ri else ri

  -- A request that waits to be sent and expects no response.
  abbrev pub is_one_way : ReqInfo R → Bool
  is_one_way ri = is_waiting ri && ri.req.expected_responses == 0

  abbrev pub IsSettled : ReqInfo R → Type 0
  IsSettled ri = is_staged ri ≡ false

  pub filter_by_waiting :
      (ris : List (ReqInfo R)) → All IsWaiting ris → filter_by is_waiting ris ≡ ris
  filter_by_waiting [] h = refl
  filter_by_waiting (ri ∷ ris) (w, ws) = rw w (ap (◌∷◌ ri) (filter_by_waiting ris ws))

  stage_behind :
      (ris : List (ReqInfo R)) → All IsWaiting ris → map stage_waiting ris ≡ map mark_staged ris
  stage_behind [] h = refl
  stage_behind (ri ∷ ris) (w, ws) = rw w (ap (◌∷◌ (mark_staged ri)) (stage_behind ris ws))

  behind_sent :
      (ris : List (ReqInfo R)) → Partitioned ris → drop_while is_sent ris ≡ filter_by is_waiting ris
  behind_sent [] p = refl
  behind_sent (ri ∷ ris) (h, p) = elim (Bool-cases (is_waiting ri)) [
    | inl w ↦ rw w (sym (ap (◌∷◌ ri) (filter_by_waiting ris (h w))))
    | inr s ↦ rw s (behind_sent ris p)
  ]

  stage_point :
      (ris : List (ReqInfo R))
      → Partitioned ris
      → take_while is_sent ris ++ map mark_staged (drop_while is_sent ris) ≡ map stage_waiting ris
  stage_point [] p = refl
  stage_point (ri ∷ ris) (h, p) = elim (Bool-cases (is_waiting ri)) [
    | inl w ↦ rw w (sym (ap (◌∷◌ (mark_staged ri)) (stage_behind ris (h w))))
    | inr s ↦ rw s (ap (◌∷◌ ri) (stage_point ris p))
  ]

  pub stage_buffer-payloads :
      (buffer : Bytes) (ris : List (ReqInfo R)) → stage_buffer buffer ris ≡ buffer ++ payloads ris
  unfolding stage_buffer
  stage_buffer-payloads buffer [] = sym (append-nil buffer)
  stage_buffer-payloads buffer (ri ∷ ris) =
      stage_buffer-payloads (buffer ++ ri.req.payload) ris
      ∙ append_assoc buffer ri.req.payload (payloads ris)

  staged_push_stage :
      (ri : ReqInfo R) → IsSettled ri → is_staged_push (stage_waiting ri) ≡ is_one_way ri
  staged_push_stage ri h = ground arith

  rejected_staged :
      (ris : List (ReqInfo R))
      → All IsSettled ris
      → rejected is_staged_push (map stage_waiting ris)
        ≡ map stage_waiting (rejected is_one_way ris)
  rejected_staged [] h = refl
  rejected_staged (ri ∷ ris) (h, hs) = elim (Bool-cases (is_one_way ri)) [
    | inl o ↦ rw (staged_push_stage ri h, o) (rejected_staged ris hs)
    | inr o ↦ rw (staged_push_stage ri h, o) (ap (◌∷◌ (stage_waiting ri)) (rejected_staged ris hs))
  ]

  filter_by_staged :
      (ris : List (ReqInfo R))
      → All IsSettled ris
      → filter_by is_staged_push (map stage_waiting ris)
        ≡ map stage_waiting (filter_by is_one_way ris)
  filter_by_staged [] h = refl
  filter_by_staged (ri ∷ ris) (h, hs) = elim (Bool-cases (is_one_way ri)) [
    | inl o ↦ rw (staged_push_stage ri h, o) (ap (◌∷◌ (stage_waiting ri)) (filter_by_staged ris hs))
    | inr o ↦ rw (staged_push_stage ri h, o) (filter_by_staged ris hs)
  ]

  written_stage :
      (ri : ReqInfo R) → IsSettled ri → mark_if_staged (stage_waiting ri) ≡ write_waiting ri
  written_stage ri h = ground arith

  written_rejected :
      (ris : List (ReqInfo R))
      → All IsSettled ris
      → map mark_if_staged (map stage_waiting (rejected is_one_way ris))
        ≡ map write_waiting (rejected is_one_way ris)
  written_rejected [] h = refl
  written_rejected (ri ∷ ris) (h, hs) = elim (Bool-cases (is_one_way ri)) [
    | inl o ↦ rw o (written_rejected ris hs)
    | inr o ↦ rw (o, written_stage ri h) (ap (◌∷◌ (write_waiting ri)) (written_rejected ris hs))
  ]

  sent_waiting : (ris : List (ReqInfo R)) → filter_by is_sent (map mark_waiting ris) ≡ []
  sent_waiting [] = refl
  sent_waiting (ri ∷ ris) = sent_waiting ris

module _ {R S : Type 0} (c : Connection R S) where
  -- In a partitioned queue `coalesce_requests` stages exactly the requests that wait, appends their
  -- payloads in order to the buffer, and returns whether there was one.
  pub coalesce_requests-staged :
      Partitioned c.reqs
      → ((coalesce_requests c).0.reqs ≡ map stage_waiting c.reqs)
        × ((coalesce_requests c).0.write_buffer
            ≡ c.write_buffer ++ payloads (filter_by is_waiting c.reqs))
        × ((coalesce_requests c).1 ≡ is_nonempty (filter_by is_waiting c.reqs))
  unfolding coalesce_requests
  coalesce_requests-staged p = (
    stage_point c.reqs p,
    stage_buffer-payloads c.write_buffer (drop_while is_sent c.reqs)
        ∙ ap (λ ris. c.write_buffer ++ payloads ris) (behind_sent c.reqs p),
    ap is_nonempty (behind_sent c.reqs p),
  )

  -- A whole turn of the writer, staging and then the end of the write, where the queue is
  -- partitioned and nothing is staged from before: what waited is written, the requests among it
  -- that expect no response are handed back notified, the rest stay as they are.
  pub on_write-coalesce_requests :
      Partitioned c.reqs
      → All IsSettled c.reqs
      → let d : Connection R S = on_write (coalesce_requests c).0 in
        (d.reqs ≡ map write_waiting (rejected is_one_way c.reqs))
        × (d.released ≡ c.released ++ map proceed (map stage_waiting (filter_by is_one_way c.reqs)))
        × (d.write_buffer ≡ [])
  unfolding on_write cancel_push_requests coalesce_requests
  on_write-coalesce_requests p h = (
    ap (λ ris. map mark_if_staged (rejected is_staged_push ris)) (stage_point c.reqs p)
        ∙ ap (map mark_if_staged) (rejected_staged c.reqs h)
        ∙ written_rejected c.reqs h,
    ap (λ ris. c.released ++ map proceed (filter_by is_staged_push ris)) (stage_point c.reqs p)
        ∙ ap (λ ris. c.released ++ map proceed ris) (filter_by_staged c.reqs h),
    refl,
  )

  -- `cancel(operation::all)` on a running connection empties the queue, the requests that were to
  -- survive a lost connection included: `exec` is cancelled last, when those wait again.
  pub cancel_all-empties : c.cancel_run_called ≡ false → (cancel all c).reqs ≡ []
  unfolding cancel cancel_impl cancel_unwritten_requests cancel_on_conn_lost
  cancel_all-empties e =
      if_cases (λ (d : Connection R S). (cancel_impl exec (cancel_impl receive d)).reqs ≡ [])
        c.cancel_run_called _ _ (λ bad. cc) (λ _. sent_waiting (filter_by survives c.reqs))
