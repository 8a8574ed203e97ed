-- ===== src/Connection/Answered/Turn.antt =====
-- A turn of `writer_op` (detail/connection_base.hpp) for the requests that were started.
use aedis.Prelude.{
  ℕ, ◌+◌, ◌≡◌, refl, ap, true, false, ◌==◌, Option, none, List, [], ◌∷◌, append-nil, map, All,
  arith, length, filter_by, rejected, take_while, drop_while, word,
}
use aedis.Prelude.Bytes.{Bytes}
use aedis.Error.{Failure}
use aedis.Resp3.Node.{Node}
use aedis.Connection.{Usage, ReqInfo, Connection}
use aedis.Connection.Queue.{
  is_sent, is_staged_push, mark_if_staged, mark_staged, mark_written, make_info, coalesce_requests,
  cancel_push_requests, on_write, stage_commands,
}
use aedis.Connection.Writing.{payloads, stage_buffer-payloads}
use aedis.Connection.Writer.{writing, sleeping, writer_enter, writer_written, writer_woken}
use aedis.Connection.Answered.Pipeline.{infos, handed}
use aedis.Connection.Answered.Calls.{Call, IsCall, calls, exchanges, with_queue}

module _ {R : Type 0} where
  -- What a turn of the writer with these bytes in its buffer counts.
  pub staged_usage : Usage → List (ReqInfo R) → Bytes → Usage
  staged_usage usage ris buffer = record usage {
    commands_sent = stage_commands usage.commands_sent ris;
    bytes_sent = word (usage.bytes_sent + length buffer);
  }

module _ {R S : Type 0} (adapt : ℕ → R → Node → R × Option Failure)
    (receive_adapter : S → Node → S × Option Failure) where
  point-calls :
      (xs : List (Call adapt))
      → (take_while is_sent (calls adapt xs) ≡ [])
        × (drop_while is_sent (calls adapt xs) ≡ calls adapt xs)
  point-calls [] = (refl, refl)
  point-calls (x ∷ xs) = (refl, refl)

  written-calls :
      (xs : List (Call adapt))
      → All (IsCall adapt) xs
      → (map mark_if_staged (rejected is_staged_push (map mark_staged (calls adapt xs)))
          ≡ infos adapt receive_adapter (exchanges adapt xs))
        × (filter_by is_staged_push (map mark_staged (calls adapt xs)) ≡ [])
  written-calls [] h = (refl, refl)
  written-calls (x ∷ xs) (one, h) =
      let several : (x.request.expected_responses == 0) ≡ false =
        ground (arith, one.expected, one.several) in
      let (kept, handed) = written-calls xs h in
      rw several (ap (◌∷◌ (mark_written (make_info x.id x.request x.object))) kept, handed)

  sent-exchanges :
      (xs : List (Call adapt))
      → let ris = infos adapt receive_adapter (exchanges adapt xs) in
        (take_while is_sent ris ≡ ris) × (drop_while is_sent ris ≡ [])
  sent-exchanges [] = (refl, refl)
  sent-exchanges (x ∷ xs) =
      let (front, point) = sent-exchanges xs in
      (ap (◌∷◌ (mark_written (make_info x.id x.request x.object))) front, point)

  pub writer_woken-calls :
      (x : Call adapt) (xs : List (Call adapt)) (c : Connection R S) (wakes : ℕ) (usage : Usage)
      → c.is_open ≡ true
      → let ris = calls adapt (x ∷ xs) in
        writer_woken false (with_queue c wakes usage ris [])
        ≡ writing (
            with_queue c wakes
              (staged_usage usage ris (payloads ris))
              (map mark_staged ris)
              (payloads ris))
  unfolding writer_woken writer_enter coalesce_requests staged_usage
  writer_woken-calls x xs c wakes usage o =
      rw (o, stage_buffer-payloads [] (calls adapt (x ∷ xs))) refl

  on_write-calls :
      (xs : List (Call adapt)) (c : Connection R S) (wakes : ℕ) (usage : Usage) (buffer : Bytes)
      → All (IsCall adapt) xs
      → on_write (with_queue c wakes usage (map mark_staged (calls adapt xs)) buffer)
        ≡ with_queue c wakes usage (infos adapt receive_adapter (exchanges adapt xs)) []
  unfolding on_write cancel_push_requests
  on_write-calls xs c wakes usage buffer h =
      let (kept, handed) = written-calls xs h in rw (kept, handed, append-nil c.released) refl

  pub writer_written-calls :
      (xs : List (Call adapt)) (c : Connection R S) (wakes : ℕ) (usage : Usage) (buffer : Bytes)
      → c.is_open ≡ true
      → All (IsCall adapt) xs
      → writer_written none false
          (with_queue c wakes usage (map mark_staged (calls adapt xs)) buffer)
        ≡ sleeping (
            with_queue c wakes
              (staged_usage {R = R} usage [] [])
              (infos adapt receive_adapter (exchanges adapt xs))
              [])
  unfolding writer_written writer_enter coalesce_requests staged_usage
  writer_written-calls xs c wakes usage buffer o h =
      let (front, point) = sent-exchanges xs in
      rw
        (
          on_write-calls xs c wakes usage buffer h,
          o,
          front,
          point,
          append-nil (infos adapt receive_adapter (exchanges adapt xs)),
        )
        refl
