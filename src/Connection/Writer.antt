-- ===== src/Connection/Writer.antt =====
-- `writer_op` (detail/connection_base.hpp), between the points where it suspends.
--
-- The error code of a write and the coroutine's cancellation state are arguments. Other operations
-- change the connection while it is suspended.
use aedis.Prelude.{
  ◌+◌, ◌≡◌, refl, sym, ap, ◌∙◌, Bool, true, false, not, ◌&&◌, ◌||◌, Option, none, some, List, [],
  ◌∷◌, ◌++◌, append-nil, map, All, arith, ltb, length, if◌then◌else◌, if_cases, filter_by,
}
use aedis.Connection.{run, ReqInfo, Connection}
use aedis.Connection.Queue.{
  is_waiting, coalesce_requests, cancel_push_requests, on_write, cancel, is_nonempty, is_writing,
  enqueue, add_request_info,
}
use aedis.Connection.Queue.Order.{IsSent, Partitioned}
use aedis.Connection.Steps.{write-Partitioned}
use aedis.Error.{Code, operation_aborted}
use aedis.Connection.Writing.{stage_waiting, payloads, coalesce_requests-staged}

-- Suspended in a write, suspended in the wait for the timer, or complete.
pub data WriterOut (R S : Type 0) : Type 0 where
  writing sleeping : Connection R S → WriterOut R S
  completed : Connection R S → Option Code → WriterOut R S

module _ {R : Type 0} where
  staged-Sent : (ris : List (ReqInfo R)) → All IsSent (map stage_waiting ris)
  staged-Sent [] = tt
  staged-Sent (ri ∷ ris) = (ground arith, staged-Sent ris)

module _ {R S : Type 0} where
  -- The condition of the inner loop, up to the next point of suspension.
  unfoldable pub writer_enter : Connection R S → WriterOut R S
  writer_enter c =
      if (coalesce_requests c).1
      then writing (coalesce_requests c).0
      else sleeping (coalesce_requests c).0

  -- Behind a write.
  unfoldable pub writer_written : Option Code → Bool → Connection R S → WriterOut R S
  unfolding writer_enter
  writer_written (some ec) cancelled c = completed (cancel run c) (some ec)
  writer_written none cancelled c =
      if cancelled
      then completed c (some operation_aborted)
      else if not (on_write c).is_open
      then completed (on_write c) none
      else writer_enter (on_write c)

  -- Behind the wait for the timer.
  unfoldable pub writer_woken : Bool → Connection R S → WriterOut R S
  unfolding writer_enter
  writer_woken cancelled c = if not c.is_open || cancelled then completed c none else writer_enter c

  -- A writer that sleeps has nothing to send, and the next request wakes it.
  abbrev pub IsAwakeable : ReqInfo R → WriterOut R S → Type 0
  IsAwakeable info (sleeping d) =
      All IsSent d.reqs × ((add_request_info info d).writer_wakes ≡ d.writer_wakes + 1)
  IsAwakeable info (writing d) = All IsSent d.reqs
  IsAwakeable info (completed d ec) = (d.is_open ≡ false)

  nothing_waiting :
      (c : Connection R S)
      → Partitioned c.reqs
      → (coalesce_requests c).1 ≡ false
      → payloads (filter_by is_waiting c.reqs) ≡ []
  nothing_waiting c p e =
      none_left (filter_by is_waiting c.reqs) (sym (coalesce_requests-staged c p).2 ∙ e)
    where
      none_left : (ris : List (ReqInfo R)) → is_nonempty ris ≡ false → payloads ris ≡ []
      none_left [] h = refl
      none_left (ri ∷ ris) h = absurd (cc)

  add_request_info-wakes :
      (info : ReqInfo R) (d : Connection R S)
      → d.is_open ≡ true
      → d.write_buffer ≡ []
      → (add_request_info info d).writer_wakes ≡ d.writer_wakes + 1
  unfolding add_request_info
  add_request_info-wakes info d o w =
      if_cases (λ (x : Connection R S). x.writer_wakes ≡ d.writer_wakes + 1)
        (d.is_open && not (is_writing d))
        (record d { reqs = enqueue info d.reqs; writer_wakes = d.writer_wakes + 1 })
        (record d { reqs = enqueue info d.reqs }) (λ _. refl) (λ bad. absurd (quiet bad))
    where
      quiet : (d.is_open && not (is_writing d)) ≡ false → ⊥
      quiet bad = let q : is_writing d ≡ false = ap (λ b. ltb 0 (length b)) w in ground arith

  coalesce-open : (c : Connection R S) → (coalesce_requests c).0.is_open ≡ c.is_open
  unfolding coalesce_requests
  coalesce-open c = refl

  writer_enter-IsAwakeable :
      (info : ReqInfo R) (c : Connection R S)
      → Partitioned c.reqs
      → c.is_open ≡ true
      → c.write_buffer ≡ []
      → IsAwakeable info (writer_enter c)
  unfolding writer_enter
  writer_enter-IsAwakeable info c p o w =
      if_cases (IsAwakeable info) (coalesce_requests c).1 (writing (coalesce_requests c).0)
        (sleeping (coalesce_requests c).0) (λ _. sent)
        (λ quiet. (
          sent,
          add_request_info-wakes info (coalesce_requests c).0 (coalesce-open c ∙ o) (
              (coalesce_requests-staged c p).1
              ∙ ap (λ b. c.write_buffer ++ b) (nothing_waiting c p quiet)
              ∙ append-nil c.write_buffer
              ∙ w),
        ))
    where
      sent : All IsSent (coalesce_requests c).0.reqs
      sent = rw ((coalesce_requests-staged c p).0) (staged-Sent c.reqs)

  write-buffer : (c : Connection R S) → (on_write c).write_buffer ≡ []
  unfolding on_write cancel_push_requests
  write-buffer c = refl

  -- Behind a successful write that was not cancelled, with a partitioned queue, the writer ends only
  -- where the connection was closed. It sleeps only with nothing left to send, and then the next
  -- request that is added wakes it: no wake-up is lost between a write and the wait.
  pub writer_written-IsAwakeable :
      (info : ReqInfo R) (c : Connection R S)
      → Partitioned c.reqs
      → IsAwakeable info (writer_written none false c)
  unfolding writer_written
  writer_written-IsAwakeable info c p =
      if_cases (IsAwakeable info) (not (on_write c).is_open) (completed (on_write c) none)
        (writer_enter (on_write c)) (λ closed. ground arith)
        (λ opened.
          writer_enter-IsAwakeable info (on_write c) (write-Partitioned c p) (ground arith)
            (write-buffer c))
