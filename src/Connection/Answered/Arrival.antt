-- ===== src/Connection/Answered/Arrival.antt =====
-- More data for the reader where a part of the replies has arrived.
use aedis.Prelude.{
  ℕ, ◌+◌, ◌≡◌, ◌≢◌, refl, sym, ap, ◌∙◌, inl, inr, false, not, ◌||◌, Option, List, [], ◌∷◌, ◌++◌,
  append_assoc, arith, length, length-append, subst, cons-ne-nil,
}
use aedis.Prelude.Bytes.{Bytes}
use aedis.Error.{Failure}
use aedis.Resp3.Node.{Node}
use aedis.Resp3.Parser.{Parser}
use aedis.Connection.{ReqInfo, Connection}
use aedis.Connection.Reader.{received, reader_appended}
use aedis.Connection.Answered.Midway.{Midway}
use aedis.Connection.Answered.Begun.{Resting}
use aedis.Connection.Answered.Paused.{Paused, read-Paused}

module _ {R S : Type 0} (adapt : ℕ → R → Node → R × Option Failure)
    (receive_adapter : S → Node → S × Option Failure) where
  -- More data.
  append-Midway :
      (c : Connection R S) (ri : ReqInfo R) (ris : List (ReqInfo R)) (p : Parser)
      (seen v coming : Bytes) (goal : Connection R S)
      → Midway adapt receive_adapter c ri ris p seen (v ++ coming) goal
      → Midway adapt receive_adapter c ri ris p (seen ++ v) coming goal
  append-Midway c ri ris p seen v coming goal mid = record {
    reply = mid.reply;
    replies = mid.replies;
    exchanges = mid.exchanges;
    command = mid.command;
    middle = mid.middle;
    filled = mid.filled;
    last = mid.last;
    ahead = mid.ahead;
    front = mid.front;
    visits = mid.visits;
    ended = mid.ended;
    stands = mid.stands;
    inside = omega (arith, mid.inside, length-append seen v);
    takes = mid.takes;
    fills = mid.fills;
    stream = append_assoc seen v coming ∙ mid.stream;
    bound = mid.bound;
  }

  filled_by : (seen v : Bytes) → v ≢ [] → seen ++ v ≢ []
  filled_by [] v ne = ne
  filled_by (x ∷ seen) v ne = cons-ne-nil x (seen ++ v)

  pub chunk-Paused :
      (d : Connection R S) (v coming : Bytes) (goal : Connection R S)
      → Resting adapt receive_adapter d (v ++ coming) goal
      → v ≢ []
      → Paused adapt receive_adapter
          (length d.read_buffer + length v)
          coming
          goal
          (reader_appended adapt receive_adapter (received v) false d)
  unfolding reader_appended
  chunk-Paused d [] coming goal resting ne = absurd (ne refl)
  chunk-Paused d (x ∷ v) coming goal (inr (e, buffer, fresh, none_left)) ne =
      absurd (cons-ne-nil x (v ++ coming) none_left)
  chunk-Paused d (x ∷ v) coming goal (inl (c, ri, ris, p, seen, e, mid)) ne =
      let mid' = append-Midway c ri ris p seen (x ∷ v) coming goal mid in
      let going : (not c.is_open || false) ≡ false = ap (λ b. not b || false) (mid.front.is_open) in
      subst
        (λ y.
          Paused adapt receive_adapter (length y.read_buffer + length (x ∷ v)) coming goal
            (reader_appended adapt receive_adapter (received (x ∷ v)) false y))
        (sym e)
        (rw going (
          read-Paused adapt receive_adapter (length (seen ++ x ∷ v) + 1)
            (length seen + length (x ∷ v)) c ri ris p (seen ++ x ∷ v) coming goal mid'
            (filled_by seen (x ∷ v) ne) (omega arith) (omega (arith, length-append seen (x ∷ v)))))
