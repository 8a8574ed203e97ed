-- ===== src/Connection/Read/Kept.antt =====
-- What `on_read` keeps of the parser's invariant, and which faults it can have.
use aedis.Prelude.{
  ℕ, ◌≤◌, ◌<◌, ◌≡◌, ◌≢◌, ◌⊎◌, drop, Bool, Option, none, some, if◌then◌else◌, length, word_mod,
}
use aedis.Prelude.Bytes.{Bytes}
use aedis.Prelude.Run.{Run, ok, crash, Fault, IsAccess}
use aedis.Error.{Failure}
use aedis.Resp3.Node.{Node}
use aedis.Resp3.Parser.{Parser, reset, needs_more as unfinished}
use aedis.Resp3.Parser.Safety
use aedis.Resp3.Parser.Loop.{Throws}
use aedis.Connection.{Connection}
use aedis.Connection.Read.{ParseResult, needs_more, ReadResult, read_push, read_response, on_read}

-- A whole message is taken from the buffer, and the parser is fresh; else the buffer stays as it is.
abbrev pub Advanced : {R S : Type 0} → Bytes → Bytes → Connection R S → ParseResult → ℕ → Type 0
Advanced buffer view d t n =
    ((t ≡ needs_more) × (d.read_buffer ≡ buffer))
    ⊎ ((t ≢ needs_more)
        × (0 < n)
        × (n ≤ length view)
        × (d.read_buffer ≡ drop n buffer)
        × (d.parser ≡ reset))

-- An access of the parser faults, or an adapter throws.
abbrev pub MayFault :
    {R S : Type 0}
    → (ℕ → R → Node → R × Option Failure)
    → (S → Node → S × Option Failure)
    → Fault
    → Type 0
MayFault adapt receive_adapter e =
    IsAccess e ⊎ (Throws receive_adapter e ⊎ ((i : ℕ) × Throws (adapt i) e))

-- A call faults by an access of the parser or an exception of an adapter only; without an error it
-- leaves a parser in order, and has advanced.
abbrev pub Kept :
    {R S : Type 0}
    → (ℕ → R → Node → R × Option Failure)
    → (S → Node → S × Option Failure)
    → Bytes
    → Bytes
    → Run (Connection R S × ReadResult)
    → Type 0
Kept adapt receive_adapter buffer view (crash e) = MayFault adapt receive_adapter e
Kept adapt receive_adapter buffer view (ok (d, (t, n, some e))) = Unit
Kept adapt receive_adapter buffer view (ok (d, (t, n, none))) =
    Safety.Inv d.parser × (d.parser.consumed ≤ length view) × Advanced buffer view d t n

module _ {R S : Type 0} (adapt : ℕ → R → Node → R × Option Failure)
    (receive_adapter : S → Node → S × Option Failure) where
  module _ (c : Connection R S) (view : Bytes) (v : Safety.Inv c.parser)
      (inside : c.parser.consumed ≤ length view) (bound : length view < word_mod) where
    -- What follows the decision whether the next message is a push.
    dispatch : Bool → Run (Connection R S × ReadResult)
    unfolding on_read
    dispatch b =
        let c' = record c { on_push = b } in
        if b
        then read_push adapt receive_adapter c' view
        else read_response adapt receive_adapter c.reqs c' view
