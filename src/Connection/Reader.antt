-- ===== src/Connection/Reader.antt =====
-- `reader_op` (detail/connection_base.hpp), between the points where it suspends.
--
-- The result of a read, of sending to the receive channel, and the coroutine's cancellation state
-- are arguments; so is what a failed read leaves in the buffer. `try_send` and `async_send` are one
-- point: `reader_sent` follows either.
use aedis.Prelude.{
  ℕ, zero, suc, ◌+◌, ◌≤◌, Bool, true, false, not, ◌||◌, Option, none, some, [], ◌∷◌, ◌++◌, length,
  if◌then◌else◌,
}
use aedis.Prelude.Bytes.{Bytes}
use aedis.Prelude.Run.{Run, ok, crash, out_of_fuel, ◌>>=◌}
use aedis.Error.{Failure, Code, redis, operation_aborted}
use aedis.Resp3.Node.{Node}
use aedis.Resp3.Parser.Safety
use aedis.Connection.{run, Connection}
use aedis.Connection.Queue.{cancel}
use aedis.Connection.Read.{needs_more, push, resp, ReadResult, suggested_growth, on_read}
use aedis.Connection.Read.Kept.{MayFault, Kept}

-- Suspended in a read of so many bytes, suspended in sending the size of a push, or complete.
pub data ReaderOut (R S : Type 0) : Type 0 where
  reading sending : ℕ → Connection R S → ReaderOut R S
  completed : Connection R S → Option Code → ReaderOut R S

pub data ReadEvent : Type 0 where
  received : Bytes → ReadEvent
  eof : Bytes → ReadEvent
  read_failed : Code → Bytes → ReadEvent

abbrev pub is_empty : Bytes → Bool
is_empty [] = true
is_empty (c ∷ s) = false

module _ {R S : Type 0} where
  -- A response or a push takes a byte from the buffer at least.
  abbrev pub reader_fuel : Connection R S → ℕ
  reader_fuel c = length c.read_buffer + 1

module _ {R S : Type 0} (adapt : ℕ → R → Node → R × Option Failure)
    (receive_adapter : S → Node → S × Option Failure) where
  -- Behind `on_read`; `again` is the next round of the loop.
  abbrev pub reader_next :
      (Connection R S → Run (ReaderOut R S)) → Connection R S × ReadResult → Run (ReaderOut R S)
  reader_next again (d, (t, n, some e)) = ok (completed (cancel run d) (some (redis e)))
  reader_next again (d, (needs_more, n, none)) = ok (reading (suggested_growth d) d)
  reader_next again (d, (push, n, none)) = ok (sending n d)
  reader_next again (d, (resp, n, none)) = again d

  -- The loop from the call of `on_read`, up to the next point of suspension.
  unfoldable pub reader_read : ℕ → Connection R S → Run (ReaderOut R S)
  reader_read zero c = crash out_of_fuel
  reader_read (suc fuel) c =
      on_read adapt receive_adapter c c.read_buffer
      >>= reader_next (λ d. elim (is_empty d.read_buffer) [
        | true ↦ ok (reading (suggested_growth d) d)
        | false ↦ reader_read fuel d
      ])

  -- Behind a read.
  unfoldable pub reader_appended : ReadEvent → Bool → Connection R S → Run (ReaderOut R S)
  unfolding reader_read
  reader_appended (eof rest) cancelled c =
      ok (completed (cancel run (record c { read_buffer = c.read_buffer ++ rest })) none)
  reader_appended (read_failed ec rest) cancelled c =
      ok (completed (cancel run (record c { read_buffer = c.read_buffer ++ rest })) (some ec))
  reader_appended (received more) cancelled c =
      let c' = record c { read_buffer = c.read_buffer ++ more } in
      if not c.is_open || cancelled then ok (completed c' none) else reader_read (reader_fuel c') c'

  -- Behind sending the size of a push.
  unfoldable pub reader_sent : Option Code → Bool → Connection R S → Run (ReaderOut R S)
  unfolding reader_read
  reader_sent (some ec) cancelled c = ok (completed (cancel run c) (some ec))
  reader_sent none cancelled c =
      if not c.is_open || cancelled
      then ok (completed c (some operation_aborted))
      else elim (is_empty c.read_buffer) [
        | true ↦ ok (reading (suggested_growth c) c)
        | false ↦ reader_read (reader_fuel c) c
      ]

  -- Where the reader suspends, the parser is in order for the buffer.
  abbrev pub Suspended : Run (ReaderOut R S) → Type 0
  Suspended (crash e) = MayFault adapt receive_adapter e
  Suspended (ok (reading n d)) = Safety.Inv d.parser × (d.parser.consumed ≤ length d.read_buffer)
  Suspended (ok (sending n d)) = Safety.Inv d.parser × (d.parser.consumed ≤ length d.read_buffer)
  Suspended (ok (completed d ec)) = Unit
