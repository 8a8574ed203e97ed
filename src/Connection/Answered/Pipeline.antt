-- ===== src/Connection/Answered/Pipeline.antt =====
-- The replies to a pipeline of requests, and the connection behind them.
use aedis.Prelude.{
  ℕ, suc, ◌+◌, ◌≤◌, ◌≡◌, refl, sym, ◌∙◌, true, false, Option, none, List, [], ◌∷◌, ◌++◌,
  append_assoc, append-nil, arith, length,
}
use aedis.Prelude.Bytes.{Bytes}
use aedis.Prelude.Run.{Run, ok}
use aedis.Error.{Failure}
use aedis.Resp3.Node.{Node}
use aedis.Resp3.Reply.{Reply}
use aedis.Resp3.Reply.Lengths.{length-print, print_pos}
use aedis.Connection.{ReqInfo, Connection}
use aedis.Connection.Read.{resp, on_read, suggested_growth}
use aedis.Connection.Reader.{ReaderOut, reading, is_empty, reader_read}
use aedis.Connection.Answered.{print_replies, Exchange, answered, usage_after}

pub length-print_replies :
    (rs : List Reply) (rest : Bytes) → length rs + length rest ≤ length (print_replies rs rest)
length-print_replies [] rest = omega arith
length-print_replies (r ∷ rs) rest =
    omega (arith, length-print_replies rs rest, length-print r (print_replies rs rest), print_pos r)

module _ {R S : Type 0} (adapt : ℕ → R → Node → R × Option Failure)
    (receive_adapter : S → Node → S × Option Failure) where
  -- The loop behind a response.
  abbrev pub onward : ℕ → Connection R S → Run (ReaderOut R S)
  onward fuel d = elim (is_empty d.read_buffer) [
    | true ↦ ok (reading (suggested_growth d) d)
    | false ↦ reader_read adapt receive_adapter fuel d
  ]

  pub read_round :
      (fuel n : ℕ) (c d : Connection R S)
      → on_read adapt receive_adapter c c.read_buffer ≡ ok (d, (resp, n, none))
      → reader_read adapt receive_adapter (suc fuel) c ≡ onward fuel d
  unfolding reader_read
  read_round fuel n c d run = rw run refl

  -- The connection behind the last reply to the front request.
  abbrev pub handed : Connection R S → ReqInfo R → List Reply → R → Connection R S
  handed c ri rs b = record c {
    usage = usage_after c.usage rs;
    released = c.released ++ answered ri rs b ∷ [];
  }

  abbrev pub infos : List (Exchange adapt) → List (ReqInfo R)
  infos [] = []
  infos (x ∷ xs) = x.info ∷ infos xs

  abbrev pub print_exchanges : List (Exchange adapt) → Bytes
  print_exchanges [] = []
  print_exchanges (x ∷ xs) = print_replies x.replies (print_exchanges xs)

  -- All requests are handed back, in order, with their responses.
  abbrev pub all_handed : Connection R S → List (Exchange adapt) → Connection R S
  all_handed c [] = c
  all_handed c (x ∷ xs) = all_handed (handed c x.info x.replies x.filled) xs

  -- The requests as they are handed back.
  abbrev pub all_answered : List (Exchange adapt) → List (ReqInfo R)
  all_answered [] = []
  all_answered (x ∷ xs) = answered x.info x.replies x.filled ∷ all_answered xs

  pub handed-released :
      (xs : List (Exchange adapt)) (c : Connection R S)
      → (all_handed c xs).released ≡ c.released ++ all_answered xs
  handed-released [] c = sym (append-nil c.released)
  handed-released (x ∷ xs) c =
      handed-released xs (handed c x.info x.replies x.filled)
      ∙ append_assoc c.released (answered x.info x.replies x.filled ∷ []) (all_answered xs)
