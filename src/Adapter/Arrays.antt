-- ===== src/Adapter/Arrays.antt =====
-- A std::array filled by a reply.
use aedis.Prelude.{ℕ, zero, suc, List, [], ◌∷◌}
use aedis.Prelude.Bytes.{Bytes}
use aedis.Resp3.Parser.{Parser}
use aedis.Adapter.{string_bulk}

-- The array that `Result{}` makes.
abbrev pub blanks : ℕ → List Bytes
blanks zero = []
blanks (suc n) = [] ∷ blanks n
