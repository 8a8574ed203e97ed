-- ===== src/Resp3/Parser/Lines.antt =====
-- How `consume` reads one header line, by the place of the first separator.
use aedis.Prelude.{
  ℕ, zero, suc, ◌+◌, ◌≤◌, ◌<◌, ◌≡◌, refl, ap, none, some, [], ◌∷◌, ◌++◌, arith, length, length-drop,
  take, drop, drop-cons, word_mod, sub_word, All, ◌≢◌,
}
use aedis.Prelude.Bytes.{Bytes}
use aedis.Prelude.Run.{ok, ◌>>=◌, at-some, substr_le}
use aedis.Error.{invalid_data_type}
use aedis.Resp3.Types.{to_type}
use aedis.Resp3.Parser.{Parser, more, fail, find_sep, consume_impl, after_header, read_header}

-- The separator stands inside the text.
pub find_sep-lt : (s : Bytes) (i : ℕ) → find_sep s ≡ some i → i + 2 ≤ length s
unfolding find_sep
find_sep-lt [] i e = cc
find_sep-lt (c ∷ []) i e = ground arith
find_sep-lt (c ∷ d ∷ s) zero e = omega arith
find_sep-lt (c ∷ d ∷ s) (suc i) e = ground (arith, find_sep-lt (d ∷ s) i)

find_sep-zero : (c : ℕ) (s : Bytes) → find_sep (c ∷ s) ≡ some 0 → c ≡ b'\r'
unfolding find_sep
find_sep-zero c s e = ground arith

-- More bytes behind a text do not move its first separator.
pub find_sep-append : (s w : Bytes) (i : ℕ) → find_sep s ≡ some i → find_sep (s ++ w) ≡ some i
unfolding find_sep
find_sep-append [] w i e = cc
find_sep-append (c ∷ []) w i e = absurd (ground arith)
find_sep-append (c ∷ d ∷ s) w zero e = ground arith
find_sep-append (c ∷ d ∷ s) w (suc i) e = ground (arith, find_sep-append (d ∷ s) w i)

-- A line with no carriage return ends at the separator behind it.
pub find_sep_line :
    (s w : Bytes) → All (λ c. c ≢ b'\r') s → find_sep (s ++ b'\r' ∷ b'\n' ∷ w) ≡ some (length s)
unfolding find_sep
find_sep_line [] w h = refl
find_sep_line (c ∷ s) w h = ground (arith, find_sep_line s w h.1)

module _ (p : Parser) (view : Bytes) where
  pub read_header-more : find_sep (drop p.consumed view) ≡ none → read_header p view ≡ ok (more p)
  unfolding read_header
  read_header-more e = rw (e, read_header) refl

  -- The line is its first byte `c` and the `k` bytes of `rest` behind it.
  pub read_header-line :
      (c k : ℕ) (rest : Bytes)
      → length view < word_mod
      → drop p.consumed view ≡ c ∷ rest
      → find_sep (c ∷ rest) ≡ some (suc k)
      → read_header p view
        ≡ (consume_impl (to_type c) (take k rest) p >>= after_header view (p.consumed + suc k))
  unfolding read_header
  read_header-line c k rest bound e f =
      let (byte, tail, inside) = drop-cons p.consumed view c rest e in
      let fits = find_sep-lt (c ∷ rest) (suc k) f in
      let size = ap length e in
      let whole = length-drop p.consumed view in
      let count : sub_word (p.consumed + suc k) (1 + p.consumed) ≡ k = omega arith in
      rw (
        e,
        f,
        read_header,
        at-some view p.consumed c byte,
        substr_le view (p.consumed + 1) (sub_word (p.consumed + suc k) (1 + p.consumed))
            (omega arith),
        count,
        tail,
      )

  -- A line that is empty has the type byte '\r', which is no type.
  pub read_header_empty :
      (c : ℕ) (rest : Bytes)
      → drop p.consumed view ≡ c ∷ rest
      → find_sep (c ∷ rest) ≡ some 0
      → read_header p view ≡ ok (fail p invalid_data_type)
  unfolding read_header consume_impl to_type after_header
  read_header_empty c rest e f =
      let (byte, tail, inside) = drop-cons p.consumed view c rest e in
      let cr = find_sep-zero c rest f in
      rw (
        e,
        f,
        read_header,
        at-some view p.consumed c byte,
        substr_le view (p.consumed + 1) (sub_word (p.consumed + 0) (1 + p.consumed)) (omega arith),
        cr,
      )
