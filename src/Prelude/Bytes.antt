-- ===== src/Prelude/Bytes.antt =====
-- Strings are lists of bytes; the decimal conversions of the standard library.
use Prim.Native.Char.{code}
use Prim.Native.String.{String}
use Prim.Native.Nat.{ℕ, zero, suc, ◌+◌, ◌-◌, ◌*◌, ◌/◌, ◌%◌, ◌≤◌, ◌<◌}
use mathlib.Core.Path.{◌≡◌, ◌∙◌}
use mathlib.Core.Bool.{Bool, true, false, ◌&&◌}
use mathlib.Core.Logic.{inl, inr}
use mathlib.Core.Option.{Option, none, some}
use mathlib.Core.List.{List, [], ◌∷◌}
use native.Mathlib.Omega.{arith}
use aedis.Prelude.Lists.{All}
use aedis.Prelude.Tests.{ltb, leb, ◌==◌, if◌then◌else◌, word_mod, Bool-cases}

abbrev pub Bytes : Type 0
Bytes = List ℕ

-- The bytes of an ASCII literal.
abbrev pub codes : String → Bytes
codes String.[] = []
codes (String.◌∷◌ c s) = code c ∷ codes s

abbrev pub is_digit : ℕ → Bool
is_digit c = leb b'0' c && leb c b'9'

-- The digits that std::from_chars reads behind the value `n`; `none` is
-- errc::result_out_of_range. It stops at the first byte that is no digit.
pub accumulate : Bytes → ℕ → Option ℕ
accumulate [] n = some n
accumulate (c ∷ s) n =
    let m = n * 10 + (c - b'0') in
    if is_digit c then (if ltb m word_mod then accumulate s m else none) else some n

abbrev pub starts_with_digit : Bytes → Bool
starts_with_digit [] = false
starts_with_digit (c ∷ s) = is_digit c

-- std::from_chars for std::size_t; `none` is any error, on which the value is not written.
unfoldable pub from_chars : Bytes → Option ℕ
unfolding accumulate
from_chars s = if starts_with_digit s then accumulate s 0 else none

pub digits : ℕ → ℕ → Bytes → Bytes
digits zero n out = out
digits (suc fuel) n out =
    let rest = digits fuel (n / 10) ((b'0' + n % 10) ∷ out) in
    if ltb n 10 then (b'0' + n) ∷ out else rest

-- std::to_string; a number has at most as many digits as its value, plus one.
unfoldable pub to_string : ℕ → Bytes
unfolding digits
to_string n = digits (n + 1) n []

accumulate-digits :
    (fuel n : ℕ) (out : Bytes)
    → n < fuel
    → n < word_mod
    → accumulate (digits fuel n out) 0 ≡ accumulate out n
unfolding accumulate digits
accumulate-digits zero n out h b = elim h [ ]
accumulate-digits (suc fuel) n out h b = elim (Bool-cases (ltb n 10)) [
  | inl small ↦ rw small (ground arith)
  | inr large ↦ rw large (
      accumulate-digits fuel (n / 10) ((b'0' + n % 10) ∷ out) (ground arith) (omega arith)
      ∙ last_digit)
]
  where
    last_digit : accumulate ((b'0' + n % 10) ∷ out) (n / 10) ≡ accumulate out n
    last_digit =
        let e : n / 10 * 10 + (b'0' + n % 10 - b'0') ≡ n = omega arith in rw e (ground arith)

digits_start : (fuel n : ℕ) (out : Bytes) → n < fuel → starts_with_digit (digits fuel n out) ≡ true
unfolding digits
digits_start zero n out h = elim h [ ]
digits_start (suc fuel) n out h = elim (Bool-cases (ltb n 10)) [
  | inl small ↦ rw small (ground arith)
  | inr large ↦ rw large (digits_start fuel (n / 10) ((b'0' + n % 10) ∷ out) (ground arith))
]

-- A number that fits is read back from its decimal print.
pub from_chars-to_string : (n : ℕ) → n < word_mod → from_chars (to_string n) ≡ some n
unfolding from_chars to_string
from_chars-to_string n h =
    rw (digits_start (n + 1) n [] (omega arith)) (accumulate-digits (n + 1) n [] (omega arith) h)

abbrev pub IsDigit : ℕ → Type 0
IsDigit c = (b'0' ≤ c) × (c ≤ b'9')

digits-IsDigit : (fuel n : ℕ) (out : Bytes) → All IsDigit out → All IsDigit (digits fuel n out)
unfolding digits
digits-IsDigit zero n out h = h
digits-IsDigit (suc fuel) n out h = elim (Bool-cases (ltb n 10)) [
  | inl small ↦ rw small (ground arith)
  | inr large ↦
      rw large
        (digits-IsDigit fuel (n / 10) ((b'0' + n % 10) ∷ out) ((omega arith, omega arith), h))
]

pub to_string-IsDigit : (n : ℕ) → All IsDigit (to_string n)
unfolding to_string
to_string-IsDigit n = digits-IsDigit (n + 1) n [] tt

pub to_string_starts : (n : ℕ) → starts_with_digit (to_string n) ≡ true
unfolding to_string
to_string_starts n = digits_start (n + 1) n [] (omega arith)

-- `==` of strings.
unfoldable pub bytes_eq : Bytes → Bytes → Bool
bytes_eq [] [] = true
bytes_eq [] (d ∷ t) = false
bytes_eq (c ∷ s) [] = false
bytes_eq (c ∷ s) (d ∷ t) = c == d && bytes_eq s t
