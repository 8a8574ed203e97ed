-- ===== src/Prelude/Run.antt =====
-- Code that may fault: an access outside an array or through a null pointer, a failed assertion, or
-- an exception that leaves the operation.
use mathlib.Core.Path.{◌≡◌, refl}
use Prim.Native.Nat.{ℕ, ◌≤◌, ◌<◌}
use mathlib.Core.Logic.{◌⊎◌, inl, inr}
use mathlib.Core.Option.{none, some}
use mathlib.Core.List.{List, [], ◌∷◌, ◌++◌}
use native.Mathlib.Omega.{arith}
use aedis.Prelude.Lists.{length, get_elem?, get_or, set, take, drop, get_elem?-get_or}
use aedis.Prelude.Tests.{ltb, if◌then◌else◌}

-- `out_of_fuel` is a fault of the model only: a loop that was given too few rounds.
pub data Fault : Type 0 where
  out_of_bounds : Fault
  out_of_range : Fault
  assertion : Fault
  length_error : Fault
  error_access : Fault
  null_pointer : Fault
  out_of_fuel : Fault

pub data Run {ℓ} (A : Type ℓ) : Type ℓ where
  ok : A → Run A
  crash : Fault → Run A

-- An access outside an array or a string.
abbrev pub IsAccess : Fault → Type 0
IsAccess e = (e ≡ out_of_bounds) ⊎ (e ≡ out_of_range)

infixl 5 ◌>>=◌
abbrev pub ◌>>=◌ {ℓ κ} : {A : Type ℓ} {B : Type κ} → Run A → (A → Run B) → Run B
ok a >>= f = f a
crash e >>= f = crash e

-- To split on a run and keep the equation.
pub Run-cases {ℓ} :
    {A : Type ℓ} (r : Run A) → ((a : A) × (r ≡ ok a)) ⊎ ((f : Fault) × (r ≡ crash f))
Run-cases (ok a) = inl (a, refl)
Run-cases (crash f) = inr (f, refl)

-- A condition on what a run returns, if it returns.
abbrev pub Ensures {ℓ κ} : {A : Type ℓ} → (A → Type κ) → Run A → Type κ
Ensures P (ok a) = P a
Ensures P (crash e) = Unit

pub Ensures-bind {ℓ ℓ' κ} :
    {A : Type ℓ} {B : Type ℓ'} (P : B → Type κ) (m : Run A) (f : A → Run B)
    → ((a : A) → Ensures P (f a))
    → Ensures P (m >>= f)
Ensures-bind P (ok a) f h = h a
Ensures-bind P (crash e) f h = tt

-- `a[i]` of a std::array: an index past the end is undefined behaviour.
abbrev pub index {ℓ} : {A : Type ℓ} → List A → ℕ → Run A
index xs i = elim (get_elem? xs i) [ none ↦ crash out_of_bounds | some x ↦ ok x ]

-- `a[i] = v`
abbrev pub store {ℓ} : {A : Type ℓ} → List A → ℕ → A → Run (List A)
store xs i v = if ltb i (length xs) then ok (set xs i v) else crash out_of_bounds

-- `s.at(i)`, which throws std::out_of_range.
abbrev pub at {ℓ} : {A : Type ℓ} → List A → ℕ → Run A
at xs i = elim (get_elem? xs i) [ none ↦ crash out_of_range | some x ↦ ok x ]

pub at-append {ℓ} :
    {A : Type ℓ} (xs : List A) (y : A) (ys : List A) → at (xs ++ y ∷ ys) (length xs) ≡ ok y
at-append [] y ys = refl
at-append (x ∷ xs) y ys = at-append xs y ys

-- `s.substr(i, n)`
abbrev pub substr {ℓ} : {A : Type ℓ} → List A → ℕ → ℕ → Run (List A)
substr xs i n = if ltb (length xs) i then crash out_of_range else ok (take n (drop i xs))

pub index_lt {ℓ} :
    {A : Type ℓ} (xs : List A) (i : ℕ) (d : A) → i < length xs → index xs i ≡ ok (get_or xs i d)
index_lt xs i d h = rw (get_elem?-get_or xs i d h, index)

pub store_lt {ℓ} :
    {A : Type ℓ} (xs : List A) (i : ℕ) (v : A) → i < length xs → store xs i v ≡ ok (set xs i v)
store_lt xs i v h = ground arith

pub at-some {ℓ} :
    {A : Type ℓ} (xs : List A) (i : ℕ) (x : A) → get_elem? xs i ≡ some x → at xs i ≡ ok x
at-some xs i x e = rw (e, at)

pub substr_le {ℓ} :
    {A : Type ℓ} (xs : List A) (i n : ℕ) → i ≤ length xs → substr xs i n ≡ ok (take n (drop i xs))
substr_le xs i n h = ground arith
