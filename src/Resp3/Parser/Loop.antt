-- ===== src/Resp3/Parser/Loop.antt =====
-- The loop of the free function `parse`.
use aedis.Prelude.{
  ℕ, zero, suc, ◌≤◌, ◌<◌, ◌≡◌, refl, ◌⊎◌, inl, inr, Bool, true, false, Option, none, some, arith,
  Bool-cases, length, word_mod,
}
use aedis.Prelude.Bytes.{Bytes}
use aedis.Prelude.Run.{Run, ok, crash, Fault, IsAccess, ◌>>=◌}
use aedis.Error.{Failure, error_code, exception}
use aedis.Resp3.Node.{Node}
use aedis.Resp3.Parser.{
  Parser, Step, more, got, fail, done, consume, Parsed, needs_more, finished, parse_step, parse,
}
use aedis.Resp3.Parser.Safety.{Inv, work, After, consume-After}

-- The adapter can throw the exception.
abbrev pub Throws : {A : Type 0} → (A → Node → A × Option Failure) → Fault → Type 0
Throws {A = A} adapter f = (a : A) × (nd : Node) × ((adapter a nd).1 ≡ some (exception f))

-- The loop ended by itself: in a message that goes on, behind a whole one, or with an error; or an
-- exception of the adapter left it, or an access of the parser faults.
abbrev pub Ended : {A : Type 0} → (A → Node → A × Option Failure) → Bytes → Run (Parsed A) → Type 0
Ended adapter view (crash e) = IsAccess e ⊎ Throws adapter e
Ended adapter view (ok (needs_more q a)) = Inv q × (q.consumed ≤ length view)
Ended adapter view (ok (finished q a none)) = (done q ≡ true) × (q.consumed ≤ length view)
Ended adapter view (ok (finished q a (some e))) = Unit

module _ {ℓ} {A : Type ℓ} (adapter : A → Node → A × Option Failure) where
  pub parse-done :
      (fuel : ℕ) (p : Parser) (view : Bytes) (a : A)
      → done p ≡ true
      → parse adapter (suc fuel) p view a ≡ ok (finished p a none)
  unfolding parse
  parse-done fuel p view a d = rw (d, parse)

  pub parse-consume :
      (fuel : ℕ) (p : Parser) (view : Bytes) (a : A)
      → done p ≡ false
      → parse adapter (suc fuel) p view a
        ≡ (consume p view >>= parse_step adapter (λ q a'. parse adapter fuel q view a') a)
  unfolding parse
  parse-consume fuel p view a d = rw (d, parse)

module _ {A : Type 0} (adapter : A → Node → A × Option Failure) where
  -- One round from a result of `consume`, over the rounds that follow.
  round-Ended :
      (p : Parser) (view : Bytes) (a : A) (faulty : Bool) (again : Parser → A → Run (Parsed A))
      → ((q : Parser) (a' : A)
          → Inv q ⊎ (done q ≡ true)
          → q.consumed ≤ length view
          → work q view < work p view
          → Ended adapter view (again q a'))
      → (r : Run Step) → After p view faulty r
      → Ended adapter view (r >>= parse_step adapter again a)
  round-Ended p view a faulty again rest (crash e) (_, access) = inl access
  round-Ended p view a faulty again rest (ok (more q)) (_, v, inside) = (v, inside)
  round-Ended p view a faulty again rest (ok (fail q e)) h = tt
  round-Ended p view a faulty again rest (ok (got q nd)) (_, v, inside, less) =
      next (adapter a nd).1 refl
    where
      next :
          (failure : Option Failure)
          → (adapter a nd).1 ≡ failure
          → Ended adapter view (elim failure [
            | none ↦ again q (adapter a nd).0
            | some (error_code e) ↦ ok (finished q (adapter a nd).0 (some e))
            | some (exception f) ↦ crash f
          ])
      next none _ = rest q (adapter a nd).0 v inside less
      next (some (error_code e)) _ = tt
      next (some (exception f)) e = inr (a, nd, e)

  pub parse-Ended_fuel :
      (fuel : ℕ) (p : Parser) (view : Bytes) (a : A)
      → Inv p ⊎ (done p ≡ true)
      → p.consumed ≤ length view
      → length view < word_mod
      → work p view < fuel
      → Ended adapter view (parse adapter fuel p view a)
  parse-Ended_fuel zero p view a v inside bound w = elim w [ ]
  parse-Ended_fuel (suc fuel) p view a (inr d) inside bound w =
      rw (parse-done adapter fuel p view a d) (d, inside)
  parse-Ended_fuel (suc fuel) p view a (inl v) inside bound w = elim (Bool-cases (done p)) [
    | inl d ↦ rw (parse-done adapter fuel p view a d) (d, inside)
    | inr going ↦ rw (parse-consume adapter fuel p view a going) (
        round-Ended p view a _ (λ q a'. parse adapter fuel q view a')
          (λ q a' v' inside' less. parse-Ended_fuel fuel q view a' v' inside' bound (omega arith))
          (consume p view) (consume-After p view v inside bound))
  ]
