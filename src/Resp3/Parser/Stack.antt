-- ===== src/Resp3/Parser/Stack.antt =====
-- The stack of sizes: `commit_elem` and what it keeps.
use aedis.Prelude.{
  ℕ, zero, suc, ◌≤◌, ◌<◌, ◌≡◌, refl, ◌∙◌, ◌⊎◌, inl, inr, List, arith, ◌==◌, Bool-cases, length,
  get_or, set, length-set, get_or-set_self, get_or-set_ne, sub_word,
}
use aedis.Prelude.Run.{Run, ok, crash, out_of_bounds, ◌>>=◌, index_lt, store_lt}
use aedis.Resp3.Parser.{Parser, decrement, settle, commit_elem}

-- The array has its six entries, `depth` is one of its indices, and the sentinel is untouched.
pub record Stacked (d : ℕ) (sizes : List ℕ) : Type 0 where
  pub six : length sizes ≡ 6
  pub shallow : d ≤ 5
  pub sentinel : get_or sizes 0 0 ≡ 2

abbrev pub lowered : List ℕ → ℕ → List ℕ
lowered sizes d = set sizes d (sub_word (get_or sizes d 0) 1)

pub decrement_lt :
    (sizes : List ℕ) (d : ℕ) → d < length sizes → decrement sizes d ≡ ok (lowered sizes d)
decrement_lt sizes d h = rw (decrement, index_lt sizes d 0 h) (store_lt sizes d _ h)

-- After a commit the message goes on, or its last element was read.
abbrev pub Committed : ℕ → List ℕ → Type 0
Committed d sizes = (length sizes ≡ 6) × (d ≤ 5) × ((d ≡ 0) ⊎ ((0 < d) × (get_or sizes 0 0 ≡ 2)))

abbrev Lowered : ℕ → List ℕ → Type 0
Lowered zero sizes = get_or sizes 0 0 ≡ 1
Lowered (suc d) sizes = get_or sizes 0 0 ≡ 2

lowered-Lowered :
    (d : ℕ) (sizes : List ℕ) → d < length sizes → get_or sizes 0 0 ≡ 2 → Lowered d (lowered sizes d)
lowered-Lowered zero sizes h e = rw (get_or-set_self sizes 0 (sub_word (get_or sizes 0 0) 1) 0 h, e)
lowered-Lowered (suc d) sizes h e =
    rw (get_or-set_ne sizes (suc d) 0 (sub_word (get_or sizes (suc d) 0) 1) 0 (omega arith)) e

settle-Committed :
    (d : ℕ) (sizes : List ℕ)
    → length sizes ≡ 6
    → d ≤ 5
    → Lowered d sizes
    → (r : ℕ × List ℕ) × (settle d sizes ≡ ok r) × Committed r.0 r.1
unfolding settle
settle-Committed zero sizes l h e =
    ((zero, sizes), rw (index_lt sizes 0 0 (omega arith), e) refl, (l, h, inl refl))
settle-Committed (suc d) sizes l h e = elim (Bool-cases (get_or sizes (suc d) 0 == 0)) [
  | inl z ↦
      let (r, run, c) =
        settle-Committed d (lowered sizes d) (length-set sizes d _ ∙ l) (omega arith)
          (lowered-Lowered d sizes (omega arith) e) in
      (r, rw (index_lt sizes (suc d) 0 (omega arith), z, decrement_lt sizes d (omega arith)) run, c)
  | inr n ↦ (
    (suc d, sizes),
    rw (index_lt sizes (suc d) 0 (omega arith), n) refl,
    (l, h, inr (omega arith, e)),
  )
]

-- With the sentinel in place `commit_elem` stays inside the array, and changes nothing else.
pub commit_elem-Committed :
    (p : Parser)
    → Stacked p.depth p.sizes
    → (d : ℕ) × (s : List ℕ) × (commit_elem p ≡ ok (record p { depth = d; sizes = s }))
      × Committed d s
unfolding commit_elem
commit_elem-Committed p v =
    let (r, run, c) =
      settle-Committed p.depth (lowered p.sizes p.depth) (length-set p.sizes p.depth _ ∙ v.six)
        v.shallow (lowered-Lowered p.depth p.sizes (omega arith) v.sentinel) in
    (r.0, r.1, rw (decrement_lt p.sizes p.depth (omega arith), run) refl, c)

settle-crash :
    (d : ℕ) (sizes : List ℕ) (f : ℕ × List ℕ → Run Parser)
    → d ≡ 0
    → length sizes ≡ 6
    → get_or sizes 0 0 ≡ 1
    → (decrement sizes d >>= λ s. settle d s >>= f) ≡ crash out_of_bounds
unfolding settle
settle-crash zero sizes f e l one = rw (
  decrement_lt sizes 0 (omega arith),
  index_lt (lowered sizes 0) 0 0
      (omega (arith, length-set sizes 0 (sub_word (get_or sizes 0 0) 1))),
  get_or-set_self sizes 0 (sub_word (get_or sizes 0 0) 1) 0 (omega arith),
  one,
)
settle-crash (suc d) sizes f e l one = absurd (omega arith)

-- Where the sentinel has been overwritten by 1, the loop of `commit_elem` leaves the array.
pub commit_elem-crash :
    (p : Parser)
    → p.depth ≡ 0
    → length p.sizes ≡ 6
    → get_or p.sizes 0 0 ≡ 1
    → commit_elem p ≡ crash out_of_bounds
unfolding commit_elem
commit_elem-crash p e l one = settle-crash p.depth p.sizes _ e l one
