-- ===== src/Resp3/Reply/Counts.antt =====
-- The stack of sizes against the numbers of elements to come at each depth.
use aedis.Prelude.{
  ℕ, zero, suc, ◌+◌, ◌≤◌, ◌<◌, ◌≡◌, refl, ap, ◌∙◌, false, List, [], ◌∷◌, arith, ◌==◌, length,
  get_or, set, length-set, get_or-set_self, get_or-set_ne, word_mod, sub_word, subst,
}
use aedis.Prelude.Run.{Run, ok, ◌>>=◌, index_lt}
use aedis.Resp3.Parser.{Parser, decrement, settle, commit_elem}
use aedis.Resp3.Parser.Stack.{lowered, decrement_lt}

-- The stack holds the sentinel and, for each depth down from `d`, how many elements are to come.
abbrev pub Held : ℕ → List ℕ → List ℕ → Type 0
Held zero s [] = get_or s 0 0 ≡ 2
Held zero s (n ∷ ns) = ⊥
Held (suc d) s [] = ⊥
Held (suc d) s (n ∷ ns) = (get_or s (suc d) 0 ≡ n) × (0 < n) × (n < word_mod) × Held d s ns

-- Behind an element, of `counts` elements to come: a level whose last element it was is left.
abbrev pub Next : ℕ → List ℕ → List ℕ → Type 0
Next d s [] = d ≡ 0
Next d s (zero ∷ ns) = ⊥
Next d s (suc zero ∷ ns) = Next d s ns
Next d s (suc (suc n) ∷ ns) = Held d s (suc n ∷ ns)

pub Held-set : (d j v : ℕ) (s counts : List ℕ) → d < j → Held d s counts → Held d (set s j v) counts
Held-set zero j v s [] h held = get_or-set_ne s j 0 v 0 (omega arith) ∙ held
Held-set zero j v s (n ∷ ns) h held = held
Held-set (suc d) j v s [] h held = held
Held-set (suc d) j v s (n ∷ ns) h (e, pos, small, held) = (
  get_or-set_ne s j (suc d) v 0 (omega arith) ∙ e,
  pos,
  small,
  Held-set d j v s ns (omega arith) held,
)

-- An aggregate of `n` elements is opened.
pub Held-push :
    (d n : ℕ) (s counts : List ℕ)
    → d + 1 < length s
    → 0 < n
    → n < word_mod
    → Held d s counts
    → Held (d + 1) (set s (d + 1) n) (n ∷ counts)
Held-push d n s counts room pos small held =
    let e : suc d ≡ d + 1 = omega arith in
    subst (λ k. Held k (set s k n) (n ∷ counts)) e
      (
        get_or-set_self s (suc d) n 0 (omega arith),
        pos,
        small,
        Held-set d (suc d) n s counts (omega arith) held,
      )

pub Held-pos : (d n : ℕ) (s counts : List ℕ) → Held d s (n ∷ counts) → 0 < d
Held-pos zero n s counts h = elim h [ ]
Held-pos (suc d) n s counts h = omega arith

abbrev Settled : List ℕ → Run (ℕ × List ℕ) → Type 0
Settled counts run =
    (d : ℕ) × (s : List ℕ) × (run ≡ ok (d, s)) × (length s ≡ 6) × (d ≤ 5) × Next d s counts

-- The element is counted, and the levels that it ends are left.
settle-Next :
    (d : ℕ) (s counts : List ℕ)
    → length s ≡ 6
    → d ≤ 5
    → Held d s counts
    → Settled counts (decrement s d >>= settle d)
unfolding settle
settle-Next zero s [] six le held =
    let s' = lowered s 0 in
    let six' : length s' ≡ 6 = length-set s 0 (sub_word (get_or s 0 0) 1) ∙ six in
    let one : get_or s' 0 0 ≡ 1 =
      rw (get_or-set_self s 0 (sub_word (get_or s 0 0) 1) 0 (omega arith), held) refl in
    (
      0,
      s',
      rw (decrement_lt s 0 (omega arith), index_lt s' 0 0 (omega arith), one) refl,
      six',
      omega arith,
      refl,
    )
settle-Next zero s (n ∷ ns) six le held = elim held [ ]
settle-Next (suc d) s [] six le held = elim held [ ]
settle-Next (suc d) s (zero ∷ ns) six le (e, pos, small, held) = absurd (omega arith)
settle-Next (suc d) s (suc zero ∷ ns) six le (e, pos, small, held) =
    let s' = lowered s (suc d) in
    let six' : length s' ≡ 6 = length-set s (suc d) (sub_word (get_or s (suc d) 0) 1) ∙ six in
    let none_left : get_or s' (suc d) 0 ≡ 0 =
      rw (get_or-set_self s (suc d) (sub_word (get_or s (suc d) 0) 1) 0 (omega arith), e) refl in
    let (d', t, run, six_left, shallow, rest) =
      settle-Next d s' ns six' (omega arith)
        (Held-set d (suc d) (sub_word (get_or s (suc d) 0) 1) s ns (omega arith) held) in
    (
      d',
      t,
      rw (decrement_lt s (suc d) (omega arith), index_lt s' (suc d) 0 (omega arith), none_left) run,
      six_left,
      shallow,
      rest,
    )
settle-Next (suc d) s (suc (suc n) ∷ ns) six le (e, pos, small, held) =
    let s' = lowered s (suc d) in
    let six' : length s' ≡ 6 = length-set s (suc d) (sub_word (get_or s (suc d) 0) 1) ∙ six in
    let left : get_or s' (suc d) 0 ≡ suc n =
      get_or-set_self s (suc d) (sub_word (get_or s (suc d) 0) 1) 0 (omega arith) ∙ omega arith in
    let going : (suc n == 0) ≡ false = ground arith in
    (
      suc d,
      s',
      rw (decrement_lt s (suc d) (omega arith), index_lt s' (suc d) 0 (omega arith), left, going)
          refl,
      six',
      le,
      (
        left,
        omega arith,
        omega arith,
        Held-set d (suc d) (sub_word (get_or s (suc d) 0) 1) s ns (omega arith) held,
      ),
    )

-- `commit_elem` counts an element, and changes nothing else.
pub commit_elem-Next :
    (p : Parser) (counts : List ℕ)
    → length p.sizes ≡ 6
    → p.depth ≤ 5
    → Held p.depth p.sizes counts
    → (d : ℕ) × (s : List ℕ) × (commit_elem p ≡ ok (record p { depth = d; sizes = s }))
      × (length s ≡ 6)
      × (d ≤ 5)
      × Next d s counts
unfolding commit_elem
commit_elem-Next p counts six le held =
    let (d, s, run, six', shallow, next) = settle-Next p.depth p.sizes counts six le held in
    let lower = decrement_lt p.sizes p.depth (omega arith) in
    (d, s, rw (lower, rw lower at run) refl, six', shallow, next)

pub Held-depth : (d : ℕ) (s counts : List ℕ) → Held d s counts → d ≡ length counts
Held-depth zero s [] h = refl
Held-depth zero s (n ∷ ns) h = elim h [ ]
Held-depth (suc d) s [] h = elim h [ ]
Held-depth (suc d) s (n ∷ ns) (e, pos, small, held) = ap suc (Held-depth d s ns held)

-- The last element at this depth is to come.
pub Held-last :
    (d n : ℕ) (s counts : List ℕ)
    → d < length s
    → Held d s (n ∷ counts)
    → Held d (set s d 1) (1 ∷ counts)
Held-last zero n s counts room held = elim held [ ]
Held-last (suc d) n s counts room (e, pos, small, held) = (
  get_or-set_self s (suc d) 1 0 room,
  omega arith,
  omega arith,
  Held-set d (suc d) 1 s counts (omega arith) held,
)

pub Held-some : (d n : ℕ) (s counts : List ℕ) → Held d s (n ∷ counts) → 0 < n
Held-some zero n s counts held = elim held [ ]
Held-some (suc d) n s counts (e, pos, small, held) = pos
