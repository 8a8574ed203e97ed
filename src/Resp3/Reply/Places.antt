-- ===== src/Resp3/Reply/Places.antt =====
-- Where the parser stands in a view, and the nodes that it gives from there.
use aedis.Prelude.{
  ℕ, suc, ◌+◌, ◌≤◌, ◌<◌, ◌≡◌, refl, sym, ap, ◌∙◌, true, false, List, [], ◌∷◌, ◌++◌, arith, length,
  length-append, drop, drop-drop, drop-length, All, word_mod, ◌≢◌, ◌⊎◌,
}
use aedis.Prelude.Bytes.{Bytes}
use aedis.Prelude.Run.{Run, ok}
use aedis.Resp3.Types.{invalid, to_type}
use aedis.Resp3.Node.{Node}
use aedis.Resp3.Parser.{Parser, Step, got, done, consume, consume_impl, bulk_expected}
use aedis.Resp3.Parser.Trace.{trace}
use aedis.Resp3.Reply.{ended}
use aedis.Resp3.Reply.Counts.{Held, Held-pos, Next}

-- `rest` is what stands behind the first `k` bytes of the view.
abbrev pub Stands : ℕ → Bytes → Bytes → Type 0
Stands k view rest = (drop k view ≡ rest) × (k + length rest ≡ length view)

pub forward :
    (k : ℕ) (xs view rest : Bytes) → Stands k view (xs ++ rest) → Stands (k + length xs) view rest
forward k xs view rest (d, e) = (
  sym (drop-drop k (length xs) view) ∙ ap (drop (length xs)) d ∙ drop-length xs rest,
  omega (arith, length-append xs rest),
)

pub forward_ended :
    (k : ℕ) (s view rest : Bytes)
    → Stands k view (ended s rest)
    → Stands (k + (length s + 2)) view rest
forward_ended k s view rest h =
    let (d, e) =
      forward (k + length s) (b'\r' ∷ b'\n' ∷ []) view rest
        (forward k s view (b'\r' ∷ b'\n' ∷ rest) h) in
    let places : k + length s + 2 ≡ k + (length s + 2) = omega arith in
    (ap (λ i. drop i view) (sym places) ∙ d, omega arith)

-- Behind a header line.
pub forward_line :
    (k c : ℕ) (s view rest : Bytes)
    → Stands k view (c ∷ ended s rest)
    → Stands (k + suc (length s) + 2) view rest
forward_line k c s view rest h =
    forward (k + suc (length s)) (b'\r' ∷ b'\n' ∷ []) view rest
      (forward k (c ∷ s) view (b'\r' ∷ b'\n' ∷ rest) h)

-- Inside a message, with `counts` elements to come from the parser's depth down, and `rest` to read.
pub record Reading (view : Bytes) (p : Parser) (counts : List ℕ) (rest : Bytes) : Type 0 where
  pub going : done p ≡ false
  pub quiet : p.bulk ≡ invalid
  pub six : length p.sizes ≡ 6
  pub shallow : p.depth ≤ 5
  pub held : Held p.depth p.sizes counts
  pub stands : Stands p.consumed view rest

-- Behind an element, the first of `counts`.
pub record Behind (view : Bytes) (p : Parser) (counts : List ℕ) (rest : Bytes) : Type 0 where
  pub started : 0 < p.consumed
  pub quiet : p.bulk ≡ invalid
  pub six : length p.sizes ≡ 6
  pub shallow : p.depth ≤ 5
  pub next : Next p.depth p.sizes counts
  pub stands : Stands p.consumed view rest

pub going_deep : (p : Parser) → 0 < p.depth → done p ≡ false
unfolding done
going_deep p h = ground arith

-- Where more elements are to come at this depth, the parser is inside the message.
pub Behind-Reading :
    (view : Bytes) (p : Parser) (n : ℕ) (counts : List ℕ) (rest : Bytes)
    → Behind view p (suc (suc n) ∷ counts) rest
    → Reading view p (suc n ∷ counts) rest
Behind-Reading view p n counts rest b = record {
  going = going_deep p (Held-pos p.depth (suc n) p.sizes counts b.next);
  quiet = b.quiet;
  six = b.six;
  shallow = b.shallow;
  held = b.next;
  stands = b.stands;
}

-- What a header leads to: a bulk to come has a length whose sum with that of a separator fits.
abbrev pub Fine : Run Step → Type 0
Fine (ok (got q nd)) = (bulk_expected q ≡ false) ⊎ (q.bulk_length + 2 < word_mod)
Fine _ = Unit

-- What the next call of `consume` reads: a line, or the rest of a bulk.
pub data Ready (view : Bytes) (p : Parser) : Type 0 where
  at_header :
      (c : ℕ) (s rest : Bytes)
      → bulk_expected p ≡ false
      → All (λ x. x ≢ b'\r') (c ∷ s)
      → drop p.consumed view ≡ c ∷ ended s rest
      → Fine (consume_impl (to_type c) s p)
      → Ready view p
  in_bulk : bulk_expected p ≡ true → p.bulk_length + 2 < word_mod → Ready view p

-- The nodes `ns` come next, one from each call of `consume`, and lead to `r`.
pub data Visits (view : Bytes) : Parser → List Node → Parser → Type 0 where
  arrived : {p : Parser} → Visits view p [] p
  visit :
      {p q r : Parser} {nd : Node} {ns : List Node}
      → done p ≡ false
      → Ready view p
      → consume p view ≡ ok (got q nd)
      → Visits view q ns r
      → Visits view p (nd ∷ ns) r

pub Visits-append :
    {view : Bytes} {p q r : Parser} {ns ms : List Node}
    → Visits view p ns q
    → Visits view q ms r
    → Visits view p (ns ++ ms) r
Visits-append arrived w = w
Visits-append (visit going ready read v) w = visit going ready read (Visits-append v w)

-- The trace goes the same way.
pub trace-Visits :
    {view : Bytes} {p q : Parser} {ns : List Node} (v : Visits view p ns q) (fuel : ℕ)
    → trace (length ns + fuel) p view ≡ (ns ++ (trace fuel q view).0, (trace fuel q view).1)
unfolding trace
trace-Visits {view} {p} arrived fuel = ap (λ k. trace k p view) (omega arith)
trace-Visits {view} {p} (visit {q = q} {nd = nd} {ns = ns} going ready read v) fuel =
    let e : suc (length ns) + fuel ≡ suc (length ns + fuel) = omega arith in
    let one : trace (suc (length ns + fuel)) p view
        ≡ (nd ∷ (trace (length ns + fuel) q view).0, (trace (length ns + fuel) q view).1) =
      rw (going, trace, read) refl in
    ap (λ k. trace k p view) e ∙ one ∙ ap (λ x. (nd ∷ x.0, x.1)) (trace-Visits v fuel)

-- The parser gets from `p` through an element to what stands behind it.
abbrev pub Walked : Bytes → Parser → List ℕ → List Node → Bytes → Type 0
Walked view p counts ns rest = (q : Parser) × Visits view p ns q × Behind view q counts rest

-- From one node to the rest of an element.
pub Walked-one :
    (view : Bytes) (p q : Parser) (counts : List ℕ) (nd : Node) (rest : Bytes)
    → done p ≡ false
    → Ready view p
    → consume p view ≡ ok (got q nd)
    → Behind view q counts rest
    → Walked view p counts (nd ∷ []) rest
Walked-one view p q counts nd rest going ready read b = (q, visit going ready read arrived, b)
