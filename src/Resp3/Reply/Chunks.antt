-- ===== src/Resp3/Reply/Chunks.antt =====
-- The loop of `parse` on the first bytes of a message.
use aedis.Prelude.{
  ℕ, zero, suc, ◌-◌, ◌≤◌, ◌<◌, ◌≡◌, ◌≢◌, refl, sym, ap, ◌∙◌, ◌⊎◌, inl, inr, true, false, Option,
  none, List, [], ◌∷◌, ◌++◌, append-nil, arith, length, word_mod, subst,
}
use aedis.Prelude.Bytes.{Bytes}
use aedis.Prelude.Run.{Run, ok}
use aedis.Error.{Failure}
use aedis.Resp3.Node.{Node}
use aedis.Resp3.Parser.{
  Parser, more, got, done, consume, Parsed, needs_more, finished, parse_step, parse,
}
use aedis.Resp3.Parser.Loop.{parse-done, parse-consume}
use aedis.Resp3.Parser.Trace.{Takes}
use aedis.Resp3.Reply.Places.{Ready, Visits, arrived, visit}
use aedis.Resp3.Reply.Prefix.{Prefixed, Inside, consume-Prefixed}

more_or_got : {p q : Parser} {nd : Node} → ok (more p) ≡ ok (got q nd) → ⊥
more_or_got e = cc

module _ {A : Type 0} (adapter : A → Node → A × Option Failure) where
  -- Where the loop stops for want of data: the nodes `ms` that lead to `q` are still to come.
  pub record Pending (view v w : Bytes) (q : Parser) (b : A) (p : Parser) (a : A) : Type 0 where
    pub nodes : List Node
    pub visits : Visits view p nodes q
    pub inside : p.consumed ≤ length v
    pub takes : Takes adapter a nodes b
    pub short : w ≢ []

  -- All nodes were taken, or the loop waits for the rest of the message.
  abbrev pub Outcome : Bytes → Bytes → Bytes → Parser → A → Run (Parsed A) → Type 0
  Outcome view v w q b r =
      ((r ≡ ok (finished q b none)) × (q.consumed ≤ length v))
      ⊎ ((p : Parser) × (a : A) × (r ≡ ok (needs_more p a)) × Pending view v w q b p a)

  -- One round, from what `consume` makes of the data.
  round-Outcome :
      (fuel : ℕ) (view v w : Bytes) (p p' q : Parser) (nd : Node) (ns : List Node) (a b : A)
      → v ++ w ≡ view
      → done p ≡ false
      → consume p view ≡ ok (got p' nd)
      → Visits view p' ns q
      → (adapter a nd).1 ≡ none
      → Takes adapter (adapter a nd).0 ns b
      → (p.consumed < p'.consumed
          → p'.consumed ≤ length v
          → Outcome view v w q b (parse adapter fuel p' v (adapter a nd).0))
      → Prefixed (v ++ w) v p (consume p v) (consume p (v ++ w))
      → Outcome view v w q b (parse adapter (suc fuel) p v a)
  round-Outcome fuel view v w p p' q nd ns a b e going read rest accepted takes onward
        (inl (same, within)) =
      let first : consume p v ≡ ok (got p' nd) = same ∙ ap (consume p) e ∙ read in
      let (further, inside) = subst (Inside v p) first within in
      rw (parse-consume adapter fuel p v a going, first, accepted, parse_step)
        (onward further inside)
  round-Outcome fuel view v w p p' q nd ns a b e going read rest accepted takes onward
        (inr (p2, first, again, ready, inside, going')) =
      inr (
        p2,
        a,
        parse-consume adapter fuel p v a going ∙ rw first refl,
        record {
          nodes = nd ∷ ns;
          visits =
              visit going' (subst (λ x. Ready x p2) e ready)
                (ap (consume p2) (sym e) ∙ again ∙ ap (consume p) e ∙ read) rest;
          inside = inside;
          takes = (accepted, takes);
          short = λ none_left.
              let all : v ≡ view = sym (append-nil v) ∙ ap (λ x. v ++ x) (sym none_left) ∙ e in
              absurd (more_or_got (sym first ∙ ap (consume p) all ∙ read));
        },
      )

  -- With `w` to come behind the data `v`.
  pub parse-Outcome :
      (fuel : ℕ) (view v w : Bytes) {p q : Parser} {ns : List Node} (visits : Visits view p ns q)
      (a b : A)
      → v ++ w ≡ view
      → length view < word_mod
      → done q ≡ true
      → p.consumed ≤ length v
      → length v - p.consumed < fuel
      → Takes adapter a ns b
      → Outcome view v w q b (parse adapter fuel p v a)
  parse-Outcome zero view v w visits a b e bound d inside enough takes = elim enough [ ]
  parse-Outcome (suc fuel) view v w {p} arrived a b e bound d inside enough takes =
      inl (parse-done adapter fuel p v a d ∙ ap (λ x. ok (finished p x none)) takes, inside)
  parse-Outcome (suc fuel) view v w {p} {q}
        (visit {q = p'} {nd = nd} {ns = ns} going ready read rest) a b e bound d inside enough
        (accepted, takes) =
      round-Outcome fuel view v w p p' q nd ns a b e going read rest accepted takes
        (λ further within.
          parse-Outcome fuel view v w rest (adapter a nd).0 b e bound d within (omega arith) takes)
        (consume-Prefixed p v w (omega (arith, ap length e)) inside going
          (subst (λ x. Ready x p) (sym e) ready))
