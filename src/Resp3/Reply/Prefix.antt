-- ===== src/Resp3/Reply/Prefix.antt =====
-- What `consume` makes of the first bytes of a message.
use aedis.Prelude.{
  ℕ, suc, ◌+◌, ◌≤◌, ◌<◌, ◌≡◌, ◌≢◌, refl, sym, ap, ◌∙◌, ◌⊎◌, inl, inr, true, false, Option, none,
  some, [], ◌∷◌, ◌++◌, arith, Bool-cases, length, length-append, length-drop, take, take-append,
  take-length, drop, drop-append, All, word, word_mod, sub_word, ltb, ltb→le,
}
use aedis.Prelude.Bytes.{Bytes}
use aedis.Prelude.Run.{Run, ok, crash, ◌>>=◌, Ensures, Ensures-bind, substr_le}
use aedis.Resp3.Types.{invalid, to_type}
use aedis.Resp3.Parser.{
  Parser, Step, more, got, fail, bulk_expected, done, decrement, settle, commit_elem, make_node,
  find_sep, consume_impl, read_bulk, after_header, read_header, consume,
}
use aedis.Resp3.Parser.Lines.{
  find_sep-lt, find_sep-append, find_sep_line, read_header-more, read_header-line,
}
use aedis.Resp3.Reply.{ended}
use aedis.Resp3.Reply.Places.{Fine, Ready, at_header, in_bulk}

-- A node takes at least a byte, and stays in the view.
abbrev pub Inside : Bytes → Parser → Run Step → Type 0
Inside v p (ok (got q nd)) = (p.consumed < q.consumed) × (q.consumed ≤ length v)
Inside v p _ = Unit

-- On the first bytes `v` of the view `consume` does what it does on the view, or it needs more data
-- and does so then.
abbrev pub Prefixed : Bytes → Bytes → Parser → Run Step → Run Step → Type 0
Prefixed view v p first whole =
    ((first ≡ whole) × Inside v p first)
    ⊎ ((p' : Parser) × (first ≡ ok (more p'))
        × (consume p' view ≡ whole)
        × Ready view p'
        × (p'.consumed ≤ length v)
        × (done p' ≡ false))

commit_elem-consumed : (p : Parser) → Ensures (λ q. q.consumed ≡ p.consumed) (commit_elem p)
unfolding commit_elem
commit_elem-consumed p =
    Ensures-bind (λ q. q.consumed ≡ p.consumed) (decrement p.sizes p.depth) _
      λ s. Ensures-bind (λ q. q.consumed ≡ p.consumed) (settle p.depth s) _ λ r. refl

bulk_going : (p : Parser) → bulk_expected p ≡ true → done p ≡ false
unfolding done
bulk_going p b = ground arith

consume-in_bulk :
    (p : Parser) (view : Bytes) → bulk_expected p ≡ true → consume p view ≡ read_bulk p view
unfolding consume
consume-in_bulk p view b = rw b

bulk-Inside :
    (p : Parser) (v s : Bytes) (c span : ℕ) (r : Run Parser)
    → Ensures (λ q. q.consumed ≡ c) r
    → p.consumed < c + span
    → c + span ≤ length v
    → (p0 : Parser)
    → Inside v p (
        r >>= λ q.
        ok (got (record q { consumed = q.consumed + span }) (make_node p0.bulk 1 p0.depth s)))
bulk-Inside p v s c span (ok q) e lt le p0 = omega arith
bulk-Inside p v s c span (crash f) e lt le p0 = tt

-- A bulk, from where its header or an earlier call has left it.
bulk-Prefixed :
    (p0 p : Parser) (v w : Bytes)
    → length (v ++ w) < word_mod
    → p.consumed ≤ length v
    → p0.consumed ≤ p.consumed
    → bulk_expected p ≡ true
    → p.bulk_length + 2 < word_mod
    → Prefixed (v ++ w) v p0 (read_bulk p v) (read_bulk p (v ++ w))
unfolding read_bulk
bulk-Prefixed p0 p v w bound inside from b small =
    let both = length-append v w in
    let span : word (p.bulk_length + 2) ≡ p.bulk_length + 2 = omega arith in
    elim (Bool-cases (ltb (sub_word (length v) p.consumed) (p.bulk_length + 2))) [
      | inl less ↦ inr (
        p,
        rw (span, less) refl,
        consume-in_bulk p (v ++ w) b,
        in_bulk b small,
        inside,
        bulk_going p b,
      )
      | inr enough ↦
          let le = ltb→le _ _ enough in
          let enough' : ltb (sub_word (length (v ++ w)) p.consumed) (p.bulk_length + 2) ≡ false =
            ground (arith, both, le) in
          let text : take p.bulk_length (drop p.consumed (v ++ w))
              ≡ take p.bulk_length (drop p.consumed v) =
            ap (take p.bulk_length) (drop-append p.consumed v w inside)
            ∙ take-append p.bulk_length (drop p.consumed v) w
                (omega (arith, length-drop p.consumed v)) in
          let there = substr_le v p.consumed p.bulk_length inside in
          let there' = substr_le (v ++ w) p.consumed p.bulk_length (omega arith) in
          inl (
            rw (span, enough, enough', there, there', text) refl,
            rw (span, enough, there)
                (bulk-Inside p0 v (take p.bulk_length (drop p.consumed v)) p.consumed
                  (p.bulk_length + 2) (commit_elem (record p { bulk = invalid }))
                  (commit_elem-consumed (record p { bulk = invalid })) (omega arith) (omega arith)
                  p),
          )
    ]

-- Behind a header at `pos`.
after_header-Prefixed :
    (p : Parser) (v w : Bytes) (pos : ℕ) (r : Run Step)
    → length (v ++ w) < word_mod
    → pos + 2 ≤ length v
    → p.consumed ≤ pos
    → Fine r
    → Prefixed (v ++ w) v p (r >>= after_header v pos) (r >>= after_header (v ++ w) pos)
unfolding after_header
after_header-Prefixed p v w pos (crash f) bound inside from fine = inl (refl, tt)
after_header-Prefixed p v w pos (ok (more q)) bound inside from fine = inl (refl, tt)
after_header-Prefixed p v w pos (ok (fail q e)) bound inside from fine = inl (refl, tt)
after_header-Prefixed p v w pos (ok (got q nd)) bound inside from (inl simple) =
    inl (rw simple refl, rw simple (omega arith, inside))
after_header-Prefixed p v w pos (ok (got q nd)) bound inside from (inr small) =
    elim (Bool-cases (bulk_expected q)) [
      | inl b ↦
          rw b (
            bulk-Prefixed p (record q { consumed = pos + 2 }) v w bound inside (omega arith) b
              small)
      | inr simple ↦ inl (rw simple refl, rw simple (omega arith, inside))
    ]

module _ (p : Parser) (v w : Bytes) (bound : length (v ++ w) < word_mod)
    (inside : p.consumed ≤ length v) (going : done p ≡ false) where
  consume_header : (view : Bytes) → bulk_expected p ≡ false → consume p view ≡ read_header p view
  unfolding consume
  consume_header view b = rw b

  header-Prefixed :
      (c : ℕ) (s rest x : Bytes) (o : Option ℕ)
      → bulk_expected p ≡ false
      → All (λ y. y ≢ b'\r') (c ∷ s)
      → drop p.consumed (v ++ w) ≡ c ∷ ended s rest
      → Fine (consume_impl (to_type c) s p)
      → drop p.consumed v ≡ x
      → find_sep x ≡ o
      → Prefixed (v ++ w) v p (consume p v) (consume p (v ++ w))
  header-Prefixed c s rest x none b no_cr d fine dx f = inr (
    p,
    consume_header v b ∙ read_header-more p v (rw dx f),
    refl,
    at_header c s rest b no_cr d fine,
    inside,
    going,
  )
  header-Prefixed c s rest [] (some k) b no_cr d fine dx f =
      absurd (omega (arith, find_sep-lt [] k f))
  header-Prefixed c s rest (c0 ∷ rest0) (some k) b no_cr d fine dx f =
      let whole : (c0 ∷ rest0) ++ w ≡ c ∷ ended s rest =
        sym (ap (λ y. y ++ w) dx) ∙ sym (drop-append p.consumed v w inside) ∙ d in
      let ends = find_sep_line (c ∷ s) rest no_cr in
      let same : some k ≡ some (suc (length s)) =
        sym (find_sep-append (c0 ∷ rest0) w k f) ∙ ap find_sep whole ∙ ends in
      let k_is : k ≡ suc (length s) = cc in
      let head : c0 ≡ c = cc in
      let tail : rest0 ++ w ≡ ended s rest = cc in
      let f' : find_sep (c0 ∷ rest0) ≡ some (suc (length s)) = rw (← k_is) f in
      let fits = find_sep-lt (c0 ∷ rest0) (suc (length s)) f' in
      let text : take (length s) rest0 ≡ s =
        sym (take-append (length s) rest0 w (omega arith))
        ∙ ap (take (length s)) tail
        ∙ take-length s (b'\r' ∷ b'\n' ∷ rest) in
      let first =
        read_header-line p v c0 (length s) rest0 (omega (arith, length-append v w)) dx f' in
      let second = read_header-line p (v ++ w) c (length s) (ended s rest) bound d ends in
      rw
        (
          consume_header v b,
          consume_header (v ++ w) b,
          first,
          second,
          take-length s (b'\r' ∷ b'\n' ∷ rest),
          text,
          head,
        )
        (after_header-Prefixed p v w (p.consumed + suc (length s)) (consume_impl (to_type c) s p)
          bound (omega (arith, ap length dx, length-drop p.consumed v)) (omega arith) fine)

  pub consume-Prefixed : Ready (v ++ w) p → Prefixed (v ++ w) v p (consume p v) (consume p (v ++ w))
  consume-Prefixed (in_bulk b small) =
      rw (consume-in_bulk p v b, consume-in_bulk p (v ++ w) b)
        (bulk-Prefixed p p v w bound inside (omega arith) b small)
  consume-Prefixed (at_header c s rest b no_cr d fine) =
      header-Prefixed c s rest (drop p.consumed v) _ b no_cr d fine refl refl
