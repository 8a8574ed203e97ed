-- ===== src/Resp3/Parser/Resume.antt =====
-- The parser is incremental: a call that needs more data loses nothing.
use aedis.Prelude.{
  ℕ, zero, suc, ◌+◌, ◌≤◌, ◌<◌, ◌≡◌, refl, sym, ap, ◌∙◌, inl, inr, Bool, true, false, Option, none,
  some, [], ◌∷◌, ◌++◌, arith, Bool-cases, length, length-append, take, take-append, drop,
  drop-append, word_mod,
}
use aedis.Prelude.Bytes.{Bytes}
use aedis.Prelude.Run.{Run, ok, crash, ◌>>=◌}
use aedis.Resp3.Types.{to_type}
use aedis.Resp3.Parser.{
  Parser, Step, more, got, fail, bulk_expected, find_sep, after_header, read_bulk, read_header,
  consume,
}
use aedis.Resp3.Parser.Headers.{Headed, consume_impl-Headed}
use aedis.Resp3.Parser.Lines.{
  find_sep-lt, find_sep-append, read_header-more, read_header-line, read_header_empty,
}
use aedis.Resp3.Parser.Safety.{Inv}

abbrev state : Step → Parser → Parser
state (more q) p = q
state (got q nd) p = p
state (fail q e) p = p

-- A bulk that is not there yet leaves the parser as it is.
read_bulk-more : (p q : Parser) (view : Bytes) → read_bulk p view ≡ ok (more q) → p ≡ q
unfolding read_bulk
read_bulk-more p q view e = ground arith

consume_bulk :
    (p : Parser) (view : Bytes) → bulk_expected p ≡ true → consume p view ≡ read_bulk p view
unfolding consume
consume_bulk p view b = rw b

consume_header :
    (p : Parser) (view : Bytes) → bulk_expected p ≡ false → consume p view ≡ read_header p view
unfolding consume
consume_header p view b = rw b

-- After a header: `r` is what `consume_impl` returned.
after_header-more :
    (faulty : Bool) (p q : Parser) (v w : Bytes) (pos : ℕ) (r : Run Step)
    → Headed p faulty r
    → (r >>= after_header v pos) ≡ ok (more q)
    → consume q (v ++ w) ≡ (r >>= after_header (v ++ w) pos)
unfolding after_header
after_header-more faulty p q v w pos (crash e) h run = cc
after_header-more faulty p q v w pos (ok (more s)) h run = absurd h
after_header-more faulty p q v w pos (ok (fail s e)) h run = cc
after_header-more faulty p q v w pos (ok (got s nd)) h run = elim (Bool-cases (bulk_expected s)) [
  | inl bulk ↦
      let s' : Parser = record s { consumed = pos + 2 } in
      let same : s' ≡ q = read_bulk-more s' q v (rw bulk at run) in
      rw (← same, consume_bulk s' (v ++ w) bulk, bulk) refl
  | inr simple ↦ absurd (cc (rw simple at run))
]

read_header-resume :
    (p q : Parser) (v w s : Bytes) (o : Option ℕ)
    → Inv p
    → bulk_expected p ≡ false
    → p.consumed ≤ length v
    → length (v ++ w) < word_mod
    → drop p.consumed v ≡ s
    → find_sep s ≡ o
    → read_header p v ≡ ok (more q)
    → consume q (v ++ w) ≡ read_header p (v ++ w)
read_header-resume p q v w s none i b inside bound d f run =
    let same : ok (more p) ≡ ok (more q) = sym (read_header-more p v (rw d f)) ∙ run in
    let pq : p ≡ q = cc in rw (← pq) (consume_header p (v ++ w) b)
read_header-resume p q v w [] (some k) i b inside bound d f run =
    absurd (omega (arith, find_sep-lt [] k f))
read_header-resume p q v w (c ∷ rest) (some zero) i b inside bound d f run =
    let failed = sym (read_header_empty p v c rest d f) ∙ run in absurd (cc)
read_header-resume p q v w (c ∷ rest) (some (suc k)) i b inside bound d f run =
    let fits = find_sep-lt (c ∷ rest) (suc k) f in
    let d' : drop p.consumed (v ++ w) ≡ c ∷ (rest ++ w) =
      drop-append p.consumed v w inside ∙ ap (λ x. x ++ w) d in
    let first = read_header-line p v c k rest (omega (arith, length-append v w)) d f in
    let second =
      read_header-line p (v ++ w) c k (rest ++ w) bound d'
        (find_sep-append (c ∷ rest) w (suc k) f) in
    rw (second, take-append k rest w (omega arith))
      (after_header-more _ p q v w (p.consumed + suc k) _
        (consume_impl-Headed (to_type c) (take k rest) p i.stack b) (sym first ∙ run))

-- Where a call needs more data, from a parser that keeps its invariant and inside the view, calling
-- again with more bytes behind the view, fewer than 2^64 in all, does what one call on the longer
-- view does: the chunks in which a message arrives do not show.
pub consume-resume :
    (p q : Parser) (v w : Bytes)
    → Inv p
    → p.consumed ≤ length v
    → length (v ++ w) < word_mod
    → consume p v ≡ ok (more q)
    → consume q (v ++ w) ≡ consume p (v ++ w)
consume-resume p q v w i inside bound run = elim (Bool-cases (bulk_expected p)) [
  | inl bulk ↦
      let same : p ≡ q = read_bulk-more p q v (sym (consume_bulk p v bulk) ∙ run) in
      rw (← same) refl
  | inr header ↦
      read_header-resume p q v w _ _ i header inside bound refl refl
        (sym (consume_header p v header) ∙ run)
      ∙ sym (consume_header p (v ++ w) header)
]
