-- ===== src/Resp3/Parser/Safety.antt =====
-- The parser's invariant: what `consume` keeps, when it faults, and that `parse` ends.
use aedis.Prelude.{
  ℕ, zero, suc, ◌+◌, ◌-◌, ◌*◌, ◌≤◌, ◌<◌, ◌≡◌, refl, ap, ◌⊎◌, inl, inr, Bool, true, false, Option,
  none, some, List, [], ◌∷◌, arith, ltb, if◌then◌else◌, Bool-cases, length, length-drop, take, drop,
  word_mod, word, sub_word, ltb→le,
}
use aedis.Prelude.Bytes.{Bytes}
use aedis.Prelude.Run.{Run, ok, crash, IsAccess, ◌>>=◌, substr_le}
use aedis.Resp3.Types.{invalid, to_type}
use aedis.Resp3.Parser.{
  Parser, reset, Step, more, got, fail, bulk_expected, done, find_sep, after_header, read_bulk,
  read_header, consume,
}
use aedis.Resp3.Parser.Stack.{Stacked, Committed, commit_elem-Committed}
use aedis.Resp3.Parser.Headers.{is_faulty_header, Ready, Headed, consume_impl-Headed}
use aedis.Resp3.Parser.Lines.{find_sep-lt, read_header-more, read_header-line, read_header_empty}

-- A message is being read: the stack is in order, and a bulk is expected only behind its header.
pub record Inv (p : Parser) : Type 0 where
  pub stack : Stacked p.depth p.sizes
  pub started : bulk_expected p ≡ true → 0 < p.consumed

pub reset-Inv : Inv reset
reset-Inv = record {
  stack = record { six = refl; shallow = omega arith; sentinel = refl };
  started = λ e. cc;
}

-- The next line of the view is a header that the parser does not survive.
abbrev pub is_faulty_line : ℕ → Bytes → Bool
is_faulty_line d [] = false
is_faulty_line d (c ∷ content) = is_faulty_header (to_type c) content d

abbrev faulty_at : ℕ → Bytes → Option ℕ → Bool
faulty_at d s none = false
faulty_at d s (some i) = is_faulty_line d (take i s)

abbrev pub is_faulty : Parser → Bytes → Bool
is_faulty p view =
    if bulk_expected p
    then false
    else faulty_at p.depth (drop p.consumed view) (find_sep (drop p.consumed view))

-- What is left to do: two units for each byte, and one for a bulk that is announced.
abbrev pub work : Parser → Bytes → ℕ
work p view = 2 * (length view - p.consumed) + (if bulk_expected p then 1 else 0)

abbrev pub After : Parser → Bytes → Bool → Run Step → Type 0
After p view faulty (crash e) = (faulty ≡ true) × IsAccess e
After p view faulty (ok (more q)) = (faulty ≡ false) × Inv q × (q.consumed ≤ length view)
After p view faulty (ok (fail q e)) = (faulty ≡ false) × (q.consumed ≡ p.consumed)
After p view faulty (ok (got q nd)) =
    (faulty ≡ false)
    × (Inv q ⊎ (done q ≡ true))
    × (q.consumed ≤ length view)
    × (work q view < work p view)

Ready-Open : (q : Parser) → 0 < q.consumed → Ready q → Inv q ⊎ (done q ≡ true)
unfolding done
Ready-Open q pos (inl v) = inl (record { stack = v; started = λ _. pos })
Ready-Open q pos (inr (b, e)) = inr (ground arith)

Committed-Open :
    (d : ℕ) (s : List ℕ) (l n : ℕ)
    → Committed d s
    → 0 < n
    → let q : Parser = record {
      depth = d;
      sizes = s;
      bulk_length = l;
      bulk = invalid;
      consumed = n;
    } in
      Inv q ⊎ (done q ≡ true)
Committed-Open d s l n (six, shallow, inl top) pos = Ready-Open _ pos (inr (refl, top))
Committed-Open d s l n (six, shallow, inr (_, two)) pos =
    Ready-Open _ pos (inl (record { six = six; shallow = shallow; sentinel = two }))

work_simple :
    (q : Parser) (view : Bytes)
    → bulk_expected q ≡ false
    → work q view ≡ 2 * (length view - q.consumed)
work_simple q view b = rw (b, work) (omega arith)

read_bulk-After :
    (p0 p : Parser) (view : Bytes)
    → Stacked p.depth p.sizes
    → 0 < p.consumed
    → p.consumed ≤ length view
    → length view < word_mod
    → 2 * (length view - p.consumed) < work p0 view
    → After p0 view false (read_bulk p view)
unfolding read_bulk
read_bulk-After p0 p view v pos inside bound w =
    elim (Bool-cases (ltb (sub_word (length view) p.consumed) (word (p.bulk_length + 2)))) [
      | inl short ↦ rw short (refl, record { stack = v; started = λ _. pos }, inside)
      | inr whole ↦
          let (d, s, run, c) = commit_elem-Committed (record p { bulk = invalid }) v in
          let left : word (p.bulk_length + 2) ≤ sub_word (length view) p.consumed =
            ltb→le _ _ whole in
          let n : ℕ = p.consumed + word (p.bulk_length + 2) in
          rw (whole, substr_le view p.consumed p.bulk_length inside, run)
            (refl, Committed-Open d s p.bulk_length n c (omega arith), omega arith, omega arith)
    ]

after_header-After :
    (p : Parser) (view : Bytes) (pos : ℕ) (faulty : Bool) (r : Run Step)
    → Inv p
    → bulk_expected p ≡ false
    → p.consumed ≤ pos
    → pos + 2 ≤ length view
    → length view < word_mod
    → Headed p faulty r
    → After p view faulty (r >>= after_header view pos)
unfolding after_header
after_header-After p view pos faulty (crash e) v b le fits bound h = h
after_header-After p view pos faulty (ok (more q)) v b le fits bound h = absurd h
after_header-After p view pos faulty (ok (fail q e)) v b le fits bound h = h
after_header-After p view pos faulty (ok (got q nd)) v b le fits bound (sound, same, ready) =
    elim (Bool-cases (bulk_expected q)) [
      | inl bulk ↦ rw (bulk, sound) (bulk_next q bulk ready)
      | inr simple ↦
          rw (simple, sound, b)
            (
              refl,
              Ready-Open (record q { consumed = pos + 2 }) (omega arith) ready,
              fits,
              omega (arith, work_simple (record q { consumed = pos + 2 }) view simple),
            )
    ]
  where
    bulk_next :
        (q : Parser)
        → bulk_expected q ≡ true
        → Ready q
        → After p view false (read_bulk (record q { consumed = pos + 2 }) view)
    bulk_next q bulk (inl s) =
        read_bulk-After p (record q { consumed = pos + 2 }) view s (omega arith) fits bound
          (omega arith)
    bulk_next q bulk (inr (none_expected, top)) = cc

read_header-After :
    (p : Parser) (view s : Bytes) (o : Option ℕ)
    → Inv p
    → bulk_expected p ≡ false
    → p.consumed ≤ length view
    → length view < word_mod
    → drop p.consumed view ≡ s
    → find_sep s ≡ o
    → After p view (faulty_at p.depth s o) (read_header p view)
read_header-After p view s none v b inside bound d f =
    rw (read_header-more p view (rw d f)) (refl, v, inside)
read_header-After p view [] (some i) v b inside bound d f =
    absurd (omega (arith, find_sep-lt [] i f))
read_header-After p view (c ∷ rest) (some zero) v b inside bound d f =
    rw (read_header_empty p view c rest d f) (refl, refl)
read_header-After p view (c ∷ rest) (some (suc k)) v b inside bound d f =
    let fits = find_sep-lt (c ∷ rest) (suc k) f in
    let size = ap length d in
    let whole = length-drop p.consumed view in
    rw (read_header-line p view c k rest bound d f) (
      after_header-After p view (p.consumed + suc k) _ _ v b (omega arith) (omega arith) bound
        (consume_impl-Headed (to_type c) (take k rest) p v.stack b))

-- A call of `consume` inside a message, with the invariant kept and in a view of fewer than 2^64
-- bytes, faults exactly where the next line is a faulty header; else it reports an error and takes
-- nothing, or the parser keeps its invariant or is done, stays in the view, and each node is
-- progress.
pub consume-After :
    (p : Parser) (view : Bytes)
    → Inv p
    → p.consumed ≤ length view
    → length view < word_mod
    → After p view (is_faulty p view) (consume p view)
unfolding consume
consume-After p view v inside bound = elim (Bool-cases (bulk_expected p)) [
  | inl bulk ↦
      rw bulk (read_bulk-After p p view v.stack (v.started bulk) inside bound (ground arith))
  | inr header ↦ rw header (read_header-After p view _ _ v header inside bound refl refl)
]
