-- ===== src/Resp3/Parser/Headers.antt =====
-- What one header line does to the parser, on every type and every error.
use aedis.Prelude.{
  ℕ, zero, suc, ◌+◌, ◌≡◌, refl, ◌⊎◌, inl, inr, Bool, true, false, not, ◌&&◌, Option, none, some,
  List, [], ◌∷◌, arith, ◌==◌, Bool-cases, Option-cases, length, length-set, ltb, ◌∙◌, ◌*◌, set,
  get_or, get_or-set_self, get_or-set_ne, size_max, word, leb,
}
use aedis.Prelude.Bytes.{Bytes, from_chars}
use aedis.Prelude.Run.{Run, ok, crash, IsAccess, out_of_bounds, store, store_lt}
use aedis.Resp3.Types.{
  RespType, array, push, set as set_type, map, attribute, simple_string, simple_error, number,
  doublean, boolean, big_number, null, blob_error, verbatim_string, blob_string, streamed_string,
  streamed_string_part, invalid, element_multiplicity,
}
use aedis.Resp3.Parser.{
  Parser, Step, more, got, fail, bulk_expected, read_part, open_stream, expect_bulk, read_blob,
  read_simple, read_boolean, read_number, open_aggregate, read_aggregate, consume_impl,
}
use aedis.Resp3.Parser.Stack.{Stacked, Committed, commit_elem-Committed, commit_elem-crash}

-- A blob header with no length, or a streamed string at the deepest level.
abbrev pub is_faulty_blob : Bytes → ℕ → Bool
is_faulty_blob [] d = true
is_faulty_blob (c ∷ s) d = c == b'?' && leb 5 d

-- The end of a streamed string where none is open.
abbrev pub is_faulty_part : Option ℕ → ℕ → Bool
is_faulty_part none d = false
is_faulty_part (some n) d = n == 0 && d == 0

-- The headers that the parser does not survive, at depth `d`.
abbrev pub is_faulty_header : RespType → Bytes → ℕ → Bool
is_faulty_header blob_error elem d = is_faulty_blob elem d
is_faulty_header verbatim_string elem d = is_faulty_blob elem d
is_faulty_header blob_string elem d = is_faulty_blob elem d
is_faulty_header streamed_string_part elem d = is_faulty_part (from_chars elem) d
is_faulty_header _ elem d = false

-- The parser expects a bulk inside an open message, or it expects none.
abbrev pub Ready : Parser → Type 0
Ready q = Stacked q.depth q.sizes ⊎ ((bulk_expected q ≡ false) × (q.depth ≡ 0))

-- What a header may leave behind.
abbrev pub Headed : Parser → Bool → Run Step → Type 0
Headed p faulty (crash e) = (faulty ≡ true) × IsAccess e
Headed p faulty (ok (more q)) = ⊥
Headed p faulty (ok (fail q e)) = (faulty ≡ false) × (q.consumed ≡ p.consumed)
Headed p faulty (ok (got q nd)) = (faulty ≡ false) × (q.consumed ≡ p.consumed) × Ready q

Committed-Ready :
    (p : Parser) (d : ℕ) (s : List ℕ)
    → bulk_expected p ≡ false
    → Committed d s
    → Ready (record p { depth = d; sizes = s })
Committed-Ready p d s b (l, h, inl e) = inr (b, e)
Committed-Ready p d s b (l, h, inr (_, e)) = inl (record { six = l; shallow = h; sentinel = e })

read_simple-Headed :
    (t : RespType) (elem : Bytes) (p : Parser)
    → Stacked p.depth p.sizes
    → bulk_expected p ≡ false
    → Headed p false (read_simple t elem p)
unfolding read_simple
read_simple-Headed t elem p v b =
    let (d, s, run, c) = commit_elem-Committed p v in rw run (refl, refl, Committed-Ready p d s b c)

read_boolean-Headed :
    (elem : Bytes) (p : Parser)
    → Stacked p.depth p.sizes
    → bulk_expected p ≡ false
    → Headed p false (read_boolean elem p)
unfolding read_boolean
read_boolean-Headed [] p v b = (refl, refl)
read_boolean-Headed (c ∷ s) p v b = elim (Bool-cases (not (c == b'f') && not (c == b't'))) [
  | inl bad ↦ rw bad (refl, refl)
  | inr good ↦ rw good (read_simple-Headed boolean (c ∷ s) p v b)
]

read_number-Headed :
    (t : RespType) (elem : Bytes) (p : Parser)
    → Stacked p.depth p.sizes
    → bulk_expected p ≡ false
    → Headed p false (read_number t elem p)
unfolding read_number
read_number-Headed t [] p v b = (refl, refl)
read_number-Headed t (c ∷ s) p v b = read_simple-Headed t (c ∷ s) p v b

open_aggregate-Headed :
    (t : RespType) (l : ℕ) (p : Parser)
    → Stacked p.depth p.sizes
    → bulk_expected p ≡ false
    → Headed p false (open_aggregate t l p)
unfolding open_aggregate
open_aggregate-Headed t l p v b = elim (Bool-cases (l == 0)) [
  | inl empty ↦
      let (d, s, run, c) = commit_elem-Committed p v in
      rw (empty, run) (refl, refl, Committed-Ready p d s b c)
  | inr some_left ↦ elim (Bool-cases (p.depth == 5)) [
    | inl deep ↦ rw (some_left, deep) (refl, refl)
    | inr fits ↦
        rw
          (
            some_left,
            fits,
            store_lt p.sizes (p.depth + 1) (word (l * element_multiplicity t)) (ground arith),
          )
          (
            refl,
            refl,
            inl (record {
              six = length-set p.sizes _ _ ∙ v.six;
              shallow = ground arith;
              sentinel = get_or-set_ne p.sizes (p.depth + 1) 0 _ 0 (omega arith) ∙ v.sentinel;
            }),
          )
  ]
]

read_aggregate-Headed :
    (t : RespType) (elem : Bytes) (p : Parser)
    → Stacked p.depth p.sizes
    → bulk_expected p ≡ false
    → Headed p false (read_aggregate t elem p)
unfolding read_aggregate
read_aggregate-Headed t elem p v b = elim (Option-cases (from_chars elem)) [
  | inl e ↦ rw (e, read_aggregate) (refl, refl)
  | inr (l, e) ↦ rw (e, read_aggregate) (open_aggregate-Headed t l p v b)
]

open_stream-Headed :
    (p : Parser)
    → Stacked p.depth p.sizes
    → bulk_expected p ≡ false
    → Headed p (leb 5 p.depth) (open_stream p)
unfolding open_stream
open_stream-Headed p v b = elim (Bool-cases (leb 5 p.depth)) [
  | inl deep ↦
      rw (deep, store, let e : ltb (p.depth + 1) (length p.sizes) ≡ false = ground arith in e)
        (refl, inl refl)
  | inr fits ↦
      rw (fits, store_lt p.sizes (p.depth + 1) size_max (ground arith))
        (
          refl,
          refl,
          inl (record {
            six = length-set p.sizes _ _ ∙ v.six;
            shallow = ground arith;
            sentinel = get_or-set_ne p.sizes (p.depth + 1) 0 _ 0 (omega arith) ∙ v.sentinel;
          }),
        )
]

expect_bulk-Headed :
    (t : RespType) (elem : Bytes) (p : Parser)
    → Stacked p.depth p.sizes
    → bulk_expected p ≡ false
    → Headed p false (ok (expect_bulk t elem p))
unfolding expect_bulk
expect_bulk-Headed t elem p v b = elim (Option-cases (from_chars elem)) [
  | inl e ↦ rw (e, expect_bulk) (refl, refl)
  | inr (l, e) ↦ rw (e, expect_bulk) (refl, refl, inl v)
]

read_blob-Headed :
    (t : RespType) (elem : Bytes) (p : Parser)
    → Stacked p.depth p.sizes
    → bulk_expected p ≡ false
    → Headed p (is_faulty_blob elem p.depth) (read_blob t elem p)
unfolding read_blob
read_blob-Headed t [] p v b = (refl, inr refl)
read_blob-Headed t (c ∷ s) p v b = elim (Bool-cases (c == b'?')) [
  | inl mark ↦ rw mark (open_stream-Headed p v b)
  | inr length_follows ↦ rw length_follows (expect_bulk-Headed t (c ∷ s) p v b)
]

-- At depth 0 the sentinel is overwritten, and the loop of `commit_elem` runs out of the array.
read_part-crash :
    (p : Parser)
    → Stacked p.depth p.sizes
    → p.bulk_length ≡ 0
    → p.depth ≡ 0
    → read_part p ≡ crash out_of_bounds
unfolding read_part
read_part-crash p v n d =
    let overwritten =
      commit_elem-crash (record p { sizes = set p.sizes p.depth 1; bulk = invalid }) d
        (length-set p.sizes _ _ ∙ v.six) (sentinel_one p.depth p.sizes d v.six) in
    elim (Bool-cases (p.bulk_length == 0)) [
      | inl end ↦ rw (end, store_lt p.sizes p.depth 1 (omega arith), overwritten) refl
      | inr more_follows ↦ absurd (ground arith)
    ]
  where
    sentinel_one :
        (d : ℕ) (sizes : List ℕ) → d ≡ 0 → length sizes ≡ 6 → get_or (set sizes d 1) 0 0 ≡ 1
    sentinel_one zero sizes e l = get_or-set_self sizes 0 1 0 (omega arith)
    sentinel_one (suc d) sizes e l = absurd (omega arith)

read_part-Headed :
    (p : Parser)
    → Stacked p.depth p.sizes
    → Headed p (p.bulk_length == 0 && p.depth == 0) (read_part p)
unfolding read_part
read_part-Headed p v = elim (Bool-cases (p.bulk_length == 0)) [
  | inr more_follows ↦ rw more_follows (refl, refl, inl v)
  | inl end ↦ elim (Bool-cases (p.depth == 0)) [
    | inl top ↦ rw (read_part-crash p v (ground arith) (ground arith), end, top) (refl, inl refl)
    | inr inner ↦
        let (d, s, run, c) =
          commit_elem-Committed (record p { sizes = set p.sizes p.depth 1; bulk = invalid })
            (record {
              six = length-set p.sizes _ _ ∙ v.six;
              shallow = v.shallow;
              sentinel = get_or-set_ne p.sizes p.depth 0 1 0 (ground arith) ∙ v.sentinel;
            }) in
        rw (end, inner, store_lt p.sizes p.depth 1 (omega arith), run)
          (refl, refl, Committed-Ready (record p { bulk = invalid }) d s refl c)
  ]
]

-- A header leaves the stack in order, the position where it was, and faults only if it is faulty.
pub consume_impl-Headed :
    (t : RespType) (elem : Bytes) (p : Parser)
    → Stacked p.depth p.sizes
    → bulk_expected p ≡ false
    → Headed p (is_faulty_header t elem p.depth) (consume_impl t elem p)
unfolding consume_impl
consume_impl-Headed streamed_string_part elem p v b = elim (Option-cases (from_chars elem)) [
  | inl e ↦ rw (e, consume_impl) (refl, refl)
  | inr (n, e) ↦ rw (e, consume_impl) (read_part-Headed (record p { bulk_length = n }) v)
]
consume_impl-Headed blob_error elem p v b = read_blob-Headed blob_error elem p v b
consume_impl-Headed verbatim_string elem p v b = read_blob-Headed verbatim_string elem p v b
consume_impl-Headed blob_string elem p v b = read_blob-Headed blob_string elem p v b
consume_impl-Headed boolean elem p v b = read_boolean-Headed elem p v b
consume_impl-Headed doublean elem p v b = read_number-Headed doublean elem p v b
consume_impl-Headed big_number elem p v b = read_number-Headed big_number elem p v b
consume_impl-Headed number elem p v b = read_number-Headed number elem p v b
consume_impl-Headed simple_error elem p v b = read_simple-Headed simple_error elem p v b
consume_impl-Headed simple_string elem p v b = read_simple-Headed simple_string elem p v b
consume_impl-Headed null elem p v b = read_simple-Headed null elem p v b
consume_impl-Headed push elem p v b = read_aggregate-Headed push elem p v b
consume_impl-Headed set_type elem p v b = read_aggregate-Headed set_type elem p v b
consume_impl-Headed array elem p v b = read_aggregate-Headed array elem p v b
consume_impl-Headed attribute elem p v b = read_aggregate-Headed attribute elem p v b
consume_impl-Headed map elem p v b = read_aggregate-Headed map elem p v b
consume_impl-Headed streamed_string elem p v b = (refl, refl)
consume_impl-Headed invalid elem p v b = (refl, refl)
