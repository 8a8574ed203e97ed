-- ===== src/Resp3/Parser/Depths.antt =====
-- The depth of each node in a message.
use aedis.Prelude.{
  ℕ, ◌+◌, ◌≡◌, refl, ◌⊎◌, inl, inr, true, false, not, ◌&&◌, [], ◌∷◌, ◌==◌, Option-cases, if_intro,
  length, drop, ltb, sub_word, word,
}
use aedis.Prelude.Bytes.{Bytes}
use aedis.Prelude.Run.{Run, ok, crash, ◌>>=◌, Ensures, Ensures-bind, store, at, substr}
use aedis.Resp3.Types.{
  RespType, array, push, set as set_type, map, attribute, simple_string, simple_error, number,
  doublean, boolean, big_number, null, blob_error, verbatim_string, blob_string, streamed_string,
  streamed_string_part, invalid, to_type,
}
use aedis.Resp3.Node.{Node}
use aedis.Resp3.Parser.{
  Parser, Step, more, got, fail, bulk_expected, decrement, settle, commit_elem, read_part,
  open_stream, expect_bulk, read_blob, read_simple, read_boolean, read_number, open_aggregate,
  read_aggregate, consume_impl, find_sep, read_bulk, after_header, read_header, consume, to_int,
}

-- A node has the parser's depth; only that of a streamed string is one level down.
abbrev pub IsAt : ℕ → Node → Type 0
IsAt d nd = (nd.depth ≡ d) ⊎ ((nd.data_type ≡ streamed_string) × (nd.depth ≡ d + 1))

-- What a header leaves: a bulk to come at the same depth, or a node.
abbrev pub Placed : Parser → Step → Type 0
Placed p (got q nd) =
    ((bulk_expected q ≡ true) × (q.depth ≡ p.depth)) ⊎ ((bulk_expected q ≡ false) × IsAt p.depth nd)
Placed p _ = Unit

abbrev pub Given : Parser → Step → Type 0
Given p (got q nd) = (bulk_expected q ≡ false) × IsAt p.depth nd
Given p _ = Unit

commit_elem-bulk : (p : Parser) → Ensures (λ q. q.bulk ≡ p.bulk) (commit_elem p)
unfolding commit_elem
commit_elem-bulk p =
    Ensures-bind (λ q. q.bulk ≡ p.bulk) (decrement p.sizes p.depth) _
      λ s. Ensures-bind (λ q. q.bulk ≡ p.bulk) (settle p.depth s) _ λ r. refl

module _ (p : Parser) (b : bulk_expected p ≡ false) where
  quiet : (q : Parser) → q.bulk ≡ p.bulk → bulk_expected q ≡ false
  quiet q e = rw e b

  -- A node behind which the parser has committed an element.
  committed :
      (q0 : Parser) (nd : Node)
      → bulk_expected q0 ≡ false
      → IsAt p.depth nd
      → Ensures (Placed p) (commit_elem q0 >>= λ q. ok (got q nd))
  committed q0 nd b0 at_depth = bind (commit_elem q0) (commit_elem-bulk q0)
    where
      bind :
          (r : Run Parser)
          → Ensures (λ q. q.bulk ≡ q0.bulk) r
          → Ensures (Placed p) (r >>= λ q. ok (got q nd))
      bind (ok q) e = inr (rw e b0, at_depth)
      bind (crash f) e = tt

  read_simple-Placed : (t : RespType) (elem : Bytes) → Ensures (Placed p) (read_simple t elem p)
  unfolding read_simple
  read_simple-Placed t elem = committed p _ b (inl refl)

  read_boolean-Placed : (elem : Bytes) → Ensures (Placed p) (read_boolean elem p)
  unfolding read_boolean
  read_boolean-Placed [] = tt
  read_boolean-Placed (c ∷ s) =
      if_intro (Ensures (Placed p)) (not (c == b'f') && not (c == b't')) _ _ tt
        (read_simple-Placed boolean (c ∷ s))

  read_number-Placed : (t : RespType) (elem : Bytes) → Ensures (Placed p) (read_number t elem p)
  unfolding read_number
  read_number-Placed t [] = tt
  read_number-Placed t (c ∷ s) = read_simple-Placed t (c ∷ s)

  open_aggregate-Placed : (t : RespType) (l : ℕ) → Ensures (Placed p) (open_aggregate t l p)
  unfolding open_aggregate
  open_aggregate-Placed t l =
      if_intro (Ensures (Placed p)) (l == 0) _ _ (committed p _ b (inl refl)) (
        if_intro (Ensures (Placed p)) (p.depth == 5) _ _ tt
          (Ensures-bind (Placed p) (store p.sizes (p.depth + 1) _) _ λ s. inr (b, inl refl)))

  read_aggregate-Placed :
      (t : RespType) (elem : Bytes) → Ensures (Placed p) (read_aggregate t elem p)
  unfolding read_aggregate
  read_aggregate-Placed t elem = elim (Option-cases (to_int elem)) [
    | inl e ↦ rw (e, read_aggregate) tt
    | inr (l, e) ↦ rw (e, read_aggregate) (open_aggregate-Placed t l)
  ]

  open_stream-Placed : Ensures (Placed p) (open_stream p)
  unfolding open_stream
  open_stream-Placed =
      Ensures-bind (Placed p) (store p.sizes (p.depth + 1) _) _ λ s. inr (b, inr (refl, refl))

  expect_bulk-Placed :
      (t : RespType) (elem : Bytes)
      → bulk_expected (record p { bulk = t }) ≡ true
      → Ensures (Placed p) (ok (expect_bulk t elem p))
  unfolding expect_bulk
  expect_bulk-Placed t elem h = elim (Option-cases (to_int elem)) [
    | inl e ↦ rw (e, expect_bulk) tt
    | inr (l, e) ↦ rw (e, expect_bulk) (inl (h, refl))
  ]

  read_blob-Placed :
      (t : RespType) (elem : Bytes)
      → bulk_expected (record p { bulk = t }) ≡ true
      → Ensures (Placed p) (read_blob t elem p)
  unfolding read_blob
  read_blob-Placed t elem h = Ensures-bind (Placed p) (at elem 0) _ λ c.
      if_intro (Ensures (Placed p)) (c == b'?') _ _ open_stream-Placed (expect_bulk-Placed t elem h)

  read_part-Placed : (n : ℕ) → Ensures (Placed p) (read_part (record p { bulk_length = n }))
  unfolding read_part
  read_part-Placed n =
      if_intro (Ensures (Placed p)) (n == 0) _ _
        (Ensures-bind (Placed p) (store p.sizes p.depth 1) _ λ s.
          committed (record p { bulk_length = n; sizes = s; bulk = invalid }) _ refl (inl refl))
        (inl (refl, refl))

  consume_impl-Placed : (t : RespType) (elem : Bytes) → Ensures (Placed p) (consume_impl t elem p)
  unfolding consume_impl
  consume_impl-Placed streamed_string_part elem = elim (Option-cases (to_int elem)) [
    | inl e ↦ rw (e, consume_impl) tt
    | inr (n, e) ↦ rw (e, consume_impl) (read_part-Placed n)
  ]
  consume_impl-Placed blob_error elem = read_blob-Placed blob_error elem refl
  consume_impl-Placed verbatim_string elem = read_blob-Placed verbatim_string elem refl
  consume_impl-Placed blob_string elem = read_blob-Placed blob_string elem refl
  consume_impl-Placed boolean elem = read_boolean-Placed elem
  consume_impl-Placed doublean elem = read_number-Placed doublean elem
  consume_impl-Placed big_number elem = read_number-Placed big_number elem
  consume_impl-Placed number elem = read_number-Placed number elem
  consume_impl-Placed simple_error elem = read_simple-Placed simple_error elem
  consume_impl-Placed simple_string elem = read_simple-Placed simple_string elem
  consume_impl-Placed null elem = read_simple-Placed null elem
  consume_impl-Placed push elem = read_aggregate-Placed push elem
  consume_impl-Placed set_type elem = read_aggregate-Placed set_type elem
  consume_impl-Placed array elem = read_aggregate-Placed array elem
  consume_impl-Placed attribute elem = read_aggregate-Placed attribute elem
  consume_impl-Placed map elem = read_aggregate-Placed map elem
  consume_impl-Placed streamed_string elem = tt
  consume_impl-Placed invalid elem = tt

  read_bulk-Given :
      (q : Parser) (view : Bytes) → q.depth ≡ p.depth → Ensures (Given p) (read_bulk q view)
  unfolding read_bulk
  read_bulk-Given q view e =
      if_intro (Ensures (Given p))
        (ltb (sub_word (length view) q.consumed) (word (q.bulk_length + 2))) _ _ tt
        (Ensures-bind (Given p) (substr view q.consumed q.bulk_length) _ λ s.
          bind s (commit_elem (record q { bulk = invalid }))
            (commit_elem-bulk (record q { bulk = invalid })))
    where
      bind :
          (s : Bytes) (r : Run Parser)
          → Ensures (λ x. x.bulk ≡ invalid) r
          → Ensures (Given p) (
              r >>= λ x. ok (
                got
                  (record x { consumed = x.consumed + word (q.bulk_length + 2) })
                  (record { data_type = q.bulk; aggregate_size = 1; depth = q.depth; value = s })))
      bind s (ok x) i = (rw i refl, inl e)
      bind s (crash f) i = tt

  after_header-Given :
      (view : Bytes) (pos : ℕ) (s : Step) → Placed p s → Ensures (Given p) (after_header view pos s)
  unfolding after_header
  after_header-Given view pos (more q) h = tt
  after_header-Given view pos (fail q e) h = tt
  after_header-Given view pos (got q nd) (inl (bulk, d)) =
      rw bulk (read_bulk-Given (record q { consumed = pos + 2 }) view d)
  after_header-Given view pos (got q nd) (inr (simple, d)) = rw simple (simple, d)

  header-Given : (view : Bytes) → Ensures (Given p) (read_header p view)
  unfolding read_header
  header-Given view = elim (Option-cases (find_sep (drop p.consumed view))) [
    | inl e ↦ rw (e, read_header) tt
    | inr (pos, e) ↦
        rw (e, read_header)
          (Ensures-bind (Given p) (at view p.consumed) _ λ c.
            Ensures-bind (Given p) (substr view (p.consumed + 1) _) _ λ content.
              bind (p.consumed + pos) (consume_impl (to_type c) content p)
                (consume_impl-Placed (to_type c) content))
  ]
    where
      bind :
          (pos : ℕ) (r : Run Step)
          → Ensures (Placed p) r
          → Ensures (Given p) (r >>= after_header view pos)
      bind pos (ok s) h = after_header-Given view pos s h
      bind pos (crash f) h = tt

  pub consume-Given : (view : Bytes) → Ensures (Given p) (consume p view)
  unfolding consume
  consume-Given view = rw b (header-Given view)
