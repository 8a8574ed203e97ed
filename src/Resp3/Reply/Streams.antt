-- ===== src/Resp3/Reply/Streams.antt =====
-- How `consume` reads a blob in parts.
use aedis.Prelude.{
  ℕ, zero, suc, ◌+◌, ◌<◌, ◌≡◌, ◌≢◌, refl, sym, ◌∙◌, false, List, [], ◌∷◌, arith, length, All, inl,
  word_mod, size_max, ◌==◌, set, length-set, subst,
}
use aedis.Prelude.Bytes.{Bytes, to_string, from_chars-to_string}
use aedis.Prelude.Run.{ok, store_lt}
use aedis.Resp3.Types.{RespType, streamed_string, streamed_string_part, invalid, to_type}
use aedis.Resp3.Parser.{
  Parser, got, make_node, read_blob, open_stream, read_part, consume_impl, after_header, consume,
  max_embedded_depth,
}
use aedis.Resp3.Serialization.Wire.{counted}
use aedis.Resp3.Serialization.RoundTrip.{length-lt-word, to_string_no_cr}
use aedis.Resp3.Reply.{mark, ended, parts, part_nodes, IsBlob}
use aedis.Resp3.Reply.Counts.{Held-depth, Held-last, commit_elem-Next}
use aedis.Resp3.Reply.Places.{
  forward_line, Reading, Behind-Reading, Ready, at_header, Visits, Visits-append, Walked,
  Walked-one,
}
use aedis.Resp3.Reply.Elements.{
  mark_lem, blob-IsMarked, consume_impl-blob, header_line, header_counted, walk_counted, opened,
}

not_empty : (s : Bytes) → s ≢ [] → (length s == 0) ≡ false
not_empty [] h = absurd (h refl)
not_empty (c ∷ s) h = ground arith

module _ (view : Bytes) (bound : length view < word_mod) where
  -- The header leads to the parts, one level down.
  pub enter_stream :
      (p : Parser) (counts : List ℕ) (t : RespType) (rest : Bytes)
      → IsBlob t
      → p.depth < max_embedded_depth
      → Reading view p counts (mark t ∷ ended (b'?' ∷ []) rest)
      → (q : Parser) × Ready view p
        × (consume p view ≡ ok (got q (make_node streamed_string 0 (p.depth + 1) [])))
        × (q.depth ≡ p.depth + 1)
        × Reading view q (size_max ∷ counts) rest
  unfolding read_blob open_stream after_header
  enter_stream p counts t rest h room v =
      let (typed, ne) = mark_lem t (blob-IsMarked t h) in
      let k : ℕ = p.consumed + suc 1 + 2 in
      let no_cr : All (λ x. x ≢ b'\r') (mark t ∷ b'?' ∷ []) =
        (ne, ((λ e. absurd (omega arith)), tt)) in
      let stored = store_lt p.sizes (p.depth + 1) size_max (omega (arith, v.six)) in
      (
        record p { depth = p.depth + 1; sizes = set p.sizes (p.depth + 1) size_max; consumed = k },
        at_header (mark t) (b'?' ∷ []) rest (rw v.quiet refl) no_cr v.stands.0
            (rw (typed, consume_impl-blob t (b'?' ∷ []) p h, stored, v.quiet) (inl refl)),
        header_line view bound p (mark t) (b'?' ∷ []) rest v.quiet no_cr v.stands
            ∙ rw (typed, consume_impl-blob t (b'?' ∷ []) p h, stored, v.quiet) refl,
        refl,
        opened view bound p counts size_max k _ rest room (omega arith) (omega arith) v
            (forward_line p.consumed (mark t) (b'?' ∷ []) view rest v.stands),
      )

  walk_part :
      (p : Parser) (counts : List ℕ) (s rest : Bytes)
      → s ≢ []
      → Reading view p counts (b';' ∷ counted (length s) (ended s rest))
      → Walked view p counts (make_node streamed_string_part 1 p.depth s ∷ []) rest
  unfolding consume_impl to_type read_part
  walk_part p counts s rest h v =
      walk_counted view bound p counts streamed_string_part b';' s rest (omega arith) refl
        (rw
          (
            from_chars-to_string (length s) (length-lt-word p view s rest b';' bound v.stands.0),
            consume_impl,
            not_empty s h,
          )
          refl)
        v

  -- The empty part ends the blob, however many parts the parser still expects.
  walk_end :
      (p : Parser) (m : ℕ) (counts : List ℕ) (rest : Bytes)
      → Reading view p (m ∷ counts) (b';' ∷ counted 0 rest)
      → Walked view p counts (make_node streamed_string_part 1 p.depth [] ∷ []) rest
  unfolding consume_impl to_type read_part after_header
  walk_end p m counts rest v =
      let sizes' = set p.sizes p.depth 1 in
      let stored = store_lt p.sizes p.depth 1 (omega (arith, v.six, v.shallow)) in
      let (d, sizes, committed, six, shallow, next) =
        commit_elem-Next (record p { bulk_length = 0; sizes = sizes'; bulk = invalid }) (1 ∷ counts)
          (length-set p.sizes p.depth 1 ∙ v.six) v.shallow
          (Held-last p.depth m p.sizes counts (omega (arith, v.six, v.shallow)) v.held) in
      Walked-one view p
        (record p {
          depth = d;
          sizes = sizes;
          bulk_length = 0;
          bulk = invalid;
          consumed = p.consumed + suc (length (to_string 0)) + 2;
        })
        counts _ rest v.going
        (at_header b';' (to_string 0) rest (rw v.quiet refl) (omega arith, to_string_no_cr 0)
          v.stands.0
          (rw (from_chars-to_string 0 (omega arith), consume_impl, stored, committed) (inl refl)))
        (header_counted view bound p b';' 0 rest v.quiet (omega arith) v.stands
          ∙ rw (from_chars-to_string 0 (omega arith), consume_impl, stored, committed) refl)
        (record {
          started = omega arith;
          quiet = refl;
          six = six;
          shallow = shallow;
          next = next;
          stands = forward_line p.consumed b';' (to_string 0) view rest v.stands;
        })

  -- All parts are read, each as one node.
  pub walk_parts :
      (ss : List Bytes) (p : Parser) (m : ℕ) (counts : List ℕ) (rest : Bytes)
      → All (λ s. s ≢ []) ss
      → length ss < m
      → Reading view p (m ∷ counts) (parts ss rest)
      → Walked view p counts (part_nodes p.depth ss) rest
  walk_parts [] p m counts rest h few v = walk_end p m counts rest v
  walk_parts (s ∷ ss) p zero counts rest h few v = elim few [ ]
  walk_parts (s ∷ ss) p (suc zero) counts rest h few v = absurd (omega arith)
  walk_parts (s ∷ ss) p (suc (suc m)) counts rest (one, others) few v =
      let (q, visits, b) = walk_part p (suc (suc m) ∷ counts) s (parts ss rest) one v in
      let w = Behind-Reading view q m counts (parts ss rest) b in
      let same : q.depth ≡ p.depth =
        Held-depth q.depth q.sizes (suc m ∷ counts) w.held
        ∙ sym (Held-depth p.depth p.sizes (suc (suc m) ∷ counts) v.held) in
      let (r, visits', b') = walk_parts ss q (suc m) counts rest others (omega arith) w in
      (r, Visits-append visits (subst (λ d. Visits view q (part_nodes d ss) r) same visits'), b')
