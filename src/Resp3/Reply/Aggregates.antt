-- ===== src/Resp3/Reply/Aggregates.antt =====
-- How `consume` reads the header of an aggregate.
use aedis.Prelude.{
  ℕ, suc, ◌+◌, ◌*◌, ◌<◌, ◌≡◌, ◌≢◌, refl, ap, ◌∙◌, inl, true, false, List, [], ◌∷◌, arith, length,
  word_mod, word, ◌==◌, set,
}
use aedis.Prelude.Bytes.{Bytes, to_string, from_chars-to_string}
use aedis.Prelude.Run.{ok, ◌>>=◌, store_lt}
use aedis.Resp3.Types.{
  RespType, array, push, set as set_type, map, attribute, invalid, to_type, is_aggregate,
  element_multiplicity,
}
use aedis.Resp3.Parser.{
  Parser, got, make_node, open_aggregate, read_aggregate, consume_impl, after_header, consume,
  max_embedded_depth,
}
use aedis.Resp3.Serialization.Wire.{counted}
use aedis.Resp3.Serialization.RoundTrip.{to_string_no_cr}
use aedis.Resp3.Reply.{mark}
use aedis.Resp3.Reply.Counts.{commit_elem-Next}
use aedis.Resp3.Reply.Places.{
  Stands, forward_line, Fine, Ready, at_header, Reading, Walked, Walked-one,
}
use aedis.Resp3.Reply.Elements.{IsMarked, mark_lem, header_counted, opened}

pub aggregate-IsMarked : (t : RespType) → is_aggregate t ≡ true → IsMarked t
unfolding is_aggregate
aggregate-IsMarked array h = tt
aggregate-IsMarked push h = tt
aggregate-IsMarked set_type h = tt
aggregate-IsMarked map h = tt
aggregate-IsMarked attribute h = tt
aggregate-IsMarked _ h = absurd (cc)

consume_impl-aggregate :
    (t : RespType) (s : Bytes) (p : Parser)
    → is_aggregate t ≡ true
    → consume_impl t s p ≡ read_aggregate t s p
unfolding consume_impl is_aggregate
consume_impl-aggregate array s p h = refl
consume_impl-aggregate push s p h = refl
consume_impl-aggregate set_type s p h = refl
consume_impl-aggregate map s p h = refl
consume_impl-aggregate attribute s p h = refl
consume_impl-aggregate _ s p h = absurd (cc)

pub multiplicity_pos : (t : RespType) → 0 < element_multiplicity t
unfolding element_multiplicity
multiplicity_pos map = omega arith
multiplicity_pos _ = omega arith

impl-aggregate :
    (t : RespType) (n : ℕ) (p : Parser)
    → is_aggregate t ≡ true
    → n < word_mod
    → consume_impl (to_type (mark t)) (to_string n) p ≡ open_aggregate t n p
unfolding read_aggregate
impl-aggregate t n p h small =
    rw
      (
        (mark_lem t (aggregate-IsMarked t h)).0,
        consume_impl-aggregate t (to_string n) p h,
        read_aggregate,
        from_chars-to_string n small,
        read_aggregate,
      )
      refl

module _ (view : Bytes) (bound : length view < word_mod) where
  header_aggregate :
      (p : Parser) (t : RespType) (n : ℕ) (rest : Bytes)
      → p.bulk ≡ invalid
      → is_aggregate t ≡ true
      → n < word_mod
      → Stands p.consumed view (mark t ∷ counted n rest)
      → consume p view
        ≡ (open_aggregate t n p >>= after_header view (p.consumed + suc (length (to_string n))))
  header_aggregate p t n rest quiet h small stands =
      header_counted view bound p (mark t) n rest quiet (mark_lem t (aggregate-IsMarked t h)).1
        stands
      ∙ ap (λ r. r >>= after_header view (p.consumed + suc (length (to_string n))))
          (impl-aggregate t n p h small)

  Ready-aggregate :
      (p : Parser) (t : RespType) (n : ℕ) (rest : Bytes)
      → p.bulk ≡ invalid
      → is_aggregate t ≡ true
      → n < word_mod
      → Stands p.consumed view (mark t ∷ counted n rest)
      → Fine (open_aggregate t n p)
      → Ready view p
  Ready-aggregate p t n rest quiet h small stands fine =
      at_header (mark t) (to_string n) rest (rw quiet refl)
        ((mark_lem t (aggregate-IsMarked t h)).1, to_string_no_cr n) stands.0
        (rw (impl-aggregate t n p h small) fine)

  -- An aggregate of no elements is an element by itself.
  pub walk_empty :
      (p : Parser) (counts : List ℕ) (t : RespType) (rest : Bytes)
      → is_aggregate t ≡ true
      → Reading view p counts (mark t ∷ counted 0 rest)
      → Walked view p counts (make_node t 0 p.depth [] ∷ []) rest
  unfolding open_aggregate after_header
  walk_empty p counts t rest h v =
      let (d, sizes, committed, six, shallow, next) =
        commit_elem-Next p counts v.six v.shallow v.held in
      Walked-one view p
        (record p {
          depth = d;
          sizes = sizes;
          consumed = p.consumed + suc (length (to_string 0)) + 2;
        })
        counts _ rest v.going
        (Ready-aggregate p t 0 rest v.quiet h (omega arith) v.stands
          (rw (committed, v.quiet) (inl refl)))
        (header_aggregate p t 0 rest v.quiet h (omega arith) v.stands
          ∙ rw (committed, v.quiet) refl)
        (record {
          started = omega arith;
          quiet = v.quiet;
          six = six;
          shallow = shallow;
          next = next;
          stands = forward_line p.consumed (mark t) (to_string 0) view rest v.stands;
        })

  abbrev pub entered : Parser → ℕ → ℕ → Parser
  entered p n k = record p {
    depth = p.depth + 1;
    sizes = set p.sizes (p.depth + 1) n;
    consumed = k;
  }

  -- The header of any other leads to its elements, one level down.
  pub enter_aggregate :
      (p : Parser) (counts : List ℕ) (t : RespType) (n : ℕ) (rest : Bytes)
      → is_aggregate t ≡ true
      → n ≢ 0
      → n * element_multiplicity t < word_mod
      → p.depth < max_embedded_depth
      → Reading view p counts (mark t ∷ counted n rest)
      → (q : Parser) × Ready view p
        × (consume p view ≡ ok (got q (make_node t n p.depth [])))
        × (q.depth ≡ p.depth + 1)
        × Reading view q (n * element_multiplicity t ∷ counts) rest
  unfolding open_aggregate after_header
  enter_aggregate p counts t n rest h ne small room v =
      let several : (n == 0) ≡ false = ground arith in
      let inside : (p.depth == 5) ≡ false = ground arith in
      let m = multiplicity_pos t in
      let pos : 0 < n * element_multiplicity t = grind arith in
      let le : n < word_mod = grind arith in
      let exact : word (n * element_multiplicity t) ≡ n * element_multiplicity t = omega arith in
      let k : ℕ = p.consumed + suc (length (to_string n)) + 2 in
      let stored =
        store_lt p.sizes (p.depth + 1) (n * element_multiplicity t) (omega (arith, v.six)) in
      (
        entered p (n * element_multiplicity t) k,
        Ready-aggregate p t n rest v.quiet h le v.stands
            (rw (several, inside, exact, stored, v.quiet) (inl refl)),
        header_aggregate p t n rest v.quiet h le v.stands
            ∙ rw (several, inside, exact, stored, v.quiet) refl,
        refl,
        opened view bound p counts (n * element_multiplicity t) k _ rest room pos small v
            (forward_line p.consumed (mark t) (to_string n) view rest v.stands),
      )
