-- ===== src/Resp3/Reply/Elements.antt =====
-- How `consume` reads each kind of element.
use aedis.Prelude.{
  ℕ, suc, ◌+◌, ◌<◌, ◌≡◌, ◌≢◌, refl, ap, ◌∙◌, inl, inr, false, List, [], ◌∷◌, arith, length,
  take-length, All, word_mod, set, length-set,
}
use aedis.Prelude.Bytes.{Bytes, to_string, from_chars-to_string, to_string_starts}
use aedis.Prelude.Run.{ok, ◌>>=◌}
use aedis.Resp3.Types.{
  RespType, simple_string, simple_error, number, doublean, boolean, big_number, null, blob_error,
  verbatim_string, blob_string, streamed_string, invalid, to_type,
}
use aedis.Resp3.Node.{default_node}
use aedis.Resp3.Parser.{
  Parser, got, bulk_expected, is_invalid, make_node, read_simple, read_boolean, read_number,
  read_blob, consume_impl, after_header, consume, max_embedded_depth,
}
use aedis.Resp3.Parser.Lines.{find_sep_line, read_header-line}
use aedis.Resp3.Serialization.Wire.{counted}
use aedis.Resp3.Serialization.RoundTrip.{
  consume-counted, length-lt-word, read_blob_digits, read_counted, to_string_no_cr,
}
use aedis.Resp3.Reply.{mark, ended, IsLine, IsBlob}
use aedis.Resp3.Reply.Sizes.{length-ended}
use aedis.Resp3.Reply.Counts.{commit_elem-Next, Held-push}
use aedis.Resp3.Reply.Places.{
  Stands, forward_line, forward_ended, Reading, going_deep, Walked, Walked-one, at_header,
}

-- The types that a first byte stands for.
abbrev pub IsMarked : RespType → Type 0
IsMarked streamed_string = ⊥
IsMarked invalid = ⊥
IsMarked _ = Unit

pub mark_lem : (t : RespType) → IsMarked t → (to_type (mark t) ≡ t) × (mark t ≢ b'\r')
unfolding mark to_type
mark_lem streamed_string h = elim h [ ]
mark_lem invalid h = elim h [ ]
mark_lem _ h = (refl, omega arith)

pub line-IsMarked : (t : RespType) (s : Bytes) → IsLine t s → IsMarked t
line-IsMarked streamed_string s h = h
line-IsMarked invalid s h = h
line-IsMarked _ s h = tt

pub blob-IsMarked : (t : RespType) → IsBlob t → IsMarked t
blob-IsMarked streamed_string h = h
blob-IsMarked invalid h = h
blob-IsMarked _ h = tt

consume_impl-line :
    (t : RespType) (s : Bytes) (p : Parser) → IsLine t s → consume_impl t s p ≡ read_simple t s p
unfolding consume_impl read_boolean read_number
consume_impl-line simple_string s p h = refl
consume_impl-line simple_error s p h = refl
consume_impl-line null s p h = refl
consume_impl-line number [] p h = absurd (h refl)
consume_impl-line number (c ∷ s) p h = refl
consume_impl-line doublean [] p h = absurd (h refl)
consume_impl-line doublean (c ∷ s) p h = refl
consume_impl-line big_number [] p h = absurd (h refl)
consume_impl-line big_number (c ∷ s) p h = refl
consume_impl-line boolean (c ∷ s) p (inl e) = rw e refl
consume_impl-line boolean (c ∷ s) p (inr e) = rw e refl
consume_impl-line _ s p h = elim h [ ]

pub consume_impl-blob :
    (t : RespType) (s : Bytes) (p : Parser) → IsBlob t → consume_impl t s p ≡ read_blob t s p
unfolding consume_impl
consume_impl-blob blob_string s p h = refl
consume_impl-blob blob_error s p h = refl
consume_impl-blob verbatim_string s p h = refl
consume_impl-blob _ s p h = elim h [ ]

pub blob_valid : (t : RespType) → IsBlob t → is_invalid t ≡ false
blob_valid invalid h = elim h [ ]
blob_valid _ h = refl

module _ (view : Bytes) (bound : length view < word_mod) where
  -- A header line.
  pub header_line :
      (p : Parser) (c : ℕ) (s rest : Bytes)
      → p.bulk ≡ invalid
      → All (λ x. x ≢ b'\r') (c ∷ s)
      → Stands p.consumed view (c ∷ ended s rest)
      → consume p view
        ≡ (consume_impl (to_type c) s p >>= after_header view (p.consumed + suc (length s)))
  unfolding consume
  header_line p c s rest quiet no_cr (d, e) =
      let simple : bulk_expected p ≡ false = rw quiet refl in
      rw simple (
        read_header-line p view c (length s) (ended s rest) bound d
          (find_sep_line (c ∷ s) rest no_cr)
        ∙ ap (λ x. consume_impl (to_type c) x p >>= after_header view (p.consumed + suc (length s)))
            (take-length s (b'\r' ∷ b'\n' ∷ rest)))

  -- A header line with a number.
  pub header_counted :
      (p : Parser) (c n : ℕ) (rest : Bytes)
      → p.bulk ≡ invalid
      → c ≢ b'\r'
      → Stands p.consumed view (c ∷ counted n rest)
      → consume p view ≡ (
          consume_impl (to_type c) (to_string n) p
          >>= after_header view (p.consumed + suc (length (to_string n))))
  unfolding consume
  header_counted p c n rest quiet ne (d, e) =
      let simple : bulk_expected p ≡ false = rw quiet refl in
      rw simple (read_counted p view rest c n bound ne d)

  -- A line is read as one node.
  pub walk_line :
      (p : Parser) (counts : List ℕ) (t : RespType) (s rest : Bytes)
      → IsLine t s
      → All (λ x. x ≢ b'\r') s
      → Reading view p counts (mark t ∷ ended s rest)
      → Walked view p counts (make_node t 1 p.depth s ∷ []) rest
  unfolding read_simple after_header
  walk_line p counts t s rest line no_cr v =
      let (typed, ne) = mark_lem t (line-IsMarked t s line) in
      let (d, sizes, committed, six, shallow, next) =
        commit_elem-Next p counts v.six v.shallow v.held in
      Walked-one view p
        (record p { depth = d; sizes = sizes; consumed = p.consumed + suc (length s) + 2 }) counts _
        rest v.going
        (at_header (mark t) s rest (rw v.quiet refl) (ne, no_cr) v.stands.0
          (rw (typed, consume_impl-line t s p line, committed, v.quiet) (inl refl)))
        (header_line p (mark t) s rest v.quiet (ne, no_cr) v.stands
          ∙ rw (typed, consume_impl-line t s p line, committed, v.quiet) refl)
        (record {
          started = omega arith;
          quiet = v.quiet;
          six = six;
          shallow = shallow;
          next = next;
          stands = forward_line p.consumed (mark t) s view rest v.stands;
        })

  -- Text behind its length is read as one node.
  pub walk_counted :
      (p : Parser) (counts : List ℕ) (t : RespType) (c : ℕ) (s rest : Bytes)
      → c ≢ b'\r'
      → is_invalid t ≡ false
      → consume_impl (to_type c) (to_string (length s)) p
        ≡ ok (got (record p { bulk_length = length s; bulk = t }) default_node)
      → Reading view p counts (c ∷ counted (length s) (ended s rest))
      → Walked view p counts (make_node t 1 p.depth s ∷ []) rest
  walk_counted p counts t c s rest ne valid announced v =
      let k : ℕ = p.consumed + suc (length (to_string (length s))) + 2 in
      let (d, sizes, committed, six, shallow, next) =
        commit_elem-Next (record p { bulk_length = length s; bulk = invalid; consumed = k }) counts
          v.six v.shallow v.held in
      let simple : bulk_expected p ≡ false = rw v.quiet refl in
      let small : length s + 2 < word_mod = omega (
        arith,
        v.stands.1,
        length-ended s rest,
        length-ended (to_string (length s)) (ended s rest),
      ) in
      Walked-one view p
        (record p {
          depth = d;
          sizes = sizes;
          bulk_length = length s;
          bulk = invalid;
          consumed = k + (length s + 2);
        })
        counts _ rest v.going
        (at_header c (to_string (length s)) (ended s rest) simple (ne, to_string_no_cr (length s))
          v.stands.0 (rw announced (inr small)))
        (consume-counted p view s rest t c simple bound ne valid announced v.stands.0
          ∙ rw committed refl)
        (record {
          started = omega arith;
          quiet = refl;
          six = six;
          shallow = shallow;
          next = next;
          stands =
              forward_ended k s view rest
                (forward_line p.consumed c (to_string (length s)) view (ended s rest) v.stands);
        })

  -- A blob is read as one node.
  pub walk_blob :
      (p : Parser) (counts : List ℕ) (t : RespType) (s rest : Bytes)
      → IsBlob t
      → Reading view p counts (mark t ∷ counted (length s) (ended s rest))
      → Walked view p counts (make_node t 1 p.depth s ∷ []) rest
  walk_blob p counts t s rest h v =
      let (typed, ne) = mark_lem t (blob-IsMarked t h) in
      walk_counted p counts t (mark t) s rest ne (blob_valid t h)
        (rw typed (
          consume_impl-blob t (to_string (length s)) p h
          ∙ read_blob_digits t (to_string (length s)) (length s) p (to_string_starts (length s)) (
              from_chars-to_string (length s)
                (length-lt-word p view s rest (mark t) bound v.stands.0))))
        v

  -- What is opened has `n` elements, one level down.
  pub opened :
      (p : Parser) (counts : List ℕ) (n k : ℕ) (rest rest' : Bytes)
      → p.depth < max_embedded_depth
      → 0 < n
      → n < word_mod
      → Reading view p counts rest
      → Stands k view rest'
      → Reading view
          (record p { depth = p.depth + 1; sizes = set p.sizes (p.depth + 1) n; consumed = k })
          (n ∷ counts)
          rest'
  opened p counts n k rest rest' room pos small v stands = record {
    going = going_deep _ (omega arith);
    quiet = v.quiet;
    six = length-set p.sizes (p.depth + 1) n ∙ v.six;
    shallow = omega arith;
    held = Held-push p.depth n p.sizes counts (omega (arith, v.six)) pos small v.held;
    stands = stands;
  }
