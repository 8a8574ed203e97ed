-- ===== src/Resp3/Serialization/RoundTrip.antt =====
-- The library's parser reads back what its writers write.
use aedis.Prelude.{
  ℕ, suc, ◌+◌, ◌<◌, ◌≡◌, ◌≢◌, refl, sym, ap, ◌∙◌, true, false, some, [], ◌∷◌, ◌++◌, arith, length,
  length-append, length-drop, take-length, drop, drop-drop, drop-length, All, word_mod, word,
  sub_word, ltb, le→ltb, ◌==◌,
}
use aedis.Prelude.Bytes.{
  Bytes, to_string, from_chars, from_chars-to_string, to_string-IsDigit, to_string_starts,
  starts_with_digit, IsDigit,
}
use aedis.Prelude.Run.{ok, ◌>>=◌, substr_le}
use aedis.Resp3.Types.{RespType, blob_string, invalid, to_type}
use aedis.Resp3.Node.{default_node}
use aedis.Resp3.Parser.{
  Parser, got, bulk_expected, is_invalid, make_node, commit_elem, read_blob, expect_bulk,
  consume_impl, after_header, read_bulk, read_header, consume,
}
use aedis.Resp3.Parser.Lines.{find_sep_line, read_header-line}
use aedis.Resp3.Serialization.Wire.{counted, bulk}

digits_no_cr : (s : Bytes) → All IsDigit s → All (λ c. c ≢ b'\r') s
digits_no_cr [] h = tt
digits_no_cr (c ∷ s) (hc, hs) = (omega arith, digits_no_cr s hs)

pub to_string_no_cr : (n : ℕ) → All (λ c. c ≢ b'\r') (to_string n)
to_string_no_cr n = digits_no_cr (to_string n) (to_string-IsDigit n)

-- A header line with type byte `c` and a number.
pub read_counted :
    (p : Parser) (view rest : Bytes) (c n : ℕ)
    → length view < word_mod
    → c ≢ b'\r'
    → drop p.consumed view ≡ c ∷ counted n rest
    → read_header p view ≡ (
        consume_impl (to_type c) (to_string n) p
        >>= after_header view (p.consumed + suc (length (to_string n))))
read_counted p view rest c n bound ne d =
    read_header-line p view c (length (to_string n)) (counted n rest) bound d
      (find_sep_line (c ∷ to_string n) rest (ne, to_string_no_cr n))
    ∙ ap
        (λ x.
          consume_impl (to_type c) x p
          >>= after_header view (p.consumed + suc (length (to_string n))))
        (take-length (to_string n) (b'\r' ∷ b'\n' ∷ rest))

pub read_blob_digits :
    (t : RespType) (elem : Bytes) (n : ℕ) (p : Parser)
    → starts_with_digit elem ≡ true
    → from_chars elem ≡ some n
    → read_blob t elem p ≡ ok (got (record p { bulk_length = n; bulk = t }) default_node)
unfolding read_blob expect_bulk
read_blob_digits t [] n p s e = cc
read_blob_digits t (c ∷ cs) n p s e =
    let digit : (c == b'?') ≡ false = ground arith in rw (digit, e, expect_bulk)

pub drop-counted :
    (c n : ℕ) (rest : Bytes) → drop (suc (length (to_string n)) + 2) (c ∷ counted n rest) ≡ rest
drop-counted c n rest =
    sym (drop-drop (suc (length (to_string n))) 2 (c ∷ counted n rest))
    ∙ ap (drop 2) (drop-length (to_string n) (b'\r' ∷ b'\n' ∷ rest))

-- The view behind a line with a number.
pub drop_line :
    (k : ℕ) (view rest : Bytes) (c n : ℕ)
    → drop k view ≡ c ∷ counted n rest
    → drop (k + suc (length (to_string n)) + 2) view ≡ rest
drop_line k view rest c n d =
    ap (λ i. drop i view)
      (let e : k + suc (length (to_string n)) + 2 ≡ k + (suc (length (to_string n)) + 2) =
          omega arith in
        e)
    ∙ sym (drop-drop k (suc (length (to_string n)) + 2) view)
    ∙ ap (drop (suc (length (to_string n)) + 2)) d
    ∙ drop-counted c n rest

pub read_bulk-whole :
    (p : Parser) (view s rest : Bytes)
    → p.bulk_length ≡ length s
    → length view < word_mod
    → drop p.consumed view ≡ s ++ (b'\r' ∷ b'\n' ∷ rest)
    → read_bulk p view ≡ (
        commit_elem (record p { bulk = invalid }) >>= λ q.
        ok (
          got (record q { consumed = q.consumed + (length s + 2) }) (make_node p.bulk 1 p.depth s)))
unfolding read_bulk
read_bulk-whole p view s rest l bound d =
    let size = ap length d in
    let whole = length-drop p.consumed view in
    let parts = length-append s (b'\r' ∷ b'\n' ∷ rest) in
    let span : word (p.bulk_length + 2) ≡ length s + 2 = omega arith in
    let enough : ltb (sub_word (length view) p.consumed) (length s + 2) ≡ false =
      le→ltb _ _ (omega arith) in
    rw (
      span,
      enough,
      substr_le view p.consumed p.bulk_length (omega arith),
      d,
      l,
      take-length s (b'\r' ∷ b'\n' ∷ rest),
    )

-- Text behind its length, which the header `c` announces as of type `t`, is read in one call,
-- whatever stands behind it.
pub consume-counted :
    (p : Parser) (view s rest : Bytes) (t : RespType) (c : ℕ)
    → bulk_expected p ≡ false
    → length view < word_mod
    → c ≢ b'\r'
    → is_invalid t ≡ false
    → consume_impl (to_type c) (to_string (length s)) p
      ≡ ok (got (record p { bulk_length = length s; bulk = t }) default_node)
    → drop p.consumed view ≡ c ∷ counted (length s) (s ++ (b'\r' ∷ b'\n' ∷ rest))
    → consume p view ≡ (
        commit_elem (record p {
          bulk_length = length s;
          bulk = invalid;
          consumed = p.consumed + suc (length (to_string (length s))) + 2;
        })
        >>= λ q.
            ok
              (got (record q { consumed = q.consumed + (length s + 2) }) (make_node t 1 p.depth s)))
unfolding consume after_header
consume-counted p view s rest t c b bound ne valid announced d =
    rw
      (
        b,
        read_counted p view (s ++ (b'\r' ∷ b'\n' ∷ rest)) c (length s) bound ne d,
        announced,
        valid,
      )
      (read_bulk-whole
        (record p {
          bulk_length = length s;
          bulk = t;
          consumed = p.consumed + suc (length (to_string (length s))) + 2;
        })
        view s rest refl bound (drop_line p.consumed view _ c (length s) d))

-- The length of a text fits where the text does.
pub length-lt-word :
    (p : Parser) (view s rest : Bytes) (c : ℕ)
    → length view < word_mod
    → drop p.consumed view ≡ c ∷ counted (length s) (s ++ (b'\r' ∷ b'\n' ∷ rest))
    → length s < word_mod
length-lt-word p view s rest c bound d = omega (
  arith,
  ap length d,
  length-drop p.consumed view,
  length-append (to_string (length s)) (b'\r' ∷ b'\n' ∷ s ++ (b'\r' ∷ b'\n' ∷ rest)),
  length-append s (b'\r' ∷ b'\n' ∷ rest),
)

-- A bulk string is read in one call, whatever stands behind it.
pub consume-bulk :
    (p : Parser) (view s rest : Bytes)
    → bulk_expected p ≡ false
    → length view < word_mod
    → drop p.consumed view ≡ bulk s rest
    → consume p view ≡ (
        commit_elem (record p {
          bulk_length = length s;
          bulk = invalid;
          consumed = p.consumed + suc (length (to_string (length s))) + 2;
        })
        >>= λ q. ok (
            got
              (record q { consumed = q.consumed + (length s + 2) })
              (make_node blob_string 1 p.depth s)))
unfolding consume_impl to_type
consume-bulk p view s rest b bound d =
    consume-counted p view s rest blob_string b'$' b bound (omega arith) refl
      (read_blob_digits blob_string (to_string (length s)) (length s) p
        (to_string_starts (length s))
        (from_chars-to_string (length s) (length-lt-word p view s rest b'$' bound d)))
      d
