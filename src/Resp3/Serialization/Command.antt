-- ===== src/Resp3/Serialization/Command.antt =====
-- A whole command, read by `parse` and by `deserialize`.
use aedis.Prelude.{
  ℕ, zero, suc, ◌+◌, ◌*◌, ◌≤◌, ◌<◌, ◌≡◌, refl, sym, ap, ◌∙◌, false, Option, none, List, [], ◌∷◌,
  ◌++◌, append_assoc, arith, length, length-append, length-drop, drop, drop-drop, drop-length,
  word_mod, word, sub_word, size_max, map, ◌==◌,
}
use aedis.Prelude.Bytes.{Bytes, to_string, from_chars-to_string}
use aedis.Prelude.Run.{ok}
use aedis.Error.{Failure}
use aedis.Resp3.Types.{array, blob_string, invalid, to_type, element_multiplicity}
use aedis.Resp3.Node.{Node}
use aedis.Resp3.Parser.{
  Parser, reset, done, make_node, commit_elem, consume_impl, read_aggregate, open_aggregate,
  after_header, consume, got, finished, parse, parse_fuel,
}
use aedis.Resp3.Parser.Loop.{parse-done, parse-consume}
use aedis.Resp3.Serialization.Wire.{bulk, bulks, command}
use aedis.Resp3.Serialization.RoundTrip.{read_counted, drop_line, drop-counted, consume-bulk}

-- An adapter that keeps every node.
abbrev pub collect : List Node → Node → List Node × Option Failure
collect ns nd = (ns ++ nd ∷ [], none)

abbrev pub element : Bytes → Node
element s = make_node blob_string 1 1 s

-- The parser inside an array with `n` elements to come, and behind the last one.
abbrev reading : ℕ → ℕ → ℕ → Parser
reading n c l = record {
  depth = 1;
  sizes = 2 ∷ n ∷ 0 ∷ 0 ∷ 0 ∷ 0 ∷ [];
  bulk_length = l;
  bulk = invalid;
  consumed = c;
}

abbrev at_end : ℕ → ℕ → Parser
at_end c l = record {
  depth = 0;
  sizes = 1 ∷ 0 ∷ 0 ∷ 0 ∷ 0 ∷ 0 ∷ [];
  bulk_length = l;
  bulk = invalid;
  consumed = c;
}

commit_last : (c l : ℕ) → commit_elem (reading 1 c l) ≡ ok (at_end c l)
unfolding commit_elem
commit_last c l = refl

commit_next :
    (n c l : ℕ)
    → suc (suc n) < word_mod
    → commit_elem (reading (suc (suc n)) c l) ≡ ok (reading (suc n) c l)
unfolding commit_elem
commit_next n c l h =
    let lower : sub_word (suc (suc n)) 1 ≡ suc n = omega arith in
    let more_left : (suc n == 0) ≡ false = ground arith in rw (lower, more_left)

-- The parser stops behind the text that stood in front of `rest`.
abbrev pub Behind : Parser → Bytes → Bytes → Type 0
Behind q view rest = (drop q.consumed view ≡ rest) × (q.consumed + length rest ≡ length view)

behind_bulk :
    (c : ℕ) (view s rest : Bytes)
    → drop c view ≡ bulk s rest
    → drop (c + suc (length (to_string (length s))) + 2 + (length s + 2)) view ≡ rest
behind_bulk c view s rest d =
    let k : ℕ = c + suc (length (to_string (length s))) + 2 in
    let text_at = drop_line c view _ b'$' (length s) d in
    sym (drop-drop k (length s + 2) view)
    ∙ ap (drop (length s + 2)) text_at
    ∙ sym (drop-drop (length s) 2 (s ++ (b'\r' ∷ b'\n' ∷ rest)))
    ∙ ap (drop 2) (drop-length s (b'\r' ∷ b'\n' ∷ rest))

length-bulk :
    (s rest : Bytes)
    → length (bulk s rest) ≡ length (to_string (length s)) + length s + 5 + length rest
length-bulk s rest = omega (
  arith,
  length-append (to_string (length s)) (b'\r' ∷ b'\n' ∷ s ++ (b'\r' ∷ b'\n' ∷ rest)),
  length-append s (b'\r' ∷ b'\n' ∷ rest),
)

length-bulks : (ss : List Bytes) (rest : Bytes) → length ss ≤ length (bulks ss rest)
length-bulks [] rest = omega arith
length-bulks (s ∷ ss) rest = omega (arith, length-bulk s (bulks ss rest), length-bulks ss rest)

pub length-command : (ss : List Bytes) (rest : Bytes) → length ss < length (command ss rest)
length-command ss rest = omega (
  arith,
  length-bulks ss rest,
  length-append (to_string (length ss)) (b'\r' ∷ b'\n' ∷ bulks ss rest),
)

-- The rest of an array of bulk strings is read to its end, each string as one node.
parse_elements :
    (fuel : ℕ) (s : Bytes) (ss : List Bytes) (acc : List Node) (c l : ℕ) (view rest : Bytes)
    → length view < word_mod
    → c ≤ length view
    → drop c view ≡ bulks (s ∷ ss) rest
    → length (s ∷ ss) < fuel
    → (q : Parser) × (parse collect fuel (reading (length (s ∷ ss)) c l) view acc
        ≡ ok (finished q (acc ++ map element (s ∷ ss)) none))
      × Behind q view rest
unfolding done
parse_elements zero s ss acc c l view rest bound inside d f = elim f [ ]
parse_elements (suc zero) s ss acc c l view rest bound inside d f = absurd (omega arith)
parse_elements (suc (suc fuel)) s [] acc c l view rest bound inside d f =
    let c' : ℕ = c + suc (length (to_string (length s))) + 2 in
    (
      at_end (c' + (length s + 2)) (length s),
      parse-consume collect (suc fuel) (reading 1 c l) view acc refl
          ∙ rw (consume-bulk (reading 1 c l) view s rest refl bound d, commit_last c' (length s))
              (parse-done collect fuel (at_end (c' + (length s + 2)) (length s)) view _
                (ground arith)),
      (
        behind_bulk c view s rest d,
        omega (arith, ap length d, length-drop c view, length-bulk s rest),
      ),
    )
parse_elements (suc (suc fuel)) s (s' ∷ ss) acc c l view rest bound inside d f =
    let c' : ℕ = c + suc (length (to_string (length s))) + 2 in
    let size = ap length d in
    let whole = length-drop c view in
    let one = length-bulk s (bulks (s' ∷ ss) rest) in
    let few = length-bulks (s' ∷ ss) rest in
    let (q, run, behind) =
      parse_elements (suc fuel) s' ss (acc ++ element s ∷ []) (c' + (length s + 2)) (length s) view
        rest bound (omega arith) (behind_bulk c view s (bulks (s' ∷ ss) rest) d) (omega arith) in
    (
      q,
      parse-consume collect (suc fuel) (reading (length (s ∷ s' ∷ ss)) c l) view acc refl
          ∙ rw
              (
                consume-bulk (reading (length (s ∷ s' ∷ ss)) c l) view s (bulks (s' ∷ ss) rest) refl
                    bound d,
                commit_next (length ss) c' (length s) (omega arith),
              )
              (run
                ∙ ap (λ x. ok (finished q x none))
                    (append_assoc acc (element s ∷ []) (map element (s' ∷ ss)))),
      behind,
    )

-- The header of a command, from a fresh parser.
consume-command :
    (s : Bytes) (ss : List Bytes) (rest : Bytes)
    → length (command (s ∷ ss) rest) < word_mod
    → consume reset (command (s ∷ ss) rest)
      ≡ ok (
          got
            (reading (length (s ∷ ss)) (suc (length (to_string (length (s ∷ ss)))) + 2) size_max)
            (make_node array (length (s ∷ ss)) 0 []))
unfolding consume consume_impl to_type after_header element_multiplicity
consume-command s ss rest bound =
    let view = command (s ∷ ss) rest in
    let n = length (s ∷ ss) in
    let few = length-bulks (s ∷ ss) rest in
    let parts = length-append (to_string n) (b'\r' ∷ b'\n' ∷ bulks (s ∷ ss) rest) in
    let some_left : (n == 0) ≡ false = ground arith in
    let exact : word (n * 1) ≡ n = omega arith in
    let start : 0 + suc (length (to_string n)) + 2 ≡ suc (length (to_string n)) + 2 = omega arith in
    rw
      (
        read_counted reset view (bulks (s ∷ ss) rest) b'*' n bound (omega arith) refl,
        from_chars-to_string n (omega arith),
        read_aggregate,
      )
      (rw (some_left, open_aggregate, exact, start) refl)

-- A command, an array of one bulk string or more in fewer than 2^64 bytes with what stands behind
-- it, is read from a fresh parser as the header with their number, then each string unchanged, and
-- the parser stops behind it.
pub parse-command :
    (s : Bytes) (ss : List Bytes) (rest : Bytes)
    → length (command (s ∷ ss) rest) < word_mod
    → let view : Bytes = command (s ∷ ss) rest in
      (q : Parser) × (parse collect (parse_fuel view) reset view []
        ≡ ok (finished q (make_node array (length (s ∷ ss)) 0 [] ∷ map element (s ∷ ss)) none))
      × Behind q view rest
unfolding done
parse-command s ss rest bound =
    let view = command (s ∷ ss) rest in
    let n = length (s ∷ ss) in
    let few = length-bulks (s ∷ ss) rest in
    let parts = length-append (to_string n) (b'\r' ∷ b'\n' ∷ bulks (s ∷ ss) rest) in
    let fuel : parse_fuel view ≡ suc (2 * length view + 1) = omega arith in
    let (q, run, behind) =
      parse_elements (2 * length view + 1) s ss (make_node array n 0 [] ∷ [])
        (suc (length (to_string n)) + 2) size_max view rest bound (omega arith)
        (drop-counted b'*' n (bulks (s ∷ ss) rest)) (omega arith) in
    (
      q,
      rw fuel (
          parse-consume collect (2 * length view + 1) reset view [] refl
          ∙ rw (consume-command s ss rest bound) run),
      behind,
    )
