-- ===== src/Resp3/Parser.antt =====
-- resp3/parser.hpp and resp3/impl/parser.ipp: the incremental RESP3 parser.
--
-- `view` is the buffer from the first byte of the current message; `consumed` counts in it.
-- A position in `view` is at most its size, so sums of positions do not wrap; sums with a length
-- that the peer announced do, and are taken modulo 2^64.
pub mod Stack
pub mod Headers
pub mod Lines
pub mod Safety
pub mod Loop
pub mod Resume
pub mod Trace
pub mod Depths
pub mod Messages
pub mod Examples
use aedis.Prelude.{
  ℕ, zero, suc, ◌+◌, ◌-◌, ◌*◌, ◌<◌, Bool, true, false, not, ◌&&◌, ◌||◌, Option, none, some, List,
  [], ◌∷◌, arith, ltb, ◌==◌, if◌then◌else◌, length, drop, word, sub_word, size_max,
}
use aedis.Prelude.Bytes.{Bytes, from_chars}
use aedis.Prelude.Run.{Run, ok, crash, out_of_bounds, out_of_fuel, ◌>>=◌, index, store, at, substr}
use aedis.Error.{
  Failure, error_code, exception, Error, not_a_number, empty_field, unexpected_bool_value,
  exceeeds_max_nested_depth, invalid_data_type,
}
use aedis.Resp3.Types.{
  RespType, RespType-discrete, array, push, set, map, attribute, simple_string, simple_error,
  number, doublean, boolean, big_number, null, blob_error, verbatim_string, blob_string,
  streamed_string, streamed_string_part, invalid, to_type, element_multiplicity,
}
use aedis.Resp3.Node.{Node, default_node}

abbrev pub max_embedded_depth : ℕ
max_embedded_depth = 5

pub record Parser : Type 0 where
  pub depth : ℕ
  pub sizes : List ℕ
  pub bulk_length : ℕ
  pub bulk : RespType
  pub consumed : ℕ

-- The state behind `reset`. `{{1}}` fills the other entries with 0.
abbrev pub reset : Parser
reset = record {
  depth = 0;
  sizes = 2 ∷ 0 ∷ 0 ∷ 0 ∷ 0 ∷ 0 ∷ [];
  bulk_length = size_max;
  bulk = invalid;
  consumed = 0;
}

abbrev pub is_invalid : RespType → Bool
is_invalid invalid = true
is_invalid _ = false

abbrev pub bulk_expected : Parser → Bool
bulk_expected p = not (is_invalid p.bulk)

unfoldable pub done : Parser → Bool
done p = p.depth == 0 && is_invalid p.bulk && not (p.consumed == 0)

unfoldable pub get_suggested_buffer_growth : Parser → ℕ → ℕ
get_suggested_buffer_growth p hint =
    if not (bulk_expected p)
    then hint
    else if ltb hint (word (p.bulk_length + 2))
    then word (p.bulk_length + 2)
    else hint

-- `to_int`: `none` stands for `error::not_a_number`, on which the target keeps its value.
abbrev pub to_int : Bytes → Option ℕ
to_int = from_chars

-- `--sizes_[d]`
abbrev pub decrement : List ℕ → ℕ → Run (List ℕ)
decrement sizes d = do n ← index sizes d; store sizes d (sub_word n 1)

-- The loop of `commit_elem`. At depth 0 `--depth_` wraps, and `sizes_` is accessed out of bounds.
unfoldable pub settle : ℕ → List ℕ → Run (ℕ × List ℕ)
settle zero sizes = do
  n ← index sizes zero
  if n == 0 then crash out_of_bounds else ok (zero, sizes)
settle (suc d) sizes = do
  n ← index sizes (suc d)
  if n == 0 then (decrement sizes d >>= settle d) else ok (suc d, sizes)

unfoldable pub commit_elem : Parser → Run Parser
unfolding settle
commit_elem p = do
  s ← decrement p.sizes p.depth
  r ← settle p.depth s
  ok (record p { depth = r.0; sizes = r.1 })

-- What a call of `consume` or `consume_impl` leaves: `more` is an empty result with no error.
pub data Step : Type 0 where
  more : Parser → Step
  got : Parser → Node → Step
  fail : Parser → Error → Step

abbrev pub make_node : RespType → ℕ → ℕ → Bytes → Node
make_node t n d v = record { data_type = t; aggregate_size = n; depth = d; value = v }

-- `case type::streamed_string_part`, behind `to_int`.
unfoldable pub read_part : Parser → Run Step
unfolding commit_elem
read_part p =
    if p.bulk_length == 0
    then (do
      s ← store p.sizes p.depth 1
      q ← commit_elem (record p { sizes = s; bulk = invalid })
      ok (got q (make_node streamed_string_part 1 p.depth [])))
    else ok (got (record p { bulk = streamed_string_part }) default_node)

-- `sizes_[++depth_] = max` and the node of a streamed string.
unfoldable pub open_stream : Parser → Run Step
open_stream p = do
  s ← store p.sizes (p.depth + 1) size_max
  ok (
      got (record p { depth = p.depth + 1; sizes = s })
        (make_node streamed_string 0 (p.depth + 1) []))

unfoldable pub expect_bulk : RespType → Bytes → Parser → Step
expect_bulk t elem p = elim (to_int elem) [
  | none ↦ fail p not_a_number
  | some n ↦ got (record p { bulk_length = n; bulk = t }) default_node
]

-- `case type::blob_error` and the two below it.
unfoldable pub read_blob : RespType → Bytes → Parser → Run Step
unfolding open_stream expect_bulk
read_blob t elem p = do
  c ← at elem 0
  if c == b'?' then open_stream p else ok (expect_bulk t elem p)

unfoldable pub read_simple : RespType → Bytes → Parser → Run Step
unfolding commit_elem
read_simple t elem p = do q ← commit_elem p; ok (got q (make_node t 1 p.depth elem))

unfoldable pub read_boolean : Bytes → Parser → Run Step
unfolding read_simple
read_boolean [] p = ok (fail p empty_field)
read_boolean (c ∷ s) p =
    if not (c == b'f') && not (c == b't')
    then ok (fail p unexpected_bool_value)
    else read_simple boolean (c ∷ s) p

unfoldable pub read_number : RespType → Bytes → Parser → Run Step
unfolding read_simple
read_number t [] p = ok (fail p empty_field)
read_number t (c ∷ s) p = read_simple t (c ∷ s) p

-- The aggregates, behind `to_int`.
unfoldable pub open_aggregate : RespType → ℕ → Parser → Run Step
unfolding commit_elem
open_aggregate t l p =
    if l == 0
    then (do q ← commit_elem p; ok (got q (make_node t l p.depth [])))
    else if p.depth == max_embedded_depth
    then ok (fail p exceeeds_max_nested_depth)
    else (do
      s ← store p.sizes (p.depth + 1) (word (l * element_multiplicity t))
      ok (got (record p { depth = p.depth + 1; sizes = s }) (make_node t l p.depth [])))

unfoldable pub read_aggregate : RespType → Bytes → Parser → Run Step
unfolding open_aggregate
read_aggregate t elem p = elim (to_int elem) [
  | none ↦ ok (fail p not_a_number)
  | some l ↦ open_aggregate t l p
]

unfoldable pub consume_impl : RespType → Bytes → Parser → Run Step
unfolding read_part read_blob read_simple read_boolean read_number read_aggregate
consume_impl streamed_string_part elem p = elim (to_int elem) [
  | none ↦ ok (fail p not_a_number)
  | some n ↦ read_part (record p { bulk_length = n })
]
consume_impl blob_error elem p = read_blob blob_error elem p
consume_impl verbatim_string elem p = read_blob verbatim_string elem p
consume_impl blob_string elem p = read_blob blob_string elem p
consume_impl boolean elem p = read_boolean elem p
consume_impl doublean elem p = read_number doublean elem p
consume_impl big_number elem p = read_number big_number elem p
consume_impl number elem p = read_number number elem p
consume_impl simple_error elem p = read_simple simple_error elem p
consume_impl simple_string elem p = read_simple simple_string elem p
consume_impl null elem p = read_simple null elem p
consume_impl push elem p = read_aggregate push elem p
consume_impl set elem p = read_aggregate set elem p
consume_impl array elem p = read_aggregate array elem p
consume_impl attribute elem p = read_aggregate attribute elem p
consume_impl map elem p = read_aggregate map elem p
consume_impl streamed_string elem p = ok (fail p invalid_data_type)
consume_impl invalid elem p = ok (fail p invalid_data_type)

abbrev pub starts_with_lf : Bytes → Bool
starts_with_lf [] = false
starts_with_lf (c ∷ s) = c == b'\n'

-- The first position of `sep`.
unfoldable pub find_sep : Bytes → Option ℕ
find_sep [] = none
find_sep (c ∷ s) =
    if c == b'\r' && starts_with_lf s
    then some 0
    else elim (find_sep s) [ none ↦ none | some i ↦ some (suc i) ]

-- `view.find(sep, from)`
abbrev pub find_from : Bytes → ℕ → Option ℕ
find_from view from = elim (find_sep (drop from view)) [ none ↦ none | some i ↦ some (from + i) ]

-- The part of `consume` that handles a bulk.
unfoldable pub read_bulk : Parser → Bytes → Run Step
unfolding commit_elem
read_bulk p view =
    let span = word (p.bulk_length + 2) in
    if ltb (sub_word (length view) p.consumed) span then ok (more p) else (do
      bulk_view ← substr view p.consumed p.bulk_length
      q ← commit_elem (record p { bulk = invalid })
      ok (got (record q { consumed = q.consumed + span }) (make_node p.bulk 1 p.depth bulk_view)))

-- What `consume` does with the result of `consume_impl`; `pos` is where the separator stands.
unfoldable pub after_header : Bytes → ℕ → Step → Run Step
unfolding read_bulk
after_header view pos (more q) = ok (more q)
after_header view pos (fail q e) = ok (fail q e)
after_header view pos (got q nd) =
    let q' = record q { consumed = pos + 2 } in
    if not (bulk_expected q') then ok (got q' nd) else read_bulk q' view

unfoldable pub read_header : Parser → Bytes → Run Step
unfolding find_sep consume_impl to_type after_header
read_header p view = elim (find_from view p.consumed) [
  | none ↦ ok (more p)
  | some pos ↦ (do
    c ← at view p.consumed
    content ← substr view (p.consumed + 1) (sub_word pos (1 + p.consumed))
    s ← consume_impl (to_type c) content p
    after_header view pos s)
]

unfoldable pub consume : Parser → Bytes → Run Step
unfolding read_header read_bulk
consume p view = if bulk_expected p then read_bulk p view else read_header p view

-- What the free function `parse` leaves: it returns false for `needs_more`, and true for
-- `finished`, with the error code if there is one.
pub data Parsed {ℓ} (A : Type ℓ) : Type ℓ where
  needs_more : Parser → A → Parsed A
  finished : Parser → A → Option Error → Parsed A

-- The adapter is the function object that is called with each node; `A` is its state. An exception
-- that it throws leaves `parse`.
module _ {ℓ} {A : Type ℓ} (adapter : A → Node → A × Option Failure) where
  -- The body of the loop; `again` is the rest of it.
  abbrev pub parse_step : (Parser → A → Run (Parsed A)) → A → Step → Run (Parsed A)
  parse_step again a (more q) = ok (needs_more q a)
  parse_step again a (fail q e) = ok (finished q a (some e))
  parse_step again a (got q nd) =
      let (a', failure) = adapter a nd in
      elim failure [
        | none ↦ again q a'
        | some (error_code e) ↦ ok (finished q a' (some e))
        | some (exception f) ↦ crash f
      ]

  unfoldable pub parse : ℕ → Parser → Bytes → A → Run (Parsed A)
  parse zero p view a = crash out_of_fuel
  parse (suc fuel) p view a = elim (done p) [
    | true ↦ ok (finished p a none)
    | false ↦ consume p view >>= parse_step (λ q a'. parse fuel q view a') a
  ]

-- Rounds that are enough for a view: each round takes bytes from it, or is the last of a bulk.
abbrev pub parse_fuel : Bytes → ℕ
parse_fuel view = 2 * length view + 2
