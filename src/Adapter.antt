-- ===== src/Adapter.antt =====
-- adapter/detail/adapters.hpp: how the nodes of a reply become the user's object.
--
-- An adapter's state is a run: an exception or a failed assertion leaves a fault in it, and the code
-- behind it is not reached. `max_size` is that of the user's std::vector.
pub mod Replies
pub mod Arrays
pub mod Raising
pub mod Traits
pub mod Served
pub mod Filled
pub mod Tuple
pub mod Containers
pub mod Choice
pub mod Examples
use aedis.Prelude.{
  ℕ, zero, suc, ◌+◌, ◌*◌, Bool, true, false, not, Option, none, some, List, [], ◌∷◌, ◌++◌, ltb,
  ◌==◌, if◌then◌else◌, length, word, set,
}
use aedis.Prelude.Bytes.{Bytes, from_chars}
use aedis.Prelude.Run.{
  Run, ok, crash, assertion, length_error, error_access, out_of_range, at, ◌>>=◌,
}
use aedis.Error.{
  Error, Failure, error_code, exception, not_a_number, not_a_double, expects_resp3_simple_type,
  expects_resp3_aggregate, nested_aggregate_not_supported, incompatible_size, resp3_simple_error,
  resp3_blob_error, resp3_null,
}
use aedis.Resp3.Types.{RespType, null, simple_error, blob_error, is_aggregate, element_multiplicity}
use aedis.Resp3.Node.{Node}

-- `adapter::result`: a value, or the type and the text of a RESP3 error.
pub data Result (V : Type 0) : Type 0 where
  value : V → Result V
  error : RespType → Bytes → Result V

-- What `boost_redis_from_bulk` does to an object of a type, and the object `{}`.
pub record FromBulk (A : Type 0) : Type 0 where
  pub initial : A
  pub from_bulk : A → Bytes → A × Option Error

abbrev pub from_bulk_unsigned : ℕ → Bytes → ℕ × Option Error
from_bulk_unsigned n sv = elim (from_chars sv) [
  | none ↦ (n, some not_a_number)
  | some m ↦ (m, none)
]

instance abbrev pub string_bulk : FromBulk Bytes
string_bulk = record { initial = []; from_bulk = λ s sv. (s ++ sv, none) }

-- `std::size_t`
instance abbrev pub unsigned_bulk : FromBulk ℕ
unsigned_bulk = record { initial = 0; from_bulk = from_bulk_unsigned }

-- `bool`; the byte behind an empty text is that of a separator.
abbrev pub starts_with_t : Bytes → Bool
starts_with_t [] = false
starts_with_t (c ∷ s) = c == b't'

instance abbrev pub bool_bulk : FromBulk Bool
bool_bulk = record { initial = false; from_bulk = λ b sv. (starts_with_t sv, none) }

-- `double`, with std::from_chars for it as `parse_double`.
abbrev pub double_bulk : {D : Type 0} → D → (Bytes → Option D) → FromBulk D
double_bulk zero_point parse_double = record {
  initial = zero_point;
  from_bulk = λ d sv. elim (parse_double sv) [ none ↦ (d, some not_a_double) | some e ↦ (e, none) ];
}

abbrev pub is_error : RespType → Bool
is_error simple_error = true
is_error blob_error = true
is_error _ = false

abbrev pub is_error_or_null : RespType → Bool
is_error_or_null null = true
is_error_or_null t = is_error t

abbrev pub is_null : RespType → Bool
is_null null = true
is_null _ = false

-- `result_->value()` throws where the result has an error.
unfoldable pub general_aggregate :
    Run (Result (List Node)) → Node → Run (Result (List Node)) × Option Error
general_aggregate (crash f) nd = (crash f, none)
general_aggregate (ok (error t d)) nd =
    (if is_error nd.data_type then ok (error nd.data_type nd.value) else crash error_access, none)
general_aggregate (ok (value ns)) nd = (
  ok (if is_error nd.data_type then error nd.data_type nd.value else value (ns ++ nd ∷ [])),
  none,
)

unfoldable pub general_simple : Run (Result Node) → Node → Run (Result Node) × Option Error
general_simple (crash f) nd = (crash f, none)
general_simple (ok (error t d)) nd =
    (if is_error nd.data_type then ok (error nd.data_type nd.value) else crash error_access, none)
general_simple (ok (value old)) nd =
    (ok (if is_error nd.data_type then error nd.data_type nd.value else value nd), none)

-- `throw_exception_from_error` (adapter/result.hpp): the code of what `value()` throws.
unfoldable pub throw_exception_from_error : RespType → Run Error
throw_exception_from_error simple_error = ok resp3_simple_error
throw_exception_from_error blob_error = ok resp3_blob_error
throw_exception_from_error null = ok resp3_null
throw_exception_from_error _ = crash assertion

-- What an `impl_map<V>::type` with the state `I` does with a node.
abbrev pub Impl : Type 0 → Type 0 → Type 0
Impl V I = V → I → Node → Run (V × I) × Option Error

abbrev pub Stateless : Type 0
Stateless = Unit

module _ {A : Type 0} ⦃bulk : FromBulk A⦄ where
  unfoldable pub simple_impl : Impl A Stateless
  simple_impl v i nd =
      if is_aggregate nd.data_type
      then (ok (v, i), some expects_resp3_simple_type)
      else (ok ((bulk.from_bulk v nd.value).0, i), (bulk.from_bulk v nd.value).1)

  -- `result.push_back({})`, and the conversion into `result.back()`.
  abbrev pub push_back : List A → Node → Run (List A × Stateless) × Option Error
  push_back v nd = (
    ok (v ++ (bulk.from_bulk bulk.initial nd.value).0 ∷ [], tt),
    (bulk.from_bulk bulk.initial nd.value).1,
  )

  -- `result.reserve(n)`
  abbrev pub reserve : ℕ → List A → ℕ → Run (List A × Stateless)
  reserve max_size v n = if ltb max_size n then crash length_error else ok (v, tt)

  unfoldable pub vector_impl : ℕ → Impl (List A) Stateless
  vector_impl max_size v i nd =
      if is_aggregate nd.data_type
      then (
        reserve max_size v
            (word (length v + word (element_multiplicity nd.data_type * nd.aggregate_size))),
        none,
      )
      else push_back v nd

  unfoldable pub list_impl : Impl (List A) Stateless
  list_impl v i nd =
      if is_aggregate nd.data_type
      then (ok (v, i), none)
      else if not (nd.aggregate_size == 1)
      then (crash assertion, none)
      else if ltb nd.depth 1
      then (ok (v, i), some expects_resp3_aggregate)
      else push_back v nd

  -- The state is `i_ + 1`.
  unfoldable pub array_element : List A → ℕ → Node → Run (List A × ℕ) × Option Error
  array_element v zero nd = (ok (v, zero), some expects_resp3_aggregate)
  array_element v (suc i) nd =
      if not (nd.aggregate_size == 1) then (crash assertion, none) else elim (at v i) [
        | crash f ↦ (crash f, none)
        | ok old ↦ (
          ok (set v i (bulk.from_bulk old nd.value).0, suc (suc i)),
          (bulk.from_bulk old nd.value).1,
        )
      ]

  unfoldable pub array_impl : Impl (List A) ℕ
  unfolding array_element
  array_impl v i nd =
      if is_aggregate nd.data_type
      then if not (i == 0)
        then (ok (v, i), some nested_aggregate_not_supported)
        else if not (length v == word (nd.aggregate_size * element_multiplicity nd.data_type))
        then (ok (v, i), some incompatible_size)
        else (ok (v, 1), none)
      else array_element v i nd

-- What a call of an adapter comes to for its caller: an exception leaves it.
abbrev pub reported : {A : Type 0} → Run A × Option Error → Run A × Option Failure
reported (crash f, ec) = (crash f, some (exception f))
reported (ok a, none) = (ok a, none)
reported (ok a, some e) = (ok a, some (error_code e))

abbrev pub raising :
    {A : Type 0} → (Run A → Node → Run A × Option Error) → Run A → Node → Run A × Option Failure
raising f a nd = reported (f a nd)

-- The same, for each index of a command.
abbrev pub raising_all :
    {A : Type 0}
    → (ℕ → Run A → Node → Run A × Option Error)
    → ℕ
    → Run A
    → Node
    → Run A × Option Failure
raising_all f i = raising (f i)

module _ {V I : Type 0} (impl : Impl V I) where
  -- What is stored is the value that `impl` leaves, with its own state.
  abbrev pub store_value : Run (V × I) → Run (Result V × I)
  store_value (ok (v, i)) = ok (value v, i)
  store_value (crash f) = crash f

  -- `wrapper<result<V>>::operator()`
  unfoldable pub wrapper : Run (Result V × I) → Node → Run (Result V × I) × Option Error
  wrapper (crash f) nd = (crash f, none)
  wrapper (ok (error t d, i)) nd = (ok (error t d, i), none)
  wrapper (ok (value v, i)) nd =
      if is_error_or_null nd.data_type
      then (ok (error nd.data_type nd.value, i), none)
      else (store_value (impl v i nd).0, (impl v i nd).1)

  abbrev pub value_or : Option V → V → V
  value_or none v = v
  value_or (some x) v = x

  abbrev pub store_optional : Run (V × I) → Run (Result (Option V) × I)
  store_optional (ok (v, i)) = ok (value (some v), i)
  store_optional (crash f) = crash f

  -- `wrapper<result<std::optional<V>>>::operator()`; `fresh` is `V{}`, with its own state.
  unfoldable pub wrapper_optional :
      V → Run (Result (Option V) × I) → Node → Run (Result (Option V) × I) × Option Error
  wrapper_optional fresh (crash f) nd = (crash f, none)
  wrapper_optional fresh (ok (error t d, i)) nd = (ok (error t d, i), none)
  wrapper_optional fresh (ok (value o, i)) nd =
      if is_error nd.data_type
      then (ok (error nd.data_type nd.value, i), none)
      else if is_null nd.data_type
      then (ok (value o, i), none)
      else let v = value_or o fresh in (store_optional (impl v i nd).0, (impl v i nd).1)
