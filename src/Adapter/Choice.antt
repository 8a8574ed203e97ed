-- ===== src/Adapter/Choice.antt =====
-- adapter/detail/result_traits.hpp and `impl_map` of adapter/detail/adapters.hpp: the adapter that
-- the compiler chooses by the type of an element of `response<Ts...>`.
--
-- The types of the elements are those of `ElementType`: the containers that differ from these in the
-- order or the multiplicity of their elements alone, and tuples, are left out. `max_size` is that of the user's std::vector.
pub mod Expected
pub mod Simple
pub mod Aggregates
pub mod Sequences
pub mod Maps
pub mod Fixed
pub mod Decoded
pub mod Responses
pub mod Examples
use aedis.Prelude.{
  ℕ, ◌+◌, ◌*◌, Bool, true, false, not, ◌||◌, Option, none, some, List, [], ◌∷◌, length, replicate,
}
use aedis.Prelude.Bytes.{Bytes, from_chars}
use aedis.Prelude.Run.{Run, ok, crash}
use aedis.Error.{Error}
use aedis.Resp3.Node.{Node, default_node}
use aedis.Adapter.{
  Result, value, error, FromBulk, string_bulk, unsigned_bulk, bool_bulk, general_aggregate,
  general_simple, simple_impl, vector_impl, list_impl, array_impl, wrapper, wrapper_optional,
  Stateless,
}
use aedis.Adapter.Containers.{Pairs, MapState, insert_key, map_start, set_impl, map_impl}
use aedis.Adapter.Traits.{ignore, ignore_adapter, static_adapter, vector_adapter, any_response_size}

pub data Scalar : Type 0 where
  string unsigned boolean : Scalar

abbrev pub Value : Scalar → Type 0
Value string = Bytes
Value unsigned = ℕ
Value boolean = Bool

abbrev pub bulk_of : (s : Scalar) → FromBulk (Value s)
bulk_of string = string_bulk
bulk_of unsigned = unsigned_bulk
bulk_of boolean = bool_bulk

-- `result<T>` for a simple type, a std::optional of one, a std::vector, a std::list, a std::array, a
-- std::set of strings, a std::map with strings for keys, a std::vector of nodes, a node, and `ignore_t`.
pub data ElementType : Type 0 where
  scalar optional vector list map_of : Scalar → ElementType
  array_of : ℕ → Scalar → ElementType
  set_of_strings : ElementType
  generic single ignored : ElementType

-- The object that an adapter points to, with the state of the adapter.
abbrev pub Held : ElementType → Type 0
Held (scalar s) = Result (Value s) × Stateless
Held (optional s) = Result (Option (Value s)) × Stateless
Held (vector s) = Result (List (Value s)) × Stateless
Held (list s) = Result (List (Value s)) × Stateless
Held (array_of n s) = Result (List (Value s)) × ℕ
Held set_of_strings = Result (List Bytes) × Stateless
Held (map_of s) = Result (Pairs (Value s)) × MapState
Held generic = Result (List Node)
Held single = Result Node
Held ignored = Unit

-- `internal_adapt`
abbrev pub internal_adapt : (t : ElementType) → Held t
internal_adapt (scalar s) = (value (FromBulk.initial (bulk_of s)), tt)
internal_adapt (optional s) = (value none, tt)
internal_adapt (vector s) = (value [], tt)
internal_adapt (list s) = (value [], tt)
internal_adapt (array_of n s) = (value (replicate n (FromBulk.initial (bulk_of s))), 0)
internal_adapt set_of_strings = (value [], tt)
internal_adapt (map_of s) = (value [], map_start)
internal_adapt generic = value []
internal_adapt single = value default_node
internal_adapt ignored = tt

abbrev pub ignoring : Run (Unit {0}) → Node → Run (Unit {0}) × Option Error
ignoring (crash f) nd = (crash f, none)
ignoring (ok u) nd = (ok u, ignore nd)

-- The std::variant of the adapters.
abbrev pub Adapter : Type 0
Adapter = (t : ElementType) × Held t

module _ (max_size : ℕ) where
  -- `adapter_t<T>::operator()`
  unfoldable pub adapter_of : (t : ElementType) → Run (Held t) → Node → Run (Held t) × Option Error
  adapter_of (scalar s) = wrapper (simple_impl ⦃bulk = bulk_of s⦄)
  adapter_of (optional s) =
      wrapper_optional (simple_impl ⦃bulk = bulk_of s⦄) (FromBulk.initial (bulk_of s))
  adapter_of (vector s) = wrapper (vector_impl ⦃bulk = bulk_of s⦄ max_size)
  adapter_of (list s) = wrapper (list_impl ⦃bulk = bulk_of s⦄)
  adapter_of (array_of n s) = wrapper (array_impl ⦃bulk = bulk_of s⦄)
  adapter_of set_of_strings = wrapper (set_impl insert_key)
  adapter_of (map_of s) = wrapper (map_impl ⦃bulk = bulk_of s⦄)
  adapter_of generic = general_aggregate
  adapter_of single = general_simple
  adapter_of ignored = ignoring

  abbrev pub as_alternative : (t : ElementType) → Run (Held t) → Run Adapter
  as_alternative t (ok h) = ok (t, h)
  as_alternative t (crash f) = crash f

  -- The function that std::visit calls.
  unfoldable pub visit_adapter : Adapter → Node → Run Adapter × Option Error
  visit_adapter (t, h) nd =
      (as_alternative t (adapter_of t (ok h) nd).0, (adapter_of t (ok h) nd).1)

-- The adapters of a response: `assigner` in the constructor of `static_adapter`.
abbrev pub assign : List ElementType → List Adapter
assign [] = []
assign (t ∷ ts) = (t, internal_adapt t) ∷ assign ts

-- The types that `response_traits` is for: `ignore_t`, `generic_response` and `response<Ts...>`.
pub data ResponseType : Type 0 where
  ignore_response generic_response : ResponseType
  response : List ElementType → ResponseType

abbrev pub Object : ResponseType → Type 0
Object ignore_response = Unit
Object generic_response = Run (Result (List Node))
Object (response ts) = Run (List Adapter)

-- `response_traits::adapt`
abbrev pub adapt : (t : ResponseType) → Object t
adapt ignore_response = tt
adapt generic_response = ok (value [])
adapt (response ts) = ok (assign ts)

-- `vector_adapter` over `general_aggregate`, with its faults.
abbrev pub generic_adapter :
    ℕ → Run (Result (List Node)) → Node → Run (Result (List Node)) × Option Error
generic_adapter i (crash f) nd = (crash f, none)
generic_adapter i (ok e) nd = vector_adapter (λ x. general_aggregate (ok x)) i e nd

-- `get_supported_response_size`
unfoldable pub supported_response_size : ResponseType → ℕ
supported_response_size ignore_response = any_response_size
supported_response_size generic_response = any_response_size
supported_response_size (response ts) = length ts

module _ (max_size : ℕ) where
  -- `response_traits::adapter_type::operator()`
  unfoldable pub response_adapter :
      (t : ResponseType) → ℕ → Object t → Node → Object t × Option Error
  response_adapter ignore_response i u nd = (u, ignore_adapter i nd)
  response_adapter generic_response i r nd = generic_adapter i r nd
  response_adapter (response ts) i es nd = static_adapter (visit_adapter max_size) i es nd
