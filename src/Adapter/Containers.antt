-- ===== src/Adapter/Containers.antt =====
-- adapter/detail/adapters.hpp: the adapters for sets and maps.
--
-- The containers are those of the standard library. A std::set of strings is the list of its keys, and
-- a std::map with strings for keys that of its pairs, with no key twice, in the order in which they came; the order of an iteration is not
-- modelled. An iterator is the key that it stands at, or `none` behind the end. The hint of `insert` is
-- left out: it changes the time alone.
pub mod Lookup
use aedis.Prelude.{
  ℕ, Bool, true, false, not, Option, none, some, List, [], ◌∷◌, ltb, ◌==◌, if◌then◌else◌,
}
use aedis.Prelude.Bytes.{Bytes, bytes_eq}
use aedis.Prelude.Run.{Run, ok, crash, out_of_bounds, assertion}
use aedis.Error.{Error, expects_resp3_set, expects_resp3_map}
use aedis.Resp3.Types.{RespType, set, is_aggregate, element_multiplicity}
use aedis.Resp3.Node.{Node}
use aedis.Adapter.{FromBulk, Impl, Stateless}

abbrev pub is_set : RespType → Bool
is_set set = true
is_set _ = false

module _ {K C : Type 0} ⦃bulk : FromBulk K⦄ (insert : K → C → C) where
  -- `set_impl::operator()`, for any container with `insert`.
  unfoldable pub set_impl : Impl C Stateless
  set_impl c i nd =
      if is_aggregate nd.data_type
      then (ok (c, i), if not (is_set nd.data_type) then some expects_resp3_set else none)
      else if not (nd.aggregate_size == 1)
      then (crash assertion, none)
      else if ltb nd.depth 1
      then (ok (c, i), some expects_resp3_set)
      else (
        ok (insert (bulk.from_bulk bulk.initial nd.value).0 c, i),
        (bulk.from_bulk bulk.initial nd.value).1,
      )

-- `insert(key)`, which keeps a key that is there.
unfoldable pub insert_key : Bytes → List Bytes → List Bytes
insert_key k [] = k ∷ []
insert_key k (j ∷ s) = let rest = insert_key k s in if bytes_eq k j then j ∷ s else j ∷ rest

-- A `std::map<std::string, M>`.
abbrev pub Pairs : Type 0 → Type 0
Pairs M = List (Bytes × M)

module _ {M : Type 0} where
  -- `insert({key, value})`, which keeps a pair that has the key.
  unfoldable pub insert_pair : Bytes → M → Pairs M → Pairs M
  insert_pair k v [] = (k, v) ∷ []
  insert_pair k v ((j, w) ∷ m) =
      let rest = insert_pair k v m in if bytes_eq k j then (j, w) ∷ m else (j, w) ∷ rest

  -- `it->second = value`
  unfoldable pub assign_second : Bytes → M → Pairs M → Pairs M
  assign_second k v [] = []
  assign_second k v ((j, w) ∷ m) =
      let rest = assign_second k v m in if bytes_eq k j then (j, v) ∷ m else (j, w) ∷ rest

-- `current_` and `on_key_`
pub record MapState : Type 0 where
  pub current : Option Bytes
  pub on_key : Bool

-- The state behind `on_value_available`.
abbrev pub map_start : MapState
map_start = record { current = none; on_key = true }

module _ {M : Type 0} ⦃bulk : FromBulk M⦄ where
  -- The value of the pair at `current_`.
  abbrev pub take_value :
      Pairs M → MapState → Option Bytes → Node → Run (Pairs M × MapState) × Option Error
  take_value m i none nd = (crash out_of_bounds, none)
  take_value m i (some k) nd = (
    ok (
      assign_second k (bulk.from_bulk bulk.initial nd.value).0 m,
      record i { on_key = not i.on_key },
    ),
    (bulk.from_bulk bulk.initial nd.value).1,
  )

  -- A key, which is a string: it is copied without an error.
  abbrev pub take_key : Pairs M → MapState → Node → Run (Pairs M × MapState) × Option Error
  take_key m i nd = (
    ok (
      insert_pair nd.value bulk.initial m,
      record { current = some nd.value; on_key = not i.on_key },
    ),
    none,
  )

  -- `map_impl::operator()`
  unfoldable pub map_impl : Impl (Pairs M) MapState
  map_impl m i nd =
      if is_aggregate nd.data_type
      then (
        ok (m, i),
        if not (element_multiplicity nd.data_type == 2) then some expects_resp3_map else none,
      )
      else if not (nd.aggregate_size == 1)
      then (crash assertion, none)
      else if ltb nd.depth 1
      then (ok (m, i), some expects_resp3_map)
      else if i.on_key
      then take_key m i nd
      else take_value m i i.current nd
