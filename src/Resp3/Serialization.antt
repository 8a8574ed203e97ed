-- ===== src/Resp3/Serialization.antt =====
-- resp3/serialization.hpp and resp3/impl/serialization.ipp: how commands are written.
pub mod Wire
pub mod RoundTrip
pub mod Command
pub mod Delivered
use aedis.Prelude.{
  ℕ, suc, ◌+◌, true, Option, none, some, List, [], ◌∷◌, ◌++◌, length, Bool, false, ◌==◌,
  if◌then◌else◌, zero,
}
use aedis.Prelude.Bytes.{Bytes, to_string}
use aedis.Prelude.Run.{Run, ok, crash, assertion, out_of_fuel, ◌>>=◌}
use aedis.Error.{Failure, error_code, exception, Error}
use aedis.Resp3.Types.{RespType, blob_string, to_code}
use aedis.Resp3.Node.{Node}
use aedis.Resp3.Parser.{Parser, reset, done, Step, more, got, fail, consume, parse_fuel}

-- `parser::sep`
abbrev pub sep : Bytes
sep = b'\r' ∷ b'\n' ∷ []

unfoldable pub boost_redis_to_bulk : Bytes → Bytes → Run Bytes
unfolding to_code
boost_redis_to_bulk payload text = do
  let str = to_string (length text)
  c ← to_code blob_string
  ok (payload ++ c ∷ [] ++ str ++ sep ++ text ++ sep)

-- A value of an integral type; `negsuc n` is -(n + 1).
pub data ℤ : Type 0 where
  pos negsuc : ℕ → ℤ

abbrev pub to_string_int : ℤ → Bytes
to_string_int (pos n) = to_string n
to_string_int (negsuc n) = b'-' ∷ to_string (n + 1)

-- The overload for integral types.
unfoldable pub boost_redis_to_bulk_int : Bytes → ℤ → Run Bytes
boost_redis_to_bulk_int payload n = boost_redis_to_bulk payload (to_string_int n)

unfoldable pub add_header : Bytes → RespType → ℕ → Run Bytes
add_header payload t size = do
  let str = to_string size
  c ← to_code t
  ok (payload ++ c ∷ [] ++ str ++ sep)

unfoldable pub add_blob : Bytes → Bytes → Bytes
add_blob payload blob = payload ++ blob ++ sep

unfoldable pub add_separator : Bytes → Bytes
add_separator payload = payload ++ sep

-- An argument: a string or an integer. Other types are serialised by functions of the user's.
pub data Value : Type 0 where
  text : Bytes → Value
  integral : ℤ → Value

-- `add_bulk_impl<T>::add`
unfoldable pub add_value : Bytes → Value → Run Bytes
unfolding boost_redis_to_bulk_int
add_value payload (text s) = boost_redis_to_bulk payload s
add_value payload (integral n) = boost_redis_to_bulk_int payload n

-- `add_bulk_impl<std::tuple<Ts...>>::add`
unfoldable pub add_tuple : Bytes → List Value → Run Bytes
add_tuple payload [] = ok payload
add_tuple payload (v ∷ vs) = add_value payload v >>= λ p. add_tuple p vs

-- `add_bulk_impl<std::pair<U, V>>::add`
unfoldable pub add_pair : Bytes → Value × Value → Run Bytes
add_pair payload from = do p ← add_value payload from.0; add_value p from.1

-- What the templates choose by the type of a range's elements: `bulk_counter` and `add_bulk`.
pub record Element (T : Type 0) : Type 0 where
  pub size : ℕ
  pub add_bulk : Bytes → T → Run Bytes

instance abbrev pub value_element : Element Value
value_element = record { size = 1; add_bulk = add_value }

instance abbrev pub pair_element : Element (Value × Value)
pair_element = record { size = 2; add_bulk = add_pair }

-- A tuple falls under the general `bulk_counter`.
instance abbrev pub tuple_element : Element (List Value)
tuple_element = record { size = 1; add_bulk = add_tuple }

-- `detail::deserialize`: the adapter and its state as in `parse`. Its assertions are faults.
module _ {ℓ} {A : Type ℓ} (adapter : A → Node → A × Option Failure) where
  abbrev pub deserialize_step :
      (Parser → A → Run (A × Option Error)) → A → Step → Run (A × Option Error)
  deserialize_step again a (more q) = crash assertion
  deserialize_step again a (fail q e) = ok (a, some e)
  deserialize_step again a (got q nd) =
      let (a', failure) = adapter a nd in
      elim failure [
        | none ↦ again q a'
        | some (error_code e) ↦ ok (a', some e)
        | some (exception f) ↦ crash f
      ]

  unfoldable pub deserialize_loop : ℕ → Parser → Bytes → A → Run (A × Option Error)
  deserialize_loop zero p view a = crash out_of_fuel
  deserialize_loop (suc fuel) p view a = elim (done p) [
    | true ↦ if p.consumed == length view then ok (a, none) else crash assertion
    | false ↦ consume p view >>= deserialize_step (λ q a'. deserialize_loop fuel q view a') a
  ]

  unfoldable pub deserialize : Bytes → A → Run (A × Option Error)
  unfolding deserialize_loop
  deserialize view a = deserialize_loop (parse_fuel view) reset view a
