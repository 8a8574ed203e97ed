-- ===== src/Adapter/Tuple.antt =====
-- adapter/detail/result_traits.hpp: `static_aggregate_adapter`, for a `std::tuple` that an aggregate
-- fills, as the reply to EXEC.
--
-- `visit` is what std::visit calls on the adapter of one element.
pub mod Groups
use aedis.Prelude.{
  ℕ, ◌+◌, ◌*◌, not, Option, none, some, List, ◌==◌, if◌then◌else◌, length, word, sub_word,
}
use aedis.Prelude.Run.{Run, ok, crash, index}
use aedis.Error.{Error, incompatible_size}
use aedis.Resp3.Types.{is_aggregate, element_multiplicity}
use aedis.Resp3.Node.{Node}
use aedis.Adapter.Traits.{place}

pub record TupleAdapter (E : Type 0) : Type 0 where
  pub i : ℕ
  pub aggregate_size : ℕ
  pub adapters : List E

module _ {E : Type 0} where
  abbrev pub make_tuple_adapter : List E → TupleAdapter E
  make_tuple_adapter es = record { i = 0; aggregate_size = 0; adapters = es }

  abbrev pub next_element : TupleAdapter E → TupleAdapter E
  next_element a = record a { i = word (a.i + 1) }

  abbrev pub count_down : TupleAdapter E → TupleAdapter E
  count_down a =
      let n = sub_word a.aggregate_size 1 in
      let b = record a { aggregate_size = n } in if n == 0 then next_element b else b

  -- `count`
  unfoldable pub count_node : TupleAdapter E → Node → TupleAdapter E
  count_node a nd =
      if nd.depth == 1
      then if is_aggregate nd.data_type
        then record a {
          aggregate_size = word (element_multiplicity nd.data_type * nd.aggregate_size);
        }
        else next_element a
      else count_down a

  abbrev pub put_back : TupleAdapter E → Node → Run (List E) → Run (TupleAdapter E)
  put_back a nd (crash f) = crash f
  put_back a nd (ok es) = ok (count_node (record a { adapters = es }) nd)

module _ {E : Type 0} (visit : E → Node → Run E × Option Error) where
  -- The access `adapters_[i_]` to a std::array, the visit, and `count`.
  abbrev pub visit_element : TupleAdapter E → Node → Run E → Run (TupleAdapter E) × Option Error
  visit_element a nd (crash f) = (crash f, none)
  visit_element a nd (ok e) = (put_back a nd (place a.adapters a.i (visit e nd).0), (visit e nd).1)

  -- `static_aggregate_adapter::operator()`
  unfoldable pub tuple_adapter : Run (TupleAdapter E) → Node → Run (TupleAdapter E) × Option Error
  tuple_adapter (crash f) nd = (crash f, none)
  tuple_adapter (ok a) nd =
      if nd.depth == 0
      then (
        ok a,
        if not (word (nd.aggregate_size * element_multiplicity nd.data_type) == length a.adapters)
            then some incompatible_size
            else none,
      )
      else visit_element a nd (index a.adapters a.i)
