-- ===== src/Adapter/Choice/Maps.antt =====
-- The adapter of a std::map, at the aggregates that it expects.
use aedis.Prelude.{ℕ, ◌≡◌, refl, ap, true, false, Option, none, some, List, [], ◌∷◌, ◌++◌}
use aedis.Prelude.Bytes.{Bytes}
use aedis.Prelude.Run.{Run, ok}
use aedis.Resp3.Types.{RespType, is_aggregate, element_multiplicity}
use aedis.Resp3.Parser.{make_node}
use aedis.Resp3.Parser.Trace.{Takes}
use aedis.Resp3.Reply.{Replies, nil, cons, nodes, nodes_all, Fits, FitsAll}
use aedis.Adapter.{value, FromBulk, is_error_or_null, wrapper}
use aedis.Adapter.Containers.{Pairs, insert_pair, assign_second, map_impl}
use aedis.Adapter.Containers.Lookup.{fill_pairs, last_key}
use aedis.Adapter.Choice.{Scalar, Value, bulk_of, map_of, Held, internal_adapt, adapter_of}
use aedis.Adapter.Choice.Expected.{read_scalar, ArePairs}
use aedis.Adapter.Choice.Simple.{bulk-scalar, aggregate_valid, text_of-IsSimple}
use aedis.Adapter.Choice.Aggregates.{step-Takes, node-Takes}

module _ (max_size : ℕ) (s : Scalar) where
  -- Before a key.
  abbrev pub keyed : Pairs (Value s) → Option Bytes → Run (Held (map_of s))
  keyed m c = ok (value m, record { current = c; on_key = true })

  -- Before the value of the key `k`.
  abbrev valued : Pairs (Value s) → Bytes → Run (Held (map_of s))
  valued m k = ok (value m, record { current = some k; on_key = false })

  abbrev pub blank : Value s
  blank = FromBulk.initial (bulk_of s)

  key_taken :
      (m : Pairs (Value s)) (c : Option Bytes) (k : Bytes) (t : RespType)
      → is_error_or_null t ≡ false
      → is_aggregate t ≡ false
      → adapter_of max_size (map_of s) (keyed m c) (make_node t 1 1 k)
        ≡ (valued (insert_pair k blank m) k, none)
  unfolding adapter_of wrapper map_impl
  key_taken m c k t valid simple = rw (valid, simple) refl

  value_taken :
      (m : Pairs (Value s)) (k text : Bytes) (v : Value s) (t : RespType)
      → is_error_or_null t ≡ false
      → is_aggregate t ≡ false
      → read_scalar s text ≡ some v
      → adapter_of max_size (map_of s) (valued m k) (make_node t 1 1 text)
        ≡ (keyed (assign_second k v m) (some k), none)
  unfolding adapter_of wrapper map_impl
  value_taken m k text v t valid simple e =
      rw (valid, simple)
        (ap (λ x. (keyed (assign_second k x.0 m) (some k), x.1)) (bulk-scalar s text v e))

  pairs-Takes :
      (rs : Replies) (ps : List (Bytes × Value s)) (m : Pairs (Value s)) (c : Option Bytes)
      → FitsAll 1 rs
      → ArePairs s rs ps
      → Takes
          (adapter_of max_size (map_of s))
          (keyed m c)
          (nodes_all 1 rs)
          (keyed (fill_pairs blank ps m) (last_key c ps))
  unfolding Fits nodes
  pairs-Takes nil [] m c fits h = refl
  pairs-Takes nil (p ∷ ps) m c fits h = elim h [ ]
  pairs-Takes (cons k nil) ps m c fits h = elim h [ ]
  pairs-Takes (cons k (cons r rs)) [] m c fits h = elim h [ ]
  pairs-Takes (cons k (cons r rs)) ((j, v) ∷ ps) m c (fit_key, (fit, fits))
        (is_key, (text, is_text, e), others) =
      let (t, one, valid, simple) = text_of-IsSimple 1 k j fit_key is_key in
      let (t', one', valid', simple') = text_of-IsSimple 1 r text fit is_text in
      let f = adapter_of max_size (map_of s) in
      let m' = assign_second j v (insert_pair j blank m) in
      node-Takes f (keyed m c) (valued (insert_pair j blank m) j) _ (make_node t 1 1 j) (nodes 1 k)
        (nodes 1 r ++ nodes_all 1 rs) one (key_taken m c j t valid simple)
        (node-Takes f (valued (insert_pair j blank m) j) (keyed m' (some j)) _
          (make_node t' 1 1 text) (nodes 1 r) (nodes_all 1 rs) one'
          (value_taken (insert_pair j blank m) j text v t' valid' simple' e)
          (pairs-Takes rs ps m' (some j) fits others))

  pub map-Takes :
      (t : RespType) (n : ℕ) (rs : Replies) (ps : List (Bytes × Value s))
      → is_aggregate t ≡ true
      → element_multiplicity t ≡ 2
      → FitsAll 1 rs
      → ArePairs s rs ps
      → Takes
          (adapter_of max_size (map_of s))
          (ok (internal_adapt (map_of s)))
          (make_node t n 0 [] ∷ nodes_all 1 rs)
          (keyed (fill_pairs blank ps []) (last_key none ps))
  unfolding adapter_of wrapper map_impl
  map-Takes t n rs ps h two fits are =
      step-Takes (adapter_of max_size (map_of s)) (keyed [] none) (keyed [] none) _
        (make_node t n 0 []) (nodes_all 1 rs) (rw (aggregate_valid t h, h, two) refl)
        (pairs-Takes rs ps [] none fits are)
