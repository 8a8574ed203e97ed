-- ===== src/Adapter/Choice/Simple.antt =====
-- The adapters of simple types, optional ones and nodes, at the replies that they expect.
use aedis.Prelude.{
  ℕ, ◌≡◌, refl, sym, ap, Bool, true, false, none, some, List, [], ◌∷◌, ◌++◌, append_assoc,
  append-nil, All, if◌then◌else◌, subst,
}
use aedis.Prelude.Bytes.{Bytes, from_chars}
use aedis.Prelude.Run.{ok}
use aedis.Resp3.Types.{
  RespType, simple_string, simple_error, number, doublean, boolean as boolean_type, big_number,
  null, blob_error, verbatim_string, blob_string, array, push, set, map, attribute, is_aggregate,
}
use aedis.Resp3.Node.{Node}
use aedis.Resp3.Parser.{make_node}
use aedis.Resp3.Parser.Trace.{Takes}
use aedis.Resp3.Reply.{Reply, line, blob, stream, aggregate, nodes, Fits, IsLine, IsBlob}
use aedis.Adapter.{
  value, error, from_bulk_unsigned, FromBulk, is_error, is_error_or_null, is_null,
  general_aggregate, general_simple, simple_impl, wrapper, wrapper_optional,
}
use aedis.Adapter.Traits.{ignored as refused}
use aedis.Adapter.Choice.{
  Scalar, string, unsigned, boolean, Value, bulk_of, scalar, optional, generic, single, ignored,
  internal_adapt, adapter_of,
}
use aedis.Adapter.Choice.Expected.{text_of, read_scalar}

pub bulk-scalar :
    (s : Scalar) (text : Bytes) (v : Value s)
    → read_scalar s text ≡ some v
    → FromBulk.from_bulk (bulk_of s) (FromBulk.initial (bulk_of s)) text ≡ (v, none)
bulk-scalar string text v e = cc
bulk-scalar unsigned text v e =
    let read : from_chars text ≡ some v = e in rw (read, from_bulk_unsigned) refl
bulk-scalar boolean text v e = cc

line_simple : (t : RespType) (s : Bytes) → IsLine t s → is_aggregate t ≡ false
unfolding is_aggregate
line_simple simple_string s h = refl
line_simple simple_error s h = refl
line_simple number s h = refl
line_simple doublean s h = refl
line_simple boolean_type s h = refl
line_simple big_number s h = refl
line_simple null s h = refl
line_simple _ s h = elim h [ ]

blob_simple : (t : RespType) → IsBlob t → is_aggregate t ≡ false
unfolding is_aggregate
blob_simple blob_string h = refl
blob_simple blob_error h = refl
blob_simple verbatim_string h = refl
blob_simple _ h = elim h [ ]

pub aggregate_valid : (t : RespType) → is_aggregate t ≡ true → is_error_or_null t ≡ false
unfolding is_aggregate
aggregate_valid array h = refl
aggregate_valid push h = refl
aggregate_valid set h = refl
aggregate_valid map h = refl
aggregate_valid attribute h = refl
aggregate_valid _ h = absurd (cc)

-- Such a reply is one node.
abbrev pub IsSimple : ℕ → Bytes → List Node → Type 0
IsSimple d text ns =
    (t : RespType) × (ns ≡ make_node t 1 d text ∷ [])
    × (is_error_or_null t ≡ false)
    × (is_aggregate t ≡ false)

plain :
    (b : Bool) (s text : Bytes)
    → (if b then none else some s) ≡ some text
    → (b ≡ false) × (s ≡ text)
plain true s text e = absurd (cc)
plain false s text e = (refl, cc)

pub text_of-IsSimple :
    (d : ℕ) (r : Reply) (text : Bytes)
    → Fits d r
    → text_of r ≡ some text
    → IsSimple d text (nodes d r)
unfolding Fits nodes
text_of-IsSimple d (line t s) text (h, _) e =
    let (valid, same) = plain (is_error_or_null t) s text e in
    (t, ap (λ x. make_node t 1 d x ∷ []) same, valid, line_simple t s h)
text_of-IsSimple d (blob t s) text h e =
    let (valid, same) = plain (is_error_or_null t) s text e in
    (t, ap (λ x. make_node t 1 d x ∷ []) same, valid, blob_simple t h)
text_of-IsSimple d (stream t ss) text h e = absurd (cc)
text_of-IsSimple d (aggregate t n rs) text h e = absurd (cc)

not_null : (t : RespType) → is_error_or_null t ≡ false → (is_error t ≡ false) × (is_null t ≡ false)
not_null null e = absurd (cc)
not_null simple_error e = absurd (cc)
not_null blob_error e = absurd (cc)
not_null _ e = (refl, refl)

module _ (max_size : ℕ) where
  pub scalar-Takes :
      (s : Scalar) (ns : List Node) (text : Bytes) (v : Value s)
      → IsSimple 0 text ns
      → read_scalar s text ≡ some v
      → Takes
          (adapter_of max_size (scalar s))
          (ok (internal_adapt (scalar s)))
          ns
          (ok (value v, tt))
  unfolding adapter_of wrapper simple_impl
  scalar-Takes s ns text v (t, one, valid, simple) e =
      rw (one, valid, simple, bulk-scalar s text v e) (refl, refl)

  pub optional-Takes :
      (s : Scalar) (ns : List Node) (text : Bytes) (v : Value s)
      → IsSimple 0 text ns
      → read_scalar s text ≡ some v
      → Takes
          (adapter_of max_size (optional s))
          (ok (internal_adapt (optional s)))
          ns
          (ok (value (some v), tt))
  unfolding adapter_of wrapper_optional simple_impl
  optional-Takes s ns text v (t, one, valid, simple) e =
      let (no_error, some_value) = not_null t valid in
      rw (one, no_error, some_value, simple, bulk-scalar s text v e) (refl, refl)

  pub generic-Takes :
      (ns acc : List Node)
      → All (λ nd. is_error nd.data_type ≡ false) ns
      → Takes (adapter_of max_size generic) (ok (value acc)) ns (ok (value (acc ++ ns)))
  unfolding adapter_of general_aggregate
  generic-Takes [] acc h = ap (λ x. ok (value x)) (sym (append-nil acc))
  generic-Takes (nd ∷ ns) acc (valid, h) =
      rw valid (refl, rw (← append_assoc acc (nd ∷ []) ns) (generic-Takes ns (acc ++ nd ∷ []) h))

  pub ignored-Takes :
      (ns : List Node)
      → All (λ nd. refused nd.data_type ≡ none) ns
      → Takes (adapter_of max_size ignored) (ok tt) ns (ok tt)
  unfolding adapter_of
  ignored-Takes [] h = refl
  ignored-Takes (nd ∷ ns) (valid, h) = (valid, ignored-Takes ns h)

  pub single-Takes :
      (ns : List Node) (nd : Node)
      → ns ≡ nd ∷ []
      → is_error nd.data_type ≡ false
      → Takes (adapter_of max_size single) (ok (internal_adapt single)) ns (ok (value nd))
  unfolding adapter_of general_simple
  single-Takes ns nd e valid =
      subst (λ x. Takes (adapter_of max_size single) (ok (internal_adapt single)) x (ok (value nd)))
        (sym e) (refl, ap (λ b. ok (if b then error nd.data_type nd.value else value nd)) valid)

  pub null-Takes :
      (s : Scalar) (r : Reply)
      → r ≡ line null []
      → Takes
          (adapter_of max_size (optional s))
          (ok (internal_adapt (optional s)))
          (nodes 0 r)
          (ok (value none, tt))
  unfolding adapter_of wrapper_optional nodes
  null-Takes s r e =
      subst
        (λ x.
          Takes (adapter_of max_size (optional s)) (ok (internal_adapt (optional s))) (nodes 0 x)
            (ok (value none, tt)))
        (sym e) (refl, refl)
