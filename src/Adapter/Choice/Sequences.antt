-- ===== src/Adapter/Choice/Sequences.antt =====
-- The adapters of a std::vector, a std::list and a std::set, at the aggregates that they expect.
use mathlib.Core.List.{foldl}
use aedis.Prelude.{
  ◌∙◌, ℕ, ◌+◌, ◌*◌, ◌≤◌, ◌<◌, ◌≡◌, refl, sym, ap, true, false, none, some, List, [], ◌∷◌, ◌++◌,
  append_assoc, append-nil, arith, word, word_mod, le→ltb, subst,
}
use aedis.Prelude.Bytes.{Bytes}
use aedis.Prelude.Run.{Run, ok}
use aedis.Resp3.Types.{RespType, is_aggregate, element_multiplicity}
use aedis.Resp3.Parser.{make_node}
use aedis.Resp3.Parser.Trace.{Takes}
use aedis.Resp3.Reply.{Replies, nodes_all, FitsAll}
use aedis.Adapter.{value, is_error_or_null, vector_impl, list_impl, wrapper}
use aedis.Adapter.Containers.{is_set, insert_key, set_impl}
use aedis.Adapter.Choice.{
  Scalar, string, Value, vector, list, set_of_strings, Held, internal_adapt, adapter_of,
}
use aedis.Adapter.Choice.Expected.{read_scalar, AreScalars}
use aedis.Adapter.Choice.Simple.{bulk-scalar, aggregate_valid}
use aedis.Adapter.Choice.Aggregates.{step-Takes, elements-Takes}

at_end : {V : Type 0} → List V → V → List V
at_end l v = l ++ v ∷ []

at_end_all : {V : Type 0} (l vs : List V) → foldl at_end l vs ≡ l ++ vs
unfolding at_end
at_end_all l [] = sym (append-nil l)
at_end_all l (v ∷ vs) = at_end_all (l ++ v ∷ []) vs ∙ append_assoc l (v ∷ []) vs

module _ (max_size : ℕ) where
  pub vector-Takes :
      (s : Scalar) (t : RespType) (n : ℕ) (rs : Replies) (vs : List (Value s))
      → max_size < word_mod
      → is_aggregate t ≡ true
      → element_multiplicity t * n ≤ max_size
      → FitsAll 1 rs
      → AreScalars s rs vs
      → Takes
          (adapter_of max_size (vector s))
          (ok (internal_adapt (vector s)))
          (make_node t n 0 [] ∷ nodes_all 1 rs)
          (ok (value vs, tt))
  unfolding adapter_of wrapper vector_impl at_end
  vector-Takes s t n rs vs small h le fits are =
      let start : Run (Held (vector s)) = ok (value [], tt) in
      let exact : word (0 + word (element_multiplicity t * n)) ≡ element_multiplicity t * n =
        omega arith in
      step-Takes (adapter_of max_size (vector s)) start start (ok (value vs, tt))
        (make_node t n 0 []) (nodes_all 1 rs)
        (rw (aggregate_valid t h, h, exact, le→ltb max_size (element_multiplicity t * n) le) refl)
        (subst
          (λ l. Takes (adapter_of max_size (vector s)) start (nodes_all 1 rs) (ok (value l, tt)))
          (at_end_all [] vs)
          (elements-Takes s (adapter_of max_size (vector s)) (λ l. ok (value l, tt)) at_end taken rs
            [] vs fits are))
    where
      taken :
          (l : List (Value s)) (text : Bytes) (v : Value s) (t : RespType)
          → is_error_or_null t ≡ false
          → is_aggregate t ≡ false
          → read_scalar s text ≡ some v
          → adapter_of max_size (vector s) (ok (value l, tt)) (make_node t 1 1 text)
            ≡ (ok (value (at_end l v), tt), none)
      taken l text v t valid simple e =
          rw (valid, simple)
            (ap (λ x. (ok (value (l ++ x.0 ∷ []), tt), x.1)) (bulk-scalar s text v e))

  pub list-Takes :
      (s : Scalar) (t : RespType) (n : ℕ) (rs : Replies) (vs : List (Value s))
      → is_aggregate t ≡ true
      → FitsAll 1 rs
      → AreScalars s rs vs
      → Takes
          (adapter_of max_size (list s))
          (ok (internal_adapt (list s)))
          (make_node t n 0 [] ∷ nodes_all 1 rs)
          (ok (value vs, tt))
  unfolding adapter_of wrapper list_impl at_end
  list-Takes s t n rs vs h fits are =
      let start : Run (Held (list s)) = ok (value [], tt) in
      step-Takes (adapter_of max_size (list s)) start start (ok (value vs, tt)) (make_node t n 0 [])
        (nodes_all 1 rs) (rw (aggregate_valid t h, h) refl)
        (subst (λ l. Takes (adapter_of max_size (list s)) start (nodes_all 1 rs) (ok (value l, tt)))
          (at_end_all [] vs)
          (elements-Takes s (adapter_of max_size (list s)) (λ l. ok (value l, tt)) at_end taken rs
            [] vs fits are))
    where
      taken :
          (l : List (Value s)) (text : Bytes) (v : Value s) (t : RespType)
          → is_error_or_null t ≡ false
          → is_aggregate t ≡ false
          → read_scalar s text ≡ some v
          → adapter_of max_size (list s) (ok (value l, tt)) (make_node t 1 1 text)
            ≡ (ok (value (at_end l v), tt), none)
      taken l text v t valid simple e =
          rw (valid, simple)
            (ap (λ x. (ok (value (l ++ x.0 ∷ []), tt), x.1)) (bulk-scalar s text v e))

  pub set-Takes :
      (t : RespType) (n : ℕ) (rs : Replies) (ks : List Bytes)
      → is_aggregate t ≡ true
      → is_set t ≡ true
      → FitsAll 1 rs
      → AreScalars string rs ks
      → Takes
          (adapter_of max_size set_of_strings)
          (ok (internal_adapt set_of_strings))
          (make_node t n 0 [] ∷ nodes_all 1 rs)
          (ok (value (foldl (λ c k. insert_key k c) [] ks), tt))
  unfolding adapter_of wrapper set_impl
  set-Takes t n rs ks h is fits are =
      let start : Run (Held set_of_strings) = ok (value [], tt) in
      step-Takes (adapter_of max_size set_of_strings) start start _ (make_node t n 0 [])
        (nodes_all 1 rs) (rw (aggregate_valid t h, h, is) refl)
        (elements-Takes string (adapter_of max_size set_of_strings) (λ c. ok (value c, tt))
          (λ c k. insert_key k c) taken rs [] ks fits are)
    where
      taken :
          (c : List Bytes) (text k : Bytes) (t : RespType)
          → is_error_or_null t ≡ false
          → is_aggregate t ≡ false
          → read_scalar string text ≡ some k
          → adapter_of max_size set_of_strings (ok (value c, tt)) (make_node t 1 1 text)
            ≡ (ok (value (insert_key k c), tt), none)
      taken c text k t valid simple e =
          rw (valid, simple)
            (ap (λ x. (ok (value (insert_key x.0 c), tt), x.1)) (bulk-scalar string text k e))
