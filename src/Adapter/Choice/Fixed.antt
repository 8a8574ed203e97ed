-- ===== src/Adapter/Choice/Fixed.antt =====
-- The adapter of a std::array, at the aggregates that it expects.
use aedis.Prelude.{
  ◌∙◌, length-append, length-replicate, replicate, not, ◌==◌, set-middle, ℕ, suc, length, ◌*◌, ◌<◌,
  ◌≡◌, refl, sym, ap, true, false, none, some, List, [], ◌∷◌, ◌++◌, append_assoc, append-nil, arith,
  word, word_mod, subst,
}
use aedis.Prelude.Bytes.{Bytes}
use aedis.Prelude.Run.{Run, ok, at-append}
use aedis.Resp3.Types.{RespType, is_aggregate, element_multiplicity}
use aedis.Resp3.Parser.{make_node}
use aedis.Resp3.Parser.Trace.{Takes}
use aedis.Resp3.Reply.{Replies, nil, cons, nodes, nodes_all, count, Fits, FitsAll}
use aedis.Adapter.{value, FromBulk, is_error_or_null, array_impl, wrapper}
use aedis.Adapter.Choice.{Scalar, Value, bulk_of, array_of, Held, internal_adapt, adapter_of}
use aedis.Adapter.Choice.Expected.{read_scalar, AreScalars}
use aedis.Adapter.Choice.Simple.{bulk-scalar, aggregate_valid, text_of-IsSimple}
use aedis.Adapter.Choice.Aggregates.{step-Takes, node-Takes}

count-AreScalars :
    (s : Scalar) (rs : Replies) (vs : List (Value s)) → AreScalars s rs vs → count rs ≡ length vs
unfolding count
count-AreScalars s nil [] h = refl
count-AreScalars s nil (v ∷ vs) h = elim h [ ]
count-AreScalars s (cons r rs) [] h = elim h [ ]
count-AreScalars s (cons r rs) (v ∷ vs) (_, h) = ap suc (count-AreScalars s rs vs h)

module _ (max_size : ℕ) (size : ℕ) (s : Scalar) where
  abbrev blank : Value s
  blank = FromBulk.initial (bulk_of s)

  -- The first elements are set, and those behind them are as `Result{}` makes them.
  abbrev filled : List (Value s) → ℕ → Run (Held (array_of size s))
  filled ws left = ok (value (ws ++ replicate left blank), suc (length ws))

  taken :
      (ws : List (Value s)) (left : ℕ) (text : Bytes) (v : Value s) (t : RespType)
      → is_error_or_null t ≡ false
      → is_aggregate t ≡ false
      → read_scalar s text ≡ some v
      → adapter_of max_size (array_of size s) (filled ws (suc left)) (make_node t 1 1 text)
        ≡ (filled (ws ++ v ∷ []) left, none)
  unfolding adapter_of wrapper array_impl
  taken ws left text v t valid simple e =
      let longer : length (ws ++ v ∷ []) ≡ suc (length ws) =
        omega (arith, length-append ws (v ∷ [])) in
      rw
        (
          valid,
          simple,
          at-append ws blank (replicate left blank),
          bulk-scalar s text v e,
          set-middle ws v blank (replicate left blank),
          longer,
          append_assoc ws (v ∷ []) (replicate left blank),
        )
        refl

  rest-Takes :
      (rs : Replies) (ws vs : List (Value s))
      → FitsAll 1 rs
      → AreScalars s rs vs
      → Takes
          (adapter_of max_size (array_of size s))
          (filled ws (length vs))
          (nodes_all 1 rs)
          (ok (value (ws ++ vs), suc (length (ws ++ vs))))
  unfolding Fits nodes
  rest-Takes nil ws [] fits h = rw (append-nil ws) refl
  rest-Takes nil ws (v ∷ vs) fits h = elim h [ ]
  rest-Takes (cons r rs) ws [] fits h = elim h [ ]
  rest-Takes (cons r rs) ws (v ∷ vs) (fit, fits) ((text, is_text, e), others) =
      let (t, one, valid, simple) = text_of-IsSimple 1 r text fit is_text in
      node-Takes (adapter_of max_size (array_of size s)) (filled ws (suc (length vs)))
        (filled (ws ++ v ∷ []) (length vs)) _ (make_node t 1 1 text) (nodes 1 r) (nodes_all 1 rs)
        one (taken ws (length vs) text v t valid simple e)
        (rw (← append_assoc ws (v ∷ []) vs) (rest-Takes rs (ws ++ v ∷ []) vs fits others))

  header_taken :
      (t : RespType) (n : ℕ)
      → is_aggregate t ≡ true
      → n * element_multiplicity t ≡ size
      → size < word_mod
      → adapter_of max_size
          (array_of size s)
          (ok (internal_adapt (array_of size s)))
          (make_node t n 0 [])
        ≡ (filled [] size, none)
  unfolding adapter_of wrapper array_impl
  header_taken t n h all small =
      let fits : not (length (replicate size blank) == word (n * element_multiplicity t)) ≡ false =
        ground (arith, length-replicate size blank, all) in
      rw (aggregate_valid t h, h, fits) refl

  pub array-Takes :
      (t : RespType) (n : ℕ) (rs : Replies) (vs : List (Value s))
      → is_aggregate t ≡ true
      → count rs ≡ n * element_multiplicity t
      → length vs ≡ size
      → size < word_mod
      → FitsAll 1 rs
      → AreScalars s rs vs
      → Takes
          (adapter_of max_size (array_of size s))
          (ok (internal_adapt (array_of size s)))
          (make_node t n 0 [] ∷ nodes_all 1 rs)
          (ok (value vs, suc size))
  array-Takes t n rs vs h announced all small fits are =
      let total : n * element_multiplicity t ≡ size =
        sym announced ∙ count-AreScalars s rs vs are ∙ all in
      step-Takes (adapter_of max_size (array_of size s)) (ok (internal_adapt (array_of size s)))
        (filled [] size) _ (make_node t n 0 []) (nodes_all 1 rs) (header_taken t n h total small)
        (subst
          (λ k.
            Takes (adapter_of max_size (array_of size s)) (filled [] k) (nodes_all 1 rs)
              (ok (value vs, suc k)))
          all (rest-Takes rs [] vs fits are))
