-- ===== src/Adapter/Tuple/Groups.antt =====
-- How an aggregate's elements reach the adapters of a tuple.
use aedis.Prelude.{
  ℕ, suc, ◌+◌, ◌*◌, ◌⊎◌, ◌≤◌, ◌<◌, ◌≡◌, refl, ap, ◌∙◌, true, false, not, Option, none, List, [],
  ◌∷◌, ◌++◌, cons-ne-nil, append_assoc, arith, ◌==◌, length, length-append, get_elem?-middle,
  set-middle, sub_word, word, word_mod, All, inl, inr,
}
use aedis.Prelude.Run.{Run, ok, Fault, crash, index, Run-cases}
use aedis.Error.{Error}
use aedis.Resp3.Types.{is_aggregate, element_multiplicity}
use aedis.Resp3.Node.{Node}
use aedis.Resp3.Parser.Trace.{Takes}
use aedis.Adapter.Replies.{Takes-append}
use aedis.Adapter.Tuple.{TupleAdapter, make_tuple_adapter, tuple_adapter, count_node}

-- Below the elements of the aggregate.
abbrev pub IsInside : Node → Type 0
IsInside nd = 2 ≤ nd.depth

-- An element of the aggregate: a simple one, or an aggregate with as many nodes as it announces,
-- one at least.
abbrev pub IsElement : List Node → Type 0
IsElement [] = ⊥
IsElement (nd ∷ ns) =
    (nd.depth ≡ 1)
    × (((is_aggregate nd.data_type ≡ false) × (ns ≡ []))
        ⊎ ((is_aggregate nd.data_type ≡ true)
            × (word (element_multiplicity nd.data_type * nd.aggregate_size) ≡ length ns)
            × (0 < length ns)
            × All IsInside ns))

abbrev pub concat : List (List Node) → List Node
concat [] = []
concat (g ∷ gs) = g ++ concat gs

Takes-cons :
    {A : Type 0} (adapter : A → Node → A × Option Error) (a b c : A) (nd : Node) (ns : List Node)
    → adapter a nd ≡ (b, none)
    → Takes adapter b ns c
    → Takes adapter a (nd ∷ ns) c
Takes-cons adapter a b c nd ns e t = rw e (refl, t)

module _ {E : Type 0} (visit : E → Node → Run E × Option Error) where
  abbrev pub visits : Run E → Node → Run E × Option Error
  visits (crash f) nd = (crash f, none)
  visits (ok e) nd = visit e nd

  -- The adapters take one element each.
  abbrev pub TakesEach : List E → List (List Node) → List E → Type 0
  TakesEach [] [] [] = Unit
  TakesEach (e ∷ es) (g ∷ gs) (e' ∷ es') =
      IsElement g × Takes visits (ok e) g (ok e') × TakesEach es gs es'
  TakesEach _ _ _ = ⊥

  abbrev at_element : List E → E → List E → ℕ → TupleAdapter E
  at_element before e after n = record {
    i = length before;
    aggregate_size = n;
    adapters = before ++ e ∷ after;
  }

  visit_middle :
      (before after : List E) (e e' : E) (n : ℕ) (nd : Node)
      → (nd.depth == 0) ≡ false
      → visit e nd ≡ (ok e', none)
      → tuple_adapter visit (ok (at_element before e after n)) nd
        ≡ (ok (count_node (at_element before e' after n) nd), none)
  unfolding tuple_adapter
  visit_middle before after e e' n nd deep v =
      rw (deep, get_elem?-middle before e after, index)
        (rw v (rw (set-middle before e' e after) refl))

  no_return : (f : Fault) (ns : List Node) (e : E) → Takes visits (crash f) ns (ok e) → ⊥
  no_return f [] e t = cc
  no_return f (nd ∷ ns) e t = no_return f ns e t.1

  -- The first node of those that an adapter takes.
  first_taken :
      (e e' : E) (nd : Node) (ns : List Node)
      → Takes visits (ok e) (nd ∷ ns) (ok e')
      → (m : E) × (visit e nd ≡ (ok m, none)) × Takes visits (ok m) ns (ok e')
  first_taken e e' nd ns (accepted, t) = elim (Run-cases (visit e nd).0) [
    | inl (m, q) ↦ (m, ap (λ x. (x, (visit e nd).1)) q ∙ ap (λ x. (ok m, x)) accepted, rw q at t)
    | inr (f, q) ↦ absurd (no_return f ns e' (rw q at t))
  ]

  abbrev passed : List E → E → List E → TupleAdapter E
  passed before e after = record {
    i = suc (length before);
    aggregate_size = 0;
    adapters = before ++ e ∷ after;
  }

  count_last :
      (before after : List E) (e : E) (nd : Node)
      → IsInside nd
      → suc (length before) < word_mod
      → count_node (at_element before e after 1) nd ≡ passed before e after
  unfolding count_node
  count_last before after e nd h b =
      let d : (nd.depth == 1) ≡ false = ground arith in
      let next : word (length before + 1) ≡ suc (length before) = omega arith in rw d (rw next refl)

  count_inside :
      (before after : List E) (e : E) (n : ℕ) (nd : Node)
      → IsInside nd
      → suc (suc n) < word_mod
      → count_node (at_element before e after (suc (suc n))) nd ≡ at_element before e after (suc n)
  unfolding count_node
  count_inside before after e n nd h b =
      let d : (nd.depth == 1) ≡ false = ground arith in
      let next : sub_word (suc (suc n)) 1 ≡ suc n = omega arith in
      let more : (suc n == 0) ≡ false = ground arith in rw d (rw next (rw more refl))

  inside-Takes :
      (before after : List E) (e e' : E) (nd : Node) (ns : List Node)
      → suc (length before) < word_mod
      → suc (length ns) < word_mod
      → All IsInside (nd ∷ ns)
      → Takes visits (ok e) (nd ∷ ns) (ok e')
      → Takes
          (tuple_adapter visit)
          (ok (at_element before e after (suc (length ns))))
          (nd ∷ ns)
          (ok (passed before e' after))
  inside-Takes before after e e' nd [] b c (h, hs) t =
      let (m, v, last) = first_taken e e' nd [] t in
      let deep : (nd.depth == 0) ≡ false = ground arith in
      let counted : count_node (at_element before m after 1) nd ≡ passed before m after =
        count_last before after m nd h b in
      Takes-cons (tuple_adapter visit) _ _ _ nd [] (visit_middle before after e m 1 nd deep v)
        (let same : m ≡ e' = cc in rw counted (ap (λ y. ok (passed before y after)) same))
  inside-Takes before after e e' nd (x ∷ ns) b c (h, hs) t =
      let (m, v, later) = first_taken e e' nd (x ∷ ns) t in
      let deep : (nd.depth == 0) ≡ false = ground arith in
      let n = length ns in
      let counted = count_inside before after m n nd h c in
      Takes-cons (tuple_adapter visit) _ _ _ nd (x ∷ ns)
        (visit_middle before after e m (suc (suc n)) nd deep v)
        (rw counted (inside-Takes before after m e' x ns b (omega arith) hs later))

  count_simple :
      (before after : List E) (e : E) (nd : Node)
      → nd.depth ≡ 1
      → is_aggregate nd.data_type ≡ false
      → suc (length before) < word_mod
      → count_node (at_element before e after 0) nd ≡ passed before e after
  unfolding count_node
  count_simple before after e nd d simple b =
      let d' : (nd.depth == 1) ≡ true = ground arith in
      let next : word (length before + 1) ≡ suc (length before) = omega arith in
      rw (d', simple) (rw next refl)

  count_aggregate :
      (before after : List E) (e : E) (nd : Node) (n : ℕ)
      → nd.depth ≡ 1
      → is_aggregate nd.data_type ≡ true
      → word (element_multiplicity nd.data_type * nd.aggregate_size) ≡ n
      → count_node (at_element before e after 0) nd ≡ at_element before e after n
  unfolding count_node
  count_aggregate before after e nd n d aggregate size =
      let d' : (nd.depth == 1) ≡ true = ground arith in rw (d', aggregate) (rw size refl)

  element-Takes :
      (before after : List E) (e e' : E) (g : List Node)
      → suc (length before) < word_mod
      → IsElement g
      → Takes visits (ok e) g (ok e')
      → Takes
          (tuple_adapter visit)
          (ok (at_element before e after 0))
          g
          (ok (passed before e' after))
  element-Takes before after e e' [] b h t = absurd h
  element-Takes before after e e' (nd ∷ []) b (d, inl (simple, q)) t =
      let (m, v, last) = first_taken e e' nd [] t in
      let deep : (nd.depth == 0) ≡ false = ground arith in
      let counted = count_simple before after m nd d simple b in
      Takes-cons (tuple_adapter visit) _ _ _ nd [] (visit_middle before after e m 0 nd deep v)
        (let same : m ≡ e' = cc in rw counted (ap (λ y. ok (passed before y after)) same))
  element-Takes before after e e' (nd ∷ x ∷ ns) b (d, inl (simple, q)) t =
      absurd (cons-ne-nil x ns q)
  element-Takes before after e e' (nd ∷ []) b (d, inr (aggregate, size, some, inside)) t =
      absurd (omega (arith, some))
  element-Takes before after e e' (nd ∷ x ∷ ns) b (d, inr (aggregate, size, some, inside)) t =
      let (m, v, later) = first_taken e e' nd (x ∷ ns) t in
      let deep : (nd.depth == 0) ≡ false = ground arith in
      let counted = count_aggregate before after m nd (suc (length ns)) d aggregate size in
      Takes-cons (tuple_adapter visit) _ _ _ nd (x ∷ ns) (visit_middle before after e m 0 nd deep v)
        (rw counted (inside-Takes before after m e' x ns b (omega (arith, size)) inside later))

  all-Takes :
      (before es : List E) (gs : List (List Node)) (es' : List E)
      → length before + length es < word_mod
      → TakesEach es gs es'
      → Takes
          (tuple_adapter visit)
          (ok (record { i = length before; aggregate_size = 0; adapters = before ++ es }))
          (concat gs)
          (ok (record {
            i = length before + length es;
            aggregate_size = 0;
            adapters = before ++ es';
          }))
  all-Takes before [] [] [] b t =
      let q : length before + 0 ≡ length before = omega arith in rw q refl
  all-Takes before (e ∷ es) (g ∷ gs) (e' ∷ es') b (h, t, ts) =
      let first = element-Takes before es e e' g (omega arith) h t in
      let size : length (before ++ e' ∷ []) ≡ suc (length before) =
        omega (arith, length-append before (e' ∷ [])) in
      let total : suc (length before) + length es ≡ length before + suc (length es) = omega arith in
      let rest = all-Takes (before ++ e' ∷ []) es gs es' (omega (arith, size)) ts in
      Takes-append (tuple_adapter visit) _ _ _ g (concat gs) first (
        rw
          (← total, ← size, ← append_assoc before (e' ∷ []) es, ← append_assoc before (e' ∷ []) es')
          rest)
  all-Takes before [] (g ∷ gs) es' b t = absurd t
  all-Takes before [] [] (e' ∷ es') b t = absurd t
  all-Takes before (e ∷ es) [] es' b t = absurd t
  all-Takes before (e ∷ es) (g ∷ gs) [] b t = absurd t

  -- The reply is an aggregate with as many elements as the tuple, each of them simple or an aggregate
  -- with as many nodes below it as it announces and with one at least, and the adapter of each
  -- element of the tuple, on its own, takes the nodes of its element without an error: then the
  -- whole adapter, from its initial state, takes the reply without an error, and leaves each element
  -- as its own adapter does.
  pub tuple_adapter-Takes :
      (header : Node) (es : List E) (gs : List (List Node)) (es' : List E)
      → header.depth ≡ 0
      → word (header.aggregate_size * element_multiplicity header.data_type) ≡ length es
      → TakesEach es gs es'
      → Takes
          (tuple_adapter visit)
          (ok (make_tuple_adapter es))
          (header ∷ concat gs)
          (ok (record { i = length es; aggregate_size = 0; adapters = es' }))
  unfolding tuple_adapter
  tuple_adapter-Takes header es gs es' d size t =
      let root : (header.depth == 0) ≡ true = ground arith in
      let fits : not (length es == length es) ≡ false = ground arith in
      let whole = all-Takes [] es gs es' (omega (arith, size)) t in
      let total : 0 + length es ≡ length es = omega arith in
      rw root (rw size (rw fits (refl, rw total at whole)))
