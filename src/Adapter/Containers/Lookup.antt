-- ===== src/Adapter/Containers/Lookup.antt =====
-- A std::map filled by a reply, against the values that its keys have in the reply.
use aedis.Prelude.{
  ℕ, ◌≡◌, refl, ap, ◌∙◌, true, false, Option, none, some, List, [], ◌∷◌, ◌==◌, if◌then◌else◌,
  Bool-cases, inl, inr, arith,
}
use aedis.Prelude.Bytes.{Bytes, bytes_eq}
use aedis.Prelude.Run.{ok}
use aedis.Resp3.Types.{map as map_type, is_aggregate, element_multiplicity}
use aedis.Resp3.Node.{Node}
use aedis.Resp3.Parser.{make_node}
use aedis.Resp3.Parser.Trace.{Takes}
use aedis.Resp3.Serialization.Command.{element}
use aedis.Adapter.{value, string_bulk, wrapper}
use aedis.Adapter.Containers.{Pairs, insert_pair, assign_second, map_start, map_impl}

-- `find`
abbrev pub lookup : {M : Type 0} → Bytes → Pairs M → Option M
lookup k [] = none
lookup k ((j, v) ∷ m) = let rest = lookup k m in if bytes_eq k j then some v else rest

-- What the last pair with the key says, or else `d`.
abbrev pub last_value : {M : Type 0} → Bytes → Option M → List (Bytes × M) → Option M
last_value k d [] = d
last_value k d ((j, v) ∷ ps) = last_value k (if bytes_eq k j then some v else d) ps

bytes_eq-IsEqual : (s t : Bytes) → bytes_eq s t ≡ true → s ≡ t
unfolding bytes_eq
bytes_eq-IsEqual [] [] h = refl
bytes_eq-IsEqual [] (d ∷ t) h = cc
bytes_eq-IsEqual (c ∷ s) [] h = cc
bytes_eq-IsEqual (c ∷ s) (d ∷ t) h = elim (Bool-cases (c == d)) [
  | inl e ↦
      let q : c ≡ d = ground arith in let r = bytes_eq-IsEqual s t (rw e at h) in rw (q, r) refl
  | inr e ↦ absurd (let f : false ≡ true = rw e at h in cc)
]

bytes_eq_refl : (s : Bytes) → bytes_eq s s ≡ true
unfolding bytes_eq
bytes_eq_refl [] = refl
bytes_eq_refl (c ∷ s) = let e : (c == c) ≡ true = ground arith in rw e (bytes_eq_refl s)

module _ {M : Type 0} where
  assigned :
      (k j : Bytes) (w v : M) (m : Pairs M)
      → lookup j (assign_second k v (insert_pair k w m))
        ≡ (if bytes_eq j k then some v else lookup j m)
  unfolding assign_second insert_pair
  assigned k j w v [] = rw (bytes_eq_refl k) refl
  assigned k j w v ((i, x) ∷ m) = elim (Bool-cases (bytes_eq k i)) [
    | inl e ↦ rw (e) (
        rw (e, assign_second)
          (let q = bytes_eq-IsEqual k i e in
            rw q (elim (Bool-cases (bytes_eq j i)) [ inl f ↦ rw f refl | inr f ↦ rw f refl ])))
    | inr e ↦ rw (e) (
        rw (e, assign_second)
          (rw (assigned k j w v m) (elim (Bool-cases (bytes_eq j k)) [
            | inl f ↦
                let q = bytes_eq-IsEqual j k f in
                let g : bytes_eq j i ≡ false = rw q e in rw (f, g) refl
            | inr f ↦ rw f refl
          ])))
  ]

-- The nodes of the pairs, a key in front of its value.
abbrev pub pair_nodes : List (Bytes × Bytes) → List Node
pair_nodes [] = []
pair_nodes ((k, v) ∷ ps) = element k ∷ element v ∷ pair_nodes ps

-- Each pair is inserted with the value `w`, and assigned its own.
abbrev pub fill_pairs : {M : Type 0} → M → List (Bytes × M) → Pairs M → Pairs M
fill_pairs w [] m = m
fill_pairs w ((k, v) ∷ ps) m = fill_pairs w ps (assign_second k v (insert_pair k w m))

-- The key that the state ends at.
abbrev pub last_key : {M : Type 0} → Option Bytes → List (Bytes × M) → Option Bytes
last_key c [] = c
last_key c ((k, v) ∷ ps) = last_key (some k) ps

pub fill_pairs-last_value :
    {M : Type 0} (w : M) (ps : List (Bytes × M)) (m : Pairs M) (j : Bytes)
    → lookup j (fill_pairs w ps m) ≡ last_value j (lookup j m) ps
fill_pairs-last_value w [] m j = refl
fill_pairs-last_value w ((k, v) ∷ ps) m j =
    fill_pairs-last_value w ps (assign_second k v (insert_pair k w m)) j
    ∙ ap (λ d. last_value j d ps) (assigned k j w v m)

pairs-Takes :
    (ps : List (Bytes × Bytes)) (m : Pairs Bytes) (c : Option Bytes)
    → Takes
        (wrapper map_impl)
        (ok (value m, record { current = c; on_key = true }))
        (pair_nodes ps)
        (ok (value (fill_pairs [] ps m), record { current = last_key c ps; on_key = true }))
unfolding wrapper map_impl is_aggregate
pairs-Takes [] m c = refl
pairs-Takes ((k, v) ∷ ps) m c =
    (refl, (refl, pairs-Takes ps (assign_second k v (insert_pair k [] m)) (some k)))

-- A `result<std::map<std::string, std::string>>` takes a reply that is a map of bulk strings, of any
-- announced size, without an error, and each key has in it the value of the last pair with that key, or
-- none where no pair has it.
pub map-Takes :
    (n : ℕ) (ps : List (Bytes × Bytes))
    → (m : Pairs Bytes) × Takes
        (wrapper map_impl)
        (ok (value [], map_start))
        (make_node map_type n 0 [] ∷ pair_nodes ps)
        (ok (value m, record { current = last_key none ps; on_key = true }))
      × ((k : Bytes) → lookup k m ≡ last_value k none ps)
unfolding wrapper map_impl is_aggregate element_multiplicity
map-Takes n ps =
    (fill_pairs [] ps [], (refl, pairs-Takes ps [] none), fill_pairs-last_value [] ps [])
