-- ===== src/Adapter/Choice/Expected.antt =====
-- What the types of the elements of a response expect of the replies, and make of them.
use mathlib.Core.List.{foldl}
use aedis.Prelude.{
  ℕ, suc, length, ◌*◌, ◌≤◌, ◌<◌, ◌≡◌, ◌⊎◌, true, false, Option, none, some, List, [], ◌∷◌, All,
  word_mod, if◌then◌else◌,
}
use aedis.Prelude.Bytes.{Bytes, from_chars}
use aedis.Resp3.Types.{null, element_multiplicity}
use aedis.Resp3.Node.{Node}
use aedis.Resp3.Reply.{Reply, Replies, line, blob, aggregate, nil, cons, nodes}
use aedis.Adapter.{value, starts_with_t, FromBulk, is_error, is_error_or_null}
use aedis.Adapter.Containers.{is_set, insert_key}
use aedis.Adapter.Containers.Lookup.{fill_pairs, last_key}
use aedis.Adapter.Traits.{ignored as refused}
use aedis.Adapter.Choice.{
  Scalar, string, unsigned, boolean, Value, bulk_of, ElementType, scalar, optional, vector, list,
  array_of, set_of_strings, map_of, generic, single, ignored, Held,
}

-- The text of a reply that is one line or one blob, and no error or null.
abbrev pub text_of : Reply → Option Bytes
text_of (line t s) = if is_error_or_null t then none else some s
text_of (blob t s) = if is_error_or_null t then none else some s
text_of _ = none

abbrev pub read_scalar : (s : Scalar) → Bytes → Option (Value s)
read_scalar string text = some text
read_scalar unsigned text = from_chars text
read_scalar boolean text = some (starts_with_t text)

-- The reply is the value of a simple type.
abbrev pub IsScalar : (s : Scalar) → Reply → Value s → Type 0
IsScalar s r v = (text : Bytes) × (text_of r ≡ some text) × (read_scalar s text ≡ some v)

abbrev pub AreScalars : (s : Scalar) → Replies → List (Value s) → Type 0
AreScalars s nil [] = Unit
AreScalars s nil (v ∷ vs) = ⊥
AreScalars s (cons r rs) [] = ⊥
AreScalars s (cons r rs) (v ∷ vs) = IsScalar s r v × AreScalars s rs vs

-- A key in front of its value.
abbrev pub ArePairs : (s : Scalar) → Replies → List (Bytes × Value s) → Type 0
ArePairs s nil [] = Unit
ArePairs s nil (p ∷ ps) = ⊥
ArePairs s (cons k nil) ps = ⊥
ArePairs s (cons k (cons r rs)) [] = ⊥
ArePairs s (cons k (cons r rs)) ((j, v) ∷ ps) =
    (text_of k ≡ some j) × IsScalar s r v × ArePairs s rs ps

-- The reply to a command is what the type of its element expects, and the object is its value.
abbrev pub Decodes : ℕ → (t : ElementType) → Reply → Held t → Type 0
Decodes max_size (scalar s) r h = (v : Value s) × (h ≡ (value v, tt)) × IsScalar s r v
Decodes max_size (optional s) r h =
    ((r ≡ line null []) × (h ≡ (value none, tt)))
    ⊎ ((v : Value s) × (h ≡ (value (some v), tt)) × IsScalar s r v)
Decodes max_size (vector s) (aggregate t n rs) h =
    (vs : List (Value s)) × (h ≡ (value vs, tt))
    × AreScalars s rs vs
    × (element_multiplicity t * n ≤ max_size)
Decodes max_size (vector s) _ h = ⊥
Decodes max_size (list s) (aggregate t n rs) h =
    (vs : List (Value s)) × (h ≡ (value vs, tt)) × AreScalars s rs vs
Decodes max_size (list s) _ h = ⊥
Decodes max_size (array_of size s) (aggregate t n rs) h =
    (vs : List (Value s)) × (h ≡ (value vs, suc size))
    × AreScalars s rs vs
    × (length vs ≡ size)
    × (size < word_mod)
Decodes max_size (array_of size s) _ h = ⊥
Decodes max_size set_of_strings (aggregate t n rs) h =
    (ks : List Bytes) × (h ≡ (value (foldl (λ s k. insert_key k s) [] ks), tt))
    × AreScalars string rs ks
    × (is_set t ≡ true)
Decodes max_size set_of_strings _ h = ⊥
Decodes max_size (map_of s) (aggregate t n rs) h =
    (ps : List (Bytes × Value s)) × (h ≡ (
      value (fill_pairs (FromBulk.initial (bulk_of s)) ps []),
      record { current = last_key none ps; on_key = true },
    ))
    × ArePairs s rs ps
    × (element_multiplicity t ≡ 2)
Decodes max_size (map_of s) _ h = ⊥
Decodes max_size generic r h =
    (h ≡ value (nodes 0 r)) × All (λ nd. is_error nd.data_type ≡ false) (nodes 0 r)
Decodes max_size single r h =
    (nd : Node) × (nodes 0 r ≡ nd ∷ []) × (is_error nd.data_type ≡ false) × (h ≡ value nd)
Decodes max_size ignored r h = All (λ nd. refused nd.data_type ≡ none) (nodes 0 r)
