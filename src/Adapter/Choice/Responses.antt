-- ===== src/Adapter/Choice/Responses.antt =====
-- A `response<Ts...>` behind the replies to all commands of a request.
use aedis.Prelude.{ℕ, ◌≡◌, false, ◌++◌, none, List, [], ◌∷◌, All}
use aedis.Prelude.Run.{Run, ok}
use aedis.Resp3.Node.{Node}
use aedis.Resp3.Reply.{Reply, nodes, Fits}
use aedis.Adapter.{value, is_error}
use aedis.Adapter.Traits.{ignored as refused}
use aedis.Adapter.Filled
use aedis.Adapter.Filled.{Element}
use aedis.Adapter.Choice.{
  ElementType, ignored, Held, internal_adapt, Adapter, visit_adapter, ResponseType, ignore_response,
  generic_response, response, Object,
}
use aedis.Adapter.Choice.Expected.{Decodes}

abbrev pub all_nodes : List Reply → List Node
all_nodes [] = []
all_nodes (r ∷ rs) = nodes 0 r ++ all_nodes rs

-- A command's element in the response: its type, the reply, and the object behind it.
pub record Command : Type 0 where
  pub type : ElementType
  pub reply : Reply
  pub object : Held type

abbrev pub types : List Command → List ElementType
types [] = []
types (x ∷ xs) = x.type ∷ types xs

abbrev pub replies : List Command → List Reply
replies [] = []
replies (x ∷ xs) = x.reply ∷ replies xs

abbrev pub objects : List Command → List Adapter
objects [] = []
objects (x ∷ xs) = (x.type, x.object) ∷ objects xs

abbrev pub IsDecoded : ℕ → Command → Type 0
IsDecoded max_size x = Fits 0 x.reply × Decodes max_size x.type x.reply x.object

module _ (max_size : ℕ) where
  elements : List Command → List (Element (visit_adapter max_size))
  elements [] = []
  elements (x ∷ xs) =
      record {
        before = (x.type, internal_adapt x.type);
        reply = x.reply;
        after = (x.type, x.object);
      }
      ∷ elements xs

  -- The replies to a request are what the type of its response expects, and the object is their
  -- value: with `ignore_t` there is no error or null among them; a `generic_response` has all nodes in
  -- order, and no error is among them; each element of a `response<Ts...>` is the value of its reply.
  abbrev pub Answers : (t : ResponseType) → List Reply → Object t → Type 0
  Answers ignore_response rs h = All (λ nd. refused nd.data_type ≡ none) (all_nodes rs)
  Answers generic_response rs h =
      (h ≡ ok (value (all_nodes rs))) × All (λ nd. is_error nd.data_type ≡ false) (all_nodes rs)
  Answers (response ts) rs h =
      (xs : List Command) × (types xs ≡ ts)
      × (replies xs ≡ rs)
      × (h ≡ ok (objects xs))
      × All (IsDecoded max_size) xs
