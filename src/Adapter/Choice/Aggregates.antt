-- ===== src/Adapter/Choice/Aggregates.antt =====
-- The elements of an aggregate, one behind the other.
use mathlib.Core.List.{foldl}
use aedis.Prelude.{◌≡◌, refl, sym, ap, false, Option, none, some, List, [], ◌∷◌, ◌++◌, subst}
use aedis.Prelude.Bytes.{Bytes}
use aedis.Error.{Error}
use aedis.Resp3.Types.{RespType, is_aggregate}
use aedis.Resp3.Node.{Node}
use aedis.Resp3.Parser.{make_node}
use aedis.Resp3.Parser.Trace.{Takes}
use aedis.Resp3.Reply.{Replies, nil, cons, nodes, nodes_all, Fits, FitsAll}
use aedis.Adapter.{is_error_or_null}
use aedis.Adapter.Choice.{Scalar, Value}
use aedis.Adapter.Choice.Expected.{read_scalar, AreScalars}
use aedis.Adapter.Choice.Simple.{text_of-IsSimple}

-- A node that is taken, in front of others.
pub step-Takes :
    {A : Type 0} (f : A → Node → A × Option Error) (a b c : A) (nd : Node) (ns : List Node)
    → f a nd ≡ (b, none)
    → Takes f b ns c
    → Takes f a (nd ∷ ns) c
step-Takes f a b c nd ns e h =
    (ap (λ x. x.1) e, subst (λ x. Takes f x ns c) (sym (ap (λ x. x.0) e)) h)

pub node-Takes :
    {A : Type 0} (f : A → Node → A × Option Error) (a b c : A) (nd : Node) (ns ms : List Node)
    → ns ≡ nd ∷ []
    → f a nd ≡ (b, none)
    → Takes f b ms c
    → Takes f a (ns ++ ms) c
node-Takes f a b c nd ns ms one e h =
    subst (λ l. Takes f a (l ++ ms) c) (sym one) (step-Takes f a b c nd ms e h)

-- The elements of an aggregate, for an adapter that puts each in the container.
pub elements-Takes :
    (s : Scalar) {X A : Type 0} (f : A → Node → A × Option Error) (held : X → A)
    (put : X → Value s → X)
    → ((x : X) (text : Bytes) (v : Value s) (t : RespType)
        → is_error_or_null t ≡ false
        → is_aggregate t ≡ false
        → read_scalar s text ≡ some v
        → f (held x) (make_node t 1 1 text) ≡ (held (put x v), none))
    → (rs : Replies) (x : X) (vs : List (Value s)) → FitsAll 1 rs
    → AreScalars s rs vs
    → Takes f (held x) (nodes_all 1 rs) (held (foldl put x vs))
unfolding Fits nodes
elements-Takes s f held put taken nil x [] fits h = refl
elements-Takes s f held put taken nil x (v ∷ vs) fits h = elim h [ ]
elements-Takes s f held put taken (cons r rs) x [] fits h = elim h [ ]
elements-Takes s f held put taken (cons r rs) x (v ∷ vs) (fit, fits) ((text, is_text, e), others) =
    let (t, one, valid, simple) = text_of-IsSimple 1 r text fit is_text in
    node-Takes f (held x) (held (put x v)) (held (foldl put (put x v) vs)) (make_node t 1 1 text)
      (nodes 1 r) (nodes_all 1 rs) one (taken x text v t valid simple e)
      (elements-Takes s f held put taken rs (put x v) vs fits others)
