-- ===== src/Adapter/Raising.antt =====
-- Adapters whose exceptions leave them, where no exception is thrown.
use aedis.Prelude.{ℕ, ◌+◌, ◌≡◌, refl, Option, none, some, List, [], ◌∷◌, subst}
use aedis.Prelude.Run.{Run, ok, crash, Fault}
use aedis.Error.{Error}
use aedis.Resp3.Node.{Node}
use aedis.Resp3.Parser.Trace.{Takes}
use aedis.Resp3.Reply.{Reply, nodes}
use aedis.Connection.Answered.{Fills}
use aedis.Adapter.{Impl, wrapper, general_aggregate, reported, raising, raising_all}
use aedis.Adapter.Traits.{static_adapter}

module _ {A : Type 0} where
  -- Behind an exception the object is not touched any more.
  abbrev pub Absorbs : (Run A → Node → Run A × Option Error) → Type 0
  Absorbs f = (e : Fault) (nd : Node) → (f (crash e) nd).0 ≡ crash e

  pub never :
      (f : Run A → Node → Run A × Option Error)
      → Absorbs f
      → (ns : List Node) (e : Fault) (b : A) → Takes f (crash e) ns (ok b)
      → ⊥
  never f absorbs [] e b h = cc
  never f absorbs (nd ∷ ns) e b (accepted, h) =
      never f absorbs ns e b (subst (λ a. Takes f a ns (ok b)) (absorbs e nd) h)

  -- An adapter that takes the nodes and leaves an object throws nothing on the way.
  pub raising-Takes :
      (f : Run A → Node → Run A × Option Error)
      → Absorbs f
      → (ns : List Node) (a : Run A) (b : A) → Takes f a ns (ok b)
      → Takes (raising f) a ns (ok b)
  raising-Takes f absorbs [] a b h = h
  raising-Takes f absorbs (nd ∷ ns) a b (accepted, h) =
      step (f a nd) accepted h (λ x k. raising-Takes f absorbs ns (ok x) b k)
    where
      step :
          (r : Run A × Option Error)
          → r.1 ≡ none
          → Takes f r.0 ns (ok b)
          → ((x : A) → Takes f (ok x) ns (ok b) → Takes (raising f) (ok x) ns (ok b))
          → ((reported r).1 ≡ none) × Takes (raising f) (reported r).0 ns (ok b)
      step (crash e, ec) accepted h rest = absurd (never f absorbs ns e b h)
      step (ok x, none) accepted h rest = (refl, rest x h)
      step (ok x, some e) accepted h rest = absurd (cc)

  never_filled :
      (f : ℕ → Run A → Node → Run A × Option Error)
      → ((i : ℕ) → Absorbs (f i))
      → (rs : List Reply) (i : ℕ) (e : Fault) (b : A) → Fills f i (crash e) rs (ok b)
      → ⊥
  never_filled f absorbs [] i e b h = cc
  never_filled f absorbs (r ∷ rs) i e b (ok m, takes, rest) =
      never (f i) (absorbs i) (nodes 0 r) e m takes
  never_filled f absorbs (r ∷ rs) i e b (crash e', takes, rest) =
      never_filled f absorbs rs (i + 1) e' b rest

  -- The same, for all replies to a request.
  pub raising-Fills :
      (f : ℕ → Run A → Node → Run A × Option Error)
      → ((i : ℕ) → Absorbs (f i))
      → (rs : List Reply) (i : ℕ) (a : Run A) (b : A) → Fills f i a rs (ok b)
      → Fills (raising_all f) i a rs (ok b)
  raising-Fills f absorbs [] i a b h = h
  raising-Fills f absorbs (r ∷ rs) i a b (ok m, takes, rest) = (
    ok m,
    raising-Takes (f i) (absorbs i) (nodes 0 r) a m takes,
    raising-Fills f absorbs rs (i + 1) (ok m) b rest,
  )
  raising-Fills f absorbs (r ∷ rs) i a b (crash e, takes, rest) =
      absurd (never_filled f absorbs rs (i + 1) e b rest)

pub wrapper-Absorbs : {V I : Type 0} (impl : Impl V I) → Absorbs (wrapper impl)
unfolding wrapper
wrapper-Absorbs impl e nd = refl

pub general_aggregate-Absorbs : Absorbs general_aggregate
unfolding general_aggregate
general_aggregate-Absorbs e nd = refl

pub static_adapter-Absorbs :
    {E : Type 0} (visit : E → Node → Run E × Option Error) (i : ℕ)
    → Absorbs (static_adapter visit i)
unfolding static_adapter
static_adapter-Absorbs visit i e nd = refl
