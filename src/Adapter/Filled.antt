-- ===== src/Adapter/Filled.antt =====
-- The responses to a request's commands, in the elements of its `response<Ts...>`.
use aedis.Prelude.{
  ◌+◌, ◌≡◌, refl, sym, ap, ◌∙◌, Option, none, List, [], ◌∷◌, ◌++◌, append_assoc, arith, length,
  length-append, set-middle, get_elem?-middle, All, lt→ltb, subst,
}
use aedis.Prelude.Run.{Run, ok, crash, Fault, at-some}
use aedis.Error.{Error}
use aedis.Resp3.Node.{Node}
use aedis.Resp3.Parser.Trace.{Takes}
use aedis.Resp3.Reply.{Reply, nodes}
use aedis.Connection.Answered.{Fills}
use aedis.Adapter.Traits.{static_adapter, place}

module _ {E : Type 0} (visit : E → Node → Run E × Option Error) where
  -- One element, with an exception of its adapter.
  abbrev pub visiting : Run E → Node → Run E × Option Error
  visiting (crash f) nd = (crash f, none)
  visiting (ok e) nd = visit e nd

  -- An element, the reply to its command, and what its adapter makes of that.
  pub record Element : Type 0 where
    pub before : E
    pub reply : Reply
    pub after : E

  abbrev pub IsFilled : Element → Type 0
  IsFilled x = Takes visiting (ok x.before) (nodes 0 x.reply) (ok x.after)

  abbrev pub befores : List Element → List E
  befores [] = []
  befores (x ∷ xs) = x.before ∷ befores xs

  abbrev pub afters : List Element → List E
  afters [] = []
  afters (x ∷ xs) = x.after ∷ afters xs

  abbrev pub replies : List Element → List Reply
  replies [] = []
  replies (x ∷ xs) = x.reply ∷ replies xs

  -- What the whole response makes of a node for the element behind `es`.
  within : List E → List E → Run E → Run (List E)
  within es fs (ok e) = ok (es ++ e ∷ fs)
  within es fs (crash f) = crash f

  place-within :
      (es fs : List E) (e : E) (r : Run E) → place (es ++ e ∷ fs) (length es) r ≡ within es fs r
  unfolding within
  place-within es fs e (ok x) = ap ok (set-middle es x e fs)
  place-within es fs e (crash f) = refl

  static_adapter-within :
      (es fs : List E) (e : E) (nd : Node)
      → static_adapter visit (length es) (ok (es ++ e ∷ fs)) nd
        ≡ (within es fs (visit e nd).0, (visit e nd).1)
  unfolding static_adapter
  static_adapter-within es fs e nd =
      rw
        (
          lt→ltb (length es) (length (es ++ e ∷ fs)) (omega (arith, length-append es (e ∷ fs))),
          at-some (es ++ e ∷ fs) (length es) e (get_elem?-middle es e fs),
        )
        (ap (λ x. (x, (visit e nd).1)) (place-within es fs e (visit e nd).0))

  never : (ns : List Node) (f : Fault) (b : E) → Takes visiting (crash f) ns (ok b) → ⊥
  never [] f b h = cc
  never (nd ∷ ns) f b (accepted, h) = never ns f b h

  Takes-within :
      (ns : List Node) (es fs : List E) (r : Run E) (b : E)
      → Takes visiting r ns (ok b)
      → Takes (static_adapter visit (length es)) (within es fs r) ns (ok (es ++ b ∷ fs))
  unfolding within
  Takes-within ns es fs (crash f) b h = absurd (never ns f b h)
  Takes-within [] es fs (ok e) b h = ap (within es fs) h
  Takes-within (nd ∷ ns) es fs (ok e) b (accepted, h) =
      let step = static_adapter-within es fs e nd in
      (
        ap (λ x. x.1) step ∙ accepted,
        subst (λ x. Takes (static_adapter visit (length es)) x ns (ok (es ++ b ∷ fs)))
            (sym (ap (λ x. x.0) step)) (Takes-within ns es fs (visit e nd).0 b h),
      )

  behind-Fills :
      (es : List E) (xs : List Element)
      → All IsFilled xs
      → Fills
          (static_adapter visit)
          (length es)
          (ok (es ++ befores xs))
          (replies xs)
          (ok (es ++ afters xs))
  unfolding within
  behind-Fills es [] h = refl
  behind-Fills es (x ∷ xs) (one, others) =
      let regroup = λ (l : List E). append_assoc es (x.after ∷ []) l in
      let next : length (es ++ x.after ∷ []) ≡ length es + 1 =
        omega (arith, length-append es (x.after ∷ [])) in
      (
        ok (es ++ x.after ∷ befores xs),
        Takes-within (nodes 0 x.reply) es (befores xs) (ok x.before) x.after one,
        subst
            (λ i.
              Fills (static_adapter visit) i (ok (es ++ x.after ∷ befores xs)) (replies xs)
                (ok (es ++ x.after ∷ afters xs)))
            next
            (rw (← regroup (befores xs), ← regroup (afters xs))
              (behind-Fills (es ++ x.after ∷ []) xs others)),
      )

  -- The responses to the commands of a request, in order, fill its `response<Ts...>`: where the
  -- adapter of each element takes the reply to its command without an error, the adapter of the whole
  -- response takes all replies, and each element is what its own adapter makes of its own reply.
  pub static_adapter-Fills :
      (xs : List Element)
      → All IsFilled xs
      → Fills (static_adapter visit) 0 (ok (befores xs)) (replies xs) (ok (afters xs))
  static_adapter-Fills xs h = behind-Fills [] xs h
