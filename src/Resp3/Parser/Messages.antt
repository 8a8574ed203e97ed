-- ===== src/Resp3/Parser/Messages.antt =====
-- The nodes of a whole message: a root, and what stands below it.
use aedis.Prelude.{
  ℕ, zero, suc, ◌+◌, ◌≤◌, ◌<◌, ◌≡◌, refl, ◌⊎◌, inl, inr, Bool, true, false, List, [], ◌∷◌, All,
  arith, Bool-cases, length, word_mod, ◌*◌, ◌-◌,
}
use aedis.Prelude.Bytes.{Bytes}
use aedis.Prelude.Run.{Run, ok, crash, Ensures}
use aedis.Resp3.Types.{streamed_string}
use aedis.Resp3.Node.{Node}
use aedis.Resp3.Parser.{Parser, reset, Step, more, got, fail, bulk_expected, done, consume}
use aedis.Resp3.Parser.Safety.{Inv, work, After, consume-After, reset-Inv}
use aedis.Resp3.Parser.Trace.{End, complete, trace, trace_step}
use aedis.Resp3.Parser.Depths.{IsAt, Given, consume-Given}

-- Behind a node the parser is done, or below the root.
below : (q : Parser) → 0 < q.consumed → bulk_expected q ≡ false → done q ≡ false → 0 < q.depth
unfolding done
below q pos b going = ground arith

abbrev pub IsDeep : Node → Type 0
IsDeep nd = 0 < nd.depth

IsAt-IsDeep : (d : ℕ) (nd : Node) → 0 < d → IsAt d nd → IsDeep nd
IsAt-IsDeep d nd h (inl e) = omega arith
IsAt-IsDeep d nd h (inr (_, e)) = omega arith

forward :
    (p q : Parser) (view : Bytes)
    → bulk_expected p ≡ false
    → bulk_expected q ≡ false
    → work q view < work p view
    → p.consumed < q.consumed
forward p q view bp bq w =
    let w' : 2 * (length view - q.consumed) + 0 < 2 * (length view - p.consumed) + 0 =
      rw (bp, bq) at w in
    omega arith

-- One round of the trace, over what follows it.
round-Deep :
    (p : Parser) (view : Bytes) (faulty : Bool) (follow : Parser → List Node × End) (r : Run Step)
    → bulk_expected p ≡ false
    → After p view faulty r
    → Ensures (Given p) r
    → ((q : Parser)
        → Inv q ⊎ (done q ≡ true)
        → bulk_expected q ≡ false
        → p.consumed < q.consumed
        → q.consumed ≤ length view
        → All IsDeep (follow q).0)
    → 0 < p.depth
    → All IsDeep (trace_step follow r).0
round-Deep p view faulty follow (crash e) b a g rest deep = tt
round-Deep p view faulty follow (ok (more q)) b a g rest deep = tt
round-Deep p view faulty follow (ok (fail q e)) b a g rest deep = tt
round-Deep p view faulty follow (ok (got q nd)) b (_, v, inside, less) (bq, placed) rest deep =
    (IsAt-IsDeep p.depth nd deep placed, rest q v bq (forward p q view b bq less) inside)

-- Behind a node all nodes up to the end of the message are below the root.
trace-Deep :
    (fuel : ℕ) (p : Parser) (view : Bytes)
    → Inv p ⊎ (done p ≡ true)
    → bulk_expected p ≡ false
    → 0 < p.consumed
    → p.consumed ≤ length view
    → length view < word_mod
    → All IsDeep (trace fuel p view).0
unfolding trace
trace-Deep zero p view v b pos inside bound = tt
trace-Deep (suc fuel) p view v b pos inside bound = elim (Bool-cases (done p)) [
  | inl d ↦ let e : trace (suc fuel) p view ≡ ([], complete p) = rw (d, trace) refl in rw e tt
  | inr going ↦
      let e : trace (suc fuel) p view ≡ trace_step (λ q. trace fuel q view) (consume p view) =
        rw (going, trace) refl in
      rw e (
        round-Deep p view _ (λ q. trace fuel q view) (consume p view) b
          (consume-After p view (not_done p v going) inside bound) (consume-Given p b view)
          (λ q v' b' further inside'. trace-Deep fuel q view v' b' (omega arith) inside' bound)
          (below p pos b going))
]
  where
    not_done : (p : Parser) → Inv p ⊎ (done p ≡ true) → done p ≡ false → Inv p
    not_done p (inl v) going = v
    not_done p (inr d) going = absurd (cc)

-- A root and what belongs to it. The root of a streamed string stands at depth 1.
abbrev pub IsMessage : List Node → Type 0
IsMessage [] = Unit
IsMessage (nd ∷ ns) = ((nd.depth ≡ 0) ⊎ (nd.data_type ≡ streamed_string)) × All IsDeep ns

root : (nd : Node) → IsAt 0 nd → (nd.depth ≡ 0) ⊎ (nd.data_type ≡ streamed_string)
root nd (inl e) = inl e
root nd (inr (e, _)) = inr e

first-IsMessage :
    (view : Bytes) (faulty : Bool) (fuel : ℕ) (r : Run Step)
    → length view < word_mod
    → After reset view faulty r
    → Ensures (Given reset) r
    → IsMessage (trace_step (λ q. trace fuel q view) r).0
first-IsMessage view faulty fuel (crash e) bound a g = tt
first-IsMessage view faulty fuel (ok (more q)) bound a g = tt
first-IsMessage view faulty fuel (ok (fail q e)) bound a g = tt
first-IsMessage view faulty fuel (ok (got q nd)) bound (_, v, inside, less) (bq, placed) =
    (root nd placed, trace-Deep fuel q view v bq (forward reset q view refl bq less) inside bound)

-- The nodes that a fresh parser gives for a message, in a view of fewer than 2^64 bytes: the first
-- has depth 0 unless it is a streamed string, and all others stand below it, at depth 1 or more.
pub trace-IsMessage :
    (view : Bytes) (fuel : ℕ) → length view < word_mod → IsMessage (trace fuel reset view).0
unfolding trace done
trace-IsMessage view zero bound = tt
trace-IsMessage view (suc fuel) bound =
    first-IsMessage view _ fuel (consume reset view) bound
      (consume-After reset view reset-Inv (omega arith) bound) (consume-Given reset refl view)
