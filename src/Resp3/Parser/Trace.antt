-- ===== src/Resp3/Parser/Trace.antt =====
-- The nodes of a message, apart from what an adapter does with them.
use aedis.Prelude.{
  ℕ, zero, suc, ◌≡◌, refl, ap, true, false, Option, none, some, List, [], ◌∷◌, Bool-cases, inl, inr,
}
use aedis.Prelude.Bytes.{Bytes}
use aedis.Prelude.Run.{Run, ok, crash, Fault, out_of_fuel, ◌>>=◌}
use aedis.Error.{Failure, Error}
use aedis.Resp3.Node.{Node}
use aedis.Resp3.Parser.{
  Parser, Step, more, got, fail, done, consume, Parsed, needs_more, finished, parse_step, parse,
}
use aedis.Resp3.Parser.Loop.{parse-done, parse-consume}

-- How the loop ends.
pub data End : Type 0 where
  incomplete : Parser → End
  complete : Parser → End
  refused : Parser → Error → End
  faulted : Fault → End

abbrev pub trace_step : (Parser → List Node × End) → Run Step → List Node × End
trace_step again (crash e) = ([], faulted e)
trace_step again (ok (more q)) = ([], incomplete q)
trace_step again (ok (fail q e)) = ([], refused q e)
trace_step again (ok (got q nd)) = (nd ∷ (again q).0, (again q).1)

-- The nodes that `consume` gives in turn, with no adapter.
unfoldable pub trace : ℕ → Parser → Bytes → List Node × End
trace zero p view = ([], faulted out_of_fuel)
trace (suc fuel) p view = elim (done p) [
  | true ↦ ([], complete p)
  | false ↦ trace_step (λ q. trace fuel q view) (consume p view)
]

module _ {ℓ} {A : Type ℓ} where
  abbrev pub conclude : End → A → Run (Parsed A)
  conclude (incomplete q) a = ok (needs_more q a)
  conclude (complete q) a = ok (finished q a none)
  conclude (refused q e) a = ok (finished q a (some e))
  conclude (faulted e) a = crash e

-- The adapter takes every node without an error or an exception, from the first state to the last.
abbrev pub Takes {ℓ} :
    {A : Type ℓ} {E : Type 0} → (A → Node → A × Option E) → A → List Node → A → Type ℓ
Takes adapter a [] b = a ≡ b
Takes adapter a (nd ∷ ns) b = ((adapter a nd).1 ≡ none) × Takes adapter (adapter a nd).0 ns b

module _ {ℓ} {A : Type ℓ} (adapter : A → Node → A × Option Failure) where
  step-trace :
      (again : Parser → A → Run (Parsed A)) (follow : Parser → List Node × End) (a b : A)
      (r : Run Step)
      → ((q : Parser) (a' : A)
          → Takes adapter a' (follow q).0 b
          → again q a' ≡ conclude (follow q).1 b)
      → Takes adapter a (trace_step follow r).0 b
      → (r >>= parse_step adapter again a) ≡ conclude (trace_step follow r).1 b
  step-trace again follow a b (crash e) rest h = refl
  step-trace again follow a b (ok (more q)) rest h = ap (λ x. ok (needs_more q x)) h
  step-trace again follow a b (ok (fail q e)) rest h = ap (λ x. ok (finished q x (some e))) h
  step-trace again follow a b (ok (got q nd)) rest (accepted, h) =
      rw (accepted, parse_step) (rest q (adapter a nd).0 h)

  -- `parse` hands the adapter the nodes of the trace in order, each once: an adapter that takes them
  -- all ends where the trace leads it, and the loop ends as the trace does.
  pub parse-trace :
      (fuel : ℕ) (p : Parser) (view : Bytes) (a b : A)
      → Takes adapter a (trace fuel p view).0 b
      → parse adapter fuel p view a ≡ conclude (trace fuel p view).1 b
  unfolding parse trace
  parse-trace zero p view a b h = refl
  parse-trace (suc fuel) p view a b h = elim (Bool-cases (done p)) [
    | inl d ↦
        let e : trace (suc fuel) p view ≡ ([], complete p) = rw (d, trace) refl in
        rw (e, parse-done adapter fuel p view a d) (ap (λ x. ok (finished p x none)) (rw e at h))
    | inr going ↦
        let e : trace (suc fuel) p view ≡ trace_step (λ q. trace fuel q view) (consume p view) =
          rw (going, trace) refl in
        rw (e, parse-consume adapter fuel p view a going)
          (step-trace (λ q a'. parse adapter fuel q view a') (λ q. trace fuel q view) a b
            (consume p view) (λ q a'. parse-trace fuel q view a' b) (rw e at h))
  ]
