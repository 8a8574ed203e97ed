-- ===== src/Runner/Outcome.antt =====
-- The codes that a run completes with.
use aedis.Prelude.{
  ℕ, zero, suc, ◌≡◌, refl, ap, ◌∙◌, Bool, true, false, Option, none, some, List, [], ◌∷◌, ◌++◌,
  get_elem?, length, ◌==◌, if◌then◌else◌, subst,
}
use aedis.Error.{Code}
use aedis.Connection.{run, Connection}
use aedis.Connection.Queue.{cancel}
use aedis.Stages.{must_stop, or_aborted}
use aedis.Runner.{
  Phase, resolving, connecting, handshaking, running, RunAllOut, suspended, completed, leave_phase,
  run_all_next,
}

-- The stages of a run, in order.
abbrev pub phases : Bool → List Phase
phases true = resolving ∷ connecting ∷ handshaking ∷ running ∷ []
phases false = resolving ∷ connecting ∷ running ∷ []

-- The error codes and the cancellation states that `run_all_op` is resumed with.
abbrev pub resumes :
    {R S : Type 0} → Bool → List (Option Code × Bool) → RunAllOut R S → RunAllOut R S
resumes use_ssl es (completed c ec) = completed c ec
resumes use_ssl [] (suspended ph c) = suspended ph c
resumes use_ssl ((ec, b) ∷ es) (suspended ph c) =
    resumes use_ssl es (run_all_next use_ssl ph ec b c)

-- So many stages without an error or a cancellation.
abbrev pub passed : ℕ → List (Option Code × Bool)
passed zero = []
passed (suc n) = (none, false) ∷ passed n

module _ {R S : Type 0} where
  fails_at :
      (use_ssl : Bool) (ph : Phase) (ec : Option Code) (b : Bool)
      (later : List (Option Code × Bool)) (c : Connection R S)
      → must_stop ec b ≡ true
      → resumes use_ssl ((ec, b) ∷ later) (suspended ph c)
        ≡ completed (leave_phase ph c) (some (or_aborted ec))
  unfolding run_all_next
  fails_at use_ssl ph ec b later c h =
      let stop : run_all_next use_ssl ph ec b c
          ≡ completed (leave_phase ph c) (some (or_aborted ec)) =
        rw h refl in
      ap (resumes use_ssl later) stop

  here :
      (x ph : Phase) (use_ssl : Bool) (es : List (Option Code × Bool)) (c : Connection R S)
      → some x ≡ some ph
      → resumes use_ssl es (suspended x c) ≡ resumes use_ssl es (suspended ph c)
  here x ph use_ssl es c e = let q : x ≡ ph = cc in ap (λ p. resumes use_ssl es (suspended p c)) q

  reaches :
      (use_ssl : Bool) (n : ℕ) (ph : Phase) (es : List (Option Code × Bool)) (c : Connection R S)
      → get_elem? (phases use_ssl) n ≡ some ph
      → resumes use_ssl (passed n ++ es) (suspended resolving c)
        ≡ resumes use_ssl es (suspended ph c)
  unfolding run_all_next
  reaches true zero ph es c e = here resolving ph true es c e
  reaches true (suc zero) ph es c e = here connecting ph true es c e
  reaches true (suc (suc zero)) ph es c e = here handshaking ph true es c e
  reaches true (suc (suc (suc zero))) ph es c e = here running ph true es c e
  reaches true (suc (suc (suc (suc n)))) ph es c e = absurd (cc)
  reaches false zero ph es c e = here resolving ph false es c e
  reaches false (suc zero) ph es c e = here connecting ph false es c e
  reaches false (suc (suc zero)) ph es c e = here running ph false es c e
  reaches false (suc (suc (suc n))) ph es c e = absurd (cc)

  left_at :
      (x ph : Phase) (c d : Connection R S)
      → some x ≡ some ph
      → leave_phase x c ≡ d
      → leave_phase ph c ≡ d
  left_at x ph c d e h = let q : x ≡ ph = cc in subst (λ p. leave_phase p c ≡ d) q h

  -- All stages but the last cancel the run.
  leaves :
      (use_ssl : Bool) (n : ℕ) (ph : Phase) (c : Connection R S)
      → get_elem? (phases use_ssl) n ≡ some ph
      → leave_phase ph c ≡ (if suc n == length (phases use_ssl) then c else cancel run c)
  leaves true zero ph c e = left_at resolving ph c _ e refl
  leaves true (suc zero) ph c e = left_at connecting ph c _ e refl
  leaves true (suc (suc zero)) ph c e = left_at handshaking ph c _ e refl
  leaves true (suc (suc (suc zero))) ph c e = left_at running ph c _ e refl
  leaves true (suc (suc (suc (suc n)))) ph c e = absurd (cc)
  leaves false zero ph c e = left_at resolving ph c _ e refl
  leaves false (suc zero) ph c e = left_at connecting ph c _ e refl
  leaves false (suc (suc zero)) ph c e = left_at running ph c _ e refl
  leaves false (suc (suc (suc n))) ph c e = absurd (cc)

  -- `run_all_op` goes through the stages in order, the handshake among them only with TLS. Where a
  -- stage fails or is cancelled behind others that did not, it completes with the code of that
  -- stage, or with `operation_aborted` if it has none; it has called `cancel` for the run on the
  -- connection where that stage is not the last, which is the run itself, and has not touched the
  -- connection where it is. Where none fails, it completes without an error and has not touched the
  -- connection.
  pub run_all-outcome :
      (use_ssl : Bool) (n : ℕ) (ph : Phase) (ec : Option Code) (b : Bool)
      (later : List (Option Code × Bool)) (c : Connection R S)
      → get_elem? (phases use_ssl) n ≡ some ph
      → must_stop ec b ≡ true
      → (resumes use_ssl (passed n ++ (ec, b) ∷ later) (suspended resolving c)
          ≡ completed
              (if suc n == length (phases use_ssl) then c else cancel run c)
              (some (or_aborted ec)))
        × (resumes use_ssl (passed (length (phases use_ssl)) ++ later) (suspended resolving c)
            ≡ completed c none)
  unfolding run_all_next
  run_all-outcome use_ssl n ph ec b later c e h = (
    reaches use_ssl n ph ((ec, b) ∷ later) c e
        ∙ fails_at use_ssl ph ec b later c h
        ∙ ap (λ d. completed d (some (or_aborted ec))) (leaves use_ssl n ph c e),
    all_pass use_ssl,
  )
    where
      all_pass :
          (s : Bool)
          → resumes s (passed (length (phases s)) ++ later) (suspended resolving c)
            ≡ completed c none
      all_pass true = refl
      all_pass false = refl
