-- ===== src/Receipts/Runs.antt =====
-- Any sequence of claims, completions and failures: what no sequence of calls can undo.
use dotori.Prelude.{
  ◌≤◌, String, ◌≡◌, refl, false, some, List, [], ◌∷◌, arith, ◌⊎◌, ok, err, All, Result,
}
use dotori.Prelude.Classes.{string_eq}
use dotori.Receipts.{
  Receipt, Store, succeeded, failed, Payload, Call, claim, finish, failure, apply_call, run_calls,
  locked_job, commit, Error,
}
use dotori.Receipts.Rows.{locked_job-update_ne, locked_job-cons_kept, All-update, All-locked_job}
use dotori.Receipts.Lifecycle.{
  Step, unchanged, wrote, created, Write, ended, retried, used_up, complete-Step, fail-Step,
  claim_execution-Step,
}

-- A job that succeeded, or that failed with no retry left.
abbrev pub IsFinal : Receipt → Type 0
IsFinal r = (r.status ≡ succeeded) ⊎ (r.status ≡ failed) × (r.retryable ≡ false)

abbrev pub AttemptsBounded : Store → Type 0
AttemptsBounded = All (λ r. r.attempt ≤ 4)

Write-not-IsFinal : (current row : Receipt) → Write current row → ¬ IsFinal current
Write-not-IsFinal current row (ended a b c) f = ground arith
Write-not-IsFinal current row (retried a b c d e) f = ground arith
Write-not-IsFinal current row (used_up a b c d e g) f = ground arith

Write-attempt : (current row : Receipt) → Write current row → current.attempt ≤ 4 → row.attempt ≤ 4
Write-attempt current row (ended a b c) h = omega arith
Write-attempt current row (retried a b c d e) h = omega arith
Write-attempt current row (used_up a b c d e g) h = omega arith

Step-final :
    (j : String) (rows rows' : Store) (r : Receipt)
    → Step rows rows'
    → locked_job j rows ≡ some r
    → IsFinal r
    → locked_job j rows' ≡ some r
Step-final j rows rows' r (unchanged e) h f = rw e h
Step-final j rows rows' r (wrote current row at w e) h f =
    rw (e, locked_job-update_ne j row rows (λ same. Write-not-IsFinal current row w (other same))) h
  where
    other : row.job_id ≡ j → IsFinal current
    other same = let q : current ≡ r = ground (arith, same, at, h) in rw q f
Step-final j rows rows' r (created row new run one e) h f =
    rw e (locked_job-cons_kept j row rows r new h)

Step-AttemptsBounded :
    (rows rows' : Store) → Step rows rows' → AttemptsBounded rows → AttemptsBounded rows'
Step-AttemptsBounded rows rows' (unchanged e) h = rw e h
Step-AttemptsBounded rows rows' (wrote current row at w e) h = rw e (
    All-update (λ r. r.attempt ≤ 4) row rows
      (Write-attempt current row w
        (All-locked_job (λ r. r.attempt ≤ 4) row.job_id rows current h at))
      h)
Step-AttemptsBounded rows rows' (created row new run one e) h = rw e (omega arith, h)

commit-Step :
    {A : Type 0} (rows : Store) (m : Result Error (A × Store))
    → ((a : A) (rows' : Store) → m ≡ ok (a, rows') → Step rows rows')
    → Step rows (commit rows m)
commit-Step rows (ok (a, rows')) h = h a rows' refl
commit-Step rows (err e) h = unchanged refl

module _ (fingerprint : Payload → String) where
  apply_call-Step : (c : Call) (rows : Store) → Step rows (apply_call fingerprint c rows)
  unfolding apply_call
  apply_call-Step (claim now active q) rows =
      commit-Step rows _ (λ a rows' h. claim_execution-Step fingerprint now active q rows h)
  apply_call-Step (finish now active receipt result followups) rows =
      commit-Step rows _ (λ a rows' h. complete-Step now active receipt result followups rows h)
  apply_call-Step (failure now active receipt f) rows =
      commit-Step rows _ (λ a rows' h. fail-Step now active receipt f rows h)

  -- Whatever claims, completions and failures follow, with any payloads, owners and clock: the
  -- receipt of a job that succeeded, or that failed without a retry left, keeps its row unchanged.
  pub run_calls-final :
      (calls : List Call) (rows : Store) (j : String) (r : Receipt)
      → locked_job j rows ≡ some r
      → IsFinal r
      → locked_job j (run_calls fingerprint calls rows) ≡ some r
  unfolding run_calls
  run_calls-final [] rows j r h f = h
  run_calls-final (c ∷ calls) rows j r h f =
      run_calls-final calls (apply_call fingerprint c rows) j r
        (Step-final j rows _ r (apply_call-Step c rows) h f) f

  -- If no receipt has more than four attempts, none has after any calls.
  pub run_calls-AttemptsBounded :
      (calls : List Call) (rows : Store)
      → AttemptsBounded rows
      → AttemptsBounded (run_calls fingerprint calls rows)
  unfolding run_calls
  run_calls-AttemptsBounded [] rows h = h
  run_calls-AttemptsBounded (c ∷ calls) rows h =
      run_calls-AttemptsBounded calls (apply_call fingerprint c rows)
        (Step-AttemptsBounded rows _ (apply_call-Step c rows) h)
