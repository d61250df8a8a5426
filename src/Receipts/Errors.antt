-- ===== src/Receipts/Errors.antt =====
-- Which exceptions the receipt service raises: never one of the table's own, and always one for an
-- attempt that no longer owns its receipt.
use text.Mathlib.TextEquality.{eq_iff}
use dotori.Prelude.{
  ℕ, String, ◌≡◌, ◌≢◌, refl, false, Option, some, none, [], ◌∷◌, arith, Option-cases, inl, inr, ◌⊎◌,
  ok, err, any, find?-none,
}
use dotori.Prelude.Classes.{◌==◌, string_eq, nat_eq}
use dotori.Receipts.{
  Receipt, Store, running, Ownership, Failure, Request, Payload, Error, job_conflict,
  ownership_lost, locked_job, update, complete, fail, claim_execution, claim_existing, start_claim,
  begin, give_up, create_claim, new_receipt, conflicting_job, conflicts_with, blocked_by_index,
  restarted, restart, save, fail_locked, receipt_ownership, validate_ownership, same_ownership,
  complete_locked, completed,
}
use dotori.Receipts.Rows.{job_id-locked_job, locked_job-update_self}

not_blocked :
    (q : Request) (row : Receipt) (rows : Store)
    → row.job_id ≡ q.job_id
    → row.work_kind ≡ q.work_kind
    → row.target_key ≡ q.target_key
    → conflicting_job q.job_id q.work_kind q.target_key q.payload q.source rows ≡ none
    → blocked_by_index row rows ≡ false
unfolding conflicting_job conflicts_with blocked_by_index
not_blocked q row [] a b c h = refl
not_blocked q row (r ∷ rows) a b c h = ground (
  arith,
  eq_iff r.job_id row.job_id,
  eq_iff r.job_id q.job_id,
  eq_iff r.work_kind row.work_kind,
  eq_iff r.work_kind q.work_kind,
  eq_iff r.target_key row.target_key,
  eq_iff r.target_key q.target_key,
  not_blocked q row rows a b c,
)

absent :
    (j : String) (rows : Store) → locked_job j rows ≡ none → any (λ r. r.job_id == j) rows ≡ false
unfolding locked_job
absent j rows h = find?-none (λ r. r.job_id == j) rows h

-- What a claim may raise.
abbrev pub IsClaimError : Error → Type 0
IsClaimError e = (e ≡ job_conflict) ⊎ (e ≡ ownership_lost)

module _ (fingerprint : Payload → String) (now : ℕ) (active : Option Ownership) where
  start_new-total :
      (q : Request) (rows : Store) (e : Error)
      → locked_job q.job_id rows ≡ none
      → start_claim fingerprint now active q none rows ≢ err e
  unfolding start_claim begin create_claim new_receipt
  start_new-total q rows e new h =
      let row = new_receipt fingerprint now active q in
      ground (arith, not_blocked q row rows refl refl refl, absent q.job_id rows new)

  start_existing-total :
      (q : Request) (receipt : Receipt) (rows : Store) (e : Error)
      → locked_job q.job_id rows ≡ some receipt
      → receipt.work_kind ≡ q.work_kind
      → receipt.target_key ≡ q.target_key
      → start_claim fingerprint now active q (some receipt) rows ≢ err e
  unfolding start_claim begin restart save
  start_existing-total q receipt rows e at kind target h = ground (
    arith,
    not_blocked q (restarted receipt) rows (job_id-locked_job q.job_id rows receipt at) kind target,
  )

  give_up-error :
      (q : Request) (receipt : Receipt) (rows : Store) (e : Error)
      → locked_job q.job_id rows ≡ some receipt
      → give_up fingerprint now active receipt rows ≡ err e
      → e ≡ ownership_lost
  unfolding give_up fail fail_locked save receipt_ownership validate_ownership
  give_up-error q receipt rows e at h = ground (arith, job_id-locked_job q.job_id rows receipt at)

  claim_existing-error :
      (q : Request) (receipt : Receipt) (rows : Store) (e : Error)
      → locked_job q.job_id rows ≡ some receipt
      → receipt.target_key ≡ q.target_key
      → claim_existing fingerprint now active q receipt rows ≡ err e
      → IsClaimError e
  unfolding claim_existing
  claim_existing-error q receipt rows e at target h = ground (
    arith,
    eq_iff receipt.work_kind q.work_kind,
    give_up-error q receipt rows e at,
    start_existing-total q receipt rows e at,
  )

  -- If the stored receipt of the request's job, where there is one, names the request's target,
  -- every exception of a claim is a job conflict or a lost ownership: the claim never runs into the
  -- table's unique index, nor into a row that is missing.
  pub claim_execution-error :
      (q : Request) (rows : Store) (e : Error)
      → ((r : Receipt) → locked_job q.job_id rows ≡ some r → r.target_key ≡ q.target_key)
      → claim_execution fingerprint now active q rows ≡ err e
      → IsClaimError e
  unfolding claim_execution
  claim_execution-error q rows e target h = elim (Option-cases (locked_job q.job_id rows)) [
    | inl new ↦
        let start : start_claim fingerprint now active q none rows ≡ err e =
          ground (arith, new, h) in
        absurd (start_new-total q rows e new start)
    | inr (receipt, at) ↦
        let old : claim_existing fingerprint now active q receipt rows ≡ err e =
          ground (arith, at, h) in
        claim_existing-error q receipt rows e at (target receipt at) old
  ]

module _ (now : ℕ) (active : Option Ownership) where
  -- If the caller's ownership is of another attempt than the stored receipt's, neither `complete`
  -- nor `fail` writes: both raise the loss of ownership, whatever the result or the failure is.
  pub stale-ownership_lost :
      (receipt current : Receipt) (owner : Ownership) (rows : Store)
      → receipt_ownership active receipt ≡ ok owner
      → locked_job receipt.job_id rows ≡ some current
      → owner.attempt ≢ current.attempt
      → ((result followups : String)
          → complete now active receipt result followups rows ≡ err ownership_lost)
        × ((f : Failure) → fail now active receipt f rows ≡ err ownership_lost)
  unfolding complete fail complete_locked fail_locked validate_ownership same_ownership
  stale-ownership_lost receipt current owner rows o at stale =
      ((λ result followups. ground (arith, o, at)), (λ f. ground (arith, o, at)))

-- Completing a running receipt under its own ownership succeeds, and doing so once more with the
-- same result and followups, whenever that is, returns the stored row, with the time at which the
-- first completion finished, and changes nothing.
pub complete_twice :
    (now later : ℕ) (receipt : Receipt) (result followups : String) (rows : Store)
    → locked_job receipt.job_id rows ≡ some receipt
    → receipt.status ≡ running
    → (complete now none receipt result followups rows
        ≡ ok (
          completed now result followups receipt,
          update (completed now result followups receipt) rows,
        ))
      × (complete later none
            (completed now result followups receipt)
            result
            followups
            (update (completed now result followups receipt) rows)
          ≡ ok (
            completed now result followups receipt,
            update (completed now result followups receipt) rows,
          ))
unfolding complete complete_locked validate_ownership same_ownership receipt_ownership save
complete_twice now later receipt result followups rows at run =
    let row = completed now result followups receipt in
    (
      ground (
        arith,
        eq_iff receipt.job_id receipt.job_id,
        eq_iff receipt.work_kind receipt.work_kind,
        eq_iff receipt.target_key receipt.target_key,
        eq_iff receipt.payload_fingerprint receipt.payload_fingerprint,
        eq_iff receipt.result result,
      ),
      ground (
        arith,
        locked_job-update_self row rows receipt at,
        eq_iff receipt.job_id receipt.job_id,
        eq_iff receipt.work_kind receipt.work_kind,
        eq_iff receipt.target_key receipt.target_key,
        eq_iff receipt.payload_fingerprint receipt.payload_fingerprint,
        eq_iff result result,
        eq_iff followups followups,
      ),
    )
