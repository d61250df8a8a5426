-- ===== src/Receipts/Lifecycle.antt =====
-- The life of a receipt as a step relation on the table, and every method as such a step.
use dotori.Prelude.{
  ℕ, ◌+◌, ◌≤◌, ◌<◌, String, ◌≡◌, ◌≢◌, refl, sym, Bool, true, false, Option, some, none, ◌∷◌, arith,
  Option-cases, inl, inr, ◌⊎◌, ok, bind-eq-ok,
}
use mathlib.Core.Path.{subst}
use dotori.Receipts.{
  Receipt, Store, running, failed, Ownership, Failure, Request, Claim, Payload, locked_job, update,
  completed, failure_row, restarted, complete_locked, fail_locked, complete, fail, restart, begin,
  start_claim, give_up, claim_existing, claim_execution, create_claim, new_receipt,
  retries_exhausted, receipt_ownership, save,
}
use dotori.Receipts.Rows.{job_id-locked_job}

-- How one job's row may change: a running attempt ends, a failed one that may be retried starts its
-- next attempt, or its retries are used up.
pub data Write (current row : Receipt) : Type 0 where
  ended :
      current.status ≡ running
      → row.status ≢ running
      → row.attempt ≡ current.attempt
      → Write current row
  retried :
      current.status ≡ failed
      → current.retryable ≡ true
      → current.attempt < 4
      → row.status ≡ running
      → row.attempt ≡ current.attempt + 1
      → Write current row
  used_up :
      current.status ≡ failed
      → current.retryable ≡ true
      → 4 ≤ current.attempt
      → row.status ≡ failed
      → row.retryable ≡ false
      → row.attempt ≡ current.attempt
      → Write current row

pub data Step (rows rows' : Store) : Type 0 where
  unchanged : rows' ≡ rows → Step rows rows'
  wrote :
      (current row : Receipt)
      → locked_job row.job_id rows ≡ some current
      → Write current row
      → rows' ≡ update row rows
      → Step rows rows'
  created :
      (row : Receipt)
      → locked_job row.job_id rows ≡ none
      → row.status ≡ running
      → row.attempt ≡ 1
      → rows' ≡ row ∷ rows
      → Step rows rows'

complete_locked-cases :
    (now : ℕ) (owner : Ownership) (result followups : String) (rows : Store) (current : Receipt)
    {r : Receipt} {rows' : Store}
    → complete_locked now owner result followups rows (some current) ≡ ok (r, rows')
    → (rows' ≡ rows)
      ⊎ ((current.status ≡ running)
          × (rows' ≡ update (completed now result followups current) rows))
unfolding complete_locked save
complete_locked-cases now owner result followups rows current h = ground arith

fail_locked-cases :
    (now : ℕ) (owner : Ownership) (f : Failure) (rows : Store) (current : Receipt) {r : Receipt}
    {rows' : Store}
    → fail_locked now owner f rows (some current) ≡ ok (r, rows')
    → (rows' ≡ update (failure_row now f current) rows)
      × ((current.status ≡ running)
          ⊎ ((current.status ≡ failed)
              × (current.retryable ≡ true)
              × (4 ≤ current.attempt)
              × (f.retryable ≡ false)))
unfolding fail_locked save
fail_locked-cases now owner f rows current h = ground arith

pub locked_at :
    (j : String) (rows : Store) (current : Receipt)
    → locked_job j rows ≡ some current
    → locked_job current.job_id rows ≡ some current
locked_at j rows current e =
    subst (λ k. locked_job k rows ≡ some current) (sym (job_id-locked_job j rows current e)) e

complete_locked-Step :
    (now : ℕ) (owner : Ownership) (result followups j : String) (rows : Store)
    (found : Option Receipt) {r : Receipt} {rows' : Store}
    → locked_job j rows ≡ found
    → complete_locked now owner result followups rows found ≡ ok (r, rows')
    → Step rows rows'
unfolding complete_locked
complete_locked-Step now owner result followups j rows none e h = cc
complete_locked-Step now owner result followups j rows (some current) e h =
    elim (complete_locked-cases now owner result followups rows current h) [
      | inl same ↦ unchanged same
      | inr (run, new) ↦
          wrote current (completed now result followups current) (locked_at j rows current e)
            (ended run (λ p. cc p) refl) new
    ]

fail_locked-Step :
    (now : ℕ) (owner : Ownership) (f : Failure) (j : String) (rows : Store) (found : Option Receipt)
    {r : Receipt} {rows' : Store}
    → locked_job j rows ≡ found
    → fail_locked now owner f rows found ≡ ok (r, rows')
    → Step rows rows'
unfolding fail_locked
fail_locked-Step now owner f j rows none e h = cc
fail_locked-Step now owner f j rows (some current) e h =
    let (new, why) = fail_locked-cases now owner f rows current h in
    wrote current (failure_row now f current) (locked_at j rows current e)
      (elim why [
        | inl run ↦ ended run (λ p. cc p) refl
        | inr (was, again, spent, stop) ↦ used_up was again spent refl stop refl
      ])
      new

module _ (now : ℕ) (active : Option Ownership) where
  -- `complete` takes a step of the life cycle.
  pub complete-Step :
      (receipt : Receipt) (result followups : String) (rows : Store) {r : Receipt} {rows' : Store}
      → complete now active receipt result followups rows ≡ ok (r, rows')
      → Step rows rows'
  unfolding complete
  complete-Step receipt result followups rows h =
      let (owner, p, q) = bind-eq-ok (receipt_ownership active receipt) _ h in
      complete_locked-Step now owner result followups receipt.job_id rows
        (locked_job receipt.job_id rows) refl q

  -- `fail` takes a step of the life cycle.
  pub fail-Step :
      (receipt : Receipt) (f : Failure) (rows : Store) {r : Receipt} {rows' : Store}
      → fail now active receipt f rows ≡ ok (r, rows')
      → Step rows rows'
  unfolding fail
  fail-Step receipt f rows h =
      let (owner, p, q) = bind-eq-ok (receipt_ownership active receipt) _ h in
      fail_locked-Step now owner f receipt.job_id rows (locked_job receipt.job_id rows) refl q

create_claim-cases :
    (row : Receipt) (rows : Store) {r : Receipt} {b : Bool} {rows' : Store}
    → create_claim row rows ≡ ok ((r, b), rows')
    → (rows' ≡ rows) × (b ≡ false) ⊎ (rows' ≡ row ∷ rows) × (b ≡ true) × (r ≡ row)
unfolding create_claim
create_claim-cases row rows h = ground arith

module _ (fingerprint : Payload → String) (now : ℕ) (active : Option Ownership) where
  pub claim_existing-cases :
      (q : Request) (receipt : Receipt) (rows : Store) {c : Claim} {rows' : Store}
      → claim_existing fingerprint now active q receipt rows ≡ ok (c, rows')
      → (rows' ≡ rows) × (c.should_execute ≡ false)
        ⊎ (give_up fingerprint now active receipt rows ≡ ok (c, rows'))
        ⊎ (receipt.status ≡ failed)
          × (receipt.retryable ≡ true)
          × (receipt.attempt < 4)
          × (start_claim fingerprint now active q (some receipt) rows ≡ ok (c, rows'))
  unfolding claim_existing
  claim_existing-cases q receipt rows h = ground arith

  pub begin-cases :
      (q : Request) (receipt : Receipt) (rows : Store) {c : Claim} {rows' : Store}
      → begin fingerprint now active q (some receipt) rows ≡ ok (c, rows')
      → (rows' ≡ update (restarted receipt) rows) × (c.receipt ≡ restarted receipt)
  unfolding begin restart save
  begin-cases q receipt rows h = ground arith

  pub start_claim-cases :
      (q : Request) (existing : Option Receipt) (rows : Store) {c : Claim} {rows' : Store}
      → start_claim fingerprint now active q existing rows ≡ ok (c, rows')
      → (rows' ≡ rows) × (c.should_execute ≡ false)
        ⊎ (begin fingerprint now active q existing rows ≡ ok (c, rows'))
  unfolding start_claim
  start_claim-cases q existing rows h = ground arith

  pub give_up-Step :
      (receipt : Receipt) (rows : Store) {c : Claim} {rows' : Store}
      → give_up fingerprint now active receipt rows ≡ ok (c, rows')
      → Step rows rows' × (c.should_execute ≡ false)
  unfolding give_up
  give_up-Step receipt rows {c} {rows'} h =
      let ((r, rows''), p, q) = bind-eq-ok (fail now active receipt retries_exhausted rows) _ h in
      let same : rows'' ≡ rows' = ground (arith, q) in
      (
        subst (λ t. Step rows t) same (fail-Step now active receipt retries_exhausted rows p),
        ground (arith, q),
      )

  start_existing-Step :
      (q : Request) (receipt : Receipt) (rows : Store) {c : Claim} {rows' : Store}
      → locked_job q.job_id rows ≡ some receipt
      → receipt.status ≡ failed
      → receipt.retryable ≡ true
      → receipt.attempt < 4
      → start_claim fingerprint now active q (some receipt) rows ≡ ok (c, rows')
      → Step rows rows'
  start_existing-Step q receipt rows e was again room h =
      elim (start_claim-cases q (some receipt) rows h) [
        | inl (same, _) ↦ unchanged same
        | inr go ↦
            wrote receipt (restarted receipt) (locked_at q.job_id rows receipt e)
              (retried was again room refl refl) (begin-cases q receipt rows go).0
      ]

  pub begin_new-cases :
      (q : Request) (rows : Store) {c : Claim} {rows' : Store}
      → begin fingerprint now active q none rows ≡ ok (c, rows')
      → (rows' ≡ rows) × (c.should_execute ≡ false)
        ⊎ (rows' ≡ new_receipt fingerprint now active q ∷ rows)
          × (c.should_execute ≡ true)
          × (c.receipt ≡ new_receipt fingerprint now active q)
  unfolding begin create_claim
  begin_new-cases q rows h = ground arith

  start_new-Step :
      (q : Request) (rows : Store) {c : Claim} {rows' : Store}
      → locked_job q.job_id rows ≡ none
      → start_claim fingerprint now active q none rows ≡ ok (c, rows')
      → Step rows rows'
  unfolding new_receipt
  start_new-Step q rows e h = elim (start_claim-cases q none rows h) [
    | inl (same, _) ↦ unchanged same
    | inr go ↦ elim (begin_new-cases q rows go) [
      | inl (same, _) ↦ unchanged same
      | inr (new, _, _) ↦ created (new_receipt fingerprint now active q) e refl refl new
    ]
  ]

  claim_existing-Step :
      (q : Request) (receipt : Receipt) (rows : Store) {c : Claim} {rows' : Store}
      → locked_job q.job_id rows ≡ some receipt
      → claim_existing fingerprint now active q receipt rows ≡ ok (c, rows')
      → Step rows rows'
  claim_existing-Step q receipt rows e h = elim (claim_existing-cases q receipt rows h) [
    | inl (same, _) ↦ unchanged same
    | inr (inl spent) ↦ (give_up-Step receipt rows spent).0
    | inr (inr (was, again, room, start)) ↦
        start_existing-Step q receipt rows e was again room start
  ]

  -- Every claim that does not raise, whichever branch it takes, is a step of the life cycle.
  pub claim_execution-Step :
      (q : Request) (rows : Store) {c : Claim} {rows' : Store}
      → claim_execution fingerprint now active q rows ≡ ok (c, rows')
      → Step rows rows'
  unfolding claim_execution
  claim_execution-Step q rows {c} {rows'} h = elim (Option-cases (locked_job q.job_id rows)) [
    | inl e ↦
        let start : start_claim fingerprint now active q none rows ≡ ok (c, rows') =
          ground (arith, e, h) in
        start_new-Step q rows e start
    | inr (receipt, e) ↦
        let old : claim_existing fingerprint now active q receipt rows ≡ ok (c, rows') =
          ground (arith, e, h) in
        claim_existing-Step q receipt rows e old
  ]
