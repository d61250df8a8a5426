-- ===== src/Receipts/Exclusion.antt =====
-- What a granted claim excludes, and which exceptions a claim can raise.
use mathlib.Core.Path.{subst}
use text.Mathlib.TextEquality.{eq_iff}
use dotori.Prelude.{
  ℕ, String, ◌≡◌, ◌≢◌, refl, true, false, Option, some, none, [], ◌∷◌, arith, Option-cases, inl,
  inr, ok, All, List, Member, Member→any,
}
use dotori.Prelude.Classes.{string_eq, nat_eq, elem, Member→elem}
use dotori.Receipts.{
  Receipt, Store, running, Ownership, Request, Payload, Claim, locked_job, update, claim_execution,
  claim_existing, start_claim, begin, new_receipt, conflicting_job, conflicts_with, overlaps,
  or_empty, restarted,
}
use dotori.Receipts.Rows.{
  job_id-locked_job, locked_job-update_self, locked_job-cons_self, All-update,
}
use dotori.Receipts.Lifecycle.{
  locked_at, claim_existing-cases, give_up-Step, begin-cases, begin_new-cases,
}

-- No number stands in both lists.
abbrev pub Disjoint : List ℕ → List ℕ → Type 0
Disjoint xs ys = (n : ℕ) → Member n xs → ¬ Member n ys

-- Another running row is of another work or target, and shares no node and no chunk.
abbrev pub Excludes : Request → Receipt → Type 0
Excludes q r =
    r.job_id ≢ q.job_id
    → r.status ≡ running
    → (r.work_kind ≡ q.work_kind → r.target_key ≢ q.target_key)
      × Disjoint (or_empty q.source).node_ids r.source_snapshot.node_ids
      × Disjoint q.payload.chunk_ids r.source_snapshot.chunk_ids

overlaps-Disjoint : (xs ys : List ℕ) → overlaps xs ys ≡ false → Disjoint xs ys
unfolding overlaps
overlaps-Disjoint xs ys h n here there =
    cc (h, Member→any (λ x. elem x ys) xs n here (Member→elem n ys there))

separate :
    (q : Request) (r : Receipt)
    → conflicts_with q.work_kind q.target_key q.payload q.source r ≡ false
    → (r.work_kind ≡ q.work_kind → r.target_key ≢ q.target_key)
      × Disjoint (or_empty q.source).node_ids r.source_snapshot.node_ids
      × Disjoint q.payload.chunk_ids r.source_snapshot.chunk_ids
unfolding conflicts_with
separate q r h = (
  λ w t. ground (arith, h, eq_iff r.work_kind q.work_kind, eq_iff r.target_key q.target_key),
  overlaps-Disjoint _ _ (ground (arith, h)),
  overlaps-Disjoint _ _ (ground (arith, h)),
)

no_conflict-Excludes :
    (q : Request) (rows : Store)
    → conflicting_job q.job_id q.work_kind q.target_key q.payload q.source rows ≡ none
    → All (Excludes q) rows
unfolding conflicting_job
no_conflict-Excludes q [] h = tt
no_conflict-Excludes q (r ∷ rows) h = (
  λ other run. separate q r (ground (arith, eq_iff r.job_id q.job_id)),
  no_conflict-Excludes q rows (ground arith),
)

start_granted :
    (fingerprint : Payload → String) (now : ℕ) (active : Option Ownership) (q : Request)
    (existing : Option Receipt) (rows : Store) {c : Claim} {rows' : Store}
    → start_claim fingerprint now active q existing rows ≡ ok (c, rows')
    → c.should_execute ≡ true
    → (conflicting_job q.job_id q.work_kind q.target_key q.payload q.source rows ≡ none)
      × (begin fingerprint now active q existing rows ≡ ok (c, rows'))
unfolding start_claim
start_granted fingerprint now active q existing rows h g = ground arith

module _ (fingerprint : Payload → String) (now : ℕ) (active : Option Ownership) where
  restarted-granted :
      (q : Request) (receipt : Receipt) (rows : Store) {c : Claim} {rows' : Store}
      → locked_job q.job_id rows ≡ some receipt
      → start_claim fingerprint now active q (some receipt) rows ≡ ok (c, rows')
      → c.should_execute ≡ true
      → (locked_job q.job_id rows' ≡ some c.receipt)
        × (c.receipt.status ≡ running)
        × All (Excludes q) rows'
  restarted-granted q receipt rows e h g =
      let (free, go) = start_granted fingerprint now active q (some receipt) rows h g in
      let (new, same) = begin-cases fingerprint now active q receipt rows go in
      let id : receipt.job_id ≡ q.job_id = job_id-locked_job q.job_id rows receipt e in
      (
        rw (new, same)
            (subst (λ k. locked_job k (update (restarted receipt) rows) ≡ some (restarted receipt))
              id
              (locked_job-update_self (restarted receipt) rows receipt
                (locked_at q.job_id rows receipt e))),
        rw same refl,
        rw new (
            All-update (Excludes q) (restarted receipt) rows (λ other run. absurd (other id))
              (no_conflict-Excludes q rows free)),
      )

  new-granted :
      (q : Request) (rows : Store) {c : Claim} {rows' : Store}
      → start_claim fingerprint now active q none rows ≡ ok (c, rows')
      → c.should_execute ≡ true
      → (locked_job q.job_id rows' ≡ some c.receipt)
        × (c.receipt.status ≡ running)
        × All (Excludes q) rows'
  unfolding new_receipt
  new-granted q rows {c} {rows'} h g =
      let (free, go) = start_granted fingerprint now active q none rows h g in
      elim (begin_new-cases fingerprint now active q rows go) [
        | inl (_, off) ↦ absurd (cc (off, g))
        | inr (new, _, same) ↦ (
          rw (new, same) (locked_job-cons_self (new_receipt fingerprint now active q) rows),
          rw same refl,
          rw new ((λ other run. absurd (other refl)), no_conflict-Excludes q rows free),
        )
      ]

  -- A claim that is told to execute has its own row running in the table, and there is no other
  -- running row, in the table it leaves, of the same work and target, with one of the nodes of its
  -- source snapshot, or with one of the chunks of its payload.
  pub claim_execution-Excludes :
      (q : Request) (rows : Store) {c : Claim} {rows' : Store}
      → claim_execution fingerprint now active q rows ≡ ok (c, rows')
      → c.should_execute ≡ true
      → (locked_job q.job_id rows' ≡ some c.receipt)
        × (c.receipt.status ≡ running)
        × All (Excludes q) rows'
  unfolding claim_execution
  claim_execution-Excludes q rows {c} {rows'} h g = elim (Option-cases (locked_job q.job_id rows)) [
    | inl e ↦
        let start : start_claim fingerprint now active q none rows ≡ ok (c, rows') =
          ground (arith, e, h) in
        new-granted q rows start g
    | inr (receipt, e) ↦
        let old : claim_existing fingerprint now active q receipt rows ≡ ok (c, rows') =
          ground (arith, e, h) in
        elim (claim_existing-cases fingerprint now active q receipt rows old) [
          | inl (_, off) ↦ absurd (cc (off, g))
          | inr (inl spent) ↦
              absurd (cc ((give_up-Step fingerprint now active receipt rows spent).1, g))
          | inr (inr (_, _, _, start)) ↦ restarted-granted q receipt rows e start g
        ]
  ]
