-- ===== src/Receipts/Rows.antt =====
-- The rows of the receipt table under `update`: which row a job identity names afterwards.
use text.Mathlib.TextEquality.{eq_iff}
use dotori.Prelude.{
  if◌then◌else◌, none, String, ◌≡◌, ◌≢◌, refl, some, [], ◌∷◌, arith, All, Bool-cases, inl, inr, ok,
}
use dotori.Prelude.Classes.{string_eq, nat_eq, ◌==◌}
use dotori.Receipts.{Receipt, Store, locked_job, update, save}

pub job_id-locked_job :
    (j : String) (rows : Store) (r : Receipt) → locked_job j rows ≡ some r → r.job_id ≡ j
unfolding locked_job
job_id-locked_job j [] r h = cc
job_id-locked_job j (x ∷ rows) r h = ground (arith, eq_iff x.job_id j, job_id-locked_job j rows r)

-- A saved row is the row of its job.
pub locked_job-update_self :
    (row : Receipt) (rows : Store) (r : Receipt)
    → locked_job row.job_id rows ≡ some r
    → locked_job row.job_id (update row rows) ≡ some row
unfolding locked_job update
locked_job-update_self row [] r h = cc
locked_job-update_self row (x ∷ rows) r h = ground (
  arith,
  eq_iff x.job_id row.job_id,
  eq_iff row.job_id row.job_id,
  locked_job-update_self row rows r,
)

-- The other jobs keep their rows.
pub locked_job-update_ne :
    (j : String) (row : Receipt) (rows : Store)
    → row.job_id ≢ j
    → locked_job j (update row rows) ≡ locked_job j rows
unfolding locked_job update
locked_job-update_ne j row [] h = refl
locked_job-update_ne j row (x ∷ rows) h = ground (
  arith,
  eq_iff x.job_id row.job_id,
  eq_iff x.job_id j,
  eq_iff row.job_id j,
  locked_job-update_ne j row rows,
)

-- A predicate of every row survives a save of a row that has it.
pub All-update :
    (P : Receipt → Type 0) (row : Receipt) (rows : Store)
    → P row
    → All P rows
    → All P (update row rows)
unfolding update
All-update P row [] p h = tt
All-update P row (x ∷ rows) p h = (
  elim (Bool-cases (x.job_id == row.job_id)) [ inl e ↦ rw e p | inr e ↦ rw e h.0 ],
  All-update P row rows p h.1,
)

pub All-locked_job :
    (P : Receipt → Type 0) (j : String) (rows : Store) (r : Receipt)
    → All P rows
    → locked_job j rows ≡ some r
    → P r
unfolding locked_job
All-locked_job P j [] r h e = cc
All-locked_job P j (x ∷ rows) r h e = elim (Bool-cases (x.job_id == j)) [
  | inl here ↦ let q : x ≡ r = ground (arith, here) in rw q at h.0
  | inr there ↦ All-locked_job P j rows r h.1 (rw there at e)
]

-- A save that the index admits writes the row and returns it.
pub save-eq-ok :
    (row : Receipt) (rows : Store) {r : Receipt} {rows' : Store}
    → save row rows ≡ ok (r, rows')
    → (r ≡ row) × (rows' ≡ update row rows)
unfolding save
save-eq-ok row rows h = ground arith

pub locked_job-cons :
    (j : String) (row : Receipt) (rows : Store)
    → locked_job j (row ∷ rows) ≡ (if row.job_id == j then some row else locked_job j rows)
unfolding locked_job
locked_job-cons j row rows = refl

-- A new row hides no other job.
pub locked_job-cons_kept :
    (j : String) (row : Receipt) (rows : Store) (r : Receipt)
    → locked_job row.job_id rows ≡ none
    → locked_job j rows ≡ some r
    → locked_job j (row ∷ rows) ≡ some r
locked_job-cons_kept j row rows r new h =
    ground (arith, locked_job-cons j row rows, eq_iff row.job_id j)

pub locked_job-cons_self :
    (row : Receipt) (rows : Store) → locked_job row.job_id (row ∷ rows) ≡ some row
locked_job-cons_self row rows =
    ground (arith, locked_job-cons row.job_id row rows, eq_iff row.job_id row.job_id)
