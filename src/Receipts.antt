-- ===== src/Receipts.antt =====
-- Executor receipts: app/orchestration/receipts.py over the repository of
-- app/documents/services/receipt_repository.py and the table of app/documents/models/operations.py.
-- A store is the table's rows in the order a query yields them. A method returns its result beside
-- the rows it leaves, or the exception that rolls its transaction back. The SHA-256 of a payload's
-- canonical JSON and the clock are parameters; JSON values stand as their canonical text.
pub mod Rows
pub mod Exclusion
pub mod Runs
pub mod Errors
pub mod Lifecycle
mod Tests
use dotori.Prelude.{
  ℕ, ◌+◌, String, Bool, true, false, not, ◌&&◌, ◌||◌, Option, none, some, List, [], ◌∷◌, any, find?,
  leb, if◌then◌else◌, Result, ok, err, ◌>>=◌, ◌>>◌, require, raise_if,
}
use dotori.Prelude.Classes.{◌==◌, nat_eq, string_eq, list_eq, elem}

pub data Status : Type 0 where
  running succeeded failed : Status

abbrev pub is_running : Status → Bool
is_running running = true
is_running _ = false

abbrev pub is_succeeded : Status → Bool
is_succeeded succeeded = true
is_succeeded _ = false

abbrev pub is_failed : Status → Bool
is_failed failed = true
is_failed _ = false

-- What the conflict policy reads of a snapshot, and the whole of it as canonical text.
pub record Snapshot : Type 0 where
  pub node_ids : List ℕ
  pub chunk_ids : List ℕ
  pub text : String

pub record Payload : Type 0 where
  pub chunk_ids : List ℕ
  pub text : String

abbrev pub no_snapshot : Snapshot
no_snapshot = record { node_ids = []; chunk_ids = []; text = "{}" }

pub record Receipt : Type 0 where
  pub job_id : String
  pub work_kind : String
  pub target_key : String
  pub payload_fingerprint : String
  pub source_snapshot : Snapshot
  pub runtime_snapshot : Snapshot
  pub status : Status
  pub attempt : ℕ
  pub result : String
  pub error : Option (String × String)
  pub retryable : Bool
  pub followups : String
  pub finished_at : Option ℕ

pub data Error : Type 0 where
  job_conflict ownership_lost does_not_exist integrity_error : Error

-- `ExecutionOwnership`: the fields that a stale attempt cannot share with a newer one.
pub record Ownership : Type 0 where
  pub job_id : String
  pub work_kind : String
  pub target_key : String
  pub payload_fingerprint : String
  pub attempt : ℕ

abbrev pub capture : Receipt → Ownership
capture r = record {
  job_id = r.job_id;
  work_kind = r.work_kind;
  target_key = r.target_key;
  payload_fingerprint = r.payload_fingerprint;
  attempt = r.attempt;
}

pub same_ownership : Ownership → Ownership → Bool
same_ownership a b =
    a.job_id == b.job_id
    && a.work_kind == b.work_kind
    && a.target_key == b.target_key
    && a.payload_fingerprint == b.payload_fingerprint
    && a.attempt == b.attempt

pub validate_ownership : Ownership → Receipt → Result Error (Unit {0})
validate_ownership owner current = require (same_ownership owner (capture current)) ownership_lost

-- The context variable `active_receipt_ownership` is the first argument.
pub receipt_ownership : Option Ownership → Receipt → Result Error Ownership
receipt_ownership none receipt = ok (capture receipt)
receipt_ownership (some owner) receipt = do
  require (owner.job_id == receipt.job_id) ownership_lost
  ok owner

pub record Claim : Type 0 where
  pub receipt : Receipt
  pub should_execute : Bool

abbrev pub Store : Type 0
Store = List Receipt

pub locked_job : String → Store → Option Receipt
locked_job job_id = find? (λ r. r.job_id == job_id)

pub overlaps : List ℕ → List ℕ → Bool
overlaps xs ys = any (λ x. elem x ys) xs

abbrev pub or_empty : Option Snapshot → Snapshot
or_empty none = no_snapshot
or_empty (some s) = s

-- The test in the loop of `conflicting_job`.
pub conflicts_with : String → String → Payload → Option Snapshot → Receipt → Bool
conflicts_with work_kind target_key payload source active =
    active.work_kind == work_kind && active.target_key == target_key
    || overlaps (or_empty source).node_ids active.source_snapshot.node_ids
    || overlaps payload.chunk_ids active.source_snapshot.chunk_ids

pub conflicting_job : String → String → String → Payload → Option Snapshot → Store → Option Receipt
conflicting_job job_id work_kind target_key payload source = find? (λ r.
    is_running r.status
    && not (r.job_id == job_id)
    && conflicts_with work_kind target_key payload source r)

-- The partial unique index `docai_exec_one_active_target`, as a row meets it.
pub blocked_by_index : Receipt → Store → Bool
blocked_by_index row = any (λ r.
    not (r.job_id == row.job_id)
    && is_running r.status
    && r.work_kind == row.work_kind
    && r.target_key == row.target_key)

pub update : Receipt → Store → Store
update row [] = []
update row (r ∷ rs) = (if r.job_id == row.job_id then row else r) ∷ update row rs

-- `row.save(...)`: a running row may not share its target with another running row.
pub save : Receipt → Store → Result Error (Receipt × Store)
save row rows = do
  raise_if (is_running row.status && blocked_by_index row rows) integrity_error
  ok (row, update row rows)

abbrev pub restarted : Receipt → Receipt
restarted receipt = record receipt {
  status = running;
  attempt = receipt.attempt + 1;
  error = none;
  retryable = false;
  finished_at = none;
  result = "{}";
}

pub restart : Receipt → Store → Result Error (Receipt × Store)
restart receipt = save (restarted receipt)

-- `objects.create` of a running row, and the row that the violated index names otherwise.
pub create_claim : Receipt → Store → Result Error ((Receipt × Bool) × Store)
create_claim row rows =
    if any (λ r. r.job_id == row.job_id) rows || blocked_by_index row rows
    then elim (find?
        (λ r. r.work_kind == row.work_kind && r.target_key == row.target_key && is_running r.status)
        rows) [ none ↦ err does_not_exist | some r ↦ ok ((r, false), rows) ]
    else ok ((row, true), row ∷ rows)

-- The row that `complete` saves.
abbrev pub completed : ℕ → String → String → Receipt → Receipt
completed now result followups current = record current {
  status = succeeded;
  result = result;
  followups = followups;
  error = none;
  retryable = false;
  finished_at = some now;
}

-- The body of `complete` on the locked row.
pub complete_locked :
    ℕ → Ownership → String → String → Store → Option Receipt → Result Error (Receipt × Store)
complete_locked now owner result followups rows none = err does_not_exist
complete_locked now owner result followups rows (some current) = do
  validate_ownership owner current
  if is_succeeded current.status && current.result == result && current.followups == followups
      then ok (current, rows)
      else do
        require (is_running current.status) ownership_lost
        save (completed now result followups current) rows

-- `code`, `message` (as sliced by `message[:1000]`), `retryable` and `result` of `fail`.
pub record Failure : Type 0 where
  pub code : String
  pub message : String
  pub retryable : Bool
  pub result : Option String

abbrev pub failure_row : ℕ → Failure → Receipt → Receipt
failure_row now f current = record current {
  status = failed;
  error = some (f.code, f.message);
  retryable = f.retryable;
  result = elim f.result [ none ↦ current.result | some given ↦ given ];
  finished_at = some now;
}

-- `exhausted` in `fail`.
abbrev pub is_exhausted : Failure → Receipt → Bool
is_exhausted f current =
    f.code == "RETRIES_EXHAUSTED"
    && is_failed current.status
    && current.retryable
    && leb 4 current.attempt
    && not f.retryable

pub fail_locked : ℕ → Ownership → Failure → Store → Option Receipt → Result Error (Receipt × Store)
fail_locked now owner f rows none = err does_not_exist
fail_locked now owner f rows (some current) = do
  validate_ownership owner current
  require (is_running current.status || is_exhausted f current) ownership_lost
  save (failure_row now f current) rows

module _ (now : ℕ) (active : Option Ownership) where
  pub complete : Receipt → String → String → Store → Result Error (Receipt × Store)
  complete receipt result followups rows = do
    owner ← receipt_ownership active receipt
    complete_locked now owner result followups rows (locked_job receipt.job_id rows)

  pub fail : Receipt → Failure → Store → Result Error (Receipt × Store)
  fail receipt f rows = do
    owner ← receipt_ownership active receipt
    fail_locked now owner f rows (locked_job receipt.job_id rows)

abbrev pub retries_exhausted : Failure
retries_exhausted = record {
  code = "RETRIES_EXHAUSTED";
  message = "Execution attempts exhausted";
  retryable = false;
  result = none;
}

abbrev pub same_snapshot : Snapshot → Snapshot → Bool
same_snapshot a b = a.node_ids == b.node_ids && a.chunk_ids == b.chunk_ids && a.text == b.text

-- `source_snapshot is not None and receipt.source_snapshot != source_snapshot`
abbrev pub changed : Option Snapshot → Snapshot → Bool
changed none stored = false
changed (some given) stored = not (same_snapshot stored given)

-- The arguments of `claim_execution`.
pub record Request : Type 0 where
  pub job_id : String
  pub work_kind : String
  pub target_key : String
  pub payload : Payload
  pub source : Option Snapshot
  pub runtime : Option Snapshot

module _ (fingerprint : Payload → String) (now : ℕ) (active : Option Ownership) where
  pub new_receipt : Request → Receipt
  new_receipt q = record {
    job_id = q.job_id;
    work_kind = q.work_kind;
    target_key = q.target_key;
    payload_fingerprint = fingerprint q.payload;
    source_snapshot = or_empty q.source;
    runtime_snapshot = or_empty q.runtime;
    status = running;
    attempt = 1;
    result = "{}";
    error = none;
    retryable = false;
    followups = "[]";
    finished_at = none;
  }

  -- `restart` or `create_claim`, when no other job conflicts.
  pub begin : Request → Option Receipt → Store → Result Error (Claim × Store)
  begin q (some receipt) rows = do
    (r, rows') ← restart receipt rows
    ok (record { receipt = r; should_execute = true }, rows')
  begin q none rows = do
    ((r, created), rows') ← create_claim (new_receipt q) rows
    ok (record { receipt = r; should_execute = created }, rows')

  -- The tail of `claim_execution`, after the checks of an existing receipt.
  pub start_claim : Request → Option Receipt → Store → Result Error (Claim × Store)
  start_claim q existing rows =
      elim (conflicting_job q.job_id q.work_kind q.target_key q.payload q.source rows) [
        | some r ↦ ok (record { receipt = r; should_execute = false }, rows)
        | none ↦ begin q existing rows
      ]

  -- `RETRIES_EXHAUSTED`
  pub give_up : Receipt → Store → Result Error (Claim × Store)
  give_up receipt rows = do
    (r, rows') ← fail now active receipt retries_exhausted rows
    ok (record { receipt = r; should_execute = false }, rows')

  pub claim_existing : Request → Receipt → Store → Result Error (Claim × Store)
  claim_existing q receipt rows = do
    require
        (receipt.work_kind == q.work_kind && receipt.payload_fingerprint == fingerprint q.payload)
        job_conflict
    if is_running receipt.status || is_succeeded receipt.status || not receipt.retryable
        then ok (record { receipt = receipt; should_execute = false }, rows)
        else do
          raise_if (changed q.source receipt.source_snapshot) job_conflict
          raise_if (changed q.runtime receipt.runtime_snapshot) job_conflict
          if leb 4 receipt.attempt then give_up receipt rows else start_claim q (some receipt) rows

  pub claim_execution : Request → Store → Result Error (Claim × Store)
  claim_execution q rows = elim (locked_job q.job_id rows) [
    | none ↦ start_claim q none rows
    | some receipt ↦ claim_existing q receipt rows
  ]

-- A call of the receipt service, with its clock and the context's owner.
pub data Call : Type 0 where
  claim : ℕ → Option Ownership → Request → Call
  finish : ℕ → Option Ownership → Receipt → String → String → Call
  failure : ℕ → Option Ownership → Receipt → Failure → Call

-- The table that a transaction leaves: an exception rolls it back.
abbrev pub commit : {A : Type 0} → Store → Result Error (A × Store) → Store
commit rows (ok (_, rows')) = rows'
commit rows (err _) = rows

pub apply_call : (Payload → String) → Call → Store → Store
apply_call fingerprint (claim now active q) rows =
    commit rows (claim_execution fingerprint now active q rows)
apply_call fingerprint (finish now active receipt result followups) rows =
    commit rows (complete now active receipt result followups rows)
apply_call fingerprint (failure now active receipt f) rows =
    commit rows (fail now active receipt f rows)

pub run_calls : (Payload → String) → List Call → Store → Store
run_calls fingerprint [] rows = rows
run_calls fingerprint (c ∷ calls) rows = run_calls fingerprint calls (apply_call fingerprint c rows)
