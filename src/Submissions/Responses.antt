-- ===== src/Submissions/Responses.antt =====
-- Responses of executors: `PlanDelivery` of app/orchestration/submissions.py, and the journal's
-- operations as calls.
use dotori.Prelude.{
  ℕ, String, Bool, true, false, not, ◌&&◌, Option, some, none, List, [], ◌∷◌, if◌then◌else◌, Result,
  ok, err, ◌>>=◌, ◌>>◌, require, raise_if,
}
use dotori.Prelude.Classes.{◌==◌, nat_eq, string_eq, subset}
use dotori.Prelude.Dicts.{Dict, get, put}
use dotori.Plans.Loading.{load_submission}
use dotori.Plans.{
  Error, work_contract_error, plan_validation_error, does_not_exist, attribute_error, ExecutionPlan,
  PlanStep, StepCommand, StepReport, Payload, payload_equals,
}
use dotori.Plans.Reports.{ReceiptView, is_succeeded, ready_ids, completion_candidate}
use dotori.Plans.Contracts.{Proposal, validate_followups}
use dotori.Plans.Control.{Verdict, lineage_fits, decide_proposals}
use dotori.Submissions.{
  Environment, Row, next_step, get_plan_adapter, validate_submission, live_reports, parent_job,
  has_identity,
}
use dotori.Submissions.Commands.{stored_command, approved_commands}
use dotori.Submissions.Publication.{Journal, delivery_of, publish_step, publish_submission}

-- A task's envelope; `parent_job_id` is `none` where the key is missing and `some none` where it is
-- null.
pub record Envelope : Type 0 where
  pub plan_id : String
  pub step_id : String
  pub job_id : String
  pub deadline_at : ℕ
  pub parent_job_id : Option (Option String)

pub record Response : Type 0 where
  pub receipt : ReceiptView
  pub followups : List Proposal

-- The exceptions that `_approved_delivery` turns into a `WorkContractError`.
abbrev pub contracted : {A : Type 0} → Result Error A → Result Error A
contracted (ok a) = ok a
contracted (err attribute_error) = err attribute_error
contracted (err e) = err work_contract_error

-- `envelope.get("parent_job_id") == parent`
abbrev pub names_parent : Option (Option String) → String → Bool
names_parent (some (some p)) parent = p == parent
names_parent _ parent = false

abbrev pub has_dependencies : PlanStep → Bool
has_dependencies step = elim step.depends_on [ [] ↦ false | d ∷ ds ↦ true ]

abbrev pub is_success : Option StepReport → Bool
is_success none = false
is_success (some r) = is_succeeded r.status

-- The row with the report and its proposals stored.
abbrev pub with_report : StepReport → List Proposal → Row → Row
with_report report followups row = record row {
  reports = put report.step_id report row.reports;
  proposals = put report.step_id followups row.proposals;
}

module _ (env : Environment) where
  unfoldable pub matches_command :
      ExecutionPlan
      → PlanStep
      → String
      → Envelope
      → Payload
      → StepCommand
      → String
      → Result Error (Unit {0})
  matches_command plan step kind envelope payload command parent = do
    require
        (kind == command.work_kind
          && envelope.job_id == command.job_id
          && payload_equals payload command.payload
          && envelope.deadline_at == command.deadline_at
          && lineage_fits envelope.parent_job_id parent)
        plan_validation_error

  unfoldable pub approved_checks : String → Envelope → Payload → Journal → Result Error (Unit {0})
  approved_checks kind envelope payload j = do
    require (j.row.submission.plan_id == envelope.plan_id) work_contract_error
    raise_if j.row.is_preparation work_contract_error
    plan ← load_submission env.uuid5 j.row.submission
    step ← next_step plan envelope.step_id
    command ← stored_command env j.row plan step
    parent ← parent_job env plan step
    matches_command plan step kind envelope payload command parent
    delivery ← delivery_of step.step_id j
    require (delivery.job_id == command.job_id) does_not_exist
    raise_if (has_dependencies step && not (names_parent envelope.parent_job_id parent))
        work_contract_error

  unfoldable pub approved_delivery : String → Envelope → Payload → Journal → Result Error (Unit {0})
  approved_delivery kind envelope payload j = contracted (approved_checks kind envelope payload j)

  unfoldable pub authorize : String → Envelope → Payload → Journal → Result Error (Unit {0})
  authorize kind envelope payload j = do
    approved_delivery kind envelope payload j
    plan ← load_submission env.uuid5 j.row.submission
    step ← next_step plan envelope.step_id
    validate_submission env j.row plan
    reports ← live_reports env j.row plan
    require (subset step.depends_on (ready_ids reports)) work_contract_error

  unfoldable pub decide_all :
      ExecutionPlan
      → List StepReport
      → List StepCommand
      → Dict (List Proposal)
      → Result Error (Dict (List Verdict))
  decide_all plan reports commands [] = ok []
  decide_all plan reports commands ((step_id, proposals) ∷ rest) = do
    verdicts ←
        decide_proposals env.uuid5 env.validator plan proposals (some step_id) reports
          (some commands)
    others ← decide_all plan reports commands rest
    ok ((step_id, verdicts) ∷ others)

  -- The outcome and the decisions that the new reports lead to.
  unfoldable pub judge_row : ExecutionPlan → Row → Result Error Row
  judge_row plan row = do
    reports ← live_reports env row plan
    outcome ← completion_candidate env.uuid5 plan reports
    commands ← approved_commands env row plan
    decisions ← decide_all plan reports commands row.proposals
    ok (record row { outcome = some outcome; decisions = decisions })

  -- The transaction of `record_response`.
  unfoldable pub store_response :
      String → Envelope → Payload → Response → Journal → Result Error (StepReport × Journal)
  store_response kind envelope payload response j = do
    plan ← load_submission env.uuid5 j.row.submission
    approved_delivery kind envelope payload j
    adapter ← get_plan_adapter env kind
    report ← adapter.report plan j.row response.receipt
    require (has_identity plan envelope.step_id envelope.job_id report) work_contract_error
    raise_if (is_success (get report.step_id j.row.reports) && not (is_succeeded report.status))
        work_contract_error
    row ← judge_row plan (with_report report response.followups j.row)
    ok (report, record j { row = row })

  unfoldable pub accept_response :
      String → Envelope → Payload → Response → Journal → Result Error (StepReport × Journal)
  accept_response kind envelope payload response j = do
    approved_delivery kind envelope payload j
    validate_followups env.validator response.followups
    store_response kind envelope payload response j

  -- `record_response`: a success publishes what it makes ready, after the commit.
  unfoldable pub record_response :
      ℕ → String → Envelope → Payload → Response → Journal → Result Error StepReport × Journal
  record_response now kind envelope payload response j =
      elim (accept_response kind envelope payload response j) [
        | err e ↦ (err e, j)
        | ok (report, j') ↦
            if is_succeeded report.status
            then (let (outcome, j'') = publish_submission env now false false j' in
                (outcome >>= (λ _. ok report), j''))
            else (ok report, j')
      ]

  -- A call of the journal, with its clock.
  pub data Call : Type 0 where
    publish_one : ℕ → Bool → Bool → String → Call
    publish_all : ℕ → Bool → Bool → Call
    respond : ℕ → String → Envelope → Payload → Response → Call

  unfoldable pub apply_call : Call → Journal → Journal
  apply_call (publish_one now in_transaction replay step_id) j =
      (publish_step env now in_transaction replay step_id j).1
  apply_call (publish_all now in_transaction replay) j =
      (publish_submission env now in_transaction replay j).1
  apply_call (respond now kind envelope payload response) j =
      (record_response now kind envelope payload response j).1

  unfoldable pub run_calls : List Call → Journal → Journal
  run_calls [] j = j
  run_calls (c ∷ calls) j = run_calls calls (apply_call c j)
