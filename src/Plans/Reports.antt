-- ===== src/Plans/Reports.antt =====
-- Reports of plan steps: `report_from_receipt` and `requested_outputs_ready` of
-- app/orchestration/plans.py, and `completion_candidate` of app/orchestration/control.py.
pub mod Laws
use dotori.Prelude.{
  ℕ, String, Bool, true, false, not, ◌&&◌, ◌||◌, Option, some, none, List, [], ◌∷◌, map, any, all,
  filter, if◌then◌else◌, Result, ok, err, ◌>>=◌, ◌>>◌, require, raise_if,
}
use dotori.Prelude.Classes.{◌==◌, string_eq, elem, subset, distinct}
use dotori.Prelude.Text.{nonempty}
use dotori.Plans.{
  ExecutionPlan, PlanStep, StepReport, Status, running, succeeded, failed, Error,
  plan_validation_error, find_step, command_of,
}

-- The receipt that a report is made of.
pub record ReceiptView : Type 0 where
  pub job_id : String
  pub work_kind : String
  pub status : String

-- Artifact metadata as the owning domain gives it.
pub record Artifact : Type 0 where
  pub id : String
  pub schema : String
  pub status : String
  pub stale : Bool
  pub source_id : String
  pub source_revision : String
  pub source_checksum : String

unfoldable pub artifact_fits : ExecutionPlan → PlanStep → Artifact → Bool
artifact_fits plan step artifact =
    artifact.schema == step.output_schema
    && artifact.status == "ready"
    && not artifact.stale
    && nonempty artifact.id
    && artifact.source_id == plan.request.source.source_id
    && artifact.source_revision == plan.request.source.revision
    && (not (nonempty plan.request.source.checksum)
        || artifact.source_checksum == plan.request.source.checksum)

-- `status not in {"running", "succeeded", "failed"}`
unfoldable pub read_status : String → Result Error Status
read_status text =
    if text == "running"
    then ok running
    else if text == "succeeded"
    then ok succeeded
    else if text == "failed"
    then ok failed
    else err plan_validation_error

abbrev pub is_succeeded : Status → Bool
is_succeeded succeeded = true
is_succeeded _ = false

abbrev pub is_failed : Status → Bool
is_failed failed = true
is_failed _ = false

abbrev pub is_empty : {A : Type 0} → List A → Bool
is_empty [] = true
is_empty (x ∷ xs) = false

abbrev pub is_usable : StepReport → Bool
is_usable report = is_succeeded report.status && not (is_empty report.artifact_refs)

-- `{report.step_id for report in reports if report.status == "succeeded" and report.artifact_refs}`
abbrev pub ready_ids : List StepReport → List String
ready_ids reports = map (λ (r : StepReport). r.step_id) (filter is_usable reports)

abbrev pub ready_steps_of : ExecutionPlan → List StepReport → List PlanStep
ready_steps_of plan reports = filter (λ s. elem s.step_id (ready_ids reports)) plan.steps

-- `"completed"`, `"failed"` and `"pending"`.
pub data Outcome : Type 0 where
  completed broken pending : Outcome

module _ (uuid5 : String → String) where
  unfoldable pub report_for_step :
      ExecutionPlan → PlanStep → ReceiptView → List Artifact → Result Error StepReport
  report_for_step plan step receipt artifacts = do
    let command = command_of uuid5 plan step
    require (receipt.job_id == command.job_id && receipt.work_kind == command.work_kind)
        plan_validation_error
    require (all (artifact_fits plan step) artifacts) plan_validation_error
    status ← read_status receipt.status
    let refs = map (λ (a : Artifact). a.id) artifacts
    raise_if (is_succeeded status && is_empty refs) plan_validation_error
    ok (record {
      plan_id = plan.plan_id;
      step_id = step.step_id;
      job_id = command.job_id;
      status = status;
      artifact_refs = refs;
    })

  unfoldable pub report_from_receipt :
      ExecutionPlan → String → ReceiptView → List Artifact → Result Error StepReport
  report_from_receipt plan step_id receipt artifacts = elim (find_step step_id plan.steps) [
    | none ↦ err plan_validation_error
    | some step ↦ report_for_step plan step receipt artifacts
  ]

  unfoldable pub report_belongs : ExecutionPlan → StepReport → Bool
  report_belongs plan report = elim (find_step report.step_id plan.steps) [
    | none ↦ false
    | some step ↦
        report.plan_id == plan.plan_id && report.job_id == (command_of uuid5 plan step).job_id
  ]

  unfoldable pub requested_outputs_ready : ExecutionPlan → List StepReport → Result Error Bool
  requested_outputs_ready plan reports = do
    require (distinct (map (λ (r : StepReport). r.step_id) reports)) plan_validation_error
    require (all (report_belongs plan) reports) plan_validation_error
    let ready = ready_ids reports
    ok (
        all (λ s. subset s.depends_on ready) (ready_steps_of plan reports)
        && subset plan.request.required_schemas
            (map (λ (s : PlanStep). s.output_schema) (ready_steps_of plan reports)))

  unfoldable pub completion_candidate : ExecutionPlan → List StepReport → Result Error Outcome
  completion_candidate plan reports = do
    done ← requested_outputs_ready plan reports
    ok (
        if done
        then completed
        else if any (λ r. is_failed r.status) reports
        then broken
        else pending)
