-- ===== src/Submissions.antt =====
-- The journal of submitted plans: the tables of app/orchestration_state/models.py, the checks on
-- one submission of app/orchestration/submissions.py, and the compiled commands of
-- app/orchestration/command_inputs.py. The domain adapters, the admission of a work kind, the
-- broker and the text of an exception are an environment.
pub mod Commands
pub mod Publication
pub mod Responses
pub mod Once
pub mod Calls
pub mod Steps
pub mod Settled
pub mod Intake
pub mod Deliveries
pub mod Resubmission
pub mod Ready
mod Tests
use dotori.Prelude.{
  ℕ, String, Bool, true, false, not, ◌&&◌, ◌||◌, Option, some, none, List, [], ◌∷◌, find?,
  if◌then◌else◌, Result, ok, err, ◌>>=◌, ◌>>◌, require,
}
use dotori.Prelude.Classes.{◌==◌, nat_eq, string_eq, elem}
use dotori.Prelude.Dicts.{Dict, get}
use dotori.Bindings
use dotori.Bindings.{ArtifactBinding, ResolvedArtifact}
use dotori.Plans.Loading.{Submission}
use dotori.Plans.{
  Error, work_contract_error, stop_iteration, ExecutionPlan, PlanStep, StepCommand, StepReport,
  Status, running, succeeded, failed, Payload, command_for_step, find_step,
}
use dotori.Plans.Reports.{ReceiptView, Outcome}
use dotori.Plans.Contracts.{Proposal, get_work_definition}
use dotori.Plans.Control.{Verdict}

-- An entry of `control["compiled_commands"]`.
pub record Compiled : Type 0 where
  pub command : StepCommand
  pub input : ResolvedArtifact

-- A row of `PlanSubmission`; the three keys of its `control` are fields.
pub record Row : Type 0 where
  pub submission : Submission
  pub workspace : ℕ
  pub created_by : ℕ
  pub reports : Dict StepReport
  pub proposals : Dict (List Proposal)
  pub is_preparation : Bool
  pub compiled : Dict Compiled
  pub outcome : Option Outcome
  pub decisions : Dict (List Verdict)
  pub published_at : Option ℕ
  pub publish_error : String

-- A row of `PlanCommandDelivery`, under its step's identity in the plan's deliveries.
pub record Delivery : Type 0 where
  pub job_id : String
  pub published_at : Option ℕ
  pub publish_error : String

-- A task that is handed to the broker.
pub record Message : Type 0 where
  pub command : StepCommand
  pub parent_job_id : String
  pub task_name : String
  pub queue : String

-- `PlanDomainAdapter` and `BoundInputPlanAdapter`; a port that an adapter lacks is `none`.
pub record PlanAdapter : Type 0 where
  pub validate : ExecutionPlan → Row → Result Error (Unit {0})
  pub validate_preparation : ExecutionPlan → Row → Result Error (Unit {0})
  pub source_guard : ExecutionPlan → Row → Result Error (Unit {0})
  pub report : ExecutionPlan → Row → ReceiptView → Result Error StepReport
  pub resolve_input : Option (
      ExecutionPlan
      → Row
      → Option String
      → ArtifactBinding
      → Result Bindings.Error ResolvedArtifact)
  pub compile_command :
      Option (ExecutionPlan → Row → PlanStep → ResolvedArtifact → Result Error Payload)
  pub validate_compiled :
      Option (ExecutionPlan → Row → PlanStep → Payload → ResolvedArtifact → Result Error (Unit {0}))

pub record Environment : Type 0 where
  pub uuid5 : String → String
  pub validator : String → Payload → Result Error (Unit {0})
  pub load_adapter : String → Result Error PlanAdapter
  pub admitted_work : String → Result Error (Unit {0})
  pub send_task : Message → Result Error (Unit {0})
  -- What the saves of the delivery and the row after a send raise, at a time, for a step.
  pub save_published : ℕ → String → Result Error (Unit {0})
  pub text_of : Error → String

abbrev pub status_text : Status → String
status_text running = "running"
status_text succeeded = "succeeded"
status_text failed = "failed"

-- `next(step for step in plan.steps if step.step_id == step_id)`
unfoldable pub next_step : ExecutionPlan → String → Result Error PlanStep
next_step plan step_id = elim (find_step step_id plan.steps) [
  | none ↦ err stop_iteration
  | some step ↦ ok step
]

abbrev pub has_identity : ExecutionPlan → String → String → StepReport → Bool
has_identity plan step_id job_id r =
    r.plan_id == plan.plan_id && r.step_id == step_id && r.job_id == job_id

module _ (env : Environment) where
  -- Every composition's work is also a registered one, so both lookups of `get_plan_adapter` agree.
  unfoldable pub get_plan_adapter : String → Result Error PlanAdapter
  get_plan_adapter kind = do _ ← get_work_definition kind; env.load_adapter kind

  abbrev pub validate_with : Row → ExecutionPlan → PlanAdapter → Result Error (Unit {0})
  validate_with row plan adapter =
      if row.is_preparation
      then adapter.validate_preparation plan row
      else adapter.validate plan row

  -- The loop over the distinct kinds of the steps, in the order of the steps.
  unfoldable pub validate_kinds :
      Row → ExecutionPlan → List String → List PlanStep → Result Error (Unit {0})
  validate_kinds row plan seen [] = ok tt
  validate_kinds row plan seen (step ∷ steps) = do
    elim (elem step.work_kind seen) [
      | true ↦ ok tt
      | false ↦ get_plan_adapter step.work_kind >>= validate_with row plan
    ]
    validate_kinds row plan (step.work_kind ∷ seen) steps

  unfoldable pub validate_submission : Row → ExecutionPlan → Result Error (Unit {0})
  validate_submission row plan = validate_kinds row plan [] plan.steps

  -- `parent_job`
  unfoldable pub parent_job : ExecutionPlan → PlanStep → Result Error String
  parent_job plan step = elim step.depends_on [
    | [] ↦ ok plan.plan_id
    | dep ∷ deps ↦ command_for_step env.uuid5 plan dep >>= λ (c : StepCommand). ok c.job_id
  ]

  -- The report that the domain gives of a step now, for the one that is stored.
  unfoldable pub live_report : Row → ExecutionPlan → PlanStep → StepReport → Result Error StepReport
  live_report row plan step stored = do
    command ← command_for_step env.uuid5 plan step.step_id
    require (has_identity plan step.step_id command.job_id stored) work_contract_error
    adapter ← get_plan_adapter step.work_kind
    report ← adapter.report plan row (record {
      job_id = command.job_id;
      work_kind = step.work_kind;
      status = status_text stored.status;
    })
    require (has_identity plan step.step_id command.job_id report) work_contract_error
    ok report

  unfoldable pub live_reports_from :
      Row → ExecutionPlan → List PlanStep → Result Error (List StepReport)
  live_reports_from row plan [] = ok []
  live_reports_from row plan (step ∷ steps) = elim (get step.step_id row.reports) [
    | none ↦ live_reports_from row plan steps
    | some stored ↦ (do
      report ← live_report row plan step stored
      reports ← live_reports_from row plan steps
      ok (report ∷ reports))
  ]

  unfoldable pub live_reports : Row → ExecutionPlan → Result Error (List StepReport)
  live_reports row plan = live_reports_from row plan plan.steps
