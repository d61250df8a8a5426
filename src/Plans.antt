-- ===== src/Plans.antt =====
-- Static plans: app/orchestration/plans.py, with their records in Plans/Stored and
-- `load_submission` of app/orchestration/submissions.py in Plans/Loading.
-- A payload is its keys in canonical order beside its canonical JSON text. A deadline is a count of
-- clock ticks. `uuid5` over the URL namespace is a parameter.
pub mod Stored
pub mod Loading
pub mod Linkage
pub mod Records
pub mod Reports
pub mod Contracts
pub mod Control
mod Tests
use Prim.Native.String.{◌++◌ as text_append}
use dotori.Prelude.{
  ℕ, ◌+◌, String, Bool, true, false, not, ◌&&◌, ◌||◌, Option, some, none, List, [], ◌∷◌, any, find?,
  if◌then◌else◌, Result, ok, err, ◌>>=◌, ◌>>◌, require, raise_if,
}
use dotori.Prelude.Classes.{◌==◌, nat_eq, string_eq, list_eq, elem}
use dotori.Prelude.Dicts.{}
use dotori.Prelude.Text.{}
use dotori.Bindings
use dotori.Bindings.{ArtifactBinding, SourceReference, validate_artifact_binding}

pub data Error : Type 0 where
  plan_validation_error value_error work_contract_error attribute_error does_not_exist
        stop_iteration integrity_error :
      Error

pub record Payload : Type 0 where
  pub fields : List String
  pub text : String

abbrev pub payload_equals : Payload → Payload → Bool
payload_equals a b = a.fields == b.fields && a.text == b.text

pub record ProcessingRequest : Type 0 where
  pub request_id : String
  pub source : SourceReference
  pub required_schemas : List String
  pub deadline_at : ℕ
  pub max_steps : ℕ

pub record PlanStep : Type 0 where
  pub step_id : String
  pub work_kind : String
  pub function_id : String
  pub input_schema : String
  pub output_schema : String
  pub payload : Payload
  pub depends_on : List String
  pub input_binding : Option ArtifactBinding

pub record ExecutionPlan : Type 0 where
  pub plan_id : String
  pub version : ℕ
  pub request : ProcessingRequest
  pub steps : List PlanStep
  pub deployment_generation : String

pub record StepCommand : Type 0 where
  pub plan_id : String
  pub step_id : String
  pub job_id : String
  pub work_kind : String
  pub payload : Payload
  pub deadline_at : ℕ

pub data Status : Type 0 where
  running succeeded failed : Status

pub record StepReport : Type 0 where
  pub plan_id : String
  pub step_id : String
  pub job_id : String
  pub status : Status
  pub artifact_refs : List String

abbrev pub is_bound : PlanStep → Bool
is_bound step = elim step.input_binding [ none ↦ false | some _ ↦ true ]

-- `seen.get(step_id)`: a later step of the same identity hides an earlier one, so the list is
-- kept with the latest step first.
unfoldable pub find_step : String → List PlanStep → Option PlanStep
find_step step_id = find? (λ s. s.step_id == step_id)

-- A binding to a step must name a matching step that stands before and is depended on.
unfoldable pub producer_matches : List PlanStep → PlanStep → ArtifactBinding → Bool
producer_matches seen step binding =
    if binding.kind == "step"
    then elim (find_step binding.reference seen) [
      | none ↦ false
      | some producer ↦
          elem binding.reference step.depends_on && producer.output_schema == binding.schema
    ]
    else true

-- `validate_artifact_binding` raises the `ValueError` of its own module.
abbrev pub lifted : Result Bindings.Error (Unit {0}) → Result Error (Unit {0})
lifted (ok u) = ok u
lifted (err e) = err value_error

unfoldable pub validate_binding :
    List PlanStep → PlanStep → Option ArtifactBinding → Result Error (Unit {0})
validate_binding seen step none = ok tt
validate_binding seen step (some binding) = do
  lifted (validate_artifact_binding binding)
  require (binding.schema == step.input_schema) plan_validation_error
  require (producer_matches seen step binding) plan_validation_error

-- The loop of `validate_plan_bindings`.
unfoldable pub validate_bindings_from : List PlanStep → List PlanStep → Result Error (Unit {0})
validate_bindings_from seen [] = ok tt
validate_bindings_from seen (step ∷ steps) = do
  validate_binding seen step step.input_binding
  validate_bindings_from (step ∷ seen) steps

unfoldable pub validate_plan_bindings : ExecutionPlan → Result Error (Unit {0})
validate_plan_bindings plan = do
  require (plan.version == 1 || plan.version == 2) plan_validation_error
  raise_if
      (plan.version == 1 && any is_bound plan.steps
        || plan.version == 2 && not (any is_bound plan.steps))
      plan_validation_error
  validate_bindings_from [] plan.steps

infixr 60 ◌⧺◌
abbrev ◌⧺◌ : String → String → String
◌⧺◌ = text_append

module _ (uuid5 : String → String) where
  unfoldable pub derive_job_id : String → String → String → String
  derive_job_id parent_job_id kind target =
      uuid5 ("dotori:" ⧺ parent_job_id ⧺ ":" ⧺ kind ⧺ ":" ⧺ target)

  abbrev pub command_of : ExecutionPlan → PlanStep → StepCommand
  command_of plan step = record {
    plan_id = plan.plan_id;
    step_id = step.step_id;
    job_id = derive_job_id plan.plan_id step.work_kind step.step_id;
    work_kind = step.work_kind;
    payload = step.payload;
    deadline_at = plan.request.deadline_at;
  }

  unfoldable pub command_for_step : ExecutionPlan → String → Result Error StepCommand
  command_for_step plan step_id = elim (find_step step_id plan.steps) [
    | none ↦ err plan_validation_error
    | some step ↦ ok (command_of plan step)
  ]
