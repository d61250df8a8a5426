-- ===== src/Validation.antt =====
-- Whether a plan may start: `validate_plan` of app/orchestration/plans.py against the active
-- deployment, with `require_registered_work` of app/capabilities/work_registry.py and
-- `require_registered_role` of app/capabilities/execution.py. The source's authorisation, the
-- domain's checks and the resolver of an input are arguments, as in the source; the snapshot that is
-- given is the active deployment.
pub mod Work
pub mod Inputs
pub mod Soundness
mod Tests
use dotori.Prelude.{
  ℕ, String, Bool, true, false, not, ◌&&◌, ◌||◌, Option, some, none, List, [], ◌∷◌, map, length,
  leb, ltb, if◌then◌else◌, Result, ok, err, ◌>>=◌, ◌>>◌, require,
}
use dotori.Prelude.Classes.{◌==◌, nat_eq, string_eq, list_eq, elem, subset, distinct}
use dotori.Prelude.Dicts.{Dict, get}
use dotori.Prelude.Text.{nonempty}
use dotori.Bindings
use dotori.Bindings.{
  ArtifactBinding, ResolvedArtifact, SourceReference, same_source, resolve_artifact_binding,
}
use dotori.Plans
use dotori.Plans.{
  ExecutionPlan, ProcessingRequest, PlanStep, Payload, find_step, is_bound, validate_plan_bindings,
}
use dotori.Plans.Contracts.{
  WorkDefinition, get_work_definition, validate_work_payload, validate_preparation_intent,
}
use dotori.Routing
use dotori.Routing.{
  Candidate, DeploymentSnapshot, Composition, Binding, or_unbound, composition_definitions,
  get_function, resolve_function_provider, validate_function_contract,
  validate_composition_provider,
}

-- An exception of this module, or of one that it calls.
pub data Error : Type 0 where
  plan_validation_error value_error : Error
  of_binding : Bindings.Error → Error
  of_plan : Plans.Error → Error
  of_routing : Routing.Error → Error

abbrev pub from_binding : {A : Type 0} → Result Bindings.Error A → Result Error A
from_binding (ok a) = ok a
from_binding (err e) = err (of_binding e)

abbrev pub from_plan : {A : Type 0} → Result Plans.Error A → Result Error A
from_plan (ok a) = ok a
from_plan (err e) = err (of_plan e)

abbrev pub from_routing : {A : Type 0} → Result Routing.Error A → Result Error A
from_routing (ok a) = ok a
from_routing (err e) = err (of_routing e)

pub record ExecutionRole : Type 0 where
  pub transport : String
  pub config_source : String
  pub compose_service : Option String

-- The three fields of `EXECUTION_ROLES` that a registration repeats.
unfoldable pub execution_roles : Dict ExecutionRole
execution_roles =
    (
      "parser",
      record {
        transport = "orchestrator_http";
        config_source = "DOCUMENT_PARSER_BACKEND";
        compose_service = some "parser-executor";
      },
    )
    ∷ (
      "embedding",
      record {
        transport = "orchestrator_http_and_request_http";
        config_source = "embedding_runtime.json";
        compose_service = some "embedding-executor";
      },
    )
    ∷ (
      "llm",
      record {
        transport = "request_http";
        config_source = "llm_runtime.json";
        compose_service = none;
      },
    )
    ∷ []

-- The deployment snapshot, with the fields that the routing does not read. A route of `work_routes`
-- has the fields of `deployment_entry` beside its kind.
pub record Deployment : Type 0 where
  pub generation_id : String
  pub snapshot : DeploymentSnapshot
  pub enabled_capabilities : List String
  pub work_routes : Dict WorkDefinition
  pub registrations : Dict ExecutionRole
  pub role_bindings : Dict Binding

abbrev pub same_entry : WorkDefinition → WorkDefinition → Bool
same_entry a b =
    a.capability_id == b.capability_id
    && a.execution_role == b.execution_role
    && a.queue == b.queue
    && a.task_name == b.task_name
    && a.argument_fields == b.argument_fields

abbrev pub same_service : Option String → Option String → Bool
same_service none none = true
same_service (some a) (some b) = a == b
same_service _ _ = false

abbrev pub same_role : ExecutionRole → ExecutionRole → Bool
same_role a b =
    a.transport == b.transport
    && a.config_source == b.config_source
    && same_service a.compose_service b.compose_service

abbrev pub is_routed : Option WorkDefinition → WorkDefinition → Bool
is_routed none definition = false
is_routed (some route) definition = same_entry route definition

unfoldable pub is_enabled : Deployment → String → Bool
is_enabled d capability_id = elem capability_id d.enabled_capabilities

abbrev pub is_registration : Option ExecutionRole → ExecutionRole → Bool
is_registration none role = false
is_registration (some registered) role = same_role registered role

unfoldable pub require_registered_role : Deployment → String → Result Error (Unit {0})
require_registered_role d role = elim (get role execution_roles) [
  | none ↦ err value_error
  | some spec ↦ require (is_registration (get role d.registrations) spec) value_error
]

unfoldable pub require_registered_work : Deployment → String → Result Error WorkDefinition
require_registered_work d kind = do
  definition ← from_plan (get_work_definition kind)
  require (is_routed (get kind d.work_routes) definition) value_error
  require (is_enabled d definition.capability_id) value_error
  require_registered_role d definition.execution_role
  ok definition

-- What a step's function takes and gives, and the role that serves it.
pub record Contract : Type 0 where
  pub input_schema : String
  pub output_schema : String
  pub preferred_role : String

-- The arguments of `validate_plan` beside the plan.
pub record Checks : Type 0 where
  pub authorize_source : SourceReference → Result Plans.Error SourceReference
  pub validate_domain_step : PlanStep → SourceReference → Result Plans.Error (Unit {0})
  pub resolve_input : Option (PlanStep → ArtifactBinding → Result Bindings.Error ResolvedArtifact)
  pub validator : String → Payload → Result Plans.Error (Unit {0})
  pub preparation : Bool
  pub now : ℕ

abbrev pub is_composed : PlanStep → Bool
is_composed step = elim (get step.function_id composition_definitions) [
  | none ↦ false
  | some c ↦ true
]

-- `seen[dep].output_schema` of the dependencies, all of which are seen.
unfoldable pub output_schemas : List PlanStep → List String → List String
output_schemas seen [] = []
output_schemas seen (dep ∷ deps) =
    let rest = output_schemas seen deps in
    elim (find_step dep seen) [ none ↦ rest | some producer ↦ producer.output_schema ∷ rest ]

abbrev pub step_ids : List PlanStep → List String
step_ids = map (λ (s : PlanStep). s.step_id)

unfoldable pub fits_contract : PlanStep → WorkDefinition → Contract × Candidate → Bool
fits_contract step definition (contract, provider) =
    contract.preferred_role == definition.execution_role
    && provider.role == definition.execution_role
    && step.input_schema == contract.input_schema
    && step.output_schema == contract.output_schema

module _ (checks : Checks) (d : Deployment) where
  unfoldable pub define_work : PlanStep → Result Error WorkDefinition
  define_work step = do
    definition ← from_plan (
        if checks.preparation || (is_composed step && is_bound step)
        then validate_preparation_intent checks.validator step.work_kind step.payload
        else validate_work_payload checks.validator step.work_kind step.payload)
    registered ←
        (if checks.preparation && is_composed step
          then ok definition
          else require_registered_work d step.work_kind)
    require
        (registered.kind == definition.kind
          && same_entry registered definition
          && is_enabled d definition.capability_id)
        plan_validation_error
    ok definition

  -- The provider of a primitive function, by the deployment's binding of the role.
  unfoldable pub select_primitive : PlanStep → WorkDefinition → Result Error (Contract × Candidate)
  select_primitive step definition = do
    function ← from_routing (get_function step.function_id)
    provider ← from_routing (
        resolve_function_provider d.snapshot step.function_id none none
          (or_unbound (get definition.execution_role d.role_bindings)).provider_installation_id)
    from_routing (validate_function_contract step.function_id provider)
    let contract : Contract = record {
      input_schema = function.input_schema;
      output_schema = function.output_schema;
      preferred_role = function.preferred_role;
    }
    let selected : Contract × Candidate = (contract, provider)
    ok selected

  unfoldable pub select_composed : PlanStep → Composition → Result Error (Contract × Candidate)
  select_composed step composition = do
    require (step.work_kind == composition.work_kind) plan_validation_error
    provider ← from_routing (
        validate_composition_provider d.role_bindings d.snapshot step.function_id
          composition.adapter_contract)
    let contract : Contract = record {
      input_schema = composition.input_schema;
      output_schema = composition.output_schema;
      preferred_role = composition.preferred_role;
    }
    let selected : Contract × Candidate = (contract, provider)
    ok selected

  unfoldable pub select_provider : PlanStep → WorkDefinition → Result Error (Contract × Candidate)
  select_provider step definition = elim (get step.function_id composition_definitions) [
    | none ↦ select_primitive step definition
    | some composition ↦ select_composed step composition
  ]

  -- The schema of an existing artifact that the step is bound to, after the artifact is resolved.
  unfoldable pub resolve_bound :
      ProcessingRequest → PlanStep → ArtifactBinding → Result Error (Unit {0})
  resolve_bound request step binding =
      if binding.kind == "artifact"
      then elim checks.resolve_input [
        | none ↦ err plan_validation_error
        | some resolve ↦
            from_binding (resolve_artifact_binding binding request.source (resolve step) none)
            >>= λ artifact. ok tt
      ]
      else ok tt

  unfoldable pub input_schemas :
      ProcessingRequest → List PlanStep → PlanStep → Result Error (List String)
  input_schemas request seen step = elim step.input_binding [
    | some binding ↦ resolve_bound request step binding >>= λ resolved. ok (binding.schema ∷ [])
    | none ↦ elim step.depends_on [
      | [] ↦ ok (request.source.schema ∷ [])
      | dep ∷ deps ↦ ok (output_schemas seen (dep ∷ deps))
    ]
  ]

  unfoldable pub validate_step :
      ProcessingRequest → List PlanStep → PlanStep → Result Error (Unit {0})
  validate_step request seen step = do
    require (nonempty step.step_id && not (elem step.step_id (step_ids seen))) plan_validation_error
    require (distinct step.depends_on && subset step.depends_on (step_ids seen))
        plan_validation_error
    definition ← define_work step
    selected ← select_provider step definition
    require (fits_contract step definition selected) plan_validation_error
    schemas ← input_schemas request seen step
    require (elem step.input_schema schemas) plan_validation_error
    from_plan (checks.validate_domain_step step request.source)

  unfoldable pub validate_steps :
      ProcessingRequest → List PlanStep → List PlanStep → Result Error (Unit {0})
  validate_steps request seen [] = ok tt
  validate_steps request seen (step ∷ steps) = do
    validate_step request seen step
    validate_steps request (step ∷ seen) steps

  unfoldable pub validate_plan : ExecutionPlan → Result Error ExecutionPlan
  validate_plan plan = do
    from_plan (validate_plan_bindings plan)
    require (nonempty plan.plan_id && nonempty plan.request.request_id) plan_validation_error
    require (ltb checks.now plan.request.deadline_at) plan_validation_error
    require (leb 1 (length plan.steps) && leb (length plan.steps) plan.request.max_steps)
        plan_validation_error
    require
        (leb 1 (length plan.request.required_schemas)
          && nonempty plan.request.source.source_id
          && nonempty plan.request.source.revision)
        plan_validation_error
    current ← from_plan (checks.authorize_source plan.request.source)
    require (same_source current plan.request.source) plan_validation_error
    require (d.generation_id == plan.deployment_generation) plan_validation_error
    validate_steps plan.request [] plan.steps
    require
        (subset plan.request.required_schemas (map (λ (s : PlanStep). s.output_schema) plan.steps))
        plan_validation_error
    ok plan
