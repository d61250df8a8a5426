-- ===== src/Plans/Stored.antt =====
-- The record of a plan, a JSON object: `plan_record` and `plan_from_record` of
-- app/orchestration/plans.py.
use dotori.Prelude.{
  ℕ, String, Option, some, none, List, [], ◌∷◌, map, all, if◌then◌else◌, Result, ok, err, ◌>>=◌,
  ◌>>◌, require,
}
use dotori.Prelude.Classes.{◌==◌, nat_eq, string_eq, list_eq, elem}
use dotori.Prelude.Dicts.{Dict, get, put, same}
use dotori.Bindings.{ArtifactBinding, SourceReference}
use dotori.Plans.{
  Error, plan_validation_error, Payload, ProcessingRequest, PlanStep, ExecutionPlan,
  validate_plan_bindings, command_for_step,
}

-- The stored record, a JSON object, with its values under their keys by the type of the value. A
-- step's `input_binding` is `none` where the key is missing and `some none` where it is null.
pub record RequestRecord : Type 0 where
  pub texts : Dict String
  pub numbers : Dict ℕ
  pub lists : Dict (List String)
  pub source : Dict String

pub record StepRecord : Type 0 where
  pub texts : Dict String
  pub lists : Dict (List String)
  pub payloads : Dict Payload
  pub input_binding : Option (Option (Dict String))

pub record PlanRecord : Type 0 where
  pub texts : Dict String
  pub numbers : Dict ℕ
  pub request : RequestRecord
  pub steps : List StepRecord
  pub step_jobs : Dict String

-- `asdict` of the parts of a plan
abbrev pub source_record : SourceReference → Dict String
source_record s =
    ("source_id", s.source_id)
    ∷ ("revision", s.revision)
    ∷ ("schema", s.schema)
    ∷ ("checksum", s.checksum)
    ∷ []

abbrev pub binding_record : ArtifactBinding → Dict String
binding_record b =
    ("kind", b.kind)
    ∷ ("reference", b.reference)
    ∷ ("schema", b.schema)
    ∷ ("revision", b.revision)
    ∷ []

abbrev pub nullable_record : Option ArtifactBinding → Option (Dict String)
nullable_record none = none
nullable_record (some b) = some (binding_record b)

abbrev pub step_record : PlanStep → StepRecord
step_record s = record {
  texts =
      ("step_id", s.step_id)
      ∷ ("work_kind", s.work_kind)
      ∷ ("function_id", s.function_id)
      ∷ ("input_schema", s.input_schema)
      ∷ ("output_schema", s.output_schema)
      ∷ [];
  lists = ("depends_on", s.depends_on) ∷ [];
  payloads = ("payload", s.payload) ∷ [];
  input_binding = some (nullable_record s.input_binding);
}

abbrev pub request_record : ProcessingRequest → RequestRecord
request_record r = record {
  texts = ("request_id", r.request_id) ∷ [];
  numbers = ("deadline_at", r.deadline_at) ∷ ("max_steps", r.max_steps) ∷ [];
  lists = ("required_schemas", r.required_schemas) ∷ [];
  source = source_record r.source;
}

abbrev pub as_record : ExecutionPlan → Dict String → PlanRecord
as_record plan jobs = record {
  texts = ("plan_id", plan.plan_id) ∷ ("deployment_generation", plan.deployment_generation) ∷ [];
  numbers = ("version", plan.version) ∷ [];
  request = request_record plan.request;
  steps = map step_record plan.steps;
  step_jobs = jobs;
}

-- `step.pop("input_binding", None)`
abbrev pub pop_binding : StepRecord → StepRecord
pop_binding s = record s { input_binding = none }

-- `record[key]`, whose `KeyError` becomes a `PlanValidationError`
unfoldable pub field : {A : Type 0} → String → Dict A → Result Error A
field key d = elim (get key d) [ none ↦ err plan_validation_error | some a ↦ ok a ]

-- A keyword argument with a default.
unfoldable pub optional_field : String → Dict String → String
optional_field key d = elim (get key d) [ none ↦ "" | some s ↦ s ]

-- `C(**record)`: an unknown keyword raises a `TypeError`.
unfoldable pub check_keywords : List String → Dict String → Result Error (Unit {0})
check_keywords names d =
    require (all (λ (entry : String × String). elem entry.0 names) d) plan_validation_error

unfoldable pub read_source : Dict String → Result Error SourceReference
read_source d = do
  check_keywords ("source_id" ∷ "revision" ∷ "schema" ∷ "checksum" ∷ []) d
  source_id ← field "source_id" d
  revision ← field "revision" d
  schema ← field "schema" d
  ok (record {
    source_id = source_id;
    revision = revision;
    schema = schema;
    checksum = optional_field "checksum" d;
  })

unfoldable pub read_binding : Option (Option (Dict String)) → Result Error (Option ArtifactBinding)
read_binding (some (some d)) = do
  check_keywords ("kind" ∷ "reference" ∷ "schema" ∷ "revision" ∷ []) d
  kind ← field "kind" d
  reference ← field "reference" d
  schema ← field "schema" d
  ok (
      some (record {
        kind = kind;
        reference = reference;
        schema = schema;
        revision = optional_field "revision" d;
      }))
read_binding _ = ok none

unfoldable pub read_request : RequestRecord → Result Error ProcessingRequest
read_request r = do
  source ← read_source r.source
  request_id ← field "request_id" r.texts
  required_schemas ← field "required_schemas" r.lists
  deadline_at ← field "deadline_at" r.numbers
  max_steps ← field "max_steps" r.numbers
  ok (record {
    request_id = request_id;
    source = source;
    required_schemas = required_schemas;
    deadline_at = deadline_at;
    max_steps = max_steps;
  })

unfoldable pub read_step : StepRecord → Result Error PlanStep
read_step s = do
  step_id ← field "step_id" s.texts
  work_kind ← field "work_kind" s.texts
  function_id ← field "function_id" s.texts
  input_schema ← field "input_schema" s.texts
  output_schema ← field "output_schema" s.texts
  payload ← field "payload" s.payloads
  depends_on ← field "depends_on" s.lists
  input_binding ← read_binding s.input_binding
  ok (record {
    step_id = step_id;
    work_kind = work_kind;
    function_id = function_id;
    input_schema = input_schema;
    output_schema = output_schema;
    payload = payload;
    depends_on = depends_on;
    input_binding = input_binding;
  })

unfoldable pub read_steps : List StepRecord → Result Error (List PlanStep)
read_steps [] = ok []
read_steps (s ∷ ss) = do step ← read_step s; steps ← read_steps ss; ok (step ∷ steps)

unfoldable pub read_plan : PlanRecord → Result Error ExecutionPlan
read_plan stored = do
  request ← read_request stored.request
  steps ← read_steps stored.steps
  plan_id ← field "plan_id" stored.texts
  version ← field "version" stored.numbers
  generation ← field "deployment_generation" stored.texts
  ok (record {
    plan_id = plan_id;
    version = version;
    request = request;
    steps = steps;
    deployment_generation = generation;
  })

module _ (uuid5 : String → String) where
  -- `{step.step_id: command_for_step(plan, step.step_id).job_id for step in steps}`
  unfoldable pub step_jobs_from :
      ExecutionPlan → List PlanStep → Dict String → Result Error (Dict String)
  step_jobs_from plan [] jobs = ok jobs
  step_jobs_from plan (step ∷ steps) jobs = do
    command ← command_for_step uuid5 plan step.step_id
    step_jobs_from plan steps (put step.step_id command.job_id jobs)

  abbrev pub step_jobs : ExecutionPlan → Result Error (Dict String)
  step_jobs plan = step_jobs_from plan plan.steps []

  unfoldable pub plan_record : ExecutionPlan → Result Error PlanRecord
  plan_record plan = do
    jobs ← step_jobs plan
    let stored = as_record plan jobs
    ok (
        if plan.version == 1
        then record stored { steps = map pop_binding stored.steps }
        else stored)

  unfoldable pub plan_from_record : PlanRecord → Result Error ExecutionPlan
  plan_from_record stored = do
    plan ← read_plan stored
    validate_plan_bindings plan
    expected ← step_jobs plan
    require (same stored.step_jobs expected) plan_validation_error
    ok plan
