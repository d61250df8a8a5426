-- ===== src/Validation/Tests.antt =====
-- A parse step and a composed embedding step on a deployment that serves both.
use dotori.Prelude.{
  ◌≡◌, refl, ◌≤◌, ◌<◌, true, false, some, none, [], ◌∷◌, map, length, Member, All, ok, err,
}
use dotori.Prelude.Text.{is_trimmed}
use dotori.Prelude.Dicts.{get}
use dotori.Bindings.{SourceReference, same_source, validate_artifact_binding, is_identity}
use dotori.Plans.{
  ExecutionPlan, PlanStep, find_step, producer_matches, validate_binding, validate_bindings_from,
  validate_plan_bindings,
}
use dotori.Plans.Contracts.{
  work_registry, get_work_definition, compositions, validate_work_payload,
  validate_preparation_intent,
}
use dotori.Routing.{
  Candidate, function_registry, get_function, validate_function_contract, provider_enabled,
  candidates_of, enabled_only, resolve_explicit, is_verified, preferred, preferred_of, only_one,
  resolve_automatic, routed, resolve_default, resolve_function_provider, composition_definitions,
  get_composition, validate_composition_provider, role_of,
}
use dotori.Validation.{
  Deployment, Checks, plan_validation_error, execution_roles, is_enabled, require_registered_role,
  require_registered_work, define_work, select_primitive, select_composed, select_provider,
  resolve_bound, output_schemas, input_schemas, fits_contract, validate_step, validate_steps,
  validate_plan,
}
use dotori.Validation.Soundness.{AllAdmissible, validate_plan-AllAdmissible}

program : Unit {0}
unfolding is_trimmed get validate_artifact_binding is_identity find_step producer_matches
    validate_binding validate_bindings_from validate_plan_bindings work_registry get_work_definition
    compositions validate_work_payload validate_preparation_intent function_registry get_function
    validate_function_contract provider_enabled candidates_of enabled_only resolve_explicit
    is_verified preferred preferred_of only_one resolve_automatic routed resolve_default
    resolve_function_provider composition_definitions get_composition validate_composition_provider
    role_of execution_roles is_enabled require_registered_role require_registered_work define_work
    select_primitive select_composed select_provider resolve_bound output_schemas input_schemas
    fits_contract validate_step validate_steps validate_plan
program = tt

abbrev parse : PlanStep
parse = record {
  step_id = "parse";
  work_kind = "parse_document";
  function_id = "document.extract";
  input_schema = "dotori.document.source.v1";
  output_schema = "dotori.document.extract.v1";
  payload = record { fields = "node_id" ∷ []; text = "{node_id:7}" };
  depends_on = [];
  input_binding = none;
}

abbrev embed : PlanStep
embed = record {
  step_id = "embed";
  work_kind = "embed_document";
  function_id = "document.embed";
  input_schema = "dotori.document.extract.v1";
  output_schema = "dotori.document.embedding-result.v1";
  payload = record { fields = "schema" ∷ []; text = "{schema:1}" };
  depends_on = "parse" ∷ [];
  input_binding = some (record {
    kind = "step";
    reference = "parse";
    schema = "dotori.document.extract.v1";
    revision = "";
  });
}

abbrev plan : ExecutionPlan
plan = record {
  plan_id = "p1";
  version = 2;
  steps = parse ∷ embed ∷ [];
  deployment_generation = "g1";
  request = record {
    request_id = "q1";
    source = record {
      source_id = "doc-1";
      revision = "r1";
      schema = "dotori.document.source.v1";
      checksum = "c";
    };
    required_schemas = "dotori.document.embedding-result.v1" ∷ [];
    deadline_at = 100;
    max_steps = 2;
  };
}

abbrev parser_candidate : Candidate
parser_candidate = record {
  model_installation_id = none;
  provider_installation_id = some "parser:docling:1";
  role = "parser";
  verification = "quality_verified";
  contract_version = some 1;
  input_schema = "dotori.document.source.v1";
  output_schema = "dotori.document.extract.v1";
  preferred_role = "parser";
  adapter_contract = "dotori-parser-http-v1";
}

abbrev embedding_candidate : Candidate
embedding_candidate = record {
  model_installation_id = some "bge-m3";
  provider_installation_id = none;
  role = "embedding";
  verification = "contract_verified";
  contract_version = some 1;
  input_schema = "dotori.text.embedding-input.v1";
  output_schema = "dotori.text.embedding-output.v1";
  preferred_role = "embedding";
  adapter_contract = "dotori-internal-embed-v1";
}

abbrev deployment : Deployment
deployment = record {
  generation_id = "g1";
  snapshot = record {
    schema_version = 4;
    role_enabled = ("parser", true) ∷ ("embedding", true) ∷ [];
    function_providers =
        ("document.extract", parser_candidate ∷ []) ∷ ("text.embed", embedding_candidate ∷ []) ∷ [];
    default_routes = [];
  };
  enabled_capabilities = "documents.extract" ∷ "documents.semantic_search" ∷ [];
  work_routes =
      (
        "parse_document",
        record {
          kind = "parse_document";
          capability_id = "documents.extract";
          execution_role = "parser";
          queue = "parse";
          task_name = "documents.tasks.parse_document_with_docling";
          argument_fields = "node_id" ∷ [];
        },
      )
      ∷ (
        "embed_document",
        record {
          kind = "embed_document";
          capability_id = "documents.semantic_search";
          execution_role = "embedding";
          queue = "embed";
          task_name = "documents.tasks.embed_document_scoped";
          argument_fields = "schema" ∷ "command" ∷ "manifest" ∷ [];
        },
      )
      ∷ [];
  registrations =
      (
        "parser",
        record {
          transport = "orchestrator_http";
          config_source = "DOCUMENT_PARSER_BACKEND";
          compose_service = some "parser-executor";
        },
      )
      ∷ (
        "embedding",
        record {
          transport = "orchestrator_http_and_request_http";
          config_source = "embedding_runtime.json";
          compose_service = some "embedding-executor";
        },
      )
      ∷ [];
  role_bindings =
      (
        "parser",
        record { provider_installation_id = some "parser:docling:1"; model_installation_id = none },
      )
      ∷ (
        "embedding",
        record { provider_installation_id = none; model_installation_id = some "bge-m3" },
      )
      ∷ [];
}

abbrev checks : Checks
checks = record {
  authorize_source = λ source. ok source;
  validate_domain_step = λ step source. ok tt;
  resolve_input = none;
  validator = λ path payload. ok tt;
  preparation = false;
  now = 5;
}

plan_validates : validate_plan checks deployment plan ≡ ok plan
unfolding program
plan_validates = refl

late-fails : validate_plan (record checks { now = 100 }) deployment plan ≡ err plan_validation_error
unfolding program
late-fails = refl

validate_plan-AllAdmissible_example :
    (plan ≡ plan)
    × (5 < 100)
    × (1 ≤ length plan.steps)
    × (length plan.steps ≤ 2)
    × ((current : SourceReference) × (checks.authorize_source plan.request.source ≡ ok current)
        × (same_source current plan.request.source ≡ true))
    × (deployment.generation_id ≡ plan.deployment_generation)
    × AllAdmissible checks deployment plan.request [] plan.steps
    × All
        (λ c. Member c (map (λ (s : PlanStep). s.output_schema) plan.steps))
        plan.request.required_schemas
validate_plan-AllAdmissible_example =
    validate_plan-AllAdmissible checks deployment plan plan plan_validates
