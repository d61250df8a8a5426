-- ===== src/Plans/Tests.antt =====
-- Plans on a parse step followed by an embedding step.
use dotori.Prelude.{String, ◌≡◌, refl, false, some, none, List, [], ◌∷◌, ok, All, length, ◌≤◌}
use dotori.Prelude.Classes.{string_eq, nat_eq, list_eq}
use dotori.Prelude.Text.{is_trimmed}
use dotori.Prelude.Dicts.{get, put, same}
use dotori.Bindings.{validate_artifact_binding, is_identity, SourceReference}
use dotori.Plans.Stored.{
  PlanRecord, step_jobs_from, plan_record, plan_from_record, as_record, field, optional_field,
  check_keywords, read_source, read_binding, read_request, read_step, read_steps, read_plan,
}
use dotori.Plans.Loading.{Submission, check_order, check_identity, load_submission}
use dotori.Plans.{
  ExecutionPlan, PlanStep, StepReport, StepCommand, succeeded, find_step, producer_matches,
  validate_binding, validate_bindings_from, validate_plan_bindings, derive_job_id, command_for_step,
  command_of,
}
use dotori.Plans.Linkage.{
  NamesFirstJob, AllFed, IsOrdered, validate_plan_bindings-AllFed, load_submission-IsOrdered,
}
use dotori.Plans.Records.{plan_from_record-plan_record}
use dotori.Plans.Reports.{
  ReceiptView, Artifact, artifact_fits, read_status, report_for_step, report_from_receipt,
  report_belongs, requested_outputs_ready, completion_candidate, completed, pending,
}
use dotori.Plans.Reports.Laws.{
  IsProvided, IsSound, IsOfReceipt, completion_candidate-IsProvided, report_from_receipt-IsSound,
}
use dotori.Plans.Contracts.{
  Proposal, work_registry, get_work_definition, compositions, validate_work_payload,
  validate_followups,
}
use dotori.Plans.Control.{
  Verdict, accepted, approved_step_ready, approved_from, judge, judge_same, parent_of, same_command,
  decide_approved, decide_one, decide_each, decide_proposals,
}
use dotori.Plans.Control.Laws.{
  AcceptedIsReady, round_of, approved_commands, decide_proposals-AcceptedIsReady,
}

program : Unit {0}
unfolding is_trimmed get put same field optional_field check_keywords read_source read_binding
    read_request read_step read_steps read_plan validate_artifact_binding is_identity find_step
    producer_matches validate_binding validate_bindings_from validate_plan_bindings derive_job_id
    command_for_step step_jobs_from plan_record plan_from_record check_order check_identity
    load_submission artifact_fits read_status report_for_step report_from_receipt report_belongs
    requested_outputs_ready completion_candidate work_registry get_work_definition compositions
    validate_work_payload validate_followups approved_from judge judge_same parent_of same_command
    decide_approved decide_one decide_each decide_proposals
program = tt

-- The identity stands for the hash of a name.
abbrev name_uuid : String → String
name_uuid s = s

abbrev source : SourceReference
source = record {
  source_id = "doc-1";
  revision = "r1";
  schema = "dotori.document.source.v1";
  checksum = "c";
}

abbrev parse : PlanStep
parse = record {
  step_id = "parse";
  work_kind = "parse_document";
  function_id = "document.extract";
  input_schema = "dotori.document.source.v1";
  output_schema = "dotori.document.extract.v1";
  payload = record { fields = "node_id" ∷ []; text = "{node_id:7}" };
  depends_on = [];
  input_binding = none;
}

abbrev embed : PlanStep
embed = record {
  step_id = "embed";
  work_kind = "plan_document_embedding";
  function_id = "document.embed";
  input_schema = "dotori.document.extract.v1";
  output_schema = "dotori.document.embedding-result.v1";
  payload = record { fields = "node_id" ∷ []; text = "{node_id:7}" };
  depends_on = "parse" ∷ [];
  input_binding = some (record {
    kind = "step";
    reference = "parse";
    schema = "dotori.document.extract.v1";
    revision = "";
  });
}

abbrev plan : ExecutionPlan
plan = record {
  plan_id = "p1";
  version = 2;
  steps = parse ∷ embed ∷ [];
  deployment_generation = "g1";
  request = record {
    request_id = "q1";
    source = source;
    required_schemas = "dotori.document.extract.v1" ∷ [];
    deadline_at = 100;
    max_steps = 8;
  };
}

abbrev parse_job : String
parse_job = "dotori:p1:parse_document:parse"

abbrev embed_job : String
embed_job = "dotori:p1:plan_document_embedding:embed"

plan_validates : validate_plan_bindings plan ≡ ok tt
unfolding program
plan_validates = refl

validate_plan_bindings-AllFed_example : AllFed [] (parse ∷ embed ∷ [])
validate_plan_bindings-AllFed_example = validate_plan_bindings-AllFed plan plan_validates

plan_from_record-plan_record_example :
    (stored : PlanRecord) × (plan_record name_uuid plan ≡ ok stored)
    × (plan_from_record name_uuid stored ≡ ok plan)
plan_from_record-plan_record_example = plan_from_record-plan_record name_uuid plan plan_validates

abbrev row : Submission
row = record {
  plan_id = "p1";
  request_id = "q1";
  job_id = parse_job;
  source_uid = "doc-1";
  definition = as_record plan (("embed", embed_job) ∷ ("parse", parse_job) ∷ []);
}

row_loads : load_submission name_uuid row ≡ ok plan
unfolding program
row_loads = refl

load_submission-IsOrdered_example :
    (plan.plan_id ≡ row.plan_id)
    × (plan.request.request_id ≡ row.request_id)
    × (plan.request.source.source_id ≡ row.source_uid)
    × NamesFirstJob name_uuid row plan plan.steps
    × (1 ≤ length plan.steps)
    × (length plan.steps ≤ plan.request.max_steps)
    × IsOrdered [] plan.steps
load_submission-IsOrdered_example = load_submission-IsOrdered name_uuid row row_loads

abbrev receipt : ReceiptView
receipt = record { job_id = parse_job; work_kind = "parse_document"; status = "succeeded" }

abbrev extract : Artifact
extract = record {
  id = "a1";
  schema = "dotori.document.extract.v1";
  status = "ready";
  stale = false;
  source_id = "doc-1";
  source_revision = "r1";
  source_checksum = "c";
}

abbrev parsed : StepReport
parsed = record {
  plan_id = "p1";
  step_id = "parse";
  job_id = parse_job;
  status = succeeded;
  artifact_refs = "a1" ∷ [];
}

parse_reported : report_from_receipt name_uuid plan "parse" receipt (extract ∷ []) ≡ ok parsed
unfolding program
parse_reported = refl

report_from_receipt-IsSound_example :
    (parsed.step_id ≡ "parse")
    × IsSound name_uuid plan parsed
    × IsOfReceipt plan receipt (extract ∷ []) parsed
report_from_receipt-IsSound_example =
    report_from_receipt-IsSound name_uuid plan "parse" receipt (extract ∷ []) parse_reported

nothing_reported : completion_candidate name_uuid plan [] ≡ ok pending
unfolding program
nothing_reported = refl

plan_completes : completion_candidate name_uuid plan (parsed ∷ []) ≡ ok completed
unfolding program
plan_completes = refl

completion_candidate-IsProvided_example :
    All (IsProvided plan (parsed ∷ [])) ("dotori.document.extract.v1" ∷ [])
completion_candidate-IsProvided_example =
    completion_candidate-IsProvided name_uuid plan (parsed ∷ []) plan_completes

abbrev proposal : Proposal
proposal = record {
  job_id = embed_job;
  work_kind = "plan_document_embedding";
  payload = embed.payload;
  parent_job_id = none;
}

abbrev compiled : List StepCommand
compiled = command_of name_uuid plan parse ∷ command_of name_uuid plan embed ∷ []

abbrev verdict : Verdict
verdict = record { job_id = embed_job; decision = accepted; reason = approved_step_ready }

embed_accepted :
    decide_proposals name_uuid
      (λ path payload. ok tt)
      plan
      (proposal ∷ [])
      (some "parse")
      (parsed ∷ [])
      (some compiled)
    ≡ ok (verdict ∷ [])
unfolding program
embed_accepted = refl

decide_proposals-AcceptedIsReady_example :
    (embed_job ∷ [] ≡ embed_job ∷ [])
    × All
        (AcceptedIsReady plan
          (round_of (some "parse") (parsed ∷ []))
          (approved_commands name_uuid plan (some compiled)))
        (verdict ∷ [])
decide_proposals-AcceptedIsReady_example =
    decide_proposals-AcceptedIsReady name_uuid (λ path payload. ok tt) plan (proposal ∷ [])
      (some "parse") (parsed ∷ []) (some compiled) embed_accepted
