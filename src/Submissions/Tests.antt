-- ===== src/Submissions/Tests.antt =====
-- A journal on the plan of a parse step followed by a bound embedding step.
use dotori.Prelude.{
  String, ◌≡◌, refl, true, false, some, none, List, [], ◌∷◌, map, if◌then◌else◌, Result, ok, err,
  ◌≤◌, ◌+◌, ◌>>=◌,
}
use dotori.Prelude.Classes.{◌==◌, string_eq, nat_eq}
use dotori.Prelude.Text.{is_trimmed}
use dotori.Prelude.Dicts.{get, put, same}
use dotori.Bindings.{
  ResolvedArtifact, validate_artifact_binding, is_identity, SourceReference, pinned,
  resolve_artifact_binding,
}
use dotori.Plans.Stored.{
  step_jobs_from, plan_from_record, plan_record, as_record, field, optional_field, check_keywords,
  read_source, read_binding, read_request, read_step, read_steps, read_plan,
}
use dotori.Plans.Loading.{Submission, check_order, check_identity, load_submission}
use dotori.Plans.{
  Error, work_contract_error, ExecutionPlan, PlanStep, StepReport, Payload, succeeded, running,
  find_step, producer_matches, validate_binding, validate_bindings_from, validate_plan_bindings,
  derive_job_id, command_for_step,
}
use dotori.Plans.Reports.{
  ReceiptView, read_status, report_belongs, requested_outputs_ready, completion_candidate,
}
use dotori.Plans.Contracts.{
  work_registry, get_work_definition, compositions, validate_work_payload, validate_followups,
  validate_preparation_delivery,
}
use dotori.Plans.Control.{
  approved_from, judge, judge_same, parent_of, same_command, decide_approved, decide_one,
  decide_each, decide_proposals,
}
use dotori.Plans.{integrity_error, plan_validation_error, does_not_exist}
use dotori.Plans.Reports.{pending}
use dotori.Submissions.{
  Environment, PlanAdapter, Row, Delivery, Message, get_plan_adapter, validate_kinds,
  validate_submission, parent_job, live_report, live_reports_from, live_reports, next_step,
}
use dotori.Submissions.Commands.{
  validate_delivery, pinned_command, stored_command, approved_commands_from, approved_commands,
  producing_report, producer_job, resolve_input, validate_compiled_input, compile_step,
  prepare_bound, prepare_step_command,
}
use dotori.Submissions.Publication.{
  Journal, publish_registered_work, executable_command, mark_published, save_marks, publish_due,
  publish_guarded, publish_locked, publish_prepared, mark_failed, publish_after, publish_step,
  ready_steps, replayable_steps, eligible_steps, publish_each, mark_row, publish_submission,
}
use dotori.Submissions.Responses.{
  Envelope, Response, is_success, matches_command, approved_checks, approved_delivery, authorize,
  decide_all, judge_row, store_response, accept_response, record_response, Call, publish_one,
  publish_all, respond, apply_call, run_calls,
}
use dotori.Submissions.Intake.{
  Intake, save_journal, first_step, new_journal, get_or_create, check_intake, ensure_delivery,
  ensure_deliveries, submit_locked, submit_plan, decide_stored, inspect_submission,
}
use dotori.Submissions.Resubmission.{at_later, submit_locked_again}
use dotori.Submissions.Once.{times_sent}
use dotori.Submissions.Calls.{run_calls-once, failed_writes}
use dotori.Submissions.Settled.{run_calls-settled}

program : Unit {0}
unfolding is_trimmed get put same field optional_field check_keywords read_source read_binding
    read_request read_step read_steps read_plan validate_artifact_binding is_identity pinned
    resolve_artifact_binding find_step producer_matches validate_binding validate_bindings_from
    validate_plan_bindings derive_job_id command_for_step step_jobs_from plan_from_record
    check_order check_identity load_submission read_status report_belongs requested_outputs_ready
    completion_candidate work_registry get_work_definition compositions validate_work_payload
    validate_followups validate_preparation_delivery approved_from judge judge_same parent_of
    same_command decide_approved decide_one decide_each decide_proposals get_plan_adapter
    validate_kinds validate_submission parent_job live_report live_reports_from live_reports
    next_step validate_delivery pinned_command stored_command approved_commands_from
    approved_commands producing_report producer_job resolve_input validate_compiled_input
    compile_step prepare_bound prepare_step_command publish_registered_work executable_command
    mark_published save_marks publish_due publish_guarded publish_locked publish_prepared
    mark_failed publish_after publish_step ready_steps replayable_steps eligible_steps publish_each
    mark_row publish_submission matches_command approved_checks approved_delivery authorize
    decide_all judge_row store_response accept_response record_response apply_call run_calls
    save_journal first_step new_journal get_or_create check_intake ensure_delivery ensure_deliveries
    submit_locked submit_plan decide_stored inspect_submission plan_record
program = tt

abbrev source : SourceReference
source = record {
  source_id = "doc-1";
  revision = "r1";
  schema = "dotori.document.source.v1";
  checksum = "c";
}

abbrev node_payload : Payload
node_payload = record { fields = "node_id" ∷ []; text = "{node_id:7}" }

abbrev parse : PlanStep
parse = record {
  step_id = "parse";
  work_kind = "parse_document";
  function_id = "document.extract";
  input_schema = "dotori.document.source.v1";
  output_schema = "dotori.document.extract.v1";
  payload = node_payload;
  depends_on = [];
  input_binding = none;
}

abbrev embed : PlanStep
embed = record {
  step_id = "embed";
  work_kind = "plan_document_embedding";
  function_id = "document.embed";
  input_schema = "dotori.document.extract.v1";
  output_schema = "dotori.document.embedding-result.v1";
  payload = node_payload;
  depends_on = "parse" ∷ [];
  input_binding = some (record {
    kind = "step";
    reference = "parse";
    schema = "dotori.document.extract.v1";
    revision = "";
  });
}

abbrev plan : ExecutionPlan
plan = record {
  plan_id = "p1";
  version = 2;
  steps = parse ∷ embed ∷ [];
  deployment_generation = "g1";
  request = record {
    request_id = "q1";
    source = source;
    required_schemas = "dotori.document.embedding-result.v1" ∷ [];
    deadline_at = 100;
    max_steps = 8;
  };
}

abbrev parse_job : String
parse_job = "dotori:p1:parse_document:parse"

abbrev embed_job : String
embed_job = "dotori:p1:plan_document_embedding:embed"

abbrev reported : ExecutionPlan → Row → ReceiptView → Result Error StepReport
reported p row receipt = do
  status ← (elim (receipt.status == "succeeded") [ true ↦ ok succeeded | false ↦ ok running ])
  ok (record {
    plan_id = p.plan_id;
    step_id = if receipt.work_kind == "parse_document" then "parse" else "embed";
    job_id = receipt.job_id;
    status = status;
    artifact_refs = if receipt.status == "succeeded" then "a1" ∷ [] else [];
  })

abbrev extract : ResolvedArtifact
extract = record {
  artifact_id = "a1";
  schema = "dotori.document.extract.v1";
  revision = "1";
  source_id = "doc-1";
  source_revision = "r1";
  source_checksum = "c";
  processing_fingerprint = "f";
  status = "ready";
  stale = false;
  producer_job_id = parse_job;
}

abbrev adapter : PlanAdapter
adapter = record {
  validate = λ p row. ok tt;
  validate_preparation = λ p row. ok tt;
  source_guard = λ p row. ok tt;
  report = reported;
  resolve_input = some (λ p row job binding. ok extract);
  compile_command =
      some (λ p row step artifact. ok (record { fields = "node_id" ∷ []; text = "{node_id:8}" }));
  validate_compiled = some (λ p row step payload artifact. ok tt);
}

abbrev env : Environment
env = record {
  uuid5 = λ name. name;
  validator = λ path payload. ok tt;
  load_adapter = λ kind. ok adapter;
  admitted_work = λ kind. ok tt;
  send_task = λ message. ok tt;
  save_published = λ now step_id. if now == 9 then err integrity_error else ok tt;
  text_of = λ e. "refused";
}

abbrev submission : Submission
submission = record {
  plan_id = "p1";
  request_id = "q1";
  job_id = parse_job;
  source_uid = "doc-1";
  definition = as_record plan (("parse", parse_job) ∷ ("embed", embed_job) ∷ []);
}

abbrev fresh : String → Delivery
fresh job = record { job_id = job; published_at = none; publish_error = "" }

abbrev start : Journal
start = record {
  row = record {
    submission = submission;
    workspace = 1;
    created_by = 2;
    reports = [];
    proposals = [];
    is_preparation = false;
    compiled = [];
    outcome = none;
    decisions = [];
    published_at = none;
    publish_error = "";
  };
  deliveries = ("parse", fresh parse_job) ∷ ("embed", fresh embed_job) ∷ [];
  sent = [];
}

abbrev parse_envelope : Envelope
parse_envelope = record {
  plan_id = "p1";
  step_id = "parse";
  job_id = parse_job;
  deadline_at = 100;
  parent_job_id = some (some "p1");
}

abbrev parse_success : Response
parse_success = record {
  receipt = record { job_id = parse_job; work_kind = "parse_document"; status = "succeeded" };
  followups = [];
}

-- The embedding cannot be published before the parse step has a success; the success publishes it.
abbrev calls : List (Call env)
calls =
    publish_one 1 false false "embed"
    ∷ publish_all 2 false false
    ∷ respond 3 "parse_document" parse_envelope node_payload parse_success
    ∷ publish_all 4 false false
    ∷ []

sent_of : Journal → List String
sent_of j = map (λ (m : Message). m.command.job_id) j.sent

calls-send : sent_of (run_calls env calls start) ≡ embed_job ∷ parse_job ∷ []
unfolding program sent_of
calls-send = refl

embed-fails : (publish_step env 1 false false "embed" start).0 ≡ err work_contract_error
unfolding program
embed-fails = refl

-- A replay sends the running step a second time.
replay-sends :
    sent_of (run_calls env (publish_all 1 false false ∷ publish_all 2 false true ∷ []) start)
    ≡ parse_job ∷ parse_job ∷ []
unfolding program sent_of
replay-sends = refl

-- A write that fails after the send leaves the step unmarked, and a later call sends it again.
abbrev unsaved_calls : List (Call env)
unsaved_calls = publish_all 9 false false ∷ publish_all 10 false false ∷ []

unsaved_calls-send : sent_of (run_calls env unsaved_calls start) ≡ parse_job ∷ parse_job ∷ []
unfolding program sent_of
unsaved_calls-send = refl

run_calls-once_example :
    times_sent "parse" (run_calls env unsaved_calls start).sent
    ≤ 1 + failed_writes env "parse" unsaved_calls
run_calls-once_example = run_calls-once env "parse" unsaved_calls start refl refl

abbrev answered : Journal
answered = record start {
  row = record start.row {
    reports =
        (
          "parse",
          record {
            plan_id = "p1";
            step_id = "parse";
            job_id = parse_job;
            status = succeeded;
            artifact_refs = "a1" ∷ [];
          },
        )
        ∷ [];
  };
}

answered_success : is_success (get "parse" answered.row.reports) ≡ true
unfolding get
answered_success = refl

run_calls-settled_example :
    is_success (get "parse" (run_calls env calls answered).row.reports) ≡ true
run_calls-settled_example = run_calls-settled env "parse" calls answered answered_success

embed-sent : sent_of (publish_step env 5 false false "embed" answered).1 ≡ embed_job ∷ []
unfolding program sent_of
embed-sent = refl

abbrev intake : Intake
intake = record {
  plan = plan;
  actor = 2;
  workspace = 1;
  deadline_at = some 100;
  preparation = false;
}

start_submitted : submit_locked env intake [] ≡ ok (start, true, start ∷ [])
unfolding program
start_submitted = refl

-- By the time of the second submission the adapters refuse the source.
abbrev revoked : String → Result Error PlanAdapter
revoked kind = ok (record adapter { validate = λ row plan. err plan_validation_error })

submit_locked_again_example :
    (existing : ExecutionPlan) × (load_submission env.uuid5 start.row.submission ≡ ok existing)
    × (submit_locked (at_later env revoked) intake (start ∷ []) ≡ (
        validate_submission (at_later env revoked) start.row existing >>= λ valid.
        ok (start, true, start ∷ [])))
submit_locked_again_example =
    submit_locked_again env revoked intake [] (start ∷ []) start true start_submitted

again_refused : submit_locked (at_later env revoked) intake (start ∷ []) ≡ err plan_validation_error
unfolding program
again_refused = refl

again_accepted : submit_locked env intake (start ∷ []) ≡ ok (start, true, start ∷ [])
unfolding program
again_accepted = refl

start_published : map sent_of (submit_plan env 1 intake []).1 ≡ (parse_job ∷ []) ∷ []
unfolding program sent_of
start_published = refl

start_inspected : inspect_submission env 2 1 start ≡ ok (pending, [])
unfolding program
start_inspected = refl

stranger-fails : inspect_submission env 3 1 start ≡ err does_not_exist
unfolding program
stranger-fails = refl
