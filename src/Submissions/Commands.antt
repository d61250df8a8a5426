-- ===== src/Submissions/Commands.antt =====
-- Compiled commands: app/orchestration/command_inputs.py, and `approved_commands` of
-- app/orchestration/submissions.py.
use dotori.Prelude.{
  String, Bool, true, false, not, ◌&&◌, ◌||◌, Option, some, none, List, [], ◌∷◌, find?,
  if◌then◌else◌, Result, ok, err, ◌>>=◌, ◌>>◌, require,
}
use dotori.Prelude.Classes.{◌==◌, nat_eq, string_eq, elem, subset}
use dotori.Prelude.Dicts.{get, put}
use dotori.Bindings
use dotori.Bindings.{ArtifactBinding, ResolvedArtifact, resolve_artifact_binding}
use dotori.Plans.Loading.{load_submission}
use dotori.Plans.{
  Error, value_error, work_contract_error, ExecutionPlan, PlanStep, StepCommand, StepReport,
  Payload, command_for_step, is_bound,
}
use dotori.Plans.Reports.{is_usable, ready_ids}
use dotori.Plans.Contracts.{validate_work_payload, validate_preparation_delivery}
use dotori.Submissions.{
  Environment, PlanAdapter, Row, Compiled, next_step, get_plan_adapter, validate_submission,
  live_reports,
}

-- `resolve_artifact_binding` raises the `ValueError` of its own module.
abbrev pub lifted : {A : Type 0} → Result Bindings.Error A → Result Error A
lifted (ok a) = ok a
lifted (err e) = err value_error

-- The two commands agree outside the payload.
abbrev pub same_identity : StepCommand → StepCommand → Bool
same_identity a b =
    a.plan_id == b.plan_id
    && a.step_id == b.step_id
    && a.job_id == b.job_id
    && a.work_kind == b.work_kind
    && a.deadline_at == b.deadline_at

abbrev pub same_artifact : ResolvedArtifact → ResolvedArtifact → Bool
same_artifact a b =
    a.artifact_id == b.artifact_id
    && a.schema == b.schema
    && a.revision == b.revision
    && a.source_id == b.source_id
    && a.source_revision == b.source_revision
    && a.source_checksum == b.source_checksum
    && a.processing_fingerprint == b.processing_fingerprint
    && a.status == b.status
    && (if a.stale then b.stale else not b.stale)
    && a.producer_job_id == b.producer_job_id

-- A port that an adapter may lack: `if not callable(...)`.
abbrev pub port : {A : Type 0} → Option A → Result Error A
port none = err work_contract_error
port (some f) = ok f

module _ (env : Environment) where
  unfoldable pub validate_delivery : Row → String → Payload → Result Error (Unit {0})
  validate_delivery row kind payload =
      if row.is_preparation
      then validate_preparation_delivery env.validator kind payload
      else validate_work_payload env.validator kind payload >>= λ _. ok tt

  unfoldable pub pinned_command : Row → StepCommand → Compiled → Result Error StepCommand
  pinned_command row command record_ = do
    require (same_identity record_.command command) work_contract_error
    validate_delivery row command.work_kind record_.command.payload
    ok (record command { payload = record_.command.payload })

  unfoldable pub stored_command : Row → ExecutionPlan → PlanStep → Result Error StepCommand
  stored_command row plan step = do
    command ← command_for_step env.uuid5 plan step.step_id
    if not (is_bound step)
        then ok command
        else (port (get step.step_id row.compiled) >>= pinned_command row command)

  unfoldable pub approved_commands_from :
      Row → ExecutionPlan → List PlanStep → Result Error (List StepCommand)
  approved_commands_from row plan [] = ok []
  approved_commands_from row plan (step ∷ steps) =
      if not (is_bound step)
        || elim (get step.step_id row.compiled) [ none ↦ false | some c ↦ true ]
      then stored_command row plan step
        >>= (λ c. approved_commands_from row plan steps >>= λ cs. ok (c ∷ cs))
      else approved_commands_from row plan steps

  unfoldable pub approved_commands : Row → ExecutionPlan → Result Error (List StepCommand)
  approved_commands row plan = approved_commands_from row plan plan.steps

  -- The report that a binding to a step reads; a binding to an artifact reads none.
  unfoldable pub producing_report :
      Row → ExecutionPlan → ArtifactBinding → Result Error (Option StepReport)
  producing_report row plan binding =
      if binding.kind == "step"
      then (do
        reports ← live_reports env row plan
        report ← port (find? (λ r. r.step_id == binding.reference && is_usable r) reports)
        ok (some report))
      else ok none

  unfoldable pub producer_job : ExecutionPlan → ArtifactBinding → Result Error (Option String)
  producer_job plan binding =
      if binding.kind == "step"
      then command_for_step env.uuid5 plan binding.reference
        >>= (λ (c : StepCommand). ok (some c.job_id))
      else ok none

  abbrev pub is_reported : Option StepReport → ResolvedArtifact → Bool
  is_reported none artifact = true
  is_reported (some report) artifact = elem artifact.artifact_id report.artifact_refs

  -- `_resolve`
  unfoldable pub resolve_input :
      Row → ExecutionPlan → ArtifactBinding → PlanAdapter → Result Error ResolvedArtifact
  resolve_input row plan binding adapter = do
    report ← producing_report row plan binding
    job ← producer_job plan binding
    resolver ← port adapter.resolve_input
    artifact ←
        lifted (resolve_artifact_binding binding plan.request.source (resolver plan row job) job)
    require (is_reported report artifact) work_contract_error
    ok artifact

  unfoldable pub validate_compiled_input :
      Row → ExecutionPlan → PlanStep → ArtifactBinding → PlanAdapter → Result Error StepCommand
  validate_compiled_input row plan step binding adapter = do
    command ← stored_command row plan step
    artifact ← resolve_input row plan binding adapter
    stored ← port (get step.step_id row.compiled)
    require (same_artifact stored.input artifact) work_contract_error
    validator ← port adapter.validate_compiled
    validator plan row step command.payload artifact
    ok command

  -- The first compilation of a command, which stores it.
  unfoldable pub compile_step :
      Row → ExecutionPlan → PlanStep → ArtifactBinding → PlanAdapter → Result Error Row
  compile_step row plan step binding adapter = do
    compiler ← port adapter.compile_command
    validator ← port adapter.validate_compiled
    artifact ← resolve_input row plan binding adapter
    payload ← compiler plan row step artifact
    validate_delivery row step.work_kind payload
    validator plan row step payload artifact
    command ← command_for_step env.uuid5 plan step.step_id
    ok (record row {
      compiled =
          put step.step_id
            (record { command = record command { payload = payload }; input = artifact })
            row.compiled;
    })

  unfoldable pub prepare_bound : Row → ExecutionPlan → PlanStep → ArtifactBinding → Result Error Row
  prepare_bound row plan step binding = do
    adapter ← get_plan_adapter env step.work_kind
    adapter.source_guard plan row
    validate_submission env row plan
    reports ← live_reports env row plan
    require (subset step.depends_on (ready_ids reports)) work_contract_error
    elim (get step.step_id row.compiled) [
      | none ↦ compile_step row plan step binding adapter
      | some _ ↦ validate_compiled_input row plan step binding adapter >>= λ _. ok row
    ]

  -- `prepare_step_command`: the row that its transaction leaves.
  unfoldable pub prepare_step_command : String → Row → Result Error Row
  prepare_step_command step_id row = do
    plan ← load_submission env.uuid5 row.submission
    step ← next_step plan step_id
    elim step.input_binding [ none ↦ ok row | some binding ↦ prepare_bound row plan step binding ]
