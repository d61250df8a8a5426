-- ===== src/Submissions/Intake.antt =====
-- Intake of a plan: `submit_plan` and `inspect_submission` of app/orchestration/submissions.py over
-- the journals of all plans. A row and its deliveries are unique as the constraints of
-- app/orchestration_state/models.py say.
use dotori.Prelude.{
  ℕ, String, Bool, true, false, not, ◌&&◌, ◌||◌, Option, some, none, List, [], ◌∷◌, any, find?,
  length, leb, if◌then◌else◌, Result, ok, err, ◌>>=◌, ◌>>◌, require, raise_if,
}
use dotori.Prelude.Classes.{◌==◌, nat_eq, string_eq, list_eq}
use dotori.Prelude.Dicts.{Dict, get, put}
use dotori.Prelude.Text.{nonempty, codes}
use dotori.Bindings.{ArtifactBinding, same_source}
use dotori.Plans.Stored.{plan_record}
use dotori.Plans.Loading.{load_submission}
use dotori.Plans.{
  Error, plan_validation_error, does_not_exist, integrity_error, ExecutionPlan, PlanStep,
  StepReport, payload_equals, command_for_step,
}
use dotori.Plans.Reports.{Outcome, completion_candidate}
use dotori.Plans.Control.{Verdict}
use dotori.Submissions.{Environment, Row, Delivery, validate_submission, live_reports}
use dotori.Submissions.Commands.{approved_commands}
use dotori.Submissions.Publication.{Journal, is_set, publish_submission}
use dotori.Submissions.Responses.{decide_all}

abbrev pub same_binding : Option ArtifactBinding → Option ArtifactBinding → Bool
same_binding none none = true
same_binding (some a) (some b) =
    a.kind == b.kind
    && a.reference == b.reference
    && a.schema == b.schema
    && a.revision == b.revision
same_binding _ _ = false

abbrev pub same_step : PlanStep → PlanStep → Bool
same_step a b =
    a.step_id == b.step_id
    && a.work_kind == b.work_kind
    && a.function_id == b.function_id
    && a.input_schema == b.input_schema
    && a.output_schema == b.output_schema
    && payload_equals a.payload b.payload
    && a.depends_on == b.depends_on
    && same_binding a.input_binding b.input_binding

abbrev pub same_steps : List PlanStep → List PlanStep → Bool
same_steps [] [] = true
same_steps (a ∷ rest) (b ∷ others) = same_step a b && same_steps rest others
same_steps _ _ = false

-- The stored plan is the submitted one, whatever the deadlines are.
abbrev pub same_plan : ExecutionPlan → ExecutionPlan → Bool
same_plan a b =
    same_steps a.steps b.steps
    && same_source a.request.source b.request.source
    && a.request.required_schemas == b.request.required_schemas
    && a.request.max_steps == b.request.max_steps
    && a.deployment_generation == b.deployment_generation
    && a.version == b.version

abbrev pub allows_deadline : Option ℕ → ℕ → Bool
allows_deadline none deadline = true
allows_deadline (some asked) deadline = deadline == asked

abbrev pub is_request : ℕ → String → Journal → Bool
is_request workspace request_id j =
    j.row.workspace == workspace && j.row.submission.request_id == request_id

-- The arguments of a submission.
pub record Intake : Type 0 where
  pub plan : ExecutionPlan
  pub actor : ℕ
  pub workspace : ℕ
  pub deadline_at : Option ℕ
  pub preparation : Bool

abbrev pub is_intake : Intake → Journal → Bool
is_intake i = is_request i.workspace i.plan.request.request_id

-- The journal of a request, replaced or added.
unfoldable pub save_journal : Intake → Journal → List Journal → List Journal
save_journal i j [] = j ∷ []
save_journal i j (k ∷ js) =
    let rest = save_journal i j js in if is_intake i k then j ∷ js else k ∷ rest

abbrev pub names_delivery : String → Dict Delivery → Bool
names_delivery job = any (λ (entry : String × Delivery). entry.1.job_id == job)

-- `isinstance(request_id, str)` holds of a text; an empty plan is refused next.
unfoldable pub first_step : ExecutionPlan → Result Error PlanStep
first_step plan = do
  require (nonempty plan.request.request_id && leb (length (codes plan.request.request_id)) 64)
      plan_validation_error
  elim plan.steps [ [] ↦ err plan_validation_error | step ∷ steps ↦ ok step ]

module _ (env : Environment) where
  -- The defaults of `get_or_create`.
  unfoldable pub new_journal : Intake → Result Error Journal
  new_journal i = do
    first ← first_step i.plan
    command ← command_for_step env.uuid5 i.plan first.step_id
    definition ← plan_record env.uuid5 i.plan
    ok (record {
      row = record {
        submission = record {
          plan_id = i.plan.plan_id;
          request_id = i.plan.request.request_id;
          job_id = command.job_id;
          source_uid = i.plan.request.source.source_id;
          definition = definition;
        };
        workspace = i.workspace;
        created_by = i.actor;
        reports = [];
        proposals = [];
        is_preparation = i.preparation;
        compiled = [];
        outcome = none;
        decisions = [];
        published_at = none;
        publish_error = "";
      };
      deliveries = [];
      sent = [];
    })

  unfoldable pub get_or_create : Intake → Journal → List Journal → Result Error (Journal × Bool)
  get_or_create i fresh js = elim (find? (is_intake i) js) [
    | some j ↦ ok (j, false)
    | none ↦ (do
      raise_if
          (any
            (λ (k : Journal).
              k.row.submission.plan_id == fresh.row.submission.plan_id
              || k.row.submission.job_id == fresh.row.submission.job_id)
            js)
          integrity_error
      ok (fresh, true))
  ]

  -- The checks on the row, which give the stored plan.
  unfoldable pub check_intake : Intake → Row → Result Error ExecutionPlan
  check_intake i row = do
    require (if row.is_preparation then i.preparation else not i.preparation) plan_validation_error
    require
        (row.created_by == i.actor && row.submission.source_uid == i.plan.request.source.source_id)
        plan_validation_error
    existing ← load_submission env.uuid5 row.submission
    require (same_plan existing i.plan) plan_validation_error
    require (allows_deadline i.deadline_at existing.request.deadline_at) plan_validation_error
    validate_submission env row existing
    ok existing

  -- The delivery of one step, beside the deliveries of the other journals.
  unfoldable pub ensure_delivery :
      List Journal → ExecutionPlan → PlanStep → Dict Delivery → Result Error (Dict Delivery)
  ensure_delivery js plan step deliveries = do
    command ← command_for_step env.uuid5 plan step.step_id
    elim (get step.step_id deliveries) [
      | some delivery ↦ (do
        require (delivery.job_id == command.job_id) plan_validation_error
        ok deliveries)
      | none ↦ (do
        raise_if
            (names_delivery command.job_id deliveries
              || any (λ (k : Journal). names_delivery command.job_id k.deliveries) js)
            integrity_error
        ok (
            put step.step_id
              (record { job_id = command.job_id; published_at = none; publish_error = "" })
              deliveries))
    ]

  unfoldable pub ensure_deliveries :
      List Journal → ExecutionPlan → List PlanStep → Dict Delivery → Result Error (Dict Delivery)
  ensure_deliveries js plan [] deliveries = ok deliveries
  ensure_deliveries js plan (step ∷ steps) deliveries = do
    next ← ensure_delivery js plan step deliveries
    ensure_deliveries js plan steps next

  -- The transaction of `submit_plan`: the journal, whether its publication is scheduled, and all
  -- journals.
  unfoldable pub submit_locked :
      Intake → List Journal → Result Error (Journal × Bool × List Journal)
  submit_locked i js = do
    fresh ← new_journal i
    opened ← get_or_create i fresh js
    let j = opened.0
    existing ← check_intake i j.row
    deliveries ← ensure_deliveries js existing existing.steps j.deliveries
    let kept : Journal = record j { deliveries = deliveries }
    ok (
      kept,
      not i.preparation && (opened.1 || not (is_set j.row.published_at)),
      save_journal i kept js,
    )

  -- `submit_plan` outside a transaction: a failed publication after the commit is only logged.
  unfoldable pub submit_plan : ℕ → Intake → List Journal → Result Error Row × List Journal
  submit_plan now i js = elim (submit_locked i js) [
    | err e ↦ (err e, js)
    | ok (j, scheduled, js') ↦ (
      ok j.row,
      if scheduled then save_journal i (publish_submission env now false false j).1 js' else js',
    )
  ]

  -- The commands are read where a step has proposals.
  unfoldable pub decide_stored :
      ExecutionPlan → List StepReport → Row → Result Error (Dict (List Verdict))
  decide_stored plan reports row = elim row.proposals [
    | [] ↦ ok []
    | entry ∷ entries ↦ approved_commands env row plan >>= λ commands.
        decide_all env plan reports commands (entry ∷ entries)
  ]

  unfoldable pub inspect_submission : ℕ → ℕ → Journal → Result Error (Outcome × Dict (List Verdict))
  inspect_submission actor workspace j = do
    require (j.row.workspace == workspace && j.row.created_by == actor) does_not_exist
    plan ← load_submission env.uuid5 j.row.submission
    validate_submission env j.row plan
    reports ← live_reports env j.row plan
    outcome ← completion_candidate env.uuid5 plan reports
    decisions ← decide_stored plan reports j.row
    ok (outcome, decisions)
