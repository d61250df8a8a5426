-- ===== src/Plans/Reports/Laws.antt =====
-- What a report, and a plan's outcome, is proof of.
use text.Mathlib.TextEquality.{eq_iff}
use dotori.Prelude.{
  String, ◌≡◌, ◌≢◌, ◌∙◌, refl, true, ◌&&◌, some, List, [], ◌∷◌, map, filter, all, arith, inl, inr,
  ok, All, Member, false, bind-eq-ok, require, require-eq-ok, Bool-cases, Option-cases,
}
use dotori.Prelude.Text.{nonempty}
use dotori.Prelude.Classes.{◌==◌, ==→≡, string_eq, elem, subset, subset→All}
use dotori.Plans.{Error, ExecutionPlan, PlanStep, StepReport, succeeded, find_step, command_of}
use dotori.Plans.Reports.{
  ReceiptView, Artifact, artifact_fits, read_status, report_for_step, report_from_receipt,
  ready_ids, report_belongs, ready_steps_of, requested_outputs_ready, completed,
  completion_candidate,
}

-- A step of the plan that gives the schema, has a successful report with an artifact, and whose
-- dependencies have one too.
abbrev pub Provides : List String → List PlanStep → String → Type 0
Provides ready steps schema =
    (step : PlanStep) × Member step steps
    × (schema ≡ step.output_schema)
    × (elem step.step_id ready ≡ true)
    × All (λ d. Member d ready) step.depends_on

abbrev pub IsProvided : ExecutionPlan → List StepReport → String → Type 0
IsProvided plan reports schema = Provides (ready_ids reports) plan.steps schema

abbrev ready_among : List String → List PlanStep → List PlanStep
ready_among ready steps = filter (λ s. elem s.step_id ready) steps

Provides-cons :
    (ready : List String) (s : PlanStep) (steps : List PlanStep) (schema : String)
    → Provides ready steps schema
    → Provides ready (s ∷ steps) schema
Provides-cons ready s steps schema (step, m, a, b, c) = (step, inr m, a, b, c)

Member-Provides :
    (ready : List String) (steps : List PlanStep) (schema : String)
    → all (λ (s : PlanStep). subset s.depends_on ready) (ready_among ready steps) ≡ true
    → Member schema (map (λ (s : PlanStep). s.output_schema) (ready_among ready steps))
    → Provides ready steps schema
Member-Provides ready [] schema deps m = absurd m
Member-Provides ready (s ∷ steps) schema deps m = elim (Bool-cases (elem s.step_id ready)) [
  | inr e ↦
      Provides-cons ready s steps schema
        (Member-Provides ready steps schema (rw e at deps) (rw e at m))
  | inl e ↦
      let deps' : (subset s.depends_on ready
            && all (λ (s : PlanStep). subset s.depends_on ready) (ready_among ready steps))
          ≡ true =
        rw e at deps in
      let m' : Member schema
          (map (λ (s : PlanStep). s.output_schema) (s ∷ ready_among ready steps)) =
        rw e at m in
      elim m' [
        | inl same ↦ (s, inl refl, same, e, subset→All s.depends_on ready (ground (arith, deps')))
        | inr later ↦
            Provides-cons ready s steps schema
              (Member-Provides ready steps schema (ground (arith, deps')) later)
      ]
]

All-Provides :
    (ready : List String) (steps : List PlanStep) (schemas : List String)
    → all (λ (s : PlanStep). subset s.depends_on ready) (ready_among ready steps) ≡ true
    → All
        (λ c. Member c (map (λ (s : PlanStep). s.output_schema) (ready_among ready steps)))
        schemas
    → All (Provides ready steps) schemas
All-Provides ready steps [] deps h = tt
All-Provides ready steps (c ∷ schemas) deps h =
    (Member-Provides ready steps c deps h.0, All-Provides ready steps schemas deps h.1)

module _ (uuid5 : String → String) (plan : ExecutionPlan) (reports : List StepReport) where
  outputs_tests :
      requested_outputs_ready uuid5 plan reports ≡ ok true
      → (all
            (λ (s : PlanStep). subset s.depends_on (ready_ids reports))
            (ready_steps_of plan reports)
          ≡ true)
        × (subset plan.request.required_schemas
              (map (λ (s : PlanStep). s.output_schema) (ready_steps_of plan reports))
            ≡ true)
  unfolding requested_outputs_ready
  outputs_tests h = ground arith

  completed_tests :
      completion_candidate uuid5 plan reports ≡ ok completed
      → requested_outputs_ready uuid5 plan reports ≡ ok true
  unfolding completion_candidate
  completed_tests h = ground arith

  -- A plan counts as completed only if each requested schema is the output of one of its steps that
  -- has a successful report with an artifact, and whose dependencies all have one too.
  pub completion_candidate-IsProvided :
      completion_candidate uuid5 plan reports ≡ ok completed
      → All (IsProvided plan reports) plan.request.required_schemas
  completion_candidate-IsProvided h =
      let (deps, covered) = outputs_tests (completed_tests h) in
      All-Provides (ready_ids reports) plan.steps plan.request.required_schemas deps
        (subset→All plan.request.required_schemas _ covered)

-- The report is of the plan and of the step's job, and a success has an artifact.
abbrev pub IsSound : (String → String) → ExecutionPlan → StepReport → Type 0
IsSound uuid5 plan report =
    (report_belongs uuid5 plan report ≡ true)
    × (report.status ≡ succeeded → report.artifact_refs ≢ [])

-- Metadata of an artifact that is ready for the step: its schema is the step's output schema, and
-- its source the plan's, at the plan's revision and, where the plan has one, checksum.
pub record IsOutput (plan : ExecutionPlan) (step : PlanStep) (a : Artifact) : Type 0 where
  pub schema : a.schema ≡ step.output_schema
  pub ready : a.status ≡ "ready"
  pub fresh : a.stale ≡ false
  pub named : nonempty a.id ≡ true
  pub source_id : a.source_id ≡ plan.request.source.source_id
  pub source_revision : a.source_revision ≡ plan.request.source.revision
  pub source_checksum :
      nonempty plan.request.source.checksum ≡ true
      → a.source_checksum ≡ plan.request.source.checksum

artifact_fits-IsOutput :
    (plan : ExecutionPlan) (step : PlanStep) (a : Artifact)
    → artifact_fits plan step a ≡ true
    → IsOutput plan step a
unfolding artifact_fits
artifact_fits-IsOutput plan step a h = record {
  schema = ==→≡ a.schema step.output_schema (ground (arith, h));
  ready = ==→≡ a.status "ready" (ground (arith, h));
  fresh = ground (arith, h);
  named = ground (arith, h);
  source_id = ==→≡ a.source_id plan.request.source.source_id (ground (arith, h));
  source_revision = ==→≡ a.source_revision plan.request.source.revision (ground (arith, h));
  source_checksum =
      λ given. ==→≡ a.source_checksum plan.request.source.checksum (ground (arith, h, given));
}

All-IsOutput :
    (plan : ExecutionPlan) (step : PlanStep) (artifacts : List Artifact)
    → all (artifact_fits plan step) artifacts ≡ true
    → All (IsOutput plan step) artifacts
All-IsOutput plan step [] h = tt
All-IsOutput plan step (a ∷ artifacts) h = (
  artifact_fits-IsOutput plan step a (ground (arith, h)),
  All-IsOutput plan step artifacts (ground (arith, h)),
)

-- The report is of the step's receipt and names the artifacts, which are outputs of the step.
pub record IsOfReceipt (plan : ExecutionPlan) (receipt : ReceiptView) (artifacts : List Artifact)
    (report : StepReport) : Type 0 where
  pub step : PlanStep
  pub found : find_step report.step_id plan.steps ≡ some step
  pub job : receipt.job_id ≡ report.job_id
  pub kind : receipt.work_kind ≡ step.work_kind
  pub status : read_status receipt.status ≡ ok report.status
  pub refs : report.artifact_refs ≡ map (λ (a : Artifact). a.id) artifacts
  pub outputs : All (IsOutput plan step) artifacts

find_step-id :
    (step_id : String) (steps : List PlanStep) (s : PlanStep)
    → find_step step_id steps ≡ some s
    → s.step_id ≡ step_id
unfolding find_step
find_step-id step_id [] s h = cc
find_step-id step_id (t ∷ steps) s h =
    ground (arith, eq_iff t.step_id step_id, find_step-id step_id steps s)

module _ (uuid5 : String → String) (plan : ExecutionPlan) where
  report_for_step-fields :
      (step : PlanStep) (receipt : ReceiptView) (artifacts : List Artifact) {report : StepReport}
      → report_for_step uuid5 plan step receipt artifacts ≡ ok report
      → (report.plan_id ≡ plan.plan_id)
        × (report.step_id ≡ step.step_id)
        × (report.job_id ≡ (command_of uuid5 plan step).job_id)
  unfolding report_for_step
  report_for_step-fields step receipt artifacts h = ground arith

  report_for_step-receipt :
      (step : PlanStep) (receipt : ReceiptView) (artifacts : List Artifact) {report : StepReport}
      → report_for_step uuid5 plan step receipt artifacts ≡ ok report
      → find_step report.step_id plan.steps ≡ some step
      → IsOfReceipt plan receipt artifacts report
  unfolding report_for_step
  report_for_step-receipt step receipt artifacts {report} h found =
      let command = command_of uuid5 plan step in
      let (_, same, h1) =
        bind-eq-ok
          (require (receipt.job_id == command.job_id && receipt.work_kind == command.work_kind)
            Error.plan_validation_error)
          _ h in
      let (_, fits, h2) =
        bind-eq-ok (require (all (artifact_fits plan step) artifacts) Error.plan_validation_error) _
          h1 in
      let (status, read, h3) = bind-eq-ok (read_status receipt.status) _ h2 in
      let is_same = require-eq-ok _ _ same in
      let of_command : command.job_id ≡ report.job_id = ground (arith, h3) in
      let of_status : status ≡ report.status = ground (arith, h3) in
      record {
        step = step;
        found = found;
        job = ==→≡ receipt.job_id command.job_id (ground (arith, is_same)) ∙ of_command;
        kind = ==→≡ receipt.work_kind command.work_kind (ground (arith, is_same));
        status = rw (← of_status) read;
        refs = ground (arith, h3);
        outputs = All-IsOutput plan step artifacts (require-eq-ok _ _ fits);
      }

  report_for_step-refs :
      (step : PlanStep) (receipt : ReceiptView) (artifacts : List Artifact) {report : StepReport}
      → report_for_step uuid5 plan step receipt artifacts ≡ ok report
      → report.status ≡ succeeded
      → report.artifact_refs ≢ []
  unfolding report_for_step
  report_for_step-refs step receipt artifacts h done empty = ground arith

  belongs :
      (report : StepReport) (s : PlanStep) {step_id : String}
      → report.step_id ≡ step_id
      → find_step step_id plan.steps ≡ some s
      → report.plan_id ≡ plan.plan_id
      → report.job_id ≡ (command_of uuid5 plan s).job_id
      → report_belongs uuid5 plan report ≡ true
  unfolding report_belongs
  belongs report s {step_id} id e a c =
      let found : find_step report.step_id plan.steps ≡ some s = ground (arith, id, e) in
      ground (
        arith,
        found,
        eq_iff report.plan_id plan.plan_id,
        eq_iff report.job_id (command_of uuid5 plan s).job_id,
      )

  -- A receipt that makes a report is the receipt of the step's job and work kind, and gives the
  -- report's status. The report is one that `requested_outputs_ready` takes for this plan, it names
  -- the artifacts given, each a ready output of the step from the plan's source, and a report of
  -- success names at least one.
  pub report_from_receipt-IsSound :
      (step_id : String) (receipt : ReceiptView) (artifacts : List Artifact) {report : StepReport}
      → report_from_receipt uuid5 plan step_id receipt artifacts ≡ ok report
      → (report.step_id ≡ step_id)
        × IsSound uuid5 plan report
        × IsOfReceipt plan receipt artifacts report
  unfolding report_from_receipt
  report_from_receipt-IsSound step_id receipt artifacts {report} h =
      elim (Option-cases (find_step step_id plan.steps)) [
        | inl e ↦ absurd (ground (arith, e))
        | inr (s, e) ↦
            let made : report_for_step uuid5 plan s receipt artifacts ≡ ok report =
              ground (arith, e, h) in
            let (a, b, c) = report_for_step-fields s receipt artifacts made in
            let id : report.step_id ≡ step_id = b ∙ find_step-id step_id plan.steps s e in
            (
              id,
              (belongs report s id e a c, report_for_step-refs s receipt artifacts made),
              report_for_step-receipt s receipt artifacts made (rw (id) e),
            )
      ]
