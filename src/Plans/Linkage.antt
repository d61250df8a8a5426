-- ===== src/Plans/Linkage.antt =====
-- What validated plans and loaded submissions look like: bindings fed by earlier steps, and steps
-- in dependency order.
use text.Mathlib.TextEquality.{eq_iff}
use dotori.Prelude.{
  String, ◌≡◌, ◌∙◌, refl, true, false, Option, some, none, List, [], ◌∷◌, arith, ok, bind-eq-ok,
  All, Member, length, ◌≤◌, ltb, raise_if, ◌⊎◌, inl, inr, require, require-eq-ok, Bool-cases,
  Result, err,
}
use dotori.Prelude.Classes.{
  string_eq, elem, subset, subset→All, elem-false, elem→Member, ◌==◌, ==→≡,
}
use dotori.Prelude.Text.{codes, nonempty, is_trimmed}
use dotori.Bindings
use dotori.Bindings.{ArtifactBinding, validate_artifact_binding, is_identity}
use dotori.Plans.Stored.{plan_from_record}
use dotori.Plans.Loading.{Submission, check_order, check_identity, load_submission}
use dotori.Plans.{
  lifted, Error, ExecutionPlan, PlanStep, StepCommand, command_for_step, find_step,
  producer_matches, validate_binding, validate_bindings_from, validate_plan_bindings,
}

-- A binding's reference and schema are identities and its schema is the step's input schema. It
-- names an artifact at a revision, or, without one, a producer that stands before the step, is a
-- declared dependency, and whose output schema is the step's input schema.
abbrev pub IsFed : List PlanStep → PlanStep → Option ArtifactBinding → Type 0
IsFed seen step none = Unit
IsFed seen step (some b) =
    (b.schema ≡ step.input_schema)
    × (is_identity b.reference ≡ true)
    × (is_identity b.schema ≡ true)
    × (is_trimmed b.revision ≡ true)
    × ((b.kind ≡ "artifact") × (nonempty b.revision ≡ true)
        ⊎ (b.kind ≡ "step")
          × (nonempty b.revision ≡ false)
          × ((producer : PlanStep) × (find_step b.reference seen ≡ some producer)
              × Member b.reference step.depends_on
              × (producer.output_schema ≡ step.input_schema)))

abbrev pub AllFed : List PlanStep → List PlanStep → Type 0
AllFed seen [] = Unit
AllFed seen (step ∷ steps) = IsFed seen step step.input_binding × AllFed (step ∷ seen) steps

-- Identities are new and short, and every dependency is an earlier step.
abbrev pub IsOrdered : List String → List PlanStep → Type 0
IsOrdered preceding [] = Unit
IsOrdered preceding (step ∷ steps) =
    (¬ Member step.step_id preceding)
    × (length (codes step.step_id) ≤ 64)
    × All (λ d. Member d preceding) step.depends_on
    × IsOrdered (step.step_id ∷ preceding) steps

matched_producer :
    (seen : List PlanStep) (step : PlanStep) (b : ArtifactBinding) (found : Option PlanStep)
    → find_step b.reference seen ≡ found
    → b.kind ≡ "step"
    → producer_matches seen step b ≡ true
    → (producer : PlanStep) × (found ≡ some producer)
      × (elem b.reference step.depends_on ≡ true)
      × (producer.output_schema ≡ b.schema)
unfolding producer_matches
matched_producer seen step b none e k h = absurd (ground (arith, e, eq_iff b.kind "step"))
matched_producer seen step b (some p) e k h = (
  p,
  refl,
  ground (arith, e, eq_iff b.kind "step"),
  ground (arith, e, eq_iff b.kind "step", eq_iff p.output_schema b.schema),
)

lifted-eq-ok : (r : Result Bindings.Error (Unit {0})) → lifted r ≡ ok tt → r ≡ ok tt
lifted-eq-ok (ok u) h = refl
lifted-eq-ok (err e) h = cc

binding_fields :
    (b : ArtifactBinding)
    → validate_artifact_binding b ≡ ok tt
    → (is_identity b.reference ≡ true)
      × (is_identity b.schema ≡ true)
      × (is_trimmed b.revision ≡ true)
      × ((b.kind ≡ "artifact") × (nonempty b.revision ≡ true)
          ⊎ (b.kind ≡ "step") × (nonempty b.revision ≡ false))
unfolding validate_artifact_binding
binding_fields b h = (
  ground (arith, h),
  ground (arith, h),
  ground (arith, h),
  elim (Bool-cases (b.kind == "artifact")) [
    | inl artifact ↦ inl (==→≡ b.kind "artifact" artifact, ground (arith, h, artifact))
    | inr other ↦
        let step : (b.kind == "step") ≡ true = ground (arith, h, other) in
        inr (==→≡ b.kind "step" step, ground (arith, h, step))
  ],
)

validate_binding-IsFed :
    (seen : List PlanStep) (step : PlanStep) (binding : Option ArtifactBinding)
    → validate_binding seen step binding ≡ ok tt
    → IsFed seen step binding
unfolding validate_binding
validate_binding-IsFed seen step none h = tt
validate_binding-IsFed seen step (some b) h =
    let (_, valid, h1) = bind-eq-ok (lifted (validate_artifact_binding b)) _ h in
    let (_, of_schema, h2) =
      bind-eq-ok (require (b.schema == step.input_schema) Error.plan_validation_error) _ h1 in
    let schema : b.schema ≡ step.input_schema =
      ==→≡ b.schema step.input_schema (require-eq-ok _ _ of_schema) in
    let matches : producer_matches seen step b ≡ true = require-eq-ok _ _ h2 in
    let (reference, identity, revision, kind) = binding_fields b (lifted-eq-ok _ valid) in
    (
      schema,
      reference,
      identity,
      revision,
      elim kind [
        | inl artifact ↦ inl artifact
        | inr (k, bare) ↦
            let (p, found, dep, output) =
              matched_producer seen step b (find_step b.reference seen) refl k matches in
            inr (k, bare, (p, found, elem→Member b.reference step.depends_on dep, output ∙ schema))
      ],
    )

validate_bindings_from-AllFed :
    (seen steps : List PlanStep) → validate_bindings_from seen steps ≡ ok tt → AllFed seen steps
unfolding validate_bindings_from
validate_bindings_from-AllFed seen [] h = tt
validate_bindings_from-AllFed seen (step ∷ steps) h =
    let (u, first, rest) = bind-eq-ok (validate_binding seen step step.input_binding) _ h in
    (
      validate_binding-IsFed seen step step.input_binding first,
      validate_bindings_from-AllFed (step ∷ seen) steps rest,
    )

-- In a plan that passes `validate_plan_bindings`, a bound step's input schema is its binding's, and
-- the binding's reference and schema are identities. The binding names an artifact at a revision, or
-- it has no revision and names an earlier step that the bound step depends on and whose output
-- schema is the bound step's input schema.
pub validate_plan_bindings-AllFed :
    (plan : ExecutionPlan) → validate_plan_bindings plan ≡ ok tt → AllFed [] plan.steps
unfolding validate_plan_bindings
validate_plan_bindings-AllFed plan h =
    let checked : validate_bindings_from [] plan.steps ≡ ok tt = ground arith in
    validate_bindings_from-AllFed [] plan.steps checked

check_order-IsOrdered :
    (preceding : List String) (steps : List PlanStep)
    → check_order preceding steps ≡ ok tt
    → IsOrdered preceding steps
unfolding check_order
check_order-IsOrdered preceding [] h = tt
check_order-IsOrdered preceding (step ∷ steps) h =
    let fresh : elem step.step_id preceding ≡ false = ground arith in
    let deps : subset step.depends_on preceding ≡ true = ground arith in
    (
      elem-false step.step_id preceding fresh,
      ground arith,
      subset→All step.depends_on preceding deps,
      check_order-IsOrdered (step.step_id ∷ preceding) steps (ground arith),
    )

module _ (uuid5 : String → String) where
  load_submission-checks :
      (row : Submission) {plan : ExecutionPlan}
      → load_submission uuid5 row ≡ ok plan
      → (plan_from_record uuid5 row.definition ≡ ok plan)
        × (check_identity uuid5 row plan plan.steps ≡ ok tt)
        × (check_order [] plan.steps ≡ ok tt)
  unfolding load_submission
  load_submission-checks row h = ground arith

  -- The row's job is the job of the first step.
  abbrev pub NamesFirstJob : Submission → ExecutionPlan → List PlanStep → Type 0
  NamesFirstJob row plan [] = ⊥
  NamesFirstJob row plan (first ∷ steps) =
      (command : StepCommand) × (command_for_step uuid5 plan first.step_id ≡ ok command)
      × (command.job_id ≡ row.job_id)

  check_identity-names :
      (row : Submission) (plan : ExecutionPlan) (steps : List PlanStep)
      → check_identity uuid5 row plan steps ≡ ok tt
      → (plan.plan_id ≡ row.plan_id)
        × (plan.request.request_id ≡ row.request_id)
        × (plan.request.source.source_id ≡ row.source_uid)
        × NamesFirstJob row plan steps
        × (1 ≤ length steps)
        × (length steps ≤ plan.request.max_steps)
  unfolding check_identity
  check_identity-names row plan [] h = cc
  check_identity-names row plan (first ∷ steps) h =
      let (_, few, rest) =
        bind-eq-ok
          (raise_if (ltb plan.request.max_steps (length (first ∷ steps)))
            Error.plan_validation_error)
          _ h in
      let (command, made, named) = bind-eq-ok (command_for_step uuid5 plan first.step_id) _ rest in
      let job : command.job_id ≡ row.job_id = ground (arith, eq_iff command.job_id row.job_id) in
      let (a, b, c) : (plan.plan_id ≡ row.plan_id)
          × (plan.request.request_id ≡ row.request_id)
          × (plan.request.source.source_id ≡ row.source_uid) =
        ground (
          rest,
          made,
          arith,
          eq_iff plan.plan_id row.plan_id,
          eq_iff plan.request.request_id row.request_id,
          eq_iff plan.request.source.source_id row.source_uid,
        ) in
      (a, b, c, (command, made, job), ground arith, ground arith)

  -- A submission that loads names its plan, its request, its source and the job of its first step,
  -- and the plan has between one and `max_steps` steps, with distinct identities of at most 64 characters, each depending on
  -- earlier steps only.
  pub load_submission-IsOrdered :
      (row : Submission) {plan : ExecutionPlan}
      → load_submission uuid5 row ≡ ok plan
      → (plan.plan_id ≡ row.plan_id)
        × (plan.request.request_id ≡ row.request_id)
        × (plan.request.source.source_id ≡ row.source_uid)
        × NamesFirstJob row plan plan.steps
        × (1 ≤ length plan.steps)
        × (length plan.steps ≤ plan.request.max_steps)
        × IsOrdered [] plan.steps
  load_submission-IsOrdered row {plan} h =
      let (stored, identity, order) = load_submission-checks row h in
      let (a, b, c, d, e, f) = check_identity-names row plan plan.steps identity in
      (a, b, c, d, e, f, check_order-IsOrdered [] plan.steps order)
