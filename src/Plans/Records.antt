-- ===== src/Plans/Records.antt =====
-- Storing a plan and reading it back.
use text.Mathlib.TextEquality.{eq_iff}
use dotori.Prelude.{
  String, ◌≡◌, ◌∙◌, refl, Option, false, some, none, List, [], ◌∷◌, map, any, arith, inl, inr, ok,
  All, Bool-cases, if◌then◌else◌,
}
use dotori.Prelude.Classes.{◌==◌, string_eq, nat_eq}
use dotori.Bindings.{ArtifactBinding}
use dotori.Prelude.Dicts.{Dict, get, put, IsKeyed, IsKeyed-put, same_refl}
use dotori.Plans.Stored.{
  PlanRecord, StepRecord, step_record, pop_binding, as_record, read_step, read_steps, read_plan,
  read_request, read_source, read_binding, field, optional_field, check_keywords, step_jobs_from,
  plan_record, plan_from_record,
}
use dotori.Plans.{
  ExecutionPlan, PlanStep, find_step, validate_plan_bindings, is_bound, command_for_step,
  command_of,
}

read_bound_step :
    (s : PlanStep) (b : Option ArtifactBinding)
    → read_step (step_record (record s { input_binding = b })) ≡ ok (record s { input_binding = b })
unfolding read_step field get read_binding optional_field check_keywords
read_bound_step s none = refl
read_bound_step s (some b) = refl

read_popped_step :
    (s : PlanStep)
    → read_step (pop_binding (step_record s)) ≡ ok (record s { input_binding = none })
unfolding read_step field get read_binding
read_popped_step s = refl

read_step_records : (steps : List PlanStep) → read_steps (map step_record steps) ≡ ok steps
unfolding read_steps
read_step_records [] = refl
read_step_records (s ∷ steps) = rw (read_bound_step s s.input_binding, read_step_records steps)

read_popped_records :
    (steps : List PlanStep)
    → any is_bound steps ≡ false
    → read_steps (map pop_binding (map step_record steps)) ≡ ok steps
unfolding read_steps
read_popped_records [] h = refl
read_popped_records (s ∷ steps) h =
    let none_here : none ≡ s.input_binding = ground arith in
    let popped : read_step (pop_binding (step_record s)) ≡ ok s =
      read_popped_step s ∙ (λ i. ok (record s { input_binding = none_here (i) })) in
    rw (popped, read_popped_records steps (ground arith))

-- The record that `plan_record` makes of a plan and its job identities.
stored_plan : ExecutionPlan → Dict String → PlanRecord
stored_plan plan jobs =
    let stored = as_record plan jobs in
    if plan.version == 1 then record stored { steps = map pop_binding stored.steps } else stored

read_plan_from :
    (plan : ExecutionPlan) (jobs : Dict String) (steps : List StepRecord)
    → read_steps steps ≡ ok plan.steps
    → read_plan (record (as_record plan jobs) { steps = steps }) ≡ ok plan
unfolding read_plan read_request read_source field get optional_field check_keywords
read_plan_from plan jobs steps h = rw (h)

read_stored_plan :
    (plan : ExecutionPlan) (jobs : Dict String)
    → validate_plan_bindings plan ≡ ok tt
    → read_plan (stored_plan plan jobs) ≡ ok plan
unfolding validate_plan_bindings stored_plan
read_stored_plan plan jobs h = elim (Bool-cases (plan.version == 1)) [
  | inr e ↦
      rw e (read_plan_from plan jobs (map step_record plan.steps) (read_step_records plan.steps))
  | inl e ↦
      let unbound : any is_bound plan.steps ≡ false = ground (arith, e) in
      rw e (
        read_plan_from plan jobs (map pop_binding (map step_record plan.steps))
          (read_popped_records plan.steps unbound))
]

stored_plan-step_jobs :
    (plan : ExecutionPlan) (jobs : Dict String) → (stored_plan plan jobs).step_jobs ≡ jobs
unfolding stored_plan
stored_plan-step_jobs plan jobs = elim (Bool-cases (plan.version == 1)) [
  | inl e ↦ rw e
  | inr e ↦ rw e
]

-- Every step of a list that is not empty at its identity is found there.
abbrev Findable : List PlanStep → PlanStep → Type 0
Findable steps s = (t : PlanStep) × (find_step s.step_id steps ≡ some t)

Findable-cons : (s : PlanStep) (steps : List PlanStep) → Findable (s ∷ steps) s
unfolding find_step
Findable-cons s steps = (s, rw ((eq_iff s.step_id s.step_id).1 refl))

Findable-skip : (s t : PlanStep) (steps : List PlanStep) → Findable steps t → Findable (s ∷ steps) t
unfolding find_step
Findable-skip s t steps (u, e) = elim (Bool-cases (s.step_id == t.step_id)) [
  | inl here ↦ (s, rw here)
  | inr there ↦ (u, rw there e)
]

All-Findable-skip :
    (s : PlanStep) (steps later : List PlanStep)
    → All (Findable steps) later
    → All (Findable (s ∷ steps)) later
All-Findable-skip s steps [] h = tt
All-Findable-skip s steps (t ∷ later) h =
    (Findable-skip s t steps h.0, All-Findable-skip s steps later h.1)

All-Findable : (steps : List PlanStep) → All (Findable steps) steps
All-Findable [] = tt
All-Findable (s ∷ steps) =
    (Findable-cons s steps, All-Findable-skip s steps steps (All-Findable steps))

module _ (uuid5 : String → String) where
  step_jobs_from-total :
      (plan : ExecutionPlan) (steps : List PlanStep) (jobs : Dict String)
      → All (Findable plan.steps) steps
      → IsKeyed jobs
      → (d : Dict String) × (step_jobs_from uuid5 plan steps jobs ≡ ok d) × IsKeyed d
  unfolding step_jobs_from command_for_step
  step_jobs_from-total plan [] jobs f k = (jobs, refl, k)
  step_jobs_from-total plan (step ∷ steps) jobs ((t, e), f) k =
      let next = put step.step_id (command_of uuid5 plan t).job_id jobs in
      let (d, made, keyed) =
        step_jobs_from-total plan steps next f
          (IsKeyed-put step.step_id (command_of uuid5 plan t).job_id jobs k) in
      (d, rw (e, command_for_step) made, keyed)

  -- A plan that passes `validate_plan_bindings` has a record, and the record reads back as the same
  -- plan, also under version 1, whose records leave the bindings out.
  pub plan_from_record-plan_record :
      (plan : ExecutionPlan)
      → validate_plan_bindings plan ≡ ok tt
      → (stored : PlanRecord) × (plan_record uuid5 plan ≡ ok stored)
        × (plan_from_record uuid5 stored ≡ ok plan)
  unfolding plan_record plan_from_record stored_plan
  plan_from_record-plan_record plan h =
      let (jobs, made, keyed) =
        step_jobs_from-total plan plan.steps [] (All-Findable plan.steps) tt in
      (
        stored_plan plan jobs,
        rw (made),
        rw (
          read_stored_plan plan jobs h,
          h,
          made,
          stored_plan-step_jobs plan jobs,
          same_refl jobs keyed,
        ),
      )
