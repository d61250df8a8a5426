-- ===== src/Submissions/Deliveries.antt =====
-- The deliveries of a plan's steps: the loop of `submit_plan` of app/orchestration/submissions.py
-- gives every step its own, and leaves them alone where they are there.
use dotori.Prelude.{
  ◌≡◌, refl, true, ◌||◌, some, none, List, [], ◌∷◌, arith, Bool-cases, Option-cases, inl, inr, any,
  All, ok, bind-eq-ok, ok-injective, require, raise_if, require-eq-ok,
}
use dotori.Prelude.Classes.{◌==◌, nat_eq, string_eq, ==→≡, ==_refl}
use dotori.Prelude.Dicts.{Dict, get, put, get-put}
use dotori.Plans.{
  plan_validation_error, integrity_error, ExecutionPlan, PlanStep, StepCommand, command_for_step,
}
use dotori.Submissions.{Environment, Delivery}
use dotori.Submissions.Publication.{Journal}
use dotori.Submissions.Intake.{names_delivery, ensure_delivery, ensure_deliveries}

module _ (env : Environment) (plan : ExecutionPlan) where
  -- The step has its delivery.
  pub HasDelivery : Dict Delivery → PlanStep → Type 0
  HasDelivery deliveries step =
      (d : Delivery) × (command : StepCommand) × (command_for_step env.uuid5 plan step.step_id
        ≡ ok command)
      × (get step.step_id deliveries ≡ some d)
      × ((d.job_id == command.job_id) ≡ true)

  -- A step without a delivery is given one.
  ensure_delivery-put :
      (js : List Journal) (step : PlanStep) (deliveries next : Dict Delivery)
      (command : StepCommand)
      → command_for_step env.uuid5 plan step.step_id ≡ ok command
      → get step.step_id deliveries ≡ none
      → ensure_delivery env js plan step deliveries ≡ ok next
      → put step.step_id
          (record { job_id = command.job_id; published_at = none; publish_error = "" })
          deliveries
        ≡ next
  unfolding ensure_delivery
  ensure_delivery-put js step deliveries next command made missing h =
      let h1 = rw (ensure_delivery, made, missing) at h in
      let (_, free, h2) =
        bind-eq-ok
          (raise_if
            (names_delivery command.job_id deliveries
              || any (λ (k : Journal). names_delivery command.job_id k.deliveries) js)
            integrity_error)
          _ h1 in
      ok-injective h2

  -- A step with a delivery keeps the deliveries as they are.
  ensure_delivery-same :
      (js : List Journal) (step : PlanStep) (deliveries next : Dict Delivery) (d : Delivery)
      → get step.step_id deliveries ≡ some d
      → ensure_delivery env js plan step deliveries ≡ ok next
      → (deliveries ≡ next) × HasDelivery deliveries step
  unfolding ensure_delivery HasDelivery
  ensure_delivery-same js step deliveries next d found h =
      let (command, made, h1) = bind-eq-ok (command_for_step env.uuid5 plan step.step_id) _ h in
      let h2 = rw found at h1 in
      let (_, same_job, h3) =
        bind-eq-ok (require (d.job_id == command.job_id) plan_validation_error) _ h2 in
      (ok-injective h3, (d, command, made, found, require-eq-ok _ _ same_job))

  ensure_delivery-HasDelivery :
      (js : List Journal) (step : PlanStep) (deliveries next : Dict Delivery)
      → ensure_delivery env js plan step deliveries ≡ ok next
      → HasDelivery next step
  unfolding ensure_delivery HasDelivery
  ensure_delivery-HasDelivery js step deliveries next h =
      let (command, made, h1) = bind-eq-ok (command_for_step env.uuid5 plan step.step_id) _ h in
      let d : Delivery = record {
        job_id = command.job_id;
        published_at = none;
        publish_error = "";
      } in
      elim (Option-cases (get step.step_id deliveries)) [
        | inl missing ↦ rw (← ensure_delivery-put js step deliveries next command made missing h) (
          d,
          command,
          made,
          rw (get-put step.step_id step.step_id d deliveries, ==_refl step.step_id) refl,
          ==_refl command.job_id,
        )
        | inr (d, found) ↦
            let (same, has) = ensure_delivery-same js step deliveries next d found h in
            rw (← same) has
      ]

  ensure_delivery-keeps :
      (js : List Journal) (step s : PlanStep) (deliveries next : Dict Delivery)
      → ensure_delivery env js plan step deliveries ≡ ok next
      → HasDelivery deliveries s
      → HasDelivery next s
  unfolding ensure_delivery HasDelivery
  ensure_delivery-keeps js step s deliveries next h (e, command_s, made_s, found_s, same_job) =
      let (command, made, h1) = bind-eq-ok (command_for_step env.uuid5 plan step.step_id) _ h in
      let d : Delivery = record {
        job_id = command.job_id;
        published_at = none;
        publish_error = "";
      } in
      elim (Option-cases (get step.step_id deliveries)) [
        | inr (d, found) ↦
            let (same, has) = ensure_delivery-same js step deliveries next d found h in
            rw (← same) (e, command_s, made_s, found_s, same_job)
        | inl missing ↦
            rw (← ensure_delivery-put js step deliveries next command made missing h)
              (elim (Bool-cases (step.step_id == s.step_id)) [
                | inl same_id ↦
                    let clash : get s.step_id deliveries ≡ none =
                      rw (← ==→≡ step.step_id s.step_id same_id) missing in
                    absurd (ground (arith, clash, found_s))
                | inr other ↦ (
                  e,
                  command_s,
                  made_s,
                  rw (get-put step.step_id s.step_id d deliveries, other) found_s,
                  same_job,
                )
              ])
      ]

  ensure_deliveries-keeps :
      (js : List Journal) (steps : List PlanStep) (s : PlanStep) (deliveries last : Dict Delivery)
      → ensure_deliveries env js plan steps deliveries ≡ ok last
      → HasDelivery deliveries s
      → HasDelivery last s
  unfolding ensure_deliveries
  ensure_deliveries-keeps js [] s deliveries last h has = rw (← ok-injective h) has
  ensure_deliveries-keeps js (step ∷ steps) s deliveries last h has =
      let (next, one, rest) = bind-eq-ok (ensure_delivery env js plan step deliveries) _ h in
      ensure_deliveries-keeps js steps s next last rest
        (ensure_delivery-keeps js step s deliveries next one has)

  pub ensure_deliveries-HasDelivery :
      (js : List Journal) (steps : List PlanStep) (deliveries last : Dict Delivery)
      → ensure_deliveries env js plan steps deliveries ≡ ok last
      → All (HasDelivery last) steps
  unfolding ensure_deliveries
  ensure_deliveries-HasDelivery js [] deliveries last h = tt
  ensure_deliveries-HasDelivery js (step ∷ steps) deliveries last h =
      let (next, one, rest) = bind-eq-ok (ensure_delivery env js plan step deliveries) _ h in
      (
        ensure_deliveries-keeps js steps step next last rest
            (ensure_delivery-HasDelivery js step deliveries next one),
        ensure_deliveries-HasDelivery js steps next last rest,
      )

  pub ensure_deliveries_complete :
      (js : List Journal) (steps : List PlanStep) (deliveries : Dict Delivery)
      → All (HasDelivery deliveries) steps
      → ensure_deliveries env js plan steps deliveries ≡ ok deliveries
  unfolding ensure_deliveries ensure_delivery HasDelivery
  ensure_deliveries_complete js [] deliveries h = refl
  ensure_deliveries_complete js (step ∷ steps) deliveries
        ((d, command, made, found, same_job), rest) =
      let one : ensure_delivery env js plan step deliveries ≡ ok deliveries =
        rw (ensure_delivery, made, found, same_job) refl in
      rw one (ensure_deliveries_complete js steps deliveries rest)
