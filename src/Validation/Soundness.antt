-- ===== src/Validation/Soundness.antt =====
-- What holds of a plan that `validate_plan` of app/orchestration/plans.py lets through.
use dotori.Prelude.{
  ◌≡◌, refl, sym, ◌≤◌, ◌<◌, true, false, not, ◌&&◌, List, [], ◌∷◌, map, arith, length, leb, ltb,
  Member, All, ok, bind-eq-ok, ok-injective, require, require-eq-ok,
}
use dotori.Prelude.Classes.{◌==◌, string_eq, elem, subset, distinct, elem→Member, subset→All, ==→≡}
use dotori.Prelude.Text.{nonempty}
use dotori.Bindings.{SourceReference, same_source}
use dotori.Plans.{ExecutionPlan, ProcessingRequest, PlanStep, validate_plan_bindings}
use dotori.Plans.Contracts.{WorkDefinition}
use dotori.Routing.{Candidate, composition_definitions}
use dotori.Prelude.Dicts.{get}
use dotori.Validation.Work.{
  IsOffered, IsServed, define_work-IsOffered, select_provider-IsServed, from_plan-eq-ok,
}
use dotori.Validation.Inputs.{IsSupplied, input_schemas-IsSupplied}
use dotori.Validation.{
  plan_validation_error, from_plan, Deployment, Checks, Contract, define_work, select_provider,
  input_schemas, step_ids, fits_contract, validate_step, validate_steps, validate_plan,
}

module _ (checks : Checks) (d : Deployment) (request : ProcessingRequest) where
  -- A step with an identity of its own and distinct dependencies before it, whose work the
  -- deployment offers, whose function is served by a provider of the work's role, and which is
  -- supplied with its input.
  pub record IsAdmissible (seen : List PlanStep) (step : PlanStep) : Type 0 where
    pub definition : WorkDefinition
    pub provider : Candidate
    pub named : nonempty step.step_id ≡ true
    pub fresh : elem step.step_id (step_ids seen) ≡ false
    pub preceding : All (λ dep. Member dep (step_ids seen)) step.depends_on
    pub apart : distinct step.depends_on ≡ true
    pub offered : IsOffered checks d step definition
    pub role : provider.role ≡ definition.execution_role
    pub served : IsServed d step provider (get step.function_id composition_definitions)
    pub supplied : IsSupplied checks request seen step step.input_binding step.depends_on
    pub permitted : checks.validate_domain_step step request.source ≡ ok tt

  pub AllAdmissible : List PlanStep → List PlanStep → Type 0
  AllAdmissible seen [] = Unit
  AllAdmissible seen (step ∷ steps) = IsAdmissible seen step × AllAdmissible (step ∷ seen) steps

  fits_contract-roles :
      (step : PlanStep) (definition : WorkDefinition) (contract : Contract) (provider : Candidate)
      → fits_contract step definition (contract, provider) ≡ true
      → (provider.role ≡ definition.execution_role)
        × (step.input_schema ≡ contract.input_schema)
        × (step.output_schema ≡ contract.output_schema)
  unfolding fits_contract
  fits_contract-roles step definition contract provider h = (
    ==→≡ provider.role definition.execution_role (ground (arith, h)),
    ==→≡ step.input_schema contract.input_schema (ground (arith, h)),
    ==→≡ step.output_schema contract.output_schema (ground (arith, h)),
  )

  validate_step-IsAdmissible :
      (seen : List PlanStep) (step : PlanStep)
      → validate_step checks d request seen step ≡ ok tt
      → IsAdmissible seen step
  unfolding validate_step
  validate_step-IsAdmissible seen step h =
      let (_, named, h1) =
        bind-eq-ok
          (require (nonempty step.step_id && not (elem step.step_id (step_ids seen)))
            plan_validation_error)
          _ h in
      let (_, linked, h2) =
        bind-eq-ok
          (require (distinct step.depends_on && subset step.depends_on (step_ids seen))
            plan_validation_error)
          _ h1 in
      let (definition, defined, h3) = bind-eq-ok (define_work checks d step) _ h2 in
      let (selection, selected, h4) = bind-eq-ok (select_provider checks d step definition) _ h3 in
      let (_, fitting, h5) =
        bind-eq-ok (require (fits_contract step definition selection) plan_validation_error) _ h4 in
      let (schemas, given, h6) = bind-eq-ok (input_schemas checks d request seen step) _ h5 in
      let (_, supplied, h7) =
        bind-eq-ok (require (elem step.input_schema schemas) plan_validation_error) _ h6 in
      let named_ok = require-eq-ok _ _ named in
      let linked_ok = require-eq-ok _ _ linked in
      let (served, input, output) =
        fits_contract-roles step definition selection.0 selection.1 (require-eq-ok _ _ fitting) in
      record {
        definition = definition;
        provider = selection.1;
        named = ground (arith, named_ok);
        fresh = ground (arith, named_ok);
        preceding = subset→All step.depends_on (step_ids seen) (ground (arith, linked_ok));
        apart = ground (arith, linked_ok);
        offered = define_work-IsOffered checks d step definition defined;
        role = served;
        served =
            select_provider-IsServed checks d step definition selection.0 selection.1 selected input
              output;
        supplied =
            input_schemas-IsSupplied checks d request step seen step.input_binding step.depends_on
              schemas refl refl given
              (elem→Member step.input_schema schemas (require-eq-ok _ _ supplied));
        permitted = from_plan-eq-ok _ h7;
      }

  validate_steps-AllAdmissible :
      (seen steps : List PlanStep)
      → validate_steps checks d request seen steps ≡ ok tt
      → AllAdmissible seen steps
  unfolding validate_steps AllAdmissible
  validate_steps-AllAdmissible seen [] h = tt
  validate_steps-AllAdmissible seen (step ∷ steps) h =
      let (u, first, rest) = bind-eq-ok (validate_step checks d request seen step) _ h in
      (
        validate_step-IsAdmissible seen step first,
        validate_steps-AllAdmissible (step ∷ seen) steps rest,
      )

-- A plan that validates is returned as it is; its deadline lies ahead, it has between one step and
-- its budget and names the active deployment, the source is authorized as the plan has it, and every required schema is the output of a step.
-- Each step has an identity of its own and distinct dependencies, which are earlier steps; its work
-- is defined, its capability is enabled, and the deployment routes it and registers its role as
-- defined, unless it prepares a composed function; the provider of its function is declared for it,
-- conforms to it, and has the work's role, which is enabled; its input schema is that of its
-- binding (which resolves, if it is to an artifact), of a dependency's output, or of the source; and
-- the domain's check lets it pass.
pub validate_plan-AllAdmissible :
    (checks : Checks) (d : Deployment) (plan out : ExecutionPlan)
    → validate_plan checks d plan ≡ ok out
    → (out ≡ plan)
      × (checks.now < plan.request.deadline_at)
      × (1 ≤ length plan.steps)
      × (length plan.steps ≤ plan.request.max_steps)
      × ((current : SourceReference) × (checks.authorize_source plan.request.source ≡ ok current)
          × (same_source current plan.request.source ≡ true))
      × (d.generation_id ≡ plan.deployment_generation)
      × AllAdmissible checks d plan.request [] plan.steps
      × All
          (λ c. Member c (map (λ (s : PlanStep). s.output_schema) plan.steps))
          plan.request.required_schemas
unfolding validate_plan
validate_plan-AllAdmissible checks d plan out h =
    let (_, bound, h1) = bind-eq-ok (from_plan (validate_plan_bindings plan)) _ h in
    let (_, named, h2) =
      bind-eq-ok
        (require (nonempty plan.plan_id && nonempty plan.request.request_id) plan_validation_error)
        _ h1 in
    let (_, timely, h3) =
      bind-eq-ok (require (ltb checks.now plan.request.deadline_at) plan_validation_error) _ h2 in
    let (_, budget, h4) =
      bind-eq-ok
        (require (leb 1 (length plan.steps) && leb (length plan.steps) plan.request.max_steps)
          plan_validation_error)
        _ h3 in
    let (_, wanted, h5) =
      bind-eq-ok
        (require
          (leb 1 (length plan.request.required_schemas)
            && nonempty plan.request.source.source_id
            && nonempty plan.request.source.revision)
          plan_validation_error)
        _ h4 in
    let (current, authorized, h6) =
      bind-eq-ok (from_plan (checks.authorize_source plan.request.source)) _ h5 in
    let (_, same, h7) =
      bind-eq-ok (require (same_source current plan.request.source) plan_validation_error) _ h6 in
    let (_, active, h8) =
      bind-eq-ok (require (d.generation_id == plan.deployment_generation) plan_validation_error) _
        h7 in
    let (_, steps, h9) = bind-eq-ok (validate_steps checks d plan.request [] plan.steps) _ h8 in
    let (_, provided, h10) =
      bind-eq-ok
        (require
          (subset plan.request.required_schemas
            (map (λ (s : PlanStep). s.output_schema) plan.steps))
          plan_validation_error)
        _ h9 in
    let timely_ok = require-eq-ok _ _ timely in
    let budget_ok = require-eq-ok _ _ budget in
    (
      sym (ok-injective h10),
      ground (arith, timely_ok),
      ground (arith, budget_ok),
      ground (arith, budget_ok),
      (current, from_plan-eq-ok _ authorized, require-eq-ok _ _ same),
      ==→≡ d.generation_id plan.deployment_generation (require-eq-ok _ _ active),
      validate_steps-AllAdmissible checks d plan.request [] plan.steps steps,
      subset→All plan.request.required_schemas _ (require-eq-ok _ _ provided),
    )
