-- ===== src/Validation/Work.antt =====
-- The work of a step that `validate_plan` of app/orchestration/plans.py lets through: its definition
-- as the deployment offers it, and the provider of its function.
use dotori.Prelude.{
  String, ◌≡◌, ◌∙◌, sym, ap, true, false, ◌&&◌, ◌||◌, Option, none, some, arith, Bool-cases,
  Option-cases, inl, inr, if◌then◌else◌, find?, Result, ok, err, bind-eq-ok, ok-injective, require,
  require-eq-ok,
}
use dotori.Prelude.Classes.{◌==◌, string_eq, ==→≡}
use dotori.Prelude.Dicts.{get}
use dotori.Plans
use dotori.Plans.{PlanStep, Payload, is_bound}
use dotori.Plans.Contracts.{
  WorkDefinition, CompositionDefinition, compositions, get_work_definition, validate_work_payload,
  validate_preparation_intent,
}
use dotori.Routing
use dotori.Routing.{
  Candidate, FunctionDefinition, get_function, Composition, get_composition,
  composition_definitions, or_unbound, resolve_function_provider, validate_function_contract,
  validate_composition_provider,
}
use dotori.Routing.Choice.{IsUsable, resolve_function_provider-IsUsable}
use dotori.Routing.Compositions.{
  Conforms, validate_function_contract-Conforms, validate_composition_provider-Conforms,
}
use dotori.Validation.{
  value_error, plan_validation_error, from_plan, from_routing, ExecutionRole, execution_roles,
  Deployment, Checks, Contract, is_composed, is_routed, is_registration, is_enabled, same_entry,
  require_registered_role, require_registered_work, define_work, select_primitive, select_composed,
  select_provider,
}

-- The deployment routes the work of the kind as it is defined, and registers its role as the code
-- does.
pub record IsRegistered (d : Deployment) (kind : String) (definition : WorkDefinition)
    : Type 0 where
  pub role : ExecutionRole
  pub routed : is_routed (get kind d.work_routes) definition ≡ true
  pub known : get definition.execution_role execution_roles ≡ some role
  pub registered : is_registration (get definition.execution_role d.registrations) role ≡ true

-- The work's capability is enabled, and the work is registered, which the preparation of a composed
-- function does not need.
pub record IsOffered (checks : Checks) (d : Deployment) (step : PlanStep)
    (definition : WorkDefinition) : Type 0 where
  pub known : get_work_definition step.work_kind ≡ ok definition
  pub enabled : is_enabled d definition.capability_id ≡ true
  pub registered :
      (checks.preparation && is_composed step) ≡ false → IsRegistered d step.work_kind definition

-- The provider conforms to the function, is declared for it, and has its role enabled.
pub record Provides (d : Deployment) (function_id : String) (provider : Candidate) : Type 0 where
  pub function : FunctionDefinition
  pub known : get_function function_id ≡ ok function
  pub conforms : Conforms function provider
  pub usable : IsUsable d.snapshot function_id provider

-- A primitive function has the step's schemas and the provider is its own; a composed one has the
-- step's work and schemas, and the provider is that of the function that it runs on.
abbrev pub IsServed : Deployment → PlanStep → Candidate → Option Composition → Type 0
IsServed d step provider none =
    (function : FunctionDefinition) × (get_function step.function_id ≡ ok function)
    × (step.input_schema ≡ function.input_schema)
    × (step.output_schema ≡ function.output_schema)
    × Provides d step.function_id provider
IsServed d step provider (some composition) =
    (step.work_kind ≡ composition.work_kind)
    × (step.input_schema ≡ composition.input_schema)
    × (step.output_schema ≡ composition.output_schema)
    × Provides d composition.primitive_function_id provider

pub from_plan-eq-ok :
    {A : Type 0} (r : Result Plans.Error A) {a : A} → from_plan r ≡ ok a → r ≡ ok a
from_plan-eq-ok (ok b) h = ground (arith, h)
from_plan-eq-ok (err e) h = cc

from_routing-eq-ok :
    {A : Type 0} (r : Result Routing.Error A) {a : A} → from_routing r ≡ ok a → r ≡ ok a
from_routing-eq-ok (ok b) h = ground (arith, h)
from_routing-eq-ok (err e) h = cc

module _ (validator : String → Payload → Result Plans.Error (Unit {0})) (kind : String)
    (payload : Payload) (definition : WorkDefinition) where
  validate_work_payload-known :
      validate_work_payload validator kind payload ≡ ok definition
      → get_work_definition kind ≡ ok definition
  unfolding validate_work_payload
  validate_work_payload-known h = ground (arith, h)

  validate_preparation_intent-known :
      validate_preparation_intent validator kind payload ≡ ok definition
      → get_work_definition kind ≡ ok definition
  unfolding validate_preparation_intent
  validate_preparation_intent-known h =
      elim (Option-cases
        (find? (λ (c : CompositionDefinition). c.work_kind == kind) compositions)) [
          | inl e ↦ validate_work_payload-known (rw (validate_preparation_intent, e) at h)
          | inr (c, e) ↦
              let (_, valid, h1) =
                bind-eq-ok (validator c.intent_validator_path payload) _
                  (rw (validate_preparation_intent, e) at h) in
              h1
        ]

require_registered_work-IsRegistered :
    (d : Deployment) (kind : String) (definition registered : WorkDefinition)
    → get_work_definition kind ≡ ok definition
    → require_registered_work d kind ≡ ok registered
    → IsRegistered d kind definition
unfolding require_registered_work require_registered_role
require_registered_work-IsRegistered d kind definition registered known h =
    let (found, made, h1) = bind-eq-ok (from_plan (get_work_definition kind)) _ h in
    let same : found ≡ definition = ground (arith, known, from_plan-eq-ok _ made) in
    let (_, routed, h2) =
      bind-eq-ok (require (is_routed (get kind d.work_routes) found) value_error) _ h1 in
    let (_, enabled, h3) =
      bind-eq-ok (require (is_enabled d found.capability_id) value_error) _ h2 in
    let (_, role, h4) = bind-eq-ok (require_registered_role d found.execution_role) _ h3 in
    rw (← same) (elim (Option-cases (get found.execution_role execution_roles)) [
      | inl missing ↦ absurd (ground (arith, missing, role))
      | inr (spec, e) ↦ record {
        role = spec;
        routed = require-eq-ok _ _ routed;
        known = e;
        registered = ground (arith, e, role);
      }
    ])

module _ (checks : Checks) (d : Deployment) (step : PlanStep) (definition : WorkDefinition) where
  pub define_work-IsOffered :
      define_work checks d step ≡ ok definition → IsOffered checks d step definition
  unfolding define_work
  define_work-IsOffered h =
      let by_intent = checks.preparation || (is_composed step && is_bound step) in
      let (defined, made, h1) =
        bind-eq-ok
          (from_plan (
            if by_intent
            then validate_preparation_intent checks.validator step.work_kind step.payload
            else validate_work_payload checks.validator step.work_kind step.payload))
          _ h in
      let (registered, offered, h2) =
        bind-eq-ok
          (if checks.preparation && is_composed step
            then ok defined
            else require_registered_work d step.work_kind)
          _ h1 in
      let (_, agreed, h3) =
        bind-eq-ok
          (require
            (registered.kind == defined.kind
              && same_entry registered defined
              && is_enabled d defined.capability_id)
            plan_validation_error)
          _ h2 in
      let agreed_ok = require-eq-ok _ _ agreed in
      let known : get_work_definition step.work_kind ≡ ok defined = elim (Bool-cases by_intent) [
        | inl e ↦
            validate_preparation_intent-known checks.validator step.work_kind step.payload defined
              (from_plan-eq-ok _ (rw e at made))
        | inr e ↦
            validate_work_payload-known checks.validator step.work_kind step.payload defined
              (from_plan-eq-ok _ (rw e at made))
      ] in
      rw (← ok-injective h3) (record {
        known = known;
        enabled = ground (arith, agreed_ok);
        registered = λ e.
            require_registered_work-IsRegistered d step.work_kind defined registered known
              (rw e at offered);
      })

module _ (checks : Checks) (d : Deployment) (step : PlanStep) (definition : WorkDefinition)
    (contract : Contract) (provider : Candidate) where
  select_primitive-IsServed :
      select_primitive checks d step definition ≡ ok (contract, provider)
      → step.input_schema ≡ contract.input_schema
      → step.output_schema ≡ contract.output_schema
      → IsServed d step provider none
  unfolding select_primitive
  select_primitive-IsServed h input output =
      let reference =
        (or_unbound (get definition.execution_role d.role_bindings)).provider_installation_id in
      let (function, found, h1) = bind-eq-ok (from_routing (get_function step.function_id)) _ h in
      let (chosen, resolved, h2) =
        bind-eq-ok
          (from_routing (resolve_function_provider d.snapshot step.function_id none none reference))
          _ h1 in
      let (_, agreed, h3) =
        bind-eq-ok (from_routing (validate_function_contract step.function_id chosen)) _ h2 in
      let known = from_routing-eq-ok _ found in
      let selected = ok-injective h3 in
      let same : chosen ≡ provider = ap (λ (x : Contract × Candidate). x.1) selected in
      let takes : function.input_schema ≡ contract.input_schema =
        ap (λ (x : Contract × Candidate). x.0.input_schema) selected in
      let gives : function.output_schema ≡ contract.output_schema =
        ap (λ (x : Contract × Candidate). x.0.output_schema) selected in
      (
        function,
        known,
        input ∙ sym takes,
        output ∙ sym gives,
        record {
          function = function;
          known = known;
          conforms = rw (← same) (
              validate_function_contract-Conforms step.function_id chosen function known
                (from_routing-eq-ok _ agreed));
          usable =
              rw (← same)
                (resolve_function_provider-IsUsable d.snapshot step.function_id none none reference
                  chosen (from_routing-eq-ok _ resolved)).0;
        },
      )

  select_composed-IsServed :
      (composition : Composition)
      → get step.function_id composition_definitions ≡ some composition
      → select_composed checks d step composition ≡ ok (contract, provider)
      → step.input_schema ≡ contract.input_schema
      → step.output_schema ≡ contract.output_schema
      → IsServed d step provider (some composition)
  unfolding select_composed get_composition
  select_composed-IsServed composition e h input output =
      let (_, kind, h1) =
        bind-eq-ok (require (step.work_kind == composition.work_kind) plan_validation_error) _ h in
      let (chosen, resolved, h2) =
        bind-eq-ok
          (from_routing (
            validate_composition_provider d.role_bindings d.snapshot step.function_id
              composition.adapter_contract))
          _ h1 in
      let selected = ok-injective h2 in
      let same : chosen ≡ provider = ap (λ (x : Contract × Candidate). x.1) selected in
      let takes : composition.input_schema ≡ contract.input_schema =
        ap (λ (x : Contract × Candidate). x.0.input_schema) selected in
      let gives : composition.output_schema ≡ contract.output_schema =
        ap (λ (x : Contract × Candidate). x.0.output_schema) selected in
      let (named, composed, (primitive, known, conforms), usable, role) =
        validate_composition_provider-Conforms d.role_bindings d.snapshot step.function_id
          composition.adapter_contract chosen (from_routing-eq-ok _ resolved) in
      let is_named : composition ≡ named = ok-injective (rw (get_composition, e) at composed) in
      (
        ==→≡ step.work_kind composition.work_kind (require-eq-ok _ _ kind),
        input ∙ sym takes,
        output ∙ sym gives,
        rw (is_named, ← same)
            (record { function = primitive; known = known; conforms = conforms; usable = usable }),
      )

  pub select_provider-IsServed :
      select_provider checks d step definition ≡ ok (contract, provider)
      → step.input_schema ≡ contract.input_schema
      → step.output_schema ≡ contract.output_schema
      → IsServed d step provider (get step.function_id composition_definitions)
  unfolding select_provider
  select_provider-IsServed h input output =
      elim (Option-cases (get step.function_id composition_definitions)) [
        | inl e ↦ rw e (select_primitive-IsServed (rw (select_provider, e) at h) input output)
        | inr (c, e) ↦
            rw e (select_composed-IsServed c e (rw (select_provider, e) at h) input output)
      ]
