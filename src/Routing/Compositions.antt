-- ===== src/Routing/Compositions.antt =====
-- The provider that a composition runs on.
use dotori.Prelude.{
  String, ◌≡◌, true, none, arith, ok, bind-eq-ok, require, require-eq-ok, ok-injective,
}
use dotori.Prelude.Classes.{◌==◌, nat_eq, string_eq, elem, ==→≡}
use dotori.Prelude.Dicts.{Dict, get}
use dotori.Routing.{
  value_error, Candidate, DeploymentSnapshot, FunctionDefinition, get_function, has_version,
  validate_function_contract, Composition, get_composition, Binding, or_unbound,
  resolve_function_provider, validate_composition_provider,
}
use dotori.Routing.Choice.{IsUsable, resolve_function_provider-IsUsable}

-- The candidate declares the contract of the function.
pub record Conforms (definition : FunctionDefinition) (c : Candidate) : Type 0 where
  pub version : has_version c.contract_version definition.contract_version ≡ true
  pub input : c.input_schema ≡ definition.input_schema
  pub output : c.output_schema ≡ definition.output_schema
  pub role : c.preferred_role ≡ definition.preferred_role
  pub adapter : elem c.adapter_contract definition.adapters ≡ true

pub validate_function_contract-Conforms :
    (function_id : String) (c : Candidate) (definition : FunctionDefinition)
    → get_function function_id ≡ ok definition
    → validate_function_contract function_id c ≡ ok tt
    → Conforms definition c
unfolding validate_function_contract
validate_function_contract-Conforms function_id c definition known h =
    let (d, found, h1) = bind-eq-ok (get_function function_id) _ h in
    let same : d ≡ definition = ground (arith, known, found) in
    rw (← same) (record {
      version = ground (arith, h1);
      input = ==→≡ c.input_schema d.input_schema (ground (arith, h1));
      output = ==→≡ c.output_schema d.output_schema (ground (arith, h1));
      role = ==→≡ c.preferred_role d.preferred_role (ground (arith, h1));
      adapter = ground (arith, h1);
    })

-- A provider that a composition is given conforms to the contract of the function that the
-- composition runs, is declared for that function, has its role enabled, and has the role that the
-- composition prefers.
pub validate_composition_provider-Conforms :
    (bindings : Dict Binding) (s : DeploymentSnapshot) (function_id adapter_contract : String)
    (c : Candidate)
    → validate_composition_provider bindings s function_id adapter_contract ≡ ok c
    → (definition : Composition) × (get_composition function_id ≡ ok definition)
      × ((primitive : FunctionDefinition) × (get_function definition.primitive_function_id
            ≡ ok primitive)
          × Conforms primitive c)
      × IsUsable s definition.primitive_function_id c
      × (c.role ≡ definition.preferred_role)
unfolding validate_composition_provider
validate_composition_provider-Conforms bindings s function_id adapter_contract c h =
    let (definition, composed, h1) = bind-eq-ok (get_composition function_id) _ h in
    let (_, adapted, h2) =
      bind-eq-ok (require (adapter_contract == definition.adapter_contract) value_error) _ h1 in
    let (primitive, declared, h3) =
      bind-eq-ok (get_function definition.primitive_function_id) _ h2 in
    let (_, agreed, h4) =
      bind-eq-ok (require (primitive.preferred_role == definition.preferred_role) value_error) _
        h3 in
    let binding : Binding = or_unbound (get definition.preferred_role bindings) in
    let (p, resolved, h5) =
      bind-eq-ok
        (resolve_function_provider s definition.primitive_function_id binding.model_installation_id
          none binding.provider_installation_id)
        _ h4 in
    let (u, contract, h6) =
      bind-eq-ok (validate_function_contract definition.primitive_function_id p) _ h5 in
    let (_, in_role, h7) =
      bind-eq-ok (require (p.role == definition.preferred_role) value_error) _ h6 in
    let same : p ≡ c = ok-injective h7 in
    let usable =
      resolve_function_provider-IsUsable s definition.primitive_function_id
        binding.model_installation_id none binding.provider_installation_id p resolved in
    (
      definition,
      composed,
      (
        primitive,
        declared,
        rw (← same) (
            validate_function_contract-Conforms definition.primitive_function_id p primitive
              declared contract),
      ),
      rw (← same) usable.0,
      rw (← same) (==→≡ p.role definition.preferred_role (require-eq-ok _ _ in_role)),
    )
