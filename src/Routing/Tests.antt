-- ===== src/Routing/Tests.antt =====
-- Two embedding models of one deployment.
use dotori.Prelude.{◌≡◌, refl, true, false, ◌&&◌, none, some, [], ◌∷◌, ok, err, Member}
use dotori.Prelude.Classes.{string_eq, nat_eq}
use dotori.Prelude.Dicts.{Dict, get}
use dotori.Routing.Compositions.{Conforms, validate_composition_provider-Conforms}
use dotori.Routing.{
  Binding, Composition, FunctionDefinition, composition_definitions, get_composition,
  validate_composition_provider, route_error, value_error, Candidate, DeploymentSnapshot,
  function_registry, get_function, candidate_identity, validate_function_contract, role_of,
  provider_enabled, candidates_of, enabled_only, resolve_explicit, is_verified, preferred,
  preferred_of, only_one, resolve_automatic, resolve_default, resolve_function_provider, is_given,
  routed,
}
use dotori.Routing.Choice.{IsUsable, resolve_automatic-IsOnly, resolve_function_provider-IsUsable}

program : Unit {0}
unfolding composition_definitions get_composition validate_composition_provider routed get
    function_registry get_function candidate_identity validate_function_contract role_of
    provider_enabled candidates_of enabled_only resolve_explicit is_verified preferred preferred_of
    only_one resolve_automatic resolve_default resolve_function_provider
program = tt

abbrev local : Candidate
local = record {
  model_installation_id = some "m1";
  provider_installation_id = none;
  role = "embedding";
  verification = "contract_verified";
  contract_version = some 1;
  input_schema = "dotori.text.embedding-input.v1";
  output_schema = "dotori.text.embedding-output.v1";
  preferred_role = "embedding";
  adapter_contract = "dotori-internal-embed-v1";
}

abbrev other : Candidate
other = record local { model_installation_id = some "m2"; role = "llm" }

abbrev snapshot : DeploymentSnapshot
snapshot = record {
  schema_version = 4;
  role_enabled = ("embedding", true) ∷ ("llm", true) ∷ [];
  function_providers = ("text.embed", local ∷ other ∷ []) ∷ [];
  default_routes = [];
}

contract_holds : validate_function_contract "text.embed" local ≡ ok tt
unfolding program
contract_holds = refl

identified : candidate_identity local ≡ ok (some "m1")
unfolding program
identified = refl

both_refused :
    candidate_identity (record local { provider_installation_id = some "p" }) ≡ err value_error
unfolding program
both_refused = refl

resolved : resolve_automatic snapshot "text.embed" none ≡ ok local
unfolding program
resolved = refl

resolved_explicit : resolve_function_provider snapshot "text.embed" (some "m2") none none ≡ ok other
unfolding program
resolved_explicit = refl

disabled :
    resolve_function_provider
      (record snapshot { role_enabled = [] })
      "text.embed"
      (some "m2")
      none
      none
    ≡ err route_error
unfolding program
disabled = refl

resolve_automatic-IsOnly_example :
    IsUsable snapshot "text.embed" local
    × (is_verified snapshot "text.embed" local ≡ true)
    × ((x : Candidate)
        → Member x (candidates_of snapshot "text.embed")
        → is_verified snapshot "text.embed" x ≡ true
        → provider_enabled snapshot x.role ≡ true
        → x.role ≡ "embedding"
        → x ≡ local)
resolve_automatic-IsOnly_example =
    resolve_automatic-IsOnly snapshot "text.embed" none local resolved

resolve_function_provider-IsUsable_example :
    IsUsable snapshot "text.embed" other × ((is_given (some "m2") && is_given none) ≡ false)
resolve_function_provider-IsUsable_example =
    resolve_function_provider-IsUsable snapshot "text.embed" (some "m2") none none other
      resolved_explicit

abbrev bindings : Dict Binding
bindings =
    ("embedding", record { provider_installation_id = none; model_installation_id = some "m1" })
    ∷ []

composed :
    validate_composition_provider bindings snapshot "document.embed" "dotori-document-embedding-v1"
    ≡ ok local
unfolding program
composed = refl

wrong_role :
    validate_composition_provider
      (("embedding", record { provider_installation_id = none; model_installation_id = some "m2" })
        ∷ [])
      snapshot
      "document.embed"
      "dotori-document-embedding-v1"
    ≡ err value_error
unfolding program
wrong_role = refl

validate_composition_provider-Conforms_example :
    (definition : Composition) × (get_composition "document.embed" ≡ ok definition)
    × ((primitive : FunctionDefinition) × (get_function definition.primitive_function_id
          ≡ ok primitive)
        × Conforms primitive local)
    × IsUsable snapshot definition.primitive_function_id local
    × ("embedding" ≡ definition.preferred_role)
validate_composition_provider-Conforms_example =
    validate_composition_provider-Conforms bindings snapshot "document.embed"
      "dotori-document-embedding-v1" local composed
