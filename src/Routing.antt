-- ===== src/Routing.antt =====
-- Which installed provider serves a function: `DeploymentSnapshot` of app/capabilities/deployment.py
-- over the function contracts of app/capabilities/functions.py. A snapshot is read as its fields
-- that the choice depends on. A text that a candidate lacks is empty, which equals none of the
-- texts that the code compares it with; an identity keeps the two apart.
pub mod Choice
pub mod Compositions
mod Tests
use dotori.Prelude.{
  ℕ, String, Bool, true, false, not, ◌&&◌, ◌||◌, Option, none, some, List, [], ◌∷◌, find?, filter,
  leb, if◌then◌else◌, Result, ok, err, ◌>>=◌, ◌>>◌, require, raise_if,
}
use dotori.Prelude.Classes.{◌==◌, nat_eq, string_eq, elem}
use dotori.Prelude.Dicts.{Dict, get}
use dotori.Prelude.Text.{nonempty}

pub data Error : Type 0 where
  route_error value_error : Error

pub record FunctionDefinition : Type 0 where
  pub function_id : String
  pub contract_version : ℕ
  pub input_schema : String
  pub output_schema : String
  pub preferred_role : String
  pub adapters : List String

-- `FUNCTION_REGISTRY`
unfoldable pub function_registry : Dict FunctionDefinition
function_registry =
    (
      "document.extract",
      record {
        function_id = "document.extract";
        contract_version = 1;
        input_schema = "dotori.document.source.v1";
        output_schema = "dotori.document.extract.v1";
        preferred_role = "parser";
        adapters = "dotori-parser-http-v1" ∷ [];
      },
    )
    ∷ (
      "text.embed",
      record {
        function_id = "text.embed";
        contract_version = 1;
        input_schema = "dotori.text.embedding-input.v1";
        output_schema = "dotori.text.embedding-output.v1";
        preferred_role = "embedding";
        adapters = "dotori-internal-embed-v1" ∷ [];
      },
    )
    ∷ (
      "text.generate",
      record {
        function_id = "text.generate";
        contract_version = 1;
        input_schema = "dotori.chat.messages.v1";
        output_schema = "dotori.chat.completion.v1";
        preferred_role = "llm";
        adapters = "openai-compatible-chat-completions-v1" ∷ [];
      },
    )
    ∷ []

unfoldable pub get_function : String → Result Error FunctionDefinition
get_function function_id = elim (get function_id function_registry) [
  | none ↦ err value_error
  | some definition ↦ ok definition
]

pub record Candidate : Type 0 where
  pub model_installation_id : Option String
  pub provider_installation_id : Option String
  pub role : String
  pub verification : String
  pub contract_version : Option ℕ
  pub input_schema : String
  pub output_schema : String
  pub preferred_role : String
  pub adapter_contract : String

pub record DeploymentSnapshot : Type 0 where
  pub schema_version : ℕ
  pub role_enabled : Dict Bool
  pub function_providers : Dict (List Candidate)
  pub default_routes : Dict String

-- `bool(value)` of a text that may be missing
abbrev pub is_given : Option String → Bool
is_given none = false
is_given (some s) = nonempty s

-- `a or b`
abbrev pub or_else : Option String → Option String → Option String
or_else a b = if is_given a then a else b

abbrev pub names : Option String → String → Bool
names none s = false
names (some x) s = x == s

-- A reference that is not `None` is a text that is not empty.
abbrev pub is_well_given : Option String → Bool
is_well_given none = true
is_well_given (some s) = nonempty s

unfoldable pub candidate_identity : Candidate → Result Error (Option String)
candidate_identity c = do
  require (is_well_given c.model_installation_id && is_well_given c.provider_installation_id)
      value_error
  raise_if
      (if is_given c.model_installation_id
        then is_given c.provider_installation_id
        else not (is_given c.provider_installation_id))
      value_error
  ok (or_else c.model_installation_id c.provider_installation_id)

abbrev pub has_version : Option ℕ → ℕ → Bool
has_version none expected = false
has_version (some v) expected = v == expected

unfoldable pub validate_function_contract : String → Candidate → Result Error (Unit {0})
validate_function_contract function_id c = do
  definition ← get_function function_id
  require (has_version c.contract_version definition.contract_version) value_error
  require (c.input_schema == definition.input_schema) value_error
  require (c.output_schema == definition.output_schema) value_error
  require (c.preferred_role == definition.preferred_role) value_error
  require (elem c.adapter_contract definition.adapters) value_error

unfoldable pub role_of : String → Result Error (Option String)
role_of function_id = do definition ← get_function function_id; ok (some definition.preferred_role)

abbrev pub or_none : Option (List Candidate) → List Candidate
or_none none = []
or_none (some cs) = cs

module _ (s : DeploymentSnapshot) where
  unfoldable pub provider_enabled : String → Bool
  provider_enabled role = elim (get role s.role_enabled) [ none ↦ false | some enabled ↦ enabled ]

  unfoldable pub candidates_of : String → List Candidate
  candidates_of function_id = or_none (get function_id s.function_providers)

  -- A candidate that was found must have its role enabled.
  unfoldable pub enabled_only : Candidate → Result Error Candidate
  enabled_only c = do require (provider_enabled c.role) route_error; ok c

  abbrev pub by_reference : Bool → String → Candidate → Bool
  by_reference true id c = names c.provider_installation_id id
  by_reference false id c = names c.model_installation_id id

  unfoldable pub resolve_explicit : String → Bool → String → Result Error Candidate
  resolve_explicit function_id is_provider id =
      elim (find? (by_reference is_provider id) (candidates_of function_id)) [
        | none ↦ err route_error
        | some c ↦ enabled_only c
      ]

  unfoldable pub is_verified : String → Candidate → Bool
  is_verified function_id c =
      c.verification == "quality_verified"
      || (function_id == "text.generate" || function_id == "text.embed")
        && c.verification == "contract_verified"

  abbrev pub is_eligible : String → Candidate → Bool
  is_eligible function_id c = is_verified function_id c && provider_enabled c.role

  unfoldable pub preferred : String → Option String → Result Error (Option String)
  preferred function_id (some role) = ok (some role)
  preferred function_id none = if leb 4 s.schema_version then role_of function_id else ok none

  -- `matching or eligible`
  abbrev pub or_all : List Candidate → List Candidate → List Candidate
  or_all [] eligible = eligible
  or_all (c ∷ matching) eligible = c ∷ matching

  unfoldable pub preferred_of : Option String → List Candidate → List Candidate
  preferred_of none eligible = eligible
  preferred_of (some role) eligible =
      if nonempty role
      then or_all (filter (λ (c : Candidate). c.role == role) eligible) eligible
      else eligible

  unfoldable pub only_one : List Candidate → Result Error Candidate
  only_one [] = err route_error
  only_one (c ∷ []) = ok c
  only_one (c ∷ d ∷ cs) = err route_error

  unfoldable pub resolve_automatic : String → Option String → Result Error Candidate
  resolve_automatic function_id preferred_role = do
    role ← preferred function_id preferred_role
    only_one (preferred_of role (filter (is_eligible function_id) (candidates_of function_id)))

  -- The candidate that a default route names, if there is one.
  unfoldable pub routed : String → Option String → Option Candidate
  routed function_id none = none
  routed function_id (some id) =
      if nonempty id
      then find?
          (λ (c : Candidate). names (or_else c.model_installation_id c.provider_installation_id) id)
          (candidates_of function_id)
      else none

  abbrev pub default_candidate : String → Option Candidate
  default_candidate function_id = routed function_id (get function_id s.default_routes)

  unfoldable pub resolve_default : String → Option String → Result Error Candidate
  resolve_default function_id preferred_role = elim (default_candidate function_id) [
    | some c ↦ enabled_only c
    | none ↦ resolve_automatic function_id preferred_role
  ]

  -- The arguments are the explicit model, the preferred role and the explicit provider.
  unfoldable pub resolve_function_provider :
      String → Option String → Option String → Option String → Result Error Candidate
  resolve_function_provider function_id model preferred_role provider = do
    raise_if (is_given model && is_given provider) route_error
    elim (or_else model provider) [
      | none ↦ resolve_default function_id preferred_role
      | some id ↦
          if nonempty id
          then resolve_explicit function_id (is_given provider) id
          else resolve_default function_id preferred_role
    ]

-- The fields of `CompositionDefinition` that the choice of its provider and a plan's checks read.
pub record Composition : Type 0 where
  pub input_schema : String
  pub output_schema : String
  pub work_kind : String
  pub adapter_contract : String
  pub primitive_function_id : String
  pub preferred_role : String

unfoldable pub composition_definitions : Dict Composition
composition_definitions =
    (
      "document.embed",
      record {
        input_schema = "dotori.document.extract.v1";
        output_schema = "dotori.document.embedding-result.v1";
        work_kind = "embed_document";
        adapter_contract = "dotori-document-embedding-v1";
        primitive_function_id = "text.embed";
        preferred_role = "embedding";
      },
    )
    ∷ []

unfoldable pub get_composition : String → Result Error Composition
get_composition function_id = elim (get function_id composition_definitions) [
  | none ↦ err value_error
  | some definition ↦ ok definition
]

-- The installation that a role binding names: its provider and its model.
pub record Binding : Type 0 where
  pub provider_installation_id : Option String
  pub model_installation_id : Option String

abbrev pub or_unbound : Option Binding → Binding
or_unbound none = record { provider_installation_id = none; model_installation_id = none }
or_unbound (some b) = b

-- The bindings are those of the snapshot.
unfoldable pub validate_composition_provider :
    Dict Binding → DeploymentSnapshot → String → String → Result Error Candidate
validate_composition_provider bindings s function_id adapter_contract = do
  definition ← get_composition function_id
  require (adapter_contract == definition.adapter_contract) value_error
  primitive ← get_function definition.primitive_function_id
  require (primitive.preferred_role == definition.preferred_role) value_error
  let binding = or_unbound (get definition.preferred_role bindings)
  provider ←
      resolve_function_provider s definition.primitive_function_id binding.model_installation_id
        none binding.provider_installation_id
  validate_function_contract definition.primitive_function_id provider
  require (provider.role == definition.preferred_role) value_error
  ok provider
