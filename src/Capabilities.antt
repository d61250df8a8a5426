-- ===== src/Capabilities.antt =====
-- The capability declarations of app/capabilities/registry.py and the order in which
-- `resolve_capabilities` installs them. The registry is an argument, and its value stands beside it.
-- `visiting` is passed down, since what a visit adds to it is removed when the visit ends; the
-- resolved capabilities are kept with the newest first.
pub mod Termination
pub mod Order
mod Tests
use mathlib.Core.List.{reverse}
use dotori.Prelude.{
  ℕ, zero, suc, String, Bool, true, false, not, Option, some, none, List, [], ◌∷◌, find?, all,
  length, if◌then◌else◌, Result, ok, err, ◌>>=◌, ◌>>◌, require,
}
use dotori.Prelude.Classes.{◌==◌, string_eq, elem}

pub data Error : Type 0 where
  unknown_capability cyclic_dependency missing_dependency out_of_fuel : Error

pub record CapabilityDefinition : Type 0 where
  pub capability_id : String
  pub contract_version : ℕ
  pub dependencies : List String
  pub input_kinds : List String
  pub output_schema : String
  pub execution_roles : List String

unfoldable pub capability_registry : List CapabilityDefinition
capability_registry =
    record {
      capability_id = "documents.extract";
      contract_version = 1;
      dependencies = [];
      input_kinds = "document" ∷ [];
      output_schema = "dotori.document.extract.v1";
      execution_roles = "parser" ∷ [];
    }
    ∷ record {
      capability_id = "documents.semantic_search";
      contract_version = 1;
      dependencies = "documents.extract" ∷ [];
      input_kinds = "document" ∷ [];
      output_schema = "dotori.document.embedding.v1";
      execution_roles = "embedding" ∷ [];
    }
    ∷ []

-- `dict.fromkeys`
unfoldable pub unique : List String → List String → List String
unique seen [] = []
unique seen (x ∷ xs) =
    let later = unique (x ∷ seen) xs in
    let others = unique seen xs in if elem x seen then others else x ∷ later

module _ (requested : List String) where
  -- The loop over the dependencies, on a visit of one of them.
  unfoldable pub visit_dependencies :
      (List String → String → Result Error (List String))
      → List String
      → List String
      → Result Error (List String)
  visit_dependencies visit_one resolved [] = ok resolved
  visit_dependencies visit_one resolved (dependency ∷ dependencies) = do
    require (elem dependency requested) missing_dependency
    next ← visit_one resolved dependency
    visit_dependencies visit_one next dependencies

module _ (registry : List CapabilityDefinition) where
  unfoldable pub get_capability : String → Result Error CapabilityDefinition
  get_capability capability_id =
      elim (find? (λ (d : CapabilityDefinition). d.capability_id == capability_id) registry) [
        | none ↦ err unknown_capability
        | some definition ↦ ok definition
      ]

  abbrev pub is_known : String → Bool
  is_known capability_id =
      elim (find? (λ (d : CapabilityDefinition). d.capability_id == capability_id) registry) [
        | none ↦ false
        | some d ↦ true
      ]

  module _ (requested : List String) where
    unfoldable pub visit : ℕ → List String → List String → String → Result Error (List String)
    visit zero visiting resolved capability_id = err out_of_fuel
    visit (suc fuel) visiting resolved capability_id =
        if elem capability_id resolved
        then ok resolved
        else if elem capability_id visiting
        then err cyclic_dependency
        else (do
          definition ← get_capability capability_id
          next ←
              visit_dependencies requested (visit fuel (capability_id ∷ visiting)) resolved
                definition.dependencies
          ok (capability_id ∷ next))

    -- The loop over the requested capabilities.
    unfoldable pub visit_requested : ℕ → List String → List String → Result Error (List String)
    visit_requested fuel resolved [] = ok resolved
    visit_requested fuel resolved (capability_id ∷ rest) = do
      next ← visit fuel [] resolved capability_id
      visit_requested fuel next rest

  unfoldable pub resolve_capabilities : List String → Result Error (List String)
  resolve_capabilities capability_ids = do
    let requested = unique [] capability_ids
    require (all is_known requested) unknown_capability
    resolved ← visit_requested requested (suc (length requested)) [] requested
    ok (reverse resolved)
