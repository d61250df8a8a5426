-- ===== src/Capabilities/Tests.antt =====
-- The declared capabilities, and a registry with a cycle.
use mathlib.Core.List.{reverse}
use dotori.Prelude.{String, ◌≡◌, refl, true, List, [], ◌∷◌, Member, All, ok, err}
use dotori.Capabilities.{
  CapabilityDefinition, cyclic_dependency, missing_dependency, capability_registry, unique,
  get_capability, visit_dependencies, visit, visit_requested, resolve_capabilities,
}
use dotori.Capabilities.Termination.{is_finished, resolve_capabilities_finishes}
use dotori.Capabilities.Order.{IsOrdered, resolve_capabilities-IsOrdered}

program : Unit {0}
unfolding capability_registry unique get_capability visit_dependencies visit visit_requested
    resolve_capabilities
program = tt

abbrev asked : List String
asked = "documents.semantic_search" ∷ "documents.extract" ∷ []

asked_resolved :
    resolve_capabilities capability_registry asked
    ≡ ok ("documents.extract" ∷ "documents.semantic_search" ∷ [])
unfolding program
asked_resolved = refl

abbrev ring : List CapabilityDefinition
ring = definition "a" ("b" ∷ []) ∷ definition "b" ("a" ∷ []) ∷ []
  where
    definition : String → List String → CapabilityDefinition
    definition name dependencies = record {
      capability_id = name;
      contract_version = 1;
      dependencies = dependencies;
      input_kinds = [];
      output_schema = "";
      execution_roles = [];
    }

ring-fails : resolve_capabilities ring ("a" ∷ "b" ∷ []) ≡ err cyclic_dependency
unfolding program
ring-fails = refl

dependency-fails :
    resolve_capabilities capability_registry ("documents.semantic_search" ∷ [])
    ≡ err missing_dependency
unfolding program
dependency-fails = refl

resolve_capabilities_finishes_example :
    is_finished (resolve_capabilities ring ("a" ∷ "b" ∷ [])) ≡ true
resolve_capabilities_finishes_example = resolve_capabilities_finishes ring ("a" ∷ "b" ∷ [])

resolve_capabilities-IsOrdered_example :
    (r : List String) × (("documents.extract" ∷ "documents.semantic_search" ∷ []) ≡ reverse r)
    × IsOrdered capability_registry r
    × All (λ c. Member c r) asked
resolve_capabilities-IsOrdered_example =
    resolve_capabilities-IsOrdered capability_registry asked
      ("documents.extract" ∷ "documents.semantic_search" ∷ []) asked_resolved
