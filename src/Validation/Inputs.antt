-- ===== src/Validation/Inputs.antt =====
-- What a step of a plan that `validate_plan` of app/orchestration/plans.py lets through is fed with.
use dotori.Prelude.{
  String, ◌≡◌, refl, true, Option, none, some, List, [], ◌∷◌, arith, Option-cases, inl, inr, Result,
  ok, err, bind-eq-ok, ok-injective, Member,
}
use dotori.Prelude.Classes.{◌==◌, string_eq}
use dotori.Bindings
use dotori.Bindings.{ArtifactBinding, ResolvedArtifact, resolve_artifact_binding}
use dotori.Plans.{ProcessingRequest, PlanStep, find_step}
use dotori.Validation.{
  from_binding, Deployment, Checks, resolve_bound, output_schemas, input_schemas,
}

-- The resolver finds an artifact that may feed the binding.
abbrev pub Resolves : Checks → ProcessingRequest → PlanStep → ArtifactBinding → Type 0
Resolves checks request step binding =
    (resolve : (PlanStep → ArtifactBinding → Result Bindings.Error ResolvedArtifact))
    × (artifact : ResolvedArtifact) × (checks.resolve_input ≡ some resolve)
    × (resolve_artifact_binding binding request.source (resolve step) none ≡ ok artifact)

-- A bound step takes its binding's schema, from an artifact that resolves if it is bound to one; a
-- step with dependencies takes the output of one of them, and any other takes the source.
abbrev pub IsSupplied :
    Checks
    → ProcessingRequest
    → List PlanStep
    → PlanStep
    → Option ArtifactBinding
    → List String
    → Type 0
IsSupplied checks request seen step (some binding) deps =
    (step.input_schema ≡ binding.schema)
    × ((binding.kind == "artifact") ≡ true → Resolves checks request step binding)
IsSupplied checks request seen step none [] = step.input_schema ≡ request.source.schema
IsSupplied checks request seen step none (dep ∷ deps) =
    (name : String) × (producer : PlanStep) × Member name (dep ∷ deps)
    × (find_step name seen ≡ some producer)
    × (step.input_schema ≡ producer.output_schema)

from_binding-eq-ok :
    {A : Type 0} (r : Result Bindings.Error A) {a : A} → from_binding r ≡ ok a → r ≡ ok a
from_binding-eq-ok (ok b) h = ground (arith, h)
from_binding-eq-ok (err e) h = cc

-- A schema that the dependencies give is the output of one of them.
output_schemas-producer :
    (seen : List PlanStep) (deps : List String) (schema : String)
    → Member schema (output_schemas seen deps)
    → (name : String) × (producer : PlanStep) × Member name deps
      × (find_step name seen ≡ some producer)
      × (schema ≡ producer.output_schema)
unfolding output_schemas
output_schemas-producer seen [] schema m = absurd m
output_schemas-producer seen (dep ∷ deps) schema m = elim (Option-cases (find_step dep seen)) [
  | inl missing ↦
      let (name, producer, at, found, same) =
        output_schemas-producer seen deps schema (rw (output_schemas, missing) at m) in
      (name, producer, inr at, found, same)
  | inr (first, e) ↦ elim (rw (output_schemas, e) at m) [
    | inl same ↦ (dep, first, inl refl, e, same)
    | inr later ↦
        let (name, producer, at, found, same) = output_schemas-producer seen deps schema later in
        (name, producer, inr at, found, same)
  ]
]

module _ (checks : Checks) (d : Deployment) (request : ProcessingRequest) (step : PlanStep) where
  resolve_bound-Resolves :
      (binding : ArtifactBinding)
      → (binding.kind == "artifact") ≡ true
      → resolve_bound checks d request step binding ≡ ok tt
      → Resolves checks request step binding
  unfolding resolve_bound
  resolve_bound-Resolves binding kind h = elim (Option-cases checks.resolve_input) [
    | inl missing ↦ absurd (ground (arith, kind, missing, h))
    | inr (resolve, given) ↦
        let h1 = rw (resolve_bound, kind, given) at h in
        let (artifact, found, h2) =
          bind-eq-ok
            (from_binding (resolve_artifact_binding binding request.source (resolve step) none)) _
            h1 in
        (resolve, artifact, given, from_binding-eq-ok _ found)
  ]

  pub input_schemas-IsSupplied :
      (seen : List PlanStep) (bound : Option ArtifactBinding) (deps schemas : List String)
      → step.input_binding ≡ bound
      → step.depends_on ≡ deps
      → input_schemas checks d request seen step ≡ ok schemas
      → Member step.input_schema schemas
      → IsSupplied checks request seen step bound deps
  unfolding input_schemas
  input_schemas-IsSupplied seen (some binding) deps schemas b e h m =
      let (_, resolved, h1) =
        bind-eq-ok (resolve_bound checks d request step binding) _ (rw (input_schemas, b) at h) in
      elim (rw (← ok-injective h1) at m) [
        | inl same ↦ (same, λ kind. resolve_bound-Resolves binding kind resolved)
        | inr never ↦ absurd never
      ]
  input_schemas-IsSupplied seen none [] schemas b e h m =
      elim (rw (← ok-injective (rw (input_schemas, b, e) at h)) at m) [
        | inl same ↦ same
        | inr never ↦ absurd never
      ]
  input_schemas-IsSupplied seen none (dep ∷ deps) schemas b e h m =
      output_schemas-producer seen (dep ∷ deps) step.input_schema
        (rw (← ok-injective (rw (input_schemas, b, e) at h)) at m)
