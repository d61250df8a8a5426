-- ===== src/Capabilities/Order.antt =====
-- What `resolve_capabilities` of app/capabilities/registry.py returns.
use mathlib.Core.List.{reverse}
use dotori.Prelude.{
  ℕ, zero, suc, String, ◌≡◌, refl, sym, ◌⊎◌, true, List, [], ◌∷◌, arith, Bool-cases, inl, inr, all,
  length, Member, All, All-of_Member, Member-All, Result, ok, require, bind-eq-ok, ok-injective,
}
use dotori.Prelude.Classes.{◌==◌, string_eq, elem, elem→Member, ==→≡}
use dotori.Capabilities.{
  Error, unknown_capability, missing_dependency, CapabilityDefinition, get_capability, is_known,
  unique, visit_dependencies, visit, visit_requested, resolve_capabilities,
}

-- With the newest first: every capability stands after its dependencies.
pub IsOrdered : List CapabilityDefinition → List String → Type 0
IsOrdered registry [] = Unit
IsOrdered registry (c ∷ cs) =
    ((d : CapabilityDefinition) × (get_capability registry c ≡ ok d)
      × All (λ dep. Member dep cs) d.dependencies)
    × IsOrdered registry cs

-- A visit keeps what is resolved.
Keeps : List String → List String → Type 0
Keeps before after = (x : String) → Member x before → Member x after

module _ (registry : List CapabilityDefinition) (requested : List String) where
  -- What a visit of a capability leaves.
  Resolves : List String → String → List String → Type 0
  Resolves before id after = IsOrdered registry after × Member id after × Keeps before after

  visit_dependencies-IsOrdered :
      (visit_one : List String → String → Result Error (List String))
      (before dependencies after : List String)
      → ((r : List String) (d : String) (r' : List String)
          → IsOrdered registry r
          → visit_one r d ≡ ok r'
          → Resolves r d r')
      → IsOrdered registry before
      → visit_dependencies requested visit_one before dependencies ≡ ok after
      → IsOrdered registry after × All (λ d. Member d after) dependencies × Keeps before after
  unfolding visit_dependencies Resolves Keeps
  visit_dependencies-IsOrdered visit_one before [] after one ordered h =
      let same : before ≡ after = ok-injective h in rw (← same) (ordered, tt, λ x m. m)
  visit_dependencies-IsOrdered visit_one before (d ∷ ds) after one ordered h =
      let (_, known, h1) = bind-eq-ok (require (elem d requested) missing_dependency) _ h in
      let (next, visited, h2) = bind-eq-ok (visit_one before d) _ h1 in
      let (ordered_next, here, kept) = one before d next ordered visited in
      let (ordered_after, rest, kept_rest) =
        visit_dependencies-IsOrdered visit_one next ds after one ordered_next h2 in
      (ordered_after, (kept_rest d here, rest), λ x m. kept_rest x (kept x m))

  visit-Resolves :
      (fuel : ℕ) (visiting before : List String) (id : String) (after : List String)
      → IsOrdered registry before
      → visit registry requested fuel visiting before id ≡ ok after
      → Resolves before id after
  unfolding visit Resolves Keeps IsOrdered
  visit-Resolves zero visiting before id after ordered h = cc
  visit-Resolves (suc fuel) visiting before id after ordered h =
      elim (Bool-cases (elem id before)) [
        | inl done ↦
            let same : before ≡ after = ok-injective (rw done at h) in
            rw (← same) (ordered, elem→Member id before done, λ x m. m)
        | inr undone ↦ elim (Bool-cases (elem id visiting)) [
          | inl cyclic ↦ absurd (ground (arith, rw (undone, cyclic) at h))
          | inr fresh ↦
              let h0 = rw (undone, fresh) at h in
              let (definition, found, h1) = bind-eq-ok (get_capability registry id) _ h0 in
              let (next, visited, h2) =
                bind-eq-ok
                  (visit_dependencies requested (visit registry requested fuel (id ∷ visiting))
                    before definition.dependencies)
                  _ h1 in
              let same : id ∷ next ≡ after = ok-injective h2 in
              let (ordered_next, provided, kept) =
                visit_dependencies-IsOrdered (visit registry requested fuel (id ∷ visiting)) before
                  definition.dependencies next
                  (λ r d r' o v. visit-Resolves fuel (id ∷ visiting) r d r' o v) ordered visited in
              rw (← same)
                (((definition, found, provided), ordered_next), inl refl, λ x m. inr (kept x m))
        ]
      ]

  visit_requested-IsOrdered :
      (fuel : ℕ) (before rest after : List String)
      → IsOrdered registry before
      → visit_requested registry requested fuel before rest ≡ ok after
      → IsOrdered registry after × All (λ c. Member c after) rest × Keeps before after
  unfolding visit_requested Resolves Keeps
  visit_requested-IsOrdered fuel before [] after ordered h =
      let same : before ≡ after = ok-injective h in rw (← same) (ordered, tt, λ x m. m)
  visit_requested-IsOrdered fuel before (c ∷ rest) after ordered h =
      let (next, visited, h1) = bind-eq-ok (visit registry requested fuel [] before c) _ h in
      let (ordered_next, here, kept) = visit-Resolves fuel [] before c next ordered visited in
      let (ordered_after, others, kept_rest) =
        visit_requested-IsOrdered fuel next rest after ordered_next h1 in
      (ordered_after, (kept_rest c here, others), λ x m. kept_rest x (kept x m))

unique-Member :
    (x : String) (seen xs : List String)
    → Member x xs
    → (elem x seen ≡ true) ⊎ Member x (unique seen xs)
unfolding unique
unique-Member x seen [] m = absurd m
unique-Member x seen (y ∷ ys) m = elim (Bool-cases (elem y seen)) [
  | inl old ↦ elim m [
    | inl same ↦ inl (rw same old)
    | inr later ↦ rw old (unique-Member x seen ys later)
  ]
  | inr new ↦ elim m [
    | inl same ↦ rw new (inr (inl same))
    | inr later ↦ elim (unique-Member x (y ∷ seen) ys later) [
      | inl among ↦ elim (Bool-cases (x == y)) [
        | inl here ↦ rw new (inr (inl (==→≡ x y here)))
        | inr other ↦ inl (rw other at among)
      ]
      | inr there ↦ rw new (inr (inr there))
    ]
  ]
]

unique_all : (xs : List String) (x : String) → Member x xs → Member x (unique [] xs)
unique_all xs x m = elim (unique-Member x [] xs m) [
  | inl none_seen ↦ absurd (ground (arith, none_seen))
  | inr there ↦ there
]

-- Capabilities that resolve are returned in an order in which each one is declared and stands
-- after its dependencies, and every requested one is among them.
pub resolve_capabilities-IsOrdered :
    (registry : List CapabilityDefinition) (capability_ids out : List String)
    → resolve_capabilities registry capability_ids ≡ ok out
    → (r : List String) × (out ≡ reverse r)
      × IsOrdered registry r
      × All (λ c. Member c r) capability_ids
unfolding resolve_capabilities IsOrdered
resolve_capabilities-IsOrdered registry capability_ids out h =
    let (_, known, h1) =
      bind-eq-ok (require (all (is_known registry) (unique [] capability_ids)) unknown_capability) _
        h in
    let (r, visited, h2) =
      bind-eq-ok
        (visit_requested registry (unique [] capability_ids)
          (suc (length (unique [] capability_ids))) [] (unique [] capability_ids))
        _ h1 in
    let (ordered, here, kept) =
      visit_requested-IsOrdered registry (unique [] capability_ids)
        (suc (length (unique [] capability_ids))) [] (unique [] capability_ids) r tt visited in
    (
      r,
      sym (ok-injective h2),
      ordered,
      All-of_Member (λ c. Member c r) capability_ids
          (λ c m.
            Member-All (λ c. Member c r) (unique [] capability_ids) c here
              (unique_all capability_ids c m)),
    )
