-- ===== src/Capabilities/Termination.antt =====
-- The recursion of `resolve_capabilities` of app/capabilities/registry.py ends: each nested visit
-- adds a requested capability to those that are being visited.
use dotori.Prelude.{
  ℕ, zero, suc, ◌≤◌, String, ◌≡◌, refl, Bool, true, false, not, List, [], ◌∷◌, arith, Bool-cases,
  Option-cases, inl, inr, find?, all, count, length, Result, ok, err, ◌>>=◌,
}
use dotori.Prelude.Classes.{◌==◌, string_eq, elem, subset, ==_refl, ==→≡}
use dotori.Capabilities.{
  Error, unknown_capability, cyclic_dependency, missing_dependency, out_of_fuel,
  CapabilityDefinition, get_capability, is_known, unique, visit_dependencies, visit,
  visit_requested, resolve_capabilities,
}

-- The fuel of the model was enough.
abbrev pub is_finished : {A : Type 0} → Result Error A → Bool
is_finished (ok a) = true
is_finished (err out_of_fuel) = false
is_finished (err e) = true

abbrev unvisited : List String → List String → ℕ
unvisited visiting = count (λ r. not (elem r visiting))

unvisited_le :
    (id : String) (visiting requested : List String)
    → unvisited (id ∷ visiting) requested ≤ unvisited visiting requested
unvisited_le id visiting [] = omega arith
unvisited_le id visiting (r ∷ requested) = ground (arith, unvisited_le id visiting requested)

unvisited_lt :
    (id : String) (visiting requested : List String)
    → elem id requested ≡ true
    → elem id visiting ≡ false
    → suc (unvisited (id ∷ visiting) requested) ≤ unvisited visiting requested
unvisited_lt id visiting [] h fresh = cc
unvisited_lt id visiting (r ∷ requested) h fresh = elim (Bool-cases (id == r)) [
  | inl same ↦
      let is_r : id ≡ r = ==→≡ id r same in
      let fresh_r : elem r visiting ≡ false = rw (← is_r) fresh in
      let now : (r == id) ≡ true = rw is_r (==_refl r) in
      rw (now, fresh_r) (omega (arith, unvisited_le id visiting requested))
  | inr other ↦ ground (arith, unvisited_lt id visiting requested (rw other at h) fresh)
]

bind_finishes :
    {A B : Type 0} (r : Result Error A) (k : A → Result Error B)
    → is_finished r ≡ true
    → ((a : A) → is_finished (k a) ≡ true)
    → is_finished (r >>= k) ≡ true
bind_finishes (ok a) k first rest = rest a
bind_finishes (err unknown_capability) k first rest = refl
bind_finishes (err cyclic_dependency) k first rest = refl
bind_finishes (err missing_dependency) k first rest = refl
bind_finishes (err out_of_fuel) k first rest = cc

unvisited_all : (requested : List String) → unvisited [] requested ≤ length requested
unvisited_all [] = omega arith
unvisited_all (r ∷ requested) = omega (arith, unvisited_all requested)

subset_cons : (x : String) (xs ys : List String) → subset xs ys ≡ true → subset xs (x ∷ ys) ≡ true
subset_cons x [] ys h = refl
subset_cons x (y ∷ xs) ys h = ground (arith, h, subset_cons x xs ys)

subset_refl : (xs : List String) → subset xs xs ≡ true
subset_refl [] = refl
subset_refl (x ∷ xs) = rw (==_refl x) (subset_cons x xs xs (subset_refl xs))

module _ (requested : List String) where
  visit_dependencies_finishes :
      (visit_one : List String → String → Result Error (List String))
      (resolved dependencies : List String)
      → ((r : List String) (d : String)
          → elem d requested ≡ true
          → is_finished (visit_one r d) ≡ true)
      → is_finished (visit_dependencies requested visit_one resolved dependencies) ≡ true
  unfolding visit_dependencies
  visit_dependencies_finishes visit_one resolved [] h = refl
  visit_dependencies_finishes visit_one resolved (d ∷ ds) h = elim (Bool-cases (elem d requested)) [
    | inr foreign ↦ rw foreign refl
    | inl known ↦ rw known (
        bind_finishes (visit_one resolved d) _ (h resolved d known)
          (λ next. visit_dependencies_finishes visit_one next ds h))
  ]

module _ (registry : List CapabilityDefinition) where
  get_capability_finishes : (id : String) → is_finished (get_capability registry id) ≡ true
  unfolding get_capability
  get_capability_finishes id =
      elim (Option-cases (find? (λ (d : CapabilityDefinition). d.capability_id == id) registry)) [
        | inl missing ↦ rw (get_capability, missing) refl
        | inr (d, found) ↦ rw (get_capability, found) refl
      ]

  visit_finishes :
      (requested : List String) (fuel : ℕ) (visiting resolved : List String) (id : String)
      → elem id requested ≡ true
      → suc (unvisited visiting requested) ≤ fuel
      → is_finished (visit registry requested fuel visiting resolved id) ≡ true
  unfolding visit
  visit_finishes requested zero visiting resolved id known enough = absurd (omega (arith, enough))
  visit_finishes requested (suc fuel) visiting resolved id known enough =
      elim (Bool-cases (elem id resolved)) [
        | inl done ↦ rw done refl
        | inr undone ↦ elim (Bool-cases (elem id visiting)) [
          | inl cyclic ↦ rw (undone, cyclic) refl
          | inr fresh ↦
              let fewer = unvisited_lt id visiting requested known fresh in
              rw (undone, fresh)
                (bind_finishes (get_capability registry id) _ (get_capability_finishes id)
                  (λ definition.
                    bind_finishes
                      (visit_dependencies requested (visit registry requested fuel (id ∷ visiting))
                        resolved definition.dependencies)
                      _
                      (visit_dependencies_finishes requested
                        (visit registry requested fuel (id ∷ visiting)) resolved
                        definition.dependencies
                        (λ r d known_d.
                          visit_finishes requested fuel (id ∷ visiting) r d known_d
                            (omega (arith, fewer, enough))))
                      (λ next. refl)))
        ]
      ]

  visit_requested_finishes :
      (requested : List String) (fuel : ℕ) (resolved rest : List String)
      → all (λ c. elem c requested) rest ≡ true
      → suc (length requested) ≤ fuel
      → is_finished (visit_requested registry requested fuel resolved rest) ≡ true
  unfolding visit_requested
  visit_requested_finishes requested fuel resolved [] h enough = refl
  visit_requested_finishes requested fuel resolved (c ∷ rest) h enough =
      bind_finishes (visit registry requested fuel [] resolved c) _
        (visit_finishes requested fuel [] resolved c (ground (arith, h))
          (omega (arith, enough, unvisited_all requested)))
        (λ next. visit_requested_finishes requested fuel next rest (ground (arith, h)) enough)

  -- The recursion ends for every registry, cyclic or not, and every list of capabilities: the
  -- number of distinct ones bounds its depth, and the fuel is never used up.
  pub resolve_capabilities_finishes :
      (capability_ids : List String)
      → is_finished (resolve_capabilities registry capability_ids) ≡ true
  unfolding resolve_capabilities
  resolve_capabilities_finishes capability_ids =
      elim (Bool-cases (all (is_known registry) (unique [] capability_ids))) [
        | inr unknown ↦ rw unknown refl
        | inl known ↦ rw known (
            bind_finishes
              (visit_requested registry (unique [] capability_ids)
                (suc (length (unique [] capability_ids))) [] (unique [] capability_ids))
              _
              (visit_requested_finishes (unique [] capability_ids)
                (suc (length (unique [] capability_ids))) [] (unique [] capability_ids)
                (subset_refl (unique [] capability_ids)) (omega arith))
              (λ resolved. refl))
      ]
