-- ===== src/Routing/Choice.antt =====
-- What the choice of a provider guarantees.
use dotori.Prelude.{
  String, ◌≡◌, refl, ◌∙◌, Bool, true, false, ◌&&◌, Option, none, some, List, [], ◌∷◌, find?, filter,
  if◌then◌else◌, arith, Bool-cases, Option-cases, inl, inr, ok, err, bind-eq-ok, raise_if,
  raise_if-eq-ok, Member, find?-Member, filter-Member, Member-filter,
}
use dotori.Prelude.Classes.{◌==◌, string_eq}
use dotori.Prelude.Text.{nonempty}
use dotori.Routing.{
  route_error, Candidate, DeploymentSnapshot, is_given, or_else, provider_enabled, candidates_of,
  enabled_only, by_reference, resolve_explicit, is_verified, is_eligible, preferred, or_all,
  preferred_of, only_one, resolve_automatic, routed, default_candidate, resolve_default,
  resolve_function_provider,
}

module _ (s : DeploymentSnapshot) (function_id : String) where
  -- A declared candidate of the function, in an enabled role.
  abbrev pub IsUsable : Candidate → Type 0
  IsUsable c = Member c (candidates_of s function_id) × (provider_enabled s c.role ≡ true)

  enabled_only-IsUsable :
      (found c : Candidate)
      → Member found (candidates_of s function_id)
      → enabled_only s found ≡ ok c
      → IsUsable c
  unfolding enabled_only
  enabled_only-IsUsable found c at h =
      let same : found ≡ c = ground (arith, h) in
      let on : provider_enabled s found.role ≡ true = ground (arith, h) in rw (← same) (at, on)

  only_one-single : (cs : List Candidate) (c : Candidate) → only_one s cs ≡ ok c → cs ≡ c ∷ []
  unfolding only_one
  only_one-single [] c h = cc
  only_one-single (x ∷ []) c h = ground (arith, h)
  only_one-single (x ∷ y ∷ cs) c h = cc

  -- The one candidate of its role in the list.
  abbrev IsOnly : List Candidate → Candidate → Type 0
  IsOnly eligible c =
      Member c eligible × ((x : Candidate) → Member x eligible → x.role ≡ c.role → x ≡ c)

  single-IsOnly :
      (eligible : List Candidate) (c : Candidate) → eligible ≡ c ∷ [] → IsOnly eligible c
  single-IsOnly eligible c h = rw h (inl refl, alone)
    where
      alone : (x : Candidate) → Member x (c ∷ []) → x.role ≡ c.role → x ≡ c
      alone x (inl e) r = e
      alone x (inr m) r = absurd m

  matching-IsOnly :
      (role : String) (eligible matching : List Candidate) (c : Candidate)
      → filter (λ (x : Candidate). x.role == role) eligible ≡ matching
      → or_all s matching eligible ≡ c ∷ []
      → IsOnly eligible c
  matching-IsOnly role eligible [] c e h = single-IsOnly eligible c h
  matching-IsOnly role eligible (m ∷ matching) c e h =
      let is_role = (λ (x : Candidate). x.role == role) in
      let only : filter is_role eligible ≡ c ∷ [] = e ∙ h in
      let at : Member c (filter is_role eligible) = rw only (inl refl) in
      let (here, has_role) = filter-Member is_role eligible c at in
      (
        here,
        λ x mine same.
            let x_role : (x.role == role) ≡ true = rw same has_role in
            one x (rw only at (Member-filter is_role eligible x mine x_role)),
      )
    where
      one : (x : Candidate) → Member x (c ∷ []) → x ≡ c
      one x (inl e) = e
      one x (inr m) = absurd m

  preferred_of-IsOnly :
      (role : Option String) (eligible : List Candidate) (c : Candidate)
      → preferred_of s role eligible ≡ c ∷ []
      → IsOnly eligible c
  unfolding preferred_of
  preferred_of-IsOnly none eligible c h = single-IsOnly eligible c h
  preferred_of-IsOnly (some role) eligible c h = elim (Bool-cases (nonempty role)) [
    | inl given ↦
        matching-IsOnly role eligible (filter (λ (x : Candidate). x.role == role) eligible) c refl
          (rw given at h)
    | inr empty ↦ single-IsOnly eligible c (rw empty at h)
  ]

  -- A choice that no reference and no default route makes is the only eligible candidate of its
  -- role.
  pub resolve_automatic-IsOnly :
      (role : Option String) (c : Candidate)
      → resolve_automatic s function_id role ≡ ok c
      → IsUsable c
        × (is_verified s function_id c ≡ true)
        × ((x : Candidate)
            → Member x (candidates_of s function_id)
            → is_verified s function_id x ≡ true
            → provider_enabled s x.role ≡ true
            → x.role ≡ c.role
            → x ≡ c)
  unfolding resolve_automatic
  resolve_automatic-IsOnly role c h =
      let (wanted, made, h1) = bind-eq-ok (preferred s function_id role) _ h in
      let eligible = filter (is_eligible s function_id) (candidates_of s function_id) in
      let (at, only) = preferred_of-IsOnly wanted eligible c (only_one-single _ c h1) in
      let (declared, fits) =
        filter-Member (is_eligible s function_id) (candidates_of s function_id) c at in
      (
        (declared, ground (arith, fits)),
        ground (arith, fits),
        λ x mine verified on same.
            only x
              (Member-filter (is_eligible s function_id) (candidates_of s function_id) x mine
                (rw (verified, on) refl))
              same,
      )

  found-IsUsable :
      (p : Candidate → Bool) (found : Option Candidate) (c : Candidate)
      → find? p (candidates_of s function_id) ≡ found
      → (elim found [ none ↦ err route_error | some x ↦ enabled_only s x ]) ≡ ok c
      → IsUsable c
  found-IsUsable p none c e h = cc
  found-IsUsable p (some x) c e h = enabled_only-IsUsable x c (find?-Member p _ x e) h

  resolve_explicit-IsUsable :
      (is_provider : Bool) (id : String) (c : Candidate)
      → resolve_explicit s function_id is_provider id ≡ ok c
      → IsUsable c
  unfolding resolve_explicit
  resolve_explicit-IsUsable is_provider id c h =
      found-IsUsable (by_reference s is_provider id) _ c refl h

  routed-Member :
      (route : Option String) (found : Candidate)
      → routed s function_id route ≡ some found
      → Member found (candidates_of s function_id)
  unfolding routed
  routed-Member none found h = cc
  routed-Member (some id) found h = elim (Bool-cases (nonempty id)) [
    | inl given ↦ find?-Member _ _ found (rw given at h)
    | inr empty ↦ absurd (ground (arith, empty, h))
  ]

  resolve_default-IsUsable :
      (role : Option String) (c : Candidate)
      → resolve_default s function_id role ≡ ok c
      → IsUsable c
  unfolding resolve_default
  resolve_default-IsUsable role c h = elim (Option-cases (default_candidate s function_id)) [
    | inl e ↦ (resolve_automatic-IsOnly role c (ground (arith, e, h))).0
    | inr (found, e) ↦
        enabled_only-IsUsable found c (routed-Member _ found e) (ground (arith, e, h))
  ]

  -- Whatever a caller names, the provider that a function resolves to is declared for that function
  -- and its role is enabled, and a caller who names both a model and a provider gets none.
  pub resolve_function_provider-IsUsable :
      (model role provider : Option String) (c : Candidate)
      → resolve_function_provider s function_id model role provider ≡ ok c
      → IsUsable c × ((is_given model && is_given provider) ≡ false)
  unfolding resolve_function_provider
  resolve_function_provider-IsUsable model role provider c h =
      let (_, apart, h1) =
        bind-eq-ok (raise_if (is_given model && is_given provider) route_error) _ h in
      (chosen (or_else model provider) h1, raise_if-eq-ok _ _ apart)
    where
      chosen :
          (given : Option String)
          → (elim given [
            | none ↦ resolve_default s function_id role
            | some id ↦
                if nonempty id
                then resolve_explicit s function_id (is_given provider) id
                else resolve_default s function_id role
          ])
            ≡ ok c
          → IsUsable c
      chosen none h = resolve_default-IsUsable role c h
      chosen (some id) h = elim (Bool-cases (nonempty id)) [
        | inl given ↦ resolve_explicit-IsUsable (is_given provider) id c (rw given at h)
        | inr empty ↦ resolve_default-IsUsable role c (rw empty at h)
      ]
