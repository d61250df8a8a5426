-- ===== src/Workspaces/Governance/Deletion.antt =====
-- The administration of workspaces under `delete_account_with_personal_data`.
use mathlib.Core.Path.{subst}
use dotori.Prelude.{
  ℕ, ◌≡◌, Bool, true, false, not, ◌&&◌, List, [], ◌∷◌, any, filter, map, arith, Bool-cases, inl,
  inr, ◌⊎◌, ok, Result, bind-eq-ok, ok-injective, ok-state, raise_if, raise_if-eq-ok, All,
  Member-All, All-of_Member, Member-filter, any→Member, Member→any, any_mono, if◌then◌else◌,
}
use dotori.Prelude.Classes.{◌==◌, nat_eq, elem}
use dotori.Workspaces.{
  Error, is_admin, Workspace, Membership, Tables, is_admin_of, has_other_admin, has_other_active,
}
use dotori.Workspaces.Services.{solo_workspaces, delete_account, delete_user, drop_workspace, unset}

-- What the loop has established of a membership of the leaving user.
abbrev Cleared : List ℕ → List Membership → Membership → Type 0
Cleared solo ms m =
    (elem m.workspace solo ≡ true) ⊎ (is_admin m.role ≡ true → has_other_admin m ms ≡ true)

Cleared-still :
    (ms : List Membership) (w : ℕ) (solo : List ℕ) (m : Membership)
    → Cleared solo ms m
    → Cleared (w ∷ solo) ms m
Cleared-still ms w solo m (inl e) = inl (ground (arith, e))
Cleared-still ms w solo m (inr f) = inr f

Cleared-first :
    (ms rest : List Membership) (m : Membership) (others solo : List ℕ)
    → (has_other_active m ms && is_admin m.role && not (has_other_admin m ms)) ≡ false
    → All (Cleared others ms) rest
    → ◌≡◌ {A = Result Error (List ℕ)}
        (if has_other_active m ms then ok others else ok (m.workspace ∷ others))
        (ok solo)
    → All (Cleared solo ms) (m ∷ rest)
Cleared-first ms rest m others solo guard tail h = elim (Bool-cases (has_other_active m ms)) [
  | inl shared ↦
      subst (λ s. All (Cleared s ms) (m ∷ rest)) (ok-injective (rw shared at h))
        (inr (λ a. ground (arith, a, shared, guard)), tail)
  | inr alone ↦
      subst (λ s. All (Cleared s ms) (m ∷ rest)) (ok-injective (rw alone at h))
        (
          inl (ground arith),
          All-of_Member _ rest
              (λ x at. Cleared-still ms m.workspace others x (Member-All _ rest x tail at)),
        )
]

solo_workspaces-Cleared :
    (ms rest : List Membership) (solo : List ℕ)
    → solo_workspaces ms rest ≡ ok solo
    → All (Cleared solo ms) rest
unfolding solo_workspaces
solo_workspaces-Cleared ms [] solo h = tt
solo_workspaces-Cleared ms (m ∷ rest) solo h =
    let (_, guard, h1) =
      bind-eq-ok
        (raise_if (has_other_active m ms && is_admin m.role && not (has_other_admin m ms))
          Error.validation_error)
        _ h in
    let (others, made, h2) = bind-eq-ok (solo_workspaces ms rest) _ h1 in
    Cleared-first ms rest m others solo (raise_if-eq-ok _ _ guard)
      (solo_workspaces-Cleared ms rest others made) h2

-- An administrator of a workspace that stays, other than the leaving user.
module _ (user : ℕ) (ms : List Membership) (solo : List ℕ) (w : ℕ) where
  abbrev governs : Membership → Bool
  governs m = is_admin_of w m && not (m.user == user)

  successor :
      All (Cleared solo ms) (filter (λ m. m.user == user && m.is_active) ms)
      → elem w solo ≡ false
      → any (is_admin_of w) ms ≡ true
      → any governs ms ≡ true
  unfolding has_other_admin
  successor cleared stays h =
      let (m, at, governed) = any→Member (is_admin_of w) ms h in
      elim (Bool-cases (m.user == user)) [
        | inr other ↦ Member→any governs ms m at (ground (arith, governed, other))
        | inl own ↦
            let mine =
              Member-filter (λ m. m.user == user && m.is_active) ms m at
                (ground (arith, governed, own)) in
            let here : m.workspace ≡ w = ground (arith, governed) in
            elim (Member-All _ _ m cleared mine) [
              | inl gone ↦ absurd (cc (rw here at gone, stays))
              | inr others ↦
                  any_mono _ governs ms (λ x a. ground (arith, a, own, here))
                    (others (ground (arith, governed)))
            ]
      ]

  left_over :
      (rows : List Membership)
      → elem w solo ≡ false
      → any governs rows ≡ true
      → any (is_admin_of w) (
          map
            (λ (m : Membership). record m { invited_by = unset user m.invited_by })
            (filter
              (λ (m : Membership). not (m.user == user))
              (filter (λ (m : Membership). not (elem m.workspace solo)) rows)))
        ≡ true
  left_over [] stays h = cc
  left_over (m ∷ rows) stays h = elim (Bool-cases (governs m)) [
    | inl here ↦
        let at : m.workspace ≡ w = ground (arith, here) in
        let kept : elem m.workspace solo ≡ false = rw at stays in
        let other : (m.user == user) ≡ false = ground (arith, here) in
        rw (kept, other) (ground (arith, here))
    | inr skip ↦
        let rest = left_over rows stays (ground (arith, h, skip)) in
        elim (Bool-cases (elem m.workspace solo)) [
          | inl gone ↦ rw gone rest
          | inr kept ↦ elim (Bool-cases (m.user == user)) [
            | inl own ↦ rw (kept, own) rest
            | inr other ↦ rw (kept, other) (ground (arith, rest))
          ]
        ]
  ]

pub delete_account-governed :
    (user : ℕ) (t : Tables) {t' : Tables}
    → delete_account user t ≡ ok (tt, t')
    → All (λ (w : Workspace). any (is_admin_of w.id) t.memberships ≡ true) t.workspaces
    → All (λ (w : Workspace). any (is_admin_of w.id) t'.memberships ≡ true) t'.workspaces
unfolding delete_account delete_user
delete_account-governed user t h g =
    let ms = t.memberships in
    let (solo, made, h1) = bind-eq-ok (solo_workspaces ms _) _ h in
    let cleared = solo_workspaces-Cleared ms _ solo made in
    rw (← ok-state h1) (go solo cleared t.workspaces g)
  where
    after : List ℕ → List Membership
    after solo = (delete_user user (drop_workspace solo t)).memberships

    go :
        (solo : List ℕ)
        → All
            (Cleared solo t.memberships)
            (filter (λ m. m.user == user && m.is_active) t.memberships)
        → (ws : List Workspace)
        → All (λ (w : Workspace). any (is_admin_of w.id) t.memberships ≡ true) ws
        → All
            (λ (w : Workspace). any (is_admin_of w.id) (after solo) ≡ true)
            (map
              (λ (w : Workspace). record w { created_by = unset user w.created_by })
              (filter (λ (w : Workspace). not (elem w.id solo)) ws))
    go solo cleared [] g = tt
    go solo cleared (w ∷ ws) g = elim (Bool-cases (elem w.id solo)) [
      | inl gone ↦ rw gone (go solo cleared ws g.1)
      | inr stays ↦ rw stays (
        left_over user t.memberships solo w.id t.memberships stays
            (successor user t.memberships solo w.id cleared stays g.0),
        go solo cleared ws g.1,
      )
    ]
