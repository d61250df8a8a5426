-- ===== src/Workspaces/CodesKept.antt =====
-- The services of app/workspaces/services.py that leave the invite codes alone.
use dotori.Prelude.{
  ℕ, String, ◌≡◌, refl, Bool, true, false, not, ◌&&◌, List, find?, arith, Option-cases, inl, inr,
  ok, err, Result, bind-eq-ok, ok-state, raise_if,
}
use dotori.Prelude.Classes.{◌==◌, nat_eq, string_eq}
use dotori.Workspaces.{
  Error, Kind, Role, is_admin, has_other_admin, get_active, InviteCode, Invitation, Tables,
  require_admin, create_workspace, invite_existing_user, is_member_now, pending_for,
  respond_to_invitation, respond_found, is_pending,
}
use dotori.Workspaces.Services.{change_member_role, demotes_last, remove_team_member, commit}

-- The services that leave the codes alone.
module _ (P : List InviteCode → Type 0) where
  abbrev pub Keeps : {A : Type 0} → Tables → Result Error (A × Tables) → Type 0
  Keeps {A} t call =
      (a : A) (t' : Tables) → call ≡ ok (a, t') → P t.invite_codes → P t'.invite_codes

  module _ (workspace actor : ℕ) (t : Tables) where
    pub invite-Keeps : (invitee : ℕ) → Keeps t (invite_existing_user workspace actor invitee t)
    unfolding invite_existing_user
    invite-Keeps invitee i t' h g =
        let (_, allowed, h1) = bind-eq-ok (require_admin workspace actor t) _ h in
        let (_, fresh, h2) =
          bind-eq-ok
            (raise_if (is_member_now workspace invitee t.memberships) Error.validation_error) _
            h1 in
        elim (Option-cases (pending_for workspace invitee t.invitations)) [
          | inl e ↦ rw (← ok-state (rw e at h2)) g
          | inr (x, e) ↦ rw (← ok-state (rw e at h2)) g
        ]

    pub change-Keeps :
        (user : ℕ) (role : Role) → Keeps t (change_member_role workspace actor user role t)
    unfolding change_member_role
    change-Keeps user role m t' h g =
        let (_, allowed, h1) = bind-eq-ok (require_admin workspace actor t) _ h in
        let (old, got, h2) = bind-eq-ok (get_active workspace user t.memberships) _ h1 in
        let (_, guard, h3) =
          bind-eq-ok (raise_if (demotes_last role old t.memberships) Error.validation_error) _ h2 in
        rw (← ok-state h3) g

    pub remove-Keeps : (user : ℕ) → Keeps t (remove_team_member workspace actor user t)
    unfolding remove_team_member
    remove-Keeps user m t' h g =
        let (_, allowed, h1) = bind-eq-ok (require_admin workspace actor t) _ h in
        let (old, got, h2) = bind-eq-ok (get_active workspace user t.memberships) _ h1 in
        let last = is_admin old.role && not (has_other_admin old t.memberships) in
        let (_, guard, h3) = bind-eq-ok (raise_if last Error.validation_error) _ h2 in
        rw (← ok-state h3) g

  pub create-Keeps :
      (actor : ℕ) (name : String) (kind : Kind) (t : Tables)
      → Keeps t (create_workspace actor name kind t)
  unfolding create_workspace
  create-Keeps actor name kind t w t' h g = rw (← ok-state h) g

  respond_found-Keeps :
      (now actor : ℕ) (accept : Bool) (i : Invitation) (t : Tables)
      → P t.invite_codes
      → P (respond_found now actor accept i t).1.invite_codes
  unfolding respond_found
  respond_found-Keeps now actor true i t g = g
  respond_found-Keeps now actor false i t g = g

  pub respond-Keeps :
      (now id actor : ℕ) (accept : Bool) (t : Tables)
      → Keeps t (respond_to_invitation now id actor accept t)
  unfolding respond_to_invitation
  respond-Keeps now id actor accept t m t' h g =
      elim (Option-cases
        (find? (λ i. i.id == id && i.invitee == actor && is_pending i.status) t.invitations)) [
          | inl e ↦ absurd (ground (arith, e, h))
          | inr (i, e) ↦
              rw (← ok-state (rw (respond_to_invitation, e) at h))
                (respond_found-Keeps now actor accept i t g)
        ]

  pub commit-Keeps :
      {A : Type 0} (t : Tables) (call : Result Error (A × Tables))
      → Keeps t call
      → P t.invite_codes
      → P (commit t call).invite_codes
  commit-Keeps t (ok (a, t')) keeps g = keeps a t' refl g
  commit-Keeps t (err e) keeps g = g
