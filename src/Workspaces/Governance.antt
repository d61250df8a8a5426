-- ===== src/Workspaces/Governance.antt =====
-- The administration of workspaces under the services of app/workspaces/services.py.
pub mod Deletion
use dotori.Prelude.{
  ℕ, String, ◌≡◌, ◌≢◌, refl, Bool, true, false, not, ◌&&◌, ◌||◌, Option, none, some, List, [], ◌∷◌,
  any, filter, map, find?, require, find?-holds, find?-Member, arith, Bool-cases, Option-cases, inl,
  inr, ◌⊎◌, ok, err, Result, ◌>>=◌, bind-eq-ok, ok-state, raise_if, raise_if-eq-ok, All, Member,
  Member-All, All-of_Member, Member-filter, filter-Member, any→Member, any_mono, if◌then◌else◌,
}
use dotori.Prelude.Classes.{◌==◌, nat_eq, string_eq, elem}
use dotori.Prelude.Text.{codes, strip}
use dotori.Workspaces.{
  Error, Kind, Role, admin, member, is_admin, Workspace, Membership, InviteCode, Invitation,
  answered, is_pending, save_invitation, Tables, has_key, find_membership, save_membership,
  delete_membership, is_active_in, is_admin_of, has_other_admin, has_other_active, get_active,
  require_admin, join, new_member, founder, create_workspace, invite_existing_user, pending_for,
  is_member_now, respond_to_invitation, respond_found,
}
use dotori.Workspaces.Governance.Deletion.{delete_account-governed}
use dotori.Workspaces.Services.{
  Limits, is_redeemable, redeemed, save_code, or_empty, solo_workspaces, delete_account,
  delete_user, drop_workspace, unset, change_member_role, remove_team_member, demotes_last,
  issue_invite_code, redeem_invite_code, redeem_found, Call, create, invite, respond, issue, redeem,
  change_role, remove, delete, commit, apply_call, run_calls,
}

-- An active administrator of a workspace is among the members.
abbrev pub has_admin : ℕ → List Membership → Bool
has_admin w = any (is_admin_of w)

abbrev pub Governed : Tables → Type 0
Governed t = All (λ (w : Workspace). has_admin w.id t.memberships ≡ true) t.workspaces

-- One who is not the member of the given row.
abbrev has_admin_besides : ℕ → Membership → List Membership → Bool
has_admin_besides w row = any (λ m. is_admin_of w m && not (has_key row.workspace row.user m))

besides-any :
    (w : ℕ) (row : Membership) (ms : List Membership)
    → has_admin_besides w row ms ≡ true
    → has_admin w ms ≡ true
besides-any w row ms h = any_mono _ (is_admin_of w) ms (λ m at. ground (arith, at)) h

besides-save :
    (w : ℕ) (row : Membership) (ms : List Membership)
    → has_admin_besides w row ms ≡ true
    → has_admin w (save_membership row ms) ≡ true
unfolding save_membership
besides-save w row [] h = cc
besides-save w row (m ∷ ms) h = elim (Bool-cases (has_key row.workspace row.user m)) [
  | inl here ↦ rw here (ground (arith, besides-any w row ms (ground (arith, h, here))))
  | inr there ↦ rw there (ground (arith, h, besides-save w row ms))
]

besides-delete :
    (w : ℕ) (row : Membership) (ms : List Membership)
    → has_admin_besides w row ms ≡ true
    → has_admin w (delete_membership row ms) ≡ true
unfolding delete_membership
besides-delete w row [] h = cc
besides-delete w row (m ∷ ms) h = elim (Bool-cases (has_key row.workspace row.user m)) [
  | inl here ↦ rw here (besides-any w row ms (ground (arith, h, here)))
  | inr there ↦ rw there (ground (arith, h, besides-delete w row ms))
]

besides_elsewhere :
    (w : ℕ) (row : Membership) (ms : List Membership)
    → w ≢ row.workspace
    → has_admin w ms ≡ true
    → has_admin_besides w row ms ≡ true
besides_elsewhere w row ms other h =
    any_mono (is_admin_of w) _ ms (λ m at. ground (arith, other, at)) h

-- A save that takes no administration from the row of its key.
admin-save :
    (w : ℕ) (old row : Membership) (ms : List Membership)
    → find_membership row.workspace row.user ms ≡ some old
    → (is_admin_of w old ≡ true → is_admin_of w row ≡ true)
    → has_admin w ms ≡ true
    → has_admin w (save_membership row ms) ≡ true
unfolding save_membership find_membership
admin-save w old row [] found keeps h = cc
admin-save w old row (m ∷ ms) found keeps h = elim (Bool-cases (has_key row.workspace row.user m)) [
  | inl here ↦
      let same : m ≡ old = ground (arith, here, found) in
      elim (Bool-cases (is_admin_of w old)) [
        | inl was ↦ rw (here, keeps was)
        | inr not_admin ↦
            let rest : has_admin w ms ≡ true = ground (arith, rw same at h, not_admin) in
            rw here (ground (arith, rest))
      ]
  | inr there ↦ elim (Bool-cases (is_admin_of w m)) [
    | inl first ↦ rw (there, first)
    | inr second ↦
        rw (there, second) (admin-save w old row ms (rw there at found) keeps (rw second at h))
  ]
]

admin-delete :
    (w : ℕ) (old : Membership) (ms : List Membership)
    → find_membership old.workspace old.user ms ≡ some old
    → is_admin old.role ≡ false
    → has_admin w ms ≡ true
    → has_admin w (delete_membership old ms) ≡ true
unfolding delete_membership find_membership
admin-delete w old [] found plain h = cc
admin-delete w old (m ∷ ms) found plain h = elim (Bool-cases (has_key old.workspace old.user m)) [
  | inl here ↦
      let same : m ≡ old = ground (arith, here, found) in
      let not_admin : is_admin_of w old ≡ false = ground (arith, plain) in
      rw here (ground (arith, rw same at h, not_admin))
  | inr there ↦ elim (Bool-cases (is_admin_of w m)) [
    | inl first ↦ rw (there, first)
    | inr second ↦
        rw (there, second) (admin-delete w old ms (rw there at found) plain (rw second at h))
  ]
]

found_key :
    (w u : ℕ) (ms : List Membership) (m : Membership)
    → find_membership w u ms ≡ some m
    → (m.workspace ≡ w) × (m.user ≡ u)
unfolding find_membership
found_key w u ms m h =
    let holds = find?-holds (has_key w u) ms m h in (ground (arith, holds), ground (arith, holds))

has_admin-join :
    (w workspace user : ℕ) (by : Option ℕ) (ms : List Membership)
    → has_admin w ms ≡ true
    → has_admin w (join workspace user by ms).1 ≡ true
unfolding join
has_admin-join w workspace user by ms h = elim (Option-cases (find_membership workspace user ms)) [
  | inl e ↦ rw (join, e) (ground (arith, h))
  | inr (m, e) ↦ elim (Bool-cases m.is_active) [
    | inl active ↦ rw (join, e, active) h
    | inr inactive ↦
        rw (join, e, inactive)
          (admin-save w m (new_member workspace user by) ms e (λ at. ground (arith, at, inactive))
            h)
  ]
]

get_active-found :
    (w u : ℕ) (ms : List Membership) (m : Membership)
    → get_active w u ms ≡ ok m
    → (find_membership w u ms ≡ some m) × (m.is_active ≡ true)
unfolding get_active
get_active-found w u ms m h = elim (Option-cases (find_membership w u ms)) [
  | inl e ↦ absurd (ground (arith, e, h))
  | inr (x, e) ↦
      let h' : (if x.is_active then ok x else err Error.does_not_exist) ≡ ok m =
        rw (get_active, e) at h in
      (ground (arith, e, h'), ground (arith, h'))
]

module _ (t t' : Tables) where
  abbrev Keeps : Type 0
  Keeps = (w : ℕ) → has_admin w t.memberships ≡ true → has_admin w t'.memberships ≡ true

  -- Tables with the same workspaces, whose administrations all stay.
  Governed-still : t'.workspaces ≡ t.workspaces → Keeps → Governed t → Governed t'
  Governed-still same keeps g =
      rw same (All-of_Member _ t.workspaces (λ w at. keeps w.id (Member-All _ t.workspaces w g at)))

other_admin-besides :
    (w : ℕ) (row : Membership) (ms : List Membership)
    → w ≡ row.workspace
    → has_other_admin row ms ≡ true
    → has_admin_besides w row ms ≡ true
unfolding has_other_admin
other_admin-besides w row ms e h = rw e h

role-keeps :
    (old : Membership) (role : Role) (ms : List Membership)
    → find_membership old.workspace old.user ms ≡ some old
    → demotes_last role old ms ≡ false
    → (w : ℕ) → has_admin w ms ≡ true
    → has_admin w (save_membership (record old { role = role }) ms) ≡ true
role-keeps old role ms found unguarded w a = elim (Bool-cases (w == old.workspace)) [
  | inr other ↦ besides-save w row ms (besides_elsewhere w old ms (ground (arith, other)) a)
  | inl here ↦ elim (Bool-cases (is_admin old.role && not (is_admin role))) [
    | inl demoted ↦
        besides-save w row ms
          (other_admin-besides w old ms (ground (arith, here)) (ground (arith, demoted, unguarded)))
    | inr not_demoted ↦ admin-save w old row ms found (λ at. ground (arith, at, not_demoted)) a
  ]
]
  where
    row : Membership
    row = record old { role = role }

removal-keeps :
    (old : Membership) (ms : List Membership)
    → find_membership old.workspace old.user ms ≡ some old
    → (is_admin old.role && not (has_other_admin old ms)) ≡ false
    → (w : ℕ) → has_admin w ms ≡ true
    → has_admin w (delete_membership old ms) ≡ true
removal-keeps old ms found unguarded w a = elim (Bool-cases (w == old.workspace)) [
  | inr other ↦ besides-delete w old ms (besides_elsewhere w old ms (ground (arith, other)) a)
  | inl here ↦ elim (Bool-cases (is_admin old.role)) [
    | inl was ↦
        besides-delete w old ms
          (other_admin-besides w old ms (ground (arith, here)) (ground (arith, was, unguarded)))
    | inr plain ↦ admin-delete w old ms found plain a
  ]
]

-- The call returns a value and tables that keep what is governed.
abbrev KeepsGoverned : {A : Type 0} → Tables → Result Error (A × Tables) → Type 0
KeepsGoverned {A} t call = (a : A) (t' : Tables) → call ≡ ok (a, t') → Governed t → Governed t'

change_member_role-keeps :
    (workspace actor user : ℕ) (role : Role) (t : Tables)
    → KeepsGoverned t (change_member_role workspace actor user role t)
unfolding change_member_role
change_member_role-keeps workspace actor user role t m t' h g =
    let ms = t.memberships in
    let (_, allowed, h1) = bind-eq-ok (require_admin workspace actor t) _ h in
    let (old, got, h2) = bind-eq-ok (get_active workspace user ms) _ h1 in
    let (found, active) = get_active-found workspace user ms old got in
    let (at_w, at_u) = found_key workspace user ms old found in
    let (_, guard, h3) =
      bind-eq-ok (raise_if (demotes_last role old ms) Error.validation_error) _ h2 in
    let row : Membership = record old { role = role } in
    let keeps = role-keeps old role ms (rw (at_w, at_u) found) (raise_if-eq-ok _ _ guard) in
    rw (← ok-state h3)
      (Governed-still t (record t { memberships = save_membership row ms }) refl keeps g)

remove_team_member-keeps :
    (workspace actor user : ℕ) (t : Tables)
    → KeepsGoverned t (remove_team_member workspace actor user t)
unfolding remove_team_member
remove_team_member-keeps workspace actor user t m t' h g =
    let ms = t.memberships in
    let (_, allowed, h1) = bind-eq-ok (require_admin workspace actor t) _ h in
    let (old, got, h2) = bind-eq-ok (get_active workspace user ms) _ h1 in
    let (found, active) = get_active-found workspace user ms old got in
    let (at_w, at_u) = found_key workspace user ms old found in
    let (_, guard, h3) =
      bind-eq-ok
        (raise_if (is_admin old.role && not (has_other_admin old ms)) Error.validation_error) _
        h2 in
    let keeps = removal-keeps old ms (rw (at_w, at_u) found) (raise_if-eq-ok _ _ guard) in
    rw (← ok-state h3)
      (Governed-still t (record t { memberships = delete_membership old ms }) refl keeps g)

create_workspace-keeps :
    (actor : ℕ) (name : String) (kind : Kind) (t : Tables)
    → KeepsGoverned t (create_workspace actor name kind t)
unfolding create_workspace
create_workspace-keeps actor name kind t w t' h g =
    let ms = founder t.next_id actor ∷ t.memberships in
    let old : All (λ (w : Workspace). has_admin w.id ms ≡ true) t.workspaces =
      All-of_Member _ t.workspaces (λ w at. ground (arith, Member-All _ t.workspaces w g at)) in
    rw (← ok-state h) (ground arith, old)

invite_existing_user-keeps :
    (workspace actor invitee : ℕ) (t : Tables)
    → KeepsGoverned t (invite_existing_user workspace actor invitee t)
unfolding invite_existing_user
invite_existing_user-keeps workspace actor invitee t i t' h g =
    let (_, allowed, h1) = bind-eq-ok (require_admin workspace actor t) _ h in
    let (_, fresh, h2) =
      bind-eq-ok (raise_if (is_member_now workspace invitee t.memberships) Error.validation_error) _
        h1 in
    elim (Option-cases (pending_for workspace invitee t.invitations)) [
      | inl e ↦ rw (← ok-state (rw e at h2)) g
      | inr (x, e) ↦ rw (← ok-state (rw e at h2)) g
    ]

issue_invite_code-keeps :
    (digest : List ℕ → String) (workspace actor : ℕ) (limits : Limits) (token : String) (t : Tables)
    → KeepsGoverned t (issue_invite_code digest workspace actor limits token t)
unfolding issue_invite_code
issue_invite_code-keeps digest workspace actor limits token t i t' h g =
    let (_, allowed, h1) = bind-eq-ok (require_admin workspace actor t) _ h in
    let (_, fresh, h2) =
      bind-eq-ok
        (raise_if (any (λ c. c.code_digest == digest (codes token)) t.invite_codes)
          Error.integrity_error)
        _ h1 in
    rw (← ok-state h2) g

redeem_found-keeps :
    (digest : List ℕ → String) (now actor : ℕ) (code : InviteCode) (t : Tables)
    → KeepsGoverned t (redeem_found digest now actor code t)
unfolding redeem_found
redeem_found-keeps digest now actor code t m t' h g =
    let (_, usable, h1) =
      bind-eq-ok (require (is_redeemable now code) Error.validation_error) _ h in
    let joined = join code.workspace actor code.created_by t.memberships in
    let after : Tables = record t {
      memberships = joined.1;
      invite_codes = save_code (redeemed code) t.invite_codes;
    } in
    let keeps = (λ (w : ℕ). has_admin-join w code.workspace actor code.created_by t.memberships) in
    rw (← ok-state h1) (Governed-still t after refl keeps g)

redeem_invite_code-keeps :
    (digest : List ℕ → String) (now actor : ℕ) (token : Option String) (t : Tables)
    → KeepsGoverned t (redeem_invite_code digest now actor token t)
unfolding redeem_invite_code
redeem_invite_code-keeps digest now actor token t m t' h g =
    elim (Option-cases
      (find? (λ c. c.code_digest == digest (strip (or_empty digest token))) t.invite_codes)) [
        | inl e ↦ absurd (ground (arith, e, h))
        | inr (code, e) ↦
            redeem_found-keeps digest now actor code t m t' (rw (redeem_invite_code, e) at h) g
      ]

respond_found-Governed :
    (now actor : ℕ) (accept : Bool) (i : Invitation) (t : Tables)
    → Governed t
    → Governed (respond_found now actor accept i t).1
unfolding respond_found
respond_found-Governed now actor true i t g =
    let after : Tables = (respond_found now actor true i t).1 in
    Governed-still t after refl (λ w. has_admin-join w i.workspace actor i.invited_by t.memberships)
      g
respond_found-Governed now actor false i t g = g

respond_to_invitation-keeps :
    (now id actor : ℕ) (accept : Bool) (t : Tables)
    → KeepsGoverned t (respond_to_invitation now id actor accept t)
unfolding respond_to_invitation
respond_to_invitation-keeps now id actor accept t m t' h g =
    elim (Option-cases
      (find? (λ i. i.id == id && i.invitee == actor && is_pending i.status) t.invitations)) [
        | inl e ↦ absurd (ground (arith, e, h))
        | inr (i, e) ↦
            rw (← ok-state (rw (respond_to_invitation, e) at h))
              (respond_found-Governed now actor accept i t g)
      ]

delete_account-keeps : (user : ℕ) (t : Tables) → KeepsGoverned t (delete_account user t)
delete_account-keeps user t u t' h g = delete_account-governed user t h g

commit-Governed :
    {A : Type 0} (t : Tables) (call : Result Error (A × Tables))
    → KeepsGoverned t call
    → Governed t
    → Governed (commit t call)
commit-Governed t (ok (a, t')) keeps g = keeps a t' refl g
commit-Governed t (err e) keeps g = g

module _ (digest : List ℕ → String) where
  apply_call-Governed : (c : Call) (t : Tables) → Governed t → Governed (apply_call digest c t)
  unfolding apply_call
  apply_call-Governed (create actor name kind) t =
      commit-Governed t _ (create_workspace-keeps actor name kind t)
  apply_call-Governed (invite workspace actor invitee) t =
      commit-Governed t _ (invite_existing_user-keeps workspace actor invitee t)
  apply_call-Governed (respond now id actor accept) t =
      commit-Governed t _ (respond_to_invitation-keeps now id actor accept t)
  apply_call-Governed (issue workspace actor limits token) t =
      commit-Governed t _ (issue_invite_code-keeps digest workspace actor limits token t)
  apply_call-Governed (redeem now actor token) t =
      commit-Governed t _ (redeem_invite_code-keeps digest now actor token t)
  apply_call-Governed (change_role workspace actor user role) t =
      commit-Governed t _ (change_member_role-keeps workspace actor user role t)
  apply_call-Governed (remove workspace actor user) t =
      commit-Governed t _ (remove_team_member-keeps workspace actor user t)
  apply_call-Governed (delete user) t = commit-Governed t _ (delete_account-keeps user t)

-- Whatever the services are called with, a workspace that exists has an active administrator, if
-- all workspaces had one at first.
pub run_calls-Governed :
    (digest : List ℕ → String) (calls : List Call) (t : Tables)
    → Governed t
    → Governed (run_calls digest calls t)
unfolding run_calls
run_calls-Governed digest [] t g = g
run_calls-Governed digest (c ∷ calls) t g =
    run_calls-Governed digest calls (apply_call digest c t) (apply_call-Governed digest c t g)
