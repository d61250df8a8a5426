-- ===== src/Workspaces/Services.antt =====
-- Invite codes, roles, removals and account deletion of app/workspaces/services.py, and the services
-- as calls on the tables.
use dotori.Prelude.{
  ℕ, ◌+◌, String, Bool, true, false, not, ◌&&◌, Option, none, some, List, [], ◌∷◌, any, find?,
  filter, map, take, leb, if◌then◌else◌, Result, ok, err, ◌>>=◌, ◌>>◌, require, raise_if,
}
use dotori.Prelude.Classes.{◌==◌, nat_eq, string_eq, elem}
use dotori.Prelude.Text.{codes, strip}
use dotori.Workspaces.{
  Error, validation_error, integrity_error, Kind, Role, is_admin, Workspace, Membership, InviteCode,
  Invitation, Tables, save_membership, delete_membership, has_other_admin, has_other_active,
  get_active, require_admin, create_workspace, join, invite_existing_user, respond_to_invitation,
}

-- `max_uses` and `expires_at` of a code, as its issuer gives them.
pub record Limits : Type 0 where
  pub max_uses : Option ℕ
  pub expires_at : Option ℕ

unfoldable pub is_expired : ℕ → InviteCode → Bool
is_expired now invite = elim invite.expires_at [ none ↦ false | some at ↦ leb at now ]

unfoldable pub is_used_up : InviteCode → Bool
is_used_up invite = elim invite.max_uses [ none ↦ false | some uses ↦ leb uses invite.use_count ]

unfoldable pub is_redeemable : ℕ → InviteCode → Bool
is_redeemable now invite =
    if not invite.is_active
    then false
    else if is_expired now invite
    then false
    else if is_used_up invite
    then false
    else true

-- The count of one more redemption, and the end of a code that reaches its limit.
unfoldable pub redeemed : InviteCode → InviteCode
redeemed invite =
    let counted = record invite { use_count = invite.use_count + 1 } in
    if is_used_up counted then record counted { is_active = false } else counted

unfoldable pub save_code : InviteCode → List InviteCode → List InviteCode
save_code row [] = []
save_code row (c ∷ cs) = if c.code_digest == row.code_digest then row ∷ cs else c ∷ save_code row cs

abbrev pub drop_workspace : List ℕ → Tables → Tables
drop_workspace gone t = record t {
  workspaces = filter (λ (w : Workspace). not (elem w.id gone)) t.workspaces;
  memberships = filter (λ (m : Membership). not (elem m.workspace gone)) t.memberships;
  invitations = filter (λ (i : Invitation). not (elem i.workspace gone)) t.invitations;
  invite_codes = filter (λ (c : InviteCode). not (elem c.workspace gone)) t.invite_codes;
}

-- `on_delete=SET_NULL` on a reference to a deleted user
abbrev pub unset : ℕ → Option ℕ → Option ℕ
unset user none = none
unset user (some u) = if u == user then none else some u

-- `user.delete()`: rows that belong to the user go, references to the user are cleared.
unfoldable pub delete_user : ℕ → Tables → Tables
delete_user user t = record t {
  workspaces =
      map (λ (w : Workspace). record w { created_by = unset user w.created_by }) t.workspaces;
  memberships =
      map (λ (m : Membership). record m { invited_by = unset user m.invited_by })
        (filter (λ (m : Membership). not (m.user == user)) t.memberships);
  invitations =
      map (λ (i : Invitation). record i { invited_by = unset user i.invited_by })
        (filter (λ (i : Invitation). not (i.invitee == user)) t.invitations);
  invite_codes =
      map (λ (c : InviteCode). record c { created_by = unset user c.created_by }) t.invite_codes;
}

-- The loop of `delete_account_with_personal_data`.
unfoldable pub solo_workspaces : List Membership → List Membership → Result Error (List ℕ)
solo_workspaces ms [] = ok []
solo_workspaces ms (m ∷ rest) = do
  raise_if (has_other_active m ms && is_admin m.role && not (has_other_admin m ms)) validation_error
  solo ← solo_workspaces ms rest
  if has_other_active m ms then ok solo else ok (m.workspace ∷ solo)

unfoldable pub delete_account : ℕ → Tables → Result Error (Unit {0} × Tables)
delete_account user t = do
  solo ←
      solo_workspaces t.memberships
        (filter (λ (m : Membership). m.user == user && m.is_active) t.memberships)
  ok (tt, delete_user user (drop_workspace solo t))

-- The guard on the last admin, for a role change.
abbrev pub demotes_last : Role → Membership → List Membership → Bool
demotes_last role m ms = is_admin m.role && not (is_admin role) && not (has_other_admin m ms)

-- The role is one of the two that the code allows.
unfoldable pub change_member_role : ℕ → ℕ → ℕ → Role → Tables → Result Error (Membership × Tables)
change_member_role workspace actor user role t = do
  _ ← require_admin workspace actor t
  m ← get_active workspace user t.memberships
  raise_if (demotes_last role m t.memberships) validation_error
  ok (
    record m { role = role },
    record t { memberships = save_membership (record m { role = role }) t.memberships },
  )

unfoldable pub remove_team_member : ℕ → ℕ → ℕ → Tables → Result Error (Unit {0} × Tables)
remove_team_member workspace actor user t = do
  _ ← require_admin workspace actor t
  m ← get_active workspace user t.memberships
  raise_if (is_admin m.role && not (has_other_admin m t.memberships)) validation_error
  ok (tt, record t { memberships = delete_membership m t.memberships })

module _ (digest : List ℕ → String) where
  unfoldable pub issue_invite_code :
      ℕ → ℕ → Limits → String → Tables → Result Error ((InviteCode × String) × Tables)
  issue_invite_code workspace actor limits token t = do
    _ ← require_admin workspace actor t
    let invite : InviteCode = record {
      workspace = workspace;
      code_digest = digest (codes token);
      code_prefix = take 8 (codes token);
      created_by = some actor;
      is_active = true;
      max_uses = limits.max_uses;
      use_count = 0;
      expires_at = limits.expires_at;
    }
    raise_if (any (λ c. c.code_digest == digest (codes token)) t.invite_codes) integrity_error
    ok ((invite, token), record t { invite_codes = invite ∷ t.invite_codes })

  abbrev pub or_empty : Option String → List ℕ
  or_empty none = []
  or_empty (some token) = codes token

  -- The redemption of the code that the token's digest finds.
  unfoldable pub redeem_found : ℕ → ℕ → InviteCode → Tables → Result Error (Membership × Tables)
  redeem_found now actor invite t = do
    require (is_redeemable now invite) validation_error
    let joined = join invite.workspace actor invite.created_by t.memberships
    ok (
      joined.0,
      record t {
        memberships = joined.1;
        invite_codes = save_code (redeemed invite) t.invite_codes;
      },
    )

  unfoldable pub redeem_invite_code :
      ℕ → ℕ → Option String → Tables → Result Error (Membership × Tables)
  redeem_invite_code now actor token t =
      elim (find? (λ c. c.code_digest == digest (strip (or_empty token))) t.invite_codes) [
        | none ↦ err validation_error
        | some invite ↦ redeem_found now actor invite t
      ]

-- A call of a service, with the clock and the token that it reads.
pub data Call : Type 0 where
  create : ℕ → String → Kind → Call
  invite : ℕ → ℕ → ℕ → Call
  respond : ℕ → ℕ → ℕ → Bool → Call
  issue : ℕ → ℕ → Limits → String → Call
  redeem : ℕ → ℕ → Option String → Call
  change_role : ℕ → ℕ → ℕ → Role → Call
  remove : ℕ → ℕ → ℕ → Call
  delete : ℕ → Call

-- The tables that a transaction leaves: an exception rolls it back.
abbrev pub commit : {A : Type 0} → Tables → Result Error (A × Tables) → Tables
commit t (ok (_, t')) = t'
commit t (err _) = t

unfoldable pub apply_call : (List ℕ → String) → Call → Tables → Tables
apply_call digest (create actor name kind) t = commit t (create_workspace actor name kind t)
apply_call digest (invite workspace actor invitee) t =
    commit t (invite_existing_user workspace actor invitee t)
apply_call digest (respond now id actor accept) t =
    commit t (respond_to_invitation now id actor accept t)
apply_call digest (issue workspace actor limits token) t =
    commit t (issue_invite_code digest workspace actor limits token t)
apply_call digest (redeem now actor token) t =
    commit t (redeem_invite_code digest now actor token t)
apply_call digest (change_role workspace actor user role) t =
    commit t (change_member_role workspace actor user role t)
apply_call digest (remove workspace actor user) t =
    commit t (remove_team_member workspace actor user t)
apply_call digest (delete user) t = commit t (delete_account user t)

unfoldable pub run_calls : (List ℕ → String) → List Call → Tables → Tables
run_calls digest [] t = t
run_calls digest (c ∷ calls) t = run_calls digest calls (apply_call digest c t)
