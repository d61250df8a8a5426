-- ===== src/Workspaces.antt =====
-- Workspaces, their members, invitations and invite codes: app/workspaces/services.py over the
-- tables of app/workspaces/models.py. A service returns its result beside the tables it leaves, or
-- the exception that rolls its transaction back. The unique constraint on a membership's workspace
-- and user makes that pair its key, where the code writes `pk`; an invite code's key is its digest.
-- The clock, the random token and SHA-256 are parameters.
pub mod Services
pub mod Governance
pub mod Codes
pub mod CodesKept
pub mod CodeRows
pub mod Redemptions
mod Tests
use dotori.Prelude.{
  ℕ, ◌+◌, String, Bool, true, false, not, ◌&&◌, ◌||◌, Option, none, some, List, [], ◌∷◌, any, find?,
  filter, map, take, leb, if◌then◌else◌, Result, ok, err, ◌>>=◌, ◌>>◌, require, raise_if,
}
use dotori.Prelude.Classes.{◌==◌, nat_eq, string_eq, elem}
use dotori.Prelude.Text.{codes, strip}

pub data Error : Type 0 where
  permission_denied validation_error does_not_exist integrity_error : Error

pub data Kind : Type 0 where
  personal team : Kind

pub data Role : Type 0 where
  admin member : Role

abbrev pub is_admin : Role → Bool
is_admin admin = true
is_admin member = false

pub record Workspace : Type 0 where
  pub id : ℕ
  pub name : List ℕ
  pub kind : Kind
  pub created_by : Option ℕ

-- `is_active` is the test `status == STATUS_ACTIVE`; the other status is pending.
pub record Membership : Type 0 where
  pub workspace : ℕ
  pub user : ℕ
  pub role : Role
  pub is_active : Bool
  pub invited_by : Option ℕ

pub record InviteCode : Type 0 where
  pub workspace : ℕ
  pub code_digest : String
  pub code_prefix : List ℕ
  pub created_by : Option ℕ
  pub is_active : Bool
  pub max_uses : Option ℕ
  pub use_count : ℕ
  pub expires_at : Option ℕ

pub data InvitationStatus : Type 0 where
  pending accepted declined : InvitationStatus

abbrev pub is_pending : InvitationStatus → Bool
is_pending pending = true
is_pending _ = false

pub record Invitation : Type 0 where
  pub id : ℕ
  pub workspace : ℕ
  pub invitee : ℕ
  pub invited_by : Option ℕ
  pub status : InvitationStatus
  pub responded_at : Option ℕ

-- The tables, and the next value of the identity sequences.
pub record Tables : Type 0 where
  pub workspaces : List Workspace
  pub memberships : List Membership
  pub invitations : List Invitation
  pub invite_codes : List InviteCode
  pub next_id : ℕ

abbrev pub has_key : ℕ → ℕ → Membership → Bool
has_key workspace user m = m.workspace == workspace && m.user == user

pub find_membership : ℕ → ℕ → List Membership → Option Membership
find_membership workspace user = find? (has_key workspace user)

-- `membership.save(...)` on the row of its key
pub save_membership : Membership → List Membership → List Membership
save_membership row [] = []
save_membership row (m ∷ ms) =
    if has_key row.workspace row.user m then row ∷ ms else m ∷ save_membership row ms

-- `membership.delete()`
pub delete_membership : Membership → List Membership → List Membership
delete_membership row [] = []
delete_membership row (m ∷ ms) =
    if has_key row.workspace row.user m then ms else m ∷ delete_membership row ms

-- A row of `filter(workspace=workspace, status=ACTIVE)`.
abbrev pub is_active_in : ℕ → Membership → Bool
is_active_in workspace m = m.workspace == workspace && m.is_active

abbrev pub is_admin_of : ℕ → Membership → Bool
is_admin_of workspace m = is_active_in workspace m && is_admin m.role

-- `other_admins.exists()`
pub has_other_admin : Membership → List Membership → Bool
has_other_admin row =
    any (λ m. is_admin_of row.workspace m && not (has_key row.workspace row.user m))

pub has_other_active : Membership → List Membership → Bool
has_other_active row =
    any (λ m. is_active_in row.workspace m && not (has_key row.workspace row.user m))

-- `objects.select_for_update().get(workspace, user, status=ACTIVE)`
pub get_active : ℕ → ℕ → List Membership → Result Error Membership
get_active workspace user ms = elim (find_membership workspace user ms) [
  | none ↦ err does_not_exist
  | some m ↦ if m.is_active then ok m else err does_not_exist
]

pub require_admin : ℕ → ℕ → Tables → Result Error Membership
require_admin workspace actor t = elim (find_membership workspace actor t.memberships) [
  | none ↦ err permission_denied
  | some m ↦ if m.is_active && is_admin m.role then ok m else err permission_denied
]

abbrev pub founder : ℕ → ℕ → Membership
founder workspace actor = record {
  workspace = workspace;
  user = actor;
  role = admin;
  is_active = true;
  invited_by = none;
}

-- The kind is one of the two that the code allows.
pub create_workspace : ℕ → String → Kind → Tables → Result Error (Workspace × Tables)
create_workspace actor name kind t =
    let w : Workspace = record {
      id = t.next_id;
      name = strip (codes name);
      kind = kind;
      created_by = some actor;
    } in
    ok (
      w,
      record t {
        workspaces = w ∷ t.workspaces;
        memberships = founder t.next_id actor ∷ t.memberships;
        next_id = t.next_id + 1;
      },
    )

abbrev pub new_member : ℕ → ℕ → Option ℕ → Membership
new_member workspace user invited_by = record {
  workspace = workspace;
  user = user;
  role = member;
  is_active = true;
  invited_by = invited_by;
}

-- `get_or_create` of an ordinary membership, and the repair of one that is not active.
pub join : ℕ → ℕ → Option ℕ → List Membership → Membership × List Membership
join workspace user invited_by ms = elim (find_membership workspace user ms) [
  | none ↦ (new_member workspace user invited_by, new_member workspace user invited_by ∷ ms)
  | some m ↦ if m.is_active then (m, ms) else (
    new_member workspace user invited_by,
    save_membership (new_member workspace user invited_by) ms,
  )
]

pub pending_for : ℕ → ℕ → List Invitation → Option Invitation
pending_for workspace invitee =
    find? (λ i. i.workspace == workspace && i.invitee == invitee && is_pending i.status)

abbrev pub is_member_now : ℕ → ℕ → List Membership → Bool
is_member_now workspace user = any (λ m. has_key workspace user m && m.is_active)

pub invite_existing_user : ℕ → ℕ → ℕ → Tables → Result Error (Invitation × Tables)
invite_existing_user workspace actor invitee t = do
  _ ← require_admin workspace actor t
  raise_if (is_member_now workspace invitee t.memberships) validation_error
  elim (pending_for workspace invitee t.invitations) [
    | some existing ↦ ok (existing, t)
    | none ↦
        let i : Invitation = record {
          id = t.next_id;
          workspace = workspace;
          invitee = invitee;
          invited_by = some actor;
          status = pending;
          responded_at = none;
        } in
        ok (i, record t { invitations = i ∷ t.invitations; next_id = t.next_id + 1 })
  ]

pub save_invitation : Invitation → List Invitation → List Invitation
save_invitation row [] = []
save_invitation row (i ∷ is) = if i.id == row.id then row ∷ is else i ∷ save_invitation row is

-- The row that `respond_to_invitation` saves.
abbrev pub answered : ℕ → Bool → Invitation → Invitation
answered now accept i = record i {
  status = if accept then accepted else declined;
  responded_at = some now;
}

-- The writes of `respond_to_invitation`, once the invitation is found.
pub respond_found : ℕ → ℕ → Bool → Invitation → Tables → (Invitation × Option Membership) × Tables
respond_found now actor true i t =
    let joined = join i.workspace actor i.invited_by t.memberships in
    (
      (answered now true i, some joined.0),
      record t {
        invitations = save_invitation (answered now true i) t.invitations;
        memberships = joined.1;
      },
    )
respond_found now actor false i t = (
  (answered now false i, none),
  record t { invitations = save_invitation (answered now false i) t.invitations },
)

pub respond_to_invitation :
    ℕ → ℕ → ℕ → Bool → Tables → Result Error ((Invitation × Option Membership) × Tables)
respond_to_invitation now invitation_id actor accept t =
    elim (find? (λ i. i.id == invitation_id && i.invitee == actor && is_pending i.status)
      t.invitations) [
        | none ↦ err does_not_exist
        | some i ↦ ok (respond_found now actor accept i t)
      ]
