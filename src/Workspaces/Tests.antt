-- ===== src/Workspaces/Tests.antt =====
-- The workspace services on one team.
use dotori.Prelude.{
  ℕ, String, ◌≡◌, refl, true, false, none, some, List, [], ◌∷◌, ok, err, arith, inl, ◌≤◌, ◌+◌,
}
use dotori.Prelude.Classes.{nat_eq, string_eq, list_eq}
use dotori.Workspaces.{
  validation_error, admin, team, Membership, InviteCode, Tables, founder, new_member,
  find_membership, save_membership, delete_membership, has_other_admin, has_other_active,
  get_active, require_admin, create_workspace, join, invite_existing_user, pending_for,
  save_invitation, respond_found, respond_to_invitation,
}
use dotori.Workspaces.Services.{
  is_expired, is_used_up, is_redeemable, redeemed, save_code, delete_user, solo_workspaces,
  delete_account, change_member_role, remove_team_member, issue_invite_code, redeem_found,
  redeem_invite_code, Call, create, redeem, change_role, remove, delete, apply_call, run_calls,
}
use dotori.Workspaces.Governance.{Governed, run_calls-Governed}
use dotori.Workspaces.Codes.{redeem_found-joined}
use dotori.Workspaces.CodeRows.{HasCode}
use dotori.Workspaces.Redemptions.{redemptions, redemptions_bounded}

program : Unit {0}
unfolding find_membership save_membership delete_membership has_other_admin has_other_active
    get_active require_admin create_workspace join invite_existing_user pending_for save_invitation
    respond_found respond_to_invitation is_expired is_used_up is_redeemable redeemed save_code
    delete_user solo_workspaces delete_account change_member_role remove_team_member
    issue_invite_code redeem_found redeem_invite_code apply_call run_calls
program = tt

abbrev ada : ℕ
ada = 1

abbrev bob : ℕ
bob = 2

abbrev code : InviteCode
code = record {
  workspace = 7;
  code_digest = "d";
  code_prefix = [];
  created_by = some ada;
  is_active = true;
  max_uses = some 1;
  use_count = 0;
  expires_at = none;
}

abbrev tables : Tables
tables = record {
  workspaces = record { id = 7; name = []; kind = team; created_by = some ada } ∷ [];
  memberships = founder 7 ada ∷ [];
  invitations = [];
  invite_codes = code ∷ [];
  next_id = 8;
}

-- Every token of these tests has the digest of the one code.
abbrev digest : List ℕ → String
digest token = "d"

abbrev bob_in : Tables
bob_in = record tables {
  memberships = new_member 7 bob (some ada) ∷ founder 7 ada ∷ [];
  invite_codes = record code { use_count = 1; is_active = false } ∷ [];
}

bob_redeems : redeem_found digest 10 bob code tables ≡ ok (new_member 7 bob (some ada), bob_in)
unfolding program
bob_redeems = refl

used_up : redeem_invite_code digest 11 3 (some "t") bob_in ≡ err validation_error
unfolding program
used_up = refl

last_admin_stays : remove_team_member 7 ada ada bob_in ≡ err validation_error
unfolding program
last_admin_stays = refl

last_admin_account_stays : delete_account ada bob_in ≡ err validation_error
unfolding program
last_admin_account_stays = refl

abbrev calls : List Call
calls =
    redeem 10 bob (some "t")
    ∷ redeem 11 3 (some "t")
    ∷ change_role 7 ada bob admin
    ∷ remove 7 bob ada
    ∷ delete bob
    ∷ create 3 " a " team
    ∷ []

run_calls-Governed_example : Governed (run_calls digest calls tables)
run_calls-Governed_example = run_calls-Governed digest calls tables (refl, tt)

tables_code : HasCode "d" 1 0 tables.invite_codes
unfolding HasCode
tables_code = inl (refl, refl, omega arith, tt)

redemptions_bounded_example : 0 + redemptions digest "d" calls tables ≤ 1
redemptions_bounded_example =
    redemptions_bounded digest "d" 1 0 calls tables refl tables_code (omega arith)

calls_redeem : redemptions digest "d" calls tables ≡ 1
unfolding program redemptions
calls_redeem = refl

redeem_found-joined_example :
    (find_membership 7 bob bob_in.memberships ≡ some (new_member 7 bob (some ada)))
    × (true ≡ true)
    × ((old : Membership)
        → find_membership 7 bob tables.memberships ≡ some old
        → old.is_active ≡ true
        → new_member 7 bob (some ada) ≡ old)
redeem_found-joined_example = redeem_found-joined digest 10 bob code tables bob_redeems
