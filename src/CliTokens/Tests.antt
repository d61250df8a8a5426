-- ===== src/CliTokens/Tests.antt =====
-- A read-only token of one account.
use dotori.Prelude.{
  ℕ, String, ◌≡◌, refl, true, false, Option, none, some, List, [], ◌∷◌, ok, err, if◌then◌else◌,
}
use dotori.Prelude.Classes.{string_eq, nat_eq, elem}
use dotori.Prelude.Text.{codes}
use dotori.CliTokens.{
  scope_required, authentication_required, status_of, read_only, User, CliToken, Membership,
  Accounts, lacks_scope, cli_token_scopes, cli_token_access_level, find_user, touch, check_token,
  issue_cli_token, find_token, authenticate_found, authenticate_cli_token, split_from, bearer_of,
  bearer_token, resolve_workspace, Request, Session, open_workspace, cli_token_required,
}
use dotori.CliTokens.Access.{
  IsEntitled, IsMemberSession, cli_token_required-IsEntitled, issue-authenticate,
}

program : Unit {0}
unfolding status_of cli_token_scopes cli_token_access_level find_user touch check_token
    issue_cli_token find_token authenticate_found authenticate_cli_token split_from bearer_of
    bearer_token resolve_workspace open_workspace cli_token_required
program = tt

-- The digest of a token of these tests does not depend on it.
abbrev digest : List ℕ → String
digest raw = "h"

abbrev uuid : List ℕ → Option String
uuid text = none

abbrev ada : User
ada = record { id = 1; is_active = true; email_verified = true }

abbrev home : Membership
home = record { user = 1; is_active = true; workspace_uid = "u"; is_personal = true }

abbrev accounts : Accounts
accounts = record { users = ada ∷ []; tokens = []; memberships = home ∷ [] }

abbrev raw_token : List ℕ
raw_token = codes "dtr_cli_abc"

abbrev reader : CliToken
reader = record {
  user = 1;
  name = "laptop";
  key_hash = "h";
  prefix = raw_token;
  scopes = "documents:read" ∷ "search" ∷ "rag" ∷ "status:read" ∷ [];
  last_used_at = none;
  is_active = true;
}

abbrev issued : Accounts
issued = record accounts { tokens = reader ∷ [] }

issues :
    issue_cli_token digest (codes "abc") 1 "laptop" read_only accounts
    ≡ ok ((reader, raw_token), issued)
unfolding program
issues = refl

ada_found : find_user 1 accounts.users ≡ some ada
unfolding program
ada_found = refl

issue-authenticate_example :
    authenticate_cli_token digest 5 raw_token (some "documents:write") issued ≡ (
      if elem "documents:write" (cli_token_scopes read_only)
      then ok ((ada, reader), record issued { tokens = touch 5 "h" issued.tokens })
      else err scope_required)
issue-authenticate_example =
    issue-authenticate digest (codes "abc") "laptop" read_only accounts ada 5 "documents:write"
      reader raw_token issued refl issues ada_found refl refl

write_refused :
    authenticate_cli_token digest 5 raw_token (some "documents:write") issued ≡ err scope_required
unfolding program
write_refused = refl

refused_with : status_of scope_required ≡ 403
unfolding program
refused_with = refl

abbrev request : Request
request = record { authorization = codes "Bearer dtr_cli_abc"; workspace = [] }

abbrev session : Session
session = record { user = ada; token = reader; membership = some home }

searches : cli_token_required digest uuid 5 (some "search") request issued ≡ ok session
unfolding program
searches = refl

no_bearer :
    cli_token_required digest uuid 5
      (some "search")
      (record request { authorization = codes "Basic x" })
      issued
    ≡ err authentication_required
unfolding program
no_bearer = refl

cli_token_required-IsEntitled_example :
    IsEntitled digest (bearer_token (codes "Bearer dtr_cli_abc")) (some "search") issued ada reader
    × IsMemberSession (some "search") issued session
cli_token_required-IsEntitled_example =
    cli_token_required-IsEntitled digest uuid 5 (some "search") request issued session searches

-- The view of the token's own identity requires no scope.
identifies :
    cli_token_required digest uuid 5 none request issued ≡ ok (record session { membership = none })
unfolding program
identifies = refl

empty_scope : lacks_scope (some "") reader ≡ false
empty_scope = refl
