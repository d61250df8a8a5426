-- ===== src/CliTokens.antt =====
-- Bearer tokens of the command line client: app/accounts/cli_tokens.py over `CLIToken` of
-- app/accounts/models.py. A text of a request or a token is the list of its code points. SHA-256,
-- the random part of a token, the clock and the reading of a workspace's UUID are parameters.
pub mod Access
mod Tests
use dotori.Prelude.{
  ℕ, ◌+◌, String, Bool, true, false, not, ◌&&◌, ◌||◌, Option, none, some, List, [], ◌∷◌, ◌++◌, any,
  find?, take, leb, if◌then◌else◌, Result, ok, err, ◌>>=◌, ◌>>◌, require, raise_if,
}
use dotori.Prelude.Classes.{◌==◌, nat_eq, string_eq, list_eq, elem}
use dotori.Prelude.Text.{codes, strip, is_space, nonempty}

-- The exceptions, each with its code; the last is the unique constraint on `key_hash`.
pub data Error : Type 0 where
  authentication_required invalid_cli_token account_inactive email_verification_required
        scope_required workspace_access_denied integrity_error :
      Error

-- `status`
pub status_of : Error → ℕ
status_of authentication_required = 401
status_of invalid_cli_token = 401
status_of integrity_error = 500
status_of _ = 403

pub data AccessLevel : Type 0 where
  read_only read_write : AccessLevel

pub record User : Type 0 where
  pub id : ℕ
  pub is_active : Bool
  pub email_verified : Bool

pub record CliToken : Type 0 where
  pub user : ℕ
  pub name : String
  pub key_hash : String
  pub prefix : List ℕ
  pub scopes : List String
  pub last_used_at : Option ℕ
  pub is_active : Bool

-- A membership with the fields of its workspace that a request can select by.
pub record Membership : Type 0 where
  pub user : ℕ
  pub is_active : Bool
  pub workspace_uid : String
  pub is_personal : Bool

pub record Accounts : Type 0 where
  pub users : List User
  pub tokens : List CliToken
  pub memberships : List Membership

abbrev pub cli_token_prefix : List ℕ
cli_token_prefix = codes "dtr_cli_"

pub cli_token_scopes : AccessLevel → List String
cli_token_scopes read_only = "documents:read" ∷ "search" ∷ "rag" ∷ "status:read" ∷ []
cli_token_scopes read_write =
    "documents:read" ∷ "search" ∷ "rag" ∷ "status:read" ∷ "documents:write" ∷ []

pub cli_token_access_level : CliToken → AccessLevel
cli_token_access_level token = if elem "documents:write" token.scopes then read_write else read_only

-- `startswith`
abbrev pub starts_with : List ℕ → List ℕ → Bool
starts_with [] cs = true
starts_with (p ∷ ps) [] = false
starts_with (p ∷ ps) (c ∷ cs) = p == c && starts_with ps cs

pub find_user : ℕ → List User → Option User
find_user id = find? (λ (u : User). u.id == id)

-- `update(last_used_at=...)` on the row of the token's key
pub touch : ℕ → String → List CliToken → List CliToken
touch now key [] = []
touch now key (t ∷ ts) =
    (if t.key_hash == key then record t { last_used_at = some now } else t) ∷ touch now key ts

-- `required_scope and not token.has_scope(required_scope)`
abbrev pub lacks_scope : Option String → CliToken → Bool
lacks_scope none token = false
lacks_scope (some scope) token = nonempty scope && not (elem scope token.scopes)

-- The checks on a token that was found, with its account.
pub check_token : Option String → User → CliToken → Result Error (Unit {0})
check_token required_scope user token = do
  require user.is_active account_inactive
  require user.email_verified email_verification_required
  raise_if (lacks_scope required_scope token) scope_required

module _ (hash : List ℕ → String) where
  pub issue_cli_token :
      List ℕ → ℕ → String → AccessLevel → Accounts → Result Error ((CliToken × List ℕ) × Accounts)
  issue_cli_token random user name access_level accounts =
      let raw = cli_token_prefix ++ random in
      let token : CliToken = record {
        user = user;
        name = name;
        key_hash = hash raw;
        prefix = take 16 raw;
        scopes = cli_token_scopes access_level;
        last_used_at = none;
        is_active = true;
      } in
      if any (λ (t : CliToken). t.key_hash == hash raw) accounts.tokens
      then err integrity_error
      else ok ((token, raw), record accounts { tokens = token ∷ accounts.tokens })

  -- `get(key_hash=..., is_active=True)` with its account; a token's account always exists.
  pub find_token : List ℕ → Accounts → Option CliToken
  find_token raw accounts =
      find? (λ (t : CliToken). t.key_hash == hash raw && t.is_active) accounts.tokens

  pub authenticate_found :
      ℕ
      → Option String
      → Accounts
      → CliToken
      → Option User
      → Result Error ((User × CliToken) × Accounts)
  authenticate_found now required_scope accounts token none = err invalid_cli_token
  authenticate_found now required_scope accounts token (some user) = do
    check_token required_scope user token
    ok ((user, token), record accounts { tokens = touch now token.key_hash accounts.tokens })

  pub authenticate_cli_token :
      ℕ → List ℕ → Option String → Accounts → Result Error ((User × CliToken) × Accounts)
  authenticate_cli_token now raw required_scope accounts =
      if not (starts_with cli_token_prefix raw)
      then err invalid_cli_token
      else elim (find_token raw accounts) [
        | none ↦ err invalid_cli_token
        | some token ↦
            authenticate_found now required_scope accounts token
              (find_user token.user accounts.users)
      ]

-- `split()`: the words between spaces, the letters of an unfinished one first
pub split_from : List ℕ → List ℕ → List (List ℕ)
split_from [] [] = []
split_from (w ∷ ws) [] = (w ∷ ws) ∷ []
split_from [] (c ∷ cs) = elim (is_space c) [
  | true ↦ split_from [] cs
  | false ↦ split_from (c ∷ []) cs
]
split_from (w ∷ ws) (c ∷ cs) = elim (is_space c) [
  | true ↦ (w ∷ ws) ∷ split_from [] cs
  | false ↦ split_from (w ∷ (ws ++ c ∷ [])) cs
]

-- `lower()`, where no letter outside ASCII has one of "bearer" for its lower case
abbrev pub lower : List ℕ → List ℕ
lower [] = []
lower (c ∷ cs) = (if leb 65 c && leb c 90 then c + 32 else c) ∷ lower cs

pub bearer_of : List (List ℕ) → List ℕ
bearer_of (scheme ∷ token ∷ []) = if lower scheme == codes "bearer" then token else []
bearer_of _ = []

pub bearer_token : List ℕ → List ℕ
bearer_token header = bearer_of (split_from [] header)

abbrev pub is_blank : List ℕ → Bool
is_blank [] = true
is_blank (c ∷ cs) = false

-- The membership that a request's header selects, of an account.
pub resolve_workspace :
    (List ℕ → Option String) → List ℕ → ℕ → List Membership → Result Error Membership
resolve_workspace uuid header user memberships =
    elim (find?
      (λ (m : Membership).
        m.user == user
        && m.is_active
        && (if is_blank (strip header)
            then m.is_personal
            else elim (uuid (strip header)) [ none ↦ false | some uid ↦ m.workspace_uid == uid ]))
      memberships) [ none ↦ err workspace_access_denied | some m ↦ ok m ]

-- The scopes whose views need a workspace.
abbrev pub needs_workspace : Option String → Bool
needs_workspace none = false
needs_workspace (some scope) =
    elem scope ("documents:read" ∷ "documents:write" ∷ "search" ∷ "rag" ∷ [])

pub record Request : Type 0 where
  pub authorization : List ℕ
  pub workspace : List ℕ

-- What a view is called with.
pub record Session : Type 0 where
  pub user : User
  pub token : CliToken
  pub membership : Option Membership

abbrev pub in_workspace : User → CliToken → Membership → Result Error Session
in_workspace user token m = ok (record { user = user; token = token; membership = some m })

module _ (hash : List ℕ → String) (uuid : List ℕ → Option String) where
  pub open_workspace :
      Option String → Request → User → CliToken → List Membership → Result Error Session
  open_workspace scope request user token memberships =
      if needs_workspace scope
      then resolve_workspace uuid request.workspace user.id memberships >>= in_workspace user token
      else ok (record { user = user; token = token; membership = none })

  -- The wrapper of `cli_token_required`, up to the call of its view.
  pub cli_token_required : ℕ → Option String → Request → Accounts → Result Error Session
  cli_token_required now scope request accounts = do
    raise_if (is_blank (bearer_token request.authorization)) authentication_required
    ((user, token), accounts') ←
        authenticate_cli_token hash now (bearer_token request.authorization) scope accounts
    open_workspace scope request user token accounts'.memberships
