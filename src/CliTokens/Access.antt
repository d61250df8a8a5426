-- ===== src/CliTokens/Access.antt =====
-- What a bearer token gives access to.
use mathlib.Core.Path.{subst}
use dotori.Prelude.{
  ℕ, String, ◌∙◌, ◌≡◌, refl, true, false, ◌&&◌, Option, none, some, List, [], ◌∷◌, ◌++◌, any, find?,
  find?-holds, find?-Member, Member, if◌then◌else◌, arith, Bool-cases, Option-cases, inl, inr, ok,
  err, ◌>>=◌, bind-eq-ok, ok-state, raise_if,
}
use dotori.Prelude.Classes.{◌==◌, nat_eq, string_eq, elem, ==→≡, ==_refl}
use dotori.Prelude.Text.{strip, nonempty}
use dotori.CliTokens.{
  Error, scope_required, AccessLevel, User, CliToken, Membership, Accounts, cli_token_prefix,
  cli_token_scopes, starts_with, find_user, touch, check_token, issue_cli_token, find_token,
  authenticate_found, authenticate_cli_token, bearer_token, is_blank, resolve_workspace,
  needs_workspace, Request, Session, in_workspace, open_workspace, cli_token_required,
}

starts_with-append : (ps cs : List ℕ) → starts_with ps (ps ++ cs) ≡ true
starts_with-append [] cs = refl
starts_with-append (p ∷ ps) cs = rw (==_refl p) (starts_with-append ps cs)

-- The token of a request: active, found by its digest, of an active and verified account, and with
-- the scope that the view requires, where it requires one.
pub record IsEntitled (hash : List ℕ → String) (raw : List ℕ) (required : Option String)
    (accounts : Accounts) (user : User) (token : CliToken) : Type 0 where
  pub known : Member token accounts.tokens
  pub keyed : token.key_hash ≡ hash raw
  pub active : token.is_active ≡ true
  pub owner : find_user token.user accounts.users ≡ some user
  pub user_active : user.is_active ≡ true
  pub user_verified : user.email_verified ≡ true
  pub scoped :
      (scope : String)
      → required ≡ some scope
      → nonempty scope ≡ true
      → elem scope token.scopes ≡ true

check_token-ok :
    (required : Option String) (user : User) (token : CliToken)
    → check_token required user token ≡ ok tt
    → (user.is_active ≡ true)
      × (user.email_verified ≡ true)
      × ((scope : String)
          → required ≡ some scope
          → nonempty scope ≡ true
          → elem scope token.scopes ≡ true)
unfolding check_token
check_token-ok required user token h =
    (ground (arith, h), ground (arith, h), λ scope asked named. ground (arith, h, asked, named))

module _ (hash : List ℕ → String) (now : ℕ) (raw : List ℕ) (scope : Option String)
    (accounts : Accounts) where
  found-IsEntitled :
      (token : CliToken) (found : Option User) (user : User) (t : CliToken) (accounts' : Accounts)
      → find_token hash raw accounts ≡ some token
      → find_user token.user accounts.users ≡ found
      → authenticate_found hash now scope accounts token found ≡ ok ((user, t), accounts')
      → IsEntitled hash raw scope accounts user t × (accounts'.memberships ≡ accounts.memberships)
  unfolding authenticate_found find_token
  found-IsEntitled token none user t accounts' at owned h = cc
  found-IsEntitled token (some u) user t accounts' at owned h =
      let (_, checked, h1) = bind-eq-ok (check_token scope u token) _ h in
      let (on, verified, scoped) = check_token-ok scope u token checked in
      let is_token = (λ (t : CliToken). t.key_hash == hash raw && t.is_active) in
      let holds = find?-holds is_token accounts.tokens token at in
      let same_user : u ≡ user = ground (arith, h1) in
      let same_token : token ≡ t = ground (arith, h1) in
      (
        rw (← same_user, ← same_token)
            (record {
              known = find?-Member is_token accounts.tokens token at;
              keyed = ==→≡ token.key_hash (hash raw) (ground (arith, holds));
              active = ground (arith, holds);
              owner = owned;
              user_active = on;
              user_verified = verified;
              scoped = scoped;
            }),
        rw (← ok-state h1) refl,
      )

  authenticate-IsEntitled :
      (user : User) (t : CliToken) (accounts' : Accounts)
      → authenticate_cli_token hash now raw scope accounts ≡ ok ((user, t), accounts')
      → IsEntitled hash raw scope accounts user t × (accounts'.memberships ≡ accounts.memberships)
  unfolding authenticate_cli_token
  authenticate-IsEntitled user t accounts' h =
      elim (Bool-cases (starts_with cli_token_prefix raw)) [
        | inr odd ↦ absurd (ground (arith, odd, h))
        | inl own ↦ elim (Option-cases (find_token hash raw accounts)) [
          | inl e ↦ absurd (ground (arith, own, e, h))
          | inr (token, e) ↦
              found-IsEntitled token (find_user token.user accounts.users) user t accounts' e refl
                (ground (arith, own, e, h))
        ]
      ]

-- The workspace of a session: an active membership of its account.
abbrev pub IsMemberSession : Option String → Accounts → Session → Type 0
IsMemberSession scope accounts session =
    needs_workspace scope ≡ true
    → (m : Membership) × (session.membership ≡ some m)
      × Member m accounts.memberships
      × (m.user ≡ session.user.id)
      × (m.is_active ≡ true)

resolve_workspace-Member :
    (uuid : List ℕ → Option String) (header : List ℕ) (user : ℕ) (ms : List Membership)
    (m : Membership)
    → resolve_workspace uuid header user ms ≡ ok m
    → Member m ms × (m.user ≡ user) × (m.is_active ≡ true)
unfolding resolve_workspace
resolve_workspace-Member uuid header user ms m h =
    let selects = (λ (m : Membership).
      m.user == user
      && m.is_active
      && (if is_blank (strip header)
          then m.is_personal
          else elim (uuid (strip header)) [ none ↦ false | some uid ↦ m.workspace_uid == uid ])) in
    elim (Option-cases (find? selects ms)) [
      | inl e ↦ absurd (ground (arith, e, h))
      | inr (x, e) ↦
          let same : x ≡ m = ground (arith, e, h) in
          let holds = find?-holds selects ms x e in
          rw (← same) (find?-Member selects ms x e, ground (arith, holds), ground (arith, holds))
    ]

open_workspace-IsMemberSession :
    (hash : List ℕ → String) (uuid : List ℕ → Option String) (scope : Option String)
    (request : Request) (user : User) (token : CliToken) (accounts : Accounts) (session : Session)
    → open_workspace hash uuid scope request user token accounts.memberships ≡ ok session
    → (session.user ≡ user) × (session.token ≡ token) × IsMemberSession scope accounts session
unfolding open_workspace
open_workspace-IsMemberSession hash uuid scope request user token accounts session h =
    elim (Bool-cases (needs_workspace scope)) [
      | inr free ↦
          (ground (arith, free, h), ground (arith, free, h), λ needed. absurd (cc (free, needed)))
      | inl needed ↦
          let opened : (resolve_workspace uuid request.workspace user.id accounts.memberships
                >>= in_workspace user token)
              ≡ ok session =
            rw needed at h in
          let (m, found, made) =
            bind-eq-ok (resolve_workspace uuid request.workspace user.id accounts.memberships)
              (in_workspace user token) opened in
          let (at, own, active) =
            resolve_workspace-Member uuid request.workspace user.id accounts.memberships m found in
          let same_user : session.user ≡ user = ground (arith, made) in
          (
            same_user,
            ground (arith, made),
            λ n. (m, ground (arith, made), at, rw same_user own, active),
          )
    ]

-- A request that reaches its view bears a token that stands, active, in the table under its digest,
-- of an account that is active and verified, with the scope that the view requires, where it names
-- one; a view of documents, search or answers also has an active membership of that account.
pub cli_token_required-IsEntitled :
    (hash : List ℕ → String) (uuid : List ℕ → Option String) (now : ℕ) (scope : Option String)
    (request : Request) (accounts : Accounts) (session : Session)
    → cli_token_required hash uuid now scope request accounts ≡ ok session
    → IsEntitled hash (bearer_token request.authorization) scope accounts session.user session.token
      × IsMemberSession scope accounts session
unfolding cli_token_required
cli_token_required-IsEntitled hash uuid now scope request accounts session h =
    let (_, borne, h1) =
      bind-eq-ok
        (raise_if (is_blank (bearer_token request.authorization)) Error.authentication_required) _
        h in
    let (((user, token), accounts'), authentic, h2) =
      bind-eq-ok
        (authenticate_cli_token hash now (bearer_token request.authorization) scope accounts) _
        h1 in
    let (entitled, same) =
      authenticate-IsEntitled hash now (bearer_token request.authorization) scope accounts user
        token accounts' authentic in
    let (is_user, is_token, in_space) =
      open_workspace-IsMemberSession hash uuid scope request user token accounts session
        (rw same at h2) in
    (rw (is_user, is_token) entitled, in_space)

find-issued :
    (hash : List ℕ → String) (raw : List ℕ) (token : CliToken) (accounts : Accounts)
    → token.key_hash ≡ hash raw
    → token.is_active ≡ true
    → find_token hash raw (record accounts { tokens = token ∷ accounts.tokens }) ≡ some token
unfolding find_token
find-issued hash raw token accounts keyed active = rw (keyed, active, ==_refl (hash raw)) refl

authenticate_found-scoped :
    (hash : List ℕ → String) (now : ℕ) (scope : String) (accounts : Accounts) (token : CliToken)
    (user : User)
    → nonempty scope ≡ true
    → user.is_active ≡ true
    → user.email_verified ≡ true
    → authenticate_found hash now (some scope) accounts token (some user) ≡ (
        if elem scope token.scopes
        then ok
            ((user, token), record accounts { tokens = touch now token.key_hash accounts.tokens })
        else err scope_required)
unfolding authenticate_found check_token
authenticate_found-scoped hash now scope accounts token user named on verified =
    elim (Bool-cases (elem scope token.scopes)) [
      | inl has ↦ ground (arith, named, on, verified, has)
      | inr lacks ↦ ground (arith, named, on, verified, lacks)
    ]

authenticate-found :
    (hash : List ℕ → String) (now : ℕ) (scope : String) (raw : List ℕ) (accounts : Accounts)
    (token : CliToken) (user : User)
    → starts_with cli_token_prefix raw ≡ true
    → find_token hash raw accounts ≡ some token
    → find_user token.user accounts.users ≡ some user
    → authenticate_cli_token hash now raw (some scope) accounts
      ≡ authenticate_found hash now (some scope) accounts token (some user)
unfolding authenticate_cli_token
authenticate-found hash now scope raw accounts token user own at owned = rw (own, at, owned) refl

-- A token that is issued to an active and verified account authenticates its requests, for the
-- scopes of its access level and for no other; a scope is a text that is not empty.
pub issue-authenticate :
    (hash : List ℕ → String) (random : List ℕ) (name : String) (level : AccessLevel)
    (accounts : Accounts) (user : User) (now : ℕ) (scope : String) (token : CliToken) (raw : List ℕ)
    (accounts' : Accounts)
    → nonempty scope ≡ true
    → issue_cli_token hash random user.id name level accounts ≡ ok ((token, raw), accounts')
    → find_user user.id accounts.users ≡ some user
    → user.is_active ≡ true
    → user.email_verified ≡ true
    → authenticate_cli_token hash now raw (some scope) accounts' ≡ (
        if elem scope (cli_token_scopes level)
        then ok
            ((user, token), record accounts' { tokens = touch now token.key_hash accounts'.tokens })
        else err scope_required)
unfolding issue_cli_token
issue-authenticate hash random name level accounts user now scope token raw accounts' named h owned
      on verified =
    elim (Bool-cases
      (any (λ (t : CliToken). t.key_hash == hash (cli_token_prefix ++ random)) accounts.tokens)) [
        | inl taken ↦ absurd (ground (arith, taken, h))
        | inr fresh ↦
            let is_raw : cli_token_prefix ++ random ≡ raw = ground (arith, fresh, h) in
            let stored : record accounts { tokens = token ∷ accounts.tokens } ≡ accounts' =
              ground (arith, fresh, h) in
            let keyed : token.key_hash ≡ hash raw = ground (arith, fresh, h) in
            let active : token.is_active ≡ true = ground (arith, fresh, h) in
            let mine : find_user token.user accounts.users ≡ some user =
              ground (arith, fresh, h, owned) in
            let scoped : token.scopes ≡ cli_token_scopes level = ground (arith, fresh, h) in
            let own : starts_with cli_token_prefix raw ≡ true =
              subst (λ r. starts_with cli_token_prefix r ≡ true) is_raw
                (starts_with-append cli_token_prefix random) in
            let after = record accounts { tokens = token ∷ accounts.tokens } in
            let step =
              authenticate-found hash now scope raw after token user own
                (find-issued hash raw token accounts keyed active) mine in
            let checked =
              authenticate_found-scoped hash now scope after token user named on verified in
            rw (← scoped) (rw (← stored) (step ∙ checked))
      ]
