-- ===== src/Workspaces/Redemptions.antt =====
-- How often an invite code is redeemed: `redeem_invite_code` of app/workspaces/services.py among the
-- other services. The model's `code_digest` column is unique.
use dotori.Prelude.{
  ℕ, suc, ◌+◌, ◌≤◌, String, ◌≡◌, refl, ◌⊎◌, all, find?-holds, if◌then◌else◌, Bool, true, false, not,
  ◌&&◌, Option, some, List, [], ◌∷◌, any, filter, find?, arith, Bool-cases, Option-cases, inl, inr,
  ok, err, Result, bind-eq-ok, ok-state, raise_if,
}
use dotori.Prelude.Classes.{◌==◌, nat_eq, string_eq, ==→≡}
use dotori.Prelude.Text.{codes, strip}
use dotori.Workspaces.{Error, Membership, InviteCode, Tables, require_admin}
use dotori.Workspaces.Services.{
  Limits, is_used_up, is_redeemable, redeemed, or_empty, delete_user, delete_account,
  solo_workspaces, issue_invite_code, redeem_found, redeem_invite_code, Call, create, invite,
  respond, issue, redeem, change_role, remove, delete, commit, apply_call,
}
use dotori.Workspaces.CodesKept.{
  commit-Keeps, create-Keeps, invite-Keeps, respond-Keeps, change-Keeps, remove-Keeps,
}
use dotori.Workspaces.CodeRows.{
  IsOther, HasCode, left_codes-HasCode, save_other-HasCode, save_redeemed-HasCode, redeemed-fields,
}

abbrev is_success : {A : Type 0} → Result Error A → Bool
is_success (ok a) = true
is_success (err e) = false

-- The calls that redeem the code of a digest, counted as they succeed.
module _ (digest : List ℕ → String) (k : String) where
  abbrev pub is_redemption : Call → Tables → Bool
  is_redemption (redeem now actor token) t =
      digest (strip (or_empty digest token)) == k
      && is_success (redeem_invite_code digest now actor token t)
  is_redemption _ t = false

  unfoldable pub redemptions : List Call → Tables → ℕ
  redemptions [] t = 0
  redemptions (c ∷ calls) t =
      let rest = redemptions calls (apply_call digest c t) in
      if is_redemption c t then suc rest else rest

  abbrev pub issues_other : Call → Bool
  issues_other (issue workspace actor limits token) = not (digest (codes token) == k)
  issues_other _ = true

module _ (digest : List ℕ → String) (k : String) (uses n : ℕ) (t : Tables) where
  redeemable_below :
      (now : ℕ) (c : InviteCode)
      → is_redeemable now c ≡ true
      → c.max_uses ≡ some uses
      → suc c.use_count ≤ uses
  unfolding is_redeemable is_used_up
  redeemable_below now c h limit = ground (arith, h, limit)

  -- What a call does to the code of the digest.
  abbrev Counted : Call → Type 0
  Counted c =
      (is_redemption digest k c t ≡ true)
        × (suc n ≤ uses)
        × HasCode k uses (suc n) (apply_call digest c t).invite_codes
      ⊎ (is_redemption digest k c t ≡ false) × HasCode k uses n (apply_call digest c t).invite_codes

  redeem-Counted :
      (now actor : ℕ) (token : Option String)
      → HasCode k uses n t.invite_codes
      → Counted (redeem now actor token)
  unfolding apply_call redeem_invite_code redeem_found
  redeem-Counted now actor token h =
      let key = digest (strip (or_empty digest token)) in
      elim (Option-cases (find? (λ (c : InviteCode). c.code_digest == key) t.invite_codes)) [
        | inl missing ↦ inr (
          rw (redeem_invite_code, missing) (ground arith),
          rw (apply_call, redeem_invite_code, missing) h,
        )
        | inr (c, found) ↦ elim (Bool-cases (is_redeemable now c)) [
          | inr spent ↦ inr (
            rw (redeem_invite_code, found, redeem_found, spent) (ground arith),
            rw (apply_call, redeem_invite_code, found, redeem_found, spent) h,
          )
          | inl usable ↦ elim (Bool-cases (key == k)) [
            | inl same ↦
                let at_k : find? (λ (x : InviteCode). x.code_digest == k) t.invite_codes ≡ some c =
                  rw (← ==→≡ key k same) found in
                let (limit, count, saved) =
                  save_redeemed-HasCode k uses n c t.invite_codes at_k h in
                let below = redeemable_below now c usable limit in
                inl (
                  rw (redeem_invite_code, found, redeem_found, usable, same) refl,
                  omega (arith, below, count),
                  rw (apply_call, redeem_invite_code, found, redeem_found, usable) saved,
                )
            | inr other ↦
                let is_key : (c.code_digest == key) ≡ true = find?-holds _ t.invite_codes c found in
                let differs : IsOther k (redeemed c) =
                  rw ((redeemed-fields k uses n c).0, ==→≡ c.code_digest key is_key) other in
                inr (
                  rw other refl,
                  rw (apply_call, redeem_invite_code, found, redeem_found, usable)
                      (save_other-HasCode k uses n (redeemed c) t.invite_codes differs h),
                )
          ]
        ]
      ]

  issue-Counted :
      (workspace actor : ℕ) (limits : Limits) (token : String)
      → (digest (codes token) == k) ≡ false
      → HasCode k uses n t.invite_codes
      → Counted (issue workspace actor limits token)
  unfolding apply_call issue_invite_code HasCode
  issue-Counted workspace actor limits token other h =
      inr (refl, issued (issue_invite_code digest workspace actor limits token t) refl)
    where
      issued :
          (call : Result Error ((InviteCode × String) × Tables))
          → issue_invite_code digest workspace actor limits token t ≡ call
          → HasCode k uses n (commit t call).invite_codes
      issued (err e) made = h
      issued (ok (i, t')) made =
          let (_, allowed, h1) = bind-eq-ok (require_admin workspace actor t) _ made in
          let taken =
            any (λ (c : InviteCode). c.code_digest == digest (codes token)) t.invite_codes in
          let (_, fresh, h2) = bind-eq-ok (raise_if taken Error.integrity_error) _ h1 in
          rw (← ok-state h2) (inr (other, h))

  delete-Counted : (user : ℕ) → HasCode k uses n t.invite_codes → Counted (delete user)
  unfolding apply_call delete_account delete_user
  delete-Counted user h = inr (refl, left (delete_account user t) refl)
    where
      left :
          (call : Result Error (Unit {0} × Tables))
          → delete_account user t ≡ call
          → HasCode k uses n (commit t call).invite_codes
      left (err e) made = h
      left (ok (u, t')) made =
          let own = filter (λ (m : Membership). m.user == user && m.is_active) t.memberships in
          let (solo, found, h1) = bind-eq-ok (solo_workspaces t.memberships own) _ made in
          rw (← ok-state h1) (left_codes-HasCode k uses n user solo t.invite_codes h)

  apply_call-Counted :
      (c : Call) → issues_other digest k c ≡ true → HasCode k uses n t.invite_codes → Counted c
  unfolding apply_call
  apply_call-Counted (create actor name kind) o h = inr (
    refl,
    commit-Keeps (HasCode k uses n) t _ (create-Keeps (HasCode k uses n) actor name kind t) h,
  )
  apply_call-Counted (invite workspace actor invitee) o h = inr (
    refl,
    commit-Keeps (HasCode k uses n) t _ (invite-Keeps (HasCode k uses n) workspace actor t invitee)
        h,
  )
  apply_call-Counted (respond now id actor accept) o h = inr (
    refl,
    commit-Keeps (HasCode k uses n) t _ (respond-Keeps (HasCode k uses n) now id actor accept t) h,
  )
  apply_call-Counted (issue workspace actor limits token) o h =
      issue-Counted workspace actor limits token (ground (arith, o)) h
  apply_call-Counted (redeem now actor token) o h = redeem-Counted now actor token h
  apply_call-Counted (change_role workspace actor user role) o h = inr (
    refl,
    commit-Keeps (HasCode k uses n) t _
        (change-Keeps (HasCode k uses n) workspace actor t user role) h,
  )
  apply_call-Counted (remove workspace actor user) o h = inr (
    refl,
    commit-Keeps (HasCode k uses n) t _ (remove-Keeps (HasCode k uses n) workspace actor t user) h,
  )
  apply_call-Counted (delete user) o h = delete-Counted user h

-- Where the tables have at most one code of a digest, which allows `uses` redemptions and counts `n`
-- or more, `n` at most `uses`, and no call issues a code of that digest, the calls redeem it with
-- success at most `uses` less `n` times, whatever else they do.
pub redemptions_bounded :
    (digest : List ℕ → String) (k : String) (uses n : ℕ) (calls : List Call) (t : Tables)
    → all (issues_other digest k) calls ≡ true
    → HasCode k uses n t.invite_codes
    → n ≤ uses
    → n + redemptions digest k calls t ≤ uses
unfolding redemptions
redemptions_bounded digest k uses n [] t o h below = omega (arith, below)
redemptions_bounded digest k uses n (c ∷ calls) t o h below =
    elim (apply_call-Counted digest k uses n t c (ground (arith, o)) h) [
      | inl (counted, fits, next) ↦
          let rest =
            redemptions_bounded digest k uses (suc n) calls (apply_call digest c t)
              (ground (arith, o)) next fits in
          rw counted (omega (arith, rest))
      | inr (uncounted, next) ↦ rw uncounted (
          redemptions_bounded digest k uses n calls (apply_call digest c t) (ground (arith, o)) next
            below)
    ]
