-- ===== src/Workspaces/Codes.antt =====
-- Invite codes: `WorkspaceInviteCode` of app/workspaces/models.py and their redemption.
use dotori.Prelude.{
  ℕ, String, ◌≡◌, true, Option, some, List, [], ◌∷◌, arith, Bool-cases, Option-cases, inl, inr, ok,
  bind-eq-ok, ok-state, ok-value, require,
}
use dotori.Prelude.Classes.{nat_eq, string_eq}
use dotori.Workspaces.{
  Error, Membership, InviteCode, Tables, has_key, find_membership, save_membership, join,
  new_member,
}
use dotori.Workspaces.Services.{is_redeemable, redeem_found}

find-save :
    (row old : Membership) (ms : List Membership)
    → find_membership row.workspace row.user ms ≡ some old
    → find_membership row.workspace row.user (save_membership row ms) ≡ some row
unfolding find_membership save_membership
find-save row old [] h = cc
find-save row old (m ∷ ms) h = elim (Bool-cases (has_key row.workspace row.user m)) [
  | inl here ↦ rw here (ground arith)
  | inr there ↦ rw (there, there) (find-save row old ms (rw there at h))
]

find-head :
    (row : Membership) (ms : List Membership)
    → find_membership row.workspace row.user (row ∷ ms) ≡ some row
unfolding find_membership
find-head row ms = ground arith

-- The row that a join leaves under its workspace and user.
join-find :
    (workspace user : ℕ) (by : Option ℕ) (ms : List Membership)
    → (find_membership workspace user (join workspace user by ms).1
        ≡ some (join workspace user by ms).0)
      × ((join workspace user by ms).0.is_active ≡ true)
      × ((old : Membership)
          → find_membership workspace user ms ≡ some old
          → old.is_active ≡ true
          → (join workspace user by ms).0 ≡ old)
unfolding join
join-find workspace user by ms = elim (Option-cases (find_membership workspace user ms)) [
  | inl e ↦
      let first = find-head row ms in
      (ground (arith, e, first), ground (arith, e), λ old same active. ground (arith, e, same))
  | inr (m, e) ↦
      let saved = find-save row m ms e in
      (
        ground (arith, e, saved),
        ground (arith, e),
        λ old same active. ground (arith, e, same, active),
      )
]
  where
    row : Membership
    row = new_member workspace user by

-- A code that is redeemed makes its redeemer an active member, and leaves one who was active, an
-- administrator for instance, as they were.
pub redeem_found-joined :
    (digest : List ℕ → String) (now actor : ℕ) (c : InviteCode) (t : Tables) {m : Membership}
    {t' : Tables}
    → redeem_found digest now actor c t ≡ ok (m, t')
    → (find_membership c.workspace actor t'.memberships ≡ some m)
      × (m.is_active ≡ true)
      × ((old : Membership)
          → find_membership c.workspace actor t.memberships ≡ some old
          → old.is_active ≡ true
          → m ≡ old)
unfolding redeem_found
redeem_found-joined digest now actor c t h =
    let (_, usable, h1) = bind-eq-ok (require (is_redeemable now c) Error.validation_error) _ h in
    rw (← ok-state h1, ← ok-value h1) (join-find c.workspace actor c.created_by t.memberships)
