-- ===== src/Workspaces/CodeRows.antt =====
-- What a redemption and the deletion of an account do to the code of a digest, in the table of
-- `WorkspaceInviteCode` of app/workspaces/models.py, whose `code_digest` is unique.
use dotori.Prelude.{
  ℕ, suc, ◌+◌, ◌≤◌, String, ◌≡◌, refl, ◌⊎◌, find?-holds, true, false, not, some, List, [], ◌∷◌,
  filter, map, find?, arith, Bool-cases, inl, inr, All,
}
use dotori.Prelude.Classes.{◌==◌, nat_eq, string_eq, elem, ==→≡, ==_refl}
use dotori.Workspaces.{InviteCode}
use dotori.Workspaces.Services.{is_used_up, redeemed, save_code, unset}

abbrev pub IsOther : String → InviteCode → Type 0
IsOther k c = (c.code_digest == k) ≡ false

-- The digest has one row at most, and that row allows `uses` redemptions and counts `n` at least.
unfoldable pub HasCode : String → ℕ → ℕ → List InviteCode → Type 0
HasCode k uses n [] = Unit
HasCode k uses n (c ∷ cs) =
    ((c.code_digest == k) ≡ true)
      × (c.max_uses ≡ some uses)
      × (n ≤ c.use_count)
      × All (IsOther k) cs
    ⊎ IsOther k c × HasCode k uses n cs

module _ (k : String) (uses n : ℕ) where
  IsOther-HasCode : (cs : List InviteCode) → All (IsOther k) cs → HasCode k uses n cs
  unfolding HasCode
  IsOther-HasCode [] h = tt
  IsOther-HasCode (c ∷ cs) h = inr (h.0, IsOther-HasCode cs h.1)

  -- The codes that the deletion of an account leaves.
  abbrev pub left_codes : ℕ → List ℕ → List InviteCode → List InviteCode
  left_codes user solo cs =
      map (λ (c : InviteCode). record c { created_by = unset user c.created_by })
        (filter (λ (c : InviteCode). not (elem c.workspace solo)) cs)

  left_codes-IsOther :
      (user : ℕ) (solo : List ℕ) (cs : List InviteCode)
      → All (IsOther k) cs
      → All (IsOther k) (left_codes user solo cs)
  left_codes-IsOther user solo [] h = tt
  left_codes-IsOther user solo (c ∷ cs) h = elim (Bool-cases (elem c.workspace solo)) [
    | inl gone ↦ rw gone (left_codes-IsOther user solo cs h.1)
    | inr kept ↦ rw kept (h.0, left_codes-IsOther user solo cs h.1)
  ]

  pub left_codes-HasCode :
      (user : ℕ) (solo : List ℕ) (cs : List InviteCode)
      → HasCode k uses n cs
      → HasCode k uses n (left_codes user solo cs)
  unfolding HasCode
  left_codes-HasCode user solo [] h = tt
  left_codes-HasCode user solo (c ∷ cs) h = elim (Bool-cases (elem c.workspace solo)) [
    | inl gone ↦ elim h [
      | inl (same, limit, count, others) ↦
          rw gone
            (IsOther-HasCode (left_codes user solo cs) (left_codes-IsOther user solo cs others))
      | inr (other, rest) ↦ rw gone (left_codes-HasCode user solo cs rest)
    ]
    | inr kept ↦ elim h [
      | inl (same, limit, count, others) ↦
          rw kept (inl (same, limit, count, left_codes-IsOther user solo cs others))
      | inr (other, rest) ↦ rw kept (inr (other, left_codes-HasCode user solo cs rest))
    ]
  ]

  save_code-IsOther :
      (row : InviteCode) (cs : List InviteCode)
      → IsOther k row
      → All (IsOther k) cs
      → All (IsOther k) (save_code row cs)
  unfolding save_code
  save_code-IsOther row [] o h = tt
  save_code-IsOther row (c ∷ cs) o h = elim (Bool-cases (c.code_digest == row.code_digest)) [
    | inl here ↦ rw here (o, h.1)
    | inr there ↦ rw there (h.0, save_code-IsOther row cs o h.1)
  ]

  pub save_other-HasCode :
      (row : InviteCode) (cs : List InviteCode)
      → IsOther k row
      → HasCode k uses n cs
      → HasCode k uses n (save_code row cs)
  unfolding save_code HasCode
  save_other-HasCode row [] o h = tt
  save_other-HasCode row (c ∷ cs) o h = elim (Bool-cases (c.code_digest == row.code_digest)) [
    | inl here ↦ elim h [
      | inl (same, limit, count, others) ↦
          let at_row : c.code_digest ≡ row.code_digest = ==→≡ c.code_digest row.code_digest here in
          absurd (ground (arith, rw at_row at same, o))
      | inr (other, rest) ↦ rw here (inr (o, rest))
    ]
    | inr there ↦ elim h [
      | inl (same, limit, count, others) ↦
          rw there (inl (same, limit, count, save_code-IsOther row cs o others))
      | inr (other, rest) ↦ rw there (inr (other, save_other-HasCode row cs o rest))
    ]
  ]

  pub redeemed-fields :
      (c : InviteCode)
      → ((redeemed c).code_digest ≡ c.code_digest)
        × ((redeemed c).max_uses ≡ c.max_uses)
        × ((redeemed c).use_count ≡ c.use_count + 1)
  unfolding redeemed
  redeemed-fields c = elim (Bool-cases (is_used_up (record c { use_count = c.use_count + 1 }))) [
    | inl e ↦ rw e (refl, refl, refl)
    | inr e ↦ rw e (refl, refl, refl)
  ]

  -- The row that the digest finds counts one redemption more.
  pub save_redeemed-HasCode :
      (c : InviteCode) (cs : List InviteCode)
      → find? (λ (x : InviteCode). x.code_digest == k) cs ≡ some c
      → HasCode k uses n cs
      → (c.max_uses ≡ some uses)
        × (n ≤ c.use_count)
        × HasCode k uses (suc n) (save_code (redeemed c) cs)
  unfolding save_code HasCode
  save_redeemed-HasCode c [] e h = cc
  save_redeemed-HasCode c (x ∷ cs) e h = elim h [
    | inl (same, limit, count, others) ↦
        let is_c : x ≡ c = ground (arith, same, e) in
        let (digest_of, limit_of, count_of) = redeemed-fields c in
        let here : (x.code_digest == (redeemed c).code_digest) ≡ true =
          rw (digest_of, is_c) (==_refl c.code_digest) in
        (
          rw (← is_c) limit,
          rw (← is_c) count,
          rw here (
              inl (
                rw (digest_of, ← is_c) same,
                rw (limit_of, ← is_c) limit,
                rw count_of (omega (arith, rw is_c at count)),
                others,
              )),
        )
    | inr (other, rest) ↦
        let later : find? (λ (x : InviteCode). x.code_digest == k) cs ≡ some c =
          ground (arith, other, e) in
        let (limit, count, saved) = save_redeemed-HasCode c cs later rest in
        let is_k : (c.code_digest == k) ≡ true = find?-holds _ cs c later in
        let digest_of = (redeemed-fields c).0 in
        let there : (x.code_digest == (redeemed c).code_digest) ≡ false =
          rw (digest_of, ==→≡ c.code_digest k is_k) other in
        (limit, count, rw there (inr (other, saved)))
  ]
