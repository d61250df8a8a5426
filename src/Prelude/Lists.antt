-- ===== src/Prelude/Lists.antt =====
-- Lists measured by native numbers, the Boolean searches of the code, and predicates over a list.
use Prim.Native.Nat.{ℕ, zero, suc, ◌+◌, ◌≤◌}
use mathlib.Core.Path.{◌≡◌, refl}
use mathlib.Core.Logic.{◌⊎◌, inl, inr}
use mathlib.Core.Bool.{Bool, true, false, ◌&&◌, ◌||◌}
use mathlib.Core.List.{List, [], ◌∷◌, ◌++◌}
use mathlib.Core.Option.{Option, none, some}
use native.Mathlib.Omega.{arith}
use dotori.Prelude.Tests.{if◌then◌else◌, Bool-cases}

module _ {ℓ} {A : Type ℓ} where
  abbrev pub length : List A → ℕ
  length [] = 0
  length (x ∷ xs) = suc (length xs)

  abbrev pub take : ℕ → List A → List A
  take zero xs = []
  take (suc n) [] = []
  take (suc n) (x ∷ xs) = x ∷ take n xs

  -- `any(p(x) for x in xs)`
  abbrev pub any : (A → Bool) → List A → Bool
  any p [] = false
  any p (x ∷ xs) = p x || any p xs

  -- `all(p(x) for x in xs)`
  abbrev pub all : (A → Bool) → List A → Bool
  all p [] = true
  all p (x ∷ xs) = p x && all p xs

  -- `next((x for x in xs if p(x)), None)`
  abbrev pub find? : (A → Bool) → List A → Option A
  find? p [] = none
  find? p (x ∷ xs) = if p x then some x else find? p xs

  -- `[x for x in xs if p(x)]`
  abbrev pub filter : (A → Bool) → List A → List A
  filter p [] = []
  filter p (x ∷ xs) = let rest = filter p xs in if p x then x ∷ rest else rest

  -- `sum(p(x) for x in xs)`
  abbrev pub count : (A → Bool) → List A → ℕ
  count p [] = 0
  count p (x ∷ xs) = let rest = count p xs in if p x then suc rest else rest

  pub length-append : (xs ys : List A) → length (xs ++ ys) ≡ length xs + length ys
  length-append [] ys = omega arith
  length-append (x ∷ xs) ys = omega (arith, length-append xs ys)

-- Membership, with the place of the member kept.
abbrev pub Member : {A : Type 0} → A → List A → Type 0
Member x [] = ⊥
Member x (y ∷ ys) = (x ≡ y) ⊎ Member x ys

module _ {ℓ κ} {A : Type ℓ} where
  abbrev pub All : (A → Type κ) → List A → Type κ
  All P [] = Unit
  All P (x ∷ xs) = P x × All P xs

module _ {ℓ} {A : Type ℓ} where
  pub all→All : (p : A → Bool) (xs : List A) → all p xs ≡ true → All (λ x. p x ≡ true) xs
  all→All p [] h = tt
  all→All p (x ∷ xs) h = (ground arith, all→All p xs (ground arith))

  pub find?-holds : (p : A → Bool) (xs : List A) (x : A) → find? p xs ≡ some x → p x ≡ true
  find?-holds p [] x h = cc
  find?-holds p (y ∷ ys) x h = elim (Bool-cases (p y)) [
    | inl here ↦ ground (arith, here)
    | inr there ↦ find?-holds p ys x (rw there at h)
  ]

  pub find?-none : (p : A → Bool) (xs : List A) → find? p xs ≡ none → any p xs ≡ false
  find?-none p [] h = refl
  find?-none p (y ∷ ys) h = ground (arith, find?-none p ys)

  pub length-filter-le : (p : A → Bool) (xs : List A) → length (filter p xs) ≤ length xs
  length-filter-le p [] = omega arith
  length-filter-le p (x ∷ xs) = ground (arith, length-filter-le p xs)

module _ {ℓ κ} {A : Type ℓ} where
  pub All-append : (P : A → Type κ) (xs ys : List A) → All P xs → All P ys → All P (xs ++ ys)
  All-append P [] ys hx hy = hy
  All-append P (x ∷ xs) ys hx hy = (hx.0, All-append P xs ys hx.1 hy)

module _ {A : Type 0} where
  pub All-of_Member : (P : A → Type 0) (xs : List A) → ((x : A) → Member x xs → P x) → All P xs
  All-of_Member P [] h = tt
  All-of_Member P (x ∷ xs) h = (h x (inl refl), All-of_Member P xs (λ y m. h y (inr m)))

  pub Member-All : (P : A → Type 0) (xs : List A) (x : A) → All P xs → Member x xs → P x
  Member-All P [] x h m = absurd m
  Member-All P (y ∷ ys) x h (inl e) = rw e h.0
  Member-All P (y ∷ ys) x h (inr m) = Member-All P ys x h.1 m

  pub find?-Member : (p : A → Bool) (xs : List A) (x : A) → find? p xs ≡ some x → Member x xs
  find?-Member p [] x h = cc
  find?-Member p (y ∷ ys) x h = elim (Bool-cases (p y)) [
    | inl here ↦ inl (ground (arith, here))
    | inr there ↦ inr (find?-Member p ys x (rw there at h))
  ]

module _ {A : Type 0} where
  pub any→Member :
      (p : A → Bool) (xs : List A) → any p xs ≡ true → (x : A) × Member x xs × (p x ≡ true)
  any→Member p [] h = cc
  any→Member p (y ∷ ys) h = elim (Bool-cases (p y)) [
    | inl here ↦ (y, inl refl, here)
    | inr there ↦
        let (x, m, holds) = any→Member p ys (ground (arith, there, h)) in (x, inr m, holds)
  ]

  pub Member→any : (p : A → Bool) (xs : List A) (x : A) → Member x xs → p x ≡ true → any p xs ≡ true
  Member→any p [] x m h = absurd m
  Member→any p (y ∷ ys) x (inl e) h = let here : p y ≡ true = rw e at h in ground (arith, here)
  Member→any p (y ∷ ys) x (inr m) h = ground (arith, Member→any p ys x m h)

  pub any_mono :
      (p q : A → Bool) (xs : List A)
      → ((x : A) → p x ≡ true → q x ≡ true)
      → any p xs ≡ true
      → any q xs ≡ true
  any_mono p q xs le h = let (x, m, holds) = any→Member p xs h in Member→any q xs x m (le x holds)

  pub Member-filter :
      (p : A → Bool) (xs : List A) (x : A) → Member x xs → p x ≡ true → Member x (filter p xs)
  Member-filter p [] x m h = absurd m
  Member-filter p (y ∷ ys) x (inl e) h = let here : p y ≡ true = rw e at h in rw here (inl e)
  Member-filter p (y ∷ ys) x (inr m) h = elim (Bool-cases (p y)) [
    | inl here ↦ rw here (inr (Member-filter p ys x m h))
    | inr there ↦ rw there (Member-filter p ys x m h)
  ]

  pub filter-Member :
      (p : A → Bool) (xs : List A) (x : A) → Member x (filter p xs) → Member x xs × (p x ≡ true)
  filter-Member p [] x m = absurd m
  filter-Member p (y ∷ ys) x m = elim (Bool-cases (p y)) [
    | inl here ↦ elim (rw here at m) [
      | inl e ↦ (inl e, rw e here)
      | inr m' ↦ let (n, holds) = filter-Member p ys x m' in (inr n, holds)
    ]
    | inr there ↦ let (n, holds) = filter-Member p ys x (rw there at m) in (inr n, holds)
  ]
