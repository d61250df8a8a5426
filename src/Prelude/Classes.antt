-- ===== src/Prelude/Classes.antt =====
-- Decidable equality as an interface, and the list searches that use it.
use Prim.Native.Nat.{ℕ}
use Prim.Native.String.{String}
use mathlib.Core.Path.{◌≡◌, refl, sym, ap₂}
use mathlib.Core.Logic.{◌↔◌, inl, inr}
use mathlib.Core.Bool.{Bool, true, false, ◌&&◌, ◌||◌}
use mathlib.Core.List.{List, [], ◌∷◌}
use native.Mathlib.Omega.{arith}
use text.Mathlib.Text.{◌==◌ as str_eq}
use text.Mathlib.TextEquality.{eq_iff}
use dotori.Prelude.Tests.{nat_beq, nat_beq_iff, if◌then◌else◌, Bool-cases}
use dotori.Prelude.Lists.{all, Member, All}

pub record Equality {ℓ} (A : Type ℓ) : Type ℓ where
  pub equals : A → A → Bool
  pub equals_iff : (a b : A) → (equals a b ≡ true) ↔ (a ≡ b)

infix 50 ◌==◌
abbrev pub ◌==◌ {ℓ} : {A : Type ℓ} ⦃e : Equality A⦄ → A → A → Bool
◌==◌ ⦃e⦄ = e.equals

instance abbrev pub nat_eq : Equality ℕ
nat_eq = record { equals = nat_beq; equals_iff = nat_beq_iff }

instance abbrev pub string_eq : Equality String
string_eq = record { equals = str_eq; equals_iff = eq_iff }

module _ {ℓ} {A : Type ℓ} ⦃e : Equality A⦄ where
  -- `==` read as an equation, both ways
  pub ==→≡ : (a b : A) → (a == b) ≡ true → a ≡ b
  ==→≡ a b = (e.equals_iff a b).0

  pub ==_refl : (a : A) → (a == a) ≡ true
  ==_refl a = (e.equals_iff a a).1 refl

  pub ==_sym : (a b : A) → (a == b) ≡ true → (b == a) ≡ true
  ==_sym a b h = (e.equals_iff b a).1 (sym (==→≡ a b h))

  -- `x in xs`
  abbrev pub elem : A → List A → Bool
  elem x [] = false
  elem x (y ∷ ys) = x == y || elem x ys

  -- `set(xs) <= set(ys)`
  abbrev pub subset : List A → List A → Bool
  subset xs ys = all (λ x. elem x ys) xs

  -- `len(set(xs)) == len(xs)`
  abbrev pub distinct : List A → Bool
  distinct [] = true
  distinct (x ∷ xs) = if elem x xs then false else distinct xs

module _ {ℓ} {A : Type ℓ} ⦃e : Equality A⦄ where
  -- `xs == ys` on two lists
  abbrev pub list_beq : List A → List A → Bool
  list_beq [] [] = true
  list_beq [] (y ∷ ys) = false
  list_beq (x ∷ xs) [] = false
  list_beq (x ∷ xs) (y ∷ ys) = x == y && list_beq xs ys

  pub list_beq→≡ : (xs ys : List A) → list_beq xs ys ≡ true → xs ≡ ys
  list_beq→≡ [] [] h = refl
  list_beq→≡ [] (y ∷ ys) h = cc
  list_beq→≡ (x ∷ xs) [] h = cc
  list_beq→≡ (x ∷ xs) (y ∷ ys) h =
      ap₂ ◌∷◌ (==→≡ x y (ground arith)) (list_beq→≡ xs ys (ground arith))

  list_beq_refl : (xs ys : List A) → xs ≡ ys → list_beq xs ys ≡ true
  list_beq_refl xs ys h = rw (← h) (go xs)
    where
      go : (zs : List A) → list_beq zs zs ≡ true
      go [] = refl
      go (z ∷ zs) = rw (==_refl z, go zs)

  pub list_beq_iff : (xs ys : List A) → (list_beq xs ys ≡ true) ↔ (xs ≡ ys)
  list_beq_iff xs ys = (list_beq→≡ xs ys, list_beq_refl xs ys)

  instance abbrev pub list_eq : Equality (List A)
  list_eq = record { equals = list_beq; equals_iff = list_beq_iff }

module _ {A : Type 0} ⦃e : Equality A⦄ where
  pub elem→Member : (x : A) (ys : List A) → elem x ys ≡ true → Member x ys
  elem→Member x [] h = cc
  elem→Member x (y ∷ ys) h = elim (Bool-cases (x == y)) [
    | inl same ↦ inl (==→≡ x y same)
    | inr other ↦ inr (elem→Member x ys (rw other at h))
  ]

  pub Member→elem : (x : A) (ys : List A) → Member x ys → elem x ys ≡ true
  Member→elem x [] m = absurd m
  Member→elem x (y ∷ ys) (inl same) = rw ((e.equals_iff x y).1 same)
  Member→elem x (y ∷ ys) (inr m) = rw (Member→elem x ys m) (||_true (x == y))
    where
      ||_true : (b : Bool) → (b || true) ≡ true
      ||_true true = refl
      ||_true false = refl

  pub elem-false : (x : A) (ys : List A) → elem x ys ≡ false → ¬ Member x ys
  elem-false x ys h m = cc (h, Member→elem x ys m)

  pub subset→All : (xs ys : List A) → subset xs ys ≡ true → All (λ x. Member x ys) xs
  subset→All [] ys h = tt
  subset→All (x ∷ xs) ys h = (elem→Member x ys (ground arith), subset→All xs ys (ground arith))
