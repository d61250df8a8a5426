-- ===== src/Prelude/Dicts.antt =====
-- A Python dict with text keys as an association list in insertion order.
use Prim.Native.String.{String}
use mathlib.Core.Path.{◌≡◌, refl}
use mathlib.Core.Bool.{Bool, true, false, ◌&&◌}
use mathlib.Core.List.{List, [], ◌∷◌}
use mathlib.Core.Option.{Option, none, some}
use mathlib.Core.Logic.{inl, inr}
use native.Mathlib.Omega.{arith}
use text.Mathlib.TextEquality.{eq_iff}
use dotori.Prelude.Tests.{if◌then◌else◌, Bool-cases}
use dotori.Prelude.Lists.{all}
use dotori.Prelude.Classes.{Equality, ◌==◌, string_eq, ==_refl}

abbrev pub Dict {ℓ} : Type ℓ → Type ℓ
Dict V = List (String × V)

module _ {ℓ} {V : Type ℓ} where
  -- `d.get(key)`
  unfoldable pub get : String → Dict V → Option V
  get k [] = none
  get k ((j, v) ∷ d) = if j == k then some v else get k d

  -- `d[key] = value`
  unfoldable pub put : String → V → Dict V → Dict V
  put k v [] = (k, v) ∷ []
  put k v ((j, w) ∷ d) = if j == k then (j, v) ∷ d else (j, w) ∷ put k v d

  -- `d.pop(key, None)`
  unfoldable pub remove : String → Dict V → Dict V
  remove k [] = []
  remove k ((j, w) ∷ d) = let rest = remove k d in if j == k then rest else (j, w) ∷ rest

  pub get-put :
      (k j : String) (v : V) (d : Dict V) → get j (put k v d) ≡ (if k == j then some v else get j d)
  unfolding get put
  get-put k j v [] = refl
  get-put k j v ((i, w) ∷ d) = ground (arith, get-put k j v d, eq_iff i k, eq_iff i j, eq_iff k j)

  pub get-remove :
      (k j : String) (d : Dict V) → get j (remove k d) ≡ (if k == j then none else get j d)
  unfolding get remove
  get-remove k j [] = ground arith
  get-remove k j ((i, w) ∷ d) = ground (arith, get-remove k j d, eq_iff i k, eq_iff i j, eq_iff k j)

module _ {V : Type 0} ⦃e : Equality V⦄ where
  abbrev pub holds : Dict V → String × V → Bool
  holds d (k, v) = elim (get k d) [ none ↦ false | some w ↦ w == v ]

  -- `d == d'`, whatever the orders are.
  unfoldable pub same : Dict V → Dict V → Bool
  same d d' = all (holds d') d && all (holds d) d'

-- No key stands twice.
abbrev pub IsKeyed {ℓ} : {V : Type ℓ} → Dict V → Type ℓ
IsKeyed [] = Unit
IsKeyed ((k, v) ∷ d) = (get k d ≡ none) × IsKeyed d

pub IsKeyed-put {ℓ} :
    {V : Type ℓ} (k : String) (v : V) (d : Dict V) → IsKeyed d → IsKeyed (put k v d)
unfolding get put
IsKeyed-put k v [] h = (refl, tt)
IsKeyed-put k v ((j, w) ∷ d) h = elim (Bool-cases (j == k)) [
  | inl e ↦ rw e h
  | inr e ↦ rw e (ground (arith, get-put k j v d, e, eq_iff j k, eq_iff k j), IsKeyed-put k v d h.1)
]

module _ {V : Type 0} ⦃e : Equality V⦄ where
  all-holds-cons :
      (j : String) (w : V) (d d' : Dict V)
      → get j d ≡ none
      → all (holds d) d' ≡ true
      → all (holds ((j, w) ∷ d)) d' ≡ true
  unfolding get
  all-holds-cons j w d [] new h = refl
  all-holds-cons j w d ((k, v) ∷ d') new h = ground (arith, eq_iff j k, all-holds-cons j w d d' new)

  holds_head : (k : String) (v : V) (d : Dict V) → holds ((k, v) ∷ d) (k, v) ≡ true
  unfolding get
  holds_head k v d = ground (arith, eq_iff k k, ==_refl v)

  all-holds_self : (d : Dict V) → IsKeyed d → all (holds d) d ≡ true
  all-holds_self [] h = refl
  all-holds_self ((k, v) ∷ d) h =
      let rest : all (holds ((k, v) ∷ d)) d ≡ true =
        all-holds-cons k v d d h.0 (all-holds_self d h.1) in
      let first : holds ((k, v) ∷ d) (k, v) ≡ true = holds_head k v d in rw (first, rest)

  pub same_refl : (d : Dict V) → IsKeyed d → same d d ≡ true
  unfolding same
  same_refl d h = rw (all-holds_self d h)
