-- ===== src/Prelude/Results.antt =====
-- A call that may raise: the value, or the exception's class as a constructor of `E`.
use mathlib.Core.Path.{◌≡◌, refl}
use mathlib.Core.Bool.{Bool, true, false}

pub data Result {ℓ κ} (E : Type κ) (A : Type ℓ) : Type (ℓ ⊔ κ) where
  ok : A → Result E A
  err : E → Result E A

infixl 5 ◌>>=◌ ◌>>◌
abbrev pub ◌>>=◌ {ℓ κ μ} :
    {E : Type κ} {A : Type ℓ} {B : Type μ} → Result E A → (A → Result E B) → Result E B
ok a >>= f = f a
err e >>= f = err e

abbrev pub ◌>>◌ {ℓ κ} : {E : Type κ} {B : Type ℓ} → Result E (Unit {0}) → Result E B → Result E B
m >> k = m >>= λ _. k

-- `if not test: raise e`
abbrev pub require {κ} : {E : Type κ} → Bool → E → Result E (Unit {0})
require true e = ok tt
require false e = err e

-- `if test: raise e`
abbrev pub raise_if {κ} : {E : Type κ} → Bool → E → Result E (Unit {0})
raise_if true e = err e
raise_if false e = ok tt

-- A block that returns has a first step that returns, whatever follows it.
pub bind-eq-ok {ℓ κ μ} :
    {E : Type κ} {A : Type ℓ} {B : Type μ} (first : Result E A) (rest : A → Result E B) {y : B}
    → (first >>= rest) ≡ ok y
    → (x : A) × (first ≡ ok x) × (rest x ≡ ok y)
bind-eq-ok (err raised) rest h = cc
bind-eq-ok (ok x) rest h = (x, refl, h)

pub require-eq-ok {κ} :
    {E : Type κ} (b : Bool) (e : E) {u : Unit {0}} → require b e ≡ ok u → b ≡ true
require-eq-ok true e h = refl
require-eq-ok false e h = cc

pub raise_if-eq-ok {κ} :
    {E : Type κ} (b : Bool) (e : E) {u : Unit {0}} → raise_if b e ≡ ok u → b ≡ false
raise_if-eq-ok true e h = cc
raise_if-eq-ok false e h = refl

pub ok-injective {ℓ κ} :
    {E : Type κ} {A : Type ℓ} {x y : A} → ◌≡◌ {A = Result E A} (ok x) (ok y) → x ≡ y
ok-injective h = cc

-- A call that returns a value beside the state it leaves.
pub ok-state {ℓ κ} :
    {E : Type κ} {A S : Type ℓ} {x y : A} {s t : S}
    → ◌≡◌ {A = Result E (A × S)} (ok (x, s)) (ok (y, t))
    → s ≡ t
ok-state h = cc

pub ok-value {ℓ κ} :
    {E : Type κ} {A S : Type ℓ} {x y : A} {s t : S}
    → ◌≡◌ {A = Result E (A × S)} (ok (x, s)) (ok (y, t))
    → x ≡ y
ok-value h = cc
