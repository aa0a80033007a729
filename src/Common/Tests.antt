-- ===== src/Common/Tests.antt =====
-- Boolean tests on the native numbers, the conditional, and case splits that keep an equation.
use Prim.Native.Nat.{ℕ, compare, Ordering}
use mathlib.Core.Path.{◌≡◌, refl, subst}
use mathlib.Core.Logic.{◌↔◌, ◌⊎◌, inl, inr}
use mathlib.Core.Bool.{Bool, true, false}
use mathlib.Core.Option.{Option, none, some}
use native.Mathlib.Omega.{arith}

abbrev pub ltb : ℕ → ℕ → Bool
ltb a b = elim (compare a b) [ Ordering.lt ↦ true | _ ↦ false ]

abbrev pub leb : ℕ → ℕ → Bool
leb a b = elim (compare a b) [ Ordering.gt ↦ false | _ ↦ true ]

infix 50 ◌==◌
abbrev pub ◌==◌ : ℕ → ℕ → Bool
a == b = elim (compare a b) [ Ordering.eq ↦ true | _ ↦ false ]

infix 1 if◌then◌else◌
abbrev pub if◌then◌else◌ {ℓ} : {A : Type ℓ} → Bool → A → A → A
if true then x else y = x
if false then x else y = y

pub ==_iff : (a b : ℕ) → ((a == b) ≡ true) ↔ (a ≡ b)
==_iff a b = ground arith

pub ==_refl : (a : ℕ) → (a == a) ≡ true
==_refl a = ground arith

pub Bool-cases : (b : Bool) → (b ≡ true) ⊎ (b ≡ false)
Bool-cases true = inl refl
Bool-cases false = inr refl

pub Option-cases {ℓ} : {A : Type ℓ} (o : Option A) → (o ≡ none) ⊎ ((a : A) × (o ≡ some a))
Option-cases none = inl refl
Option-cases (some a) = inr (a, refl)

-- A chain of steps, of which one may fail: `none` where an assert of the source fires.
infixl 5 ◌>>=◌ ◌>>◌
abbrev pub ◌>>=◌ {ℓ κ} : {A : Type ℓ} {B : Type κ} → Option A → (A → Option B) → Option B
none >>= f = none
some a >>= f = f a

abbrev pub ◌>>◌ {ℓ} : {B : Type ℓ} → Option (Unit {0}) → Option B → Option B
m >> k = m >>= λ _. k

-- CYROS_ASSERT and CYROS_REQUIRE.
abbrev pub check : Bool → Option (Unit {0})
check true = some tt
check false = none

-- `p == &t`
abbrev pub points_to : Option ℕ → ℕ → Bool
points_to none t = false
points_to (some u) t = u == t

abbrev pub is_some {ℓ} : {A : Type ℓ} → Option A → Bool
is_some none = false
is_some (some a) = true

-- Related branches under equal tests; and branches that are each related to one value.
pub if_both {ℓ κ μ} :
    {A : Type ℓ} {B : Type κ} (R : A → B → Type μ) (b b' : Bool) (x y : A) (x' y' : B)
    → b ≡ b'
    → (b ≡ true → R x x')
    → (b ≡ false → R y y')
    → R (if b then x else y) (if b' then x' else y')
if_both R true true x y x' y' e t f = t refl
if_both R false false x y x' y' e t f = f refl
if_both R true false x y x' y' e t f = cc e
if_both R false true x y x' y' e t f = cc e

pub if_each {ℓ κ} :
    {A : Type ℓ} (P : A → Type κ) (b : Bool) (x y : A)
    → (b ≡ true → P x)
    → (b ≡ false → P y)
    → P (if b then x else y)
if_each P true x y t f = t refl
if_each P false x y t f = f refl

-- What holds of the result of a computation, where its checks pass.
pub got {ℓ κ} : {A : Type ℓ} (P : A → Type κ) (x r : A) → P x → some x ≡ some r → P r
got P x r p e = subst P (cc e) p

pub checked {ℓ κ} :
    {A : Type ℓ} (P : A → Type κ) (b : Bool) (x r : A)
    → (b ≡ true → P x)
    → (check b >>= λ u. some x) ≡ some r
    → P r
checked P true x r p e = subst P (cc e) (p refl)
checked P false x r p e = cc e

pub checked_both {ℓ κ} :
    {A : Type ℓ} (P : A → Type κ) (b c : Bool) (x r : A)
    → (b ≡ true → c ≡ true → P x)
    → (check b >>= λ u. check c >>= λ v. some x) ≡ some r
    → P r
checked_both P true true x r p e = subst P (cc e) (p refl refl)
checked_both P true false x r p e = cc e
checked_both P false c x r p e = cc e
