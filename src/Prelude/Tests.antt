-- ===== src/Prelude/Tests.antt =====
-- Boolean tests on numbers, the conditional, equality as an interface, and case splits.
use Prim.Native.Nat.{ℕ, compare, Ordering}
use Prim.Native.String.{String}
use mathlib.Core.Path.{◌≡◌, refl}
use mathlib.Core.Logic.{◌↔◌, ◌⊎◌, ◌≢◌, inl, inr}
use mathlib.Core.Bool.{Bool, true, false, not}
use mathlib.Core.Option.{Option, none, some}
use native.Mathlib.Omega.{arith}
use text.Mathlib.Text.{◌==◌ as str_eq}
use text.Mathlib.TextEquality.{eq_iff}

abbrev pub ltb : ℕ → ℕ → Bool
ltb a b = elim (compare a b) [ Ordering.lt ↦ true | _ ↦ false ]

abbrev pub leb : ℕ → ℕ → Bool
leb a b = elim (compare a b) [ Ordering.gt ↦ false | _ ↦ true ]

abbrev pub nat_same : ℕ → ℕ → Bool
nat_same a b = elim (compare a b) [ Ordering.eq ↦ true | _ ↦ false ]

infix 1 if◌then◌else◌
abbrev pub if◌then◌else◌ {ℓ} : {A : Type ℓ} → Bool → A → A → A
if true then x else y = x
if false then x else y = y

pub nat_same_iff : (a b : ℕ) → (nat_same a b ≡ true) ↔ (a ≡ b)
nat_same_iff a b = ground arith

pub record Equality {ℓ} (A : Type ℓ) : Type ℓ where
  pub same : A → A → Bool
  pub same_iff : (a b : A) → (same a b ≡ true) ↔ (a ≡ b)

-- The source's `===`, at every type that has an instance.
infix 50 ◌==◌
abbrev pub ◌==◌ {ℓ} : {A : Type ℓ} ⦃e : Equality A⦄ → A → A → Bool
◌==◌ ⦃e⦄ = e.same

instance abbrev pub nat_equality : Equality ℕ
nat_equality = record { same = nat_same; same_iff = nat_same_iff }

instance abbrev pub text_equality : Equality String
text_equality = record { same = str_eq; same_iff = eq_iff }

abbrev option_same {ℓ} : {A : Type ℓ} → (A → A → Bool) → Option A → Option A → Bool
option_same f none none = true
option_same f none (some b) = false
option_same f (some a) none = false
option_same f (some a) (some b) = f a b

pub option_same_iff {ℓ} :
    {A : Type ℓ} (e : Equality A) (a b : Option A) → (option_same e.same a b ≡ true) ↔ (a ≡ b)
option_same_iff e none none = ground arith
option_same_iff e none (some b) = ground arith
option_same_iff e (some a) none = ground arith
option_same_iff e (some a) (some b) = ground (arith, e.same_iff a b)

instance abbrev pub option_equality {ℓ} : {A : Type ℓ} ⦃e : Equality A⦄ → Equality (Option A)
option_equality ⦃e⦄ = record { same = option_same e.same; same_iff = option_same_iff e }

abbrev bool_same : Bool → Bool → Bool
bool_same true b = b
bool_same false b = not b

pub bool_same_iff : (a b : Bool) → (bool_same a b ≡ true) ↔ (a ≡ b)
bool_same_iff a b = ground arith

instance abbrev pub bool_equality : Equality Bool
bool_equality = record { same = bool_same; same_iff = bool_same_iff }

pub same_refl {ℓ} : {A : Type ℓ} (e : Equality A) (a : A) → e.same a a ≡ true
same_refl e a = (e.same_iff a a).1 refl

pub same_apart {ℓ} : {A : Type ℓ} (e : Equality A) (a b : A) → e.same a b ≡ false → a ≢ b
same_apart e a b h p = absurd (ground (arith, e.same_iff a b))

-- To split on a computed value and keep the equation.
pub Bool-cases : (b : Bool) → (b ≡ true) ⊎ (b ≡ false)
Bool-cases true = inl refl
Bool-cases false = inr refl

pub Option-cases {ℓ} : {A : Type ℓ} (o : Option A) → (o ≡ none) ⊎ ((a : A) × (o ≡ some a))
Option-cases none = inl refl
Option-cases (some a) = inr (a, refl)

abbrev pub is_some {ℓ} : {A : Type ℓ} → Option A → Bool
is_some none = false
is_some (some a) = true

abbrev pub is_none {ℓ} : {A : Type ℓ} → Option A → Bool
is_none none = true
is_none (some a) = false

-- `o ?? d` of the source.
abbrev pub or_else {ℓ} : {A : Type ℓ} → Option A → A → A
or_else none d = d
or_else (some a) d = a
