-- ===== src/Prelude/Booleans.antt =====
-- Boolean tests on native numbers and texts, the conditional, and case lemmas.
use Prim.Native.Nat.{ℕ, compare, Ordering}
use Prim.Native.String.{String}
use mathlib.Core.Path.{◌≡◌, refl}
use mathlib.Core.Logic.{◌↔◌, ◌⊎◌, ◌≢◌, inl, inr}
use mathlib.Core.Bool.{Bool, true, false}
use mathlib.Core.Option.{Option, none, some}
use native.Mathlib.Omega.{arith}
use text.Mathlib.Text.{◌==◌ as str_eq}
use text.Mathlib.TextEquality.{eq_iff as str_eq_iff}

abbrev pub ltb : ℕ → ℕ → Bool
ltb a b = elim (compare a b) [ Ordering.lt ↦ true | _ ↦ false ]

abbrev pub leb : ℕ → ℕ → Bool
leb a b = elim (compare a b) [ Ordering.gt ↦ false | _ ↦ true ]

abbrev nat_beq : ℕ → ℕ → Bool
nat_beq a b = elim (compare a b) [ Ordering.eq ↦ true | _ ↦ false ]

pub nat_beq_iff : (a b : ℕ) → (nat_beq a b ≡ true) ↔ (a ≡ b)
nat_beq_iff a b = ground arith

infix 1 if◌then◌else◌
abbrev pub if◌then◌else◌ {ℓ} : {A : Type ℓ} → Bool → A → A → A
if true then x else y = x
if false then x else y = y

-- `PartialEq` of the source, with the law that every derived instance has.
pub record PartialEq {ℓ} (A : Type ℓ) : Type ℓ where
  pub eq : A → A → Bool
  pub eq_iff : (x y : A) → (eq x y ≡ true) ↔ (x ≡ y)

instance abbrev pub string_eq : PartialEq String
string_eq = record { eq = str_eq; eq_iff = str_eq_iff }

instance abbrev pub nat_eq : PartialEq ℕ
nat_eq = record { eq = nat_beq; eq_iff = nat_beq_iff }

module _ {ℓ} {A : Type ℓ} ⦃i : PartialEq A⦄ where
  infix 50 ◌==◌
  abbrev pub ◌==◌ : A → A → Bool
  x == y = i.eq x y

  pub ==_iff : (x y : A) → ((x == y) ≡ true) ↔ (x ≡ y)
  ==_iff = i.eq_iff

  pub ==_refl : (x : A) → (x == x) ≡ true
  ==_refl x = (i.eq_iff x x).1 refl

  pub ==_ne : (x y : A) → x ≢ y → (x == y) ≡ false
  ==_ne x y h = ground (arith, i.eq_iff x y)

  pub ne_of_test : (x y : A) → (x == y) ≡ false → x ≢ y
  ne_of_test x y h p = cc (h, (i.eq_iff x y).1 p)

pub Bool-cases : (b : Bool) → (b ≡ true) ⊎ (b ≡ false)
Bool-cases true = inl refl
Bool-cases false = inr refl

pub Option-cases {ℓ} : {A : Type ℓ} (o : Option A) → (o ≡ none) ⊎ ((a : A) × (o ≡ some a))
Option-cases none = inl refl
Option-cases (some a) = inr (a, refl)

pub eq_of_true_iff : (x y : Bool) → (x ≡ true → y ≡ true) → (y ≡ true → x ≡ true) → x ≡ y
eq_of_true_iff x y f g = ground arith
