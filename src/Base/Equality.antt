-- ===== src/Base/Equality.antt =====
-- JavaScript's `===`, one operator at every type that has a decided equality.
use Prim.Native.Nat.{ℕ, compare, Ordering}
use Prim.Native.String.{String}
use mathlib.Core.Path.{◌≡◌, refl}
use mathlib.Core.Logic.{◌↔◌}
use mathlib.Core.Bool.{Bool, true, false}
use native.Mathlib.Omega.{arith}
use text.Mathlib.Text as Text
use text.Mathlib.TextEquality as TextEquality

-- A type whose values `===` can compare.
pub record Eq {ℓ} (K : Type ℓ) : Type ℓ where
  pub same : K → K → Bool
  pub same_iff : (j k : K) → (same j k ≡ true) ↔ (j ≡ k)

module _ {ℓ} {K : Type ℓ} ⦃e : Eq K⦄ where
  infix 50 ◌==◌
  abbrev pub ◌==◌ : K → K → Bool
  j == k = e.same j k

  pub ==_iff : (j k : K) → ((j == k) ≡ true) ↔ (j ≡ k)
  ==_iff j k = e.same_iff j k

  pub ==_refl : (k : K) → (k == k) ≡ true
  ==_refl k = (e.same_iff k k).1 refl

  pub eq_of_== : (j k : K) → (j == k) ≡ true → j ≡ k
  eq_of_== j k = (e.same_iff j k).0

abbrev pub nat_beq : ℕ → ℕ → Bool
nat_beq a b = elim (compare a b) [ Ordering.eq ↦ true | _ ↦ false ]

pub nat_beq_iff : (a b : ℕ) → (nat_beq a b ≡ true) ↔ (a ≡ b)
nat_beq_iff a b = ground arith

instance abbrev pub string_eq : Eq String
string_eq = record { same = Text.◌==◌; same_iff = TextEquality.eq_iff }

instance abbrev pub nat_eq : Eq ℕ
nat_eq = record { same = nat_beq; same_iff = nat_beq_iff }
