-- ===== src/Prelude/Equality.antt =====
-- Decidable equality as an interface, and its instances.
use Prim.Native.Nat.{ℕ}
use Prim.Native.String.{String}
use mathlib.Core.Path.{◌≡◌, refl}
use mathlib.Core.Logic.{◌↔◌}
use mathlib.Core.Bool.{Bool, true, false, ◌&&◌}
use mathlib.Core.List.{List, [], ◌∷◌}
use mathlib.Core.Option.{Option, none, some}
use native.Mathlib.Omega.{arith}
use text.Mathlib.Text.{◌==◌ as str_eq}
use text.Mathlib.TextEquality.{eq_iff}
use autoschematic.Prelude.Tests.{nat_eq, nat_eq_iff}

-- A test on a type and what it decides.
pub record Eq {ℓ} (A : Type ℓ) : Type ℓ where
  pub beq : A → A → Bool
  pub beq_iff : (x y : A) → (beq x y ≡ true) ↔ (x ≡ y)

module _ {ℓ} {A : Type ℓ} ⦃e : Eq A⦄ where
  -- The derived `==` of the source.
  infix 50 ◌==◌
  abbrev pub ◌==◌ : A → A → Bool
  x == y = e.beq x y

  pub ==_iff : (x y : A) → ((x == y) ≡ true) ↔ (x ≡ y)
  ==_iff x y = e.beq_iff x y

  pub ==_refl : (x : A) → e.beq x x ≡ true
  ==_refl x = (==_iff x x).1 refl

instance abbrev pub string_equality : Eq String
string_equality = record { beq_iff = eq_iff; beq = str_eq }

instance abbrev pub nat_equality : Eq ℕ
nat_equality = record { beq_iff = nat_eq_iff; beq = nat_eq }

module _ {ℓ} {A : Type ℓ} ⦃e : Eq A⦄ where
  abbrev pub list_eq : List A → List A → Bool
  list_eq [] [] = true
  list_eq (x ∷ xs) (y ∷ ys) = e.beq x y && list_eq xs ys
  list_eq _ _ = false

  pub list_eq_iff : (xs ys : List A) → (list_eq xs ys ≡ true) ↔ (xs ≡ ys)
  list_eq_iff [] [] = ground arith
  list_eq_iff [] (y ∷ ys) = ground arith
  list_eq_iff (x ∷ xs) [] = ground arith
  list_eq_iff (x ∷ xs) (y ∷ ys) = ground (arith, e.beq_iff x y, list_eq_iff xs ys)

  instance abbrev pub list_equality : Eq (List A)
  list_equality = record { beq = list_eq; beq_iff = list_eq_iff }

  abbrev pub option_eq : Option A → Option A → Bool
  option_eq none none = true
  option_eq (some x) (some y) = e.beq x y
  option_eq _ _ = false

  pub option_eq_iff : (x y : Option A) → (option_eq x y ≡ true) ↔ (x ≡ y)
  option_eq_iff none none = ground arith
  option_eq_iff none (some y) = ground arith
  option_eq_iff (some x) none = ground arith
  option_eq_iff (some x) (some y) = ground (arith, e.beq_iff x y)

  instance abbrev pub option_equality : Eq (Option A)
  option_equality = record { beq = option_eq; beq_iff = option_eq_iff }

module _ {ℓ κ} {A : Type ℓ} {B : Type κ} ⦃e : Eq A⦄ ⦃d : Eq B⦄ where
  abbrev pub pair_eq : A × B → A × B → Bool
  pair_eq p q = e.beq p.0 q.0 && d.beq p.1 q.1

  pub pair_eq_iff : (p q : A × B) → (pair_eq p q ≡ true) ↔ (p ≡ q)
  pair_eq_iff (a, b) (c, f) = ground (arith, e.beq_iff a c, d.beq_iff b f)

  instance abbrev pub pair_equality : Eq (A × B)
  pair_equality = record { beq = pair_eq; beq_iff = pair_eq_iff }
