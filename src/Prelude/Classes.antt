-- ===== src/Prelude/Classes.antt =====
-- Decidable equality as an interface, with the instances that the models use.
use Prim.Native.Nat.{ℕ}
use Prim.Native.String.{String}
use text.Mathlib.Text.{◌==◌ as str_eq}
use text.Mathlib.TextEquality.{eq_iff}
use mathlib.Core.Path.{◌≡◌, refl}
use mathlib.Core.Logic.{◌↔◌}
use mathlib.Core.Bool.{Bool, true, false, ◌&&◌, ◌||◌}
use mathlib.Core.List.{List, [], ◌∷◌}
use mathlib.Core.Option.{Option, none, some}
use native.Mathlib.Omega.{arith}
use esan_gbos.Prelude.Tests.{nat_beq, nat_beq_iff}

-- A Boolean test that decides equality.
pub record Eq {ℓ} (K : Type ℓ) : Type ℓ where
  pub equal : K → K → Bool
  pub equal_iff : (x y : K) → (equal x y ≡ true) ↔ (x ≡ y)

instance abbrev pub string_eq : Eq String
string_eq = record { equal = str_eq; equal_iff = eq_iff }

instance abbrev pub nat_eq : Eq ℕ
nat_eq = record { equal = nat_beq; equal_iff = nat_beq_iff }

infix 50 ◌==◌
abbrev pub ◌==◌ {κ} : {K : Type κ} ⦃e : Eq K⦄ → K → K → Bool
◌==◌ ⦃e⦄ x y = e.equal x y

pub eq_of_== {κ} : {K : Type κ} ⦃e : Eq K⦄ (x y : K) → (x == y) ≡ true → x ≡ y
eq_of_== ⦃e⦄ x y h = (e.equal_iff x y).0 h

pub ==_refl {κ} : {K : Type κ} ⦃e : Eq K⦄ (x : K) → (x == x) ≡ true
==_refl ⦃e⦄ x = (e.equal_iff x x).1 refl

-- The keys of the repositories: a site with a name in it, and one more with an attempt.
abbrev pub pair_beq : String × String → String × String → Bool
pair_beq (a, b) (c, d) = str_eq a c && str_eq b d

pub pair_beq_iff : (p q : String × String) → (pair_beq p q ≡ true) ↔ (p ≡ q)
pair_beq_iff (a, b) (c, d) = ground (arith, eq_iff a c, eq_iff b d)

instance abbrev pub pair_eq : Eq (String × String)
pair_eq = record { equal = pair_beq; equal_iff = pair_beq_iff }

abbrev pub triple_beq : String × String × ℕ → String × String × ℕ → Bool
triple_beq (a, b, c) (d, e, f) = str_eq a d && (str_eq b e && nat_beq c f)

pub triple_beq_iff : (p q : String × String × ℕ) → (triple_beq p q ≡ true) ↔ (p ≡ q)
triple_beq_iff (a, b, c) (d, e, f) = ground (arith, eq_iff a d, eq_iff b e)

instance abbrev pub triple_eq : Eq (String × String × ℕ)
triple_eq = record { equal = triple_beq; equal_iff = triple_beq_iff }

abbrev pub ref_beq : String × ℕ → String × ℕ → Bool
ref_beq (a, m) (b, n) = str_eq a b && nat_beq m n

pub ref_beq_iff : (p q : String × ℕ) → (ref_beq p q ≡ true) ↔ (p ≡ q)
ref_beq_iff (a, m) (b, n) = ground (arith, eq_iff a b)

instance abbrev pub ref_eq : Eq (String × ℕ)
ref_eq = record { equal = ref_beq; equal_iff = ref_beq_iff }

module _ {ℓ} {A : Type ℓ} ⦃e : Eq A⦄ where
  abbrev pub opt_beq : Option A → Option A → Bool
  opt_beq none none = true
  opt_beq none (some _) = false
  opt_beq (some _) none = false
  opt_beq (some a) (some b) = a == b

  abbrev pub list_beq : List A → List A → Bool
  list_beq [] [] = true
  list_beq [] (_ ∷ _) = false
  list_beq (_ ∷ _) [] = false
  list_beq (a ∷ as') (b ∷ bs) = a == b && list_beq as' bs

  pub list_beq_refl : (xs : List A) → list_beq xs xs ≡ true
  list_beq_refl [] = refl
  list_beq_refl (x ∷ xs) = ground (arith, (e.equal_iff x x).1 refl, list_beq_refl xs)

  pub list_beq→eq : (xs ys : List A) → list_beq xs ys ≡ true → xs ≡ ys
  list_beq→eq [] [] h = refl
  list_beq→eq [] (_ ∷ _) h = cc
  list_beq→eq (_ ∷ _) [] h = cc
  list_beq→eq (x ∷ xs) (y ∷ ys) h = ground (arith, (e.equal_iff x y).0, list_beq→eq xs ys)

  -- Python's `in` over a set or a sequence.
  abbrev pub contains : A → List A → Bool
  contains a [] = false
  contains a (x ∷ xs) = a == x || contains a xs

  -- `len(xs) == len(set(xs))`
  abbrev pub is_unique : List A → Bool
  is_unique [] = true
  is_unique (x ∷ xs) = mathlib.Core.Bool.not (contains x xs) && is_unique xs
