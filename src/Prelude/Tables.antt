-- ===== src/Prelude/Tables.antt =====
-- Facts about constant tables: a test that computes for all rows holds of every row that is found.
use mathlib.Core.Path.{◌≡◌, sym, subst}
use mathlib.Core.Logic.{inl, inr}
use mathlib.Core.Bool.{Bool, true, false, not}
use mathlib.Core.Option.{some}
use mathlib.Core.List.{List, [], ◌∷◌}
use native.Mathlib.Omega.{arith}
use esan_gbos.Prelude.Tests.{Bool-cases}
use esan_gbos.Prelude.Lists.{all, any}
use esan_gbos.Prelude.Classes.{Eq, ◌==◌, eq_of_==, contains}
use esan_gbos.Prelude.Dict.{Dict, lookup}

module _ {ℓ} {A : Type ℓ} ⦃e : Eq A⦄ where
  pub contains-all :
      (p : A → Bool) (a : A) (xs : List A) → contains a xs ≡ true → all p xs ≡ true → p a ≡ true
  contains-all p a [] h t = cc
  contains-all p a (x ∷ xs) h t = elim (Bool-cases (a == x)) [
    | inl same ↦ subst (λ b. p b ≡ true) (sym (eq_of_== a x same)) (ground arith)
    | inr other ↦ contains-all p a xs (ground arith) (ground arith)
  ]

  -- A member of a list is in no list that is disjoint from it.
  pub contains-disjoint :
      (a : A) (xs ys : List A)
      → all (λ x. not (contains x ys)) xs ≡ true
      → contains a xs ≡ true
      → contains a ys ≡ false
  contains-disjoint a xs ys apart h =
      let out = contains-all (λ x. not (contains x ys)) a xs h apart in ground arith

  pub lookup-all {κ} :
      {V : Type κ} (p : A → V → Bool) (k : A) {v : V} (d : Dict A V)
      → lookup k d ≡ some v
      → all (λ row. p row.0 row.1) d ≡ true
      → p k v ≡ true
  unfolding lookup
  lookup-all p k [] h t = cc
  lookup-all p k {v} ((j, w) ∷ d) h t = elim (Bool-cases (j == k)) [
    | inl same ↦
        let is_it : w ≡ v = ground (arith, h, same) in
        let here : p j w ≡ true = ground arith in
        subst (λ i. p i v ≡ true) (eq_of_== j k same) (subst (λ u. p j u ≡ true) is_it here)
    | inr other ↦ lookup-all p k d (ground (arith, h, other)) (ground arith)
  ]

pub any-exists {ℓ} :
    {A : Type ℓ} (p q : A → Bool) (xs : List A)
    → ((x : A) → p x ≡ true → q x ≡ true)
    → any p xs ≡ true
    → any q xs ≡ true
any-exists p q [] f h = cc
any-exists p q (x ∷ xs) f h = elim (Bool-cases (p x)) [
  | inl e ↦ let here = f x e in ground arith
  | inr e ↦ let rest = any-exists p q xs f (ground arith) in ground arith
]
