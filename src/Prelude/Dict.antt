-- ===== src/Prelude/Dict.antt =====
-- A Python dict as an association list in insertion order. Assignment replaces the entry of a key
-- or adds one at the end, so the keys stay distinct.
use esan_gbos.Prelude.Tests.{if◌then◌else◌, Bool-cases}
use esan_gbos.Prelude.Classes.{Eq, ◌==◌, ==_refl, eq_of_==}
use esan_gbos.Prelude.Lists.{All, Distinct, keep}
use mathlib.Core.Path.{◌≡◌, refl, sym, ap, ◌∙◌, subst}
use mathlib.Core.Logic.{◌⊎◌, ◌≢◌, inl, inr}
use mathlib.Core.List.{List, [], ◌∷◌}
use mathlib.Core.Bool.{Bool, true}
use mathlib.Core.Option.{Option, none, some}
use native.Mathlib.Omega.{arith}

abbrev pub Dict {ℓ κ} : Type ℓ → Type κ → Type (ℓ ⊔ κ)
Dict K V = List (K × V)

module _ {ℓ κ} {K : Type ℓ} {V : Type κ} ⦃e : Eq K⦄ where
  -- `d.get(k)`
  unfoldable pub lookup : K → Dict K V → Option V
  lookup k [] = none
  lookup k ((j, v) ∷ d) = if j == k then some v else lookup k d

  -- `d[k] = v`
  unfoldable pub insert : K → V → Dict K V → Dict K V
  insert k v [] = (k, v) ∷ []
  insert k v ((j, w) ∷ d) = if j == k then (j, v) ∷ d else (j, w) ∷ insert k v d

  -- `d.values()`
  unfoldable pub values : Dict K V → List V
  values [] = []
  values ((_, v) ∷ d) = v ∷ values d

  pub lookup-insert :
      (k j : K) (v : V) (d : Dict K V)
      → lookup j (insert k v d) ≡ (if k == j then some v else lookup j d)
  unfolding lookup insert
  lookup-insert k j v [] = refl
  lookup-insert k j v ((i, w) ∷ d) =
      ground (arith, e.equal_iff k j, e.equal_iff i k, e.equal_iff i j, lookup-insert k j v d)

  pub lookup-insert_self : (k : K) (v : V) (d : Dict K V) → lookup k (insert k v d) ≡ some v
  lookup-insert_self k v d = simp (lookup-insert, ==_refl)

  pub lookup-insert_ne :
      (k j : K) (v : V) (d : Dict K V) → k ≢ j → lookup j (insert k v d) ≡ lookup j d
  lookup-insert_ne k j v d ne = elim (Bool-cases (k == j)) [
    | inl same ↦ absurd (ne (eq_of_== k j same))
    | inr other ↦ simp (lookup-insert, other)
  ]

  -- What a key finds after an assignment is the new value, or what it found before.
  pub lookup-insert_cases :
      (k j : K) (v : V) (d : Dict K V) {w : V}
      → lookup j (insert k v d) ≡ some w
      → ((k ≡ j) × (v ≡ w)) ⊎ ((k ≢ j) × (lookup j d ≡ some w))
  lookup-insert_cases k j v d h = elim (Bool-cases (k == j)) [
    | inl same ↦ inl (eq_of_== k j same, ground (arith, lookup-insert k j v d))
    | inr other ↦
        inr ((λ e'. cc (other, (e.equal_iff k j).1 e')), ground (arith, lookup-insert k j v d))
  ]

  -- No key is listed twice.
  abbrev pub IsDict : Dict K V → Type κ
  IsDict [] = Unit
  IsDict ((k, _) ∷ d) = (lookup k d ≡ none) × IsDict d

  pub insert-IsDict : (k : K) (v : V) (d : Dict K V) → IsDict d → IsDict (insert k v d)
  unfolding insert lookup
  insert-IsDict k v [] h = (refl, tt)
  insert-IsDict k v ((j, w) ∷ d) h =
      ground
        (arith, e.equal_iff k j, e.equal_iff j k, lookup-insert k j v d, insert-IsDict k v d h.1)

  -- What holds of every entry that a key finds holds of every value.
  pub All-values {μ} :
      (P : V → Type μ) (d : Dict K V)
      → IsDict d
      → ((k : K) (v : V) → lookup k d ≡ some v → P v)
      → All P (values d)
  unfolding lookup values
  All-values P [] h f = tt
  All-values P ((k, v) ∷ d) h f = (
    f k v (ground (arith, e.equal_iff k k)),
    All-values P d h.1 λ j w found. f j w (elim (Bool-cases (k == j)) [
      | inl same ↦ ground (arith, h.0, sym (eq_of_== k j same), found)
      | inr other ↦ ground arith
    ]),
  )

  -- A value that some key finds and that passes a test is among the values that pass it.
  pub keep-values {μ} :
      (Q : V → Type μ) (p : V → Bool) (k : K) (v : V) (d : Dict K V)
      → lookup k d ≡ some v
      → p v ≡ true
      → All Q (keep p (values d))
      → Q v
  unfolding lookup values
  keep-values Q p k v [] found passes h = cc
  keep-values Q p k v ((j, w) ∷ d) found passes h = elim (Bool-cases (j == k)) [
    | inl same ↦
        let is_it : w ≡ v = ground (arith, found, same) in
        subst Q is_it (
          (subst (λ b. All Q (if b then w ∷ keep p (values d) else keep p (values d)))
            (ap p is_it ∙ passes) h).0)
    | inr other ↦
        keep-values Q p k v d (ground (arith, found, other)) passes (elim (Bool-cases (p w)) [
          | inl e ↦
              (subst (λ b. All Q (if b then w ∷ keep p (values d) else keep p (values d))) e h).1
          | inr e ↦ subst (λ b. All Q (if b then w ∷ keep p (values d) else keep p (values d))) e h
        ])
  ]

  -- Where each value names its own key, no two values have one name.
  pub Distinct-values :
      (name : V → K) (d : Dict K V)
      → IsDict d
      → ((k : K) (v : V) → lookup k d ≡ some v → name v ≡ k)
      → Distinct name (values d)
  unfolding lookup values
  Distinct-values name [] h f = tt
  Distinct-values name ((k, v) ∷ d) h f = (
    All-values (λ w. name v ≢ name w) d h.1
        (λ j w found same. cc (
          h.0,
          found,
          ap (λ i. lookup i d)
              (sym (f k v (ground (arith, e.equal_iff k k))) ∙ same ∙ rest_named j w found),
        )),
    Distinct-values name d h.1 rest_named,
  )
    where
      rest_named : (j : K) (w : V) → lookup j d ≡ some w → name w ≡ j
      rest_named j w found = f j w (elim (Bool-cases (k == j)) [
        | inl same ↦ ground (arith, h.0, sym (eq_of_== k j same), found)
        | inr other ↦ ground arith
      ])
