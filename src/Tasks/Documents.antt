-- ===== src/Tasks/Documents.antt =====
-- How the queue reads a JSON document: the isinstance tests of from_execution and from_mapping.
use esan_gbos.Prelude.{
  ℕ, String, Bool, true, false, ◌&&◌, Option, none, some, List, [], ◌∷◌, if◌then◌else◌, string_eq,
  nat_eq, ref_eq, contains, all, ◌≡◌, refl, ap,
}
use esan_gbos.Prelude.Int.{ℤ, pos, negsuc}
use esan_gbos.Prelude.Json.{
  Json, boolean, num, str, arr, obj, Items, nil, cons, Fields, get, keys, int_of,
}

infixl 5 ◌>>=◌ ◌>>◌
abbrev pub ◌>>=◌ : {A B : Type 0} → Option A → (A → Option B) → Option B
none >>= f = none
some a >>= f = f a

abbrev pub ◌>>◌ : {B : Type 0} → Option (Unit {0}) → Option B → Option B
m >> k = m >>= λ _. k

abbrev pub require : Bool → Option (Unit {0})
require b = if b then some tt else none

-- isinstance tests on `document.get(...)`. Python's bool is an int.
abbrev pub as_str : Option Json → Option String
as_str (some (str s)) = some s
as_str _ = none

abbrev pub as_obj : Option Json → Option Fields
as_obj (some (obj fs)) = some fs
as_obj _ = none

abbrev pub as_arr : Option Json → Option Items
as_arr (some (arr xs)) = some xs
as_arr _ = none

abbrev pub as_int : Option Json → Option ℤ
as_int (some (num n)) = some n
as_int (some (boolean b)) = some (int_of b)
as_int _ = none

-- A list whose members are all texts.
abbrev pub texts : Items → Option (List String)
texts nil = some []
texts (cons (str s) xs) = elim (texts xs) [ none ↦ none | some rest ↦ some (s ∷ rest) ]
texts (cons _ xs) = none

-- `set(value) == {...}`
abbrev pub same_keys : List String → List String → Bool
same_keys ks wanted = all (λ k. contains k wanted) ks && all (λ w. contains w ks) wanted

-- One entry of `fact_version_refs`.
abbrev pub fact_ref : Json → Option (String × ℤ)
fact_ref (obj fs) =
    if same_keys (keys fs) ("fact_id" ∷ "fact_version" ∷ [])
    then (elim (as_str (get "fact_id" fs)) [
      | none ↦ none
      | some f ↦ elim (as_int (get "fact_version" fs)) [ none ↦ none | some v ↦ some (f, v) ]
    ])
    else none
fact_ref _ = none

abbrev pub fact_refs_of : Items → Option (List (String × ℤ))
fact_refs_of nil = some []
fact_refs_of (cons x xs) = elim (fact_ref x) [
  | none ↦ none
  | some r ↦ elim (fact_refs_of xs) [ none ↦ none | some rest ↦ some (r ∷ rest) ]
]

-- `value < 0` raises.
abbrev pub non_negative : ℤ → Option ℕ
non_negative (pos n) = some n
non_negative (negsuc _) = none

abbrev pub is_empty {ℓ} : {A : Type ℓ} → List A → Bool
is_empty [] = true
is_empty (_ ∷ _) = false

-- What a chain of optional results that gives a value went through.
module _ {A B : Type 0} where
  pub bind-some :
      (m : Option A) (f : A → Option B) {b : B}
      → m >>= f ≡ some b
      → (a : A) × (m ≡ some a) × (f a ≡ some b)
  bind-some none f h = cc
  bind-some (some a) f h = (a, refl, h)

pub require-some :
    {B : Type 0} (b : Bool) (k : Option B) {v : B}
    → require b >> k ≡ some v
    → (b ≡ true) × (k ≡ some v)
require-some true k h = (refl, h)
require-some false k h = cc

pub some_injective : {A : Type 0} {a b : A} → some a ≡ some b → a ≡ b
some_injective {A} {a} h = ap (λ o. elim o [ none ↦ a | some c ↦ c ]) h
