-- ===== src/Prelude/Json.antt =====
-- JSON values as the Python code holds them after parsing: dicts, lists and scalars. A float keeps
-- only its text, since no code modelled here computes with one.
use Prim.Native.String.{String}
use mathlib.Core.Bool.{Bool, true, false, ◌&&◌}
use mathlib.Core.List.{List, [], ◌∷◌}
use mathlib.Core.Option.{Option, none, some}
use esan_gbos.Prelude.Tests.{if◌then◌else◌}
use esan_gbos.Prelude.Classes.{◌==◌, string_eq, contains}
use esan_gbos.Prelude.Lists.{all}
use esan_gbos.Prelude.Int.{ℤ, pos, int_beq}

mutual
  pub data Json : Type 0 where
    null : Json
    boolean : Bool → Json
    num : ℤ → Json
    float : String → Json
    str : String → Json
    arr : Items → Json
    obj : Fields → Json

  pub data Items : Type 0 where
    nil : Items
    cons : Json → Items → Items

  pub data Fields : Type 0 where
    end : Fields
    field : String → Json → Fields → Fields

-- `value.get(key)`
abbrev pub get : String → Fields → Option Json
get k end = none
get k (field j v fs) = if j == k then some v else get k fs

-- `set(value)`
abbrev pub keys : Fields → List String
keys end = []
keys (field k _ fs) = k ∷ keys fs

-- Python's bool is an int.
abbrev pub int_of : Bool → ℤ
int_of true = pos 1
int_of false = pos 0

-- `a == b` on JSON values; a dict is compared without its order. A float equals only its own text.
unfoldable mutual
  pub json_beq : Json → Json → Bool
  json_beq null null = true
  json_beq (boolean a) (boolean b) = int_beq (int_of a) (int_of b)
  json_beq (boolean a) (num n) = int_beq (int_of a) n
  json_beq (num m) (boolean b) = int_beq m (int_of b)
  json_beq (num m) (num n) = int_beq m n
  json_beq (float a) (float b) = a == b
  json_beq (str a) (str b) = a == b
  json_beq (arr xs) (arr ys) = items_beq xs ys
  json_beq (obj fs) (obj gs) = all (λ k. contains k (keys fs)) (keys gs) && fields_beq fs gs
  json_beq _ _ = false

  pub items_beq : Items → Items → Bool
  items_beq nil nil = true
  items_beq (cons x xs) (cons y ys) = json_beq x y && items_beq xs ys
  items_beq _ _ = false

  -- Every field of the first dict is in the second.
  pub fields_beq : Fields → Fields → Bool
  fields_beq end gs = true
  fields_beq (field k v fs) gs =
      (elim (get k gs) [ none ↦ false | some w ↦ json_beq v w ]) && fields_beq fs gs
