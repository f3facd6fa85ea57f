-- ===== src/Tasks/Sources.antt =====
-- What the isinstance tests of services/agent_runtime/proposals.py and models.py say of a document
-- that passes them.
use esan_gbos.Prelude.{String, true, Option, none, some, ◌≡◌, ap, string_eq, opt_beq, eq_of_==}
use esan_gbos.Prelude.Json.{Json, str, arr, obj, num, boolean, null, float, Items, Fields}
use esan_gbos.Tasks.Errors.{Error, or_raise, ok}
use esan_gbos.Tasks.Documents.{as_str, as_obj, as_arr, some_injective}

pub as_str-some : (o : Option Json) (t : String) → as_str o ≡ some t → o ≡ some (str t)
as_str-some none t h = cc
as_str-some (some null) t h = cc
as_str-some (some (boolean b)) t h = cc
as_str-some (some (num n)) t h = cc
as_str-some (some (float f)) t h = cc
as_str-some (some (str u)) t h = cc (some_injective h)
as_str-some (some (arr xs)) t h = cc
as_str-some (some (obj gs)) t h = cc

pub as_obj-some : (o : Option Json) (fs : Fields) → as_obj o ≡ some fs → o ≡ some (obj fs)
as_obj-some none fs h = cc
as_obj-some (some null) fs h = cc
as_obj-some (some (boolean b)) fs h = cc
as_obj-some (some (num n)) fs h = cc
as_obj-some (some (float f)) fs h = cc
as_obj-some (some (str u)) fs h = cc
as_obj-some (some (arr xs)) fs h = cc
as_obj-some (some (obj gs)) fs h = cc (some_injective h)

pub as_arr-some : (o : Option Json) (items : Items) → as_arr o ≡ some items → o ≡ some (arr items)
as_arr-some none items h = cc
as_arr-some (some null) items h = cc
as_arr-some (some (boolean b)) items h = cc
as_arr-some (some (num n)) items h = cc
as_arr-some (some (float f)) items h = cc
as_arr-some (some (str u)) items h = cc
as_arr-some (some (arr xs)) items h = cc (some_injective h)
as_arr-some (some (obj gs)) items h = cc

pub opt_beq-some : (o : Option String) (t : String) → opt_beq o (some t) ≡ true → o ≡ some t
opt_beq-some none t h = cc
opt_beq-some (some u) t h = ap some (eq_of_== u t h)

pub or_raise-ok : {A : Type 0} (o : Option A) (e : Error) {a : A} → or_raise o e ≡ ok a → o ≡ some a
or_raise-ok none e h = cc
or_raise-ok (some b) e h = cc
