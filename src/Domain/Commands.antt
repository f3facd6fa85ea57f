-- ===== src/Domain/Commands.antt =====
-- apps/esan_gbos/esan_gbos/domain/idempotency.py: execute_once over the in-memory repository. The
-- command is a step on a world `W` that returns a result or raises; what Python raises through
-- execute_once is `raised` here.
use esan_gbos.Prelude.{String, not, Option, none, some, if◌then◌else◌, ◌==◌, string_eq}
use esan_gbos.Prelude.Dict.{Dict, lookup, insert}
use esan_gbos.Prelude.Json.{Json}

pub record IdempotencyRecord (A : Type 0) : Type 0 where
  pub payload_hash : String
  pub result : A

pub data Answer (A : Type 0) : Type 0 where
  returned : A → Answer A
  raised : Answer A
  idempotency_conflict : Answer A

-- The in-memory repository.
abbrev pub Store : Type 0 → Type 0
Store A = Dict String (IdempotencyRecord A)

module _ {A W : Type 0} where
  -- repository.put, after a command that returned.
  abbrev pub record_result : String → String → Option A × W → Store A → Answer A × Store A × W
  record_result key digest (none, w) s = (raised, s, w)
  record_result key digest (some a, w) s =
      (returned a, insert key (record { payload_hash = digest; result = a }) s, w)

  -- execute_once after its look at the key.
  abbrev pub settle :
      Option (IdempotencyRecord A)
      → String
      → String
      → (W → Option A × W)
      → Store A
      → W
      → Answer A × Store A × W
  settle none key digest execute s w = record_result key digest (execute w) s
  settle (some existing) key digest execute s w =
      if not (existing.payload_hash == digest)
      then (idempotency_conflict, s, w)
      else (returned existing.result, s, w)

-- `command_payload_hash` is SHA-256 over canonical JSON, from the standard library.
unfoldable pub execute_once :
    {A W : Type 0} (command_payload_hash : String → String → Json → String)
    → String
    → String
    → String
    → Json
    → (W → Option A × W)
    → Store A
    → W
    → Answer A × Store A × W
execute_once command_payload_hash actor command key payload execute s w =
    let digest = command_payload_hash command actor payload in
    settle (lookup key s) key digest execute s w
