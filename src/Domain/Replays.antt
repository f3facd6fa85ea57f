-- ===== src/Domain/Replays.antt =====
-- What execute_once of apps/esan_gbos/esan_gbos/domain/idempotency.py promises.
use esan_gbos.Prelude.{
  String, Option, none, some, if◌then◌else◌, ◌==◌, string_eq, ◌≡◌, refl, ap, ◌∙◌, subst, eq_of_==,
  Bool-cases, inl, inr,
}
use esan_gbos.Prelude.Dict.{Dict, lookup, lookup-insert_self}
use esan_gbos.Prelude.Json.{Json}
use esan_gbos.Domain.Commands.{
  IdempotencyRecord, Answer, returned, raised, idempotency_conflict, record_result, settle,
  execute_once,
}

module _ {A W : Type 0} (hash : String → String → Json → String) where
  -- What the key holds when the call has returned.
  abbrev Records : String → String → Answer A × Dict String (IdempotencyRecord A) × W → Type 0
  Records key digest (returned a, s, w) =
      lookup key s ≡ some (record { payload_hash = digest; result = a })
  Records key digest (raised, s, w) = Unit
  Records key digest (idempotency_conflict, s, w) = Unit

  record_result-Records :
      (key digest : String) (r : Option A × W) (s : Dict String (IdempotencyRecord A))
      → Records key digest (record_result key digest r s)
  record_result-Records key digest (none, w) s = tt
  record_result-Records key digest (some a, w) s =
      lookup-insert_self key (record { payload_hash = digest; result = a }) s

  settle-Records :
      (o : Option (IdempotencyRecord A)) (key digest : String) (execute : W → Option A × W)
      (s : Dict String (IdempotencyRecord A)) (w : W)
      → lookup key s ≡ o
      → Records key digest (settle o key digest execute s w)
  settle-Records none key digest execute s w e = record_result-Records key digest (execute w) s
  settle-Records (some existing) key digest execute s w e =
      elim (Bool-cases (existing.payload_hash == digest)) [
        | inl same ↦ rw same (
            e
            ∙ ap (λ d. some (record { payload_hash = d; result = existing.result }))
                (eq_of_== existing.payload_hash digest same))
        | inr other ↦ rw other tt
      ]

  execute_once-Records :
      (actor command key : String) (payload : Json) (execute : W → Option A × W)
      (s : Dict String (IdempotencyRecord A)) (w : W)
      → Records key
          (hash command actor payload)
          (execute_once hash actor command key payload execute s w)
  unfolding execute_once
  execute_once-Records actor command key payload execute s w =
      settle-Records (lookup key s) key (hash command actor payload) execute s w refl

  -- The second call, where the key is known.
  known_key :
      (actor command key : String) (payload : Json) (execute : W → Option A × W)
      (s : Dict String (IdempotencyRecord A)) (w : W) (existing : IdempotencyRecord A)
      → lookup key s ≡ some existing
      → execute_once hash actor command key payload execute s w ≡ (
          if existing.payload_hash == hash command actor payload
          then (returned existing.result, s, w)
          else (idempotency_conflict, s, w))
  unfolding execute_once
  known_key actor command key payload execute s w existing at =
      elim (Bool-cases (existing.payload_hash == hash command actor payload)) [
        | inl same ↦
            ap (λ o. settle o key (hash command actor payload) execute s w) at ∙ rw same refl
        | inr other ↦
            ap (λ o. settle o key (hash command actor payload) execute s w) at ∙ rw other refl
      ]

  -- After a call that returned a result, a call under the same key, with whatever command to run
  -- and in whatever world, runs nothing and changes no record: it returns the first result where
  -- the hash of its command, actor and payload is the first one, and raises IdempotencyConflict
  -- where it is another.
  pub execute_once-execute_once :
      (actor command key : String) (payload : Json) (execute : W → Option A × W)
      (s t : Dict String (IdempotencyRecord A)) (w v : W) (a : A)
      (again_actor again_command : String) (again_payload : Json) (again_execute : W → Option A × W)
      (u : W)
      → execute_once hash actor command key payload execute s w ≡ (returned a, t, v)
      → execute_once hash again_actor again_command key again_payload again_execute t u ≡ (
          if hash command actor payload == hash again_command again_actor again_payload
          then (returned a, t, u)
          else (idempotency_conflict, t, u))
  execute_once-execute_once actor command key payload execute s t w v a again_actor again_command
        again_payload again_execute u first =
      let at =
        subst (Records key (hash command actor payload)) first
          (execute_once-Records actor command key payload execute s w) in
      known_key again_actor again_command key again_payload again_execute t u
        (record { payload_hash = hash command actor payload; result = a }) at
