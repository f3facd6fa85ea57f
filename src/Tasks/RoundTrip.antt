-- ===== src/Tasks/RoundTrip.antt =====
-- services/agent_runtime/models.py: LocalPilotTaskPayload printed and read back.
use esan_gbos.Prelude.{
  ℕ, zero, suc, String, Bool, true, false, not, ◌&&◌, ◌||◌, Option, none, some, List, [], ◌∷◌, ◌≡◌,
  refl, ap, ◌∙◌, arith, contains, string_eq, ref_eq, all, ltb, if◌then◌else◌, eq_of_==,
}
use esan_gbos.Prelude.Int.{ℤ, pos}
use esan_gbos.Prelude.Json.{Json, Items, Fields, end, field, str, arr, obj, num}
use esan_gbos.Tasks.Errors.{ok, validation_error, or_raise}
use esan_gbos.Tasks.Documents.{texts, require, ◌>>=◌, ◌>>◌}
use esan_gbos.Tasks.Payload.{
  LocalPilotTaskPayload, Patterns, pii_keys, schema, items_of, fact_json, fact_items, to_mapping,
  checked, has_pii, has_pii_fields, has_pii_items, is_ref, read_fact, read_facts, is_payload,
  read_mapping, from_mapping,
}

-- The keys that to_mapping writes.
abbrev pub written_keys : List String
written_keys =
    "schema_version" ∷ "evidence_refs" ∷ "fact_version_refs" ∷ "subject" ∷ "request" ∷ "revision"
    ∷ "requested_by" ∷ "decision_ref" ∷ "expected_action_type" ∷ "candidate_refs" ∷ "fact_id"
    ∷ "fact_version" ∷ []

texts-items_of : (ss : List String) → texts (items_of ss) ≡ some ss
texts-items_of [] = refl
texts-items_of (s ∷ ss) = rw (texts-items_of ss) refl

-- A chain of reads that all succeed.
all_read :
    {A B C D : Type 0} {b : Bool} {o : Option A} {q : Option B} {r : Option C} {a : A} {e : B}
    {c : C} (k : A → B → C → Option D)
    → b ≡ false
    → o ≡ some a
    → q ≡ some e
    → r ≡ some c
    → (require (not b) >> (o >>= λ i. q >>= λ j. r >>= λ l. k i j l)) ≡ k a e c
all_read {o} {q} {r} {a} {e} k clean first second third =
    ap (λ t. require (not t) >> (o >>= λ i. q >>= λ j. r >>= λ l. k i j l)) clean
    ∙ ap (λ t. t >>= λ i. q >>= λ j. r >>= λ l. k i j l) first
    ∙ ap (λ t. t >>= λ j. r >>= λ l. k a j l) second
    ∙ ap (λ t. t >>= λ l. k a e l) third

module _ (x : Patterns) where
  -- What LocalPilotFactVersionRef checks: a positive version of an opaque reference.
  abbrev pub is_fact : String × ℕ → Bool
  is_fact (fact_id, fact_version) = is_ref x fact_id && ltb 0 fact_version

  read_fact-fact_json : (r : String × ℕ) → is_fact r ≡ true → read_fact x (fact_json r) ≡ some r
  read_fact-fact_json (f, zero) h = ground arith
  read_fact-fact_json (f, suc n) h = ground arith

  read_facts-fact_items :
      (rs : List (String × ℕ)) → all is_fact rs ≡ true → read_facts x (fact_items rs) ≡ some rs
  unfolding read_facts
  read_facts-fact_items [] h = refl
  read_facts-fact_items (r ∷ rs) h =
      let first = read_fact-fact_json r (ground arith) in
      let rest = read_facts-fact_items rs (ground arith) in
      ap (λ o. o >>= λ q. read_facts x (fact_items rs) >>= λ qs. some (q ∷ qs)) first
      ∙ ap (λ o. o >>= λ qs. some (r ∷ qs)) rest

  items_clean :
      (ss : List String) → all (is_ref x) ss ≡ true → has_pii_items x (items_of ss) ≡ false
  unfolding has_pii
  items_clean [] h = refl
  items_clean (s ∷ ss) h = let ih = items_clean ss (ground arith) in ground arith

  module _ (fixed : (k : String) → contains k written_keys ≡ true → x.folded k ≡ k) where
    checked_payload : (p : LocalPilotTaskPayload) → is_payload x p ≡ true → checked x p ≡ some p
    checked_payload p h = ap (λ b. if b then some p else none) h

    -- A written key is no key of personal data.
    field_clean :
        (k : String) (v : Json) (fs : Fields)
        → contains k written_keys ≡ true
        → contains k pii_keys ≡ false
        → has_pii x v ≡ false
        → has_pii_fields x fs ≡ false
        → has_pii_fields x (field k v fs) ≡ false
    unfolding has_pii
    field_clean k v fs written plain first rest =
        ap (λ j. contains j pii_keys || (has_pii x v || has_pii_fields x fs)) (fixed k written)
        ∙ ap (λ b. b || (has_pii x v || has_pii_fields x fs)) plain
        ∙ ap (λ b. b || has_pii_fields x fs) first
        ∙ rest

    obj_clean : (fs : Fields) → has_pii_fields x fs ≡ false → has_pii x (obj fs) ≡ false
    unfolding has_pii
    obj_clean fs h = h

    arr_clean : (xs : Items) → has_pii_items x xs ≡ false → has_pii x (arr xs) ≡ false
    unfolding has_pii
    arr_clean xs h = h

    ref_clean : (s : String) → is_ref x s ≡ true → has_pii x (str s) ≡ false
    unfolding has_pii
    ref_clean s h = ground arith

    text_clean : (s : String) → x.has_direct_pii s ≡ false → has_pii x (str s) ≡ false
    unfolding has_pii
    text_clean s h = h

    num_clean : (n : ℤ) → has_pii x (num n) ≡ false
    unfolding has_pii
    num_clean n = refl

    end_clean : has_pii_fields x end ≡ false
    unfolding has_pii
    end_clean = refl

    fact_clean : (r : String × ℕ) → is_fact r ≡ true → has_pii x (fact_json r) ≡ false
    fact_clean (f, n) h = obj_clean _ (
        field_clean "fact_id" (str f) _ refl refl (ref_clean f (ground arith))
          (field_clean "fact_version" (num (pos n)) end refl refl (num_clean (pos n)) end_clean))

    facts_clean :
        (rs : List (String × ℕ)) → all is_fact rs ≡ true → has_pii_items x (fact_items rs) ≡ false
    unfolding has_pii_items
    facts_clean [] h = refl
    facts_clean (r ∷ rs) h =
        ap (λ b. b || has_pii_items x (fact_items rs)) (fact_clean r (ground arith))
        ∙ facts_clean rs (ground arith)

    to_mapping-clean :
        (p : LocalPilotTaskPayload)
        → x.has_direct_pii schema ≡ false
        → is_payload x p ≡ true
        → all is_fact p.fact_version_refs ≡ true
        → has_pii x (to_mapping p) ≡ false
    unfolding to_mapping
    to_mapping-clean p plain valid facts = obj_clean _ (
        field_clean "schema_version" (str p.schema_version) _ refl refl
          (text_clean p.schema_version
            (ap x.has_direct_pii (eq_of_== p.schema_version schema (ground arith)) ∙ plain))
          (field_clean "evidence_refs" (arr (items_of p.evidence_refs)) _ refl refl
            (arr_clean _ (items_clean p.evidence_refs (ground arith)))
            (field_clean "fact_version_refs" (arr (fact_items p.fact_version_refs)) _ refl refl
              (arr_clean _ (facts_clean p.fact_version_refs facts))
              (field_clean "subject" _ _ refl refl
                (obj_clean _ (
                  field_clean "revision" (num (pos p.subject_revision)) end refl refl (num_clean _)
                    end_clean))
                (field_clean "request" _ end refl refl
                  (obj_clean _ (
                    field_clean "requested_by" (str p.requested_by) _ refl refl
                      (ref_clean p.requested_by (ground arith))
                      (field_clean "decision_ref" (str p.decision_ref) _ refl refl
                        (ref_clean p.decision_ref (ground arith))
                        (field_clean "expected_action_type" (str p.expected_action_type) _ refl refl
                          (ref_clean p.expected_action_type (ground arith))
                          (field_clean "candidate_refs" (arr (items_of p.candidate_refs)) end refl
                            refl (arr_clean _ (items_clean p.candidate_refs (ground arith)))
                            end_clean)))))
                  end_clean)))))

    read_mapping-to_mapping :
        (p : LocalPilotTaskPayload)
        → x.has_direct_pii schema ≡ false
        → is_payload x p ≡ true
        → all is_fact p.fact_version_refs ≡ true
        → read_mapping x (to_mapping p) ≡ some p
    unfolding read_mapping to_mapping
    read_mapping-to_mapping p plain valid facts =
        all_read _ (to_mapping-clean p plain valid facts) (texts-items_of p.evidence_refs)
          (read_facts-fact_items p.fact_version_refs facts) (texts-items_of p.candidate_refs)
        ∙ checked_payload p valid

  -- A payload that satisfies the checks of its constructors is printed to a mapping that reads
  -- back as the same payload, where key folding fixes the keys that are written and the name of
  -- the schema is no personal data.
  pub from_mapping-to_mapping :
      (p : LocalPilotTaskPayload)
      → ((k : String) → contains k written_keys ≡ true → x.folded k ≡ k)
      → x.has_direct_pii schema ≡ false
      → is_payload x p ≡ true
      → all is_fact p.fact_version_refs ≡ true
      → from_mapping x (to_mapping p) ≡ ok p
  unfolding from_mapping
  from_mapping-to_mapping p fixed plain valid facts =
      ap (λ o. or_raise o validation_error) (read_mapping-to_mapping fixed p plain valid facts)
