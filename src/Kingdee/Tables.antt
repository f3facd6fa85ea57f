-- ===== src/Kingdee/Tables.antt =====
-- services/kingdee_adapter/policy.py: what the loops of load make of the parsed contracts.
use esan_gbos.Prelude.{
  suc, String, Bool, true, false, not, ◌&&◌, Option, some, List, [], ◌∷◌, ◌≡◌, inl, inr, refl, sym,
  ap, ◌∙◌, subst, arith, string_eq, nat_eq, ◌==◌, eq_of_==, is_unique, all, length, map, All,
  All-map, both, Bool-cases,
}
use esan_gbos.Prelude.Dict.{Dict, lookup, insert, IsDict, insert-IsDict, lookup-insert_cases}
use esan_gbos.Prelude.Tables.{lookup-all}
use esan_gbos.Prelude.Json.{Json, Items, nil, cons, get}
use esan_gbos.Tasks.Documents.{
  as_str, as_obj, as_arr, is_empty, bind-some, require-some, some_injective,
}
use esan_gbos.Kingdee.Models.{QueryPlan}
use esan_gbos.Kingdee.Contracts.{
  has_key, dict_keys, tool_entry, read_tools, tool_mapping, inverse, candidate_value, Column,
  read_columns, logical_names, plan_of, read_plan, read_plans, dictionary_plans,
}

-- A frozen plan for an object: it is for a tool of that object, names its fields once, and lets
-- no caller add a filter.
pub record IsPlan (tools : Dict String String) (logical_object : String) (plan : QueryPlan)
    : Type 0 where
  pub about : plan.logical_object ≡ logical_object
  pub tool : lookup plan.tool_name tools ≡ some logical_object
  pub unfiltered : plan.filters ≡ []
  pub named : (is_empty plan.fields ≡ false) × (is_unique plan.fields ≡ true)
  pub typed :
      (length plan.source_fields ≡ length plan.fields)
      × (length plan.field_types ≡ length plan.fields)

read_tools-IsDict :
    (items : Items) (result tools : Dict String String)
    → IsDict result
    → read_tools items result ≡ some tools
    → IsDict tools
unfolding read_tools
read_tools-IsDict nil result tools d h = subst IsDict (some_injective h) d
read_tools-IsDict (cons item items) result tools d h0 =
    let (entry, _, h1) = bind-some (tool_entry item) _ h0 in
    let (_, h2) = require-some (not (has_key entry.0 result)) _ h1 in
    read_tools-IsDict items _ tools (insert-IsDict entry.0 entry.1 result d) h2

pub tool_mapping-lem :
    (value : Option Json) (tools : Dict String String)
    → tool_mapping value ≡ some tools
    → IsDict tools × (length tools ≡ 7)
unfolding tool_mapping
tool_mapping-lem value tools h0 =
    let (items, _, h1) = bind-some (as_arr value) _ h0 in
    let (result, read, h2) = bind-some (read_tools items []) _ h1 in
    let (seven, h3) = require-some (length result == 7) _ h2 in
    subst (λ d. IsDict d × (length d ≡ 7)) (some_injective h3)
      (read_tools-IsDict items [] result tt read, eq_of_== _ _ seven)

-- What holds of every row of a dict holds of what a key finds in its inverse.
inverse-lem :
    (P : String → String → Type 0) (result d : Dict String String)
    → ((o tool : String) → lookup o result ≡ some tool → P o tool)
    → All (λ row. P row.1 row.0) d
    → (o tool : String) → lookup o (inverse result d) ≡ some tool
    → P o tool
unfolding inverse
inverse-lem P result [] f h o tool found = f o tool found
inverse-lem P result ((t, object) ∷ d) f h o tool found =
    inverse-lem P (insert object t result) d step h.1 o tool found
  where
    step : (o tool : String) → lookup o (insert object t result) ≡ some tool → P o tool
    step o tool at = elim (lookup-insert_cases object o t result at) [
      | inl (same, is_it) ↦ subst (λ k. P k tool) same (subst (P object) is_it h.0)
      | inr (_, before) ↦ f o tool before
    ]

-- A key of a dict finds the value of its row.
rows_found : (d : Dict String String) → IsDict d → All (λ row. lookup row.0 d ≡ some row.1) d
unfolding lookup
rows_found [] h = tt
rows_found ((k, v) ∷ d) h = (
  ground (arith, string_eq.equal_iff k k),
  All-map _ _ d
      (λ row found. elim (Bool-cases (k == row.0)) [
        | inl same ↦ absurd (cc (h.0, found, eq_of_== k row.0 same))
        | inr other ↦ ground arith
      ])
      (rows_found d h.1),
)

length-map : {A B : Type 0} (f : A → B) (xs : List A) → length (map f xs) ≡ length xs
length-map f [] = refl
length-map f (x ∷ xs) = ap suc (length-map f xs)

no_entry : {V : Type 0} {v : V} (k : String) → lookup k [] ≡ some v → ⊥
unfolding lookup
no_entry k h = cc

inverse_found :
    (d : Dict String String)
    → IsDict d
    → (o tool : String) → lookup o (inverse [] d) ≡ some tool
    → lookup tool d ≡ some o
inverse_found d unique =
    inverse-lem (λ o tool. lookup tool d ≡ some o) [] d (λ o tool at. absurd (no_entry o at))
      (rows_found d unique)

plan_of-IsPlan :
    (tools : Dict String String) (tool logical_object source_form : String) (columns : List Column)
    → lookup tool tools ≡ some logical_object
    → not (is_empty columns) && is_unique (logical_names columns) ≡ true
    → IsPlan tools logical_object (plan_of tool logical_object source_form columns)
plan_of-IsPlan tools tool logical_object source_form columns at named = record {
  about = refl;
  tool = at;
  unfiltered = refl;
  named = (is_empty-map columns (both _ _ named).0, (both _ _ named).1);
  typed = (
    length-map (λ column. column.source_field) columns
        ∙ sym (length-map (λ column. column.logical_name) columns),
    length-map (λ column. column.data_type) columns
        ∙ sym (length-map (λ column. column.logical_name) columns),
  );
}
  where
    is_empty-map :
        (cs : List Column) → not (is_empty cs) ≡ true → is_empty (logical_names cs) ≡ false
    is_empty-map [] h = cc
    is_empty-map (_ ∷ _) h = refl

module _ (tools : Dict String String) (d : IsDict tools) where
  read_plan-IsPlan :
      (value : Json) (plan : QueryPlan)
      → read_plan (inverse [] tools) value ≡ some plan
      → IsPlan tools plan.logical_object plan
  unfolding read_plan
  read_plan-IsPlan value plan h0 =
      let (item, _, h1) = bind-some (as_obj (some value)) _ h0 in
      let (logical_object, _, h2) = bind-some (as_str (get "logical_object" item)) _ h1 in
      let (source_form, _, h3) = bind-some (candidate_value (get "candidate_form" item)) _ h2 in
      let (_, h4) = require-some (not (source_form == "")) _ h3 in
      let (fields, _, h5) = bind-some (as_arr (get "fields" item)) _ h4 in
      let (columns, _, h6) = bind-some (read_columns fields) _ h5 in
      let (named, h7) =
        require-some (not (is_empty columns) && is_unique (logical_names columns)) _ h6 in
      let (tool_name, at, h8) = bind-some (lookup logical_object (inverse [] tools)) _ h7 in
      subst (λ p. IsPlan tools p.logical_object p) (some_injective h8)
        (plan_of-IsPlan tools tool_name logical_object source_form columns
          (inverse_found tools d logical_object tool_name at) named)

  read_plans-IsPlan :
      (items : Items) (result plans : Dict String QueryPlan)
      → ((o : String) (plan : QueryPlan) → lookup o result ≡ some plan → IsPlan tools o plan)
      → read_plans (inverse [] tools) items result ≡ some plans
      → (o : String) (plan : QueryPlan) → lookup o plans ≡ some plan
      → IsPlan tools o plan
  unfolding read_plans
  read_plans-IsPlan nil result plans f h o plan found =
      f o plan (ap (lookup o) (some_injective h) ∙ found)
  read_plans-IsPlan (cons value items) result plans f h0 o' plan' found' =
      let (plan, read, h1) = bind-some (read_plan (inverse [] tools) value) _ h0 in
      read_plans-IsPlan items _ plans
        (λ o p at. elim (lookup-insert_cases plan.logical_object o plan result at) [
          | inl (same, is_it) ↦
              subst (λ k. IsPlan tools k p) same
                (subst (IsPlan tools plan.logical_object) is_it (read_plan-IsPlan value plan read))
          | inr (_, before) ↦ f o p before
        ])
        h1 o' plan' found'

  pub dictionary_plans-IsPlan :
      (value : Option Json) (plans : Dict String QueryPlan)
      → dictionary_plans value tools ≡ some plans
      → (o : String) (plan : QueryPlan) → lookup o plans ≡ some plan
      → IsPlan tools o plan
  unfolding dictionary_plans
  dictionary_plans-IsPlan value plans h0 =
      let (items, _, h1) = bind-some (as_arr value) _ h0 in
      read_plans-IsPlan items [] plans (λ o plan at. absurd (no_entry o at)) h1

-- A test of all keys of a dict holds of every key that finds something.
pub keys-all :
    {V : Type 0} (p : String → Bool) (d : Dict String V) (k : String) (v : V)
    → all p (dict_keys d) ≡ true
    → lookup k d ≡ some v
    → p k ≡ true
keys-all p d k v h at = lookup-all (λ j _. p j) k d at (rows d h)
  where
    rows :
        {V : Type 0} (d : Dict String V)
        → all p (dict_keys d) ≡ true
        → all (λ row. p row.0) d ≡ true
    rows [] h = refl
    rows ((j, _) ∷ d) h =
        let rest : all (λ row. p row.0) d ≡ true = rows d (both (p j) _ h).1 in ground arith
