-- ===== src/Kingdee/Frozen.antt =====
-- services/kingdee_adapter/policy.py: what load guarantees of a policy.
use esan_gbos.Prelude.{
  String, true, not, some, ◌∷◌, ◌≡◌, refl, subst, contains, string_eq, nat_eq, ◌==◌, all, length,
}
use esan_gbos.Prelude.Dict.{lookup, values, IsDict}
use esan_gbos.Prelude.Json.{Fields, get}
use esan_gbos.Tasks.Documents.{
  as_str, as_arr, texts, same_keys, bind-some, require-some, some_injective,
}
use esan_gbos.Kingdee.Models.{QueryPlan}
use esan_gbos.Kingdee.Contracts.{
  FrozenKingdeePolicy, ends_with, dict_keys, same_dict, tool_mapping, dictionary_plans,
  none_mutates, is_fifty, required_forbidden, load,
}
use esan_gbos.Kingdee.Tables.{IsPlan, tool_mapping-lem, dictionary_plans-IsPlan, keys-all}

-- What load promises of a policy.
pub record IsFrozen (p : FrozenKingdeePolicy) : Type 0 where
  pub rows : p.max_rows ≡ 50
  pub tools : IsDict p.tool_to_object × (length p.tool_to_object ≡ 7)
  pub listed :
      (p.read_tools ≡ dict_keys p.tool_to_object) × (p.tools ≡ "metadata.get" ∷ p.read_tools)
  pub reads :
      (tool logical_object : String)
      → lookup tool p.tool_to_object ≡ some logical_object
      → ends_with tool ".get" ≡ true
  pub plans :
      (logical_object : String) (plan : QueryPlan)
      → lookup logical_object p.object_plans ≡ some plan
      → IsPlan p.tool_to_object logical_object plan
  pub covered : same_keys (dict_keys p.object_plans) (values p.tool_to_object) ≡ true
  pub forbidden :
      all (λ token. contains token p.forbidden_operation_tokens) required_forbidden ≡ true

pub load-IsFrozen :
    (allowlist manifest dictionary : Fields) (policy : FrozenKingdeePolicy)
    → load allowlist manifest dictionary ≡ some policy
    → IsFrozen policy
unfolding load
load-IsFrozen allowlist manifest dictionary policy h0 =
    let (tools, read, h1) = bind-some (tool_mapping (get "tools" allowlist)) _ h0 in
    let (manifest_tools, _, h2) = bind-some (tool_mapping (get "tools" manifest)) _ h1 in
    let (_, h3) = require-some (same_dict tools manifest_tools) _ h2 in
    let (reads, h4) = require-some (all (λ tool. ends_with tool ".get") (dict_keys tools)) _ h3 in
    let (listed, _, h5) = bind-some (as_arr (get "tools" manifest)) _ h4 in
    let (_, h6) = require-some (none_mutates listed) _ h5 in
    let (plans, planned, h7) = bind-some (dictionary_plans (get "objects" dictionary) tools) _ h6 in
    let (covered, h8) = require-some (same_keys (dict_keys plans) (values tools)) _ h7 in
    let (_, h9) = require-some (is_fifty (get "max_rows" allowlist)) _ h8 in
    let (tokens, _, h10) = bind-some (as_arr (get "forbidden_operation_tokens" allowlist)) _ h9 in
    let (forbidden_tokens, _, h11) = bind-some (texts tokens) _ h10 in
    let (_, h12) = require-some (all (λ token. not (token == "")) forbidden_tokens) _ h11 in
    let (forbidden, h13) =
      require-some (all (λ token. contains token forbidden_tokens) required_forbidden) _ h12 in
    let (allowlist_version, _, h14) =
      bind-some (as_str (get "allowlist_version" allowlist)) _ h13 in
    let (dictionary_version, _, h15) =
      bind-some (as_str (get "dictionary_version" dictionary)) _ h14 in
    let mapped = tool_mapping-lem (get "tools" allowlist) tools read in
    subst IsFrozen (some_injective h15) (record {
      rows = refl;
      tools = mapped;
      listed = (refl, refl);
      reads = λ tool o at. keys-all (λ t. ends_with t ".get") tools tool o reads at;
      plans = dictionary_plans-IsPlan tools mapped.0 (get "objects" dictionary) plans planned;
      covered = covered;
      forbidden = forbidden;
    })
