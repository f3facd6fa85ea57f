-- ===== src/Agents/Provider.antt =====
-- services/agent_runtime/agents.py: DeterministicLocalProvider.
use esan_gbos.Prelude.{String, true, false, List, [], ◌∷◌, any}
use esan_gbos.Prelude.Json.{boolean, str, arr, Fields, end, field}
use esan_gbos.Tasks.Proposals.{Externals}
use esan_gbos.Tasks.Drafts.{occurs_in}
use esan_gbos.Tasks.Payload.{items_of}
use esan_gbos.Agents.Inputs.{Try, gave, AgentKind, sales, purchase, product, ceo, AgentInput}
use esan_gbos.Agents.Orchestrator.{ProviderOutput, ModelProvider}

-- _INJECTION_MARKERS
abbrev pub injection_markers : List String
injection_markers =
    "ignore previous" ∷ "system prompt" ∷ "reveal" ∷ "send whatsapp" ∷ "publish a quotation"
    ∷ "create a kingdee" ∷ "mark the deal won" ∷ "query the database" ∷ "official revenue forecast"
    ∷ []

-- The action type, the payload, the confidence and the prompt of each kind of agent.
abbrev pub draft_of : AgentInput → AgentKind → String × Fields × String × String
draft_of request sales = (
  "internal.work_item.propose",
  field "title" (str "客户内部跟进") (
      field "summary" (str "创建内部跟进工作项，由销售人工确认下一步。")
        (field "subject_ref" (str request.subject_ref) end)),
  "0.82",
  "sales-agent-prompt-v1",
)
draft_of request purchase = (
  "internal.review_case.propose",
  field "title" (str "候选供应商比较审核") (
      field "summary" (str "比较合成候选信息并提交人工审核，不执行供应商选择。") (
        field "candidate_refs" (arr (items_of request.candidate_refs)) (
          field "recommendation" (str "提交人工审核")
            (field "subject_ref" (str request.subject_ref) end)))),
  "0.78",
  "purchase-agent-prompt-v1",
)
draft_of request product = (
  "internal.work_item.propose",
  field "title" (str "样品反馈内部处理") (
      field "summary" (str "创建样品反馈工作项，由产品人员评估下一轮调整。")
        (field "subject_ref" (str request.subject_ref) end)),
  "0.8",
  "product-agent-prompt-v1",
)
draft_of request ceo = (
  "internal.ai_draft.propose",
  field "title" (str "经营观察草稿（演示）") (
      field "summary" (str "根据已确认的合成事实生成内部观察草稿，由负责人复核证据。") (
        field "synthetic" (boolean true) (
          field "display_label" (str "演示数据") (
            field "source_mode" (str "synthetic_agent_context") (
              field "is_official_metric" (boolean false) (
                field "is_official_forecast" (boolean false) (
                  field "requires_human_review" (boolean true)
                    (field "subject_ref" (str request.subject_ref) end)))))))),
  "0.74",
  "ceo-agent-prototype-prompt-v1",
)

-- generate
unfoldable pub generate : Externals → AgentInput → Try ProviderOutput
generate x request =
    let (action_type, payload, confidence, prompt_version) = draft_of request request.agent_kind in
    gave (record {
      action_type = action_type;
      payload = payload;
      confidence = confidence;
      injection_detected =
          any (λ marker. occurs_in marker (x.casefold request.raw_context)) injection_markers;
      prompt_version = prompt_version;
      network_calls = 0;
      model_api_calls = 0;
      tool_calls = 0;
      invocations = [];
    })

abbrev pub local_provider : Externals → ModelProvider
local_provider x = record {
  provider_version = "deterministic-local-v1";
  tool_version = "no-tools-v1";
  generate = generate x;
}
