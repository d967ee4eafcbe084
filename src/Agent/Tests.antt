-- ===== src/Agent/Tests.antt =====
-- A run of two tools under a budget of one.
use eiraos_chat_backend.Prelude.{
  leb, ◌&&◌, ◌||◌, String, List, str_eq, if◌then◌else◌, ◌≡◌, refl, some, true, false, [], ◌∷◌,
}
use eiraos_chat_backend.Prelude.Text.{one_of}
use eiraos_chat_backend.Prelude.Int.{pos}
use eiraos_chat_backend.Prelude.Rows.{select}
use eiraos_chat_backend.Prelude.Result.{ok, err}
use eiraos_chat_backend.Agent.Schema.{
  has_type, has_required, lookup, validate_schema, Value, null, integer, object, end, entry,
  any_value, typed, no_more, no_items,
}
use eiraos_chat_backend.Agent.Tool.{Tool, authorize_tool, ExecutionBudget, consume}
use eiraos_chat_backend.Agent.Run.{LoopStep, AgentRunLimits, Environment, returned, raised, audit}
use eiraos_chat_backend.Agent.Loop.{
  reason_of, finish, run_tool, spend, choose, round, rounds, run_agent_loop_async,
}
use eiraos_chat_backend.Agent.Trace.{executions, Inv}
use eiraos_chat_backend.Agent.Governed.{run-Governed}
use eiraos_chat_backend.Agent.Runtime.{
  duplicate_tool, register, get, bind_all, bind, Executor, AgentAuthority, Execute, policy,
  invocation, dispatch, governed,
}
use eiraos_chat_backend.Agent.Entitled.{AllEntitled, run-AllEntitled}

abbrev search : LoopStep
search = record { tool = "search"; capability = "web.read"; arguments = "{}" }

abbrev search_tool : Tool
search_tool = record {
  name = "search";
  version = "1";
  description = "looks on the web";
  input_schema = any_value;
  output_schema = typed (some "object") ("hits" ∷ []) false no_more no_items;
  capabilities = "web.read" ∷ [];
}

abbrev limits : AgentRunLimits
limits = record { max_depth = 5; timeout = 100; tool_timeout = 10 }

abbrev budget : ExecutionBudget
budget = record { remaining = 1; deadline = 100 }

unfoldable environment : Environment
unfolding authorize_tool
environment = record {
  is_async = true;
  planner = λ depth before. returned (some search);
  authorize = λ depth step. returned (
      authorize_tool (record {
        actor = "user:12";
        tool = search_tool;
        capability = step.capability;
        allowed_capabilities = "web.read" ∷ [];
      }));
  execute = λ depth step. returned "{\"hits\":1}";
  audit_fails = λ trace. false;
  started = 0;
  head_clock = λ depth. depth;
  budget_clock = λ depth. depth;
  tool_clock = λ depth. depth;
  late_clock = λ depth. depth;
  is_code_char = λ c. leb b'A' c && leb c b'Z' || leb b'0' c && leb c b'9';
}

run-Governed_example :
    Inv environment limits 1 5
      (run_agent_loop_async environment limits (record { trace = []; budget = budget })).1
run-Governed_example = run-Governed environment limits budget

-- the second tool is stopped by the budget
one_tool :
    executions
      (run_agent_loop_async environment limits (record { trace = []; budget = budget })).1.trace
    ≡ 1
unfolding environment run_agent_loop_async rounds round choose spend run_tool finish audit consume
    reason_of one_of authorize_tool
one_tool = refl

abbrev decode : String → Value
decode text =
    if str_eq text "{}"
    then object end
    else if str_eq text "{\"hits\":1}"
    then object (entry "hits" (integer (pos 1)) end)
    else null

abbrev search_hits : Execute
search_hits name arguments context = returned "{\"hits\":1}"

abbrev executors : List Executor
executors = ("search", true) ∷ []

abbrev authority : AgentAuthority
authority = record {
  actor = "user:12";
  organization_id = pos 7;
  resource_organization_id = pos 7;
  allowed_capabilities = "web.read" ∷ [];
}

search_bound : bind (search_tool ∷ []) executors ≡ ok (search_tool ∷ [])
unfolding bind bind_all get select
search_bound = refl

run-AllEntitled_example :
    AllEntitled decode
      (search_tool ∷ [])
      (search_tool ∷ [])
      executors
      search_hits
      authority
      search_bound
      (run_agent_loop_async
        (governed decode (search_tool ∷ []) search_hits authority environment)
        limits
        (record { trace = []; budget = budget })).1.trace
run-AllEntitled_example =
    run-AllEntitled decode (search_tool ∷ []) (search_tool ∷ []) executors search_hits authority
      search_bound environment limits budget

-- the runtime runs the one tool that the budget pays for
one_entitled :
    executions
      (run_agent_loop_async
        (governed decode (search_tool ∷ []) search_hits authority environment)
        limits
        (record { trace = []; budget = budget })).1.trace
    ≡ 1
unfolding environment run_agent_loop_async rounds round choose spend run_tool finish audit consume
    reason_of one_of authorize_tool policy dispatch get select validate_schema has_type has_required
    lookup
one_entitled = refl

-- a result without its hits is refused
abbrev search_nothing : Execute
search_nothing name arguments context = returned "{}"

unfit : dispatch decode (search_tool ∷ []) search_nothing authority search ≡ (
  invocation decode (search_tool ∷ []) search_nothing authority search search_tool ∷ [],
  raised,
)
unfolding dispatch policy get authorize_tool one_of select validate_schema has_type has_required
    lookup
unfit = refl

registered : register search_tool [] ≡ ok (search_tool ∷ [])
unfolding register select
registered = refl

registered_twice : register search_tool (search_tool ∷ []) ≡ err (duplicate_tool "search")
unfolding register select
registered_twice = refl
