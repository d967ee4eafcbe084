-- ===== src/Agent/Tool.antt =====
-- The authorization of one tool call, and the budget of executions.
use eiraos_chat_backend.Prelude.{
  ℕ, ◌-◌, String, Bool, true, false, List, ◌||◌, not, if◌then◌else◌, leb, ◌==◌,
}
use eiraos_chat_backend.Prelude.Text.{is_empty, one_of}
use eiraos_chat_backend.Agent.Schema.{Schema}

pub record Tool : Type 0 where
  pub name : String
  pub version : String
  pub description : String
  pub input_schema : Schema
  pub output_schema : Schema
  pub capabilities : List String

pub record AuthorizationRequest : Type 0 where
  pub actor : String
  pub tool : Tool
  pub capability : String
  pub allowed_capabilities : List String

pub record AuthorizationDecision : Type 0 where
  pub allowed : Bool
  pub reason_code : String

abbrev pub decision : Bool → String → AuthorizationDecision
decision allowed reason_code = record { allowed = allowed; reason_code = reason_code }

unfoldable pub authorize_tool : AuthorizationRequest → AuthorizationDecision
authorize_tool r =
    if is_empty r.actor || is_empty r.capability
    then decision false "INVALID_REQUEST"
    else if not (one_of r.capability r.tool.capabilities)
    then decision false "CAPABILITY_NOT_DECLARED"
    else if not (one_of r.capability r.allowed_capabilities)
    then decision false "CAPABILITY_NOT_AUTHORIZED"
    else decision true "AUTHORIZED"

pub record BudgetDecision : Type 0 where
  pub allowed : Bool
  pub reason_code : String
  pub remaining_executions : ℕ

pub record ExecutionBudget : Type 0 where
  pub remaining : ℕ
  pub deadline : ℕ

abbrev answer : Bool → String → ℕ → BudgetDecision
answer allowed reason_code remaining = record {
  allowed = allowed;
  reason_code = reason_code;
  remaining_executions = remaining;
}

-- at the reading of the clock
unfoldable pub consume : ℕ → ExecutionBudget → BudgetDecision × ExecutionBudget
consume now b =
    if leb b.deadline now
    then (answer false "TIME_BUDGET_EXHAUSTED" b.remaining, b)
    else if b.remaining == 0
    then (answer false "EXECUTION_BUDGET_EXHAUSTED" 0, b)
    else (answer true "BUDGET_GRANTED" (b.remaining - 1), record b { remaining = b.remaining - 1 })
