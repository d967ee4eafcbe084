-- ===== src/Agent/Loop.antt =====
-- `run_agent_loop_async`: one round at a depth, and the rounds up to the depth limit.
use eiraos_chat_backend.Prelude.{
  ℕ, zero, suc, ◌+◌, String, Option, none, some, Bool, true, ◌&&◌, ◌||◌, ◌==◌, not, leb, str_eq,
  if◌then◌else◌,
}
use Prim.Native.Char.{code}
use eiraos_chat_backend.Prelude.Text.{is_empty, char_count}
use eiraos_chat_backend.Agent.Tool.{AuthorizationDecision, BudgetDecision, consume}
use eiraos_chat_backend.Agent.Run.{
  LoopStep, LoopOutcome, AgentRunLimits, run_started, planner_decision, tool_selected,
  authorization_decision, budget_decision, tool_execution_started, tool_execution_failed,
  tool_execution_completed, observation_received, run_terminated, executed, finished, cancelled_run,
  Call, returned, timed_out, raised, cancelled, Environment, Run, ◌>>=◌, ◌>>◌, give, stop, write,
  audit,
}

-- `_terminal`
abbrev pub terminal : String → Option String → ℕ → Option String → LoopOutcome
terminal status reason depth observation = record {
  status = status;
  observation = observation;
  reason_code = reason;
  steps = depth;
}

abbrev has_only : (ℕ → Bool) → String → Bool
has_only p String.[] = true
has_only p (String.◌∷◌ c s) = p (code c) && has_only p s

-- `_reason_code`
unfoldable pub reason_of : Environment → String → String
reason_of env value =
    if not (is_empty value)
      && leb (char_count value) 64
      && has_only (λ c. env.is_code_char c || c == b'_') value
    then value
    else "UNSAFE_REASON_CODE"

module _ (env : Environment) (limits : AgentRunLimits) where
  abbrev pub deadline : ℕ
  deadline = env.started + limits.timeout

  -- `finish`
  unfoldable pub finish : {A : Type 0} → LoopOutcome → Run A
  finish o = do audit env (run_terminated o); stop (finished o)

  abbrev pub timeout_at : ℕ → LoopOutcome
  timeout_at depth = terminal "TIMEOUT" (some "RUN_DEADLINE_EXCEEDED") depth none

  -- the tool's call is over
  abbrev pub observe : ℕ → LoopStep → Option String → Call String → Run String
  observe depth step before (returned value) = do
    audit env (tool_execution_completed depth step)
    audit env (observation_received (suc depth) value)
    give value
  observe depth step before timed_out =
      let reason =
        if leb deadline (env.late_clock depth) then "RUN_DEADLINE_EXCEEDED" else "TOOL_TIMEOUT" in
      do
        audit env (tool_execution_failed "timeout" reason depth step)
        finish (terminal "TIMEOUT" (some reason) depth before)
  observe depth step before cancelled =
      let over = terminal "CANCELLED" (some "RUN_CANCELLED") depth before in
      do
        audit env (tool_execution_failed "cancelled" "RUN_CANCELLED" depth step)
        audit env (run_terminated over)
        stop cancelled_run
  observe depth step before raised = do
    audit env (tool_execution_failed "failed" "TOOL_FAILED" depth step)
    finish (terminal "FAILED" (some "TOOL_FAILED") depth before)

  -- the tool runs
  unfoldable pub run_tool : ℕ → LoopStep → Option String → Run String
  run_tool depth step before = do
    audit env (tool_execution_started depth step)
    write (executed depth step)
    observe depth step before (env.execute depth step)

  abbrev pub within_time : ℕ → LoopStep → Option String → Run String
  within_time depth step before =
      if leb deadline (env.tool_clock depth)
      then finish (timeout_at depth)
      else run_tool depth step before

  abbrev pub verdict_of : Bool → String
  verdict_of allowed = if allowed then "allowed" else "denied"

  abbrev pub budgeted : ℕ → LoopStep → Option String → BudgetDecision → Run String
  budgeted depth step before b = do
    audit env (
        budget_decision (verdict_of b.allowed) (reason_of env b.reason_code) depth
          b.remaining_executions)
    if not b.allowed
        then finish (
            terminal
              (if str_eq (reason_of env b.reason_code) "TIME_BUDGET_EXHAUSTED"
                then "TIMEOUT"
                else "BUDGET_EXHAUSTED")
              (some (reason_of env b.reason_code)) depth before)
        else within_time depth step before

  -- `budget.consume()`
  unfoldable pub spend : ℕ → LoopStep → Option String → Run String
  spend depth step before s =
      let (b, left) = consume (env.budget_clock depth) s.budget in
      budgeted depth step before b (record s { budget = left })

  abbrev pub decided : ℕ → LoopStep → Option String → Call AuthorizationDecision → Run String
  decided depth step before (returned d) = do
    audit env (authorization_decision (verdict_of d.allowed) (reason_of env d.reason_code) depth)
    if not d.allowed
        then finish (terminal "DENIED" (some (reason_of env d.reason_code)) depth before)
        else spend depth step before
  decided depth step before timed_out = do
    audit env (authorization_decision "timeout" "RUN_DEADLINE_EXCEEDED" depth)
    finish (timeout_at depth)
  decided depth step before raised = do
    audit env (authorization_decision "failed" "AUTHORIZATION_FAILED" depth)
    finish (terminal "FAILED" (some "AUTHORIZATION_FAILED") depth none)
  decided depth step before cancelled = stop cancelled_run

  unfoldable pub choose : ℕ → LoopStep → Option String → Run String
  choose depth step before = do
    audit env (planner_decision "selected" none depth)
    audit env (tool_selected depth step)
    decided depth step before (env.authorize depth step)

  abbrev pub planned : ℕ → Option String → Call (Option LoopStep) → Run String
  planned depth before (returned (some step)) = choose depth step before
  planned depth before (returned none) = do
    audit env (planner_decision "complete" none depth)
    finish (terminal "COMPLETE" none depth before)
  planned depth before timed_out = do
    audit env (planner_decision "timeout" (some "RUN_DEADLINE_EXCEEDED") depth)
    finish (timeout_at depth)
  planned depth before raised = do
    audit env (planner_decision "failed" (some "PLANNER_FAILED") depth)
    finish (terminal "FAILED" (some "PLANNER_FAILED") depth none)
  planned depth before cancelled = stop cancelled_run

  -- one round: its value is the observation
  unfoldable pub round : ℕ → Option String → Run String
  round depth before =
      if leb deadline (env.head_clock depth)
      then finish (timeout_at depth)
      else planned depth before (env.planner depth before)

  -- the rounds that are left before the depth limit
  unfoldable pub rounds : ℕ → ℕ → Option String → Run (Unit {0})
  rounds zero depth before =
      finish (terminal "DEPTH_LIMIT_REACHED" (some "MAX_DEPTH_REACHED") depth before)
  rounds (suc left) depth before = do
    value ← round depth before
    rounds left (suc depth) (some value)

  unfoldable pub run_agent_loop_async : Run (Unit {0})
  run_agent_loop_async = do
    audit env (run_started limits)
    if not env.is_async
        then finish (terminal "DENIED" (some "NON_CANCELLABLE_EXECUTOR") 0 none)
        else rounds limits.max_depth 0 none
