-- ===== src/Agent/Paid.antt =====
-- The budget and the authorization behind a tool's run.
use eiraos_chat_backend.Prelude.{
  ℕ, suc, ◌+◌, ◌≤◌, ◌≡◌, ◌⊎◌, refl, ap, String, Option, none, true, false, List, ◌∷◌, leb, ◌==◌,
  arith, Bool-cases, inl, inr,
}
use eiraos_chat_backend.Agent.Tool.{AuthorizationDecision, BudgetDecision, ExecutionBudget, consume}
use eiraos_chat_backend.Agent.Run.{
  LoopStep, AgentRunLimits, planner_decision, tool_selected, authorization_decision,
  budget_decision, tool_execution_started, Entry, audited, executed, RunState, returned,
  Environment, ◌>>◌, write,
}
use eiraos_chat_backend.Agent.Loop.{
  reason_of, deadline, timeout_at, observe, run_tool, within_time, verdict_of, budgeted, spend,
}
use eiraos_chat_backend.Agent.Trace.{
  executions, Licensed, Governed, Inv, audit_step, audit_then, Inv-finish, Inv-observe,
}

module _ (env : Environment) (limits : AgentRunLimits) (total : ℕ) where
  -- what is known when the budget has been spent on a step
  pub record Ready (depth : ℕ) (step : LoopStep) (s : RunState) : Type 0 where
    pub decision : AuthorizationDecision
    pub authorized : env.authorize depth step ≡ returned decision
    pub allowed : decision.allowed ≡ true
    pub budget_reason : String
    pub remaining : ℕ
    pub earlier : List Entry
    pub written :
        s.trace
        ≡ audited (budget_decision "allowed" budget_reason depth remaining)
          ∷ audited (authorization_decision "allowed" (reason_of env decision.reason_code) depth)
          ∷ audited (tool_selected depth step)
          ∷ audited (planner_decision "selected" none depth)
          ∷ earlier
    pub governed : Governed env s.trace
    pub few : executions s.trace ≤ depth
    pub paid : suc (executions s.trace + s.budget.remaining) ≤ total

  pub Ready-Inv :
      (depth : ℕ) (step : LoopStep) (s : RunState)
      → Ready depth step s
      → Inv env limits total (suc depth) s
  Ready-Inv depth step s r = (r.governed, omega (arith, r.few), omega (arith, r.paid))

  pub Inv-run_tool :
      (depth : ℕ) (step : LoopStep) (before : Option String) (s : RunState)
      → Ready depth step s
      → Inv env limits total (suc depth) (run_tool env limits depth step before s).1
  unfolding run_tool
  Inv-run_tool depth step before s r =
      audit_then env limits total (Inv env limits total (suc depth))
        (tool_execution_started depth step)
        (write (executed depth step)
          >> observe env limits depth step before (env.execute depth step))
        s (Ready-Inv depth step s r)
        (Inv-observe env limits total (suc depth) depth step before (env.execute depth step)
          (record s {
            trace = executed depth step ∷ audited (tool_execution_started depth step) ∷ s.trace;
          })
          ((licensed, r.governed), omega (arith, r.few), omega (arith, r.paid)))
    where
      licensed : Licensed env depth step (audited (tool_execution_started depth step) ∷ s.trace)
      licensed = record {
        decision = r.decision;
        authorized = r.authorized;
        allowed = r.allowed;
        budget_reason = r.budget_reason;
        remaining = r.remaining;
        earlier = r.earlier;
        written = ap (λ t. audited (tool_execution_started depth step) ∷ t) r.written;
      }

  pub Inv-within_time :
      (depth : ℕ) (step : LoopStep) (before : Option String) (s : RunState)
      → Ready depth step s
      → Inv env limits total (suc depth) (within_time env limits depth step before s).1
  Inv-within_time depth step before s r =
      elim (Bool-cases (leb (deadline env limits) (env.tool_clock depth))) [
        | inl late ↦ rw late (
            Inv-finish env limits total String (suc depth) (timeout_at env limits depth) s
              (Ready-Inv depth step s r))
        | inr early ↦ rw early (Inv-run_tool depth step before s r)
      ]

  -- The trace of a step that was chosen and authorized.
  pub record Authorized (depth : ℕ) (step : LoopStep) (s : RunState) : Type 0 where
    pub decision : AuthorizationDecision
    pub authorized : env.authorize depth step ≡ returned decision
    pub allowed : decision.allowed ≡ true
    pub earlier : List Entry
    pub written :
        s.trace
        ≡ audited (authorization_decision "allowed" (reason_of env decision.reason_code) depth)
          ∷ audited (tool_selected depth step)
          ∷ audited (planner_decision "selected" none depth)
          ∷ earlier
    pub inv : Inv env limits total depth s

  pub weaken :
      (depth : ℕ) (s : RunState) → Inv env limits total depth s → Inv env limits total (suc depth) s
  weaken depth s (g, few, paid) = (g, omega (arith, few), paid)

  -- What consuming the budget does.
  pub consume-cases :
      (now : ℕ) (b : ExecutionBudget)
      → (((consume now b).0.allowed ≡ false) × ((consume now b).1 ≡ b))
        ⊎ (((consume now b).0.allowed ≡ true) × (suc (consume now b).1.remaining ≡ b.remaining))
  unfolding consume
  consume-cases now b = elim (Bool-cases (leb b.deadline now)) [
    | inl late ↦ inl (rw late (refl, refl))
    | inr early ↦ elim (Bool-cases (b.remaining == 0)) [
      | inl none_left ↦ inl (rw (early, none_left) (refl, refl))
      | inr some_left ↦ inr (rw (early, some_left) (refl, ground (arith, some_left)))
    ]
  ]

  pub Inv-refused :
      (bound depth : ℕ) (step : LoopStep) (before : Option String) (b : BudgetDecision)
      (s : RunState)
      → b.allowed ≡ false
      → Inv env limits total bound s
      → Inv env limits total bound (budgeted env limits depth step before b s).1
  Inv-refused bound depth step before b s refused h =
      elim (audit_step env limits total
        (budget_decision (verdict_of env limits b.allowed) (reason_of env b.reason_code) depth
          b.remaining_executions)
        s) [
          | inl stopped ↦ rw stopped h
          | inr written ↦ rw (written, refused) (Inv-finish env limits total String bound _ _ h)
        ]

  pub Inv-granted :
      (depth : ℕ) (step : LoopStep) (before : Option String) (b : BudgetDecision) (s : RunState)
      → b.allowed ≡ true
      → Authorized depth step s
      → suc (executions s.trace + s.budget.remaining) ≤ total
      → Inv env limits total (suc depth) (budgeted env limits depth step before b s).1
  Inv-granted depth step before b s yes_allowed a paid =
      elim (audit_step env limits total
        (budget_decision (verdict_of env limits b.allowed) (reason_of env b.reason_code) depth
          b.remaining_executions)
        s) [
          | inl stopped ↦ rw stopped (weaken depth s a.inv)
          | inr written ↦ rw (written, yes_allowed) (Inv-within_time depth step before _ ready)
        ]
    where
      ready : Ready depth step (record s {
        trace =
            audited
              (budget_decision "allowed" (reason_of env b.reason_code) depth b.remaining_executions)
            ∷ s.trace;
      })
      ready = record {
        decision = a.decision;
        authorized = a.authorized;
        allowed = a.allowed;
        budget_reason = reason_of env b.reason_code;
        remaining = b.remaining_executions;
        earlier = a.earlier;
        written =
            ap
              (λ t.
                audited (
                  budget_decision "allowed" (reason_of env b.reason_code) depth
                    b.remaining_executions)
                ∷ t)
              a.written;
        governed = a.inv.0;
        few = a.inv.1;
        paid = paid;
      }

  pub Inv-spend :
      (depth : ℕ) (step : LoopStep) (before : Option String) (s : RunState)
      → Authorized depth step s
      → Inv env limits total (suc depth) (spend env limits depth step before s).1
  unfolding spend
  Inv-spend depth step before s a = elim (consume-cases (env.budget_clock depth) s.budget) [
    | inl (refused, same) ↦
        let left = (consume (env.budget_clock depth) s.budget).1 in
        Inv-refused (suc depth) depth step before (consume (env.budget_clock depth) s.budget).0
          (record s { budget = left }) refused (a.inv.0, omega (arith, a.inv.1), rw same a.inv.2)
    | inr (granted, paid) ↦
        let left = (consume (env.budget_clock depth) s.budget).1 in
        Inv-granted depth step before (consume (env.budget_clock depth) s.budget).0
          (record s { budget = left }) granted
          (record {
            decision = a.decision;
            authorized = a.authorized;
            allowed = a.allowed;
            earlier = a.earlier;
            written = a.written;
            inv = (a.inv.0, a.inv.1, omega (arith, a.inv.2, paid));
          })
          (omega (arith, a.inv.2, paid))
  ]
