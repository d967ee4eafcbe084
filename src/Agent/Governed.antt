-- ===== src/Agent/Governed.antt =====
-- Which tools run, and within which bounds.
use eiraos_chat_backend.Prelude.{
  ℕ, zero, suc, ◌+◌, ◌≤◌, ◌≡◌, refl, ap, String, Option, none, some, Bool, true, false, List, [],
  ◌∷◌, not, leb, if◌then◌else◌, arith, Bool-cases, inl, inr,
}
use eiraos_chat_backend.Prelude.Result.{Result, ok, err}
use eiraos_chat_backend.Agent.Tool.{AuthorizationDecision, ExecutionBudget}
use eiraos_chat_backend.Agent.Run.{
  LoopStep, AgentRunLimits, run_started, planner_decision, tool_selected, authorization_decision,
  Entry, audited, RunState, Ending, Call, returned, timed_out, raised, cancelled, Environment, ◌>>◌,
  audit, after,
}
use eiraos_chat_backend.Agent.Loop.{
  reason_of, terminal, deadline, finish, timeout_at, verdict_of, decided, choose, planned, round,
  rounds, run_agent_loop_async,
}
use eiraos_chat_backend.Agent.Trace.{Inv, audit_step, audit_then, Inv-finish, Inv-close}
use eiraos_chat_backend.Agent.Paid.{weaken, Inv-spend}

module _ (env : Environment) (limits : AgentRunLimits) (total : ℕ) where
  Inv-decided :
      (depth : ℕ) (step : LoopStep) (before : Option String) (s : RunState) (earlier : List Entry)
      → s.trace
        ≡ audited (tool_selected depth step)
          ∷ audited (planner_decision "selected" none depth)
          ∷ earlier
      → Inv env limits total depth s
      → (c : Call AuthorizationDecision) → env.authorize depth step ≡ c
      → Inv env limits total (suc depth) (decided env limits depth step before c s).1
  Inv-decided depth step before s earlier shape h timed_out e =
      Inv-close env limits total String (suc depth) _ _ s (weaken env limits total depth s h)
  Inv-decided depth step before s earlier shape h raised e =
      Inv-close env limits total String (suc depth) _ _ s (weaken env limits total depth s h)
  Inv-decided depth step before s earlier shape h cancelled e = weaken env limits total depth s h
  Inv-decided depth step before s earlier shape h (returned d) e = elim (Bool-cases d.allowed) [
    | inr refused ↦
        elim (audit_step env limits total
          (authorization_decision (verdict_of env limits d.allowed) (reason_of env d.reason_code)
            depth)
          s) [
            | inl stopped ↦ rw stopped (weaken env limits total depth s h)
            | inr written ↦
                rw (written, refused)
                  (Inv-finish env limits total String (suc depth) _ _
                    (weaken env limits total depth s h))
          ]
    | inl granted ↦
        elim (audit_step env limits total
          (authorization_decision (verdict_of env limits d.allowed) (reason_of env d.reason_code)
            depth)
          s) [
            | inl stopped ↦ rw stopped (weaken env limits total depth s h)
            | inr written ↦
                rw (written, granted)
                  (Inv-spend env limits total depth step before _ (record {
                    decision = d;
                    authorized = e;
                    allowed = granted;
                    earlier = earlier;
                    written =
                        ap
                          (λ t.
                            audited
                              (authorization_decision "allowed" (reason_of env d.reason_code) depth)
                            ∷ t)
                          shape;
                    inv = h;
                  }))
          ]
  ]

  Inv-choose :
      (depth : ℕ) (step : LoopStep) (before : Option String) (s : RunState)
      → Inv env limits total depth s
      → Inv env limits total (suc depth) (choose env limits depth step before s).1
  unfolding choose
  Inv-choose depth step before s h =
      audit_then env limits total (Inv env limits total (suc depth))
        (planner_decision "selected" none depth)
        (audit env (tool_selected depth step)
          >> decided env limits depth step before (env.authorize depth step))
        s (weaken env limits total depth s h)
        (audit_then env limits total (Inv env limits total (suc depth)) (tool_selected depth step)
          (decided env limits depth step before (env.authorize depth step))
          (record s { trace = audited (planner_decision "selected" none depth) ∷ s.trace })
          (weaken env limits total depth s h)
          (Inv-decided depth step before
            (record s {
              trace =
                  audited (tool_selected depth step)
                  ∷ audited (planner_decision "selected" none depth)
                  ∷ s.trace;
            })
            s.trace refl h (env.authorize depth step) refl))

  Inv-planned :
      (depth : ℕ) (before : Option String) (s : RunState)
      → Inv env limits total depth s
      → (c : Call (Option LoopStep))
      → Inv env limits total (suc depth) (planned env limits depth before c s).1
  Inv-planned depth before s h (returned (some step)) = Inv-choose depth step before s h
  Inv-planned depth before s h (returned none) =
      Inv-close env limits total String (suc depth) _ _ s (weaken env limits total depth s h)
  Inv-planned depth before s h timed_out =
      Inv-close env limits total String (suc depth) _ _ s (weaken env limits total depth s h)
  Inv-planned depth before s h raised =
      Inv-close env limits total String (suc depth) _ _ s (weaken env limits total depth s h)
  Inv-planned depth before s h cancelled = weaken env limits total depth s h

  Inv-round :
      (depth : ℕ) (before : Option String) (s : RunState)
      → Inv env limits total depth s
      → Inv env limits total (suc depth) (round env limits depth before s).1
  unfolding round
  Inv-round depth before s h =
      elim (Bool-cases (leb (deadline env limits) (env.head_clock depth))) [
        | inl late ↦ rw late (
            Inv-finish env limits total String (suc depth) (timeout_at env limits depth) s
              (weaken env limits total depth s h))
        | inr early ↦ rw early (Inv-planned depth before s h (env.planner depth before))
      ]

  widen : (n m : ℕ) (s : RunState) → n ≤ m → Inv env limits total n s → Inv env limits total m s
  widen n m s le (g, few, paid) = (g, omega (arith, le, few), paid)

  Inv-after :
      (left depth : ℕ) (r : Result Ending String × RunState)
      → Inv env limits total (suc depth) r.1
      → ((value : String) (t : RunState)
          → Inv env limits total (suc depth) t
          → Inv env limits total
              (left + suc depth)
              (rounds env limits left (suc depth) (some value) t).1)
      → Inv env limits total
          (suc left + depth)
          (after r (λ value. rounds env limits left (suc depth) (some value))).1
  Inv-after left depth (err e, t) k next = widen (suc depth) (suc left + depth) t (omega arith) k
  Inv-after left depth (ok value, t) k next =
      widen (left + suc depth) (suc left + depth)
        (rounds env limits left (suc depth) (some value) t).1 (omega arith) (next value t k)

  Inv-rounds :
      (left depth : ℕ) (before : Option String) (s : RunState)
      → Inv env limits total depth s
      → Inv env limits total (left + depth) (rounds env limits left depth before s).1
  unfolding rounds
  Inv-rounds zero depth before s h =
      Inv-finish env limits total (Unit {0}) (zero + depth) _ s
        (widen depth (zero + depth) s (omega arith) h)
  Inv-rounds (suc left) depth before s h =
      Inv-after left depth (round env limits depth before s) (Inv-round depth before s h)
        (λ value t k. Inv-rounds left (suc depth) (some value) t k)

  Inv-start :
      (is_async : Bool) (s : RunState)
      → Inv env limits total 0 s
      → Inv env limits total limits.max_depth
          ((if not is_async
              then finish env limits (terminal "DENIED" (some "NON_CANCELLABLE_EXECUTOR") 0 none)
              else rounds env limits limits.max_depth 0 none)
            s).1
  Inv-start false s h =
      Inv-finish env limits total (Unit {0}) limits.max_depth _ s
        (widen 0 limits.max_depth s (omega arith) h)
  Inv-start true s h =
      widen (limits.max_depth + 0) limits.max_depth (rounds env limits limits.max_depth 0 none s).1
        (omega arith) (Inv-rounds limits.max_depth 0 none s h)

-- Whatever the planner, the authorization, the tools, the clock and the audit writer do, in the
-- trace of a run every execution of a tool stands right behind the written events that the planner
-- chose it, that it was selected and authorized, that the budget was granted, and that it started,
-- and the authorization did allow it; at most as many tools run as the depth limit says, and
-- together with what is left of the budget at most as many as the budget had.
pub run-Governed :
    (env : Environment) (limits : AgentRunLimits) (budget : ExecutionBudget)
    → Inv env limits budget.remaining limits.max_depth
        (run_agent_loop_async env limits (record { trace = []; budget = budget })).1
unfolding run_agent_loop_async
run-Governed env limits budget =
    audit_then env limits budget.remaining (Inv env limits budget.remaining limits.max_depth)
      (run_started limits)
      (if not env.is_async
        then finish env limits (terminal "DENIED" (some "NON_CANCELLABLE_EXECUTOR") 0 none)
        else rounds env limits limits.max_depth 0 none)
      (record { trace = []; budget = budget }) (tt, omega arith, omega arith)
      (Inv-start env limits budget.remaining env.is_async
        (record { trace = audited (run_started limits) ∷ []; budget = budget })
        (tt, omega arith, omega arith))
