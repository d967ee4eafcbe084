-- ===== src/Agent/Trace.antt =====
-- The trace of a run: what stands before a tool in it, and the invariant of the rounds.
use eiraos_chat_backend.Prelude.{
  ℕ, suc, ◌+◌, ◌≤◌, ◌≡◌, ◌⊎◌, String, Option, none, some, true, List, [], ◌∷◌, Bool-cases, inl, inr,
}
use eiraos_chat_backend.Prelude.Result.{ok, err}
use eiraos_chat_backend.Agent.Tool.{AuthorizationDecision}
use eiraos_chat_backend.Agent.Run.{
  LoopStep, LoopOutcome, AgentRunLimits, AgentEvent, planner_decision, tool_selected,
  authorization_decision, budget_decision, tool_execution_started, tool_execution_failed,
  tool_execution_completed, observation_received, run_terminated, Entry, audited, executed,
  RunState, finished, audit_failed, Call, returned, timed_out, raised, cancelled, Environment, Run,
  cancelled_run, ◌>>◌, give, stop, audit,
}
use eiraos_chat_backend.Agent.Loop.{reason_of, terminal, finish, observe}

abbrev pub executions : List Entry → ℕ
executions [] = 0
executions (audited e ∷ trace) = executions trace
executions (executed depth step ∷ trace) = suc (executions trace)

-- What stands in the trace right before a tool runs.
pub record Licensed (env : Environment) (depth : ℕ) (step : LoopStep) (before : List Entry)
    : Type 0 where
  pub decision : AuthorizationDecision
  pub authorized : env.authorize depth step ≡ returned decision
  pub allowed : decision.allowed ≡ true
  pub budget_reason : String
  pub remaining : ℕ
  pub earlier : List Entry
  pub written :
      before
      ≡ audited (tool_execution_started depth step)
        ∷ audited (budget_decision "allowed" budget_reason depth remaining)
        ∷ audited (authorization_decision "allowed" (reason_of env decision.reason_code) depth)
        ∷ audited (tool_selected depth step)
        ∷ audited (planner_decision "selected" none depth)
        ∷ earlier

abbrev pub Governed : Environment → List Entry → Type 0
Governed env [] = Unit
Governed env (audited e ∷ trace) = Governed env trace
Governed env (executed depth step ∷ trace) = Licensed env depth step trace × Governed env trace

module _ (env : Environment) (limits : AgentRunLimits) (total : ℕ) where
  -- the invariant before the round at a depth
  abbrev pub Inv : ℕ → RunState → Type 0
  Inv depth s =
      Governed env s.trace
      × (executions s.trace ≤ depth)
      × (executions s.trace + s.budget.remaining ≤ total)

  -- an event is written, or the run ends where it was
  pub audit_step :
      (e : AgentEvent) (s : RunState)
      → (audit env e s ≡ (err audit_failed, s))
        ⊎ (audit env e s ≡ (ok tt, record s { trace = audited e ∷ s.trace }))
  unfolding audit
  audit_step e s = elim (Bool-cases (env.audit_fails s.trace)) [
    | inl bad ↦ inl (rw bad)
    | inr good ↦ inr (rw good)
  ]

  -- a computation that an audit precedes
  pub audit_then :
      {A : Type 0} (Q : RunState → Type 0) (e : AgentEvent) (k : Run A) (s : RunState)
      → Q s
      → Q (k (record s { trace = audited e ∷ s.trace })).1
      → Q ((audit env e >> k) s).1
  audit_then Q e k s here later = elim (audit_step e s) [ inl h ↦ rw h here | inr h ↦ rw h later ]

  pub Inv-finish :
      (A : Type 0) (depth : ℕ) (o : LoopOutcome) (s : RunState)
      → Inv depth s
      → Inv depth (finish env limits {A = A} o s).1
  unfolding finish
  Inv-finish A depth o s h = audit_then (Inv depth) (run_terminated o) (stop (finished o)) s h h

  -- an event, and then the end of the run
  pub Inv-close :
      (A : Type 0) (depth : ℕ) (e : AgentEvent) (o : LoopOutcome) (s : RunState)
      → Inv depth s
      → Inv depth ((audit env e >> finish env limits {A = A} o) s).1
  Inv-close A depth e o s h =
      audit_then (Inv depth) e (finish env limits {A = A} o) s h
        (Inv-finish A depth o (record s { trace = audited e ∷ s.trace }) h)

  pub Inv-observe :
      (depth at : ℕ) (step : LoopStep) (before : Option String) (c : Call String) (s : RunState)
      → Inv depth s
      → Inv depth (observe env limits at step before c s).1
  Inv-observe depth at step before (returned value) s h =
      audit_then (Inv depth) (tool_execution_completed at step)
        (audit env (observation_received (suc at) value) >> give value) s h
        (audit_then (Inv depth) (observation_received (suc at) value) (give value) _ h h)
  Inv-observe depth at step before timed_out s h = Inv-close String depth _ _ s h
  Inv-observe depth at step before raised s h = Inv-close String depth _ _ s h
  Inv-observe depth at step before cancelled s h =
      audit_then (Inv depth) (tool_execution_failed "cancelled" "RUN_CANCELLED" at step)
        (audit env (run_terminated (terminal "CANCELLED" (some "RUN_CANCELLED") at before))
          >> stop {A = String} cancelled_run)
        s h
        (audit_then (Inv depth)
          (run_terminated (terminal "CANCELLED" (some "RUN_CANCELLED") at before))
          (stop {A = String} cancelled_run) _ h h)
