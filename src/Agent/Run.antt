-- ===== src/Agent/Run.antt =====
-- The state of a run: what was audited and executed, newest first, and the budget that is left; and
-- the computations on it, which may end the run. Values are their JSON texts; the shortening and
-- hashing of names and values for the audit are left out.
use eiraos_chat_backend.Prelude.{ℕ, String, Option, Bool, List, ◌∷◌, if◌then◌else◌}
use eiraos_chat_backend.Prelude.Result.{Result, ok, err}
use eiraos_chat_backend.Agent.Tool.{AuthorizationDecision, ExecutionBudget}

pub record LoopStep : Type 0 where
  pub tool : String
  pub capability : String
  pub arguments : String

pub record LoopOutcome : Type 0 where
  pub status : String
  pub observation : Option String
  pub reason_code : Option String
  pub steps : ℕ

pub record AgentRunLimits : Type 0 where
  pub max_depth : ℕ
  pub timeout : ℕ
  pub tool_timeout : ℕ

-- One event of the audit, with what its payload says.
pub data AgentEvent : Type 0 where
  run_started : AgentRunLimits → AgentEvent
  planner_decision : String → Option String → ℕ → AgentEvent
  tool_selected : ℕ → LoopStep → AgentEvent
  authorization_decision : String → String → ℕ → AgentEvent
  budget_decision : String → String → ℕ → ℕ → AgentEvent
  tool_execution_started : ℕ → LoopStep → AgentEvent
  tool_execution_failed : String → String → ℕ → LoopStep → AgentEvent
  tool_execution_completed : ℕ → LoopStep → AgentEvent
  observation_received : ℕ → String → AgentEvent
  run_terminated : LoopOutcome → AgentEvent

-- What happened, in order: an event was written, a tool was run.
pub data Entry : Type 0 where
  audited : AgentEvent → Entry
  executed : ℕ → LoopStep → Entry

pub record RunState : Type 0 where
  pub trace : List Entry
  pub budget : ExecutionBudget

-- How a run ends: with an outcome, because the audit could not be written, or cancelled.
pub data Ending : Type 0 where
  finished : LoopOutcome → Ending
  audit_failed cancelled_run : Ending

-- What a call within its deadline came to.
pub data Call (A : Type 0) : Type 0 where
  returned : A → Call A
  timed_out raised cancelled : Call A

-- The callables and the clock that a run is given, and whether a character is upper case or a digit. The loop makes each call, and each reading of the
-- clock, at most once at a depth.
pub record Environment : Type 0 where
  pub is_async : Bool
  pub planner : ℕ → Option String → Call (Option LoopStep)
  pub authorize : ℕ → LoopStep → Call AuthorizationDecision
  pub execute : ℕ → LoopStep → Call String
  pub audit_fails : List Entry → Bool
  pub started : ℕ
  pub head_clock : ℕ → ℕ
  pub budget_clock : ℕ → ℕ
  pub tool_clock : ℕ → ℕ
  pub late_clock : ℕ → ℕ
  pub is_code_char : ℕ → Bool

abbrev pub Run : Type 0 → Type 0
Run A = RunState → Result Ending A × RunState

abbrev pub after :
    {A B : Type 0} → Result Ending A × RunState → (A → Run B) → Result Ending B × RunState
after (ok a, s) k = k a s
after (err e, s) k = (err e, s)

infixl 5 ◌>>=◌ ◌>>◌
abbrev pub ◌>>=◌ : {A B : Type 0} → Run A → (A → Run B) → Run B
(m >>= k) s = after (m s) k

abbrev pub ◌>>◌ : {B : Type 0} → Run (Unit {0}) → Run B → Run B
m >> k = m >>= λ _. k

abbrev pub give : {A : Type 0} → A → Run A
give a s = (ok a, s)

abbrev pub stop : {A : Type 0} → Ending → Run A
stop e s = (err e, s)

abbrev pub write : Entry → Run (Unit {0})
write e s = (ok tt, record s { trace = e ∷ s.trace })

-- `await audit.record(…)`
unfoldable pub audit : Environment → AgentEvent → Run (Unit {0})
audit env event s =
    if env.audit_fails s.trace then (err audit_failed, s) else write (audited event) s
