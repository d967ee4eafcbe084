-- ===== src/Completion/Preflight.antt =====
-- What happens before the provider is called: the order of `ChatExecutionBoundary.prepare`, the
-- callbacks of the route, and what the route does when one of them raises. The answers of the
-- services, which other modules model, are fields of the environment.
use eiraos_chat_backend.Prelude.{ℕ, String, Option, none, some, Bool, List, ◌∷◌}
use eiraos_chat_backend.Prelude.Int.{ℤ}
use eiraos_chat_backend.Prelude.Result.{Result, ok, err}
use eiraos_chat_backend.Http.{HttpException}
use eiraos_chat_backend.Budget.Gate.{UsageBudgetError}
use eiraos_chat_backend.Budget.Reservation.{BudgetError}
use eiraos_chat_backend.Idempotency.{IdempotencyOutcome}
use eiraos_chat_backend.Conversation.{Conversation}
use eiraos_chat_backend.Governance.Boundary.{AuthorizationContext}
use eiraos_chat_backend.Governance.Provider.{Bot, ProviderExecutionPermit}
use eiraos_chat_backend.Chat.Failure.{FailureCode}
use eiraos_chat_backend.Chat.Session.{PersistenceError}
use eiraos_chat_backend.Completion.Raised.{Raised, http_exception, persistence_error}
use eiraos_chat_backend.Completion.Program.{Program, give, raise, change}

-- `IdempotencyReservation`
pub record IdempotencyReservation : Type 0 where
  pub key : Option String
  pub lease_token : Option String
  pub cached_response : Option String
  pub record_id : Option ℕ
  pub is_recovery : Bool

-- An effect that undoes or closes what the preflight holds.
pub data Act : Type 0 where
  release_tenant : Act
  finalize_failed : ℕ → FailureCode → Act
  record_result : ℕ → FailureCode → Act
  release_lease : ℕ → Act

-- The variables that the callbacks share, and the compensating effects, newest first. A budgeted
-- execution is whether it holds a tenant's reservation.
pub record Held : Type 0 where
  pub governance_decision_id : Option String
  pub reserved_idem : IdempotencyReservation
  pub execution_id : Option String
  pub budgeted_execution : Option Bool
  pub persisted_execution : Option String
  pub acts : List Act

pub record Authorized : Type 0 where
  pub conversation : Conversation
  pub bot : Bot
  pub knowledge_scope : Option String
  pub provider_permit : ProviderExecutionPermit
  pub governance_decision_id : String

pub record Environment : Type 0 where
  pub getenv : String → Option String
  pub authorization : AuthorizationContext
  pub org_id : ℤ
  pub knowledge_scope : Option String
  pub find_conversation : Result Raised (Option Conversation)
  pub find_bot : Result Raised (Option Bot)
  pub record_decision : Bool → Option String
  pub record_preflight : ℕ → FailureCode → Bool
  pub record_replay : Bool
  -- whether the calls of a compensation, whose failures are ignored, take effect
  pub releases_tenant : Bool
  pub finalizes : ℕ → FailureCode → Bool
  pub releases_lease : ℕ → Bool
  pub resolve_key : Result HttpException (Option String)
  pub begin : String → Result HttpException IdempotencyOutcome
  pub read_cached : String → Result Raised (Option String)
  pub assert_recovery_allowed : String → Result PersistenceError (Unit {0})
  pub execution_identity : Option String → Option ℕ → String
  pub has_redis : Bool
  pub is_development : Bool
  pub has_limits : Bool
  pub reserve_local : Result UsageBudgetError (Unit {0})
  pub reserve_distributed : String → Result BudgetError (Unit {0})
  pub prepare_exchange : String → Result PersistenceError String
  pub bind_provider : Result Raised (Unit {0})
  pub build_context : Result Raised (Unit {0})

abbrev pub Callback : Type 0 → Type 0
Callback A = Program Held A

abbrev pub act : Act → Callback (Unit {0})
act a = change (λ (s : Held). record s { acts = a ∷ s.acts })

-- raised by the services, as the route sees it
abbrev pub http_raised : {A : Type 0} → Result HttpException A → Result Raised A
http_raised (ok a) = ok a
http_raised (err e) = err (http_exception e.status_code)

abbrev pub persistence_raised : {A : Type 0} → Result PersistenceError A → Result Raised A
persistence_raised (ok a) = ok a
persistence_raised (err e) = err (persistence_error e)

abbrev pub found : {A : Type 0} → Option A → Callback A
found none = raise (http_exception 404)
found (some a) = give a
