-- ===== src/Completion/Prepare.antt =====
-- The callbacks of the route, the order in which the boundary calls them, and what the route does
-- when one of them raises.
use eiraos_chat_backend.Prelude.{
  ℕ, String, Option, none, some, Bool, true, false, [], not, is_none, if◌then◌else◌,
}
use eiraos_chat_backend.Prelude.Result.{Result, ok, err}
use eiraos_chat_backend.Budget.Gate
use eiraos_chat_backend.Budget.Gate.{UsageBudgetError}
use eiraos_chat_backend.Budget.Reservation.{BudgetError, denied, backend_unavailable, value_error}
use eiraos_chat_backend.Idempotency.{IdempotencyOutcome, is_completed}
use eiraos_chat_backend.Conversation.{
  Conversation, ConversationStateError, hydrate_conversation, assert_accepts_execution,
}
use eiraos_chat_backend.Governance.Provider.{
  Bot, ProviderExecutionPermit, PolicyError, provider_policy_denied, uncaught,
  authorize_provider_execution,
}
use eiraos_chat_backend.Chat.Session.{conflict}
use eiraos_chat_backend.Completion.Raised.{
  Raised, http_exception, persistence_error, budget_exceeded, budget_unavailable, other_error,
}
use eiraos_chat_backend.Completion.Access.{bot_accessible, valid_knowledge_scope}
use eiraos_chat_backend.Completion.Program.{◌>>=◌, ◌>>◌, give, raise, raise_when, lift, change}
use eiraos_chat_backend.Completion.Preflight.{
  IdempotencyReservation, Held, Authorized, Environment, Callback, http_raised, persistence_raised,
  found,
}

abbrev pub conversation_raised : {A : Type 0} → Result ConversationStateError A → Result Raised A
conversation_raised (ok a) = ok a
conversation_raised (err e) = err (http_exception 409)

abbrev pub local_raised : Result UsageBudgetError (Unit {0}) → Result Raised (Unit {0})
local_raised (ok a) = ok a
local_raised (err (Gate.budget_unavailable reason)) = err budget_unavailable
local_raised (err (Gate.budget_exceeded reason)) = err budget_exceeded

abbrev pub distributed_raised : Result BudgetError (Unit {0}) → Result Raised (Unit {0})
distributed_raised (ok a) = ok a
distributed_raised (err (denied reason)) = err budget_exceeded
distributed_raised (err backend_unavailable) = err budget_unavailable
distributed_raised (err (value_error reason)) = err other_error

-- `_AuthorizedChat`, and the reservation before any callback
abbrev pub no_reservation : IdempotencyReservation
no_reservation = record {
  key = none;
  lease_token = none;
  cached_response = none;
  record_id = none;
  is_recovery = false;
}

abbrev pub nothing_held : Held
nothing_held = record {
  governance_decision_id = none;
  reserved_idem = no_reservation;
  execution_id = none;
  budgeted_execution = none;
  persisted_execution = none;
  acts = [];
}

-- what a request that may run has, or the cached response of one that ran
pub data Prepared : Type 0 where
  replays : String → Prepared
  ready : Authorized → IdempotencyReservation → Prepared

module _ (env : Environment) where
  -- the decision is written before the scope is checked
  abbrev pub granted :
      Conversation → Bot → ProviderExecutionPermit → Option String → Callback Authorized
  granted conversation bot permit none = raise (http_exception 503)
  granted conversation bot permit (some decision) = do
    change (λ (s : Held). record s { governance_decision_id = some decision })
    scope ← lift (valid_knowledge_scope env.knowledge_scope)
    give (record {
      conversation = conversation;
      bot = bot;
      knowledge_scope = scope;
      provider_permit = permit;
      governance_decision_id = decision;
    })

  abbrev pub permitted :
      Conversation → Bot → Result PolicyError ProviderExecutionPermit → Callback Authorized
  permitted conversation bot (ok permit) =
      granted conversation bot permit (env.record_decision true)
  permitted conversation bot (err (provider_policy_denied reason)) =
      raise (http_exception (if is_none (env.record_decision false) then 503 else 403))
  permitted conversation bot (err (uncaught e)) = raise other_error

  unfoldable pub authorize : Callback Authorized
  unfolding hydrate_conversation assert_accepts_execution bot_accessible
  authorize = do
    row ← lift env.find_conversation
    conversation ← found row
    lift (conversation_raised (hydrate_conversation conversation)) >>= λ a.
        lift (conversation_raised (assert_accepts_execution a))
    candidate ← lift env.find_bot
    bot ← found candidate
    raise_when (not (bot_accessible bot env.org_id)) (http_exception 404)
    permitted conversation bot
        (authorize_provider_execution env.getenv env.authorization bot env.org_id)

  abbrev pub identify : Option String → Option ℕ → Callback (Unit {0})
  identify key record_id =
      change (λ (s : Held). record s { execution_id = some (env.execution_identity key record_id) })

  abbrev pub hold : IdempotencyReservation → Callback (Unit {0})
  hold reservation = change (λ (s : Held). record s { reserved_idem = reservation })

  abbrev pub recovery : Bool → Option ℕ → String → Callback (Unit {0})
  recovery true (some id) key = lift (
      persistence_raised
        (env.assert_recovery_allowed (env.execution_identity (some key) (some id))))
  recovery true none key = give tt
  recovery false record_id key = give tt

  -- the lease that `begin_idempotency` gave
  abbrev pub lease : String → IdempotencyOutcome → Callback IdempotencyReservation
  lease key outcome =
      let reservation : IdempotencyReservation = record {
        key = some key;
        lease_token = outcome.lease_token;
        cached_response = none;
        record_id = outcome.record_id;
        is_recovery = outcome.is_recovery;
      } in
      do
        hold reservation
        identify (some key) outcome.record_id
        recovery outcome.is_recovery outcome.record_id key
        give reservation

  abbrev pub replay : String → IdempotencyOutcome → Option String → Callback IdempotencyReservation
  replay key outcome none = lease key outcome
  replay key outcome (some cached) =
      let reservation : IdempotencyReservation = record {
        key = some key;
        lease_token = none;
        cached_response = some cached;
        record_id = outcome.record_id;
        is_recovery = false;
      } in
      do hold reservation; give reservation

  abbrev pub begun : String → IdempotencyOutcome → Callback IdempotencyReservation
  begun key outcome =
      if is_completed outcome.status
      then lift (env.read_cached key) >>= replay key outcome
      else lease key outcome

  abbrev pub with_key : Option String → Callback IdempotencyReservation
  with_key none = do identify none none; λ (s : Held). give s.reserved_idem s
  with_key (some key) = lift (http_raised (env.begin key)) >>= begun key

  unfoldable pub reserve_idempotency : Callback IdempotencyReservation
  reserve_idempotency = lift (http_raised env.resolve_key) >>= with_key

  abbrev pub budgeted : Bool → Callback (Unit {0})
  budgeted is_tenant = change (λ (s : Held). record s { budgeted_execution = some is_tenant })

  abbrev pub reserve_tenant : Option String → Callback (Unit {0})
  reserve_tenant none = raise (persistence_error (conflict "execution identity is missing"))
  reserve_tenant (some execution_id) = do
    raise_when (not env.has_limits) budget_unavailable
    lift (distributed_raised (env.reserve_distributed execution_id))
    budgeted true

  unfoldable pub reserve_budget : Callback (Unit {0})
  reserve_budget s =
      (if env.has_redis then reserve_tenant s.execution_id else do
        raise_when (not env.is_development) budget_unavailable
        lift (local_raised env.reserve_local)
        budgeted false)
        s

  abbrev pub persist_identified : Option String → Callback (Unit {0})
  persist_identified none = raise (persistence_error (conflict "execution identity is missing"))
  persist_identified (some execution_id) = do
    persisted ← lift (persistence_raised (env.prepare_exchange execution_id))
    change (λ (s : Held). record s { persisted_execution = some persisted })

  unfoldable pub persist_request : Callback (Unit {0})
  persist_request s =
      (do
        raise_when (is_none s.budgeted_execution)
            (persistence_error (conflict "budget reservation is missing"))
        persist_identified s.execution_id)
        s

  unfoldable pub prepare_provider : Callback (Unit {0})
  prepare_provider s =
      (do
        lift env.bind_provider
        raise_when (is_none s.persisted_execution) (
            persistence_error
              (conflict "execution persistence is missing before context construction"))
        lift env.build_context)
        s

  abbrev pub execute_new : Authorized → IdempotencyReservation → Callback Prepared
  execute_new authorized idem = do
    reserve_budget
    persist_request
    prepare_provider
    give (ready authorized idem)

  abbrev pub unless_replay : Authorized → IdempotencyReservation → Option String → Callback Prepared
  unless_replay authorized idem (some cached) = give (replays cached)
  unless_replay authorized idem none = execute_new authorized idem

  -- `ChatExecutionBoundary.prepare`
  unfoldable pub prepare : Callback Prepared
  prepare = do
    authorized ← authorize
    idem ← reserve_idempotency
    unless_replay authorized idem idem.cached_response
