-- ===== src/Chat/Database.antt =====
-- The tables that the chat persistence reads and writes. A column that the database fills in by
-- itself and that no code here reads (created_at, updated_at) has no field.
use eiraos_chat_backend.Prelude.{
  ℕ, String, Option, some, Bool, true, false, List, ◌&&◌, str_eq, opt_eq, opt_str_eq,
}
use eiraos_chat_backend.Idempotency.{IdempotencyRecord}
use eiraos_chat_backend.Chat.Failure.{FailureCode}

-- The values of the status columns of an execution and of its messages.
pub data Status : Type 0 where
  prepared pending streaming completed failed cancelled : Status

-- `status in TERMINAL_STATUSES`
abbrev pub is_terminal : Status → Bool
is_terminal Status.completed = true
is_terminal Status.failed = true
is_terminal Status.cancelled = true
is_terminal _ = false

abbrev pub is_completed : Status → Bool
is_completed Status.completed = true
is_completed _ = false

-- `status in {"prepared", "streaming"}`, `status in {"failed", "cancelled"}`
abbrev pub is_running : Status → Bool
is_running Status.prepared = true
is_running Status.streaming = true
is_running _ = false

abbrev pub is_broken : Status → Bool
is_broken Status.failed = true
is_broken Status.cancelled = true
is_broken _ = false

pub record ChatExecution : Type 0 where
  pub id : ℕ
  pub execution_id : String
  pub request_id : String
  pub conversation_id : ℕ
  pub organization_id : ℕ
  pub user_id : ℕ
  pub bot_id : ℕ
  pub bot_organization_id : ℕ
  pub idempotency_record_id : Option ℕ
  pub user_message_id : Option ℕ
  pub assistant_message_id : Option ℕ
  pub provider : String
  pub model : String
  pub status : Status
  pub attempt_count : ℕ
  pub max_attempts : ℕ
  pub last_failure_code : Option FailureCode
  pub failure_retryable : Bool
  pub partial_response : Bool
  pub recovered_at : Option ℕ
  pub governance_audit_required : Bool
  pub completed_at : Option ℕ

pub record Message : Type 0 where
  pub id : ℕ
  pub conversation_id : ℕ
  pub organization_id : ℕ
  pub execution_id : Option String
  pub role : String
  pub content : String
  pub bot_id : Option ℕ
  pub status : Status
  pub ai_marked : Bool

-- Costs are whole numbers of the column's last decimal place.
pub record ProviderUsageRecord : Type 0 where
  pub id : ℕ
  pub request_id : String
  pub execution_id : String
  pub chat_execution_id : Option ℕ
  pub user_id : ℕ
  pub organization_id : ℕ
  pub provider : String
  pub model : String
  pub operation : String
  pub attempt : ℕ
  pub usage_source : String
  pub pricing_revision : Option String
  pub input_tokens : ℕ
  pub output_tokens : ℕ
  pub total_tokens : ℕ
  pub estimated_cost : ℕ
  pub actual_cost : Option ℕ
  pub verification : Bool

-- The columns that the persistence uses; the others are evidence that it never touches.
pub record GovernanceDecisionRecord : Type 0 where
  pub decision_id : String
  pub organization_id : ℕ
  pub user_id : ℕ
  pub allowed : Bool
  pub execution_id : Option String
  pub result_status : Option Status
  pub response_status : Option ℕ
  pub failure_code : Option FailureCode
  pub finalized_at : Option ℕ

-- The tables, with the sequences of their primary keys.
pub record Database : Type 0 where
  pub executions : List ChatExecution
  pub messages : List Message
  pub usages : List ProviderUsageRecord
  pub decisions : List GovernanceDecisionRecord
  pub idempotency : List IdempotencyRecord
  pub next_execution : ℕ
  pub next_message : ℕ
  pub next_usage : ℕ

-- the queries, as the test of a row
abbrev pub has_execution_id : String → ChatExecution → Bool
has_execution_id execution_id e = str_eq e.execution_id execution_id

abbrev pub is_assistant_of : ChatExecution → Message → Bool
is_assistant_of e m =
    opt_eq (some m.id) e.assistant_message_id
    && (opt_str_eq m.execution_id (some e.execution_id) && str_eq m.role "assistant")

abbrev pub has_record_id : Option ℕ → IdempotencyRecord → Bool
has_record_id id r = opt_eq (some r.id) id

abbrev pub is_reservation_of : ChatExecution → ProviderUsageRecord → Bool
is_reservation_of e u =
    opt_eq u.chat_execution_id (some e.id) && str_eq u.usage_source "reservation"

abbrev pub has_decision_id : String → GovernanceDecisionRecord → Bool
has_decision_id id d = str_eq d.decision_id id
