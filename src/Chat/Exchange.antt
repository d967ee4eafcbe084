-- ===== src/Chat/Exchange.antt =====
-- The rows that `prepare_exchange` writes: of a first attempt, and of one more.
use eiraos_chat_backend.Prelude.{
  ℕ, suc, ◌+◌, String, Option, none, some, Bool, true, false, [], ◌∷◌, ◌++◌, ◌&&◌, ◌||◌, not,
  is_some, opt_eq, str_eq, if◌then◌else◌, leb, ◌==◌,
}
use eiraos_chat_backend.Prelude.Text.{is_empty}
use eiraos_chat_backend.Prelude.Result.{Result, ok, err}
use eiraos_chat_backend.Prelude.Rows.{update}
use eiraos_chat_backend.Chat.Failure.{process_crash, retry_exhausted}
use eiraos_chat_backend.Chat.Database.{
  Status, is_running, ChatExecution, Message, ProviderUsageRecord, Database, has_execution_id,
  is_assistant_of,
}
use eiraos_chat_backend.Chat.Session.{PersistenceError, conflict}

-- The arguments of the call, less those of the recovery.
pub record Exchange : Type 0 where
  pub execution_id : String
  pub request_id : String
  pub conversation_id : ℕ
  pub organization_id : ℕ
  pub user_id : ℕ
  pub bot_id : ℕ
  pub bot_organization_id : ℕ
  pub provider : String
  pub model : String
  pub prompt : String
  pub idempotency_record_id : Option ℕ
  pub estimated_tokens : ℕ
  pub estimated_cost : ℕ
  pub verification : Bool
  pub recover : Bool
  pub lease_token : Option String
  pub max_attempts : ℕ
  pub governance_decision_id : Option String

pub record PersistedChatExecution : Type 0 where
  pub execution_id : String
  pub user_message_id : ℕ
  pub assistant_message_id : ℕ
  pub status : Status

abbrev snapshot_of :
    ChatExecution → Option ℕ → Option ℕ → Result PersistenceError PersistedChatExecution
snapshot_of e (some user) (some answer) = ok (record {
  execution_id = e.execution_id;
  user_message_id = user;
  assistant_message_id = answer;
  status = e.status;
})
snapshot_of e none answer = err (conflict "execution message binding is incomplete")
snapshot_of e (some user) none = err (conflict "execution message binding is incomplete")

-- `_snapshot`
unfoldable pub snapshot : ChatExecution → Result PersistenceError PersistedChatExecution
snapshot e = snapshot_of e e.user_message_id e.assistant_message_id

-- The rest of the identity that an execution is bound to.
unfoldable pub same_scope : ChatExecution → Exchange → Bool
same_scope e x =
    e.organization_id == x.organization_id
    && (e.user_id == x.user_id
        && (e.conversation_id == x.conversation_id
            && (e.bot_id == x.bot_id
                && (e.bot_organization_id == x.bot_organization_id
                    && (opt_eq e.idempotency_record_id x.idempotency_record_id
                        && (str_eq e.provider x.provider && str_eq e.model x.model))))))

abbrev pub is_exhausted : ChatExecution → Bool
is_exhausted e = leb e.max_attempts e.attempt_count

-- writes of one row of a table
abbrev pub put_execution : ChatExecution → Database → Database
put_execution e db = record db {
  executions = update (has_execution_id e.execution_id) (λ _. e) db.executions;
}

abbrev pub put_assistant : ChatExecution → Message → Database → Database
put_assistant e m db = record db { messages = update (is_assistant_of e) (λ _. m) db.messages }

-- The row of an execution that has used up its attempts, and its assistant message.
abbrev pub exhausted : ℕ → Message → ChatExecution → ChatExecution
exhausted now m e = record e {
  status = Status.failed;
  last_failure_code = some retry_exhausted;
  failure_retryable = false;
  partial_response = not (is_empty m.content);
  completed_at = some now;
}

unfoldable pub exhaust : ℕ → ChatExecution → Message → Database → Database
exhaust now e m db =
    put_assistant e (record m { status = Status.failed }) (put_execution (exhausted now m e) db)

-- the failure that the recovery of a running execution records
abbrev pub note_crash : ChatExecution → ChatExecution
note_crash e =
    if is_running e.status
    then record e { last_failure_code = some process_crash; failure_retryable = true }
    else e

abbrev pub restarted : ℕ → Bool → ChatExecution → ChatExecution
restarted now audited e = record (note_crash e) {
  status = Status.prepared;
  attempt_count = suc e.attempt_count;
  recovered_at = some now;
  completed_at = none;
  partial_response = false;
  governance_audit_required = audited || e.governance_audit_required;
}

abbrev pub charge_again : ℕ → ℕ → ProviderUsageRecord → ProviderUsageRecord
charge_again tokens cost u = record u {
  total_tokens = u.total_tokens + tokens;
  estimated_cost = u.estimated_cost + cost;
}

-- the row of a first attempt
abbrev pub new_execution : Exchange → Database → ChatExecution
new_execution x db = record {
  id = db.next_execution;
  execution_id = x.execution_id;
  request_id = x.request_id;
  conversation_id = x.conversation_id;
  organization_id = x.organization_id;
  user_id = x.user_id;
  bot_id = x.bot_id;
  bot_organization_id = x.bot_organization_id;
  idempotency_record_id = x.idempotency_record_id;
  user_message_id = some db.next_message;
  assistant_message_id = some (suc db.next_message);
  provider = x.provider;
  model = x.model;
  status = Status.prepared;
  attempt_count = 1;
  max_attempts = x.max_attempts;
  last_failure_code = none;
  failure_retryable = false;
  partial_response = false;
  recovered_at = none;
  governance_audit_required = is_some x.governance_decision_id;
  completed_at = none;
}

abbrev pub new_message : Exchange → ℕ → String → String → Status → Bool → Message
new_message x id role content status marked = record {
  id = id;
  conversation_id = x.conversation_id;
  organization_id = x.organization_id;
  execution_id = some x.execution_id;
  role = role;
  content = content;
  bot_id = some x.bot_id;
  status = status;
  ai_marked = marked;
}

abbrev pub new_reservation : Exchange → Database → ProviderUsageRecord
new_reservation x db = record {
  id = db.next_usage;
  request_id = x.request_id;
  execution_id = x.execution_id;
  chat_execution_id = some db.next_execution;
  user_id = x.user_id;
  organization_id = x.organization_id;
  provider = x.provider;
  model = x.model;
  operation = "reservation";
  attempt = 1;
  usage_source = "reservation";
  pricing_revision = none;
  input_tokens = 0;
  output_tokens = 0;
  total_tokens = x.estimated_tokens;
  estimated_cost = x.estimated_cost;
  actual_cost = none;
  verification = x.verification;
}

-- The unique constraint on the idempotency record of an execution.
abbrev pub has_record : Option ℕ → ChatExecution → Bool
has_record none e = false
has_record (some id) e = opt_eq e.idempotency_record_id (some id)

-- `add_all` of the execution and its two messages, flushed
abbrev pub insert_exchange : Exchange → Database → Database
insert_exchange x db = record db {
  executions = db.executions ++ new_execution x db ∷ [];
  messages =
      db.messages
      ++ new_message x db.next_message "user" x.prompt Status.completed false
        ∷ new_message x (suc db.next_message) "assistant" "" Status.pending true
        ∷ [];
  next_execution = suc db.next_execution;
  next_message = suc (suc db.next_message);
}

abbrev pub insert_reservation : Exchange → Database → Database → Database
insert_reservation x old db = record db {
  usages = db.usages ++ new_reservation x old ∷ [];
  next_usage = suc db.next_usage;
}
