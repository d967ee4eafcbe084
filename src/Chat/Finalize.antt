-- ===== src/Chat/Finalize.antt =====
-- `finalize`: the one step that ends an execution, its message, its idempotency record, its
-- governance decisions and its accounting together.
use eiraos_chat_backend.Prelude.{
  ℕ, String, Option, none, some, Bool, true, false, List, [], ◌∷◌, ◌&&◌, not, is_none, opt_str_eq,
  ◌==◌, if◌then◌else◌,
}
use eiraos_chat_backend.Prelude.Text.{is_empty}
use eiraos_chat_backend.Prelude.Result.{Result, ok, err, ◌>>=◌, ◌>>◌, raise_if}
use eiraos_chat_backend.Prelude.Rows.{select, select_all, update, update_all}
use eiraos_chat_backend.Idempotency.{IdempotencyRecord, is_processing, is_past, finish}
use eiraos_chat_backend.Chat.Failure.{FailureCode, failure_policy}
use eiraos_chat_backend.Chat.Database.{
  Status, is_terminal, is_completed, ChatExecution, Message, GovernanceDecisionRecord, Database,
  has_record_id,
}
use eiraos_chat_backend.Chat.Session.{
  PersistenceError, conflict, value_error, find_owner, find_decisions, Faults, Commit, Transaction,
  Ending, refuse, refuse_if, end_transaction, execute, locked_execution, assistant,
}
use eiraos_chat_backend.Chat.Exchange.{put_execution, put_assistant}
use eiraos_chat_backend.Chat.Accounting.{ExecutionCost, record_accounting}

-- The arguments of the call.
pub record Ended : Type 0 where
  pub execution_id : String
  pub terminal_status : Status
  pub content : String
  pub response_status : ℕ
  pub response_reference : String
  pub lease_token : Option String
  pub failure_code : Option FailureCode
  pub accounting : List ExecutionCost

-- the response of a failure is the one of its policy
abbrev pub response_of : Option FailureCode → ℕ → ℕ
response_of none response_status = response_status
response_of (some code) response_status = (failure_policy code).response_status

abbrev pub retryable_of : Status → Option FailureCode → Bool → Bool
retryable_of status none before = if is_completed status then false else before
retryable_of status (some code) before = (failure_policy code).retryable

abbrev pub code_of : Option FailureCode → Option FailureCode → Option FailureCode
code_of none before = before
code_of (some code) before = some code

unfoldable pub ended : ℕ → Ended → ChatExecution → ChatExecution
ended now x e = record e {
  status = x.terminal_status;
  completed_at = some now;
  partial_response = not (is_completed x.terminal_status) && not (is_empty x.content);
  last_failure_code = code_of x.failure_code e.last_failure_code;
  failure_retryable = retryable_of x.terminal_status x.failure_code e.failure_retryable;
}

abbrev pub answered : Ended → Message → Message
answered x m = record m { status = x.terminal_status; content = x.content }

-- the open decisions of the execution
unfoldable pub is_open_for : ChatExecution → GovernanceDecisionRecord → Bool
is_open_for e d =
    opt_str_eq d.execution_id (some e.execution_id)
    && (d.organization_id == e.organization_id && (d.allowed && is_none d.finalized_at))

abbrev pub decided : ℕ → Ended → GovernanceDecisionRecord → GovernanceDecisionRecord
decided now x d = record d {
  result_status = some x.terminal_status;
  response_status = some (response_of x.failure_code x.response_status);
  failure_code = x.failure_code;
  finalized_at = some now;
}

abbrev pub is_held : ℕ → Option String → IdempotencyRecord → Bool
is_held now lease_token r = is_processing r.status && opt_str_eq r.lease_token lease_token

abbrev pub owned :
    {A : Type 0} → ℕ → Option String → Option IdempotencyRecord → Transaction A (Unit {0})
owned now lease_token none = refuse (conflict "idempotency ownership was lost")
owned now lease_token (some r) = do
  refuse_if (not (is_held now lease_token r)) (conflict "idempotency ownership was lost")
  refuse_if (is_past now r.lease_until) (conflict "idempotency lease expired")

-- every write of the call but the accounting
unfoldable pub finished : ℕ → Ended → ChatExecution → Message → Database → Database
unfolding ended is_open_for
finished now x e m db =
    let written = put_assistant e (answered x m) (put_execution (ended now x e) db) in
    record written {
      idempotency = elim e.idempotency_record_id [
        | none ↦ db.idempotency
        | some id ↦
            update (has_record_id (some id))
              (finish (response_of x.failure_code x.response_status) x.response_reference)
              db.idempotency
      ];
      decisions = update_all (is_open_for e) (decided now x) db.decisions;
    }

abbrev pub no_rows {ℓ} : {A : Type ℓ} → List A → Bool
no_rows [] = true
no_rows (row ∷ rows) = false

module _ (faults : Faults) where
  -- the ownership of the idempotency record, where the execution has one
  unfoldable pub assert_owned :
      {A : Type 0} → ℕ → Option String → Option ℕ → Database → Transaction A (Unit {0})
  assert_owned now lease_token none db = ok tt
  assert_owned now lease_token (some id) db = do
    row ← execute faults find_owner (select (has_record_id (some id)) db.idempotency)
    owned now lease_token row

  -- on the locked row of an execution that has not ended
  unfoldable pub close : ℕ → Ended → ChatExecution → Database → Ending Bool
  unfolding finished
  close now x e db = do
    raise_if (not (is_completed x.terminal_status) && is_none x.failure_code)
        (err (value_error "terminal failures require a failure_code"))
    held ← assert_owned now x.lease_token e.idempotency_record_id db
    m ← assistant faults e db
    decisions ← execute faults find_decisions (select_all (is_open_for e) db.decisions)
    refuse_if (e.governance_audit_required && no_rows decisions)
        (conflict "governance audit binding is missing")
    accounted ← record_accounting faults e 0 [] x.accounting (finished now x e m db)
    ok (ok true, accounted)

  unfoldable pub finalization : ℕ → Ended → Database → Ending Bool
  finalization now x db = do
    raise_if (not (is_terminal x.terminal_status))
        (err (value_error "terminal_status must be completed, failed or cancelled"))
    e ← locked_execution faults x.execution_id db
    raise_if (is_terminal e.status) (ok false)
    close now x e db

  unfoldable pub finalize : Commit → ℕ → Ended → Database → Result PersistenceError Bool × Database
  unfolding finalization
  finalize commit now x db = end_transaction commit db (finalization now x db)
