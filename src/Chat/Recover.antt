-- ===== src/Chat/Recover.antt =====
-- `mark_streaming` and `assert_recovery_allowed`.
use eiraos_chat_backend.Prelude.{
  ℕ, String, Option, none, some, Bool, true, false, ◌&&◌, ◌||◌, not, opt_eq, if◌then◌else◌,
}
use eiraos_chat_backend.Prelude.Result.{Result, ok, err, ◌>>=◌, ◌>>◌, raise_if}
use eiraos_chat_backend.Prelude.Rows.{select, update}
use eiraos_chat_backend.Idempotency.{IdempotencyRecord}
use eiraos_chat_backend.Idempotency.Record.{Status as IdempotencyStatus}
use eiraos_chat_backend.Chat.Failure.{retry_exhausted, failure_policy}
use eiraos_chat_backend.Chat.Database.{
  Status, is_terminal, is_running, is_broken, ChatExecution, Message, Database, has_execution_id,
  has_record_id,
}
use eiraos_chat_backend.Chat.Session.{
  PersistenceError, conflict, retry_limit_exceeded, find_execution, Faults, Commit, Ending, refuse,
  refuse_if, end_transaction, execute, locked_execution, assistant, assert_recovery_owner,
}
use eiraos_chat_backend.Chat.Exchange.{is_exhausted, put_execution, put_assistant, exhaust}

-- the record of a call whose attempts are used up
unfoldable pub close_record : IdempotencyRecord → IdempotencyRecord
close_record r = record r {
  status = IdempotencyStatus.failed;
  response_status = some (failure_policy retry_exhausted).response_status;
  response_reference = some "failed";
  lease_until = none;
}

abbrev pub streaming : ChatExecution → Message → Database → Database
streaming e m db =
    put_assistant e (record m { status = Status.streaming })
      (put_execution (record e { status = Status.streaming }) db)

module _ (faults : Faults) where
  unfoldable pub marking : String → Database → Ending Bool
  marking execution_id db = do
    e ← locked_execution faults execution_id db
    raise_if (is_terminal e.status) (ok false)
    m ← assistant faults e db
    ok (ok true, streaming e m db)

  unfoldable pub mark_streaming :
      Commit → String → Database → Result PersistenceError Bool × Database
  unfolding marking
  mark_streaming commit execution_id db = end_transaction commit db (marking execution_id db)

  unfoldable pub check_existing :
      ℕ → ChatExecution → ℕ → Option String → Database → Ending (Unit {0})
  unfolding close_record
  check_existing now e record_id lease_token db = do
    refuse_if (not (opt_eq e.idempotency_record_id (some record_id)))
        (conflict "recovery identity is bound to another record")
    owner ← assert_recovery_owner faults now e lease_token db
    m ← assistant faults e db
    let closed = exhaust now e m db
    if is_exhausted e
        then ok (
          err retry_limit_exceeded,
          record closed {
            idempotency =
                update (has_record_id e.idempotency_record_id) close_record closed.idempotency;
          },
        )
        else if not (is_running e.status || is_broken e.status)
        then refuse (conflict "execution state is not recoverable")
        else if is_broken e.status && not e.failure_retryable
        then refuse (conflict "execution failure is not retryable")
        else err (ok tt)

  abbrev pub check_found :
      ℕ → ℕ → Option String → Database → Option ChatExecution → Ending (Unit {0})
  check_found now record_id lease_token db none = err (ok tt)
  check_found now record_id lease_token db (some e) = check_existing now e record_id lease_token db

  unfoldable pub recovery_check : ℕ → String → ℕ → Option String → Database → Ending (Unit {0})
  recovery_check now execution_id record_id lease_token db = do
    row ← execute faults find_execution (select (has_execution_id execution_id) db.executions)
    check_found now record_id lease_token db row

  unfoldable pub assert_recovery_allowed :
      Commit
      → ℕ
      → String
      → ℕ
      → Option String
      → Database
      → Result PersistenceError (Unit {0}) × Database
  unfolding recovery_check
  assert_recovery_allowed commit now execution_id record_id lease_token db =
      end_transaction commit db (recovery_check now execution_id record_id lease_token db)
