-- ===== src/Chat/Prepare.antt =====
-- `prepare_exchange`: a first attempt, and the recovery of an existing execution.
use eiraos_chat_backend.Prelude.{
  ℕ, Option, none, some, ◌&&◌, ◌||◌, not, any, is_some, if◌then◌else◌,
}
use eiraos_chat_backend.Prelude.Result.{Result, ok, err, ◌>>=◌, ◌>>◌}
use eiraos_chat_backend.Prelude.Rows.{select, update}
use eiraos_chat_backend.Chat.Database.{
  Status, is_running, is_broken, ChatExecution, Message, Database, has_execution_id,
  is_reservation_of,
}
use eiraos_chat_backend.Chat.Session.{
  PersistenceError, conflict, unavailable, retry_limit_exceeded, find_execution, find_usage, flush,
  Faults, Commit, Ending, refuse_if, end_transaction, execute, found, assistant,
  assert_recovery_owner, bind_governance_decision,
}
use eiraos_chat_backend.Chat.Exchange.{
  Exchange, PersistedChatExecution, snapshot, same_scope, is_exhausted, put_execution,
  put_assistant, exhaust, restarted, charge_again, new_execution, has_record, insert_exchange,
  insert_reservation,
}

module _ (faults : Faults) where
  unfoldable pub prepare_new : Exchange → Database → Ending PersistedChatExecution
  unfolding snapshot
  prepare_new x db = do
    refuse_if (faults flush || any (has_record x.idempotency_record_id) db.executions) unavailable
    bound ←
        bind_governance_decision faults x.governance_decision_id x.execution_id x.organization_id
          x.user_id (insert_exchange x db)
    ok (snapshot (new_execution x db), insert_reservation x db bound)

  -- an execution that may be tried again
  unfoldable pub restart :
      ℕ → Exchange → ChatExecution → Message → Database → Ending PersistedChatExecution
  unfolding snapshot
  restart now x e m db = do
    refuse_if (not (is_running e.status || is_broken e.status))
        (conflict "execution state is not recoverable")
    refuse_if (is_broken e.status && not e.failure_retryable)
        (conflict "execution failure is not retryable")
    let e' = restarted now (is_some x.governance_decision_id) e
    usage ← execute faults find_usage (select (is_reservation_of e) db.usages)
    reservation ← found faults "execution usage binding is invalid" usage
    let cleared =
        put_assistant e (record m { content = ""; status = Status.pending }) (put_execution e' db)
    bound ←
        bind_governance_decision faults x.governance_decision_id e.execution_id x.organization_id
          x.user_id
          (record cleared {
            usages =
                update (is_reservation_of e) (charge_again x.estimated_tokens x.estimated_cost)
                  db.usages;
          })
    ok (snapshot e', bound)

  unfoldable pub prepare_existing :
      ℕ → Exchange → ChatExecution → Database → Ending PersistedChatExecution
  unfolding exhaust restart
  prepare_existing now x e db = do
    refuse_if (not (same_scope e x)) (conflict "execution identity is bound to another scope")
    refuse_if (not x.recover) (conflict "existing execution requires an owned recovery lease")
    owner ← assert_recovery_owner faults now e x.lease_token db
    m ← assistant faults e db
    if is_exhausted e
        then ok (err retry_limit_exceeded, exhaust now e m db)
        else restart now x e m db

  abbrev pub prepare_found :
      ℕ → Exchange → Database → Option ChatExecution → Ending PersistedChatExecution
  prepare_found now x db none = prepare_new x db
  prepare_found now x db (some e) = prepare_existing now x e db

  unfoldable pub preparation : ℕ → Exchange → Database → Ending PersistedChatExecution
  preparation now x db = do
    existing ←
        execute faults find_execution (select (has_execution_id x.execution_id) db.executions)
    prepare_found now x db existing

  unfoldable pub prepare_exchange :
      Commit → ℕ → Exchange → Database → Result PersistenceError PersistedChatExecution × Database
  unfolding preparation
  prepare_exchange commit now x db = end_transaction commit db (preparation now x db)
