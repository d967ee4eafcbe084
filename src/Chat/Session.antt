-- ===== src/Chat/Session.antt =====
-- One database session: what a call reads and writes is a transaction on the tables, whose rows
-- it has locked; at its end it is committed or rolled back. A query, a flush or the commit may
-- fail.
use eiraos_chat_backend.Prelude.{
  ℕ, String, Option, none, some, Bool, false, ◌&&◌, not, is_some, opt_str_eq, if◌then◌else◌, ◌==◌,
}
use eiraos_chat_backend.Prelude.Result.{Result, ok, err, ◌>>=◌, ◌>>◌, raise_if}
use eiraos_chat_backend.Prelude.Rows.{select, update}
use eiraos_chat_backend.Idempotency.{IdempotencyRecord, is_processing, is_past}
use eiraos_chat_backend.Chat.Database.{
  ChatExecution, Message, GovernanceDecisionRecord, Database, has_execution_id, is_assistant_of,
  has_record_id, has_decision_id,
}

-- Of an unavailability the text is left out.
pub data PersistenceError : Type 0 where
  conflict : String → PersistenceError
  unavailable : PersistenceError
  retry_limit_exceeded : PersistenceError
  value_error : String → PersistenceError

-- The places where the database may fail before the commit.
pub data Point : Type 0 where
  find_execution find_owner find_assistant find_usage find_decision find_decisions flush : Point
  find_accounting : ℕ → Point

abbrev pub Faults : Type 0
Faults = Point → Bool

-- What became of the commit: done, refused, or done with its reply lost.
pub data Commit : Type 0 where
  done refused lost : Commit

-- A transaction that stops early is rolled back, with what the call then returns or raises;
-- otherwise the tables are committed, and then the call returns or raises.
abbrev pub Transaction : Type 0 → Type 0 → Type 0
Transaction A B = Result (Result PersistenceError A) B

abbrev pub Ending : Type 0 → Type 0
Ending A = Transaction A (Result PersistenceError A × Database)

-- `rollback` and `raise`
abbrev pub refuse : {A B : Type 0} → PersistenceError → Transaction A B
refuse e = err (err e)

-- `if condition: rollback; raise`
abbrev pub refuse_if : {A : Type 0} → Bool → PersistenceError → Transaction A (Unit {0})
refuse_if condition e = raise_if condition (err e)

-- `_commit_or_unavailable`, and the end of a transaction that stopped before it
unfoldable pub end_transaction :
    {A : Type 0} → Commit → Database → Ending A → Result PersistenceError A × Database
end_transaction c db (err r) = (r, db)
end_transaction done db (ok (r, db')) = (r, db')
end_transaction refused db (ok (r, db')) = (err unavailable, db)
end_transaction lost db (ok (r, db')) = (err unavailable, db')

-- the record is held by the token, and its lease has not passed
abbrev pub holds_lease : ℕ → Option String → IdempotencyRecord → Bool
holds_lease now lease_token r =
    is_processing r.status
    && (opt_str_eq r.lease_token lease_token && not (is_past now r.lease_until))

-- `decision.execution_id not in {None, execution_id}`
abbrev pub bound_elsewhere : Option String → String → Bool
bound_elsewhere none execution_id = false
bound_elsewhere (some other) execution_id = not (opt_str_eq (some other) (some execution_id))

abbrev pub is_bindable : String → ℕ → ℕ → GovernanceDecisionRecord → Bool
is_bindable execution_id organization_id user_id d =
    d.allowed
    && (not (is_some d.finalized_at)
        && (d.organization_id == organization_id
            && (d.user_id == user_id && not (bound_elsewhere d.execution_id execution_id))))

module _ {A : Type 0} (faults : Faults) where
  -- `_execute`
  abbrev pub execute : {B : Type 0} → Point → B → Transaction A B
  execute point answer = if faults point then refuse unavailable else ok answer

  abbrev pub found : {B : Type 0} → String → Option B → Transaction A B
  found message none = refuse (conflict message)
  found message (some b) = ok b

  -- `_locked_execution`
  unfoldable pub locked_execution : String → Database → Transaction A ChatExecution
  locked_execution execution_id db = do
    row ← execute find_execution (select (has_execution_id execution_id) db.executions)
    found "execution does not exist" row

  -- `_assistant`
  unfoldable pub assistant : ChatExecution → Database → Transaction A Message
  assistant execution db = do
    row ← execute find_assistant (select (is_assistant_of execution) db.messages)
    found "assistant message binding is invalid" row

  abbrev pub owner_or_lost :
      ℕ → Option String → Option IdempotencyRecord → Transaction A IdempotencyRecord
  owner_or_lost now lease_token none = refuse (conflict "recovery lease ownership was lost")
  owner_or_lost now lease_token (some r) =
      if holds_lease now lease_token r
      then ok r
      else refuse (conflict "recovery lease ownership was lost")

  -- `_assert_recovery_owner`
  unfoldable pub assert_recovery_owner :
      ℕ → ChatExecution → Option String → Database → Transaction A IdempotencyRecord
  assert_recovery_owner now execution lease_token db = do
    refuse_if (not (is_some execution.idempotency_record_id && is_some lease_token))
        (conflict "recovery requires idempotency ownership")
    row ← execute find_owner (select (has_record_id execution.idempotency_record_id) db.idempotency)
    owner_or_lost now lease_token row

  abbrev pub bind_found :
      String → String → ℕ → ℕ → Database → Option GovernanceDecisionRecord → Transaction A Database
  bind_found decision_id execution_id organization_id user_id db none =
      refuse (conflict "governance decision binding is invalid")
  bind_found decision_id execution_id organization_id user_id db (some d) =
      if is_bindable execution_id organization_id user_id d
      then ok (record db {
        decisions =
            update (has_decision_id decision_id)
              (λ (r : GovernanceDecisionRecord). record r { execution_id = some execution_id })
              db.decisions;
      })
      else refuse (conflict "governance decision binding is invalid")

  -- `_bind_governance_decision`
  unfoldable pub bind_governance_decision :
      Option String → String → ℕ → ℕ → Database → Transaction A Database
  bind_governance_decision none execution_id organization_id user_id db = ok db
  bind_governance_decision (some decision_id) execution_id organization_id user_id db = do
    row ← execute find_decision (select (has_decision_id decision_id) db.decisions)
    bind_found decision_id execution_id organization_id user_id db row
