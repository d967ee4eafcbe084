-- ===== src/Chat/Attempt.antt =====
-- What a prepared exchange rests on: a first attempt, or one more attempt of an execution whose
-- lease the caller holds.
use eiraos_chat_backend.Prelude.{
  ℕ, suc, ◌≡◌, ◌⊎◌, ◌<◌, refl, sym, String, Option, none, some, true, false, [], ◌∷◌, ◌++◌, ◌&&◌,
  Bool-cases, Option-cases, inl, inr, is_some,
}
use eiraos_chat_backend.Prelude.Result.{ok}
use eiraos_chat_backend.Prelude.Rows.{select, update}
use eiraos_chat_backend.Idempotency.{IdempotencyRecord}
use eiraos_chat_backend.Chat.Database.{
  Status, is_running, is_broken, ChatExecution, Message, ProviderUsageRecord,
  GovernanceDecisionRecord, Database, has_record_id, has_execution_id, is_assistant_of,
  is_reservation_of, has_decision_id,
}
use eiraos_chat_backend.Chat.Session.{
  find_owner, find_decision, Faults, holds_lease, assert_recovery_owner, is_bindable, bind_found,
  bind_governance_decision,
}
use eiraos_chat_backend.Chat.Exchange.{
  Exchange, PersistedChatExecution, same_scope, restarted, charge_again, new_execution, new_message,
  new_reservation,
}

-- A binding writes the decisions, and nothing else.
pub record SameButDecisions (db db' : Database) : Type 0 where
  pub executions : db'.executions ≡ db.executions
  pub messages : db'.messages ≡ db.messages
  pub usages : db'.usages ≡ db.usages
  pub idempotency : db'.idempotency ≡ db.idempotency

unchanged : (db : Database) {db' : Database} → db ≡ db' → SameButDecisions db db'
unchanged db h =
    rw (sym h) (record { executions = refl; messages = refl; usages = refl; idempotency = refl })

-- The lease that a recovery holds.
pub record HoldsLease (now : ℕ) (e : ChatExecution) (lease_token : Option String) (db : Database)
    : Type 0 where
  pub row : IdempotencyRecord
  pub current : select (has_record_id e.idempotency_record_id) db.idempotency ≡ some row
  pub held : holds_lease now lease_token row ≡ true

module _ (faults : Faults) where
  bound_lem :
      (id execution_id : String) (organization user : ℕ) (db : Database)
      (o : Option GovernanceDecisionRecord) {db' : Database}
      → bind_found {A = PersistedChatExecution} faults id execution_id organization user db o
        ≡ ok db'
      → SameButDecisions db db'
  bound_lem id execution_id organization user db none h = cc
  bound_lem id execution_id organization user db (some d) {db'} h =
      elim (Bool-cases (is_bindable execution_id organization user d)) [
        | inr bad ↦ absurd (cc (rw bad at h))
        | inl good ↦
            let same : record db {
              decisions =
                  update (has_decision_id id)
                    (λ (r : GovernanceDecisionRecord). record r {
                      execution_id = some execution_id;
                    })
                    db.decisions;
            }
                ≡ db' =
              cc (rw good at h) in
            rw (sym same)
              (record { executions = refl; messages = refl; usages = refl; idempotency = refl })
      ]

  pub bind-SameButDecisions :
      (id : Option String) (execution_id : String) (organization user : ℕ) (db : Database)
      {db' : Database}
      → bind_governance_decision {A = PersistedChatExecution} faults id execution_id organization
          user db
        ≡ ok db'
      → SameButDecisions db db'
  unfolding bind_governance_decision
  bind-SameButDecisions none execution_id organization user db h = unchanged db (cc h)
  bind-SameButDecisions (some id) execution_id organization user db h =
      elim (Bool-cases (faults find_decision)) [
        | inl bad ↦ absurd (cc (rw bad at h))
        | inr reached ↦
            bound_lem id execution_id organization user db
              (select (has_decision_id id) db.decisions) (rw reached at h)
      ]

  pub owner-HoldsLease :
      (now : ℕ) (e : ChatExecution) (lease_token : Option String) (db : Database)
      {r : IdempotencyRecord}
      → assert_recovery_owner {A = PersistedChatExecution} faults now e lease_token db ≡ ok r
      → HoldsLease now e lease_token db
  unfolding assert_recovery_owner
  owner-HoldsLease now e lease_token db h =
      elim (Bool-cases (is_some e.idempotency_record_id && is_some lease_token)) [
        | inr bad ↦ absurd (cc (rw bad at h))
        | inl named ↦ elim (Bool-cases (faults find_owner)) [
          | inl bad ↦ absurd (cc (rw (named, bad) at h))
          | inr reached ↦
              elim (Option-cases (select (has_record_id e.idempotency_record_id) db.idempotency)) [
                | inl missing ↦ absurd (cc (rw (named, reached, missing) at h))
                | inr (r, there) ↦ elim (Bool-cases (holds_lease now lease_token r)) [
                  | inr bad ↦ absurd (cc (rw (named, reached, there, bad) at h))
                  | inl held ↦ record { row = r; current = there; held = held }
                ]
              ]
        ]
      ]

-- What one more attempt did.
pub record IsRetried (now : ℕ) (x : Exchange) (e : ChatExecution) (db db' : Database) : Type 0 where
  pub bound : same_scope e x ≡ true
  pub owner : HoldsLease now e x.lease_token db
  pub attempts_left : e.attempt_count < e.max_attempts
  pub recoverable :
      (is_running e.status ≡ true) ⊎ ((is_broken e.status ≡ true) × (e.failure_retryable ≡ true))
  pub restarted_row :
      select (has_execution_id x.execution_id) db'.executions
      ≡ some (restarted now (is_some x.governance_decision_id) e)
  pub message : Message
  pub asked : select (is_assistant_of e) db.messages ≡ some message
  pub cleared :
      select (is_assistant_of e) db'.messages
      ≡ some (record message { content = ""; status = Status.pending })
  pub usage : ProviderUsageRecord
  pub reserved : select (is_reservation_of e) db.usages ≡ some usage
  pub charged :
      select (is_reservation_of e) db'.usages
      ≡ some (charge_again x.estimated_tokens x.estimated_cost usage)

-- What a first attempt did.
pub record IsFirst (x : Exchange) (db db' : Database) : Type 0 where
  pub fresh : select (has_execution_id x.execution_id) db.executions ≡ none
  pub executions : db'.executions ≡ db.executions ++ new_execution x db ∷ []
  pub messages :
      db'.messages
      ≡ db.messages
        ++ new_message x db.next_message "user" x.prompt Status.completed false
          ∷ new_message x (suc db.next_message) "assistant" "" Status.pending true
          ∷ []
  pub usages : db'.usages ≡ db.usages ++ new_reservation x db ∷ []
