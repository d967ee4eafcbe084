-- ===== src/Chat/Prepared.antt =====
-- Every exchange that was prepared, and the bound on the attempts.
use eiraos_chat_backend.Prelude.{
  ℕ, ◌≡◌, ◌⊎◌, String, Option, none, some, true, ◌&&◌, ◌||◌, not, any, Bool-cases, Option-cases,
  inl, inr, is_some,
}
use eiraos_chat_backend.Prelude.Result.{ok, Result-cases}
use eiraos_chat_backend.Prelude.Rows.{select, update}
use eiraos_chat_backend.Chat.Database.{
  Status, is_running, is_broken, ChatExecution, Message, GovernanceDecisionRecord, Database,
  has_record_id, has_execution_id, is_reservation_of, has_decision_id,
}
use eiraos_chat_backend.Chat.Session.{
  find_execution, find_owner, find_usage, find_decision, flush, Faults, Commit, assistant,
  holds_lease, assert_recovery_owner, is_bindable, bind_found, bind_governance_decision,
}
use eiraos_chat_backend.Chat.Prepare.{
  prepare_new, restart, prepare_existing, preparation, prepare_exchange,
}
use eiraos_chat_backend.Chat.Exchange.{
  Exchange, PersistedChatExecution, same_scope, is_exhausted, put_execution, put_assistant,
  restarted, charge_again, has_record, insert_exchange,
}
use eiraos_chat_backend.Chat.Final.{committed}
use eiraos_chat_backend.Chat.Raises.{Raises, Raises-assistant}
use eiraos_chat_backend.Chat.Attempt.{IsRetried, IsFirst}
use eiraos_chat_backend.Chat.Retry.{existing-IsRetried, new-IsFirst}

module _ (faults : Faults) where
  Raises-bound :
      (id execution_id : String) (organization user : ℕ) (db : Database)
      (o : Option GovernanceDecisionRecord)
      → Raises
          (bind_found {A = PersistedChatExecution} faults id execution_id organization user db o)
  Raises-bound id execution_id organization user db none = tt
  Raises-bound id execution_id organization user db (some d) =
      elim (Bool-cases (is_bindable execution_id organization user d)) [
        | inr bad ↦ rw bad tt
        | inl good ↦ rw good tt
      ]

  Raises-bind :
      (id : Option String) (execution_id : String) (organization user : ℕ) (db : Database)
      → Raises (
          bind_governance_decision {A = PersistedChatExecution} faults id execution_id organization
            user db)
  unfolding bind_governance_decision
  Raises-bind none execution_id organization user db = tt
  Raises-bind (some id) execution_id organization user db =
      elim (Bool-cases (faults find_decision)) [
        | inl bad ↦ rw bad tt
        | inr reached ↦ rw reached (
            Raises-bound id execution_id organization user db
              (select (has_decision_id id) db.decisions))
      ]

  Raises-owner :
      (now : ℕ) (e : ChatExecution) (lease_token : Option String) (db : Database)
      → Raises (assert_recovery_owner {A = PersistedChatExecution} faults now e lease_token db)
  unfolding assert_recovery_owner
  Raises-owner now e lease_token db =
      elim (Bool-cases (is_some e.idempotency_record_id && is_some lease_token)) [
        | inr bad ↦ rw bad tt
        | inl named ↦ elim (Bool-cases (faults find_owner)) [
          | inl bad ↦ rw (named, bad) tt
          | inr reached ↦
              elim (Option-cases (select (has_record_id e.idempotency_record_id) db.idempotency)) [
                | inl missing ↦ rw (named, reached, missing) tt
                | inr (r, there) ↦ elim (Bool-cases (holds_lease now lease_token r)) [
                  | inr bad ↦ rw (named, reached, there, bad) tt
                  | inl held ↦ rw (named, reached, there, held) tt
                ]
              ]
        ]
      ]

  Raises-restart :
      (now : ℕ) (x : Exchange) (e : ChatExecution) (m : Message) (db : Database)
      → Raises (restart faults now x e m db)
  unfolding restart
  Raises-restart now x e m db =
      elim (Bool-cases (not (is_running e.status || is_broken e.status))) [
        | inl bad ↦ rw bad tt
        | inr known ↦ elim (Bool-cases (is_broken e.status && not e.failure_retryable)) [
          | inl bad ↦ rw (known, bad) tt
          | inr allowed ↦ elim (Bool-cases (faults find_usage)) [
            | inl bad ↦ rw (known, allowed, bad) tt
            | inr reached ↦ elim (Option-cases (select (is_reservation_of e) db.usages)) [
              | inl missing ↦ rw (known, allowed, reached, missing) tt
              | inr (u, reserved) ↦
                  elim (Result-cases (
                    bind_governance_decision {A = PersistedChatExecution} faults
                      x.governance_decision_id e.execution_id x.organization_id x.user_id
                      rewritten)) [
                        | inl (b, bad) ↦
                            rw (known, allowed, reached, reserved, bad)
                              (rw bad at (
                                Raises-bind x.governance_decision_id e.execution_id
                                  x.organization_id x.user_id rewritten))
                        | inr (d, done) ↦ rw (known, allowed, reached, reserved, done) tt
                      ]
            ]
          ]
        ]
      ]
    where
      rewritten : Database
      rewritten =
          record (put_assistant e (record m { content = ""; status = Status.pending })
            (put_execution (restarted now (is_some x.governance_decision_id) e) db)) {
              usages =
                  update (is_reservation_of e) (charge_again x.estimated_tokens x.estimated_cost)
                    db.usages;
            }

  Raises-existing :
      (now : ℕ) (x : Exchange) (e : ChatExecution) (db : Database)
      → Raises (prepare_existing faults now x e db)
  unfolding prepare_existing
  Raises-existing now x e db = elim (Bool-cases (same_scope e x)) [
    | inr bad ↦ rw bad tt
    | inl bound ↦ elim (Bool-cases x.recover) [
      | inr bad ↦ rw (bound, bad) tt
      | inl wanted ↦
          elim (Result-cases
            (assert_recovery_owner {A = PersistedChatExecution} faults now e x.lease_token db)) [
              | inl (b, bad) ↦
                  rw (bound, wanted, bad) (rw bad at (Raises-owner now e x.lease_token db))
              | inr (r, owner) ↦
                  elim (Result-cases (assistant {A = PersistedChatExecution} faults e db)) [
                    | inl (b, bad) ↦
                        rw (bound, wanted, owner, bad)
                          (rw bad at (Raises-assistant faults PersistedChatExecution e db))
                    | inr (m, there) ↦ elim (Bool-cases (is_exhausted e)) [
                      | inl spent ↦ rw (bound, wanted, owner, there, spent) tt
                      | inr left ↦
                          rw (bound, wanted, owner, there, left) (Raises-restart now x e m db)
                    ]
                  ]
            ]
    ]
  ]

  Raises-new : (x : Exchange) (db : Database) → Raises (prepare_new faults x db)
  unfolding prepare_new
  Raises-new x db =
      elim (Bool-cases (faults flush || any (has_record x.idempotency_record_id) db.executions)) [
        | inl bad ↦ rw bad tt
        | inr flushed ↦
            elim (Result-cases (
              bind_governance_decision {A = PersistedChatExecution} faults x.governance_decision_id
                x.execution_id x.organization_id x.user_id (insert_exchange x db))) [
                  | inl (b, bad) ↦
                      rw (flushed, bad)
                        (rw bad at (
                          Raises-bind x.governance_decision_id x.execution_id x.organization_id
                            x.user_id (insert_exchange x db)))
                  | inr (d, done) ↦ rw (flushed, done) tt
                ]
      ]

  Raises-preparation :
      (now : ℕ) (x : Exchange) (db : Database) → Raises (preparation faults now x db)
  unfolding preparation
  Raises-preparation now x db = elim (Bool-cases (faults find_execution)) [
    | inl bad ↦ rw bad tt
    | inr reached ↦ elim (Option-cases (select (has_execution_id x.execution_id) db.executions)) [
      | inl missing ↦ rw (reached, missing) (Raises-new x db)
      | inr (e, there) ↦ rw (reached, there) (Raises-existing now x e db)
    ]
  ]

-- A prepared exchange is a first attempt, or one more attempt of the execution it names.
abbrev pub Retried : ℕ → Exchange → Database → Database → Type 0
Retried now x db db' =
    (e : ChatExecution) × (select (has_execution_id x.execution_id) db.executions ≡ some e)
    × (x.recover ≡ true)
    × IsRetried now x e db db'

abbrev pub Prepared : ℕ → Exchange → Database → Database → Type 0
Prepared now x db db' = IsFirst x db db' ⊎ Retried now x db db'

preparation-Prepared :
    (faults : Faults) (now : ℕ) (x : Exchange) (db : Database) {p : PersistedChatExecution}
    {db' : Database}
    → preparation faults now x db ≡ ok (ok p, db')
    → Prepared now x db db'
unfolding preparation
preparation-Prepared faults now x db h = elim (Bool-cases (faults find_execution)) [
  | inl bad ↦ absurd (cc (rw bad at h))
  | inr reached ↦ elim (Option-cases (select (has_execution_id x.execution_id) db.executions)) [
    | inl missing ↦ inl (new-IsFirst faults x db missing (rw (reached, missing) at h))
    | inr (e, there) ↦
        let (wanted, retried) =
          existing-IsRetried faults now x e db there (rw (reached, there) at h) in
        inr (e, there, wanted, retried)
  ]
]

-- A prepared exchange is one of two. It is a first attempt: no execution had its identity, and the
-- execution, its two messages and its reservation are added as the arguments describe. Or it is one
-- more attempt that was asked for: the execution has the same tenant, user, conversation, bot,
-- record, provider and model, the caller's token holds its record within the lease, it has an
-- attempt left, it was running or its failure allows another try, and its row, its assistant
-- message and its reservation are those of a new attempt.
pub prepare_exchange-Prepared :
    (faults : Faults) (c : Commit) (now : ℕ) (x : Exchange) (db : Database)
    {p : PersistedChatExecution} {db' : Database}
    → prepare_exchange faults c now x db ≡ (ok p, db')
    → Prepared now x db db'
unfolding prepare_exchange
prepare_exchange-Prepared faults c now x db h =
    elim (committed c db (preparation faults now x db) h) [
      | inl t ↦ preparation-Prepared faults now x db t
      | inr (t, _) ↦ absurd (rw t at (Raises-preparation faults now x db))
    ]
