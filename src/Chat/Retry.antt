-- ===== src/Chat/Retry.antt =====
-- The two ways of `prepare_exchange`, read off a transaction that went through.
use eiraos_chat_backend.Prelude.{
  ℕ, ◌≡◌, ◌⊎◌, refl, sym, ap, ◌∙◌, String, none, some, Bool, true, false, [], ◌∷◌, ◌++◌, ◌&&◌, ◌||◌,
  not, any, arith, Bool-cases, Option-cases, inl, inr, eq_iff, eq_refl, str_eq, is_some,
}
use eiraos_chat_backend.Prelude.Result.{Result, ok, Result-cases}
use eiraos_chat_backend.Prelude.Rows.{select, update, select-update_found, select-satisfies}
use eiraos_chat_backend.Chat.Database.{
  Status, is_running, is_broken, ChatExecution, Message, ProviderUsageRecord, Database,
  has_execution_id, is_assistant_of, is_reservation_of,
}
use eiraos_chat_backend.Chat.Session.{
  PersistenceError, find_usage, flush, Faults, assistant, assert_recovery_owner,
  bind_governance_decision,
}
use eiraos_chat_backend.Chat.Prepare.{prepare_new, restart, prepare_existing}
use eiraos_chat_backend.Chat.Exchange.{
  Exchange, PersistedChatExecution, same_scope, is_exhausted, put_execution, put_assistant,
  restarted, charge_again, new_reservation, has_record, insert_exchange, insert_reservation,
}
use eiraos_chat_backend.Chat.Final.{assistant_lem}
use eiraos_chat_backend.Chat.Writes.{put_lem}
use eiraos_chat_backend.Chat.Attempt.{
  SameButDecisions, HoldsLease, bind-SameButDecisions, owner-HoldsLease, IsRetried, IsFirst,
}

restarted-execution_id :
    (now : ℕ) (audited : Bool) (e : ChatExecution)
    → (restarted now audited e).execution_id ≡ e.execution_id
restarted-execution_id now audited e = elim (Bool-cases (is_running e.status)) [
  | inl running ↦ rw running
  | inr stopped ↦ rw stopped
]

text_refl : (s t : String) → s ≡ t → str_eq s t ≡ true
text_refl s t e = rw e (eq_refl t)

recoverable_lem :
    (running broken retryable : Bool)
    → not (running || broken) ≡ false
    → (broken && not retryable) ≡ false
    → (running ≡ true) ⊎ ((broken ≡ true) × (retryable ≡ true))
recoverable_lem true broken retryable h k = inl refl
recoverable_lem false true true h k = inr (refl, refl)
recoverable_lem false true false h k = cc
recoverable_lem false false retryable h k = cc

module _ (faults : Faults) where
  restart-IsRetried :
      (now : ℕ) (x : Exchange) (e : ChatExecution) (m : Message) (db : Database)
      {r : Result PersistenceError PersistedChatExecution} {db' : Database}
      → same_scope e x ≡ true
      → HoldsLease now e x.lease_token db
      → is_exhausted e ≡ false
      → select (has_execution_id x.execution_id) db.executions ≡ some e
      → select (is_assistant_of e) db.messages ≡ some m
      → restart faults now x e m db ≡ ok (r, db')
      → IsRetried now x e db db'
  unfolding restart
  restart-IsRetried now x e m db {r} {db'} bound owner left current asked h =
      elim (Bool-cases (not (is_running e.status || is_broken e.status))) [
        | inl bad ↦ absurd (cc (rw bad at h))
        | inr known ↦ elim (Bool-cases (is_broken e.status && not e.failure_retryable)) [
          | inl bad ↦ absurd (cc (rw (known, bad) at h))
          | inr allowed ↦ elim (Bool-cases (faults find_usage)) [
            | inl bad ↦ absurd (cc (rw (known, allowed, bad) at h))
            | inr reached ↦ elim (Option-cases (select (is_reservation_of e) db.usages)) [
              | inl missing ↦ absurd (cc (rw (known, allowed, reached, missing) at h))
              | inr (u, reserved) ↦
                  elim (Result-cases (
                    bind_governance_decision {A = PersistedChatExecution} faults
                      x.governance_decision_id e.execution_id x.organization_id x.user_id
                      (rewritten u))) [
                        | inl (b, bad) ↦
                            absurd (cc (rw (known, allowed, reached, reserved, bad) at h))
                        | inr (d, done) ↦
                            let same : d ≡ db' =
                              cc (rw (known, allowed, reached, reserved, done) at h) in
                            go known allowed u reserved (
                              rw (sym same) (
                                bind-SameButDecisions faults x.governance_decision_id e.execution_id
                                  x.organization_id x.user_id (rewritten u) done))
                      ]
            ]
          ]
        ]
      ]
    where
      rewritten : ProviderUsageRecord → Database
      rewritten u =
          record (put_assistant e (record m { content = ""; status = Status.pending })
            (put_execution (restarted now (is_some x.governance_decision_id) e) db)) {
              usages =
                  update (is_reservation_of e) (charge_again x.estimated_tokens x.estimated_cost)
                    db.usages;
            }

      go :
          not (is_running e.status || is_broken e.status) ≡ false
          → (is_broken e.status && not e.failure_retryable) ≡ false
          → (u : ProviderUsageRecord) → select (is_reservation_of e) db.usages ≡ some u
          → SameButDecisions (rewritten u) db'
          → IsRetried now x e db db'
      go known allowed u reserved s =
          let key : e.execution_id ≡ x.execution_id =
            (eq_iff e.execution_id x.execution_id).0
              (select-satisfies (has_execution_id x.execution_id) db.executions current) in
          let y = restarted now (is_some x.governance_decision_id) e in
          let same : y.execution_id ≡ x.execution_id =
            restarted-execution_id now (is_some x.governance_decision_id) e ∙ key in
          record {
            bound = bound;
            owner = owner;
            attempts_left = ground (arith, left);
            recoverable =
                recoverable_lem (is_running e.status) (is_broken e.status) e.failure_retryable known
                  allowed;
            restarted_row = rw s.executions (
                put_lem y.execution_id x.execution_id db.executions y same current
                  (text_refl y.execution_id x.execution_id same));
            message = m;
            asked = asked;
            cleared = rw s.messages (
                select-update_found (is_assistant_of e)
                  (λ _. record m { content = ""; status = Status.pending }) db.messages asked
                  (select-satisfies (is_assistant_of e) db.messages asked));
            usage = u;
            reserved = reserved;
            charged = rw s.usages (
                select-update_found (is_reservation_of e)
                  (charge_again x.estimated_tokens x.estimated_cost) db.usages reserved
                  (select-satisfies (is_reservation_of e) db.usages reserved));
          }

  pub existing-IsRetried :
      (now : ℕ) (x : Exchange) (e : ChatExecution) (db : Database) {p : PersistedChatExecution}
      {db' : Database}
      → select (has_execution_id x.execution_id) db.executions ≡ some e
      → prepare_existing faults now x e db ≡ ok (ok p, db')
      → (x.recover ≡ true) × IsRetried now x e db db'
  unfolding prepare_existing
  existing-IsRetried now x e db current h = elim (Bool-cases (same_scope e x)) [
    | inr bad ↦ absurd (cc (rw bad at h))
    | inl bound ↦ elim (Bool-cases x.recover) [
      | inr bad ↦ absurd (cc (rw (bound, bad) at h))
      | inl wanted ↦
          elim (Result-cases
            (assert_recovery_owner {A = PersistedChatExecution} faults now e x.lease_token db)) [
              | inl (b, bad) ↦ absurd (cc (rw (bound, wanted, bad) at h))
              | inr (r, owner) ↦
                  elim (Result-cases (assistant {A = PersistedChatExecution} faults e db)) [
                    | inl (b, bad) ↦ absurd (cc (rw (bound, wanted, owner, bad) at h))
                    | inr (m, there) ↦ elim (Bool-cases (is_exhausted e)) [
                      | inl bad ↦ absurd (cc (rw (bound, wanted, owner, there, bad) at h))
                      | inr left ↦ (
                        wanted,
                        restart-IsRetried now x e m db bound
                            (owner-HoldsLease faults now e x.lease_token db owner) left current
                            (assistant_lem faults e db there)
                            (rw (bound, wanted, owner, there, left) at h),
                      )
                    ]
                  ]
            ]
    ]
  ]

  pub new-IsFirst :
      (x : Exchange) (db : Database) {r : Result PersistenceError PersistedChatExecution}
      {db' : Database}
      → select (has_execution_id x.execution_id) db.executions ≡ none
      → prepare_new faults x db ≡ ok (r, db')
      → IsFirst x db db'
  unfolding prepare_new
  new-IsFirst x db {r} {db'} missing h =
      elim (Bool-cases (faults flush || any (has_record x.idempotency_record_id) db.executions)) [
        | inl bad ↦ absurd (cc (rw bad at h))
        | inr flushed ↦
            elim (Result-cases (
              bind_governance_decision {A = PersistedChatExecution} faults x.governance_decision_id
                x.execution_id x.organization_id x.user_id (insert_exchange x db))) [
                  | inl (b, bad) ↦ absurd (cc (rw (flushed, bad) at h))
                  | inr (d, done) ↦
                      let s =
                        bind-SameButDecisions faults x.governance_decision_id x.execution_id
                          x.organization_id x.user_id (insert_exchange x db) done in
                      let same : insert_reservation x db d ≡ db' = cc (rw (flushed, done) at h) in
                      rw (sym same) (record {
                        fresh = missing;
                        executions = s.executions;
                        messages = s.messages;
                        usages = ap (λ us. us ++ new_reservation x db ∷ []) s.usages;
                      })
                ]
      ]
