-- ===== src/Chat/Final.antt =====
-- What a finalization that returned true did, to every table.
use eiraos_chat_backend.Prelude.{
  ℕ, suc, ◌≡◌, ◌⊎◌, refl, sym, ap, ◌∙◌, String, Option, none, some, Bool, true, false, List, [],
  ◌∷◌, ◌&&◌, not, is_some, is_none, arith, Bool-cases, Option-cases, inl, inr,
}
use eiraos_chat_backend.Prelude.Text.{one_of}
use eiraos_chat_backend.Prelude.Result.{Result, ok, err, Result-cases}
use eiraos_chat_backend.Prelude.Rows.{select, select_all}
use eiraos_chat_backend.Idempotency.{IdempotencyRecord, is_past}
use eiraos_chat_backend.Chat.Failure.{FailureCode}
use eiraos_chat_backend.Chat.Database.{
  Status, is_completed, ChatExecution, Message, Database, has_record_id, has_execution_id,
  is_assistant_of,
}
use eiraos_chat_backend.Chat.Session.{
  PersistenceError, find_owner, find_assistant, find_execution, find_decisions, find_accounting,
  Faults, Commit, done, refused, lost, Ending, end_transaction, locked_execution, assistant,
}
use eiraos_chat_backend.Chat.Accounting.{
  ExecutionCost, record_accounting, is_accounting_of, is_misbound, insert_usage,
}
use eiraos_chat_backend.Chat.Finalize.{
  Ended, is_open_for, is_held, finished, no_rows, assert_owned, close,
}

-- A transaction that committed to a result.
pub committed :
    {A : Type 0} (c : Commit) (db : Database) (t : Ending A) {a : A} {db' : Database}
    → end_transaction c db t ≡ (ok a, db')
    → (t ≡ ok (ok a, db')) ⊎ ((t ≡ err (ok a)) × (db' ≡ db))
unfolding end_transaction
committed done db (ok (r, d)) h = inl (cc h)
committed refused db (ok (r, d)) h = cc
committed lost db (ok (r, d)) h = cc
committed done db (err r) h = inr (cc h, cc h)
committed refused db (err r) h = inr (cc h, cc h)
committed lost db (err r) h = inr (cc h, cc h)

-- The accounting writes usage rows, and nothing else.
pub record SameButUsages (db db' : Database) : Type 0 where
  pub executions : db'.executions ≡ db.executions
  pub messages : db'.messages ≡ db.messages
  pub decisions : db'.decisions ≡ db.decisions
  pub idempotency : db'.idempotency ≡ db.idempotency

record_accounting-SameButUsages :
    {A : Type 0} (faults : Faults) (e : ChatExecution) (n : ℕ) (operations : List String)
    (entries : List ExecutionCost) (db : Database) {db' : Database}
    → record_accounting {A = A} faults e n operations entries db ≡ ok db'
    → SameButUsages db db'
unfolding record_accounting
record_accounting-SameButUsages faults e n operations [] db {db'} h =
    let same : db ≡ db' = cc h in
    rw (sym same)
      (record { executions = refl; messages = refl; decisions = refl; idempotency = refl })
record_accounting-SameButUsages faults e n operations (entry ∷ entries) db h =
    elim (Bool-cases (one_of entry.operation operations)) [
      | inl bad ↦ absurd (cc (rw bad at h))
      | inr fresh ↦ elim (Bool-cases (is_misbound e entry)) [
        | inl bad ↦ absurd (cc (rw (fresh, bad) at h))
        | inr bound ↦ elim (Bool-cases (faults (find_accounting n))) [
          | inl bad ↦ absurd (cc (rw (fresh, bound, bad) at h))
          | inr reached ↦
              elim (Bool-cases (is_some (select (is_accounting_of e entry) db.usages))) [
                | inl bad ↦ absurd (cc (rw (fresh, bound, reached, bad) at h))
                | inr missing ↦
                    let rest =
                      record_accounting-SameButUsages faults e (suc n)
                        (entry.operation ∷ operations) entries (insert_usage e entry db)
                        (rw (fresh, bound, reached, missing) at h) in
                    record {
                      executions = rest.executions;
                      messages = rest.messages;
                      decisions = rest.decisions;
                      idempotency = rest.idempotency;
                    }
              ]
        ]
      ]
    ]

-- The ownership that the call checked, of an execution with an idempotency record.
pub record IsOwned (now : ℕ) (lease_token : Option String) (id : ℕ) (db : Database) : Type 0 where
  pub row : IdempotencyRecord
  pub current : select (has_record_id (some id)) db.idempotency ≡ some row
  pub held : is_held now lease_token row ≡ true
  pub in_time : is_past now row.lease_until ≡ false

module _ (faults : Faults) where
  assert_owned-IsOwned :
      {A : Type 0} (now : ℕ) (lease_token : Option String) (id : ℕ) (db : Database)
      → assert_owned faults {A = A} now lease_token (some id) db ≡ ok tt
      → IsOwned now lease_token id db
  unfolding assert_owned
  assert_owned-IsOwned now lease_token id db h = elim (Bool-cases (faults find_owner)) [
    | inl bad ↦ absurd (cc (rw bad at h))
    | inr reached ↦ elim (Option-cases (select (has_record_id (some id)) db.idempotency)) [
      | inl missing ↦ absurd (cc (rw (reached, missing) at h))
      | inr (r, there) ↦ elim (Bool-cases (is_held now lease_token r)) [
        | inr bad ↦ absurd (cc (rw (reached, there, bad) at h))
        | inl held ↦ elim (Bool-cases (is_past now r.lease_until)) [
          | inl bad ↦ absurd (cc (rw (reached, there, held, bad) at h))
          | inr in_time ↦ record { row = r; current = there; held = held; in_time = in_time }
        ]
      ]
    ]
  ]

  pub locked_execution_lem :
      {A : Type 0} (id : String) (db : Database) {e : ChatExecution}
      → locked_execution {A = A} faults id db ≡ ok e
      → select (has_execution_id id) db.executions ≡ some e
  unfolding locked_execution
  locked_execution_lem id db {e} h = elim (Bool-cases (faults find_execution)) [
    | inl bad ↦ absurd (cc (rw bad at h))
    | inr reached ↦ elim (Option-cases (select (has_execution_id id) db.executions)) [
      | inl missing ↦ absurd (cc (rw (reached, missing) at h))
      | inr (r, there) ↦ let same : r ≡ e = cc (rw (reached, there) at h) in there ∙ ap some same
    ]
  ]

  pub assistant_lem :
      {A : Type 0} (e : ChatExecution) (db : Database) {m : Message}
      → assistant {A = A} faults e db ≡ ok m
      → select (is_assistant_of e) db.messages ≡ some m
  unfolding assistant
  assistant_lem e db {m} h = elim (Bool-cases (faults find_assistant)) [
    | inl bad ↦ absurd (cc (rw bad at h))
    | inr reached ↦ elim (Option-cases (select (is_assistant_of e) db.messages)) [
      | inl missing ↦ absurd (cc (rw (reached, missing) at h))
      | inr (r, there) ↦ let same : r ≡ m = cc (rw (reached, there) at h) in there ∙ ap some same
    ]
  ]

  -- The checks of a finalization that went through, with the row and the message it was about.
  pub record Closes (now : ℕ) (x : Ended) (e : ChatExecution) (db db' : Database) : Type 0 where
    pub named : x.terminal_status ≡ Status.completed ⊎ (is_some x.failure_code ≡ true)
    pub owner : (id : ℕ) → e.idempotency_record_id ≡ some id → IsOwned now x.lease_token id db
    pub message : Message
    pub answer : select (is_assistant_of e) db.messages ≡ some message
    pub audited :
        e.governance_audit_required ≡ true
        → no_rows (select_all (is_open_for e) db.decisions) ≡ false
    pub written : SameButUsages (finished now x e message db) db'

  named_lem :
      (s : Status) (code : Option FailureCode)
      → (not (is_completed s) && is_none code) ≡ false
      → (s ≡ Status.completed) ⊎ (is_some code ≡ true)
  named_lem Status.completed code h = inl refl
  named_lem s (some code) h = inr refl
  named_lem Status.prepared none h = cc
  named_lem Status.pending none h = cc
  named_lem Status.streaming none h = cc
  named_lem Status.failed none h = cc
  named_lem Status.cancelled none h = cc

  owner_lem :
      {A : Type 0} (now : ℕ) (lease_token : Option String) (o : Option ℕ) (db : Database)
      → assert_owned faults {A = A} now lease_token o db ≡ ok tt
      → (id : ℕ) → o ≡ some id
      → IsOwned now lease_token id db
  owner_lem now lease_token o db h id e = assert_owned-IsOwned now lease_token id db (rw e at h)

  audit_lem :
      (required empty : Bool) → (required && empty) ≡ false → required ≡ true → empty ≡ false
  audit_lem required empty h k = ground (arith, h, k)

  pub close-Closes :
      (now : ℕ) (x : Ended) (e : ChatExecution) (db : Database) {r : Result PersistenceError Bool}
      {db' : Database}
      → close faults now x e db ≡ ok (r, db')
      → Closes now x e db db'
  unfolding close
  close-Closes now x e db {db'} h =
      elim (Bool-cases (not (is_completed x.terminal_status) && is_none x.failure_code)) [
        | inl bad ↦ absurd (cc (rw bad at h))
        | inr named ↦
            elim (Result-cases
              (assert_owned faults {A = Bool} now x.lease_token e.idempotency_record_id db)) [
                | inl (r, bad) ↦ absurd (cc (rw (named, bad) at h))
                | inr (_, mine) ↦ elim (Result-cases (assistant {A = Bool} faults e db)) [
                  | inl (r, bad) ↦ absurd (cc (rw (named, mine, bad) at h))
                  | inr (m, there) ↦ elim (Bool-cases (faults find_decisions)) [
                    | inl bad ↦ absurd (cc (rw (named, mine, there, bad) at h))
                    | inr reached ↦
                        elim (Bool-cases (
                          e.governance_audit_required
                          && no_rows (select_all (is_open_for e) db.decisions))) [
                            | inl bad ↦ absurd (cc (rw (named, mine, there, reached, bad) at h))
                            | inr audited ↦
                                elim (Result-cases (
                                  record_accounting {A = Bool} faults e 0 [] x.accounting
                                    (finished now x e m db))) [
                                      | inl (r, bad) ↦
                                          absurd (
                                            cc
                                              (rw (named, mine, there, reached, audited, bad) at h))
                                      | inr (d, accounted) ↦
                                          let same : d ≡ db' = cc (
                                            rw (named, mine, there, reached, audited, accounted) at
                                              h) in
                                          record {
                                            named =
                                                named_lem x.terminal_status x.failure_code named;
                                            owner =
                                                owner_lem now x.lease_token e.idempotency_record_id
                                                  db mine;
                                            message = m;
                                            answer = assistant_lem e db there;
                                            audited = audit_lem _ _ audited;
                                            written = rw (sym same) (
                                                record_accounting-SameButUsages faults e 0 []
                                                  x.accounting (finished now x e m db) accounted);
                                          }
                                    ]
                          ]
                  ]
                ]
              ]
      ]
