-- ===== src/Chat/Raises.antt =====
-- How a transaction of the persistence ends early.
use eiraos_chat_backend.Prelude.{
  ℕ, suc, String, Option, none, some, Bool, List, [], ◌∷◌, ◌&&◌, not, is_some, is_none, Bool-cases,
  Option-cases, inl, inr,
}
use eiraos_chat_backend.Prelude.Text.{one_of}
use eiraos_chat_backend.Prelude.Result.{ok, err, Result-cases}
use eiraos_chat_backend.Prelude.Rows.{select, select_all}
use eiraos_chat_backend.Idempotency.{is_past}
use eiraos_chat_backend.Chat.Database.{
  is_completed, ChatExecution, Database, has_record_id, has_execution_id, is_assistant_of,
}
use eiraos_chat_backend.Chat.Session.{
  find_owner, find_assistant, find_execution, find_decisions, find_accounting, Faults, Transaction,
  locked_execution, assistant,
}
use eiraos_chat_backend.Chat.Accounting.{
  ExecutionCost, record_accounting, is_accounting_of, is_misbound, insert_usage,
}
use eiraos_chat_backend.Chat.Finalize.{
  Ended, is_open_for, is_held, finished, no_rows, assert_owned, close,
}

-- A transaction that does not return by rolling back: it goes on, or it raises.
abbrev pub Raises : {A B : Type 0} → Transaction A B → Type 0
Raises (ok b) = Unit
Raises (err (ok a)) = ⊥
Raises (err (err e)) = Unit

Raises-record_accounting :
    (faults : Faults) (e : ChatExecution) (n : ℕ) (operations : List String)
    (entries : List ExecutionCost) (db : Database)
    → Raises (record_accounting {A = Bool} faults e n operations entries db)
unfolding record_accounting
Raises-record_accounting faults e n operations [] db = tt
Raises-record_accounting faults e n operations (entry ∷ entries) db =
    elim (Bool-cases (one_of entry.operation operations)) [
      | inl bad ↦ rw bad tt
      | inr fresh ↦ elim (Bool-cases (is_misbound e entry)) [
        | inl bad ↦ rw (fresh, bad) tt
        | inr bound ↦ elim (Bool-cases (faults (find_accounting n))) [
          | inl bad ↦ rw (fresh, bound, bad) tt
          | inr reached ↦
              elim (Bool-cases (is_some (select (is_accounting_of e entry) db.usages))) [
                | inl bad ↦ rw (fresh, bound, reached, bad) tt
                | inr missing ↦
                    rw (fresh, bound, reached, missing)
                      (Raises-record_accounting faults e (suc n) (entry.operation ∷ operations)
                        entries (insert_usage e entry db))
              ]
        ]
      ]
    ]

module _ (faults : Faults) where
  Raises-assert_owned :
      (now : ℕ) (lease_token : Option String) (o : Option ℕ) (db : Database)
      → Raises (assert_owned faults {A = Bool} now lease_token o db)
  unfolding assert_owned
  Raises-assert_owned now lease_token none db = tt
  Raises-assert_owned now lease_token (some id) db = elim (Bool-cases (faults find_owner)) [
    | inl bad ↦ rw bad tt
    | inr reached ↦ elim (Option-cases (select (has_record_id (some id)) db.idempotency)) [
      | inl missing ↦ rw (reached, missing) tt
      | inr (r, there) ↦ elim (Bool-cases (is_held now lease_token r)) [
        | inr bad ↦ rw (reached, there, bad) tt
        | inl held ↦ elim (Bool-cases (is_past now r.lease_until)) [
          | inl bad ↦ rw (reached, there, held, bad) tt
          | inr in_time ↦ rw (reached, there, held, in_time) tt
        ]
      ]
    ]
  ]

  pub Raises-locked_execution :
      (id : String) (db : Database) → Raises (locked_execution {A = Bool} faults id db)
  unfolding locked_execution
  Raises-locked_execution id db = elim (Bool-cases (faults find_execution)) [
    | inl bad ↦ rw bad tt
    | inr reached ↦ elim (Option-cases (select (has_execution_id id) db.executions)) [
      | inl missing ↦ rw (reached, missing) tt
      | inr (r, there) ↦ rw (reached, there) tt
    ]
  ]

  pub Raises-assistant :
      (A : Type 0) (e : ChatExecution) (db : Database) → Raises (assistant {A = A} faults e db)
  unfolding assistant
  Raises-assistant A e db = elim (Bool-cases (faults find_assistant)) [
    | inl bad ↦ rw bad tt
    | inr reached ↦ elim (Option-cases (select (is_assistant_of e) db.messages)) [
      | inl missing ↦ rw (reached, missing) tt
      | inr (r, there) ↦ rw (reached, there) tt
    ]
  ]

  pub Raises-close :
      (now : ℕ) (x : Ended) (e : ChatExecution) (db : Database) → Raises (close faults now x e db)
  unfolding close
  Raises-close now x e db =
      elim (Bool-cases (not (is_completed x.terminal_status) && is_none x.failure_code)) [
        | inl bad ↦ rw bad tt
        | inr named ↦
            elim (Result-cases
              (assert_owned faults {A = Bool} now x.lease_token e.idempotency_record_id db)) [
                | inl (r, bad) ↦
                    rw (named, bad)
                      (rw bad at (Raises-assert_owned now x.lease_token e.idempotency_record_id db))
                | inr (_, mine) ↦ elim (Result-cases (assistant {A = Bool} faults e db)) [
                  | inl (r, bad) ↦ rw (named, mine, bad) (rw bad at (Raises-assistant Bool e db))
                  | inr (m, there) ↦ elim (Bool-cases (faults find_decisions)) [
                    | inl bad ↦ rw (named, mine, there, bad) tt
                    | inr reached ↦
                        elim (Bool-cases (
                          e.governance_audit_required
                          && no_rows (select_all (is_open_for e) db.decisions))) [
                            | inl bad ↦ rw (named, mine, there, reached, bad) tt
                            | inr audited ↦
                                elim (Result-cases (
                                  record_accounting {A = Bool} faults e 0 [] x.accounting
                                    (finished now x e m db))) [
                                      | inl (r, bad) ↦
                                          rw (named, mine, there, reached, audited, bad)
                                            (rw bad at (
                                              Raises-record_accounting faults e 0 [] x.accounting
                                                (finished now x e m db)))
                                      | inr (d, accounted) ↦
                                          rw (named, mine, there, reached, audited, accounted) tt
                                    ]
                          ]
                  ]
                ]
              ]
      ]
