-- ===== src/Chat/Once.antt =====
-- An execution after a finalization, table by table, and what comes too late for it.
use eiraos_chat_backend.Prelude.{
  ℕ, ◌≡◌, ◌⊎◌, ◌≢◌, sym, ◌∙◌, String, some, Bool, true, false, Bool-cases, inl, inr, eq_iff,
  eq_refl, str_eq,
}
use eiraos_chat_backend.Prelude.Result.{Result, ok, err, Result-cases}
use eiraos_chat_backend.Prelude.Rows.{
  select, select_all, update_all, select-update_found, select-satisfies,
}
use eiraos_chat_backend.Idempotency.{finish}
use eiraos_chat_backend.Chat.Database.{
  is_terminal, ChatExecution, Message, Database, has_record_id, has_execution_id, is_assistant_of,
}
use eiraos_chat_backend.Chat.Session.{
  PersistenceError, unavailable, find_execution, Faults, Commit, Ending, end_transaction,
  locked_execution,
}
use eiraos_chat_backend.Chat.Finalize.{
  Ended, response_of, ended, answered, is_open_for, decided, finished, no_rows, finalization,
  finalize,
}
use eiraos_chat_backend.Chat.Recover.{marking, mark_streaming}
use eiraos_chat_backend.Chat.Final.{committed, IsOwned, Closes, close-Closes, locked_execution_lem}
use eiraos_chat_backend.Chat.Raises.{Raises-close, Raises-locked_execution}
use eiraos_chat_backend.Chat.Writes.{put_lem, put-other_lem, finish_lem}

-- What a finalization did.
pub record IsFinal (now : ℕ) (x : Ended) (db db' : Database) : Type 0 where
  pub execution : ChatExecution
  pub current : select (has_execution_id x.execution_id) db.executions ≡ some execution
  pub running : is_terminal execution.status ≡ false
  pub terminal : is_terminal x.terminal_status ≡ true
  pub closed :
      select (has_execution_id x.execution_id) db'.executions ≡ some (ended now x execution)
  pub message : Message
  pub asked : select (is_assistant_of execution) db.messages ≡ some message
  pub replied : select (is_assistant_of execution) db'.messages ≡ some (answered x message)
  pub owner :
      (id : ℕ)
      → execution.idempotency_record_id ≡ some id
      → (o : IsOwned now x.lease_token id db) × (select (has_record_id (some id)) db'.idempotency
          ≡ some (finish (response_of x.failure_code x.response_status) x.response_reference o.row))
  pub decisions : db'.decisions ≡ update_all (is_open_for execution) (decided now x) db.decisions
  pub audited :
      execution.governance_audit_required ≡ true
      → no_rows (select_all (is_open_for execution) db.decisions) ≡ false
  pub others :
      (id : String)
      → id ≢ x.execution_id
      → select (has_execution_id id) db'.executions ≡ select (has_execution_id id) db.executions

module _ (faults : Faults) (now : ℕ) (x : Ended) (db : Database) where
  Closes-IsFinal :
      (e : ChatExecution) {db' : Database}
      → select (has_execution_id x.execution_id) db.executions ≡ some e
      → is_terminal e.status ≡ false
      → is_terminal x.terminal_status ≡ true
      → Closes faults now x e db db'
      → IsFinal now x db db'
  unfolding finished ended
  Closes-IsFinal e {db'} current running terminal c =
      let owner_after : (id : ℕ)
          → e.idempotency_record_id ≡ some id
          → (o : IsOwned now x.lease_token id db) × (select (has_record_id (some id))
                db'.idempotency
              ≡ some (
                  finish (response_of x.failure_code x.response_status) x.response_reference
                    o.row)) =
        λ id h. (
          c.owner id h,
          rw (c.written.idempotency, h)
              (finish_lem id (response_of x.failure_code x.response_status) x.response_reference
                db.idempotency (c.owner id h).current),
        ) in
      let key : str_eq e.execution_id x.execution_id ≡ true =
        select-satisfies (has_execution_id x.execution_id) db.executions current in
      let same : e.execution_id ≡ x.execution_id = (eq_iff e.execution_id x.execution_id).0 key in
      record {
        execution = e;
        current = current;
        running = running;
        terminal = terminal;
        closed =
            rw c.written.executions (
              put_lem e.execution_id x.execution_id db.executions (ended now x e) same current key);
        message = c.message;
        asked = c.answer;
        replied = rw c.written.messages (
            select-update_found (is_assistant_of e) (λ _. answered x c.message) db.messages c.answer
              (select-satisfies (is_assistant_of e) db.messages c.answer));
        owner = λ id h. owner_after id h;
        decisions = c.written.decisions;
        audited = c.audited;
        others = λ id ne. rw c.written.executions (
            put-other_lem e.execution_id id db.executions (ended now x e) (λ h. ne (h ∙ same))
              (eq_refl e.execution_id));
      }

-- An execution that has ended.
pub record IsEnded (id : String) (db : Database) : Type 0 where
  pub execution : ChatExecution
  pub current : select (has_execution_id id) db.executions ≡ some execution
  pub status : is_terminal execution.status ≡ true

pub IsEnded-of :
    {now : ℕ} {x : Ended} {db db' : Database} → IsFinal now x db db' → IsEnded x.execution_id db'
unfolding ended
IsEnded-of {now = now} {x = x} f = record {
  execution = ended now x f.execution;
  current = f.closed;
  status = f.terminal;
}

-- What a call on an ended execution answers.
abbrev pub Refused : Database → Result PersistenceError Bool × Database → Type 0
Refused db answer = (answer ≡ (ok false, db)) ⊎ (answer ≡ (err unavailable, db))

module _ (faults : Faults) (now : ℕ) (x : Ended) (db : Database) where
  pub IsFinal-finalization :
      {r : Result PersistenceError Bool} {db' : Database}
      → finalization faults now x db ≡ ok (r, db')
      → IsFinal now x db db'
  unfolding finalization
  IsFinal-finalization h = elim (Bool-cases (is_terminal x.terminal_status)) [
    | inr bad ↦ absurd (cc (rw bad at h))
    | inl terminal ↦ elim (Result-cases (locked_execution {A = Bool} faults x.execution_id db)) [
      | inl (r, bad) ↦ absurd (cc (rw (terminal, bad) at h))
      | inr (e, there) ↦ elim (Bool-cases (is_terminal e.status)) [
        | inl bad ↦ absurd (cc (rw (terminal, there, bad) at h))
        | inr running ↦
            Closes-IsFinal faults now x db e (locked_execution_lem faults x.execution_id db there)
              running terminal (close-Closes faults now x e db (rw (terminal, there, running) at h))
      ]
    ]
  ]

  finalization-not_true : finalization faults now x db ≡ err (ok true) → ⊥
  unfolding finalization
  finalization-not_true h = elim (Bool-cases (is_terminal x.terminal_status)) [
    | inr bad ↦ cc (rw bad at h)
    | inl terminal ↦ elim (Result-cases (locked_execution {A = Bool} faults x.execution_id db)) [
      | inl (r, bad) ↦
          let same : r ≡ ok true = cc (rw (terminal, bad) at h) in
          rw (bad, same) at (Raises-locked_execution faults x.execution_id db)
      | inr (e, there) ↦ elim (Bool-cases (is_terminal e.status)) [
        | inl bad ↦ cc (rw (terminal, there, bad) at h)
        | inr running ↦ rw (rw (terminal, there, running) at h) at (Raises-close faults now x e db)
      ]
    ]
  ]

  -- A finalization that returns true found the execution running, and has ended it: the row has the
  -- new status, outcome and time, the assistant message has the content and the status, the
  -- idempotency record of the execution, if there is one, was held by the caller's token within its
  -- lease and is finished with the response, every open governance decision of the execution is
  -- closed with the outcome (and there was one where the audit requires it), and no other
  -- execution's row is touched.
  pub finalize-IsFinal :
      (c : Commit) {db' : Database}
      → finalize faults c now x db ≡ (ok true, db')
      → IsFinal now x db db'
  unfolding finalize
  finalize-IsFinal c h = elim (committed c db (finalization faults now x db) h) [
    | inl t ↦ IsFinal-finalization t
    | inr (t, _) ↦ absurd (finalization-not_true t)
  ]

  ended_again :
      IsEnded x.execution_id db
      → is_terminal x.terminal_status ≡ true
      → (finalization faults now x db ≡ err (ok false))
        ⊎ (finalization faults now x db ≡ err (err unavailable))
  unfolding finalization locked_execution
  ended_again e terminal = elim (Bool-cases (faults find_execution)) [
    | inl bad ↦ inr (rw (terminal, bad))
    | inr reached ↦ inl (rw (terminal, reached, e.current, e.status))
  ]

marking_again :
    (faults : Faults) (id : String) (db : Database)
    → IsEnded id db
    → (marking faults id db ≡ err (ok false)) ⊎ (marking faults id db ≡ err (err unavailable))
unfolding marking locked_execution
marking_again faults id db e = elim (Bool-cases (faults find_execution)) [
  | inl bad ↦ inr (rw bad)
  | inr reached ↦ inl (rw (reached, e.current, e.status))
]

Refused-of :
    (c : Commit) (db : Database) (t : Ending Bool)
    → (t ≡ err (ok false)) ⊎ (t ≡ err (err unavailable))
    → Refused db (end_transaction c db t)
unfolding end_transaction
Refused-of c db t (inl h) = inl (rw h)
Refused-of c db t (inr h) = inr (rw h)

-- A finalization of an execution that has ended, and its marking as streaming.
pub IsEnded-Refused :
    (faults : Faults) (c : Commit) (now : ℕ) (y : Ended) (id : String) (db : Database)
    → IsEnded id db
    → y.execution_id ≡ id
    → is_terminal y.terminal_status ≡ true
    → Refused db (finalize faults c now y db) × Refused db (mark_streaming faults c id db)
unfolding finalize mark_streaming
IsEnded-Refused faults c now y id db gone same terminal = (
  Refused-of c db (finalization faults now y db)
      (ended_again faults now y db (rw (sym same) at gone) terminal),
  Refused-of c db (marking faults id db) (marking_again faults id db gone),
)
