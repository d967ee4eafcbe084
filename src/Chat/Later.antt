-- ===== src/Chat/Later.antt =====
-- What comes after the end of an execution, until `prepare_exchange` starts a further attempt.
use eiraos_chat_backend.Prelude.{
  ℕ, ◌≡◌, ◌≢◌, sym, ◌∙◌, String, some, Bool, true, false, Bool-cases, inl, inr, eq_iff, eq_refl,
}
use eiraos_chat_backend.Prelude.Result.{Result, ok, Result-cases}
use eiraos_chat_backend.Prelude.Rows.{select, select-satisfies}
use eiraos_chat_backend.Chat.Database.{
  Status, is_terminal, ChatExecution, Message, Database, has_execution_id,
}
use eiraos_chat_backend.Chat.Session.{PersistenceError, Faults, Commit, locked_execution, assistant}
use eiraos_chat_backend.Chat.Finalize.{Ended, finalization, finalize}
use eiraos_chat_backend.Chat.Recover.{streaming, marking, mark_streaming}
use eiraos_chat_backend.Chat.Final.{locked_execution_lem}
use eiraos_chat_backend.Chat.Writes.{put-other_lem}
use eiraos_chat_backend.Chat.Once.{
  IsFinal-finalization, finalize-IsFinal, IsEnded-of, Refused, IsEnded-Refused,
}
use eiraos_chat_backend.Chat.Atomic.{end_transaction-cases}

-- Tables that finalizations and markings of any executions lead to, one call after the other, with
-- whatever faults, outcomes of the commit, and answers.
pub data Later (db : Database) : Database → Type 0 where
  here : Later db db
  finalized :
      {db' : Database} (faults : Faults) (c : Commit) (now : ℕ) (y : Ended)
      → Later db db'
      → Later db (finalize faults c now y db').1
  marked :
      {db' : Database} (faults : Faults) (c : Commit) (id : String)
      → Later db db'
      → Later db (mark_streaming faults c id db').1

-- the row of an execution that has ended
record IsLast (id : String) (e : ChatExecution) (db : Database) : Type 0 where
  current : select (has_execution_id id) db.executions ≡ some e
  status : is_terminal e.status ≡ true

module _ (id : String) (e : ChatExecution) (db : Database) (last : IsLast id e db) where
  -- no running execution has that id
  other_of_running :
      (k : String) (r : ChatExecution)
      → select (has_execution_id k) db.executions ≡ some r
      → is_terminal r.status ≡ false
      → id ≢ k
  other_of_running k r found running same =
      let one : r ≡ e = cc (rw (sym same) at found, last.current) in
      absurd (cc (last.status, rw one at running))

  IsLast-finalize :
      (faults : Faults) (c : Commit) (now : ℕ) (y : Ended)
      → IsLast id e (finalize faults c now y db).1
  unfolding finalize
  IsLast-finalize faults c now y =
      elim (end_transaction-cases c db (finalization faults now y db)) [
        | inl same ↦ rw same last
        | inr (r, t) ↦
            let f = IsFinal-finalization faults now y db t in
            record {
              current =
                  f.others id (other_of_running y.execution_id f.execution f.current f.running)
                  ∙ last.current;
              status = last.status;
            }
      ]

  -- what a marking that goes through has written
  record IsMarked (k : String) (db' : Database) : Type 0 where
    row : ChatExecution
    message : Message
    found : select (has_execution_id k) db.executions ≡ some row
    running : is_terminal row.status ≡ false
    written : db' ≡ streaming row message db

  IsMarked-of :
      (faults : Faults) (k : String) {r : Result PersistenceError Bool} {db' : Database}
      → marking faults k db ≡ ok (r, db')
      → IsMarked k db'
  unfolding marking
  IsMarked-of faults k h = elim (Result-cases (locked_execution {A = Bool} faults k db)) [
    | inl (x, bad) ↦ absurd (cc (rw bad at h))
    | inr (row, there) ↦ elim (Bool-cases (is_terminal row.status)) [
      | inl over ↦ absurd (cc (rw (there, over) at h))
      | inr running ↦ elim (Result-cases (assistant {A = Bool} faults row db)) [
        | inl (x, bad) ↦ absurd (cc (rw (there, running, bad) at h))
        | inr (m, answer) ↦ record {
          row = row;
          message = m;
          found = locked_execution_lem faults k db there;
          running = running;
          written = cc (rw (there, running, answer) at h);
        }
      ]
    ]
  ]

  IsLast-mark_streaming :
      (faults : Faults) (c : Commit) (k : String) → IsLast id e (mark_streaming faults c k db).1
  unfolding mark_streaming
  IsLast-mark_streaming faults c k = elim (end_transaction-cases c db (marking faults k db)) [
    | inl same ↦ rw same last
    | inr (r, t) ↦
        let w = IsMarked-of faults k t in
        let key : w.row.execution_id ≡ k =
          (eq_iff w.row.execution_id k).0
            (select-satisfies (has_execution_id k) db.executions w.found) in
        rw w.written (record {
          current =
              put-other_lem w.row.execution_id id db.executions
                (record w.row { status = Status.streaming })
                (λ same. other_of_running k w.row w.found w.running (same ∙ key))
                (eq_refl w.row.execution_id)
              ∙ last.current;
          status = last.status;
        })
  ]

IsLast-Later :
    (id : String) (e : ChatExecution) {db db' : Database}
    → Later db db'
    → IsLast id e db
    → IsLast id e db'
IsLast-Later id e here last = last
IsLast-Later id e (finalized {db' = t} faults c now y l) last =
    IsLast-finalize id e t (IsLast-Later id e l last) faults c now y
IsLast-Later id e (marked {db' = t} faults c k l) last =
    IsLast-mark_streaming id e t (IsLast-Later id e l last) faults c k

-- Once a finalization has returned true, and whatever finalizations and markings of this and other
-- executions have been called since, the row of the execution is as that finalization left it; and a
-- further finalization of it, with whatever outcome, and a further marking of it as streaming answer
-- false or fail for the database, and change nothing. A further attempt, which prepare_exchange
-- starts after a failure that may be retried, is not among the calls.
pub ended_once :
    (faults : Faults) (c : Commit) (now : ℕ) (x : Ended) (db : Database) {db' db'' : Database}
    → finalize faults c now x db ≡ (ok true, db')
    → Later db' db''
    → (faults' : Faults) (c' : Commit) (now' : ℕ) (y : Ended) → y.execution_id ≡ x.execution_id
    → is_terminal y.terminal_status ≡ true
    → (select (has_execution_id x.execution_id) db''.executions
        ≡ select (has_execution_id x.execution_id) db'.executions)
      × Refused db'' (finalize faults' c' now' y db'')
      × Refused db'' (mark_streaming faults' c' x.execution_id db'')
ended_once faults c now x db {db'} {db''} h later faults' c' now' y same terminal =
    let gone = IsEnded-of (finalize-IsFinal faults now x db c h) in
    let last =
      IsLast-Later x.execution_id gone.execution later
        (record { current = gone.current; status = gone.status }) in
    let refused =
      IsEnded-Refused faults' c' now' y x.execution_id db''
        (record { execution = gone.execution; current = last.current; status = last.status }) same
        terminal in
    (last.current ∙ sym gone.current, refused.0, refused.1)
