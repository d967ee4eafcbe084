-- ===== src/Chat/Writes.antt =====
-- Rows that are written under their own key.
use eiraos_chat_backend.Prelude.{
  ℕ, ◌≡◌, ◌≢◌, sym, ◌∙◌, String, some, true, false, List, Bool-cases, inl, inr, eq_iff, str_eq,
}
use eiraos_chat_backend.Prelude.Rows.{
  select, update, select-update_found, select-update_other, select-satisfies,
}
use eiraos_chat_backend.Idempotency.{IdempotencyRecord, finish}
use eiraos_chat_backend.Chat.Database.{ChatExecution, has_record_id, has_execution_id}

other_id : (id key : String) → id ≢ key → (s : String) → str_eq s key ≡ true → str_eq s id ≡ false
other_id id key ne s h = elim (Bool-cases (str_eq s id)) [
  | inr e ↦ e
  | inl e ↦ absurd (ne (sym ((eq_iff s id).0 e) ∙ (eq_iff s key).0 h))
]

-- The row that is written under its own identity.
pub put_lem :
    (j k : String) (es : List ChatExecution) {e : ChatExecution} (y : ChatExecution)
    → j ≡ k
    → select (has_execution_id k) es ≡ some e
    → str_eq y.execution_id k ≡ true
    → select (has_execution_id k) (update (has_execution_id j) (λ _. y) es) ≡ some y
put_lem j k es y same h key = rw same (select-update_found (has_execution_id k) (λ _. y) es h key)

pub put-other_lem :
    (j id : String) (es : List ChatExecution) (y : ChatExecution)
    → id ≢ j
    → str_eq y.execution_id j ≡ true
    → select (has_execution_id id) (update (has_execution_id j) (λ _. y) es)
      ≡ select (has_execution_id id) es
put-other_lem j id es y ne key =
    select-update_other (has_execution_id j) (has_execution_id id) (λ _. y) es
      (λ z h. other_id id j ne z.execution_id h) (λ z h. other_id id j ne y.execution_id key)

pub finish_lem :
    (id code : ℕ) (reference : String) (rows : List IdempotencyRecord) {r : IdempotencyRecord}
    → select (has_record_id (some id)) rows ≡ some r
    → select
        (has_record_id (some id))
        (update (has_record_id (some id)) (finish code reference) rows)
      ≡ some (finish code reference r)
finish_lem id code reference rows h =
    select-update_found (has_record_id (some id)) (finish code reference) rows h
      (select-satisfies (has_record_id (some id)) rows h)
