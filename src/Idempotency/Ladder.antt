-- ===== src/Idempotency/Ladder.antt =====
-- The branches of `decide`, once: what holds on each holds of the answer.
use eiraos_chat_backend.Prelude.{
  ℕ, ◌≡◌, String, Bool, true, false, inl, inr, ◌&&◌, str_eq, Bool-cases,
}
use eiraos_chat_backend.Prelude.Text.{is_truthy}
use eiraos_chat_backend.Prelude.Result.{ok, err}
use eiraos_chat_backend.Prelude.Rows.{update, delete}
use eiraos_chat_backend.Http.{http}
use eiraos_chat_backend.Idempotency.Record.{IdempotencyRecord, Table, is_completed, is_failed}
use eiraos_chat_backend.Idempotency.Begin.{
  Answer, decide, is_past, restart, take_over, owned, replayed,
}

pub decide_cases {ℓ} :
    (again : String → Table → Answer) (mine : IdempotencyRecord → Bool) (digest : String) (now : ℕ)
    (token : String) (r : IdempotencyRecord) (t : Table) (P : Answer → Type ℓ)
    → ((is_completed r.status && is_past now r.expires_at) ≡ true
        → P (
            again "Idempotency renewal failed after retries."
              (record t { rows = delete mine t.rows })))
    → (str_eq r.request_hash digest ≡ false
        → P (err (http 409 "Idempotency key was reused with a different payload."), t))
    → (str_eq r.request_hash digest ≡ true
        → (is_completed r.status && is_truthy r.response_reference) ≡ true
        → P (ok (replayed r.id), t))
    → (str_eq r.request_hash digest ≡ true
        → is_failed r.status ≡ true
        → P (
          ok (owned token r.id true),
          record t { rows = update mine (restart now token) t.rows },
        ))
    → (str_eq r.request_hash digest ≡ true
        → is_past now r.lease_until ≡ true
        → P (
          ok (owned token r.id true),
          record t { rows = update mine (take_over now token) t.rows },
        ))
    → P (err (http 409 "A request with this idempotency key is already in progress."), t)
    → P (decide again mine digest now token r t)
unfolding decide
decide_cases again mine digest now token r t P lapsed reused finished broken stale busy =
    elim (Bool-cases (is_completed r.status && is_past now r.expires_at)) [
      | inl e ↦ rw (e, decide) (lapsed e)
      | inr e ↦ elim (Bool-cases (str_eq r.request_hash digest)) [
        | inr f ↦ rw (e, f, decide) (reused f)
        | inl f ↦ elim (Bool-cases (is_completed r.status && is_truthy r.response_reference)) [
          | inl g ↦ rw (e, f, g, decide) (finished f g)
          | inr g ↦ elim (Bool-cases (is_failed r.status)) [
            | inl h ↦ rw (e, f, g, h, decide) (broken f h)
            | inr h ↦ elim (Bool-cases (is_past now r.lease_until)) [
              | inl k ↦ rw (e, f, g, h, k, decide) (stale f k)
              | inr k ↦ rw (e, f, g, h, k, decide) busy
            ]
          ]
        ]
      ]
    ]
