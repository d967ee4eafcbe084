-- ===== src/Idempotency/Unique.antt =====
-- The unique constraints of `idempotency_records`.
use eiraos_chat_backend.Prelude.{
  ℕ, zero, suc, refl, String, Option, none, some, Bool, Bool-cases, Option-cases, inl, inr,
}
use eiraos_chat_backend.Prelude.Result.{Result, ok, err}
use eiraos_chat_backend.Prelude.Rows.{select}
use eiraos_chat_backend.Prelude.Keyed.{
  IsUnique, IsUnique-append, IsUnique-update, IsUnique-delete, IsUnique-update_all,
  IsUnique-delete_all,
}
use eiraos_chat_backend.Idempotency.Record.{
  IdempotencyRecord, Table, has_key, scope_of, scope_eq, scope_law,
}
use eiraos_chat_backend.Idempotency.Begin.{
  World, Answer, new_record, insert_record, decide, restart, take_over, after_insert, after_lock,
  attempt, attempts, locked, begin_idempotency,
}
use eiraos_chat_backend.Http.{http, HttpException, Request}
use eiraos_chat_backend.Idempotency.Key.{resolve_context, body_digest, within}
use eiraos_chat_backend.Idempotency.Lease.{
  renew, renew_idempotency_lease, complete, complete_row, is_owned_by, complete_idempotency,
  cleanup_expired_records, extend, finish, is_fenced, is_disposable,
}
use eiraos_chat_backend.Idempotency.Ladder.{decide_cases}

abbrev pub HasUniqueKeys : Table → Type 0
HasUniqueKeys t = IsUnique scope_of scope_eq t.rows

abbrev pub Preserves : (Table → Table) → Type 0
Preserves f = (t : Table) → HasUniqueKeys t → HasUniqueKeys (f t)

-- Other transactions are the same program's, or keep the constraint as the database makes them.
pub record IsFair (w : World) : Type 0 where
  pub fair_before : (n : ℕ) → Preserves (w.before n)
  pub fair_between : (n : ℕ) → Preserves (w.between n)

pub insert_record-HasUniqueKeys :
    (row : IdempotencyRecord) → Preserves (λ t. (insert_record row t).1)
unfolding insert_record
insert_record-HasUniqueKeys row t u =
    elim (Option-cases (select (has_key row.organization_id row.user_id row.key) t.rows)) [
      | inl free ↦
          rw (free, insert_record) (IsUnique-append scope_of scope_eq scope_law t.rows _ free u)
      | inr (r, taken) ↦ rw (taken, insert_record) u
    ]

decide-HasUniqueKeys :
    (again : String → Table → Answer) (mine : IdempotencyRecord → Bool) (digest : String) (now : ℕ)
    (token : String) (r : IdempotencyRecord) (t : Table)
    → ((detail : String) → Preserves (λ t'. (again detail t').1))
    → HasUniqueKeys t
    → HasUniqueKeys (decide again mine digest now token r t).1
decide-HasUniqueKeys again mine digest now token r t keep u =
    decide_cases again mine digest now token r t (λ a. HasUniqueKeys a.1)
      (λ _. keep _ _ (IsUnique-delete scope_of scope_eq scope_law mine t.rows u)) (λ _. u)
      (λ _ _. u)
      (λ _ _.
        IsUnique-update scope_of scope_eq scope_law mine (restart now token) t.rows (λ _. refl) u)
      (λ _ _.
        IsUnique-update scope_of scope_eq scope_law mine (take_over now token) t.rows (λ _. refl) u)
      u

module _ (w : World) (fair : IsFair w) (org user : ℕ) (key digest : String) where
  attempt-HasUniqueKeys :
      (again : String → Table → Answer) (n : ℕ)
      → ((detail : String) → Preserves (λ t'. (again detail t').1))
      → Preserves (λ t. (attempt w org user key digest again n t).1)
  unfolding attempt locked
  attempt-HasUniqueKeys again n keep t u =
      go (insert_record row (w.before n t))
        (insert_record-HasUniqueKeys row (w.before n t) (fair.fair_before n t u))
    where
      row : IdempotencyRecord
      row = new_record org user key digest (w.clock n) (w.new_token n) 0

      look :
          (t' : Table) (found : Option IdempotencyRecord)
          → HasUniqueKeys t'
          → HasUniqueKeys (after_lock w org user key digest again n t' found).1
      look t' none u' = keep _ t' u'
      look t' (some r) u' =
          decide-HasUniqueKeys again (has_key org user key) digest (w.clock n) (w.new_token n) r t'
            keep u'

      go :
          (inserted : Option ℕ × Table)
          → HasUniqueKeys inserted.1
          → HasUniqueKeys (after_insert w org user key digest again n inserted).1
      go (some id, t') u' = u'
      go (none, t') u' = look (w.between n t') _ (fair.fair_between n t' u')

  attempts-HasUniqueKeys :
      (left n : ℕ) → Preserves (λ t. (attempts w org user key digest left n t).1)
  unfolding attempts
  attempts-HasUniqueKeys zero n =
      attempt-HasUniqueKeys (λ detail t'. (err (http 503 detail), t')) n (λ _ t' u'. u')
  attempts-HasUniqueKeys (suc left) n =
      attempt-HasUniqueKeys (λ detail t'. attempts w org user key digest left (suc n) t') n
        (λ _. attempts-HasUniqueKeys left (suc n))

within-HasUniqueKeys :
    {A : Type 0} (context : Result HttpException (ℕ × ℕ))
    (f : ℕ → ℕ → Table → Result HttpException A × Table)
    → ((org user : ℕ) → Preserves (λ t. (f org user t).1))
    → Preserves (λ t. (within context f t).1)
within-HasUniqueKeys (err e) f keep t u = u
within-HasUniqueKeys (ok (org, user)) f keep t u = keep org user t u

complete-HasUniqueKeys :
    (now org user : ℕ) (key : String) (code : ℕ) (reference : String) (token : Option String)
    → Preserves (λ t. (complete now org user key code reference token t).1)
unfolding complete
complete-HasUniqueKeys now org user key code reference token t u =
    go (select (has_key org user key) t.rows)
  where
    go :
        (row : Option IdempotencyRecord)
        → HasUniqueKeys (complete_row now org user key code reference token t row).1
    go none = u
    go (some r) = elim (Bool-cases (is_fenced now token r)) [
      | inl e ↦ rw e u
      | inr e ↦ rw e (
          IsUnique-update scope_of scope_eq scope_law (has_key org user key) (finish code reference)
            t.rows (λ _. refl) u)
    ]

-- Whatever the request and the time, and whatever other transactions that keep the unique
-- constraint do during a `begin`, each of begin, renew, complete and clean-up leaves the table with
-- at most one row for each organization, user and key.
pub keys_stay_unique :
    (sha256 : String → String) (w : World) (request : Request) (key token : String)
    (now code limit : ℕ) (reference : String) (owner : Option String) (t : Table)
    → IsFair w
    → HasUniqueKeys t
    → HasUniqueKeys (begin_idempotency sha256 w request key t).1
      × HasUniqueKeys (renew_idempotency_lease now request key token t).1
      × HasUniqueKeys (complete_idempotency now request key code reference owner t).1
      × HasUniqueKeys (cleanup_expired_records now limit t).1
unfolding begin_idempotency renew_idempotency_lease renew complete_idempotency
    cleanup_expired_records
keys_stay_unique sha256 w request key token now code limit reference owner t fair u = (
  within-HasUniqueKeys (resolve_context request) _
      (λ org user.
        attempts-HasUniqueKeys w fair org user key (body_digest sha256 request.cached_body) 2 0)
      t u,
  within-HasUniqueKeys (resolve_context request) _
      (λ org user t' u'.
        IsUnique-update_all scope_of scope_eq scope_law (is_owned_by org user key token)
          (extend now) t'.rows (λ _. refl) u')
      t u,
  within-HasUniqueKeys (resolve_context request) _
      (λ org user. complete-HasUniqueKeys now org user key code reference owner) t u,
  IsUnique-delete_all scope_of scope_eq scope_law (is_disposable now) t.rows u,
)
