-- ===== src/Idempotency/Grant.antt =====
-- What every answer of `begin` promises, whatever other transactions do meanwhile.
use eiraos_chat_backend.Prelude.{
  ℕ, zero, suc, ◌+◌, ◌≡◌, ◌⊎◌, refl, String, Option, none, some, true, Option-cases, inl, inr,
  arith, eq_iff, eq_refl, ==_refl,
}
use eiraos_chat_backend.Prelude.Text.{is_truthy}
use eiraos_chat_backend.Prelude.Result.{ok, err}
use eiraos_chat_backend.Prelude.Rows.{select, update, select-update, select-append}
use eiraos_chat_backend.Idempotency.Record.{
  Status, IdempotencyRecord, Table, has_key, seconds, lease_seconds, is_completed,
}
use eiraos_chat_backend.Idempotency.Begin.{
  World, Answer, IdempotencyOutcome, new_record, insert_record, decide, restart, take_over,
  after_lock, attempt, attempts, locked, begin_idempotency,
}
use eiraos_chat_backend.Idempotency.Key.{resolve_context, body_digest}
use eiraos_chat_backend.Http.{http, Request}
use eiraos_chat_backend.Idempotency.Ladder.{decide_cases}

completed_of : (s : Status) → is_completed s ≡ true → s ≡ Status.completed
completed_of Status.completed h = refl
completed_of Status.processing h = cc
completed_of Status.failed h = cc

module _ (w : World) (org user : ℕ) (key digest : String) where
  -- The caller holds the row: it is being processed under the caller's token, with a full lease.
  pub record IsOwner (o : IdempotencyOutcome) (t : Table) : Type 0 where
    pub row : IdempotencyRecord
    pub attempt_number : ℕ
    pub found : select (has_key org user key) t.rows ≡ some row
    pub row_status : row.status ≡ Status.processing
    pub row_digest : row.request_hash ≡ digest
    pub token : o.lease_token ≡ some (w.new_token attempt_number)
    pub row_token : row.lease_token ≡ some (w.new_token attempt_number)
    pub row_lease : row.lease_until ≡ some (w.clock attempt_number + seconds lease_seconds)

  -- The caller joins a call that was finished with the same payload and has a stored answer.
  pub record IsReplay (o : IdempotencyOutcome) (t : Table) : Type 0 where
    pub row : IdempotencyRecord
    pub found : select (has_key org user key) t.rows ≡ some row
    pub row_status : row.status ≡ Status.completed
    pub row_digest : row.request_hash ≡ digest
    pub row_reference : is_truthy row.response_reference ≡ true
    pub row_id : o.record_id ≡ some row.id
    pub no_token : o.lease_token ≡ none

  abbrev pub Promise : IdempotencyOutcome → Table → Status → Type 0
  Promise o t Status.processing = IsOwner o t
  Promise o t Status.completed = IsReplay o t
  Promise o t Status.failed = ⊥

  -- An answer is a held row, a stored answer, or a refusal with status 409 or 503.
  abbrev pub IsSound : Answer → Type 0
  IsSound (ok o, t) = Promise o t o.status
  IsSound (err e, t) = (e.status_code ≡ 409) ⊎ (e.status_code ≡ 503)

  has_key-new :
      (now : ℕ) (token : String) (id : ℕ)
      → has_key org user key (new_record org user key digest now token id) ≡ true
  has_key-new now token id = simp (==_refl, eq_refl)

  owns :
      (n : ℕ) (r : IdempotencyRecord) (t : Table) (f : IdempotencyRecord → IdempotencyRecord)
      (o : IdempotencyOutcome)
      → select (has_key org user key) t.rows ≡ some r
      → ((x : IdempotencyRecord) → has_key org user key (f x) ≡ has_key org user key x)
      → (f r).status ≡ Status.processing
      → (f r).request_hash ≡ digest
      → (f r).lease_token ≡ some (w.new_token n)
      → (f r).lease_until ≡ some (w.clock n + seconds lease_seconds)
      → o.lease_token ≡ some (w.new_token n)
      → IsOwner o (record t { rows = update (has_key org user key) f t.rows })
  owns n r t f o found keep status hash token lease mine = record {
    row = f r;
    attempt_number = n;
    found = rw (select-update (has_key org user key) f t.rows keep, found);
    row_status = status;
    row_digest = hash;
    token = mine;
    row_token = token;
    row_lease = lease;
  }

  decide-IsSound :
      (again : String → Table → Answer) (n : ℕ) (r : IdempotencyRecord) (t : Table)
      → ((detail : String) (t' : Table) → IsSound (again detail t'))
      → select (has_key org user key) t.rows ≡ some r
      → IsSound (decide again (has_key org user key) digest (w.clock n) (w.new_token n) r t)
  decide-IsSound again n r t sound found =
      decide_cases again (has_key org user key) digest (w.clock n) (w.new_token n) r t IsSound
        (λ _. sound _ _) (λ _. inl refl)
        (λ same done. record {
          row = r;
          found = found;
          row_status = completed_of r.status (ground (arith, done));
          row_digest = (eq_iff r.request_hash digest).0 same;
          row_reference = ground (arith, done);
          row_id = refl;
          no_token = refl;
        })
        (λ same _.
          owns n r t (restart (w.clock n) (w.new_token n)) _ found (λ _. refl) refl
            ((eq_iff r.request_hash digest).0 same) refl refl refl)
        (λ same _.
          owns n r t (take_over (w.clock n) (w.new_token n)) _ found (λ _. refl) refl
            ((eq_iff r.request_hash digest).0 same) refl refl refl)
        (inl refl)

  attempt-IsSound :
      (again : String → Table → Answer) (n : ℕ) (t : Table)
      → ((detail : String) (t' : Table) → IsSound (again detail t'))
      → IsSound (attempt w org user key digest again n t)
  unfolding attempt locked insert_record
  attempt-IsSound again n t sound = elim (Option-cases (select (has_key org user key) seen.rows)) [
    | inl free ↦
        rw (free, insert_record)
          (record {
            row = new_record org user key digest (w.clock n) (w.new_token n) seen.next_id;
            attempt_number = n;
            found =
                select-append (has_key org user key) seen.rows _ free
                  (has_key-new (w.clock n) (w.new_token n) seen.next_id);
            row_status = refl;
            row_digest = refl;
            token = refl;
            row_token = refl;
            row_lease = refl;
          })
    | inr (r, taken) ↦
        rw (taken, insert_record) (look (select (has_key org user key) later.rows) refl)
  ]
    where
      seen : Table
      seen = w.before n t

      later : Table
      later = w.between n seen

      look :
          (found : Option IdempotencyRecord)
          → select (has_key org user key) later.rows ≡ found
          → IsSound (after_lock w org user key digest again n later found)
      look none e = sound _ later
      look (some r) e = decide-IsSound again n r later sound e

  pub attempts-IsSound :
      (left n : ℕ) (t : Table) → IsSound (attempts w org user key digest left n t)
  unfolding attempts
  attempts-IsSound zero n t =
      attempt-IsSound (λ detail t'. (err (http 503 detail), t')) n t (λ _ _. inr refl)
  attempts-IsSound (suc left) n t =
      attempt-IsSound (λ detail t'. attempts w org user key digest left (suc n) t') n t
        (λ _ t'. attempts-IsSound left (suc n) t')

-- In a tenant context, and whatever other transactions do before and during the call, a `begin`
-- that returns "processing" leaves the key's row processing with the caller's digest, under the
-- fresh token that it returns, with a lease of 120 seconds from its clock; one that returns
-- "completed" has found a completed row with the same digest and a non-empty stored answer, and
-- gives no token; no other status is returned, and every refusal has status 409 or 503.
pub begin-IsSound :
    (sha256 : String → String) (w : World) (request : Request) (key : String) (t : Table)
    (org user : ℕ)
    → request.organization_id ≡ some org
    → request.user_id ≡ some user
    → IsSound w org user key
        (body_digest sha256 request.cached_body)
        (begin_idempotency sha256 w request key t)
unfolding begin_idempotency resolve_context
begin-IsSound sha256 w request key t org user e f =
    rw (e, f) (attempts-IsSound w org user key (body_digest sha256 request.cached_body) 2 0 t)
