-- ===== src/Idempotency/Begin.antt =====
-- `begin_idempotency`: reserve the key, join a finished call, or take a lapsed lease over.
use eiraos_chat_backend.Prelude.{
  ℕ, zero, suc, ◌+◌, String, Option, none, some, Bool, true, false, [], ◌∷◌, ◌++◌, ◌&&◌, not, ltb,
  str_eq, if◌then◌else◌,
}
use eiraos_chat_backend.Prelude.Text.{is_truthy}
use eiraos_chat_backend.Prelude.Result.{Result, ok, err}
use eiraos_chat_backend.Prelude.Rows.{select, update, delete}
use eiraos_chat_backend.Http.{HttpException, http, Request}
use eiraos_chat_backend.Idempotency.Record.{
  Status, IdempotencyRecord, Table, seconds, default_ttl_seconds, lease_seconds, has_key,
  is_completed, is_failed,
}
use eiraos_chat_backend.Idempotency.Key.{resolve_context, body_digest, within}

-- `status` is "processing" or "completed" in every outcome that is returned.
pub record IdempotencyOutcome : Type 0 where
  pub status : Status
  pub lease_token : Option String
  pub record_id : Option ℕ
  pub is_recovery : Bool

abbrev pub Answer : Type 0
Answer = Result HttpException IdempotencyOutcome × Table

-- What a call meets: the time and the fresh token of each attempt, and what other transactions do
-- to the table before the attempt, and between its insert and its locking read.
pub record World : Type 0 where
  pub clock : ℕ → ℕ
  pub new_token : ℕ → String
  pub before : ℕ → Table → Table
  pub between : ℕ → Table → Table

-- `dt is not None and dt < now`
abbrev pub is_past : ℕ → Option ℕ → Bool
is_past now none = false
is_past now (some t) = ltb t now

-- The row that a first call inserts.
abbrev pub new_record : ℕ → ℕ → String → String → ℕ → String → ℕ → IdempotencyRecord
new_record org user key digest now token id = record {
  id = id;
  organization_id = org;
  user_id = user;
  key = key;
  request_hash = digest;
  status = Status.processing;
  response_status = none;
  response_reference = none;
  created_at = now;
  expires_at = some (now + seconds default_ttl_seconds);
  lease_until = some (now + seconds lease_seconds);
  lease_token = some token;
}

abbrev pub insert_unless : Option IdempotencyRecord → IdempotencyRecord → Table → Option ℕ × Table
insert_unless none row t = (
  some t.next_id,
  record { rows = t.rows ++ (record row { id = t.next_id }) ∷ []; next_id = suc t.next_id },
)
insert_unless (some _) row t = (none, t)

-- INSERT … ON CONFLICT DO NOTHING RETURNING id
unfoldable pub insert_record : IdempotencyRecord → Table → Option ℕ × Table
insert_record row t =
    insert_unless (select (has_key row.organization_id row.user_id row.key) t.rows) row t

abbrev pub owned : String → ℕ → Bool → IdempotencyOutcome
owned token id recovery = record {
  status = Status.processing;
  lease_token = some token;
  record_id = some id;
  is_recovery = recovery;
}

abbrev pub replayed : ℕ → IdempotencyOutcome
replayed id = record {
  status = Status.completed;
  lease_token = none;
  record_id = some id;
  is_recovery = false;
}

-- The writes by which a caller takes over a failed call, and one whose lease has lapsed.
abbrev pub restart : ℕ → String → IdempotencyRecord → IdempotencyRecord
restart now token r = record r {
  status = Status.processing;
  response_status = none;
  response_reference = none;
  lease_until = some (now + seconds lease_seconds);
  expires_at = some (now + seconds default_ttl_seconds);
  lease_token = some token;
}

abbrev pub take_over : ℕ → String → IdempotencyRecord → IdempotencyRecord
take_over now token r = record r {
  lease_until = some (now + seconds lease_seconds);
  lease_token = some token;
  status = Status.processing;
}

-- The ladder over the locked row, for a caller with this digest and this fresh token; `again` is
-- the recursive call with one attempt more, or its refusal with this detail.
unfoldable pub decide :
    (String → Table → Answer)
    → (IdempotencyRecord → Bool)
    → String
    → ℕ
    → String
    → IdempotencyRecord
    → Table
    → Answer
decide again mine digest now token r t =
    if is_completed r.status && is_past now r.expires_at
    then again "Idempotency renewal failed after retries." (record t { rows = delete mine t.rows })
    else if not (str_eq r.request_hash digest)
    then (err (http 409 "Idempotency key was reused with a different payload."), t)
    else if is_completed r.status && is_truthy r.response_reference
    then (ok (replayed r.id), t)
    else if is_failed r.status
    then (ok (owned token r.id true), record t { rows = update mine (restart now token) t.rows })
    else if is_past now r.lease_until
    then (ok (owned token r.id true), record t { rows = update mine (take_over now token) t.rows })
    else (err (http 409 "A request with this idempotency key is already in progress."), t)

module _ (w : World) (org user : ℕ) (key digest : String) where
  abbrev pub after_lock : (String → Table → Answer) → ℕ → Table → Option IdempotencyRecord → Answer
  after_lock again n t none = again "Idempotency reservation failed after retries." t
  after_lock again n t (some r) =
      decide again (has_key org user key) digest (w.clock n) (w.new_token n) r t

  -- After an insert that met a conflict: the locking read.
  unfoldable pub locked : (String → Table → Answer) → ℕ → Table → Answer
  locked again n t = after_lock again n t (select (has_key org user key) t.rows)

  abbrev pub after_insert : (String → Table → Answer) → ℕ → Option ℕ × Table → Answer
  after_insert again n (some id, t) = (ok (owned (w.new_token n) id false), t)
  after_insert again n (none, t) = locked again n (w.between n t)

  -- One attempt, the `n`-th.
  unfoldable pub attempt : (String → Table → Answer) → ℕ → Table → Answer
  attempt again n t =
      after_insert again n (
        insert_record (new_record org user key digest (w.clock n) (w.new_token n) 0) (w.before n t))

  -- The attempts from the `n`-th, while `left` more are allowed after it: `left = 2 - _attempts`.
  unfoldable pub attempts : ℕ → ℕ → Table → Answer
  attempts zero n t = attempt (λ detail t'. (err (http 503 detail), t')) n t
  attempts (suc left) n t = attempt (λ detail t'. attempts left (suc n) t') n t

unfoldable pub begin_idempotency : (String → String) → World → Request → String → Table → Answer
begin_idempotency sha256 w request key =
    within (resolve_context request)
      (λ org user. attempts w org user key (body_digest sha256 request.cached_body) 2 0)
