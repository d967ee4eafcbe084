-- ===== src/Idempotency/Tests.antt =====
-- Runs of the idempotency service, and its theorems at concrete inputs.
use eiraos_chat_backend.Prelude.{
  ◌≡◌, ◌≢◌, refl, String, Option, none, some, true, false, [], ◌∷◌, arith, eq_iff, ◌==◌,
  if◌then◌else◌,
}
use eiraos_chat_backend.Prelude.Text.{strip, is_space}
use eiraos_chat_backend.Prelude.Result.{ok, err}
use eiraos_chat_backend.Prelude.Rows.{select, update, delete_all, rowcount}
use eiraos_chat_backend.Http.{http, Request}
use eiraos_chat_backend.Idempotency.Record.{Status, IdempotencyRecord, Table, has_key}
use eiraos_chat_backend.Idempotency.Key.{body_digest, resolve_context, resolve_idempotency_key}
use eiraos_chat_backend.Idempotency.Begin.{
  World, begin_idempotency, owned, replayed, attempts, attempt, insert_record, locked, decide,
  new_record,
}
use eiraos_chat_backend.Idempotency.Lease.{
  complete, is_fenced, renew_idempotency_lease, complete_idempotency, cleanup_expired_records,
  read_cached_response, finish, extend,
}
use eiraos_chat_backend.Idempotency.Unique.{HasUniqueKeys, IsFair, keys_stay_unique}
use eiraos_chat_backend.Idempotency.Grant.{IsSound, begin-IsSound}
use eiraos_chat_backend.Idempotency.Fence.{begin-fences, begin-empowers}
use eiraos_chat_backend.Idempotency.Cycle.{IsQuiet, begin-busy, complete-begin, fail-begin}
use eiraos_chat_backend.Idempotency.Cleanup.{Cleaned, cleanup_exact}

abbrev request : Request
request = record {
  organization_id = some 1;
  user_id = some 2;
  cached_body = some "hello";
  idempotency_header = some " k ";
}

abbrev digest_of : String → String
digest_of s = s

-- One second past the epoch; nobody else touches the table.
abbrev world : World
world = record {
  clock = λ n. 1000000;
  new_token = λ n. if n == 0 then "first" else "second";
  before = λ n t. t;
  between = λ n t. t;
}

world-IsFair : IsFair world
world-IsFair = record { fair_before = λ n t u. u; fair_between = λ n t u. u }

world-IsQuiet : IsQuiet world
world-IsQuiet = record { quiet_before = λ n t. refl; quiet_between = λ n t. refl }

abbrev empty : Table
empty = record { rows = []; next_id = 1 }

-- The row of a call that another process began at one second past the epoch.
abbrev running : IdempotencyRecord
running = new_record 1 2 "k" "hello" 1000000 "other" 7

abbrev lapsed : IdempotencyRecord
lapsed = record running { lease_until = some 999999 }

abbrev expired : IdempotencyRecord
expired = record running {
  status = Status.completed;
  response_reference = some "answer";
  expires_at = some 999999;
}

abbrev with_row : IdempotencyRecord → Table
with_row r = record { rows = r ∷ []; next_id = 8 }

resolve_trims : resolve_idempotency_key request (some "k") ≡ ok (some "k")
unfolding resolve_idempotency_key strip is_space
resolve_trims = refl

begin_fresh : (begin_idempotency digest_of world request "k" empty).0 ≡ ok (owned "first" 1 false)
unfolding begin_idempotency attempts attempt insert_record resolve_context body_digest select
begin_fresh = refl

begin_stale :
    (begin_idempotency digest_of world request "k" (with_row lapsed)).0 ≡ ok (owned "first" 7 true)
unfolding begin_idempotency attempts attempt insert_record locked decide resolve_context body_digest
    select
begin_stale = refl

keys_stay_unique_example :
    HasUniqueKeys (begin_idempotency digest_of world request "k" (with_row lapsed)).1
    × HasUniqueKeys (renew_idempotency_lease 5 request "k" "other" (with_row lapsed)).1
    × HasUniqueKeys (complete_idempotency 5 request "k" 200 "answer" none (with_row lapsed)).1
    × HasUniqueKeys (cleanup_expired_records 5 1000 (with_row lapsed)).1
unfolding select
keys_stay_unique_example =
    keys_stay_unique digest_of world request "k" "other" 5 200 1000 "answer" none (with_row lapsed)
      world-IsFair (refl, tt)

begin-IsSound_example :
    IsSound world 1 2 "k"
      (body_digest digest_of (some "hello"))
      (begin_idempotency digest_of world request "k" (with_row lapsed))
begin-IsSound_example = begin-IsSound digest_of world request "k" (with_row lapsed) 1 2 refl refl

first_is_not_other : ◌≢◌ {A = Option String} (some "first") (some "other")
first_is_not_other e = ground (arith, eq_iff "first" "other")

begin-fences_example :
    let t' = (begin_idempotency digest_of world request "k" (with_row lapsed)).1 in
    (renew_idempotency_lease 5 request "k" "other" t' ≡ (ok false, t'))
    × (complete_idempotency 5 request "k" 200 "late" (some "other") t' ≡ (ok false, t'))
unfolding select
begin-fences_example =
    begin-fences digest_of world request "k" (with_row lapsed) 1 2 (owned "first" 7 true) "other" 5
      200 "late" world-IsFair (refl, tt) refl refl begin_stale refl first_is_not_other

begin-empowers_example :
    let t' = (begin_idempotency digest_of world request "k" (with_row lapsed)).1 in
    let renewed = renew_idempotency_lease 1000000 request "k" "first" t' in
    let finished = complete_idempotency 1000000 request "k" 200 "done" (some "first") t' in
    (r : IdempotencyRecord) × (select (has_key 1 2 "k") t'.rows ≡ some r)
    × (renewed.0 ≡ ok true)
    × (select (has_key 1 2 "k") renewed.1.rows ≡ some (extend 1000000 r))
    × (finished.0 ≡ ok true)
    × (select (has_key 1 2 "k") finished.1.rows ≡ some (finish 200 "done" r))
unfolding select
begin-empowers_example =
    begin-empowers digest_of world request "k" (with_row lapsed) 1 2 (owned "first" 7 true) "first"
      1000000 200 "done" world-IsFair (refl, tt) refl refl begin_stale refl refl (λ n. omega arith)

begin-busy_example : begin_idempotency digest_of world request "k" (with_row running) ≡ (
  err (http 409 "A request with this idempotency key is already in progress."),
  with_row running,
)
unfolding select body_digest
begin-busy_example =
    begin-busy digest_of world world-IsQuiet request "k" (with_row running) 1 2 refl refl running
      refl refl refl

finished_ok :
    (complete_idempotency 1000000 request "k" 200 "done" (some "other") (with_row running)).0
    ≡ ok true
unfolding complete_idempotency complete is_fenced resolve_context select
finished_ok = refl

finished_rows :
    HasUniqueKeys
      (complete_idempotency 1000000 request "k" 200 "done" (some "other") (with_row running)).1
unfolding complete_idempotency complete is_fenced resolve_context select update
finished_rows = (refl, tt)

complete-begin_example :
    let t' =
      (complete_idempotency 1000000 request "k" 200 "done" (some "other") (with_row running)).1 in
    (begin_idempotency digest_of world request "k" t' ≡ (ok (replayed 7), t'))
    × (read_cached_response request "k" t' ≡ ok (some "done"))
unfolding select body_digest
complete-begin_example =
    complete-begin digest_of world world-IsQuiet request "k" (with_row running) 1 2 refl refl
      running refl 1000000 200 "done" (some "other") finished_ok finished_rows refl (omega arith)
      (omega arith) refl refl

failed_ok :
    (complete_idempotency 1000000 request "k" 502 "down" (some "other") (with_row running)).0
    ≡ ok true
unfolding complete_idempotency complete is_fenced resolve_context select
failed_ok = refl

fail-begin_example :
    (begin_idempotency digest_of world request "k"
      (complete_idempotency 1000000 request "k" 502 "down" (some "other") (with_row running)).1).0
    ≡ ok (owned "first" 7 true)
unfolding select body_digest
fail-begin_example =
    fail-begin digest_of world world-IsQuiet request "k" (with_row running) 1 2 refl refl running
      refl 1000000 502 "down" (some "other") failed_ok refl refl

-- a table with a row that is due and one that is not
abbrev mixed : Table
mixed = record { rows = expired ∷ record running { key = "other" } ∷ []; next_id = 9 }

cleanup_exact_example :
    let (deleted, t') = cleanup_expired_records 1000000 1000 mixed in
    Cleaned 1000000 mixed.rows t'.rows deleted
cleanup_exact_example = cleanup_exact 1000000 1000 mixed

one_deleted :
    cleanup_expired_records 1000000 1000 mixed
    ≡ (1, record mixed { rows = record running { key = "other" } ∷ [] })
unfolding cleanup_expired_records delete_all rowcount
one_deleted = refl
