-- ===== src/Idempotency/Lease.antt =====
-- What the holder of a lease does: renew it, finish the call, read the stored answer; and the
-- periodic clean-up.
use eiraos_chat_backend.Prelude.{
  ℕ, ◌+◌, String, Option, none, some, Bool, true, false, ◌&&◌, ◌||◌, not, ltb, leb, ◌==◌,
  opt_str_eq, is_none, if◌then◌else◌,
}
use eiraos_chat_backend.Prelude.Result.{Result, ok, err}
use eiraos_chat_backend.Prelude.Rows.{select, update, update_all, delete_all, rowcount}
use eiraos_chat_backend.Http.{HttpException, Request}
use eiraos_chat_backend.Idempotency.Record.{
  Status, IdempotencyRecord, Table, seconds, lease_seconds, has_key, is_processing, is_completed,
  is_failed,
}
use eiraos_chat_backend.Idempotency.Key.{resolve_context, within, returns}
use eiraos_chat_backend.Idempotency.Begin.{is_past}

-- the rows that a renewal updates
abbrev pub is_owned_by : ℕ → ℕ → String → String → IdempotencyRecord → Bool
is_owned_by org user key token r =
    has_key org user key r && (is_processing r.status && opt_str_eq r.lease_token (some token))

-- `lease_until=now + LEASE_SECONDS`
abbrev pub extend : ℕ → IdempotencyRecord → IdempotencyRecord
extend now r = record r { lease_until = some (now + seconds lease_seconds) }

unfoldable pub renew : ℕ → ℕ → ℕ → String → String → Table → Bool × Table
renew now org user key token t =
    let mine = is_owned_by org user key token in
    (rowcount mine t.rows == 1, record t { rows = update_all mine (extend now) t.rows })

unfoldable pub renew_idempotency_lease :
    ℕ → Request → String → String → Table → Result HttpException Bool × Table
renew_idempotency_lease now request key token =
    within (resolve_context request) (λ org user t. returns (renew now org user key token t))

-- `existing.lease_token not in (None, lease_token) or (lease is not None and lease < now)`
unfoldable pub is_fenced : ℕ → Option String → IdempotencyRecord → Bool
is_fenced now none r = false
is_fenced now (some token) r =
    not (is_none r.lease_token || opt_str_eq r.lease_token (some token))
    || is_past now r.lease_until

abbrev pub outcome_status : ℕ → Status
outcome_status code = if leb 200 code && ltb code 300 then Status.completed else Status.failed

abbrev pub finish : ℕ → String → IdempotencyRecord → IdempotencyRecord
finish code reference r = record r {
  status = outcome_status code;
  response_status = some code;
  response_reference = some reference;
  lease_until = none;
}

-- on the locked row, if there is one
abbrev pub complete_row :
    ℕ
    → ℕ
    → ℕ
    → String
    → ℕ
    → String
    → Option String
    → Table
    → Option IdempotencyRecord
    → Bool × Table
complete_row now org user key code reference token t none = (false, t)
complete_row now org user key code reference token t (some r) =
    if is_fenced now token r
    then (false, t)
    else (true, record t { rows = update (has_key org user key) (finish code reference) t.rows })

unfoldable pub complete : ℕ → ℕ → ℕ → String → ℕ → String → Option String → Table → Bool × Table
complete now org user key code reference token t =
    complete_row now org user key code reference token t (select (has_key org user key) t.rows)

unfoldable pub complete_idempotency :
    ℕ → Request → String → ℕ → String → Option String → Table → Result HttpException Bool × Table
complete_idempotency now request key code reference token =
    within (resolve_context request)
      (λ org user t. returns (complete now org user key code reference token t))

abbrev reference_of : Option IdempotencyRecord → Option String
reference_of none = none
reference_of (some r) = r.response_reference

unfoldable pub cached : ℕ → ℕ → String → Table → Option String
cached org user key t =
    reference_of (select (λ r. has_key org user key r && is_completed r.status) t.rows)

unfoldable pub read_cached_response :
    Request → String → Table → Result HttpException (Option String)
read_cached_response request key t = elim (resolve_context request) [
  | err e ↦ err e
  | ok (org, user) ↦ ok (cached org user key t)
]

abbrev pub is_disposable : ℕ → IdempotencyRecord → Bool
is_disposable now r = is_past now r.expires_at && (is_completed r.status || is_failed r.status)

-- `limit` is an argument of the source that no statement reads.
unfoldable pub cleanup_expired_records : ℕ → ℕ → Table → ℕ × Table
cleanup_expired_records now limit t =
    (rowcount (is_disposable now) t.rows, record t { rows = delete_all (is_disposable now) t.rows })
