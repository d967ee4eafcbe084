-- ===== src/Idempotency/Fence.antt =====
-- Lease fencing: what the tokens are worth after a `begin`.
use eiraos_chat_backend.Prelude.{
  ℕ, ◌+◌, ◌≡◌, ◌≢◌, sym, ap, ◌∙◌, ◌≤◌, String, none, some, true, false, arith,
}
use eiraos_chat_backend.Prelude.Result.{ok}
use eiraos_chat_backend.Prelude.Rows.{select}
use eiraos_chat_backend.Idempotency.Record.{
  Status, IdempotencyRecord, Table, has_key, seconds, lease_seconds,
}
use eiraos_chat_backend.Idempotency.Begin.{World, IdempotencyOutcome, is_past, begin_idempotency}
use eiraos_chat_backend.Idempotency.Key.{body_digest, returns}
use eiraos_chat_backend.Idempotency.Lease.{
  renew_idempotency_lease, complete_idempotency, extend, finish,
}
use eiraos_chat_backend.Idempotency.Unique.{HasUniqueKeys, IsFair, keys_stay_unique}
use eiraos_chat_backend.Idempotency.Grant.{IsOwner, begin-IsSound}
use eiraos_chat_backend.Http.{Request}
use eiraos_chat_backend.Idempotency.Owned.{
  renew_stale, complete_stale, renew_owned, complete_owned, renew-context, complete-context,
  IsOwner-of,
}

-- Take a `begin` in a tenant context, over a table with unique keys and among transactions that keep
-- them so, that returned "processing". Every other token has lost the call: a renewal with it
-- answers false, a completion with it answers false, and both leave the table as it is, at any time.
pub begin-fences :
    (sha256 : String → String) (w : World) (request : Request) (key : String) (t : Table)
    (org user : ℕ) (o : IdempotencyOutcome) (token : String) (now code : ℕ) (reference : String)
    → IsFair w
    → HasUniqueKeys t
    → request.organization_id ≡ some org
    → request.user_id ≡ some user
    → (begin_idempotency sha256 w request key t).0 ≡ ok o
    → o.status ≡ Status.processing
    → o.lease_token ≢ some token
    → let t' = (begin_idempotency sha256 w request key t).1 in
      (renew_idempotency_lease now request key token t' ≡ (ok false, t'))
      × (complete_idempotency now request key code reference (some token) t' ≡ (ok false, t'))
begin-fences sha256 w request key t org user o token now code reference fair u eo eu began running
      other =
    let t' = (begin_idempotency sha256 w request key t).1 in
    let own : IsOwner w org user key (body_digest sha256 request.cached_body) o t' =
      IsOwner-of w org user key (body_digest sha256 request.cached_body)
        (begin_idempotency sha256 w request key t)
        (begin-IsSound sha256 w request key t org user eo eu) began running in
    let u' : HasUniqueKeys t' =
      (keys_stay_unique sha256 w request key token now code 0 reference none t fair u).0 in
    let differs : own.row.lease_token ≢ some token =
      λ e. other (own.token ∙ sym own.row_token ∙ e) in
    (
      renew-context request org user eo eu now key token t'
          ∙ ap returns (renew_stale org user key t' u' own.row own.found now token differs),
      complete-context request org user eo eu now key code reference (some token) t'
          ∙ ap returns (
              complete_stale org user key t' u' own.row own.found now code reference token differs
                (λ e. cc (sym own.row_token ∙ e))),
    )

-- The same `begin`, for the token that it returned: until the lease of 120 seconds has passed, the
-- holder's renewal answers true and sets the lease to 120 seconds from then, and the holder's
-- completion answers true and stores the status, the answer and the end of the lease.
pub begin-empowers :
    (sha256 : String → String) (w : World) (request : Request) (key : String) (t : Table)
    (org user : ℕ) (o : IdempotencyOutcome) (token : String) (now code : ℕ) (reference : String)
    → IsFair w
    → HasUniqueKeys t
    → request.organization_id ≡ some org
    → request.user_id ≡ some user
    → (begin_idempotency sha256 w request key t).0 ≡ ok o
    → o.status ≡ Status.processing
    → o.lease_token ≡ some token
    → ((n : ℕ) → now ≤ w.clock n + seconds lease_seconds)
    → let t' = (begin_idempotency sha256 w request key t).1 in
      let renewed = renew_idempotency_lease now request key token t' in
      let finished = complete_idempotency now request key code reference (some token) t' in
      (r : IdempotencyRecord) × (select (has_key org user key) t'.rows ≡ some r)
      × (renewed.0 ≡ ok true)
      × (select (has_key org user key) renewed.1.rows ≡ some (extend now r))
      × (finished.0 ≡ ok true)
      × (select (has_key org user key) finished.1.rows ≡ some (finish code reference r))
begin-empowers sha256 w request key t org user o token now code reference fair u eo eu began running
      mine early =
    let t' = (begin_idempotency sha256 w request key t).1 in
    let own : IsOwner w org user key (body_digest sha256 request.cached_body) o t' =
      IsOwner-of w org user key (body_digest sha256 request.cached_body)
        (begin_idempotency sha256 w request key t)
        (begin-IsSound sha256 w request key t org user eo eu) began running in
    let u' : HasUniqueKeys t' =
      (keys_stay_unique sha256 w request key token now code 0 reference none t fair u).0 in
    let held : own.row.lease_token ≡ some token = own.row_token ∙ sym own.token ∙ mine in
    let live : is_past now own.row.lease_until ≡ false =
      rw own.row_lease (ground (arith, early own.attempt_number)) in
    let renews = renew_owned org user key t' u' own.row own.found now token own.row_status held in
    let completes =
      complete_owned org user key t' u' own.row own.found now code reference token held live in
    (
      own.row,
      own.found,
      rw (renew-context request org user eo eu now key token t') (ap ok renews.0),
      rw (renew-context request org user eo eu now key token t') renews.1,
      rw (complete-context request org user eo eu now key code reference (some token) t')
          (ap ok completes.0),
      rw (complete-context request org user eo eu now key code reference (some token) t')
          completes.1,
    )
