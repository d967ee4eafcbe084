-- ===== src/Idempotency/Cycle.antt =====
-- The life of a key, when no other transaction comes between.
use eiraos_chat_backend.Prelude.{
  ℕ, ◌≡◌, refl, ap, ◌∙◌, ◌≤◌, ◌<◌, String, Option, none, some, true, false, Bool-cases, inl, inr,
  arith, ◌&&◌, eq_iff, str_eq, if◌then◌else◌,
}
use eiraos_chat_backend.Prelude.Text.{is_truthy, is_empty}
use eiraos_chat_backend.Prelude.Result.{ok, err}
use eiraos_chat_backend.Prelude.Rows.{select, update, delete, select-update, select-satisfies}
use eiraos_chat_backend.Prelude.Keyed.{select_found, select-delete_self}
use eiraos_chat_backend.Idempotency.Record.{
  Status, IdempotencyRecord, Table, has_key, is_completed, scope_of, scope_eq, scope_law,
}
use eiraos_chat_backend.Idempotency.Begin.{
  World, Answer, is_past, begin_idempotency, decide, attempt, attempts, insert_record, locked,
  owned, replayed, new_record,
}
use eiraos_chat_backend.Idempotency.Key.{resolve_context, body_digest}
use eiraos_chat_backend.Idempotency.Lease.{
  complete, complete_idempotency, finish, is_fenced, outcome_status, cached, read_cached_response,
}
use eiraos_chat_backend.Idempotency.Unique.{HasUniqueKeys}
use eiraos_chat_backend.Idempotency.Owned.{complete-context}
use eiraos_chat_backend.Http.{http, Request}

-- No other transaction touches the table during the call.
pub record IsQuiet (w : World) : Type 0 where
  pub quiet_before : (n : ℕ) (t : Table) → w.before n t ≡ t
  pub quiet_between : (n : ℕ) (t : Table) → w.between n t ≡ t

module _ (w : World) (quiet : IsQuiet w) (org user : ℕ) (key digest : String) where
  attempt-taken :
      (again : String → Table → Answer) (n : ℕ) (t : Table) {r : IdempotencyRecord}
      → select (has_key org user key) t.rows ≡ some r
      → attempt w org user key digest again n t
        ≡ decide again (has_key org user key) digest (w.clock n) (w.new_token n) r t
  unfolding attempt locked insert_record
  attempt-taken again n t found =
      rw (quiet.quiet_before n t) (rw found (rw (quiet.quiet_between n t) (rw found)))

  attempt-free :
      (again : String → Table → Answer) (n : ℕ) (t : Table)
      → select (has_key org user key) t.rows ≡ none
      → attempt w org user key digest again n t ≡ (
        ok (owned (w.new_token n) t.next_id false),
        (insert_record (new_record org user key digest (w.clock n) (w.new_token n) 0) t).1,
      )
  unfolding attempt locked insert_record
  attempt-free again n t free = rw (quiet.quiet_before n t) (rw free)

module _ (sha256 : String → String) (w : World) (quiet : IsQuiet w) (request : Request)
    (key : String) (t : Table) (org user : ℕ) (eo : request.organization_id ≡ some org)
    (eu : request.user_id ≡ some user) (r : IdempotencyRecord)
    (found : select (has_key org user key) t.rows ≡ some r) where
  abbrev digest : String
  digest = body_digest sha256 request.cached_body

  begin-taken :
      begin_idempotency sha256 w request key t
      ≡ decide
          (λ _ t'. attempts w org user key digest 1 1 t')
          (has_key org user key)
          digest
          (w.clock 0)
          (w.new_token 0)
          r
          t
  unfolding begin_idempotency resolve_context attempts
  begin-taken = rw (eo, eu) (attempt-taken w quiet org user key digest _ 0 t found)

  -- With no other transaction in between: while the row of a key is processing and its lease has
  -- not passed, every `begin` for the key is refused with status 409 and leaves the table alone; the
  -- detail says whether the payload was another one or the call is in progress.
  pub begin-busy :
      r.status ≡ Status.processing
      → is_past (w.clock 0) r.lease_until ≡ false
      → begin_idempotency sha256 w request key t ≡ (
        err (
            http 409 (
              if str_eq r.request_hash digest
              then "A request with this idempotency key is already in progress."
              else "Idempotency key was reused with a different payload.")),
        t,
      )
  unfolding decide
  begin-busy running live = rw begin-taken (ground (arith, running, live))

  -- With no other transaction in between: a completed call whose record has expired no longer
  -- answers for its key. The next `begin`, whatever its payload, deletes it and holds a new row
  -- under its own digest and the token of its second attempt; it is not a recovery.
  pub begin-expired :
      HasUniqueKeys t
      → r.status ≡ Status.completed
      → is_past (w.clock 0) r.expires_at ≡ true
      → begin_idempotency sha256 w request key t ≡ (
        ok (owned (w.new_token 1) t.next_id false),
        (insert_record
            (new_record org user key digest (w.clock 1) (w.new_token 1) 0)
            (record t { rows = delete (has_key org user key) t.rows })).1,
      )
  unfolding decide attempts
  begin-expired u done lapsed = rw begin-taken (
      rw (done, lapsed, decide)
        (attempt-free w quiet org user key digest _ 1
          (record t { rows = delete (has_key org user key) t.rows })
          (select-delete_self scope_of scope_eq scope_law (org, user, key) t.rows u)))

  -- A completion that answered true has written the row that it locked.
  complete-writes :
      (now code : ℕ) (reference : String) (token : Option String)
      → (complete now org user key code reference token t).0 ≡ true
      → (complete now org user key code reference token t).1
        ≡ record t { rows = update (has_key org user key) (finish code reference) t.rows }
  unfolding complete
  complete-writes now code reference token = elim (Bool-cases (is_fenced now token r)) [
    | inl e ↦ rw found (rw e (λ h. cc))
    | inr e ↦ rw found (rw e (λ _. refl))
  ]

  complete_idempotency-writes :
      (now code : ℕ) (reference : String) (token : Option String)
      → (complete_idempotency now request key code reference token t).0 ≡ ok true
      → (complete_idempotency now request key code reference token t).1
        ≡ record t { rows = update (has_key org user key) (finish code reference) t.rows }
  complete_idempotency-writes now code reference token =
      rw (complete-context request org user eo eu now key code reference token t)
        (λ h. complete-writes now code reference token (cc h))

read-context :
    (request : Request) (key : String) (t : Table) (org user : ℕ)
    → request.organization_id ≡ some org
    → request.user_id ≡ some user
    → read_cached_response request key t ≡ ok (cached org user key t)
unfolding read_cached_response resolve_context
read-context request key t org user eo eu = rw (eo, eu)

cached-completed :
    (org user : ℕ) (key : String) (t : Table)
    → HasUniqueKeys t
    → (r : IdempotencyRecord) → select (has_key org user key) t.rows ≡ some r
    → r.status ≡ Status.completed
    → cached org user key t ≡ r.response_reference
unfolding cached
cached-completed org user key t u r found done =
    rw
      (select_found scope_of scope_eq scope_law (org, user, key)
        (λ x. has_key org user key x && is_completed x.status) t.rows (λ x h. ground (arith, h)) u
        found)
      (ground (arith, select-satisfies (has_key org user key) t.rows found, done))

truthy_of : (s : String) → is_empty s ≡ false → is_truthy (some s) ≡ true
truthy_of String.[] h = cc
truthy_of (String.◌∷◌ c s) h = refl

module _ (sha256 : String → String) (w : World) (quiet : IsQuiet w) (request : Request)
    (key : String) (t : Table) (org user : ℕ) (eo : request.organization_id ≡ some org)
    (eu : request.user_id ≡ some user) (r : IdempotencyRecord)
    (found : select (has_key org user key) t.rows ≡ some r) (now code : ℕ) (reference : String)
    (token : Option String)
    (finished : (complete_idempotency now request key code reference token t).0 ≡ ok true) where
  abbrev after : Table
  after = (complete_idempotency now request key code reference token t).1

  after-eq :
      after ≡ record t { rows = update (has_key org user key) (finish code reference) t.rows }
  after-eq =
      complete_idempotency-writes sha256 w quiet request key t org user eo eu r found now code
        reference token finished

  after-found : select (has_key org user key) after.rows ≡ some (finish code reference r)
  after-found =
      rw after-eq (
        rw (select-update (has_key org user key) (finish code reference) t.rows (λ _. refl), found))

  begin-after :
      begin_idempotency sha256 w request key after
      ≡ decide
          (λ _ t'. attempts w org user key (body_digest sha256 request.cached_body) 1 1 t')
          (has_key org user key)
          (body_digest sha256 request.cached_body)
          (w.clock 0)
          (w.new_token 0)
          (finish code reference r)
          after
  begin-after =
      begin-taken sha256 w quiet request key after org user eo eu (finish code reference r)
        after-found

  -- A call that was completed with a status from 200 to 299 and a non-empty answer is replayed: until
  -- its record expires, and with no other transaction in between, a `begin` with the same payload
  -- returns "completed" with the record's id and changes nothing, and the cached answer is the one
  -- stored.
  pub complete-begin :
      HasUniqueKeys after
      → r.request_hash ≡ body_digest sha256 request.cached_body
      → 200 ≤ code
      → code < 300
      → is_empty reference ≡ false
      → is_past (w.clock 0) r.expires_at ≡ false
      → (begin_idempotency sha256 w request key after ≡ (ok (replayed r.id), after))
        × (read_cached_response request key after ≡ ok (some reference))
  unfolding decide
  complete-begin u same low high filled fresh = (
    rw begin-after (
        ground (
          arith,
          (eq_iff r.request_hash (body_digest sha256 request.cached_body)).1 same,
          truthy_of reference filled,
          fresh,
          low,
          high,
        )),
    read-context request key after org user eo eu
        ∙ ap ok (
            cached-completed org user key after u (finish code reference r) after-found
              (ground (arith, low, high))),
  )

  -- A call that was finished with any other status is taken over by the next `begin` with the same
  -- payload, without waiting for a lease, as a recovery of the same record.
  pub fail-begin :
      r.request_hash ≡ body_digest sha256 request.cached_body
      → outcome_status code ≡ Status.failed
      → (begin_idempotency sha256 w request key after).0 ≡ ok (owned (w.new_token 0) r.id true)
  unfolding decide
  fail-begin same bad =
      rw begin-after (
        ground
          (arith, (eq_iff r.request_hash (body_digest sha256 request.cached_body)).1 same, bad))
