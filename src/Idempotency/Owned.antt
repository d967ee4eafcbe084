-- ===== src/Idempotency/Owned.antt =====
-- The row that an owner of a lease holds, and what a renewal and a completion do with it.
use eiraos_chat_backend.Prelude.{
  ℕ, ◌≡◌, ◌≢◌, refl, String, Option, none, some, true, false, arith, opt_str_ne, opt_str_law,
  if◌then◌else◌,
}
use mathlib.Core.Path.{subst}
use eiraos_chat_backend.Prelude.Result.{ok, err}
use eiraos_chat_backend.Prelude.Rows.{
  select, rowcount, select-update, select-update_all, select-satisfies,
}
use eiraos_chat_backend.Prelude.Keyed.{select_found, rowcount_found, update_all-none}
use eiraos_chat_backend.Idempotency.Record.{
  Status, IdempotencyRecord, Table, has_key, scope_of, scope_eq, scope_law,
}
use eiraos_chat_backend.Idempotency.Begin.{World, Answer, IdempotencyOutcome, is_past}
use eiraos_chat_backend.Idempotency.Key.{resolve_context, returns}
use eiraos_chat_backend.Idempotency.Lease.{
  renew, renew_idempotency_lease, complete, is_owned_by, complete_idempotency, extend, finish,
  is_fenced,
}
use eiraos_chat_backend.Idempotency.Unique.{HasUniqueKeys}
use eiraos_chat_backend.Idempotency.Grant.{IsOwner, IsSound, Promise}
use eiraos_chat_backend.Http.{Request}

owned-has_key :
    (org user : ℕ) (key token : String) (r : IdempotencyRecord)
    → is_owned_by org user key token r ≡ true
    → has_key org user key r ≡ true
owned-has_key org user key token r h = ground (arith, h)

module _ (org user : ℕ) (key : String) (t : Table) (u : HasUniqueKeys t) (r : IdempotencyRecord)
    (found : select (has_key org user key) t.rows ≡ some r) where
  owned_row :
      (token : String)
      → select (is_owned_by org user key token) t.rows
        ≡ (if is_owned_by org user key token r then some r else none)
  owned_row token =
      select_found scope_of scope_eq scope_law (org, user, key) (is_owned_by org user key token)
        t.rows (owned-has_key org user key token) u found

  owned_count :
      (token : String)
      → rowcount (is_owned_by org user key token) t.rows
        ≡ (if is_owned_by org user key token r then 1 else 0)
  owned_count token =
      rowcount_found scope_of scope_eq scope_law (org, user, key) (is_owned_by org user key token)
        t.rows (owned-has_key org user key token) u found

  not_owned :
      (token : String) → r.lease_token ≢ some token → is_owned_by org user key token r ≡ false
  not_owned token other = ground (arith, opt_str_ne r.lease_token (some token) other)

  pub renew_stale :
      (now : ℕ) (token : String)
      → r.lease_token ≢ some token
      → renew now org user key token t ≡ (false, t)
  unfolding renew
  renew_stale now token other = rw (
    owned_count token,
    not_owned token other,
    update_all-none (is_owned_by org user key token) (extend now) t.rows none_owned,
  )
    where
      none_owned : select (is_owned_by org user key token) t.rows ≡ none
      none_owned = rw (owned_row token, not_owned token other)

  pub complete_stale :
      (now code : ℕ) (reference token : String)
      → r.lease_token ≢ some token
      → r.lease_token ≢ none
      → complete now org user key code reference (some token) t ≡ (false, t)
  unfolding complete is_fenced
  complete_stale now code reference token other held =
      rw found (ground (arith, opt_str_ne r.lease_token (some token) other))

  is_mine :
      (token : String)
      → r.status ≡ Status.processing
      → r.lease_token ≡ some token
      → is_owned_by org user key token r ≡ true
  is_mine token running mine = ground (
    arith,
    select-satisfies (has_key org user key) t.rows found,
    (opt_str_law r.lease_token (some token)).1 mine,
    running,
  )

  pub renew_owned :
      (now : ℕ) (token : String)
      → r.status ≡ Status.processing
      → r.lease_token ≡ some token
      → ((renew now org user key token t).0 ≡ true)
        × (select (has_key org user key) (renew now org user key token t).1.rows
            ≡ some (extend now r))
  unfolding renew
  renew_owned now token running mine = (
    rw (owned_count token, is_mine token running mine),
    rw
        (
          select-update_all (has_key org user key) (is_owned_by org user key token) (extend now)
              t.rows (λ _. refl),
          found,
        )
        (rw (is_mine token running mine)),
  )

  pub complete_owned :
      (now code : ℕ) (reference token : String)
      → r.lease_token ≡ some token
      → is_past now r.lease_until ≡ false
      → ((complete now org user key code reference (some token) t).0 ≡ true)
        × (select
              (has_key org user key)
              (complete now org user key code reference (some token) t).1.rows
            ≡ some (finish code reference r))
  unfolding complete is_fenced
  complete_owned now code reference token mine live =
      rw (found, not_fenced)
        (
          refl,
          rw (
            select-update (has_key org user key) (finish code reference) t.rows (λ _. refl),
            found,
          ),
        )
    where
      not_fenced : is_fenced now (some token) r ≡ false
      not_fenced = ground (arith, (opt_str_law r.lease_token (some token)).1 mine, live)

-- In a tenant context the operations are those on its rows.
module _ (request : Request) (org user : ℕ) (eo : request.organization_id ≡ some org)
    (eu : request.user_id ≡ some user) where
  pub renew-context :
      (now : ℕ) (key token : String) (t : Table)
      → renew_idempotency_lease now request key token t ≡ returns (renew now org user key token t)
  unfolding renew_idempotency_lease resolve_context
  renew-context now key token t = rw (eo, eu)

  pub complete-context :
      (now : ℕ) (key : String) (code : ℕ) (reference : String) (token : Option String) (t : Table)
      → complete_idempotency now request key code reference token t
        ≡ returns (complete now org user key code reference token t)
  unfolding complete_idempotency resolve_context
  complete-context now key code reference token t = rw (eo, eu)

-- The owner that a sound answer with status "processing" speaks of.
module _ (w : World) (org user : ℕ) (key digest : String) where
  Promise-IsOwner :
      (o : IdempotencyOutcome) (t : Table) (s : Status)
      → Promise w org user key digest o t s
      → s ≡ Status.processing
      → IsOwner w org user key digest o t
  Promise-IsOwner o t Status.processing own e = own
  Promise-IsOwner o t Status.completed replay e = cc
  Promise-IsOwner o t Status.failed never e = cc

  pub IsOwner-of :
      (a : Answer) {o : IdempotencyOutcome}
      → IsSound w org user key digest a
      → a.0 ≡ ok o
      → o.status ≡ Status.processing
      → IsOwner w org user key digest o a.1
  IsOwner-of (ok o', t) {o} sound e running =
      Promise-IsOwner o t o.status
        (subst (λ x. Promise w org user key digest x t x.status) (cc e) sound) running
  IsOwner-of (err x, t) sound e running = cc
