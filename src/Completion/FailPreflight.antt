-- ===== src/Completion/FailPreflight.antt =====
-- What the route does when its preflight fails: the status of the answer, and `fail_preflight`.
use eiraos_chat_backend.Prelude.{
  ℕ, String, Option, none, some, Bool, true, false, not, is_some, ◌&&◌, if◌then◌else◌,
}
use eiraos_chat_backend.Prelude.Result.{Result, ok, err}
use eiraos_chat_backend.Chat.Failure.{
  FailureCode, provider_failure, database_failure, budget_rejected, idempotency_conflict,
  retry_exhausted, context_rejected,
}
use eiraos_chat_backend.Chat.Session
use eiraos_chat_backend.Chat.Session.{PersistenceError, conflict, unavailable, retry_limit_exceeded}
use eiraos_chat_backend.Completion.Raised.{
  Raised, cancelled_error, generator_exit, isolated, timeout_error, eiraos_error, http_exception,
  persistence_error, budget_exceeded, budget_unavailable, context_budget_exceeded, database_error,
  other_error,
}
use eiraos_chat_backend.Completion.Program.{◌>>◌, give, raise, raise_when}
use eiraos_chat_backend.Completion.Preflight.{
  Act, release_tenant, finalize_failed, record_result, release_lease, Held, Environment, Callback,
  act,
}
use eiraos_chat_backend.Completion.Prepare.{Prepared, prepare}

-- The `except` clauses: the response status, and the failure code that is stored.
unfoldable pub preflight_failure : Raised → Option (ℕ × FailureCode)
preflight_failure cancelled_error = none
preflight_failure generator_exit = none
preflight_failure budget_exceeded = some (429, budget_rejected)
preflight_failure budget_unavailable = some (503, database_failure)
preflight_failure (persistence_error retry_limit_exceeded) = some (409, retry_exhausted)
preflight_failure (persistence_error (conflict reason)) = some (409, idempotency_conflict)
preflight_failure (persistence_error unavailable) = some (503, database_failure)
preflight_failure (persistence_error (Session.value_error reason)) = some (500, provider_failure)
preflight_failure database_error = some (503, database_failure)
preflight_failure context_budget_exceeded = some (422, context_rejected)
preflight_failure (http_exception status_code) = some (status_code, provider_failure)
preflight_failure (isolated kind) = some (500, provider_failure)
preflight_failure timeout_error = some (500, provider_failure)
preflight_failure eiraos_error = some (500, provider_failure)
preflight_failure other_error = some (500, provider_failure)

-- a call that takes effect or fails, whose failure is ignored
abbrev pub attempt : Bool → Act → Callback (Unit {0})
attempt true a = act a
attempt false a = give tt

module _ (env : Environment) where
  -- `_release_preflight_lease`, whose failure is ignored
  abbrev pub release_preflight_lease : ℕ → Option String → Option String → Callback (Unit {0})
  release_preflight_lease status (some key) (some token) =
      attempt (env.releases_lease status) (release_lease status)
  release_preflight_lease status (some key) none = give tt
  release_preflight_lease status none token = give tt

  abbrev pub close_decision : ℕ → FailureCode → Option String → Callback (Unit {0})
  close_decision status code none = give tt
  close_decision status code (some decision) = do
    raise_when (not (env.record_preflight status code)) (http_exception 503)
    act (record_result status code)

  -- a tenant's reservation that no execution has taken over; a failing backend is ignored
  abbrev pub release_budget : Option String → Option Bool → Callback (Unit {0})
  release_budget none (some true) =
      if env.has_redis then attempt env.releases_tenant release_tenant else give tt
  release_budget none (some false) = give tt
  release_budget none none = give tt
  release_budget (some execution) budgeted = give tt

  abbrev pub close_rest : ℕ → FailureCode → Held → Option String → Callback (Unit {0})
  close_rest status code s (some execution) =
      attempt (env.finalizes status code) (finalize_failed status code)
  close_rest status code s none = do
    close_decision status code s.governance_decision_id
    release_preflight_lease status s.reserved_idem.key s.reserved_idem.lease_token

  unfoldable pub fail_preflight : ℕ → FailureCode → Callback (Unit {0})
  fail_preflight status code s =
      (do
        release_budget s.persisted_execution s.budgeted_execution
        close_rest status code s s.persisted_execution)
        s

  abbrev pub answered : {A : Type 0} → Raised → Option (ℕ × FailureCode) → Callback A
  answered e none = raise e
  answered e (some (status, code)) = do fail_preflight status code; raise (http_exception status)

  -- the `try` around `prepare`
  abbrev pub or_fail : {A : Type 0} → Result Raised A × Held → Result Raised A × Held
  or_fail (ok a, s) = (ok a, s)
  or_fail (err e, s) = answered e (preflight_failure e) s

  unfoldable pub preflight : Callback Prepared
  unfolding preflight_failure
  preflight s = or_fail (prepare env s)

  -- the route's answer to a replay; a decision that cannot get its result is not caught here
  unfoldable pub answer_replay : String → Callback String
  answer_replay cached s =
      (do
        raise_when (is_some s.governance_decision_id && not env.record_replay) other_error
        give cached)
        s
