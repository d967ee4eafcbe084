-- ===== src/Completion/Compensated.antt =====
-- What a failed preflight should leave behind.
use eiraos_chat_backend.Prelude.{
  ℕ, ◌≡◌, ◌≢◌, ◌⊎◌, refl, String, Option, none, some, Bool, true, false, [], ◌∷◌, any, is_some,
  if◌then◌else◌, inl, inr, arith,
}
use eiraos_chat_backend.Chat.Failure.{FailureCode, provider_failure, failure_policy}
use eiraos_chat_backend.Chat.Session
use eiraos_chat_backend.Chat.Session.{conflict, unavailable, retry_limit_exceeded}
use eiraos_chat_backend.Completion.Raised.{
  Raised, cancelled_error, generator_exit, isolated, timeout_error, eiraos_error, http_exception,
  persistence_error, budget_exceeded, budget_unavailable, context_budget_exceeded, database_error,
  other_error,
}
use eiraos_chat_backend.Completion.Preflight.{
  Act, release_tenant, finalize_failed, record_result, release_lease, Held, Environment,
}
use eiraos_chat_backend.Completion.FailPreflight.{preflight_failure}

abbrev pub is_budget_release : Act → Bool
is_budget_release release_tenant = true
is_budget_release (finalize_failed status code) = false
is_budget_release (record_result status code) = false
is_budget_release (release_lease status) = false

abbrev pub is_lease_release : Act → Bool
is_lease_release (release_lease status) = true
is_lease_release release_tenant = false
is_lease_release (finalize_failed status code) = false
is_lease_release (record_result status code) = false

abbrev pub is_result : Act → Bool
is_result (record_result status code) = true
is_result release_tenant = false
is_result (finalize_failed status code) = false
is_result (release_lease status) = false

pub none-ne-some : (a : String) → none ≢ some a
none-ne-some a h = cc

module _ (env : Environment) where
  -- the result of a decision could not be written
  abbrev pub IsUnrecorded : Type 0
  IsUnrecorded = (status : ℕ) × (code : FailureCode) × (env.record_preflight status code ≡ false)

  -- Of a stored execution only its end is written, with the status that is answered; otherwise what
  -- was taken is given back, where the audit is not in the way, and where the call for it does not
  -- fail.
  pub record IsCompensated (status : ℕ) (s : Held) : Type 0 where
    pub stored :
        (execution : String)
        → s.persisted_execution ≡ some execution
        → (code : FailureCode) × (s.acts
            ≡ (if env.finalizes status code then finalize_failed status code ∷ [] else []))
          × ((code ≡ provider_failure) ⊎ ((failure_policy code).response_status ≡ status))
    pub budget :
        s.persisted_execution ≡ none
        → s.budgeted_execution ≡ some true
        → env.has_redis ≡ true
        → any is_budget_release s.acts ≡ env.releases_tenant
    pub decision :
        s.persisted_execution ≡ none
        → is_some s.governance_decision_id ≡ true
        → (any is_result s.acts ≡ true) ⊎ ((status ≡ 503) × IsUnrecorded)
    pub lease :
        s.persisted_execution ≡ none
        → is_some s.reserved_idem.key ≡ true
        → is_some s.reserved_idem.lease_token ≡ true
        → env.releases_lease status ≡ true
        → (any is_lease_release s.acts ≡ true) ⊎ ((status ≡ 503) × IsUnrecorded)

  -- the codes are those of their statuses, but for the failures that have none of their own
  unfoldable pub Matches : ℕ → FailureCode → Type 0
  Matches status code = (code ≡ provider_failure) ⊎ ((failure_policy code).response_status ≡ status)

  matched :
      (a : ℕ) (b : FailureCode) {status : ℕ} {code : FailureCode}
      → ◌≡◌ {A = Option (ℕ × FailureCode)} (some (a, b)) (some (status, code))
      → Matches a b
      → Matches status code
  unfolding Matches
  matched a b h (inl e) = inl (cc (e, h))
  matched a b h (inr e) = inr (ground (arith, h, e))

  pub preflight_failure-Matches :
      (e : Raised) {status : ℕ} {code : FailureCode}
      → preflight_failure e ≡ some (status, code)
      → Matches status code
  unfolding preflight_failure Matches failure_policy
  preflight_failure-Matches cancelled_error h = absurd (cc h)
  preflight_failure-Matches generator_exit h = absurd (cc h)
  preflight_failure-Matches budget_exceeded h = matched _ _ h (inr refl)
  preflight_failure-Matches budget_unavailable h = matched _ _ h (inr refl)
  preflight_failure-Matches (persistence_error retry_limit_exceeded) h = matched _ _ h (inr refl)
  preflight_failure-Matches (persistence_error (conflict reason)) h = matched _ _ h (inr refl)
  preflight_failure-Matches (persistence_error unavailable) h = matched _ _ h (inr refl)
  preflight_failure-Matches (persistence_error (Session.value_error reason)) h =
      matched _ _ h (inl refl)
  preflight_failure-Matches database_error h = matched _ _ h (inr refl)
  preflight_failure-Matches context_budget_exceeded h = matched _ _ h (inr refl)
  preflight_failure-Matches (http_exception status_code) h = matched _ _ h (inl refl)
  preflight_failure-Matches (isolated kind) h = matched _ _ h (inl refl)
  preflight_failure-Matches timeout_error h = matched _ _ h (inl refl)
  preflight_failure-Matches eiraos_error h = matched _ _ h (inl refl)
  preflight_failure-Matches other_error h = matched _ _ h (inl refl)

  -- a compensation with that status answered
  abbrev pub IsAnswered : Raised → Held → Type 0
  IsAnswered e t = (status : ℕ) × (e ≡ http_exception status) × IsCompensated status t
