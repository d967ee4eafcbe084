-- ===== src/Chat/Failure.antt =====
-- The failure codes and the policy of each (src/eiraos/application/chat_recovery.py).
use eiraos_chat_backend.Prelude.{ℕ, Bool, true, false}

pub data FailureCode : Type 0 where
  provider_timeout provider_failure database_failure idempotency_lost : FailureCode
  budget_rejected idempotency_conflict client_cancelled process_crash : FailureCode
  retry_exhausted context_rejected : FailureCode

pub record FailurePolicy : Type 0 where
  pub response_status : ℕ
  pub retryable : Bool

abbrev policy : ℕ → Bool → FailurePolicy
policy response_status retryable = record {
  response_status = response_status;
  retryable = retryable;
}

unfoldable pub failure_policy : FailureCode → FailurePolicy
failure_policy provider_timeout = policy 504 true
failure_policy provider_failure = policy 502 true
failure_policy database_failure = policy 503 true
failure_policy idempotency_lost = policy 409 true
failure_policy budget_rejected = policy 429 false
failure_policy idempotency_conflict = policy 409 false
failure_policy client_cancelled = policy 499 true
failure_policy process_crash = policy 500 true
failure_policy retry_exhausted = policy 409 false
failure_policy context_rejected = policy 422 false
