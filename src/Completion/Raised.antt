-- ===== src/Completion/Raised.antt =====
-- The exceptions that the route tells apart. `cancelled_error` and `generator_exit` are no
-- `Exception` of Python's; texts are left out.
use eiraos_chat_backend.Prelude.{ℕ}
use eiraos_chat_backend.Chat.Failure.{FailureCode, provider_timeout, provider_failure}
use eiraos_chat_backend.Chat.Session.{PersistenceError}

pub data ProviderFailureKind : Type 0 where
  timeout upstream invalid_response internal : ProviderFailureKind

-- `IsolatedProviderFailure`
unfoldable pub failure_code : ProviderFailureKind → FailureCode
failure_code timeout = provider_timeout
failure_code upstream = provider_failure
failure_code invalid_response = provider_failure
failure_code internal = provider_failure

unfoldable pub response_status : ProviderFailureKind → ℕ
response_status timeout = 504
response_status upstream = 502
response_status invalid_response = 502
response_status internal = 502

pub data Raised : Type 0 where
  cancelled_error generator_exit : Raised
  isolated : ProviderFailureKind → Raised
  timeout_error eiraos_error : Raised
  http_exception : ℕ → Raised
  persistence_error : PersistenceError → Raised
  budget_exceeded budget_unavailable context_budget_exceeded database_error : Raised
  other_error : Raised
