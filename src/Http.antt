-- ===== src/Http.antt =====
-- FastAPI's `HTTPException`, which the services raise, and the request state that the
-- authentication and body-caching middleware leave for them.
use eiraos_chat_backend.Prelude.{ℕ, String, Option}

pub record HttpException : Type 0 where
  pub status_code : ℕ
  pub detail : String

abbrev pub http : ℕ → String → HttpException
http code detail = record { status_code = code; detail = detail }

-- `request.state` and the one header that is read
pub record Request : Type 0 where
  pub organization_id : Option ℕ
  pub user_id : Option ℕ
  pub cached_body : Option String
  pub idempotency_header : Option String
