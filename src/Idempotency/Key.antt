-- ===== src/Idempotency/Key.antt =====
-- The tenant context, the request digest, and the key that a call runs under.
use eiraos_chat_backend.Prelude.{ℕ, String, Option, none, some, str_eq, if◌then◌else◌}
use eiraos_chat_backend.Prelude.Text.{strip, nonempty, or_empty}
use eiraos_chat_backend.Prelude.Result.{Result, ok, err}
use eiraos_chat_backend.Idempotency.Record.{Table}
use eiraos_chat_backend.Http.{HttpException, http, Request}

resolve : Option ℕ → Option ℕ → Result HttpException (ℕ × ℕ)
resolve (some org) (some user) = ok (org, user)
resolve _ _ = err (http 401 "Idempotency requires an authenticated tenant context.")

-- `_resolve_context`
unfoldable pub resolve_context : Request → Result HttpException (ℕ × ℕ)
unfolding resolve
resolve_context request = resolve request.organization_id request.user_id

-- `_body_digest`, over the hash of the body
unfoldable pub body_digest : (String → String) → Option String → String
body_digest sha256 none = ""
body_digest sha256 (some raw) = sha256 raw

unfoldable pub choose_key : Option String → Option String → Result HttpException (Option String)
choose_key (some header) (some body) =
    if str_eq header body
    then ok (some header)
    else err (http 400 "Idempotency-Key header and body field mismatch.")
choose_key (some header) none = ok (some header)
choose_key none body = ok body

unfoldable pub resolve_idempotency_key :
    Request → Option String → Result HttpException (Option String)
unfolding choose_key
resolve_idempotency_key request body_key =
    choose_key (nonempty (strip (or_empty request.idempotency_header)))
      (nonempty (strip (or_empty body_key)))

-- The rest of an operation, in the tenant context that the request resolves to.
abbrev pub within :
    {A : Type 0}
    → Result HttpException (ℕ × ℕ)
    → (ℕ → ℕ → Table → Result HttpException A × Table)
    → Table
    → Result HttpException A × Table
within (err e) f t = (err e, t)
within (ok (org, user)) f t = f org user t

abbrev pub returns : {A : Type 0} → A × Table → Result HttpException A × Table
returns (a, t) = (ok a, t)
