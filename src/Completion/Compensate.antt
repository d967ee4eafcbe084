-- ===== src/Completion/Compensate.antt =====
-- What is left when the preflight ends.
use eiraos_chat_backend.Prelude.{◌≡◌, []}
use eiraos_chat_backend.Prelude.Result.{Result, ok, err}
use eiraos_chat_backend.Completion.Raised.{Raised, cancelled_error, generator_exit, http_exception}
use eiraos_chat_backend.Completion.Preflight.{Held, Environment}
use eiraos_chat_backend.Completion.Prepare.{Prepared}
use eiraos_chat_backend.Completion.Compensated.{IsCompensated}
use eiraos_chat_backend.Completion.Ordered.{IsPrepared}

module _ (env : Environment) where
  -- How the preflight ends: prepared; cancelled, with nothing undone; or with a status that is
  -- answered, and everything compensated.
  abbrev pub IsPreflight : Result Raised Prepared × Held → Type 0
  IsPreflight (ok prepared, s) = IsPrepared env prepared s
  IsPreflight (err cancelled_error, s) = s.acts ≡ []
  IsPreflight (err generator_exit, s) = s.acts ≡ []
  IsPreflight (err (http_exception status), s) = IsCompensated env status s
  IsPreflight (err e, s) = ⊥
