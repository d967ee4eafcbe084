-- ===== src/Completion/Refused.antt =====
-- How the answer that is not streamed ends.
use eiraos_chat_backend.Prelude.{
  ◌≤◌, ◌≡◌, refl, Bool, false, [], Bool-cases, inl, inr, arith, length, All, any,
}
use eiraos_chat_backend.Prelude.Result.{Result, ok, err, Result-cases}
use eiraos_chat_backend.Chat.Failure.{FailureCode, client_cancelled}
use eiraos_chat_backend.Chat.Database.{is_completed}
use eiraos_chat_backend.Chat.Session.{conflict, unavailable}
use eiraos_chat_backend.Chat.Finalize.{Ended}
use eiraos_chat_backend.Completion.Raised.{
  Raised, cancelled_error, generator_exit, isolated, http_exception, persistence_error, other_error,
}
use eiraos_chat_backend.Completion.Program.{raise}
use eiraos_chat_backend.Completion.Isolation.{require_text, isolate, execute}
use eiraos_chat_backend.Completion.Finalizer.{is_primary}
use eiraos_chat_backend.Completion.Complete.{
  Response, Answering, Environment, text_of, answer_body, terminal_of, finalize_failure, passing,
  fail_with, handled, answer_once,
}

module _ (env : Environment) where
  -- a request to the store that completes nothing
  abbrev pub IsFailure : Ended → Type 0
  IsFailure x = is_completed x.terminal_status ≡ false

  abbrev pub IsRefused : Result Raised Response × Answering → Type 0
  IsRefused (ok response, s) = ⊥
  IsRefused (err e, s) = (length s.requests ≤ 1) × All IsFailure s.requests

  -- the body always raises, on an untouched state
  answer_body_lem : (s : Answering) → (e : Raised) × (answer_body env s ≡ (err e, s))
  unfolding answer_body execute text_of
  answer_body_lem s = elim (Result-cases env.complete_primary) [
    | inl (e, bad) ↦ (isolate e, rw bad)
    | inr (c, good) ↦ elim (Result-cases (require_text c.text)) [
      | inl (e, bad) ↦ (isolate e, rw (good, bad))
      | inr (t, valid) ↦ (other_error, rw (good, valid))
    ]
  ]

  not_completed : (code : FailureCode) → is_completed (terminal_of code) ≡ false
  not_completed client_cancelled = refl
  not_completed code = refl

  abbrev HasFailures : Answering → Type 0
  HasFailures s = (length s.requests ≤ 1) × All IsFailure s.requests

  HasFailures-finalize_failure :
      (code : FailureCode) (s : Answering)
      → s.requests ≡ []
      → HasFailures (finalize_failure env code s).1
  unfolding finalize_failure
  HasFailures-finalize_failure code s fresh = elim (Bool-cases (any is_primary s.accounting)) [
    | inl priced ↦ rw (priced, fresh) (omega arith, (not_completed code, tt))
    | inr open_ ↦ elim (Result-cases (env.account_primary "")) [
      | inl (e, bad) ↦ rw (open_, bad, fresh) (omega arith, tt)
      | inr (entry, good) ↦ rw (open_, good, fresh) (omega arith, (not_completed code, tt))
    ]
  ]

  Refused-passing :
      (instead : Raised) (r : Result Raised Bool) (e : Raised) (s : Answering)
      → HasFailures s
      → IsRefused (passing env instead r (raise e) s)
  Refused-passing instead (ok finalized) e s h = h
  Refused-passing instead (err (persistence_error (conflict reason))) e s h = h
  Refused-passing instead (err raised) e s h = h

  Refused-fail_with :
      (instead : Raised) (code : FailureCode) (e : Raised) (s : Answering)
      → s.requests ≡ []
      → IsRefused (fail_with env instead code e s)
  Refused-fail_with instead code e s fresh =
      Refused-passing instead (finalize_failure env code s).0 e (finalize_failure env code s).1
        (HasFailures-finalize_failure code s fresh)

  Refused-handled :
      (e : Raised) (s : Answering) → s.requests ≡ [] → IsRefused (handled env (err e, s))
  Refused-handled (isolated kind) s fresh = Refused-fail_with _ _ _ s fresh
  Refused-handled cancelled_error s fresh = Refused-fail_with _ _ _ s fresh
  Refused-handled generator_exit s fresh = rw fresh (omega arith, tt)
  Refused-handled (http_exception status) s fresh = Refused-fail_with _ _ _ s fresh
  Refused-handled (persistence_error unavailable) s fresh = rw fresh (omega arith, tt)
  Refused-handled e s fresh = Refused-fail_with _ _ _ s fresh

  -- Whatever the provider answers, a completion that is not streamed ends with an exception and never
  -- with a response: `execute` returns the text that the validation returns, and the route then reads
  -- the `text` of that text. The store is asked at most once, and never to complete the execution.
  pub answer_once-IsRefused : (s : Answering) → s.requests ≡ [] → IsRefused (answer_once env s)
  unfolding answer_once
  answer_once-IsRefused s fresh =
      let (e, raised) = answer_body_lem s in rw raised (Refused-handled e s fresh)
