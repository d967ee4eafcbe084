-- ===== src/Completion/Complete.antt =====
-- The answer that is not streamed: the `if not payload.stream` branch of the route. The lease, the
-- budget backend, the prices and the verifier are as for a stream.
use eiraos_chat_backend.Prelude.{
  ℕ, String, Option, none, some, Bool, true, false, List, ◌∷◌, not, any, if◌then◌else◌,
}
use eiraos_chat_backend.Prelude.Result.{Result, ok, err, ◌>>=◌ as bind}
use eiraos_chat_backend.Chat.Failure.{
  FailureCode, client_cancelled, idempotency_lost, provider_failure, failure_policy,
}
use eiraos_chat_backend.Chat.Database.{Status, Database}
use eiraos_chat_backend.Chat.Session.{Faults, Commit, conflict, unavailable, retry_limit_exceeded}
use eiraos_chat_backend.Chat.Accounting.{ExecutionCost}
use eiraos_chat_backend.Chat.Finalize.{Ended, finalize}
use eiraos_chat_backend.Completion.Raised.{
  Raised, cancelled_error, generator_exit, isolated, http_exception, persistence_error, other_error,
  failure_code, response_status,
}
use eiraos_chat_backend.Completion.Program.{
  Program, ◌>>=◌, ◌>>◌, give, raise, raise_when, lift, change,
}
use eiraos_chat_backend.Completion.Isolation.{Value, require_text, execute}
use eiraos_chat_backend.Completion.Verify.{Json, VerificationResult, verify_answer}
use eiraos_chat_backend.Completion.Stream.{Verdict}
use eiraos_chat_backend.Completion.Generator.{verification_failure, verdict_of}
use eiraos_chat_backend.Completion.Finalizer.{is_primary, persisted, or_else, oldest_first}

-- `ProviderCompletion`
pub record ProviderCompletion : Type 0 where
  pub text : Value
  pub usage : Option ℕ

-- The response is the text that is shown and its verdict.
pub record Response : Type 0 where
  pub content : String
  pub verdict : Verdict

pub record Answering : Type 0 where
  pub accounting : List ExecutionCost
  pub requests : List Ended
  pub db : Database

-- A value of Python's that the route reads a `text` from: only a completion has one.
pub data Returned : Type 0 where
  a_completion : ProviderCompletion → Returned
  a_text : String → Returned

unfoldable pub text_of : Returned → Result Raised (Value × Option ℕ)
text_of (a_completion c) = ok (c.text, c.usage)
text_of (a_text s) = err other_error

-- Two finalizations are possible, each with its faults and its commit: of the answer, and of a
-- failure.
pub record Environment : Type 0 where
  pub execution_id : String
  pub lease_token : Option String
  pub complete_primary : Result Raised ProviderCompletion
  pub verify : Bool
  pub is_tenant_budget : Bool
  pub account_primary : String → Result Raised ExecutionCost
  pub account_reported : ℕ → Result Raised ExecutionCost
  pub account_verification : String → Result Raised ExecutionCost
  pub settle : ℕ → Result Raised (Unit {0})
  pub verifier : String → Result Raised String
  pub loads : String → Json
  pub encode : String → Verdict → String
  pub is_lease_lost : Bool
  pub is_lease_lost_late : Bool
  pub faults : Faults
  pub commit : Commit
  pub now : ℕ
  pub failure_faults : Faults
  pub failure_commit : Commit
  pub failure_now : ℕ

abbrev pub Answer : Type 0 → Type 0
Answer A = Program Answering A

abbrev pub account : ExecutionCost → Answer (Unit {0})
account entry = change (λ (s : Answering). record s { accounting = entry ∷ s.accounting })

abbrev pub no_verdict : Verdict
no_verdict = record { verified = false; status = none; reason = none }

abbrev pub terminal_of : FailureCode → Status
terminal_of client_cancelled = Status.cancelled
terminal_of _ = Status.failed

module _ (env : Environment) where
  abbrev pub settled : ℕ → Answer (Unit {0})
  settled tokens = do
    entry ← lift (env.account_reported tokens)
    account entry
    lift (env.settle tokens)

  -- the accounting of the primary answer
  abbrev pub account_usage : String → Option ℕ → Answer (Unit {0})
  account_usage primary none = lift (env.account_primary primary) >>= account
  account_usage primary (some tokens) = if env.is_tenant_budget then settled tokens else give tt

  abbrev pub account_verifier : Option String → Result Raised ExecutionCost → Answer Bool
  account_verifier none r s = (ok true, s)
  account_verifier (some output) (ok entry) s =
      (ok true, record s { accounting = entry ∷ s.accounting })
  account_verifier (some output) (err cancelled_error) s = (err cancelled_error, s)
  account_verifier (some output) (err generator_exit) s = (err generator_exit, s)
  account_verifier (some output) (err e) s = (ok false, s)

  abbrev pub or_failure : String → VerificationResult → Bool → VerificationResult
  or_failure primary result true = result
  or_failure primary result false = verification_failure primary

  abbrev pub attempted : String → Result Raised VerificationResult → Answer VerificationResult
  attempted primary (ok result) = do
    is_accounted ←
        account_verifier result.provider_output
          (env.account_verification (or_else result.provider_output ""))
    give (or_failure primary result is_accounted)
  attempted primary (err cancelled_error) = raise cancelled_error
  attempted primary (err generator_exit) = raise generator_exit
  attempted primary (err e) = give (verification_failure primary)

  -- the `if payload.verify` block
  abbrev pub verified : Bool → String → Answer Response
  verified false primary = give (record { content = primary; verdict = no_verdict })
  verified true primary = do
    result ←
        attempted primary
          (execute (verify_answer env.loads primary (env.verifier primary)) (λ result. ok result))
    give (record { content = result.answer; verdict = verdict_of result })

  abbrev pub completion : Response → Answering → Ended
  completion r s = record {
    execution_id = env.execution_id;
    terminal_status = Status.completed;
    content = r.content;
    response_status = 200;
    response_reference = env.encode r.content r.verdict;
    lease_token = env.lease_token;
    failure_code = none;
    accounting = oldest_first s.accounting;
  }

  abbrev pub persist : Faults → Commit → ℕ → Ended → Answer Bool
  persist faults commit now x s =
      let (answer, db) = finalize faults commit now x s.db in
      (persisted answer, record s { db = db; requests = x ∷ s.requests })

  -- what follows on the text of the primary answer
  unfoldable pub answer_with : Value × Option ℕ → Answer Response
  answer_with (value, usage) = do
    primary ← lift (require_text value)
    account_usage primary usage
    raise_when env.is_lease_lost (http_exception 409)
    response ← verified env.verify primary
    raise_when env.is_lease_lost_late (http_exception 409)
    finalized ← λ (s : Answering). persist env.faults env.commit env.now (completion response s) s
    raise_when (not finalized) (http_exception 409)
    give response

  -- `lambda result: require_text(result.text)`: the validated value is the text itself
  abbrev pub validate : ProviderCompletion → Result Raised Returned
  validate c = bind (require_text c.text) (λ s. ok (a_text s))

  -- the `try` block; `execute` returns what the validation returns, and the route then reads the
  -- `text` of that
  unfoldable pub answer_body : Answer Response
  unfolding answer_with text_of
  answer_body = do
    completed ← lift (execute env.complete_primary validate)
    texts ← lift (text_of completed)
    answer_with texts

  abbrev pub failure : FailureCode → Answering → Ended
  failure code s = record {
    execution_id = env.execution_id;
    terminal_status = terminal_of code;
    content = "";
    response_status = (failure_policy code).response_status;
    response_reference = "failed";
    lease_token = env.lease_token;
    failure_code = some code;
    accounting = oldest_first s.accounting;
  }

  abbrev pub account_failure : Answer (Unit {0})
  account_failure s =
      if any is_primary s.accounting
      then (ok tt, s)
      else (lift (env.account_primary "") >>= account) s

  unfoldable pub finalize_failure : FailureCode → Answer Bool
  finalize_failure code = do
    account_failure
    λ (s : Answering).
        persist env.failure_faults env.failure_commit env.failure_now (failure code s) s

  -- `except PersistenceConflict: pass`, and what an unavailable store becomes
  abbrev pub passing : Raised → Result Raised Bool → Answer Response → Answer Response
  passing unavailable_as (ok finalized) next = next
  passing unavailable_as (err (persistence_error (conflict reason))) next = next
  passing unavailable_as (err (persistence_error retry_limit_exceeded)) next = next
  passing unavailable_as (err (persistence_error unavailable)) next = raise unavailable_as
  passing unavailable_as (err e) next = raise e

  abbrev pub fail_with : Raised → FailureCode → Raised → Answer Response
  fail_with unavailable_as code e s =
      let (answer, s') = finalize_failure code s in passing unavailable_as answer (raise e) s'

  -- the `except` clauses
  abbrev pub handled : Result Raised Response × Answering → Result Raised Response × Answering
  handled (ok response, s) = (ok response, s)
  handled (err (isolated kind), s) =
      fail_with (http_exception 503) (failure_code kind) (http_exception (response_status kind)) s
  handled (err cancelled_error, s) = fail_with cancelled_error client_cancelled cancelled_error s
  handled (err generator_exit, s) = (err generator_exit, s)
  handled (err (http_exception status), s) =
      fail_with (http_exception status) idempotency_lost (http_exception status) s
  handled (err (persistence_error unavailable), s) = (err (http_exception 503), s)
  handled (err e, s) = fail_with (http_exception 503) provider_failure (http_exception 502) s

  unfoldable pub answer_once : Answer Response
  unfolding answer_body
  answer_once s = handled (answer_body s)
