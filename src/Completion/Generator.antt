-- ===== src/Completion/Generator.antt =====
-- `event_generator`: the frames of one stream.
use Prim.Native.String.{◌++◌ as join}
use eiraos_chat_backend.Prelude.{
  String, Option, none, some, Bool, true, false, List, [], ◌∷◌, ◌&&◌, not, if◌then◌else◌,
}
use eiraos_chat_backend.Prelude.Result.{Result, ok, err}
use eiraos_chat_backend.Chat.Failure.{
  FailureCode, client_cancelled, idempotency_lost, provider_timeout, provider_failure,
}
use eiraos_chat_backend.Chat.Database.{Database}
use eiraos_chat_backend.Chat.Recover.{mark_streaming}
use eiraos_chat_backend.Completion.Raised.{
  Raised, cancelled_error, generator_exit, isolated, other_error, failure_code,
}
use eiraos_chat_backend.Completion.Isolation.{ProviderEvent, execute}
use eiraos_chat_backend.Completion.Pump.{
  StreamEvent, chunk, heartbeat, end, disconnected, lease_lost, timed_out, Wait, next_event, aclose,
  new_pump,
}
use eiraos_chat_backend.Completion.Verify.{
  verification_failed_badge, VerificationResult, verify_answer,
}
use eiraos_chat_backend.Completion.Program.{◌>>=◌, ◌>>◌, give, raise, raise_when, lift, change}
use eiraos_chat_backend.Completion.Finalizer.{
  account, persisted, finalize_stream, settle_primary_usage,
}
use eiraos_chat_backend.Completion.Stream.{
  StreamTerminal, completed, failed, cancelled, Verdict, start_frame, token, keep_alive,
  verification_frame, done_frame, error_frame, Streaming, Glance, Environment, Generator,
  yield_frame,
}

abbrev pub set_code : FailureCode → Generator (Unit {0})
set_code code = change (λ (s : Streaming). record s { stream_failure_code = code })

-- `_verification_failure`
abbrev pub verification_failure : String → VerificationResult
verification_failure answer = record {
  status = "UNCERTAIN";
  reason = "Verifikationskontrollen kunne ikke gennemføres.";
  answer = join answer verification_failed_badge;
  verified = false;
  provider_output = none;
}

abbrev pub verification_or_failure :
    String → Result Raised VerificationResult → Result Raised VerificationResult
verification_or_failure answer (ok result) = ok result
verification_or_failure answer (err cancelled_error) = err cancelled_error
verification_or_failure answer (err generator_exit) = err generator_exit
verification_or_failure answer (err e) = ok (verification_failure answer)

abbrev pub verdict_of : VerificationResult → Verdict
verdict_of result = record {
  verified = result.verified;
  status = some result.status;
  reason = some result.reason;
}

module _ (env : Environment) where
  -- one event; `true` ends the loop
  abbrev pub handle : StreamEvent → Generator Bool
  handle (chunk content) = do
    change (λ (s : Streaming). record s { accumulated = join s.accumulated content })
    yield_frame env (token content)
    give false
  handle heartbeat = do yield_frame env keep_alive; give false
  handle end = give true
  handle disconnected = do set_code client_cancelled; raise cancelled_error
  handle lease_lost = do set_code idempotency_lost; raise other_error
  handle timed_out = do set_code provider_timeout; raise other_error

  abbrev pub pump_event : Wait → Generator StreamEvent
  pump_event w s =
      let (event, pump) = next_event env.settings s.pump w in (event, record s { pump = pump })

  -- the loop over the waits that the event loop grants; when it grants no more, it cancels the task
  unfoldable pub read_stream : List Wait → Generator (Unit {0})
  read_stream [] = raise cancelled_error
  read_stream (w ∷ ws) = do
    event ← pump_event w
    is_over ← handle event
    elim is_over [ true ↦ give tt | false ↦ read_stream ws ]

  -- the keep-alives while the verification runs
  unfoldable pub await_verification : List Glance → Generator (Unit {0})
  await_verification [] = give tt
  await_verification (g ∷ gs) = do
    raise_when g.is_disconnected cancelled_error
    raise_when (env.settings.has_lease && g.is_lease_lost) other_error
    yield_frame env keep_alive
    await_verification gs

  -- `run_verification`: no exception leaves it; a cancellation does
  abbrev pub run_verification : String → Result Raised VerificationResult
  run_verification answer =
      verification_or_failure answer
        (execute (verify_answer env.loads answer (env.verifier answer)) (λ result. ok result))

  abbrev pub account_verification : String → Option String → Generator (Unit {0})
  account_verification answer none = give tt
  account_verification answer (some output) =
      if env.verifier_found then lift (env.account_verification output) >>= account else give tt

  abbrev pub take_result : VerificationResult → Generator (Unit {0})
  take_result result = do
    λ (s : Streaming). account_verification s.accumulated result.provider_output s
    change
        (λ (s : Streaming). record s { accumulated = result.answer; verdict = verdict_of result })
    yield_frame env (verification_frame (verdict_of result))

  abbrev pub verified_if : Bool → Generator (Unit {0})
  verified_if false = give tt
  verified_if true = do
    await_verification env.glances
    result ← λ (s : Streaming). lift (run_verification s.accumulated) s
    take_result result

  -- `mark_streaming` on the tables
  unfoldable pub mark : Generator Bool
  mark s =
      let (answer, db) =
        mark_streaming env.marking_faults env.marking_commit env.execution_id s.db in
      (persisted answer, record s { db = db })

  -- the text is whole
  abbrev pub close_pump : Generator (Unit {0})
  close_pump =
      change
        (λ (s : Streaming). record s { pump = aclose s.pump; primary_content = some s.accumulated })

  abbrev pub say_done : Generator (Unit {0})
  say_done s = yield_frame env (done_frame s.accumulated s.verdict) s

  -- the `try` block
  unfoldable pub before_end : Generator (Unit {0})
  before_end = do
    marked ← mark
    raise_when (not marked) other_error
    yield_frame env start_frame
    read_stream env.waits
    close_pump
    λ (s : Streaming). settle_primary_usage env s.pump.source.usage s
    verified_if env.verify
    raise_when (env.settings.has_lease && env.is_lease_lost) other_error

  unfoldable pub body : Generator (Unit {0})
  body = do
    before_end
    fresh ← λ (s : Streaming). finalize_stream env completed s.accumulated s
    say_done

  -- `try: finalize … except Exception: pass`
  abbrev pub swallow :
      {A : Type 0}
      → Result Raised A × Streaming
      → (Unit {0} → Generator (Unit {0}))
      → Result Raised (Unit {0}) × Streaming
  swallow (ok a, s) k = k tt s
  swallow (err cancelled_error, s) k = (err cancelled_error, s)
  swallow (err generator_exit, s) k = (err generator_exit, s)
  swallow (err e, s) k = k tt s

  abbrev pub end_as : StreamTerminal → Generator (Unit {0}) → Generator (Unit {0})
  end_as terminal next s = swallow (finalize_stream env terminal s.accumulated s) (λ _. next)

  -- the `except` clauses
  abbrev pub handled : Result Raised (Unit {0}) × Streaming → Result Raised (Unit {0}) × Streaming
  handled (ok done, s) = (ok done, s)
  handled (err generator_exit, s) = (err generator_exit, s)
  handled (err cancelled_error, s) =
      (set_code client_cancelled >> end_as cancelled (raise cancelled_error)) s
  handled (err (isolated kind), s) =
      (set_code (failure_code kind) >> end_as failed (yield_frame env error_frame)) s
  handled (err e, s) = end_as failed (yield_frame env error_frame) s

  unfoldable pub event_generator : Generator (Unit {0})
  unfolding body
  event_generator s = handled (body s)

-- the variables of the generator at its start
abbrev pub fresh_stream : List ProviderEvent → Database → Streaming
fresh_stream events db = record {
  frames = [];
  accumulated = "";
  verdict = record { verified = false; status = none; reason = none };
  stream_failure_code = provider_failure;
  primary_content = none;
  accounting = [];
  terminal = none;
  requests = [];
  pump = new_pump events;
  db = db;
}
