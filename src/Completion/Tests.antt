-- ===== src/Completion/Tests.antt =====
-- Small runs: a stream of two tokens, a silent provider, a provider that times out, and a request that
-- asks for no stream.
use eiraos_chat_backend.Prelude.{ℕ, ◌≡◌, refl, none, some, true, false, List, [], ◌∷◌}
use eiraos_chat_backend.Prelude.Result.{ok, err}
use eiraos_chat_backend.Prelude.Text.{one_of}
use eiraos_chat_backend.Prelude.Rows.{select, select_all, update, update_all}
use eiraos_chat_backend.Chat.Database.{Status, ChatExecution, Message, Database}
use eiraos_chat_backend.Chat.Session.{Faults, done, locked_execution, assistant, end_transaction}
use eiraos_chat_backend.Chat.Accounting.{ExecutionCost, record_accounting, is_accounting_of}
use eiraos_chat_backend.Chat.Finalize.{
  ended, is_open_for, finished, assert_owned, close, finalization, finalize,
}
use eiraos_chat_backend.Chat.Recover.{marking, mark_streaming}
use eiraos_chat_backend.Completion.Raised.{timeout_error}
use eiraos_chat_backend.Completion.Isolation.{
  text, require_text, execute, ProviderEvent, yields, reports, says_nothing, next_chunk, Isolates,
  execute-Isolates,
}
use eiraos_chat_backend.Completion.Pump.{Settings, Wait, next_event, aclose}
use eiraos_chat_backend.Completion.Verify.{invalid}
use eiraos_chat_backend.Completion.Stream
use eiraos_chat_backend.Completion.Stream.{token, start_frame, done_frame, Streaming, yield_frame}
use eiraos_chat_backend.Completion.Generator.{
  fresh_stream, read_stream, mark, before_end, body, event_generator,
}
use eiraos_chat_backend.Completion.Finalizer.{
  persist, apply_terminal, finalize_stream, settle_primary_usage,
}
use eiraos_chat_backend.Pricing.Catalog.{ProviderModelMetadata, metadata, offers}
use eiraos_chat_backend.Completion.Complete
use eiraos_chat_backend.Completion.Complete.{Answering, answer_once}
use eiraos_chat_backend.Completion.Refused.{IsRefused, answer_once-IsRefused}

abbrev healthy : Faults
healthy point = false

abbrev price : ExecutionCost
price = record {
  provider = "openai";
  model = "gpt-4o";
  operation = "primary";
  input_tokens = 3;
  output_tokens = 2;
  total_tokens = 5;
  cost = 40;
  usage_source = "estimated";
  pricing_revision = "r1";
}

abbrev running : ChatExecution
running = record {
  id = 1;
  execution_id = "run";
  request_id = "req";
  conversation_id = 3;
  organization_id = 7;
  user_id = 12;
  bot_id = 4;
  bot_organization_id = 7;
  idempotency_record_id = none;
  user_message_id = some 1;
  assistant_message_id = some 2;
  provider = "openai";
  model = "gpt-4o";
  status = Status.prepared;
  attempt_count = 1;
  max_attempts = 3;
  last_failure_code = none;
  failure_retryable = false;
  partial_response = false;
  recovered_at = none;
  governance_audit_required = false;
  completed_at = none;
}

abbrev reply : Message
reply = record {
  id = 2;
  conversation_id = 3;
  organization_id = 7;
  execution_id = some "run";
  role = "assistant";
  content = "";
  bot_id = some 4;
  status = Status.pending;
  ai_marked = true;
}

abbrev tables : Database
tables = record {
  executions = running ∷ [];
  messages = reply ∷ [];
  usages = [];
  decisions = [];
  idempotency = [];
  next_execution = 2;
  next_message = 3;
  next_usage = 1;
}

abbrev settings : Settings
settings = record { has_lease = false; heartbeat_seconds = 15; chunk_timeout_seconds = 30 }

abbrev wait : ℕ → ℕ → Wait
wait started woken = record {
  started = started;
  disconnect_done = false;
  lease_done = false;
  chunk_done = false;
  woken = woken;
}

abbrev chunk_at : ℕ → Wait
chunk_at time = record (wait time time) { chunk_done = true }

abbrev events : List ProviderEvent
events = yields (text "Hej") ∷ yields (text "") ∷ says_nothing ∷ yields (text "!") ∷ reports 5 ∷ []

abbrev streamed : Stream.Environment
streamed = record {
  execution_id = "run";
  lease_token = none;
  settings = settings;
  verify = false;
  is_tenant_budget = false;
  account_primary = λ content. ok price;
  account_reported = λ tokens. ok price;
  account_verification = λ output. ok price;
  settle = λ tokens. ok tt;
  verifier_found = false;
  verifier = λ answer. err timeout_error;
  loads = λ raw. invalid;
  encode = λ content verdict. content;
  takes = λ frames. true;
  waits = wait 0 15 ∷ chunk_at 20 ∷ chunk_at 21 ∷ chunk_at 22 ∷ [];
  glances = [];
  is_lease_lost = false;
  marking_faults = healthy;
  marking_commit = done;
  faults = healthy;
  commit = done;
  now = 100;
}

-- the newest frame announces the text of the tokens
two_tokens :
    (event_generator streamed (fresh_stream events tables)).1.frames
    ≡ done_frame "Hej!" (record { verified = false; status = none; reason = none })
      ∷ token "!"
      ∷ token "Hej"
      ∷ Stream.keep_alive
      ∷ start_frame
      ∷ []
unfolding event_generator body before_end mark mark_streaming marking read_stream next_event
    next_chunk yield_frame aclose settle_primary_usage finalize_stream apply_terminal persist
    finalize finalization close locked_execution assistant assert_owned finished ended is_open_for
    record_accounting is_accounting_of end_transaction select select_all update update_all one_of
two_tokens = refl

abbrev mini : ProviderModelMetadata
mini = metadata "openai" "gpt-4o-mini" 128_000 1_500_000_000 6_000_000_000 (offers true)

-- A client that leaves while the first frame is sent leaves the execution as streaming.
abbrev leaving : Stream.Environment
leaving = record streamed { takes = λ frames. false }

never_ended :
    (event_generator leaving (fresh_stream events tables)).1 ≡ record (fresh_stream events tables) {
      frames = start_frame ∷ [];
      db = record tables {
        executions = record running { status = Status.streaming } ∷ [];
        messages = record reply { status = Status.streaming } ∷ [];
      };
    }
unfolding event_generator body before_end mark mark_streaming marking yield_frame locked_execution
    assistant end_transaction select update update_all one_of
never_ended = refl

execute-Isolates_example :
    Isolates (err timeout_error) require_text (execute (err timeout_error) require_text)
execute-Isolates_example = execute-Isolates (err timeout_error) require_text

abbrev asked : Complete.Environment
asked = record {
  execution_id = "run";
  lease_token = none;
  complete_primary = ok (record { text = text "Hej!"; usage = none });
  verify = false;
  is_tenant_budget = false;
  account_primary = λ content. ok price;
  account_reported = λ tokens. ok price;
  account_verification = λ output. ok price;
  settle = λ tokens. ok tt;
  verifier = λ answer. err timeout_error;
  loads = λ raw. invalid;
  encode = λ content verdict. content;
  is_lease_lost = false;
  is_lease_lost_late = false;
  faults = healthy;
  commit = done;
  now = 100;
  failure_faults = healthy;
  failure_commit = done;
  failure_now = 100;
}

abbrev start : Answering
start = record { accounting = []; requests = []; db = tables }

answer_once-IsRefused_example : IsRefused asked (answer_once asked start)
answer_once-IsRefused_example = answer_once-IsRefused asked start refl
