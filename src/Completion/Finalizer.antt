-- ===== src/Completion/Finalizer.antt =====
-- The terminal transition of a stream: `apply_terminal`, the `StreamFinalizer` of
-- src/eiraos/application/streaming_lifecycle.py, and the settlement of the usage.
use eiraos_chat_backend.Prelude.{
  ℕ, String, Option, none, some, Bool, true, false, List, [], ◌∷◌, ◌++◌, str_eq, any, if◌then◌else◌,
}
use eiraos_chat_backend.Prelude.Result.{Result, ok, err}
use eiraos_chat_backend.Chat.Failure.{failure_policy}
use eiraos_chat_backend.Chat.Database.{Status}
use eiraos_chat_backend.Chat.Session.{PersistenceError}
use eiraos_chat_backend.Chat.Accounting.{ExecutionCost}
use eiraos_chat_backend.Chat.Finalize.{Ended, finalize}
use eiraos_chat_backend.Completion.Raised.{Raised, persistence_error, other_error}
use eiraos_chat_backend.Completion.Program.{◌>>=◌, ◌>>◌, give, raise, lift, change}
use eiraos_chat_backend.Completion.Stream.{
  StreamTerminal, completed, failed, cancelled, Streaming, Environment, Generator,
}

abbrev pub status_of : StreamTerminal → Status
status_of completed = Status.completed
status_of failed = Status.failed
status_of cancelled = Status.cancelled

abbrev pub is_primary : ExecutionCost → Bool
is_primary entry = str_eq entry.operation "primary"

abbrev pub or_else : Option String → String → String
or_else none content = content
or_else (some primary) content = primary

abbrev pub persisted : {A : Type 0} → Result PersistenceError A → Result Raised A
persisted (ok a) = ok a
persisted (err e) = err (persistence_error e)

abbrev pub account : ExecutionCost → Generator (Unit {0})
account entry = change (λ (s : Streaming). record s { accounting = entry ∷ s.accounting })

-- the store wants the oldest entry first
abbrev pub oldest_first : List ExecutionCost → List ExecutionCost
oldest_first [] = []
oldest_first (entry ∷ entries) = oldest_first entries ++ entry ∷ []

module _ (env : Environment) where
  -- the primary answer is accounted for once
  abbrev pub account_primary : String → Generator (Unit {0})
  account_primary content s =
      if any is_primary s.accounting
      then (ok tt, s)
      else (lift (env.account_primary (or_else s.primary_content content)) >>= account) s

  -- the arguments of `persistence.finalize`
  abbrev pub completion : String → Streaming → Ended
  completion content s = record {
    execution_id = env.execution_id;
    terminal_status = Status.completed;
    content = content;
    response_status = 200;
    response_reference = env.encode content s.verdict;
    lease_token = env.lease_token;
    failure_code = none;
    accounting = oldest_first s.accounting;
  }

  abbrev pub failure : StreamTerminal → String → Streaming → Ended
  failure terminal content s = record {
    execution_id = env.execution_id;
    terminal_status = status_of terminal;
    content = content;
    response_status = (failure_policy s.stream_failure_code).response_status;
    response_reference = "failed";
    lease_token = env.lease_token;
    failure_code = some s.stream_failure_code;
    accounting = oldest_first s.accounting;
  }

  -- `persistence.finalize` on the tables
  unfoldable pub persist : Ended → Generator Bool
  persist x s =
      let (answer, db) = finalize env.faults env.commit env.now x s.db in
      (persisted answer, record s { db = db; requests = x ∷ s.requests })

  abbrev pub ended_with : StreamTerminal → String → Streaming → Ended
  ended_with completed content s = completion content s
  ended_with failed content s = failure failed content s
  ended_with cancelled content s = failure cancelled content s

  abbrev pub must_be_new : StreamTerminal → Bool → Generator (Unit {0})
  must_be_new completed true = give tt
  must_be_new completed false = raise other_error
  must_be_new failed finalized = give tt
  must_be_new cancelled finalized = give tt

  unfoldable pub apply_terminal : StreamTerminal → String → Generator (Unit {0})
  unfolding persist
  apply_terminal terminal content = do
    account_primary content
    finalized ← λ s. persist (ended_with terminal content s) s
    must_be_new terminal finalized

  abbrev pub finalize_new : Option StreamTerminal → StreamTerminal → String → Generator Bool
  finalize_new (some before) terminal content = give false
  finalize_new none terminal content = do
    change (λ (s : Streaming). record s { terminal = some terminal })
    apply_terminal terminal content
    give true

  -- `StreamFinalizer.finalize`: the terminal state is claimed before it is applied
  unfoldable pub finalize_stream : StreamTerminal → String → Generator Bool
  finalize_stream terminal content s = finalize_new s.terminal terminal content s

  abbrev pub settled : ℕ → Generator (Unit {0})
  settled tokens = do
    entry ← lift (env.account_reported tokens)
    account entry
    lift (env.settle tokens)

  -- `settle_primary_usage`
  unfoldable pub settle_primary_usage : Option ℕ → Generator (Unit {0})
  settle_primary_usage none = give tt
  settle_primary_usage (some tokens) = if env.is_tenant_budget then settled tokens else give tt
