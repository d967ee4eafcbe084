-- ===== src/Completion/Asked.antt =====
-- The stream with the accountant of src/eiraos/application/cost_accounting.py: how often it asks the
-- store.
use eiraos_chat_backend.Prelude.{◌≤◌, ◌≡◌, String, Option, List, length}
use eiraos_chat_backend.Prelude.Result.{Result, ok, err}
use eiraos_chat_backend.Chat.Accounting.{ExecutionCost}
use eiraos_chat_backend.Chat.Database.{Database}
use eiraos_chat_backend.Context.History.{ContextMessage}
use eiraos_chat_backend.Pricing.Catalog.{model_capability_catalog}
use eiraos_chat_backend.Pricing.Account.{CostError, account}
use eiraos_chat_backend.Completion.Raised.{Raised, cancelled_error, generator_exit, other_error}
use eiraos_chat_backend.Completion.Stream.{Streaming}

-- `CostAccountingUnavailable` and `ValueError` are exceptions that the route does not tell apart.
abbrev pub cost_raised : Result CostError ExecutionCost → Result Raised ExecutionCost
cost_raised (ok entry) = ok entry
cost_raised (err e) = err other_error

-- the closure `account_primary` of the route
unfoldable pub account_primary_by :
    String → String → List ContextMessage → Option String → String → Result Raised ExecutionCost
account_primary_by provider model messages system_prompt output =
    cost_raised
      (account model_capability_catalog 4 provider model "primary" messages output system_prompt)

-- The store was asked exactly once, unless the client closed the stream.
abbrev pub IsBrought : Result Raised (Unit {0}) × Streaming → Type 0
IsBrought (err generator_exit, s) = length s.requests ≤ 1
IsBrought (ok done, s) = length s.requests ≡ 1
IsBrought (err cancelled_error, s) = length s.requests ≡ 1
IsBrought (err e, s) = ⊥
