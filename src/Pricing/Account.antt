-- ===== src/Pricing/Account.antt =====
-- `ExecutionCostAccountant`: the price of an answer, from its texts or from what the provider reports.
use eiraos_chat_backend.Prelude.{
  ℕ, ◌+◌, ◌-◌, ◌*◌, ◌/◌, String, Option, none, some, List, [], ◌∷◌, ◌||◌, not, ◌==◌,
}
use eiraos_chat_backend.Prelude.Text.{is_empty, one_of, char_count}
use eiraos_chat_backend.Prelude.Result.{Result, ok, err, ◌>>=◌, ◌>>◌, raise_if}
use eiraos_chat_backend.Http.{HttpException}
use eiraos_chat_backend.Governance.Models.{normalize_provider}
use eiraos_chat_backend.Chat.Accounting.{ExecutionCost}
use eiraos_chat_backend.Context.History.{ContextMessage}
use eiraos_chat_backend.Pricing.Catalog.{
  TokenPricing, ProviderModelMetadata, Catalog, catalog_revision, get_row,
}

pub data CostError : Type 0 where
  unavailable value_error : CostError

-- `ExecutionCost.__post_init__`, where no number is negative
unfoldable pub make_cost : ExecutionCost → Result CostError ExecutionCost
make_cost entry = do
  raise_if (is_empty entry.provider || (is_empty entry.model || is_empty entry.pricing_revision))
      value_error
  raise_if (not (one_of entry.operation ("primary" ∷ "verification" ∷ []))) value_error
  raise_if (not (entry.total_tokens == entry.input_tokens + entry.output_tokens)) value_error
  raise_if (not (one_of entry.usage_source ("estimated" ∷ "provider_reported" ∷ []))) value_error
  ok entry

-- the price of the tokens, rounded half up to the quantum
unfoldable pub price : TokenPricing → ℕ → ℕ → ℕ
price pricing input_tokens output_tokens =
    (input_tokens * pricing.input_per_million
      + output_tokens * pricing.output_per_million
      + 500_000)
    / 1_000_000

abbrev pub known_provider : Result HttpException String → Result CostError String
known_provider (ok provider) = ok provider
known_provider (err e) = err unavailable

abbrev pub priced : Option ProviderModelMetadata → Result CostError ProviderModelMetadata
priced none = err unavailable
priced (some m) = ok m

abbrev pub characters : List ContextMessage → ℕ
characters [] = 0
characters (message ∷ messages) = char_count message.content + characters messages

abbrev pub prompt_characters : Option String → ℕ
prompt_characters none = 0
prompt_characters (some prompt) = char_count prompt

module _ (catalog : Catalog) where
  abbrev pub entry_of :
      String
      → String
      → String
      → ℕ
      → ℕ
      → String
      → ProviderModelMetadata
      → Result CostError ExecutionCost
  entry_of provider model operation input_tokens output_tokens source metadata = make_cost (record {
    provider = provider;
    model = model;
    operation = operation;
    input_tokens = input_tokens;
    output_tokens = output_tokens;
    total_tokens = input_tokens + output_tokens;
    cost = price metadata.pricing input_tokens output_tokens;
    usage_source = source;
    pricing_revision = catalog_revision;
  })

  -- what both entry points do
  abbrev pub account_tokens :
      String → String → String → ℕ → ℕ → String → Result CostError ExecutionCost
  account_tokens provider model operation input_tokens output_tokens source = do
    normalized ← known_provider (normalize_provider provider)
    metadata ← priced (get_row catalog normalized model)
    entry_of normalized model operation input_tokens output_tokens source metadata

  unfoldable pub account_reported :
      String → String → String → ℕ → ℕ → Result CostError ExecutionCost
  account_reported provider model operation input_tokens output_tokens =
      account_tokens provider model operation input_tokens output_tokens "provider_reported"

  module _ (chars_per_token : ℕ) where
    unfoldable pub tokens_of : ℕ → ℕ
    tokens_of characters = (characters + chars_per_token - 1) / chars_per_token

    unfoldable pub account :
        String
        → String
        → String
        → List ContextMessage
        → String
        → Option String
        → Result CostError ExecutionCost
    account provider model operation messages output system_prompt =
        account_tokens provider model operation
          (tokens_of (prompt_characters system_prompt + characters messages))
          (tokens_of (char_count output)) "estimated"
