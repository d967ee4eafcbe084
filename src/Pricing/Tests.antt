-- ===== src/Pricing/Tests.antt =====
-- Prices of an answer, and models that are allowed and not priced.
use eiraos_chat_backend.Prelude.{
  ℕ, ◌+◌, ◌≡◌, refl, String, Option, none, some, true, false, List, [], ◌∷◌,
}
use eiraos_chat_backend.Prelude.Text.{
  split_commas, strip, is_space, lower, upper, one_of, char_count,
}
use eiraos_chat_backend.Prelude.Rows.{select}
use eiraos_chat_backend.Prelude.Result.{ok, err}
use eiraos_chat_backend.Governance.Models.{
  default_provider_models, provider_aliases, normalize_provider, configured_models,
  authorize_provider_model,
}
use eiraos_chat_backend.Pricing.Catalog.{
  ProviderCapabilities, ProviderModelMetadata, model_capability_catalog, value_error,
  model_metadata, metadata, offers,
}
use eiraos_chat_backend.Context.History.{ContextMessage}
use eiraos_chat_backend.Pricing.Account.{
  characters, prompt_characters, unavailable, make_cost, price, tokens_of, account,
  account_reported,
}
use eiraos_chat_backend.Pricing.Priced.{IsCount, Charged, account-IsPriced, authorized-IsListed}

abbrev mini : ProviderModelMetadata
mini = metadata "openai" "gpt-4o-mini" 128_000 1_500_000_000 6_000_000_000 (offers true)

mini_listed : model_metadata "OpenAI" "gpt-4o-mini" ≡ ok mini
unfolding model_metadata normalize_provider default_provider_models provider_aliases lower strip
    is_space select model_capability_catalog
mini_listed = refl

primary_supported : one_of "primary" ("primary" ∷ "verification" ∷ []) ≡ true
unfolding one_of
primary_supported = refl

abbrev hello : List ContextMessage
hello = record { role = "user"; content = "Hej med dig" } ∷ []

account-IsPriced_example :
    ((input spent : ℕ) × (IsCount (prompt_characters none + characters hello) input)
      × (IsCount (char_count "Hej!") spent)
      × Charged "OpenAI" "gpt-4o-mini" "primary" mini_listed primary_supported "estimated" input
          spent
          (account model_capability_catalog 4 "OpenAI" "gpt-4o-mini" "primary" hello "Hej!" none))
    × Charged "OpenAI" "gpt-4o-mini" "primary" mini_listed primary_supported "provider_reported" 20
        7
        (account_reported model_capability_catalog "OpenAI" "gpt-4o-mini" "primary" 20 7)
account-IsPriced_example =
    account-IsPriced "OpenAI" "gpt-4o-mini" "primary" mini_listed primary_supported hello "Hej!"
      none 20 7

-- 3 tokens in and 1 out
hello_priced :
    account model_capability_catalog 4 "OpenAI" "gpt-4o-mini" "primary" hello "Hej!" none
    ≡ ok (record {
      provider = "openai";
      model = "gpt-4o-mini";
      operation = "primary";
      input_tokens = 3;
      output_tokens = 1;
      total_tokens = 4;
      cost = 10_500;
      usage_source = "estimated";
      pricing_revision = "2026-08-25";
    })
unfolding account make_cost price tokens_of char_count one_of normalize_provider
    default_provider_models provider_aliases lower strip is_space select model_capability_catalog
hello_priced = refl

abbrev unset : String → Option String
unset name = none

mini_authorized :
    authorize_provider_model unset "OpenAI" " gpt-4o-mini" ≡ ok ("openai", "gpt-4o-mini")
unfolding authorize_provider_model configured_models one_of normalize_provider
    default_provider_models provider_aliases lower upper strip is_space
mini_authorized = refl

authorized-IsListed_example :
    (m : ProviderModelMetadata) × (model_metadata "OpenAI" "gpt-4o-mini" ≡ ok m)
    × (m.provider ≡ "openai")
    × (m.model ≡ "gpt-4o-mini")
authorized-IsListed_example = authorized-IsListed unset "OpenAI" " gpt-4o-mini" refl mini_authorized

-- The name with its space is authorized, and is no name in the catalog.
untrimmed_unlisted : model_metadata "OpenAI" " gpt-4o-mini" ≡ err value_error
unfolding model_metadata normalize_provider default_provider_models provider_aliases lower strip
    is_space select model_capability_catalog
untrimmed_unlisted = refl

-- A model that a deployment allows is authorized, and neither listed nor priced.
abbrev own_models : String → Option String
own_models name = some "internal-test-model,gpt-4o"

own_authorized :
    authorize_provider_model own_models "openai" "internal-test-model"
    ≡ ok ("openai", "internal-test-model")
unfolding authorize_provider_model configured_models one_of normalize_provider
    default_provider_models provider_aliases lower upper strip is_space split_commas
own_authorized = refl

own_unpriced :
    account_reported model_capability_catalog "openai" "internal-test-model" "primary" 20 7
    ≡ err unavailable
unfolding account_reported normalize_provider default_provider_models provider_aliases lower strip
    is_space select model_capability_catalog
own_unpriced = refl

abbrev adapter : ProviderCapabilities
adapter = record {
  streaming = true;
  vision = false;
  tools = false;
  structured_output = false;
  reasoning = false;
  embeddings = false;
}

abbrev discovered : List ProviderModelMetadata
discovered =
    record (metadata "openai" "gpt-4o" 128_000 25_000_000_000 100_000_000_000 (offers true)) {
      capabilities = adapter;
    }
    ∷ []
