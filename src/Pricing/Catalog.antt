-- ===== src/Pricing/Catalog.antt =====
-- The catalog of models and the discovery in it. A price is a whole number of the quantum of the
-- accountant, 0.0000000001 dollars, for a million tokens.
use eiraos_chat_backend.Prelude.{
  ℕ, String, Option, none, some, Bool, true, false, List, [], ◌∷◌, ◌&&◌, str_eq, if◌then◌else◌,
}
use eiraos_chat_backend.Prelude.Rows.{select}
use eiraos_chat_backend.Prelude.Result.{Result, ok, err, ◌>>=◌}
use eiraos_chat_backend.Http.{HttpException}
use eiraos_chat_backend.Governance.Models.{normalize_provider, authorize_provider_model}

pub record ProviderCapabilities : Type 0 where
  pub streaming : Bool
  pub vision : Bool
  pub tools : Bool
  pub structured_output : Bool
  pub reasoning : Bool
  pub embeddings : Bool

pub record TokenPricing : Type 0 where
  pub input_per_million : ℕ
  pub output_per_million : ℕ

pub record ProviderModelMetadata : Type 0 where
  pub provider : String
  pub model : String
  pub capabilities : ProviderCapabilities
  pub native_capabilities : ProviderCapabilities
  pub context_window_tokens : ℕ
  pub pricing : TokenPricing

abbrev pub catalog_revision : String
catalog_revision = "2026-08-25"

-- `_capabilities`
abbrev pub offers : Bool → ProviderCapabilities
offers structured_output = record {
  streaming = true;
  vision = true;
  tools = true;
  structured_output = structured_output;
  reasoning = false;
  embeddings = false;
}

-- `ProviderCapabilities(streaming=False)`
abbrev pub no_capabilities : ProviderCapabilities
no_capabilities = record {
  streaming = false;
  vision = false;
  tools = false;
  structured_output = false;
  reasoning = false;
  embeddings = false;
}

-- `_metadata`
abbrev pub metadata : String → String → ℕ → ℕ → ℕ → ProviderCapabilities → ProviderModelMetadata
metadata provider model context input_price output_price own = record {
  provider = provider;
  model = model;
  capabilities = no_capabilities;
  native_capabilities = own;
  context_window_tokens = context;
  pricing = record { input_per_million = input_price; output_per_million = output_price };
}

-- `MODEL_CAPABILITY_CATALOG`, each row under its provider and its model
unfoldable pub model_capability_catalog : List ProviderModelMetadata
model_capability_catalog =
    metadata "openai" "gpt-4o" 128_000 25_000_000_000 100_000_000_000 (offers true)
    ∷ metadata "openai" "gpt-4o-mini" 128_000 1_500_000_000 6_000_000_000 (offers true)
    ∷ metadata "openai" "gpt-4.1" 1_047_576 20_000_000_000 80_000_000_000 (offers true)
    ∷ metadata "openai" "gpt-4.1-mini" 1_047_576 4_000_000_000 16_000_000_000 (offers true)
    ∷ metadata "anthropic" "claude-3-5-sonnet-20241022" 200_000 30_000_000_000 150_000_000_000
        (offers false)
    ∷ metadata "anthropic" "claude-3-5-haiku-20241022" 200_000 8_000_000_000 40_000_000_000
        (offers false)
    ∷ metadata "google" "gemini-1.5-pro" 2_000_000 12_500_000_000 50_000_000_000 (offers true)
    ∷ metadata "google" "gemini-1.5-flash" 1_000_000 750_000_000 3_000_000_000 (offers true)
    ∷ []

-- `catalog.get((provider, model))`
abbrev pub is_row : String → String → ProviderModelMetadata → Bool
is_row provider model m = str_eq provider m.provider && str_eq model m.model

abbrev pub Catalog : Type 0
Catalog = List ProviderModelMetadata

abbrev pub get_row : Catalog → String → String → Option ProviderModelMetadata
get_row catalog provider model = select (is_row provider model) catalog

pub data CatalogError : Type 0 where
  http_exception : HttpException → CatalogError
  value_error : CatalogError

abbrev pub normalized_or : Result HttpException String → Result CatalogError String
normalized_or (ok provider) = ok provider
normalized_or (err e) = err (http_exception e)

abbrev pub found : Option ProviderModelMetadata → Result CatalogError ProviderModelMetadata
found none = err value_error
found (some m) = ok m

unfoldable pub model_metadata : String → String → Result CatalogError ProviderModelMetadata
model_metadata provider model = do
  normalized ← normalized_or (normalize_provider provider)
  found (get_row model_capability_catalog normalized model)

-- `_implemented`
unfoldable pub implemented : ProviderCapabilities → ProviderCapabilities → ProviderCapabilities
implemented own adapter = record {
  streaming = own.streaming && adapter.streaming;
  vision = own.vision && adapter.vision;
  tools = own.tools && adapter.tools;
  structured_output = own.structured_output && adapter.structured_output;
  reasoning = own.reasoning && adapter.reasoning;
  embeddings = own.embeddings && adapter.embeddings;
}

-- one model of the adapter, after the guard
abbrev pub offered : String → Result HttpException (String × String) → List String → List String
offered name (ok (provider, model)) models = if str_eq provider name then model ∷ models else models
offered name (err e) models = models

-- one model in the catalog
abbrev pub listed :
    ProviderCapabilities
    → Option ProviderModelMetadata
    → List ProviderModelMetadata
    → List ProviderModelMetadata
listed adapter none rest = rest
listed adapter (some m) rest =
    record m { capabilities = implemented m.native_capabilities adapter } ∷ rest

module _ (getenv : String → Option String) where
  -- `GovernedAIProvider.models`
  unfoldable pub models : String → List String → List String
  models name [] = []
  models name (model ∷ rest) =
      offered name (authorize_provider_model getenv name model) (models name rest)

  abbrev pub discover_models :
      Catalog → String → ProviderCapabilities → List String → List ProviderModelMetadata
  discover_models catalog provider adapter [] = []
  discover_models catalog provider adapter (model ∷ rest) =
      listed adapter (get_row catalog provider model)
        (discover_models catalog provider adapter rest)

  -- `ProviderCapabilityDiscovery.discover`, of the capabilities and the models of the adapter that
  -- the factory makes for the normalized name
  unfoldable pub discover :
      Catalog
      → String
      → ProviderCapabilities
      → List String
      → Result HttpException (List ProviderModelMetadata)
  discover catalog provider adapter adapter_models = do
    normalized ← normalize_provider provider
    ok (discover_models catalog normalized adapter (models normalized adapter_models))
