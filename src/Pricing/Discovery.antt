-- ===== src/Pricing/Discovery.antt =====
-- What the discovery of models offers.
use eiraos_chat_backend.Prelude.{◌≡◌, String, Option, some, true, List}
use eiraos_chat_backend.Prelude.Text.{one_of, strip}
use eiraos_chat_backend.Governance.Models.{configured_models}
use eiraos_chat_backend.Pricing.Catalog.{
  ProviderCapabilities, ProviderModelMetadata, model_capability_catalog, get_row, implemented,
}

module _ (getenv : String → Option String) (provider : String) (adapter : ProviderCapabilities)
    (adapter_models : List String) where
  -- A model that the adapter has, that is allowed for the provider and that stands in the catalog; its
  -- capabilities are those that the row and the adapter share.
  pub record IsDiscovered (p : String) (found : ProviderModelMetadata) : Type 0 where
    pub model : String
    pub row : ProviderModelMetadata
    pub listed : get_row model_capability_catalog p model ≡ some row
    pub allowed : one_of model (configured_models getenv p) ≡ true
    pub spelled : String
    pub offered : one_of spelled adapter_models ≡ true
    pub trimmed : strip spelled ≡ model
    pub shared : found ≡ record row { capabilities = implemented row.native_capabilities adapter }
