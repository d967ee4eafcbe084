-- ===== src/Pricing/Listed.antt =====
-- The rows of the catalog: their names and their prices.
use eiraos_chat_backend.Prelude.{
  All, ℕ, ◌*◌, ◌/◌, ◌≡◌, String, some, false, [], ◌∷◌, eq_iff, arith, Bool-cases, inl, inr,
}
use eiraos_chat_backend.Prelude.Rows.{select}
use eiraos_chat_backend.Prelude.Text.{is_empty}
use eiraos_chat_backend.Pricing.Catalog.{
  ProviderModelMetadata, Catalog, get_row, is_row, model_capability_catalog,
}
use eiraos_chat_backend.Pricing.Account.{price}

-- the price of a million tokens is that of a whole number of quanta for each
abbrev pub IsWhole : ℕ → Type 0
IsWhole price = price / 1_000_000 * 1_000_000 ≡ price

-- A row of the catalog has a name, and is priced exactly.
pub record IsListed (m : ProviderModelMetadata) : Type 0 where
  pub has_provider : is_empty m.provider ≡ false
  pub has_model : is_empty m.model ≡ false
  pub whole_input : IsWhole m.pricing.input_per_million
  pub whole_output : IsWhole m.pricing.output_per_million

pub catalog-IsListed : All IsListed model_capability_catalog
unfolding model_capability_catalog
catalog-IsListed = ground arith

-- a row is found under its own name
pub get_row-IsListed :
    (catalog : Catalog) (p q : String) {m : ProviderModelMetadata}
    → All IsListed catalog
    → get_row catalog p q ≡ some m
    → (m.provider ≡ p) × (m.model ≡ q) × IsListed m
unfolding select
get_row-IsListed [] p q all h = absurd (cc h)
get_row-IsListed (r ∷ catalog) p q {m} (listed, all) h = elim (Bool-cases (is_row p q r)) [
  | inr other ↦ get_row-IsListed catalog p q all (rw other at h)
  | inl here ↦ ground (arith, here, h, eq_iff p r.provider, eq_iff q r.model)
]
