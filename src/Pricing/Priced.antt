-- ===== src/Pricing/Priced.antt =====
-- The price of an answer, and the models that have one.
use Prim.Native.String.{◌++◌ as append}
use native.Mathlib.Nat.{mul_assoc}
use eiraos_chat_backend.Prelude.{
  ℕ, ◌+◌, ◌*◌, ◌/◌, ◌≤◌, ◌<◌, ◌≡◌, refl, sym, ◌∙◌, String, Option, none, some, true, false, List,
  [], ◌∷◌, ◌||◌, not, arith, Bool-cases, Option-cases, inl, inr,
}
use eiraos_chat_backend.Prelude.Rows.{select}
use eiraos_chat_backend.Prelude.Text.{is_empty, one_of, char_count, upper, strip}
use eiraos_chat_backend.Prelude.Result.{Result, ok, Result-cases}
use eiraos_chat_backend.Governance.Models.{
  default_provider_models, or_none_allowed, normalize_provider, configured_models,
  authorize_provider_model,
}
use eiraos_chat_backend.Chat.Accounting.{ExecutionCost}
use eiraos_chat_backend.Context.History.{ContextMessage}
use eiraos_chat_backend.Pricing.Catalog.{
  TokenPricing, ProviderModelMetadata, catalog_revision, get_row, found, model_capability_catalog,
  model_metadata,
}
use eiraos_chat_backend.Pricing.Account.{
  CostError, make_cost, price, characters, prompt_characters, account_tokens, account_reported,
  tokens_of, account,
}
use eiraos_chat_backend.Pricing.Listed.{IsWhole, catalog-IsListed, get_row-IsListed}

abbrev pub IsCount : ℕ → ℕ → Type 0
IsCount length tokens = (length ≤ tokens * 4) × (tokens * 4 < length + 4)

tokens_of-IsCount : (length : ℕ) → IsCount length (tokens_of model_capability_catalog 4 length)
unfolding tokens_of
tokens_of-IsCount length = omega arith

-- What an entry says of the tokens that it counts.
pub record IsPriced (m : ProviderModelMetadata) (operation source : String) (input output : ℕ)
    (entry : ExecutionCost) : Type 0 where
  pub provider : entry.provider ≡ m.provider
  pub model : entry.model ≡ m.model
  pub same_operation : entry.operation ≡ operation
  pub input_tokens : entry.input_tokens ≡ input
  pub output_tokens : entry.output_tokens ≡ output
  pub total : entry.total_tokens ≡ input + output
  pub exact :
      entry.cost * 1_000_000
      ≡ input * m.pricing.input_per_million + output * m.pricing.output_per_million
  pub usage_source : entry.usage_source ≡ source
  pub pricing_revision : entry.pricing_revision ≡ catalog_revision

whole_sum :
    (i o k l : ℕ)
    → (i * (k * 1_000_000) + o * (l * 1_000_000) + 500_000) / 1_000_000 * 1_000_000
      ≡ i * (k * 1_000_000) + o * (l * 1_000_000)
whole_sum i o k l = rw (← mul_assoc i k 1_000_000, ← mul_assoc o l 1_000_000) (omega arith)

price-exact :
    (pricing : TokenPricing) (input output : ℕ)
    → IsWhole pricing.input_per_million
    → IsWhole pricing.output_per_million
    → price pricing input output * 1_000_000
      ≡ input * pricing.input_per_million + output * pricing.output_per_million
unfolding price
price-exact pricing input output wi wo =
    let sum =
      whole_sum input output (pricing.input_per_million / 1_000_000)
        (pricing.output_per_million / 1_000_000) in
    rw (wi, wo) at sum

abbrev new_entry : String → String → String → ℕ → ℕ → String → ProviderModelMetadata → ExecutionCost
new_entry provider model operation input output source m = record {
  provider = provider;
  model = model;
  operation = operation;
  input_tokens = input;
  output_tokens = output;
  total_tokens = input + output;
  cost = price m.pricing input output;
  usage_source = source;
  pricing_revision = catalog_revision;
}

make_cost_lem :
    (provider model operation source : String) (input output : ℕ) (m : ProviderModelMetadata)
    → is_empty provider ≡ false
    → is_empty model ≡ false
    → one_of operation ("primary" ∷ "verification" ∷ []) ≡ true
    → one_of source ("estimated" ∷ "provider_reported" ∷ []) ≡ true
    → make_cost (new_entry provider model operation input output source m)
      ≡ ok (new_entry provider model operation input output source m)
unfolding make_cost
make_cost_lem provider model operation source input output m hp hm ho hs = ground arith

module _ (provider model operation : String) {m : ProviderModelMetadata}
    (known : model_metadata provider model ≡ ok m)
    (supported : one_of operation ("primary" ∷ "verification" ∷ []) ≡ true) where
  abbrev pub Charged : String → ℕ → ℕ → Result CostError ExecutionCost → Type 0
  Charged source input output r =
      (entry : ExecutionCost) × (r ≡ ok entry) × IsPriced m operation source input output entry

  -- the two lookups that `known` has made
  looked_up :
      (p : String) × (normalize_provider provider ≡ ok p)
      × (get_row model_capability_catalog p model ≡ some m)
  unfolding model_metadata
  looked_up = elim (Result-cases (normalize_provider provider)) [
    | inl (e, bad) ↦ absurd (cc (rw bad at known))
    | inr (p, good) ↦ elim (Option-cases (get_row model_capability_catalog p model)) [
      | inl bad ↦ absurd (cc (rw (good, bad) at known))
      | inr (r, e) ↦ (p, good, e ∙ cc (rw (good, e) at known))
    ]
  ]

  account_tokens-Charged :
      (source : String) (input output : ℕ)
      → one_of source ("estimated" ∷ "provider_reported" ∷ []) ≡ true
      → Charged source input output
          (account_tokens model_capability_catalog provider model operation input output source)
  account_tokens-Charged source input output valid =
      let (p, good, e) = looked_up in
      let (same_provider, same_model, listed) =
        get_row-IsListed model_capability_catalog p model catalog-IsListed e in
      (
        new_entry p model operation input output source m,
        rw (good, e)
            (make_cost_lem p model operation source input output m
              (rw same_provider at listed.has_provider) (rw same_model at listed.has_model)
              supported valid),
        record {
          provider = sym same_provider;
          model = sym same_model;
          same_operation = refl;
          input_tokens = refl;
          output_tokens = refl;
          total = refl;
          exact = price-exact m.pricing input output listed.whole_input listed.whole_output;
          usage_source = refl;
          pricing_revision = refl;
        },
      )

  -- A model that the context was built for has a price: whatever the texts are, and whatever usage
  -- the provider reports, both entry points of the accountant give an entry, under the model's
  -- provider and name and the operation, which is "primary" or "verification". A text of n characters
  -- counts as n / 4 tokens, rounded up; the total is the sum; and the cost is exactly the tokens at
  -- the catalog's prices, so nothing is lost to rounding.
  pub account-IsPriced :
      (messages : List ContextMessage) (output : String) (system_prompt : Option String)
      (reported_input reported_output : ℕ)
      → ((input spent : ℕ) × (IsCount (prompt_characters system_prompt + characters messages) input)
          × (IsCount (char_count output) spent)
          × Charged "estimated" input spent (
              account model_capability_catalog 4 provider model operation messages output
                system_prompt))
        × Charged "provider_reported" reported_input reported_output (
            account_reported model_capability_catalog provider model operation reported_input
              reported_output)
  unfolding account account_reported one_of
  account-IsPriced messages output system_prompt reported_input reported_output =
      let input : ℕ =
        tokens_of model_capability_catalog 4
          (prompt_characters system_prompt + characters messages) in
      let spent : ℕ = tokens_of model_capability_catalog 4 (char_count output) in
      (
        (
          input,
          spent,
          tokens_of-IsCount (prompt_characters system_prompt + characters messages),
          tokens_of-IsCount (char_count output),
          account_tokens-Charged "estimated" input spent refl,
        ),
        account_tokens-Charged "provider_reported" reported_input reported_output refl,
      )

listed_default :
    (p q : String)
    → one_of q (or_none_allowed (default_provider_models p)) ≡ true
    → (m : ProviderModelMetadata) × (get_row model_capability_catalog p q ≡ some m)
unfolding default_provider_models one_of select model_capability_catalog
listed_default p q h = elim (Option-cases (get_row model_capability_catalog p q)) [
  | inl bad ↦ absurd (ground (arith, bad, h))
  | inr found ↦ found
]

pub authorized_lem :
    (getenv : String → Option String) (provider model : String) {p q : String}
    → authorize_provider_model getenv provider model ≡ ok (p, q)
    → (normalize_provider provider ≡ ok p)
      × (one_of q (configured_models getenv p) ≡ true)
      × (strip model ≡ q)
unfolding authorize_provider_model
authorized_lem getenv provider model {p} {q} h = elim (Result-cases (normalize_provider provider)) [
  | inl (e, bad) ↦ absurd (cc (rw bad at h))
  | inr (r, good) ↦
      elim (Bool-cases
        (is_empty (strip model) || not (one_of (strip model) (configured_models getenv r)))) [
          | inl refused ↦ absurd (cc (rw (good, refused) at h))
          | inr fine ↦
              let same : (r ≡ p) × (strip model ≡ q) = ground (arith, rw (good, fine) at h) in
              (rw (← same.0) good, rw (← same.0, ← same.1) (ground (arith, fine)), same.1)
        ]
]

-- Where no model list is configured for a provider, every model that the policy authorizes for it has
-- a row in the catalog, under the provider and the model that the policy answered.
pub authorized-IsListed :
    (getenv : String → Option String) (provider model : String) {p q : String}
    → getenv (append "EIRAOS_ALLOWED_MODELS_" (upper p)) ≡ none
    → authorize_provider_model getenv provider model ≡ ok (p, q)
    → (m : ProviderModelMetadata) × (model_metadata provider q ≡ ok m)
      × (m.provider ≡ p)
      × (m.model ≡ q)
unfolding configured_models model_metadata
authorized-IsListed getenv provider model {p} {q} unset h =
    let (good, allowed, trimmed) = authorized_lem getenv provider model h in
    let (m, e) = listed_default p q (rw unset at allowed) in
    let (same_provider, same_model, listed) =
      get_row-IsListed model_capability_catalog p q catalog-IsListed e in
    (m, rw (good, e), same_provider, same_model)
