-- ===== src/Budget/Estimator.antt =====
-- The deterministic estimate of a request's tokens (src/eiraos/domains/usage/cost_estimator.py).
use eiraos_chat_backend.Prelude.{
  ℕ, ◌+◌, ◌-◌, ◌*◌, ◌/◌, ◌≤◌, ◌<◌, ◌≡◌, String, Bool, arith, if◌then◌else◌,
}
use native.Mathlib.Nat.{div-add-mod, mod-lt}
use eiraos_chat_backend.Prelude.Text.{char_count}

pub record CostEstimate : Type 0 where
  pub primary_tokens : ℕ
  pub verifier_tokens : ℕ

unfoldable pub total_tokens : CostEstimate → ℕ
total_tokens e = e.primary_tokens + e.verifier_tokens

-- A configuration that the constructor accepted: a positive ratio, and outputs of 0 or more.
pub record CostEstimator : Type 0 where
  pub input_chars_per_token : ℕ
  pub output_tokens : ℕ
  pub ratio_positive : 0 < input_chars_per_token

unfoldable pub input_tokens : CostEstimator → String → ℕ
input_tokens c prompt = (char_count prompt + c.input_chars_per_token - 1) / c.input_chars_per_token

unfoldable pub estimate : CostEstimator → String → Bool → CostEstimate
unfolding input_tokens
estimate c prompt verify =
    let primary = input_tokens c prompt + c.output_tokens in
    record { primary_tokens = primary; verifier_tokens = if verify then primary else 0 }

-- rounding up: `(a + n - 1) // n`
pub ceil_div : (a n : ℕ) → 0 < n → (a ≤ (a + n - 1) / n * n) × ((a + n - 1) / n * n < a + n)
ceil_div a n h =
    let whole = div-add-mod (a + n - 1) n in
    let part = mod-lt (a + n - 1) h in (omega (arith, whole, part), omega (arith, whole, part))

-- The input share of an estimate is the ceiling of the prompt's characters over the ratio: its tokens
-- cover every character, and one token fewer would not; the verifier costs the same again when it
-- is asked for, and nothing otherwise.
pub estimate_tight :
    (c : CostEstimator) (prompt : String) (verify : Bool)
    → let e = estimate c prompt verify in
      (char_count prompt + c.output_tokens * c.input_chars_per_token
        ≤ e.primary_tokens * c.input_chars_per_token)
      × (e.primary_tokens * c.input_chars_per_token
          < char_count prompt + (c.output_tokens + 1) * c.input_chars_per_token)
      × (total_tokens e
          ≡ (if verify then e.primary_tokens + e.primary_tokens else e.primary_tokens))
unfolding estimate total_tokens input_tokens
estimate_tight c prompt verify =
    let up = ceil_div (char_count prompt) c.input_chars_per_token c.ratio_positive in
    (omega (arith, up), omega (arith, up), ground (arith))
