-- ===== src/Budget/Gate.antt =====
-- The in-process gate (src/eiraos/core/usage_budget.py) and its use before a provider call
-- (src/eiraos/application/usage_execution.py). Costs are whole numbers of tokens, which the source
-- carries in floats; `none` is an absent limit.
use eiraos_chat_backend.Prelude.{String, Option, none, some, Bool, true, false, ◌||◌, not}
use eiraos_chat_backend.Prelude.Int.{ℤ, pos, ◌+ℤ◌, ◌-ℤ◌, ltb_ℤ}
use eiraos_chat_backend.Prelude.Result.{Result, ok, err, ◌>>◌, raise_if}
use eiraos_chat_backend.Budget.Estimator.{CostEstimate, CostEstimator, estimate}

pub data UsageBudgetError : Type 0 where
  budget_unavailable : String → UsageBudgetError
  budget_exceeded : String → UsageBudgetError

pub record UsageBudgetReservation : Type 0 where
  pub user_id : ℤ
  pub organization_id : ℤ
  pub estimated_cost : ℤ
  pub verification_estimated_cost : ℤ
  pub total_reserved_cost : ℤ

pub record UsageBudgetGate : Type 0 where
  pub user_remaining : Option ℤ
  pub organization_remaining : Option ℤ
  pub max_execution_cost : Option ℤ
  pub backend_available : Bool

-- `limit is not None and required > limit`
abbrev pub exceeds : ℤ → Option ℤ → Bool
exceeds required none = false
exceeds required (some limit) = ltb_ℤ limit required

unfoldable pub validate : UsageBudgetGate → ℤ → ℤ → Result UsageBudgetError ℤ
validate g cost verification = do
  raise_if (not g.backend_available) (budget_unavailable "Usage budget state is unavailable.")
  raise_if (ltb_ℤ cost (pos 0) || ltb_ℤ verification (pos 0))
      (budget_exceeded "Estimated cost cannot be negative.")
  let required = cost +ℤ verification
  raise_if (exceeds required g.max_execution_cost) (budget_exceeded "Execution budget exceeded.")
  raise_if (exceeds required g.user_remaining) (budget_exceeded "User quota exceeded.")
  raise_if (exceeds required g.organization_remaining)
      (budget_exceeded "Organization budget exceeded.")
  ok required

abbrev pub minus : Option ℤ → ℤ → Option ℤ
minus none required = none
minus (some n) required = some (n -ℤ required)

abbrev pub spend : ℤ → UsageBudgetGate → UsageBudgetGate
spend required g = record g {
  user_remaining = minus g.user_remaining required;
  organization_remaining = minus g.organization_remaining required;
}

abbrev pub after_try : UsageBudgetGate → Result UsageBudgetError ℤ → Bool × UsageBudgetGate
after_try g (err e) = (false, g)
after_try g (ok required) = (true, spend required g)

unfoldable pub try_reserve : ℤ → ℤ → UsageBudgetGate → Bool × UsageBudgetGate
try_reserve cost verification g = after_try g (validate g cost verification)

abbrev pub after_validation :
    ℤ
    → ℤ
    → ℤ
    → ℤ
    → UsageBudgetGate
    → Result UsageBudgetError ℤ
    → Result UsageBudgetError UsageBudgetReservation × UsageBudgetGate
after_validation user_id organization_id cost verification g (err e) = (err e, g)
after_validation user_id organization_id cost verification g (ok required) = (
  ok (record {
    user_id = user_id;
    organization_id = organization_id;
    estimated_cost = cost;
    verification_estimated_cost = verification;
    total_reserved_cost = required;
  }),
  spend required g,
)

unfoldable pub reserve_or_raise :
    ℤ
    → ℤ
    → ℤ
    → ℤ
    → UsageBudgetGate
    → Result UsageBudgetError UsageBudgetReservation × UsageBudgetGate
reserve_or_raise user_id organization_id cost verification g =
    after_validation user_id organization_id cost verification g (validate g cost verification)

pub record BudgetedExecution : Type 0 where
  pub estimate : CostEstimate
  pub reservation : UsageBudgetReservation

abbrev budgeted :
    CostEstimate
    → Result UsageBudgetError UsageBudgetReservation × UsageBudgetGate
    → Result UsageBudgetError BudgetedExecution × UsageBudgetGate
budgeted e (err x, g) = (err x, g)
budgeted e (ok r, g) = (ok (record { estimate = e; reservation = r }), g)

-- `ProviderExecutionBudget.reserve`, on the gate that the factory makes
unfoldable pub reserve_provider_execution :
    CostEstimator
    → UsageBudgetGate
    → ℤ
    → ℤ
    → String
    → Bool
    → Result UsageBudgetError BudgetedExecution × UsageBudgetGate
reserve_provider_execution estimator gate user_id organization_id prompt verify =
    let e = estimate estimator prompt verify in
    budgeted e
      (reserve_or_raise user_id organization_id (pos e.primary_tokens) (pos e.verifier_tokens) gate)
