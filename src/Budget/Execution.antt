-- ===== src/Budget/Execution.antt =====
-- The distributed execution budget (src/eiraos/domains/usage/execution_budget.py): estimate, then
-- reserve for the tenant.
use Prim.Native.String.{◌++◌ as append}
use eiraos_chat_backend.Prelude.{
  ℕ, ◌≡◌, refl, String, Bool, ◌||◌, if◌then◌else◌, inl, inr, Bool-cases,
}
use eiraos_chat_backend.Prelude.Int.{ℤ, pos, ltb_ℤ}
use eiraos_chat_backend.Prelude.Result.{Result, ok, err}
use eiraos_chat_backend.Budget.Redis.{RedisServer, Connection}
use eiraos_chat_backend.Budget.Estimator.{CostEstimate, CostEstimator, estimate, total_tokens}
use eiraos_chat_backend.Budget.Reservation.{
  BudgetError, denied, TenantReservation, reserve_tenant, settle_tenant, marker_of,
}
use eiraos_chat_backend.Budget.Charging.{Charges, reserve_tenant-Charges}
use eiraos_chat_backend.Budget.Counters.{IsTenant}

pub record ExecutionReservation : Type 0 where
  pub estimate : CostEstimate
  pub tenant : TenantReservation

unfoldable pub total_reserved_tokens : ExecutionReservation → ℕ
total_reserved_tokens r = total_tokens r.estimate

module _ (R : RedisServer) (decimal : ℤ → String) where
  open R use {State}

  -- `f"{{{organization_id}}}"` and the two keys under that hash tag
  abbrev pub tag_of : ℤ → String
  tag_of organization_id = append "{" (append (decimal organization_id) "}")

  abbrev pub user_key_of : ℤ → ℤ → String
  user_key_of organization_id user_id =
      append "budget:"
        (append (tag_of organization_id) (append ":user:" (append (decimal user_id) ":tokens")))

  abbrev pub organization_key_of : ℤ → String
  organization_key_of organization_id =
      append "budget:" (append (tag_of organization_id) ":organization:tokens")

  abbrev with_estimate :
      CostEstimate
      → Result BudgetError TenantReservation × State
      → Result BudgetError ExecutionReservation × State
  with_estimate e (err x, s) = (err x, s)
  with_estimate e (ok t, s) = (ok (record { estimate = e; tenant = t }), s)

  unfoldable pub reserve_estimated :
      Connection
      → CostEstimate
      → ℤ
      → String
      → ℤ
      → ℤ
      → ℤ
      → ℤ
      → State
      → Result BudgetError ExecutionReservation × State
  reserve_estimated c e ttl rid user_id organization_id user_limit organization_limit s =
      if ltb_ℤ organization_limit (pos (total_tokens e)) || ltb_ℤ user_limit (pos (total_tokens e))
      then (err (denied "execution token budget exceeded"), s)
      else with_estimate e (
          reserve_tenant R decimal c rid (user_key_of organization_id user_id)
            (organization_key_of organization_id) (pos (total_tokens e)) user_limit
            organization_limit ttl s)

  unfoldable pub reserve_execution :
      Connection
      → CostEstimator
      → ℤ
      → String
      → ℤ
      → ℤ
      → String
      → Bool
      → ℤ
      → ℤ
      → State
      → Result BudgetError ExecutionReservation × State
  unfolding reserve_estimated
  reserve_execution c estimator ttl rid user_id organization_id prompt verify user_limit
        organization_limit s =
      reserve_estimated c (estimate estimator prompt verify) ttl rid user_id organization_id
        user_limit organization_limit s

  unfoldable pub settle_execution :
      Connection → ExecutionReservation → ℤ → State → Result BudgetError Bool × State
  settle_execution c r actual s = settle_tenant R decimal c r.tenant actual s

  module _ (c : Connection) (estimator : CostEstimator) (ttl : ℤ) (rid : String)
      (user_id organization_id : ℤ) (prompt : String) (verify : Bool)
      (user_limit organization_limit : ℤ) (s : State) where
    abbrev pub tokens : ℤ
    tokens = pos (total_tokens (estimate estimator prompt verify))

    abbrev pub Reserves : Result BudgetError ExecutionReservation × State → Type 0
    Reserves (ok r, s') =
        (r.estimate ≡ estimate estimator prompt verify)
        × Charges R decimal rid (user_key_of organization_id user_id)
            (organization_key_of organization_id) tokens user_limit organization_limit ttl s
            (ok r.tenant, s')
    Reserves (err e, s') =
        Charges R decimal rid (user_key_of organization_id user_id)
          (organization_key_of organization_id) tokens user_limit organization_limit ttl s
          (err e, s')

    with_estimate-Reserves :
        (a : Result BudgetError TenantReservation × State)
        → Charges R decimal rid
            (user_key_of organization_id user_id)
            (organization_key_of organization_id)
            tokens
            user_limit
            organization_limit
            ttl
            s
            a
        → Reserves (with_estimate (estimate estimator prompt verify) a)
    with_estimate-Reserves (ok t, s') h = (refl, h)
    with_estimate-Reserves (err e, s') h = h

    -- An execution is reserved by the estimate of its prompt: it succeeds only with that estimate
    -- charged to the user's and the organization's counter of its own hash tag, within both limits,
    -- or as a replay that changes nothing, where the marker of the reservation holds the identity
    -- made of the two keys and the amount; a refusal charges nothing; and where the backend is reported
    -- unavailable, the state is as it was or charged once.
    pub reserve_execution-Reserves :
        IsTenant R
          (marker_of (organization_key_of organization_id) rid)
          (user_key_of organization_id user_id)
          (organization_key_of organization_id)
          s
        → Reserves (
            reserve_execution c estimator ttl rid user_id organization_id prompt verify user_limit
              organization_limit s)
    unfolding reserve_execution
    reserve_execution-Reserves tenant =
        elim (Bool-cases (ltb_ℤ organization_limit tokens || ltb_ℤ user_limit tokens)) [
          | inl e ↦ rw (e, reserve_execution) refl
          | inr e ↦
              rw (e, reserve_execution)
                (with_estimate-Reserves _ (
                  reserve_tenant-Charges R decimal rid (user_key_of organization_id user_id)
                    (organization_key_of organization_id) tokens user_limit organization_limit ttl c
                    s tenant))
        ]
