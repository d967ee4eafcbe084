-- ===== src/Budget/Tests.antt =====
-- Runs of the budgets, and their theorems at concrete inputs, over a server that keeps its keys in
-- a function and forgets nothing.
use eiraos_chat_backend.Prelude.{
  ◌≡◌, ◌⊎◌, ◌≢◌, refl, String, Option, none, some, true, false, List, [], ◌∷◌, arith, eq_iff,
  str_eq, if◌then◌else◌, ◌+◌, ◌*◌, ◌≤◌, ◌<◌,
}
use eiraos_chat_backend.Prelude.Text.{char_count}
use eiraos_chat_backend.Prelude.Int.{ℤ, pos, ◌+ℤ◌, ◌-ℤ◌}
use eiraos_chat_backend.Prelude.Result.{ok, err}
use eiraos_chat_backend.Budget.Redis.{Value, number, to_number, RedisServer, lost, up}
use eiraos_chat_backend.Budget.Estimator.{CostEstimator, estimate, total_tokens, estimate_tight}
use eiraos_chat_backend.Budget.Reservation.{
  TenantReservation, denied, reserve_tenant, reserve_tenant_script, charge, eval, settle_tenant,
  release_tenant, marker_of, identity_of,
}
use eiraos_chat_backend.Budget.Charging.{
  IsCharged, Charges, requested, reserve_tenant-Charges, at_most_one_charge, retried, IsReplayed,
}
use eiraos_chat_backend.Budget.Counters.{IsTenant, balance, str_ne}
use eiraos_chat_backend.Budget.Settlement.{IsHeld, settle_once}
use eiraos_chat_backend.Budget.Release.{release_restores}
use eiraos_chat_backend.Budget.Execution.{
  Reserves, reserve_execution, reserve_execution-Reserves, user_key_of, organization_key_of,
}
use eiraos_chat_backend.Budget.Gate.{UsageBudgetGate, try_reserve, reserve_or_raise, validate}
use eiraos_chat_backend.Budget.Granting.{Balances, run, run-Balances, is_ok, AllOk, reserve-try}

abbrev put : String → Option Value → (String → Option Value) → String → Option Value
put k v s j = if str_eq k j then v else s j

abbrev server : RedisServer
server = record {
  State = String → Option Value;
  get = λ s j. s j;
  incr_by = λ k n s. put k (some (number (to_number (s k) +ℤ n))) s;
  set_expiring = λ k v ttl s. put k (some v) s;
  set_keep = λ k v s. put k (some v) s;
  expire = λ k ttl s. s;
  del = λ k s. put k none s;
  pttl = λ k s. pos 5000;
  get-incr_by = λ k j n s h. refl;
  get-set_expiring = λ k j v ttl s h. refl;
  get-set_keep = λ k j v s. refl;
  get-expire = λ k j ttl s h. refl;
  get-del = λ k j s. refl;
}

-- any text will do for the numbers in an identity
abbrev digits : ℤ → String
digits n = "10"

abbrev fresh : String → Option Value
fresh k = none

texts_differ : (s t : String) → str_eq s t ≡ false → s ≢ t
texts_differ s t h e = ground (arith, (eq_iff s t).1 e, h)

abbrev charged : String → Option Value
charged =
    put "org:reservation:r" (some (identity_of digits "user" "org" (pos 10)))
      (put "org" (some (number (pos 10))) (put "user" (some (number (pos 10))) fresh))

charge_runs :
    (reserve_tenant server digits up "r" "user" "org" (pos 10) (pos 100) (pos 100) (pos 60) fresh).1
      "org"
    ≡ some (number (pos 10))
unfolding reserve_tenant eval reserve_tenant_script charge ◌+ℤ◌
charge_runs = refl

tenant : IsTenant server (marker_of "org" "r") "user" "org" fresh
tenant = record {
  marker_user = texts_differ _ _ refl;
  marker_org = texts_differ _ _ refl;
  user_org = texts_differ _ _ refl;
  user_counter = tt;
  org_counter = tt;
}

reserve_tenant-Charges_example :
    Charges server digits "r" "user" "org" (pos 10) (pos 100) (pos 100) (pos 60) fresh (
      reserve_tenant server digits lost "r" "user" "org"
        (pos 10)
        (pos 100)
        (pos 100)
        (pos 60)
        fresh)
reserve_tenant-Charges_example =
    reserve_tenant-Charges server digits "r" "user" "org" (pos 10) (pos 100) (pos 100) (pos 60) lost
      fresh tenant

charged-IsCharged :
    IsCharged server digits "r" "user" "org" (pos 10) (pos 100) (pos 100) (pos 60) fresh charged
unfolding ◌+ℤ◌
charged-IsCharged = record {
  user_balance = refl;
  user_within = omega arith;
  org_balance = refl;
  org_within = omega arith;
  marked = refl;
  others = λ j a b c. rw (str_ne "org:reservation:r" j a, str_ne "org" j c, str_ne "user" j b);
}

-- a call whose reply is lost, and its repetition
at_most_one_charge_example :
    let s' =
      retried server digits "r" "user" "org"
        (pos 10)
        (pos 100)
        (pos 100)
        (pos 60)
        (lost ∷ up ∷ [])
        fresh in
    (s' ≡ fresh)
    ⊎ (IsCharged server digits "r" "user" "org" (pos 10) (pos 100) (pos 100) (pos 60) fresh s'
        × IsReplayed server digits "r" "user" "org" (pos 10) (pos 100) (pos 100) (pos 60) s')
at_most_one_charge_example =
    at_most_one_charge server digits "r" "user" "org" (pos 10) (pos 100) (pos 100) (pos 60)
      (lost ∷ up ∷ []) fresh tenant

abbrev reservation : TenantReservation
reservation = requested server digits "r" "user" "org" (pos 10) (pos 100) (pos 100) (pos 60)

held : IsHeld server digits reservation charged
held = record {
  marked = refl;
  marker_user = texts_differ _ _ refl;
  marker_org = texts_differ _ _ refl;
  user_org = texts_differ _ _ refl;
  settlement_marker = texts_differ _ _ refl;
  settlement_user = texts_differ _ _ refl;
  settlement_org = texts_differ _ _ refl;
  user_counter = tt;
  org_counter = tt;
}

settle_once_example :
    let s' = (settle_tenant server digits up reservation (pos 4) charged).1 in
    ((settle_tenant server digits up reservation (pos 4) charged).0 ≡ ok true)
    × (balance server s' "user" ≡ pos 10 +ℤ (pos 4 -ℤ pos 10))
    × (balance server s' "org" ≡ pos 10 +ℤ (pos 4 -ℤ pos 10))
    × (settle_tenant server digits up reservation (pos 4) s' ≡ (ok false, s'))
    × (settle_tenant server digits up reservation (pos 5) s'
        ≡ (err (denied "budget settlement identity conflict"), s'))
settle_once_example =
    settle_once server digits reservation charged held (pos 4) (omega arith) (omega arith) refl
      (pos 5) (omega arith) refl

release_restores_example :
    let s' = (release_tenant server digits up reservation charged).1 in
    (balance server s' "user" ≡ pos 0)
    × (balance server s' "org" ≡ pos 0)
    × (s' "org:reservation:r" ≡ none)
    × (release_tenant server digits up reservation s' ≡ (ok tt, s'))
unfolding ◌+ℤ◌
release_restores_example =
    release_restores server digits reservation charged held refl (pos 0) (pos 0) refl refl
      (omega arith) (omega arith)

abbrev estimator : CostEstimator
estimator = record { input_chars_per_token = 4; output_tokens = 10; ratio_positive = omega arith }

estimate_hello :
    estimate estimator "hello" true ≡ record { primary_tokens = 12; verifier_tokens = 12 }
unfolding estimate char_count
estimate_hello = refl

estimate_tight_example :
    let e = estimate estimator "hello" false in
    (char_count "hello" + 10 * 4 ≤ e.primary_tokens * 4)
    × (e.primary_tokens * 4 < char_count "hello" + 11 * 4)
    × (total_tokens e ≡ e.primary_tokens)
estimate_tight_example = estimate_tight estimator "hello" false

execution_tenant :
    IsTenant server
      (marker_of (organization_key_of server digits (pos 1)) "r")
      (user_key_of server digits (pos 1) (pos 2))
      (organization_key_of server digits (pos 1))
      fresh
execution_tenant = record {
  marker_user = texts_differ _ _ refl;
  marker_org = texts_differ _ _ refl;
  user_org = texts_differ _ _ refl;
  user_counter = tt;
  org_counter = tt;
}

reserve_execution-Reserves_example :
    Reserves server digits up estimator
      (pos 60)
      "r"
      (pos 2)
      (pos 1)
      "hello"
      false
      (pos 100)
      (pos 100)
      fresh
      (reserve_execution server digits up estimator
        (pos 60)
        "r"
        (pos 2)
        (pos 1)
        "hello"
        false
        (pos 100)
        (pos 100)
        fresh)
reserve_execution-Reserves_example =
    reserve_execution-Reserves server digits up estimator (pos 60) "r" (pos 2) (pos 1) "hello" false
      (pos 100) (pos 100) fresh execution_tenant

abbrev gate : UsageBudgetGate
gate = record {
  user_remaining = some (pos 10);
  organization_remaining = none;
  max_execution_cost = some (pos 8);
  backend_available = true;
}

abbrev costs : List (ℤ × ℤ)
costs = (pos 3, pos 3) ∷ (pos 9, pos 0) ∷ (pos 5, pos 0) ∷ (pos 4, pos 0) ∷ []

run_costs : (run costs gate).0 ≡ pos 10
unfolding run try_reserve validate ◌+ℤ◌ ◌-ℤ◌
run_costs = refl

run-Balances_example :
    let (granted, g') = run costs gate in
    Balances (some (pos 10)) granted g'.user_remaining
    × Balances none granted g'.organization_remaining
run-Balances_example = run-Balances costs gate (omega arith) tt

reserve-try_example :
    let (r, g') = reserve_or_raise (pos 1) (pos 2) (pos 3) (pos 4) gate in
    (try_reserve (pos 3) (pos 4) gate ≡ (is_ok r, g'))
    × AllOk (λ u. u.total_reserved_cost ≡ pos 3 +ℤ pos 4) r
reserve-try_example = reserve-try (pos 1) (pos 2) (pos 3) (pos 4) gate
