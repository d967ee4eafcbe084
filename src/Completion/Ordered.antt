-- ===== src/Completion/Ordered.antt =====
-- How far the preflight came from there: the budget before the stored execution, and that before the
-- provider.
use eiraos_chat_backend.Prelude.{
  ◌≡◌, refl, String, Option, none, some, Bool, true, false, [], is_none, is_some, Bool-cases, inl,
  inr,
}
use eiraos_chat_backend.Prelude.Result.{Result-cases}
use eiraos_chat_backend.Completion.Program.{Ends, Ends-after}
use eiraos_chat_backend.Completion.Preflight.{IdempotencyReservation, Held, Authorized, Environment}
use eiraos_chat_backend.Completion.Prepare.{
  nothing_held, distributed_raised, local_raised, Prepared, replays, ready, authorize,
  reserve_idempotency, reserve_tenant, reserve_budget, persist_identified, persist_request,
  prepare_provider, execute_new, unless_replay, prepare,
}
use eiraos_chat_backend.Completion.Decided.{
  IsFresh, IsQuiet, IsDecided, Decided-authorize, Decided-reserve_idempotency,
}

-- charged, and perhaps stored
abbrev pub IsCharged : String → Bool → Held → Type 0
IsCharged decision stored s =
    (s.acts ≡ [])
    × (s.governance_decision_id ≡ some decision)
    × (is_some s.budgeted_execution ≡ true)
    × (is_some s.persisted_execution ≡ stored)

module _ (env : Environment) where
  Charged-reserve_tenant :
      (decision : String) (o : Option String) (s : Held)
      → IsDecided decision s
      → Ends (λ u. IsCharged decision false) IsQuiet (reserve_tenant env o s)
  Charged-reserve_tenant decision none s h = h.0.0
  Charged-reserve_tenant decision (some id) s ((quiet, free, unstored), known) =
      elim (Bool-cases env.has_limits) [
        | inr unset ↦ rw unset quiet
        | inl set ↦ elim (Result-cases (distributed_raised (env.reserve_distributed id))) [
          | inl (e, bad) ↦ rw (set, bad) quiet
          | inr (u, good) ↦ rw (set, good) (quiet, known, refl, rw unstored)
        ]
      ]

  Charged-reserve_budget :
      (decision : String) (s : Held)
      → IsDecided decision s
      → Ends (λ u. IsCharged decision false) IsQuiet (reserve_budget env s)
  unfolding reserve_budget
  Charged-reserve_budget decision s ((quiet, free, unstored), known) =
      elim (Bool-cases env.has_redis) [
        | inl shared ↦
            rw shared
              (Charged-reserve_tenant decision s.execution_id s ((quiet, free, unstored), known))
        | inr alone ↦ elim (Bool-cases env.is_development) [
          | inr production ↦ rw (alone, production) quiet
          | inl development ↦ elim (Result-cases (local_raised env.reserve_local)) [
            | inl (e, bad) ↦ rw (alone, development, bad) quiet
            | inr (u, good) ↦ rw (alone, development, good) (quiet, known, refl, rw unstored)
          ]
        ]
      ]

  Charged-persist_identified :
      (decision : String) (o : Option String) (s : Held)
      → IsCharged decision false s
      → Ends (λ u. IsCharged decision true) IsQuiet (persist_identified env o s)
  Charged-persist_identified decision none s h = h.0
  Charged-persist_identified decision (some id) s (quiet, known, paid, unstored) =
      elim (Result-cases (env.prepare_exchange id)) [
        | inl (e, bad) ↦ rw bad quiet
        | inr (execution, good) ↦ rw good (quiet, known, paid, refl)
      ]

  Charged-persist_request :
      (decision : String) (s : Held)
      → IsCharged decision false s
      → Ends (λ u. IsCharged decision true) IsQuiet (persist_request env s)
  unfolding persist_request
  Charged-persist_request decision s h = elim (Bool-cases (is_none s.budgeted_execution)) [
    | inl missing ↦ rw missing h.0
    | inr there ↦ rw there (Charged-persist_identified decision s.execution_id s h)
  ]

  Charged-prepare_provider :
      (decision : String) (s : Held)
      → IsCharged decision true s
      → Ends (λ u. IsCharged decision true) IsQuiet (prepare_provider env s)
  unfolding prepare_provider
  Charged-prepare_provider decision s h = elim (Result-cases env.bind_provider) [
    | inl (e, bad) ↦ rw bad h.0
    | inr (u, bound) ↦ elim (Bool-cases (is_none s.persisted_execution)) [
      | inl missing ↦ rw (bound, missing) h.0
      | inr there ↦ elim (Result-cases env.build_context) [
        | inl (e, bad) ↦ rw (bound, there, bad) h.0
        | inr (v, built) ↦ rw (bound, there, built) h
      ]
    ]
  ]

  -- What the preflight gives: a cached answer with nothing charged and nothing stored, or a request
  -- with a decision on record, a budget and a stored execution.
  abbrev pub IsPrepared : Prepared → Held → Type 0
  IsPrepared (replays cached) s = IsFresh s
  IsPrepared (ready a idem) s = IsCharged a.governance_decision_id true s

  Prepared-execute_new :
      (a : Authorized) (idem : IdempotencyReservation) (s : Held)
      → IsDecided a.governance_decision_id s
      → Ends IsPrepared IsQuiet (execute_new env a idem s)
  Prepared-execute_new a idem s h =
      let decision = a.governance_decision_id in
      Ends-after {A = Unit {0}} (λ u. IsCharged decision false) IsPrepared IsQuiet
        (reserve_budget env s) _ (Charged-reserve_budget decision s h)
        (λ u t k.
          Ends-after {A = Unit {0}} (λ v. IsCharged decision true) IsPrepared IsQuiet
            (persist_request env t) _ (Charged-persist_request decision t k)
            (λ v w l.
              Ends-after {A = Unit {0}} (λ x. IsCharged decision true) IsPrepared IsQuiet
                (prepare_provider env w) _ (Charged-prepare_provider decision w l) (λ x y m. m)))

  Prepared-unless_replay :
      (a : Authorized) (idem : IdempotencyReservation) (cached : Option String) (s : Held)
      → IsDecided a.governance_decision_id s
      → Ends IsPrepared IsQuiet (unless_replay env a idem cached s)
  Prepared-unless_replay a idem (some cached) s h = h.0
  Prepared-unless_replay a idem none s h = Prepared-execute_new a idem s h

  pub prepare-IsPrepared : Ends IsPrepared IsQuiet (prepare env nothing_held)
  unfolding prepare
  prepare-IsPrepared =
      Ends-after (λ (a : Authorized). IsDecided a.governance_decision_id) IsPrepared IsQuiet
        (authorize env nothing_held) _ (Decided-authorize env nothing_held (refl, refl, refl))
        (λ a s h.
          Ends-after (λ (i : IdempotencyReservation). IsDecided a.governance_decision_id) IsPrepared
            IsQuiet (reserve_idempotency env s) _
            (Decided-reserve_idempotency env a.governance_decision_id s h)
            (λ i t k. Prepared-unless_replay a i i.cached_response t k))
