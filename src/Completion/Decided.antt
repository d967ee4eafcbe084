-- ===== src/Completion/Decided.antt =====
-- How far the preflight came before it charges: the decision before the lease.
use eiraos_chat_backend.Prelude.{
  ℕ, ◌≡◌, refl, String, Option, none, some, Bool, true, false, [], Bool-cases, inl, inr,
}
use eiraos_chat_backend.Prelude.Result.{Result, ok, err, Result-cases}
use eiraos_chat_backend.Idempotency.{IdempotencyOutcome, is_completed}
use eiraos_chat_backend.Conversation.{Conversation, hydrate_conversation, assert_accepts_execution}
use eiraos_chat_backend.Governance.Provider.{
  Bot, ProviderExecutionPermit, PolicyError, provider_policy_denied, uncaught,
}
use eiraos_chat_backend.Completion.Raised.{Raised}
use eiraos_chat_backend.Completion.Program.{give, Ends, Ends-after}
use eiraos_chat_backend.Completion.Access.{bot_accessible, valid_knowledge_scope}
use eiraos_chat_backend.Completion.Preflight.{IdempotencyReservation, Held, Authorized, Environment}
use eiraos_chat_backend.Completion.Prepare.{
  granted, permitted, authorize, recovery, lease, begun, reserve_idempotency,
}

-- nothing has been undone, nothing is charged, nothing is stored
abbrev pub IsFresh : Held → Type 0
IsFresh s = (s.acts ≡ []) × (s.budgeted_execution ≡ none) × (s.persisted_execution ≡ none)

abbrev pub IsQuiet : Raised → Held → Type 0
IsQuiet e s = s.acts ≡ []

-- and the decision is on record
abbrev pub IsDecided : String → Held → Type 0
IsDecided decision s = IsFresh s × (s.governance_decision_id ≡ some decision)

module _ (env : Environment) where
  Decided-granted :
      (conversation : Conversation) (bot : Bot) (permit : ProviderExecutionPermit)
      (decision : Option String) (s : Held)
      → IsFresh s
      → Ends
          (λ (a : Authorized). IsDecided a.governance_decision_id)
          IsQuiet
          (granted env conversation bot permit decision s)
  Decided-granted conversation bot permit none s h = h.0
  Decided-granted conversation bot permit (some decision) s h =
      elim (Result-cases (valid_knowledge_scope env.knowledge_scope)) [
        | inl (e, bad) ↦ rw bad h.0
        | inr (scope, good) ↦ rw good (h, refl)
      ]

  Decided-permitted :
      (conversation : Conversation) (bot : Bot) (r : Result PolicyError ProviderExecutionPermit)
      (s : Held)
      → IsFresh s
      → Ends
          (λ (a : Authorized). IsDecided a.governance_decision_id)
          IsQuiet
          (permitted env conversation bot r s)
  Decided-permitted conversation bot (ok permit) s h = Decided-granted conversation bot permit _ s h
  Decided-permitted conversation bot (err (provider_policy_denied reason)) s h = h.0
  Decided-permitted conversation bot (err (uncaught e)) s h = h.0

  pub Decided-authorize :
      (s : Held)
      → IsFresh s
      → Ends (λ (a : Authorized). IsDecided a.governance_decision_id) IsQuiet (authorize env s)
  unfolding authorize
  Decided-authorize s h = elim (Result-cases env.find_conversation) [
    | inl (e, x) ↦ rw x h.0
    | inr (none, x) ↦ rw x h.0
    | inr (some c, x) ↦ elim (Result-cases (hydrate_conversation c)) [
      | inl (e, y) ↦ rw (x, y) h.0
      | inr (a, y) ↦ elim (Result-cases (assert_accepts_execution a)) [
        | inl (e, z) ↦ rw (x, y, z) h.0
        | inr (u, z) ↦ elim (Result-cases env.find_bot) [
          | inl (e, w) ↦ rw (x, y, z, w) h.0
          | inr (none, w) ↦ rw (x, y, z, w) h.0
          | inr (some b, w) ↦ elim (Bool-cases (bot_accessible b env.org_id)) [
            | inr hidden ↦ rw (x, y, z, w, hidden) h.0
            | inl shown ↦ rw (x, y, z, w, shown) (Decided-permitted c b _ s h)
          ]
        ]
      ]
    ]
  ]

  Decided-recovery :
      (decision : String) (is_recovery : Bool) (record_id : Option ℕ) (key : String) (s : Held)
      → IsDecided decision s
      → Ends (λ u. IsDecided decision) IsQuiet (recovery env is_recovery record_id key s)
  Decided-recovery decision true (some id) key s h =
      elim (Result-cases
        (env.assert_recovery_allowed (env.execution_identity (some key) (some id)))) [
          | inl (e, bad) ↦ rw bad h.0.0
          | inr (u, good) ↦ rw good h
        ]
  Decided-recovery decision true none key s h = h
  Decided-recovery decision false record_id key s h = h

  Decided-lease :
      (decision key : String) (outcome : IdempotencyOutcome) (s : Held)
      → IsDecided decision s
      → Ends (λ i. IsDecided decision) IsQuiet (lease env key outcome s)
  Decided-lease decision key outcome s h =
      Ends-after {A = Unit {0}} {B = IdempotencyReservation} (λ u. IsDecided decision)
        (λ i. IsDecided decision) IsQuiet
        (recovery env outcome.is_recovery outcome.record_id key held) (λ u. give reservation)
        (Decided-recovery decision outcome.is_recovery outcome.record_id key held h) (λ u t k. k)
    where
      reservation : IdempotencyReservation
      reservation = record {
        key = some key;
        lease_token = outcome.lease_token;
        cached_response = none;
        record_id = outcome.record_id;
        is_recovery = outcome.is_recovery;
      }

      held : Held
      held = record s {
        reserved_idem = reservation;
        execution_id = some (env.execution_identity (some key) outcome.record_id);
      }

  Decided-begun :
      (decision key : String) (outcome : IdempotencyOutcome) (s : Held)
      → IsDecided decision s
      → Ends (λ i. IsDecided decision) IsQuiet (begun env key outcome s)
  Decided-begun decision key outcome s h = elim (Bool-cases (is_completed outcome.status)) [
    | inr open_ ↦ rw open_ (Decided-lease decision key outcome s h)
    | inl over ↦ elim (Result-cases (env.read_cached key)) [
      | inl (e, bad) ↦ rw (over, bad) h.0.0
      | inr (none, good) ↦ rw (over, good) (Decided-lease decision key outcome s h)
      | inr (some cached, good) ↦ rw (over, good) h
    ]
  ]

  pub Decided-reserve_idempotency :
      (decision : String) (s : Held)
      → IsDecided decision s
      → Ends (λ i. IsDecided decision) IsQuiet (reserve_idempotency env s)
  unfolding reserve_idempotency
  Decided-reserve_idempotency decision s h = elim (Result-cases env.resolve_key) [
    | inl (e, bad) ↦ rw bad h.0.0
    | inr (none, good) ↦ rw good h
    | inr (some key, good) ↦ elim (Result-cases (env.begin key)) [
      | inl (e, bad) ↦ rw (good, bad) h.0.0
      | inr (outcome, got) ↦ rw (good, got) (Decided-begun decision key outcome s h)
    ]
  ]
