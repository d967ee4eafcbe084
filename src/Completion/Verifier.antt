-- ===== src/Completion/Verifier.antt =====
-- Which bot becomes the verifier.
use eiraos_chat_backend.Prelude.{
  ◌≡◌, refl, ap, String, Option, none, some, Bool, true, false, List, [], ◌∷◌, ◌||◌, not,
  Bool-cases, inl, inr, arith,
}
use eiraos_chat_backend.Prelude.Int.{ℤ}
use eiraos_chat_backend.Prelude.Text.{is_empty}
use eiraos_chat_backend.Prelude.Result.{Result, ok, err}
use eiraos_chat_backend.Governance.Boundary.{AuthorizationContext}
use eiraos_chat_backend.Governance.Roles.{eq_of_eq_ℤ}
use eiraos_chat_backend.Governance.Provider.{
  Bot, ProviderExecutionPermit, PolicyError, provider_policy_denied, uncaught,
  authorize_provider_execution,
}
use eiraos_chat_backend.Governance.Permit.{IsScoped, authorize_provider_execution-IsScoped}
use eiraos_chat_backend.Completion.Access.{
  is_id, verifier_bot_accessible, with_bot, or_next, is_unusable, primary_verifier,
  find_verifier_bot,
}

usable_owner : (b o p m : Bool) → (b || (not o || p || m)) ≡ false → o ≡ true
usable_owner b o p m h = ground arith

module _ (getenv : String → Option String) (a : AuthorizationContext) (org_id : ℤ) where
  -- the bot is the tenant's, and the permit is for it
  abbrev pub IsTenantVerifier : Result PolicyError (Bot × ProviderExecutionPermit) → Type 0
  IsTenantVerifier (ok (bot, permit)) =
      (bot.organization_id ≡ some org_id) × IsScoped getenv a bot org_id permit
  IsTenantVerifier (err e) = Unit

  owned : (o : Option ℤ) → is_id o (some org_id) ≡ true → o ≡ some org_id
  owned none h = cc
  owned (some n) h = ap some (eq_of_eq_ℤ n org_id h)

  Tenant-with_bot :
      (bot : Bot) (r : Result PolicyError ProviderExecutionPermit)
      → authorize_provider_execution getenv a bot org_id ≡ r
      → bot.organization_id ≡ some org_id
      → IsTenantVerifier (with_bot getenv a org_id bot r)
  Tenant-with_bot bot (ok permit) h own =
      (own, authorize_provider_execution-IsScoped getenv a bot org_id h)
  Tenant-with_bot bot (err e) h own = tt

  Tenant-or_next :
      (bot : Bot) (r : Result PolicyError ProviderExecutionPermit)
      (next : Result PolicyError (Bot × ProviderExecutionPermit))
      → authorize_provider_execution getenv a bot org_id ≡ r
      → bot.organization_id ≡ some org_id
      → IsTenantVerifier next
      → IsTenantVerifier (or_next getenv a org_id bot r next)
  Tenant-or_next bot (ok permit) next h own k =
      (own, authorize_provider_execution-IsScoped getenv a bot org_id h)
  Tenant-or_next bot (err (provider_policy_denied reason)) next h own k = k
  Tenant-or_next bot (err (uncaught e)) next h own k = tt

  Tenant-primary : (primary : Bot) → IsTenantVerifier (primary_verifier getenv a org_id primary)
  unfolding verifier_bot_accessible
  Tenant-primary primary = elim (Bool-cases (is_id primary.organization_id (some org_id))) [
    | inr foreign ↦ rw foreign tt
    | inl own ↦ rw own (Tenant-with_bot primary _ refl (owned primary.organization_id own))
  ]

  -- The bot that is chosen to verify an answer belongs to the caller's own organization, also where
  -- the bot that answered is another organization's public one; its permit is for it, that
  -- organization and the user that the authorization is for, and the later check of the permit
  -- against the bot passes.
  pub find_verifier_bot-IsTenantVerifier :
      (primary : Bot) (bots : List Bot)
      → IsTenantVerifier (find_verifier_bot getenv a org_id primary bots)
  unfolding find_verifier_bot verifier_bot_accessible
  find_verifier_bot-IsTenantVerifier primary [] = Tenant-primary primary
  find_verifier_bot-IsTenantVerifier primary (bot ∷ bots) =
      elim (Bool-cases (is_id bot.id primary.id || is_unusable getenv a org_id bot)) [
        | inl skip ↦ rw skip (find_verifier_bot-IsTenantVerifier primary bots)
        | inr use_it ↦ rw use_it (
            Tenant-or_next bot (authorize_provider_execution getenv a bot org_id) _ refl
              (owned bot.organization_id
                (usable_owner (is_id bot.id primary.id) _ (is_empty bot.provider) _ use_it))
              (find_verifier_bot-IsTenantVerifier primary bots))
      ]
