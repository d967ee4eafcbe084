-- ===== src/Governance/Provider.antt =====
-- The gate before a provider call: the permit that is issued, and the later check of it.
use Prim.Native.String.{◌++◌ as append}
use eiraos_chat_backend.Prelude.{
  ℕ, String, Option, none, some, Bool, true, false, [], ◌∷◌, ◌&&◌, not, str_eq, if◌then◌else◌,
}
use eiraos_chat_backend.Prelude.Text.{strip, lower, or_empty, one_of, read_digits, is_empty}
use eiraos_chat_backend.Prelude.Int.{ℤ, pos, eq_ℤ, leb_ℤ}
use eiraos_chat_backend.Prelude.Result.{Result, ok, err, ◌>>=◌, ◌>>◌, raise_if}
use eiraos_chat_backend.Http.{HttpException}
use eiraos_chat_backend.Governance.Capabilities.{
  Capability, provider_execute, Grant, role_capabilities, set_of, PrincipalType, CapabilitySet,
}
use eiraos_chat_backend.Governance.Decision.{
  GrantError, value_error, make_principal, derive_execution_capabilities,
}
use eiraos_chat_backend.Governance.Boundary.{AuthorizationContext, decimal, require}
use eiraos_chat_backend.Governance.Models.{authorize_provider_model}

-- The row of a bot; a value that was not loaded yet is absent.
pub record Bot : Type 0 where
  pub id : Option ℤ
  pub organization_id : Option ℤ
  pub provider : String
  pub model : String
  pub bot_visibility : Option String
  pub credential_scope : Option String
  pub tool_scope : Option String
  pub is_public : Bool

-- `s or default`
abbrev pub or_else : Option String → String → String
or_else none default = default
or_else (some s) default = if is_empty s then default else s

unfoldable pub visibility : Bot → String
visibility bot = if bot.is_public then "public" else or_else bot.bot_visibility "private"

pub record ProviderExecutionPermit : Type 0 where
  pub user_id : ℤ
  pub organization_id : ℤ
  pub bot_id : ℤ
  pub bot_organization_id : ℤ
  pub provider : String
  pub model : String
  pub bot_tool_scope : String
  pub bot_visibility : String
  pub credential_scope : String
  pub capability : Capability

-- the denial with its reason, and what the nested calls raise that is not caught
pub data PolicyError : Type 0 where
  provider_policy_denied : String → PolicyError
  uncaught : GrantError → PolicyError

abbrev pub passing {ℓ} : {A : Type ℓ} → Result GrantError A → Result PolicyError A
passing (ok a) = ok a
passing (err e) = err (uncaught e)

abbrev pub policy {ℓ} : {A : Type ℓ} → Result HttpException A → Result PolicyError A
policy (ok a) = ok a
policy (err e) = err (provider_policy_denied "provider_model_denied")

-- `isinstance(value, int) and value > 0`
abbrev pub positive_id : Option ℤ → Option ℤ
positive_id none = none
positive_id (some n) = if leb_ℤ n (pos 0) then none else some n

abbrev pub natural : Option ℕ → Result PolicyError ℤ
natural none = err (uncaught (value_error "invalid literal for int()"))
natural (some n) = ok (pos n)

-- `int(identifier)`, of an identifier that `str` made from a positive integer
unfoldable pub user_id : AuthorizationContext → Result PolicyError ℤ
user_id a = natural (read_digits 0 a.user.identifier)

abbrev pub or_no_grant : Option Grant → Grant
or_no_grant none = λ c. false
or_no_grant (some g) = g

-- `CapabilitySet.create(authorization.user, ROLE_CAPABILITIES.get(authorization.role, …))`
unfoldable pub user_grant_of : AuthorizationContext → CapabilitySet
user_grant_of a = record {
  principal = a.user;
  capabilities = or_no_grant (role_capabilities a.role);
}

abbrev pub scope_of : Option String → String
scope_of s = lower (strip (or_empty s))

-- `derive_execution_capabilities` for the bot as a principal of the given organization
unfoldable pub derive_for : AuthorizationContext → Bot → ℤ → ℤ → ℤ → Result GrantError CapabilitySet
unfolding user_grant_of
derive_for a bot bot_id caller organization = do
  principal ← make_principal PrincipalType.bot (decimal bot_id) organization
  derive_execution_capabilities (user_grant_of a) principal (some (scope_of bot.tool_scope))
      (set_of (provider_execute ∷ []))
      (append "provider-preflight:" (append (decimal caller) (append ":" (decimal bot_id))))

-- the `except` clause: for a public bot of another organization the grant is derived again
abbrev pub or_rebound :
    Result GrantError CapabilitySet
    → Bool
    → Result GrantError CapabilitySet
    → Result PolicyError CapabilitySet
or_rebound (ok s) foreign_public again = ok s
or_rebound (err e) true again = passing again
or_rebound (err e) false again = err (provider_policy_denied "execution_scope_denied")

module _ (getenv : String → Option String) where
  -- the last statements: the capability, the model, the permit
  unfoldable pub issue :
      AuthorizationContext
      → Bot
      → ℤ
      → ℤ
      → ℤ
      → CapabilitySet
      → Result PolicyError ProviderExecutionPermit
  issue a bot caller bot_id bot_org grant = do
    raise_if (not (grant.capabilities provider_execute))
        (provider_policy_denied "provider_capability_denied")
    pair ← policy (authorize_provider_model getenv bot.provider bot.model)
    user ← user_id a
    ok (record {
      user_id = user;
      organization_id = caller;
      bot_id = bot_id;
      bot_organization_id = bot_org;
      provider = pair.0;
      model = pair.1;
      bot_tool_scope = scope_of bot.tool_scope;
      bot_visibility = visibility bot;
      credential_scope = scope_of bot.credential_scope;
      capability = provider_execute;
    })

  abbrev pub is_foreign : ℤ → ℤ → Bool
  is_foreign bot_org caller = not (eq_ℤ bot_org caller)

  abbrev pub is_public_bot : Bot → Bool
  is_public_bot bot = str_eq (visibility bot) "public"

  -- the guards on tenants, visibility and credentials, and the grant
  unfoldable pub admit :
      AuthorizationContext → Bot → ℤ → ℤ → ℤ → Result PolicyError ProviderExecutionPermit
  admit a bot caller bot_id bot_org = do
    raise_if (not (eq_ℤ a.organization.organization_id caller))
        (provider_policy_denied "authorization_tenant_mismatch")
    raise_if (is_foreign bot_org caller && not (is_public_bot bot))
        (provider_policy_denied "bot_not_accessible")
    raise_if (not (one_of (scope_of bot.credential_scope) ("organization" ∷ "platform" ∷ [])))
        (provider_policy_denied "credential_scope_denied")
    raise_if (is_foreign bot_org caller && not (str_eq (scope_of bot.credential_scope) "platform"))
        (provider_policy_denied "cross_tenant_credential_denied")
    grant ←
        or_rebound (derive_for a bot bot_id caller bot_org)
          (is_foreign bot_org caller && is_public_bot bot) (derive_for a bot bot_id caller caller)
    issue a bot caller bot_id bot_org grant

  unfoldable pub authorize_provider_execution :
      AuthorizationContext → Bot → ℤ → Result PolicyError ProviderExecutionPermit
  authorize_provider_execution a bot caller = do
    bot_id ← require (positive_id bot.id) (provider_policy_denied "invalid_bot_identity")
    bot_org ←
        require (positive_id bot.organization_id) (provider_policy_denied "invalid_bot_tenant")
    admit a bot caller bot_id bot_org

  abbrev pub same_id : Option ℤ → ℤ → Bool
  same_id none n = false
  same_id (some m) n = eq_ℤ m n

  -- `actual == expected`
  unfoldable pub agrees : ProviderExecutionPermit → Bot → ℤ → String → String → Bool
  agrees p bot caller provider model =
      eq_ℤ caller p.organization_id
      && (same_id bot.id p.bot_id
          && (same_id bot.organization_id p.bot_organization_id
              && (str_eq provider p.provider
                  && (str_eq model p.model
                      && (str_eq (scope_of bot.tool_scope) p.bot_tool_scope
                          && (str_eq (visibility bot) p.bot_visibility
                              && str_eq (scope_of bot.credential_scope) p.credential_scope))))))

  unfoldable pub assert_matches : ProviderExecutionPermit → Bot → ℤ → Result PolicyError (Unit {0})
  assert_matches p bot caller = do
    pair ← policy (authorize_provider_model getenv bot.provider bot.model)
    raise_if (not (agrees p bot caller pair.0 pair.1))
        (provider_policy_denied "permit_scope_mismatch")
