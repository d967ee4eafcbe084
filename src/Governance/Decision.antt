-- ===== src/Governance/Decision.antt =====
-- The static role decision, and the least-privilege grant of one execution.
use eiraos_chat_backend.Prelude.{
  String, Option, none, some, Bool, true, false, List, [], ◌∷◌, ◌&&◌, ◌||◌, not, str_eq,
  if◌then◌else◌,
}
use eiraos_chat_backend.Prelude.Text.{strip, lower, or_empty, is_empty}
use eiraos_chat_backend.Prelude.Int.{ℤ, pos, eq_ℤ, leb_ℤ}
use eiraos_chat_backend.Prelude.Result.{Result, ok, ◌>>=◌, ◌>>◌, raise_if}
use eiraos_chat_backend.Governance.Capabilities.{
  Capability, value_of, all_capabilities, Grant, role_capabilities, bot_scope_capabilities,
  Principal, PrincipalType, CapabilitySet,
}

-- `Capability | str`
pub data Requested : Type 0 where
  typed : Capability → Requested
  named : String → Requested

abbrev find_value : String → List Capability → Option Capability
find_value s [] = none
find_value s (c ∷ cs) = if str_eq (value_of c) s then some c else find_value s cs

-- `_coerce_capability`
unfoldable pub coerce_capability : Requested → Option Capability
coerce_capability (typed c) = some c
coerce_capability (named s) = find_value s all_capabilities

pub record CapabilityDecision : Type 0 where
  pub allowed : Bool
  pub capability : Requested
  pub reason : String

abbrev pub verdict : Bool → Requested → String → CapabilityDecision
verdict allowed capability reason = record {
  allowed = allowed;
  capability = capability;
  reason = reason;
}

-- `(role or "").strip().lower()`
unfoldable pub normalize : Option String → String
normalize s = lower (strip (or_empty s))

abbrev pub decide_grant : Capability → Option Grant → CapabilityDecision
decide_grant c none = verdict false (typed c) "unknown_role"
decide_grant c (some grants) =
    if not (grants c)
    then verdict false (typed c) "capability_not_granted"
    else verdict true (typed c) "granted"

abbrev pub decide_parsed :
    Option String → Requested → ℤ → ℤ → Option Capability → CapabilityDecision
decide_parsed role requested principal_org resource_org none =
    verdict false requested "unknown_capability"
decide_parsed role requested principal_org resource_org (some c) =
    if not (eq_ℤ principal_org resource_org)
    then verdict false (typed c) "tenant_mismatch"
    else decide_grant c (role_capabilities (normalize role))

unfoldable pub decide_role_capability : Option String → Requested → ℤ → ℤ → CapabilityDecision
decide_role_capability role requested principal_org resource_org =
    decide_parsed role requested principal_org resource_org (coerce_capability requested)

-- `ValueError` and `PermissionError`
pub data GrantError : Type 0 where
  value_error permission_error : String → GrantError

-- `Principal.__post_init__`
unfoldable pub make_principal : PrincipalType → String → ℤ → Result GrantError Principal
make_principal kind identifier organization_id = do
  raise_if (is_empty identifier || leb_ℤ organization_id (pos 0))
      (value_error "principal identity and organization must be explicit")
  ok (record { kind = kind; identifier = identifier; organization_id = organization_id })

abbrev pub is_user : PrincipalType → Bool
is_user PrincipalType.user = true
is_user _ = false

abbrev pub is_bot : PrincipalType → Bool
is_bot PrincipalType.bot = true
is_bot _ = false

unfoldable pub derive_execution_capabilities :
    CapabilitySet → Principal → Option String → Grant → String → Result GrantError CapabilitySet
unfolding make_principal
derive_execution_capabilities user_grant bot_principal bot_scope requested execution_id = do
  raise_if (not (is_user user_grant.principal.kind))
      (value_error "execution authority must originate from a user grant")
  raise_if (not (is_bot bot_principal.kind)) (value_error "bot principal required")
  raise_if (not (eq_ℤ user_grant.principal.organization_id bot_principal.organization_id))
      (permission_error "cross-tenant execution grant denied")
  principal ← make_principal PrincipalType.execution execution_id bot_principal.organization_id
  ok (record {
    principal = principal;
    capabilities = λ c.
        requested c
        && (user_grant.capabilities c && bot_scope_capabilities (normalize bot_scope) c);
  })
