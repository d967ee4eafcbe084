-- ===== src/Governance/Boundary.antt =====
-- The authorization boundary: the current membership row decides, not the token's claims.
use eiraos_chat_backend.Prelude.{
  suc, String, Option, none, some, Bool, List, ◌&&◌, not, if◌then◌else◌,
}
use eiraos_chat_backend.Prelude.Text.{strip, lower, or_empty, digits}
use eiraos_chat_backend.Prelude.Int.{ℤ, pos, negsuc, eq_ℤ, leb_ℤ}
use eiraos_chat_backend.Prelude.Result.{Result, ok, err, ◌>>=◌, ◌>>◌, raise_if}
use eiraos_chat_backend.Prelude.Rows.{select}
use eiraos_chat_backend.Governance.Capabilities.{Principal, PrincipalType}
use eiraos_chat_backend.Governance.Decision.{
  Requested, CapabilityDecision, decide_role_capability, GrantError, make_principal,
}
use Prim.Native.String.{◌++◌ as append}

pub record OrganizationMember : Type 0 where
  pub organization_id : ℤ
  pub user_id : ℤ
  pub role : Option String

-- what `identity.get(name)` may be: nothing, an integer, or something else
pub data Claim : Type 0 where
  missing other : Claim
  number : ℤ → Claim

pub record Identity : Type 0 where
  pub user_id : Claim
  pub organization_id : Claim

-- `not isinstance(claim, int) or claim <= 0`, and else the integer
abbrev pub positive : Claim → Option ℤ
positive missing = none
positive other = none
positive (number n) = if leb_ℤ n (pos 0) then none else some n

-- `str(n)` of an integer
unfoldable pub decimal : ℤ → String
unfolding digits
decimal (pos n) = digits n n ""
decimal (negsuc n) = append "-" (digits (suc n) (suc n) "")

-- the denial, with its reason and capability, and what else a principal's constructor raises
pub data AuthorizationError : Type 0 where
  authorization_denied : String → Requested → AuthorizationError
  uncaught : GrantError → AuthorizationError

pub record AuthorizationContext : Type 0 where
  pub user : Principal
  pub organization : Principal
  pub role : String
  pub decision : CapabilityDecision

-- `raise … if the value is None`
abbrev pub require {ℓ κ} : {E : Type κ} {A : Type ℓ} → Option A → E → Result E A
require none e = err e
require (some a) e = ok a

-- a call whose errors are not caught here
abbrev pub passing {ℓ} : {A : Type ℓ} → Result GrantError A → Result AuthorizationError A
passing (ok a) = ok a
passing (err e) = err (uncaught e)

abbrev pub is_member : ℤ → ℤ → OrganizationMember → Bool
is_member user organization m = eq_ℤ m.user_id user && eq_ℤ m.organization_id organization

abbrev pub resource_org : ℤ → Option ℤ → ℤ
resource_org organization none = organization
resource_org organization (some resource) = resource

-- `(membership.role or "").strip().lower()`
abbrev pub role_of : OrganizationMember → String
role_of m = lower (strip (or_empty m.role))

abbrev pub authorize_member :
    ℤ
    → ℤ
    → Requested
    → Option ℤ
    → OrganizationMember
    → Result AuthorizationError AuthorizationContext
authorize_member user organization capability resource m =
    let decision =
      decide_role_capability m.role capability organization (resource_org organization resource) in
    do
      raise_if (not decision.allowed) (authorization_denied decision.reason decision.capability)
      u ← passing (make_principal PrincipalType.user (decimal user) organization)
      o ← passing (make_principal PrincipalType.organization (decimal organization) organization)
      ok (record { user = u; organization = o; role = role_of m; decision = decision })

unfoldable pub authorize :
    List OrganizationMember
    → Identity
    → Requested
    → Option ℤ
    → Result AuthorizationError AuthorizationContext
authorize members identity capability resource = do
  user ← require (positive identity.user_id) (authorization_denied "invalid_identity" capability)
  organization ←
      require (positive identity.organization_id) (authorization_denied "invalid_tenant" capability)
  m ←
      require (select (is_member user organization) members)
        (authorization_denied "membership_not_found" capability)
  authorize_member user organization capability resource m
