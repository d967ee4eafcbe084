-- ===== src/Governance/Tenant.antt =====
-- Who the authorization boundary lets through.
use eiraos_chat_backend.Prelude.{
  ℕ, zero, suc, ◌≡◌, ◌↔◌, refl, sym, ap, ◌∙◌, String, Option, some, false, List, if◌then◌else◌,
  arith, ltb, ◌/◌, Bool-cases, Option-cases, inl, inr,
}
use eiraos_chat_backend.Prelude.Text.{digits, is_empty}
use eiraos_chat_backend.Prelude.Int.{ℤ, pos, negsuc, leb_ℤ}
use eiraos_chat_backend.Prelude.Result.{ok, err}
use eiraos_chat_backend.Prelude.Rows.{select}
use eiraos_chat_backend.Governance.Capabilities.{Principal, PrincipalType}
use eiraos_chat_backend.Governance.Decision.{Requested, decide_role_capability, make_principal}
use eiraos_chat_backend.Governance.Boundary.{
  OrganizationMember, Claim, missing, other, number, Identity, positive, decimal,
  authorization_denied, AuthorizationContext, is_member, resource_org, role_of, authorize_member,
  authorize,
}
use eiraos_chat_backend.Governance.Roles.{IsGranted, decide-IsGranted}

digits_nonempty : (fuel n : ℕ) (rest : String) → is_empty (digits fuel n rest) ≡ false
unfolding digits
digits_nonempty zero n rest = refl
digits_nonempty (suc fuel) n rest = elim (Bool-cases (ltb n 10)) [
  | inl last ↦ rw last
  | inr more ↦ rw more (digits_nonempty fuel (n / 10) _)
]

-- a positive integer
unfoldable pub Positive : ℤ → Type 0
Positive n = leb_ℤ n (pos 0) ≡ false

decimal_nonempty : (n : ℤ) → Positive n → is_empty (decimal n) ≡ false
unfolding decimal Positive
decimal_nonempty (pos n) h = digits_nonempty n n ""
decimal_nonempty (negsuc n) h = absurd (ground (arith, h))

unfoldable pub principal_of : PrincipalType → ℤ → ℤ → Principal
principal_of kind n organization = record {
  kind = kind;
  identifier = decimal n;
  organization_id = organization;
}

made :
    (kind : PrincipalType) (n organization : ℤ)
    → Positive n
    → Positive organization
    → make_principal kind (decimal n) organization ≡ ok (principal_of kind n organization)
unfolding make_principal Positive principal_of
made kind n organization hn ho = rw (decimal_nonempty n hn, ho)

-- What a context rests on.
pub record IsAuthorized (members : List OrganizationMember) (identity : Identity)
    (capability : Requested) (resource : Option ℤ) (c : AuthorizationContext) : Type 0 where
  pub user : ℤ
  pub organization : ℤ
  pub user_claim : positive identity.user_id ≡ some user
  pub organization_claim : positive identity.organization_id ≡ some organization
  pub member : OrganizationMember
  pub current : select (is_member user organization) members ≡ some member
  pub granted : IsGranted member.role capability organization (resource_org organization resource)
  pub context : c ≡ record {
    user = principal_of PrincipalType.user user organization;
    organization = principal_of PrincipalType.organization organization organization;
    role = role_of member;
    decision =
        decide_role_capability member.role capability organization
          (resource_org organization resource);
  }

positive_lem : (k : Claim) {n : ℤ} → positive k ≡ some n → Positive n
unfolding Positive
positive_lem missing h = cc
positive_lem other h = cc
positive_lem (number m) {n} h = elim (Bool-cases (leb_ℤ m (pos 0))) [
  | inl low ↦ absurd (cc (rw low at h))
  | inr high ↦ let same : m ≡ n = cc (rw high at h) in rw (sym same) high
]

-- A member whose role is refused is refused with the decision's reason; otherwise the context is
-- the one of the row.
authorize_member-cases :
    (user organization : ℤ) (capability : Requested) (resource : Option ℤ) (m : OrganizationMember)
    → Positive user
    → Positive organization
    → authorize_member user organization capability resource m ≡ (
        if (decide_role_capability m.role capability organization
          (resource_org organization resource)).allowed
        then ok (record {
          user = principal_of PrincipalType.user user organization;
          organization = principal_of PrincipalType.organization organization organization;
          role = role_of m;
          decision =
              decide_role_capability m.role capability organization
                (resource_org organization resource);
        })
        else err (
            authorization_denied
              (decide_role_capability m.role capability organization
                (resource_org organization resource)).reason
              (decide_role_capability m.role capability organization
                (resource_org organization resource)).capability))
authorize_member-cases user organization capability resource m hu ho =
    elim (Bool-cases
      (decide_role_capability m.role capability organization
        (resource_org organization resource)).allowed) [
          | inl allowed ↦ rw (
            allowed,
            made PrincipalType.user user organization hu ho,
            made PrincipalType.organization organization organization ho ho,
          )
          | inr denied ↦ rw denied
        ]

from_context :
    (members : List OrganizationMember) (identity : Identity) (capability : Requested)
    (resource : Option ℤ) {c : AuthorizationContext}
    → authorize members identity capability resource ≡ ok c
    → IsAuthorized members identity capability resource c
unfolding authorize
from_context members identity capability resource {c} h =
    elim (Option-cases (positive identity.user_id)) [
      | inl e ↦ absurd (cc (rw e at h))
      | inr (user, eu) ↦ elim (Option-cases (positive identity.organization_id)) [
        | inl e ↦ absurd (cc (rw (eu, e) at h))
        | inr (org, eo) ↦ elim (Option-cases (select (is_member user org) members)) [
          | inl e ↦ absurd (cc (rw (eu, eo, e) at h))
          | inr (m, em) ↦ go user org m eu eo em (
              sym (
                authorize_member-cases user org capability resource m
                  (positive_lem identity.user_id eu) (positive_lem identity.organization_id eo))
              ∙ rw (eu, eo, em) at h)
        ]
      ]
    ]
  where
    go :
        (user org : ℤ) (m : OrganizationMember)
        → positive identity.user_id ≡ some user
        → positive identity.organization_id ≡ some org
        → select (is_member user org) members ≡ some m
        → (if (decide_role_capability m.role capability org (resource_org org resource)).allowed
            then ok (record {
              user = principal_of PrincipalType.user user org;
              organization = principal_of PrincipalType.organization org org;
              role = role_of m;
              decision = decide_role_capability m.role capability org (resource_org org resource);
            })
            else err (
                authorization_denied
                  (decide_role_capability m.role capability org (resource_org org resource)).reason
                  (decide_role_capability m.role capability org
                    (resource_org org resource)).capability))
          ≡ ok c
        → IsAuthorized members identity capability resource c
    go user org m eu eo em k =
        elim (Bool-cases
          (decide_role_capability m.role capability org (resource_org org resource)).allowed) [
            | inr denied ↦ absurd (cc (rw denied at k))
            | inl allowed ↦ record {
              user = user;
              organization = org;
              user_claim = eu;
              organization_claim = eo;
              member = m;
              current = em;
              granted =
                  (decide-IsGranted m.role capability org (resource_org org resource)).0 allowed;
              context = cc (rw allowed at k);
            }
          ]

to_context :
    (members : List OrganizationMember) (identity : Identity) (capability : Requested)
    (resource : Option ℤ) {c : AuthorizationContext}
    → IsAuthorized members identity capability resource c
    → authorize members identity capability resource ≡ ok c
unfolding authorize decide_role_capability
to_context members identity capability resource {c} a =
    rw (a.user_claim, a.organization_claim, a.current)
      (authorize_member-cases a.user a.organization capability resource a.member
          (positive_lem identity.user_id a.user_claim)
          (positive_lem identity.organization_id a.organization_claim)
        ∙ rw
            ((decide-IsGranted a.member.role capability a.organization
                (resource_org a.organization resource)).1
              a.granted)
            (ap ok (sym a.context)))

-- The boundary answers with a context exactly when both claims are positive integers, there is a
-- membership row of that user in that organization, and that row's role grants the capability on
-- the resource, which is in the same organization; the context has that row's role.
pub authorize-IsAuthorized :
    (members : List OrganizationMember) (identity : Identity) (capability : Requested)
    (resource : Option ℤ) (c : AuthorizationContext)
    → (authorize members identity capability resource ≡ ok c)
      ↔ IsAuthorized members identity capability resource c
authorize-IsAuthorized members identity capability resource c = (
  from_context members identity capability resource,
  to_context members identity capability resource,
)
