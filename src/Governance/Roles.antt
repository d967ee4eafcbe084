-- ===== src/Governance/Roles.antt =====
-- What the role decision means.
use eiraos_chat_backend.Prelude.{
  ◌≡◌, ◌↔◌, refl, String, Option, none, some, true, arith, Bool-cases, inl, inr,
}
use eiraos_chat_backend.Prelude.Int.{ℤ, eq_ℤ, eq_of_parts}
use eiraos_chat_backend.Governance.Capabilities.{
  Capability, organization_read, value_of, Grant, role_capabilities,
}
use eiraos_chat_backend.Governance.Decision.{
  Requested, named, coerce_capability, decide_role_capability, decide_parsed, decide_grant,
  normalize,
}

-- Every capability is found again by its value, so no two capabilities share one.
pub coerce-value_of : (c : Capability) → coerce_capability (named (value_of c)) ≡ some c
unfolding coerce_capability value_of
coerce-value_of organization_read = refl
coerce-value_of _ = refl

-- What an allowed decision rests on.
pub record IsGranted (role : Option String) (requested : Requested) (org resource : ℤ)
    : Type 0 where
  pub capability : Capability
  pub known : coerce_capability requested ≡ some capability
  pub same_tenant : org ≡ resource
  pub grant : Grant
  pub role_known : role_capabilities (normalize role) ≡ some grant
  pub in_grant : grant capability ≡ true

pub eq_of_eq_ℤ : (a b : ℤ) → eq_ℤ a b ≡ true → a ≡ b
eq_of_eq_ℤ a b h = eq_of_parts a b (ground (arith, h))

pub eq_ℤ-refl : (a b : ℤ) → a ≡ b → eq_ℤ a b ≡ true
eq_ℤ-refl a b e = rw e (ground arith)

pub IsGranted-of :
    (role : Option String) (requested : Requested) (org resource : ℤ)
    → (decide_role_capability role requested org resource).allowed ≡ true
    → IsGranted role requested org resource
unfolding decide_role_capability
IsGranted-of role requested org resource h = go (coerce_capability requested) refl h
  where
    grants :
        (c : Capability) (g : Option Grant)
        → coerce_capability requested ≡ some c
        → org ≡ resource
        → role_capabilities (normalize role) ≡ g
        → (decide_grant c g).allowed ≡ true
        → IsGranted role requested org resource
    grants c none known same eg k = cc
    grants c (some g) known same eg k = elim (Bool-cases (g c)) [
      | inl e ↦ record {
        capability = c;
        known = known;
        same_tenant = same;
        grant = g;
        role_known = eg;
        in_grant = e;
      }
      | inr e ↦ absurd (ground (arith, e, k))
    ]

    go :
        (p : Option Capability)
        → coerce_capability requested ≡ p
        → (decide_parsed role requested org resource p).allowed ≡ true
        → IsGranted role requested org resource
    go none e k = cc
    go (some c) e k = elim (Bool-cases (eq_ℤ org resource)) [
      | inl same ↦
          grants c (role_capabilities (normalize role)) e (eq_of_eq_ℤ org resource same) refl
            (rw same at k)
      | inr other ↦ absurd (ground (arith, other, k))
    ]

pub allowed_of :
    (role : Option String) (requested : Requested) (org resource : ℤ)
    → IsGranted role requested org resource
    → (decide_role_capability role requested org resource).allowed ≡ true
unfolding decide_role_capability
allowed_of role requested org resource g =
    rw g.known (rw (eq_ℤ-refl org resource g.same_tenant) (rw g.role_known (rw g.in_grant)))

-- The decision is to allow exactly when the request names a known capability, the caller's and the
-- resource's organization are the same, the trimmed and lowered role is a known one, and that
-- role's grant has the capability; in every other case it is to deny.
pub decide-IsGranted :
    (role : Option String) (requested : Requested) (org resource : ℤ)
    → ((decide_role_capability role requested org resource).allowed ≡ true)
      ↔ IsGranted role requested org resource
decide-IsGranted role requested org resource =
    (IsGranted-of role requested org resource, allowed_of role requested org resource)
