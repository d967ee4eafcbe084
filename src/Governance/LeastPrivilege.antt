-- ===== src/Governance/LeastPrivilege.antt =====
-- What the grant of an execution is.
use eiraos_chat_backend.Prelude.{
  ◌≡◌, refl, sym, String, Option, true, ◌&&◌, ◌||◌, arith, Bool-cases, inl, inr,
}
use eiraos_chat_backend.Prelude.Text.{is_empty}
use eiraos_chat_backend.Prelude.Int.{ℤ, pos, eq_ℤ, leb_ℤ}
use eiraos_chat_backend.Prelude.Result.{ok, Result-cases}
use eiraos_chat_backend.Governance.Capabilities.{
  Capability, Grant, bot_scope_capabilities, Principal, PrincipalType, CapabilitySet,
}
use eiraos_chat_backend.Governance.Decision.{
  normalize, derive_execution_capabilities, make_principal, is_user, is_bot,
}
use eiraos_chat_backend.Governance.Roles.{eq_of_eq_ℤ}

-- What an execution's grant is.
pub record IsLeastPrivilege (user_grant : CapabilitySet) (bot : Principal) (scope : Option String)
    (requested : Grant) (execution_id : String) (s : CapabilitySet) : Type 0 where
  pub from_user : user_grant.principal.kind ≡ PrincipalType.user
  pub by_bot : bot.kind ≡ PrincipalType.bot
  pub one_tenant : user_grant.principal.organization_id ≡ bot.organization_id
  pub tenant : s.principal.organization_id ≡ bot.organization_id
  pub kind : s.principal.kind ≡ PrincipalType.execution
  pub identifier : s.principal.identifier ≡ execution_id
  pub exact :
      (c : Capability)
      → s.capabilities c
        ≡ (requested c && (user_grant.capabilities c && bot_scope_capabilities (normalize scope) c))

kind_user : (k : PrincipalType) → is_user k ≡ true → k ≡ PrincipalType.user
kind_user PrincipalType.user h = refl
kind_user PrincipalType.organization h = cc
kind_user PrincipalType.bot h = cc
kind_user PrincipalType.execution h = cc

kind_bot : (k : PrincipalType) → is_bot k ≡ true → k ≡ PrincipalType.bot
kind_bot PrincipalType.bot h = refl
kind_bot PrincipalType.organization h = cc
kind_bot PrincipalType.user h = cc
kind_bot PrincipalType.execution h = cc

-- An accepted principal is the one described.
made_principal :
    (kind : PrincipalType) (identifier : String) (org : ℤ) {p : Principal}
    → make_principal kind identifier org ≡ ok p
    → p ≡ record { kind = kind; identifier = identifier; organization_id = org }
unfolding make_principal
made_principal kind identifier org h =
    elim (Bool-cases (is_empty identifier || leb_ℤ org (pos 0))) [
      | inl bad ↦ absurd (ground (arith, bad, h))
      | inr good ↦ cc (rw good at h)
    ]

-- A derived grant belongs to the execution that was named, in the one organization of the user and
-- the bot, and has exactly the capabilities that were requested and that the user and the bot's
-- scope both have; there is none for a user that is no user, a bot that is no bot, or two tenants.
pub derive-IsLeastPrivilege :
    (user_grant : CapabilitySet) (bot : Principal) (scope : Option String) (requested : Grant)
    (execution_id : String) {s : CapabilitySet}
    → derive_execution_capabilities user_grant bot scope requested execution_id ≡ ok s
    → IsLeastPrivilege user_grant bot scope requested execution_id s
unfolding derive_execution_capabilities
derive-IsLeastPrivilege user_grant bot scope requested execution_id {s} h =
    elim (Bool-cases (is_user user_grant.principal.kind)) [
      | inr f ↦ absurd (ground (arith, f, h))
      | inl u ↦ elim (Bool-cases (is_bot bot.kind)) [
        | inr f ↦ absurd (ground (arith, u, f, h))
        | inl b ↦
            elim (Bool-cases (eq_ℤ user_grant.principal.organization_id bot.organization_id)) [
              | inr f ↦ absurd (ground (arith, u, b, f, h))
              | inl t ↦
                  elim (Result-cases
                    (make_principal PrincipalType.execution execution_id bot.organization_id)) [
                      | inl (e, bad) ↦ absurd (cc (rw (u, b, t, bad) at h))
                      | inr (p, made) ↦
                          go u b t p
                            (made_principal PrincipalType.execution execution_id bot.organization_id
                              made)
                            (cc (rw (u, b, t, made) at h))
                    ]
            ]
      ]
    ]
  where
    go :
        is_user user_grant.principal.kind ≡ true
        → is_bot bot.kind ≡ true
        → eq_ℤ user_grant.principal.organization_id bot.organization_id ≡ true
        → (p : Principal)
        → p ≡ record {
          kind = PrincipalType.execution;
          identifier = execution_id;
          organization_id = bot.organization_id;
        }
        → (record {
          principal = p;
          capabilities = λ c.
              requested c
              && (user_grant.capabilities c && bot_scope_capabilities (normalize scope) c);
        })
          ≡ s
        → IsLeastPrivilege user_grant bot scope requested execution_id s
    go u b t p made k = rw (sym k) (
        rw made (record {
          from_user = kind_user user_grant.principal.kind u;
          by_bot = kind_bot bot.kind b;
          one_tenant = eq_of_eq_ℤ user_grant.principal.organization_id bot.organization_id t;
          tenant = refl;
          kind = refl;
          identifier = refl;
          exact = λ c. refl;
        }))
