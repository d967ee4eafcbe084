-- ===== src/Governance/Permit.antt =====
-- What an issued permit rests on, and the later check of it.
use eiraos_chat_backend.Prelude.{
  ℕ, ◌≡◌, ◌⊎◌, refl, ◌∙◌, String, Option, none, some, Bool, true, false, [], ◌∷◌, ◌&&◌, not, str_eq,
  arith, Bool-cases, Option-cases, inl, inr, eq_iff,
}
use eiraos_chat_backend.Prelude.Text.{one_of, read_digits}
use eiraos_chat_backend.Prelude.Int.{ℤ, pos, eq_ℤ}
use eiraos_chat_backend.Prelude.Result.{Result, ok, err, ◌>>=◌, Result-cases}
use eiraos_chat_backend.Governance.Capabilities.{
  provider_execute, role_capabilities, bot_scope_capabilities, set_of, cap_eq, position,
  PrincipalType, CapabilitySet,
}
use eiraos_chat_backend.Governance.Decision.{GrantError, normalize, make_principal}
use eiraos_chat_backend.Governance.Boundary.{AuthorizationContext, decimal}
use eiraos_chat_backend.Governance.Models.{authorize_provider_model}
use eiraos_chat_backend.Governance.Roles.{eq_of_eq_ℤ}
use eiraos_chat_backend.Governance.LeastPrivilege.{derive-IsLeastPrivilege}
use eiraos_chat_backend.Governance.Provider.{
  Bot, visibility, ProviderExecutionPermit, PolicyError, positive_id, natural, user_id, or_no_grant,
  user_grant_of, scope_of, derive_for, or_rebound, issue, is_foreign, is_public_bot, admit,
  authorize_provider_execution, assert_matches,
}
use eiraos_chat_backend.Governance.Agreement.{positive_id_lem, agrees_lem}

-- What the two grants of a derivation say of one capability.
HasBoth : AuthorizationContext → Bot → CapabilitySet → Type 0
HasBoth a bot s = s.capabilities provider_execute ≡ (
    (user_grant_of a).capabilities provider_execute
    && bot_scope_capabilities (normalize (some (scope_of bot.tool_scope))) provider_execute)

derive_for-HasBoth :
    (a : AuthorizationContext) (bot : Bot) (bot_id caller organization : ℤ) {s : CapabilitySet}
    → derive_for a bot bot_id caller organization ≡ ok s
    → HasBoth a bot s
unfolding derive_for HasBoth set_of cap_eq position
derive_for-HasBoth a bot bot_id caller organization {s} h =
    elim (Result-cases (make_principal PrincipalType.bot (decimal bot_id) organization)) [
      | inl (e, bad) ↦ absurd (cc (rw bad at h))
      | inr (p, made) ↦
          (derive-IsLeastPrivilege (user_grant_of a) p (some (scope_of bot.tool_scope))
              (set_of (provider_execute ∷ [])) _ (rw made at h)).exact
            provider_execute
          ∙ refl
    ]

rebound_lem :
    (r : Result GrantError CapabilitySet) (b : Bool) (again : Result GrantError CapabilitySet)
    {s : CapabilitySet}
    → or_rebound r b again ≡ ok s
    → (r ≡ ok s) ⊎ (again ≡ ok s)
rebound_lem (ok t) b again h = inl (cc h)
rebound_lem (err e) true (ok t) h = inr (cc h)
rebound_lem (err e) true (err f) h = cc
rebound_lem (err e) false again h = cc

natural_lem : (o : Option ℕ) {u : ℤ} → natural o ≡ ok u → (n : ℕ) × (o ≡ some n) × (u ≡ pos n)
natural_lem none h = absurd (cc h)
natural_lem (some n) h = (n, refl, cc h)

user_id_lem :
    (a : AuthorizationContext) {u : ℤ}
    → user_id a ≡ ok u
    → (n : ℕ) × (read_digits 0 a.user.identifier ≡ some n) × (u ≡ pos n)
unfolding user_id
user_id_lem a h = natural_lem (read_digits 0 a.user.identifier) h

module _ (getenv : String → Option String) where
  issue_lem :
      (a : AuthorizationContext) (bot : Bot) (caller bot_id bot_org : ℤ) (grant : CapabilitySet)
      {p : ProviderExecutionPermit}
      → issue getenv a bot caller bot_id bot_org grant ≡ ok p
      → (grant.capabilities provider_execute ≡ true)
        × ((pair : String × String) × (u : ℤ) × (authorize_provider_model getenv bot.provider
                bot.model
              ≡ ok pair)
            × (user_id a ≡ ok u)
            × (p ≡ record {
              user_id = u;
              organization_id = caller;
              bot_id = bot_id;
              bot_organization_id = bot_org;
              provider = pair.0;
              model = pair.1;
              bot_tool_scope = scope_of bot.tool_scope;
              bot_visibility = visibility bot;
              credential_scope = scope_of bot.credential_scope;
              capability = provider_execute;
            }))
  unfolding issue
  issue_lem a bot caller bot_id bot_org grant h =
      elim (Bool-cases (grant.capabilities provider_execute)) [
        | inr f ↦ absurd (ground (arith, f, h))
        | inl granted ↦
            elim (Result-cases (authorize_provider_model getenv bot.provider bot.model)) [
              | inl (e, bad) ↦ absurd (cc (rw (granted, bad) at h))
              | inr (pair, allowed) ↦ elim (Result-cases (user_id a)) [
                | inl (e, bad) ↦ absurd (cc (rw (granted, allowed, bad) at h))
                | inr (u, eu) ↦
                    (granted, (pair, u, allowed, eu, cc (rw (granted, allowed, eu) at h)))
              ]
            ]
      ]

  -- The bot is the caller's, or public and run on the platform's credential.
  abbrev pub Accessible : Bot → ℤ → ℤ → Type 0
  Accessible bot caller bot_org =
      (bot_org ≡ caller)
      ⊎ ((visibility bot ≡ "public") × (scope_of bot.credential_scope ≡ "platform"))

  -- What a permit rests on.
  pub record IsScoped (a : AuthorizationContext) (bot : Bot) (caller : ℤ)
      (p : ProviderExecutionPermit) : Type 0 where
    pub tenant : a.organization.organization_id ≡ caller
    pub for_caller : p.organization_id ≡ caller
    pub for_user : (n : ℕ) × (read_digits 0 a.user.identifier ≡ some n) × (p.user_id ≡ pos n)
    pub identity : bot.id ≡ some p.bot_id
    pub owner : bot.organization_id ≡ some p.bot_organization_id
    pub accessible : Accessible bot caller p.bot_organization_id
    pub role_grants : or_no_grant (role_capabilities a.role) provider_execute ≡ true
    pub scope_grants :
        bot_scope_capabilities (normalize (some (scope_of bot.tool_scope))) provider_execute ≡ true
    pub later_check : assert_matches getenv p bot caller ≡ ok tt

  -- The guards of the gate, read off a permit.
  record Passed (a : AuthorizationContext) (bot : Bot) (caller bot_id bot_org : ℤ)
      (p : ProviderExecutionPermit) : Type 0 where
    pub tenant : a.organization.organization_id ≡ caller
    pub accessible : Accessible bot caller bot_org
    pub grant : CapabilitySet
    pub both : HasBoth a bot grant
    pub issued : issue getenv a bot caller bot_id bot_org grant ≡ ok p

  Accessible-of :
      (bot : Bot) (caller bot_org : ℤ)
      → (is_foreign getenv bot_org caller && not (is_public_bot getenv bot)) ≡ false
      → (is_foreign getenv bot_org caller
          && not (str_eq (scope_of bot.credential_scope) "platform"))
        ≡ false
      → Accessible bot caller bot_org
  Accessible-of bot caller bot_org h k = elim (Bool-cases (eq_ℤ bot_org caller)) [
    | inl same ↦ inl (eq_of_eq_ℤ bot_org caller same)
    | inr foreign ↦ inr (
      (eq_iff (visibility bot) "public").0 (ground (arith, foreign, h)),
      (eq_iff (scope_of bot.credential_scope) "platform").0 (ground (arith, foreign, k)),
    )
  ]

  admit_lem :
      (a : AuthorizationContext) (bot : Bot) (caller bot_id bot_org : ℤ)
      {p : ProviderExecutionPermit}
      → admit getenv a bot caller bot_id bot_org ≡ ok p
      → Passed a bot caller bot_id bot_org p
  unfolding admit
  admit_lem a bot caller bot_id bot_org {p} h =
      elim (Bool-cases (eq_ℤ a.organization.organization_id caller)) [
        | inr f ↦ absurd (ground (arith, f, h))
        | inl t ↦
            elim (Bool-cases (is_foreign getenv bot_org caller && not (is_public_bot getenv bot))) [
              | inl f ↦ absurd (cc (rw (t, f) at h))
              | inr v ↦
                  elim (Bool-cases
                    (one_of (scope_of bot.credential_scope) ("organization" ∷ "platform" ∷ []))) [
                      | inr f ↦ absurd (cc (rw (t, v, f) at h))
                      | inl c ↦
                          elim (Bool-cases (
                            is_foreign getenv bot_org caller
                            && not (str_eq (scope_of bot.credential_scope) "platform"))) [
                              | inl f ↦ absurd (cc (rw (t, v, c, f) at h))
                              | inr x ↦
                                  go t v x
                                    (or_rebound (derive_for a bot bot_id caller bot_org)
                                      (is_foreign getenv bot_org caller && is_public_bot getenv bot)
                                      (derive_for a bot bot_id caller caller))
                                    refl (rw (t, v, c, x) at h)
                            ]
                    ]
            ]
      ]
    where
      go :
          eq_ℤ a.organization.organization_id caller ≡ true
          → (is_foreign getenv bot_org caller && not (is_public_bot getenv bot)) ≡ false
          → (is_foreign getenv bot_org caller
              && not (str_eq (scope_of bot.credential_scope) "platform"))
            ≡ false
          → (r : Result PolicyError CapabilitySet)
          → or_rebound
              (derive_for a bot bot_id caller bot_org)
              (is_foreign getenv bot_org caller && is_public_bot getenv bot)
              (derive_for a bot bot_id caller caller)
            ≡ r
          → (r >>= λ g. issue getenv a bot caller bot_id bot_org g) ≡ ok p
          → Passed a bot caller bot_id bot_org p
      go t v x (err e) er k = cc
      go t v x (ok g) er k = record {
        tenant = eq_of_eq_ℤ a.organization.organization_id caller t;
        accessible = Accessible-of bot caller bot_org v x;
        grant = g;
        both = elim (rebound_lem _ _ _ er) [
          | inl d ↦ derive_for-HasBoth a bot bot_id caller bot_org d
          | inr d ↦ derive_for-HasBoth a bot bot_id caller caller d
        ];
        issued = k;
      }

  both_true : (x y z : Bool) → x ≡ (y && z) → x ≡ true → (y ≡ true) × (z ≡ true)
  both_true x y z e h = ground (arith, e, h)

  IsScoped-of :
      (a : AuthorizationContext) (bot : Bot) (caller bot_id bot_org : ℤ)
      {p : ProviderExecutionPermit}
      → bot.id ≡ some bot_id
      → bot.organization_id ≡ some bot_org
      → Passed a bot caller bot_id bot_org p
      → IsScoped a bot caller p
  unfolding user_grant_of HasBoth assert_matches
  IsScoped-of a bot caller bot_id bot_org {p} ei eo w =
      let (granted, (pair, u, allowed, eu, ep)) =
        issue_lem a bot caller bot_id bot_org w.grant w.issued in
      let (role, scope) = both_true _ _ _ w.both granted in
      rw ep (record {
        tenant = w.tenant;
        for_caller = refl;
        for_user = user_id_lem a eu;
        identity = ei;
        owner = eo;
        accessible = w.accessible;
        role_grants = role;
        scope_grants = scope;
        later_check =
            rw (allowed, agrees_lem getenv bot caller bot_id bot_org u pair.0 pair.1 ei eo);
      })

  -- A permit that is issued is for the organization of the authorization, which is the caller's, and
  -- for the user that the authorization's identifier is the number of, and names the bot and the bot's owner; the bot is the caller's own, or it is public and runs on the
  -- platform's credential; the caller's role and the bot's tool scope both grant provider
  -- execution; and the check of the permit against the unchanged bot passes.
  pub authorize_provider_execution-IsScoped :
      (a : AuthorizationContext) (bot : Bot) (caller : ℤ) {p : ProviderExecutionPermit}
      → authorize_provider_execution getenv a bot caller ≡ ok p
      → IsScoped a bot caller p
  unfolding authorize_provider_execution
  authorize_provider_execution-IsScoped a bot caller h = elim (Option-cases (positive_id bot.id)) [
    | inl e ↦ absurd (cc (rw e at h))
    | inr (bot_id, ei) ↦ elim (Option-cases (positive_id bot.organization_id)) [
      | inl e ↦ absurd (cc (rw (ei, e) at h))
      | inr (bot_org, eo) ↦
          IsScoped-of a bot caller bot_id bot_org (positive_id_lem bot.id ei)
            (positive_id_lem bot.organization_id eo)
            (admit_lem a bot caller bot_id bot_org (rw (ei, eo) at h))
    ]
  ]
