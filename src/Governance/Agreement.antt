-- ===== src/Governance/Agreement.antt =====
-- The check of a permit against the bot that it was issued for.
use eiraos_chat_backend.Prelude.{
  ◌≡◌, refl, String, Option, none, some, true, Bool-cases, inl, inr, eq_refl,
}
use eiraos_chat_backend.Prelude.Int.{ℤ, pos, leb_ℤ}
use eiraos_chat_backend.Governance.Capabilities.{provider_execute}
use eiraos_chat_backend.Governance.Roles.{eq_ℤ-refl}
use eiraos_chat_backend.Governance.Provider.{Bot, visibility, positive_id, scope_of, agrees}

pub positive_id_lem : (o : Option ℤ) {n : ℤ} → positive_id o ≡ some n → o ≡ some n
positive_id_lem none h = cc
positive_id_lem (some m) h = elim (Bool-cases (leb_ℤ m (pos 0))) [
  | inl low ↦ absurd (cc (rw low at h))
  | inr high ↦ rw high at h
]

module _ (getenv : String → Option String) where
  -- A permit with the bot's own values agrees with the bot.
  pub agrees_lem :
      (bot : Bot) (caller bot_id bot_org user : ℤ) (provider model : String)
      → bot.id ≡ some bot_id
      → bot.organization_id ≡ some bot_org
      → agrees getenv
          (record {
            user_id = user;
            organization_id = caller;
            bot_id = bot_id;
            bot_organization_id = bot_org;
            provider = provider;
            model = model;
            bot_tool_scope = scope_of bot.tool_scope;
            bot_visibility = visibility bot;
            credential_scope = scope_of bot.credential_scope;
            capability = provider_execute;
          })
          bot
          caller
          provider
          model
        ≡ true
  unfolding agrees visibility
  agrees_lem bot caller bot_id bot_org user provider model ei eo = rw (
    ei,
    eo,
    eq_ℤ-refl caller caller refl,
    eq_ℤ-refl bot_id bot_id refl,
    eq_ℤ-refl bot_org bot_org refl,
    eq_refl provider,
    eq_refl model,
    eq_refl (scope_of bot.tool_scope),
    eq_refl (visibility bot),
    eq_refl (scope_of bot.credential_scope),
  )
