-- ===== src/Completion/Access.antt =====
-- Which bots, verifiers and knowledge scopes a caller may use, and the system prompt.
use Prim.Native.String.{◌++◌ as join}
use eiraos_chat_backend.Prelude.{
  String, Option, none, some, Bool, true, false, List, [], ◌∷◌, ◌||◌, not, str_eq, any,
  if◌then◌else◌,
}
use eiraos_chat_backend.Prelude.Int.{ℤ, eq_ℤ}
use eiraos_chat_backend.Prelude.Text.{strip, is_empty, one_of, split_on}
use eiraos_chat_backend.Prelude.Result.{Result, ok, err}
use eiraos_chat_backend.Governance.Boundary.{AuthorizationContext}
use eiraos_chat_backend.Governance.Provider.{
  Bot, visibility, ProviderExecutionPermit, PolicyError, provider_policy_denied, uncaught,
  authorize_provider_execution,
}
use eiraos_chat_backend.Completion.Raised.{Raised, http_exception}

abbrev pub is_id : Option ℤ → Option ℤ → Bool
is_id none none = true
is_id none (some n) = false
is_id (some m) none = false
is_id (some m) (some n) = eq_ℤ m n

-- `_bot_accessible`
unfoldable pub bot_accessible : Bot → ℤ → Bool
bot_accessible bot org_id =
    is_id bot.organization_id (some org_id) || str_eq (visibility bot) "public"

-- `_verifier_bot_accessible`
unfoldable pub verifier_bot_accessible : Bot → ℤ → Bool
verifier_bot_accessible bot org_id = is_id bot.organization_id (some org_id)

abbrev pub is_dots : String → Bool
is_dots part = one_of part ("." ∷ ".." ∷ [])

-- `_valid_knowledge_scope`
unfoldable pub valid_knowledge_scope : Option String → Result Raised (Option String)
valid_knowledge_scope none = ok none
valid_knowledge_scope (some value) =
    let scope = strip value in
    if is_empty scope || is_dots scope || any is_dots (split_on 0x2f scope)
    then err (http_exception 422)
    else ok (some scope)

-- `_combined_system_prompt`
abbrev pub parts : Option String → List String → List String
parts none rest = rest
parts (some p) rest = if is_empty (strip p) then rest else strip p ∷ rest

abbrev pub paragraphs : List String → Option String
paragraphs [] = none
paragraphs (p ∷ []) = some p
paragraphs (p ∷ q ∷ ps) = some (join p (join "\n\n" q))

unfoldable pub combined_system_prompt : Option String → Option String → Option String
combined_system_prompt bot_prompt knowledge_context =
    paragraphs (parts bot_prompt (parts knowledge_context []))

module _ (getenv : String → Option String) (a : AuthorizationContext) (org_id : ℤ) where
  abbrev pub Found : Type 0
  Found = Result PolicyError (Bot × ProviderExecutionPermit)

  abbrev pub with_bot : Bot → Result PolicyError ProviderExecutionPermit → Found
  with_bot bot (ok permit) = ok (bot, permit)
  with_bot bot (err e) = err e

  -- a candidate's permit, or the search goes on
  abbrev pub or_next : Bot → Result PolicyError ProviderExecutionPermit → Found → Found
  or_next bot (ok permit) next = ok (bot, permit)
  or_next bot (err (provider_policy_denied reason)) next = next
  or_next bot (err (uncaught e)) next = err (uncaught e)

  abbrev pub is_unusable : Bot → Bool
  is_unusable bot =
      not (verifier_bot_accessible bot org_id) || is_empty bot.provider || is_empty bot.model

  abbrev pub primary_verifier : Bot → Found
  primary_verifier primary =
      if not (verifier_bot_accessible primary org_id)
      then err (provider_policy_denied "verifier_tenant_mismatch")
      else with_bot primary (authorize_provider_execution getenv a primary org_id)

  -- `_find_verifier_bot`, over the bots in the order of their ids
  unfoldable pub find_verifier_bot : Bot → List Bot → Found
  unfolding verifier_bot_accessible
  find_verifier_bot primary [] = primary_verifier primary
  find_verifier_bot primary (bot ∷ bots) =
      let next = find_verifier_bot primary bots in
      if is_id bot.id primary.id || is_unusable bot
      then next
      else or_next bot (authorize_provider_execution getenv a bot org_id) next
