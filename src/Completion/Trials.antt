-- ===== src/Completion/Trials.antt =====
-- A request that is refused for want of a budget, and the choice of a verifier.
use eiraos_chat_backend.Prelude.{◌≡◌, refl, String, Option, none, some, true, false, [], ◌∷◌}
use eiraos_chat_backend.Prelude.Int.{pos}
use eiraos_chat_backend.Prelude.Text.{
  strip, is_space, lower, upper, digits, read_digits, one_of, char_count,
}
use eiraos_chat_backend.Prelude.Result.{ok}
use eiraos_chat_backend.Idempotency.Record
use eiraos_chat_backend.Conversation.{
  Conversation, hydrate_conversation, assert_accepts_execution, parse_lifecycle, post_init,
  normalize_title,
}
use eiraos_chat_backend.Governance.Capabilities.{
  provider_execute, cap_eq, position, set_of, member_grant, role_capabilities,
  bot_scope_capabilities, standard_scope, PrincipalType,
}
use eiraos_chat_backend.Governance.Decision.{
  typed, normalize, make_principal, derive_execution_capabilities,
}
use eiraos_chat_backend.Governance.Boundary.{decimal, AuthorizationContext}
use eiraos_chat_backend.Governance.Models.{
  default_provider_models, provider_aliases, normalize_provider, configured_models,
  authorize_provider_model,
}
use eiraos_chat_backend.Governance.Provider.{
  Bot, visibility, user_id, user_grant_of, derive_for, issue, admit, authorize_provider_execution,
}
use eiraos_chat_backend.Chat.Failure.{database_failure}
use eiraos_chat_backend.Completion.Access.{bot_accessible, valid_knowledge_scope, find_verifier_bot}
use eiraos_chat_backend.Completion.Verifier.{IsTenantVerifier, find_verifier_bot-IsTenantVerifier}
use eiraos_chat_backend.Completion.Preflight.{Environment, record_result, release_lease}
use eiraos_chat_backend.Completion.Prepare.{
  nothing_held, authorize, reserve_idempotency, reserve_budget, prepare,
}
use eiraos_chat_backend.Completion.FailPreflight.{fail_preflight, preflight}

abbrev no_settings : String → Option String
no_settings name = none

abbrev context : AuthorizationContext
context = record {
  user = record { kind = PrincipalType.user; identifier = "12"; organization_id = pos 7 };
  organization = record {
    kind = PrincipalType.organization;
    identifier = "7";
    organization_id = pos 7;
  };
  role = "member";
  decision = record { allowed = true; capability = typed provider_execute; reason = "granted" };
}

abbrev own_bot : Bot
own_bot = record {
  id = some (pos 4);
  organization_id = some (pos 7);
  provider = "openai";
  model = "gpt-4o";
  bot_visibility = some "private";
  credential_scope = some "organization";
  tool_scope = some "standard";
  is_public = false;
}

abbrev second_bot : Bot
second_bot = record own_bot { id = some (pos 5) }

abbrev public_bot : Bot
public_bot = record own_bot { id = some (pos 3); organization_id = some (pos 9); is_public = true }

abbrev row : Conversation
row = record {
  id = some (pos 3);
  organization_id = pos 7;
  user_id = pos 12;
  title = "tea";
  lifecycle = "active";
  version = pos 1;
  created_at = 10;
  updated_at = 10;
  archived_at = none;
}

abbrev environment : Environment
environment = record {
  getenv = no_settings;
  authorization = context;
  org_id = pos 7;
  knowledge_scope = none;
  find_conversation = ok (some row);
  find_bot = ok (some own_bot);
  record_decision = λ allowed. some "d1";
  record_preflight = λ status code. true;
  record_replay = true;
  releases_tenant = true;
  finalizes = λ status code. true;
  releases_lease = λ status. true;
  resolve_key = ok (some "k");
  begin = λ key. ok (record {
    status = Record.Status.processing;
    lease_token = some "token";
    record_id = some 5;
    is_recovery = false;
  });
  read_cached = λ key. ok none;
  assert_recovery_allowed = λ execution_id. ok tt;
  execution_identity = λ key record_id. "run";
  has_redis = false;
  is_development = false;
  has_limits = false;
  reserve_local = ok tt;
  reserve_distributed = λ execution_id. ok tt;
  prepare_exchange = λ execution_id. ok "run";
  bind_provider = ok tt;
  build_context = ok tt;
}

-- with no budget the lease is given back, and the decision gets its result
refused :
    (preflight environment nothing_held).1.acts
    ≡ release_lease 503 ∷ record_result 503 database_failure ∷ []
unfolding preflight prepare authorize authorize_provider_execution admit issue derive_for
    user_grant_of user_id visibility bot_accessible valid_knowledge_scope authorize_provider_model
    normalize_provider configured_models default_provider_models provider_aliases
    derive_execution_capabilities make_principal normalize role_capabilities bot_scope_capabilities
    member_grant standard_scope set_of cap_eq position strip lower is_space decimal digits
    read_digits upper one_of reserve_idempotency reserve_budget fail_preflight hydrate_conversation
    assert_accepts_execution parse_lifecycle post_init normalize_title char_count
refused = refl

find_verifier_bot-IsTenantVerifier_example :
    IsTenantVerifier no_settings context
      (pos 7)
      (find_verifier_bot no_settings context (pos 7) own_bot (public_bot ∷ second_bot ∷ []))
find_verifier_bot-IsTenantVerifier_example =
    find_verifier_bot-IsTenantVerifier no_settings context (pos 7) own_bot
      (public_bot ∷ second_bot ∷ [])
