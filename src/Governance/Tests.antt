-- ===== src/Governance/Tests.antt =====
-- Concrete runs of the authority model, and the theorems at them.
use eiraos_chat_backend.Prelude.{
  ◌≡◌, ◌↔◌, refl, String, Option, none, some, true, List, [], ◌∷◌, ◌&&◌,
}
use eiraos_chat_backend.Prelude.Text.{strip, lower, is_space, digits, read_digits, upper, one_of}
use eiraos_chat_backend.Prelude.Int.{pos}
use eiraos_chat_backend.Prelude.Result.{ok, err}
use eiraos_chat_backend.Prelude.Rows.{select}
use eiraos_chat_backend.Governance.Capabilities.{
  memory_write, provider_execute, tool_execute_elevated, cap_eq, position, set_of, member_grant,
  role_capabilities, bot_scope_capabilities, standard_scope, viewer_grant, Principal, PrincipalType,
  CapabilitySet,
}
use eiraos_chat_backend.Governance.Decision.{
  typed, named, coerce_capability, decide_role_capability, normalize, make_principal,
  derive_execution_capabilities,
}
use eiraos_chat_backend.Governance.Roles.{IsGranted, decide-IsGranted}
use eiraos_chat_backend.Governance.LeastPrivilege.{IsLeastPrivilege, derive-IsLeastPrivilege}
use eiraos_chat_backend.Governance.Boundary.{
  OrganizationMember, number, Identity, decimal, AuthorizationContext, authorize,
  authorization_denied,
}
use eiraos_chat_backend.Governance.Tenant.{IsAuthorized, authorize-IsAuthorized}
use eiraos_chat_backend.Governance.Models.{
  default_provider_models, provider_aliases, normalize_provider, configured_models,
  authorize_provider_model,
}
use eiraos_chat_backend.Governance.Provider.{
  Bot, visibility, ProviderExecutionPermit, user_id, user_grant_of, derive_for, issue, admit,
  authorize_provider_execution,
}
use eiraos_chat_backend.Governance.Permit.{IsScoped, authorize_provider_execution-IsScoped}

decide-IsGranted_example :
    ((decide_role_capability (some " Member ") (named "memory:write") (pos 7) (pos 7)).allowed
      ≡ true)
    ↔ IsGranted (some " Member ") (named "memory:write") (pos 7) (pos 7)
decide-IsGranted_example = decide-IsGranted (some " Member ") (named "memory:write") (pos 7) (pos 7)

member_writes :
    (decide_role_capability (some "member") (typed memory_write) (pos 7) (pos 7)).allowed ≡ true
unfolding decide_role_capability coerce_capability normalize role_capabilities strip lower is_space
    member_grant cap_eq position
member_writes = refl

abbrev caller : Principal
caller = record { kind = PrincipalType.user; identifier = "12"; organization_id = pos 7 }

abbrev helper_bot : Principal
helper_bot = record { kind = PrincipalType.bot; identifier = "3"; organization_id = pos 7 }

abbrev caller_grant : CapabilitySet
caller_grant = record { principal = caller; capabilities = member_grant }

abbrev run_grant : CapabilitySet
run_grant = record {
  principal = record {
    kind = PrincipalType.execution;
    identifier = "run-1";
    organization_id = pos 7;
  };
  capabilities = λ c.
      set_of (provider_execute ∷ tool_execute_elevated ∷ []) c
      && (member_grant c && bot_scope_capabilities (normalize (some "elevated")) c);
}

derives :
    derive_execution_capabilities caller_grant helper_bot
      (some "elevated")
      (set_of (provider_execute ∷ tool_execute_elevated ∷ []))
      "run-1"
    ≡ ok run_grant
unfolding derive_execution_capabilities make_principal
derives = refl

derive-IsLeastPrivilege_example :
    IsLeastPrivilege caller_grant helper_bot
      (some "elevated")
      (set_of (provider_execute ∷ tool_execute_elevated ∷ []))
      "run-1"
      run_grant
derive-IsLeastPrivilege_example =
    derive-IsLeastPrivilege caller_grant helper_bot (some "elevated")
      (set_of (provider_execute ∷ tool_execute_elevated ∷ [])) "run-1" derives

abbrev members : List OrganizationMember
members =
    record { organization_id = pos 7; user_id = pos 11; role = some "viewer" }
    ∷ record { organization_id = pos 7; user_id = pos 12; role = some "Member" }
    ∷ []

abbrev token : Identity
token = record { user_id = number (pos 12); organization_id = number (pos 7) }

abbrev context : AuthorizationContext
context = record {
  user = caller;
  organization = record {
    kind = PrincipalType.organization;
    identifier = "7";
    organization_id = pos 7;
  };
  role = "member";
  decision = record { allowed = true; capability = typed provider_execute; reason = "granted" };
}

authorized : authorize members token (typed provider_execute) none ≡ ok context
unfolding authorize decide_role_capability coerce_capability normalize role_capabilities strip lower
    is_space member_grant cap_eq position make_principal decimal select
authorized = refl

authorize-IsAuthorized_example :
    (authorize members token (typed provider_execute) none ≡ ok context)
    ↔ IsAuthorized members token (typed provider_execute) none context
authorize-IsAuthorized_example =
    authorize-IsAuthorized members token (typed provider_execute) none context

-- a viewer may read a bot but not run it, and a token without a user is refused
viewer_refused :
    authorize members
      (record { user_id = number (pos 11); organization_id = number (pos 7) })
      (typed provider_execute)
      none
    ≡ err (authorization_denied "capability_not_granted" (typed provider_execute))
unfolding authorize decide_role_capability coerce_capability normalize role_capabilities strip lower
    is_space viewer_grant cap_eq position select
viewer_refused = refl

abbrev no_settings : String → Option String
no_settings name = none

abbrev public_bot : Bot
public_bot = record {
  id = some (pos 3);
  organization_id = some (pos 9);
  provider = "Claude";
  model = " claude-3-5-haiku-20241022 ";
  bot_visibility = some "private";
  credential_scope = some "Platform";
  tool_scope = some "standard";
  is_public = true;
}

abbrev permit : ProviderExecutionPermit
permit = record {
  user_id = pos 12;
  organization_id = pos 7;
  bot_id = pos 3;
  bot_organization_id = pos 9;
  provider = "anthropic";
  model = "claude-3-5-haiku-20241022";
  bot_tool_scope = "standard";
  bot_visibility = "public";
  credential_scope = "platform";
  capability = provider_execute;
}

permitted : authorize_provider_execution no_settings context public_bot (pos 7) ≡ ok permit
unfolding authorize_provider_execution admit issue derive_for user_grant_of user_id visibility
    authorize_provider_model normalize_provider configured_models default_provider_models
    provider_aliases derive_execution_capabilities make_principal normalize role_capabilities
    bot_scope_capabilities member_grant standard_scope set_of cap_eq position strip lower is_space
    decimal digits read_digits upper one_of
permitted = refl

authorize_provider_execution-IsScoped_example :
    IsScoped no_settings context public_bot (pos 7) permit
authorize_provider_execution-IsScoped_example =
    authorize_provider_execution-IsScoped no_settings context public_bot (pos 7) permitted
