-- ===== src/Governance/Capabilities.antt =====
-- The capabilities, the grants of the roles and of the bot scopes, and the principals.
use eiraos_chat_backend.Prelude.{
  ℕ, String, Option, none, some, Bool, true, List, [], ◌∷◌, ◌&&◌, not, ◌==◌, str_eq, any,
  if◌then◌else◌,
}
use eiraos_chat_backend.Prelude.Int.{ℤ, eq_ℤ}

pub data Capability : Type 0 where
  organization_read organization_update member_invite member_remove : Capability
  member_manage bot_read bot_create bot_update : Capability
  bot_delete document_read document_upload document_delete : Capability
  conversation_read conversation_create conversation_delete memory_read : Capability
  memory_write memory_delete usage_read secret_manage : Capability
  provider_execute tool_execute_standard tool_execute_elevated : Capability

-- the value of the string enumeration
unfoldable pub value_of : Capability → String
value_of organization_read = "organization:read"
value_of organization_update = "organization:update"
value_of member_invite = "member:invite"
value_of member_remove = "member:remove"
value_of member_manage = "member:manage"
value_of bot_read = "bot:read"
value_of bot_create = "bot:create"
value_of bot_update = "bot:update"
value_of bot_delete = "bot:delete"
value_of document_read = "document:read"
value_of document_upload = "document:upload"
value_of document_delete = "document:delete"
value_of conversation_read = "conversation:read"
value_of conversation_create = "conversation:create"
value_of conversation_delete = "conversation:delete"
value_of memory_read = "memory:read"
value_of memory_write = "memory:write"
value_of memory_delete = "memory:delete"
value_of usage_read = "usage:read"
value_of secret_manage = "secret:manage"
value_of provider_execute = "provider:execute"
value_of tool_execute_standard = "tool:execute:standard"
value_of tool_execute_elevated = "tool:execute:elevated"

-- the place of a capability in the enumeration, by which two are compared
unfoldable pub position : Capability → ℕ
position organization_read = 0
position organization_update = 1
position member_invite = 2
position member_remove = 3
position member_manage = 4
position bot_read = 5
position bot_create = 6
position bot_update = 7
position bot_delete = 8
position document_read = 9
position document_upload = 10
position document_delete = 11
position conversation_read = 12
position conversation_create = 13
position conversation_delete = 14
position memory_read = 15
position memory_write = 16
position memory_delete = 17
position usage_read = 18
position secret_manage = 19
position provider_execute = 20
position tool_execute_standard = 21
position tool_execute_elevated = 22

unfoldable pub cap_eq : Capability → Capability → Bool
unfolding position
cap_eq a b = position a == position b

-- the enumeration in its order
abbrev pub all_capabilities : List Capability
all_capabilities =
    organization_read ∷ organization_update ∷ member_invite ∷ member_remove ∷ member_manage
    ∷ bot_read ∷ bot_create ∷ bot_update ∷ bot_delete ∷ document_read ∷ document_upload
    ∷ document_delete ∷ conversation_read ∷ conversation_create ∷ conversation_delete ∷ memory_read
    ∷ memory_write ∷ memory_delete ∷ usage_read ∷ secret_manage ∷ provider_execute
    ∷ tool_execute_standard ∷ tool_execute_elevated ∷ []

-- `frozenset[Capability]`, by its membership test
abbrev pub Grant : Type 0
Grant = Capability → Bool

unfoldable pub set_of : List Capability → Grant
unfolding cap_eq
set_of cs c = any (cap_eq c) cs

unfoldable pub owner_grant : Grant
owner_grant c = true

unfoldable pub admin_grant : Grant
unfolding set_of
admin_grant c = not (set_of (organization_update ∷ member_manage ∷ secret_manage ∷ []) c)

unfoldable pub member_grant : Grant
unfolding set_of
member_grant = set_of (
    bot_read ∷ document_read ∷ document_upload ∷ conversation_read ∷ conversation_create
    ∷ conversation_delete ∷ memory_read ∷ memory_write ∷ memory_delete ∷ usage_read
    ∷ provider_execute ∷ tool_execute_standard ∷ [])

unfoldable pub viewer_grant : Grant
unfolding set_of
viewer_grant = set_of (bot_read ∷ document_read ∷ conversation_read ∷ memory_read ∷ [])

-- `ROLE_CAPABILITIES.get(role)`
unfoldable pub role_capabilities : String → Option Grant
role_capabilities role =
    if str_eq role "owner"
    then some owner_grant
    else if str_eq role "admin"
    then some admin_grant
    else if str_eq role "member"
    then some member_grant
    else if str_eq role "viewer"
    then some viewer_grant
    else none

unfoldable pub restricted_scope : Grant
unfolding set_of
restricted_scope = set_of (provider_execute ∷ [])

unfoldable pub standard_scope : Grant
unfolding set_of
standard_scope = set_of (provider_execute ∷ tool_execute_standard ∷ [])

unfoldable pub elevated_scope : Grant
unfolding set_of
elevated_scope = set_of (provider_execute ∷ tool_execute_standard ∷ tool_execute_elevated ∷ [])

-- `BOT_SCOPE_CAPABILITIES.get(scope, frozenset())`
unfoldable pub bot_scope_capabilities : String → Grant
bot_scope_capabilities scope =
    if str_eq scope "restricted"
    then restricted_scope
    else if str_eq scope "standard"
    then standard_scope
    else if str_eq scope "elevated"
    then elevated_scope
    else set_of []

pub data PrincipalType : Type 0 where
  user organization bot execution : PrincipalType

-- An identifier that the constructor accepted is not empty, and the organization is positive.
pub record Principal : Type 0 where
  pub kind : PrincipalType
  pub identifier : String
  pub organization_id : ℤ

pub record CapabilitySet : Type 0 where
  pub principal : Principal
  pub capabilities : Grant

unfoldable pub allows : CapabilitySet → Capability → ℤ → Bool
allows s capability organization_id =
    eq_ℤ organization_id s.principal.organization_id && s.capabilities capability
