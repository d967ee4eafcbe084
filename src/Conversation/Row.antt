-- ===== src/Conversation/Row.antt =====
-- The row of `conversations`, and its mapping to and from the aggregate.
use eiraos_chat_backend.Prelude.{
  ℕ, String, Option, none, some, Bool, true, false, ◌||◌, not, str_eq, is_some, if◌then◌else◌,
}
use eiraos_chat_backend.Prelude.Int.{ℤ, eq_ℤ}
use eiraos_chat_backend.Prelude.Result.{Result, ok, err, ◌>>=◌, ◌>>◌, raise_if}
use eiraos_chat_backend.Conversation.State.{
  ConversationLifecycle, ConversationAggregate, ConversationStateError, reject, post_init,
}

-- `lifecycle` is a text; a row that is not yet stored has no id.
pub record Conversation : Type 0 where
  pub id : Option ℤ
  pub user_id : ℤ
  pub organization_id : ℤ
  pub title : String
  pub lifecycle : String
  pub version : ℤ
  pub created_at : ℕ
  pub updated_at : ℕ
  pub archived_at : Option ℕ

-- `ConversationLifecycle(text)` and `.value`
unfoldable pub lifecycle_value : ConversationLifecycle → String
lifecycle_value ConversationLifecycle.active = "active"
lifecycle_value ConversationLifecycle.archived = "archived"

unfoldable pub parse_lifecycle : String → Result ConversationStateError ConversationLifecycle
parse_lifecycle s =
    if str_eq s "active"
    then ok ConversationLifecycle.active
    else if str_eq s "archived"
    then ok ConversationLifecycle.archived
    else err (reject "not a valid ConversationLifecycle")

unfoldable pub hydrate_conversation :
    Conversation → Result ConversationStateError ConversationAggregate
hydrate_conversation row = do
  lifecycle ← parse_lifecycle row.lifecycle
  post_init (record {
    id = row.id;
    organization_id = row.organization_id;
    owner_user_id = row.user_id;
    title = row.title;
    lifecycle = lifecycle;
    version = row.version;
    created_at = row.created_at;
    updated_at = row.updated_at;
    archived_at = row.archived_at;
  })

unfoldable pub new_conversation : ConversationAggregate → Result ConversationStateError Conversation
new_conversation a = do
  raise_if (is_some a.id) (reject "new conversation aggregate already has an identity")
  ok (record {
    id = none;
    user_id = a.owner_user_id;
    organization_id = a.organization_id;
    title = a.title;
    lifecycle = lifecycle_value a.lifecycle;
    version = a.version;
    created_at = a.created_at;
    updated_at = a.updated_at;
    archived_at = a.archived_at;
  })

abbrev pub same_id : Option ℤ → Option ℤ → Bool
same_id none none = true
same_id none (some n) = false
same_id (some m) none = false
same_id (some m) (some n) = eq_ℤ m n

unfoldable pub apply_conversation :
    Conversation → ConversationAggregate → Result ConversationStateError Conversation
apply_conversation row a = do
  raise_if (not (same_id row.id a.id)) (reject "conversation identity mismatch")
  raise_if
      (not (eq_ℤ row.organization_id a.organization_id) || not (eq_ℤ row.user_id a.owner_user_id))
      (reject "conversation scope mismatch")
  ok (record row {
    title = a.title;
    lifecycle = lifecycle_value a.lifecycle;
    version = a.version;
    updated_at = a.updated_at;
    archived_at = a.archived_at;
  })
