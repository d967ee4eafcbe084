-- ===== src/Conversation/State.antt =====
-- `ConversationAggregate`: construction with its checks, and the transitions, each of which
-- constructs anew. Instants are numbers; `now` is the instant that a call was given or read.
use eiraos_chat_backend.Prelude.{
  ℕ, String, Option, none, some, Bool, true, false, ◌||◌, ◌&&◌, not, ltb, is_some, is_none,
  if◌then◌else◌,
}
use eiraos_chat_backend.Prelude.Text.{strip, is_empty, char_count}
use eiraos_chat_backend.Prelude.Int.{ℤ, pos, ◌+ℤ◌, leb_ℤ, eq_ℤ}
use eiraos_chat_backend.Prelude.Result.{Result, ok, err, ◌>>=◌, ◌>>◌, raise_if}

pub data ConversationLifecycle : Type 0 where
  active archived : ConversationLifecycle

abbrev pub is_active : ConversationLifecycle → Bool
is_active ConversationLifecycle.active = true
is_active ConversationLifecycle.archived = false

-- `ConversationStateError`, by its reason
pub record ConversationStateError : Type 0 where
  pub reason : String

abbrev pub reject : String → ConversationStateError
reject reason = record { reason = reason }

pub record ConversationAggregate : Type 0 where
  pub id : Option ℤ
  pub organization_id : ℤ
  pub owner_user_id : ℤ
  pub title : String
  pub lifecycle : ConversationLifecycle
  pub version : ℤ
  pub created_at : ℕ
  pub updated_at : ℕ
  pub archived_at : Option ℕ

abbrev pub Checked : Type 0 → Type 0
Checked A = Result ConversationStateError A

-- `_title`
unfoldable pub normalize_title : String → Checked String
normalize_title value =
    let normalized = strip value in
    if is_empty normalized || ltb 255 (char_count normalized)
    then err (reject "invalid_title")
    else ok normalized

abbrev pub is_bad_id : Option ℤ → Bool
is_bad_id none = false
is_bad_id (some n) = leb_ℤ n (pos 0)

-- `__post_init__`
unfoldable pub post_init : ConversationAggregate → Checked ConversationAggregate
post_init a = do
  raise_if (is_bad_id a.id) (reject "invalid_identity")
  raise_if (leb_ℤ a.organization_id (pos 0) || leb_ℤ a.owner_user_id (pos 0))
      (reject "invalid_scope")
  raise_if (leb_ℤ a.version (pos 0)) (reject "invalid_version")
  title ← normalize_title a.title
  raise_if (is_active a.lifecycle && is_some a.archived_at)
      (reject "active_conversation_has_archive_time")
  raise_if (not (is_active a.lifecycle) && is_none a.archived_at)
      (reject "archived_conversation_missing_archive_time")
  ok (record a { title = title })

unfoldable pub create : ℤ → ℤ → String → ℕ → Checked ConversationAggregate
create organization_id owner_user_id title now = post_init (record {
  id = none;
  organization_id = organization_id;
  owner_user_id = owner_user_id;
  title = title;
  lifecycle = ConversationLifecycle.active;
  version = pos 1;
  created_at = now;
  updated_at = now;
  archived_at = none;
})

unfoldable pub assert_scope : ConversationAggregate → ℤ → ℤ → Checked (Unit {0})
assert_scope a organization_id user_id =
    raise_if (not (eq_ℤ organization_id a.organization_id) || not (eq_ℤ user_id a.owner_user_id))
      (reject "scope_mismatch")

unfoldable pub assert_accepts_execution : ConversationAggregate → Checked (Unit {0})
assert_accepts_execution a = raise_if (not (is_active a.lifecycle)) (reject "conversation_archived")

-- `_transition`: the given changes, with the next version
unfoldable pub transition : ConversationAggregate → Checked ConversationAggregate
transition a = post_init (record a { version = a.version +ℤ pos 1 })

unfoldable pub rename : String → ℕ → ConversationAggregate → Checked ConversationAggregate
unfolding assert_accepts_execution transition
rename title now a = do
  assert_accepts_execution a
  normalized ← normalize_title title
  transition (record a { title = normalized; updated_at = now })

unfoldable pub archive : ℕ → ConversationAggregate → Checked ConversationAggregate
unfolding transition
archive now a =
    if not (is_active a.lifecycle)
    then ok a
    else transition (record a {
      lifecycle = ConversationLifecycle.archived;
      archived_at = some now;
      updated_at = now;
    })

unfoldable pub reopen : ℕ → ConversationAggregate → Checked ConversationAggregate
unfolding transition
reopen now a =
    if is_active a.lifecycle
    then ok a
    else transition (record a {
      lifecycle = ConversationLifecycle.active;
      archived_at = none;
      updated_at = now;
    })
