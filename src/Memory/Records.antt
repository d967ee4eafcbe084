-- ===== src/Memory/Records.antt =====
-- The rows of the store, which of them a caller sees, and the checks before a write. A provenance is
-- its declared entries, and those that the store sets itself, which replace them.
use eiraos_chat_backend.Prelude.{
  ℕ, String, Option, some, Bool, true, false, List, [], ◌∷◌, ◌&&◌, ◌||◌, not, str_eq, ◌==◌, ltb,
  opt_eq, is_none, if◌then◌else◌,
}
use eiraos_chat_backend.Prelude.Text.{strip, is_empty, char_count}
use eiraos_chat_backend.Prelude.Result.{Result, ◌>>◌, raise_if}
use eiraos_chat_backend.Prelude.Rows.{select, select_all}
use eiraos_chat_backend.Chat.Database.{Message}
use eiraos_chat_backend.Conversation.{Conversation}

pub data MemoryClass : Type 0 where
  conversation_history short_term_context persistent_memory user_org_knowledge : MemoryClass

abbrev pub is_durable : MemoryClass → Bool
is_durable persistent_memory = true
is_durable user_org_knowledge = true
is_durable _ = false

pub record Provenance : Type 0 where
  pub declared : List (String × String)
  pub actor_user_id : ℕ
  pub content_sha256 : String
  pub source_type : String
  pub source_message_id : Option ℕ
  pub source_memory_item_id : Option String
  pub source_class : Option MemoryClass
  pub source_sha256 : Option String

pub record MemoryRecord : Type 0 where
  pub id : ℕ
  pub item_id : String
  pub organization_id : ℕ
  pub owner_user_id : Option ℕ
  pub actor_user_id : ℕ
  pub memory_class : MemoryClass
  pub scope_kind : String
  pub content : String
  pub provenance : Provenance
  pub source_message_id : Option ℕ
  pub source_memory_item_id : Option String
  pub reason : String
  pub created_at : ℕ
  pub deleted_at : Option ℕ

pub record Tables : Type 0 where
  pub memories : List MemoryRecord
  pub messages : List Message
  pub conversations : List Conversation
  pub next_id : ℕ

-- `MemoryBoundaryError` and `PermissionError`
pub data MemoryError : Type 0 where
  boundary permission : String → MemoryError

-- the rows that a caller may see
unfoldable pub is_visible : ℕ → ℕ → MemoryRecord → Bool
is_visible organization user r =
    r.organization_id == organization
    && (is_none r.deleted_at
        && (str_eq r.scope_kind "organization" || opt_eq r.owner_user_id (some user)))

abbrev pub is_item : String → ℕ → ℕ → MemoryRecord → Bool
is_item item_id organization user r = str_eq r.item_id item_id && is_visible organization user r

unfoldable pub get : String → ℕ → ℕ → Tables → Option MemoryRecord
unfolding is_visible
get item_id organization user t = select (is_item item_id organization user) t.memories

-- ORDER BY created_at DESC, id DESC
abbrev pub is_newer : MemoryRecord → MemoryRecord → Bool
is_newer a b = ltb b.created_at a.created_at || a.created_at == b.created_at && ltb b.id a.id

unfoldable pub insert_newest : MemoryRecord → List MemoryRecord → List MemoryRecord
insert_newest a [] = a ∷ []
insert_newest a (b ∷ bs) =
    let rest = insert_newest a bs in if is_newer a b then a ∷ b ∷ bs else b ∷ rest

unfoldable pub newest_first : List MemoryRecord → List MemoryRecord
unfolding insert_newest
newest_first [] = []
newest_first (a ∷ bs) = insert_newest a (newest_first bs)

unfoldable pub list_memories : ℕ → ℕ → Tables → List MemoryRecord
unfolding newest_first is_visible
list_memories organization user t =
    newest_first (select_all (is_visible organization user) t.memories)

-- `_assert_mutation_scope`
abbrev pub is_admin : String → Bool
is_admin role = str_eq role "owner" || str_eq role "admin"

abbrev pub assert_mutation_scope : String → String → Result MemoryError (Unit {0})
assert_mutation_scope scope_kind actor_role =
    raise_if (str_eq scope_kind "organization" && not (is_admin actor_role))
      (permission "organization memory mutation requires admin authority")

abbrev pub no_entries : List (String × String) → Bool
no_entries [] = true
no_entries (entry ∷ entries) = false

-- `_validate`
unfoldable pub validate_memory :
    MemoryClass → String → String → List (String × String) → String → Result MemoryError (Unit {0})
validate_memory memory_class scope_kind content provenance reason = do
  raise_if (not (is_durable memory_class)) (boundary "ephemeral memory classes cannot be persisted")
  raise_if (not (str_eq scope_kind "user" || str_eq scope_kind "organization"))
      (boundary "memory scope must be explicit")
  raise_if (is_empty (strip content) || ltb 20000 (char_count content))
      (boundary "memory content is invalid")
  raise_if (no_entries provenance) (boundary "durable memory requires provenance")
  raise_if (is_empty (strip reason)) (boundary "memory operation requires a reason")

-- The arguments of a creation.
