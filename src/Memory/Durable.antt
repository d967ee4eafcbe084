-- ===== src/Memory/Durable.antt =====
-- The operations of the store. The hash, the fresh identifier and the clock are arguments.
use eiraos_chat_backend.Prelude.{
  ℕ, suc, String, Option, none, some, Bool, true, false, List, [], ◌∷◌, ◌++◌, ◌&&◌, ◌||◌, not,
  str_eq, ◌==◌, if◌then◌else◌,
}
use eiraos_chat_backend.Prelude.Text.{strip}
use eiraos_chat_backend.Prelude.Int.{pos, eq_ℤ}
use eiraos_chat_backend.Prelude.Result.{Result, ok, err, ◌>>=◌, ◌>>◌}
use eiraos_chat_backend.Prelude.Rows.{select, update}
use eiraos_chat_backend.Chat.Database.{Message, is_completed}
use eiraos_chat_backend.Conversation.{Conversation, same_id}
use eiraos_chat_backend.Memory.Records.{
  MemoryClass, Provenance, MemoryRecord, Tables, MemoryError, boundary, is_item, get,
  assert_mutation_scope, validate_memory,
}

pub record NewMemory : Type 0 where
  pub organization_id : ℕ
  pub actor_user_id : ℕ
  pub actor_role : String
  pub memory_class : MemoryClass
  pub scope_kind : String
  pub content : String
  pub provenance : List (String × String)
  pub reason : String
  pub source_message_id : Option ℕ
  pub source_memory_item_id : Option String

-- the conversation of a message, which the query joins
abbrev pub is_conversation_of : Message → Bool → ℕ → Conversation → Bool
is_conversation_of m own user c =
    same_id c.id (some (pos m.conversation_id))
    && (eq_ℤ c.organization_id (pos m.organization_id) && (not own || eq_ℤ c.user_id (pos user)))

abbrev pub has_row : {A : Type 0} → Option A → Bool
has_row none = false
has_row (some a) = true

abbrev pub is_source : ℕ → ℕ → ℕ → Bool → List Conversation → Message → Bool
is_source message_id organization user own conversations m =
    m.id == message_id
    && (m.organization_id == organization
        && (is_completed m.status
            && has_row (select (is_conversation_of m own user) conversations)))

abbrev pub required {ℓ} : {A : Type ℓ} → String → Option A → Result MemoryError (Option A)
required reason none = err (boundary reason)
required reason (some a) = ok (some a)

-- `_load_message_source`, where a message is named
unfoldable pub load_message_source :
    NewMemory → Tables → Option ℕ → Result MemoryError (Option Message)
load_message_source x t none = ok none
load_message_source x t (some message_id) =
    required "source message is unavailable in target scope" (
      select
        (is_source message_id x.organization_id x.actor_user_id (str_eq x.scope_kind "user")
          t.conversations)
        t.messages)

unfoldable pub load_memory_source :
    NewMemory → Tables → Option String → Result MemoryError (Option MemoryRecord)
unfolding get
load_memory_source x t none = ok none
load_memory_source x t (some item_id) =
    required "source memory is unavailable in caller scope"
      (get item_id x.organization_id x.actor_user_id t)

abbrev item_of : Option MemoryRecord → Option String
item_of none = none
item_of (some r) = some r.item_id

module _ (sha256 : String → String) where
  abbrev pub declared : NewMemory → Provenance
  declared x = record {
    declared = x.provenance;
    actor_user_id = x.actor_user_id;
    content_sha256 = sha256 (strip x.content);
    source_type = "declared";
    source_message_id = none;
    source_memory_item_id = none;
    source_class = none;
    source_sha256 = none;
  }

  abbrev pub from_memory : Option MemoryRecord → Provenance → Provenance
  from_memory none p = p
  from_memory (some r) p = record p {
    source_type = "memory";
    source_memory_item_id = some r.item_id;
    source_class = some r.memory_class;
    source_sha256 = some (sha256 r.content);
  }

  abbrev pub from_message : Option Message → Provenance → Provenance
  from_message none p = p
  from_message (some m) p = record p {
    source_type = "message";
    source_message_id = some m.id;
    source_sha256 = some (sha256 m.content);
  }

  abbrev pub new_memory :
      String → ℕ → NewMemory → Option Message → Option MemoryRecord → ℕ → MemoryRecord
  new_memory item_id now x message source id = record {
    id = id;
    item_id = item_id;
    organization_id = x.organization_id;
    owner_user_id = if str_eq x.scope_kind "user" then some x.actor_user_id else none;
    actor_user_id = x.actor_user_id;
    memory_class = x.memory_class;
    scope_kind = x.scope_kind;
    content = strip x.content;
    provenance = from_message message (from_memory source (declared x));
    source_message_id = x.source_message_id;
    source_memory_item_id = item_of source;
    reason = strip x.reason;
    created_at = now;
    deleted_at = none;
  }

  abbrev pub insert_memory : MemoryRecord → Tables → Tables
  insert_memory r t = record t { memories = t.memories ++ r ∷ []; next_id = suc t.next_id }

  unfoldable pub create_memory :
      String → ℕ → NewMemory → Tables → Result MemoryError (MemoryRecord × Tables)
  unfolding validate_memory load_message_source load_memory_source
  create_memory item_id now x t = do
    validate_memory x.memory_class x.scope_kind x.content x.provenance x.reason
    assert_mutation_scope x.scope_kind x.actor_role
    message ← load_message_source x t x.source_message_id
    source ← load_memory_source x t x.source_memory_item_id
    let r = new_memory item_id now x message source t.next_id
    ok (r, insert_memory r t)

abbrev pub delete_found :
    ℕ → String → ℕ → ℕ → String → Tables → Option MemoryRecord → Result MemoryError (Bool × Tables)
delete_found now item_id organization user actor_role t none = ok (false, t)
delete_found now item_id organization user actor_role t (some r) = do
  assert_mutation_scope r.scope_kind actor_role
  ok (
    true,
    record t {
      memories =
          update (is_item item_id organization user)
            (λ (m : MemoryRecord). record m { deleted_at = some now }) t.memories;
    },
  )

unfoldable pub delete_memory :
    ℕ → String → ℕ → ℕ → String → Tables → Result MemoryError (Bool × Tables)
unfolding get
delete_memory now item_id organization user actor_role t =
    delete_found now item_id organization user actor_role t (get item_id organization user t)
