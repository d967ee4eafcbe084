-- ===== src/Memory/Provenance.antt =====
-- The provenance of a memory: src/eiraos/application/provenance.py. The walk from a record to its
-- source recurses on the depth that is left, as the source's loop over `range(max_depth)` does.
use eiraos_chat_backend.Prelude.{
  ℕ, zero, suc, String, Option, none, some, Bool, true, false, List, [], ◌∷◌, ◌&&◌, ◌||◌, str_eq,
  ◌==◌, ltb, opt_eq, opt_str_eq, is_none, is_some, if◌then◌else◌,
}
use eiraos_chat_backend.Prelude.Text.{one_of}
use eiraos_chat_backend.Prelude.Rows.{select}
use eiraos_chat_backend.Prelude.Result.{Result, ok, err, ◌>>◌, raise_if}
use eiraos_chat_backend.Chat.Database.{Message}
use eiraos_chat_backend.Memory.Records.{MemoryClass, MemoryRecord, Tables}

pub data ProvenanceError : Type 0 where
  value_error : ProvenanceError
  not_found : String → ProvenanceError

-- What the trace says of a memory; its reference is its item id.
pub record MemoryNode : Type 0 where
  pub ref : String
  pub memory_class : MemoryClass
  pub scope_kind : String
  pub actor_user_id : ℕ
  pub reason : String
  pub deleted : Bool
  pub content_sha256 : String
  pub is_verified : Bool

pub data Node : Type 0 where
  memory : MemoryNode → Node
  unavailable_memory unavailable_message : Node
  mismatched_memory : String → Node
  message : ℕ → String → String → Bool → Node

pub data Termination : Type 0 where
  cycle unavailable integrity_failure source declared depth_limit : Termination

pub record Trace : Type 0 where
  pub root_item_id : String
  pub nodes : List Node
  pub termination : Termination
  pub complete : Bool

-- `termination in {"source", "declared", "root"}`; the loop runs at least once, so "root" is no end
unfoldable pub is_complete : Termination → Bool
is_complete source = true
is_complete declared = true
is_complete cycle = false
is_complete unavailable = false
is_complete integrity_failure = false
is_complete depth_limit = false

-- the conditions of `_memory`
unfoldable pub is_traceable : String → ℕ → ℕ → Bool → MemoryRecord → Bool
is_traceable item_id organization user include_deleted r =
    str_eq r.item_id item_id
    && (r.organization_id == organization
        && ((str_eq r.scope_kind "organization" || opt_eq r.owner_user_id (some user))
            && (include_deleted || is_none r.deleted_at)))

-- truthiness of the columns that name a source
abbrev pub source_item : Option String → Option String
source_item none = none
source_item (some s) = if str_eq s "" then none else some s

abbrev pub source_message : Option ℕ → Option ℕ
source_message none = none
source_message (some id) = if id == 0 then none else some id

abbrev pub is_message : ℕ → ℕ → Message → Bool
is_message id organization m = m.id == id && m.organization_id == organization

abbrev pub Walk : Type 0
Walk = List Node × Termination

abbrev pub then_walk : Node → Walk → Walk
then_walk node (nodes, end) = (node ∷ nodes, end)

module _ (sha256 : String → String) (organization user : ℕ) (t : Tables) where
  unfoldable pub find_memory : String → Bool → Option MemoryRecord
  unfolding is_traceable
  find_memory item_id include_deleted =
      select (is_traceable item_id organization user include_deleted) t.memories

  unfoldable pub memory_node : MemoryRecord → MemoryNode
  memory_node r = record {
    ref = r.item_id;
    memory_class = r.memory_class;
    scope_kind = r.scope_kind;
    actor_user_id = r.actor_user_id;
    reason = r.reason;
    deleted = is_some r.deleted_at;
    content_sha256 = sha256 r.content;
    is_verified = str_eq r.provenance.content_sha256 (sha256 r.content);
  }

  abbrev pub at_message : MemoryRecord → Option Message → Walk
  at_message r none = (unavailable_message ∷ [], unavailable)
  at_message r (some m) =
      let actual = sha256 m.content in
      (
        message m.id m.role actual (opt_str_eq r.provenance.source_sha256 (some actual)) ∷ [],
        source,
      )

  abbrev pub to_message : MemoryRecord → Option ℕ → Walk
  to_message r none = ([], declared)
  to_message r (some id) = at_message r (select (is_message id organization) t.messages)

  -- `next` is the walk on from a source whose content is the one that was recorded
  abbrev pub at_source : MemoryRecord → (MemoryRecord → Walk) → Option MemoryRecord → Walk
  at_source r next none = (unavailable_memory ∷ [], unavailable)
  at_source r next (some s) =
      if opt_str_eq r.provenance.source_sha256 (some (sha256 s.content))
      then next s
      else (mismatched_memory s.item_id ∷ [], integrity_failure)

  abbrev pub to_source : MemoryRecord → (MemoryRecord → Walk) → Option String → Walk
  to_source r next none = to_message r (source_message r.source_message_id)
  to_source r next (some item_id) = at_source r next (find_memory item_id true)

  -- the rounds that are left, the references that were seen, and the current record
  unfoldable pub follow : ℕ → List String → MemoryRecord → Walk
  unfolding find_memory memory_node one_of
  follow zero seen r = ([], depth_limit)
  follow (suc left) seen r =
      if one_of r.item_id seen
      then ([], cycle)
      else then_walk (memory (memory_node r))
          (to_source r (follow left (r.item_id ∷ seen)) (source_item r.source_memory_item_id))

  abbrev pub traced : MemoryRecord → Walk → Trace
  traced root (nodes, end) = record {
    root_item_id = root.item_id;
    nodes = nodes;
    termination = end;
    complete = is_complete end;
  }

  abbrev pub found : ℕ → String → Option MemoryRecord → Result ProvenanceError Trace
  found max_depth item_id none = err (not_found item_id)
  found max_depth item_id (some root) = ok (traced root (follow max_depth [] root))

  -- the resolver with its depth
  unfoldable pub trace : ℕ → String → Result ProvenanceError Trace
  unfolding follow is_complete
  trace max_depth item_id = do
    raise_if (max_depth == 0 || ltb 100 max_depth) value_error
    found max_depth item_id (find_memory item_id false)
