-- ===== src/Memory/Traced.antt =====
-- What a trace shows.
use eiraos_chat_backend.Prelude.{
  ℕ, ◌+◌, ◌≤◌, ◌≡◌, ◌⊎◌, String, none, some, true, false, List, [], ◌∷◌, opt_str_eq, length, All,
}
use eiraos_chat_backend.Prelude.Text.{one_of}
use eiraos_chat_backend.Prelude.Rows.{select}
use eiraos_chat_backend.Prelude.Result.{Result, ok, err}
use eiraos_chat_backend.Chat.Database.{Message}
use eiraos_chat_backend.Memory.Records.{MemoryRecord, Tables}
use eiraos_chat_backend.Memory.Provenance.{
  ProvenanceError, Node, memory, unavailable_memory, unavailable_message, mismatched_memory,
  message, Trace, is_complete, source_item, source_message, is_message, Walk, memory_node,
}

module _ (sha256 : String → String) (organization user : ℕ) (t : Tables) where
  -- the record is in the caller's tenant, and the organization's or the caller's own
  abbrev pub IsShared : MemoryRecord → Type 0
  IsShared r =
      (r.organization_id ≡ organization)
      × ((r.scope_kind ≡ "organization") ⊎ (r.owner_user_id ≡ some user))

  abbrev pub IsAllowed : Node → Type 0
  IsAllowed (memory n) =
      (r : MemoryRecord) × (n ≡ memory_node sha256 organization user t r) × IsShared r
  IsAllowed (message id role hash is_verified) =
      (m : Message) × (m.id ≡ id) × (m.organization_id ≡ organization)
  IsAllowed unavailable_memory = Unit
  IsAllowed unavailable_message = Unit
  IsAllowed (mismatched_memory ref) = (r : MemoryRecord) × (r.item_id ≡ ref) × IsShared r

  -- no memory is shown twice, and none that was seen
  abbrev pub IsFresh : List String → List Node → Type 0
  IsFresh seen [] = Unit
  IsFresh seen (memory n ∷ nodes) = (one_of n.ref seen ≡ false) × IsFresh (n.ref ∷ seen) nodes
  IsFresh seen (message id role hash is_verified ∷ nodes) = IsFresh seen nodes
  IsFresh seen (unavailable_memory ∷ nodes) = IsFresh seen nodes
  IsFresh seen (unavailable_message ∷ nodes) = IsFresh seen nodes
  IsFresh seen (mismatched_memory ref ∷ nodes) = IsFresh seen nodes

  -- The nodes after that of a record, in a trace that is complete: its source is a memory that the
  -- caller may see, with the content that the record has the hash of, and so on; or it is a message
  -- of the organization, and the node says whether the content is the recorded one; or it has none.
  abbrev pub IsChain : MemoryRecord → List Node → Type 0
  IsChain r [] =
      (source_item r.source_memory_item_id ≡ none) × (source_message r.source_message_id ≡ none)
  IsChain r (memory n ∷ nodes) =
      (s : MemoryRecord) × (source_item r.source_memory_item_id ≡ some s.item_id)
      × IsShared s
      × (opt_str_eq r.provenance.source_sha256 (some (sha256 s.content)) ≡ true)
      × (n ≡ memory_node sha256 organization user t s)
      × IsChain s nodes
  IsChain r (message id role hash is_verified ∷ nodes) =
      (m : Message) × (source_item r.source_memory_item_id ≡ none)
      × (source_message r.source_message_id ≡ some id)
      × (select (is_message id organization) t.messages ≡ some m)
      × (hash ≡ sha256 m.content)
      × (is_verified ≡ opt_str_eq r.provenance.source_sha256 (some hash))
      × (nodes ≡ [])
  IsChain r (unavailable_memory ∷ nodes) = ⊥
  IsChain r (unavailable_message ∷ nodes) = ⊥
  IsChain r (mismatched_memory ref ∷ nodes) = ⊥

  -- the chain from a record that was found itself
  abbrev pub IsRooted : MemoryRecord → List Node → Type 0
  IsRooted r [] = ⊥
  IsRooted r (memory n ∷ nodes) = (n ≡ memory_node sha256 organization user t r) × IsChain r nodes
  IsRooted r (message id role hash is_verified ∷ nodes) = ⊥
  IsRooted r (unavailable_memory ∷ nodes) = ⊥
  IsRooted r (unavailable_message ∷ nodes) = ⊥
  IsRooted r (mismatched_memory ref ∷ nodes) = ⊥

  abbrev IsWalk : (List Node → Type 0) → ℕ → List String → Walk → Type 0
  IsWalk Chained left seen (nodes, end) =
      All IsAllowed nodes
      × (length nodes ≤ left + 1)
      × IsFresh seen nodes
      × (is_complete end ≡ true → Chained nodes)

  abbrev pub IsTrace : ℕ → Result ProvenanceError Trace → Type 0
  IsTrace max_depth (err e) = Unit
  IsTrace max_depth (ok x) =
      All IsAllowed x.nodes
      × (length x.nodes ≤ max_depth + 1)
      × (max_depth ≤ 100)
      × IsFresh [] x.nodes
      × (x.complete ≡ true → (r : MemoryRecord) × (r.item_id ≡ x.root_item_id) × IsRooted r x.nodes)
