-- ===== src/Memory/Tests.antt =====
-- A private memory, created and deleted.
use eiraos_chat_backend.Prelude.{◌≡◌, refl, String, none, some, true, [], ◌∷◌, inr, arith, length}
use eiraos_chat_backend.Prelude.Text.{one_of, strip, lstrip, rstrip, is_space, char_count}
use eiraos_chat_backend.Prelude.Rows.{select, select_all, update}
use eiraos_chat_backend.Prelude.Result.{ok}
use eiraos_chat_backend.Memory.Durable.{
  NewMemory, load_message_source, load_memory_source, new_memory, insert_memory, create_memory,
  delete_memory,
}
use eiraos_chat_backend.Memory.Records.{
  persistent_memory, MemoryRecord, Tables, is_visible, get, insert_newest, newest_first,
  list_memories, validate_memory,
}
use eiraos_chat_backend.Memory.Provenance.{cycle, is_traceable, find_memory, memory_node, follow}
use eiraos_chat_backend.Memory.Isolation.{Elsewhere, create_isolated}

abbrev digest : String → String
digest s = s

abbrev empty : Tables
empty = record { memories = []; messages = []; conversations = []; next_id = 1 }

abbrev note : NewMemory
note = record {
  organization_id = 7;
  actor_user_id = 12;
  actor_role = "member";
  memory_class = persistent_memory;
  scope_kind = "user";
  content = " likes tea ";
  provenance = ("by", "user") ∷ [];
  reason = "asked";
  source_message_id = none;
  source_memory_item_id = none;
}

unfoldable row : MemoryRecord
row = new_memory digest "m1" 100 note none none 1

unfoldable noted : Tables
unfolding row
noted = insert_memory digest row empty

created : create_memory digest "m1" 100 note empty ≡ ok (row, noted)
unfolding row noted create_memory validate_memory load_message_source load_memory_source strip
    lstrip rstrip is_space char_count
created = refl

away : Elsewhere 7 12 7 13 "user"
unfolding Elsewhere
away = inr ((λ h. omega (arith, h)), refl)

create_isolated_example : list_memories 7 13 noted ≡ list_memories 7 13 empty
create_isolated_example = create_isolated digest "m1" 100 note empty 7 13 created away

owner_sees : length (list_memories 7 12 noted) ≡ 1
unfolding noted row list_memories newest_first insert_newest is_visible select_all
owner_sees = refl

unfoldable forgotten : Tables
unfolding noted
forgotten = record noted { memories = record row { deleted_at = some 200 } ∷ [] }

deleted : delete_memory 200 "m1" 7 12 "member" noted ≡ ok (true, forgotten)
unfolding forgotten noted row delete_memory get select update is_visible
deleted = refl

-- two memories that name one another as their source
unfoldable linked : String → String → MemoryRecord
unfolding row
linked item_id source_id = record row {
  item_id = item_id;
  source_memory_item_id = some source_id;
  provenance = record row.provenance { source_sha256 = some "likes tea" };
}

unfoldable circle : Tables
unfolding linked
circle = record empty { memories = linked "m1" "m2" ∷ linked "m2" "m1" ∷ [] }

circle_ends : (follow digest 7 12 circle 5 [] (linked "m1" "m2")).1 ≡ cycle
unfolding circle linked row follow find_memory is_traceable memory_node one_of select strip lstrip
    rstrip is_space
circle_ends = refl
