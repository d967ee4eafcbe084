-- ===== src/Conversation/Mapping.antt =====
-- The row of a conversation and the aggregate, there and back.
use eiraos_chat_backend.Prelude.{◌≡◌, refl, Option, none, some, true, arith}
use eiraos_chat_backend.Prelude.Int.{ℤ, eq_ℤ}
use eiraos_chat_backend.Prelude.Result.{ok, ◌>>=◌}
use eiraos_chat_backend.Conversation.State.{
  ConversationLifecycle, active, archived, ConversationAggregate,
}
use eiraos_chat_backend.Conversation.Row.{
  Conversation, lifecycle_value, parse_lifecycle, hydrate_conversation, new_conversation,
  apply_conversation, same_id,
}
use eiraos_chat_backend.Conversation.Validity.{IsValid, post_init_stable}

parse-lifecycle_value : (l : ConversationLifecycle) → parse_lifecycle (lifecycle_value l) ≡ ok l
unfolding parse_lifecycle lifecycle_value
parse-lifecycle_value active = refl
parse-lifecycle_value archived = refl

eq_ℤ_refl : (n : ℤ) → eq_ℤ n n ≡ true
eq_ℤ_refl n = ground arith

same_id_refl : (o : Option ℤ) → same_id o o ≡ true
same_id_refl none = refl
same_id_refl (some n) = eq_ℤ_refl n

-- the row that carries an aggregate
abbrev pub row_of : Option ℤ → ConversationAggregate → Conversation
row_of id a = record {
  id = id;
  user_id = a.owner_user_id;
  organization_id = a.organization_id;
  title = a.title;
  lifecycle = lifecycle_value a.lifecycle;
  version = a.version;
  created_at = a.created_at;
  updated_at = a.updated_at;
  archived_at = a.archived_at;
}

hydrate-row_of :
    (a : ConversationAggregate) → IsValid a → hydrate_conversation (row_of a.id a) ≡ ok a
unfolding hydrate_conversation
hydrate-row_of a v = rw (parse-lifecycle_value a.lifecycle) (post_init_stable a v)

-- A valid aggregate without an id is stored as a row that reads back as that aggregate; a valid
-- aggregate that was loaded from a row, with the same id, organization, owner and creation time, is
-- applied to the row without an error, and the row then reads back as that aggregate.
pub store-hydrate :
    (a : ConversationAggregate) (row : Conversation)
    → IsValid a
    → row.id ≡ a.id
    → row.organization_id ≡ a.organization_id
    → row.user_id ≡ a.owner_user_id
    → row.created_at ≡ a.created_at
    → ((apply_conversation row a >>= hydrate_conversation) ≡ ok a)
      × ((new_conversation (record a { id = none }) >>= hydrate_conversation)
          ≡ ok (record a { id = none }))
unfolding apply_conversation new_conversation
store-hydrate a row v ei eo eu ec = (applied, stored)
  where
    same : row ≡ record (row_of a.id a) {
      title = row.title;
      lifecycle = row.lifecycle;
      version = row.version;
      updated_at = row.updated_at;
      archived_at = row.archived_at;
    }
    same = λ i. record row { id = ei i; organization_id = eo i; user_id = eu i; created_at = ec i }

    applied : (apply_conversation row a >>= hydrate_conversation) ≡ ok a
    applied = rw same (
        rw (same_id_refl a.id, eq_ℤ_refl a.organization_id, eq_ℤ_refl a.owner_user_id)
          (hydrate-row_of a v))

    stored :
        (new_conversation (record a { id = none }) >>= hydrate_conversation)
        ≡ ok (record a { id = none })
    stored =
        hydrate-row_of (record a { id = none })
          (record {
            valid_id = tt;
            valid_organization = v.valid_organization;
            valid_owner = v.valid_owner;
            valid_version = v.valid_version;
            valid_title = v.valid_title;
            valid_archive = v.valid_archive;
          })
