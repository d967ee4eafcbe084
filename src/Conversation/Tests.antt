-- ===== src/Conversation/Tests.antt =====
-- Runs of the conversation lifecycle, and its theorems at concrete inputs.
use eiraos_chat_backend.Prelude.{◌≡◌, refl, none, some, arith}
use eiraos_chat_backend.Prelude.Text.{strip, is_space, char_count}
use eiraos_chat_backend.Prelude.Int.{pos, ◌+ℤ◌}
use eiraos_chat_backend.Prelude.Result.{ok, err}
use eiraos_chat_backend.Conversation.State.{
  active, archived, ConversationAggregate, reject, create, post_init, normalize_title, archive,
}
use eiraos_chat_backend.Conversation.Validity.{IsValid}
use eiraos_chat_backend.Conversation.Lifecycle.{IsLater, here, next, by_archive, Reach-IsLater}

abbrev chat : ConversationAggregate
chat = record {
  id = some (pos 4);
  organization_id = pos 1;
  owner_user_id = pos 2;
  title = "plans";
  lifecycle = active;
  version = pos 1;
  created_at = 10;
  updated_at = 10;
  archived_at = none;
}

chat-IsValid : IsValid chat
unfolding strip is_space char_count
chat-IsValid = record {
  valid_id = omega arith;
  valid_organization = omega arith;
  valid_owner = omega arith;
  valid_version = omega arith;
  valid_title = record { trimmed = refl; filled = refl; short = omega arith };
  valid_archive = tt;
}

created : create (pos 1) (pos 2) " plans " 10 ≡ ok (record chat { id = none })
unfolding create post_init normalize_title strip is_space char_count
created = refl

blank_refused : create (pos 1) (pos 2) " \t " 10 ≡ err (reject "invalid_title")
unfolding create post_init normalize_title strip is_space char_count
blank_refused = refl

abbrev kept : ConversationAggregate
kept = record chat {
  lifecycle = archived;
  archived_at = some 20;
  updated_at = 20;
  version = pos 1 +ℤ pos 1;
}

archived_once : archive 20 chat ≡ ok kept
unfolding archive post_init normalize_title strip is_space char_count ◌+ℤ◌
archived_once = refl

Reach-IsLater_example : IsValid kept × IsLater chat kept
Reach-IsLater_example = Reach-IsLater (next here (by_archive 20 archived_once)) chat-IsValid
