-- ===== src/Context/Tests.antt =====
-- A context whose older history is compacted.
use eiraos_chat_backend.Prelude.{ℕ, ◌≡◌, refl, String, none, some, List, [], ◌∷◌, length, arith}
use eiraos_chat_backend.Prelude.Text.{strip, rstrip, lstrip, char_count, is_space}
use eiraos_chat_backend.Prelude.Chars.{first_chars}
use eiraos_chat_backend.Prelude.Result.{ok}
use eiraos_chat_backend.Context.Builder.{select_history, assemble, build}
use eiraos_chat_backend.Context.History.{
  ContextPolicy, HistoryItem, ConstructedContext, tokens, eligible, select_from, drop_answers,
  join_lines, compact,
}
use eiraos_chat_backend.Context.Fit.{Fits, build-Fits}

abbrev policy : ContextPolicy
policy = record {
  context_window_tokens = 200;
  reserved_output_tokens = 50;
  max_history_tokens = 100;
  max_history_messages = 2;
  max_source_messages = 10;
  max_compaction_tokens = 60;
  chars_per_token = 4;
  ratio_positive = omega arith;
  window_left = omega arith;
  sources = omega arith;
  sources_positive = omega arith;
}

abbrev said : ℕ → String → String → HistoryItem
said id role content = record {
  id = some id;
  role = role;
  content = some content;
  status = "completed";
}

abbrev history : List HistoryItem
history =
    said 4 "assistant" "four"
    ∷ said 3 "user" "three"
    ∷ said 2 "assistant" "two"
    ∷ said 1 "user" "one"
    ∷ []

abbrev digest : String → String
digest s = "abc"

unfoldable context : ConstructedContext
unfolding assemble select_history eligible
context =
    assemble digest policy "now?" none 1 (eligible 4 history)
      (select_history digest policy 100 (eligible 4 history))

built : build digest policy history " now? " none ≡ ok context
unfolding context build assemble select_history eligible select_from drop_answers join_lines compact
    tokens strip rstrip lstrip char_count is_space first_chars
built = refl

build-Fits_example : Fits digest policy " now? " none context
build-Fits_example = build-Fits digest policy history " now? " none built

-- the extract of the two older messages, the two newer ones, and the prompt
four_messages : length context.messages ≡ 4
unfolding context assemble select_history eligible select_from drop_answers join_lines compact
    tokens strip rstrip lstrip char_count is_space first_chars
four_messages = refl
