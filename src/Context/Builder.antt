-- ===== src/Context/Builder.antt =====
-- The builder: the history within its budget, and what is sent.
use eiraos_chat_backend.Prelude.{
  ℕ, ◌+◌, ◌-◌, min, String, Option, none, some, Bool, true, false, List, [], ◌∷◌, ◌++◌, map, ◌||◌,
  ◌==◌, ltb, length, take, drop, if◌then◌else◌,
}
use eiraos_chat_backend.Prelude.Text.{char_count, or_empty}
use eiraos_chat_backend.Prelude.Result.{Result, ok, ◌>>=◌, ◌>>◌, raise_if}
use eiraos_chat_backend.Context.History.{
  exceeded, ContextPolicy, HistoryItem, ContextMessage, CompactionArtifact, ConstructedContext,
  ContextBudgetExceeded, optional_content, required_content, tokens, Eligible, eligible,
  select_from, drop_answers, reverse_onto, ids_of, compact,
}

-- What is sent of the history: the messages, newest first, what they use, and the extract.
pub record Selection : Type 0 where
  pub selected : List Eligible
  pub used : ℕ
  pub compacted : Option CompactionArtifact

abbrev pub plain : List Eligible × ℕ → Selection
plain (selected, used) = record { selected = selected; used = used; compacted = none }

abbrev pub or_fallback : Selection → List Eligible × ℕ → Option CompactionArtifact → Selection
or_fallback fallback narrow none = fallback
or_fallback fallback narrow (some a) = record {
  selected = narrow.0;
  used = narrow.1;
  compacted = some a;
}

abbrev pub no_items : List Eligible → Bool
no_items [] = true
no_items (e ∷ es) = false

abbrev pub compaction_tokens : Option CompactionArtifact → ℕ
compaction_tokens none = 0
compaction_tokens (some a) = a.estimated_tokens

abbrev pub extract_message : Option CompactionArtifact → List ContextMessage
extract_message none = []
extract_message (some a) = record { role = "user"; content = a.content } ∷ []

abbrev pub message_of : Eligible → ContextMessage
message_of e = record { role = e.item.role; content = e.content }

abbrev pub extract_ids : Option CompactionArtifact → List ℕ
extract_ids none = []
extract_ids (some a) = a.source_ids

abbrev pub extract_digest : Option CompactionArtifact → Option String
extract_digest none = none
extract_digest (some a) = some a.source_digest

module _ (sha256 : String → String) (policy : ContextPolicy) where
  abbrev pub input_budget : ℕ
  input_budget = policy.context_window_tokens - policy.reserved_output_tokens

  abbrev pub compacting : ℕ → List Eligible → Selection → Selection
  compacting budget items fallback =
      let narrow =
        select_from policy.max_history_messages (budget - policy.max_compaction_tokens) 0 items in
      or_fallback fallback narrow (
        compact sha256 policy.chars_per_token (min policy.max_compaction_tokens (budget - narrow.1))
          (reverse_onto (drop (length narrow.0) items) []))

  -- the history within its budget
  unfoldable pub select_history : ℕ → List Eligible → Selection
  select_history budget items =
      let wide = select_from policy.max_history_messages budget 0 items in
      if no_items (drop (length wide.0) items) || policy.max_compaction_tokens == 0
      then plain wide
      else compacting budget items (plain wide)

  -- the result, of the selection and what is mandatory
  unfoldable pub assemble :
      String → Option String → ℕ → List Eligible → Selection → ConstructedContext
  assemble prompt system mandatory items s =
      let (chosen, used) = drop_answers (reverse_onto s.selected []) s.used in
      record {
        messages =
            extract_message s.compacted
            ++ map message_of chosen
            ++ record { role = "user"; content = prompt } ∷ [];
        system_prompt = system;
        estimated_input_tokens = mandatory + used + compaction_tokens s.compacted;
        history_tokens = used + compaction_tokens s.compacted;
        input_budget_tokens = input_budget;
        selected_history_ids = ids_of chosen;
        truncated_history_count = length items - length chosen;
        compaction_source_ids = extract_ids s.compacted;
        compaction_digest = extract_digest s.compacted;
      }

  abbrev pub mandatory_tokens : String → Option String → ℕ
  mandatory_tokens prompt system =
      tokens policy.chars_per_token (char_count prompt)
      + tokens policy.chars_per_token (char_count (or_empty system))

  unfoldable pub build :
      List HistoryItem → String → Option String → Result ContextBudgetExceeded ConstructedContext
  build history_newest_first current_prompt system_prompt = do
    prompt ← required_content current_prompt
    let system = optional_content system_prompt
    let mandatory = mandatory_tokens prompt system
    let items =
        eligible policy.chars_per_token (take policy.max_source_messages history_newest_first)
    raise_if (ltb input_budget mandatory)
        (exceeded "mandatory context exceeds the model input window")
    ok (
        assemble prompt system mandatory items
          (select_history (min policy.max_history_tokens (input_budget - mandatory)) items))
