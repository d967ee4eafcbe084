-- ===== src/Context/Fit.antt =====
-- The sizes of a context that was built.
use eiraos_chat_backend.Prelude.{
  ℕ, ◌+◌, ◌-◌, ◌≤◌, ◌≡◌, min, refl, sym, String, Option, none, some, false, List, [], ◌∷◌, ◌++◌,
  map, ◌||◌, ◌==◌, ltb, length, take, drop, arith, Bool-cases, inl, inr,
}
use eiraos_chat_backend.Prelude.Text.{strip, is_empty, or_empty}
use eiraos_chat_backend.Prelude.Result.{ok}
use eiraos_chat_backend.Context.Builder.{
  Selection, plain, or_fallback, no_items, compaction_tokens, extract_message, message_of,
  input_budget, select_history, assemble, mandatory_tokens, build,
}
use eiraos_chat_backend.Context.History.{
  ContextPolicy, HistoryItem, ContextMessage, CompactionArtifact, ConstructedContext,
  optional_content, Eligible, eligible, select_from, drop_answers, reverse_onto, compact,
}
use eiraos_chat_backend.Context.Counted.{
  text_size, size_of, size_of-append, size_of-map, sized, counted_reverse, drop_answers-IsCounted,
  size_of-extract, IsSelected, select_history-IsSelected,
}
use eiraos_chat_backend.Context.Compacted.{select_from_le, drop_answers_le, compact_le}

module _ (sha256 : String → String) (policy : ContextPolicy) where
  -- what the selected history uses, with the extract
  abbrev spent : Selection → ℕ
  spent s = s.used + compaction_tokens s.compacted

  fallback_le :
      (budget : ℕ) (fallback : Selection) (narrow : List Eligible × ℕ)
      (o : Option CompactionArtifact)
      → spent fallback ≤ budget
      → ((a : CompactionArtifact) → o ≡ some a → narrow.1 + a.estimated_tokens ≤ budget)
      → spent (or_fallback fallback narrow o) ≤ budget
  fallback_le budget fallback narrow none h k = h
  fallback_le budget fallback narrow (some a) h k = k a refl

  wide_le :
      (budget : ℕ) (items : List Eligible)
      → spent (plain (select_from policy.max_history_messages budget 0 items)) ≤ budget
  wide_le budget items =
      omega (arith, select_from_le policy.max_history_messages budget 0 items (omega arith))

  select_history_le :
      (budget : ℕ) (items : List Eligible)
      → spent (select_history sha256 policy budget items) ≤ budget
  unfolding select_history
  select_history_le budget items =
      elim (Bool-cases (
        no_items (drop (length (select_from policy.max_history_messages budget 0 items).0) items)
        || policy.max_compaction_tokens == 0)) [
          | inl all ↦ rw all (wide_le budget items)
          | inr some_left ↦
              rw some_left (fallback_le budget _ narrow _ (wide_le budget items) extract)
        ]
    where
      narrow : List Eligible × ℕ
      narrow =
          select_from policy.max_history_messages (budget - policy.max_compaction_tokens) 0 items

      extract :
          (a : CompactionArtifact)
          → compact sha256 policy.chars_per_token
              (min policy.max_compaction_tokens (budget - narrow.1))
              (reverse_onto (drop (length narrow.0) items) [])
            ≡ some a
          → narrow.1 + a.estimated_tokens ≤ budget
      extract a k =
          let small =
            compact_le sha256 policy.chars_per_token
              (min policy.max_compaction_tokens (budget - narrow.1))
              (reverse_onto (drop (length narrow.0) items) []) policy.ratio_positive k in
          let used =
            select_from_le policy.max_history_messages (budget - policy.max_compaction_tokens) 0
              items (omega arith) in
          omega (arith, small, used)

  -- what is sent before the prompt
  abbrev earlier_of : Selection → List ContextMessage
  earlier_of s =
      extract_message s.compacted
      ++ map message_of (drop_answers (reverse_onto s.selected []) s.used).0

  earlier_counted :
      (s : Selection)
      → IsSelected sha256 policy s
      → (drop_answers (reverse_onto s.selected []) s.used).1 + compaction_tokens s.compacted
        ≡ size_of policy.chars_per_token (earlier_of s)
  earlier_counted s ((sizes, used), extract) =
      let ratio = policy.chars_per_token in
      let turned = counted_reverse ratio s.selected [] sizes tt in
      let kept =
        drop_answers-IsCounted ratio (reverse_onto s.selected []) s.used turned.0
          (omega (arith, used, turned.1)) in
      let chosen = (drop_answers (reverse_onto s.selected []) s.used).0 in
      omega (
        arith,
        kept.1,
        size_of-map ratio chosen,
        size_of-extract ratio s.compacted extract,
        size_of-append ratio (extract_message s.compacted) (map message_of chosen),
      )

-- What a built context is: its counters are those of what is sent, at the policy's number of
-- characters for a token.
pub record Fits (sha256 : String → String) (policy : ContextPolicy) (prompt : String)
    (system : Option String) (c : ConstructedContext) : Type 0 where
  pub in_window :
      c.estimated_input_tokens + policy.reserved_output_tokens ≤ policy.context_window_tokens
  pub history_bounded : c.history_tokens ≤ policy.max_history_tokens
  pub system_given : c.system_prompt ≡ optional_content system
  pub input_counted :
      c.estimated_input_tokens
      ≡ size_of policy.chars_per_token c.messages
        + text_size policy.chars_per_token (or_empty c.system_prompt)
  pub earlier : List ContextMessage
  pub history_counted : c.history_tokens ≡ size_of policy.chars_per_token earlier
  pub prompt_last : c.messages ≡ earlier ++ record { role = "user"; content = strip prompt } ∷ []
  pub prompt_given : is_empty (strip prompt) ≡ false

-- A context that is built leaves the reserved output free in the model's window, spends no more on
-- the history and its extract than the policy allows, and ends with the trimmed prompt of the user,
-- which is not empty. Its estimated input is the sum over all messages that it sends and the system
-- prompt, each at a token for the policy's number of characters, rounded up; and its history tokens
-- are that sum over the messages before the prompt.
pub build-Fits :
    (sha256 : String → String) (policy : ContextPolicy) (history : List HistoryItem)
    (prompt : String) (system : Option String) {c : ConstructedContext}
    → build sha256 policy history prompt system ≡ ok c
    → Fits sha256 policy prompt system c
unfolding build assemble
build-Fits sha256 policy history prompt system {c} h = elim (Bool-cases (is_empty (strip prompt))) [
  | inl bad ↦ absurd (cc (rw bad at h))
  | inr given ↦
      elim (Bool-cases (
        ltb (input_budget sha256 policy)
          (mandatory_tokens sha256 policy (strip prompt) (optional_content system)))) [
            | inl bad ↦ absurd (cc (rw (given, bad) at h))
            | inr room ↦
                let mandatory =
                  mandatory_tokens sha256 policy (strip prompt) (optional_content system) in
                let items =
                  eligible policy.chars_per_token (take policy.max_source_messages history) in
                let budget =
                  min policy.max_history_tokens (input_budget sha256 policy - mandatory) in
                let s = select_history sha256 policy budget items in
                let same : assemble sha256 policy (strip prompt) (optional_content system) mandatory
                      items s
                    ≡ c =
                  cc (rw (given, room) at h) in
                let ratio = policy.chars_per_token in
                let selected =
                  select_history-IsSelected sha256 policy budget items
                    (sized ratio (take policy.max_source_messages history)) in
                let within = select_history_le sha256 policy budget items in
                let fewer = drop_answers_le (reverse_onto s.selected []) s.used in
                let fits : mandatory ≤ input_budget sha256 policy = ground (arith, room) in
                rw (sym same) (record {
                  in_window = omega (arith, within, fewer, fits, policy.window_left);
                  history_bounded = omega (arith, within, fewer);
                  system_given = refl;
                  input_counted = omega (
                    arith,
                    earlier_counted sha256 policy s selected,
                    size_of-append ratio (earlier_of sha256 policy s)
                        (record { role = "user"; content = strip prompt } ∷ []),
                  );
                  history_counted = earlier_counted sha256 policy s selected;
                  earlier = earlier_of sha256 policy s;
                  prompt_last = refl;
                  prompt_given = given;
                })
          ]
]
