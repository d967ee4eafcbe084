-- ===== src/Context/History.antt =====
-- The policy, the messages of the history and the compactor. The hash of a text is a parameter.
use Prim.Native.String.{◌++◌ as append}
use eiraos_chat_backend.Prelude.{
  ℕ, zero, suc, ◌+◌, ◌-◌, ◌*◌, ◌/◌, ◌≤◌, ◌<◌, String, Option, none, some, Bool, List, [], ◌∷◌, ◌&&◌,
  ◌||◌, str_eq, ◌==◌, ltb, leb, if◌then◌else◌,
}
use eiraos_chat_backend.Prelude.Text.{strip, rstrip, char_count, is_empty, nonempty}
use eiraos_chat_backend.Prelude.Chars.{first_chars}
use eiraos_chat_backend.Prelude.Result.{Result, ok, err}

-- A policy that the constructor accepted; the other guards of the constructor only exclude negative
-- numbers.
pub record ContextPolicy : Type 0 where
  pub context_window_tokens : ℕ
  pub reserved_output_tokens : ℕ
  pub max_history_tokens : ℕ
  pub max_history_messages : ℕ
  pub max_source_messages : ℕ
  pub max_compaction_tokens : ℕ
  pub chars_per_token : ℕ
  pub ratio_positive : 0 < chars_per_token
  pub window_left : reserved_output_tokens < context_window_tokens
  pub sources : max_history_messages ≤ max_source_messages
  pub sources_positive : 0 < max_source_messages

-- a message of the history, as its columns
pub record HistoryItem : Type 0 where
  pub id : Option ℕ
  pub role : String
  pub content : Option String
  pub status : String

pub record ContextMessage : Type 0 where
  pub role : String
  pub content : String

pub record CompactionArtifact : Type 0 where
  pub content : String
  pub source_ids : List ℕ
  pub source_digest : String
  pub estimated_tokens : ℕ

pub record ConstructedContext : Type 0 where
  pub messages : List ContextMessage
  pub system_prompt : Option String
  pub estimated_input_tokens : ℕ
  pub history_tokens : ℕ
  pub input_budget_tokens : ℕ
  pub selected_history_ids : List ℕ
  pub truncated_history_count : ℕ
  pub compaction_source_ids : List ℕ
  pub compaction_digest : Option String

-- `ContextBudgetExceeded`
pub record ContextBudgetExceeded : Type 0 where
  pub reason : String

abbrev pub exceeded : String → ContextBudgetExceeded
exceeded reason = record { reason = reason }

-- `_content(value, required=False)`
abbrev pub optional_content : Option String → Option String
optional_content none = none
optional_content (some s) = nonempty (strip s)

-- `_content(value, required=True)` of a text
abbrev pub required_content : String → Result ContextBudgetExceeded String
required_content s =
    if is_empty (strip s) then err (exceeded "current prompt cannot be empty") else ok (strip s)

-- `_tokens`
unfoldable pub tokens : ℕ → ℕ → ℕ
tokens ratio characters = (characters + ratio - 1) / ratio

abbrev pub is_speaker : String → Bool
is_speaker role = str_eq role "user" || str_eq role "assistant"

-- A history message that may be sent: the message, its text and its size.
pub record Eligible : Type 0 where
  pub item : HistoryItem
  pub content : String
  pub size : ℕ

abbrev pub eligible_item : ℕ → HistoryItem → Option String → List Eligible → List Eligible
eligible_item ratio item none rest = rest
eligible_item ratio item (some content) rest =
    if is_speaker item.role && str_eq item.status "completed"
    then record { item = item; content = content; size = tokens ratio (char_count content) } ∷ rest
    else rest

unfoldable pub eligible : ℕ → List HistoryItem → List Eligible
eligible ratio [] = []
eligible ratio (item ∷ items) =
    eligible_item ratio item (optional_content item.content) (eligible ratio items)

-- `_select`, from what is used already; the messages are counted by the first argument
unfoldable pub select_from : ℕ → ℕ → ℕ → List Eligible → List Eligible × ℕ
select_from zero budget used items = ([], used)
select_from (suc left) budget used [] = ([], used)
select_from (suc left) budget used (item ∷ items) =
    let rest = select_from left budget (used + item.size) items in
    if ltb budget (used + item.size) then ([], used) else (item ∷ rest.0, rest.1)

-- `while selected and selected[0][1] == "assistant"`, with what is used
unfoldable pub drop_answers : List Eligible → ℕ → List Eligible × ℕ
drop_answers [] used = ([], used)
drop_answers (item ∷ items) used =
    let rest = drop_answers items (used - item.size) in
    if str_eq item.item.role "assistant" then rest else (item ∷ items, used)

abbrev pub reverse_onto : {A : Type 0} → List A → List A → List A
reverse_onto [] acc = acc
reverse_onto (x ∷ xs) acc = reverse_onto xs (x ∷ acc)

abbrev pub ids_of : List Eligible → List ℕ
ids_of [] = []
ids_of (e ∷ es) = elim e.item.id [ none ↦ ids_of es | some id ↦ id ∷ ids_of es ]

-- `f"[{role}] {content}"`, joined by line breaks
abbrev pub line_of : Eligible → String
line_of e = append "[" (append e.item.role (append "] " e.content))

unfoldable pub join_lines : List Eligible → String
join_lines [] = ""
join_lines (e ∷ []) = line_of e
join_lines (e ∷ (f ∷ es)) = append (line_of e) (append "\n" (join_lines (f ∷ es)))

module _ (sha256 : String → String) where
  abbrev pub header : String → String
  header canonical =
      append "<conversation_compaction untrusted=\"true\">\nsource_sha256="
        (append (sha256 canonical) "\n")

  abbrev pub suffix : String
  suffix = "\n</conversation_compaction>"

  abbrev pub marker : String
  marker = "\n[older context truncated]"

  abbrev pub artifact : ℕ → List Eligible → String → String → CompactionArtifact
  artifact ratio items canonical payload =
      let content = append (header canonical) (append payload suffix) in
      record {
        content = content;
        source_ids = ids_of items;
        source_digest = sha256 canonical;
        estimated_tokens = tokens ratio (char_count content);
      }

  -- the payload within its capacity
  abbrev pub fit : ℕ → ℕ → List Eligible → String → Option CompactionArtifact
  fit ratio capacity items canonical =
      if leb (char_count canonical) capacity
      then some (artifact ratio items canonical canonical)
      else if leb capacity (char_count marker)
      then none
      else some (
          artifact ratio items canonical
            (append (rstrip (first_chars (capacity - char_count marker) canonical)) marker))

  -- `compact`, of messages that are all eligible
  unfoldable pub compact : ℕ → ℕ → List Eligible → Option CompactionArtifact
  compact ratio budget [] = none
  compact ratio budget (e ∷ es) =
      let canonical = join_lines (e ∷ es) in
      let frame = char_count (header canonical) + char_count suffix in
      if budget == 0 || leb (budget * ratio) frame
      then none
      else fit ratio (budget * ratio - frame) (e ∷ es) canonical
