-- ===== src/Context/Counted.antt =====
-- What the counters of a selection count.
use eiraos_chat_backend.Prelude.{
  ℕ, zero, suc, ◌+◌, ◌-◌, ◌*◌, ◌≡◌, refl, Option, none, some, List, [], ◌∷◌, ◌++◌, map, ◌&&◌, ◌||◌,
  str_eq, ◌==◌, ltb, leb, length, drop, arith, All, Bool-cases, inl, inr,
}
use eiraos_chat_backend.Prelude.{String}
use eiraos_chat_backend.Prelude.Text.{char_count}
use eiraos_chat_backend.Context.Builder.{
  Selection, or_fallback, no_items, message_of, compaction_tokens, extract_message, select_history,
}
use eiraos_chat_backend.Context.History.{
  ContextPolicy, HistoryItem, ContextMessage, CompactionArtifact, optional_content, tokens,
  Eligible, is_speaker, eligible_item, eligible, select_from, drop_answers, reverse_onto,
  join_lines, header, suffix, marker, fit, compact,
}

-- the tokens of a text, and of what is sent
abbrev pub text_size : ℕ → String → ℕ
text_size ratio s = tokens ratio (char_count s)

abbrev pub size_of : ℕ → List ContextMessage → ℕ
size_of ratio [] = 0
size_of ratio (m ∷ ms) = text_size ratio m.content + size_of ratio ms

pub size_of-append :
    (ratio : ℕ) (xs ys : List ContextMessage)
    → size_of ratio (xs ++ ys) ≡ size_of ratio xs + size_of ratio ys
size_of-append ratio [] ys = omega arith
size_of-append ratio (x ∷ xs) ys = omega (arith, size_of-append ratio xs ys)

module _ (ratio : ℕ) where
  abbrev pub IsSized : Eligible → Type 0
  IsSized e = e.size ≡ text_size ratio e.content

  abbrev pub weight : List Eligible → ℕ
  weight [] = 0
  weight (e ∷ es) = text_size ratio e.content + weight es

  pub size_of-map : (es : List Eligible) → size_of ratio (map message_of es) ≡ weight es
  size_of-map [] = refl
  size_of-map (e ∷ es) = omega (arith, size_of-map es)

  eligible_item-IsSized :
      (item : HistoryItem) (o : Option String) (rest : List Eligible)
      → All IsSized rest
      → All IsSized (eligible_item ratio item o rest)
  eligible_item-IsSized item none rest h = h
  eligible_item-IsSized item (some content) rest h =
      elim (Bool-cases (is_speaker item.role && str_eq item.status "completed")) [
        | inl e ↦ rw e (refl, h)
        | inr e ↦ rw e h
      ]

  pub sized : (items : List HistoryItem) → All IsSized (eligible ratio items)
  unfolding eligible
  sized [] = tt
  sized (item ∷ items) = eligible_item-IsSized item (optional_content item.content) _ (sized items)

  -- a list of messages with their number of tokens
  abbrev pub IsCounted : List Eligible × ℕ → Type 0
  IsCounted (es, used) = All IsSized es × (used ≡ weight es)

  counted_from :
      (left budget used : ℕ) (items : List Eligible)
      → All IsSized items
      → let (es, total) = select_from left budget used items in
        All IsSized es × (total ≡ used + weight es)
  unfolding select_from
  counted_from zero budget used items h = (tt, omega arith)
  counted_from (suc left) budget used [] h = (tt, omega arith)
  counted_from (suc left) budget used (item ∷ items) (e, h) =
      elim (Bool-cases (ltb budget (used + item.size))) [
        | inl full ↦ rw full (tt, omega arith)
        | inr room ↦
            let rest = counted_from left budget (used + item.size) items h in
            rw room ((e, rest.0), omega (arith, rest.1, e))
      ]

  pub counted :
      (left budget : ℕ) (items : List Eligible)
      → All IsSized items
      → IsCounted (select_from left budget 0 items)
  counted left budget items h =
      let both = counted_from left budget 0 items h in (both.0, omega (arith, both.1))

  pub counted_reverse :
      (es acc : List Eligible)
      → All IsSized es
      → All IsSized acc
      → All IsSized (reverse_onto es acc) × (weight (reverse_onto es acc) ≡ weight es + weight acc)
  counted_reverse [] acc h k = (k, omega arith)
  counted_reverse (e ∷ es) acc (s, h) k =
      let rest = counted_reverse es (e ∷ acc) h (s, k) in (rest.0, omega (arith, rest.1))

  pub drop_answers-IsCounted :
      (es : List Eligible) (used : ℕ)
      → All IsSized es
      → used ≡ weight es
      → IsCounted (drop_answers es used)
  unfolding drop_answers
  drop_answers-IsCounted [] used h e = (tt, e)
  drop_answers-IsCounted (x ∷ es) used (s, h) e =
      elim (Bool-cases (str_eq x.item.role "assistant")) [
        | inl answer ↦ rw answer (drop_answers-IsCounted es (used - x.size) h (omega (arith, s, e)))
        | inr question ↦ rw question ((s, h), e)
      ]

  -- the extract, with the number of its own text
  abbrev pub IsExtract : Option CompactionArtifact → Type 0
  IsExtract none = Unit
  IsExtract (some a) = a.estimated_tokens ≡ text_size ratio a.content

  pub size_of-extract :
      (o : Option CompactionArtifact)
      → IsExtract o
      → size_of ratio (extract_message o) ≡ compaction_tokens o
  size_of-extract none h = refl
  size_of-extract (some a) h = omega (arith, h)

module _ (sha256 : String → String) (policy : ContextPolicy) where
  abbrev ratio : ℕ
  ratio = policy.chars_per_token

  IsExtract-fit :
      (capacity : ℕ) (items : List Eligible) (canonical : String)
      → IsExtract ratio (fit sha256 ratio capacity items canonical)
  IsExtract-fit capacity items canonical = elim (Bool-cases (leb (char_count canonical) capacity)) [
    | inl whole ↦ rw whole refl
    | inr long ↦ elim (Bool-cases (leb capacity (char_count (marker sha256)))) [
      | inl tiny ↦ rw (long, tiny) tt
      | inr enough ↦ rw (long, enough) refl
    ]
  ]

  IsExtract-compact :
      (budget : ℕ) (items : List Eligible) → IsExtract ratio (compact sha256 ratio budget items)
  unfolding compact
  IsExtract-compact budget [] = tt
  IsExtract-compact budget (e ∷ es) =
      elim (Bool-cases (
        budget == 0
        || leb (budget * ratio)
            (char_count (header sha256 (join_lines (e ∷ es))) + char_count (suffix sha256)))) [
              | inl bad ↦ rw bad tt
              | inr room ↦ rw room (IsExtract-fit _ (e ∷ es) (join_lines (e ∷ es)))
            ]

  abbrev pub IsSelected : Selection → Type 0
  IsSelected s = IsCounted ratio (s.selected, s.used) × IsExtract ratio s.compacted

  or_fallback-IsSelected :
      (fallback : Selection) (narrow : List Eligible × ℕ) (o : Option CompactionArtifact)
      → IsSelected fallback
      → IsCounted ratio narrow
      → IsExtract ratio o
      → IsSelected (or_fallback fallback narrow o)
  or_fallback-IsSelected fallback narrow none h k x = h
  or_fallback-IsSelected fallback narrow (some a) h k x = (k, x)

  pub select_history-IsSelected :
      (budget : ℕ) (items : List Eligible)
      → All (IsSized ratio) items
      → IsSelected (select_history sha256 policy budget items)
  unfolding select_history
  select_history-IsSelected budget items h =
      elim (Bool-cases (
        no_items (drop (length (select_from policy.max_history_messages budget 0 items).0) items)
        || policy.max_compaction_tokens == 0)) [
          | inl all ↦ rw all (counted ratio policy.max_history_messages budget items h, tt)
          | inr some_left ↦ rw some_left (
              or_fallback-IsSelected _ _ _
                (counted ratio policy.max_history_messages budget items h, tt)
                (counted ratio policy.max_history_messages (budget - policy.max_compaction_tokens)
                  items h)
                (IsExtract-compact _ _))
        ]
