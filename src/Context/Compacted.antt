-- ===== src/Context/Compacted.antt =====
-- The sizes of the history that is selected and of the extract.
use Prim.Native.String.{◌++◌ as append}
use native.Mathlib.Nat.{div-lt_iff_lt-mul}
use eiraos_chat_backend.Prelude.{
  ℕ, zero, suc, ◌+◌, ◌-◌, ◌*◌, ◌≤◌, ◌<◌, ◌≡◌, refl, sym, String, some, Bool, false, List, [], ◌∷◌,
  ◌||◌, str_eq, ◌==◌, ltb, leb, arith, Bool-cases, inl, inr,
}
use eiraos_chat_backend.Prelude.Text.{rstrip, char_count}
use eiraos_chat_backend.Prelude.Chars.{
  first_chars, char_count-append, char_count-first_chars, char_count-rstrip,
}
use eiraos_chat_backend.Context.History.{
  CompactionArtifact, tokens, Eligible, select_from, drop_answers, join_lines, header, suffix,
  marker, artifact, fit, compact,
}

tokens_le : (ratio n budget : ℕ) → 0 < ratio → n ≤ budget * ratio → tokens ratio n ≤ budget
unfolding tokens
tokens_le ratio n budget h le =
    let below : n + ratio - 1 < suc budget * ratio = omega (arith, h, le) in
    omega (arith, (div-lt_iff_lt-mul {k = ratio} {x = n + ratio - 1} {y = suc budget} h).1 below)

pub select_from_le :
    (left budget used : ℕ) (items : List Eligible)
    → used ≤ budget
    → (select_from left budget used items).1 ≤ budget
unfolding select_from
select_from_le zero budget used items h = h
select_from_le (suc left) budget used [] h = h
select_from_le (suc left) budget used (item ∷ items) h =
    elim (Bool-cases (ltb budget (used + item.size))) [
      | inl full ↦ rw full h
      | inr room ↦
          rw room (select_from_le left budget (used + item.size) items (ground (arith, room)))
    ]

pub drop_answers_le : (items : List Eligible) (used : ℕ) → (drop_answers items used).1 ≤ used
unfolding drop_answers
drop_answers_le [] used = omega arith
drop_answers_le (item ∷ items) used = elim (Bool-cases (str_eq item.item.role "assistant")) [
  | inl answer ↦ rw answer (omega (arith, drop_answers_le items (used - item.size)))
  | inr question ↦ rw question (omega arith)
]

module _ (sha256 : String → String) where
  artifact_le :
      (ratio budget : ℕ) (items : List Eligible) (canonical payload : String)
      → 0 < ratio
      → char_count (header sha256 canonical) + char_count (suffix sha256) + char_count payload
        ≤ budget * ratio
      → (artifact sha256 ratio items canonical payload).estimated_tokens ≤ budget
  artifact_le ratio budget items canonical payload h le =
      tokens_le ratio
        (char_count (append (header sha256 canonical) (append payload (suffix sha256)))) budget h
        (omega (
          arith,
          le,
          char_count-append (header sha256 canonical) (append payload (suffix sha256)),
          char_count-append payload (suffix sha256),
        ))

  cut_le :
      (capacity : ℕ) (canonical : String)
      → leb capacity (char_count (marker sha256)) ≡ false
      → char_count (
          append
            (rstrip (first_chars (capacity - char_count (marker sha256)) canonical))
            (marker sha256))
        ≤ capacity
  cut_le capacity canonical h = omega (
    arith,
    over,
    char_count-append (rstrip cut) (marker sha256),
    char_count-rstrip cut,
    char_count-first_chars (capacity - char_count (marker sha256)) canonical,
  )
    where
      cut : String
      cut = first_chars (capacity - char_count (marker sha256)) canonical

      over : char_count (marker sha256) ≤ capacity
      over = ground (arith, h)

  fit_le :
      (ratio budget frame : ℕ) (items : List Eligible) (canonical : String) {a : CompactionArtifact}
      → 0 < ratio
      → frame ≡ char_count (header sha256 canonical) + char_count (suffix sha256)
      → frame ≤ budget * ratio
      → fit sha256 ratio (budget * ratio - frame) items canonical ≡ some a
      → a.estimated_tokens ≤ budget
  fit_le ratio budget frame items canonical {a} h ef room k =
      elim (Bool-cases (leb (char_count canonical) (budget * ratio - frame))) [
        | inl whole ↦
            let same : artifact sha256 ratio items canonical canonical ≡ a = cc (rw whole at k) in
            let small : char_count canonical ≤ budget * ratio - frame = ground (arith, whole) in
            rw (sym same) (
              artifact_le ratio budget items canonical canonical h (omega (arith, ef, room, small)))
        | inr long ↦ elim (Bool-cases (leb (budget * ratio - frame) (char_count (marker sha256)))) [
          | inl tiny ↦ absurd (cc (rw (long, tiny) at k))
          | inr enough ↦
              let cut =
                append
                  (rstrip
                    (first_chars (budget * ratio - frame - char_count (marker sha256)) canonical))
                  (marker sha256) in
              let same : artifact sha256 ratio items canonical cut ≡ a =
                cc (rw (long, enough) at k) in
              rw (sym same) (
                artifact_le ratio budget items canonical cut h
                  (omega (arith, ef, room, cut_le (budget * ratio - frame) canonical enough)))
        ]
      ]

  pub compact_le :
      (ratio budget : ℕ) (items : List Eligible) {a : CompactionArtifact}
      → 0 < ratio
      → compact sha256 ratio budget items ≡ some a
      → a.estimated_tokens ≤ budget
  unfolding compact
  compact_le ratio budget [] h k = cc
  compact_le ratio budget (e ∷ es) {a} h k =
      elim (Bool-cases (budget == 0 || leb (budget * ratio) frame)) [
        | inl bad ↦ absurd (cc (rw bad at k))
        | inr room ↦
            fit_le ratio budget frame (e ∷ es) (join_lines (e ∷ es)) h refl
              (within (budget == 0) room) (rw room at k)
      ]
    where
      frame : ℕ
      frame = char_count (header sha256 (join_lines (e ∷ es))) + char_count (suffix sha256)

      within : (b : Bool) → (b || leb (budget * ratio) frame) ≡ false → frame ≤ budget * ratio
      within b r = ground (arith, r)
