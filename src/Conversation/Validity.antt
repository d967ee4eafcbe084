-- ===== src/Conversation/Validity.antt =====
-- The invariant of the aggregate.
use eiraos_chat_backend.Prelude.{
  ℕ, ◌≤◌, ◌≡◌, refl, String, Option, none, some, false, ◌||◌, ◌&&◌, not, ltb, is_some, is_none,
  arith, Bool-cases, inl, inr,
}
use mathlib.Core.Path.{subst}
use eiraos_chat_backend.Prelude.Text.{strip, is_empty, char_count, strip-strip}
use eiraos_chat_backend.Prelude.Int.{ℤ, pos, ◌≤ℤ◌}
use eiraos_chat_backend.Prelude.Result.{ok, Result-cases}
use eiraos_chat_backend.Conversation.State.{
  ConversationLifecycle, active, archived, ConversationAggregate, post_init, normalize_title,
  is_active, is_bad_id,
}

abbrev pub HasValidId : Option ℤ → Type 0
HasValidId none = Unit
HasValidId (some n) = pos 1 ≤ℤ n

-- the archive time is there exactly in the archived state
abbrev pub ArchiveTimeFits : ConversationLifecycle → Option ℕ → Type 0
ArchiveTimeFits active none = Unit
ArchiveTimeFits active (some t) = ⊥
ArchiveTimeFits archived none = ⊥
ArchiveTimeFits archived (some t) = Unit

pub record IsValidTitle (t : String) : Type 0 where
  pub trimmed : strip t ≡ t
  pub filled : is_empty t ≡ false
  pub short : char_count t ≤ 255

pub record IsValid (a : ConversationAggregate) : Type 0 where
  pub valid_id : HasValidId a.id
  pub valid_organization : pos 1 ≤ℤ a.organization_id
  pub valid_owner : pos 1 ≤ℤ a.owner_user_id
  pub valid_version : pos 1 ≤ℤ a.version
  pub valid_title : IsValidTitle a.title
  pub valid_archive : ArchiveTimeFits a.lifecycle a.archived_at

pub normalize_title-IsValidTitle :
    (value : String) {t : String} → normalize_title value ≡ ok t → IsValidTitle t
unfolding normalize_title
normalize_title-IsValidTitle value {t} h =
    elim (Bool-cases (is_empty (strip value) || ltb 255 (char_count (strip value)))) [
      | inl e ↦ absurd (ground (arith, e, h))
      | inr e ↦ subst IsValidTitle (same e) (record {
        trimmed = strip-strip value;
        filled = ground (arith, e);
        short = ground (arith, e);
      })
    ]
  where
    same : (is_empty (strip value) || ltb 255 (char_count (strip value))) ≡ false → strip value ≡ t
    same e = ground (arith, e, h)

pub normalize_title-strip :
    (value : String) {t : String} → normalize_title value ≡ ok t → t ≡ strip value
unfolding normalize_title
normalize_title-strip value {t} h =
    elim (Bool-cases (is_empty (strip value) || ltb 255 (char_count (strip value)))) [
      | inl e ↦ absurd (ground (arith, e, h))
      | inr e ↦ ground (arith, e, h)
    ]

pub normalize_title_stable : (t : String) → IsValidTitle t → normalize_title t ≡ ok t
unfolding normalize_title
normalize_title_stable t v = rw v.trimmed (ground (arith, v.filled, v.short))

fits_active :
    (l : ConversationLifecycle) (o : Option ℕ)
    → ArchiveTimeFits l o
    → (is_active l && is_some o) ≡ false
fits_active active none f = refl
fits_active active (some t) f = absurd f
fits_active archived o f = refl

fits_archived :
    (l : ConversationLifecycle) (o : Option ℕ)
    → ArchiveTimeFits l o
    → (not (is_active l) && is_none o) ≡ false
fits_archived active o f = refl
fits_archived archived none f = absurd f
fits_archived archived (some t) f = refl

fits_of :
    (l : ConversationLifecycle) (o : Option ℕ)
    → (is_active l && is_some o) ≡ false
    → (not (is_active l) && is_none o) ≡ false
    → ArchiveTimeFits l o
fits_of active none p q = tt
fits_of active (some t) p q = cc
fits_of archived none p q = cc
fits_of archived (some t) p q = tt

good_id : (o : Option ℤ) → HasValidId o → is_bad_id o ≡ false
good_id none h = refl
good_id (some n) h = ground arith

valid_of_id : (o : Option ℤ) → is_bad_id o ≡ false → HasValidId o
valid_of_id none h = tt
valid_of_id (some n) h = ground (arith, h)

-- Construction succeeds on a valid aggregate and changes nothing,
pub post_init_stable : (a : ConversationAggregate) → IsValid a → post_init a ≡ ok a
unfolding post_init
post_init_stable a v = ground (
  arith,
  good_id a.id v.valid_id,
  v.valid_organization,
  v.valid_owner,
  v.valid_version,
  normalize_title_stable a.title v.valid_title,
  fits_active a.lifecycle a.archived_at v.valid_archive,
  fits_archived a.lifecycle a.archived_at v.valid_archive,
)

-- and what it returns is valid: the argument with its title trimmed.
pub record IsBuilt (a b : ConversationAggregate) : Type 0 where
  pub title : String
  pub title_eq : normalize_title a.title ≡ ok title
  pub built : b ≡ record a { title = title }
  pub valid : IsValid b

pub post_init-IsBuilt :
    (a : ConversationAggregate) {b : ConversationAggregate} → post_init a ≡ ok b → IsBuilt a b
unfolding post_init
post_init-IsBuilt a {b} h = elim (Result-cases (normalize_title a.title)) [
  | inl (e, bad) ↦ absurd (ground (arith, bad, h))
  | inr (t, good) ↦
      let same : b ≡ record a { title = t } = ground (arith, good, h) in
      let id_ok : is_bad_id a.id ≡ false = ground (arith, good, h) in
      let active_ok : (is_active a.lifecycle && is_some a.archived_at) ≡ false =
        ground (arith, good, h) in
      let archived_ok : (not (is_active a.lifecycle) && is_none a.archived_at) ≡ false =
        ground (arith, good, h) in
      record {
        title = t;
        title_eq = good;
        built = same;
        valid = rw same (record {
          valid_id = valid_of_id a.id id_ok;
          valid_organization = ground (arith, good, h);
          valid_owner = ground (arith, good, h);
          valid_version = ground (arith, good, h);
          valid_title = normalize_title-IsValidTitle a.title good;
          valid_archive = fits_of a.lifecycle a.archived_at active_ok archived_ok;
        });
      }
]
