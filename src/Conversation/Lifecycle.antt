-- ===== src/Conversation/Lifecycle.antt =====
-- The lifecycle that the transitions of the aggregate make.
use eiraos_chat_backend.Prelude.{
  ℕ, ◌≡◌, ◌⊎◌, refl, ◌∙◌, String, Option, none, some, arith, Bool-cases, inl, inr,
}
use eiraos_chat_backend.Prelude.Text.{strip}
use eiraos_chat_backend.Prelude.Int.{ℤ, pos, ◌+ℤ◌, ◌≤ℤ◌, int_laws}
use eiraos_chat_backend.Prelude.Result.{ok, err, Result-cases}
use eiraos_chat_backend.Conversation.State.{
  ConversationLifecycle, active, archived, ConversationAggregate, reject, normalize_title,
  is_active, create, rename, archive, reopen, transition, assert_accepts_execution, Checked,
}
use eiraos_chat_backend.Conversation.Validity.{
  IsValid, normalize_title-strip, post_init_stable, post_init-IsBuilt,
}

-- A step: one call that succeeded.
pub data Step (a b : ConversationAggregate) : Type 0 where
  by_rename : (title : String) (now : ℕ) → rename title now a ≡ ok b → Step a b
  by_archive : (now : ℕ) → archive now a ≡ ok b → Step a b
  by_reopen : (now : ℕ) → reopen now a ≡ ok b → Step a b

pub data Reach (a : ConversationAggregate) : ConversationAggregate → Type 0 where
  here : Reach a a
  next : {b c : ConversationAggregate} → Reach a b → Step b c → Reach a c

-- What no transition changes, and that a changed conversation has a higher version.
pub record IsLater (a b : ConversationAggregate) : Type 0 where
  pub same_id : b.id ≡ a.id
  pub same_organization : b.organization_id ≡ a.organization_id
  pub same_owner : b.owner_user_id ≡ a.owner_user_id
  pub same_creation : b.created_at ≡ a.created_at
  pub version_grows : (b ≡ a) ⊎ ((a.version +ℤ pos 1) ≤ℤ b.version)

IsLater-refl : (a : ConversationAggregate) → IsLater a a
IsLater-refl a = record {
  same_id = refl;
  same_organization = refl;
  same_owner = refl;
  same_creation = refl;
  version_grows = inl refl;
}

-- The changes of a transition leave the identity and the version alone.
record IsChanged (a b : ConversationAggregate) : Type 0 where
  same_id : b.id ≡ a.id
  same_organization : b.organization_id ≡ a.organization_id
  same_owner : b.owner_user_id ≡ a.owner_user_id
  same_creation : b.created_at ≡ a.created_at
  same_version : b.version ≡ a.version

built-IsLater :
    (a changed b : ConversationAggregate)
    → IsChanged a changed
    → transition changed ≡ ok b
    → IsValid b × IsLater a b
unfolding transition
built-IsLater a changed b later h =
    let made = post_init-IsBuilt (record changed { version = changed.version +ℤ pos 1 }) h in
    (
      made.valid,
      rw made.built (record {
        same_id = later.same_id;
        same_organization = later.same_organization;
        same_owner = later.same_owner;
        same_creation = later.same_creation;
        version_grows = inr (rw later.same_version (omega arith));
      }),
    )

IsChanged-of :
    (a : ConversationAggregate) (title : String) (l : ConversationLifecycle) (at : Option ℕ)
    (now : ℕ)
    → IsChanged a (record a { title = title; lifecycle = l; archived_at = at; updated_at = now })
IsChanged-of a title l at now = record {
  same_id = refl;
  same_organization = refl;
  same_owner = refl;
  same_creation = refl;
  same_version = refl;
}

stays :
    (a b : ConversationAggregate)
    → ◌≡◌ {A = Checked ConversationAggregate} (ok a) (ok b)
    → IsValid a
    → IsValid b × IsLater a b
stays a b h v = let same : b ≡ a = cc h in rw same (v, IsLater-refl a)

Step-IsLater : {a b : ConversationAggregate} → Step a b → IsValid a → IsValid b × IsLater a b
unfolding rename archive reopen assert_accepts_execution
Step-IsLater {a} {b} (by_rename title now h) v = elim (Bool-cases (is_active a.lifecycle)) [
  | inr e ↦ absurd (ground (arith, e, h))
  | inl e ↦ elim (Result-cases (normalize_title title)) [
    | inl (x, bad) ↦ absurd (ground (arith, e, bad, h))
    | inr (t, good) ↦
        built-IsLater a (record a { title = t; updated_at = now }) b
          (IsChanged-of a t a.lifecycle a.archived_at now) (rw (e, good) at h)
  ]
]
Step-IsLater {a} {b} (by_archive now h) v = elim (Bool-cases (is_active a.lifecycle)) [
  | inl e ↦
      built-IsLater a (record a { lifecycle = archived; archived_at = some now; updated_at = now })
        b (IsChanged-of a a.title archived (some now) now) (rw e at h)
  | inr e ↦ stays a b (rw e at h) v
]
Step-IsLater {a} {b} (by_reopen now h) v = elim (Bool-cases (is_active a.lifecycle)) [
  | inl e ↦ stays a b (rw e at h) v
  | inr e ↦
      built-IsLater a (record a { lifecycle = active; archived_at = none; updated_at = now }) b
        (IsChanged-of a a.title active none now) (rw e at h)
]

later_version :
    {a b c : ConversationAggregate}
    → IsLater a b
    → IsLater b c
    → (b ≡ a) ⊎ ((a.version +ℤ pos 1) ≤ℤ b.version)
    → (c ≡ b) ⊎ ((b.version +ℤ pos 1) ≤ℤ c.version)
    → (c ≡ a) ⊎ ((a.version +ℤ pos 1) ≤ℤ c.version)
later_version p q (inl same) (inl e) = inl (e ∙ same)
later_version p q (inl same) (inr more) = inr (rw same at more)
later_version p q (inr more) (inl e) = inr (rw e more)
later_version {a} {b} {c} p q (inr few) (inr more) = inr (omega (int_laws, few, more))

IsLater-trans : {a b c : ConversationAggregate} → IsLater a b → IsLater b c → IsLater a c
IsLater-trans p q = record {
  same_id = q.same_id ∙ p.same_id;
  same_organization = q.same_organization ∙ p.same_organization;
  same_owner = q.same_owner ∙ p.same_owner;
  same_creation = q.same_creation ∙ p.same_creation;
  version_grows = later_version p q p.version_grows q.version_grows;
}

-- From a valid conversation, every conversation that successful renames, archivings and reopenings
-- reach is valid (positive ids and version, a trimmed title of 1 to 255 characters, an archive time
-- exactly when it is archived), and has the same id, organization, owner and creation time; and
-- either nothing of it has changed, or its version is higher.
pub Reach-IsLater : {a b : ConversationAggregate} → Reach a b → IsValid a → IsValid b × IsLater a b
Reach-IsLater {a} here v = (v, IsLater-refl a)
Reach-IsLater (next r step) v =
    let before = Reach-IsLater r v in
    let after = Step-IsLater step before.0 in (after.0, IsLater-trans before.1 after.1)

-- A new conversation is valid, active, without an id, at version 1, under the given owner.
pub create-IsValid :
    (organization_id owner_user_id : ℤ) (title : String) (now : ℕ) {a : ConversationAggregate}
    → create organization_id owner_user_id title now ≡ ok a
    → IsValid a
      × (a.id ≡ none)
      × (a.organization_id ≡ organization_id)
      × (a.owner_user_id ≡ owner_user_id)
      × (a.title ≡ strip title)
      × (a.lifecycle ≡ active)
      × (a.version ≡ pos 1)
unfolding create
create-IsValid organization_id owner_user_id title now h =
    let made = post_init-IsBuilt _ h in
    (
      made.valid,
      rw made.built refl,
      rw made.built refl,
      rw made.built refl,
      rw made.built (normalize_title-strip title made.title_eq),
      rw made.built refl,
      rw made.built refl,
    )

module _ (a : ConversationAggregate) (v : IsValid a) (running : a.lifecycle ≡ active)
    (now later : ℕ) where
  abbrev put_away : ConversationAggregate
  put_away = record a {
    lifecycle = archived;
    archived_at = some now;
    updated_at = now;
    version = a.version +ℤ pos 1;
  }

  abbrev taken_out : ConversationAggregate
  taken_out = record a {
    lifecycle = active;
    archived_at = none;
    updated_at = later;
    version = a.version +ℤ pos 1 +ℤ pos 1;
  }

  grown : (n : ℤ) → pos 1 ≤ℤ n → pos 1 ≤ℤ (n +ℤ pos 1)
  grown n h = omega int_laws

  put_away-IsValid : IsValid put_away
  put_away-IsValid = record {
    valid_id = v.valid_id;
    valid_organization = v.valid_organization;
    valid_owner = v.valid_owner;
    valid_version = grown a.version v.valid_version;
    valid_title = v.valid_title;
    valid_archive = tt;
  }

  taken_out-IsValid : IsValid taken_out
  taken_out-IsValid = record {
    valid_id = v.valid_id;
    valid_organization = v.valid_organization;
    valid_owner = v.valid_owner;
    valid_version = grown (a.version +ℤ pos 1) (grown a.version v.valid_version);
    valid_title = v.valid_title;
    valid_archive = tt;
  }

  -- A valid active conversation can always be archived, at the next version and with that time;
  -- archiving it again changes nothing; while it is archived every renaming is refused, whatever the
  -- title; and it can always be reopened, one version further and without an archive time.
  pub archive_cycle :
      (title : String)
      → (archive now a ≡ ok put_away)
        × (archive later put_away ≡ ok put_away)
        × (rename title later put_away ≡ err (reject "conversation_archived"))
        × (reopen later put_away ≡ ok taken_out)
  unfolding archive rename reopen transition assert_accepts_execution
  archive_cycle title = (
    rw running (post_init_stable put_away put_away-IsValid),
    refl,
    refl,
    post_init_stable taken_out taken_out-IsValid,
  )
