-- ===== src/Memory/Isolation.antt =====
-- What the calls of one caller do to what others list.
use eiraos_chat_backend.Prelude.{
  ℕ, ◌≡◌, ◌≢◌, ◌⊎◌, refl, sym, ap, ◌∙◌, String, Option, some, Bool, true, false, List, [], ◌∷◌,
  ◌++◌, ◌&&◌, str_eq, ◌==◌, is_none, Bool-cases, Option-cases, inl, inr, ==_iff,
}
use eiraos_chat_backend.Prelude.Result.{ok, Result-cases}
use eiraos_chat_backend.Prelude.Rows.{select_all, update}
use eiraos_chat_backend.Chat.Database.{Message}
use eiraos_chat_backend.Memory.Durable.{
  NewMemory, load_message_source, load_memory_source, new_memory, insert_memory, create_memory,
  delete_memory,
}
use eiraos_chat_backend.Memory.Records.{
  MemoryRecord, Tables, is_visible, is_item, get, newest_first, list_memories,
  assert_mutation_scope, validate_memory,
}

select_all-append_ne :
    {A : Type 0} (p : A → Bool) (xs : List A) (y : A)
    → p y ≡ false
    → select_all p (xs ++ y ∷ []) ≡ select_all p xs
unfolding select_all
select_all-append_ne p [] y h = rw h
select_all-append_ne p (x ∷ xs) y h = rw (select_all-append_ne p xs y h)

select_all-update_other :
    {A : Type 0} (p q : A → Bool) (f : A → A) (xs : List A)
    → ((x : A) → p x ≡ true → q x ≡ false)
    → ((x : A) → p x ≡ true → q (f x) ≡ false)
    → select_all q (update p f xs) ≡ select_all q xs
unfolding select_all update
select_all-update_other p q f [] before after = refl
select_all-update_other p q f (x ∷ xs) before after = elim (Bool-cases (p x)) [
  | inl here ↦ rw (here, before x here, after x here)
  | inr there ↦ rw (there, select_all-update_other p q f xs before after)
]

-- the organization of a caller who does not own the row, or any one but the owner
unfoldable pub Elsewhere : ℕ → ℕ → ℕ → ℕ → String → Type 0
Elsewhere organization user organization' user' scope_kind =
    (organization' ≢ organization) ⊎ ((user' ≢ user) × (scope_kind ≡ "user"))

hidden_tenant :
    (organization user : ℕ) (r : MemoryRecord)
    → organization ≢ r.organization_id
    → is_visible organization user r ≡ false
unfolding is_visible
hidden_tenant organization user r ne = elim (Bool-cases (r.organization_id == organization)) [
  | inl same ↦ absurd (ne (sym ((==_iff r.organization_id organization).0 same)))
  | inr other ↦ rw other
]

hidden_private :
    (organization user owner : ℕ) (r : MemoryRecord)
    → user ≢ owner
    → r.scope_kind ≡ "user"
    → r.owner_user_id ≡ some owner
    → is_visible organization user r ≡ false
unfolding is_visible
hidden_private organization user owner r ne kind own = elim (Bool-cases (owner == user)) [
  | inl same ↦ absurd (ne (sym ((==_iff owner user).0 same)))
  | inr other ↦
      rw (kind, own, other) (last (r.organization_id == organization) (is_none r.deleted_at))
]
  where
    last : (a b : Bool) → (a && (b && false)) ≡ false
    last true true = refl
    last true false = refl
    last false b = refl

-- A row of the tenant that the caller names.
in_tenant :
    (item_id : String) (organization user : ℕ) (r : MemoryRecord)
    → is_item item_id organization user r ≡ true
    → r.organization_id ≡ organization
unfolding is_visible
in_tenant item_id organization user r h = elim (Bool-cases (str_eq r.item_id item_id)) [
  | inr bad ↦ absurd (cc (rw bad at h))
  | inl item ↦ elim (Bool-cases (r.organization_id == organization)) [
    | inr bad ↦ absurd (cc (rw (item, bad) at h))
    | inl same ↦ (==_iff r.organization_id organization).0 same
  ]
]

-- A creation that went through added a row of the arguments.
record Created (sha256 : String → String) (item_id : String) (now : ℕ) (x : NewMemory)
    (t t' : Tables) (r : MemoryRecord) : Type 0 where
  pub message : Option Message
  pub source : Option MemoryRecord
  pub row : r ≡ new_memory sha256 item_id now x message source t.next_id
  pub added : t' ≡ insert_memory sha256 r t

create_memory-Created :
    (sha256 : String → String) (item_id : String) (now : ℕ) (x : NewMemory) (t : Tables)
    {r : MemoryRecord} {t' : Tables}
    → create_memory sha256 item_id now x t ≡ ok (r, t')
    → Created sha256 item_id now x t t' r
unfolding create_memory
create_memory-Created sha256 item_id now x t h =
    elim (Result-cases
      (validate_memory x.memory_class x.scope_kind x.content x.provenance x.reason)) [
        | inl (e, bad) ↦ absurd (cc (rw bad at h))
        | inr (_, valid) ↦ elim (Result-cases (assert_mutation_scope x.scope_kind x.actor_role)) [
          | inl (e, bad) ↦ absurd (cc (rw (valid, bad) at h))
          | inr (_, may) ↦ elim (Result-cases (load_message_source x t x.source_message_id)) [
            | inl (e, bad) ↦ absurd (cc (rw (valid, may, bad) at h))
            | inr (m, message) ↦
                elim (Result-cases (load_memory_source x t x.source_memory_item_id)) [
                  | inl (e, bad) ↦ absurd (cc (rw (valid, may, message, bad) at h))
                  | inr (s, source) ↦ record {
                    message = m;
                    source = s;
                    row = cc (rw (valid, may, message, source) at h);
                    added = cc (rw (valid, may, message, source) at h);
                  }
                ]
          ]
        ]
      ]

hidden_new :
    (sha256 : String → String) (item_id : String) (now id : ℕ) (x : NewMemory) (m : Option Message)
    (s : Option MemoryRecord) (organization user : ℕ)
    → Elsewhere x.organization_id x.actor_user_id organization user x.scope_kind
    → is_visible organization user (new_memory sha256 item_id now x m s id) ≡ false
unfolding Elsewhere
hidden_new sha256 item_id now id x m s organization user (inl ne) =
    hidden_tenant organization user (new_memory sha256 item_id now x m s id) ne
hidden_new sha256 item_id now id x m s organization user (inr (ne, kind)) =
    hidden_private organization user x.actor_user_id (new_memory sha256 item_id now x m s id) ne
      kind (rw kind refl)

-- A memory that is created is listed for no caller of another organization, and, where its scope is
-- the user, for no other user of the same one: what such a caller lists is what it listed before.
pub create_isolated :
    (sha256 : String → String) (item_id : String) (now : ℕ) (x : NewMemory) (t : Tables)
    {r : MemoryRecord} {t' : Tables} (organization user : ℕ)
    → create_memory sha256 item_id now x t ≡ ok (r, t')
    → Elsewhere x.organization_id x.actor_user_id organization user x.scope_kind
    → list_memories organization user t' ≡ list_memories organization user t
unfolding list_memories
create_isolated sha256 item_id now x t {r} organization user h away =
    let c = create_memory-Created sha256 item_id now x t h in
    let hidden : is_visible organization user r ≡ false =
      rw c.row
        (hidden_new sha256 item_id now t.next_id x c.message c.source organization user away) in
    rw c.added
      (ap newest_first (select_all-append_ne (is_visible organization user) t.memories r hidden))

-- A deletion by a caller of one organization leaves what every caller of another organization lists
-- as it was, whatever identifier it names.
pub delete_isolated :
    (now : ℕ) (item_id : String) (organization user : ℕ) (role : String) (t : Tables) {b : Bool}
    {t' : Tables} (organization' user' : ℕ)
    → delete_memory now item_id organization user role t ≡ ok (b, t')
    → organization' ≢ organization
    → list_memories organization' user' t' ≡ list_memories organization' user' t
unfolding list_memories delete_memory
delete_isolated now item_id organization user role t {b} {t'} organization' user' h ne =
    elim (Option-cases (get item_id organization user t)) [
      | inl missing ↦ let same : t ≡ t' = cc (rw missing at h) in rw (sym same) refl
      | inr (r, there) ↦ elim (Result-cases (assert_mutation_scope r.scope_kind role)) [
        | inl (e, bad) ↦ absurd (cc (rw (there, bad) at h))
        | inr (_, may) ↦
            let same : record t {
              memories =
                  update (is_item item_id organization user)
                    (λ (m : MemoryRecord). record m { deleted_at = some now }) t.memories;
            }
                ≡ t' =
              cc (rw (there, may) at h) in
            rw (sym same) (
              ap newest_first (
                select_all-update_other (is_item item_id organization user)
                  (is_visible organization' user')
                  (λ (m : MemoryRecord). record m { deleted_at = some now }) t.memories
                  (λ m k.
                    hidden_tenant organization' user' m
                      (λ e. ne (e ∙ in_tenant item_id organization user m k)))
                  (λ m k.
                    hidden_tenant organization' user' (record m { deleted_at = some now })
                      (λ e. ne (e ∙ in_tenant item_id organization user m k)))))
      ]
    ]
