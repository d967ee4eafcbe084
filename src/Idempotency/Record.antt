-- ===== src/Idempotency/Record.antt =====
-- The rows of `idempotency_records`, and the query by which every operation finds its row.
use eiraos_chat_backend.Prelude.{
  ℕ, ◌*◌, String, Option, Bool, List, ◌&&◌, ◌==◌, str_eq, true, arith, eq_iff, ◌≡◌, ◌↔◌,
}

pub data Status : Type 0 where
  processing completed failed : Status

abbrev pub is_processing : Status → Bool
is_processing Status.processing = Bool.true
is_processing _ = Bool.false

abbrev pub is_completed : Status → Bool
is_completed Status.completed = Bool.true
is_completed _ = Bool.false

abbrev pub is_failed : Status → Bool
is_failed Status.failed = Bool.true
is_failed _ = Bool.false

pub record IdempotencyRecord : Type 0 where
  pub id : ℕ
  pub organization_id : ℕ
  pub user_id : ℕ
  pub key : String
  pub request_hash : String
  pub status : Status
  pub response_status : Option ℕ
  pub response_reference : Option String
  pub created_at : ℕ
  pub expires_at : Option ℕ
  pub lease_until : Option ℕ
  pub lease_token : Option String

-- The table with the sequence of its primary key.
pub record Table : Type 0 where
  pub rows : List IdempotencyRecord
  pub next_id : ℕ

-- `timedelta(seconds=n)`
abbrev pub seconds : ℕ → ℕ
seconds n = n * 1000000

abbrev pub default_ttl_seconds : ℕ
default_ttl_seconds = 24 * 60 * 60

abbrev pub lease_seconds : ℕ
lease_seconds = 120

-- WHERE organization_id = … AND user_id = … AND key = …
abbrev pub has_key : ℕ → ℕ → String → IdempotencyRecord → Bool
has_key org user key r = r.organization_id == org && (r.user_id == user && str_eq r.key key)

-- The unique constraints: the tenant's key, and the primary key.
abbrev pub Scope : Type 0
Scope = ℕ × ℕ × String

abbrev pub scope_of : IdempotencyRecord → Scope
scope_of r = (r.organization_id, r.user_id, r.key)

abbrev pub scope_eq : Scope → Scope → Bool
scope_eq (a, b, c) (a', b', c') = a == a' && (b == b' && str_eq c c')

pub scope_law : (s t : Scope) → (scope_eq s t ≡ true) ↔ (s ≡ t)
scope_law (a, b, c) (a', b', c') = ground (arith, eq_iff c c')
