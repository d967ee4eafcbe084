-- ===== src/Idempotency/Cleanup.antt =====
-- The periodic clean-up, and the key that a request names.
use eiraos_chat_backend.Prelude.{
  ℕ, ◌+◌, ◌≢◌, true, ◌≡◌, ◌⊎◌, refl, String, Option, none, some, false, Bool-cases, inl, inr, arith,
  List, [], ◌∷◌, str_eq,
}
use mathlib.Core.Path.{subst}
use eiraos_chat_backend.Prelude.Text.{strip, nonempty, or_empty, is_empty, strip-strip}
use eiraos_chat_backend.Prelude.Result.{ok}
use eiraos_chat_backend.Prelude.Rows.{delete_all, rowcount}
use eiraos_chat_backend.Idempotency.Record.{Status, IdempotencyRecord, Table}
use eiraos_chat_backend.Idempotency.Begin.{is_past}
use eiraos_chat_backend.Idempotency.Key.{resolve_idempotency_key, choose_key}
use eiraos_chat_backend.Idempotency.Lease.{cleanup_expired_records, is_disposable}
use eiraos_chat_backend.Http.{Request}

-- A row that the clean-up is to delete: it is finished, and it has expired.
abbrev pub IsDue : ℕ → IdempotencyRecord → Type 0
IsDue now r = (r.status ≢ Status.processing) × (is_past now r.expires_at ≡ true)

-- The row is not the clean-up's: it is processing, or it has not expired.
abbrev pub IsKept : ℕ → IdempotencyRecord → Type 0
IsKept now r = (r.status ≡ Status.processing) ⊎ (is_past now r.expires_at ≡ false)

-- The second list is the first without its due rows, and the number is how many these are.
pub data Cleaned (now : ℕ) : List IdempotencyRecord → List IdempotencyRecord → ℕ → Type 0 where
  nothing_left : Cleaned now [] [] 0
  dropped :
      {r : IdempotencyRecord} {rows rows' : List IdempotencyRecord} {n : ℕ}
      → IsDue now r
      → Cleaned now rows rows' n
      → Cleaned now (r ∷ rows) rows' (1 + n)
  kept :
      {r : IdempotencyRecord} {rows rows' : List IdempotencyRecord} {n : ℕ}
      → IsKept now r
      → Cleaned now rows rows' n
      → Cleaned now (r ∷ rows) (r ∷ rows') n

IsKept-of : (now : ℕ) (r : IdempotencyRecord) → is_disposable now r ≡ false → IsKept now r
IsKept-of now r h = go r.status refl
  where
    go : (s : Status) → r.status ≡ s → IsKept now r
    go Status.processing e = inl e
    go Status.completed e = inr (ground (arith, h, e))
    go Status.failed e = inr (ground (arith, h, e))

IsDue-of : (now : ℕ) (r : IdempotencyRecord) → is_disposable now r ≡ true → IsDue now r
IsDue-of now r h = ((λ e. ground (arith, e, h)), ground (arith, h))

none_more : (n : ℕ) → 0 + n ≡ n
none_more n = omega arith

cleaned :
    (now : ℕ) (rows : List IdempotencyRecord)
    → Cleaned now rows (delete_all (is_disposable now) rows) (rowcount (is_disposable now) rows)
unfolding delete_all rowcount
cleaned now [] = nothing_left
cleaned now (r ∷ rows) = elim (Bool-cases (is_disposable now r)) [
  | inl e ↦ rw e (dropped (IsDue-of now r e) (cleaned now rows))
  | inr e ↦
      rw (e, none_more (rowcount (is_disposable now) rows))
        (kept (IsKept-of now r e) (cleaned now rows))
]

-- The clean-up goes through the table row by row: it deletes each row that is finished and has
-- expired, leaves each that is processing or has not expired, in its order and as it was, and reports
-- how many it deleted.
pub cleanup_exact :
    (now limit : ℕ) (t : Table)
    → let (deleted, t') = cleanup_expired_records now limit t in Cleaned now t.rows t'.rows deleted
unfolding cleanup_expired_records
cleanup_exact now limit t = cleaned now t.rows

abbrev pub IsClean : Option String → Type 0
IsClean none = Unit
IsClean (some k) = (strip k ≡ k) × (is_empty k ≡ false)

nonempty-strip-IsClean : (s : String) → IsClean (nonempty (strip s))
nonempty-strip-IsClean s = go (strip s) (strip-strip s)
  where
    go : (u : String) → strip u ≡ u → IsClean (nonempty u)
    go String.[] h = tt
    go (String.◌∷◌ c u) h = (h, refl)

-- A resolved key is absent, or has no white space around it and is not empty.
pub resolve-IsClean :
    (request : Request) (body_key : Option String) {k : Option String}
    → resolve_idempotency_key request body_key ≡ ok k
    → IsClean k
unfolding resolve_idempotency_key choose_key
resolve-IsClean request body_key =
    go (nonempty (strip (or_empty request.idempotency_header)))
      (nonempty (strip (or_empty body_key))) (nonempty-strip-IsClean _) (nonempty-strip-IsClean _)
  where
    go :
        (header body : Option String) {k : Option String}
        → IsClean header
        → IsClean body
        → choose_key header body ≡ ok k
        → IsClean k
    go none body ch cb h = subst IsClean {x = body} (cc) cb
    go (some a) none ch cb h = subst IsClean {x = some a} (cc) ch
    go (some a) (some b) {k} ch cb h = elim (Bool-cases (str_eq a b)) [
      | inl e ↦ subst IsClean {x = some a} (ground (arith, e, h)) ch
      | inr e ↦ absurd (ground (arith, e, h))
    ]
