-- ===== src/Budget/Reservation.antt =====
-- The reservations of src/eiraos/domains/usage/redis_reservation.py, script by script.
use Prim.Native.String.{◌++◌ as append}
use eiraos_chat_backend.Prelude.{String, Option, none, some, Bool, false, ◌||◌, not, if◌then◌else◌}
use eiraos_chat_backend.Prelude.Text.{is_empty}
use eiraos_chat_backend.Prelude.Int.{ℤ, pos, negsuc, ◌+ℤ◌, ◌-ℤ◌, ltb_ℤ, leb_ℤ, eq_ℤ, max_ℤ}
use eiraos_chat_backend.Prelude.Result.{Result, ok, err}
use eiraos_chat_backend.Budget.Redis.{
  Value, number, text, value_eq, to_number, RedisServer, Connection, missing, refused, lost, up,
}

pub data BudgetError : Type 0 where
  value_error denied : String → BudgetError
  backend_unavailable : BudgetError

pub record Reservation : Type 0 where
  pub key : String
  pub amount : ℤ

pub record TenantReservation : Type 0 where
  pub reservation_id : String
  pub marker_key : String
  pub user : Reservation
  pub organization : Reservation
  pub replayed : Bool

abbrev pub marker_of : String → String → String
marker_of organization_key reservation_id =
    append organization_key (append ":reservation:" reservation_id)

abbrev pub identity_of : (ℤ → String) → String → String → ℤ → Value
identity_of decimal user_key organization_key amount =
    text (append user_key (append "|" (append organization_key (append "|" (decimal amount)))))

abbrev pub not_positive : ℤ → Bool
not_positive n = leb_ℤ n (pos 0)

-- The identity that the release and the settlement compare the marker with.
abbrev pub held_identity : (ℤ → String) → TenantReservation → Value
held_identity decimal r = identity_of decimal r.user.key r.organization.key r.user.amount

abbrev pub settlement_key : TenantReservation → String
settlement_key r = append r.marker_key ":settled"

-- The server, and Python's `str` of an integer.
module _ (R : RedisServer) (decimal : ℤ → String) where
  open R use {State, get, incr_by, set_expiring, set_keep, expire, del, pttl}

  -- One `eval`: what the caller sees, and the state that the server is left in.
  unfoldable pub eval : Connection → (State → ℤ × State) → State → Result BudgetError ℤ × State
  eval missing script s = (err backend_unavailable, s)
  eval refused script s = (err backend_unavailable, s)
  eval lost script s = (err backend_unavailable, (script s).1)
  eval up script s = (ok (script s).0, (script s).1)

  unfoldable pub reserve_script : String → ℤ → ℤ → ℤ → State → ℤ × State
  reserve_script key requested limit ttl s =
      if ltb_ℤ limit (to_number (get s key) +ℤ requested)
      then (pos 0, s)
      else (pos 1, expire key ttl (incr_by key requested s))

  abbrev reserve_answer :
      String → ℤ → Result BudgetError ℤ × State → Result BudgetError Reservation × State
  reserve_answer key amount (err e, s) = (err e, s)
  reserve_answer key amount (ok result, s) =
      if eq_ℤ result (pos 1)
      then (ok (record { key = key; amount = amount }), s)
      else (err (denied "budget reservation denied"), s)

  unfoldable pub reserve :
      Connection → String → ℤ → ℤ → ℤ → State → Result BudgetError Reservation × State
  reserve c key amount limit ttl s =
      if ltb_ℤ amount (pos 0) || ltb_ℤ limit (pos 0)
      then (err (value_error "amount and limit must be non-negative"), s)
      else if is_empty key
      then (err (value_error "reservation key is required"), s)
      else reserve_answer key amount (eval c (reserve_script key amount limit ttl) s)

  abbrev done : Result BudgetError ℤ × State → Result BudgetError (Unit {0}) × State
  done (err e, s) = (err e, s)
  done (ok result, s) = (ok tt, s)

  -- `DECRBY` is `INCRBY` of the opposite
  unfoldable pub release : Connection → Reservation → State → Result BudgetError (Unit {0}) × State
  release c r s = done (eval c (λ s'. (pos 0, incr_by r.key (pos 0 -ℤ r.amount) s')) s)

  -- the counters, once the marker is known to be missing
  unfoldable pub charge : String → String → String → Value → ℤ → ℤ → ℤ → ℤ → State → ℤ × State
  charge marker user org identity amount user_limit org_limit ttl s =
      if ltb_ℤ user_limit (to_number (get s user) +ℤ amount)
      then (pos 0, s)
      else if ltb_ℤ org_limit (to_number (get s org) +ℤ amount)
      then (pos 0, s)
      else (
        pos 1,
        expire org ttl (
            expire user ttl
              (set_expiring marker identity ttl (incr_by org amount (incr_by user amount s)))),
      )

  unfoldable pub reserve_tenant_script :
      String → String → String → Value → ℤ → ℤ → ℤ → ℤ → State → ℤ × State
  reserve_tenant_script marker user org identity amount user_limit org_limit ttl s =
      elim (get s marker) [
        | some existing ↦ if value_eq existing identity then (pos 2, s) else (negsuc 0, s)
        | none ↦ charge marker user org identity amount user_limit org_limit ttl s
      ]

  abbrev pub tenant_answer :
      TenantReservation
      → Result BudgetError ℤ × State
      → Result BudgetError TenantReservation × State
  tenant_answer t (err e, s) = (err e, s)
  tenant_answer t (ok result, s) =
      if eq_ℤ result (pos 0)
      then (err (denied "tenant token budget exceeded"), s)
      else if not (eq_ℤ result (pos 1) || eq_ℤ result (pos 2))
      then (err (denied "reservation identity conflict"), s)
      else (ok (record t { replayed = eq_ℤ result (pos 2) }), s)

  unfoldable pub reserve_tenant :
      Connection
      → String
      → String
      → String
      → ℤ
      → ℤ
      → ℤ
      → ℤ
      → State
      → Result BudgetError TenantReservation × State
  reserve_tenant c reservation_id user_key organization_key amount user_limit organization_limit ttl
        s =
      if is_empty reservation_id || is_empty user_key || is_empty organization_key
      then (err (value_error "tenant reservation identity is required"), s)
      else if not_positive amount
          || not_positive user_limit
          || not_positive organization_limit
          || not_positive ttl
      then (err (value_error "tenant reservation values must be positive"), s)
      else tenant_answer
          (record {
            reservation_id = reservation_id;
            marker_key = marker_of organization_key reservation_id;
            user = record { key = user_key; amount = amount };
            organization = record { key = organization_key; amount = amount };
            replayed = false;
          })
          (eval c
            (reserve_tenant_script (marker_of organization_key reservation_id) user_key
              organization_key (identity_of decimal user_key organization_key amount) amount
              user_limit organization_limit ttl)
            s)

  abbrev pub holds : Option Value → Value → Bool
  holds none v = false
  holds (some w) v = value_eq w v

  unfoldable pub release_tenant_script : String → String → String → ℤ → Value → State → ℤ × State
  release_tenant_script marker user org amount identity s =
      if not (holds (get s marker) identity)
      then (pos 0, s)
      else let lower = λ (k : String). number (max_ℤ (pos 0) (to_number (get s k) -ℤ amount)) in
        (pos 1, del marker (set_keep org (lower org) (set_keep user (lower user) s)))

  unfoldable pub release_tenant :
      Connection → TenantReservation → State → Result BudgetError (Unit {0}) × State
  release_tenant c r s =
      if r.replayed
      then (ok tt, s)
      else done (
          eval c
            (release_tenant_script r.marker_key r.user.key r.organization.key r.user.amount
              (held_identity decimal r))
            s)

  -- the adjustment, once the marker is held and no settlement is known
  unfoldable pub adjust : String → String → String → String → ℤ → ℤ → State → ℤ × State
  adjust marker settlement user org reserved actual s =
      if leb_ℤ (pttl marker s) (pos 0) then (negsuc 0, s) else (
        pos 1,
        set_expiring settlement (number actual) (pttl marker s)
            (incr_by org (actual -ℤ reserved) (incr_by user (actual -ℤ reserved) s)),
      )

  unfoldable pub settle_tenant_script :
      String → String → String → String → ℤ → ℤ → Value → State → ℤ × State
  settle_tenant_script marker settlement user org reserved actual identity s =
      if not (holds (get s marker) identity) then (negsuc 0, s) else elim (get s settlement) [
        | some existing ↦ if value_eq existing (number actual) then (pos 0, s) else (negsuc 1, s)
        | none ↦ adjust marker settlement user org reserved actual s
      ]

  abbrev settle_answer : Result BudgetError ℤ × State → Result BudgetError Bool × State
  settle_answer (err e, s) = (err e, s)
  settle_answer (ok result, s) =
      if ltb_ℤ result (pos 0)
      then (err (denied "budget settlement identity conflict"), s)
      else (ok (eq_ℤ result (pos 1)), s)

  unfoldable pub settle_tenant :
      Connection → TenantReservation → ℤ → State → Result BudgetError Bool × State
  settle_tenant c r actual s =
      if ltb_ℤ actual (pos 0)
      then (err (value_error "actual usage cannot be negative"), s)
      else settle_answer (
          eval c
            (settle_tenant_script r.marker_key (settlement_key r) r.user.key r.organization.key
              r.user.amount actual (held_identity decimal r))
            s)
