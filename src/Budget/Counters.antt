-- ===== src/Budget/Counters.antt =====
-- The counters of a tenant and its marker, and the writes that charge them.
use eiraos_chat_backend.Prelude.{
  ◌≡◌, ◌≢◌, ◌∙◌, ap, String, some, true, false, str_eq, if◌then◌else◌, eq_iff, arith, Bool-cases,
  inl, inr, eq_refl,
}
use eiraos_chat_backend.Prelude.Int.{ℤ, eq_of_parts, pos, ◌+ℤ◌, ◌≤ℤ◌}
use eiraos_chat_backend.Budget.Redis.{
  Value, number, text, value_eq, to_number, RedisServer, IsCounter,
}

pub str_ne : (s t : String) → s ≢ t → str_eq s t ≡ false
str_ne s t h = elim (Bool-cases (str_eq s t)) [ inl e ↦ absurd (h ((eq_iff s t).0 e)) | inr e ↦ e ]

pub value_eq_refl : (v : Value) → value_eq v v ≡ true
value_eq_refl (number n) = ground arith
value_eq_refl (text t) = eq_refl t

pub value_eq_lem : (v w : Value) → value_eq v w ≡ true → v ≡ w
value_eq_lem (number m) (number n) h = ap number (eq_of_parts m n (ground (arith, h)))
value_eq_lem (number m) (text t) h = absurd (cc h)
value_eq_lem (text t) (number n) h = absurd (cc h)
value_eq_lem (text s) (text t) h = ap text ((eq_iff s t).0 h)

module _ (R : RedisServer) where
  open R use {State, get, incr_by, set_expiring, expire}

  -- The three keys of a reservation differ, and the two counters hold numbers.
  pub record IsTenant (marker user org : String) (s : State) : Type 0 where
    pub marker_user : marker ≢ user
    pub marker_org : marker ≢ org
    pub user_org : user ≢ org
    pub user_counter : IsCounter (get s user)
    pub org_counter : IsCounter (get s org)

  abbrev pub balance : State → String → ℤ
  balance s k = to_number (get s k)

  module _ (marker user org : String) (identity : Value) (amount ttl : ℤ) (s : State)
      (tenant : IsTenant marker user org s) (positive : pos 1 ≤ℤ ttl) where
    abbrev pub charged : State
    charged = expire org ttl (
        expire user ttl
          (set_expiring marker identity ttl (incr_by org amount (incr_by user amount s))))

    org_unmoved : get (incr_by user amount s) org ≡ get s org
    org_unmoved =
        R.get-incr_by user org amount s tenant.user_counter ∙ (rw (str_ne user org tenant.user_org))

    pub get-charged :
        (j : String)
        → get charged j ≡ (
            if str_eq marker j
            then some identity
            else if str_eq org j
            then some (number (balance s org +ℤ amount))
            else if str_eq user j
            then some (number (balance s user +ℤ amount))
            else get s j)
    get-charged j =
        R.get-expire org j ttl _ positive
        ∙ R.get-expire user j ttl _ positive
        ∙ R.get-set_expiring marker j identity ttl _ positive
        ∙ ap (λ x. if str_eq marker j then some identity else x)
            (R.get-incr_by org j amount _ (rw org_unmoved tenant.org_counter)
              ∙ (rw (org_unmoved, R.get-incr_by user j amount s tenant.user_counter)))
