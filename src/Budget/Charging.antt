-- ===== src/Budget/Charging.antt =====
-- What a tenant reservation does to the counters.
use eiraos_chat_backend.Prelude.{
  List, [], ◌∷◌, ◌≡◌, ◌≢◌, refl, sym, ◌∙◌, ap, String, some, true, false, ◌||◌, str_eq,
  if◌then◌else◌, arith, Bool-cases, inl, inr, ◌⊎◌, eq_refl, Option-cases,
}
use eiraos_chat_backend.Prelude.Text.{is_empty}
use eiraos_chat_backend.Prelude.Int.{ℤ, pos, negsuc, ◌+ℤ◌, ◌≤ℤ◌, ltb_ℤ}
use eiraos_chat_backend.Prelude.Result.{Result, ok, err}
use eiraos_chat_backend.Budget.Redis.{
  Value, number, value_eq, to_number, RedisServer, Connection, missing, refused, lost, up,
}
use eiraos_chat_backend.Budget.Reservation.{
  BudgetError, value_error, denied, backend_unavailable, TenantReservation, eval, charge,
  reserve_tenant_script, reserve_tenant, marker_of, identity_of, tenant_answer, not_positive,
}
use eiraos_chat_backend.Budget.Counters.{
  str_ne, value_eq_refl, value_eq_lem, IsTenant, balance, charged, get-charged,
}

module _ (R : RedisServer) (decimal : ℤ → String) (rid user org : String)
    (amount user_limit org_limit ttl : ℤ) where
  open R use {State, get}

  abbrev marker : String
  marker = marker_of org rid

  abbrev identity : Value
  identity = identity_of decimal user org amount

  -- Both counters rose by the amount and are within their limits, the marker holds the identity of
  -- the reservation, and no other key changed.
  pub record IsCharged (s s' : State) : Type 0 where
    pub user_balance : balance R s' user ≡ balance R s user +ℤ amount
    pub user_within : balance R s' user ≤ℤ user_limit
    pub org_balance : balance R s' org ≡ balance R s org +ℤ amount
    pub org_within : balance R s' org ≤ℤ org_limit
    pub marked : get s' marker ≡ some identity
    pub others : (j : String) → marker ≢ j → user ≢ j → org ≢ j → get s' j ≡ get s j

  charged-IsCharged :
      (s : State) (tenant : IsTenant R marker user org s) (positive : pos 1 ≤ℤ ttl)
      → (balance R s user +ℤ amount) ≤ℤ user_limit
      → (balance R s org +ℤ amount) ≤ℤ org_limit
      → IsCharged s (charged R marker user org identity amount ttl s tenant positive)
  charged-IsCharged s tenant positive low high = record {
    user_balance = ap to_number user_eq;
    user_within = rw user_eq low;
    org_balance = ap to_number org_eq;
    org_within = rw org_eq high;
    marked = look marker ∙ rw (eq_refl marker);
    others = λ j a b c. look j ∙ rw (str_ne marker j a, str_ne org j c, str_ne user j b);
  }
    where
      look :
          (j : String)
          → get (charged R marker user org identity amount ttl s tenant positive) j ≡ (
              if str_eq marker j
              then some identity
              else if str_eq org j
              then some (number (balance R s org +ℤ amount))
              else if str_eq user j
              then some (number (balance R s user +ℤ amount))
              else get s j)
      look j = get-charged R marker user org identity amount ttl s tenant positive j

      user_eq :
          get (charged R marker user org identity amount ttl s tenant positive) user
          ≡ some (number (balance R s user +ℤ amount))
      user_eq =
          look user
          ∙ rw (
            str_ne marker user tenant.marker_user,
            str_ne org user (λ e. tenant.user_org (sym e)),
            eq_refl user,
          )

      org_eq :
          get (charged R marker user org identity amount ttl s tenant positive) org
          ≡ some (number (balance R s org +ℤ amount))
      org_eq = look org ∙ rw (str_ne marker org tenant.marker_org, eq_refl org)

  data ScriptResult (s : State) (code : ℤ) (s' : State) : Type 0 where
    fresh : code ≡ pos 1 → IsCharged s s' → ScriptResult s code s'
    same : code ≡ pos 2 → s' ≡ s → get s marker ≡ some identity → ScriptResult s code s'
    over : code ≡ pos 0 → s' ≡ s → ScriptResult s code s'
    conflict : code ≡ negsuc 0 → s' ≡ s → ScriptResult s code s'

  charge-ScriptResult :
      (s : State)
      → IsTenant R marker user org s
      → pos 1 ≤ℤ ttl
      → let (code, s') =
          charge R decimal marker user org identity amount user_limit org_limit ttl s in
        ScriptResult s code s'
  unfolding charge
  charge-ScriptResult s tenant positive =
      elim (Bool-cases (ltb_ℤ user_limit (balance R s user +ℤ amount))) [
        | inl e ↦ rw (e, charge) (over refl refl)
        | inr e ↦ elim (Bool-cases (ltb_ℤ org_limit (balance R s org +ℤ amount))) [
          | inl f ↦ rw (e, f, charge) (over refl refl)
          | inr f ↦
              rw (e, f, charge)
                (fresh refl
                  (charged-IsCharged s tenant positive (ground (arith, e)) (ground (arith, f))))
        ]
      ]

  script-ScriptResult :
      (s : State)
      → IsTenant R marker user org s
      → pos 1 ≤ℤ ttl
      → let (code, s') =
          reserve_tenant_script R decimal marker user org identity amount user_limit org_limit ttl
            s in
        ScriptResult s code s'
  unfolding reserve_tenant_script
  script-ScriptResult s tenant positive = elim (Option-cases (get s marker)) [
    | inl e ↦ rw (e, reserve_tenant_script) (charge-ScriptResult s tenant positive)
    | inr (v, e) ↦ elim (Bool-cases (value_eq v identity)) [
      | inl f ↦
          rw (e, reserve_tenant_script)
            (rw f (same refl refl (e ∙ ap some (value_eq_lem v identity f))))
      | inr f ↦ rw (e, reserve_tenant_script) (rw f (conflict refl refl))
    ]
  ]

  -- What a call promises by its answer: a new reservation is charged; a replayed one is marked with
  -- its identity, and it, a refusal and a rejected argument change nothing; with no backend the charge happened at most once.
  abbrev pub Charges : State → Result BudgetError TenantReservation × State → Type 0
  Charges s (ok t, s') =
      if t.replayed then (s' ≡ s) × (get s marker ≡ some identity) else IsCharged s s'
  Charges s (err backend_unavailable, s') = (s' ≡ s) ⊎ IsCharged s s'
  Charges s (err (value_error _), s') = s' ≡ s
  Charges s (err (denied _), s') = s' ≡ s

  answer-Charges :
      (s : State) (t : TenantReservation) (code : ℤ) (s' : State)
      → ScriptResult s code s'
      → Charges s (tenant_answer R decimal t (ok code, s'))
  answer-Charges s t code s' (fresh e h) = rw e h
  answer-Charges s t code s' (same e h there) = rw e (h, there)
  answer-Charges s t code s' (over e h) = rw e h
  answer-Charges s t code s' (conflict e h) = rw e h

  script-moves :
      (s : State) (code : ℤ) (s' : State) → ScriptResult s code s' → (s' ≡ s) ⊎ IsCharged s s'
  script-moves s code s' (fresh e h) = inr h
  script-moves s code s' (same e h there) = inl h
  script-moves s code s' (over e h) = inl h
  script-moves s code s' (conflict e h) = inl h

  eval-Charges :
      (c : Connection) (t : TenantReservation) (script : State → ℤ × State) (s : State)
      → ScriptResult s (script s).0 (script s).1
      → Charges s (tenant_answer R decimal t (eval R decimal c script s))
  unfolding eval
  eval-Charges missing t script s h = inl refl
  eval-Charges refused t script s h = inl refl
  eval-Charges lost t script s h = script-moves s (script s).0 (script s).1 h
  eval-Charges up t script s h = answer-Charges s t (script s).0 (script s).1 h

  -- the reservation that the arguments ask for
  abbrev pub requested : TenantReservation
  requested = record {
    reservation_id = rid;
    marker_key = marker;
    user = record { key = user; amount = amount };
    organization = record { key = org; amount = amount };
    replayed = false;
  }

  -- For a tenant with three different keys and counters that hold numbers, whatever the arguments
  -- and however the call of the server ends: a new reservation raises the user's and the
  -- organization's counter by its amount, both within their limits, marks its identity and touches
  -- no other key; a reservation is replayed only where its marker holds its identity; a replayed
  -- reservation, a refused one and a rejected argument leave the state as it is; and where the backend is reported unavailable, the state is as it was or charged once.
  pub reserve_tenant-Charges :
      (c : Connection) (s : State)
      → IsTenant R marker user org s
      → Charges s (reserve_tenant R decimal c rid user org amount user_limit org_limit ttl s)
  unfolding reserve_tenant
  reserve_tenant-Charges c s tenant =
      elim (Bool-cases (is_empty rid || is_empty user || is_empty org)) [
        | inl e ↦ rw (e, reserve_tenant) refl
        | inr e ↦
            elim (Bool-cases (
              not_positive amount
              || not_positive user_limit
              || not_positive org_limit
              || not_positive ttl)) [
                | inl f ↦ rw (e, f, reserve_tenant) refl
                | inr f ↦
                    rw (e, f, reserve_tenant)
                      (eval-Charges c requested _ s
                        (script-ScriptResult s tenant (ground (arith, f))))
              ]
      ]

  -- one call, of which only its effect is known
  abbrev called : Connection → State → State
  called c s = (reserve_tenant R decimal c rid user org amount user_limit org_limit ttl s).1

  -- the same call again and again, on connections that answer or fail
  abbrev pub retried : List Connection → State → State
  retried [] s = s
  retried (c ∷ cs) s = retried cs (called c s)

  abbrev pub IsReplayed : State → Type 0
  IsReplayed s =
      reserve_tenant R decimal up rid user org amount user_limit org_limit ttl s
      ≡ (ok (record requested { replayed = true }), s)

  -- With the marker of a charge in place no call has an effect.
  called_marked : (c : Connection) (s : State) → get s marker ≡ some identity → called c s ≡ s
  unfolding reserve_tenant eval reserve_tenant_script
  called_marked c s h = elim (Bool-cases (is_empty rid || is_empty user || is_empty org)) [
    | inl e ↦ rw (called, e, reserve_tenant) refl
    | inr e ↦
        elim (Bool-cases (
          not_positive amount
          || not_positive user_limit
          || not_positive org_limit
          || not_positive ttl)) [
            | inl f ↦ rw (called, e, f, reserve_tenant) refl
            | inr f ↦ rw (called, e, f, reserve_tenant) (reached c)
          ]
  ]
    where
      reached :
          (d : Connection)
          → (tenant_answer R decimal requested (
              eval R decimal d
                (reserve_tenant_script R decimal marker user org identity amount user_limit
                  org_limit ttl)
                s)).1
            ≡ s
      reached missing = refl
      reached refused = refl
      reached lost = rw (h, reserve_tenant_script) (rw (value_eq_refl identity) refl)
      reached up = rw (h, reserve_tenant_script) (rw (value_eq_refl identity) refl)

  retried_idle :
      (cs : List Connection) (s : State) → ((c : Connection) → called c s ≡ s) → retried cs s ≡ s
  retried_idle [] s idle = refl
  retried_idle (c ∷ cs) s idle = rw (idle c) (retried_idle cs s idle)

  moved :
      (s : State) (answer : Result BudgetError TenantReservation × State)
      → Charges s answer
      → (answer.1 ≡ s) ⊎ IsCharged s answer.1
  moved s (ok t, s') h = elim (Bool-cases t.replayed) [
    | inl again ↦ inl (rw again at h).0
    | inr new ↦ inr (rw new at h)
  ]
  moved s (err backend_unavailable, s') h = h
  moved s (err (value_error x), s') h = inl h
  moved s (err (denied x), s') h = inl h

  retried_lem :
      (cs : List Connection) (s : State)
      → IsTenant R marker user org s
      → (retried cs s ≡ s) ⊎ IsCharged s (retried cs s)
  retried_lem [] s tenant = inl refl
  retried_lem (c ∷ cs) s tenant = elim (moved s _ (reserve_tenant-Charges c s tenant)) [
    | inl idle ↦ rw idle (retried_lem cs s tenant)
    | inr h ↦ inr (rw (retried_idle cs (called c s) (λ d. called_marked d (called c s) h.marked)) h)
  ]

  IsReplayed-of :
      (s : State)
      → (is_empty rid || is_empty user || is_empty org) ≡ false
      → (not_positive amount
          || not_positive user_limit
          || not_positive org_limit
          || not_positive ttl)
        ≡ false
      → get s marker ≡ some identity
      → IsReplayed s
  unfolding reserve_tenant eval reserve_tenant_script
  IsReplayed-of s e f h =
      rw (e, f) (rw (h, reserve_tenant_script) (rw (value_eq_refl identity) refl))

  -- A call that is repeated with the same arguments, any number of times and on connections of which
  -- each may fail, lose its reply or answer, leaves the state as it was or charged exactly once, as
  -- long as nothing else changes the state in between (no expiry, release or other client). Where it
  -- is charged, the next call that is answered succeeds as a replay and changes nothing.
  pub at_most_one_charge :
      (cs : List Connection) (s : State)
      → IsTenant R marker user org s
      → (retried cs s ≡ s) ⊎ (IsCharged s (retried cs s) × IsReplayed (retried cs s))
  unfolding reserve_tenant
  at_most_one_charge cs s tenant =
      elim (Bool-cases (is_empty rid || is_empty user || is_empty org)) [
        | inl e ↦ inl (retried_idle cs s (λ c. rw (called, e, reserve_tenant) refl))
        | inr e ↦
            elim (Bool-cases (
              not_positive amount
              || not_positive user_limit
              || not_positive org_limit
              || not_positive ttl)) [
                | inl f ↦ inl (retried_idle cs s (λ c. rw (called, e, f, reserve_tenant) refl))
                | inr f ↦ elim (retried_lem cs s tenant) [
                  | inl idle ↦ inl idle
                  | inr h ↦ inr (h, IsReplayed-of (retried cs s) e f h.marked)
                ]
              ]
      ]
