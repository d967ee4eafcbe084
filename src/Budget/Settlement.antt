-- ===== src/Budget/Settlement.antt =====
-- What a settlement and a release do to a charged reservation.
use eiraos_chat_backend.Prelude.{
  ◌≡◌, ◌≢◌, refl, sym, ◌∙◌, ap, String, none, some, true, false, str_eq, if◌then◌else◌, arith,
  Bool-cases, inl, inr, eq_refl,
}
use eiraos_chat_backend.Prelude.Int.{ℤ, pos, ◌+ℤ◌, ◌-ℤ◌, ◌≤ℤ◌, ltb_ℤ, leb_ℤ, eq_ℤ}
use eiraos_chat_backend.Prelude.Result.{ok, err}
use eiraos_chat_backend.Budget.Redis.{number, RedisServer, up, IsCounter}
use eiraos_chat_backend.Budget.Reservation.{
  denied, TenantReservation, eval, settle_tenant, settle_tenant_script, adjust, settlement_key,
  held_identity,
}
use eiraos_chat_backend.Budget.Counters.{str_ne, value_eq_refl, balance}

module _ (R : RedisServer) (decimal : ℤ → String) (r : TenantReservation) where
  open R use {State, get, incr_by, set_expiring, pttl}

  -- The reservation is held: its marker carries its identity, its four keys differ, and the two
  -- counters hold numbers.
  pub record IsHeld (s : State) : Type 0 where
    pub marked : get s r.marker_key ≡ some (held_identity decimal r)
    pub marker_user : r.marker_key ≢ r.user.key
    pub marker_org : r.marker_key ≢ r.organization.key
    pub user_org : r.user.key ≢ r.organization.key
    pub settlement_marker : settlement_key r ≢ r.marker_key
    pub settlement_user : settlement_key r ≢ r.user.key
    pub settlement_org : settlement_key r ≢ r.organization.key
    pub user_counter : IsCounter (get s r.user.key)
    pub org_counter : IsCounter (get s r.organization.key)

  -- a settlement of a held reservation that was settled before
  pub resettle :
      (s : State) (before now : ℤ)
      → get s r.marker_key ≡ some (held_identity decimal r)
      → get s (settlement_key r) ≡ some (number before)
      → pos 0 ≤ℤ now
      → settle_tenant R decimal up r now s ≡ (
          if eq_ℤ before now
          then (ok false, s)
          else (err (denied "budget settlement identity conflict"), s))
  unfolding settle_tenant eval settle_tenant_script
  resettle s before now marked known counted = rw counted_test (
      rw (marked, settle_tenant_script)
        (rw (value_eq_refl (held_identity decimal r)) (
          rw (known, settle_tenant_script)
            (elim (Bool-cases (eq_ℤ before now)) [ inl e ↦ rw e | inr e ↦ rw e ]))))
    where
      counted_test : ltb_ℤ now (pos 0) ≡ false
      counted_test = ground arith

  module _ (s : State) (held : IsHeld s) (actual : ℤ) (counted : pos 0 ≤ℤ actual)
      (alive : pos 1 ≤ℤ pttl r.marker_key s) (open_account : get s (settlement_key r) ≡ none) where
    abbrev delta : ℤ
    delta = actual -ℤ r.user.amount

    abbrev settled : State
    settled =
        set_expiring (settlement_key r) (number actual) (pttl r.marker_key s)
          (incr_by r.organization.key delta (incr_by r.user.key delta s))

    org_unmoved : get (incr_by r.user.key delta s) r.organization.key ≡ get s r.organization.key
    org_unmoved =
        R.get-incr_by r.user.key r.organization.key delta s held.user_counter
        ∙ rw (str_ne r.user.key r.organization.key held.user_org)

    get-settled :
        (j : String)
        → get settled j ≡ (
            if str_eq (settlement_key r) j
            then some (number actual)
            else if str_eq r.organization.key j
            then some (number (balance R s r.organization.key +ℤ delta))
            else if str_eq r.user.key j
            then some (number (balance R s r.user.key +ℤ delta))
            else get s j)
    get-settled j =
        R.get-set_expiring (settlement_key r) j (number actual) _ _ alive
        ∙ ap (λ x. if str_eq (settlement_key r) j then some (number actual) else x)
            (R.get-incr_by r.organization.key j delta _ (rw org_unmoved held.org_counter)
              ∙ rw (org_unmoved, R.get-incr_by r.user.key j delta s held.user_counter))

    settle-settled : settle_tenant R decimal up r actual s ≡ (ok true, settled)
    unfolding settle_tenant eval settle_tenant_script adjust
    settle-settled = rw counted_test (
        rw (held.marked, settle_tenant_script)
          (rw (value_eq_refl (held_identity decimal r))
            (rw (open_account, settle_tenant_script) (rw (alive_test, adjust)))))
      where
        counted_test : ltb_ℤ actual (pos 0) ≡ false
        counted_test = ground arith

        alive_test : leb_ℤ (pttl r.marker_key s) (pos 0) ≡ false
        alive_test = ground arith

    settled_user : balance R settled r.user.key ≡ balance R s r.user.key +ℤ delta
    settled_user = rw (get-settled r.user.key) (
        rw (
          str_ne (settlement_key r) r.user.key held.settlement_user,
          str_ne r.organization.key r.user.key (λ e. held.user_org (sym e)),
          eq_refl r.user.key,
        ))

    settled_org : balance R settled r.organization.key ≡ balance R s r.organization.key +ℤ delta
    settled_org = rw (get-settled r.organization.key) (
        rw (
          str_ne (settlement_key r) r.organization.key held.settlement_org,
          eq_refl r.organization.key,
        ))

    settled_marker : get settled r.marker_key ≡ some (held_identity decimal r)
    settled_marker =
        get-settled r.marker_key
        ∙ rw (
          str_ne (settlement_key r) r.marker_key held.settlement_marker,
          str_ne r.organization.key r.marker_key (λ e. held.marker_org (sym e)),
          str_ne r.user.key r.marker_key (λ e. held.marker_user (sym e)),
          held.marked,
        )

    settled_record : get settled (settlement_key r) ≡ some (number actual)
    settled_record = get-settled (settlement_key r) ∙ rw (eq_refl (settlement_key r))

    -- A held reservation is settled once. The first settlement with an actual usage of 0 or more
    -- answers true and moves both counters by the difference between the actual usage and the
    -- reserved amount; after it the same settlement answers false and changes nothing, and one with
    -- another usage of 0 or more is refused and changes nothing.
    pub settle_once :
        (other : ℤ)
        → pos 0 ≤ℤ other
        → eq_ℤ actual other ≡ false
        → let s' = (settle_tenant R decimal up r actual s).1 in
          ((settle_tenant R decimal up r actual s).0 ≡ ok true)
          × (balance R s' r.user.key ≡ balance R s r.user.key +ℤ (actual -ℤ r.user.amount))
          × (balance R s' r.organization.key
              ≡ balance R s r.organization.key +ℤ (actual -ℤ r.user.amount))
          × (settle_tenant R decimal up r actual s' ≡ (ok false, s'))
          × (settle_tenant R decimal up r other s'
              ≡ (err (denied "budget settlement identity conflict"), s'))
    settle_once other fine differs =
        rw settle-settled (refl, settled_user, settled_org, again, conflict)
      where
        eq_ℤ_refl : eq_ℤ actual actual ≡ true
        eq_ℤ_refl = ground arith

        again : settle_tenant R decimal up r actual settled ≡ (ok false, settled)
        again = resettle settled actual actual settled_marker settled_record counted ∙ rw eq_ℤ_refl

        conflict :
            settle_tenant R decimal up r other settled
            ≡ (err (denied "budget settlement identity conflict"), settled)
        conflict = resettle settled actual other settled_marker settled_record fine ∙ rw differs
