-- ===== src/Budget/Release.antt =====
-- What a release gives back.
use eiraos_chat_backend.Prelude.{
  ◌≡◌, sym, ◌∙◌, ap, String, none, some, false, str_eq, if◌then◌else◌, arith, eq_refl,
}
use eiraos_chat_backend.Prelude.Int.{ℤ, pos, ◌+ℤ◌, ◌-ℤ◌, ◌≤ℤ◌, max_ℤ}
use eiraos_chat_backend.Prelude.Result.{ok}
use eiraos_chat_backend.Budget.Redis.{number, RedisServer, up}
use eiraos_chat_backend.Budget.Reservation.{
  TenantReservation, eval, held_identity, release_tenant, release_tenant_script,
}
use eiraos_chat_backend.Budget.Counters.{str_ne, value_eq_refl, balance}
use eiraos_chat_backend.Budget.Settlement.{IsHeld}

module _ (R : RedisServer) (decimal : ℤ → String) (r : TenantReservation) (s : R.State)
    (held : IsHeld R decimal r s) (new : r.replayed ≡ false) where
  open R use {State, get, set_keep, del}

  abbrev lowered : String → ℤ
  lowered k = max_ℤ (pos 0) (balance R s k -ℤ r.user.amount)

  abbrev released : State
  released = del r.marker_key (
      set_keep r.organization.key (number (lowered r.organization.key))
        (set_keep r.user.key (number (lowered r.user.key)) s))

  get-released :
      (j : String)
      → get released j ≡ (
          if str_eq r.marker_key j
          then none
          else if str_eq r.organization.key j
          then some (number (lowered r.organization.key))
          else if str_eq r.user.key j
          then some (number (lowered r.user.key))
          else get s j)
  get-released j =
      R.get-del r.marker_key j _
      ∙ ap (λ x. if str_eq r.marker_key j then none else x)
          (R.get-set_keep r.organization.key j (number (lowered r.organization.key)) _
            ∙ rw (R.get-set_keep r.user.key j (number (lowered r.user.key)) s))

  release-released : release_tenant R decimal up r s ≡ (ok tt, released)
  unfolding release_tenant eval release_tenant_script
  release-released =
      rw new
        (rw (held.marked, release_tenant_script) (rw (value_eq_refl (held_identity decimal r))))

  released_marker : get released r.marker_key ≡ none
  released_marker = get-released r.marker_key ∙ rw (eq_refl r.marker_key)

  again : release_tenant R decimal up r released ≡ (ok tt, released)
  unfolding release_tenant eval release_tenant_script
  again = rw new (rw (released_marker, release_tenant_script))

  give_back :
      (before now amount : ℤ)
      → now ≡ before +ℤ amount
      → pos 0 ≤ℤ before
      → max_ℤ (pos 0) (now -ℤ amount) ≡ before
  unfolding ◌+ℤ◌ ◌-ℤ◌
  give_back before now amount e h = rw e (ground arith)

  -- A release of a held reservation that was not a replay puts both counters back to what they were
  -- before the charge, where that was 0 or more, and takes the marker away; a second release of the
  -- same reservation succeeds and changes nothing.
  pub release_restores :
      (user_before org_before : ℤ)
      → balance R s r.user.key ≡ user_before +ℤ r.user.amount
      → balance R s r.organization.key ≡ org_before +ℤ r.user.amount
      → pos 0 ≤ℤ user_before
      → pos 0 ≤ℤ org_before
      → let s' = (release_tenant R decimal up r s).1 in
        (balance R s' r.user.key ≡ user_before)
        × (balance R s' r.organization.key ≡ org_before)
        × (get s' r.marker_key ≡ none)
        × (release_tenant R decimal up r s' ≡ (ok tt, s'))
  release_restores user_before org_before eu eo fu fo = rw release-released (
    rw (get-released r.user.key) (
        rw
          (
            str_ne r.marker_key r.user.key held.marker_user,
            str_ne r.organization.key r.user.key (λ e. held.user_org (sym e)),
            eq_refl r.user.key,
          )
          (give_back user_before (balance R s r.user.key) r.user.amount eu fu)),
    rw (get-released r.organization.key) (
        rw (str_ne r.marker_key r.organization.key held.marker_org, eq_refl r.organization.key)
          (give_back org_before (balance R s r.organization.key) r.user.amount eo fo)),
    released_marker,
    again,
  )
