-- ===== src/Governance/Nested.antt =====
-- The roles in their order.
use eiraos_chat_backend.Prelude.{◌≡◌, refl, sym, ap, ◌∙◌, String, some, true}
use eiraos_chat_backend.Prelude.Text.{strip, lower, is_space}
use eiraos_chat_backend.Prelude.Int.{ℤ}
use eiraos_chat_backend.Governance.Capabilities.{
  Capability, organization_read, position, cap_eq, Grant, role_capabilities, owner_grant,
  admin_grant, member_grant, viewer_grant,
}
use eiraos_chat_backend.Governance.Decision.{Requested, decide_role_capability, normalize}
use eiraos_chat_backend.Governance.Roles.{IsGranted-of, allowed_of}

viewer-le-member : (c : Capability) → viewer_grant c ≡ true → member_grant c ≡ true
unfolding viewer_grant member_grant position cap_eq
viewer-le-member organization_read h = cc
viewer-le-member _ h = cc

member-le-admin : (c : Capability) → member_grant c ≡ true → admin_grant c ≡ true
unfolding member_grant admin_grant position cap_eq
member-le-admin organization_read h = cc
member-le-admin _ h = cc

admin-le-owner : (c : Capability) → admin_grant c ≡ true → owner_grant c ≡ true
unfolding owner_grant
admin-le-owner c h = refl

-- the next role up
pub data Below (low high : String) : Type 0 where
  viewer_member : low ≡ "viewer" → high ≡ "member" → Below low high
  member_admin : low ≡ "member" → high ≡ "admin" → Below low high
  admin_owner : low ≡ "admin" → high ≡ "owner" → Below low high

normal_viewer : role_capabilities (normalize (some "viewer")) ≡ some viewer_grant
unfolding normalize role_capabilities strip lower is_space
normal_viewer = refl

normal_member : role_capabilities (normalize (some "member")) ≡ some member_grant
unfolding normalize role_capabilities strip lower is_space
normal_member = refl

normal_admin : role_capabilities (normalize (some "admin")) ≡ some admin_grant
unfolding normalize role_capabilities strip lower is_space
normal_admin = refl

normal_owner : role_capabilities (normalize (some "owner")) ≡ some owner_grant
unfolding normalize role_capabilities strip lower is_space
normal_owner = refl

raise_grant :
    (low high : String) (small large : Grant) (requested : Requested) (org resource : ℤ)
    → role_capabilities (normalize (some low)) ≡ some small
    → role_capabilities (normalize (some high)) ≡ some large
    → ((c : Capability) → small c ≡ true → large c ≡ true)
    → (decide_role_capability (some low) requested org resource).allowed ≡ true
    → (decide_role_capability (some high) requested org resource).allowed ≡ true
raise_grant low high small large requested org resource el eh le h =
    let g = IsGranted-of (some low) requested org resource h in
    let same : g.grant ≡ small = cc (g.role_known, el) in
    allowed_of (some high) requested org resource (record {
      capability = g.capability;
      known = g.known;
      same_tenant = g.same_tenant;
      grant = large;
      role_known = eh;
      in_grant = le g.capability (ap (λ (f : Grant). f g.capability) (sym same) ∙ g.in_grant);
    })

-- The roles are nested: whatever a viewer may do a member may, whatever a member may do an admin
-- may, and whatever an admin may do an owner may, on any resource.
pub decide_nested :
    (low high : String) (requested : Requested) (org resource : ℤ)
    → Below low high
    → (decide_role_capability (some low) requested org resource).allowed ≡ true
    → (decide_role_capability (some high) requested org resource).allowed ≡ true
decide_nested low high requested org resource (viewer_member a b) h = rw b (
    raise_grant "viewer" "member" viewer_grant member_grant requested org resource normal_viewer
      normal_member viewer-le-member (rw a at h))
decide_nested low high requested org resource (member_admin a b) h = rw b (
    raise_grant "member" "admin" member_grant admin_grant requested org resource normal_member
      normal_admin member-le-admin (rw a at h))
decide_nested low high requested org resource (admin_owner a b) h = rw b (
    raise_grant "admin" "owner" admin_grant owner_grant requested org resource normal_admin
      normal_owner admin-le-owner (rw a at h))
