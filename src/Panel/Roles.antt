-- ===== src/Panel/Roles.antt =====
-- internal/panel/roles.go: the authorization model.
use crucible_analytic.Prelude.{
  ℕ, ◌≡◌, ◌⊎◌, Bool, true, false, not, ◌&&◌, ◌||◌, Bytes, [], if◌then◌else◌, arith,
}

-- A text that is none of the three is `other`, the empty one included.
pub data Role : Type 0 where
  owner admin viewer : Role
  other : Bytes → Role

abbrev pub no_role : Role
no_role = other []

unfoldable pub valid : Role → Bool
valid owner = true
valid admin = true
valid viewer = true
valid (other r) = false

pub data Capability : Type 0 where
  view_analytics use_developer_mode manage_members manage_settings manage_tokens : Capability
  view_audit delete_site : Capability
  other_capability : Bytes → Capability

-- `roleCapabilities`: what is not listed is denied.
unfoldable pub role_can : Role → Capability → Bool
role_can owner (other_capability c) = false
role_can owner _ = true
role_can admin delete_site = false
role_can admin (other_capability c) = false
role_can admin _ = true
role_can viewer view_analytics = true
role_can viewer _ = false
role_can (other r) _ = false

pub data PrincipalKind : Type 0 where
  user developer system anonymous : PrincipalKind
  other_kind : Bytes → PrincipalKind

pub record Principal : Type 0 where
  pub kind : PrincipalKind
  pub user_id : ℕ
  pub label : Bytes
  pub superadmin : Bool
  pub developer_mode : Bool

pub record Access : Type 0 where
  pub principal : Principal
  pub role : Role
  pub member : Bool
  pub site_id : Bytes
  pub owns_every_site : Bool

unfoldable pub can : Access → Capability → Bool
can a c = if a.principal.superadmin then true else role_can a.role c

unfoldable pub shows_technical : Access → Bool
unfolding can
shows_technical a = can a use_developer_mode && a.principal.developer_mode

unfoldable pub is_owner_role : Role → Bool
is_owner_role owner = true
is_owner_role admin = false
is_owner_role viewer = false
is_owner_role (other r) = false

unfoldable pub can_assign : Access → Role → Bool
can_assign a role =
    if not (can a manage_members) || not (valid role)
    then false
    else if a.principal.superadmin
    then true
    else if is_owner_role role
    then is_owner_role a.role
    else true

unfoldable pub can_manage_member : Access → Role → Bool
can_manage_member a current =
    if not (can a manage_members)
    then false
    else if a.principal.superadmin
    then true
    else if is_owner_role current
    then is_owner_role a.role
    else true

-- Access.MayLiftLoginLocks, of attempts.go.
unfoldable pub may_lift_login_locks : Access → Bool
may_lift_login_locks a = is_owner_role a.role

-- Nobody grants authority above their own: whatever a role that they may assign can do, they can do
-- themselves, and when they may act on a member, they can do whatever that member's role can.
role_can-can :
    (a : Access) (r : Role) (c : Capability)
    → (can_assign a r ≡ true) ⊎ (can_manage_member a r ≡ true)
    → role_can r c ≡ true
    → can a c ≡ true
unfolding can_assign can_manage_member can valid is_owner_role role_can
role_can-can a r c h e = ground (arith, h, e)

-- The roles are in order: a viewer can do nothing that an administrator cannot, nor an administrator
-- anything that an owner cannot, and only an owner may delete the site.
pub role_can_order :
    (c : Capability)
    → (role_can viewer c ≡ true → role_can admin c ≡ true)
      × (role_can admin c ≡ true → role_can owner c ≡ true)
      × (role_can admin delete_site ≡ false)
unfolding role_can
role_can_order c = ground arith
