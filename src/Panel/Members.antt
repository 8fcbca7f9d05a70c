-- ===== src/Panel/Members.antt =====
-- internal/panel/members.go: the writes on panel_site_members, each one transaction, which holds the
-- locks on the rows that it reads; what a lost connection does is left out. User ids are positive.
pub mod Owners
pub mod Kept
pub mod Writes
pub mod Authority
mod Examples
use crucible_analytic.Prelude.{
  ℕ, suc, ◌+◌, Bool, true, false, not, ◌&&◌, ◌||◌, List, [], ◌∷◌, ◌++◌, map, Option, none, some,
  Bytes, any, keep_if, ltb, ◌==◌, if◌then◌else◌, length, Result, ok, err, guard, ◌>>=◌, ◌>>◌,
}
use crucible_analytic.Prelude.Text.{bytes_eq, is_empty}
use crucible_analytic.Panel.Roles.{
  Role, owner, admin, viewer, other, no_role, valid, other_kind, Access, can_assign,
  can_manage_member, is_owner_role,
}

-- A row of panel_site_members.
pub record Member : Type 0 where
  pub site_id : Bytes
  pub user_id : ℕ
  pub role : Role
  pub created_by : Option ℕ
  pub expires_at : Option ℕ

-- A row of panel_users.
pub record User : Type 0 where
  pub id : ℕ
  pub email : Bytes
  pub superadmin : Bool
  pub disabled : Bool

pub data MemberError : Type 0 where
  invalid_role ownership_cannot_expire last_owner not_permitted not_found : MemberError

pub record Grant : Type 0 where
  pub by : Option ℕ
  pub until : Option ℕ

unfoldable pub is_row : Bytes → ℕ → Member → Bool
is_row site uid m = bytes_eq m.site_id site && m.user_id == uid

unfoldable pub is_owner_of : Bytes → Member → Bool
is_owner_of site m = bytes_eq m.site_id site && is_owner_role m.role

unfoldable pub live_membership : ℕ → Option ℕ → Bool
live_membership now none = true
live_membership now (some at) = ltb now at

pub record MembershipState : Type 0 where
  pub current : Role
  pub owners : List ℕ

-- One round of the loop of lockMembership.
abbrev pub note_row : Bytes → ℕ → MembershipState → Member → MembershipState
note_row site uid st m = record {
  current = (if is_row site uid m then m.role else st.current);
  owners = (if is_owner_of site m then st.owners ++ m.user_id ∷ [] else st.owners);
}

unfoldable pub lock_loop : Bytes → ℕ → MembershipState → List Member → MembershipState
lock_loop site uid st [] = st
lock_loop site uid st (m ∷ ms) = lock_loop site uid (note_row site uid st m) ms

unfoldable pub lock_membership : Bytes → ℕ → List Member → MembershipState
lock_membership site uid ms = lock_loop site uid (record { current = no_role; owners = [] }) ms

unfoldable pub last_owner_is : ℕ → List ℕ → Bool
last_owner_is uid (o ∷ []) = o == uid
last_owner_is uid _ = false

unfoldable pub find_user : ℕ → List User → Option User
find_user id [] = none
find_user id (u ∷ us) =
    let rest = find_user id us in if u.id == id && not u.disabled then some u else rest

unfoldable pub live_role : ℕ → Bytes → ℕ → List Member → Option Role
live_role now site uid [] = none
live_role now site uid (m ∷ ms) =
    let rest = live_role now site uid ms in
    if is_row site uid m && live_membership now m.expires_at then some m.role else rest

unfoldable pub access_of : Bytes → User → Option Role → Access
access_of site u role = record {
  principal = record {
    kind = other_kind [];
    user_id = u.id;
    label = [];
    superadmin = u.superadmin;
    developer_mode = false;
  };
  role = elim role [ none ↦ no_role | some r ↦ r ];
  member = elim role [ none ↦ false | some r ↦ true ];
  site_id = site;
  owns_every_site = false;
}

unfoldable pub live_access : ℕ → List User → List Member → ℕ → Bytes → Option Access
live_access now us ms uid site = elim (find_user uid us) [
  | none ↦ none
  | some u ↦ some (access_of site u (live_role now site uid ms))
]

unfoldable pub is_no_role : Role → Bool
is_no_role owner = false
is_no_role admin = false
is_no_role viewer = false
is_no_role (other r) = is_empty r

unfoldable pub permits : Access → Role → Role → Bool
permits access current next =
    can_manage_member access current && (is_no_role next || can_assign access next)

-- The actor `none` is the deployment itself.
unfoldable pub may_act_on_member :
    ℕ → List User → List Member → Option ℕ → Bytes → Role → Role → Bool
may_act_on_member now us ms none site current next = true
may_act_on_member now us ms (some actor) site current next =
    elim (live_access now us ms actor site) [
      | none ↦ false
      | some access ↦ permits access current next
    ]

-- The UPDATE of a row, if there is one.
unfoldable pub update_rows : Bytes → ℕ → (Member → Member) → List Member → List Member
update_rows site uid f [] = []
update_rows site uid f (m ∷ ms) =
    let rest = update_rows site uid f ms in if is_row site uid m then f m ∷ rest else m ∷ rest

abbrev pub granted : Role → Option ℕ → Member → Member
granted role until m = record m { role = role; expires_at = until }

abbrev pub reroled : Role → Member → Member
reroled role m = record m {
  role = role;
  expires_at = (if is_owner_role role then none else m.expires_at);
}

-- INSERT ... ON CONFLICT (site_id, user_id) DO UPDATE.
unfoldable pub upsert : Bytes → ℕ → Role → Grant → List Member → List Member
upsert site uid role g ms =
    if any (is_row site uid) ms
    then update_rows site uid (granted role g.until) ms
    else ms
      ++ (record {
        site_id = site;
        user_id = uid;
        role = role;
        created_by = g.by;
        expires_at = g.until;
      })
        ∷ []

unfoldable pub is_some : Option ℕ → Bool
is_some none = false
is_some (some n) = true

unfoldable pub add_member :
    ℕ → List User → Bytes → ℕ → Role → Grant → List Member → Result MemberError (List Member)
add_member now us site uid role g ms =
    let st = lock_membership site uid ms in
    if not (valid role)
    then err invalid_role
    else if is_some g.until && is_owner_role role
    then err ownership_cannot_expire
    else if not (may_act_on_member now us ms g.by site st.current role)
    then err not_permitted
    else if not (is_owner_role role) && last_owner_is uid st.owners
    then err last_owner
    else ok (upsert site uid role g ms)

unfoldable pub remove_member :
    ℕ → List User → Bytes → ℕ → Option ℕ → List Member → Result MemberError (List Member)
remove_member now us site uid actor ms =
    let st = lock_membership site uid ms in
    if not (may_act_on_member now us ms actor site st.current no_role)
    then err not_permitted
    else if last_owner_is uid st.owners
    then err last_owner
    else if any (is_row site uid) ms
    then ok (keep_if (λ m. not (is_row site uid m)) ms)
    else err not_found

unfoldable pub set_member_role :
    ℕ → List User → Bytes → ℕ → Role → Option ℕ → List Member → Result MemberError (List Member)
set_member_role now us site uid role actor ms =
    let st = lock_membership site uid ms in
    if not (valid role)
    then err invalid_role
    else if not (may_act_on_member now us ms actor site st.current role)
    then err not_permitted
    else if not (is_owner_role role) && last_owner_is uid st.owners
    then err last_owner
    else if any (is_row site uid) ms
    then ok (update_rows site uid (reroled role) ms)
    else err not_found
