-- ===== src/Panel/Invites.antt =====
-- internal/panel/memberinvite.go: invitations to a site. Each transaction is one step at the time of the
-- database's clock, in nanoseconds, which the panel's own, that starts a grant, is taken to agree with;
-- what a lost connection does is left out. hashToken is a parameter,
-- and the drawn token an argument.
pub mod Office
pub mod Outcomes
pub mod Open
pub mod Spent
pub mod Owners
mod Examples
use crucible_analytic.Prelude.{
  ℕ, zero, suc, ◌+◌, ◌*◌, ◌/◌, Bool, true, false, not, ◌&&◌, ◌||◌, List, [], ◌∷◌, ◌++◌, map, Option,
  none, some, Bytes, any, count_if, ltb, leb, ◌==◌, if◌then◌else◌, Result, ok, err,
}
use crucible_analytic.Prelude.Int.{ℤ, pos, negsuc}
use crucible_analytic.Prelude.Text.{bytes_eq, is_empty, to_lower, trim_space}
use crucible_analytic.RateStore.Window.{second}
use crucible_analytic.Panel.Roles.{Role, valid, is_owner_role, can_assign}
use crucible_analytic.Panel.Members.{Member, User, is_row, live_access}
use crucible_analytic.Panel.Attempts.{login_key}

abbrev pub day : ℕ
day = 24 * 60 * 60 * second

abbrev pub default_member_invite_ttl : ℕ
default_member_invite_ttl = 7 * day

abbrev pub max_open_invites_per_site : ℕ
max_open_invites_per_site = 50

-- A row of panel_member_invites, as far as the code decides by it.
pub record Invite : Type 0 where
  pub sha256 : Bytes
  pub id : ℕ
  pub site_id : Bytes
  pub role : Role
  pub email : Bytes
  pub created_by : Option ℕ
  pub expires_at : ℕ
  pub revoked : Bool
  pub used : Bool
  pub grant_days : ℕ

pub record Tables : Type 0 where
  pub users : List User
  pub members : List Member
  pub invites : List Invite
  pub next_user : ℕ
  pub next_invite : ℕ

pub data InviteError : Type 0 where
  no_site invalid_role bad_days ownership_cannot_expire : InviteError
  no_email email_unusable too_many_invites days_refused token_taken invite_invalid not_found :
      InviteError

unfoldable pub normalize_email : Bytes → Bytes
normalize_email email = to_lower (trim_space email)

unfoldable pub usable_email : Bytes → Bool
usable_email email = let n = normalize_email email in not (is_empty n) && bytes_eq (login_key n) n

-- `openInvitation`.
unfoldable pub is_open : ℕ → Invite → Bool
is_open now i = not i.used && not i.revoked && ltb now i.expires_at

abbrev pub is_pending : Invite → Bool
is_pending i = not i.used && not i.revoked

-- An open invitation of the site to another address.
unfoldable pub crowds : ℕ → Bytes → Bytes → Invite → Bool
crowds now site email i = bytes_eq i.site_id site && not (bytes_eq i.email email) && is_open now i

-- The invitation that a new one replaces.
unfoldable pub replaced : Bytes → Bytes → Invite → Invite
replaced site email i =
    if bytes_eq i.site_id site && bytes_eq i.email email && is_pending i
    then record i { revoked = true }
    else i

-- The table's own bound on the days.
abbrev pub max_grant_days : ℕ
max_grant_days = 365

unfoldable pub insert_invite : ℕ → Invite → Tables → Result InviteError Tables
insert_invite now i t =
    if leb max_open_invites_per_site (count_if (crowds now i.site_id i.email) t.invites)
    then err too_many_invites
    else if ltb max_grant_days i.grant_days
    then err days_refused
    else if any (λ x. bytes_eq x.sha256 i.sha256) t.invites
    then err token_taken
    else ok (record t {
      invites = map (replaced i.site_id i.email) t.invites ++ i ∷ [];
      next_invite = t.next_invite + 1;
    })

-- `ttl` with its default, in whole seconds.
unfoldable pub lifetime : ℤ → ℕ
lifetime (pos zero) = default_member_invite_ttl
lifetime (pos (suc n)) = suc n / second * second
lifetime (negsuc n) = default_member_invite_ttl

-- A number of days, `none` for a negative one.
abbrev pub days_of : ℤ → Option ℕ
days_of (pos n) = some n
days_of (negsuc n) = none

abbrev pub creator_of : ℕ → Option ℕ
creator_of uid = if uid == 0 then none else some uid

unfoldable pub check_invite : Bytes → Role → Option ℕ → Bytes → Option InviteError
check_invite site role none email =
    if is_empty site
    then some no_site
    else if not (valid role)
    then some invalid_role
    else some bad_days
check_invite site role (some days) email =
    if is_empty site
    then some no_site
    else if not (valid role)
    then some invalid_role
    else if ltb 0 days && is_owner_role role
    then some ownership_cannot_expire
    else if is_empty (normalize_email email)
    then some no_email
    else if not (usable_email (normalize_email email))
    then some email_unusable
    else none

abbrev pub or_zero : Option ℕ → ℕ
or_zero none = 0
or_zero (some n) = n

unfoldable pub create_member_invite :
    ℕ → Bytes → Bytes → Bytes → Role → ℕ → ℤ → ℤ → Tables → Result InviteError Tables
create_member_invite now sha256 site email role by ttl grant_days t =
    elim (check_invite site role (days_of grant_days) email) [
      | some e ↦ err e
      | none ↦
          insert_invite now
            (record {
              sha256 = sha256;
              id = t.next_invite;
              site_id = site;
              role = role;
              email = normalize_email email;
              created_by = creator_of by;
              expires_at = now + lifetime ttl;
              revoked = false;
              used = false;
              grant_days = or_zero (days_of grant_days);
            })
            t
    ]

-- The open invitation of a token.
unfoldable pub find_open : ℕ → Bytes → List Invite → Option Invite
find_open now sha256 [] = none
find_open now sha256 (i ∷ is) =
    let rest = find_open now sha256 is in
    if bytes_eq i.sha256 sha256 && is_open now i then some i else rest

unfoldable pub inviter_may_still_grant :
    ℕ → List User → List Member → Option ℕ → Bytes → Role → Bool
inviter_may_still_grant now us ms none site role = false
inviter_may_still_grant now us ms (some inviter) site role =
    elim (live_access now us ms inviter site) [
      | none ↦ false
      | some access ↦ can_assign access role
    ]

unfoldable pub find_by_email : Bytes → List User → Option User
find_by_email email [] = none
find_by_email email (u ∷ us) =
    let rest = find_by_email email us in if bytes_eq u.email email then some u else rest

abbrev pub new_user : Bytes → ℕ → User
new_user email id = record { id = id; email = email; superadmin = false; disabled = false }

-- The account of the address, or a new one.
unfoldable pub ensure_user : Bytes → Tables → User × Tables
ensure_user email t = elim (find_by_email email t.users) [
  | some u ↦ (u, t)
  | none ↦ (
    new_user email t.next_user,
    record t { users = t.users ++ new_user email t.next_user ∷ []; next_user = t.next_user + 1 },
  )
]

-- An ownership or a grant without days has no end.
abbrev pub until_of : ℕ → ℕ → Option ℕ
until_of now zero = none
until_of now (suc n) = some (now + suc n * day)

-- INSERT ... ON CONFLICT DO NOTHING.
unfoldable pub insert_member : Member → List Member → List Member
insert_member m ms = if any (is_row m.site_id m.user_id) ms then ms else ms ++ m ∷ []

unfoldable pub spend : Bytes → Invite → Invite
spend sha256 i = if bytes_eq i.sha256 sha256 then record i { used = true } else i

unfoldable pub grant_invite : ℕ → Invite → User → Tables → Tables
grant_invite now i u t = record t {
  members =
      insert_member
        (record {
          site_id = i.site_id;
          user_id = u.id;
          role = i.role;
          created_by = i.created_by;
          expires_at = until_of now i.grant_days;
        })
        t.members;
  invites = map (spend i.sha256) t.invites;
}

unfoldable pub redeem_invite : ℕ → Invite → Tables → Result InviteError Tables
redeem_invite now i t =
    if inviter_may_still_grant now t.users t.members i.created_by i.site_id i.role
    then ok (grant_invite now i (ensure_user i.email t).0 (ensure_user i.email t).1)
    else err invite_invalid

-- `hashToken`.
module _ (hash : Bytes → Bytes) where
  unfoldable pub lookup_member_invite : ℕ → Bytes → Tables → Result InviteError Invite
  lookup_member_invite now token t =
      if is_empty token
      then err invite_invalid
      else elim (find_open now (hash token) t.invites) [ none ↦ err invite_invalid | some i ↦ ok i ]

  unfoldable pub redeem_member_invite : ℕ → Bytes → Bytes → Tables → Result InviteError Tables
  redeem_member_invite now token password_hash t =
      if is_empty token || is_empty password_hash
      then err invite_invalid
      else elim (find_open now (hash token) t.invites) [
        | none ↦ err invite_invalid
        | some i ↦ redeem_invite now i t
      ]

unfoldable pub revoked_if : (Invite → Bool) → Invite → Invite
revoked_if p i = if p i && is_pending i then record i { revoked = true } else i

unfoldable pub revoke_member_invite : ℕ → Bytes → Tables → Result InviteError Tables
revoke_member_invite id site t =
    let p = λ (i : Invite). i.id == id && bytes_eq i.site_id site in
    if any (λ i. p i && is_pending i) t.invites
    then ok (record t { invites = map (revoked_if p) t.invites })
    else err not_found

abbrev pub is_creator : ℕ → Option ℕ → Bool
is_creator uid none = false
is_creator uid (some by) = by == uid

unfoldable pub revoke_member_invites_by : ℕ → Bytes → Tables → Tables × ℕ
revoke_member_invites_by uid site t =
    let p = λ (i : Invite). is_creator uid i.created_by && bytes_eq i.site_id site in
    (
      record t { invites = map (revoked_if p) t.invites },
      count_if (λ i. p i && is_pending i) t.invites,
    )
