-- ===== src/Panel/Invites/Examples.antt =====
-- A site with an owner, an administrator and invitations.
use mathlib.Core.Option.{some-injective}
use crucible_analytic.Prelude.{
  ℕ, ◌+◌, ◌∷◌, [], ◌≡◌, refl, subst, Bool, true, false, List, some, none, Bytes, Result, ok, err,
  count_if, length, map, ◌≤◌, arith, codes, ◌*◌,
}
use crucible_analytic.Prelude.Int.{pos}
use crucible_analytic.Prelude.Text.{bytes_eq, is_empty, to_lower, trim_space}
use crucible_analytic.TextSafe.{storable, fit_bytes}
use crucible_analytic.Panel.Roles.{Role, owner, admin, viewer, valid, can_assign, is_owner_role}
use crucible_analytic.Panel.Members.{
  Member, User, is_row, live_access, find_user, live_role, live_membership, access_of,
}
use crucible_analytic.Panel.Members.Owners.{owners_of}
use crucible_analytic.Panel.Members.Authority.{IsLesserAccess}
use crucible_analytic.Panel.Attempts.{login_key}
use crucible_analytic.Panel.Invites.{
  day, Tables, Invite, max_open_invites_per_site, create_member_invite, check_invite, insert_invite,
  usable_email, normalize_email, lifetime, crowds, replaced, is_open, find_open,
  redeem_member_invite, redeem_invite, inviter_may_still_grant, ensure_user, find_by_email,
  insert_member, grant_invite, spend, lookup_member_invite, invite_invalid,
}
use crucible_analytic.Panel.Invites.Office.{
  Office, Event, ticks, creates, redeems, settle, write, happen, happen_all,
}
use crucible_analytic.Panel.Invites.Open.{is_open_at, count_open-happen_all}
use crucible_analytic.Panel.Invites.Spent.{redeem_member_invite-happen_all}
use crucible_analytic.Panel.Invites.Owners.{owners_of-redeem_member_invite}

abbrev hash : Bytes → Bytes
hash token = 9 ∷ token

abbrev site : Bytes
site = codes "s"

abbrev mixed : Bytes
mixed = codes "A@b"

abbrev colleague : Bytes
colleague = codes "c@d"

abbrev users : List User
users =
    record { id = 1; email = codes "o"; superadmin = false; disabled = false }
    ∷ record { id = 2; email = codes "a"; superadmin = false; disabled = false }
    ∷ []

abbrev members : List Member
members =
    record { site_id = site; user_id = 1; role = owner; created_by = none; expires_at = none }
    ∷ record { site_id = site; user_id = 2; role = admin; created_by = some 1; expires_at = none }
    ∷ []

abbrev empty : Tables
empty = record { users = users; members = members; invites = []; next_user = 3; next_invite = 1 }

abbrev opening : Office
opening = record { clock = 5; tables = empty }

-- What the administrator and the owner have sent out.
abbrev events : List Event
events =
    creates (hash (codes "x")) site mixed viewer 2 (pos 0) (pos 30)
    ∷ creates (hash (codes "y")) site colleague admin 1 (pos 0) (pos 0)
    ∷ ticks day
    ∷ redeems (codes "y") (codes "p")
    ∷ creates (hash (codes "z")) site mixed viewer 2 (pos 0) (pos 30)
    ∷ []

clock_after : (happen_all hash opening events).clock ≡ 5 + day
unfolding happen_all happen
clock_after = refl

count_open-happen_all_example :
    count_if (is_open_at (2 * day) site) (happen_all hash opening events).tables.invites
    ≤ max_open_invites_per_site
count_open-happen_all_example =
    count_open-happen_all hash opening events (2 * day) site refl (omega (arith, clock_after))

-- The second invitation of an address withdraws the first, and the other has been used.
state_after :
    map {B = Bool × Bool}
      (λ (i : Invite). (i.used, i.revoked))
      (happen_all hash opening events).tables.invites
    ≡ (false, true) ∷ (true, false) ∷ (false, false) ∷ []
unfolding happen_all happen write settle create_member_invite check_invite insert_invite
    usable_email normalize_email lifetime crowds replaced is_open find_open redeem_member_invite
    redeem_invite inviter_may_still_grant ensure_user find_by_email insert_member grant_invite spend
    live_access find_user live_role live_membership access_of is_row can_assign is_owner_role valid
    login_key storable fit_bytes to_lower trim_space bytes_eq is_empty
    crucible_analytic.Prelude.Text.trim_right crucible_analytic.Prelude.Text.trim_left
    crucible_analytic.Prelude.Text.is_space crucible_analytic.TextSafe.rune_len
    crucible_analytic.TextSafe.is_dropped crucible_analytic.TextSafe.map_runes
    crucible_analytic.TextSafe.to_valid_utf8 crucible_analytic.TextSafe.valid_string
    crucible_analytic.Panel.Roles.can crucible_analytic.Panel.Roles.role_can
state_after = refl

abbrev invite : Bytes → Role → ℕ → Invite
invite token role by = record {
  sha256 = hash token;
  id = 1;
  site_id = site;
  role = role;
  email = colleague;
  created_by = some by;
  expires_at = 5 + day;
  revoked = false;
  used = false;
  grant_days = 30;
}

abbrev waiting : Tables
waiting = record empty { invites = invite (codes "x") admin 2 ∷ invite (codes "y") owner 2 ∷ [] }

abbrev redeemed : Tables
redeemed = settle waiting (redeem_member_invite hash 9 (codes "x") (codes "p") waiting)

redeems_once : redeem_member_invite hash 9 (codes "x") (codes "p") waiting ≡ ok redeemed
unfolding settle redeem_member_invite redeem_invite find_open is_open inviter_may_still_grant
    live_access find_user live_role live_membership access_of is_row can_assign is_owner_role valid
    bytes_eq is_empty crucible_analytic.Panel.Roles.can crucible_analytic.Panel.Roles.role_can
redeems_once = refl

redeem_member_invite-happen_all_example :
    (redeem_member_invite hash 70
        (codes "x")
        (codes "q")
        (happen_all hash (record { clock = 9; tables = redeemed }) events).tables
      ≡ err invite_invalid)
    × (lookup_member_invite hash 70
          (codes "x")
          (happen_all hash (record { clock = 9; tables = redeemed }) events).tables
        ≡ err invite_invalid)
redeem_member_invite-happen_all_example =
    redeem_member_invite-happen_all hash 9 70 (codes "x") (codes "p") (codes "q") waiting redeemed
      events redeems_once

-- Who invited to an ownership is an administrator by now.
lesser_inviter :
    (i : Invite) (inviter : ℕ)
    → find_open 9 (hash (codes "y")) waiting.invites ≡ some i
    → i.created_by ≡ some inviter
    → IsLesserAccess (live_access 9 users members inviter i.site_id)
unfolding find_open is_open bytes_eq live_access find_user live_role live_membership access_of
    is_row is_owner_role
lesser_inviter i inviter f c =
    subst
      (λ (j : Invite).
        j.created_by ≡ some inviter
        → IsLesserAccess (live_access 9 users members inviter j.site_id))
      (some-injective (invite (codes "y") owner 2) i f)
      (λ d.
        subst (λ (n : ℕ). IsLesserAccess (live_access 9 users members n site))
          (some-injective 2 inviter d) (refl, refl))
      c

owners_of-redeem_member_invite_example :
    owners_of site
      (settle waiting (redeem_member_invite hash 9 (codes "y") (codes "p") waiting)).members
    ≡ owners_of site members
owners_of-redeem_member_invite_example =
    owners_of-redeem_member_invite hash 9 (codes "y") (codes "p") waiting site lesser_inviter
