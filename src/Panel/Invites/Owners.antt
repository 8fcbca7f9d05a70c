-- ===== src/Panel/Invites/Owners.antt =====
-- What an invitation does to the memberships that stand.
use crucible_analytic.Prelude.{
  ℕ, ◌≡◌, refl, subst, ◌∙◌, true, false, List, Option, none, some, Bytes, any, arith, Bool-cases,
  Option-cases, inl, inr,
}
use crucible_analytic.Panel.Roles.{Role, is_owner_role, Access, can_assign}
use crucible_analytic.Panel.Members.{Member, User, is_row, live_access}
use crucible_analytic.Panel.Members.Owners.{owners_of}
use crucible_analytic.Panel.Members.Authority.{IsLesserAccess, owners_of-append}
use crucible_analytic.Panel.Invites.{
  Invite, Tables, find_open, inviter_may_still_grant, insert_member, grant_invite,
  redeem_member_invite,
}
use crucible_analytic.Panel.Invites.Outcomes.{
  settle_lem, redeem_member_invite-ok, redeem_invite-ok, members-ensure_user,
}
use crucible_analytic.Panel.Invites.Office.{settle}

can_assign-lesser :
    (a : Access) (role : Role)
    → IsLesserAccess (some a)
    → can_assign a role ≡ true
    → is_owner_role role ≡ false
unfolding can_assign is_owner_role
can_assign-lesser a role (s, o) c = ground (arith, s, o, c)

may_grant-lesser :
    (now : ℕ) (us : List User) (ms : List Member) (by : Option ℕ) (site : Bytes) (role : Role)
    → ((inviter : ℕ) → by ≡ some inviter → IsLesserAccess (live_access now us ms inviter site))
    → inviter_may_still_grant now us ms by site role ≡ true
    → is_owner_role role ≡ false
unfolding inviter_may_still_grant
may_grant-lesser now us ms none site role l c = cc
may_grant-lesser now us ms (some inviter) site role l c =
    elim (Option-cases (live_access now us ms inviter site)) [
      | inl n ↦ let no = rw (n, inviter_may_still_grant) at c in cc
      | inr (a, e) ↦
          can_assign-lesser a role (rw (e) at (l inviter refl))
            (rw (e, inviter_may_still_grant) at c)
    ]

owners_of-insert_member :
    (s : Bytes) (m : Member) (ms : List Member)
    → is_owner_role m.role ≡ false
    → owners_of s (insert_member m ms) ≡ owners_of s ms
unfolding insert_member
owners_of-insert_member s m ms o = elim (Bool-cases (any (is_row m.site_id m.user_id) ms)) [
  | inl here ↦ rw (here, insert_member) refl
  | inr away ↦ rw (away, insert_member) (owners_of-append s m ms o)
]

module _ (hash : Bytes → Bytes) where
  -- No invitation outlives its author's authority: when the account that sent the invitation of a token
  -- has, at the redemption, neither a live ownership of the invitation's site nor the rights of a
  -- superadmin, or no account is on it, the owners of every site are the same behind the redemption,
  -- whatever role was invited to.
  pub owners_of-redeem_member_invite :
      (now : ℕ) (token password_hash : Bytes) (t : Tables) (s : Bytes)
      → ((i : Invite) (inviter : ℕ)
          → find_open now (hash token) t.invites ≡ some i
          → i.created_by ≡ some inviter
          → IsLesserAccess (live_access now t.users t.members inviter i.site_id))
      → owners_of s (settle t (redeem_member_invite hash now token password_hash t)).members
        ≡ owners_of s t.members
  owners_of-redeem_member_invite now token password_hash t s l =
      settle_lem (λ (u : Tables). owners_of s u.members ≡ owners_of s t.members) t _ refl
        (λ t' h.
          let (i, found, redeemed) = redeem_member_invite-ok hash now token password_hash t t' h in
          let (may, done) = redeem_invite-ok now i t t' redeemed in
          let role =
            may_grant-lesser now t.users t.members i.created_by i.site_id i.role
              (λ inviter by. l i inviter found by) may in
          subst (λ (u : Tables). owners_of s u.members ≡ owners_of s t.members) done
            (unfold grant_invite in
              (owners_of-insert_member s _ _ role ∙ rw (members-ensure_user i.email t) refl)))
