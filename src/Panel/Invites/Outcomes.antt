-- ===== src/Panel/Invites/Outcomes.antt =====
-- What a transaction that commits has found and done.
use crucible_analytic.Prelude.{
  ℕ, ◌+◌, ◌<◌, ◌≡◌, refl, true, false, ◌&&◌, ◌||◌, [], ◌∷◌, ◌++◌, map, some, Bytes, any, count_if,
  arith, leb, ltb, ◌==◌, Result, ok, err, ok-injective, Bool-cases, Option-cases, inl, inr,
}
use crucible_analytic.Prelude.Int.{ℤ}
use crucible_analytic.Prelude.Text.{bytes_eq, is_empty}
use crucible_analytic.Panel.Roles.{Role}
use crucible_analytic.Panel.Invites.{
  Invite, Tables, InviteError, max_open_invites_per_site, max_grant_days, crowds, replaced,
  insert_invite, check_invite, days_of, create_member_invite, find_open, ensure_user, grant_invite,
  redeem_invite, redeem_member_invite, revoked_if, is_pending, revoke_member_invite,
  inviter_may_still_grant, find_by_email,
}
use crucible_analytic.Panel.Invites.Office.{settle}

-- What holds before a transaction and behind one that commits holds behind both.
pub settle_lem :
    (P : Tables → Type 0) (t : Tables) (r : Result InviteError Tables)
    → P t
    → ((t' : Tables) → r ≡ ok t' → P t')
    → P (settle t r)
unfolding settle
settle_lem P t (err e) v h = v
settle_lem P t (ok t') v h = h t' refl

-- The tables behind a new invitation.
abbrev pub with_invite : Invite → Tables → Tables
with_invite i t = record t {
  invites = map (replaced i.site_id i.email) t.invites ++ i ∷ [];
  next_invite = t.next_invite + 1;
}

pub insert_invite-ok :
    (now : ℕ) (i : Invite) (t t' : Tables)
    → insert_invite now i t ≡ ok t'
    → (count_if (crowds now i.site_id i.email) t.invites < max_open_invites_per_site)
      × (any (λ x. bytes_eq x.sha256 i.sha256) t.invites ≡ false)
      × (with_invite i t ≡ t')
unfolding insert_invite
insert_invite-ok now i t t' h =
    elim (Bool-cases
      (leb max_open_invites_per_site (count_if (crowds now i.site_id i.email) t.invites))) [
        | inl full ↦ let no = rw (full, insert_invite) at h in cc
        | inr space ↦ elim (Bool-cases (ltb max_grant_days i.grant_days)) [
          | inl long ↦ let no = rw (space, long, insert_invite) at h in cc
          | inr short ↦ elim (Bool-cases (any (λ x. bytes_eq x.sha256 i.sha256) t.invites)) [
            | inl taken ↦ let no = rw (space, short, taken, insert_invite) at h in cc
            | inr new ↦
                let done = rw (space, short, new, insert_invite) at h in
                (ground (arith, space), new, ok-injective (with_invite i t) t' done)
          ]
        ]
      ]

-- Every new invitation is of the token and to the site that were asked for, and has not been used.
pub create_member_invite-ok :
    (now : ℕ) (sha site email : Bytes) (role : Role) (by : ℕ) (ttl days : ℤ) (t t' : Tables)
    → create_member_invite now sha site email role by ttl days t ≡ ok t'
    → (i : Invite) × (i.sha256 ≡ sha) × (insert_invite now i t ≡ ok t')
unfolding create_member_invite
create_member_invite-ok now sha site email role by ttl days t t' h =
    elim (Option-cases (check_invite site role (days_of days) email)) [
      | inr (e, bad) ↦ let no = rw (bad, create_member_invite) at h in cc
      | inl fine ↦ (_, refl, rw (fine, create_member_invite) at h)
    ]

pub redeem_invite-ok :
    (now : ℕ) (i : Invite) (t t' : Tables)
    → redeem_invite now i t ≡ ok t'
    → (inviter_may_still_grant now t.users t.members i.created_by i.site_id i.role ≡ true)
      × (grant_invite now i (ensure_user i.email t).0 (ensure_user i.email t).1 ≡ t')
unfolding redeem_invite
redeem_invite-ok now i t t' h =
    elim (Bool-cases
      (inviter_may_still_grant now t.users t.members i.created_by i.site_id i.role)) [
        | inr gone ↦ let no = rw (gone, redeem_invite) at h in cc
        | inl may ↦
            let done = rw (may, redeem_invite) at h in
            (
              may,
              ok-injective (grant_invite now i (ensure_user i.email t).0 (ensure_user i.email t).1)
                  t' done,
            )
      ]

module _ (hash : Bytes → Bytes) where
  pub redeem_member_invite-ok :
      (now : ℕ) (token password_hash : Bytes) (t t' : Tables)
      → redeem_member_invite hash now token password_hash t ≡ ok t'
      → (i : Invite) × (find_open now (hash token) t.invites ≡ some i)
        × (redeem_invite now i t ≡ ok t')
  unfolding redeem_member_invite
  redeem_member_invite-ok now token password_hash t t' h =
      elim (Bool-cases (is_empty token || is_empty password_hash)) [
        | inl e ↦ let no = rw (e, redeem_member_invite) at h in cc
        | inr e ↦ elim (Option-cases (find_open now (hash token) t.invites)) [
          | inl n ↦ let no = rw (e, n, redeem_member_invite) at h in cc
          | inr (i, n) ↦ (i, n, rw (e, n, redeem_member_invite) at h)
        ]
      ]

pub revoke_member_invite-ok :
    (id : ℕ) (site : Bytes) (t t' : Tables)
    → revoke_member_invite id site t ≡ ok t'
    → record t {
      invites = map (revoked_if (λ (i : Invite). i.id == id && bytes_eq i.site_id site)) t.invites;
    }
      ≡ t'
unfolding revoke_member_invite
revoke_member_invite-ok id site t t' h =
    let p = λ (i : Invite). i.id == id && bytes_eq i.site_id site in
    elim (Bool-cases (any (λ i. p i && is_pending i) t.invites)) [
      | inr none' ↦ let no = rw (none', revoke_member_invite) at h in cc
      | inl some' ↦ ok-injective _ t' (rw (some', revoke_member_invite) at h)
    ]

-- Redeeming creates an account where there is none, and touches no invitation before it.
pub invites-ensure_user : (email : Bytes) (t : Tables) → (ensure_user email t).1.invites ≡ t.invites
unfolding ensure_user
invites-ensure_user email t = elim (Option-cases (find_by_email email t.users)) [
  | inl e ↦ rw (e, ensure_user) refl
  | inr (u, e) ↦ rw (e, ensure_user) refl
]

pub members-ensure_user : (email : Bytes) (t : Tables) → (ensure_user email t).1.members ≡ t.members
unfolding ensure_user
members-ensure_user email t = elim (Option-cases (find_by_email email t.users)) [
  | inl e ↦ rw (e, ensure_user) refl
  | inr (u, e) ↦ rw (e, ensure_user) refl
]
