-- ===== src/Panel/Invites/Open.antt =====
-- How many invitations of a site are open.
use crucible_analytic.Prelude.{
  ℕ, ◌≤◌, ◌<◌, ◌≡◌, subst, Bool, true, false, ◌&&◌, List, [], ◌∷◌, ◌++◌, map, Bytes, count_if,
  count_if-map_le, count_if-append, arith, Bool-cases, inl, inr,
}
use crucible_analytic.Prelude.Text.{bytes_eq, bytes_eq_sound}
use crucible_analytic.Panel.Invites.{
  Invite, Tables, max_open_invites_per_site, is_open, crowds, replaced, grant_invite, spend,
  revoked_if, revoke_member_invites_by,
}
use crucible_analytic.Panel.Invites.Outcomes.{
  settle_lem, with_invite, create_member_invite-ok, insert_invite-ok, redeem_member_invite-ok,
  redeem_invite-ok, revoke_member_invite-ok, invites-ensure_user,
}
use crucible_analytic.Panel.Invites.Office.{
  Office, Event, ticks, creates, redeems, revokes, revokes_by, others_write, write, later, happen,
  happen_all,
}

unfoldable pub is_open_at : ℕ → Bytes → Invite → Bool
is_open_at time site i = bytes_eq i.site_id site && is_open time i

-- From a time on, no site has more open invitations than it may.
abbrev IsBounded : ℕ → List Invite → Type 0
IsBounded now invites =
    (time : ℕ)
    → now ≤ time
    → (site : Bytes) → count_if (is_open_at time site) invites ≤ max_open_invites_per_site

IsBounded-closing :
    (now : ℕ) (f : Invite → Invite) (invites : List Invite)
    → ((time : ℕ) (site : Bytes) (i : Invite)
        → is_open_at time site (f i) ≡ true
        → is_open_at time site i ≡ true)
    → IsBounded now invites
    → IsBounded now (map f invites)
IsBounded-closing now f invites closes b time h site = omega (
  arith,
  count_if-map_le (is_open_at time site) (is_open_at time site) f invites (closes time site),
  b time h site,
)

replaced-closes :
    (a b : Bytes) (time : ℕ) (site : Bytes) (i : Invite)
    → is_open_at time site (replaced a b i) ≡ true
    → is_open_at time site i ≡ true
unfolding is_open_at replaced is_open
replaced-closes a b time site i h = ground (arith, h)

spend-closes :
    (sha : Bytes) (time : ℕ) (site : Bytes) (i : Invite)
    → is_open_at time site (spend sha i) ≡ true
    → is_open_at time site i ≡ true
unfolding is_open_at spend is_open
spend-closes sha time site i h = ground (arith, h)

revoked-closes :
    (p : Invite → Bool) (time : ℕ) (site : Bytes) (i : Invite)
    → is_open_at time site (revoked_if p i) ≡ true
    → is_open_at time site i ≡ true
unfolding is_open_at revoked_if is_open
revoked-closes p time site i h = ground (arith, h)

-- What is left open at the site of a new invitation, at the time or later, are those of others.
left_open :
    (now time : ℕ) (a b : Bytes) (i : Invite)
    → now ≤ time
    → is_open_at time a (replaced a b i) ≡ true
    → crowds now a b i ≡ true
unfolding is_open_at replaced is_open crowds
left_open now time a b i le h = ground (arith, h, le)

own_site :
    (now time : ℕ) (i : Invite) (invites : List Invite)
    → now ≤ time
    → count_if (crowds now i.site_id i.email) invites < max_open_invites_per_site
    → count_if (is_open_at time i.site_id) (map (replaced i.site_id i.email) invites ++ i ∷ [])
      ≤ max_open_invites_per_site
own_site now time i invites h few = ground (
  arith,
  few,
  count_if-append (is_open_at time i.site_id) (map (replaced i.site_id i.email) invites) (i ∷ []),
  count_if-map_le (is_open_at time i.site_id) (crowds now i.site_id i.email)
      (replaced i.site_id i.email) invites
      (λ x open'. left_open now time i.site_id i.email x h open'),
)

other_site :
    (now time : ℕ) (site : Bytes) (i : Invite) (invites : List Invite)
    → IsBounded now invites
    → now ≤ time
    → bytes_eq i.site_id site ≡ false
    → count_if (is_open_at time site) (map (replaced i.site_id i.email) invites ++ i ∷ [])
      ≤ max_open_invites_per_site
unfolding is_open_at
other_site now time site i invites b h away = ground (
  arith,
  away,
  count_if-append (is_open_at time site) (map (replaced i.site_id i.email) invites) (i ∷ []),
  IsBounded-closing now (replaced i.site_id i.email) invites (replaced-closes i.site_id i.email) b
      time h site,
)

insert-IsBounded :
    (now : ℕ) (i : Invite) (t : Tables)
    → IsBounded now t.invites
    → count_if (crowds now i.site_id i.email) t.invites < max_open_invites_per_site
    → IsBounded now (with_invite i t).invites
insert-IsBounded now i t b few time h site = elim (Bool-cases (bytes_eq i.site_id site)) [
  | inl same ↦
      subst
        (λ (x : Bytes).
          count_if (is_open_at time x) (map (replaced i.site_id i.email) t.invites ++ i ∷ [])
          ≤ max_open_invites_per_site)
        (bytes_eq_sound i.site_id site same) (own_site now time i t.invites h few)
  | inr away ↦ other_site now time site i t.invites b h away
]

module _ (hash : Bytes → Bytes) where
  write-IsBounded :
      (now : ℕ) (e : Event) (t : Tables)
      → IsBounded now t.invites
      → IsBounded now (write hash now e t).invites
  unfolding write revoke_member_invites_by
  write-IsBounded now (ticks n) t b = b
  write-IsBounded now (creates sha site email role by ttl days) t b =
      settle_lem (λ (u : Tables). IsBounded now u.invites) t _ b
        (λ t' h.
          let (i, _, inserted) =
            create_member_invite-ok now sha site email role by ttl days t t' h in
          let (few, _, done) = insert_invite-ok now i t t' inserted in
          subst (λ (u : Tables). IsBounded now u.invites) done (insert-IsBounded now i t b few))
  write-IsBounded now (redeems token password_hash) t b =
      settle_lem (λ (u : Tables). IsBounded now u.invites) t _ b
        (λ t' h.
          let (i, _, redeemed) = redeem_member_invite-ok hash now token password_hash t t' h in
          let (_, done) = redeem_invite-ok now i t t' redeemed in
          subst (λ (u : Tables). IsBounded now u.invites) done
            (unfold grant_invite in
              rw (invites-ensure_user i.email t)
                (IsBounded-closing now (spend i.sha256) t.invites (spend-closes i.sha256) b)))
  write-IsBounded now (revokes id site) t b =
      settle_lem (λ (u : Tables). IsBounded now u.invites) t _ b
        (λ t' h.
          subst (λ (u : Tables). IsBounded now u.invites) (revoke_member_invite-ok id site t t' h)
            (IsBounded-closing now (revoked_if _) t.invites (revoked-closes _) b))
  write-IsBounded now (revokes_by uid site) t b =
      IsBounded-closing now (revoked_if _) t.invites (revoked-closes _) b
  write-IsBounded now (others_write us ms) t b = b

  happen-IsBounded :
      (o : Office) (e : Event)
      → IsBounded o.clock o.tables.invites
      → IsBounded (happen hash o e).clock (happen hash o e).tables.invites
  unfolding happen
  happen-IsBounded o e b time h site =
      write-IsBounded o.clock e o.tables b time (clock_le o.clock e time h) site
    where
      clock_le : (now : ℕ) (x : Event) (at : ℕ) → later now x ≤ at → now ≤ at
      clock_le now (ticks n) at k = omega (arith, k)
      clock_le now (creates a b' c d f g j) at k = k
      clock_le now (redeems a b') at k = k
      clock_le now (revokes a b') at k = k
      clock_le now (revokes_by a b') at k = k
      clock_le now (others_write a b') at k = k

  happen_all-IsBounded :
      (o : Office) (es : List Event)
      → IsBounded o.clock o.tables.invites
      → IsBounded (happen_all hash o es).clock (happen_all hash o es).tables.invites
  unfolding happen_all
  happen_all-IsBounded o [] b = b
  happen_all-IsBounded o (e ∷ es) b =
      happen_all-IsBounded (happen hash o e) es (happen-IsBounded o e b)

  -- From tables without invitations, after any sequence of invitations, redemptions, withdrawals and
  -- other writes of the panel, each handled alone: no site has more than fifty invitations that are
  -- open at the time that the clock has reached or at any later one.
  pub count_open-happen_all :
      (o : Office) (es : List Event) (time : ℕ) (site : Bytes)
      → o.tables.invites ≡ []
      → (happen_all hash o es).clock ≤ time
      → count_if (is_open_at time site) (happen_all hash o es).tables.invites
        ≤ max_open_invites_per_site
  count_open-happen_all o es time site empty h =
      happen_all-IsBounded o es (λ t k s. rw (empty) (omega arith)) time h site
