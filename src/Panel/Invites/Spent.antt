-- ===== src/Panel/Invites/Spent.antt =====
-- A token that has been redeemed is worth nothing from then on.
use mathlib.Core.Option.{some-injective}
use crucible_analytic.Prelude.{
  ℕ, ◌≡◌, refl, sym, subst, ◌∙◌, Bool, true, false, not, ◌&&◌, ◌||◌, List, ◌∷◌, [], ◌++◌, map,
  Option, none, some, Bytes, any, any_append_one, arith, Bool-cases, inl, inr, ok, err,
}
use crucible_analytic.Prelude.Text.{bytes_eq, bytes_eq_sound, is_empty}
use crucible_analytic.Panel.Invites.{
  Invite, Tables, invite_invalid, is_open, find_open, replaced, spend, grant_invite,
  lookup_member_invite, redeem_member_invite, is_pending, revoked_if, revoke_member_invites_by,
}
use crucible_analytic.Panel.Invites.Outcomes.{
  settle_lem, create_member_invite-ok, insert_invite-ok, redeem_member_invite-ok, redeem_invite-ok,
  revoke_member_invite-ok, invites-ensure_user,
}
use crucible_analytic.Panel.Invites.Office.{
  Office, Event, ticks, creates, redeems, revokes, revokes_by, others_write, write, happen,
  happen_all,
}

abbrev is_of : Bytes → Invite → Bool
is_of sha i = bytes_eq i.sha256 sha

abbrev is_unused : Bytes → Invite → Bool
is_unused sha i = is_of sha i && not i.used

-- The hash is taken, and every row that has it has been used.
abbrev IsSpent : Bytes → List Invite → Type 0
IsSpent sha invites = (any (is_of sha) invites ≡ true) × (any (is_unused sha) invites ≡ false)

-- A change of a row that leaves its hash, and does not make it unused.
abbrev IsHarmless : (Invite → Invite) → Type 0
IsHarmless f = (i : Invite) → ((f i).sha256 ≡ i.sha256) × (i.used ≡ true → (f i).used ≡ true)

any-map-is_of :
    (sha : Bytes) (f : Invite → Invite) (invites : List Invite)
    → IsHarmless f
    → any (is_of sha) (map f invites) ≡ any (is_of sha) invites
any-map-is_of sha f [] h = refl
any-map-is_of sha f (i ∷ is) h = rw ((h i).0, any-map-is_of sha f is h) refl

any-map-is_unused :
    (sha : Bytes) (f : Invite → Invite) (invites : List Invite)
    → IsHarmless f
    → any (is_unused sha) invites ≡ false
    → any (is_unused sha) (map f invites) ≡ false
any-map-is_unused sha f [] h e = refl
any-map-is_unused sha f (i ∷ is) h e =
    let rest = any-map-is_unused sha f is h (ground (arith, e)) in
    rw (rest, (h i).0) (ground (arith, e, (h i).1))

IsSpent-map :
    (sha : Bytes) (f : Invite → Invite) (invites : List Invite)
    → IsHarmless f
    → IsSpent sha invites
    → IsSpent sha (map f invites)
IsSpent-map sha f invites h (a, u) =
    (any-map-is_of sha f invites h ∙ a, any-map-is_unused sha f invites h u)

replaced-IsHarmless : (site email : Bytes) → IsHarmless (replaced site email)
unfolding replaced
replaced-IsHarmless site email i =
    elim (Bool-cases (bytes_eq i.site_id site && bytes_eq i.email email && is_pending i)) [
      | inl e ↦ rw (e) (refl, λ u. u)
      | inr e ↦ rw (e) (refl, λ u. u)
    ]

spend-IsHarmless : (sha : Bytes) → IsHarmless (spend sha)
unfolding spend
spend-IsHarmless sha i = elim (Bool-cases (bytes_eq i.sha256 sha)) [
  | inl e ↦ rw (e) (refl, λ u. refl)
  | inr e ↦ rw (e) (refl, λ u. u)
]

revoked_if-IsHarmless : (p : Invite → Bool) → IsHarmless (revoked_if p)
unfolding revoked_if
revoked_if-IsHarmless p i = elim (Bool-cases (p i && is_pending i)) [
  | inl e ↦ rw (e) (refl, λ u. u)
  | inr e ↦ rw (e) (refl, λ u. u)
]

IsSpent-append :
    (sha : Bytes) (i : Invite) (invites : List Invite)
    → is_of sha i ≡ false
    → IsSpent sha invites
    → IsSpent sha (invites ++ i ∷ [])
IsSpent-append sha i invites e (a, u) = (
  any_append_one (is_of sha) i invites e ∙ a,
  any_append_one (is_unused sha) i invites (ground (arith, e)) ∙ u,
)

-- The hash of a spent token is never taken again, so a new invitation is of another.
of_another :
    (sha : Bytes) (i : Invite) (invites : List Invite)
    → any (is_of sha) invites ≡ true
    → any (λ x. bytes_eq x.sha256 i.sha256) invites ≡ false
    → is_of sha i ≡ false
of_another sha i invites a n = elim (Bool-cases (is_of sha i)) [
  | inr away ↦ away
  | inl same ↦ let no = rw (bytes_eq_sound i.sha256 sha same) at n in cc
]

find_open-spent :
    (now : ℕ) (sha : Bytes) (invites : List Invite)
    → any (is_unused sha) invites ≡ false
    → find_open now sha invites ≡ none
unfolding find_open is_open
find_open-spent now sha [] e = refl
find_open-spent now sha (i ∷ is) e =
    let closed : (bytes_eq i.sha256 sha && is_open now i) ≡ false = ground (arith, e) in
    rw (closed) (find_open-spent now sha is (ground (arith, e)))

find_open-known :
    (now : ℕ) (sha : Bytes) (invites : List Invite) (i : Invite)
    → find_open now sha invites ≡ some i
    → (is_of sha i ≡ true) × (any (is_of sha) invites ≡ true)
unfolding find_open is_open
find_open-known now sha [] i e = cc
find_open-known now sha (x ∷ xs) i e = elim (Bool-cases (bytes_eq x.sha256 sha && is_open now x)) [
  | inl here ↦
      let it : ◌≡◌ {A = Option Invite} (some x) (some i) = rw (here, find_open) at e in
      let mine : is_of sha x ≡ true = ground (arith, here) in
      (
        subst (λ (y : Invite). is_of sha y ≡ true) (some-injective x i it) mine,
        ground (arith, mine),
      )
  | inr away ↦
      let (mine, rest) = find_open-known now sha xs i (rw (away, find_open) at e) in
      (mine, ground (arith, rest))
]

any_unused_spend :
    (sha : Bytes) (invites : List Invite) → any (is_unused sha) (map (spend sha) invites) ≡ false
unfolding spend
any_unused_spend sha [] = refl
any_unused_spend sha (i ∷ is) = elim (Bool-cases (bytes_eq i.sha256 sha)) [
  | inl e ↦ rw (e) (ground (arith, any_unused_spend sha is))
  | inr e ↦ rw (e) (ground (arith, e, any_unused_spend sha is))
]

module _ (hash : Bytes → Bytes) where
  write-IsSpent :
      (sha : Bytes) (now : ℕ) (e : Event) (t : Tables)
      → IsSpent sha t.invites
      → IsSpent sha (write hash now e t).invites
  unfolding write revoke_member_invites_by
  write-IsSpent sha now (ticks n) t b = b
  write-IsSpent sha now (creates new site email role by ttl days) t b =
      settle_lem (λ (u : Tables). IsSpent sha u.invites) t _ b
        (λ t' h.
          let (i, _, inserted) =
            create_member_invite-ok now new site email role by ttl days t t' h in
          let (_, fresh, done) = insert_invite-ok now i t t' inserted in
          subst (λ (u : Tables). IsSpent sha u.invites) done
            (IsSpent-append sha i _ (of_another sha i t.invites b.0 fresh)
              (IsSpent-map sha (replaced i.site_id i.email) t.invites (replaced-IsHarmless _ _) b)))
  write-IsSpent sha now (redeems token password_hash) t b =
      settle_lem (λ (u : Tables). IsSpent sha u.invites) t _ b
        (λ t' h.
          let (i, _, redeemed) = redeem_member_invite-ok hash now token password_hash t t' h in
          let (_, done) = redeem_invite-ok now i t t' redeemed in
          subst (λ (u : Tables). IsSpent sha u.invites) done
            (unfold grant_invite in
              rw (invites-ensure_user i.email t)
                (IsSpent-map sha (spend i.sha256) t.invites (spend-IsHarmless i.sha256) b)))
  write-IsSpent sha now (revokes id site) t b =
      settle_lem (λ (u : Tables). IsSpent sha u.invites) t _ b
        (λ t' h.
          subst (λ (u : Tables). IsSpent sha u.invites) (revoke_member_invite-ok id site t t' h)
            (IsSpent-map sha (revoked_if _) t.invites (revoked_if-IsHarmless _) b))
  write-IsSpent sha now (revokes_by uid site) t b =
      IsSpent-map sha (revoked_if _) t.invites (revoked_if-IsHarmless _) b
  write-IsSpent sha now (others_write us ms) t b = b

  happen_all-IsSpent :
      (sha : Bytes) (o : Office) (es : List Event)
      → IsSpent sha o.tables.invites
      → IsSpent sha (happen_all hash o es).tables.invites
  unfolding happen_all happen
  happen_all-IsSpent sha o [] b = b
  happen_all-IsSpent sha o (e ∷ es) b =
      happen_all-IsSpent sha (happen hash o e) es (write-IsSpent sha o.clock e o.tables b)

  redeemed-IsSpent :
      (now : ℕ) (token password_hash : Bytes) (t t' : Tables)
      → redeem_member_invite hash now token password_hash t ≡ ok t'
      → IsSpent (hash token) t'.invites
  redeemed-IsSpent now token password_hash t t' h =
      let (i, found, redeemed) = redeem_member_invite-ok hash now token password_hash t t' h in
      let (_, done) = redeem_invite-ok now i t t' redeemed in
      let (mine, known) = find_open-known now (hash token) t.invites i found in
      subst (λ (u : Tables). IsSpent (hash token) u.invites) done
        (unfold grant_invite in
          rw (invites-ensure_user i.email t) (
            subst (λ (x : Bytes). IsSpent (hash token) (map (spend x) t.invites))
              (sym (bytes_eq_sound i.sha256 (hash token) mine))
              (
                any-map-is_of (hash token) _ t.invites (spend-IsHarmless _) ∙ known,
                any_unused_spend (hash token) t.invites,
              )))

  redeem_member_invite-spent :
      (now : ℕ) (token password_hash : Bytes) (t : Tables)
      → IsSpent (hash token) t.invites
      → redeem_member_invite hash now token password_hash t ≡ err invite_invalid
  unfolding redeem_member_invite
  redeem_member_invite-spent now token password_hash t (_, u) =
      elim (Bool-cases (is_empty token || is_empty password_hash)) [
        | inl e ↦ rw (e) refl
        | inr e ↦ rw (e, find_open-spent now (hash token) t.invites u) refl
      ]

  lookup_member_invite-spent :
      (now : ℕ) (token : Bytes) (t : Tables)
      → IsSpent (hash token) t.invites
      → lookup_member_invite hash now token t ≡ err invite_invalid
  unfolding lookup_member_invite
  lookup_member_invite-spent now token t (_, u) = elim (Bool-cases (is_empty token)) [
    | inl e ↦ rw (e) refl
    | inr e ↦ rw (e, find_open-spent now (hash token) t.invites u) refl
  ]

  -- An invitation is accepted once: behind a redemption that succeeds, after any sequence of
  -- invitations, redemptions, withdrawals and other writes of the panel, each handled alone, every
  -- redemption and every look-up of the same token is refused as invalid, at any time and with any
  -- password.
  pub redeem_member_invite-happen_all :
      (now again : ℕ) (token password_hash another : Bytes) (t t' : Tables) (es : List Event)
      → redeem_member_invite hash now token password_hash t ≡ ok t'
      → let o = happen_all hash (record { clock = now; tables = t' }) es in
        (redeem_member_invite hash again token another o.tables ≡ err invite_invalid)
        × (lookup_member_invite hash again token o.tables ≡ err invite_invalid)
  redeem_member_invite-happen_all now again token password_hash another t t' es h =
      let spent =
        happen_all-IsSpent (hash token) (record { clock = now; tables = t' }) es
          (redeemed-IsSpent now token password_hash t t' h) in
      (
        redeem_member_invite-spent again token another _ spent,
        lookup_member_invite-spent again token _ spent,
      )
