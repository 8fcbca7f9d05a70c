-- ===== src/Panel/Members/Owners.antt =====
-- A site that has an owner keeps one.
use crucible_analytic.Prelude.{
  ℕ, ◌≡◌, ◌≢◌, ◌⊎◌, refl, sym, ap, ◌∙◌, Bool, true, false, not, ◌&&◌, List, [], ◌∷◌, ◌++◌,
  append_assoc, append-nil, Option, Bytes, any, keep_if, arith, ◌==◌, if◌then◌else◌, Result, ok,
  err, Bool-cases, inl, inr,
}
use crucible_analytic.Prelude.Text.{bytes_eq, bytes_eq_sound}
use crucible_analytic.Panel.Roles.{Role, no_role}
use crucible_analytic.Panel.Members.{
  Member, User, MemberError, Grant, is_row, is_owner_of, MembershipState, note_row, lock_loop,
  lock_membership, last_owner_is, update_rows, add_member, remove_member, set_member_role,
}

-- The writes that the pages of the panel make, with the time at which each is made.
pub data Write : Type 0 where
  adds : ℕ → Bytes → ℕ → Role → Grant → Write
  removes : ℕ → Bytes → ℕ → Option ℕ → Write
  sets_role : ℕ → Bytes → ℕ → Role → Option ℕ → Write

unfoldable pub attempt : List User → Write → List Member → Result MemberError (List Member)
attempt us (adds now site uid role g) ms = add_member now us site uid role g ms
attempt us (removes now site uid actor) ms = remove_member now us site uid actor ms
attempt us (sets_role now site uid role actor) ms = set_member_role now us site uid role actor ms

-- A transaction that fails is rolled back.
unfoldable pub commit : List Member → Result MemberError (List Member) → List Member
commit ms (err e) = ms
commit ms (ok ms') = ms'

module _ (P : List Member → Type 0) (ms : List Member) (x : MemberError) where
  -- A refusal leaves the table as it is.
  pub refused :
      (b : Bool) (r : Result MemberError (List Member))
      → P ms
      → (b ≡ false → P (commit ms r))
      → P (commit ms (if b then err x else r))
  unfolding commit
  refused true r v h = v
  refused false r v h = h refl

  -- So does a row that is not found.
  pub found :
      (b : Bool) (r : Result MemberError (List Member))
      → P ms
      → (b ≡ true → P (commit ms r))
      → P (commit ms (if b then r else err x))
  unfolding commit
  found true r v h = h refl
  found false r v h = v

unfoldable pub write_all : List User → List Write → List Member → List Member
write_all us [] ms = ms
write_all us (w ∷ ws) ms = write_all us ws (commit ms (attempt us w ms))

unfoldable pub owners_of : Bytes → List Member → List ℕ
owners_of site [] = []
owners_of site (m ∷ ms) =
    let rest = owners_of site ms in if is_owner_of site m then m.user_id ∷ rest else rest

-- The primary key.
abbrev pub IsKeyed : List Member → Type 0
IsKeyed [] = Unit
IsKeyed (m ∷ ms) = (any (is_row m.site_id m.user_id) ms ≡ false) × IsKeyed ms

abbrev pub has_owner : Bytes → List Member → Bool
has_owner site ms = any (is_owner_of site) ms

-- An owner of the site who is somebody else.
abbrev other_owner : Bytes → ℕ → Member → Bool
other_owner site uid m = is_owner_of site m && not (m.user_id == uid)

pub lock_loop-owners :
    (site : Bytes) (uid : ℕ) (st : MembershipState) (ms : List Member)
    → (lock_loop site uid st ms).owners ≡ st.owners ++ owners_of site ms
unfolding lock_loop owners_of
lock_loop-owners site uid st [] = sym (append-nil st.owners)
lock_loop-owners site uid st (m ∷ ms) =
    let rest = lock_loop-owners site uid (note_row site uid st m) ms in
    elim (Bool-cases (is_owner_of site m)) [
      | inl e ↦ rest ∙ rw e (append_assoc st.owners (m.user_id ∷ []) (owners_of site ms))
      | inr e ↦ rest ∙ rw e refl
    ]

owners-row :
    (site : Bytes) (uid : ℕ) (ms : List Member)
    → owners_of site ms ≡ uid ∷ []
    → any (is_row site uid) ms ≡ true
unfolding owners_of is_owner_of is_row
owners-row site uid [] e = cc
owners-row site uid (m ∷ ms) e = ground (arith, e, owners-row site uid ms)

-- When there is no other owner, the list of the owners is empty or is the one.
owners_of-only :
    (site : Bytes) (uid : ℕ) (ms : List Member)
    → IsKeyed ms
    → any (other_owner site uid) ms ≡ false
    → (owners_of site ms ≡ []) ⊎ (owners_of site ms ≡ uid ∷ [])
unfolding owners_of is_owner_of is_row
owners_of-only site uid [] k h = inl refl
owners_of-only site uid (m ∷ ms) k h =
    let rest = owners_of-only site uid ms k.1 (ground (arith, h)) in
    elim (Bool-cases (is_owner_of site m)) [
      | inr e ↦ rw e rest
      | inl e ↦ elim rest [
        | inl none_left ↦ inr (ground (arith, e, h, none_left))
        | inr one ↦
            let found = owners-row site uid ms one in
            let same_site : m.site_id ≡ site = bytes_eq_sound m.site_id site (ground (arith, e)) in
            let same_user : m.user_id ≡ uid = ground (arith, e, h) in
            let keyed = rw (same_site, same_user) at k.0 in cc
      ]
    ]

has_owner-owners_of :
    (site : Bytes) (ms : List Member) → has_owner site ms ≡ true → owners_of site ms ≢ []
unfolding owners_of
has_owner-owners_of site [] h e = cc
has_owner-owners_of site (m ∷ ms) h e = ground (arith, h, e, has_owner-owners_of site ms)

-- Unless the user is the last owner, a site with an owner has one who is somebody else.
other_owner-stays :
    (site : Bytes) (uid : ℕ) (ms : List Member)
    → IsKeyed ms
    → has_owner site ms ≡ true
    → last_owner_is uid (lock_membership site uid ms).owners ≡ false
    → any (other_owner site uid) ms ≡ true
unfolding lock_membership last_owner_is
other_owner-stays site uid ms k h l = elim (Bool-cases (any (other_owner site uid) ms)) [
  | inl e ↦ e
  | inr e ↦
      let owners = lock_loop-owners site uid (record { current = no_role; owners = [] }) ms in
      elim (owners_of-only site uid ms k e) [
        | inl nobody ↦ absurd (has_owner-owners_of site ms h nobody)
        | inr one ↦
            let last : last_owner_is uid (uid ∷ []) ≡ false = rw (owners ∙ one) at l in
            ground (arith, last)
      ]
]

-- An owner of `s` whom a write on a user of the site does not touch.
abbrev pub untouched : Bytes → Bytes → ℕ → Member → Bool
untouched s site uid m = is_owner_of s m && not (is_row site uid m)

any_mono :
    (p q : Member → Bool) (ms : List Member)
    → ((m : Member) → p m ≡ true → q m ≡ true)
    → any p ms ≡ true
    → any q ms ≡ true
any_mono p q [] h e = e
any_mono p q (m ∷ ms) h e = ground (arith, h m, e, any_mono p q ms h)

pub any-append-left :
    (p : Member → Bool) (ms ns : List Member) → any p ms ≡ true → any p (ms ++ ns) ≡ true
any-append-left p [] ns e = cc
any-append-left p (m ∷ ms) ns e = ground (arith, e, any-append-left p ms ns)

-- The owners of another site are not touched.
pub elsewhere_untouched :
    (s site : Bytes) (uid : ℕ) (ms : List Member)
    → bytes_eq s site ≡ false
    → has_owner s ms ≡ true
    → any (untouched s site uid) ms ≡ true
unfolding is_owner_of is_row
elsewhere_untouched s site uid ms e h =
    any_mono (is_owner_of s) (untouched s site uid) ms
      (λ m o.
        let there = bytes_eq_sound m.site_id s (ground (arith, o)) in
        ground (arith, o, e, ap (λ (x : Bytes). bytes_eq x site) there))
      h

pub other_owner-untouched :
    (s site : Bytes) (uid : ℕ) (ms : List Member)
    → IsKeyed ms
    → has_owner s ms ≡ true
    → last_owner_is uid (lock_membership site uid ms).owners ≡ false
    → any (untouched s site uid) ms ≡ true
unfolding is_owner_of is_row
other_owner-untouched s site uid ms k h l = elim (Bool-cases (bytes_eq s site)) [
  | inl e ↦
      let same = bytes_eq_sound s site e in
      let other = other_owner-stays site uid ms k (rw same at h) l in
      rw same (
        any_mono (other_owner site uid) (untouched site site uid) ms (λ m o. ground (arith, o))
          other)
  | inr e ↦ elsewhere_untouched s site uid ms e h
]

pub update_rows-untouched :
    (s site : Bytes) (uid : ℕ) (f : Member → Member) (ms : List Member)
    → any (untouched s site uid) ms ≡ true
    → has_owner s (update_rows site uid f ms) ≡ true
unfolding update_rows
update_rows-untouched s site uid f [] h = cc
update_rows-untouched s site uid f (m ∷ ms) h =
    ground (arith, h, update_rows-untouched s site uid f ms)

pub keep_if-untouched :
    (s site : Bytes) (uid : ℕ) (ms : List Member)
    → any (untouched s site uid) ms ≡ true
    → has_owner s (keep_if (λ m. not (is_row site uid m)) ms) ≡ true
keep_if-untouched s site uid [] h = cc
keep_if-untouched s site uid (m ∷ ms) h = ground (arith, h, keep_if-untouched s site uid ms)
