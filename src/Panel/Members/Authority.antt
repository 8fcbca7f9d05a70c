-- ===== src/Panel/Members/Authority.antt =====
-- Who is neither an owner of the site nor a superadmin does not change who owns it.
use crucible_analytic.Prelude.{
  ℕ, ◌≡◌, refl, ◌∙◌, Bool, true, false, not, ◌&&◌, List, [], ◌∷◌, ◌++◌, Option, none, some, Bytes,
  any, keep_if, arith, Bool-cases, Option-cases, inl, inr,
}
use crucible_analytic.Prelude.Text.{bytes_eq_sound}
use crucible_analytic.Panel.Roles.{
  Role, no_role, valid, is_owner_role, Access, can_assign, can_manage_member,
}
use crucible_analytic.Panel.Members.{
  Member, User, Grant, is_row, is_owner_of, MembershipState, note_row, lock_loop, lock_membership,
  last_owner_is, live_access, is_no_role, permits, may_act_on_member, update_rows, granted, reroled,
  upsert, is_some, add_member, remove_member, set_member_role,
}
use crucible_analytic.Panel.Members.Owners.{
  Write, adds, removes, sets_role, attempt, commit, refused, found, owners_of, IsKeyed,
}
use crucible_analytic.Panel.Members.Kept.{KeepsKey}

-- The access of somebody who does not own the site.
abbrev pub IsLesserAccess : Option Access → Type 0
IsLesserAccess none = Unit
IsLesserAccess (some a) = (a.principal.superadmin ≡ false) × (is_owner_role a.role ≡ false)

-- The write of a person who does not own the site at the time of the write.
abbrev pub IsLesser : List User → List Member → Write → Type 0
IsLesser us ms (adds now site uid role g) =
    (actor : ℕ) × (g.by ≡ some actor) × IsLesserAccess (live_access now us ms actor site)
IsLesser us ms (removes now site uid by) =
    (actor : ℕ) × (by ≡ some actor) × IsLesserAccess (live_access now us ms actor site)
IsLesser us ms (sets_role now site uid role by) =
    (actor : ℕ) × (by ≡ some actor) × IsLesserAccess (live_access now us ms actor site)

permits-lesser :
    (a : Access) (current next : Role)
    → a.principal.superadmin ≡ false
    → is_owner_role a.role ≡ false
    → permits a current next ≡ true
    → (is_owner_role current ≡ false) × (is_owner_role next ≡ false)
unfolding permits can_manage_member can_assign is_owner_role is_no_role
permits-lesser a current next s o p = ground (arith, s, o, p)

may_act-lesser :
    (now : ℕ) (us : List User) (ms : List Member) (by : Option ℕ) (actor : ℕ) (site : Bytes)
    (current next : Role)
    → by ≡ some actor
    → IsLesserAccess (live_access now us ms actor site)
    → not (may_act_on_member now us ms by site current next) ≡ false
    → (is_owner_role current ≡ false) × (is_owner_role next ≡ false)
unfolding may_act_on_member
may_act-lesser now us ms by actor site current next e l p =
    let asked = rw (e, may_act_on_member) at p in
    elim (Option-cases (live_access now us ms actor site)) [
      | inl n ↦ let refused_all = rw n at asked in cc
      | inr (a, a_e) ↦
          let lesser : IsLesserAccess (some a) = rw a_e at l in
          let permitted = rw a_e at asked in
          permits-lesser a current next lesser.0 lesser.1 (ground (arith, permitted))
    ]

-- The row of the user, when its role is not the owner's.
abbrev owns : Bytes → ℕ → Member → Bool
owns site uid m = is_row site uid m && is_owner_role m.role

lock_loop-current :
    (site : Bytes) (uid : ℕ) (st : MembershipState) (ms : List Member)
    → any (is_row site uid) ms ≡ false
    → (lock_loop site uid st ms).current ≡ st.current
unfolding lock_loop
lock_loop-current site uid st [] e = refl
lock_loop-current site uid st (m ∷ ms) e =
    let away : is_row site uid m ≡ false = ground (arith, e) in
    lock_loop-current site uid (note_row site uid st m) ms (ground (arith, e)) ∙ rw away refl

owns_none :
    (site : Bytes) (uid : ℕ) (ms : List Member)
    → any (is_row site uid) ms ≡ false
    → any (owns site uid) ms ≡ false
owns_none site uid [] e = refl
owns_none site uid (m ∷ ms) e = ground (arith, e, owns_none site uid ms)

same_key :
    (site : Bytes) (uid : ℕ) (m : Member)
    → is_row site uid m ≡ true
    → (m.site_id ≡ site) × (m.user_id ≡ uid)
unfolding is_row
same_key site uid m e = (bytes_eq_sound m.site_id site (ground (arith, e)), ground (arith, e))

current-owns :
    (site : Bytes) (uid : ℕ) (st : MembershipState) (ms : List Member)
    → IsKeyed ms
    → is_owner_role (lock_loop site uid st ms).current ≡ false
    → any (owns site uid) ms ≡ false
unfolding lock_loop
current-owns site uid st [] k e = refl
current-owns site uid st (m ∷ ms) k e = elim (Bool-cases (is_row site uid m)) [
  | inr away ↦ ground (arith, away, current-owns site uid (note_row site uid st m) ms k.1 e)
  | inl here ↦
      let (same_site, same_user) = same_key site uid m here in
      let alone = rw (same_site, same_user) at k.0 in
      let last = lock_loop-current site uid (note_row site uid st m) ms alone in
      let role : is_owner_role (note_row site uid st m).current ≡ false = rw last at e in
      let mine : is_owner_role m.role ≡ false = rw here at role in
      ground (arith, mine, owns_none site uid ms alone)
]

owners_of-update_rows :
    (s site : Bytes) (uid : ℕ) (f : Member → Member) (ms : List Member)
    → KeepsKey f
    → ((m : Member) → is_owner_role (f m).role ≡ false)
    → any (owns site uid) ms ≡ false
    → owners_of s (update_rows site uid f ms) ≡ owners_of s ms
unfolding owners_of update_rows is_owner_of
owners_of-update_rows s site uid f [] k o e = refl
owners_of-update_rows s site uid f (m ∷ ms) k o e =
    ground (arith, e, o m, owners_of-update_rows s site uid f ms k o)

owners_of-keep_if :
    (s site : Bytes) (uid : ℕ) (ms : List Member)
    → any (owns site uid) ms ≡ false
    → owners_of s (keep_if (λ m. not (is_row site uid m)) ms) ≡ owners_of s ms
unfolding owners_of is_owner_of
owners_of-keep_if s site uid [] e = refl
owners_of-keep_if s site uid (m ∷ ms) e = ground (arith, e, owners_of-keep_if s site uid ms)

pub owners_of-append :
    (s : Bytes) (m : Member) (ms : List Member)
    → is_owner_role m.role ≡ false
    → owners_of s (ms ++ m ∷ []) ≡ owners_of s ms
unfolding owners_of is_owner_of
owners_of-append s m [] e = ground (arith, e)
owners_of-append s m (n ∷ ms) e = ground (arith, owners_of-append s m ms e)

owners_of-upsert :
    (s site : Bytes) (uid : ℕ) (role : Role) (g : Grant) (ms : List Member)
    → is_owner_role role ≡ false
    → any (owns site uid) ms ≡ false
    → owners_of s (upsert site uid role g ms) ≡ owners_of s ms
unfolding upsert
owners_of-upsert s site uid role g ms o e = elim (Bool-cases (any (is_row site uid) ms)) [
  | inl here ↦
      rw (here, upsert)
        (owners_of-update_rows s site uid (granted role g.until) ms (λ m. (refl, refl)) (λ m. o) e)
  | inr away ↦ rw (away, upsert) (owners_of-append s _ ms o)
]

-- The owners of a site, behind a write.
abbrev Keeps : Bytes → List Member → List Member → Type 0
Keeps s ms ms' = owners_of s ms' ≡ owners_of s ms

attempt-Keeps :
    (s : Bytes) (us : List User) (w : Write) (ms : List Member)
    → IsKeyed ms
    → IsLesser us ms w
    → Keeps s ms (commit ms (attempt us w ms))
unfolding attempt commit add_member remove_member set_member_role lock_membership
attempt-Keeps s us (adds now site uid role g) ms k (actor, by, l) =
    refused (Keeps s ms) ms _ (not (valid role)) _ refl λ _.
      refused (Keeps s ms) ms _ (is_some g.until && is_owner_role role) _ refl λ _.
        refused (Keeps s ms) ms _ (not (may_act_on_member now us ms g.by site _ role)) _ refl λ p.
          refused (Keeps s ms) ms _ (not (is_owner_role role) && last_owner_is uid _) _ refl λ _.
            let (current, next) = may_act-lesser now us ms g.by actor site _ role by l p in
            owners_of-upsert s site uid role g ms next (current-owns site uid _ ms k current)
attempt-Keeps s us (removes now site uid who) ms k (actor, by, l) =
    refused (Keeps s ms) ms _ (not (may_act_on_member now us ms who site _ no_role)) _ refl λ p.
      refused (Keeps s ms) ms _ (last_owner_is uid _) _ refl λ _.
        found (Keeps s ms) ms _ (any (is_row site uid) ms) _ refl λ _.
          let (current, next) = may_act-lesser now us ms who actor site _ no_role by l p in
          owners_of-keep_if s site uid ms (current-owns site uid _ ms k current)
attempt-Keeps s us (sets_role now site uid role who) ms k (actor, by, l) =
    refused (Keeps s ms) ms _ (not (valid role)) _ refl λ _.
      refused (Keeps s ms) ms _ (not (may_act_on_member now us ms who site _ role)) _ refl λ p.
        refused (Keeps s ms) ms _ (not (is_owner_role role) && last_owner_is uid _) _ refl λ _.
          found (Keeps s ms) ms _ (any (is_row site uid) ms) _ refl λ _.
            let (current, next) = may_act-lesser now us ms who actor site _ role by l p in
            owners_of-update_rows s site uid (reroled role) ms (λ m. (refl, refl)) (λ m. next)
              (current-owns site uid _ ms k current)

-- Nobody takes or gives an ownership who does not have one: when the person who writes is disabled,
-- unknown, or neither a superadmin nor, by a live membership, an owner of the site, the owners of
-- every site are the same behind the write, whether it is refused or not.
pub owners_of-attempt :
    (s : Bytes) (us : List User) (w : Write) (ms : List Member)
    → IsKeyed ms
    → IsLesser us ms w
    → owners_of s (commit ms (attempt us w ms)) ≡ owners_of s ms
owners_of-attempt s us w ms k l = attempt-Keeps s us w ms k l
