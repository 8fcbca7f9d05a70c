-- ===== src/Panel/Members/Writes.antt =====
-- The membership writes as a whole: every site that has an owner keeps one.
use crucible_analytic.Prelude.{ℕ, ◌≡◌, refl, true, not, ◌&&◌, List, [], ◌∷◌, Option, Bytes, any}
use crucible_analytic.Panel.Roles.{Role, no_role, valid, is_owner_role}
use crucible_analytic.Panel.Members.{
  Member, User, Grant, is_row, last_owner_is, may_act_on_member, reroled, is_some, add_member,
  remove_member, set_member_role,
}
use crucible_analytic.Panel.Members.Owners.{
  Write, adds, removes, sets_role, attempt, commit, refused, found, write_all, IsKeyed, has_owner,
  other_owner-untouched, keep_if-untouched,
}
use crucible_analytic.Panel.Members.Kept.{
  update_rows-IsKeyed, keep_if-IsKeyed, upsert-IsKeyed, upsert-has_owner, update_rows-has_owner,
}

-- What holds of the table between two writes.
record IsKept (s : Bytes) (ms : List Member) : Type 0 where
  keyed : IsKeyed ms
  owned : has_owner s ms ≡ true

add_member-IsKept :
    (s : Bytes) (now : ℕ) (us : List User) (site : Bytes) (uid : ℕ) (role : Role) (g : Grant)
    (ms : List Member)
    → IsKept s ms
    → IsKept s (commit ms (add_member now us site uid role g ms))
unfolding commit add_member
add_member-IsKept s now us site uid role g ms v =
    refused (IsKept s) ms _ (not (valid role)) _ v λ _.
      refused (IsKept s) ms _ (is_some g.until && is_owner_role role) _ v λ _.
        refused (IsKept s) ms _ (not (may_act_on_member now us ms g.by site _ role)) _ v λ _.
          refused (IsKept s) ms _ (not (is_owner_role role) && last_owner_is uid _) _ v λ l.
            record {
              keyed = upsert-IsKeyed site uid role g ms v.keyed;
              owned = upsert-has_owner s site uid role g ms v.keyed v.owned l;
            }

remove_member-IsKept :
    (s : Bytes) (now : ℕ) (us : List User) (site : Bytes) (uid : ℕ) (actor : Option ℕ)
    (ms : List Member)
    → IsKept s ms
    → IsKept s (commit ms (remove_member now us site uid actor ms))
unfolding commit remove_member
remove_member-IsKept s now us site uid actor ms v =
    refused (IsKept s) ms _ (not (may_act_on_member now us ms actor site _ no_role)) _ v λ _.
      refused (IsKept s) ms _ (last_owner_is uid _) _ v λ l.
        found (IsKept s) ms _ (any (is_row site uid) ms) _ v λ _. record {
          keyed = keep_if-IsKeyed _ ms v.keyed;
          owned =
              keep_if-untouched s site uid ms
                (other_owner-untouched s site uid ms v.keyed v.owned l);
        }

set_member_role-IsKept :
    (s : Bytes) (now : ℕ) (us : List User) (site : Bytes) (uid : ℕ) (role : Role) (actor : Option ℕ)
    (ms : List Member)
    → IsKept s ms
    → IsKept s (commit ms (set_member_role now us site uid role actor ms))
unfolding commit set_member_role
set_member_role-IsKept s now us site uid role actor ms v =
    refused (IsKept s) ms _ (not (valid role)) _ v λ _.
      refused (IsKept s) ms _ (not (may_act_on_member now us ms actor site _ role)) _ v λ _.
        refused (IsKept s) ms _ (not (is_owner_role role) && last_owner_is uid _) _ v λ l.
          found (IsKept s) ms _ (any (is_row site uid) ms) _ v λ here. record {
            keyed = update_rows-IsKeyed site uid (reroled role) ms (λ m. (refl, refl)) v.keyed;
            owned =
                update_rows-has_owner s site uid role (reroled role) ms (λ m. (refl, refl))
                  (λ m. refl) here v.keyed v.owned l;
          }

attempt-IsKept :
    (s : Bytes) (us : List User) (w : Write) (ms : List Member)
    → IsKept s ms
    → IsKept s (commit ms (attempt us w ms))
unfolding attempt
attempt-IsKept s us (adds now site uid role g) ms v =
    add_member-IsKept s now us site uid role g ms v
attempt-IsKept s us (removes now site uid actor) ms v =
    remove_member-IsKept s now us site uid actor ms v
attempt-IsKept s us (sets_role now site uid role actor) ms v =
    set_member_role-IsKept s now us site uid role actor ms v

write_all-IsKept :
    (s : Bytes) (us : List User) (ws : List Write) (ms : List Member)
    → IsKept s ms
    → IsKept s (write_all us ws ms)
unfolding write_all
write_all-IsKept s us [] ms v = v
write_all-IsKept s us (w ∷ ws) ms v =
    write_all-IsKept s us ws (commit ms (attempt us w ms)) (attempt-IsKept s us w ms v)

-- Whoever grants, changes and revokes memberships, on whatever sites and in whatever order, a site
-- that has an owner has one behind every write, and a user has one row on a site.
pub write_all-has_owner :
    (s : Bytes) (us : List User) (ws : List Write) (ms : List Member)
    → IsKeyed ms
    → has_owner s ms ≡ true
    → (has_owner s (write_all us ws ms) ≡ true) × IsKeyed (write_all us ws ms)
write_all-has_owner s us ws ms k h =
    let v = write_all-IsKept s us ws ms (record { keyed = k; owned = h }) in (v.owned, v.keyed)
