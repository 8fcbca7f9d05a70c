-- ===== src/Panel/Members/Examples.antt =====
-- Memberships on concrete input.
use crucible_analytic.Prelude.{
  ℕ, ◌≡◌, refl, true, false, List, [], ◌∷◌, none, some, Bytes, codes, err,
}
use crucible_analytic.Prelude.Text.{bytes_eq}
use crucible_analytic.Panel.Roles.{Role, owner, admin, viewer, user, Access, is_owner_role}
use crucible_analytic.Panel.Members.{
  Member, User, is_row, is_owner_of, live_access, find_user, live_role, live_membership, access_of,
  last_owner, remove_member, lock_membership, lock_loop, last_owner_is, may_act_on_member,
}
use crucible_analytic.Panel.Members.Owners.{
  Write, adds, removes, sets_role, attempt, commit, write_all, owners_of, IsKeyed, has_owner,
}
use crucible_analytic.Panel.Members.Writes.{write_all-has_owner}
use crucible_analytic.Panel.Members.Authority.{IsLesser, owners_of-attempt}

abbrev site : Bytes
site = codes "s"

abbrev membership : ℕ → Role → Member
membership uid role = record {
  site_id = site;
  user_id = uid;
  role = role;
  created_by = none;
  expires_at = none;
}

abbrev members : List Member
members = membership 1 owner ∷ membership 2 admin ∷ []

abbrev users : List User
users =
    record { id = 1; email = codes "o"; superadmin = false; disabled = false }
    ∷ record { id = 2; email = codes "a"; superadmin = false; disabled = false }
    ∷ []

members-IsKeyed : IsKeyed members
unfolding is_row bytes_eq
members-IsKeyed = (refl, (refl, tt))

members_owned : has_owner site members ≡ true
unfolding is_owner_of bytes_eq is_owner_role
members_owned = refl

keeps_the_last : remove_member 5 users site 1 none members ≡ err last_owner
unfolding remove_member may_act_on_member lock_membership lock_loop last_owner_is is_row is_owner_of
    bytes_eq is_owner_role
keeps_the_last = refl

-- The owner leaves, the administrator makes a viewer, and the owner hands the site on.
abbrev writes : List Write
writes =
    removes 5 site 1 (some 1)
    ∷ adds 6 site 3 viewer (record { by = some 2; until = some 99 })
    ∷ sets_role 7 site 2 owner (some 1)
    ∷ []

write_all-has_owner_example :
    (has_owner site (write_all users writes members) ≡ true)
    × IsKeyed (write_all users writes members)
write_all-has_owner_example =
    write_all-has_owner site users writes members members-IsKeyed members_owned

-- The administrator makes the owner a viewer.
abbrev coup : Write
coup = adds 6 site 1 viewer (record { by = some 2; until = none })

coup-IsLesser : IsLesser users members coup
unfolding live_access find_user live_role live_membership access_of is_row bytes_eq is_owner_role
coup-IsLesser = (2, refl, (refl, refl))

owners_of-attempt_example :
    owners_of site (commit members (attempt users coup members)) ≡ owners_of site members
owners_of-attempt_example = owners_of-attempt site users coup members members-IsKeyed coup-IsLesser

abbrev administrator : Access
administrator = record {
  principal = record {
    kind = user;
    user_id = 2;
    label = [];
    superadmin = false;
    developer_mode = false;
  };
  role = admin;
  member = true;
  site_id = site;
  owns_every_site = false;
}
