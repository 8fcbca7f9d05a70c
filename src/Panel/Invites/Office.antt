-- ===== src/Panel/Invites/Office.antt =====
-- What happens to the invitations, one transaction at a time.
use crucible_analytic.Prelude.{ℕ, ◌+◌, List, [], ◌∷◌, Bytes, Result, ok, err}
use crucible_analytic.Prelude.Int.{ℤ}
use crucible_analytic.Panel.Roles.{Role}
use crucible_analytic.Panel.Members.{Member, User}
use crucible_analytic.Panel.Invites.{
  Tables, InviteError, create_member_invite, redeem_member_invite, revoke_member_invite,
  revoke_member_invites_by,
}

pub record Office : Type 0 where
  pub clock : ℕ
  pub tables : Tables

-- The other writes of the panel leave whatever accounts and memberships they leave, and no code of the
-- repository writes to an invitation but these.
pub data Event : Type 0 where
  ticks : ℕ → Event
  creates : Bytes → Bytes → Bytes → Role → ℕ → ℤ → ℤ → Event
  redeems : Bytes → Bytes → Event
  revokes : ℕ → Bytes → Event
  revokes_by : ℕ → Bytes → Event
  others_write : List User → List Member → Event

-- A transaction that fails is rolled back.
unfoldable pub settle : Tables → Result InviteError Tables → Tables
settle t (err e) = t
settle t (ok t') = t'

abbrev pub later : ℕ → Event → ℕ
later now (ticks n) = now + n
later now _ = now

module _ (hash : Bytes → Bytes) where
  unfoldable pub write : ℕ → Event → Tables → Tables
  write now (ticks n) t = t
  write now (creates sha256 site email role by ttl days) t =
      settle t (create_member_invite now sha256 site email role by ttl days t)
  write now (redeems token password_hash) t =
      settle t (redeem_member_invite hash now token password_hash t)
  write now (revokes id site) t = settle t (revoke_member_invite id site t)
  write now (revokes_by uid site) t = (revoke_member_invites_by uid site t).0
  write now (others_write us ms) t = record t { users = us; members = ms }

  unfoldable pub happen : Office → Event → Office
  happen o e = record { clock = later o.clock e; tables = write o.clock e o.tables }

  unfoldable pub happen_all : Office → List Event → Office
  happen_all o [] = o
  happen_all o (e ∷ es) = happen_all (happen o e) es
