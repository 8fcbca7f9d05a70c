-- ===== src/Panel/Attempts.antt =====
-- internal/panel/attempts.go: the throttle of the sign-in forms, and the owner's lift of a lock. Each
-- statement and each transaction is one step on the tables, at the time of the database's clock in
-- nanoseconds; what a lost connection does is left out.
pub mod Guesses
pub mod Budget
pub mod Lifted
pub mod Expiry
mod Examples
use crucible_analytic.Prelude.{
  ℕ, ◌+◌, ◌*◌, Bool, true, false, not, ◌&&◌, ◌||◌, List, [], ◌∷◌, ◌++◌, Option, none, some, Bytes,
  any, count_if, get_elem?, map, keep_if, ltb, leb, ◌==◌, if◌then◌else◌, Result, ok, err,
}
use crucible_analytic.Prelude.Text.{bytes_eq, to_lower, trim_space}
use crucible_analytic.RateStore.Window.{second}
use crucible_analytic.TextSafe.{storable, fit_bytes}
use crucible_analytic.Panel.Roles.{Principal, Access, may_lift_login_locks}
use crucible_analytic.Panel.Members.{Member, User, live_membership, live_access, is_row}

abbrev pub login_throttle_window : ℕ
login_throttle_window = 15 * 60 * second

abbrev pub max_failures_per_email : ℕ
max_failures_per_email = 5

abbrev pub max_failures_per_ip : ℕ
max_failures_per_ip = 30

abbrev pub max_email_bytes : ℕ
max_email_bytes = 254

-- `NormalizeEmail`, behind it the filter for text that is stored.
unfoldable pub login_key : Bytes → Bytes
login_key email = fit_bytes (storable (to_lower (trim_space email))) max_email_bytes

-- A row of panel_login_attempts; an address is a number, and `none` an invalid one.
pub record Attempt : Type 0 where
  pub email : Bytes
  pub ip : Option ℕ
  pub success : Bool
  pub at : ℕ

-- An entry of the audit log with the action of a lift.
pub record Lift : Type 0 where
  pub target : Bytes
  pub time : ℕ

-- The condition of accountFailures.
unfoldable pub account_failure : ℕ → Bytes → Attempt → Bool
account_failure now email a =
    bytes_eq a.email email && not a.success && ltb now (a.at + login_throttle_window)

unfoldable pub account_failures : ℕ → Bytes → List Attempt → ℕ
account_failures now email as' = count_if (account_failure now email) as'

-- `locked` of accountLock.
unfoldable pub account_locked : ℕ → Bytes → List Attempt → Bool
account_locked now email as' = leb max_failures_per_email (account_failures now email as')

-- `array_agg(a.at ORDER BY a.at DESC)`.
unfoldable pub insert_newest : ℕ → List ℕ → List ℕ
insert_newest at [] = at ∷ []
insert_newest at (x ∷ xs) =
    let rest = insert_newest at xs in if leb x at then at ∷ x ∷ xs else x ∷ rest

unfoldable pub newest_first : List ℕ → List ℕ
newest_first [] = []
newest_first (x ∷ xs) = insert_newest x (newest_first xs)

unfoldable pub failure_times : ℕ → Bytes → List Attempt → List ℕ
failure_times now email as' = map (λ a. a.at) (keep_if (account_failure now email) as')

-- `lifts_at` of accountLock, NULL for fewer failures than the budget.
unfoldable pub lifts_at : ℕ → Bytes → List Attempt → Option ℕ
lifts_at now email as' = elim (get_elem? (newest_first (failure_times now email as')) 4) [
  | none ↦ none
  | some at ↦ some (at + login_throttle_window)
]

unfoldable pub lifted_within_window : ℕ → Bytes → List Lift → Bool
lifted_within_window now email ls =
    any (λ l. bytes_eq l.target email && ltb now (l.time + login_throttle_window)) ls

unfoldable pub same_ip : Option ℕ → Option ℕ → Bool
same_ip (some a) (some b) = a == b
same_ip _ _ = false

unfoldable pub ip_failures : ℕ → Option ℕ → List Attempt → ℕ
ip_failures now ip as' =
    count_if (λ a. not a.success && same_ip ip a.ip && ltb now (a.at + login_throttle_window)) as'

pub data Reason : Type 0 where
  no_reason by_email by_ip : Reason

pub record Throttle : Type 0 where
  pub blocked : Bool
  pub retry_after : ℕ
  pub reason : Reason

unfoldable pub check_login_throttle : ℕ → Bytes → Option ℕ → List Attempt → Throttle
check_login_throttle now email ip as' =
    if account_locked now (login_key email) as'
    then record { blocked = true; retry_after = login_throttle_window; reason = by_email }
    else if leb max_failures_per_ip (ip_failures now ip as')
    then record { blocked = true; retry_after = login_throttle_window; reason = by_ip }
    else record { blocked = false; retry_after = 0; reason = no_reason }

unfoldable pub record_login_attempt : ℕ → Bytes → Option ℕ → Bool → List Attempt → List Attempt
record_login_attempt now email ip success as' =
    as' ++ (record { email = login_key email; ip = ip; success = success; at = now }) ∷ []

unfoldable pub clear_login_failures : Bytes → List Attempt → List Attempt
clear_login_failures email as' =
    keep_if (λ a. not (bytes_eq a.email (login_key email) && not a.success)) as'

abbrev pub ninety_days : ℕ
ninety_days = 90 * 24 * 60 * 60 * second

unfoldable pub purge_old_login_attempts : ℕ → List Attempt → List Attempt
purge_old_login_attempts now as' = keep_if (λ a. not (ltb (a.at + ninety_days) now)) as'

pub data UnlockError : Type 0 where
  may_not_lift target_not_found not_locked lifted_recently : UnlockError

-- The account with a live membership of the site.
unfoldable pub find_account : ℕ → Bytes → ℕ → List User → List Member → Option User
find_account now site uid [] ms = none
find_account now site uid (u ∷ us) ms =
    let rest = find_account now site uid us ms in
    if u.id == uid && any (λ m. is_row site uid m && live_membership now m.expires_at) ms
    then some u
    else rest

abbrev pub may_lift : Option Access → Bool
may_lift none = false
may_lift (some access) = may_lift_login_locks access

-- The three tables that a lift reads and writes, behind it, with the number of failures forgotten.
unfoldable pub lift_lock :
    ℕ → List Attempt → List Lift → Option User → Result UnlockError (List Attempt × (List Lift × ℕ))
lift_lock now as' ls none = err target_not_found
lift_lock now as' ls (some u) =
    if not (account_locked now u.email as')
    then err not_locked
    else if lifted_within_window now u.email ls
    then err lifted_recently
    else ok (
      keep_if (λ a. not (account_failure now u.email a)) as',
      (ls ++ (record { target = u.email; time = now }) ∷ [], account_failures now u.email as'),
    )

unfoldable pub unlock_login :
    ℕ
    → List User
    → List Member
    → Bytes
    → Principal
    → ℕ
    → List Attempt
    → List Lift
    → Result UnlockError (List Attempt × (List Lift × ℕ))
unlock_login now us ms site actor uid as' ls =
    if actor.user_id == uid
    then err may_not_lift
    else if not (may_lift (live_access now us ms actor.user_id site))
    then err may_not_lift
    else lift_lock now as' ls (find_account now site uid us ms)
