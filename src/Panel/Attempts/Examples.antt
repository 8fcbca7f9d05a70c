-- ===== src/Panel/Attempts/Examples.antt =====
-- The throttle on concrete input.
use crucible_analytic.Prelude.{
  arith, ◌+◌, ℕ, ◌*◌, ◌≤◌, ◌≡◌, refl, true, false, List, [], ◌∷◌, ◌++◌, none, some, Bytes, codes,
  err,
}
use crucible_analytic.Prelude.Text.{bytes_eq, to_lower, trim_space}
use crucible_analytic.TextSafe.{storable, fit_bytes}
use crucible_analytic.Panel.Roles.{
  owner, viewer, Principal, user, is_owner_role, may_lift_login_locks,
}
use crucible_analytic.Panel.Members.{
  Member, User, is_row, is_owner_of, live_access, find_user, live_role, live_membership, access_of,
}
use crucible_analytic.Panel.Attempts.{
  Attempt, login_throttle_window, lifts_at, failure_times, newest_first, insert_newest,
  max_failures_per_email, account_failure, account_failures, account_locked, ip_failures, same_ip,
  check_login_throttle, record_login_attempt, login_key, lifted_within_window, find_account,
  lift_lock, unlock_login,
}
use crucible_analytic.Panel.Attempts.Guesses.{
  Event, ticks, guesses_at, lifts_lock, happen, happen_all, recent_guesses, guess, lifted,
}
use crucible_analytic.Panel.Attempts.Expiry.{is_before, account_locked-lifts_at}
use crucible_analytic.Panel.Attempts.Lifted.{fresh_door, recent_guesses-happen_all}

abbrev target : Bytes
target = codes "m"

abbrev users : List User
users =
    record { id = 1; email = codes "o"; superadmin = false; disabled = false }
    ∷ record { id = 2; email = target; superadmin = false; disabled = false }
    ∷ []

abbrev members : List Member
members =
    record { site_id = codes "s"; user_id = 1; role = owner; created_by = none; expires_at = none }
    ∷ record {
      site_id = codes "s";
      user_id = 2;
      role = viewer;
      created_by = none;
      expires_at = none;
    }
    ∷ []

abbrev the_owner : Principal
the_owner = record {
  kind = user;
  user_id = 1;
  label = [];
  superadmin = false;
  developer_mode = false;
}

abbrev five_guesses : List Event
five_guesses =
    guesses_at target (some 7)
    ∷ guesses_at target (some 7)
    ∷ guesses_at target (some 7)
    ∷ guesses_at target (some 7)
    ∷ guesses_at target (some 7)
    ∷ []

-- A lift between two rounds of guesses.
abbrev siege : List Event
siege =
    five_guesses
    ++ ticks 60 ∷ lifts_lock users members (codes "s") the_owner 2 ∷ (five_guesses ++ five_guesses)

ten_in_the_window :
    recent_guesses
      (happen_all target (fresh_door 9) siege).clock
      (happen_all target (fresh_door 9) siege).guesses
    ≡ 10
unfolding recent_guesses happen_all happen guess lifted unlock_login lift_lock find_account
    live_access find_user live_role live_membership access_of is_row is_owner_of
    may_lift_login_locks is_owner_role account_locked account_failures account_failure
    lifted_within_window ip_failures same_ip check_login_throttle record_login_attempt login_key
    storable fit_bytes to_lower trim_space bytes_eq crucible_analytic.Prelude.Text.trim_right
    crucible_analytic.Prelude.Text.trim_left crucible_analytic.Prelude.Text.is_space
    crucible_analytic.TextSafe.rune_len crucible_analytic.TextSafe.is_dropped
ten_in_the_window = refl

recent_guesses-happen_all_example :
    recent_guesses
      (happen_all target (fresh_door 9) siege).clock
      (happen_all target (fresh_door 9) siege).guesses
    ≤ 2 * max_failures_per_email
recent_guesses-happen_all_example = recent_guesses-happen_all target 9 siege

abbrev wrong : ℕ → Attempt
wrong at = record { email = target; ip = none; success = false; at = at }

abbrev six_failures : List Attempt
six_failures = wrong 10 ∷ wrong 20 ∷ wrong 30 ∷ wrong 40 ∷ wrong 50 ∷ wrong 60 ∷ []

-- The fifth newest is the second.
lifts_with_the_fifth : lifts_at 99 target six_failures ≡ some (20 + login_throttle_window)
unfolding lifts_at failure_times newest_first insert_newest account_failure bytes_eq
lifts_with_the_fifth = refl

account_locked-lifts_at_example :
    account_locked (login_throttle_window + 20) target six_failures
    ≡ is_before (login_throttle_window + 20) (lifts_at 99 target six_failures)
account_locked-lifts_at_example =
    account_locked-lifts_at 99 (login_throttle_window + 20) target six_failures (omega arith)
