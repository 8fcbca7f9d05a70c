-- ===== src/Panel/Recovery/Examples.antt =====
-- An account with a second factor and its codes.
use mathlib.Core.Option.{some-injective}
use crucible_analytic.Prelude.{
  ℕ, ◌+◌, ◌*◌, ◌/◌, ◌%◌, ◌≤◌, ◌<◌, ◌≡◌, ◌≢◌, ◌⊎◌, refl, ap, true, false, List, [], ◌∷◌, Option,
  some, none, Bytes, codes, get_or, length, arith, Result, ok, err,
}
use crucible_analytic.Prelude.Text.{bytes_eq, is_empty, to_lower, trim_space}
use crucible_analytic.RateStore.Window.{second}
use crucible_analytic.Panel.Recovery.{
  Account, Vault, recovery_invalid, totp_invalid, totp_replayed, in_alphabet,
  normalize_recovery_code, format_recovery_code, format_from, upper, read_rune, read_runes,
  find_code, consume, find_account, names, reset, reset_account, is_unused, count_recovery_codes,
  use_recovery_code, totp_skew, step_of, try_times, check_totp, is_behind, raise, record_step,
  verify_totp,
}
use crucible_analytic.Panel.Recovery.Typed.{
  nothing, a_mark, as_it_is, in_lower_case, zero_for_o, one_for_i,
  normalize_recovery_code-IsWriting,
}
use crucible_analytic.Panel.Recovery.Once.{use_recovery_code-perform_all}
use crucible_analytic.Panel.Recovery.Replay.{verify_totp-perform_all}
use crucible_analytic.Panel.Recovery.Office.{
  Event, generates, recovers, verifies, sets_secret, joins, edits, perform_all,
}

abbrev hash : Bytes → Bytes
hash code = 9 ∷ code

-- A code of one digit, the last of the step.
abbrev generate_code : Bytes → ℕ → Option Bytes
generate_code secret at = some ((b'0' + step_of at % 10) ∷ [])

abbrev colleague : Account
colleague = record {
  id = 1;
  email = codes "a@b";
  disabled = false;
  password_hash = codes "p";
  totp_secret = codes "k";
  totp_last_step = 7;
}

abbrev code : Bytes
code = codes "AO2I"

abbrev vault : Vault
vault = record {
  accounts = colleague ∷ [];
  rows =
      record { user_id = 1; sha256 = hash code; created_by = none; used = false }
      ∷ record { user_id = 1; sha256 = hash (codes "B"); created_by = none; used = false }
      ∷ [];
}

-- "a0-21".
abbrev typed : Bytes
typed = codes "a0-21"

normalize_recovery_code-IsWriting_example : normalize_recovery_code typed ≡ code
normalize_recovery_code-IsWriting_example = normalize_recovery_code-IsWriting code typed (
    in_lower_case b'A' refl
      (zero_for_o (a_mark b'-' refl (as_it_is b'2' refl (one_for_i nothing)))))

formatted : format_recovery_code (codes "ABCDEFGHIJKL") ≡ codes "ABCD-EFGH-IJKL"
unfolding format_recovery_code format_from
formatted = refl

abbrev events : List Event
events =
    generates 1 1 ((1 ∷ 2 ∷ []) ∷ [])
    ∷ verifies 1 (codes "k") (codes "1") (340 * second)
    ∷ joins colleague
    ∷ sets_secret 1 (codes "n")
    ∷ recovers (codes "A@B") (codes "BC") (codes "q") false
    ∷ edits 1 (codes "a@b") (codes "r") false
    ∷ []

abbrev recovered : Vault
recovered = record {
  accounts = record colleague { password_hash = codes "q" } ∷ [];
  rows =
      record { user_id = 1; sha256 = hash code; created_by = none; used = true }
      ∷ record { user_id = 1; sha256 = hash (codes "B"); created_by = none; used = false }
      ∷ [];
}

recovers_once :
    use_recovery_code hash (codes " A@b") typed (codes "q") false vault ≡ ok (recovered, 1)
unfolding use_recovery_code is_empty normalize_recovery_code read_runes trim_space
    crucible_analytic.Prelude.Text.trim_right crucible_analytic.Prelude.Text.trim_left
    crucible_analytic.Prelude.Text.is_space in_alphabet read_rune upper find_code bytes_eq
    reset_account find_account names to_lower reset consume count_recovery_codes is_unused
recovers_once = refl

read_alike : normalize_recovery_code code ≡ normalize_recovery_code typed
unfolding normalize_recovery_code read_runes trim_space crucible_analytic.Prelude.Text.trim_right
    crucible_analytic.Prelude.Text.trim_left crucible_analytic.Prelude.Text.is_space is_empty
    in_alphabet read_rune upper
read_alike = refl

use_recovery_code-perform_all_example :
    use_recovery_code hash
      (codes "a@b")
      code
      (codes "s")
      true
      (perform_all hash generate_code events recovered)
    ≡ err recovery_invalid
use_recovery_code-perform_all_example =
    use_recovery_code-perform_all hash generate_code (codes " A@b") typed (codes "q") false vault
      (recovered, 1) events (codes "a@b") code (codes "s") true recovers_once read_alike

abbrev verified : Vault
verified = record vault { accounts = record colleague { totp_last_step = 10 } ∷ [] }

verifies_once :
    verify_totp generate_code 1 (codes "k") (codes "0") (300 * second) vault ≡ ok verified
unfolding verify_totp check_totp is_empty trim_space crucible_analytic.Prelude.Text.trim_right
    crucible_analytic.Prelude.Text.trim_left crucible_analytic.Prelude.Text.is_space try_times
    bytes_eq record_step is_behind raise
verifies_once = refl

matches_once : check_totp generate_code (codes "k") (codes "0") (300 * second) ≡ some 10
unfolding check_totp is_empty trim_space crucible_analytic.Prelude.Text.trim_right
    crucible_analytic.Prelude.Text.trim_left crucible_analytic.Prelude.Text.is_space try_times
    bytes_eq
matches_once = refl

not_of_a_later_step :
    (at : ℕ)
    → at ≤ 330 * second + totp_skew
    → 10 < step_of at
    → generate_code (codes "k") at ≢ some (trim_space (codes "0"))
unfolding trim_space crucible_analytic.Prelude.Text.trim_right
    crucible_analytic.Prelude.Text.trim_left crucible_analytic.Prelude.Text.is_space
not_of_a_later_step at h k e =
    let head = ap (λ (x : Bytes). get_or x 0 0) (some-injective _ _ e) in omega (arith, h, k, head)

verify_totp-perform_all_example :
    (verify_totp generate_code 1
        (codes "k")
        (codes "0")
        (330 * second)
        (perform_all hash generate_code events verified)
      ≡ err totp_invalid)
    ⊎ (verify_totp generate_code 1
          (codes "k")
          (codes "0")
          (330 * second)
          (perform_all hash generate_code events verified)
        ≡ err totp_replayed)
verify_totp-perform_all_example =
    verify_totp-perform_all hash generate_code 1 (codes "k") (codes "k") (codes "0") (300 * second)
      (330 * second) 10 vault verified events matches_once verifies_once
      (tt, (tt, (tt, (tt, (refl, (tt, tt)))))) not_of_a_later_step
