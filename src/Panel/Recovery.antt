-- ===== src/Panel/Recovery.antt =====
-- internal/panel/recovery.go and totp.go: the ways round a lost password or telephone, on panel_users
-- and panel_recovery_codes. Each transaction is one step; what a lost connection does is left out.
-- hashToken and GenerateCodeCustom of the otp package are parameters, and the drawn bytes arguments.
-- Times are in nanoseconds, thirty seconds after the epoch or later.
pub mod Office
pub mod Outcomes
pub mod Typed
pub mod Once
pub mod Steps
pub mod Replay
mod Examples
use crucible_analytic.Prelude.{
  ℕ, zero, suc, ◌+◌, ◌-◌, ◌*◌, ◌/◌, ◌%◌, Bool, true, false, not, ◌&&◌, ◌||◌, List, [], ◌∷◌, ◌++◌,
  map, Option, none, some, Bytes, codes, any, keep_if, count_if, get_or, ltb, leb, ◌==◌,
  if◌then◌else◌, Result, ok, err,
}
use crucible_analytic.Prelude.Text.{bytes_eq, is_empty, to_lower, trim_space}
use crucible_analytic.RateStore.Window.{second}

abbrev pub recovery_group : ℕ
recovery_group = 4

abbrev pub recovery_alphabet : Bytes
recovery_alphabet = codes "ABCDEFGHIJKLMNOPQRSTUVWXYZ234567"

unfoldable pub in_alphabet : ℕ → Bool
in_alphabet r = any (λ c. c == r) recovery_alphabet

-- One code, of the bytes drawn for it: `b & mask` is `b % 32`.
unfoldable pub new_recovery_code : Bytes → Bytes
new_recovery_code raw = map (λ b. get_or recovery_alphabet (b % 32) 0) raw

unfoldable pub format_from : ℕ → Bytes → Bytes
format_from i [] = []
format_from i (r ∷ code) =
    let rest = format_from (i + 1) code in
    if ltb 0 i && (i % recovery_group == 0) then b'-' ∷ r ∷ rest else r ∷ rest

unfoldable pub format_recovery_code : Bytes → Bytes
format_recovery_code code = format_from 0 code

-- `unicode.ToUpper`, as far as it makes an ASCII letter: what it makes otherwise is not in the alphabet.
unfoldable pub upper : ℕ → ℕ
upper r =
    if leb b'a' r && leb r b'z'
    then r - 32
    else if r == 0x131
    then b'I'
    else if r == 0x17f
    then b'S'
    else r

unfoldable pub read_rune : ℕ → ℕ
read_rune r = if r == b'0' then b'O' else if r == b'1' then b'I' else r

unfoldable pub read_runes : Bytes → Bytes
read_runes [] = []
read_runes (r ∷ typed) =
    let rest = read_runes typed in
    if in_alphabet (read_rune (upper r)) then read_rune (upper r) ∷ rest else rest

-- The runes of what was typed. The trim is that of ASCII white space; the alphabet drops the rest of it.
unfoldable pub normalize_recovery_code : Bytes → Bytes
normalize_recovery_code typed = read_runes (trim_space typed)

-- A row of panel_users, as far as it is used here.
pub record Account : Type 0 where
  pub id : ℕ
  pub email : Bytes
  pub disabled : Bool
  pub password_hash : Bytes
  pub totp_secret : Bytes
  pub totp_last_step : ℕ

-- A row of panel_recovery_codes.
pub record CodeRow : Type 0 where
  pub user_id : ℕ
  pub sha256 : Bytes
  pub created_by : Option ℕ
  pub used : Bool

pub record Vault : Type 0 where
  pub accounts : List Account
  pub rows : List CodeRow

pub data RecoveryError : Type 0 where
  recovery_invalid not_found code_taken totp_invalid totp_replayed : RecoveryError

unfoldable pub is_unused : ℕ → CodeRow → Bool
is_unused uid r = r.user_id == uid && not r.used

abbrev pub issuer_of : ℕ → Option ℕ
issuer_of by = if by == 0 then none else some by

unfoldable pub insert_code : ℕ → ℕ → Bytes → List CodeRow → Result RecoveryError (List CodeRow)
insert_code uid by sha256 rows =
    if any (λ r. bytes_eq r.sha256 sha256) rows
    then err code_taken
    else ok (
        rows
        ++ record { user_id = uid; sha256 = sha256; created_by = issuer_of by; used = false } ∷ [])

unfoldable pub insert_codes :
    ℕ → ℕ → List Bytes → List CodeRow → Result RecoveryError (List CodeRow)
insert_codes uid by [] rows = ok rows
insert_codes uid by (h ∷ hashes) rows = elim (insert_code uid by h rows) [
  | err e ↦ err e
  | ok rows' ↦ insert_codes uid by hashes rows'
]

unfoldable pub store_recovery_codes :
    ℕ → ℕ → List Bytes → List CodeRow → Result RecoveryError (List CodeRow)
store_recovery_codes uid by hashes rows =
    insert_codes uid by hashes (keep_if (λ r. not (is_unused uid r)) rows)

unfoldable pub count_recovery_codes : ℕ → List CodeRow → ℕ
count_recovery_codes uid rows = count_if (is_unused uid) rows

-- The owner of an unused code.
unfoldable pub find_code : Bytes → List CodeRow → Option ℕ
find_code sha256 [] = none
find_code sha256 (r ∷ rows) =
    let rest = find_code sha256 rows in
    if bytes_eq r.sha256 sha256 && not r.used then some r.user_id else rest

unfoldable pub consume : Bytes → CodeRow → CodeRow
consume sha256 r = if bytes_eq r.sha256 sha256 then record r { used = true } else r

unfoldable pub find_account : ℕ → List Account → Option Account
find_account uid [] = none
find_account uid (a ∷ as') = let rest = find_account uid as' in if a.id == uid then some a else rest

-- `strings.EqualFold` of ASCII text, with the trim before it.
unfoldable pub names : Bytes → Bytes → Bool
names email address = bytes_eq (to_lower (trim_space email)) (to_lower address)

unfoldable pub reset : ℕ → Bytes → Bool → Account → Account
reset uid password_hash clear a =
    if a.id == uid
    then (if clear
        then record a { password_hash = password_hash; totp_secret = []; totp_last_step = 0 }
        else record a { password_hash = password_hash })
    else a

-- The tables behind a use of the code of a user.
abbrev pub with_reset : Bytes → ℕ → Bytes → Bool → Vault → Vault
with_reset sha256 uid password_hash clear v = record {
  accounts = map (reset uid password_hash clear) v.accounts;
  rows = map (consume sha256) v.rows;
}

unfoldable pub reset_account :
    Bytes → Bytes → ℕ → Bytes → Bool → Vault → Result RecoveryError (Vault × ℕ)
reset_account email sha256 uid password_hash clear v = elim (find_account uid v.accounts) [
  | none ↦ err not_found
  | some a ↦
      if not (names email a.email)
      then err recovery_invalid
      else if a.disabled
      then err recovery_invalid
      else ok (
        with_reset sha256 uid password_hash clear v,
        count_recovery_codes uid (map (consume sha256) v.rows),
      )
]

module _ (hash : Bytes → Bytes) where
  unfoldable pub generate_recovery_codes :
      ℕ → ℕ → List Bytes → Vault → Result RecoveryError (Vault × List Bytes)
  generate_recovery_codes uid by draws v =
      let new = map new_recovery_code draws in
      elim (store_recovery_codes uid by (map hash new) v.rows) [
        | err e ↦ err e
        | ok rows ↦ ok (record v { rows = rows }, new)
      ]

  -- The new tables, and how many codes are left.
  unfoldable pub use_recovery_code :
      Bytes → Bytes → Bytes → Bool → Vault → Result RecoveryError (Vault × ℕ)
  use_recovery_code email typed password_hash clear v =
      let code = normalize_recovery_code typed in
      if is_empty email || is_empty code || is_empty password_hash
      then err recovery_invalid
      else elim (find_code (hash code) v.rows) [
        | none ↦ err recovery_invalid
        | some uid ↦ reset_account email (hash code) uid password_hash clear v
      ]

abbrev pub totp_period : ℕ
totp_period = 30

abbrev pub totp_skew : ℕ
totp_skew = totp_period * second

-- The three times that checkTOTP tries, in its order.
abbrev pub tried_times : ℕ → List ℕ
tried_times now = now ∷ (now - totp_skew) ∷ (now + totp_skew) ∷ []

abbrev pub step_of : ℕ → ℕ
step_of at = at / second / totp_period

module _ (generate_code : Bytes → ℕ → Option Bytes) where
  -- The loop of checkTOTP: the first time whose code it is.
  unfoldable pub try_times : Bytes → Bytes → List ℕ → Option ℕ
  try_times secret code [] = none
  try_times secret code (at ∷ times) =
      let rest = try_times secret code times in
      elim (generate_code secret at) [
        | none ↦ none
        | some want ↦ if bytes_eq want code then some (step_of at) else rest
      ]

  unfoldable pub check_totp : Bytes → Bytes → ℕ → Option ℕ
  check_totp secret typed now =
      let code = trim_space typed in
      if is_empty secret || is_empty code then none else try_times secret code (tried_times now)

-- Whose step the UPDATE raises.
unfoldable pub is_behind : ℕ → ℕ → Account → Bool
is_behind uid step a = a.id == uid && ltb a.totp_last_step step

unfoldable pub raise : ℕ → ℕ → Account → Account
raise uid step a = if is_behind uid step a then record a { totp_last_step = step } else a

unfoldable pub record_step : ℕ → ℕ → Vault → Result RecoveryError Vault
record_step uid step v =
    if any (is_behind uid step) v.accounts
    then ok (record v { accounts = map (raise uid step) v.accounts })
    else err totp_replayed

unfoldable pub verify_totp :
    (Bytes → ℕ → Option Bytes) → ℕ → Bytes → Bytes → ℕ → Vault → Result RecoveryError Vault
verify_totp generate_code uid secret code now v = elim (check_totp generate_code secret code now) [
  | none ↦ err totp_invalid
  | some step ↦ record_step uid step v
]

unfoldable pub set_totp_secret : ℕ → Bytes → Vault → Vault
set_totp_secret uid secret v = record v {
  accounts =
      map (λ (a : Account). if a.id == uid then record a { totp_secret = secret } else a)
        v.accounts;
}
