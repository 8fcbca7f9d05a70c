-- ===== src/Panel/Recovery/Outcomes.antt =====
-- What a transaction that commits has found and done.
use crucible_analytic.Prelude.{
  ℕ, ◌≡◌, ap, Bool, true, ◌||◌, List, map, Option, some, Bytes, any, ok, ok-injective, Bool-cases,
  Option-cases, Result-cases, inl, inr,
}
use crucible_analytic.Prelude.Text.{is_empty}
use crucible_analytic.Panel.Recovery.{
  CodeRow, Vault, normalize_recovery_code, find_code, find_account, names, with_reset,
  reset_account, count_recovery_codes, consume, use_recovery_code, new_recovery_code,
  store_recovery_codes, generate_recovery_codes, is_behind, raise, record_step, check_totp,
  verify_totp,
}

pub reset_account-ok :
    (email sha256 : Bytes) (uid : ℕ) (password_hash : Bytes) (clear : Bool) (v : Vault)
    (r : Vault × ℕ)
    → reset_account email sha256 uid password_hash clear v ≡ ok r
    → (
      with_reset sha256 uid password_hash clear v,
      count_recovery_codes uid (map (consume sha256) v.rows),
    )
      ≡ r
unfolding reset_account
reset_account-ok email sha256 uid password_hash clear v r h =
    elim (Option-cases (find_account uid v.accounts)) [
      | inl n ↦ let no = rw (n, reset_account) at h in cc
      | inr (a, here) ↦ elim (Bool-cases (names email a.email)) [
        | inr another ↦ let no = rw (here, another, reset_account) at h in cc
        | inl named ↦ elim (Bool-cases a.disabled) [
          | inl off ↦ let no = rw (here, named, off, reset_account) at h in cc
          | inr on ↦ ok-injective _ r (rw (here, named, on, reset_account) at h)
        ]
      ]
    ]

module _ (hash : Bytes → Bytes) where
  pub use_recovery_code-ok :
      (email typed password_hash : Bytes) (clear : Bool) (v : Vault) (r : Vault × ℕ)
      → use_recovery_code hash email typed password_hash clear v ≡ ok r
      → (uid : ℕ) × (find_code (hash (normalize_recovery_code typed)) v.rows ≡ some uid)
        × (with_reset (hash (normalize_recovery_code typed)) uid password_hash clear v ≡ r.0)
  unfolding use_recovery_code
  use_recovery_code-ok email typed password_hash clear v r h =
      elim (Bool-cases
        (is_empty email || is_empty (normalize_recovery_code typed) || is_empty password_hash)) [
          | inl e ↦ let no = rw (e, use_recovery_code) at h in cc
          | inr e ↦ elim (Option-cases (find_code (hash (normalize_recovery_code typed)) v.rows)) [
            | inl n ↦ let no = rw (e, n, use_recovery_code) at h in cc
            | inr (uid, found) ↦
                let done =
                  reset_account-ok email (hash (normalize_recovery_code typed)) uid password_hash
                    clear v r (rw (e, found, use_recovery_code) at h) in
                (uid, found, ap (λ (x : Vault × ℕ). x.0) done)
          ]
        ]

  pub generate_recovery_codes-ok :
      (uid by : ℕ) (draws : List Bytes) (v : Vault) (r : Vault × List Bytes)
      → generate_recovery_codes hash uid by draws v ≡ ok r
      → (rows : List CodeRow) × (store_recovery_codes uid by
            (map hash (map new_recovery_code draws))
            v.rows
          ≡ ok rows)
        × ((record v { rows = rows }, map new_recovery_code draws) ≡ r)
  unfolding generate_recovery_codes
  generate_recovery_codes-ok uid by draws v r h =
      elim (Result-cases
        (store_recovery_codes uid by (map hash (map new_recovery_code draws)) v.rows)) [
          | inl (e, bad) ↦ let no = rw (bad, generate_recovery_codes) at h in cc
          | inr (rows, good) ↦
              (rows, good, ok-injective _ r (rw (good, generate_recovery_codes) at h))
        ]

pub record_step-ok :
    (uid step : ℕ) (v v' : Vault)
    → record_step uid step v ≡ ok v'
    → (any (is_behind uid step) v.accounts ≡ true)
      × (record v { accounts = map (raise uid step) v.accounts } ≡ v')
unfolding record_step
record_step-ok uid step v v' h = elim (Bool-cases (any (is_behind uid step) v.accounts)) [
  | inr past ↦ let no = rw (past, record_step) at h in cc
  | inl new ↦ (new, ok-injective _ v' (rw (new, record_step) at h))
]

module _ (generate_code : Bytes → ℕ → Option Bytes) where
  pub verify_totp-ok :
      (uid : ℕ) (secret typed : Bytes) (now : ℕ) (v v' : Vault)
      → verify_totp generate_code uid secret typed now v ≡ ok v'
      → (step : ℕ) × (check_totp generate_code secret typed now ≡ some step)
        × (record_step uid step v ≡ ok v')
  unfolding verify_totp
  verify_totp-ok uid secret typed now v v' h =
      elim (Option-cases (check_totp generate_code secret typed now)) [
        | inl n ↦ let no = rw (n, verify_totp) at h in cc
        | inr (step, matched) ↦ (step, matched, rw (matched, verify_totp) at h)
      ]
