-- ===== src/Panel/Recovery/Office.antt =====
-- What happens to the accounts and their codes, one transaction at a time.
use crucible_analytic.Prelude.{
  ℕ, ◌≡◌, refl, Bool, List, [], ◌∷◌, ◌++◌, map, Option, Bytes, any, ◌==◌, if◌then◌else◌, Result, ok,
  err,
}
use crucible_analytic.Panel.Recovery.{
  Account, Vault, RecoveryError, generate_recovery_codes, use_recovery_code, verify_totp,
  set_totp_secret,
}

-- A new account has an id of its own; an edit leaves the second factor.
pub data Event : Type 0 where
  generates : ℕ → ℕ → List Bytes → Event
  recovers : Bytes → Bytes → Bytes → Bool → Event
  verifies : ℕ → Bytes → Bytes → ℕ → Event
  sets_secret : ℕ → Bytes → Event
  joins : Account → Event
  edits : ℕ → Bytes → Bytes → Bool → Event

-- A transaction that fails is rolled back.
unfoldable pub settled : {A : Type 0} → (A → Vault) → Vault → Result RecoveryError A → Vault
settled f v (err e) = v
settled f v (ok r) = f r

-- What holds before a transaction and behind one that commits holds behind both.
pub settled_lem :
    {A : Type 0}
    → (P : Vault → Type 0) (f : A → Vault) (v : Vault) (r : Result RecoveryError A) → P v
    → ((x : A) → r ≡ ok x → P (f x))
    → P (settled f v r)
unfolding settled
settled_lem P f v (err e) p h = p
settled_lem P f v (ok x) p h = h x refl

abbrev pub edit : ℕ → Bytes → Bytes → Bool → Account → Account
edit uid email password_hash disabled a =
    if a.id == uid
    then record a { email = email; password_hash = password_hash; disabled = disabled }
    else a

unfoldable pub join : Account → Vault → Vault
join a v =
    if any (λ (b : Account). b.id == a.id) v.accounts
    then v
    else record v { accounts = v.accounts ++ a ∷ [] }

module _ (hash : Bytes → Bytes) (generate_code : Bytes → ℕ → Option Bytes) where
  unfoldable pub perform : Event → Vault → Vault
  perform (generates uid by draws) v =
      settled (λ r. r.0) v (generate_recovery_codes hash uid by draws v)
  perform (recovers email typed password_hash clear) v =
      settled (λ r. r.0) v (use_recovery_code hash email typed password_hash clear v)
  perform (verifies uid secret code now) v =
      settled (λ r. r) v (verify_totp generate_code uid secret code now v)
  perform (sets_secret uid secret) v = set_totp_secret uid secret v
  perform (joins a) v = join a v
  perform (edits uid email password_hash disabled) v = record v {
    accounts = map (edit uid email password_hash disabled) v.accounts;
  }

  unfoldable pub perform_all : List Event → Vault → Vault
  perform_all [] v = v
  perform_all (e ∷ es) v = perform_all es (perform e v)
