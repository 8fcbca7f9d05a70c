-- ===== src/Panel/Recovery/Once.antt =====
-- A recovery code is used once, and a new set takes the place of the old.
use crucible_analytic.Prelude.{
  ℕ, ◌≡◌, refl, sym, ap, subst, ◌∙◌, Bool, true, false, not, ◌&&◌, ◌||◌, List, [], ◌∷◌, ◌++◌, map,
  Option, none, some, Bytes, any, any_append_one, keep_if, arith, ◌==◌, ok, err, ok-injective,
  Bool-cases, Result-cases, inl, inr,
}
use crucible_analytic.Prelude.Text.{bytes_eq, bytes_eq_sound, is_empty}
use crucible_analytic.Panel.Recovery.{
  Account, CodeRow, Vault, recovery_invalid, normalize_recovery_code, is_unused, issuer_of,
  insert_code, insert_codes, store_recovery_codes, find_code, consume, use_recovery_code,
  verify_totp, set_totp_secret, record_step,
}
use crucible_analytic.Panel.Recovery.Outcomes.{
  use_recovery_code-ok, generate_recovery_codes-ok, record_step-ok, verify_totp-ok,
}
use crucible_analytic.Panel.Recovery.Office.{
  Event, generates, recovers, verifies, sets_secret, joins, edits, settled_lem, join, perform,
  perform_all,
}

abbrev has_hash : Bytes → CodeRow → Bool
has_hash sha256 r = bytes_eq r.sha256 sha256

abbrev is_usable : Bytes → CodeRow → Bool
is_usable sha256 r = bytes_eq r.sha256 sha256 && not r.used

-- The hash is taken, and no row that has it can be used.
abbrev IsSpent : Bytes → List CodeRow → Type 0
IsSpent sha256 rows = (any (has_hash sha256) rows ≡ true) × (any (is_usable sha256) rows ≡ false)

abbrev new_row : ℕ → ℕ → Bytes → CodeRow
new_row uid by sha256 = record {
  user_id = uid;
  sha256 = sha256;
  created_by = issuer_of by;
  used = false;
}

insert_code-ok :
    (uid by : ℕ) (sha256 : Bytes) (rows rows' : List CodeRow)
    → insert_code uid by sha256 rows ≡ ok rows'
    → (any (has_hash sha256) rows ≡ false) × (rows ++ new_row uid by sha256 ∷ [] ≡ rows')
unfolding insert_code
insert_code-ok uid by sha256 rows rows' h = elim (Bool-cases (any (has_hash sha256) rows)) [
  | inl taken ↦ let no = rw (taken, insert_code) at h in cc
  | inr new ↦ (new, ok-injective _ rows' (rw (new, insert_code) at h))
]

-- The codes are stored one by one.
insert_codes-ok :
    (uid by : ℕ) (h : Bytes) (hashes : List Bytes) (rows rows' : List CodeRow)
    → insert_codes uid by (h ∷ hashes) rows ≡ ok rows'
    → (any (has_hash h) rows ≡ false)
      × (insert_codes uid by hashes (rows ++ new_row uid by h ∷ []) ≡ ok rows')
unfolding insert_codes
insert_codes-ok uid by h hashes rows rows' e = elim (Result-cases (insert_code uid by h rows)) [
  | inl (x, bad) ↦ let no = rw (bad, insert_codes) at e in cc
  | inr (mid, good) ↦
      let (new, done) = insert_code-ok uid by h rows mid good in
      (
        new,
        subst (λ (m : List CodeRow). insert_codes uid by hashes m ≡ ok rows') (sym done)
            (rw (good, insert_codes) at e),
      )
]

of_another_hash :
    (sha256 h : Bytes) (rows : List CodeRow)
    → any (has_hash sha256) rows ≡ true
    → any (has_hash h) rows ≡ false
    → bytes_eq h sha256 ≡ false
of_another_hash sha256 h rows taken new = elim (Bool-cases (bytes_eq h sha256)) [
  | inr away ↦ away
  | inl same ↦ let no = rw (bytes_eq_sound h sha256 same) at new in cc
]

insert_codes-IsSpent :
    (sha256 : Bytes) (uid by : ℕ) (hashes : List Bytes) (rows rows' : List CodeRow)
    → insert_codes uid by hashes rows ≡ ok rows'
    → IsSpent sha256 rows
    → IsSpent sha256 rows'
unfolding insert_codes
insert_codes-IsSpent sha256 uid by [] rows rows' e p =
    subst (IsSpent sha256) (ok-injective rows rows' e) p
insert_codes-IsSpent sha256 uid by (h ∷ hashes) rows rows' e (taken, used) =
    let (new, rest) = insert_codes-ok uid by h hashes rows rows' e in
    let away = of_another_hash sha256 h rows taken new in
    insert_codes-IsSpent sha256 uid by hashes (rows ++ new_row uid by h ∷ []) rows' rest (
      any_append_one (has_hash sha256) _ rows away ∙ taken,
      any_append_one (is_usable sha256) (new_row uid by h) rows (ground (arith, away)) ∙ used,
    )

-- What is deleted for a new set has not been used.
kept_has_hash :
    (sha256 : Bytes) (uid : ℕ) (rows : List CodeRow)
    → any (has_hash sha256) rows ≡ true
    → any (is_usable sha256) rows ≡ false
    → any (has_hash sha256) (keep_if (λ r. not (is_unused uid r)) rows) ≡ true
unfolding is_unused
kept_has_hash sha256 uid [] t u = cc
kept_has_hash sha256 uid (r ∷ rows) t u = ground (arith, t, u, kept_has_hash sha256 uid rows)

kept_is_usable :
    (sha256 : Bytes) (uid : ℕ) (rows : List CodeRow)
    → any (is_usable sha256) rows ≡ false
    → any (is_usable sha256) (keep_if (λ r. not (is_unused uid r)) rows) ≡ false
unfolding is_unused
kept_is_usable sha256 uid [] u = refl
kept_is_usable sha256 uid (r ∷ rows) u = ground (arith, u, kept_is_usable sha256 uid rows)

store-IsSpent :
    (sha256 : Bytes) (uid by : ℕ) (hashes : List Bytes) (rows rows' : List CodeRow)
    → store_recovery_codes uid by hashes rows ≡ ok rows'
    → IsSpent sha256 rows
    → IsSpent sha256 rows'
unfolding store_recovery_codes
store-IsSpent sha256 uid by hashes rows rows' e (taken, used) =
    insert_codes-IsSpent sha256 uid by hashes _ rows' e
      (kept_has_hash sha256 uid rows taken used, kept_is_usable sha256 uid rows used)

any-map-consume :
    (sha256 h : Bytes) (rows : List CodeRow)
    → any (has_hash sha256) (map (consume h) rows) ≡ any (has_hash sha256) rows
unfolding consume
any-map-consume sha256 h [] = refl
any-map-consume sha256 h (r ∷ rows) = elim (Bool-cases (bytes_eq r.sha256 h)) [
  | inl e ↦ rw (e, any-map-consume sha256 h rows) refl
  | inr e ↦ rw (e, any-map-consume sha256 h rows) refl
]

consume-usable :
    (sha256 h : Bytes) (rows : List CodeRow)
    → any (is_usable sha256) rows ≡ false
    → any (is_usable sha256) (map (consume h) rows) ≡ false
unfolding consume
consume-usable sha256 h [] u = refl
consume-usable sha256 h (r ∷ rows) u =
    let rest = consume-usable sha256 h rows (ground (arith, u)) in
    elim (Bool-cases (bytes_eq r.sha256 h)) [
      | inl e ↦ rw (e) (ground (arith, rest))
      | inr e ↦ rw (e) (ground (arith, u, rest))
    ]

consumed :
    (sha256 : Bytes) (rows : List CodeRow)
    → any (is_usable sha256) (map (consume sha256) rows) ≡ false
unfolding consume
consumed sha256 [] = refl
consumed sha256 (r ∷ rows) = elim (Bool-cases (bytes_eq r.sha256 sha256)) [
  | inl e ↦ rw (e) (ground (arith, consumed sha256 rows))
  | inr e ↦ rw (e) (ground (arith, e, consumed sha256 rows))
]

find_code-known :
    (sha256 : Bytes) (rows : List CodeRow) (uid : ℕ)
    → find_code sha256 rows ≡ some uid
    → any (has_hash sha256) rows ≡ true
unfolding find_code
find_code-known sha256 [] uid h = cc
find_code-known sha256 (r ∷ rows) uid h = elim (Bool-cases (is_usable sha256 r)) [
  | inl here ↦ ground (arith, here)
  | inr away ↦ ground (arith, find_code-known sha256 rows uid (rw (away, find_code) at h))
]

find_code-spent :
    (sha256 : Bytes) (rows : List CodeRow)
    → any (is_usable sha256) rows ≡ false
    → find_code sha256 rows ≡ none
unfolding find_code
find_code-spent sha256 [] e = refl
find_code-spent sha256 (r ∷ rows) e =
    let closed : is_usable sha256 r ≡ false = ground (arith, e) in
    rw (closed) (find_code-spent sha256 rows (ground (arith, e)))

rows-record_step : (uid step : ℕ) (v v' : Vault) → record_step uid step v ≡ ok v' → v.rows ≡ v'.rows
rows-record_step uid step v v' h = ap (λ (u : Vault). u.rows) (record_step-ok uid step v v' h).1

rows-join : (a : Account) (v : Vault) → (join a v).rows ≡ v.rows
unfolding join
rows-join a v = elim (Bool-cases (any (λ (b : Account). b.id == a.id) v.accounts)) [
  | inl e ↦ rw (e, join) refl
  | inr e ↦ rw (e, join) refl
]

module _ (hash : Bytes → Bytes) (generate_code : Bytes → ℕ → Option Bytes) where
  perform-IsSpent :
      (sha256 : Bytes) (e : Event) (v : Vault)
      → IsSpent sha256 v.rows
      → IsSpent sha256 (perform hash generate_code e v).rows
  unfolding perform verify_totp set_totp_secret
  perform-IsSpent sha256 (generates user by draws) v p =
      settled_lem (λ (u : Vault). IsSpent sha256 u.rows) _ v _ p
        (λ r h.
          let (rows, stored, done) = generate_recovery_codes-ok hash user by draws v r h in
          subst (λ (x : Vault × List Bytes). IsSpent sha256 x.0.rows) done
            (store-IsSpent sha256 user by _ v.rows rows stored p))
  perform-IsSpent sha256 (recovers email typed password_hash clear) v p =
      settled_lem (λ (u : Vault). IsSpent sha256 u.rows) _ v _ p
        (λ r h.
          let (user, _, done) = use_recovery_code-ok hash email typed password_hash clear v r h in
          subst (λ (u : Vault). IsSpent sha256 u.rows) done
            (any-map-consume sha256 _ v.rows ∙ p.0, consume-usable sha256 _ v.rows p.1))
  perform-IsSpent sha256 (verifies user secret code now) v p =
      settled_lem (λ (u : Vault). IsSpent sha256 u.rows) _ v _ p
        (λ v' h.
          let (step, _, written) = verify_totp-ok generate_code user secret code now v v' h in
          subst (IsSpent sha256) (rows-record_step user step v v' written) p)
  perform-IsSpent sha256 (sets_secret user secret) v p = p
  perform-IsSpent sha256 (joins a) v p = subst (IsSpent sha256) (sym (rows-join a v)) p
  perform-IsSpent sha256 (edits user email password_hash disabled) v p = p

  perform_all-IsSpent :
      (sha256 : Bytes) (es : List Event) (v : Vault)
      → IsSpent sha256 v.rows
      → IsSpent sha256 (perform_all hash generate_code es v).rows
  unfolding perform_all
  perform_all-IsSpent sha256 [] v p = p
  perform_all-IsSpent sha256 (e ∷ es) v p =
      perform_all-IsSpent sha256 es (perform hash generate_code e v) (perform-IsSpent sha256 e v p)

  use_recovery_code-spent :
      (email typed password_hash : Bytes) (clear : Bool) (v : Vault)
      → IsSpent (hash (normalize_recovery_code typed)) v.rows
      → use_recovery_code hash email typed password_hash clear v ≡ err recovery_invalid
  unfolding use_recovery_code
  use_recovery_code-spent email typed password_hash clear v (_, u) =
      elim (Bool-cases
        (is_empty email || is_empty (normalize_recovery_code typed) || is_empty password_hash)) [
          | inl e ↦ rw (e) refl
          | inr e ↦ rw (e, find_code-spent (hash (normalize_recovery_code typed)) v.rows u) refl
        ]

  -- A recovery code is used once: behind a use that succeeds, after any sequence of new sets, uses,
  -- verifications, enrolments, new accounts and other writes, each handled alone, every use of what is
  -- read as the same code is refused as invalid, whatever address is named.
  pub use_recovery_code-perform_all :
      (email typed password_hash : Bytes) (clear : Bool) (v : Vault) (r : Vault × ℕ)
      (es : List Event) (email' typed' password_hash' : Bytes) (clear' : Bool)
      → use_recovery_code hash email typed password_hash clear v ≡ ok r
      → normalize_recovery_code typed' ≡ normalize_recovery_code typed
      → use_recovery_code hash email' typed' password_hash' clear'
          (perform_all hash generate_code es r.0)
        ≡ err recovery_invalid
  use_recovery_code-perform_all email typed password_hash clear v r es email' typed' password_hash'
        clear' h same =
      let (user, found, done) = use_recovery_code-ok hash email typed password_hash clear v r h in
      let sha256 = hash (normalize_recovery_code typed) in
      let spent : IsSpent sha256 r.0.rows =
        subst (λ (u : Vault). IsSpent sha256 u.rows) done
          (
            any-map-consume sha256 sha256 v.rows ∙ find_code-known sha256 v.rows user found,
            consumed sha256 v.rows,
          ) in
      use_recovery_code-spent email' typed' password_hash' clear' _ (
        subst (λ (x : Bytes). IsSpent (hash x) (perform_all hash generate_code es r.0).rows)
          (sym same) (perform_all-IsSpent sha256 es r.0 spent))
