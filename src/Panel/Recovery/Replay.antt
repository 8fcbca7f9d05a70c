-- ===== src/Panel/Recovery/Replay.antt =====
-- A code of the second factor is accepted once.
use mathlib.Core.Option.{some-injective}
use crucible_analytic.Prelude.{
  ℕ, ◌+◌, ◌≤◌, ◌<◌, ◌≡◌, ◌≢◌, refl, sym, ap, subst, ◌∙◌, Bool, false, ◌||◌, List, [], ◌∷◌, map,
  Option, some, Bytes, any, All, arith, ltb, ok, err, Bool-cases, Option-cases, inl, inr, ◌⊎◌,
}
use crucible_analytic.Prelude.Text.{bytes_eq, bytes_eq_sound, is_empty, trim_space}
use crucible_analytic.Panel.Recovery.{
  Vault, totp_invalid, totp_replayed, totp_skew, step_of, tried_times, try_times, check_totp,
  is_behind, raise, record_step, verify_totp, set_totp_secret, reset,
}
use crucible_analytic.Panel.Recovery.Outcomes.{
  use_recovery_code-ok, generate_recovery_codes-ok, record_step-ok, verify_totp-ok,
}
use crucible_analytic.Panel.Recovery.Steps.{
  HasReached, HasReached-map, raise-IsForward, reset-IsForward, edit-IsForward, is_behind_mono,
  join-HasReached, set-IsForward, record_step-HasReached,
}
use crucible_analytic.Panel.Recovery.Office.{
  Event, generates, recovers, verifies, sets_secret, joins, edits, settled_lem, perform,
  perform_all,
}

-- An event that does not clear the second factor of an account.
abbrev pub IsKeeping : Event → Type 0
IsKeeping (recovers email typed password_hash clear) = clear ≡ false
IsKeeping _ = Unit

module _ (generate_code : Bytes → ℕ → Option Bytes) where
  verify_totp-cases :
      (uid : ℕ) (secret typed : Bytes) (now : ℕ) (v : Vault)
      → ((verify_totp generate_code uid secret typed now v ≡ err totp_invalid)
          ⊎ (verify_totp generate_code uid secret typed now v ≡ err totp_replayed))
        ⊎ ((v' : Vault) × (verify_totp generate_code uid secret typed now v ≡ ok v'))
  unfolding verify_totp record_step
  verify_totp-cases uid secret typed now v =
      elim (Option-cases (check_totp generate_code secret typed now)) [
        | inl n ↦ inl (inl (rw (n, verify_totp) refl))
        | inr (step, matched) ↦ elim (Bool-cases (any (is_behind uid step) v.accounts)) [
          | inl new ↦ inr (
            record v { accounts = map (raise uid step) v.accounts },
            rw (matched, new, verify_totp, record_step) refl,
          )
          | inr past ↦ inl (inr (rw (matched, past, verify_totp, record_step) refl))
        ]
      ]

  try_times-some :
      (secret code : Bytes) (bound : ℕ) (times : List ℕ) (step : ℕ)
      → All (λ (at : ℕ). at ≤ bound) times
      → try_times generate_code secret code times ≡ some step
      → (at : ℕ) × (at ≤ bound) × (generate_code secret at ≡ some code) × (step_of at ≡ step)
  unfolding try_times
  try_times-some secret code bound [] step l h = cc
  try_times-some secret code bound (at ∷ times) step l h =
      elim (Option-cases (generate_code secret at)) [
        | inl n ↦ let no = rw (n, try_times) at h in cc
        | inr (want, made) ↦ elim (Bool-cases (bytes_eq want code)) [
          | inl same ↦ (
            at,
            l.0,
            made ∙ ap (λ (x : Bytes). some x) (bytes_eq_sound want code same),
            some-injective _ step (rw (made, same, try_times) at h),
          )
          | inr away ↦
              try_times-some secret code bound times step l.1 (rw (made, away, try_times) at h)
        ]
      ]

  check_totp-some :
      (secret typed : Bytes) (now step : ℕ)
      → check_totp generate_code secret typed now ≡ some step
      → (at : ℕ) × (at ≤ now + totp_skew)
        × (generate_code secret at ≡ some (trim_space typed))
        × (step_of at ≡ step)
  unfolding check_totp
  check_totp-some secret typed now step h =
      elim (Bool-cases (is_empty secret || is_empty (trim_space typed))) [
        | inl e ↦ let no = rw (e, check_totp) at h in cc
        | inr e ↦
            try_times-some secret (trim_space typed) (now + totp_skew) (tried_times now) step
              (omega arith, (omega arith, (omega arith, tt))) (rw (e, check_totp) at h)
      ]

module _ (hash : Bytes → Bytes) (generate_code : Bytes → ℕ → Option Bytes) where
  perform-HasReached :
      (uid step : ℕ) (e : Event) (v : Vault)
      → IsKeeping e
      → HasReached uid step v.accounts
      → HasReached uid step (perform hash generate_code e v).accounts
  unfolding perform verify_totp set_totp_secret
  perform-HasReached uid step (generates user by draws) v k p =
      settled_lem (λ (u : Vault). HasReached uid step u.accounts) _ v _ p
        (λ r h.
          let (rows, _, done) = generate_recovery_codes-ok hash user by draws v r h in
          subst (λ (x : Vault × List Bytes). HasReached uid step x.0.accounts) done p)
  perform-HasReached uid step (recovers email typed password_hash clear) v k p =
      settled_lem (λ (u : Vault). HasReached uid step u.accounts) _ v _ p
        (λ r h.
          let (user, _, done) = use_recovery_code-ok hash email typed password_hash clear v r h in
          subst (λ (u : Vault). HasReached uid step u.accounts) done
            (subst (λ (c : Bool). HasReached uid step (map (reset user password_hash c) v.accounts))
              (sym k)
              (HasReached-map uid step _ v.accounts (reset-IsForward user password_hash) p)))
  perform-HasReached uid step (verifies user secret code now) v k p =
      settled_lem (λ (u : Vault). HasReached uid step u.accounts) _ v _ p
        (λ v' h.
          let (new, _, written) = verify_totp-ok generate_code user secret code now v v' h in
          subst (λ (u : Vault). HasReached uid step u.accounts)
            (record_step-ok user new v v' written).1
            (HasReached-map uid step _ v.accounts (raise-IsForward user new) p))
  perform-HasReached uid step (sets_secret user secret) v k p =
      HasReached-map uid step _ v.accounts (set-IsForward user secret) p
  perform-HasReached uid step (joins a) v k p = join-HasReached uid step a v p
  perform-HasReached uid step (edits user email password_hash disabled) v k p =
      HasReached-map uid step _ v.accounts (edit-IsForward user email password_hash disabled) p

  perform_all-HasReached :
      (uid step : ℕ) (es : List Event) (v : Vault)
      → All IsKeeping es
      → HasReached uid step v.accounts
      → HasReached uid step (perform_all hash generate_code es v).accounts
  unfolding perform_all
  perform_all-HasReached uid step [] v k p = p
  perform_all-HasReached uid step (e ∷ es) v k p =
      perform_all-HasReached uid step es (perform hash generate_code e v) k.1
        (perform-HasReached uid step e v k.0 p)

  verify_totp-again :
      (uid : ℕ) (secret another typed : Bytes) (first now step : ℕ) (v v' : Vault) (es : List Event)
      → check_totp generate_code secret typed first ≡ some step
      → verify_totp generate_code uid secret typed first v ≡ ok v'
      → All IsKeeping es
      → ((at : ℕ)
          → at ≤ now + totp_skew
          → step < step_of at
          → generate_code another at ≢ some (trim_space typed))
      → (v'' : Vault)
      → verify_totp generate_code uid another typed now (perform_all hash generate_code es v')
        ≢ ok v''
  verify_totp-again uid secret another typed first now step v v' es c h k others v'' accepted =
      let (matched, c', written) = verify_totp-ok generate_code uid secret typed first v v' h in
      let same : matched ≡ step = some-injective matched step (sym c' ∙ c) in
      let reached = perform_all-HasReached uid step es v' k (
        subst (λ (s : ℕ). HasReached uid s v'.accounts) same
          (record_step-HasReached uid matched v v' written)) in
      let (late, c'', written') =
        verify_totp-ok generate_code uid another typed now _ v'' accepted in
      let (at, soon, made, of) = check_totp-some generate_code another typed now late c'' in
      let behind = (record_step-ok uid late _ v'' written').0 in
      elim (Bool-cases (ltb step late)) [
        | inl later ↦ others at soon (ground (arith, later, of)) made
        | inr past ↦
            let none_behind = is_behind_mono uid late step _ (ground (arith, past)) reached.1 in cc
      ]

  -- A code of the second factor is accepted once: behind a verification that accepts a code with the
  -- step of the time `first`, and any events that do not clear the second factor of an account, each
  -- handled alone, the same text, for whatever secret, is refused at a time `now`, as invalid or as
  -- used already, if it is a code of the secret for no time of a later step up to thirty seconds
  -- behind `now`.
  pub verify_totp-perform_all :
      (uid : ℕ) (secret another typed : Bytes) (first now step : ℕ) (v v' : Vault) (es : List Event)
      → check_totp generate_code secret typed first ≡ some step
      → verify_totp generate_code uid secret typed first v ≡ ok v'
      → All IsKeeping es
      → ((at : ℕ)
          → at ≤ now + totp_skew
          → step < step_of at
          → generate_code another at ≢ some (trim_space typed))
      → (verify_totp generate_code uid another typed now (perform_all hash generate_code es v')
          ≡ err totp_invalid)
        ⊎ (verify_totp generate_code uid another typed now (perform_all hash generate_code es v')
            ≡ err totp_replayed)
  verify_totp-perform_all uid secret another typed first now step v v' es c h k others =
      let end = perform_all hash generate_code es v' in
      elim (verify_totp-cases generate_code uid another typed now end) [
        | inl refused ↦ refused
        | inr (v'', accepted) ↦ absurd (
            verify_totp-again uid secret another typed first now step v v' es c h k others v''
              accepted)
      ]
