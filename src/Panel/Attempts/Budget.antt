-- ===== src/Panel/Attempts/Budget.antt =====
-- The budget of guesses at one account, one event at a time.
use crucible_analytic.Prelude.{
  ℕ, ◌+◌, ◌≤◌, ◌<◌, ◌≡◌, refl, ap, ◌∙◌, Bool, true, false, not, ◌&&◌, List, [], ◌∷◌, ◌++◌, Option,
  Bytes, All, All-append, keep_if, arith, ltb, if◌then◌else◌, Bool-cases, inl, inr,
}
use crucible_analytic.Prelude.Text.{bytes_eq, bytes_eq_sound}
use crucible_analytic.Panel.Members.Kept.{bytes_eq_sym}
use crucible_analytic.Panel.Attempts.{
  Attempt, login_throttle_window, max_failures_per_email, login_key, account_failure,
  account_failures, account_locked, check_login_throttle, record_login_attempt,
  clear_login_failures, purge_old_login_attempts,
}
use crucible_analytic.Panel.Attempts.Guesses.{
  Door, guess, sign_in, recent_guesses, IsDoor, failures-later, failures-append, guesses-append,
  past-later,
}

-- A blocked account is not guessed at.
open_budget :
    (e email : Bytes) (ip : Option ℕ) (d : Door)
    → (check_login_throttle d.clock email ip d.attempts).blocked ≡ false
    → bytes_eq (login_key email) e ≡ true
    → account_failures d.clock e d.attempts < max_failures_per_email
unfolding check_login_throttle account_locked
open_budget e email ip d b h =
    let same = bytes_eq_sound (login_key email) e h in
    let count = ap (λ (x : Bytes). account_failures d.clock x d.attempts) same in
    ground (arith, b, count)

-- The row of a failed attempt counts for its own address.
new_failure :
    (t now : ℕ) (e email : Bytes) (ip : Option ℕ)
    → account_failure t e (record { email = email; ip = ip; success = false; at = now })
      ≡ (bytes_eq email e && ltb t (now + login_throttle_window))
unfolding account_failure
new_failure t now e email ip = ground arith

past-grown :
    (b : Bool) (now : ℕ) (gs : List ℕ)
    → All (λ at. at ≤ now) gs
    → All (λ at. at ≤ now) (if b then gs ++ now ∷ [] else gs)
past-grown true now gs a = All-append (λ at. at ≤ now) gs (now ∷ []) a (omega arith, tt)
past-grown false now gs a = a

guesses-grown :
    (b : Bool) (t now : ℕ) (gs : List ℕ)
    → recent_guesses t (if b then gs ++ now ∷ [] else gs)
      ≡ recent_guesses t gs + (if b && ltb t (now + login_throttle_window) then 1 else 0)
guesses-grown true t now gs = guesses-append t gs now
guesses-grown false t now gs = omega arith

-- The row of a sign-in.
abbrev entry : ℕ → Bytes → Option ℕ → Bool → Attempt
entry now email ip success = record {
  email = login_key email;
  ip = ip;
  success = success;
  at = now;
}

-- A wrong guess that is answered.
answered-IsDoor :
    (e : Bytes) (d : Door) (email : Bytes) (ip : Option ℕ)
    → IsDoor e d
    → (check_login_throttle d.clock email ip d.attempts).blocked ≡ false
    → IsDoor e (record d {
      attempts = record_login_attempt d.clock email ip false d.attempts;
      guesses = (if bytes_eq (login_key email) e then d.guesses ++ d.clock ∷ [] else d.guesses);
    })
unfolding record_login_attempt
answered-IsDoor e d email ip v b = record {
  covers = λ t h. ground (
    arith,
    v.covers t h,
    failures-append t e d.attempts (entry d.clock email ip false),
    new_failure t d.clock e (login_key email) ip,
    guesses-grown (bytes_eq (login_key email) e) t d.clock d.guesses,
  );
  few = ground (
    arith,
    v.few,
    open_budget e email ip d b,
    failures-append d.clock e d.attempts (entry d.clock email ip false),
    new_failure d.clock d.clock e (login_key email) ip,
  );
  past = past-grown (bytes_eq (login_key email) e) d.clock d.guesses v.past;
}

pub guess-IsDoor :
    (e : Bytes) (d : Door) (email : Bytes) (ip : Option ℕ)
    → IsDoor e d
    → IsDoor e (guess e d email ip)
unfolding guess
guess-IsDoor e d email ip v =
    elim (Bool-cases (check_login_throttle d.clock email ip d.attempts).blocked) [
      | inl shut ↦ rw (shut) v
      | inr open' ↦ rw (open') (answered-IsDoor e d email ip v open')
    ]

bytes_eq-shift : (a e k : Bytes) → bytes_eq a e ≡ true → bytes_eq a k ≡ bytes_eq k e
bytes_eq-shift a e k h = ap (λ (x : Bytes). bytes_eq x k) (bytes_eq_sound a e h) ∙ bytes_eq_sym e k

cleared_failures :
    (t : ℕ) (e email : Bytes) (as' : List Attempt)
    → account_failures t e (clear_login_failures email as')
      ≡ (if bytes_eq (login_key email) e then 0 else account_failures t e as')
unfolding account_failures account_failure clear_login_failures
cleared_failures t e email [] = ground arith
cleared_failures t e email (a ∷ as') =
    ground (arith, cleared_failures t e email as', bytes_eq-shift a.email e (login_key email))

purged_failures :
    (now t : ℕ) (e : Bytes) (as' : List Attempt)
    → now ≤ t
    → account_failures t e (purge_old_login_attempts now as') ≡ account_failures t e as'
unfolding account_failures account_failure purge_old_login_attempts
purged_failures now t e [] h = refl
purged_failures now t e (a ∷ as') h = ground (arith, purged_failures now t e as' h)

pub lifted_failures :
    (now t : ℕ) (e email : Bytes) (as' : List Attempt)
    → now ≤ t
    → account_failures t e (keep_if (λ a. not (account_failure now email a)) as')
      ≡ (if bytes_eq email e then 0 else account_failures t e as')
unfolding account_failures account_failure
lifted_failures now t e email [] h = ground arith
lifted_failures now t e email (a ∷ as') h =
    ground (arith, lifted_failures now t e email as' h, bytes_eq-shift a.email e email)

-- The row of a right password is no failure.
passed_failures :
    (t now : ℕ) (e email : Bytes) (ip : Option ℕ) (as' : List Attempt)
    → account_failures t e (record_login_attempt now email ip true as') ≡ account_failures t e as'
unfolding record_login_attempt account_failure
passed_failures t now e email ip as' =
    ground (arith, failures-append t e as' (entry now email ip true))

pub pass-IsDoor :
    (e : Bytes) (d : Door) (email : Bytes) (ip : Option ℕ)
    → IsDoor e d
    → IsDoor e (record d { attempts = record_login_attempt d.clock email ip true d.attempts })
pass-IsDoor e d email ip v = record {
  covers = λ t h. omega (arith, v.covers t h, passed_failures t d.clock e email ip d.attempts);
  few = omega (arith, v.few, passed_failures d.clock d.clock e email ip d.attempts);
  past = v.past;
}

past-cleared :
    (b : Bool) (now : ℕ) (gs : List ℕ)
    → All (λ at. at ≤ now) gs
    → All (λ at. at ≤ now) (if b then [] else gs)
past-cleared true now gs a = tt
past-cleared false now gs a = a

guesses-cleared :
    (b : Bool) (t : ℕ) (gs : List ℕ)
    → recent_guesses t (if b then [] else gs) ≡ (if b then 0 else recent_guesses t gs)
unfolding recent_guesses
guesses-cleared true t gs = refl
guesses-cleared false t gs = refl

pub sign_in-IsDoor :
    (e : Bytes) (d : Door) (email : Bytes) → IsDoor e d → IsDoor e (sign_in e d email)
unfolding sign_in
sign_in-IsDoor e d email v = record {
  covers = λ t h. ground (
    arith,
    v.covers t h,
    cleared_failures t e email d.attempts,
    guesses-cleared (bytes_eq (login_key email) e) t d.guesses,
  );
  few = ground (arith, v.few, cleared_failures d.clock e email d.attempts);
  past = past-cleared (bytes_eq (login_key email) e) d.clock d.guesses v.past;
}

pub purge-IsDoor :
    (e : Bytes) (d : Door)
    → IsDoor e d
    → IsDoor e (record d { attempts = purge_old_login_attempts d.clock d.attempts })
purge-IsDoor e d v = record {
  covers = λ t h. ground (arith, v.covers t h, purged_failures d.clock t e d.attempts h);
  few = ground (arith, v.few, purged_failures d.clock d.clock e d.attempts);
  past = v.past;
}

pub tick-IsDoor :
    (e : Bytes) (d : Door) (n : ℕ) → IsDoor e d → IsDoor e (record d { clock = d.clock + n })
tick-IsDoor e d n v = record {
  covers = λ t h. v.covers t (omega (arith, h));
  few = omega (arith, v.few, failures-later d.clock (d.clock + n) e d.attempts (omega arith));
  past = past-later d.clock n d.guesses v.past;
}
