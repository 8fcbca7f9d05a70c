-- ===== src/Panel/Attempts/Guesses.antt =====
-- How many guesses at one account the sign-in form answers.
use crucible_analytic.Prelude.{
  ℕ, ◌+◌, ◌≤◌, ◌≡◌, refl, true, false, List, [], ◌∷◌, ◌++◌, Option, Bytes, All, count_if, arith,
  ltb, if◌then◌else◌, Result, ok, err,
}
use crucible_analytic.Prelude.Text.{bytes_eq}
use crucible_analytic.Panel.Roles.{Principal}
use crucible_analytic.Panel.Members.{Member, User}
use crucible_analytic.Panel.Attempts.{
  Attempt, Lift, login_throttle_window, max_failures_per_email, login_key, account_failure,
  account_failures, lifted_within_window, check_login_throttle, record_login_attempt,
  clear_login_failures, purge_old_login_attempts, unlock_login, UnlockError,
}

-- The tables, and the times at which a wrong guess at the account was answered since a sign-in to
-- it was last completed.
pub record Door : Type 0 where
  pub clock : ℕ
  pub attempts : List Attempt
  pub lifts : List Lift
  pub guesses : List ℕ

pub data Event : Type 0 where
  ticks : ℕ → Event
  guesses_at : Bytes → Option ℕ → Event  -- a wrong password or code
  passes_password : Bytes → Option ℕ → Event
  signs_in : Bytes → Event  -- a completed sign-in
  purges : Event
  lifts_lock : List User → List Member → Bytes → Principal → ℕ → Event

-- What the sign-in forms do with a wrong guess, the throttle before it.
unfoldable pub guess : Bytes → Door → Bytes → Option ℕ → Door
guess e d email ip =
    if (check_login_throttle d.clock email ip d.attempts).blocked then d else record d {
      attempts = record_login_attempt d.clock email ip false d.attempts;
      guesses = (if bytes_eq (login_key email) e then d.guesses ++ d.clock ∷ [] else d.guesses);
    }

unfoldable pub sign_in : Bytes → Door → Bytes → Door
sign_in e d email = record d {
  attempts = clear_login_failures email d.attempts;
  guesses = (if bytes_eq (login_key email) e then [] else d.guesses);
}

unfoldable pub lifted : Door → Result UnlockError (List Attempt × (List Lift × ℕ)) → Door
lifted d (err x) = d
lifted d (ok (as', (ls, n))) = record d { attempts = as'; lifts = ls }

unfoldable pub happen : Bytes → Door → Event → Door
happen e d (ticks n) = record d { clock = d.clock + n }
happen e d (guesses_at email ip) = guess e d email ip
happen e d (passes_password email ip) = record d {
  attempts = record_login_attempt d.clock email ip true d.attempts;
}
happen e d (signs_in email) = sign_in e d email
happen e d purges = record d { attempts = purge_old_login_attempts d.clock d.attempts }
happen e d (lifts_lock us ms site actor uid) =
    lifted d (unlock_login d.clock us ms site actor uid d.attempts d.lifts)

unfoldable pub happen_all : Bytes → Door → List Event → Door
happen_all e d [] = d
happen_all e d (v ∷ vs) = happen_all e (happen e d v) vs

-- The guesses in the window before the time.
unfoldable pub recent_guesses : ℕ → List ℕ → ℕ
recent_guesses t gs = count_if (λ at. ltb t (at + login_throttle_window)) gs

-- What a lift inside the window may have forgotten.
unfoldable pub forgotten : ℕ → Bytes → List Lift → ℕ
forgotten t e ls = if lifted_within_window t e ls then max_failures_per_email else 0

-- The guesses are those that the table counts, and those that one lift has forgotten.
abbrev pub Covers : Bytes → Door → Type 0
Covers e d =
    (t : ℕ)
    → d.clock ≤ t
    → recent_guesses t d.guesses ≤ account_failures t e d.attempts + forgotten t e d.lifts

pub record IsDoor (e : Bytes) (d : Door) : Type 0 where
  pub covers : Covers e d
  pub few : account_failures d.clock e d.attempts ≤ max_failures_per_email
  pub past : All (λ at. at ≤ d.clock) d.guesses

pub failures-later :
    (t u : ℕ) (e : Bytes) (as' : List Attempt)
    → t ≤ u
    → account_failures u e as' ≤ account_failures t e as'
unfolding account_failures account_failure
failures-later t u e [] h = omega arith
failures-later t u e (a ∷ as') h = ground (arith, failures-later t u e as' h)

pub failures-append :
    (t : ℕ) (e : Bytes) (as' : List Attempt) (a : Attempt)
    → account_failures t e (as' ++ a ∷ [])
      ≡ account_failures t e as' + (if account_failure t e a then 1 else 0)
unfolding account_failures
failures-append t e [] a = ground arith
failures-append t e (b ∷ as') a = ground (arith, failures-append t e as' a)

pub guesses-append :
    (t : ℕ) (gs : List ℕ) (at : ℕ)
    → recent_guesses t (gs ++ at ∷ [])
      ≡ recent_guesses t gs + (if ltb t (at + login_throttle_window) then 1 else 0)
unfolding recent_guesses
guesses-append t [] at = ground arith
guesses-append t (g ∷ gs) at = ground (arith, guesses-append t gs at)

-- Behind the window nothing is left of what is past.
pub guesses_gone :
    (now t : ℕ) (gs : List ℕ)
    → All (λ at. at ≤ now) gs
    → now + login_throttle_window ≤ t
    → recent_guesses t gs ≡ 0
unfolding recent_guesses
guesses_gone now t [] a h = refl
guesses_gone now t (g ∷ gs) a h = ground (arith, a.0, guesses_gone now t gs a.1 h)

pub past-later : (now n : ℕ) (gs : List ℕ) → All (λ at. at ≤ now) gs → All (λ at. at ≤ now + n) gs
past-later now n [] a = tt
past-later now n (g ∷ gs) a = (omega (arith, a.0), past-later now n gs a.1)
