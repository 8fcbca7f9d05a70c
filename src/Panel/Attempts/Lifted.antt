-- ===== src/Panel/Attempts/Lifted.antt =====
-- The owner's lift of a lock, and the budget of guesses at one account over every sequence of events
-- at the door.
use crucible_analytic.Prelude.{
  ℕ, ◌+◌, ◌*◌, ◌≤◌, ◌≡◌, refl, ap, ◌∙◌, sym, true, false, not, ◌&&◌, ◌||◌, List, [], ◌∷◌, ◌++◌,
  Option, none, some, Bytes, keep_if, arith, ltb, ◌==◌, Bool-cases, inl, inr,
}
use crucible_analytic.Prelude.Text.{bytes_eq, bytes_eq_sound}
use crucible_analytic.Panel.Roles.{Principal}
use crucible_analytic.Panel.Members.{Member, User, live_access}
use crucible_analytic.Panel.Attempts.{
  Lift, login_throttle_window, max_failures_per_email, account_failure, account_failures,
  account_locked, lifted_within_window, lift_lock, may_lift, find_account, unlock_login,
}
use crucible_analytic.Panel.Attempts.Guesses.{
  Door, Event, ticks, guesses_at, passes_password, signs_in, purges, lifts_lock, lifted, happen,
  happen_all, recent_guesses, forgotten, IsDoor, failures-later, guesses_gone,
}
use crucible_analytic.Panel.Attempts.Budget.{
  lifted_failures, guess-IsDoor, pass-IsDoor, sign_in-IsDoor, purge-IsDoor, tick-IsDoor,
}

lifted-later :
    (now t : ℕ) (e : Bytes) (ls : List Lift)
    → now ≤ t
    → lifted_within_window now e ls ≡ false
    → lifted_within_window t e ls ≡ false
unfolding lifted_within_window
lifted-later now t e [] h n = refl
lifted-later now t e (l ∷ ls) h n = ground (arith, n, lifted-later now t e ls h)

lifted-append :
    (t : ℕ) (e : Bytes) (ls : List Lift) (l : Lift)
    → lifted_within_window t e (ls ++ l ∷ []) ≡ (
        lifted_within_window t e ls
        || (bytes_eq l.target e && ltb t (l.time + login_throttle_window)))
unfolding lifted_within_window
lifted-append t e [] l = ground arith
lifted-append t e (k ∷ ls) l = ground (arith, lifted-append t e ls l)

-- A lift is of one account, and a window apart from the lift before it.
lifted-same :
    (now : ℕ) (e email : Bytes) (ls : List Lift)
    → lifted_within_window now email ls ≡ false
    → bytes_eq email e ≡ true
    → lifted_within_window now e ls ≡ false
lifted-same now e email ls n h =
    sym (ap (λ (x : Bytes). lifted_within_window now x ls) (bytes_eq_sound email e h)) ∙ n

relieved-IsDoor :
    (e : Bytes) (d : Door) (email : Bytes)
    → IsDoor e d
    → lifted_within_window d.clock email d.lifts ≡ false
    → IsDoor e (record d {
      attempts = keep_if (λ a. not (account_failure d.clock email a)) d.attempts;
      lifts = d.lifts ++ (record { target = email; time = d.clock }) ∷ [];
    })
unfolding forgotten
relieved-IsDoor e d email v n = record {
  covers = λ t h.
      let same = lifted-same d.clock e email d.lifts n in
      ground (
        arith,
        v.covers t h,
        v.few,
        failures-later d.clock t e d.attempts h,
        lifted_failures d.clock t e email d.attempts h,
        same,
        lifted-later d.clock t e d.lifts h,
        lifted-append t e d.lifts (record { target = email; time = d.clock }),
        guesses_gone d.clock t d.guesses v.past,
      );
  few = ground (arith, v.few, lifted_failures d.clock d.clock e email d.attempts);
  past = v.past;
}

lift_lock-IsDoor :
    (e : Bytes) (d : Door) (u : Option User)
    → IsDoor e d
    → IsDoor e (lifted d (lift_lock d.clock d.attempts d.lifts u))
unfolding lifted lift_lock
lift_lock-IsDoor e d none v = v
lift_lock-IsDoor e d (some u) v = elim (Bool-cases (account_locked d.clock u.email d.attempts)) [
  | inr free ↦ rw (free) v
  | inl held ↦ elim (Bool-cases (lifted_within_window d.clock u.email d.lifts)) [
    | inl early ↦ rw (held, early) v
    | inr late ↦ rw (held, late) (relieved-IsDoor e d u.email v late)
  ]
]

unlock-IsDoor :
    (e : Bytes) (d : Door) (us : List User) (ms : List Member) (site : Bytes) (actor : Principal)
    (uid : ℕ)
    → IsDoor e d
    → IsDoor e (lifted d (unlock_login d.clock us ms site actor uid d.attempts d.lifts))
unfolding lifted unlock_login
unlock-IsDoor e d us ms site actor uid v = elim (Bool-cases (actor.user_id == uid)) [
  | inl self ↦ rw (self) v
  | inr other ↦ elim (Bool-cases (may_lift (live_access d.clock us ms actor.user_id site))) [
    | inr barred ↦ rw (other, barred) v
    | inl owner ↦ rw (other, owner) (lift_lock-IsDoor e d (find_account d.clock site uid us ms) v)
  ]
]

happen-IsDoor : (e : Bytes) (d : Door) (v : Event) → IsDoor e d → IsDoor e (happen e d v)
unfolding happen
happen-IsDoor e d (ticks n) i = tick-IsDoor e d n i
happen-IsDoor e d (guesses_at email ip) i = guess-IsDoor e d email ip i
happen-IsDoor e d (passes_password email ip) i = pass-IsDoor e d email ip i
happen-IsDoor e d (signs_in email) i = sign_in-IsDoor e d email i
happen-IsDoor e d purges i = purge-IsDoor e d i
happen-IsDoor e d (lifts_lock us ms site actor uid) i = unlock-IsDoor e d us ms site actor uid i

happen_all-IsDoor :
    (e : Bytes) (d : Door) (vs : List Event) → IsDoor e d → IsDoor e (happen_all e d vs)
unfolding happen_all
happen_all-IsDoor e d [] i = i
happen_all-IsDoor e d (v ∷ vs) i = happen_all-IsDoor e (happen e d v) vs (happen-IsDoor e d v i)

-- A door whose tables are empty.
abbrev pub fresh_door : ℕ → Door
fresh_door now = record { clock = now; attempts = []; lifts = []; guesses = [] }

fresh-IsDoor : (e : Bytes) (now : ℕ) → IsDoor e (fresh_door now)
unfolding recent_guesses account_failures
fresh-IsDoor e now = record { covers = λ t h. ground arith; few = omega arith; past = tt }

-- For every account and every sequence of wrong guesses, right passwords, completed sign-ins, purges,
-- lifts and waiting, each handled alone, that starts from empty tables: of the wrong guesses at the
-- account that were answered since a sign-in to it was last completed, no more than ten are younger
-- than the throttle's window of fifteen minutes, twice the five that lock the account.
pub recent_guesses-happen_all :
    (e : Bytes) (now : ℕ) (vs : List Event)
    → recent_guesses
        (happen_all e (fresh_door now) vs).clock
        (happen_all e (fresh_door now) vs).guesses
      ≤ 2 * max_failures_per_email
unfolding forgotten
recent_guesses-happen_all e now vs =
    let door = happen_all-IsDoor e (fresh_door now) vs (fresh-IsDoor e now) in
    let d = happen_all e (fresh_door now) vs in
    ground (arith, door.covers d.clock (omega arith), door.few)
