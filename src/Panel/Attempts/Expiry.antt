-- ===== src/Panel/Attempts/Expiry.antt =====
-- When the lock of an account lifts by itself.
use crucible_analytic.Prelude.{
  ℕ, suc, zero, ◌+◌, ◌≤◌, ◌≡◌, refl, sym, ap, ◌∙◌, Bool, false, List, [], ◌∷◌, Option, none, some,
  Bytes, All, get_elem?, arith, ltb, leb, Bool-cases, inl, inr,
}
use crucible_analytic.Panel.Attempts.{
  Attempt, login_throttle_window, account_failure, account_failures, account_locked, insert_newest,
  newest_first, failure_times, lifts_at,
}
use crucible_analytic.Panel.Attempts.Guesses.{recent_guesses, guesses_gone}

-- Before a time that may be NULL.
unfoldable pub is_before : ℕ → Option ℕ → Bool
is_before t none = false
is_before t (some at) = ltb t at

abbrev in_window : ℕ → Option ℕ → Bool
in_window t none = false
in_window t (some at) = ltb t (at + login_throttle_window)

failures-times :
    (now t : ℕ) (e : Bytes) (as' : List Attempt)
    → now ≤ t
    → account_failures t e as' ≡ recent_guesses t (failure_times now e as')
unfolding account_failures account_failure failure_times recent_guesses
failures-times now t e [] h = refl
failures-times now t e (a ∷ as') h = ground (arith, failures-times now t e as' h)

recent-insert_newest :
    (t x : ℕ) (xs : List ℕ) → recent_guesses t (insert_newest x xs) ≡ recent_guesses t (x ∷ xs)
unfolding recent_guesses insert_newest
recent-insert_newest t x [] = refl
recent-insert_newest t x (y ∷ ys) = ground (arith, recent-insert_newest t x ys)

recent-newest_first :
    (t : ℕ) (xs : List ℕ) → recent_guesses t (newest_first xs) ≡ recent_guesses t xs
unfolding recent_guesses newest_first
recent-newest_first t [] = refl
recent-newest_first t (x ∷ xs) =
    ground (arith, recent-insert_newest t x (newest_first xs), recent-newest_first t xs)

abbrev IsNewestFirst : List ℕ → Type 0
IsNewestFirst [] = Unit
IsNewestFirst (x ∷ xs) = All (λ y. y ≤ x) xs × IsNewestFirst xs

below-insert_newest :
    (m x : ℕ) (xs : List ℕ) → x ≤ m → All (λ y. y ≤ m) xs → All (λ y. y ≤ m) (insert_newest x xs)
unfolding insert_newest
below-insert_newest m x [] h a = (h, tt)
below-insert_newest m x (y ∷ ys) h a = elim (Bool-cases (leb y x)) [
  | inl e ↦ rw (e) (h, a)
  | inr e ↦ rw (e) (a.0, below-insert_newest m x ys h a.1)
]

below-later : (m n : ℕ) (xs : List ℕ) → m ≤ n → All (λ y. y ≤ m) xs → All (λ y. y ≤ n) xs
below-later m n [] h a = tt
below-later m n (x ∷ xs) h a = (omega (arith, a.0, h), below-later m n xs h a.1)

insert_newest-IsNewestFirst :
    (x : ℕ) (xs : List ℕ) → IsNewestFirst xs → IsNewestFirst (insert_newest x xs)
unfolding insert_newest
insert_newest-IsNewestFirst x [] s = (tt, tt)
insert_newest-IsNewestFirst x (y ∷ ys) s = elim (Bool-cases (leb y x)) [
  | inl e ↦ rw (e) ((ground (arith, e), below-later y x ys (ground (arith, e)) s.0), s)
  | inr e ↦
      rw (e)
        (below-insert_newest y x ys (ground (arith, e)) s.0, insert_newest-IsNewestFirst x ys s.1)
]

newest_first-IsNewestFirst : (xs : List ℕ) → IsNewestFirst (newest_first xs)
unfolding newest_first
newest_first-IsNewestFirst [] = tt
newest_first-IsNewestFirst (x ∷ xs) =
    insert_newest-IsNewestFirst x (newest_first xs) (newest_first-IsNewestFirst xs)

get-outside :
    (t x : ℕ) (xs : List ℕ) (i : ℕ)
    → All (λ y. y ≤ x) xs
    → x + login_throttle_window ≤ t
    → in_window t (get_elem? xs i) ≡ false
get-outside t x [] i a h = refl
get-outside t x (y ∷ ys) zero a h = ground (arith, a.0)
get-outside t x (y ∷ ys) (suc i) a h = get-outside t x ys i a.1 h

-- So many are inside the window if the one at that place is.
recent-get :
    (t : ℕ) (xs : List ℕ) (i : ℕ)
    → IsNewestFirst xs
    → leb (suc i) (recent_guesses t xs) ≡ in_window t (get_elem? xs i)
unfolding recent_guesses
recent-get t [] i s = ground arith
recent-get t (x ∷ xs) zero s = ground (arith, guesses_gone x t xs s.0)
recent-get t (x ∷ xs) (suc i) s =
    ground (arith, recent-get t xs i s.1, guesses_gone x t xs s.0, get-outside t x xs i s.0)

window_end :
    (t : ℕ) (at : Option ℕ)
    → in_window t at
      ≡ is_before t (elim at [ none ↦ none | some x ↦ some (x + login_throttle_window) ])
unfolding is_before
window_end t none = refl
window_end t (some x) = refl

-- At whatever time from now on, with no attempt since: the account is locked if and only if
-- accountLock gives a time at which the lock lifts, and that time has not come.
pub account_locked-lifts_at :
    (now t : ℕ) (email : Bytes) (as' : List Attempt)
    → now ≤ t
    → account_locked t email as' ≡ is_before t (lifts_at now email as')
unfolding account_locked lifts_at
account_locked-lifts_at now t email as' h =
    let times = failure_times now email as' in
    let sorted = newest_first times in
    ap (leb 5) (failures-times now t email as' h ∙ sym (recent-newest_first t times))
    ∙ recent-get t sorted 4 (newest_first-IsNewestFirst times)
    ∙ window_end t (get_elem? sorted 4)
