-- ===== src/Limiter/Looks.antt =====
-- A look of a queued caller is no arrival.
use crucible_analytic.Prelude.{
  count_if-set, unit, ℕ, suc, zero, ◌+◌, ◌≤◌, ◌≡◌, refl, ap, Bool, true, false, List, [], ◌∷◌, some,
  count_if, get_elem?, arith, Option-cases, Bool-cases, inl, inr, replicate, length,
}
use crucible_analytic.Prelude.Int.{is_positive}
use crucible_analytic.Limiter.Rate.{counter_of, record_arrival, new_global_rate_counter}
use crucible_analytic.Limiter.Admit.{
  Caller, fresh, checking, Config, Limiter, System, Event, moves, configures, Input, advance,
  move_caller, step, run,
}
use crucible_analytic.Limiter.Slots.{start_system}

-- The arrival is still to be counted.
unfoldable pub is_arriving : Caller → Bool
is_arriving fresh = true
is_arriving (checking cfg arriving) = arriving
is_arriving _ = false

-- The counter is that of some arrivals, no more of them than callers that have arrived.
abbrev IsCounting : ℕ → ℕ → ℕ → Limiter → Caller → Type 0
IsCounting w m n l c =
    (ts : List ℕ) × (l.rate ≡ counter_of w ts) × (length ts + (m + unit (is_arriving c)) ≤ n)

advance-IsCounting :
    (w m n : ℕ) (input : Input) (l : Limiter) (c : Caller)
    → IsCounting w m n l c
    → let r = advance input l c in IsCounting w m n r.0 r.1
unfolding advance is_arriving counter_of
advance-IsCounting w m n input l (checking cfg true) (ts, e, le) =
    elim (Bool-cases (is_positive cfg.max_requests_per_second)) [
      | inl limited ↦
          rw (limited, advance)
            (input.now ∷ ts, ap (λ c. record_arrival c input.now) e, omega (arith, le))
      | inr unlimited ↦ rw (unlimited, advance) (ts, e, omega (arith, le))
    ]
advance-IsCounting w m n input l c (ts, e, le) = (ts, ground (arith, e), ground (arith, le))

-- What the rate counter stands for in a system.
abbrev IsBacked : ℕ → ℕ → System → Type 0
IsBacked w n s =
    (ts : List ℕ) × (s.limiter.rate ≡ counter_of w ts)
    × (length ts + count_if is_arriving s.callers ≤ n)

move_caller-IsBacked :
    (w n : ℕ) (s : System) (i : ℕ) (input : Input) (c : Caller)
    → get_elem? s.callers i ≡ some c
    → IsBacked w n s
    → IsBacked w n (move_caller s i input (some c))
unfolding move_caller
move_caller-IsBacked w n s i input c e (ts, backed, le) =
    let (m, now, later) = count_if-set is_arriving s.callers i c e in
    let r = advance input s.limiter c in
    let (ts', backed', le') =
      advance-IsCounting w m n input s.limiter c (ts, backed, omega (arith, le, now)) in
    (ts', backed', omega (arith, le', later r.1))

run-IsBacked : (w n : ℕ) (s : System) (es : List Event) → IsBacked w n s → IsBacked w n (run s es)
unfolding run step
run-IsBacked w n s [] v = v
run-IsBacked w n s (configures cfg ∷ es) v = run-IsBacked w n (step s (configures cfg)) es v
run-IsBacked w n s (moves i input ∷ es) v =
    run-IsBacked w n (step s (moves i input)) es (elim (Option-cases (get_elem? s.callers i)) [
      | inl e ↦ rw e v
      | inr (c, e) ↦ rw e (move_caller-IsBacked w n s i input c e v)
    ])

count_if-arriving : (n : ℕ) → count_if is_arriving (replicate n fresh) ≡ n
unfolding is_arriving
count_if-arriving zero = refl
count_if-arriving (suc n) = ap suc (count_if-arriving n)

counter_of-nil : (w : ℕ) → new_global_rate_counter w ≡ counter_of w []
unfolding counter_of
counter_of-nil w = refl

-- After any interleaving of `n` callers, the rate counter is that of some arrivals, and of at most
-- `n` of them, however often the callers in the queue have looked again.
rate-run_start :
    (cfg : Config) (w n : ℕ) (es : List Event)
    → (ts : List ℕ) × ((run (start_system cfg w n) es).limiter.rate ≡ counter_of w ts)
      × (length ts ≤ n)
rate-run_start cfg w n es =
    let start : IsBacked w n (start_system cfg w n) =
      ([], counter_of-nil w, omega (arith, count_if-arriving n)) in
    let (ts, backed, le) = run-IsBacked w n (start_system cfg w n) es start in
    (ts, backed, omega (arith, le))
