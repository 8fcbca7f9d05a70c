-- ===== src/Limiter/Caps.antt =====
-- The limits hold in every interleaving, as long as the configuration stays.
use mathlib.Core.Option.{some-injective}
use crucible_analytic.Prelude.{
  ℕ, suc, zero, ◌≤◌, ◌≡◌, refl, subst, sym, true, false, List, [], ◌∷◌, some, count_if, get_elem?,
  set, arith, Option-cases, inl, inr, replicate, All, ◌⊎◌,
}
use crucible_analytic.Prelude.Int.{pos, pos_part, ltb_ℤ, ◌≤ℤ◌, is_positive}
use crucible_analytic.Limiter.Admit.{
  Caller, fresh, checking, measuring, acquiring, swapping, refused, joining, pausing, leaving,
  proceeding, degraded, rejected, finished, Config, Policy, fail_open, fail_closed, throttle, other,
  apply_policy, Limiter, System, Event, moves, configures, Input, advance, move_caller, set_config,
  step, run,
}
use crucible_analytic.Limiter.Slots.{
  holds_slot, IsCounted, start_system, step-IsCounted, start_system-IsCounted,
}

-- The policies that turn excess callers away.
abbrev pub IsGating : Policy → Type 0
IsGating p = (p ≡ fail_closed) ⊎ (p ≡ throttle)

-- The schedule sets no other configuration.
abbrev pub Sets : Config → List Event → Type 0
Sets c [] = Unit
Sets c (moves i input ∷ es) = Sets c es
Sets c (configures d ∷ es) = (d ≡ c) × Sets c es

-- A caller that works under the configuration, and whose last read of `current` was below the
-- limit.
abbrev Keeps : Config → Caller → Type 0
Keeps c fresh = Unit
Keeps c (checking d arriving) = d ≡ c
Keeps c (measuring d arriving now) = d ≡ c
Keeps c (acquiring d arriving) = d ≡ c
Keeps c (swapping d arriving cur) = (d ≡ c) × (ltb_ℤ cur c.max_concurrent_connections ≡ true)
Keeps c (refused d) = d ≡ c
Keeps c (joining d) = d ≡ c
Keeps c (pausing d) = d ≡ c
Keeps c (leaving done) = Unit
Keeps c proceeding = Unit
Keeps c degraded = ⊥
Keeps c rejected = Unit
Keeps c finished = Unit

module _ (c : Config) (limited : is_positive c.max_concurrent_connections ≡ true)
    (gating : IsGating c.policy) where
  policy_Keeps :
      (l : Limiter) (d : Config) (p : Policy)
      → IsGating p
      → l.cfg ≡ c
      → d ≡ c
      → l.current ≤ℤ c.max_concurrent_connections
      → let r = apply_policy l d p in
        (r.0.cfg ≡ c) × Keeps c r.1 × (r.0.current ≤ℤ c.max_concurrent_connections)
  unfolding apply_policy
  policy_Keeps l d fail_closed g e k h = (e, tt, h)
  policy_Keeps l d throttle g e k h = (e, k, h)
  policy_Keeps l d fail_open g e k h = ground arith
  policy_Keeps l d other g e k h = ground arith

  advance-Keeps :
      (input : Input) (l : Limiter) (p : Caller)
      → l.cfg ≡ c
      → Keeps c p
      → l.current ≤ℤ c.max_concurrent_connections
      → let r = advance input l p in
        (r.0.cfg ≡ c) × Keeps c r.1 × (r.0.current ≤ℤ c.max_concurrent_connections)
  unfolding advance
  advance-Keeps input l degraded e k h = absurd k
  advance-Keeps input l (refused d) e k h = policy_Keeps l d d.policy (rw (sym k) at gating) e k h
  advance-Keeps input l (acquiring d true) e k h = rw k (ground arith)
  advance-Keeps input l (acquiring d false) e k h = rw k (ground arith)
  advance-Keeps input l _ e k h = ground arith

  -- The invariant of a system that works under `c`.
  record IsCapped (s : System) : Type 0 where
    cfg : s.limiter.cfg ≡ c
    keeps : All (Keeps c) s.callers
    bound : s.limiter.current ≤ℤ c.max_concurrent_connections

  All-set :
      (cs : List Caller) (i : ℕ) (new : Caller)
      → All (Keeps c) cs
      → Keeps c new
      → All (Keeps c) (set cs i new)
  All-set [] i new a k = tt
  All-set (x ∷ cs) zero new a k = (k, a.1)
  All-set (x ∷ cs) (suc i) new a k = (a.0, All-set cs i new a.1 k)

  All-get_elem? :
      (cs : List Caller) (i : ℕ) (x : Caller)
      → All (Keeps c) cs
      → get_elem? cs i ≡ some x
      → Keeps c x
  All-get_elem? [] i x a e = cc
  All-get_elem? (y ∷ cs) zero x a e = subst (Keeps c) (some-injective y x e) a.0
  All-get_elem? (y ∷ cs) (suc i) x a e = All-get_elem? cs i x a.1 e

  step-IsCapped : (s : System) (e : Event) → Sets c (e ∷ []) → IsCapped s → IsCapped (step s e)
  unfolding step set_config move_caller
  step-IsCapped s (configures d) (same, _) v = record {
    cfg = same;
    keeps = v.keeps;
    bound = v.bound;
  }
  step-IsCapped s (moves i input) _ v = elim (Option-cases (get_elem? s.callers i)) [
    | inl e ↦ rw e v
    | inr (p, e) ↦
        let (cfg, keeps, bound) =
          advance-Keeps input s.limiter p v.cfg (All-get_elem? s.callers i p v.keeps e) v.bound in
        rw e (record { cfg = cfg; keeps = All-set s.callers i _ v.keeps keeps; bound = bound })
  ]

  fresh-Keeps : (n : ℕ) → All (Keeps c) (replicate n fresh)
  fresh-Keeps zero = tt
  fresh-Keeps (suc n) = (tt, fresh-Keeps n)

  none_below : pos 0 ≤ℤ c.max_concurrent_connections
  none_below = ground arith

  run-IsCapped :
      (s : System) (es : List Event)
      → Sets c es
      → IsCapped s
      → IsCounted s
      → count_if holds_slot (run s es).callers ≤ pos_part c.max_concurrent_connections
  unfolding run
  run-IsCapped s [] sets v k = ground (arith, v.bound, k.slots)
  run-IsCapped s (moves i input ∷ es) sets v k =
      run-IsCapped (step s (moves i input)) es sets (step-IsCapped s (moves i input) tt v)
        (step-IsCounted s _ k)
  run-IsCapped s (configures d ∷ es) sets v k =
      run-IsCapped (step s (configures d)) es sets.1 (step-IsCapped s (configures d) (sets.0, tt) v)
        (step-IsCounted s _ k)

  -- With a positive limit on connections and a policy that turns excess callers away, no
  -- interleaving of any number of callers, while the configuration stays, has more slots given out
  -- than the limit.
  pub run_start-le-max :
      (w n : ℕ) (es : List Event)
      → Sets c es
      → count_if holds_slot (run (start_system c w n) es).callers
        ≤ pos_part c.max_concurrent_connections
  run_start-le-max w n es sets =
      run-IsCapped (start_system c w n) es sets
        (record { cfg = refl; keeps = fresh-Keeps n; bound = none_below })
        (start_system-IsCounted c w n)
