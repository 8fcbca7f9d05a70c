-- ===== src/Limiter/Slots.antt =====
-- The two counters of the limiter against the callers that stand for them, over every
-- interleaving.
use crucible_analytic.Prelude.{
  unit, count_if-set, ℕ, suc, zero, ◌+◌, ◌≡◌, refl, ap, sym, ◌∙◌, not, Bool, true, false, List, [],
  ◌∷◌, some, count_if, get_elem?, arith, Option-cases, inl, inr, replicate,
}
use crucible_analytic.Prelude.Int.{pos}
use crucible_analytic.Limiter.Admit.{
  Caller, fresh, checking, measuring, acquiring, swapping, pausing, leaving, proceeding, degraded,
  Config, Limiter, System, Event, moves, configures, Input, new_limiter, advance, move_caller, step,
  run,
}

-- Has a slot: the release function is still to be called.
unfoldable pub holds_slot : Caller → Bool
holds_slot proceeding = true
holds_slot degraded = true
holds_slot (leaving done) = done
holds_slot _ = false

-- Is counted in `waiting`.
unfoldable pub in_queue : Caller → Bool
in_queue (checking cfg arriving) = not arriving
in_queue (measuring cfg arriving now) = not arriving
in_queue (acquiring cfg arriving) = not arriving
in_queue (swapping cfg arriving cur) = not arriving
in_queue (pausing cfg) = true
in_queue (leaving done) = true
in_queue _ = false

-- A step of one caller moves a counter as it moves the caller.
advance-slots :
    (input : Input) (l : Limiter) (c : Caller) (n : ℕ)
    → l.current ≡ pos (n + unit (holds_slot c))
    → let r = advance input l c in r.0.current ≡ pos (n + unit (holds_slot r.1))
unfolding advance holds_slot
advance-slots input l fresh n e = ground arith
advance-slots input l _ n e = ground arith

advance-queue :
    (input : Input) (l : Limiter) (c : Caller) (n : ℕ)
    → l.waiting ≡ pos (n + unit (in_queue c))
    → let r = advance input l c in r.0.waiting ≡ pos (n + unit (in_queue r.1))
unfolding advance in_queue
advance-queue input l fresh n e = ground arith
advance-queue input l _ n e = ground arith

-- What `current` and `waiting` stand for.
pub record IsCounted (s : System) : Type 0 where
  pub slots : s.limiter.current ≡ pos (count_if holds_slot s.callers)
  pub queue : s.limiter.waiting ≡ pos (count_if in_queue s.callers)

-- Callers that have not called yet.
abbrev pub start_system : Config → ℕ → ℕ → System
start_system cfg rate_window n = record {
  limiter = new_limiter cfg rate_window;
  callers = replicate n fresh;
}

count_if-fresh :
    (n : ℕ)
    → (count_if holds_slot (replicate n fresh) ≡ 0) × (count_if in_queue (replicate n fresh) ≡ 0)
unfolding holds_slot in_queue
count_if-fresh zero = (refl, refl)
count_if-fresh (suc n) = count_if-fresh n

move_caller-IsCounted :
    (s : System) (i : ℕ) (input : Input) (c : Caller)
    → get_elem? s.callers i ≡ some c
    → IsCounted s
    → IsCounted (move_caller s i input (some c))
unfolding move_caller
move_caller-IsCounted s i input c e v =
    let (n, held, held') = count_if-set holds_slot s.callers i c e in
    let (m, queued, queued') = count_if-set in_queue s.callers i c e in
    let r = advance input s.limiter c in
    record {
      slots = advance-slots input s.limiter c n (v.slots ∙ ap pos held) ∙ ap pos (sym (held' r.1));
      queue =
          advance-queue input s.limiter c m (v.queue ∙ ap pos queued) ∙ ap pos (sym (queued' r.1));
    }

pub step-IsCounted : (s : System) (e : Event) → IsCounted s → IsCounted (step s e)
unfolding step
step-IsCounted s (configures cfg) v = record { slots = v.slots; queue = v.queue }
step-IsCounted s (moves i input) v = elim (Option-cases (get_elem? s.callers i)) [
  | inl e ↦ rw e v
  | inr (c, e) ↦ rw e (move_caller-IsCounted s i input c e v)
]

run-IsCounted : (s : System) (es : List Event) → IsCounted s → IsCounted (run s es)
unfolding run
run-IsCounted s [] v = v
run-IsCounted s (e ∷ es) v = run-IsCounted (step s e) es (step-IsCounted s e v)

pub start_system-IsCounted : (cfg : Config) (w n : ℕ) → IsCounted (start_system cfg w n)
start_system-IsCounted cfg w n =
    let (slots, queue) = count_if-fresh n in
    record { slots = ap pos (sym slots); queue = ap pos (sym queue) }

-- After any interleaving of any number of callers, configuration changes included, `current` is
-- the number of slots that are held, the degraded callers' among them, and `waiting` is the number
-- of callers in the queue.
pub run_start-IsCounted :
    (cfg : Config) (w n : ℕ) (es : List Event) → IsCounted (run (start_system cfg w n) es)
run_start-IsCounted cfg w n es = run-IsCounted _ es (start_system-IsCounted cfg w n)
