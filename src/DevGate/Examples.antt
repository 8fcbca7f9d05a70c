-- ===== src/DevGate/Examples.antt =====
-- The gate on concrete requests.
use crucible_analytic.Prelude.{
  ℕ, ◌+◌, ◌*◌, ℕ_discrete, ◌≤◌, ◌≡◌, refl, Bool, true, false, List, [], ◌∷◌, some, Bytes, count_if,
  get_elem?, any, arith, length, replicate, codes,
}
use crucible_analytic.Prelude.Text.{bytes_eq, is_empty}
use crucible_analytic.Prelude.Maps.{lookup, insert}
use crucible_analytic.RateStore.Window.{second}
use crucible_analytic.DevGate.Gate.{
  Gate, Request, Outcome, done, fresh, Event, moves, ticks, recent, throttle_window, max_failures,
  max_queued, grant, refused, throttled_out, advance, arrive, throttled, configured, for_action,
  authorizes, step, move_caller, retry_after_of, join_queue, take_slot, look_again, verify_password,
  clear_failures, authorizations,
}
use crucible_analytic.DevGate.Bounds.{
  run, start_system, holds_slot, in_queue, is_hashing, run-recent-answered, run-is_hashing_le,
}
use crucible_analytic.DevGate.Grants.{is_move, steps, steps-alone_granted}
use crucible_analytic.DevGate.Earned.{run-done_earned}

abbrev next_move : ℕ → Event
next_move lag = moves 0 (record { lag = lag; ctx_done = false })

abbrev hash : Bytes
hash = codes "h"

abbrev mask_off : Bytes
mask_off = codes "mask_off"

abbrev right : Request
right = record { actions = mask_off ∷ []; password = codes "p" }

abbrev wrong : Request
wrong = record { actions = mask_off ∷ []; password = codes "q" }

abbrev verify : Bytes → Bytes → Bool
verify stored password = bytes_eq password (codes "p")

-- Two callers arrive, the first is wrong, the second is right.
abbrev arrivals : List Event
arrivals =
    let go = λ (i : ℕ). moves i (record { lag = 1; ctx_done = false }) in
    go 0 ∷ go 1 ∷ go 0 ∷ go 1 ∷ go 0 ∷ go 1 ∷ ticks 5 ∷ replicate 5 (go 0)

abbrev used_gate : Gate
used_gate = record { hash = hash; slots = 0; queued = 0; failures = replicate 5 7 }

five_wrong_close :
    arrive 8 8 used_gate right ≡ (used_gate, done (refused throttled_out (900 * second)))
unfolding arrive throttled configured recent retry_after_of is_empty
five_wrong_close = refl

run-recent-answered_example :
    let (s, answered) = run verify (start_system hash 1000 (wrong ∷ right ∷ [])) [] arrivals in
    length (recent s.clock answered) ≤ max_failures
run-recent-answered_example = run-recent-answered verify hash 1000 (wrong ∷ right ∷ []) arrivals

run-is_hashing_le_example :
    let (s, answered) = run verify (start_system hash 1000 (wrong ∷ right ∷ [])) [] arrivals in
    (count_if is_hashing s.callers ≤ 1)
    × (count_if in_queue s.callers ≤ max_queued)
    × (s.gate.slots ≡ count_if holds_slot s.callers)
    × (s.gate.queued ≡ count_if in_queue s.callers)
run-is_hashing_le_example = run-is_hashing_le verify hash 1000 (wrong ∷ right ∷ []) arrivals

-- Eight moves that take longer and longer, with a pause between.
abbrev lone_events : List Event
lone_events =
    next_move 1
    ∷ next_move 2
    ∷ next_move 3
    ∷ ticks 100
    ∷ next_move 4
    ∷ next_move 5
    ∷ next_move 6
    ∷ next_move 7
    ∷ next_move 8
    ∷ []

steps-alone_granted_example :
    (t : ℕ) × (7 + throttle_window ≤ t)
    × (steps verify
          (record { gate = used_gate; clock = 7 + throttle_window; callers = fresh right ∷ [] })
          lone_events
        ≡ done (grant t right) ∷ [])
unfolding configured is_empty bytes_eq is_move
steps-alone_granted_example =
    steps-alone_granted verify used_gate (7 + throttle_window) right lone_events refl refl refl
      (ground arith) refl refl refl (ground arith) (omega arith)

abbrev granted_result : Outcome
granted_result = grant 1005 right

granted_in_the_end :
    let r = run verify (start_system hash 1000 (right ∷ [])) [] (replicate 8 (next_move 1)) in
    get_elem? r.0.callers 0 ≡ some (done granted_result)
unfolding run step move_caller advance arrive throttled configured is_empty join_queue take_slot
    look_again verify_password clear_failures recent bytes_eq
granted_in_the_end = refl

permits : authorizes 1005 (for_action granted_result mask_off) mask_off ≡ true
unfolding authorizes for_action lookup grant authorizations insert is_empty ℕ_discrete bytes_eq
permits = refl

run-done_earned_example :
    (req : Request) × (get_elem? (right ∷ []) 0 ≡ some req)
    × (verify hash req.password ≡ true)
    × (any (λ c. bytes_eq c mask_off) req.actions ≡ true)
run-done_earned_example =
    run-done_earned verify hash 1000 (right ∷ []) (replicate 8 (next_move 1)) 0 granted_result 1005
      mask_off mask_off granted_in_the_end permits
