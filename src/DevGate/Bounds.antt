-- ===== src/DevGate/Bounds.antt =====
-- The limits of the gate, over every interleaving of its callers.
use crucible_analytic.Prelude.{
  ℕ, ◌+◌, ◌≤◌, ◌≡◌, refl, ap, sym, ◌∙◌, Bool, true, false, List, [], ◌∷◌, ◌++◌, Option, some, Bytes,
  count_if, count_if-set, count_if-le, unit, get_elem?, set, arith, if◌then◌else◌, Option-cases,
  inl, inr, map, length, length-append,
}
use crucible_analytic.DevGate.Gate.{
  Gate, Request, Caller, fresh, passed, waiting, holding, verifying, minting, releasing, unqueuing,
  done, refused, busy, Input, System, Event, moves, ticks, max_failures, max_queued, recent,
  throttled, record_failure, clear_failures, arrive, join_queue, take_slot, look_again,
  verify_password, advance, move_caller, step,
}

unfoldable pub holds_slot : Caller → Bool
holds_slot (holding r) = true
holds_slot (verifying r) = true
holds_slot (minting r) = true
holds_slot (releasing o) = true
holds_slot _ = false

unfoldable pub in_queue : Caller → Bool
in_queue (waiting r) = true
in_queue (holding r) = true
in_queue (verifying r) = true
in_queue (minting r) = true
in_queue (releasing o) = true
in_queue (unqueuing o) = true
in_queue _ = false

-- Works on the password: the argon2 memory is in use.
unfoldable pub is_hashing : Caller → Bool
is_hashing (verifying r) = true
is_hashing _ = false

-- The times of the wrong passwords that were answered since the last right one, oldest first: what
-- somebody sees who watches the callers and not the gate.
unfoldable pub answered : (Bytes → Bytes → Bool) → Bytes → ℕ → Option Caller → List ℕ → List ℕ
answered verify hash now (some (verifying r)) wrong =
    if verify hash r.password then [] else wrong ++ now ∷ []
answered verify hash now _ wrong = wrong

unfoldable pub watch : (Bytes → Bytes → Bool) → System → List ℕ → Event → List ℕ
unfolding answered
watch verify s wrong (moves i input) =
    answered verify s.gate.hash s.clock (get_elem? s.callers i) wrong
watch verify s wrong (ticks d) = wrong

-- A schedule of events, with what was watched.
unfoldable pub run : (Bytes → Bytes → Bool) → System → List ℕ → List Event → System × List ℕ
unfolding step watch
run verify s wrong [] = (s, wrong)
run verify s wrong (e ∷ es) = run verify (step verify s e) (watch verify s wrong e) es

recent-recent : (s t : ℕ) (xs : List ℕ) → s ≤ t → recent t (recent s xs) ≡ recent t xs
unfolding recent
recent-recent s t [] h = refl
recent-recent s t (x ∷ xs) h = ground (arith, recent-recent s t xs h)

recent-append : (t : ℕ) (xs ys : List ℕ) → recent t (xs ++ ys) ≡ recent t xs ++ recent t ys
unfolding recent
recent-append t [] ys = refl
recent-append t (x ∷ xs) ys = ground (arith, recent-append t xs ys)

length-recent_le : (t : ℕ) (xs : List ℕ) → length (recent t xs) ≤ length xs
unfolding recent
length-recent_le t [] = omega arith
length-recent_le t (x ∷ xs) = ground (arith, length-recent_le t xs)

-- From the time on, the gate counts what was watched.
IsTrue : ℕ → List ℕ → List ℕ → Type 0
IsTrue now kept wrong = (t : ℕ) → now ≤ t → recent t kept ≡ recent t wrong

recent-IsTrue :
    (now lag : ℕ) (kept wrong : List ℕ)
    → IsTrue now kept wrong
    → IsTrue (now + lag) (recent now kept) wrong
unfolding IsTrue
recent-IsTrue now lag kept wrong h t le = recent-recent now t kept (omega arith) ∙ h t (omega arith)

later-IsTrue :
    (now lag : ℕ) (kept wrong : List ℕ) → IsTrue now kept wrong → IsTrue (now + lag) kept wrong
unfolding IsTrue
later-IsTrue now lag kept wrong h t le = h t (omega arith)

append-IsTrue :
    (now lag : ℕ) (kept wrong more : List ℕ)
    → IsTrue now kept wrong
    → IsTrue (now + lag) (kept ++ more) (wrong ++ more)
unfolding IsTrue
append-IsTrue now lag kept wrong more h t le =
    recent-append t kept more
    ∙ ap (λ (l : List ℕ). l ++ recent t more) (h t (omega arith))
    ∙ sym (recent-append t wrong more)

nothing-IsTrue : (now : ℕ) → IsTrue now [] []
unfolding IsTrue
nothing-IsTrue now t le = refl

-- The invariant of a gate with `n` slots held, `m` callers in the queue and `k` at work on a
-- password.
record IsBounded (g : Gate) (now : ℕ) (wrong : List ℕ) (n m k : ℕ) : Type 0 where
  slots : g.slots ≡ n
  slots_le : n ≤ 1
  queued : g.queued ≡ m
  queued_le : m ≤ max_queued
  room : length g.failures + k ≤ max_failures
  counts : IsTrue now g.failures wrong

advance-IsBounded :
    (verify : Bytes → Bytes → Bool) (now : ℕ) (input : Input) (g : Gate) (c : Caller)
    (wrong : List ℕ) (n m k : ℕ)
    → k ≤ n
    → IsBounded g now wrong
        (n + unit (holds_slot c))
        (m + unit (in_queue c))
        (k + unit (is_hashing c))
    → let r = advance verify now input g c in
      IsBounded r.0
        (now + input.lag)
        (answered verify g.hash now (some c) wrong)
        (n + unit (holds_slot r.1))
        (m + unit (in_queue r.1))
        (k + unit (is_hashing r.1))
unfolding advance holds_slot in_queue is_hashing answered arrive look_again throttled join_queue
    take_slot verify_password record_failure clear_failures
advance-IsBounded verify now input g (fresh r) wrong n m k le v = ground (
  arith,
  length-recent_le now g.failures,
  recent-IsTrue now input.lag g.failures wrong v.counts,
  later-IsTrue now input.lag g.failures wrong v.counts,
  v.slots,
  v.slots_le,
  v.queued,
  v.queued_le,
  v.room,
)
advance-IsBounded verify now input g (passed r) wrong n m k le v = ground (
  arith,
  later-IsTrue now input.lag g.failures wrong v.counts,
  v.slots,
  v.slots_le,
  v.queued,
  v.queued_le,
  v.room,
)
advance-IsBounded verify now input g (waiting r) wrong n m k le v = ground (
  arith,
  later-IsTrue now input.lag g.failures wrong v.counts,
  v.slots,
  v.slots_le,
  v.queued,
  v.queued_le,
  v.room,
)
advance-IsBounded verify now input g (holding r) wrong n m k le v = ground (
  arith,
  length-recent_le now g.failures,
  recent-IsTrue now input.lag g.failures wrong v.counts,
  v.slots,
  v.slots_le,
  v.queued,
  v.queued_le,
  v.room,
)
advance-IsBounded verify now input g (verifying r) wrong n m k le v = ground (
  arith,
  length-append g.failures (now ∷ []),
  append-IsTrue now input.lag g.failures wrong (now ∷ []) v.counts,
  nothing-IsTrue (now + input.lag),
  later-IsTrue now input.lag g.failures wrong v.counts,
  v.slots,
  v.slots_le,
  v.queued,
  v.queued_le,
  v.room,
)
advance-IsBounded verify now input g (minting r) wrong n m k le v = ground (
  arith,
  later-IsTrue now input.lag g.failures wrong v.counts,
  v.slots,
  v.slots_le,
  v.queued,
  v.queued_le,
  v.room,
)
advance-IsBounded verify now input g (releasing o) wrong n m k le v = ground (
  arith,
  later-IsTrue now input.lag g.failures wrong v.counts,
  v.slots,
  v.slots_le,
  v.queued,
  v.queued_le,
  v.room,
)
advance-IsBounded verify now input g (unqueuing o) wrong n m k le v = ground (
  arith,
  later-IsTrue now input.lag g.failures wrong v.counts,
  v.slots,
  v.slots_le,
  v.queued,
  v.queued_le,
  v.room,
)
advance-IsBounded verify now input g (done o) wrong n m k le v = ground (
  arith,
  later-IsTrue now input.lag g.failures wrong v.counts,
  v.slots,
  v.slots_le,
  v.queued,
  v.queued_le,
  v.room,
)

pub record IsGuarded (s : System) (wrong : List ℕ) : Type 0 where
  bounded :
      IsBounded s.gate s.clock wrong
        (count_if holds_slot s.callers)
        (count_if in_queue s.callers)
        (count_if is_hashing s.callers)

hashing_le : (cs : List Caller) → count_if is_hashing cs ≤ count_if holds_slot cs
unfolding is_hashing holds_slot
hashing_le cs = count_if-le is_hashing holds_slot cs hashing-holds
  where
    hashing-holds : (c : Caller) → is_hashing c ≡ true → holds_slot c ≡ true
    hashing-holds (verifying r) e = refl
    hashing-holds (fresh r) e = cc
    hashing-holds (passed r) e = cc
    hashing-holds (waiting r) e = cc
    hashing-holds (holding r) e = cc
    hashing-holds (minting r) e = cc
    hashing-holds (releasing o) e = cc
    hashing-holds (unqueuing o) e = cc
    hashing-holds (done o) e = cc

move_caller-IsGuarded :
    (verify : Bytes → Bytes → Bool) (s : System) (wrong : List ℕ) (i : ℕ) (input : Input)
    (c : Caller)
    → get_elem? s.callers i ≡ some c
    → IsGuarded s wrong
    → IsGuarded
        (move_caller verify s i input (some c))
        (answered verify s.gate.hash s.clock (some c) wrong)
unfolding move_caller is_hashing holds_slot
move_caller-IsGuarded verify s wrong i input c e v =
    let (n, held, held') = count_if-set holds_slot s.callers i c e in
    let (m, queued, queued') = count_if-set in_queue s.callers i c e in
    let (k, hashing, hashing') = count_if-set is_hashing s.callers i c e in
    let r = advance verify s.clock input s.gate c in
    let nobody = done (refused busy 0) in
    let le : k ≤ n =
      ground (arith, hashing_le (set s.callers i nobody), hashing' nobody, held' nobody) in
    let before = rw (held, queued, hashing) at v.bounded in
    let after = advance-IsBounded verify s.clock input s.gate c wrong n m k le before in
    record { bounded = rw (held' r.1, queued' r.1, hashing' r.1) after }

step-IsGuarded :
    (verify : Bytes → Bytes → Bool) (s : System) (wrong : List ℕ) (e : Event)
    → IsGuarded s wrong
    → IsGuarded (step verify s e) (watch verify s wrong e)
unfolding step watch
step-IsGuarded verify s wrong (ticks d) v = record {
  bounded = record {
    slots = v.bounded.slots;
    slots_le = v.bounded.slots_le;
    queued = v.bounded.queued;
    queued_le = v.bounded.queued_le;
    room = v.bounded.room;
    counts = later-IsTrue s.clock d s.gate.failures wrong v.bounded.counts;
  };
}
step-IsGuarded verify s wrong (moves i input) v = elim (Option-cases (get_elem? s.callers i)) [
  | inl e ↦ rw e v
  | inr (c, e) ↦ rw e (move_caller-IsGuarded verify s wrong i input c e v)
]

run-IsGuarded :
    (verify : Bytes → Bytes → Bool) (s : System) (wrong : List ℕ) (es : List Event)
    → IsGuarded s wrong
    → let r = run verify s wrong es in IsGuarded r.0 r.1
unfolding run
run-IsGuarded verify s wrong [] v = v
run-IsGuarded verify s wrong (e ∷ es) v =
    run-IsGuarded verify (step verify s e) (watch verify s wrong e) es
      (step-IsGuarded verify s wrong e v)

-- A new gate, before any of the requests.
abbrev pub start_system : Bytes → ℕ → List Request → System
start_system hash clock reqs = record {
  gate = record { hash = hash; slots = 0; queued = 0; failures = [] };
  clock = clock;
  callers = map fresh reqs;
}

count_if-fresh :
    (p : Caller → Bool) (reqs : List Request)
    → ((r : Request) → p (fresh r) ≡ false)
    → count_if p (map fresh reqs) ≡ 0
count_if-fresh p [] h = refl
count_if-fresh p (r ∷ reqs) h = ground (arith, h r, count_if-fresh p reqs h)

start_system-IsGuarded :
    (hash : Bytes) (clock : ℕ) (reqs : List Request) → IsGuarded (start_system hash clock reqs) []
unfolding holds_slot in_queue is_hashing
start_system-IsGuarded hash clock reqs =
    let held = count_if-fresh holds_slot reqs (λ r. refl) in
    let queued = count_if-fresh in_queue reqs (λ r. refl) in
    let hashing = count_if-fresh is_hashing reqs (λ r. refl) in
    record {
      bounded =
          rw (held, queued, hashing)
            (record {
              slots = refl;
              slots_le = omega arith;
              queued = refl;
              queued_le = omega arith;
              room = omega arith;
              counts = nothing-IsTrue clock;
            });
    }

-- Whatever the requests and however their operations interleave, at every moment at most five of the
-- wrong passwords answered since the last right one were answered in the fifteen minutes before:
-- guesses that wait in the queue together get no further.
pub run-recent-answered :
    (verify : Bytes → Bytes → Bool) (hash : Bytes) (clock : ℕ) (reqs : List Request)
    (es : List Event)
    → let (s, wrong) = run verify (start_system hash clock reqs) [] es in
      length (recent s.clock wrong) ≤ max_failures
unfolding IsTrue
run-recent-answered verify hash clock reqs es =
    let (s, wrong) = run verify (start_system hash clock reqs) [] es in
    let v =
      run-IsGuarded verify (start_system hash clock reqs) [] es
        (start_system-IsGuarded hash clock reqs) in
    let same = v.bounded.counts s.clock (omega arith) in
    let few = length-recent_le s.clock s.gate.failures in
    let room = v.bounded.room in ground (arith, same, few, room)

-- Whatever the requests and however their operations interleave, at most one caller has the memory
-- of argon2 in use, at most four are in the queue, and the channels hold one value for each caller
-- that has sent one and not yet received it.
pub run-is_hashing_le :
    (verify : Bytes → Bytes → Bool) (hash : Bytes) (clock : ℕ) (reqs : List Request)
    (es : List Event)
    → let (s, wrong) = run verify (start_system hash clock reqs) [] es in
      (count_if is_hashing s.callers ≤ 1)
      × (count_if in_queue s.callers ≤ max_queued)
      × (s.gate.slots ≡ count_if holds_slot s.callers)
      × (s.gate.queued ≡ count_if in_queue s.callers)
run-is_hashing_le verify hash clock reqs es =
    let (s, wrong) = run verify (start_system hash clock reqs) [] es in
    let v =
      run-IsGuarded verify (start_system hash clock reqs) [] es
        (start_system-IsGuarded hash clock reqs) in
    let one = hashing_le s.callers in
    let slots_le = v.bounded.slots_le in
    (omega arith, v.bounded.queued_le, v.bounded.slots, v.bounded.queued)
