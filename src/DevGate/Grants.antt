-- ===== src/DevGate/Grants.antt =====
-- What a grant of the gate is worth, and that the gate gives one.
use mathlib.Core.Logic.{ite, if_pos, if_neg}
use crucible_analytic.Prelude.{
  ℕ, ◌+◌, ◌≤◌, subst, sym, ◌-◌, count_if, ◌≡◌, refl, ap, ◌∙◌, Bool, true, false, not, ◌&&◌, List,
  [], ◌∷◌, ◌==◌, Option, none, some, Bytes, any, All, arith, ltb, if◌then◌else◌, Bool-cases, inl,
  inr, length,
}
use crucible_analytic.Prelude.Maps.{lookup, lookup-insert}
use crucible_analytic.Prelude.Text.{bytes_eq, bytes_eq_sound, bytes_eq_refl, is_empty}
use crucible_analytic.DevGate.Gate.{
  Gate, Request, Authorization, Action-discrete, Caller, fresh, passed, done, System, Event, moves,
  throttle_window, grant_lifetime, recent, throttled, configured, authorizations, grant, arrive,
  join_queue, take_slot, look_again, verify_password, clear_failures, advance, move_caller, step,
  for_action, authorizes, Input, Outcome, waiting, holding, verifying, minting, releasing,
  unqueuing, ticks,
}

minted : ℕ → Bytes → Authorization
minted expires a = record { action = a; expires_at = expires; is_granted = true }

same_action :
    (a b : Bytes) (x y : Option Authorization)
    → ite (Action-discrete a b) x y ≡ (if bytes_eq a b then x else y)
same_action a b x y = elim (Action-discrete a b) [
  | yes e ↦ rw (if_pos _ e, ap (λ (z : Bytes). bytes_eq z b) e ∙ bytes_eq_refl b) refl
  | no n ↦ elim (Bool-cases (bytes_eq a b)) [
    | inl e ↦ absurd (n (bytes_eq_sound a b e))
    | inr e ↦ rw (if_neg _ n, e) refl
  ]
]

lookup-authorizations :
    (expires : ℕ) (actions : List Bytes) (a : Bytes)
    → lookup Action-discrete a (authorizations expires actions) ≡ (
        if not (is_empty a) && any (λ b. bytes_eq b a) actions
        then some (minted expires a)
        else none)
unfolding authorizations minted lookup
lookup-authorizations expires [] a = ground arith
lookup-authorizations expires (b ∷ actions) a =
    let rest = authorizations expires actions in
    let ih = lookup-authorizations expires actions a in
    elim (Bool-cases (is_empty b)) [
      | inl e ↦ ground (arith, e, ih, bytes_eq_sound b a, ap is_empty)
      | inr e ↦ ground (
        arith,
        e,
        ih,
        lookup-insert Action-discrete a b (minted expires b) rest,
        same_action b a (some (minted expires b)) (lookup Action-discrete a rest),
        bytes_eq_sound b a,
      )
    ]

-- An authorization taken from a grant permits an action exactly when it was taken for that action,
-- the request named it, it is not the empty name, and thirty seconds have not passed.
pub authorizes-grant :
    (now t : ℕ) (req : Request) (a b : Bytes)
    → authorizes t (for_action (grant now req) a) b ≡ (
        bytes_eq a b
        && not (is_empty b)
        && any (λ c. bytes_eq c b) req.actions
        && ltb t (now + grant_lifetime))
unfolding authorizes for_action grant minted
authorizes-grant now t req a b = ground (
  arith,
  lookup-authorizations (now + grant_lifetime) req.actions a,
  bytes_eq_sound a b,
  bytes_eq_refl b,
)

-- The callers behind a list of events.
pub steps : (Bytes → Bytes → Bool) → System → List Event → List Caller
unfolding step
steps verify s [] = s.callers
steps verify s (e ∷ es) = steps verify (step verify s e) es

length-recent_stale :
    (now : ℕ) (failures : List ℕ)
    → All (λ at. at + throttle_window ≤ now) failures
    → recent now failures ≡ []
unfolding recent
length-recent_stale now [] h = refl
length-recent_stale now (x ∷ xs) h = ground (arith, h.0, length-recent_stale now xs h.1)

-- How many moves a caller still has before it.
unfoldable pub moves_left : Caller → ℕ
moves_left (fresh req) = 8
moves_left (passed req) = 7
moves_left (waiting req) = 6
moves_left (holding req) = 5
moves_left (verifying req) = 4
moves_left (minting req) = 3
moves_left (releasing out) = 2
moves_left (unqueuing out) = 1
moves_left (done out) = 0

-- The events of one caller alone: its moves, in a context that is not cancelled, and time.
abbrev pub IsAlone : Event → Type 0
IsAlone (moves i input) = (i ≡ 0) × (input.ctx_done ≡ false)
IsAlone (ticks d) = Unit

unfoldable pub is_move : Event → Bool
is_move (moves i input) = true
is_move (ticks d) = false

module _ (verify : Bytes → Bytes → Bool) (start : ℕ) (req : Request) where
  -- A gate with the right hash, and failures that no longer count.
  abbrev IsReady : ℕ → Gate → Type 0
  IsReady now g =
      (start ≤ now)
      × (configured g ≡ true)
      × (verify g.hash req.password ≡ true)
      × All (λ at. at + throttle_window ≤ now) g.failures

  -- Granted at some time since the start.
  abbrev IsGranted : ℕ → Outcome → Type 0
  IsGranted now out = (t : ℕ) × (start ≤ t) × (t ≤ now) × (out ≡ grant t req)

  -- The caller is alone on its way to a grant.
  abbrev IsOnWay : ℕ → Gate → Caller → Type 0
  IsOnWay now g (fresh r) = (r ≡ req) × IsReady now g × (g.slots ≡ 0) × (g.queued ≡ 0)
  IsOnWay now g (passed r) = (r ≡ req) × IsReady now g × (g.slots ≡ 0) × (g.queued ≡ 0)
  IsOnWay now g (waiting r) = (r ≡ req) × IsReady now g × (g.slots ≡ 0)
  IsOnWay now g (holding r) = (r ≡ req) × IsReady now g
  IsOnWay now g (verifying r) = (r ≡ req) × IsReady now g
  IsOnWay now g (minting r) = (r ≡ req) × (start ≤ now)
  IsOnWay now g (releasing out) = IsGranted now out
  IsOnWay now g (unqueuing out) = IsGranted now out
  IsOnWay now g (done out) = IsGranted now out

  stale_mono :
      (now later : ℕ) (failures : List ℕ)
      → now ≤ later
      → All (λ at. at + throttle_window ≤ now) failures
      → All (λ at. at + throttle_window ≤ later) failures
  stale_mono now later [] h a = tt
  stale_mono now later (x ∷ xs) h a = (omega (arith, h, a.0), stale_mono now later xs h a.1)

  IsReady-mono : (now later : ℕ) (g : Gate) → now ≤ later → IsReady now g → IsReady later g
  IsReady-mono now later g h (s, c, v, f) =
      (omega (arith, s, h), c, v, stale_mono now later g.failures h f)

  IsOnWay-mono :
      (now later : ℕ) (g : Gate) (c : Caller) → now ≤ later → IsOnWay now g c → IsOnWay later g c
  IsOnWay-mono now later g (fresh r) h (e, w, s, q) = (e, IsReady-mono now later g h w, s, q)
  IsOnWay-mono now later g (passed r) h (e, w, s, q) = (e, IsReady-mono now later g h w, s, q)
  IsOnWay-mono now later g (waiting r) h (e, w, s) = (e, IsReady-mono now later g h w, s)
  IsOnWay-mono now later g (holding r) h (e, w) = (e, IsReady-mono now later g h w)
  IsOnWay-mono now later g (verifying r) h (e, w) = (e, IsReady-mono now later g h w)
  IsOnWay-mono now later g (minting r) h (e, s) = (e, omega (arith, s, h))
  IsOnWay-mono now later g (releasing out) h (t, s, l, e) = (t, s, omega (arith, l, h), e)
  IsOnWay-mono now later g (unqueuing out) h (t, s, l, e) = (t, s, omega (arith, l, h), e)
  IsOnWay-mono now later g (done out) h (t, s, l, e) = (t, s, omega (arith, l, h), e)

  -- A move takes the caller one place on.
  abbrev HasMoved : ℕ → Caller → Gate × Caller → Type 0
  HasMoved now c r = IsOnWay now r.0 r.1 × (moves_left r.1 ≤ moves_left c - 1)

  module _ (named : (length req.actions == 0) ≡ false) (typed : is_empty req.password ≡ false) where
    looks_at_open :
        (now later : ℕ) (g : Gate) (r : Request)
        → IsReady now g
        → look_again now later g r ≡ (record g { failures = [] }, verifying r)
    unfolding look_again throttled
    looks_at_open now later g r w =
        let old = length-recent_stale now g.failures w.3 in rw (old) refl

    arrives_at_open :
        (now later : ℕ) (g : Gate)
        → IsReady now g
        → arrive now later g req ≡ (record g { failures = [] }, passed req)
    unfolding arrive throttled
    arrives_at_open now later g w =
        ground (arith, w.1, named, typed, length-recent_stale now g.failures w.3)

    advance-HasMoved :
        (now : ℕ) (input : Input) (g : Gate) (c : Caller)
        → input.ctx_done ≡ false
        → IsOnWay now g c
        → HasMoved now c (advance verify now input g c)
    unfolding advance join_queue take_slot verify_password clear_failures moves_left
    advance-HasMoved now input g (fresh r) u (e, w, s, q) =
        let (later, c, v, f) = w in
        subst (λ (x : Request). HasMoved now (fresh x) (arrive now (now + input.lag) g x)) (sym e)
          (subst (λ (x : Gate × Caller). HasMoved now (fresh req) x)
            (sym (arrives_at_open now (now + input.lag) g w))
            ((refl, (later, c, v, tt), s, q), omega arith))
    advance-HasMoved now input g (passed r) u (e, w, s, q) = rw (q) ((e, w, s), omega arith)
    advance-HasMoved now input g (waiting r) u (e, w, s) = rw (u, s) ((e, w), omega arith)
    advance-HasMoved now input g (holding r) u (e, w) =
        let (later, c, v, f) = w in
        subst (λ (x : Gate × Caller). HasMoved now (holding r) x)
          (sym (looks_at_open now (now + input.lag) g r w)) ((e, (later, c, v, tt)), omega arith)
    advance-HasMoved now input g (verifying r) u (e, w) = rw (e, w.2) ((refl, w.0), omega arith)
    advance-HasMoved now input g (minting r) u (e, s) =
        ((now, s, omega arith, ap (λ (x : Request). grant now x) e), omega arith)
    advance-HasMoved now input g (releasing out) u w = (w, omega arith)
    advance-HasMoved now input g (unqueuing out) u w = (w, omega arith)
    advance-HasMoved now input g (done out) u w = (w, omega arith)

    All-moves :
        (now : ℕ) (g : Gate) (c : Caller) (es : List Event)
        → All IsAlone es
        → IsOnWay now g c
        → moves_left c ≤ count_if is_move es
        → (t : ℕ) × (start ≤ t)
          × (steps verify (record { gate = g; clock = now; callers = c ∷ [] }) es
              ≡ done (grant t req) ∷ [])
    unfolding steps step move_caller moves_left is_move
    All-moves now g (done out) [] a (t, s, l, e) n = (t, s, ap (λ (o : Outcome). done o ∷ []) e)
    All-moves now g (fresh r) [] a w n = absurd (omega (arith, n))
    All-moves now g (passed r) [] a w n = absurd (omega (arith, n))
    All-moves now g (waiting r) [] a w n = absurd (omega (arith, n))
    All-moves now g (holding r) [] a w n = absurd (omega (arith, n))
    All-moves now g (verifying r) [] a w n = absurd (omega (arith, n))
    All-moves now g (minting r) [] a w n = absurd (omega (arith, n))
    All-moves now g (releasing out) [] a w n = absurd (omega (arith, n))
    All-moves now g (unqueuing out) [] a w n = absurd (omega (arith, n))
    All-moves now g c (ticks d ∷ es) a w n =
        All-moves (now + d) g c es a.1 (IsOnWay-mono now (now + d) g c (omega arith) w) n
    All-moves now g c (moves i input ∷ es) a w n =
        let moved = advance-HasMoved now input g c a.0.1 w in
        let g' = (advance verify now input g c).0 in
        let c' = (advance verify now input g c).1 in
        rw (a.0.0) (
          All-moves (now + input.lag) g' c' es a.1
            (IsOnWay-mono now (now + input.lag) g' c' (omega arith) moved.0)
            (omega (arith, moved.1, n)))

-- The gate does not stay closed: when nobody is at work on it and every failure is fifteen minutes
-- old or more, a request with an action and the right password is granted, behind eight of its
-- moves, whatever time each of them takes and whatever time goes by between them, as long as it is
-- alone and its context is not cancelled.
pub steps-alone_granted :
    (verify : Bytes → Bytes → Bool) (g : Gate) (now : ℕ) (req : Request) (es : List Event)
    → g.slots ≡ 0
    → g.queued ≡ 0
    → configured g ≡ true
    → All (λ at. at + throttle_window ≤ now) g.failures
    → (length req.actions == 0) ≡ false
    → is_empty req.password ≡ false
    → verify g.hash req.password ≡ true
    → All IsAlone es
    → 8 ≤ count_if is_move es
    → (t : ℕ) × (now ≤ t)
      × (steps verify (record { gate = g; clock = now; callers = fresh req ∷ [] }) es
          ≡ done (grant t req) ∷ [])
steps-alone_granted verify g now req es s q c f a p v alone enough =
    All-moves verify now req a p now g (fresh req) es alone (refl, (omega arith, c, v, f), s, q)
      (unfold moves_left in enough)
