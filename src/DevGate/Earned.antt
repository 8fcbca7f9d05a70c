-- ===== src/DevGate/Earned.antt =====
-- What stands behind an authorization: a right password, in a request that named the action.
use mathlib.Core.Option.{some-injective}
use crucible_analytic.Prelude.{
  ℕ, suc, zero, ◌≡◌, ◌⊎◌, refl, ap, subst, Bool, true, false, List, [], ◌∷◌, some, Bytes, get_elem?,
  set, any, arith, Option-cases, inl, inr, map,
}
use crucible_analytic.Prelude.Maps.{lookup}
use crucible_analytic.Prelude.Text.{bytes_eq}
use crucible_analytic.DevGate.Gate.{
  Gate, Decision, refused, Request, Outcome, Caller, fresh, passed, waiting, holding, verifying,
  minting, releasing, unqueuing, done, Input, System, Event, moves, ticks, throttled, grant, arrive,
  join_queue, take_slot, look_again, verify_password, record_failure, clear_failures, advance,
  move_caller, step, for_action, authorizes,
}
use crucible_analytic.DevGate.Bounds.{run, watch, start_system}
use crucible_analytic.DevGate.Grants.{authorizes-grant}

module _ (verify : Bytes → Bytes → Bool) (hash : Bytes) where
  -- A result without authorizations, or the grant of a request with the right password.
  abbrev IsEarned : Request → Outcome → Type 0
  IsEarned req o =
      (o.auths ≡ []) ⊎ ((t : ℕ) × (o ≡ grant t req) × (verify hash req.password ≡ true))

  refused-IsEarned : (req : Request) (d : Decision) (n : ℕ) → IsEarned req (refused d n)
  refused-IsEarned req d n = inl refl

  -- The caller that works for the request.
  abbrev Follows : Request → Caller → Type 0
  Follows req (fresh r) = r ≡ req
  Follows req (passed r) = r ≡ req
  Follows req (waiting r) = r ≡ req
  Follows req (holding r) = r ≡ req
  Follows req (verifying r) = r ≡ req
  Follows req (minting r) = (r ≡ req) × (verify hash req.password ≡ true)
  Follows req (releasing o) = IsEarned req o
  Follows req (unqueuing o) = IsEarned req o
  Follows req (done o) = IsEarned req o

  advance-Follows :
      (now : ℕ) (input : Input) (g : Gate) (req : Request) (c : Caller)
      → g.hash ≡ hash
      → Follows req c
      → let r = advance verify now input g c in (r.0.hash ≡ hash) × Follows req r.1
  unfolding advance arrive throttled join_queue take_slot look_again verify_password record_failure
      clear_failures
  advance-Follows now input g req (minting r) e f = (e, inr (now, ap (grant now) f.0, f.1))
  advance-Follows now input g req (releasing o) e f = (e, f)
  advance-Follows now input g req (unqueuing o) e f = (e, f)
  advance-Follows now input g req (done o) e f = (e, f)
  advance-Follows now input g req (verifying r) e f = ground (arith, e, f, refused-IsEarned req)
  advance-Follows now input g req (fresh r) e f = ground (arith, e, f, refused-IsEarned req)
  advance-Follows now input g req (passed r) e f = ground (arith, e, f, refused-IsEarned req)
  advance-Follows now input g req (waiting r) e f = ground (arith, e, f, refused-IsEarned req)
  advance-Follows now input g req (holding r) e f = ground (arith, e, f, refused-IsEarned req)

  abbrev AllFollow : List Request → List Caller → Type 0
  AllFollow [] [] = Unit
  AllFollow (r ∷ rs) (c ∷ cs) = Follows r c × AllFollow rs cs
  AllFollow [] (c ∷ cs) = ⊥
  AllFollow (r ∷ rs) [] = ⊥

  follower :
      (rs : List Request) (cs : List Caller) (i : ℕ) (c : Caller)
      → AllFollow rs cs
      → get_elem? cs i ≡ some c
      → (req : Request) × (get_elem? rs i ≡ some req)
        × Follows req c
        × ((new : Caller) → Follows req new → AllFollow rs (set cs i new))
  follower [] [] i c f e = cc
  follower [] (d ∷ cs) i c f e = absurd f
  follower (r ∷ rs) [] i c f e = absurd f
  follower (r ∷ rs) (d ∷ cs) zero c f e =
      (r, refl, subst (Follows r) (some-injective d c e) f.0, λ new h. (h, f.1))
  follower (r ∷ rs) (d ∷ cs) (suc i) c f e =
      let (req, at, now, later) = follower rs cs i c f.1 e in
      (req, at, now, λ new h. (f.0, later new h))

  record IsOwned (rs : List Request) (s : System) : Type 0 where
    same : s.gate.hash ≡ hash
    all : AllFollow rs s.callers

  step-IsOwned :
      (rs : List Request) (s : System) (e : Event) → IsOwned rs s → IsOwned rs (step verify s e)
  unfolding step move_caller
  step-IsOwned rs s (ticks d) v = record { same = v.same; all = v.all }
  step-IsOwned rs s (moves i input) v = elim (Option-cases (get_elem? s.callers i)) [
    | inl e ↦ rw e v
    | inr (c, e) ↦
        let (req, at, now, later) = follower rs s.callers i c v.all e in
        let (same, follows) = advance-Follows s.clock input s.gate req c v.same now in
        rw e (record { same = same; all = later _ follows })
  ]

  run-IsOwned :
      (rs : List Request) (s : System) (wrong : List ℕ) (es : List Event)
      → IsOwned rs s
      → IsOwned rs (run verify s wrong es).0
  unfolding run
  run-IsOwned rs s wrong [] v = v
  run-IsOwned rs s wrong (e ∷ es) v =
      run-IsOwned rs (step verify s e) (watch verify s wrong e) es (step-IsOwned rs s e v)

  fresh-AllFollow : (rs : List Request) → AllFollow rs (map fresh rs)
  fresh-AllFollow [] = tt
  fresh-AllFollow (r ∷ rs) = (refl, fresh-AllFollow rs)

  no_auths :
      (o : Outcome) (t : ℕ) (a b : Bytes) → o.auths ≡ [] → authorizes t (for_action o a) b ≡ false
  unfolding authorizes for_action lookup
  no_auths o t a b e = ground (arith, e)

  -- Whatever the requests and however their operations interleave, when the result of a caller holds
  -- an authorization that permits an action at some time, the password of that caller's own request
  -- is the right one and the request names the action.
  pub run-done_earned :
      (clock : ℕ) (rs : List Request) (es : List Event) (i : ℕ) (o : Outcome) (t : ℕ) (a b : Bytes)
      → get_elem? (run verify (start_system hash clock rs) [] es).0.callers i ≡ some (done o)
      → authorizes t (for_action o a) b ≡ true
      → (req : Request) × (get_elem? rs i ≡ some req)
        × (verify hash req.password ≡ true)
        × (any (λ c. bytes_eq c b) req.actions ≡ true)
  run-done_earned clock rs es i o t a b at h =
      let start : IsOwned rs (start_system hash clock rs) = record {
        same = refl;
        all = fresh-AllFollow rs;
      } in
      let v = run-IsOwned rs (start_system hash clock rs) [] es start in
      let (req, asked, earned, _) = follower rs _ i (done o) v.all at in
      elim earned [
        | inl e ↦ let none_left = no_auths o t a b e in cc
        | inr (now, e, right) ↦
            let granted = authorizes-grant now t req a b in
            (req, asked, right, ground (arith, rw e at h, granted))
      ]
