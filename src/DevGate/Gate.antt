-- ===== src/DevGate/Gate.antt =====
-- internal/devgate/devgate.go: Gate.Verify, one atomic operation at a time. A caller is the place in
-- decide where its goroutine stands; `advance` takes it over one operation on a channel or one
-- locked section, and any other caller may move between two of them. The clock counts nanoseconds.
-- argon2id.Verify and argon2id.CheckEncoding are parameters; the log line and the audit hook behind
-- decide do not touch the gate.
use crucible_analytic.Prelude.{
  ℕ, suc, ◌+◌, ◌-◌, ◌*◌, ◌/◌, Bool, true, false, not, ◌&&◌, ◌||◌, List, [], ◌∷◌, ◌++◌, Option, none,
  some, Bytes, ltb, ◌==◌, if◌then◌else◌, length, get_or, get_elem?, set, keep_if, ℕ_discrete,
  Result, ok, err,
}
use crucible_analytic.Prelude.Maps.{lookup, insert}
use crucible_analytic.Prelude.Text.{bytes_eq, is_empty}
use crucible_analytic.RateStore.Window.{second}

abbrev pub grant_lifetime : ℕ
grant_lifetime = 30 * second

abbrev pub throttle_window : ℕ
throttle_window = 15 * 60 * second

abbrev pub max_failures : ℕ
max_failures = 5

abbrev pub max_queued : ℕ
max_queued = 4

pub record Config : Type 0 where
  pub password_hash : Bytes
  pub password : Bytes

pub data Decision : Type 0 where
  granted wrong_password no_password not_configured throttled_out busy no_action : Decision

-- The clock that an authorization carries is an argument of `authorizes`.
pub record Authorization : Type 0 where
  pub action : Bytes
  pub expires_at : ℕ
  pub is_granted : Bool

abbrev pub Action-discrete : Discrete Bytes
Action-discrete = hlevel ℕ_discrete

pub record Outcome : Type 0 where
  pub decision : Decision
  pub retry_after : ℕ
  pub auths : List (Bytes × Authorization)

pub record Request : Type 0 where
  pub actions : List Bytes
  pub password : Bytes

-- The two channels are the numbers of values in them.
pub record Gate : Type 0 where
  pub hash : Bytes
  pub slots : ℕ
  pub queued : ℕ
  pub failures : List ℕ

pub data ConfigError : Type 0 where
  plaintext_password invalid_hash : ConfigError

unfoldable pub new : (Bytes → Bool) → Config → Result ConfigError Gate
new check_encoding cfg =
    if not (is_empty cfg.password)
    then err plaintext_password
    else if not (is_empty cfg.password_hash) && not (check_encoding cfg.password_hash)
    then err invalid_hash
    else ok (record { hash = cfg.password_hash; slots = 0; queued = 0; failures = [] })

unfoldable pub configured : Gate → Bool
configured g = not (is_empty g.hash)

-- The failures that still count: `at.After(now - throttleWindow)`.
unfoldable pub recent : ℕ → List ℕ → List ℕ
recent now failures = keep_if (λ at. ltb now (at + throttle_window)) failures

-- `Round(time.Second)`, and at least a second.
unfoldable pub retry_after_of : ℕ → ℕ
retry_after_of d =
    let rounded = (d + second / 2) / second * second in
    if ltb rounded second then second else rounded

-- The clock is read twice; `none` is a gate that is open.
unfoldable pub throttled : ℕ → ℕ → Gate → Gate × Option ℕ
unfolding recent retry_after_of
throttled cutoff_at retry_at g =
    let kept = recent cutoff_at g.failures in
    (
      record g { failures = kept },
      if ltb (length kept) max_failures
          then none
          else some (retry_after_of (get_or kept 0 0 + throttle_window - retry_at)),
    )

unfoldable pub record_failure : ℕ → Gate → Gate
record_failure now g = record g { failures = g.failures ++ now ∷ [] }

unfoldable pub clear_failures : Gate → Gate
clear_failures g = record g { failures = [] }

abbrev pub refused : Decision → ℕ → Outcome
refused decision retry_after = record { decision = decision; retry_after = retry_after; auths = [] }

unfoldable pub authorizations : ℕ → List Bytes → List (Bytes × Authorization)
authorizations expires [] = []
authorizations expires (a ∷ actions) =
    let rest = authorizations expires actions in
    if is_empty a
    then rest
    else insert Action-discrete a (record { action = a; expires_at = expires; is_granted = true })
        rest

unfoldable pub grant : ℕ → Request → Outcome
unfolding authorizations
grant now req = record {
  decision = granted;
  retry_after = 0;
  auths = authorizations (now + grant_lifetime) req.actions;
}

pub data Caller : Type 0 where
  fresh : Request → Caller  -- before decide
  passed : Request → Caller  -- before the send on `queued`
  waiting : Request → Caller  -- in the select on `slots`
  holding : Request → Caller  -- before the second look at the failures
  verifying : Request → Caller  -- in argon2id.Verify, before recordFailure or clearFailures
  minting : Request → Caller  -- before the clock is read for the grant
  releasing : Outcome → Caller  -- before the deferred receive from `slots`
  unqueuing : Outcome → Caller  -- before the deferred receive from `queued`
  done : Outcome → Caller

-- The time between the two readings of a step, and which case a ready select takes.
pub record Input : Type 0 where
  pub lag : ℕ
  pub ctx_done : Bool

unfoldable pub arrive : ℕ → ℕ → Gate → Request → Gate × Caller
unfolding throttled configured
arrive now later g req =
    if length req.actions == 0
    then (g, done (refused no_action 0))
    else if not (configured g)
    then (g, done (refused not_configured 0))
    else if is_empty req.password
    then (g, done (refused no_password 0))
    else let (g', retry) = throttled now later g in
      (g', elim retry [ none ↦ passed req | some d ↦ done (refused throttled_out d) ])

unfoldable pub join_queue : Gate → Request → Gate × Caller
join_queue g req =
    if ltb g.queued max_queued
    then (record g { queued = suc g.queued }, waiting req)
    else (g, done (refused busy second))

unfoldable pub take_slot : Bool → Gate → Request → Gate × Caller
take_slot true g req = (g, unqueuing (refused busy second))
take_slot false g req =
    if ltb g.slots 1 then (record g { slots = suc g.slots }, holding req) else (g, waiting req)

unfoldable pub look_again : ℕ → ℕ → Gate → Request → Gate × Caller
unfolding throttled
look_again now later g req =
    let (g', retry) = throttled now later g in
    (g', elim retry [ none ↦ verifying req | some d ↦ releasing (refused throttled_out d) ])

unfoldable pub verify_password : (Bytes → Bytes → Bool) → ℕ → Gate → Request → Gate × Caller
unfolding record_failure clear_failures
verify_password verify now g req =
    if verify g.hash req.password
    then (clear_failures g, minting req)
    else (record_failure now g, releasing (refused wrong_password 0))

unfoldable pub advance : (Bytes → Bytes → Bool) → ℕ → Input → Gate → Caller → Gate × Caller
unfolding arrive join_queue take_slot look_again verify_password grant
advance verify now input g (fresh req) = arrive now (now + input.lag) g req
advance verify now input g (passed req) = join_queue g req
advance verify now input g (waiting req) = take_slot input.ctx_done g req
advance verify now input g (holding req) = look_again now (now + input.lag) g req
advance verify now input g (verifying req) = verify_password verify now g req
advance verify now input g (minting req) = (g, releasing (grant now req))
advance verify now input g (releasing out) = (record g { slots = g.slots - 1 }, unqueuing out)
advance verify now input g (unqueuing out) = (record g { queued = g.queued - 1 }, done out)
advance verify now input g (done out) = (g, done out)

-- The gate with its clock and all its callers.
pub record System : Type 0 where
  pub gate : Gate
  pub clock : ℕ
  pub callers : List Caller

pub data Event : Type 0 where
  moves : ℕ → Input → Event
  ticks : ℕ → Event

unfoldable pub move_caller : (Bytes → Bytes → Bool) → System → ℕ → Input → Option Caller → System
unfolding advance
move_caller verify s i input none = s
move_caller verify s i input (some c) =
    let (g, c') = advance verify s.clock input s.gate c in
    record { gate = g; clock = s.clock + input.lag; callers = set s.callers i c' }

unfoldable pub step : (Bytes → Bytes → Bool) → System → Event → System
unfolding move_caller
step verify s (moves i input) = move_caller verify s i input (get_elem? s.callers i)
step verify s (ticks d) = record s { clock = s.clock + d }

-- `Result.For` and `Authorization.Authorizes`.
abbrev pub zero_authorization : Authorization
zero_authorization = record { action = []; expires_at = 0; is_granted = false }

unfoldable pub for_action : Outcome → Bytes → Authorization
for_action r action = elim (lookup Action-discrete action r.auths) [
  | none ↦ zero_authorization
  | some a ↦ a
]

unfoldable pub authorizes : ℕ → Authorization → Bytes → Bool
authorizes now a action =
    if not a.is_granted || is_empty a.action || is_empty action || not (bytes_eq a.action action)
    then false
    else ltb now a.expires_at
