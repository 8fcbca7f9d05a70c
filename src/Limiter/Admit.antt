-- ===== src/Limiter/Admit.antt =====
-- internal/limiter/limiter.go: Config, Limiter and Admit, one atomic operation at a time. A caller
-- of Admit is the place in the code where its goroutine stands, with its local values; `advance`
-- takes it over one atomic operation or one locked section. Between two such steps any other
-- caller may move, so a schedule of events is an interleaving.
use crucible_analytic.Prelude.{
  ℕ, ◌*◌, Bool, true, false, List, [], ◌∷◌, Option, none, some, ltb, if◌then◌else◌, get_elem?, set,
}
use crucible_analytic.Prelude.Int.{ℤ, pos, pos_part, is_positive, incr, decr, ltb_ℤ, leb_ℤ, eqb_ℤ}
use crucible_analytic.RateStore.Window.{second, Rate}
use crucible_analytic.Limiter.Rate.{
  GlobalRateCounter, new_global_rate_counter, record_arrival, rate,
}

-- `other` is every string that is none of the three, the empty one included.
pub data Policy : Type 0 where
  fail_open fail_closed throttle other : Policy

pub record Config : Type 0 where
  pub max_concurrent_connections : ℤ
  pub max_requests_per_second : ℤ
  pub policy : Policy
  pub throttle_queue_size : ℤ

pub record Limiter : Type 0 where
  pub cfg : Config
  pub current : ℤ
  pub waiting : ℤ
  pub rate : GlobalRateCounter

abbrev pub new_limiter : Config → ℕ → Limiter
new_limiter cfg rate_window = record {
  cfg = cfg;
  current = pos 0;
  waiting = pos 0;
  rate = new_global_rate_counter rate_window;
}

abbrev pub new : Config → Limiter
new cfg = new_limiter cfg second

unfoldable pub set_config : Config → Limiter → Limiter
set_config cfg l = record l { cfg = cfg }

-- Where a caller stands. The flag is the parameter `arriving` of tryProceed: a request that
-- arrives, or a queued one that looks again.
pub data Caller : Type 0 where
  fresh : Caller  -- before Admit
  checking : Config → Bool → Caller  -- in overRate, before `record`
  measuring : Config → Bool → ℕ → Caller  -- in overRate, before `rate` at the time read
  acquiring : Config → Bool → Caller  -- in tryAcquire, before `current` is read
  swapping : Config → Bool → ℤ → Caller  -- in tryAcquire, before CompareAndSwap
  refused : Config → Caller  -- in Admit, before the switch on the policy
  joining : Config → Caller  -- in throttleWait, before `waiting` is raised
  pausing : Config → Caller  -- in throttleWait, in the select
  leaving : Bool → Caller  -- in throttleWait, before the deferred decrement
  proceeding degraded rejected : Caller  -- Admit has returned this decision
  finished : Caller  -- the release function has been called

-- The decision of an attempt that has acquired a slot: a queued caller first leaves the queue.
unfoldable pub won : Bool → Caller
won true = proceeding
won false = leaving true

-- An attempt that failed: an arriving request meets the policy, a queued one waits on.
unfoldable pub lost : Config → Bool → Caller
lost cfg true = refused cfg
lost cfg false = pausing cfg

-- `l.rate.rate(now) > float64(cfg.MaxRequestsPerSecond)`.
unfoldable pub is_over : Rate → ℤ → Bool
is_over r limit = ltb (pos_part limit * r.den) r.num

-- The time that a step reads, and whether a select finds the context done.
pub record Input : Type 0 where
  pub now : ℕ
  pub ctx_done : Bool

unfoldable pub start_check : Input → Limiter → Config → Bool → Limiter × Caller
start_check input l cfg true =
    (record l { rate = record_arrival l.rate input.now }, measuring cfg true input.now)
start_check input l cfg false = (l, measuring cfg false input.now)

unfoldable pub try_acquire : Limiter → Config → Bool → Limiter × Caller
unfolding won lost
try_acquire l cfg arriving =
    if is_positive cfg.max_concurrent_connections
    then if leb_ℤ cfg.max_concurrent_connections l.current
      then (l, lost cfg arriving)
      else (l, swapping cfg arriving l.current)
    else (record l { current = incr l.current }, won arriving)

unfoldable pub compare_and_swap : Limiter → Config → Bool → ℤ → Limiter × Caller
unfolding won
compare_and_swap l cfg arriving cur =
    if eqb_ℤ l.current cur
    then (record l { current = incr cur }, won arriving)
    else (l, acquiring cfg arriving)

unfoldable pub apply_policy : Limiter → Config → Policy → Limiter × Caller
apply_policy l cfg fail_closed = (l, rejected)
apply_policy l cfg throttle = (l, joining cfg)
apply_policy l cfg fail_open = (record l { current = incr l.current }, degraded)
apply_policy l cfg other = (record l { current = incr l.current }, degraded)

unfoldable pub join_queue : Limiter → Config → Limiter × Caller
join_queue l cfg =
    let l' = record l { waiting = incr l.waiting } in
    if is_positive cfg.throttle_queue_size
    then if ltb_ℤ cfg.throttle_queue_size l'.waiting
      then (l', leaving false)
      else (l', checking cfg false)
    else (l, rejected)

abbrev decided : Bool → Caller
decided true = proceeding
decided false = rejected

unfoldable pub release : Limiter → Limiter
release l = record l { current = decr l.current }

unfoldable pub advance : Input → Limiter → Caller → Limiter × Caller
unfolding start_check try_acquire compare_and_swap apply_policy join_queue release won lost
advance input l fresh = (l, checking l.cfg true)
advance input l (checking cfg arriving) =
    if is_positive cfg.max_requests_per_second
    then start_check input l cfg arriving
    else (l, acquiring cfg arriving)
advance input l (measuring cfg arriving now) =
    if is_over (rate l.rate now) cfg.max_requests_per_second
    then (l, lost cfg arriving)
    else (l, acquiring cfg arriving)
advance input l (acquiring cfg arriving) = try_acquire l cfg arriving
advance input l (swapping cfg arriving cur) = compare_and_swap l cfg arriving cur
advance input l (refused cfg) = apply_policy l cfg cfg.policy
advance input l (joining cfg) = join_queue l cfg
advance input l (pausing cfg) =
    if input.ctx_done then (l, leaving false) else (l, checking cfg false)
advance input l (leaving done) = (record l { waiting = decr l.waiting }, decided done)
advance input l proceeding = (release l, finished)
advance input l degraded = (release l, finished)
advance input l rejected = (l, rejected)
advance input l finished = (l, finished)

-- The limiter and all its callers.
pub record System : Type 0 where
  pub limiter : Limiter
  pub callers : List Caller

pub data Event : Type 0 where
  moves : ℕ → Input → Event
  configures : Config → Event

unfoldable pub move_caller : System → ℕ → Input → Option Caller → System
unfolding advance
move_caller s i input none = s
move_caller s i input (some c) =
    let (l, c') = advance input s.limiter c in record { limiter = l; callers = set s.callers i c' }

unfoldable pub step : System → Event → System
unfolding move_caller set_config
step s (moves i input) = move_caller s i input (get_elem? s.callers i)
step s (configures cfg) = record s { limiter = set_config cfg s.limiter }

unfoldable pub run : System → List Event → System
run s [] = s
run s (e ∷ es) = run (step s e) es
