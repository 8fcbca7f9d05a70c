-- ===== src/Restart/Watcher.antt =====
-- internal/restartreq/restartreq.go: the watcher of restart requests. A question is what the database
-- and the two clocks answer during one step; the log is the lines that the step writes. The reading of
-- a value, ParseRequest, is a parameter, since it is json.Unmarshal and time.Parse.
use crucible_analytic.Prelude.{
  ℕ, ◌-◌, ◌*◌, Bool, true, false, not, ◌&&◌, ◌||◌, List, [], ◌∷◌, ◌++◌, Option, none, some, Bytes,
  codes, ltb, leb, if◌then◌else◌,
}
use crucible_analytic.Prelude.Text.{bytes_eq, is_empty}
use crucible_analytic.RateStore.Window.{second}

abbrev pub key_prefix : Bytes
key_prefix = codes "process.restart."

abbrev pub key : Bytes → Bytes
key service = key_prefix ++ service

abbrev pub satisfied : ℕ → ℕ → Bool
satisfied requested started = not (ltb started requested)

abbrev pub privilege_recheck : ℕ
privilege_recheck = 5 * 60 * second

pub record State : Type 0 where
  pub role : Bytes
  pub permitted : Bool
  pub asked_at : ℕ
  pub who_warned : Bool
  pub read_warned : Bool
  pub reported : Bytes

abbrev pub new_state : State
new_state = record {
  role = [];
  permitted = false;
  asked_at = 0;
  who_warned = false;
  read_warned = false;
  reported = [];
}

-- The row under the service's key and the database's clock, or the two kinds of error that
-- mayNotRead tells apart.
pub data Read : Type 0 where
  row : Option Bytes → ℕ → Read
  may_not_read failed : Read

pub record Question : Type 0 where
  pub stopping : Bool  -- the context has ended when an error comes back
  pub who : Option (Bytes × Bool)  -- whoAndMay, `none` for an error
  pub started : Option ℕ
  pub read : Read
  pub clock : ℕ
  pub asked : ℕ  -- the process's clock behind whoAndMay
  pub refused : ℕ  -- and behind a read that is refused

pub data Line : Type 0 where
  could_not_ask role_cannot_read role_can_read cannot_read_any_more : Line
  could_not_read being_read_again not_a_time later_than_clock restart_requested : Line

-- What a part of the step leaves, and whether the step goes on or, at its end, exits.
pub record Stepped : Type 0 where
  pub state : State
  pub lines : List Line
  pub go : Bool

abbrev pub quiet : State → Bool → Stepped
quiet st go = record { state = st; lines = []; go = go }

abbrev pub said : State → Line → Bool → Stepped
said st line go = record { state = st; lines = line ∷ []; go = go }

unfoldable pub asks_role : ℕ → State → ℕ → Bool
asks_role recheck st clock =
    is_empty st.role || (not st.permitted && leb recheck (clock - st.asked_at))

-- The two lines on what the role may read.
unfoldable pub role_lines : State → Bool → List Line
role_lines st may =
    if not may && (is_empty st.role || st.permitted)
    then role_cannot_read ∷ []
    else if may && not (is_empty st.role) && not st.permitted
    then role_can_read ∷ []
    else []

unfoldable pub who_answer : State → Bool → Option (Bytes × Bool) → Stepped
who_answer st stopping none =
    if stopping || st.who_warned
    then quiet st false
    else said (record st { who_warned = true }) could_not_ask false
who_answer st stopping (some (role, may)) = record {
  state = record st { who_warned = false; role = role; permitted = may };
  lines = role_lines st may;
  go = true;
}

unfoldable pub ask_role : ℕ → State → Question → Stepped
ask_role recheck st q =
    if asks_role recheck st q.clock
    then who_answer (record st { asked_at = q.asked }) q.stopping q.who
    else quiet st true

-- One line for one value that is no use.
unfoldable pub report : State → Bytes → Line → Stepped
report st value line =
    if bytes_eq st.reported value
    then quiet st false
    else said (record st { reported = value }) line false

module _ (parse_request : Bytes → Option ℕ) where
  unfoldable pub judge : State → ℕ → ℕ → Bytes → Option ℕ → Stepped
  judge st started now value none = report st value not_a_time
  judge st started now value (some requested) =
      if ltb now requested
      then report st value later_than_clock
      else if satisfied requested started
      then quiet (record st { reported = [] }) false
      else said (record st { reported = [] }) restart_requested true

  unfoldable pub found : State → ℕ → Option Bytes → ℕ → Stepped
  found st started none now = quiet (record st { reported = [] }) false
  found st started (some value) now = judge st started now value (parse_request value)

  unfoldable pub read_request : State → Question → ℕ → Read → Stepped
  read_request st q started may_not_read =
      if q.stopping
      then quiet st false
      else said (record st { permitted = false; asked_at = q.refused }) cannot_read_any_more false
  read_request st q started failed =
      if q.stopping || st.read_warned
      then quiet st false
      else said (record st { read_warned = true }) could_not_read false
  read_request st q started (row value now) =
      let after = found (record st { read_warned = false }) started value now in
      if st.read_warned then record after { lines = being_read_again ∷ after.lines } else after

  -- `st.permitted` and `w.Started()`.
  unfoldable pub when_started : State → Question → Bool → Option ℕ → Stepped
  when_started st q false started = quiet st false
  when_started st q true none = quiet st false
  when_started st q true (some started) = read_request st q started q.read

  unfoldable pub with_role : Stepped → Question → Stepped
  with_role s q =
      let after = when_started s.state q s.state.permitted q.started in
      if s.go then record after { lines = s.lines ++ after.lines } else s

  unfoldable pub step : ℕ → State → Question → Stepped
  step recheck st q = with_role (ask_role recheck st q) q
