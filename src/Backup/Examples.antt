-- ===== src/Backup/Examples.antt =====
-- Requests for backups on concrete input.
use crucible_analytic.Prelude.{
  ◌+◌, ◌≤◌, ◌≡◌, ◌≢◌, ◌⊎◌, ◌↔◌, ◌||◌, refl, Bool, true, false, List, [], ◌∷◌, none, some, Bytes,
  All, count_if, arith, codes, ok, err,
}
use crucible_analytic.Prelude.Int.{pos}
use crucible_analytic.Prelude.Text.{bytes_eq}
use crucible_analytic.Backup.Sets.{
  sets, set_analitik, set_panel, set_sirlar, find_set, set_by_name, add_tables, tables_loop,
  tables_for, validate_sets, kind_of, kind_loop, kind_of_lists, validate_kind, mixed_request,
}
use crucible_analytic.Backup.Sets.Kinds.{Names, validate_sets_lem}
use crucible_analytic.Backup.Queue.{
  succeeded, Actor, Request, Outcome, Carried, Times, QueueError, in_flight, ask, run_once,
  stale_after,
}
use crucible_analytic.Backup.Queue.OneInFlight.{
  Statement, asks, asks_verify, claims, IsBy, perform_all, empty_table, perform_all-one,
}
use crucible_analytic.Backup.Queue.Released.{ask-run_once}

abbrev both : List Bytes
both = set_panel ∷ set_sirlar ∷ []

refuses_both : validate_sets both ≡ err mixed_request
unfolding validate_sets kind_of kind_loop kind_of_lists set_by_name find_set sets bytes_eq
refuses_both = refl

traffic : validate_sets (set_analitik ∷ []) ≡ ok tt
unfolding validate_sets kind_of kind_loop kind_of_lists set_by_name find_set sets bytes_eq
    validate_kind tables_for tables_loop add_tables
traffic = refl

validate_sets_lem_example :
    (validate_sets both ≡ ok tt) ↔ ((both ≢ []) × (All (Names false) both ⊎ All (Names true) both))
validate_sets_lem_example = validate_sets_lem both

abbrev traffic_tables : List Bytes
traffic_tables = codes "traffic_snapshots" ∷ codes "beacon_events" ∷ []

resolves : tables_for (set_analitik ∷ set_analitik ∷ []) ≡ ok traffic_tables
unfolding tables_for tables_loop set_by_name find_set sets bytes_eq add_tables
resolves = refl

abbrev twice : List Bytes
twice = set_panel ∷ set_analitik ∷ set_panel ∷ []

abbrev once : List Bytes
once = set_analitik ∷ set_panel ∷ []

repeated : (a b : Bool) → (a || (b || (a || false))) ≡ (b || (a || false))
repeated a b = ground arith

abbrev owner : Actor
owner = record { kind = codes "user"; id = some (pos 1); label = [] }

abbrev done_well : Outcome
done_well = record { state = succeeded; cause = []; result = []; backup_id = some (pos 9) }

-- Asked, asked again, claimed and left.
abbrev crash : List Statement
crash =
    asks 1 owner [] (set_analitik ∷ []) ∷ asks_verify 2 owner [] (pos 7) ∷ claims 3 (codes "u") ∷ []

crash-IsBy : All (IsBy 3) crash
crash-IsBy = ground arith

perform_all-one_example : count_if in_flight (perform_all empty_table crash).rows ≤ 1
perform_all-one_example = perform_all-one 3 crash crash-IsBy

abbrev next_run : Times
next_run = record {
  swept_at = 4 + stale_after;
  claimed_at = 5 + stale_after;
  finished_at = 6 + stale_after;
}

abbrev carries : Request → Carried
carries r = record { outcome = done_well; error = none }

abbrev text : QueueError → Bytes
text e = codes "error"

ask-run_once_example :
    let t = (run_once next_run (codes "u") text carries (perform_all empty_table crash)).0 in
    (r : Request) × ((ask (7 + stale_after) owner [] (set_analitik ∷ []) t).1 ≡ ok r)
ask-run_once_example =
    ask-run_once 3 crash next_run (codes "u") text carries (7 + stale_after) owner []
      (set_analitik ∷ []) crash-IsBy (omega arith) traffic
