-- ===== src/Storage/Rollup/Steps.antt =====
-- internal/storage/rollup.go while rows arrive and go between the statements of Refresh and Prune.
-- One Refresh is under way at a time, which LogRefresh's one caller is.
use crucible_analytic.Prelude.{
  ℕ, ◌-◌, ◌≤◌, ◌≡◌, false, List, [], ◌∷◌, Option, none, some, leb, keep_if,
}
use crucible_analytic.Storage.Buckets.{Traffic}
use crucible_analytic.Storage.Rollup.{
  rollup_recheck, Rollup, not_skipped, no_rows, already_materialized, RollupReport, write_buckets,
  move_mark, plan_at, is_pruned, prune,
}

-- Where a Refresh stands between its statements.
pub data Phase : Type 0 where
  idle : Phase
  has_planned : RollupReport → Phase
  has_written : RollupReport → Phase

pub record Cycle : Type 0 where
  pub rollup : Rollup
  pub phase : Phase

-- A row is stored, or retention takes every row from before a time; a Refresh begins, or takes its
-- next statement; Prune. A Refresh that fails is one that takes no further statement before the next
-- begins.
pub data Event : Type 0 where
  arrives : Traffic → Event
  expires : ℕ → Event
  begins : ℕ → Event
  writes : Event
  moves : Event
  prunes : (now keep_days : ℕ) → Event

unfoldable pub begin : RollupReport → Phase
begin report = elim report.skipped [
  | not_skipped ↦ has_planned report
  | no_rows ↦ idle
  | already_materialized ↦ idle
]

unfoldable pub write : Rollup → Phase → Cycle
write r (has_planned report) = record {
  rollup = write_buckets report.from report.through r;
  phase = has_written report;
}
write r idle = record { rollup = r; phase = idle }
write r (has_written report) = record { rollup = r; phase = has_written report }

unfoldable pub move : Rollup → Phase → Cycle
move r (has_written report) = record { rollup = move_mark report.through r; phase = idle }
move r idle = record { rollup = r; phase = idle }
move r (has_planned report) = record { rollup = r; phase = has_planned report }

unfoldable pub pruned : Rollup → Option (Rollup × ℕ) → Rollup
pruned r none = r
pruned r (some (left, n)) = left

unfoldable pub happen : Cycle → Event → Cycle
happen c (arrives row) = record c { rollup = record c.rollup { raw = row ∷ c.rollup.raw } }
happen c (expires before) = record c {
  rollup = record c.rollup { raw = keep_if (λ r. leb before r.time) c.rollup.raw };
}
happen c (begins now) = record c { phase = begin (plan_at now c.rollup) }
happen c writes = write c.rollup c.phase
happen c moves = move c.rollup c.phase
happen c (prunes now keep_days) = record c {
  rollup = pruned c.rollup (prune now keep_days c.rollup);
}

unfoldable pub happen_all : Cycle → List Event → Cycle
happen_all c [] = c
happen_all c (e ∷ es) = happen_all (happen c e) es

abbrev pub IsSince : Option ℕ → ℕ → Type 0
IsSince none t = Unit
IsSince (some m) t = m - rollup_recheck ≤ t

abbrev pub IsInTime : Phase → ℕ → Type 0
IsInTime idle t = Unit
IsInTime (has_planned report) t = report.from ≤ t
IsInTime (has_written report) t = report.through - rollup_recheck ≤ t

-- A row is no older than the watermark pulled back; between the first statements of a refresh no
-- older than its start, and once it has summed its range no older than the end pulled back.
abbrev pub IsTimely : Cycle → Event → Type 0
IsTimely c (arrives row) = IsSince c.rollup.mark row.time × IsInTime c.phase row.time
IsTimely c (expires before) = Unit
IsTimely c (begins now) = Unit
IsTimely c writes = Unit
IsTimely c moves = Unit
IsTimely c (prunes now keep_days) = Unit

abbrev pub AreTimely : Cycle → List Event → Type 0
AreTimely c [] = Unit
AreTimely c (e ∷ es) = IsTimely c e × AreTimely (happen c e) es

-- The event takes nothing of the bucket away.
abbrev pub Keeps : ℕ → Event → Type 0
Keeps b (arrives row) = Unit
Keeps b (expires before) = before ≤ b
Keeps b (begins now) = Unit
Keeps b writes = Unit
Keeps b moves = Unit
Keeps b (prunes now keep_days) = is_pruned now keep_days b ≡ false

-- Tables of a site that has none yet.
abbrev pub no_rollup : Cycle
no_rollup = record { rollup = record { raw = []; table = []; mark = none }; phase = idle }
