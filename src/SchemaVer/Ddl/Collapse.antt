-- ===== src/SchemaVer/Ddl/Collapse.antt =====
-- collapseSpace run twice.
use crucible_analytic.Prelude.{◌≡◌, refl, true, false, [], ◌∷◌, Bytes, arith, Bool}
use crucible_analytic.SchemaVer.Ddl.{ascii_space, collapse_loop, collapse_space, strip_comments}

collapse_loop-twice :
    (gap : Bool) (s : Bytes)
    → collapse_loop false true (collapse_loop gap true s) ≡ collapse_loop gap true s
unfolding collapse_loop ascii_space
collapse_loop-twice gap [] = refl
collapse_loop-twice gap (c ∷ s) =
    ground (arith, collapse_loop-twice true s, collapse_loop-twice false s)

collapse_start-twice :
    (s : Bytes) → collapse_loop true false (collapse_loop true false s) ≡ collapse_loop true false s
unfolding collapse_loop
collapse_start-twice [] = refl
collapse_start-twice (c ∷ s) = ground (arith, collapse_start-twice s, collapse_loop-twice false s)

-- The white space of a stripped file is collapsed: collapsing it again changes nothing.
pub collapse_space-strip_comments :
    (sql : Bytes) → collapse_space (strip_comments sql) ≡ strip_comments sql
unfolding collapse_space strip_comments
collapse_space-strip_comments sql = collapse_start-twice _
