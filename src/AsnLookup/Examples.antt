-- ===== src/AsnLookup/Examples.antt =====
-- A table of three ranges and a cache of two entries.
use crucible_analytic.Prelude.{
  ℕ, ◌≡◌, inl, inr, List, [], ◌∷◌, some, Bytes, codes, arith, ℕ_discrete,
}
use crucible_analytic.AsnLookup.RangeTable.{RangeEntry, lookup, new_range_table}
use crucible_analytic.AsnLookup.RangeTable.Lookup.{scan, IsDisjoint, lookup-new_range_table}
use crucible_analytic.Prelude.Maps
use crucible_analytic.AsnLookup.Cache.{
  TtlCache, new_ttl_cache, get, set, set_found, make_room, push, back, remove_element, value_of,
}
use crucible_analytic.AsnLookup.Cache.Agreement.{IsBounded}
use crucible_analytic.AsnLookup.Cache.Laws.{operations-IsBounded}

-- Out of order.
abbrev ranges : List (RangeEntry Bytes)
ranges =
    record { start = 300; last = 399; value = codes "TR" }
    ∷ record { start = 100; last = 199; value = codes "AU" }
    ∷ record { start = 200; last = 250; value = codes "DE" }
    ∷ []

ranges-IsDisjoint : IsDisjoint ranges
ranges-IsDisjoint = (
  omega arith,
  (inr (omega arith), (inr (omega arith), tt)),
  (omega arith, (inl (omega arith), tt), (omega arith, tt, tt)),
)

lookup-new_range_table_example : lookup (some (new_range_table ranges)) 210 ≡ scan ranges 210
lookup-new_range_table_example = lookup-new_range_table ranges 210 ranges-IsDisjoint

abbrev new_cache : TtlCache ℕ Bytes
new_cache = new_ttl_cache 2 60

new-IsBounded : IsBounded ℕ_discrete new_cache
unfolding Maps.lookup
new-IsBounded = record {
  fits = omega arith;
  once = tt;
  made = λ el h. cc;
  listed = λ el h. cc;
  mapped = λ k el h. cc;
}

-- Two entries, and room for no third.
abbrev full_cache : TtlCache ℕ Bytes
full_cache = set ℕ_discrete (set ℕ_discrete new_cache 20 1 (codes "a")) 30 2 (codes "b")

half-IsBounded : IsBounded ℕ_discrete (set ℕ_discrete new_cache 20 1 (codes "a"))
half-IsBounded =
    (operations-IsBounded ℕ_discrete new_cache 20 1 (codes "a") (omega arith) new-IsBounded).1

full_cache-IsBounded : IsBounded ℕ_discrete full_cache
unfolding set set_found make_room push back remove_element value_of Maps.lookup Maps.insert
    ℕ_discrete
full_cache-IsBounded =
    (operations-IsBounded ℕ_discrete (set ℕ_discrete new_cache 20 1 (codes "a")) 30 2 (codes "b")
      (omega arith) half-IsBounded).1

operations-IsBounded_example :
    IsBounded ℕ_discrete (get ℕ_discrete full_cache 40 3).0
    × IsBounded ℕ_discrete (set ℕ_discrete full_cache 40 3 (codes "c"))
unfolding set set_found make_room push back remove_element value_of Maps.lookup Maps.insert
    ℕ_discrete
operations-IsBounded_example =
    operations-IsBounded ℕ_discrete full_cache 40 3 (codes "c") (omega arith) full_cache-IsBounded
