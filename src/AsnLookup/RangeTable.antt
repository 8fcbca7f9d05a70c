-- ===== src/AsnLookup/RangeTable.antt =====
-- internal/asnlookup/rangetable.go: the table of one dataset and one address family. An address of
-- the family is the number that Addr.Compare orders by. `search` is sort.Search.
pub mod Search
pub mod Lookup
use crucible_analytic.Prelude.{
  ℕ, zero, suc, ◌+◌, ◌-◌, ◌/◌, Bool, true, false, ◌||◌, List, [], ◌∷◌, Option, none, some, ltb, leb,
  ◌==◌, if◌then◌else◌, length, get_elem?,
}
use crucible_analytic.Prelude.Sorting.{sort_by}

-- `start` and `end`, both inclusive.
pub record RangeEntry (T : Type 0) : Type 0 where
  pub start : ℕ
  pub last : ℕ
  pub value : T

pub record RangeTable (T : Type 0) : Type 0 where
  pub entries : List (RangeEntry T)

-- `for i < j { h := (i+j)/2; if !f(h) { i = h+1 } else { j = h } }`. Each round makes the gap
-- smaller, so the gap bounds the rounds.
unfoldable pub search : ℕ → (ℕ → Bool) → ℕ → ℕ → ℕ
search zero f i j = i
search (suc fuel) f i j = elim (ltb i j) [
  | false ↦ i
  | true ↦ elim (f ((i + j) / 2)) [
    | true ↦ search fuel f i ((i + j) / 2)
    | false ↦ search fuel f ((i + j) / 2 + 1) j
  ]
]

module _ {T : Type 0} where
  unfoldable pub new_range_table : List (RangeEntry T) → RangeTable T
  new_range_table entries = record { entries = sort_by (λ e. e.start) entries }

  -- `entries[i].start.Compare(ip) > 0`.
  unfoldable pub starts_after : Option (RangeEntry T) → ℕ → Bool
  starts_after none ip = true
  starts_after (some e) ip = ltb ip e.start

  unfoldable pub checked : Option (RangeEntry T) → ℕ → Option T
  checked none ip = none
  checked (some e) ip = if ltb ip e.start || ltb e.last ip then none else some e.value

  -- The entry in front of the first that starts behind the address; there is none at 0.
  unfoldable pub entry_before : List (RangeEntry T) → ℕ → ℕ → Option T
  entry_before es zero ip = none
  entry_before es (suc i) ip = checked (get_elem? es i) ip

  -- A nil table is `none`.
  unfoldable pub lookup : Option (RangeTable T) → ℕ → Option T
  lookup none ip = none
  lookup (some t) ip =
      let n = length t.entries in
      if n == 0
      then none
      else entry_before t.entries (search n (λ i. starts_after (get_elem? t.entries i) ip) 0 n) ip
