-- ===== src/Backup/Sets/Tables.antt =====
-- The tables that a request resolves to, and the row that it is written as.
use crucible_analytic.Prelude.{
  ◌≡◌, refl, ap, true, false, ◌||◌, List, [], ◌∷◌, ◌++◌, map, any, Bytes, All, ok, err, Bool-cases,
  Result-cases, inl, inr, arith,
}
use crucible_analytic.Prelude.Text.{bytes_eq_sound, bytes_eq_refl}
use crucible_analytic.Backup.Sets.{
  Set, sets, contains, set_by_name, add_tables, tables_loop, tables_for, known_names, unknown_names,
  sort_strings, normalise,
}

contains-append :
    (xs ys : List Bytes) (t : Bytes) → contains (xs ++ ys) t ≡ (contains xs t || contains ys t)
contains-append [] ys t = refl
contains-append (x ∷ xs) ys t = ground (arith, contains-append xs ys t)

-- No table stands twice.
abbrev pub IsDistinct : List Bytes → Type 0
IsDistinct [] = Unit
IsDistinct (t ∷ ts) = (contains ts t ≡ false) × IsDistinct ts

append-IsDistinct :
    (xs : List Bytes) (t : Bytes)
    → IsDistinct xs
    → contains xs t ≡ false
    → IsDistinct (xs ++ t ∷ [])
append-IsDistinct [] t d h = (refl, tt)
append-IsDistinct (x ∷ xs) t d h = (
  ground (arith, contains-append xs (t ∷ []) x, d.0, h, bytes_eq_sound t x, bytes_eq_refl x),
  append-IsDistinct xs t d.1 (ground (arith, h)),
)

add_tables-IsDistinct : (out ts : List Bytes) → IsDistinct out → IsDistinct (add_tables out ts)
unfolding add_tables
add_tables-IsDistinct out [] d = d
add_tables-IsDistinct out (t ∷ ts) d = elim (Bool-cases (contains out t)) [
  | inl e ↦ rw e (add_tables-IsDistinct out ts d)
  | inr e ↦ rw e (add_tables-IsDistinct (out ++ t ∷ []) ts (append-IsDistinct out t d e))
]

contains-add_tables :
    (out ts : List Bytes) (t : Bytes)
    → contains (add_tables out ts) t ≡ (contains out t || contains ts t)
unfolding add_tables
contains-add_tables out [] t = ground arith
contains-add_tables out (x ∷ ts) t = elim (Bool-cases (contains out x)) [
  | inl e ↦ rw e (ground (arith, e, contains-add_tables out ts t, bytes_eq_sound x t))
  | inr e ↦
      rw e
        (ground (arith, contains-add_tables (out ++ x ∷ []) ts t, contains-append out (x ∷ []) t))
]

-- The tables of the set of that name, and none when there is no such set.
abbrev pub tables_of : Bytes → List Bytes
tables_of name = elim (set_by_name name) [ err e ↦ [] | ok s ↦ s.tables ]

tables_of-ok : (n : Bytes) (s : Set) → set_by_name n ≡ ok s → tables_of n ≡ s.tables
tables_of-ok n s e = rw (e, tables_of) refl

tables_loop_lem :
    (out names tables : List Bytes)
    → IsDistinct out
    → tables_loop out names ≡ ok tables
    → IsDistinct tables
      × ((t : Bytes)
          → contains tables t ≡ (contains out t || any (λ n. contains (tables_of n) t) names))
unfolding tables_loop
tables_loop_lem out [] tables d e = ground (arith, d, e)
tables_loop_lem out (n ∷ names) tables d e = elim (Result-cases (set_by_name n)) [
  | inl (x, x_e) ↦ let refused = rw x_e at e in cc
  | inr (s, s_e) ↦ elim (Bool-cases s.secrets) [
    | inl b ↦ let refused = rw (s_e, b) at e in cc
    | inr b ↦
        let (distinct, same) =
          tables_loop_lem (add_tables out s.tables) names tables
            (add_tables-IsDistinct out s.tables d) (rw (s_e, b) at e) in
        (
          distinct,
          λ t. ground (
            arith,
            same t,
            contains-add_tables out s.tables t,
            ap (λ (l : List Bytes). contains l t) (tables_of-ok n s s_e),
          ),
        )
  ]
]

-- A request that is resolved gives no table twice, and gives exactly the tables of the sets that it
-- names: none is left out and none is added.
tables_for_lem :
    (names tables : List Bytes)
    → tables_for names ≡ ok tables
    → IsDistinct tables
      × ((t : Bytes) → contains tables t ≡ any (λ n. contains (tables_of n) t) names)
unfolding tables_for
tables_for_lem [] tables e = cc
tables_for_lem (n ∷ names) tables e = tables_loop_lem [] (n ∷ names) tables tt e

-- A name that this build knows.
abbrev pub IsKnown : Bytes → Type 0
IsKnown n = contains (map (λ (s : Set). s.name) sets) n ≡ true

known_names-same :
    (ss : List Set) (req req' : List Bytes)
    → ((n : Bytes) → contains req n ≡ contains req' n)
    → known_names ss req ≡ known_names ss req'
unfolding known_names
known_names-same [] req req' h = refl
known_names-same (s ∷ ss) req req' h = ground (arith, h s.name, known_names-same ss req req' h)

contains-known_names :
    (ss : List Set) (req : List Bytes) (n : Bytes)
    → contains (map (λ (s : Set). s.name) ss) n ≡ true
    → contains req n ≡ true
    → contains (known_names ss req) n ≡ true
unfolding known_names
contains-known_names [] req n k h = cc
contains-known_names (s ∷ ss) req n k h =
    ground (arith, contains-known_names ss req n, h, k, bytes_eq_sound s.name n, ap (contains req))

unknown_names-known :
    (seen req : List Bytes) → All (λ n. contains seen n ≡ true) req → unknown_names seen req ≡ []
unfolding unknown_names
unknown_names-known seen [] h = refl
unknown_names-known seen (n ∷ req) h = rw (h.0, unknown_names) (unknown_names-known seen req h.1)

normalise_in :
    (ss : List Set) (req req' : List Bytes)
    → All (λ n. contains (known_names ss req) n ≡ true) req
    → All (λ n. contains (known_names ss req') n ≡ true) req'
    → ((n : Bytes) → contains req n ≡ contains req' n)
    → known_names ss req ++ sort_strings (unknown_names (known_names ss req) req)
      ≡ known_names ss req' ++ sort_strings (unknown_names (known_names ss req') req')
normalise_in ss req req' k k' h =
    rw (unknown_names-known _ req k, unknown_names-known _ req' k', known_names-same ss req req' h)
      refl

known_names-All :
    (req names : List Bytes)
    → All IsKnown names
    → ((n : Bytes) → contains names n ≡ true → contains req n ≡ true)
    → All (λ n. contains (known_names sets req) n ≡ true) names
known_names-All req [] k h = tt
known_names-All req (n ∷ names) k h = (
  contains-known_names sets req n k.0 (h n (ground (arith, bytes_eq_refl n))),
  known_names-All req names k.1 (λ m e. h m (ground (arith, e))),
)

-- Two requests that name the same known sets are written as the same row, whatever the order and
-- the repetitions.
normalise-same :
    (req req' : List Bytes)
    → All IsKnown req
    → All IsKnown req'
    → ((n : Bytes) → contains req n ≡ contains req' n)
    → normalise req ≡ normalise req'
unfolding normalise
normalise-same req req' k k' h =
    normalise_in sets req req' (known_names-All req req k (λ n e. e))
      (known_names-All req' req' k' (λ n e. e)) h
