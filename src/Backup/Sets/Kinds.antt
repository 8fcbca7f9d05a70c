-- ===== src/Backup/Sets/Kinds.antt =====
-- The configuration and the data are never in one file.
use crucible_analytic.Prelude.{
  ◌≡◌, ◌≢◌, ◌⊎◌, ◌↔◌, refl, ap, ◌∙◌, Bool, true, false, List, [], ◌∷◌, ◌++◌, append-nil,
  append_assoc, Bytes, All, ok, Bool-cases, Result-cases, inl, inr, arith,
}
use crucible_analytic.Backup.Sets.{
  Set, set_by_name, add_tables, tables_loop, tables_for, kind_loop, kind_of_lists, kind_of,
  validate_kind, validate_sets,
}

-- The name of a set that this build knows, of the configuration or of tables.
abbrev pub Names : Bool → Bytes → Type 0
Names secrets name = (s : Set) × (set_by_name name ≡ ok s) × (s.secrets ≡ secrets)

kind_loop-data :
    (tables secrets names : List Bytes)
    → All (Names false) names
    → (found : List Bytes) × (kind_loop tables secrets names ≡ ok (found, secrets))
unfolding kind_loop
kind_loop-data tables secrets [] h = (tables, refl)
kind_loop-data tables secrets (n ∷ names) ((s, e, b), h) =
    let (found, same) = kind_loop-data (tables ++ s.name ∷ []) secrets names h in
    (found, rw (e, b) same)

kind_loop-secrets :
    (tables secrets names : List Bytes)
    → All (Names true) names
    → (found : List Bytes) × (kind_loop tables secrets names ≡ ok (tables, secrets ++ found))
unfolding kind_loop
kind_loop-secrets tables secrets [] h = ([], rw append-nil)
kind_loop-secrets tables secrets (n ∷ names) ((s, e, b), h) =
    let (found, same) = kind_loop-secrets tables (secrets ++ s.name ∷ []) names h in
    (
      s.name ∷ found,
      rw (e, b)
          (same
            ∙ ap (λ (l : List Bytes). ok (tables, l)) (append_assoc secrets (s.name ∷ []) found)),
    )

tables_loop-data :
    (out names : List Bytes)
    → All (Names false) names
    → (tables : List Bytes) × (tables_loop out names ≡ ok tables)
unfolding tables_loop
tables_loop-data out [] h = (out, refl)
tables_loop-data out (n ∷ names) ((s, e, b), h) =
    let (tables, same) = tables_loop-data (add_tables out s.tables) names h in
    (tables, rw (e, b) same)

longer : (l : List Bytes) (x : Bytes) → (l ++ x ∷ []) ≢ []
longer [] x e = cc
longer (y ∷ l) x e = cc

kind_loop_no_secrets :
    (tables secrets names found : List Bytes)
    → kind_loop tables secrets names ≡ ok (found, [])
    → All (Names false) names × (secrets ≡ [])
unfolding kind_loop
kind_loop_no_secrets tables secrets [] found e = (tt, ground (arith, e))
kind_loop_no_secrets tables secrets (n ∷ names) found e = elim (Result-cases (set_by_name n)) [
  | inl (x, x_e) ↦ let refused = rw x_e at e in cc
  | inr (s, s_e) ↦ elim (Bool-cases s.secrets) [
    | inl b ↦
        let rest =
          kind_loop_no_secrets tables (secrets ++ s.name ∷ []) names found (rw (s_e, b) at e) in
        absurd (longer secrets s.name rest.1)
    | inr b ↦
        let rest =
          kind_loop_no_secrets (tables ++ s.name ∷ []) secrets names found (rw (s_e, b) at e) in
        (((s, s_e, b), rest.0), rest.1)
  ]
]

kind_loop_no_tables :
    (tables secrets names found : List Bytes)
    → kind_loop tables secrets names ≡ ok ([], found)
    → All (Names true) names × (tables ≡ [])
unfolding kind_loop
kind_loop_no_tables tables secrets [] found e = (tt, ground (arith, e))
kind_loop_no_tables tables secrets (n ∷ names) found e = elim (Result-cases (set_by_name n)) [
  | inl (x, x_e) ↦ let refused = rw x_e at e in cc
  | inr (s, s_e) ↦ elim (Bool-cases s.secrets) [
    | inl b ↦
        let rest =
          kind_loop_no_tables tables (secrets ++ s.name ∷ []) names found (rw (s_e, b) at e) in
        (((s, s_e, b), rest.0), rest.1)
    | inr b ↦
        let rest =
          kind_loop_no_tables (tables ++ s.name ∷ []) secrets names found (rw (s_e, b) at e) in
        absurd (longer tables s.name rest.1)
  ]
]

accepted :
    (name : Bytes) (names : List Bytes)
    → validate_sets (name ∷ names) ≡ ok tt
    → All (Names false) (name ∷ names) ⊎ All (Names true) (name ∷ names)
unfolding validate_sets kind_of kind_of_lists
accepted name names e = elim (Result-cases (kind_loop [] [] (name ∷ names))) [
  | inl (x, x_e) ↦ let refused = rw x_e at e in cc
  | inr ((tables, []), same) ↦ inl (kind_loop_no_secrets [] [] (name ∷ names) tables same).0
  | inr (([], s ∷ secrets), same) ↦
      inr (kind_loop_no_tables [] [] (name ∷ names) (s ∷ secrets) same).0
  | inr ((t ∷ tables, s ∷ secrets), same) ↦ let refused = rw same at e in cc
]

data-accepted :
    (name : Bytes) (names : List Bytes)
    → All (Names false) (name ∷ names)
    → validate_sets (name ∷ names) ≡ ok tt
unfolding validate_sets kind_of kind_of_lists validate_kind tables_for
data-accepted name names h =
    let (found, kinds) = kind_loop-data [] [] (name ∷ names) h in
    let (tables, copied) = tables_loop-data [] (name ∷ names) h in rw (kinds, copied) refl

secrets-accepted :
    (name : Bytes) (names : List Bytes)
    → All (Names true) (name ∷ names)
    → validate_sets (name ∷ names) ≡ ok tt
unfolding validate_sets kind_of validate_kind kind_of_lists kind_loop
secrets-accepted name names ((s, e, b), h) =
    let (found, kinds) = kind_loop-secrets [] (s.name ∷ []) names h in rw (e, b, kinds) refl

-- A request is accepted exactly when it names something, and every name is one of the
-- configuration set or every name is one of a set of tables.
pub validate_sets_lem :
    (names : List Bytes)
    → (validate_sets names ≡ ok tt)
      ↔ ((names ≢ []) × (All (Names false) names ⊎ All (Names true) names))
unfolding validate_sets kind_of
validate_sets_lem [] = (λ e. cc, λ h. absurd (h.0 refl))
validate_sets_lem (name ∷ names) = (λ e. (λ nothing. cc, accepted name names e), back)
  where
    back :
        ((name ∷ names) ≢ []) × (All (Names false) (name ∷ names) ⊎ All (Names true) (name ∷ names))
        → validate_sets (name ∷ names) ≡ ok tt
    back (_, inl h) = data-accepted name names h
    back (_, inr h) = secrets-accepted name names h
