-- ===== src/Backup/Sets.antt =====
-- internal/backup/sets.go, with KindOf and validateSets, which read it. A Go map of names that have
-- been seen is the list of them; the texts of the errors are their kinds.
pub mod Kinds
pub mod Tables
use crucible_analytic.Prelude.{
  ℕ, Bool, true, false, not, ◌&&◌, List, [], ◌∷◌, ◌++◌, map, Option, none, some, Bytes, any,
  keep_if, ltb, ◌==◌, if◌then◌else◌, length, Result, ok, err, or_fail, guard, ◌>>=◌, ◌>>◌, codes,
}
use crucible_analytic.Prelude.Text.{bytes_eq}

pub record Set : Type 0 where
  pub name : Bytes
  pub tables : List Bytes
  pub secrets : Bool

abbrev pub set_analitik : Bytes
set_analitik = codes "analitik"

abbrev pub set_panel : Bytes
set_panel = codes "panel"

abbrev pub set_sirlar : Bytes
set_sirlar = codes "sirlar"

unfoldable pub sets : List Set
sets =
    record {
      name = set_analitik;
      tables = codes "traffic_snapshots" ∷ codes "beacon_events" ∷ [];
      secrets = false;
    }
    ∷ record {
      name = set_panel;
      tables =
          codes "panel_users"
          ∷ codes "panel_site_members"
          ∷ codes "panel_settings"
          ∷ codes "panel_api_tokens"
          ∷ codes "panel_recovery_codes"
          ∷ codes "panel_smtp"
          ∷ codes "panel_audit_log"
          ∷ codes "panel_dev_access"
          ∷ codes "panel_owner_claims"
          ∷ codes "panel_member_invites"
          ∷ [];
      secrets = false;
    }
    ∷ record { name = set_sirlar; tables = []; secrets = true }
    ∷ []

pub data SetError : Type 0 where
  no_set unknown_set not_tables mixed_request : SetError

-- A name is in a list of names.
abbrev pub contains : List Bytes → Bytes → Bool
contains names n = any (λ m. bytes_eq m n) names

unfoldable pub find_set : List Set → Bytes → Option Set
find_set [] name = none
find_set (s ∷ ss) name =
    let rest = find_set ss name in if bytes_eq s.name name then some s else rest

unfoldable pub set_by_name : Bytes → Result SetError Set
unfolding find_set sets
set_by_name name = or_fail (find_set sets name) unknown_set

unfoldable pub set_names : List Bytes
unfolding sets
set_names = map (λ (s : Set). s.name) sets

-- The tables of a set that have not been seen yet, behind those that have.
unfoldable pub add_tables : List Bytes → List Bytes → List Bytes
add_tables out [] = out
add_tables out (t ∷ ts) = add_tables (if contains out t then out else out ++ t ∷ []) ts

unfoldable pub tables_loop : List Bytes → List Bytes → Result SetError (List Bytes)
unfolding set_by_name add_tables
tables_loop out [] = ok out
tables_loop out (name ∷ names) = set_by_name name >>= λ s.
    guard (not s.secrets) not_tables >> tables_loop (add_tables out s.tables) names

unfoldable pub tables_for : List Bytes → Result SetError (List Bytes)
unfolding tables_loop
tables_for [] = err no_set
tables_for (name ∷ names) = tables_loop [] (name ∷ names)

-- The names that occur in the request, once each, in the order of `sets`.
unfoldable pub known_names : List Set → List Bytes → List Bytes
known_names [] req = []
known_names (s ∷ ss) req =
    let rest = known_names ss req in if contains req s.name then s.name ∷ rest else rest

-- The other names, once each: `seen` are those that have been taken.
unfoldable pub unknown_names : List Bytes → List Bytes → List Bytes
unknown_names seen [] = []
unknown_names seen (n ∷ names) = elim (contains seen n) [
  | true ↦ unknown_names seen names
  | false ↦ n ∷ unknown_names (n ∷ seen) names
]

-- `sort.Strings`.
unfoldable pub bytes_le : Bytes → Bytes → Bool
bytes_le [] t = true
bytes_le (b ∷ s) [] = false
bytes_le (b ∷ s) (c ∷ t) = let rest = bytes_le s t in if b == c then rest else ltb b c

unfoldable pub insert_string : Bytes → List Bytes → List Bytes
insert_string s [] = s ∷ []
insert_string s (t ∷ ts) =
    let rest = insert_string s ts in if bytes_le s t then s ∷ t ∷ ts else t ∷ rest

unfoldable pub sort_strings : List Bytes → List Bytes
unfolding insert_string bytes_le
sort_strings [] = []
sort_strings (s ∷ ss) = insert_string s (sort_strings ss)

unfoldable pub normalise : List Bytes → List Bytes
unfolding known_names unknown_names sets sort_strings
normalise req = let known = known_names sets req in known ++ sort_strings (unknown_names known req)

pub data Kind : Type 0 where
  data_kind secrets_kind : Kind

unfoldable pub kind_loop :
    List Bytes → List Bytes → List Bytes → Result SetError (List Bytes × List Bytes)
unfolding set_by_name
kind_loop tables secrets [] = ok (tables, secrets)
kind_loop tables secrets (name ∷ names) = set_by_name name >>= λ s. elim s.secrets [
  | true ↦ kind_loop tables (secrets ++ s.name ∷ []) names
  | false ↦ kind_loop (tables ++ s.name ∷ []) secrets names
]

unfoldable pub kind_of_lists : List Bytes × List Bytes → Result SetError Kind
kind_of_lists (tables, []) = ok data_kind
kind_of_lists ([], s ∷ secrets) = ok secrets_kind
kind_of_lists (t ∷ tables, s ∷ secrets) = err mixed_request

unfoldable pub kind_of : List Bytes → Result SetError Kind
unfolding kind_loop kind_of_lists
kind_of [] = err no_set
kind_of (name ∷ names) = kind_loop [] [] (name ∷ names) >>= kind_of_lists

unfoldable pub validate_kind : List Bytes → Kind → Result SetError (Unit {0})
unfolding tables_for
validate_kind names secrets_kind = ok tt
validate_kind names data_kind = tables_for names >>= λ tables. ok tt

unfoldable pub validate_sets : List Bytes → Result SetError (Unit {0})
unfolding kind_of validate_kind
validate_sets names = kind_of names >>= validate_kind names
