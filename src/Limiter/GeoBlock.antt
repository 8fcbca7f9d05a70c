-- ===== src/Limiter/GeoBlock.antt =====
-- internal/limiter/geoblock.go. A nil *GeoBlocklist is `none`, and so is a rules pointer that has
-- never been stored. A set is the list of its entries. Country codes are ASCII.
use crucible_analytic.Prelude.{
  ℕ, ◌+◌, ◌%◌, ◌^◌, ◌≡◌, ◌≢◌, refl, ap, ap₂, sym, ◌∙◌, Bool, true, false, not, ◌&&◌, ◌||◌, List, [],
  ◌∷◌, Option, none, some, Bytes, arith, any, count_if, ltb, ◌==◌, if◌then◌else◌, length,
  Bool-cases, inl, inr,
}
use crucible_analytic.Prelude.Text.{bytes_eq, bytes_eq_sound, is_empty, to_upper, trim_space}

pub record GeoRules : Type 0 where
  pub countries : List Bytes
  pub asns : List ℕ

pub record GeoBlocklist : Type 0 where
  pub rules : Option GeoRules
  pub refused : ℕ

abbrev pub u64_mod : ℕ
u64_mod = 2 ^ 64

-- `strings.ToUpper(strings.TrimSpace(c))`.
unfoldable pub normalize : Bytes → Bytes
normalize c = to_upper (trim_space c)

unfoldable pub country_rules : List Bytes → List Bytes
country_rules [] = []
country_rules (c ∷ cs) =
    let rules = country_rules cs in if is_empty (normalize c) then rules else normalize c ∷ rules

unfoldable pub asn_rules : List ℕ → List ℕ
asn_rules [] = []
asn_rules (a ∷ as') = let rules = asn_rules as' in if a == 0 then rules else a ∷ rules

unfoldable pub set_rules : Option GeoBlocklist → List Bytes → List ℕ → Option GeoBlocklist
set_rules none countries asns = none
set_rules (some b) countries asns = some (record b {
  rules = some (record { countries = country_rules countries; asns = asn_rules asns });
})

unfoldable pub new_geo_blocklist : List Bytes → List ℕ → Option GeoBlocklist
unfolding set_rules
new_geo_blocklist countries asns =
    set_rules (some (record { rules = none; refused = 0 })) countries asns

unfoldable pub has_rules : Option GeoRules → Bool
has_rules none = false
has_rules (some r) = ltb 0 (length r.countries) || ltb 0 (length r.asns)

unfoldable pub active : Option GeoBlocklist → Bool
unfolding has_rules
active none = false
active (some b) = has_rules b.rules

unfoldable pub rules_match : Option GeoRules → Bytes → ℕ → Bool
rules_match none country asn = false
rules_match (some r) country asn =
    (not (is_empty country) && any (λ c. bytes_eq c (to_upper country)) r.countries)
    || (not (asn == 0) && any (λ a. a == asn) r.asns)

unfoldable pub matches : Option GeoBlocklist → Bytes → ℕ → Bool
unfolding rules_match
matches none country asn = false
matches (some b) country asn = rules_match b.rules country asn

-- `b.refused.Add(1)` of a uint64.
unfoldable pub count_refusal : Option GeoBlocklist → Option GeoBlocklist
count_refusal none = none
count_refusal (some b) = some (record b { refused = (b.refused + 1) % u64_mod })

unfoldable pub refuses : Option GeoBlocklist → Bytes → ℕ → Option GeoBlocklist × Bool
unfolding matches count_refusal
refuses b country asn = if matches b country asn then (count_refusal b, true) else (b, false)

unfoldable pub refused : Option GeoBlocklist → ℕ
refused none = 0
refused (some b) = b.refused

is_empty-to_upper : (s : Bytes) → is_empty (to_upper s) ≡ is_empty s
unfolding is_empty to_upper
is_empty-to_upper [] = refl
is_empty-to_upper (c ∷ s) = refl

any-country_rules :
    (cs : List Bytes) (t : Bytes)
    → is_empty t ≡ false
    → any (λ c. bytes_eq c t) (country_rules cs) ≡ any (λ c. bytes_eq (normalize c) t) cs
unfolding country_rules
any-country_rules [] t h = refl
any-country_rules (c ∷ cs) t h = elim (Bool-cases (is_empty (normalize c))) [
  | inl e ↦ ground (arith, e, any-country_rules cs t h, ap is_empty, bytes_eq_sound (normalize c) t)
  | inr e ↦ rw e (ap (λ (b : Bool). bytes_eq (normalize c) t || b) (any-country_rules cs t h))
]

any-asn_rules :
    (as' : List ℕ) (n : ℕ) → n ≢ 0 → any (λ a. a == n) (asn_rules as') ≡ any (λ a. a == n) as'
unfolding asn_rules
any-asn_rules [] n h = refl
any-asn_rules (a ∷ as') n h = ground (arith, any-asn_rules as' n h)

-- A list that has been set refuses a connection exactly when its country is known and, upper-cased,
-- is one of the entries trimmed and upper-cased, or its ASN is known and is one of the entries. An
-- entry that is blank or 0 refuses nobody, and neither does an address that could not be resolved.
matches-set_rules :
    (b : GeoBlocklist) (countries : List Bytes) (asns : List ℕ) (country : Bytes) (asn : ℕ)
    → matches (set_rules (some b) countries asns) country asn ≡ (
        (not (is_empty country) && any (λ c. bytes_eq (normalize c) (to_upper country)) countries)
        || (not (asn == 0) && any (λ a. a == asn) asns))
unfolding matches set_rules rules_match
matches-set_rules b countries asns country asn =
    ap₂ ◌||◌ (known_country (is_empty country) refl) (known_asn (asn == 0) refl)
  where
    known_country :
        (e : Bool)
        → is_empty country ≡ e
        → (not e && any (λ c. bytes_eq c (to_upper country)) (country_rules countries))
          ≡ (not e && any (λ c. bytes_eq (normalize c) (to_upper country)) countries)
    known_country true h = refl
    known_country false h =
        any-country_rules countries (to_upper country) (is_empty-to_upper country ∙ h)

    known_asn :
        (e : Bool)
        → (asn == 0) ≡ e
        → (not e && any (λ a. a == asn) (asn_rules asns)) ≡ (not e && any (λ a. a == asn) asns)
    known_asn true h = refl
    known_asn false h = any-asn_rules asns asn (ground arith)

-- A list of questions, asked one after the other.
unfoldable pub ask : Option GeoBlocklist → List (Bytes × ℕ) → Option GeoBlocklist
ask b [] = b
ask b ((country, asn) ∷ qs) = ask (refuses b country asn).0 qs

matches-count_refusal :
    (b : Option GeoBlocklist) (country : Bytes) (asn : ℕ)
    → matches (count_refusal b) country asn ≡ matches b country asn
unfolding matches count_refusal
matches-count_refusal none country asn = refl
matches-count_refusal (some b) country asn = refl

matches-refuses :
    (b : Option GeoBlocklist) (c d : Bytes) (n m : ℕ)
    → matches (refuses b c n).0 d m ≡ matches b d m
unfolding refuses
matches-refuses b c d n m = ground (arith, matches-count_refusal b d m)

count_if-matches :
    (b b' : Option GeoBlocklist) (qs : List (Bytes × ℕ))
    → ((d : Bytes) (m : ℕ) → matches b' d m ≡ matches b d m)
    → count_if (λ (c, n). matches b' c n) qs ≡ count_if (λ (c, n). matches b c n) qs
count_if-matches b b' [] h = refl
count_if-matches b b' ((c, n) ∷ qs) h = ground (arith, h c n, count_if-matches b b' qs h)

refused-refuses :
    (b : GeoBlocklist) (country : Bytes) (asn : ℕ)
    → (refused (refuses (some b) country asn).0) % u64_mod
      ≡ (b.refused + (if matches (some b) country asn then 1 else 0)) % u64_mod
unfolding refused refuses count_refusal
refused-refuses b country asn = ground arith

refuses-some :
    (b : GeoBlocklist) (country : Bytes) (asn : ℕ)
    → (b' : GeoBlocklist) × ((refuses (some b) country asn).0 ≡ some b')
unfolding refuses count_refusal
refuses-some b country asn = elim (Bool-cases (matches (some b) country asn)) [
  | inl e ↦ (record b { refused = (b.refused + 1) % u64_mod }, rw e)
  | inr e ↦ (b, rw e)
]

-- The counter grows by one for each refusal and by nothing else, modulo 2^64: it counts all that a
-- rule turned away.
refused-ask :
    (b : GeoBlocklist) (qs : List (Bytes × ℕ))
    → refused (ask (some b) qs) % u64_mod
      ≡ (b.refused + count_if (λ (c, n). matches (some b) c n) qs) % u64_mod
unfolding ask refused
refused-ask b [] = ground arith
refused-ask b ((c, n) ∷ qs) =
    let (b', e) = refuses-some b c n in
    let same : (d : Bytes) (m : ℕ) → matches (some b') d m ≡ matches (some b) d m =
      λ d m. rw (sym e) (matches-refuses (some b) c d n m) in
    let grown = rw e at (refused-refuses b c n) in
    rw e (ground (arith, grown, refused-ask b' qs, count_if-matches (some b) (some b') qs same))
