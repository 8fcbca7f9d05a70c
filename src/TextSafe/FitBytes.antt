-- ===== src/TextSafe/FitBytes.antt =====
-- FitBytes on text: the longest front of whole runes that fits.
use crucible_analytic.Prelude.{
  ℕ, zero, suc, ◌+◌, ◌-◌, ◌<◌, ◌≤◌, ◌≡◌, refl, sym, ap, true, false, List, [], ◌∷◌, ◌++◌, Bytes,
  All, length, get_or, take, arith, leb, ◌==◌, if◌then◌else◌, length-append, Bool-cases, inl, inr,
}
use crucible_analytic.TextSafe.{rune_start, is_continuation, back_up, fit_bytes}
use crucible_analytic.TextSafe.Runes.{IsRune, concat, rune_head, rune_tail}

-- The runes from the front that fit.
abbrev pub fitting : ℕ → List Bytes → List Bytes
fitting n [] = []
fitting n (r ∷ rs) =
    let rest = fitting (n - length r) rs in if leb (length r) n then r ∷ rest else []

get_or-front : (i : ℕ) (r t : Bytes) → i < length r → get_or (r ++ t) i 0 ≡ get_or r i 0
get_or-front i [] t h = absurd (omega arith)
get_or-front zero (a ∷ r) t h = refl
get_or-front (suc i) (a ∷ r) t h = get_or-front i r t (omega arith)

get_or-behind : (i k : ℕ) (r t : Bytes) → k ≡ length r + i → get_or (r ++ t) k 0 ≡ get_or t i 0
get_or-behind i k [] t e = let same : k ≡ i = omega arith in ap (λ n. get_or t n 0) same
get_or-behind i zero (a ∷ r) t e = absurd (omega arith)
get_or-behind i (suc k) (a ∷ r) t e = get_or-behind i k r t (omega arith)

-- Inside the first rune no cut is found.
back_up-inside : (n : ℕ) (r t : Bytes) → IsRune r → n < length r → back_up n (r ++ t) ≡ 0
unfolding back_up rune_start
back_up-inside zero r t h lt = refl
back_up-inside (suc n) r t h lt =
    ground
      (arith, get_or-front (suc n) r t lt, rune_tail n r h lt, back_up-inside n r t h (omega arith))

-- Text starts with the first byte of a rune.
starts-concat :
    (rs : List Bytes)
    → All IsRune rs
    → 0 < length (concat rs)
    → is_continuation (get_or (concat rs) 0 0) ≡ false
starts-concat [] h lt = absurd (omega arith)
starts-concat ([] ∷ rs) h lt = absurd (omega (arith, h.0.some_byte))
starts-concat ((a ∷ r) ∷ rs) h lt = rune_head a r h.0

-- Behind the first rune the search is that of the rest.
back_up-behind :
    (n k : ℕ) (r t : Bytes)
    → k ≡ length r + n
    → 0 < length r
    → is_continuation (get_or t 0 0) ≡ false
    → back_up k (r ++ t) ≡ length r + back_up n t
unfolding back_up rune_start
back_up-behind n zero r t e h start = absurd (omega arith)
back_up-behind zero (suc k) r t e h start = ground (arith, get_or-behind 0 (suc k) r t e, start)
back_up-behind (suc n) (suc k) r t e h start =
    ground
      (arith, get_or-behind (suc n) (suc k) r t e, back_up-behind n k r t (omega arith) h start)

take-behind : (n k : ℕ) (r t : Bytes) → k ≡ length r + n → take k (r ++ t) ≡ r ++ take n t
take-behind n k [] t e = let same : k ≡ n = omega arith in ap (λ j. take j t) same
take-behind n zero (a ∷ r) t e = absurd (omega arith)
take-behind n (suc k) (a ∷ r) t e = ap (λ (l : Bytes). a ∷ l) (take-behind n k r t (omega arith))

-- On text, the search for a cut keeps the whole runes that fit.
cut-concat :
    (rs : List Bytes) (n : ℕ)
    → All IsRune rs
    → n < length (concat rs)
    → take (back_up n (concat rs)) (concat rs) ≡ concat (fitting n rs)
cut-concat [] n h lt = absurd (omega arith)
cut-concat (r ∷ rs) n h lt = elim (Bool-cases (leb (length r) n)) [
  | inr long ↦ rw (back_up-inside n r (concat rs) h.0 (ground arith), long) refl
  | inl fits ↦
      let m : ℕ = n - length r in
      let whole : n ≡ length r + m = ground arith in
      let more : m < length (concat rs) = omega (arith, length-append r (concat rs), whole) in
      let start = starts-concat rs h.1 (omega (arith, more)) in
      rw
        (
          back_up-behind m n r (concat rs) whole h.0.some_byte start,
          fits,
          take-behind (back_up m (concat rs)) _ r (concat rs) refl,
        )
        (ap (λ (l : Bytes). r ++ l) (cut-concat rs m h.1 more))
]

fitting-all : (rs : List Bytes) (n : ℕ) → length (concat rs) ≤ n → concat (fitting n rs) ≡ concat rs
fitting-all [] n h = refl
fitting-all (r ∷ rs) n h =
    let whole = length-append r (concat rs) in
    let fits : leb (length r) n ≡ true = ground (arith, whole) in
    rw fits (ap (λ (l : Bytes). r ++ l) (fitting-all rs (n - length r) (omega (arith, whole))))

fitting-zero : (rs : List Bytes) → All IsRune rs → concat (fitting 0 rs) ≡ []
fitting-zero [] h = refl
fitting-zero (r ∷ rs) h =
    let long : leb (length r) 0 ≡ false = ground (arith, h.0.some_byte) in rw long refl

-- Of text in UTF-8, FitBytes keeps the longest front of whole runes that fits in the bytes.
fit_bytes-concat :
    (rs : List Bytes) (n : ℕ) → All IsRune rs → fit_bytes (concat rs) n ≡ concat (fitting n rs)
unfolding fit_bytes
fit_bytes-concat rs n h = elim (Bool-cases (leb (length (concat rs)) n)) [
  | inl fits ↦ rw fits (sym (fitting-all rs n (ground arith)))
  | inr long ↦ elim (Bool-cases (n == 0)) [
    | inl none_left ↦
        let zero_e : n ≡ 0 = ground arith in rw (long, none_left, zero_e) (sym (fitting-zero rs h))
    | inr some_left ↦ rw (long, some_left) (cut-concat rs n h (ground arith))
  ]
]

back_up-le : (n : ℕ) (s : Bytes) → back_up n s ≤ n
unfolding back_up
back_up-le zero s = omega arith
back_up-le (suc n) s = ground (arith, back_up-le n s)

length-take-le : (n : ℕ) (s : Bytes) → length (take n s) ≤ n
length-take-le zero s = omega arith
length-take-le (suc n) [] = omega arith
length-take-le (suc n) (c ∷ s) = omega (arith, length-take-le n s)

-- Of any bytes, FitBytes keeps no more than the bound.
pub length-fit_bytes : (s : Bytes) (n : ℕ) → length (fit_bytes s n) ≤ n
unfolding fit_bytes
length-fit_bytes s n = ground (arith, back_up-le n s, length-take-le (back_up n s) s)
