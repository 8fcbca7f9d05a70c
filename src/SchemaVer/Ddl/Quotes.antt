-- ===== src/SchemaVer/Ddl/Quotes.antt =====
-- The scanner inside quotes, dollar quotes and line comments.
use crucible_analytic.Prelude.{
  ℕ, suc, ◌-◌, ◌≤◌, ◌≡◌, ◌≢◌, refl, Bool, true, false, List, [], ◌∷◌, ◌++◌, append_assoc, some,
  Bytes, All, length, length-append, arith, Option-cases, inl, inr,
}
use crucible_analytic.Prelude.Text.{is_empty}
use crucible_analytic.SchemaVer.Ddl.{
  code, single, escape_string, identifier, line_comment, dollar, Scanner, shift_to, tag_rest,
  dollar_tag, has_prefix, quoted_round, escape_round, dollar_round, line_round, round_of, scan,
}
use crucible_analytic.SchemaVer.Ddl.Pieces.{
  Item, char, escape, twice, render_items, IsItem, doubled, IsFree,
}

-- Behind a closing quote and a byte that is no quote.
abbrev pub closed : ℕ → Scanner → ℕ → Bytes → Bytes × Bool
closed quote s c r =
    let (out, complete) = scan 0 (shift_to code quote s) (c ∷ r) in (quote ∷ out, complete)

abbrev pub written : Bytes → Bytes × Bool → Bytes × Bool
written text (out, complete) = (text ++ out, complete)

pub scan-single :
    (t : Bytes) (s : Scanner) (c : ℕ) (r : Bytes)
    → c ≢ 0x27
    → s.state ≡ single
    → scan 0 s (doubled 0x27 t ++ 0x27 ∷ c ∷ r) ≡ written (doubled 0x27 t) (closed 0x27 s c r)
unfolding scan round_of quoted_round
scan-single [] s c r h e = ground (arith, h, e)
scan-single (b ∷ t) s c r h e = ground (arith, h, e, scan-single t s c r h e)

pub scan-identifier :
    (t : Bytes) (s : Scanner) (c : ℕ) (r : Bytes)
    → c ≢ 0x22
    → s.state ≡ identifier
    → scan 0 s (doubled 0x22 t ++ 0x22 ∷ c ∷ r) ≡ written (doubled 0x22 t) (closed 0x22 s c r)
unfolding scan round_of quoted_round
scan-identifier [] s c r h e = ground (arith, h, e)
scan-identifier (b ∷ t) s c r h e = ground (arith, h, e, scan-identifier t s c r h e)

pub scan-escape :
    (t : Bytes) (s : Scanner) (c : ℕ) (r : Bytes)
    → c ≢ 0x27
    → All (λ b. b ≢ 0x5C) t
    → s.state ≡ escape_string
    → scan 0 s (doubled 0x27 t ++ 0x27 ∷ c ∷ r) ≡ written (doubled 0x27 t) (closed 0x27 s c r)
unfolding scan round_of quoted_round escape_round
scan-escape [] s c r h a e = ground (arith, h, e)
scan-escape (b ∷ t) s c r h a e = ground (arith, h, e, a.0, scan-escape t s c r h a.1 e)

-- Between the quotes of E'...'.
pub scan-items :
    (t : List Item) (s : Scanner) (c : ℕ) (r : Bytes)
    → c ≢ 0x27
    → All IsItem t
    → s.state ≡ escape_string
    → scan 0 s (render_items t ++ 0x27 ∷ c ∷ r) ≡ written (render_items t) (closed 0x27 s c r)
unfolding scan round_of quoted_round escape_round is_empty
scan-items [] s c r h a e = ground (arith, h, e)
scan-items (char b ∷ t) s c r h a e = ground (arith, h, e, a.0, scan-items t s c r h a.1 e)
scan-items (escape b ∷ t) s c r h a e = ground (arith, h, e, scan-items t s c r h a.1 e)
scan-items (twice ∷ t) s c r h a e = ground (arith, h, e, scan-items t s c r h a.1 e)

-- A line comment is read to its end, and the line break is written.
pub scan-line :
    (t : Bytes) (s : Scanner) (r : Bytes)
    → All (λ b. b ≢ b'\n') t
    → s.state ≡ line_comment
    → scan 0 s (t ++ b'\n' ∷ r) ≡ written (b'\n' ∷ []) (scan 0 (shift_to code b'\n' s) r)
unfolding scan round_of line_round
scan-line [] s r a e = ground (arith, e)
scan-line (b ∷ t) s r a e = ground (arith, e, a.0, scan-line t s r a.1 e)

-- Bytes that have been handled are passed over.
pub scan-skips : (t : Bytes) (s : Scanner) (r : Bytes) → scan (length t) s (t ++ r) ≡ scan 0 s r
unfolding scan
scan-skips [] s r = refl
scan-skips (c ∷ t) s r = scan-skips t s r

pub has_prefix-append : (t r : Bytes) → has_prefix t (t ++ r) ≡ true
unfolding has_prefix
has_prefix-append [] r = refl
has_prefix-append (c ∷ t) r = ground (arith, has_prefix-append t r)

has_prefix-front : (t u r : Bytes) → length t ≤ length u → has_prefix t (u ++ r) ≡ has_prefix t u
unfolding has_prefix
has_prefix-front [] u r h = refl
has_prefix-front (c ∷ t) [] r h = absurd (omega arith)
has_prefix-front (c ∷ t) (d ∷ u) r h = ground (arith, has_prefix-front t u r (omega arith))

tag_rest-append :
    (first : Bool) (t u r : Bytes) → tag_rest first t ≡ some u → tag_rest first (t ++ r) ≡ some u
unfolding tag_rest
tag_rest-append first [] u r e = cc
tag_rest-append first (c ∷ t) u r e = elim (Option-cases (tag_rest false t)) [
  | inl n ↦ ground (arith, e, n)
  | inr (v, v_e) ↦ ground (arith, e, v_e, tag_rest-append false t v r v_e)
]

pub dollar_tag-append : (t u r : Bytes) → dollar_tag t ≡ some u → dollar_tag (t ++ r) ≡ some u
unfolding dollar_tag
dollar_tag-append [] u r e = cc
dollar_tag-append (c ∷ t) u r e = elim (Option-cases (tag_rest true t)) [
  | inl n ↦ ground (arith, e, n)
  | inr (v, v_e) ↦ ground (arith, e, v_e, tag_rest-append true t v r v_e)
]

-- A text that does not hold the tag is written up to the closing tag, with it.
pub scan-dollar :
    (d : ℕ) (tag t : Bytes) (s : Scanner) (r : Bytes)
    → IsFree (d ∷ tag) t
    → s.state ≡ dollar (d ∷ tag)
    → scan 0 s (t ++ (d ∷ (tag ++ r))) ≡ written (t ++ (d ∷ tag)) (scan 0 (shift_to code b'$' s) r)
unfolding scan round_of dollar_round
scan-dollar d tag [] s r f e =
    let less : suc (length tag) - 1 ≡ length tag = omega arith in
    ground (arith, e, has_prefix-append (d ∷ tag) r, less, scan-skips tag (shift_to code b'$' s) r)
scan-dollar d tag (c ∷ t) s r f e =
    let long : length (d ∷ tag) ≤ length (c ∷ (t ++ (d ∷ tag))) =
      omega (arith, length-append t (d ∷ tag)) in
    let front = has_prefix-front (d ∷ tag) (c ∷ (t ++ (d ∷ tag))) r long in
    ground (arith, e, f.0, front, append_assoc t (d ∷ tag) r, scan-dollar d tag t s r f.1 e)
