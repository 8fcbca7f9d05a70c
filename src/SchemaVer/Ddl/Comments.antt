-- ===== src/SchemaVer/Ddl/Comments.antt =====
-- Comments do not count: the scanner on whole files.
use crucible_analytic.Prelude.{
  ℕ, suc, ◌-◌, ◌≡◌, ◌≢◌, refl, ap, ◌∙◌, Bool, true, false, List, [], ◌∷◌, ◌++◌, append_assoc, map,
  none, some, Bytes, All, length, arith, ◌⊎◌, inl, inr,
}
use crucible_analytic.SchemaVer.Ddl.{
  State, code, single, escape_string, identifier, line_comment, dollar, Scanner, start_scanner,
  shift_to, string_state, ident_byte, dollar_tag, plain_round, code_round, round_of, is_complete,
  scan, collapse_space, strip_comments, complete,
}
use crucible_analytic.SchemaVer.Ddl.Pieces.{
  Comment, Item, render_items, Piece, plain, pair, string, literal, escaped, name, body, line,
  block, doubled, render, blank, render_all, IsPlain, IsPiece, scan-comment,
}
use crucible_analytic.SchemaVer.Ddl.Quotes.{
  written, closed, scan-single, scan-identifier, scan-escape, scan-items, scan-line, scan-dollar,
  dollar_tag-append, scan-skips,
}

-- Behind the piece the scanner is in code again, and has written the text.
pub record Reads (s : Scanner) (piece text : Bytes) : Type 0 where
  pub next : Scanner
  pub in_code : next.state ≡ code
  pub reads : (r : Bytes) → scan 0 s (piece ++ r) ≡ written text (scan 0 next r)

Reads-plain : (c : ℕ) (s : Scanner) → IsPlain c → s.state ≡ code → Reads s (c ∷ []) (c ∷ [])
unfolding scan round_of code_round plain_round dollar_tag
Reads-plain c s h e = record {
  next = shift_to code c s;
  in_code = refl;
  reads = λ r. ground (arith, e, h);
}

scan-plain :
    (c : ℕ) (s : Scanner) (r : Bytes)
    → IsPlain c
    → s.state ≡ code
    → scan 0 s (c ∷ r) ≡ written (c ∷ []) (scan 0 (shift_to code c s) r)
unfolding scan round_of code_round plain_round dollar_tag
scan-plain c s r h e = ground (arith, e, h)

Reads-pair :
    (a b : ℕ) (s : Scanner)
    → IsPiece (pair a b)
    → s.state ≡ code
    → Reads s (a ∷ b ∷ []) (a ∷ b ∷ [])
unfolding scan round_of code_round plain_round dollar_tag
Reads-pair a b s h e = record {
  next = shift_to code b (shift_to code a s);
  in_code = refl;
  reads = λ r. ground (arith, e, h.0, h.1, h.2);
}

Reads-line :
    (t : Bytes) (s : Scanner)
    → IsPiece (line t)
    → s.state ≡ code
    → Reads s (render (line t)) (b'\n' ∷ [])
unfolding scan round_of code_round
Reads-line t s h e = record {
  next = shift_to code b'\n' s;
  in_code = refl;
  reads = λ r. ground (
    arith,
    e,
    append_assoc t (b'\n' ∷ []) r,
    scan-line t (record s { state = line_comment }) r h refl,
  );
}

Reads-block :
    (k : Comment) (s : Scanner)
    → IsPiece (block k)
    → s.state ≡ code
    → Reads s (render (block k)) (b' ' ∷ [])
unfolding scan round_of code_round
Reads-block k s h e = record {
  next = shift_to code b' ' s;
  in_code = refl;
  reads = λ r. ground (arith, e, scan-comment k 0 s r h);
}

closed-plain :
    (q c : ℕ) (s : Scanner) (r : Bytes)
    → IsPlain c
    → closed q s c r ≡ written (q ∷ c ∷ []) (scan 0 (shift_to code c (shift_to code q s)) r)
closed-plain q c s r h = ap (written (q ∷ [])) (scan-plain c (shift_to code q s) r h refl)

written-quoted :
    (q c : ℕ) (t : Bytes) (x : Bytes × Bool)
    → written (q ∷ []) (written t (written (q ∷ c ∷ []) x)) ≡ written (q ∷ (t ++ q ∷ c ∷ [])) x
written-quoted q c t (out, complete) = rw (append_assoc t (q ∷ c ∷ []) out) refl

-- A quoted text, for a state whose inside is read as `inside` says.
Reads-quoted :
    (q c : ℕ) (t : Bytes) (s s' : Scanner)
    → IsPlain c
    → ((r : Bytes) → scan 0 s (q ∷ r) ≡ written (q ∷ []) (scan 0 s' r))
    → ((r : Bytes) → scan 0 s' (t ++ q ∷ c ∷ r) ≡ written t (closed q s' c r))
    → Reads s (q ∷ (t ++ q ∷ c ∷ [])) (q ∷ (t ++ q ∷ c ∷ []))
Reads-quoted q c t s s' h opens inside = record {
  next = shift_to code c (shift_to code q s');
  in_code = refl;
  reads = λ r.
      ap (λ (l : Bytes). scan 0 s (q ∷ l)) (append_assoc t (q ∷ c ∷ []) r)
      ∙ opens (t ++ q ∷ c ∷ r)
      ∙ ap (λ x. written (q ∷ []) x) (inside r ∙ ap (λ x. written t x) (closed-plain q c s' r h))
      ∙ written-quoted q c t (scan 0 (shift_to code c (shift_to code q s')) r);
}

opens-identifier :
    (s : Scanner) (r : Bytes)
    → s.state ≡ code
    → scan 0 s (0x22 ∷ r) ≡ written (0x22 ∷ []) (scan 0 (shift_to identifier 0x22 s) r)
unfolding scan round_of code_round
opens-identifier s r e = ground (arith, e)

opens-string :
    (s : Scanner) (r : Bytes)
    → s.state ≡ code
    → scan 0 s (0x27 ∷ r)
      ≡ written (0x27 ∷ []) (scan 0 (shift_to (string_state s.prev s.pprev) 0x27 s) r)
unfolding scan round_of code_round
opens-string s r e = ground (arith, e)

pub string_states :
    (prev pprev : ℕ)
    → (string_state prev pprev ≡ escape_string) ⊎ (string_state prev pprev ≡ single)
unfolding string_state
string_states prev pprev = ground arith

inside-string :
    (t : Bytes) (q : State) (s : Scanner) (c : ℕ) (r : Bytes)
    → c ≢ 0x27
    → All (λ b. b ≢ 0x5C) t
    → (q ≡ escape_string) ⊎ (q ≡ single)
    → let s' = shift_to q 0x27 s in
      scan 0 s' (doubled 0x27 t ++ 0x27 ∷ c ∷ r) ≡ written (doubled 0x27 t) (closed 0x27 s' c r)
inside-string t q s c r h a (inl e) = scan-escape t (shift_to q 0x27 s) c r h a e
inside-string t q s c r h a (inr e) = scan-single t (shift_to q 0x27 s) c r h e

pub written-written :
    (t u : Bytes) (x : Bytes × Bool) → written t (written u x) ≡ written (t ++ u) x
written-written t u (out, complete) = rw (append_assoc t u out) refl

-- A tag opens with a dollar sign.
dollar_tag-starts : (d : ℕ) (t u : Bytes) → dollar_tag (d ∷ t) ≡ some u → d ≡ b'$'
unfolding dollar_tag
dollar_tag-starts d t u e = ground (arith, e)

-- Behind a blank a tag opens its text.
opens-body :
    (d : ℕ) (tag : Bytes) (s : Scanner) (r : Bytes)
    → dollar_tag (d ∷ tag) ≡ some (d ∷ tag)
    → s.state ≡ code
    → s.prev ≡ b' '
    → scan 0 s (d ∷ (tag ++ r)) ≡ written (d ∷ tag) (scan 0 (shift_to (dollar (d ∷ tag)) b'$' s) r)
unfolding scan round_of code_round plain_round ident_byte
opens-body d tag s r h e p =
    let starts = dollar_tag-starts d tag (d ∷ tag) h in
    let found = dollar_tag-append (d ∷ tag) (d ∷ tag) r h in
    let less : suc (length tag) - 1 ≡ length tag = omega arith in
    ground (arith, e, p, starts, found, less, scan-skips tag (shift_to (dollar (d ∷ tag)) b'$' s) r)

Reads-body :
    (tag t : Bytes) (s : Scanner)
    → IsPiece (body tag t)
    → s.state ≡ code
    → Reads s (render (body tag t)) (render (body tag t))
unfolding dollar_tag
Reads-body [] t s h e = let none_some : none ≡ some [] = h.0 in cc
Reads-body (d ∷ tag) t s h e =
    let s1 = shift_to code b' ' s in
    let s2 = shift_to (dollar (d ∷ tag)) b'$' s1 in
    let blank_plain : IsPlain b' ' = ground arith in
    record {
      next = shift_to code b'$' s2;
      in_code = refl;
      reads = λ r.
          scan-plain b' ' s (d ∷ (tag ++ (t ++ d ∷ tag) ++ r)) blank_plain e
          ∙ ap (λ (l : Bytes). written (b' ' ∷ []) (scan 0 s1 (d ∷ l)))
              (append_assoc tag (t ++ d ∷ tag) r
                ∙ ap (λ (l : Bytes). tag ++ l) (append_assoc t (d ∷ tag) r))
          ∙ ap (λ x. written (b' ' ∷ []) x)
              (opens-body d tag s1 (t ++ d ∷ (tag ++ r)) h.0 refl refl
                ∙ ap (λ x. written (d ∷ tag) x) (scan-dollar d tag t s2 r h.1 refl)
                ∙ written-written (d ∷ tag) (t ++ d ∷ tag) (scan 0 (shift_to code b'$' s2) r))
          ∙ written-written (b' ' ∷ []) (d ∷ (tag ++ (t ++ d ∷ tag)))
              (scan 0 (shift_to code b'$' s2) r);
    }

-- Two plain bytes before a quoted text.
Reads-behind :
    (a b : ℕ) (s : Scanner) (piece : Bytes)
    → IsPlain a
    → IsPlain b
    → s.state ≡ code
    → Reads (shift_to code b (shift_to code a s)) piece piece
    → Reads s (a ∷ b ∷ piece) (a ∷ b ∷ piece)
Reads-behind a b s piece ha hb e rest = record {
  next = rest.next;
  in_code = rest.in_code;
  reads = λ r.
      scan-plain a s (b ∷ (piece ++ r)) ha e
      ∙ ap (λ x. written (a ∷ []) x)
          (scan-plain b (shift_to code a s) (piece ++ r) hb refl
            ∙ ap (λ x. written (b ∷ []) x) (rest.reads r)
            ∙ written-written (b ∷ []) piece (scan 0 rest.next r))
      ∙ written-written (a ∷ []) (b ∷ piece) (scan 0 rest.next r);
}

-- Which kind of string a quote opens behind two bytes.
string_state-single :
    (a b : ℕ) → ((b ≢ b'E') × (b ≢ b'e')) ⊎ (ident_byte a ≡ true) → string_state b a ≡ single
unfolding string_state
string_state-single a b (inl (h, k)) = ground (arith, h, k)
string_state-single a b (inr h) = ground (arith, h)

string_state-escape :
    (a b : ℕ) → (b ≡ b'E') ⊎ (b ≡ b'e') → ident_byte a ≡ false → string_state b a ≡ escape_string
unfolding string_state
string_state-escape a b (inl e) h = ground (arith, e, h)
string_state-escape a b (inr e) h = ground (arith, e, h)

is_e-IsPlain : (b : ℕ) → (b ≡ b'E') ⊎ (b ≡ b'e') → IsPlain b
is_e-IsPlain b (inl e) = ground (arith, e)
is_e-IsPlain b (inr e) = ground (arith, e)

Reads-literal :
    (a b c : ℕ) (t : Bytes) (s : Scanner)
    → IsPiece (literal a b t c)
    → s.state ≡ code
    → Reads s (render (literal a b t c)) (render (literal a b t c))
Reads-literal a b c t s (ha, hb, kind, hc) e =
    let s2 = shift_to code b (shift_to code a s) in
    let s3 = shift_to (string_state b a) 0x27 s2 in
    Reads-behind a b s _ ha hb e (
      Reads-quoted 0x27 c (doubled 0x27 t) s2 s3 hc (λ r. opens-string s2 r refl)
        (λ r. scan-single t s3 c r hc.3 (string_state-single a b kind)))

Reads-escaped :
    (a b c : ℕ) (t : List Item) (s : Scanner)
    → IsPiece (escaped a b t c)
    → s.state ≡ code
    → Reads s (render (escaped a b t c)) (render (escaped a b t c))
Reads-escaped a b c t s (ha, is_e, token, items, hc) e =
    let s2 = shift_to code b (shift_to code a s) in
    let s3 = shift_to (string_state b a) 0x27 s2 in
    Reads-behind a b s _ ha (is_e-IsPlain b is_e) e (
      Reads-quoted 0x27 c (render_items t) s2 s3 hc (λ r. opens-string s2 r refl)
        (λ r. scan-items t s3 c r hc.3 items (string_state-escape a b is_e token)))

pub Reads-piece :
    (p : Piece) (s : Scanner) → IsPiece p → s.state ≡ code → Reads s (render p) (render (blank p))
Reads-piece (plain c) s h e = Reads-plain c s h e
Reads-piece (pair a b) s h e = Reads-pair a b s h e
Reads-piece (string t c) s h e =
    Reads-quoted 0x27 c (doubled 0x27 t) s (shift_to (string_state s.prev s.pprev) 0x27 s) h.1
      (λ r. opens-string s r e)
      (λ r.
        inside-string t (string_state s.prev s.pprev) s c r h.1.3 h.0
          (string_states s.prev s.pprev))
Reads-piece (literal a b t c) s h e = Reads-literal a b c t s h e
Reads-piece (escaped a b t c) s h e = Reads-escaped a b c t s h e
Reads-piece (name t c) s h e =
    Reads-quoted 0x22 c (doubled 0x22 t) s (shift_to identifier 0x22 s) h
      (λ r. opens-identifier s r e)
      (λ r. scan-identifier t (shift_to identifier 0x22 s) c r h.4 refl)
Reads-piece (body tag t) s h e = Reads-body tag t s h e
Reads-piece (line t) s h e = Reads-line t s h e
Reads-piece (block k) s h e = Reads-block k s h e

scan-render_all :
    (ps : List Piece) (s : Scanner)
    → All IsPiece ps
    → s.state ≡ code
    → scan 0 s (render_all ps) ≡ (render_all (map blank ps), true)
unfolding scan is_complete
scan-render_all [] s h e = ground (arith, e)
scan-render_all (p ∷ ps) s h e =
    let first = Reads-piece p s h.0 e in
    first.reads (render_all ps)
    ∙ ap (λ x. written (render (blank p)) x) (scan-render_all ps first.next h.1 first.in_code)

-- A schema file made of plain bytes, strings, quoted names, dollar-quoted bodies, line comments and
-- nested block comments is complete, and it is stripped to the file in which each line comment is a
-- line break and each block comment a blank, with its white space collapsed. A string that opens
-- behind an E that is a token of its own is read with its backslashes as escapes, one that opens
-- behind two other bytes with its backslashes as plain bytes, and one that opens anywhere without
-- backslashes.
pub strip_comments-render_all :
    (ps : List Piece)
    → All IsPiece ps
    → (strip_comments (render_all ps) ≡ collapse_space (render_all (map blank ps)))
      × (complete (render_all ps) ≡ true)
unfolding strip_comments complete
strip_comments-render_all ps h =
    let whole = scan-render_all ps start_scanner h refl in
    (ap (λ (x : Bytes × Bool). collapse_space x.0) whole, ap (λ (x : Bytes × Bool). x.1) whole)
