-- ===== src/SchemaVer/Ddl/Unfinished.antt =====
-- A schema file that ends inside a literal or a comment.
use crucible_analytic.Prelude.{
  ℕ, ◌≡◌, ◌≢◌, refl, ap, ◌∙◌, Bool, false, List, [], ◌∷◌, ◌++◌, append_assoc, Bytes, All, arith,
  ◌⊎◌, inl, inr,
}
use crucible_analytic.SchemaVer.Ddl.{
  code, single, escape_string, identifier, block_comment, Scanner, start_scanner, shift_to,
  string_state, quoted_round, escape_round, code_round, block_round, round_of, is_complete, scan,
  complete,
}
use crucible_analytic.SchemaVer.Ddl.Pieces.{Piece, doubled, render, render_all, IsPiece, IsText}
use crucible_analytic.SchemaVer.Ddl.Quotes.{written}
use crucible_analytic.SchemaVer.Ddl.Comments.{Reads-piece, string_states}

-- A literal or a comment that is opened and not closed.
pub data Opening : Type 0 where
  open_string open_name : Bytes → Opening
  open_block : Bytes → Opening

abbrev pub render_opening : Opening → Bytes
render_opening (open_string s) = 0x27 ∷ doubled 0x27 s
render_opening (open_name s) = 0x22 ∷ doubled 0x22 s
render_opening (open_block s) = b'/' ∷ b'*' ∷ s

abbrev pub IsOpening : Opening → Type 0
IsOpening (open_string s) = All (λ b. b ≢ 0x5C) s
IsOpening (open_name s) = Unit
IsOpening (open_block s) = All IsText s

ends-string :
    (t : Bytes) (s : Scanner)
    → All (λ b. b ≢ 0x5C) t
    → (s.state ≡ escape_string) ⊎ (s.state ≡ single)
    → (scan 0 s (doubled 0x27 t)).1 ≡ false
unfolding scan round_of quoted_round escape_round is_complete
ends-string [] s a (inl e) = ground (arith, e)
ends-string [] s a (inr e) = ground (arith, e)
ends-string (b ∷ t) s a (inl e) = ground (arith, e, a.0, ends-string t s a.1 (inl e))
ends-string (b ∷ t) s a (inr e) = ground (arith, e, ends-string t s a.1 (inr e))

ends-name : (t : Bytes) (s : Scanner) → s.state ≡ identifier → (scan 0 s (doubled 0x22 t)).1 ≡ false
unfolding scan round_of quoted_round is_complete
ends-name [] s e = ground (arith, e)
ends-name (b ∷ t) s e = ground (arith, e, ends-name t s e)

ends-block :
    (t : Bytes) (s : Scanner) (depth : ℕ)
    → All IsText t
    → s.state ≡ block_comment depth
    → (scan 0 s t).1 ≡ false
unfolding scan round_of block_round is_complete
ends-block [] s depth a e = ground (arith, e)
ends-block (b ∷ t) s depth a e = ground (arith, e, a.0, ends-block t s depth a.1 e)

opens-block :
    (t : Bytes) (s : Scanner)
    → s.state ≡ code
    → scan 0 s (b'/' ∷ b'*' ∷ t) ≡ written [] (scan 0 (record s { state = block_comment 1 }) t)
unfolding scan round_of code_round
opens-block t s e = ground (arith, e)

ends-opening :
    (o : Opening) (s : Scanner)
    → IsOpening o
    → s.state ≡ code
    → (scan 0 s (render_opening o)).1 ≡ false
unfolding scan round_of code_round
ends-opening (open_string t) s h e =
    let s' = shift_to (string_state s.prev s.pprev) 0x27 s in
    ground (arith, e, ends-string t s' h (string_states s.prev s.pprev))
ends-opening (open_name t) s h e = ground (arith, e, ends-name t (shift_to identifier 0x22 s) refl)
ends-opening (open_block t) s h e =
    ap (λ (x : Bytes × Bool). x.1) (opens-block t s e)
    ∙ ends-block t (record s { state = block_comment 1 }) 1 h refl

ends-render_all :
    (ps : List Piece) (o : Opening) (s : Scanner)
    → All IsPiece ps
    → IsOpening o
    → s.state ≡ code
    → (scan 0 s (render_all ps ++ render_opening o)).1 ≡ false
ends-render_all [] o s a h e = ends-opening o s h e
ends-render_all (p ∷ ps) o s a h e =
    let first = Reads-piece p s a.0 e in
    ap (λ (l : Bytes). (scan 0 s l).1) (append_assoc (render p) (render_all ps) (render_opening o))
    ∙ ap (λ (x : Bytes × Bool). x.1) (first.reads (render_all ps ++ render_opening o))
    ∙ ends-render_all ps o first.next a.1 h first.in_code

-- A schema file whose last string, quoted name or block comment is not closed is not complete,
-- whatever pieces stand before it.
complete-render_opening :
    (ps : List Piece) (o : Opening)
    → All IsPiece ps
    → IsOpening o
    → complete (render_all ps ++ render_opening o) ≡ false
unfolding complete
complete-render_opening ps o a h = ends-render_all ps o start_scanner a h refl
