-- ===== src/SchemaVer/Ddl/Examples.antt =====
-- The scanner of schema files on concrete input.
use crucible_analytic.Prelude.{◌≡◌, refl, true, List, [], ◌∷◌, map, All, codes, arith}
use crucible_analytic.SchemaVer.Ddl.{
  ident_byte, ascii_space, collapse_space, strip_comments, complete, dollar_tag, tag_rest,
  has_prefix,
}
use crucible_analytic.SchemaVer.Ddl.Collapse.{collapse_space-strip_comments}
use crucible_analytic.SchemaVer.Ddl.Pieces.{
  done, byte, twin, nested, Piece, plain, string, literal, escaped, escape, char, twice, body, line,
  block, blank, render_all, IsPiece,
}
use crucible_analytic.SchemaVer.Ddl.Comments.{strip_comments-render_all}

strips : strip_comments (codes "a  /*b*/") ≡ codes "a"
unfolding strip_comments ident_byte dollar_tag ascii_space
strips = refl

-- `a'b--c'`, a string with an escaped quote and one that ends with a backslash, two nested comments, a dollar-quoted body and a line comment.
abbrev file : List Piece
file =
    plain b'a'
    ∷ string (codes "b--c") b';'
    ∷ escaped b' ' b'E' (escape 0x27 ∷ char b'-' ∷ char b'-' ∷ twice ∷ []) b';'
    ∷ literal b'x' b'e' (b'y' ∷ 0x5C ∷ []) b';'
    ∷ block (byte b'x' (nested (twin b'*' b'y' done) done))
    ∷ body (codes "$f$") (codes "--")
    ∷ line (codes "z")
    ∷ []

file-IsPiece : All IsPiece file
unfolding dollar_tag tag_rest has_prefix ident_byte
file-IsPiece = ground arith

strip_comments-render_all_example :
    (strip_comments (render_all file) ≡ collapse_space (render_all (map blank file)))
    × (complete (render_all file) ≡ true)
strip_comments-render_all_example = strip_comments-render_all file file-IsPiece

collapse_space-strip_comments_example :
    collapse_space (strip_comments (codes "a  b")) ≡ strip_comments (codes "a  b")
collapse_space-strip_comments_example = collapse_space-strip_comments (codes "a  b")
