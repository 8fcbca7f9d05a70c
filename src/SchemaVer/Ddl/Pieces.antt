-- ===== src/SchemaVer/Ddl/Pieces.antt =====
-- A schema file as a list of pieces, and what the scanner makes of each.
use crucible_analytic.Prelude.{
  ℕ, zero, suc, ◌+◌, ◌-◌, ◌≡◌, ◌≢◌, ◌⊎◌, refl, ◌∙◌, Bool, true, false, List, [], ◌∷◌, ◌++◌,
  append_assoc, some, Bytes, All, arith, ◌==◌, if◌then◌else◌,
}
use crucible_analytic.SchemaVer.Ddl.{
  code, ident_byte, block_comment, Scanner, shift_to, dollar_tag, has_prefix, close_block,
  block_round, round_of, scan, complete,
}

-- A comment behind its opening, to its own end.
pub data Comment : Type 0 where
  done : Comment
  byte : ℕ → Comment → Comment
  twin : ℕ → ℕ → Comment → Comment  -- a star or a slash, and a byte that is neither
  nested : Comment → Comment → Comment

abbrev pub render_comment : Comment → Bytes
render_comment done = b'*' ∷ b'/' ∷ []
render_comment (byte c k) = c ∷ render_comment k
render_comment (twin a b k) = a ∷ b ∷ render_comment k
render_comment (nested i k) = b'/' ∷ b'*' ∷ (render_comment i ++ render_comment k)

abbrev pub IsText : ℕ → Type 0
IsText c = (c ≢ b'*') × (c ≢ b'/')

abbrev pub IsComment : Comment → Type 0
IsComment done = Unit
IsComment (byte c k) = IsText c × IsComment k
IsComment (twin a b k) = ((a ≡ b'*') ⊎ (a ≡ b'/')) × IsText b × IsComment k
IsComment (nested i k) = IsComment i × IsComment k

-- What a scanner does behind a comment that leaves `depth` comments open.
abbrev behind : ℕ → Scanner → Bytes → Bytes × Bool
behind zero s r = let (out, complete) = scan 0 (shift_to code b' ' s) r in (b' ' ∷ out, complete)
behind (suc depth) s r = scan 0 (record s { state = block_comment (suc depth) }) r

pub scan-comment :
    (k : Comment) (depth : ℕ) (s : Scanner) (r : Bytes)
    → IsComment k
    → scan 0 (record s { state = block_comment (suc depth) }) (render_comment k ++ r)
      ≡ behind depth s r
unfolding scan round_of block_round close_block
scan-comment done zero s r h = refl
scan-comment done (suc depth) s r h =
    let open_e : (suc (suc depth) == 1) ≡ false = ground arith in
    let left : suc (suc depth) - 1 ≡ suc depth = omega arith in ground (arith, open_e, left)
scan-comment (byte c k) depth s r h = ground (arith, h.0, scan-comment k depth s r h.1)
scan-comment (twin a b k) depth s r h = ground (arith, h.0, h.1, scan-comment k depth s r h.2)
scan-comment (nested i k) depth s r h =
    let deeper : suc depth + 1 ≡ suc (suc depth) = omega arith in
    rw (deeper, append_assoc (render_comment i) (render_comment k) r)
      (scan-comment i (suc depth) s (render_comment k ++ r) h.0 ∙ scan-comment k depth s r h.1)

-- What stands between the quotes of E'...': a byte, a byte behind a backslash, or a quote twice.
pub data Item : Type 0 where
  char escape : ℕ → Item
  twice : Item

abbrev pub render_items : List Item → Bytes
render_items [] = []
render_items (char c ∷ items) = c ∷ render_items items
render_items (escape c ∷ items) = 0x5C ∷ c ∷ render_items items
render_items (twice ∷ items) = 0x27 ∷ 0x27 ∷ render_items items

abbrev pub IsItem : Item → Type 0
IsItem (char c) = (c ≢ 0x27) × (c ≢ 0x5C)
IsItem (escape c) = Unit
IsItem twice = Unit

-- What stands in a schema file.
pub data Piece : Type 0 where
  plain : ℕ → Piece
  pair : ℕ → ℕ → Piece  -- a dash or a slash, and a plain byte
  string : Bytes → ℕ → Piece  -- '...', and a plain byte
  literal : ℕ → ℕ → Bytes → ℕ → Piece  -- two plain bytes, '...', and a plain byte
  escaped : ℕ → ℕ → List Item → ℕ → Piece  -- a plain byte, E'...', and a plain byte
  name : Bytes → ℕ → Piece  -- "...", and a plain byte
  body : Bytes → Bytes → Piece  -- a blank, and $tag$...$tag$
  line : Bytes → Piece  -- --... and the end of the line
  block : Comment → Piece  -- /*...*/

-- A text between quotes, with each quote doubled.
abbrev pub doubled : ℕ → Bytes → Bytes
doubled quote [] = []
doubled quote (c ∷ s) =
    let rest = doubled quote s in if c == quote then c ∷ quote ∷ rest else c ∷ rest

abbrev pub render : Piece → Bytes
render (plain c) = c ∷ []
render (pair a b) = a ∷ b ∷ []
render (string s c) = 0x27 ∷ (doubled 0x27 s ++ 0x27 ∷ c ∷ [])
render (literal a b s c) = a ∷ b ∷ 0x27 ∷ (doubled 0x27 s ++ 0x27 ∷ c ∷ [])
render (escaped a b items c) = a ∷ b ∷ 0x27 ∷ (render_items items ++ 0x27 ∷ c ∷ [])
render (name s c) = 0x22 ∷ (doubled 0x22 s ++ 0x22 ∷ c ∷ [])
render (body tag s) = b' ' ∷ (tag ++ (s ++ tag))
render (line s) = b'-' ∷ b'-' ∷ (s ++ b'\n' ∷ [])
render (block k) = b'/' ∷ b'*' ∷ render_comment k

-- The piece with its comment taken out: a line break or a blank is left.
abbrev pub blank : Piece → Piece
blank (line s) = plain b'\n'
blank (block k) = plain b' '
blank p = p

abbrev pub render_all : List Piece → Bytes
render_all [] = []
render_all (p ∷ ps) = render p ++ render_all ps

-- A byte that means nothing to the scanner.
abbrev pub IsPlain : ℕ → Type 0
IsPlain c = (c ≢ b'-') × (c ≢ b'/') × (c ≢ b'$') × (c ≢ 0x27) × (c ≢ 0x22)

-- The tag does not stand in the text, nor across its end.
abbrev pub IsFree : Bytes → Bytes → Type 0
IsFree tag [] = Unit
IsFree tag (c ∷ s) = (has_prefix tag (c ∷ (s ++ tag)) ≡ false) × IsFree tag s

abbrev pub IsPiece : Piece → Type 0
IsPiece (plain c) = IsPlain c
IsPiece (pair a b) = ((a ≡ b'-') ⊎ (a ≡ b'/')) × IsPlain b × (b ≢ b'*')
IsPiece (string s c) = All (λ b. b ≢ 0x5C) s × IsPlain c
IsPiece (literal a b s c) =
    IsPlain a × IsPlain b × (((b ≢ b'E') × (b ≢ b'e')) ⊎ (ident_byte a ≡ true)) × IsPlain c
IsPiece (escaped a b items c) =
    IsPlain a × ((b ≡ b'E') ⊎ (b ≡ b'e')) × (ident_byte a ≡ false) × All IsItem items × IsPlain c
IsPiece (name s c) = IsPlain c
IsPiece (body tag s) = (dollar_tag tag ≡ some tag) × IsFree tag s
IsPiece (line s) = All (λ b. b ≢ b'\n') s
IsPiece (block k) = IsComment k
