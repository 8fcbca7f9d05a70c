-- ===== src/SchemaVer/Ddl.antt =====
-- internal/schemaver/ddl.go: the scanner that takes the comments out of a schema file. The loop
-- moves on by one byte or by several: `scan` is given how many of the next bytes have been handled.
-- A byte that is not there reads as 0, which is none of the bytes that the scanner looks for.
pub mod Collapse
pub mod Pieces
pub mod Quotes
pub mod Comments
pub mod Unfinished
mod Examples
use crucible_analytic.Prelude.{
  ℕ, zero, suc, ◌+◌, ◌-◌, Bool, true, false, not, ◌&&◌, ◌||◌, List, [], ◌∷◌, ◌++◌, Option, none,
  some, Bytes, ltb, leb, ◌==◌, if◌then◌else◌, length, get_or, codes,
}
use crucible_analytic.Prelude.Text.{is_empty}

pub data State : Type 0 where
  code single escape_string identifier line_comment : State
  dollar : Bytes → State  -- the active tag
  block_comment : ℕ → State  -- the nesting

-- The state with the last two bytes that were emitted in code.
pub record Scanner : Type 0 where
  pub state : State
  pub prev : ℕ
  pub pprev : ℕ

abbrev pub start_scanner : Scanner
start_scanner = record { state = code; prev = 0; pprev = 0 }

-- `shift(c)` with the next state.
abbrev pub shift_to : State → ℕ → Scanner → Scanner
shift_to state c s = record { state = state; prev = c; pprev = s.prev }

abbrev pub is_in : ℕ → ℕ → ℕ → Bool
is_in low high c = leb low c && leb c high

unfoldable pub ident_byte : ℕ → Bool
ident_byte c =
    is_in b'a' b'z' c
    || is_in b'A' b'Z' c
    || is_in b'0' b'9' c
    || c == b'_'
    || c == b'$'
    || leb 0x80 c

-- The rest of a tag behind its first byte; `first` says whether its next byte is the first of the
-- name.
unfoldable pub tag_rest : Bool → Bytes → Option Bytes
tag_rest first [] = none
tag_rest first (c ∷ s) =
    let rest = tag_rest false s in
    let letter = c == b'_' || is_in b'a' b'z' c || is_in b'A' b'Z' c || leb 0x80 c in
    let digit = is_in b'0' b'9' c in
    if c == b'$'
    then some (c ∷ [])
    else if letter || (digit && not first)
    then (elim rest [ none ↦ none | some t ↦ some (c ∷ t) ])
    else none

unfoldable pub dollar_tag : Bytes → Option Bytes
dollar_tag [] = none
dollar_tag (c ∷ s) =
    let rest = tag_rest true s in
    if c == b'$' then (elim rest [ none ↦ none | some t ↦ some (c ∷ t) ]) else none

unfoldable pub has_prefix : Bytes → Bytes → Bool
has_prefix [] s = true
has_prefix (c ∷ t) [] = false
has_prefix (c ∷ t) (d ∷ s) = c == d && has_prefix t s

-- What one round does: the scanner behind it, what it writes, and how many bytes behind the first
-- it has taken.
pub record Round : Type 0 where
  pub next : Scanner
  pub wrote : Bytes
  pub more : ℕ

abbrev pub round : Scanner → Bytes → ℕ → Round
round next wrote more = record { next = next; wrote = wrote; more = more }

-- Which kind of string a quote opens: `E` has to be a token of its own.
unfoldable pub string_state : ℕ → ℕ → State
string_state prev pprev =
    if (prev == b'E' || prev == b'e') && not (ident_byte pprev) then escape_string else single

unfoldable pub plain_round : Scanner → ℕ → Option Bytes → Round
plain_round s c none = round (shift_to code c s) (c ∷ []) 0
plain_round s c (some t) = round (shift_to (dollar t) b'$' s) t (length t - 1)

unfoldable pub code_round : Scanner → ℕ → Bytes → Round
unfolding plain_round
code_round s c r =
    if c == b'-' && get_or r 0 0 == b'-'
    then round (record s { state = line_comment }) [] 1
    else if c == b'/' && get_or r 0 0 == b'*'
    then round (record s { state = block_comment 1 }) [] 1
    else if c == 0x27
    then round (shift_to (string_state s.prev s.pprev) c s) (c ∷ []) 0
    else if c == 0x22
    then round (shift_to identifier c s) (c ∷ []) 0
    else plain_round s c (if ident_byte s.prev then none else dollar_tag (c ∷ r))

unfoldable pub quoted_round : ℕ → Scanner → ℕ → Bytes → Round
quoted_round quote s c r =
    if c == quote
    then if get_or r 0 0 == quote
      then round s (c ∷ quote ∷ []) 1
      else round (shift_to code quote s) (c ∷ []) 0
    else round s (c ∷ []) 0

unfoldable pub escape_round : Scanner → ℕ → Bytes → Round
unfolding quoted_round
escape_round s c r =
    if c == 0x5C && not (is_empty r)
    then round s (c ∷ get_or r 0 0 ∷ []) 1
    else quoted_round 0x27 s c r

unfoldable pub dollar_round : Bytes → Scanner → ℕ → Bytes → Round
dollar_round tag s c r =
    if has_prefix tag (c ∷ r)
    then round (shift_to code b'$' s) tag (length tag - 1)
    else round s (c ∷ []) 0

unfoldable pub line_round : Scanner → ℕ → Round
line_round s c = if c == b'\n' then round (shift_to code c s) (c ∷ []) 0 else round s [] 0

-- The end of one block comment in `depth`.
unfoldable pub close_block : Scanner → ℕ → Round
close_block s depth =
    if depth == 1
    then round (shift_to code b' ' s) (b' ' ∷ []) 1
    else round (record s { state = block_comment (depth - 1) }) [] 1

unfoldable pub block_round : ℕ → Scanner → ℕ → Bytes → Round
unfolding close_block
block_round depth s c r =
    if c == b'/' && get_or r 0 0 == b'*'
    then round (record s { state = block_comment (depth + 1) }) [] 1
    else if c == b'*' && get_or r 0 0 == b'/'
    then close_block s depth
    else round s [] 0

-- `switch state`.
unfoldable pub round_of : State → Scanner → ℕ → Bytes → Round
unfolding code_round quoted_round escape_round dollar_round line_round block_round
round_of code s c r = code_round s c r
round_of single s c r = quoted_round 0x27 s c r
round_of identifier s c r = quoted_round 0x22 s c r
round_of escape_string s c r = escape_round s c r
round_of (dollar tag) s c r = dollar_round tag s c r
round_of line_comment s c r = line_round s c
round_of (block_comment depth) s c r = block_round depth s c r

unfoldable pub is_complete : State → Bool
is_complete code = true
is_complete line_comment = true
is_complete _ = false

-- What is written, and whether the end is a complete one.
unfoldable pub scan : ℕ → Scanner → Bytes → Bytes × Bool
unfolding round_of
scan n s [] = ([], is_complete s.state)
scan (suc n) s (c ∷ r) = scan n s r
scan zero s (c ∷ r) =
    let step = round_of s.state s c r in
    let (out, complete) = scan step.more step.next r in (step.wrote ++ out, complete)

unfoldable pub ascii_space : ℕ → Bool
ascii_space c = c == b' ' || is_in 9 13 c

-- The loop of collapseSpace: `gap`, and whether anything has been written.
unfoldable pub collapse_loop : Bool → Bool → Bytes → Bytes
collapse_loop gap written [] = []
collapse_loop gap written (c ∷ s) = elim (ascii_space c) [
  | true ↦ collapse_loop true written s
  | false ↦ (if gap && written then b' ' ∷ c ∷ [] else c ∷ []) ++ collapse_loop false true s
]

unfoldable pub collapse_space : Bytes → Bytes
unfolding collapse_loop
collapse_space s = collapse_loop true false s

unfoldable pub strip_comments : Bytes → Bytes
unfolding scan collapse_space
strip_comments sql = collapse_space (scan 0 start_scanner sql).0

unfoldable pub complete : Bytes → Bool
unfolding scan
complete sql = (scan 0 start_scanner sql).1
