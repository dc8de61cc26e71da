-- ===== src/Lexer/Scan.antt =====
-- The state of the lexer of src/frontend/ana_lexer.cpp and its loops over the text.
use anastasia.Base.{
  ℕ, ◌+◌, ◌-◌, ◌*◌, ◌%◌, ◌^◌, Bool, true, false, not, ◌&&◌, ◌||◌, List, [], ◌∷◌, leb, ◌==◌,
  if◌then◌else◌,
}

-- `rest` is the text from `cursor_` on.
pub record Lexer : Type 0 where
  pub rest : List ℕ
  pub cursor : ℕ
  pub line : ℕ

abbrev pub at : List ℕ → ℕ → ℕ → Lexer
at rest cursor line = record { rest = rest; cursor = cursor; line = line }

abbrev pub peek : Lexer → ℕ
peek x = elim x.rest [ [] ↦ 0 | ◌∷◌ c cs ↦ c ]

-- `line_` after the byte `c`, a `uint32_t`.
abbrev pub next_line : ℕ → ℕ → ℕ
next_line c line = if c == b'\n' then (line + 1) % 2 ^ 32 else line

abbrev advance_from : List ℕ → ℕ → ℕ → Lexer
advance_from [] cursor line = at [] cursor line
advance_from (c ∷ cs) cursor line =
    if c == 0 then at (c ∷ cs) cursor line else at cs (cursor + 1) (next_line c line)

unfoldable pub advance : Lexer → Lexer
advance x = advance_from x.rest x.cursor x.line

abbrev pub is_blank : ℕ → Bool
is_blank c = c == b' ' || c == b'\t' || c == b'\r' || c == b'\n'

abbrev pub starts_comment : ℕ → Bool
starts_comment c = c == b'#' || c == b';'

-- Both loops of `skip_whitespace_and_comments`: `inside` is true in the inner one.
unfoldable pub skip_from : Bool → List ℕ → ℕ → ℕ → Lexer
skip_from inside [] cursor line = at [] cursor line
skip_from inside (c ∷ cs) cursor line =
    let in_comment = skip_from true cs (cursor + 1) (next_line c line) in
    let outside = skip_from false cs (cursor + 1) (next_line c line) in
    if inside && not (c == b'\n' || c == 0)
    then in_comment
    else if is_blank c
    then outside
    else if starts_comment c
    then in_comment
    else at (c ∷ cs) cursor line

unfoldable pub skip_whitespace_and_comments : Lexer → Lexer
unfolding skip_from
skip_whitespace_and_comments x = skip_from false x.rest x.cursor x.line

-- `while (p(peek())) advance();` for a class of characters without the zero byte and the newline:
-- the bytes passed over, and the state behind them.
unfoldable pub span_from : (ℕ → Bool) → List ℕ → ℕ → ℕ → List ℕ × Lexer
span_from p [] cursor line = ([], at [] cursor line)
span_from p (c ∷ cs) cursor line =
    let later = span_from p cs (cursor + 1) line in
    if p c then (c ∷ later.0, later.1) else ([], at (c ∷ cs) cursor line)

unfoldable pub span : (ℕ → Bool) → Lexer → List ℕ × Lexer
unfolding span_from
span p x = span_from p x.rest x.cursor x.line

abbrev pub is_digit : ℕ → Bool
is_digit c = leb b'0' c && leb c b'9'

abbrev pub is_letter : ℕ → Bool
is_letter c = leb b'a' c && leb c b'z' || leb b'A' c && leb c b'Z'

-- The characters of a directive, and of an identifier.
abbrev pub in_directive : ℕ → Bool
in_directive c = is_letter c || c == b'_' || c == b'-'

abbrev pub in_identifier : ℕ → Bool
in_identifier c = is_letter c || is_digit c || c == b'_' || c == b'-' || c == b'.' || c == b'/'

-- `val = val * 10 + (c - '0')`, at `w` bits.
unfoldable pub decimal_from : ℕ → ℕ → List ℕ → ℕ
decimal_from w acc [] = acc
decimal_from w acc (c ∷ cs) = decimal_from w ((acc * 10 + (c - b'0')) % 2 ^ w) cs

abbrev unescaped : ℕ → ℕ
unescaped c =
    if c == b'n'
    then 10
    else if c == b't'
    then 9
    else if c == b'r'
    then 13
    else if c == b'0'
    then 0
    else c

-- `sizeof(temp_buf) - 1`
abbrev pub max_literal : ℕ
max_literal = 2047

abbrev with_byte : ℕ → List ℕ × Lexer → List ℕ × Lexer
with_byte c (bs, x) = (c ∷ bs, x)

-- The loop over the characters of a string literal, with `len` of them stored.
unfoldable pub literal_from : List ℕ → ℕ → ℕ → ℕ → List ℕ × Lexer
literal_from [] len cursor line = ([], at [] cursor line)
literal_from (c ∷ []) len cursor line =
    if c == b'"' || c == 0 || leb max_literal len
    then ([], at (c ∷ []) cursor line)
    else if c == b'\\'
    then (0 ∷ [], at [] (cursor + 1) line)
    else (c ∷ [], at [] (cursor + 1) (next_line c line))
literal_from (c ∷ e ∷ cs) len cursor line =
    let plain = literal_from (e ∷ cs) (len + 1) (cursor + 1) (next_line c line) in
    let escape = literal_from cs (len + 1) (cursor + 2) (next_line e line) in
    if c == b'"' || c == 0 || leb max_literal len
    then ([], at (c ∷ e ∷ cs) cursor line)
    else if not (c == b'\\')
    then with_byte c plain
    else if e == 0
    then (0 ∷ [], at (e ∷ cs) (cursor + 1) line)
    else with_byte (unescaped e) escape
