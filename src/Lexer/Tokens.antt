-- ===== src/Lexer/Tokens.antt =====
-- `lexer_alloc_string` and `next_token` of src/frontend/ana_lexer.cpp.
use anastasia.Base.{
  ℕ, ◌+◌, ◌-◌, ◌*◌, ◌/◌, ◌%◌, ◌^◌, Bool, true, false, not, ◌&&◌, ◌||◌, Option, none, some, List, [],
  ◌∷◌, ltb, ◌==◌, if◌then◌else◌,
}
use anastasia.Base.Lists.{length}
use anastasia.Ast.{DataType, Opcode, Register, RegisterType}
use anastasia.Encoder.Buffer.{Kernel}
use anastasia.Lexer.Scan.{
  Lexer, peek, advance, skip_whitespace_and_comments, span, is_digit, is_letter, in_directive,
  in_identifier, decimal_from, literal_from,
}
use anastasia.Lexer.Keywords.{
  TokenType, token_eof, token_opcode, token_identifier, token_label, token_register,
  token_int_literal, token_lbracket, token_rbracket, token_lparen, token_rparen, token_colon,
  token_comma, token_plus, token_minus, token_arrow, token_string_literal, token_error, fnv1a_hash,
  find_word, directives, types_and_hints, opcodes,
}

-- The pool of string literals: whether `g_str_pool` is set, its size, the bytes handed out, and the
-- number of mappings asked for.
pub record StringPool : Type 0 where
  pub set : Bool
  pub cap : ℕ
  pub used : ℕ
  pub mapped : ℕ

abbrev pub pool_need : ℕ → ℕ
pool_need len = (len + 8) / 8 * 8

abbrev pub pool_block : ℕ → ℕ
pool_block need = if ltb 65536 need then (need + 4095) / 4096 * 4096 else 65536

-- Whether there is a copy, and the pool.
unfoldable pub lexer_alloc_string : Kernel → ℕ → StringPool → Bool × StringPool
lexer_alloc_string grants len pool =
    let need = pool_need len in
    let cap = pool_block need in
    let asked = pool.mapped + 1 in
    if not (not pool.set || ltb pool.cap (pool.used + need))
    then (true, record pool { used = pool.used + need })
    else if grants pool.mapped cap
    then (true, record { set = true; cap = cap; used = need; mapped = asked })
    else (false, record pool { mapped = asked })

-- The view is the `length` bytes of the text from `start` on. A field that no path sets is 0.
pub record Token : Type 0 where
  pub type : TokenType
  pub start : ℕ
  pub length : ℕ
  pub opcode : Opcode
  pub data_type : DataType
  pub int_val : ℕ
  pub text : List ℕ
  pub string_hash : ℕ
  pub reg : Register
  pub line : ℕ

-- The token before its type is known.
abbrev pub blank_token : Lexer → Token
blank_token x = record {
  type = token_eof;
  start = x.cursor;
  length = 0;
  opcode = Opcode.add_i32;
  data_type = DataType.void;
  int_val = 0;
  text = [];
  string_hash = 0;
  reg = record { type = RegisterType.untyped; index = 0 };
  line = x.line;
}

abbrev pub Step : Type 0
Step = Token × Lexer × StringPool

abbrev pub single : TokenType → Lexer → StringPool → Step
single t x pool = (record (blank_token x) { type = t; length = 1 }, advance x, pool)

-- An integer from the state `y` on; the token starts at `x`.
abbrev pub integer_from : Bool → Lexer → Lexer → StringPool → Step
integer_from negative x y pool =
    let (digits, after) = span is_digit y in
    let val = decimal_from 64 0 digits in
    (
      record (blank_token x) {
        type = token_int_literal;
        length = after.cursor - x.cursor;
        int_val = if negative then (2 ^ 64 - val) % 2 ^ 64 else val;
      },
      after,
      pool,
    )

unfoldable pub lex_minus : Lexer → StringPool → Step
lex_minus x pool =
    let y = advance x in
    if peek y == b'>'
    then (record (blank_token x) { type = token_arrow; length = 2 }, advance y, pool)
    else if is_digit (peek y)
    then integer_from true x y pool
    else (record (blank_token x) { type = token_minus; length = 1 }, y, pool)

abbrev pub literal_token : Lexer → List ℕ → Lexer → Bool × StringPool → Step
literal_token x bs after (true, pool) = (
  record (blank_token x) {
    type = token_string_literal;
    length = after.cursor - x.cursor;
    text = bs;
    string_hash = fnv1a_hash bs;
  },
  after,
  pool,
)
literal_token x bs after (false, pool) =
    (record (blank_token x) { type = token_error }, after, pool)

unfoldable pub lex_string : Kernel → Lexer → StringPool → Step
unfolding literal_from lexer_alloc_string
lex_string grants x pool =
    let y = advance x in
    let (bs, z) = literal_from y.rest 0 y.cursor y.line in
    let after = if peek z == b'"' then advance z else z in
    literal_token x bs after (lexer_alloc_string grants (length bs) pool)

abbrev type_or_identifier : Option TokenType → TokenType
type_or_identifier (some t) = t
type_or_identifier none = token_identifier

unfoldable pub lex_directive : Lexer → StringPool → Step
lex_directive x pool =
    let (name, after) = span in_directive (advance x) in
    (
      record (blank_token x) {
        type = type_or_identifier (find_word directives (fnv1a_hash name));
        length = after.cursor - x.cursor;
      },
      after,
      pool,
    )

abbrev pub all_digits : List ℕ → Bool
all_digits [] = true
all_digits (c ∷ cs) = is_digit c && all_digits cs

-- The register that a word names, if it is `p` or `v` and decimal digits.
unfoldable pub register_of : List ℕ → Option Register
register_of [] = none
register_of (c ∷ []) = none
register_of (c ∷ d ∷ ds) =
    if (c == b'p' || c == b'v') && all_digits (d ∷ ds)
    then some (record {
      type = if c == b'p' then RegisterType.param else RegisterType.local;
      index = decimal_from 32 0 (d ∷ ds);
    })
    else none

abbrev pub as_opcode : Token → Option Opcode → Token
as_opcode tok (some op) = record tok { type = token_opcode; opcode = op }
as_opcode tok none = record tok { type = token_identifier }

abbrev pub as_type : Token → ℕ → Option (TokenType × DataType) → Token
as_type tok hash (some (t, d)) = record tok { type = t; data_type = d }
as_type tok hash none = as_opcode tok (find_word opcodes hash)

abbrev pub as_register : Token → List ℕ → Option Register → Token
as_register tok name (some r) = record tok { type = token_register; reg = r }
as_register tok name none =
    as_type tok (fnv1a_hash name)
      (find_word {A = TokenType × DataType} types_and_hints (fnv1a_hash name))

unfoldable pub lex_identifier : Lexer → StringPool → Step
unfolding register_of
lex_identifier x pool =
    let (name, after) = span in_identifier x in
    let tok = record (blank_token x) { length = after.cursor - x.cursor } in
    if peek after == b':'
    then (record tok { type = token_label }, advance after, pool)
    else (as_register tok name (register_of name), after, pool)

-- `next_token`, behind the blanks and the end of the text: by the first character.
unfoldable pub lex_char : Kernel → ℕ → Lexer → StringPool → Step
unfolding lex_string lex_minus lex_directive lex_identifier
lex_char grants c x pool =
    if c == b'"'
    then lex_string grants x pool
    else if c == b'['
    then single token_lbracket x pool
    else if c == b']'
    then single token_rbracket x pool
    else if c == b'('
    then single token_lparen x pool
    else if c == b')'
    then single token_rparen x pool
    else if c == b':'
    then single token_colon x pool
    else if c == b','
    then single token_comma x pool
    else if c == b'+'
    then single token_plus x pool
    else if c == b'-'
    then lex_minus x pool
    else if is_digit c
    then integer_from false x x pool
    else if c == b'.'
    then lex_directive x pool
    else if is_letter c || c == b'_'
    then lex_identifier x pool
    else single token_error x pool

unfoldable pub next_token : Kernel → Lexer → StringPool → Step
unfolding skip_whitespace_and_comments lex_char
next_token grants x0 pool =
    let x = skip_whitespace_and_comments x0 in
    if peek x == 0 then (blank_token x, x, pool) else lex_char grants (peek x) x pool
