-- ===== src/Parser/State.antt =====
-- The state of the parser of src/frontend/ana_parser.cpp, `advance`, `expect` and the strings of the
-- tokens. The arena is taken to have room for the tree.
use Prim.Native.String.{String}
use anastasia.Base.{ℕ, Bool, true, false, List, [], ◌==◌, if◌then◌else◌}
use anastasia.Base.Lists.{slice}
use anastasia.Encoder.Buffer.{Kernel}
use anastasia.Lexer.Scan.{Lexer, at}
use anastasia.Lexer.Keywords.{
  TokenType, token_eof, token_fn, token_end_fn, token_class, token_end_class, token_field,
  token_registers, token_import_sys, token_opcode, token_identifier, token_label, token_register,
  token_int_literal, token_lbracket, token_rbracket, token_lparen, token_rparen, token_colon,
  token_comma, token_plus, token_minus, token_arrow, token_type, token_likely, token_unlikely,
  token_string_literal, token_error,
}
use anastasia.Lexer.Tokens.{StringPool, Token, blank_token, next_token}

-- The enumerator's value.
abbrev pub token_code : TokenType → ℕ
token_code token_eof = 0
token_code token_fn = 1
token_code token_end_fn = 2
token_code token_class = 3
token_code token_end_class = 4
token_code token_field = 5
token_code token_registers = 6
token_code token_import_sys = 7
token_code token_opcode = 8
token_code token_identifier = 9
token_code token_label = 10
token_code token_register = 11
token_code token_int_literal = 12
token_code token_lbracket = 13
token_code token_rbracket = 14
token_code token_lparen = 15
token_code token_rparen = 16
token_code token_colon = 17
token_code token_comma = 18
token_code token_plus = 19
token_code token_minus = 20
token_code token_arrow = 21
token_code token_type = 22
token_code token_likely = 23
token_code token_unlikely = 24
token_code token_string_literal = 25
token_code token_error = 26

-- `source` is the text of the lexer, `grants` how the system answers its pool. An `error_msg` that
-- is null reads as the empty string, as `error_message` has it.
pub record Parser : Type 0 where
  pub source : List ℕ
  pub grants : Kernel
  pub lexer : Lexer
  pub pool : StringPool
  pub current_tok : Token
  pub had_error : Bool
  pub error_msg : String
  pub error_line : ℕ

-- Whether the current token has the type.
abbrev pub is : Parser → TokenType → Bool
is p t = token_code p.current_tok.type == token_code t

-- The first error is kept.
unfoldable pub fail_at : ℕ → String → Parser → Parser
fail_at line msg p =
    if p.had_error then p else record p { had_error = true; error_msg = msg; error_line = line }

-- `next_token` and what it leaves.
unfoldable pub read_token : Parser → Parser
read_token p =
    let s = next_token p.grants p.lexer p.pool in
    record p { lexer = s.1; pool = s.2; current_tok = s.0 }

unfoldable pub advance : Parser → Parser
unfolding read_token fail_at
advance p =
    let q = read_token p in
    if is q token_error then fail_at q.current_tok.line "Invalid character in source" q else q

unfoldable pub expect : TokenType → String → Parser → Parser
unfolding advance fail_at
expect t msg p = if is p t then advance p else fail_at p.current_tok.line msg p

-- The branches that set `had_error_` and `error_msg_` and leave the line.
unfoldable pub fail : String → Parser → Parser
unfolding fail_at
fail msg p = fail_at p.error_line msg p

-- `allocate_string(current_tok_.view)`
abbrev pub token_text : Parser → List ℕ
token_text p = slice p.source p.current_tok.start p.current_tok.length

unfoldable pub new_parser : Kernel → List ℕ → Parser
unfolding advance
new_parser grants source = advance (record {
  source = source;
  grants = grants;
  lexer = at source 0 1;
  pool = record { set = false; cap = 0; used = 0; mapped = 0 };
  current_tok = record (blank_token (at [] 0 0)) { type = token_eof };
  had_error = false;
  error_msg = "";
  error_line = 0;
})
