-- ===== src/Lexer/Tests.antt =====
-- Runs of the model of src/frontend/ana_lexer.cpp, and its theorems at concrete texts.
use Prim.Native.String.{String}
use anastasia.Base.{
  ◌+◌, ◌^◌, ◌-◌, ◌≡◌, refl, false, Option, none, some, List, [], ◌∷◌, ◌++◌, leb, arith,
}
use anastasia.Ast.{Opcode}
use anastasia.Encoder.Buffer.{Kernel}
use anastasia.Lexer.Scan.{Lexer, at, decimal_from, span, advance}
use anastasia.Lexer.Keywords.{
  TokenType, codes, find_word, token_eof, token_fn, token_identifier, token_label, token_opcode,
  token_register, token_int_literal, token_comma, token_arrow, token_type,
}
use anastasia.Lexer.Tokens.{StringPool, Token, next_token}
use anastasia.Lexer.Order.{tokens}
use anastasia.Lexer.Words.{opcode_token, next_token-opcode}

-- A kernel that maps at most 1 MiB at once, and the pool before the first literal.
abbrev kernel : Kernel
kernel n size = leb size (2 ^ 20)

abbrev no_pool : StringPool
no_pool = record { set = false; cap = 0; used = 0; mapped = 0 }

abbrev text : String → Lexer
text s = at (codes s) 0 1

abbrev function_text : Lexer
function_text = text ".fn twice i32 # doubles\nloop: add-int/32 p0, -12 -> v10"

abbrev types_of : Option (List Token) → List TokenType
types_of none = []
types_of (some []) = []
types_of (some (t ∷ ts)) = t.type ∷ types_of (some ts)

function_types :
    types_of (tokens kernel 20 function_text no_pool)
    ≡ token_fn ∷ token_identifier ∷ token_type ∷ token_label ∷ token_opcode ∷ token_register
      ∷ token_comma ∷ token_int_literal ∷ token_arrow ∷ token_register ∷ token_eof ∷ []
unfolding tokens next_token find_word span advance
function_types = refl

-- A literal with an escape, and a number that wraps around at 64 bits.
literal_text : (next_token kernel (text "\"a\\n\" x") no_pool).0.text ≡ b'a' ∷ 10 ∷ []
unfolding next_token advance
literal_text = refl

negative_value : (next_token kernel (text "-12") no_pool).0.int_val ≡ 2 ^ 64 - 12
unfolding next_token advance decimal_from span
negative_value = refl

next_token-opcode_example :
    next_token kernel (at (codes "popcount-int/64" ++ codes " v0, v1") 7 3) no_pool ≡ (
      opcode_token
          (at (codes "popcount-int/64" ++ codes " v0, v1") 7 3)
          (codes "popcount-int/64")
          Opcode.popcount_i64,
      at (codes " v0, v1") (7 + 15) 3,
      no_pool,
    )
next_token-opcode_example =
    next_token-opcode kernel 24 (codes "popcount-int/64") (codes " v0, v1") Opcode.popcount_i64 7 3
      no_pool refl refl (ground arith)
