-- ===== src/Parser/Printed.antt =====
-- A line of an arithmetic instruction is read back by `parse_instruction` of
-- src/frontend/ana_parser.cpp.
use Prim.Native.Nat.{ℕ}
use anastasia.Base.{◌+◌, ◌^◌, ◌≡◌, ◌<◌, ◌≢◌, refl, true, false, some, List, ◌∷◌, ◌++◌, ◌==◌, arith}
use anastasia.Base.Lists.{length, get_elem?}
use anastasia.Ast.{Opcode, Register, register, Instruction}
use anastasia.Lexer.Scan.{Lexer, at, peek, in_identifier, skip_from}
use anastasia.Lexer.Keywords.{opcodes, token_comma}
use anastasia.Lexer.Tokens.{Token, blank_token, next_token}
use anastasia.Lexer.Words.{opcode_token, next_token-opcode}
use anastasia.Lexer.Numbers.{spelled, is_named, register_token, next_token-register}
use anastasia.Parser.State.{Parser, token_code, advance, read_token, expect, fail}
use anastasia.Parser.Operands.{Reading}
use anastasia.Parser.Arithmetic.{is_arithmetic, parse_operands-arithmetic}
use anastasia.Parser.Instructions.{arithmetic, new_instruction, parse_instruction}

-- The parser `p` with another token and another rest of the text.
abbrev pub standing : Parser → Token → List ℕ → ℕ → ℕ → Parser
standing p tok cs k l = record p { lexer = at cs k l; current_tok = tok }

-- The words of the operands, each behind a blank.
abbrev pub second_text : Register → List ℕ → List ℕ
second_text r rest = b',' ∷ b' ' ∷ (spelled r ++ rest)

abbrev pub first_text : Register → List ℕ → List ℕ
first_text r rest = b' ' ∷ (spelled r ++ rest)

-- What can stand behind a word.
pub record Ends (rest : List ℕ) : Type 0 where
  pub no_word : in_identifier (peek (at rest 0 1)) ≡ false
  pub no_colon : peek (at rest 0 1) ≢ b':'

pub record Named (r : Register) : Type 0 where
  pub named : is_named r.type ≡ true
  pub small : r.index < 2 ^ 32

advance-token :
    (p : Parser) (tok : Token) (x : Lexer)
    → next_token p.grants p.lexer p.pool ≡ (tok, x, p.pool)
    → (token_code tok.type == 26) ≡ false
    → advance p ≡ record p { lexer = x; current_tok = tok }
unfolding advance read_token
advance-token p tok x e f = rw (e, f) refl

module _ (p : Parser) (l : ℕ) where
  advance-register :
      (tok : Token) (r : Register) (rest : List ℕ) (k : ℕ)
      → Named r
      → Ends rest
      → advance (standing p tok (first_text r rest) k l)
        ≡ standing p
            (register_token (at (spelled r ++ rest) (k + 1) l) r)
            rest
            (k + 1 + length (spelled r))
            l
  unfolding skip_from next_token
  advance-register tok r rest k n e =
      advance-token (standing p tok (first_text r rest) k l) _ _
        (next_token-register p.grants r rest (k + 1) l p.pool n.named n.small e.no_word e.no_colon)
        refl

  -- The token of a comma at `x`.
  abbrev comma_token : Lexer → Token
  comma_token x = record (blank_token x) { type = token_comma; length = 1 }

  advance-comma :
      (tok : Token) (cs : List ℕ) (k : ℕ)
      → advance (standing p tok (b',' ∷ cs) k l)
        ≡ standing p (comma_token (at (b',' ∷ cs) k l)) cs (k + 1) l
  unfolding next_token anastasia.Lexer.Scan.advance
  advance-comma tok cs k = advance-token (standing p tok (b',' ∷ cs) k l) _ _ refl refl

  comma-Ends : (cs : List ℕ) → Ends (b',' ∷ cs)
  comma-Ends cs = record { no_word = refl; no_colon = ground arith }

  module _ (d s1 s2 : Register) (rest : List ℕ) where
    -- The text of the operands, in two steps.
    abbrev two_more : List ℕ
    two_more = second_text s1 (second_text s2 rest)

    abbrev pub operand_text : List ℕ
    operand_text = first_text d two_more

    -- The instruction of these operands.
    abbrev pub instruction : Opcode → Instruction
    instruction op = record (new_instruction op) {
      dest = register d;
      src1 = register s1;
      src2 = register s2;
    }

    -- Behind the word, the operands are read and the token behind them is at hand.
    pub record ReadBack (op : Opcode) (o : Reading) : Type 0 where
      pub tok : Token
      pub k' : ℕ
      pub back : o ≡ (instruction op, advance (standing p tok rest k' l))

    arithmetic-ReadBack :
        (nd : Named d) (n1 : Named s1) (n2 : Named s2) (e : Ends rest) (op : Opcode) (tok : Token)
        (k : ℕ)
        → ReadBack op (arithmetic (new_instruction op, advance (standing p tok operand_text k l)))
    unfolding arithmetic expect advance fail
    arithmetic-ReadBack nd n1 n2 e op tok k =
        let k1 = k + 1 + length (spelled d) in
        let t1 = register_token (at (spelled d ++ two_more) (k + 1) l) d in
        let c1 = comma_token (at two_more k1 l) in
        let k2 = k1 + 1 + 1 + length (spelled s1) in
        let more = second_text s2 rest in
        let t2 = register_token (at (spelled s1 ++ more) (k1 + 1 + 1) l) s1 in
        let c2 = comma_token (at more k2 l) in
        record {
          tok = register_token (at (spelled s2 ++ rest) (k2 + 1 + 1) l) s2;
          k' = k2 + 1 + 1 + length (spelled s2);
          back =
              rw
                (
                  advance-register tok d two_more k nd (comma-Ends _),
                  advance-comma t1 (first_text s1 more) k1,
                  advance-register c1 s1 more (k1 + 1) n1 (comma-Ends _),
                  advance-comma t2 (first_text s2 rest) k2,
                  advance-register c2 s2 rest (k2 + 1) n2 e,
                )
                refl;
        }

    -- For each arithmetic opcode: a word of it, behind a blank a register, and two registers more
    -- behind a comma and a blank each, are read as the instruction with that opcode and these
    -- operands, whatever text follows that ends the last word without a colon. No error is reported
    -- on the way, and the parser goes on with the token behind the last register. The registers are
    -- parameters or locals with an index of 32 bits.
    pub parse_instruction-ReadBack :
        (i : ℕ) (w : List ℕ) (op : Opcode) (tok : Token) (k : ℕ)
        → get_elem? opcodes i ≡ some (w, op)
        → is_arithmetic op ≡ true
        → Named d
        → Named s1
        → Named s2
        → Ends rest
        → ReadBack op (parse_instruction (advance (standing p tok (w ++ operand_text) k l)))
    unfolding parse_instruction
    parse_instruction-ReadBack i w op tok k m sum nd n1 n2 e =
        let start = at (w ++ operand_text) k l in
        let word =
          advance-token (standing p tok (w ++ operand_text) k l) (opcode_token start w op)
            (at operand_text (k + length w) l)
            (next_token-opcode p.grants i w operand_text op k l p.pool m refl (ground arith))
            refl in
        let back = arithmetic-ReadBack nd n1 n2 e op (opcode_token start w op) (k + length w) in
        rw (word, parse_operands-arithmetic op _ sum) back
