-- ===== src/Parser/Operands.antt =====
-- How `parse_instruction` of src/frontend/ana_parser.cpp reads the operands of an opcode.
use anastasia.Base.{◌%◌, ◌^◌, true, false, ◌||◌, some, if◌then◌else◌}
use anastasia.Ast.{Operand, register, const_int, mem_offset, Instruction}
use anastasia.Lexer.Keywords.{
  TokenType, token_identifier, token_label, token_register, token_int_literal, token_rbracket,
  token_comma, token_plus, token_likely, token_unlikely, token_string_literal,
}
use anastasia.Parser.State.{Parser, is, advance, expect, token_text}

-- An instruction that is being read, and the parser.
abbrev pub Reading : Type 0
Reading = Instruction × Parser

abbrev pub comma : Parser → Parser
comma p = expect token_comma "Expected ," p

abbrev pub current_register : Parser → Operand
current_register p = register p.current_tok.reg

abbrev pub current_const : Parser → Operand
current_const p = const_int p.current_tok.int_val

-- A register for the destination, with the comma behind it.
unfoldable pub destination : Reading → Reading
destination (i, p) =
    if is p token_register
    then (record i { dest = current_register p }, comma (advance p))
    else (i, p)

unfoldable pub bare_destination : Reading → Reading
bare_destination (i, p) =
    if is p token_register then (record i { dest = current_register p }, advance p) else (i, p)

-- A register for a source, or a register or a number.
unfoldable pub source1_register : Reading → Reading
source1_register (i, p) =
    if is p token_register then (record i { src1 = current_register p }, advance p) else (i, p)

unfoldable pub source1_comma : Reading → Reading
source1_comma (i, p) =
    if is p token_register
    then (record i { src1 = current_register p }, comma (advance p))
    else (i, p)

unfoldable pub source1_const : Reading → Reading
source1_const (i, p) =
    if is p token_int_literal then (record i { src1 = current_const p }, advance p) else (i, p)

unfoldable pub source1_value : Reading → Reading
unfolding source1_register source1_const
source1_value (i, p) = if is p token_register then source1_register (i, p) else source1_const (i, p)

unfoldable pub source2_register : Reading → Reading
source2_register (i, p) =
    if is p token_register then (record i { src2 = current_register p }, advance p) else (i, p)

unfoldable pub source2_const : Reading → Reading
source2_const (i, p) =
    if is p token_int_literal then (record i { src2 = current_const p }, advance p) else (i, p)

unfoldable pub source2_value : Reading → Reading
unfolding source2_register source2_const
source2_value (i, p) = if is p token_register then source2_register (i, p) else source2_const (i, p)

unfoldable pub literal : Reading → Reading
literal (i, p) =
    if is p token_string_literal
    then (
      record i { text = some p.current_tok.text; string_hash = p.current_tok.string_hash },
      advance p,
    )
    else (i, p)

unfoldable pub target : Reading → Reading
target (i, p) =
    if is p token_identifier || is p token_label
    then (record i { target_label = some (token_text p) }, advance p)
    else (i, p)

-- `if (match(t)) ...`
abbrev pub after : TokenType → (Reading → Reading) → Reading → Reading
after t f (i, p) = if is p t then f (i, advance p) else (i, p)

unfoldable pub hint : Reading → Reading
hint (i, p) =
    if is p token_likely
    then (record i { is_likely = true }, advance p)
    else if is p token_unlikely
    then (record i { is_likely = false }, advance p)
    else (i, p)

-- A memory operand behind its bracket.
unfoldable pub memory : Parser → Operand × Parser
memory p =
    let base = p.current_tok.reg in
    let q = advance p in
    let r = advance q in
    if is q token_plus
    then (
      mem_offset base (r.current_tok.int_val % 2 ^ 32),
      expect token_rbracket "Expected ]" (advance r),
    )
    else (mem_offset base 0, expect token_rbracket "Expected ]" q)

unfoldable pub memory_dest : Reading → Reading
unfolding memory
memory_dest (i, p) = let m = memory p in (record i { dest = m.0 }, m.1)

unfoldable pub memory_source : Reading → Reading
unfolding memory
memory_source (i, p) = let m = memory p in (record i { src1 = m.0 }, m.1)

unfoldable pub then_comma : Reading → Reading
then_comma (i, p) = (i, comma p)
