-- ===== src/Parser/Instructions.antt =====
-- `parse_instruction` of src/frontend/ana_parser.cpp.
use anastasia.Base.{◌%◌, ◌^◌, Bool, false, ◌&&◌, ◌||◌, none, if◌then◌else◌}
use anastasia.Ast.{Opcode, absent, Instruction}
use anastasia.Lexer.Keywords.{
  token_register, token_int_literal, token_lbracket, token_comma, token_arrow,
}
use anastasia.Parser.State.{Parser, is, advance, fail}
use anastasia.Parser.Operands.{
  Reading, comma, current_register, destination, bare_destination, source1_register, source1_comma,
  source1_value, source1_const, source2_register, source2_value, literal, target, after, hint,
  memory_dest, memory_source, then_comma,
}

-- Whether an operand was read, and the failure if one is missing.
unfoldable pub checked : Bool → Reading → Reading
checked ok (i, p) = if ok then (i, p) else (i, fail "Missing operand in arithmetic instruction" p)

abbrev is_value : Parser → Bool
is_value p = is p token_register || is p token_int_literal

unfoldable pub arithmetic : Reading → Reading
unfolding destination source1_value source2_value checked
arithmetic r =
    let r1 = destination r in
    let have_dest = is r.1 token_register in
    let have_src1 = is_value r1.1 in
    after token_comma source2_value (checked (have_dest && have_src1) (source1_value r1))

abbrev unary : Reading → Reading
unary r = source1_value (destination r)

-- STR_LEN
abbrev register_or_literal : Reading → Reading
register_or_literal (i, p) = if is p token_register then source1_register (i, p) else literal (i, p)

abbrev pub compare_branch : Reading → Reading
compare_branch r = after token_comma target (source2_value (source1_comma (hint r)))

abbrev pub zero_branch : Reading → Reading
zero_branch r = after token_comma target (source1_register (hint r))

abbrev cas : Reading → Reading
cas r = source2_register (after token_lbracket (λ s. then_comma (memory_source s)) (destination r))

abbrev atomic : Reading → Reading
atomic r = source1_value (after token_lbracket (λ s. then_comma (memory_dest s)) r)

-- `store-mem src_reg, [base + offset]`: the source is kept only before a memory operand.
unfoldable pub store_register : Reading → Reading
unfolding memory_dest
store_register (i, p) =
    let src = current_register p in
    let q = comma (advance p) in
    if is q token_lbracket then memory_dest (record i { src1 = src }, advance q) else (i, q)

abbrev pub store : Reading → Reading
store (i, p) =
    if is p token_register
    then store_register (i, p)
    else after token_lbracket (λ s. source1_value (then_comma (memory_dest s))) (i, p)

unfoldable pub slot : Reading → Reading
slot (i, p) =
    if is p token_int_literal
    then (record i { vtable_slot = p.current_tok.int_val % 2 ^ 32 }, advance p)
    else (i, p)

abbrev pub call : Reading → Reading
call r = after token_arrow bare_destination (slot (source1_comma r))

-- The switch.
unfoldable pub parse_operands : Opcode → Reading → Reading
unfolding arithmetic destination source1_register source1_const source1_value literal hint
parse_operands Opcode.add_i32 r = arithmetic r
parse_operands Opcode.sub_i32 r = arithmetic r
parse_operands Opcode.mul_i32 r = arithmetic r
parse_operands Opcode.div_i32 r = arithmetic r
parse_operands Opcode.add_i64 r = arithmetic r
parse_operands Opcode.sub_i64 r = arithmetic r
parse_operands Opcode.mul_i64 r = arithmetic r
parse_operands Opcode.div_i64 r = arithmetic r
parse_operands Opcode.and_i32 r = arithmetic r
parse_operands Opcode.and_i64 r = arithmetic r
parse_operands Opcode.or_i32 r = arithmetic r
parse_operands Opcode.or_i64 r = arithmetic r
parse_operands Opcode.xor_i32 r = arithmetic r
parse_operands Opcode.xor_i64 r = arithmetic r
parse_operands Opcode.shl_i32 r = arithmetic r
parse_operands Opcode.shl_i64 r = arithmetic r
parse_operands Opcode.shr_i32 r = arithmetic r
parse_operands Opcode.shr_i64 r = arithmetic r
parse_operands Opcode.ushr_i32 r = arithmetic r
parse_operands Opcode.ushr_i64 r = arithmetic r
parse_operands Opcode.bts_i64 r = arithmetic r
parse_operands Opcode.btr_i64 r = arithmetic r
parse_operands Opcode.add_float_32 r = arithmetic r
parse_operands Opcode.add_float_64 r = arithmetic r
parse_operands Opcode.sub_float_64 r = arithmetic r
parse_operands Opcode.mul_float_64 r = arithmetic r
parse_operands Opcode.div_float_64 r = arithmetic r
parse_operands Opcode.add_vector_i32x4 r = arithmetic r
parse_operands Opcode.sub_vector_i32x4 r = arithmetic r
parse_operands Opcode.neg_i32 r = unary r
parse_operands Opcode.neg_i64 r = unary r
parse_operands Opcode.popcount_i64 r = unary r
parse_operands Opcode.lzcnt_i64 r = unary r
parse_operands Opcode.const_string r = literal (destination r)
parse_operands Opcode.str_len r = register_or_literal (destination r)
parse_operands Opcode.goto r = target r
parse_operands Opcode.if_eq r = compare_branch r
parse_operands Opcode.if_ne r = compare_branch r
parse_operands Opcode.if_lt r = compare_branch r
parse_operands Opcode.if_ge r = compare_branch r
parse_operands Opcode.if_z r = zero_branch r
parse_operands Opcode.if_nz r = zero_branch r
parse_operands Opcode.atomic_cas_i64 r = cas r
parse_operands Opcode.atomic_xchg_i64 r = atomic r
parse_operands Opcode.atomic_add_i64 r = atomic r
parse_operands Opcode.atomic_and_i64 r = atomic r
parse_operands Opcode.atomic_or_i64 r = atomic r
parse_operands Opcode.new_instance r = target (destination r)
parse_operands Opcode.move_const r = source1_const (destination r)
parse_operands Opcode.move r = source1_register (destination r)
parse_operands Opcode.load_mem r = after token_lbracket memory_source (destination r)
parse_operands Opcode.store_mem r = store r
parse_operands Opcode.call_virt r = call r
parse_operands Opcode.call_virt_fast r = call r
parse_operands Opcode.bind_vtable r = source1_const (destination r)
parse_operands Opcode.return_val r = source1_value r
parse_operands _ r = r

-- The instruction before its operands.
abbrev pub new_instruction : Opcode → Instruction
new_instruction op = record {
  op = op;
  dest = absent;
  src1 = absent;
  src2 = absent;
  vtable_slot = 0;
  target_label = none;
  text = none;
  string_hash = 0;
  is_likely = false;
}

unfoldable pub parse_instruction : Parser → Reading
unfolding parse_operands
parse_instruction p =
    let op = p.current_tok.opcode in parse_operands op (new_instruction op, advance p)
