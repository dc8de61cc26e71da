-- ===== src/Parser/Passed.antt =====
-- The operands of every opcode that `parse_instruction` of src/frontend/ana_parser.cpp reads go on in the
-- text and keep the first error.
use anastasia.Base.{◌≡◌, ◌<◌, arith, false}
use anastasia.Ast.{Opcode}
use anastasia.Lexer.Keywords.{token_eof, token_register, token_lbracket, token_comma, token_arrow}
use anastasia.Parser.State.{Parser, is, advance}
use anastasia.Parser.Operands.{
  Reading, destination, bare_destination, source1_comma, source1_value, target, hint, memory_dest,
  memory_source, then_comma,
}
use anastasia.Parser.Instructions.{
  compare_branch, zero_branch, store, call, parse_operands, new_instruction, parse_instruction,
}
use anastasia.Parser.Progress.{
  After, After-none, After-trans, measure, advance-After, advance-fewer,
}
use anastasia.Parser.Kept.{
  choose_reading, destination-After, bare_destination-After, source1_register-After,
  source1_comma-After, source1_const-After, source2_register-After, literal-After, slot-After,
  source1_value-After, source2_value-After, target-After, hint-After, after-After,
  memory_dest-After, memory_source-After, then_comma-After, arithmetic-After, store_register-After,
}

comma_memory : (r : Reading) → After r.1 (then_comma (memory_dest r)).1
comma_memory r = After-trans (memory_dest-After r) (then_comma-After (memory_dest r))

compare-After : (r : Reading) → After r.1 (compare_branch r).1
compare-After r = After-trans (After-trans (hint-After r) (source1_comma-After (hint r))) (
    After-trans (source2_value-After (source1_comma (hint r)))
      (after-After token_comma target target-After _))

zero-After : (r : Reading) → After r.1 (zero_branch r).1
zero-After r =
    After-trans (hint-After r) (
      After-trans (source1_register-After (hint r)) (after-After token_comma target target-After _))

store-After : (r : Reading) → After r.1 (store r).1
store-After (i, p) = choose_reading (is p token_register) _ _ (store_register-After (i, p)) (
    after-After token_lbracket (λ s. source1_value (then_comma (memory_dest s)))
      (λ s. After-trans (comma_memory s) (source1_value-After (then_comma (memory_dest s)))) (i, p))

call-After : (r : Reading) → After r.1 (call r).1
call-After r = After-trans (source1_comma-After r) (
    After-trans (slot-After (source1_comma r))
      (after-After token_arrow bare_destination bare_destination-After _))

-- The operands of every opcode.
parse_operands-After : (op : Opcode) (r : Reading) → After r.1 (parse_operands op r).1
unfolding parse_operands
parse_operands-After Opcode.add_i32 r = arithmetic-After r
parse_operands-After Opcode.sub_i32 r = arithmetic-After r
parse_operands-After Opcode.mul_i32 r = arithmetic-After r
parse_operands-After Opcode.div_i32 r = arithmetic-After r
parse_operands-After Opcode.add_i64 r = arithmetic-After r
parse_operands-After Opcode.sub_i64 r = arithmetic-After r
parse_operands-After Opcode.mul_i64 r = arithmetic-After r
parse_operands-After Opcode.div_i64 r = arithmetic-After r
parse_operands-After Opcode.and_i32 r = arithmetic-After r
parse_operands-After Opcode.and_i64 r = arithmetic-After r
parse_operands-After Opcode.or_i32 r = arithmetic-After r
parse_operands-After Opcode.or_i64 r = arithmetic-After r
parse_operands-After Opcode.xor_i32 r = arithmetic-After r
parse_operands-After Opcode.xor_i64 r = arithmetic-After r
parse_operands-After Opcode.shl_i32 r = arithmetic-After r
parse_operands-After Opcode.shl_i64 r = arithmetic-After r
parse_operands-After Opcode.shr_i32 r = arithmetic-After r
parse_operands-After Opcode.shr_i64 r = arithmetic-After r
parse_operands-After Opcode.ushr_i32 r = arithmetic-After r
parse_operands-After Opcode.ushr_i64 r = arithmetic-After r
parse_operands-After Opcode.bts_i64 r = arithmetic-After r
parse_operands-After Opcode.btr_i64 r = arithmetic-After r
parse_operands-After Opcode.add_float_32 r = arithmetic-After r
parse_operands-After Opcode.add_float_64 r = arithmetic-After r
parse_operands-After Opcode.sub_float_64 r = arithmetic-After r
parse_operands-After Opcode.mul_float_64 r = arithmetic-After r
parse_operands-After Opcode.div_float_64 r = arithmetic-After r
parse_operands-After Opcode.add_vector_i32x4 r = arithmetic-After r
parse_operands-After Opcode.sub_vector_i32x4 r = arithmetic-After r
parse_operands-After Opcode.neg_i32 r =
    After-trans (destination-After r) (source1_value-After (destination r))
parse_operands-After Opcode.neg_i64 r =
    After-trans (destination-After r) (source1_value-After (destination r))
parse_operands-After Opcode.popcount_i64 r =
    After-trans (destination-After r) (source1_value-After (destination r))
parse_operands-After Opcode.lzcnt_i64 r =
    After-trans (destination-After r) (source1_value-After (destination r))
parse_operands-After Opcode.const_string r =
    After-trans (destination-After r) (literal-After (destination r))
parse_operands-After Opcode.str_len r = After-trans (destination-After r) (
    choose_reading (is (destination r).1 token_register) _ _
      (source1_register-After (destination r)) (literal-After (destination r)))
parse_operands-After Opcode.goto r = target-After r
parse_operands-After Opcode.if_eq r = compare-After r
parse_operands-After Opcode.if_ne r = compare-After r
parse_operands-After Opcode.if_lt r = compare-After r
parse_operands-After Opcode.if_ge r = compare-After r
parse_operands-After Opcode.if_z r = zero-After r
parse_operands-After Opcode.if_nz r = zero-After r
parse_operands-After Opcode.atomic_cas_i64 r =
    After-trans
      (After-trans (destination-After r) (
        after-After token_lbracket (λ s. then_comma (memory_source s))
          (λ s. After-trans (memory_source-After s) (then_comma-After (memory_source s)))
          (destination r)))
      (source2_register-After _)
parse_operands-After Opcode.atomic_xchg_i64 r =
    After-trans (after-After token_lbracket (λ s. then_comma (memory_dest s)) comma_memory r)
      (source1_value-After _)
parse_operands-After Opcode.atomic_add_i64 r =
    After-trans (after-After token_lbracket (λ s. then_comma (memory_dest s)) comma_memory r)
      (source1_value-After _)
parse_operands-After Opcode.atomic_and_i64 r =
    After-trans (after-After token_lbracket (λ s. then_comma (memory_dest s)) comma_memory r)
      (source1_value-After _)
parse_operands-After Opcode.atomic_or_i64 r =
    After-trans (after-After token_lbracket (λ s. then_comma (memory_dest s)) comma_memory r)
      (source1_value-After _)
parse_operands-After Opcode.new_instance r =
    After-trans (destination-After r) (target-After (destination r))
parse_operands-After Opcode.move_const r =
    After-trans (destination-After r) (source1_const-After (destination r))
parse_operands-After Opcode.move r =
    After-trans (destination-After r) (source1_register-After (destination r))
parse_operands-After Opcode.load_mem r =
    After-trans (destination-After r)
      (after-After token_lbracket memory_source memory_source-After (destination r))
parse_operands-After Opcode.store_mem r = store-After r
parse_operands-After Opcode.call_virt r = call-After r
parse_operands-After Opcode.call_virt_fast r = call-After r
parse_operands-After Opcode.bind_vtable r =
    After-trans (destination-After r) (source1_const-After (destination r))
parse_operands-After Opcode.return_val r = source1_value-After r
parse_operands-After Opcode.sys_call r = After-none r.1
parse_operands-After Opcode.return_void r = After-none r.1
parse_operands-After Opcode.fence r = After-none r.1
parse_operands-After Opcode.mul_vector_i32x8 r = After-none r.1
parse_operands-After Opcode.add_vector_i32x8 r = After-none r.1
parse_operands-After Opcode.add_vector_i32x16 r = After-none r.1
parse_operands-After Opcode.load_vector_256 r = After-none r.1
parse_operands-After Opcode.load_vector_512 r = After-none r.1
parse_operands-After Opcode.sink_mem r = After-none r.1
parse_operands-After Opcode.call_extern r = After-none r.1
parse_operands-After Opcode.load_fn_ptr r = After-none r.1

pub parse_instruction-After : (p : Parser) → After p (parse_instruction p).1
unfolding parse_instruction
parse_instruction-After p =
    let op = p.current_tok.opcode in
    After-trans (advance-After p) (parse_operands-After op (new_instruction op, advance p))

-- An instruction takes the token of its opcode at least.
pub parse_instruction-fewer :
    (p : Parser) → is p token_eof ≡ false → measure (parse_instruction p).1 < measure p
unfolding parse_instruction
parse_instruction-fewer p e =
    let op = p.current_tok.opcode in
    let a = advance-fewer p e in
    let b = (parse_operands-After op (new_instruction op, advance p)).fewer in omega arith
