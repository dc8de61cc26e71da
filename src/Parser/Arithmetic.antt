-- ===== src/Parser/Arithmetic.antt =====
-- The opcodes of the first case of `parse_instruction` in src/frontend/ana_parser.cpp.
use anastasia.Base.{◌≡◌, refl, Bool, true, false, arith}
use anastasia.Ast.{Opcode}
use anastasia.Parser.Operands.{Reading}
use anastasia.Parser.Instructions.{arithmetic, parse_operands}

abbrev pub is_arithmetic : Opcode → Bool
is_arithmetic Opcode.add_i32 = true
is_arithmetic Opcode.sub_i32 = true
is_arithmetic Opcode.mul_i32 = true
is_arithmetic Opcode.div_i32 = true
is_arithmetic Opcode.add_i64 = true
is_arithmetic Opcode.sub_i64 = true
is_arithmetic Opcode.mul_i64 = true
is_arithmetic Opcode.div_i64 = true
is_arithmetic Opcode.and_i32 = true
is_arithmetic Opcode.and_i64 = true
is_arithmetic Opcode.or_i32 = true
is_arithmetic Opcode.or_i64 = true
is_arithmetic Opcode.xor_i32 = true
is_arithmetic Opcode.xor_i64 = true
is_arithmetic Opcode.shl_i32 = true
is_arithmetic Opcode.shl_i64 = true
is_arithmetic Opcode.shr_i32 = true
is_arithmetic Opcode.shr_i64 = true
is_arithmetic Opcode.ushr_i32 = true
is_arithmetic Opcode.ushr_i64 = true
is_arithmetic Opcode.bts_i64 = true
is_arithmetic Opcode.btr_i64 = true
is_arithmetic Opcode.add_float_32 = true
is_arithmetic Opcode.add_float_64 = true
is_arithmetic Opcode.sub_float_64 = true
is_arithmetic Opcode.mul_float_64 = true
is_arithmetic Opcode.div_float_64 = true
is_arithmetic Opcode.add_vector_i32x4 = true
is_arithmetic Opcode.sub_vector_i32x4 = true
is_arithmetic _ = false

pub parse_operands-arithmetic :
    (op : Opcode) (r : Reading) → is_arithmetic op ≡ true → parse_operands op r ≡ arithmetic r
unfolding parse_operands
parse_operands-arithmetic Opcode.add_i32 r h = refl
parse_operands-arithmetic Opcode.sub_i32 r h = refl
parse_operands-arithmetic Opcode.mul_i32 r h = refl
parse_operands-arithmetic Opcode.div_i32 r h = refl
parse_operands-arithmetic Opcode.neg_i32 r h = absurd (ground arith)
parse_operands-arithmetic Opcode.add_i64 r h = refl
parse_operands-arithmetic Opcode.sub_i64 r h = refl
parse_operands-arithmetic Opcode.mul_i64 r h = refl
parse_operands-arithmetic Opcode.div_i64 r h = refl
parse_operands-arithmetic Opcode.neg_i64 r h = absurd (ground arith)
parse_operands-arithmetic Opcode.move r h = absurd (ground arith)
parse_operands-arithmetic Opcode.move_const r h = absurd (ground arith)
parse_operands-arithmetic Opcode.sys_call r h = absurd (ground arith)
parse_operands-arithmetic Opcode.load_mem r h = absurd (ground arith)
parse_operands-arithmetic Opcode.store_mem r h = absurd (ground arith)
parse_operands-arithmetic Opcode.bind_vtable r h = absurd (ground arith)
parse_operands-arithmetic Opcode.call_virt r h = absurd (ground arith)
parse_operands-arithmetic Opcode.call_virt_fast r h = absurd (ground arith)
parse_operands-arithmetic Opcode.return_void r h = absurd (ground arith)
parse_operands-arithmetic Opcode.return_val r h = absurd (ground arith)
parse_operands-arithmetic Opcode.goto r h = absurd (ground arith)
parse_operands-arithmetic Opcode.if_eq r h = absurd (ground arith)
parse_operands-arithmetic Opcode.if_ne r h = absurd (ground arith)
parse_operands-arithmetic Opcode.if_lt r h = absurd (ground arith)
parse_operands-arithmetic Opcode.if_ge r h = absurd (ground arith)
parse_operands-arithmetic Opcode.if_z r h = absurd (ground arith)
parse_operands-arithmetic Opcode.if_nz r h = absurd (ground arith)
parse_operands-arithmetic Opcode.and_i32 r h = refl
parse_operands-arithmetic Opcode.and_i64 r h = refl
parse_operands-arithmetic Opcode.or_i32 r h = refl
parse_operands-arithmetic Opcode.or_i64 r h = refl
parse_operands-arithmetic Opcode.xor_i32 r h = refl
parse_operands-arithmetic Opcode.xor_i64 r h = refl
parse_operands-arithmetic Opcode.shl_i32 r h = refl
parse_operands-arithmetic Opcode.shl_i64 r h = refl
parse_operands-arithmetic Opcode.shr_i32 r h = refl
parse_operands-arithmetic Opcode.shr_i64 r h = refl
parse_operands-arithmetic Opcode.ushr_i32 r h = refl
parse_operands-arithmetic Opcode.ushr_i64 r h = refl
parse_operands-arithmetic Opcode.bts_i64 r h = refl
parse_operands-arithmetic Opcode.btr_i64 r h = refl
parse_operands-arithmetic Opcode.popcount_i64 r h = absurd (ground arith)
parse_operands-arithmetic Opcode.lzcnt_i64 r h = absurd (ground arith)
parse_operands-arithmetic Opcode.atomic_cas_i64 r h = absurd (ground arith)
parse_operands-arithmetic Opcode.atomic_xchg_i64 r h = absurd (ground arith)
parse_operands-arithmetic Opcode.atomic_add_i64 r h = absurd (ground arith)
parse_operands-arithmetic Opcode.atomic_and_i64 r h = absurd (ground arith)
parse_operands-arithmetic Opcode.atomic_or_i64 r h = absurd (ground arith)
parse_operands-arithmetic Opcode.fence r h = absurd (ground arith)
parse_operands-arithmetic Opcode.new_instance r h = absurd (ground arith)
parse_operands-arithmetic Opcode.add_float_32 r h = refl
parse_operands-arithmetic Opcode.add_float_64 r h = refl
parse_operands-arithmetic Opcode.sub_float_64 r h = refl
parse_operands-arithmetic Opcode.mul_float_64 r h = refl
parse_operands-arithmetic Opcode.div_float_64 r h = refl
parse_operands-arithmetic Opcode.add_vector_i32x4 r h = refl
parse_operands-arithmetic Opcode.sub_vector_i32x4 r h = refl
parse_operands-arithmetic Opcode.add_vector_i32x8 r h = absurd (ground arith)
parse_operands-arithmetic Opcode.add_vector_i32x16 r h = absurd (ground arith)
parse_operands-arithmetic Opcode.mul_vector_i32x8 r h = absurd (ground arith)
parse_operands-arithmetic Opcode.load_vector_256 r h = absurd (ground arith)
parse_operands-arithmetic Opcode.load_vector_512 r h = absurd (ground arith)
parse_operands-arithmetic Opcode.sink_mem r h = absurd (ground arith)
parse_operands-arithmetic Opcode.const_string r h = absurd (ground arith)
parse_operands-arithmetic Opcode.str_len r h = absurd (ground arith)
parse_operands-arithmetic Opcode.call_extern r h = absurd (ground arith)
parse_operands-arithmetic Opcode.load_fn_ptr r h = absurd (ground arith)
