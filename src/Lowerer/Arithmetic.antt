-- ===== src/Lowerer/Arithmetic.antt =====
-- The integer opcodes of src/backend/ana_lowerer.cpp that need no label. The registers of the
-- operands are loaded in the order of the source.
use anastasia.Base.{ℕ, ◌%◌, ◌^◌, Bool, true, false, not, ◌&&◌, [], ◌++◌, ◌==◌, if◌then◌else◌}
use anastasia.Ast.{Opcode, Instruction}
use anastasia.RegAlloc.{AnaRegAlloc}
use anastasia.Encoder.Prefix.{Code}
use anastasia.Encoder.Integer.{
  X86Reg, mov_reg_reg, mov_reg_imm64, add_reg_reg, add_reg_imm32, sub_reg_reg, sub_reg_imm32,
  imul_reg_reg, and_reg_reg, and_reg_imm32, or_reg_reg, or_reg_imm32, xor_reg_reg, xor_reg_imm32,
  shl_reg_cl, shl_reg_imm8, sar_reg_cl, sar_reg_imm8, shr_reg_cl, shr_reg_imm8, bts_reg_reg,
  bts_reg_imm8, btr_reg_reg, btr_reg_imm8, popcnt_reg_reg, lzcnt_reg_reg,
}
use anastasia.Encoder.System.{movsxd_reg_reg, movzxd_reg_reg}
use anastasia.Lowerer.Operands.{
  rax, rcx, r11, reg_member, const_val, is_const, is_i32_op, load_operand, store_operand, dst_reg,
  move_if_other,
}

-- `if (is_i32_op(op)) movsxd_reg_reg(dst, dst);`
abbrev pub wrap_i32 : Bool → X86Reg → Code
wrap_i32 narrow dst = if narrow then movsxd_reg_reg dst dst else []

module _ (regalloc : AnaRegAlloc) (i : Instruction) where
  -- The shape of ADD, SUB, AND, OR and XOR, between the instruction's two forms.
  unfoldable pub two_operands : (X86Reg → X86Reg → Code) → (X86Reg → ℕ → Code) → Bool → Code
  two_operands op_reg op_imm narrow =
      let (load2, s2) = load_operand regalloc i.src2 r11 in
      let (load1, s1) = load_operand regalloc i.src1 rcx in
      let dst = dst_reg regalloc (reg_member i.dest) rcx in
      let aliased = dst == s2 && not (s2 == r11) && not (is_const i.src2) in
      let s2' = if aliased then r11 else s2 in
      load2
      ++ (load1
          ++ ((if aliased then mov_reg_reg r11 s2 else [])
              ++ (mov_reg_reg dst s1
                  ++ ((if is_const i.src2
                        then op_imm dst (const_val i.src2 % 2 ^ 32)
                        else op_reg dst s2')
                      ++ (wrap_i32 narrow dst ++ store_operand regalloc (reg_member i.dest) dst)))))

  unfoldable pub lower_add : Code
  unfolding two_operands
  lower_add = two_operands add_reg_reg add_reg_imm32 (is_i32_op i.op)

  unfoldable pub lower_sub : Code
  unfolding two_operands
  lower_sub = two_operands sub_reg_reg sub_reg_imm32 (is_i32_op i.op)

  unfoldable pub lower_and : Code
  unfolding two_operands
  lower_and = two_operands and_reg_reg and_reg_imm32 false

  unfoldable pub lower_or : Code
  unfolding two_operands
  lower_or = two_operands or_reg_reg or_reg_imm32 false

  unfoldable pub lower_xor : Code
  unfolding two_operands
  lower_xor = two_operands xor_reg_reg xor_reg_imm32 false

  unfoldable pub lower_neg : Code
  lower_neg =
      let (load1, s1) = load_operand regalloc i.src1 rcx in
      let dst = dst_reg regalloc (reg_member i.dest) rcx in
      load1
      ++ (mov_reg_imm64 r11 0
          ++ (sub_reg_reg r11 s1
              ++ (mov_reg_reg dst r11
                  ++ (wrap_i32 (is_i32_op i.op) dst
                      ++ store_operand regalloc (reg_member i.dest) dst))))

  unfoldable pub lower_mul : Code
  lower_mul =
      let (load2, s2) = load_operand regalloc i.src2 r11 in
      let (load1, s1) = load_operand regalloc i.src1 rcx in
      let dst = dst_reg regalloc (reg_member i.dest) rcx in
      load2
      ++ (move_if_other r11 s2
          ++ (load1
              ++ (mov_reg_reg dst s1
                  ++ (imul_reg_reg dst r11
                      ++ (wrap_i32 (is_i32_op i.op) dst
                          ++ store_operand regalloc (reg_member i.dest) dst)))))

  -- The shape of SHL, SHR and USHR; `widen` is the zero extension of USHR_I32.
  unfoldable pub shifted : (X86Reg → Code) → (X86Reg → ℕ → Code) → Bool → Code
  shifted op_cl op_imm widen =
      let (load2, s2) = load_operand regalloc i.src2 rcx in
      let (load1, s1) = load_operand regalloc i.src1 rax in
      let dst = dst_reg regalloc (reg_member i.dest) rax in
      load2
      ++ ((if not (is_const i.src2) && not (s2 == rcx) then mov_reg_reg rcx s2 else [])
          ++ (load1
              ++ (mov_reg_reg dst s1
                  ++ ((if widen then movzxd_reg_reg dst dst else [])
                      ++ ((if is_const i.src2
                            then op_imm dst (const_val i.src2 % 256)
                            else op_cl dst)
                          ++ (wrap_i32 (is_i32_op i.op) dst
                              ++ store_operand regalloc (reg_member i.dest) dst))))))

  unfoldable pub lower_shl : Code
  unfolding shifted
  lower_shl = shifted shl_reg_cl shl_reg_imm8 false

  unfoldable pub lower_shr : Code
  unfolding shifted
  lower_shr = shifted sar_reg_cl sar_reg_imm8 false

  abbrev is_ushr_i32 : Opcode → Bool
  is_ushr_i32 Opcode.ushr_i32 = true
  is_ushr_i32 _ = false

  unfoldable pub lower_ushr : Code
  unfolding shifted
  lower_ushr = shifted shr_reg_cl shr_reg_imm8 (is_ushr_i32 i.op)

  -- The shape of BTS and BTR: the second operand is loaded after the move.
  unfoldable pub bit_tested : (X86Reg → X86Reg → Code) → (X86Reg → ℕ → Code) → Code
  bit_tested op_reg op_imm =
      let (load1, s1) = load_operand regalloc i.src1 rax in
      let dst = dst_reg regalloc (reg_member i.dest) rax in
      let (load2, s2) = load_operand regalloc i.src2 r11 in
      load1
      ++ (mov_reg_reg dst s1
          ++ ((if is_const i.src2
                then op_imm dst (const_val i.src2 % 256)
                else load2 ++ op_reg dst s2)
              ++ store_operand regalloc (reg_member i.dest) dst))

  unfoldable pub lower_bts : Code
  unfolding bit_tested
  lower_bts = bit_tested bts_reg_reg bts_reg_imm8

  unfoldable pub lower_btr : Code
  unfolding bit_tested
  lower_btr = bit_tested btr_reg_reg btr_reg_imm8

  -- The shape of POPCOUNT and LZCNT.
  unfoldable pub counted : (X86Reg → X86Reg → Code) → Code
  counted op =
      let (load1, s1) = load_operand regalloc i.src1 rax in
      let dst = dst_reg regalloc (reg_member i.dest) rax in
      load1 ++ (op dst s1 ++ store_operand regalloc (reg_member i.dest) dst)

  unfoldable pub lower_popcount : Code
  unfolding counted
  lower_popcount = counted popcnt_reg_reg

  unfoldable pub lower_lzcnt : Code
  unfolding counted
  lower_lzcnt = counted lzcnt_reg_reg
