-- ===== src/Lowerer/Labels.antt =====
-- The opcodes of src/backend/ana_lowerer.cpp that branch: `get_block_label`, DIV, GOTO and the
-- conditional branches, on the state of the encoder.
use anastasia.Base.{
  ℕ, ◌-◌, ◌^◌, ◌%◌, Bool, true, false, Option, none, some, List, [], ◌∷◌, ◌++◌, not, ◌==◌,
  if◌then◌else◌,
}
use anastasia.Ast.{Opcode, Instruction, BasicBlock}
use anastasia.RegAlloc.{AnaRegAlloc}
use anastasia.Encoder.Buffer.{Kernel, AnaEncoder}
use anastasia.Encoder.Prefix.{Code, emit}
use anastasia.Encoder.Integer.{
  mov_reg_imm32, imul_reg_imm32, cmp_reg_reg, cmp_reg_imm32, test_reg_reg,
}
use anastasia.Encoder.System.{push_reg, pop_reg, cqo, cdq, idiv_reg, idiv_reg32, movsxd_reg_reg}
use anastasia.Encoder.Labels.{
  new_label, bind_label, jmp_label, je_label, jne_label, jl_label, jge_label, jz_label, jnz_label,
}
use anastasia.Lowerer.Names.{streq_impl}
use anastasia.Lowerer.Operands.{
  rax, rdx, r11, reg_member, const_val, is_const, load_operand, store_operand, dst_reg,
  move_if_other,
}

-- `block_labels`: the blocks in order, each with its label.
pub record BlockLabelEntry : Type 0 where
  pub block : BasicBlock
  pub label_id : ℕ

unfoldable pub label_named : List BlockLabelEntry → Option (List ℕ) → Option ℕ
label_named [] name = none
label_named (b ∷ bs) name =
    if streq_impl (some b.block.label) name then some b.label_id else label_named bs name

abbrev or_new : Option ℕ → AnaEncoder → ℕ × AnaEncoder
or_new (some l) e = (l, e)
or_new none e = new_label e

-- `get_block_label(name, nullptr)`
unfoldable pub get_block_label :
    List BlockLabelEntry → Option (List ℕ) → AnaEncoder → ℕ × AnaEncoder
unfolding label_named
get_block_label labels name e = or_new (label_named labels name) e

module _ (grants : Kernel) where
  -- DIV with the divisor in R11 and the dividend in RAX, between the two loads and the store.
  unfoldable pub guarded_idiv : Bool → AnaEncoder → AnaEncoder
  guarded_idiv narrow e0 =
      let (lbl_zero, e1) = new_label e0 in
      let (lbl_neg1, e2) = new_label e1 in
      let (lbl_done, e3) = new_label e2 in
      let e4 = jz_label grants lbl_zero (emit grants (test_reg_reg r11 r11) e3) in
      let e5 = je_label grants lbl_neg1 (emit grants (cmp_reg_imm32 r11 (2 ^ 32 - 1)) e4) in
      let divide =
        if narrow then cdq ++ (idiv_reg32 r11 ++ movsxd_reg_reg rax rax) else cqo ++ idiv_reg r11 in
      let e6 = bind_label lbl_zero (jmp_label grants lbl_done (emit grants divide e5)) in
      let e7 = jmp_label grants lbl_done (emit grants (mov_reg_imm32 rax 0) e6) in
      let negate =
        imul_reg_imm32 rax rax (2 ^ 32 - 1) ++ (if narrow then movsxd_reg_reg rax rax else []) in
      bind_label lbl_done (emit grants negate (bind_label lbl_neg1 e7))

  module _ (regalloc : AnaRegAlloc) (i : Instruction) where
    abbrev is_div_i32 : Opcode → Bool
    is_div_i32 Opcode.div_i32 = true
    is_div_i32 _ = false

    unfoldable pub lower_div : AnaEncoder → AnaEncoder
    unfolding guarded_idiv
    lower_div e =
        let dst_phys = dst_reg regalloc (reg_member i.dest) rax in
        let push_rdx = not (dst_phys == rdx) in
        let (load2, s2) = load_operand regalloc i.src2 r11 in
        let (load1, s1) = load_operand regalloc i.src1 rax in
        let before =
          (if push_rdx then push_reg rdx else [])
          ++ (load2 ++ (move_if_other r11 s2 ++ (load1 ++ move_if_other rax s1))) in
        let after =
          move_if_other dst_phys rax
          ++ (store_operand regalloc (reg_member i.dest) dst_phys
              ++ (if push_rdx then pop_reg rdx else [])) in
        emit grants after (guarded_idiv (is_div_i32 i.op) (emit grants before e))

    -- `is_next` is the test on `bb->next`.
    abbrev falls_through : Option BasicBlock → Bool
    falls_through none = false
    falls_through (some b) = streq_impl (some b.label) i.target_label

    module _ (labels : List BlockLabelEntry) where
      abbrev jump_to : (ℕ → AnaEncoder → AnaEncoder) → ℕ × AnaEncoder → AnaEncoder
      jump_to jump (l, e) = jump l e

      unfoldable pub lower_goto : Option BasicBlock → AnaEncoder → AnaEncoder
      unfolding get_block_label
      lower_goto next e = elim i.target_label [
        | none ↦ e
        | some _ ↦
            if falls_through next
            then e
            else jump_to (jmp_label grants) (get_block_label labels i.target_label e)
      ]

      abbrev branch_on : Opcode → ℕ → AnaEncoder → AnaEncoder
      branch_on Opcode.if_eq l e = je_label grants l e
      branch_on Opcode.if_ne l e = jne_label grants l e
      branch_on Opcode.if_lt l e = jl_label grants l e
      branch_on Opcode.if_ge l e = jge_label grants l e
      branch_on Opcode.if_z l e = jz_label grants l e
      branch_on Opcode.if_nz l e = jnz_label grants l e
      branch_on _ l e = e

      unfoldable pub compared : Code
      compared =
          let (load1, s1) = load_operand regalloc i.src1 rax in
          let (load2, s2) = load_operand regalloc i.src2 r11 in
          load1
          ++ (if is_const i.src2
              then cmp_reg_imm32 s1 (const_val i.src2 % 2 ^ 32)
              else load2 ++ cmp_reg_reg s1 s2)

      -- IF_EQ, IF_NE, IF_LT and IF_GE
      unfoldable pub lower_if_compare : AnaEncoder → AnaEncoder
      unfolding compared get_block_label
      lower_if_compare e =
          jump_to (branch_on i.op) (get_block_label labels i.target_label (emit grants compared e))

      -- IF_Z and IF_NZ
      unfoldable pub lower_if_zero : AnaEncoder → AnaEncoder
      unfolding get_block_label
      lower_if_zero e =
          let (load1, s1) = load_operand regalloc i.src1 rax in
          jump_to (branch_on i.op)
            (get_block_label labels i.target_label (emit grants (load1 ++ test_reg_reg s1 s1) e))
