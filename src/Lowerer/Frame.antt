-- ===== src/Lowerer/Frame.antt =====
-- The prologue, the saves of the parameters and the epilogue of src/backend/ana_lowerer.cpp.
use anastasia.Base.{ℕ, zero, suc, ◌+◌, ◌%◌, ◌^◌, [], ◌++◌, if◌then◌else◌}
use anastasia.RegAlloc.{
  RegLocation, AnaRegAlloc, physical_reg, stack_spill, saved_reg, saved_reg_disp, get_param_raw_reg,
  get_param_loc,
}
use anastasia.Ast.{Operand}
use anastasia.Encoder.Prefix.{Code}
use anastasia.Encoder.Integer.{X86Reg, mov_reg_reg, mov_reg_mem, mov_mem_reg, sub_reg_imm32}
use anastasia.Encoder.System.{push_reg, pop_reg, ret}
use anastasia.Lowerer.Operands.{rax, rsp, rbp, neg32, load_operand, move_if_other}

-- The loop over the callee-saved registers: `n` rounds from index `i` on.
unfoldable pub save_from : ℕ → ℕ → Code
save_from zero i = []
save_from (suc n) i =
    mov_mem_reg rbp (neg32 (saved_reg_disp i)) (saved_reg i) ++ save_from n (i + 1)

unfoldable pub restore_from : ℕ → ℕ → Code
restore_from zero i = []
restore_from (suc n) i =
    mov_reg_mem (saved_reg i) rbp (neg32 (saved_reg_disp i)) ++ restore_from n (i + 1)

unfoldable pub prologue : AnaRegAlloc → Code
unfolding save_from
prologue regalloc =
    if regalloc.requires_frame
    then push_reg rbp
      ++ (mov_reg_reg rbp rsp
          ++ (sub_reg_imm32 rsp (regalloc.stack_frame_size % 2 ^ 32)
              ++ save_from regalloc.saved_reg_count 0))
    else []

abbrev save_param : RegLocation → X86Reg → Code
save_param loc raw_reg = elim loc.kind [
  | stack_spill ↦ mov_mem_reg rbp (neg32 loc.stack_disp) raw_reg
  | physical_reg ↦ move_if_other loc.phys_reg raw_reg
]

-- The loop over the parameters: `n` rounds from index `p_idx` on.
unfoldable pub save_params_from : AnaRegAlloc → ℕ → ℕ → Code
save_params_from regalloc zero p_idx = []
save_params_from regalloc (suc n) p_idx =
    save_param (get_param_loc regalloc p_idx) (get_param_raw_reg p_idx)
    ++ save_params_from regalloc n (p_idx + 1)

unfoldable pub save_params : AnaRegAlloc → Code
unfolding save_params_from
save_params regalloc = save_params_from regalloc regalloc.param_count 0

unfoldable pub epilogue : AnaRegAlloc → Code
unfolding restore_from
epilogue regalloc =
    (if regalloc.requires_frame
      then restore_from regalloc.saved_reg_count 0 ++ (mov_reg_reg rsp rbp ++ pop_reg rbp)
      else [])
    ++ ret

unfoldable pub lower_return_val : AnaRegAlloc → Operand → Code
unfolding epilogue
lower_return_val regalloc src1 =
    let (load, ret_reg) = load_operand regalloc src1 rax in
    load ++ (move_if_other rax ret_reg ++ epilogue regalloc)
