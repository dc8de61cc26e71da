-- ===== src/Lowerer/Vectors.antt =====
-- The floating-point and vector opcodes of src/backend/ana_lowerer.cpp. Their operands are
-- addresses: two loads, one operation, one store.
use anastasia.Base.{ℕ, ◌++◌}
use anastasia.Ast.{register, Instruction}
use anastasia.RegAlloc.{AnaRegAlloc}
use anastasia.Encoder.Prefix.{Code}
use anastasia.Encoder.Integer.{X86Reg}
use anastasia.Encoder.Vector.{
  VecReg, addss_xmm_xmm, addsd_xmm_xmm, subsd_xmm_xmm, mulsd_xmm_xmm, divsd_xmm_xmm, paddd_xmm_xmm,
  psubd_xmm_xmm, movss_xmm_mem, movss_mem_xmm, movsd_xmm_mem, movsd_mem_xmm, movdqu_xmm_mem,
  movdqu_mem_xmm, vpaddd_ymm_ymm, vpaddd_zmm_zmm, vpmulld_ymm_ymm, vmovdqu_ymm_mem, vmovdqu_mem_ymm,
  vmovdqu_zmm_mem, vmovdqu_mem_zmm,
}
use anastasia.Lowerer.Operands.{rax, rsi, rdi, reg_member, load_operand}

module _ (regalloc : AnaRegAlloc) (i : Instruction) where
  -- The shape of all of them.
  unfoldable pub on_vectors :
      (VecReg → X86Reg → ℕ → Code) → Code → (X86Reg → ℕ → VecReg → Code) → Code
  on_vectors load_vec op store_vec =
      let (load1, base1) = load_operand regalloc i.src1 rdi in
      let (load2, base2) = load_operand regalloc i.src2 rsi in
      let (load_dst, dst_base) = load_operand regalloc (register (reg_member i.dest)) rax in
      load1
      ++ (load2
          ++ (load_vec 0 base1 0
              ++ (load_vec 1 base2 0 ++ (op ++ (load_dst ++ store_vec dst_base 0 0)))))

  unfoldable pub lower_add_float_32 : Code
  unfolding on_vectors
  lower_add_float_32 = on_vectors movss_xmm_mem (addss_xmm_xmm 0 1) movss_mem_xmm

  unfoldable pub lower_add_float_64 : Code
  unfolding on_vectors
  lower_add_float_64 = on_vectors movsd_xmm_mem (addsd_xmm_xmm 0 1) movsd_mem_xmm

  unfoldable pub lower_sub_float_64 : Code
  unfolding on_vectors
  lower_sub_float_64 = on_vectors movsd_xmm_mem (subsd_xmm_xmm 0 1) movsd_mem_xmm

  unfoldable pub lower_mul_float_64 : Code
  unfolding on_vectors
  lower_mul_float_64 = on_vectors movsd_xmm_mem (mulsd_xmm_xmm 0 1) movsd_mem_xmm

  unfoldable pub lower_div_float_64 : Code
  unfolding on_vectors
  lower_div_float_64 = on_vectors movsd_xmm_mem (divsd_xmm_xmm 0 1) movsd_mem_xmm

  unfoldable pub lower_add_vector_i32x4 : Code
  unfolding on_vectors
  lower_add_vector_i32x4 = on_vectors movdqu_xmm_mem (paddd_xmm_xmm 0 1) movdqu_mem_xmm

  unfoldable pub lower_sub_vector_i32x4 : Code
  unfolding on_vectors
  lower_sub_vector_i32x4 = on_vectors movdqu_xmm_mem (psubd_xmm_xmm 0 1) movdqu_mem_xmm

  unfoldable pub lower_add_vector_i32x8 : Code
  unfolding on_vectors
  lower_add_vector_i32x8 = on_vectors vmovdqu_ymm_mem (vpaddd_ymm_ymm 0 0 1) vmovdqu_mem_ymm

  unfoldable pub lower_add_vector_i32x16 : Code
  unfolding on_vectors
  lower_add_vector_i32x16 = on_vectors vmovdqu_zmm_mem (vpaddd_zmm_zmm 0 0 1) vmovdqu_mem_zmm

  unfoldable pub lower_mul_vector_i32x8 : Code
  unfolding on_vectors
  lower_mul_vector_i32x8 = on_vectors vmovdqu_ymm_mem (vpmulld_ymm_ymm 0 0 1) vmovdqu_mem_ymm
