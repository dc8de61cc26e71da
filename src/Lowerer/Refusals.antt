-- ===== src/Lowerer/Refusals.antt =====
-- Where `compile_function` of src/backend/ana_lowerer.cpp gives no code.
use anastasia.Base.{
  ℕ, ◌+◌, ◌≤◌, ◌<◌, ◌≡◌, ap, refl, Option, none, some, List, [], ◌∷◌, arith, leb, Bool-cases, inl,
  inr,
}
use anastasia.Base.Lists.{length}
use anastasia.Ast.{BasicBlock, Function, Program}
use anastasia.RegAlloc.{allocate_registers}
use anastasia.Encoder.Buffer.{Kernel, AnaEncoder, new_encoder}
use anastasia.Encoder.Labels.{new_label}
use anastasia.Lowerer.Memory.{Addresses}
use anastasia.Lowerer.Compile.{
  max_blocks, label_blocks, lower_all, lower_function, finish_code, compile_function, System,
}

module _ (grants : Kernel) where
  label_blocks-none :
      (bs : List BasicBlock) (block_count : ℕ) (e : AnaEncoder)
      → block_count ≤ max_blocks
      → max_blocks < block_count + length bs
      → label_blocks grants bs block_count e ≡ none
  unfolding label_blocks
  label_blocks-none [] block_count e h k = absurd (omega arith)
  label_blocks-none (b ∷ bs) block_count e h k = elim (Bool-cases (leb max_blocks block_count)) [
    | inl full ↦ rw full refl
    | inr few ↦
        rw
          (few, label_blocks-none bs (block_count + 1) (new_label e).1 (ground arith) (omega arith))
          refl
  ]

  -- A function of more than 512 blocks is refused, whatever they are.
  pub compile_function-none :
      (sys : System) (addresses : Addresses) (prog : Option Program) (fn : Function)
      → max_blocks < length fn.blocks
      → compile_function grants sys addresses prog (some fn) ≡ none
  unfolding compile_function lower_function
  compile_function-none sys addresses prog fn h =
      ap (λ o. finish_code sys (lower_all grants addresses prog (allocate_registers (some fn)) o))
        (label_blocks-none fn.blocks 0 (new_encoder grants) (omega arith) (omega arith))
