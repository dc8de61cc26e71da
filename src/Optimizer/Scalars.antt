-- ===== src/Optimizer/Scalars.antt =====
-- `run_escape_analysis` of src/optimizer/ana_ssa.cpp.
use anastasia.Base.{Bool, true, false, ◌&&◌, ◌||◌, not, List, [], ◌∷◌, if◌then◌else◌}
use anastasia.Ast.{Opcode, Operand, Instruction, BasicBlock}
use anastasia.Optimizer.Pass.{bump, Pass, same_operand_register, AnaSsaIr}
use anastasia.Optimizer.Lengths.{to_move_const}

-- What the escape analysis looks for: `dest` of a `RETURN_VAL`, `src1` of a `STORE_MEM`.
abbrev pub escape_op : Opcode → Operand → Instruction → Bool
escape_op Opcode.return_val target i = same_operand_register i.dest target
escape_op Opcode.store_mem target i = same_operand_register i.src1 target
escape_op _ target i = false

unfoldable pub escapes_insns : Operand → List Instruction → Bool
escapes_insns target [] = false
escapes_insns target (i ∷ is) = escape_op i.op target i || escapes_insns target is

unfoldable pub escapes_blocks : Operand → List BasicBlock → Bool
unfolding escapes_insns
escapes_blocks target [] = false
escapes_blocks target (b ∷ bs) = escapes_insns target b.insns || escapes_blocks target bs

abbrev pub is_new_instance : Opcode → Bool
is_new_instance Opcode.new_instance = true
is_new_instance _ = false

abbrev pub replaced : AnaSsaIr → AnaSsaIr
replaced c = record c { scalar_replaced_objects = bump c.scalar_replaced_objects }

-- `whole` gives the function as it stands, from the instructions of the block that are left. The
-- destination of a `NEW_INSTANCE` is a register.
unfoldable pub escape_insns :
    (List Instruction → List BasicBlock)
    → AnaSsaIr
    → List Instruction
    → Bool × AnaSsaIr × List Instruction
unfolding escapes_blocks
escape_insns whole c [] = (false, c, [])
escape_insns whole c (i ∷ is) =
    let hit = is_new_instance i.op && not (escapes_blocks i.dest (whole (i ∷ is))) in
    let i' = if hit then to_move_const 0 i else i in
    let rest = escape_insns (λ js. whole (i' ∷ js)) (if hit then replaced c else c) is in
    (hit || rest.0, rest.1, i' ∷ rest.2)

-- `before` gives the function as it stands, from the blocks that are left.
unfoldable pub escape_blocks : (List BasicBlock → List BasicBlock) → Pass
unfolding escape_insns
escape_blocks before c [] = (false, c, [])
escape_blocks before c (b ∷ bs) =
    let here = escape_insns (λ is. before (record b { insns = is } ∷ bs)) c b.insns in
    let b' = record b { insns = here.2 } in
    let rest = escape_blocks (λ cs. before (b' ∷ cs)) here.1 bs in
    (here.0 || rest.0, rest.1, b' ∷ rest.2)

unfoldable pub run_escape_analysis : Pass
unfolding escape_blocks
run_escape_analysis = escape_blocks (λ bs. bs)
