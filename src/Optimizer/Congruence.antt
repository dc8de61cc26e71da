-- ===== src/Optimizer/Congruence.antt =====
-- `run_gvn` of src/optimizer/ana_ssa.cpp.
use anastasia.Base.{ℕ, zero, suc, Bool, true, false, ◌&&◌, ◌||◌, List, [], ◌∷◌, ◌==◌, if◌then◌else◌}
use anastasia.Base.Lists.{length}
use anastasia.Ast.{
  Opcode, same_register, Operand, absent, register, const_int, mem_offset, Instruction,
}
use anastasia.Optimizer.Pass.{bump, Pass, AnaSsaIr}

abbrev pub is_sum : Opcode → Bool
is_sum Opcode.add_i64 = true
is_sum Opcode.sub_i64 = true
is_sum _ = false

-- `==` of two opcodes, where one of them is `ADD_I64` or `SUB_I64`.
abbrev pub same_sum : Opcode → Opcode → Bool
same_sum Opcode.add_i64 Opcode.add_i64 = true
same_sum Opcode.sub_i64 Opcode.sub_i64 = true
same_sum _ _ = false

-- Equal kinds and equal `reg` members. The member shares its eight bytes with `const_val`, and with
-- the base of a memory operand.
abbrev pub congruent_operand : Operand → Operand → Bool
congruent_operand absent absent = true
congruent_operand (register a) (register b) = same_register a b
congruent_operand (const_int a) (const_int b) = a == b
congruent_operand (mem_offset a _) (mem_offset b _) = same_register a b
congruent_operand _ _ = false

abbrev pub congruent : Instruction → Instruction → Bool
congruent i j =
    same_sum i.op j.op && congruent_operand i.src1 j.src1 && congruent_operand i.src2 j.src2

abbrev pub move_from : Operand → Instruction → Instruction
move_from d j = record j { op = Opcode.move; src1 = d; src2 = absent }

abbrev pub eliminated : AnaSsaIr → AnaSsaIr
eliminated c = record c { eliminated_gvn_exprs = bump c.eliminated_gvn_exprs }

-- The inner loop: every later congruent instruction becomes a move from the destination of `i`.
unfoldable pub replace_later :
    Instruction → AnaSsaIr → List Instruction → Bool × AnaSsaIr × List Instruction
replace_later i c [] = (false, c, [])
replace_later i c (j ∷ js) =
    let hit = congruent i j in
    let rest = replace_later i (if hit then eliminated c else c) js in
    if hit then (true, rest.1, move_from i.dest j ∷ rest.2) else (rest.0, rest.1, j ∷ rest.2)

-- The outer loop, on the number of instructions left: the inner loop keeps their number.
unfoldable pub gvn_insns : ℕ → AnaSsaIr → List Instruction → Bool × AnaSsaIr × List Instruction
unfolding replace_later
gvn_insns zero c is = (false, c, is)
gvn_insns (suc n) c [] = (false, c, [])
gvn_insns (suc n) c (i ∷ is) =
    let looked = if is_sum i.op then replace_later i c is else (false, c, is) in
    let rest = gvn_insns n looked.1 looked.2 in (looked.0 || rest.0, rest.1, i ∷ rest.2)

unfoldable pub run_gvn : Pass
unfolding gvn_insns
run_gvn c [] = (false, c, [])
run_gvn c (b ∷ bs) =
    let (here, c1, is') = gvn_insns (length b.insns) c b.insns in
    let (rest, c2, bs') = run_gvn c1 bs in (here || rest, c2, record b { insns = is' } ∷ bs')
