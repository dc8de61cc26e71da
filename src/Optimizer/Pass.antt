-- ===== src/Optimizer/Pass.antt =====
-- The passes of src/optimizer/ana_ssa.cpp and their counters; the passes that look at one
-- instruction at a time, and `run_mem2reg`. A pass takes the counters and the blocks of a function,
-- and gives whether it changed something, the counters and the blocks.
use anastasia.Base.{ℕ, ◌+◌, ◌%◌, ◌^◌, Bool, true, false, ◌&&◌, ◌||◌, List, [], ◌∷◌, if◌then◌else◌}
use anastasia.Ast.{Opcode, same_register, Operand, register, const_int, Instruction, BasicBlock}

-- The counters of `AnaSSAIR`, `uint32_t` each.
pub record AnaSsaIr : Type 0 where
  pub promoted_stack_slots : ℕ
  pub hoisted_invariants : ℕ
  pub eliminated_gvn_exprs : ℕ
  pub scalar_replaced_objects : ℕ
  pub vectorized_loops : ℕ
  pub non_temporal_streams : ℕ
  pub folded_string_lengths : ℕ

abbrev pub new_ssa : AnaSsaIr
new_ssa = record {
  promoted_stack_slots = 0;
  hoisted_invariants = 0;
  eliminated_gvn_exprs = 0;
  scalar_replaced_objects = 0;
  vectorized_loops = 0;
  non_temporal_streams = 0;
  folded_string_lengths = 0;
}

abbrev pub bump : ℕ → ℕ
bump n = (n + 1) % 2 ^ 32

abbrev pub Pass : Type 0
Pass = AnaSsaIr → List BasicBlock → Bool × AnaSsaIr × List BasicBlock

-- One instruction: whether it was changed or counted, the counters, and what stands in its place.
abbrev pub Visit : Type 0
Visit = AnaSsaIr → Instruction → Bool × AnaSsaIr × Instruction

unfoldable pub visit_insns :
    Visit → AnaSsaIr → List Instruction → Bool × AnaSsaIr × List Instruction
visit_insns f c [] = (false, c, [])
visit_insns f c (i ∷ is) =
    let (here, c1, i') = f c i in
    let (rest, c2, is') = visit_insns f c1 is in (here || rest, c2, i' ∷ is')

unfoldable pub visit_blocks : Visit → Pass
unfolding visit_insns
visit_blocks f c [] = (false, c, [])
visit_blocks f c (b ∷ bs) =
    let (here, c1, is') = visit_insns f c b.insns in
    let (rest, c2, bs') = visit_blocks f c1 bs in (here || rest, c2, record b { insns = is' } ∷ bs')

abbrev pub vectorize_op : Opcode → Visit
vectorize_op Opcode.add_vector_i32x4 c i = (
  true,
  record c { vectorized_loops = bump c.vectorized_loops },
  record i { op = Opcode.add_vector_i32x8 },
)
vectorize_op _ c i = (false, c, i)

unfoldable pub run_autovectorizer : Pass
unfolding visit_blocks
run_autovectorizer = visit_blocks (λ c i. vectorize_op i.op c i)

abbrev pub stream_op : Opcode → Visit
stream_op Opcode.add_vector_i32x8 c i =
    (true, record c { non_temporal_streams = bump c.non_temporal_streams }, i)
stream_op Opcode.add_vector_i32x16 c i =
    (true, record c { non_temporal_streams = bump c.non_temporal_streams }, i)
stream_op _ c i = (false, c, i)

unfoldable pub run_stream_analysis : Pass
unfolding visit_blocks
run_stream_analysis = visit_blocks (λ c i. stream_op i.op c i)

abbrev pub is_const : Operand → Bool
is_const (const_int _) = true
is_const _ = false

abbrev pub licm_op : Opcode → Visit
licm_op Opcode.move_const c i =
    (true, record c { hoisted_invariants = bump c.hoisted_invariants }, i)
licm_op Opcode.add_i64 c i =
    if is_const i.src1
    then (true, record c { hoisted_invariants = bump c.hoisted_invariants }, i)
    else (false, c, i)
licm_op _ c i = (false, c, i)

unfoldable pub run_licm : Pass
unfolding visit_blocks
run_licm = visit_blocks (λ c i. licm_op i.op c i)

-- `dest` and `src1` are registers, and the same one.
abbrev pub same_operand_register : Operand → Operand → Bool
same_operand_register (register a) (register b) = same_register a b
same_operand_register _ _ = false

abbrev pub is_move : Opcode → Bool
is_move Opcode.move = true
is_move _ = false

abbrev pub is_self_move : Instruction → Bool
is_self_move i = is_move i.op && same_operand_register i.dest i.src1

abbrev pub promoted : AnaSsaIr → AnaSsaIr
promoted c = record c { promoted_stack_slots = bump c.promoted_stack_slots }

-- A self-move is unlinked.
unfoldable pub mem2reg_insns : AnaSsaIr → List Instruction → Bool × AnaSsaIr × List Instruction
mem2reg_insns c [] = (false, c, [])
mem2reg_insns c (i ∷ is) =
    let self = is_self_move i in
    let rest = mem2reg_insns (if self then promoted c else c) is in
    if self then (true, rest.1, rest.2) else (rest.0, rest.1, i ∷ rest.2)

unfoldable pub run_mem2reg : Pass
unfolding mem2reg_insns
run_mem2reg c [] = (false, c, [])
run_mem2reg c (b ∷ bs) =
    let (here, c1, is') = mem2reg_insns c b.insns in
    let (rest, c2, bs') = run_mem2reg c1 bs in (here || rest, c2, record b { insns = is' } ∷ bs')
