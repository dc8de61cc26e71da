-- ===== src/Optimizer/Tests.antt =====
-- Runs of the passes of src/optimizer/ana_ssa.cpp on concrete functions.
use anastasia.Base.{ℕ, ◌≡◌, refl, false, none, List, [], ◌∷◌, arith}
use anastasia.Ast.{Opcode, RegisterType, Operand, absent, register, Instruction, BasicBlock}
use anastasia.Optimizer.Pass.{new_ssa, run_mem2reg}
use anastasia.Optimizer.Congruence.{replace_later, gvn_insns, run_gvn}
use anastasia.Optimizer.Scalars.{run_escape_analysis}
use anastasia.Optimizer.Semantics.{Machine, Flow, onward, away, WritesDest, exec, exec_block}
use anastasia.Optimizer.Passes.{Matches, run_gvn-Matches, run_mem2reg-Matches}
use anastasia.Optimizer.Escaping.{BlocksBecome, run_escape_analysis-Become}

abbrev v : ℕ → Operand
v n = register (record { type = RegisterType.local; index = n })

abbrev insn : Opcode → Operand → Operand → Operand → Instruction
insn op d a b = record {
  op = op;
  dest = d;
  src1 = a;
  src2 = b;
  vtable_slot = 0;
  target_label = none;
  text = none;
  string_hash = 0;
  is_likely = false;
}

-- The other instructions leave the block.
abbrev leave : Instruction → Machine ℕ → Flow ℕ
leave i m = away m

leave-WritesDest : WritesDest leave
leave-WritesDest i m m' r h k = ground arith

-- v2 = v0 + v1; v3 = v0 + v1; v4 = v4; return v3
abbrev twice : List BasicBlock
twice =
    record {
      label = 0x61 ∷ [];
      insns =
          insn Opcode.add_i64 (v 2) (v 0) (v 1)
          ∷ insn Opcode.add_i64 (v 3) (v 0) (v 1)
          ∷ insn Opcode.move (v 4) (v 4) absent
          ∷ insn Opcode.return_val absent (v 3) absent
          ∷ [];
    }
    ∷ []

run_gvn-Matches_example : Matches leave (run_gvn new_ssa twice).2 twice
run_gvn-Matches_example = run_gvn-Matches leave leave-WritesDest twice new_ssa (refl, tt)

run_mem2reg-Matches_example : Matches leave (run_mem2reg new_ssa twice).2 twice
run_mem2reg-Matches_example = run_mem2reg-Matches leave twice new_ssa

-- v0 = new; v1 = new; store v1; return v0
abbrev maker : List BasicBlock
maker =
    record {
      label = 0x61 ∷ [];
      insns =
          insn Opcode.new_instance (v 0) absent absent
          ∷ insn Opcode.new_instance (v 1) absent absent
          ∷ insn Opcode.store_mem absent (v 1) absent
          ∷ insn Opcode.return_val absent (v 0) absent
          ∷ [];
    }
    ∷ []

run_escape_analysis-Become_example : BlocksBecome maker maker (run_escape_analysis new_ssa maker).2
run_escape_analysis-Become_example = run_escape_analysis-Become new_ssa maker

-- v0 = v0 + v1; v2 = v0 + v1
abbrev chained : List Instruction
chained = insn Opcode.add_i64 (v 0) (v 0) (v 1) ∷ insn Opcode.add_i64 (v 2) (v 0) (v 1) ∷ []

abbrev ones : Machine ℕ
ones = record { regs = λ r. 1; world = 0 }

abbrev register_of : Flow ℕ → ℕ → ℕ
register_of (onward m) n = m.regs (record { type = RegisterType.local; index = n })
register_of (away m) n = m.regs (record { type = RegisterType.local; index = n })

-- Without single assignment the elimination gives 2 where the block gives 3.
chained_before : register_of (exec_block leave chained ones) 2 ≡ 3
unfolding exec_block exec
chained_before = refl

chained_after : register_of (exec_block leave (gvn_insns 2 new_ssa chained).2 ones) 2 ≡ 2
unfolding exec_block exec gvn_insns replace_later
chained_after = refl
