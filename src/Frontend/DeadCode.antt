-- ===== src/Frontend/DeadCode.antt =====
-- `apply_dce` of src/frontend/ana_parser.cpp.
use anastasia.Base.{◌≡◌, Bool, true, false, List, [], ◌∷◌, if◌then◌else◌}
use anastasia.Ast.{Opcode, Instruction, BasicBlock}
use anastasia.Optimizer.Semantics.{Machine, Flow, away}

abbrev pub is_terminator : Opcode → Bool
is_terminator Opcode.return_void = true
is_terminator Opcode.return_val = true
is_terminator Opcode.goto = true
is_terminator _ = false

-- The instructions up to the first terminator.
unfoldable pub live_insns : List Instruction → List Instruction
live_insns [] = []
live_insns (i ∷ is) = let rest = live_insns is in if is_terminator i.op then i ∷ [] else i ∷ rest

unfoldable pub apply_dce : BasicBlock → BasicBlock
unfolding live_insns
apply_dce block = record block { insns = live_insns block.insns }

-- A return and a jump leave the block.
abbrev pub TerminatorsLeave : {W : Type 0} → (Instruction → Machine W → Flow W) → Type 0
TerminatorsLeave {W = W} other =
    (i : Instruction) (m : Machine W)
    → is_terminator i.op ≡ true
    → (m' : Machine W) × (other i m ≡ away m')
