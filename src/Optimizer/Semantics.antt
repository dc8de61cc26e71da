-- ===== src/Optimizer/Semantics.antt =====
-- What a block of the program of src/frontend/ana_ast.h does to the 64-bit registers: the meaning
-- of ADD_I64, SUB_I64, MOVE and MOVE_CONST, over any meaning of the other instructions.
use anastasia.Base.{
  ℕ, ◌+◌, ◌-◌, ◌%◌, ◌^◌, ◌≡◌, refl, Bool, true, false, List, [], ◌∷◌, if◌then◌else◌, arith,
}
use anastasia.Ast.{
  Opcode, RegisterType, Register, same_type, same_register, Operand, absent, register, const_int,
  mem_offset, Instruction,
}
use anastasia.Optimizer.Pass.{same_operand_register}

-- The registers, and all else that instructions read and write.
pub record Machine (W : Type 0) : Type 0 where
  pub regs : Register → ℕ
  pub world : W

-- An instruction goes on to the next one, or leaves the block.
pub data Flow (W : Type 0) : Type 0 where
  onward away : Machine W → Flow W

-- `r` is the destination.
abbrev pub writes : Instruction → Register → Bool
writes i r = same_operand_register i.dest (register r)

same_type_refl : (t : RegisterType) → same_type t t ≡ true
same_type_refl RegisterType.untyped = refl
same_type_refl RegisterType.param = refl
same_type_refl RegisterType.local = refl

same_type-≡ : (t u : RegisterType) → same_type t u ≡ true → t ≡ u
same_type-≡ t u h = ground arith

pub same_register_refl : (r : Register) → same_register r r ≡ true
same_register_refl r = ground (arith, same_type_refl r.type)

pub same_register-≡ : (r s : Register) → same_register r s ≡ true → r ≡ s
same_register-≡ r s h = ground (arith, same_type-≡ r.type s.type)

-- The value of a source. The sources of sums and moves are registers and constants.
abbrev pub value : Operand → (Register → ℕ) → ℕ
value absent regs = 0
value (register r) regs = regs r
value (const_int v) regs = v
value (mem_offset _ _) regs = 0

abbrev pub sum : Opcode → ℕ → ℕ → ℕ
sum Opcode.sub_i64 a b = (a + 2 ^ 64 - b % 2 ^ 64) % 2 ^ 64
sum _ a b = (a + b) % 2 ^ 64

module _ {W : Type 0} where
  abbrev pub write : Operand → ℕ → Machine W → Machine W
  write (register r) v m = record m { regs = λ s. if same_register r s then v else m.regs s }
  write _ v m = m

  -- What a sum computes.
  abbrev pub result : Instruction → Machine W → ℕ
  result i m = sum i.op (value i.src1 m.regs) (value i.src2 m.regs)

  abbrev pub go_on : Flow W → (Machine W → Flow W) → Flow W
  go_on (onward m) next = next m
  go_on (away m) next = away m

  module _ (other : Instruction → Machine W → Flow W) where
    abbrev pub exec_op : Opcode → Instruction → Machine W → Flow W
    exec_op Opcode.add_i64 i m = onward (write i.dest (result i m) m)
    exec_op Opcode.sub_i64 i m = onward (write i.dest (result i m) m)
    exec_op Opcode.move i m = onward (write i.dest (value i.src1 m.regs) m)
    exec_op Opcode.move_const i m = onward (write i.dest (value i.src1 m.regs) m)
    exec_op _ i m = other i m

    unfoldable pub exec : Instruction → Machine W → Flow W
    exec i m = exec_op i.op i m

    -- The instructions of a block in order.
    unfoldable pub exec_block : List Instruction → Machine W → Flow W
    exec_block [] m = onward m
    exec_block (i ∷ is) m = go_on (exec i m) (exec_block is)

-- The other instructions write no register but their destination.
abbrev pub WritesDest : {W : Type 0} → (Instruction → Machine W → Flow W) → Type 0
WritesDest {W = W} other =
    (i : Instruction) (m m' : Machine W) (r : Register)
    → other i m ≡ onward m'
    → writes i r ≡ false
    → m'.regs r ≡ m.regs r
