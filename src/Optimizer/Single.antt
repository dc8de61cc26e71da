-- ===== src/Optimizer/Single.antt =====
-- Blocks in which the sums that `run_gvn` of src/optimizer/ana_ssa.cpp looks at are in single
-- assignment form.
use anastasia.Base.{
  ℕ, ◌≡◌, inl, inr, refl, ap, Bool, true, false, not, ◌&&◌, ◌||◌, List, [], ◌∷◌, Bool-cases, arith,
}
use anastasia.Ast.{Opcode, Register, Operand, register, const_int, Instruction}
use anastasia.Optimizer.Pass.{AnaSsaIr}
use anastasia.Optimizer.Congruence.{
  eliminated, is_sum, same_sum, congruent_operand, congruent, replace_later,
}
use anastasia.Optimizer.Semantics.{writes, same_register-≡, value, sum}

abbrev is_plain : Operand → Bool
is_plain (register _) = true
is_plain (const_int _) = true
is_plain _ = false

abbrev pub is_register : Operand → Bool
is_register (register _) = true
is_register _ = false

-- The instruction writes no register that the operand names.
abbrev pub keeps : Instruction → Operand → Bool
keeps j (register r) = not (writes j r)
keeps j _ = true

abbrev pub keeps_sum : Instruction → Instruction → Bool
keeps_sum i j = keeps j i.dest && keeps j i.src1 && keeps j i.src2

abbrev pub kept_by : Instruction → List Instruction → Bool
kept_by i [] = true
kept_by i (j ∷ js) = keeps_sum i j && kept_by i js

-- A register that is the sum of registers and constants, itself not among them.
abbrev pub defines : Instruction → Bool
defines i =
    is_register i.dest && is_plain i.src1 && is_plain i.src2 && keeps i i.src1 && keeps i i.src2

-- The sums of the block are in single assignment form: what a sum reads and writes is not written
-- after it.
abbrev pub is_single : List Instruction → Bool
is_single [] = true
is_single (i ∷ is) = (not (is_sum i.op) || (defines i && kept_by i is)) && is_single is

pub value-congruent_operand :
    (a b : Operand) (regs : Register → ℕ)
    → is_plain a ≡ true
    → congruent_operand a b ≡ true
    → value a regs ≡ value b regs
value-congruent_operand (register r) (register s) regs p h = ap regs (same_register-≡ r s h)
value-congruent_operand (const_int v) b regs p h = ground arith
value-congruent_operand a b regs p h = ground arith

pub sum-same_sum : (o p : Opcode) (a b : ℕ) → same_sum o p ≡ true → sum o a b ≡ sum p a b
sum-same_sum o p a b h = ground arith

kept_by-replace_later :
    (k i : Instruction) (c : AnaSsaIr) (js : List Instruction)
    → kept_by k (replace_later i c js).2 ≡ kept_by k js
unfolding replace_later
kept_by-replace_later k i c [] = refl
kept_by-replace_later k i c (j ∷ js) = elim (Bool-cases (congruent i j)) [
  | inl e ↦ rw (e, kept_by-replace_later k i (eliminated c) js) refl
  | inr e ↦ rw (e, kept_by-replace_later k i c js) refl
]

pub is_single-replace_later :
    (i : Instruction) (c : AnaSsaIr) (js : List Instruction)
    → is_single js ≡ true
    → is_single (replace_later i c js).2 ≡ true
unfolding replace_later
is_single-replace_later i c [] h = refl
is_single-replace_later i c (j ∷ js) h = elim (Bool-cases (congruent i j)) [
  | inl e ↦ rw e (is_single-replace_later i (eliminated c) js (ground arith))
  | inr e ↦
      rw (e, kept_by-replace_later j i c js) ground
        (arith, is_single-replace_later i c js (ground arith))
]
