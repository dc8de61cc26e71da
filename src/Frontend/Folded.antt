-- ===== src/Frontend/Folded.antt =====
-- What the constant folding of src/frontend/ana_parser.cpp gives.
use anastasia.Base.{ℕ, ◌-◌, ◌/◌, ◌^◌, ◌≡◌, ◌⊎◌, refl, true, some, arith}
use anastasia.Ast.{Opcode, Operand, const_int, absent, register, mem_offset, Instruction}
use anastasia.Frontend.Fold.{
  is_negative, magnitude, differ, fold, fold_into, fold_operands, optimize_instruction,
}
use anastasia.Optimizer.Congruence.{is_sum}
use anastasia.Optimizer.Gvn.{exec_op-is_sum}
use anastasia.Optimizer.Semantics.{Machine, Flow, sum, exec}

-- A result of the 64-bit division: the magnitudes divide, and a result that is not 0 is negative
-- just when one operand is. The one exception is the least number by -1, which gives itself.
abbrev pub Divides : ℕ → ℕ → ℕ → Type 0
Divides a b r =
    (magnitude (2 ^ 64) r ≡ magnitude (2 ^ 64) a / magnitude (2 ^ 64) b)
    × ((r ≡ 0)
        ⊎ (is_negative (2 ^ 64) r ≡ differ (is_negative (2 ^ 64) a) (is_negative (2 ^ 64) b))
        ⊎ ((a ≡ 2 ^ 63) × (b ≡ 2 ^ 64 - 1)))

fold-is_sum : (op : Opcode) (v1 v2 : ℕ) → is_sum op ≡ true → fold op v1 v2 ≡ some (sum op v1 v2)
unfolding fold
fold-is_sum op v1 v2 h = ground arith

module _ {W : Type 0} (other : Instruction → Machine W → Flow W) where
  exec-fold_into :
      (i : Instruction) (v1 v2 : ℕ) (m : Machine W)
      → is_sum i.op ≡ true
      → i.src1 ≡ const_int v1
      → i.src2 ≡ const_int v2
      → exec other (fold_into i (fold i.op v1 v2)) m ≡ exec other i m
  unfolding exec
  exec-fold_into i v1 v2 m s e f =
      rw (fold-is_sum i.op v1 v2 s, exec_op-is_sum other i.op i m s, e, f) refl

  exec-fold_operands :
      (i : Instruction) (a b : Operand) (m : Machine W)
      → is_sum i.op ≡ true
      → i.src1 ≡ a
      → i.src2 ≡ b
      → exec other (fold_operands i a b) m ≡ exec other i m
  exec-fold_operands i (const_int v1) (const_int v2) m s e f = exec-fold_into i v1 v2 m s e f
  exec-fold_operands i (const_int _) absent m s e f = refl
  exec-fold_operands i (const_int _) (register _) m s e f = refl
  exec-fold_operands i (const_int _) (mem_offset _ _) m s e f = refl
  exec-fold_operands i absent b m s e f = refl
  exec-fold_operands i (register _) b m s e f = refl
  exec-fold_operands i (mem_offset _ _) b m s e f = refl

  -- Folding a 64-bit addition or subtraction keeps what the instruction does.
  pub exec-optimize_instruction :
      (i : Instruction) (m : Machine W)
      → is_sum i.op ≡ true
      → exec other (optimize_instruction i) m ≡ exec other i m
  unfolding optimize_instruction
  exec-optimize_instruction i m h = exec-fold_operands i i.src1 i.src2 m h refl refl
