-- ===== src/Optimizer/Gvn.antt =====
-- The common subexpression elimination, `run_gvn` of src/optimizer/ana_ssa.cpp, against the meaning
-- of a block.
use anastasia.Base.{
  ℕ, zero, suc, ◌≡◌, ◌⊎◌, inl, inr, refl, sym, ap, ◌∙◌, true, List, [], ◌∷◌, Bool-cases, arith,
}
use anastasia.Ast.{Opcode, Operand, absent, register, const_int, mem_offset, Instruction}
use anastasia.Optimizer.Pass.{AnaSsaIr}
use anastasia.Optimizer.Congruence.{
  eliminated, is_sum, congruent, move_from, replace_later, gvn_insns,
}
use anastasia.Optimizer.Semantics.{
  Machine, Flow, onward, away, same_register_refl, value, write, result, exec_op, exec, go_on,
  exec_block, WritesDest,
}
use anastasia.Optimizer.Single.{
  is_register, keeps, keeps_sum, kept_by, defines, is_single, value-congruent_operand, sum-same_sum,
  is_single-replace_later,
}

module _ {W : Type 0} where
  value-write :
      (d o : Operand) (v : ℕ) (j : Instruction) (m : Machine W)
      → j.dest ≡ d
      → keeps j o ≡ true
      → value o (write d v m).regs ≡ value o m.regs
  value-write (register r) (register s) v j m e h = ground arith
  value-write absent (register s) v j m e h = refl
  value-write (const_int _) (register s) v j m e h = refl
  value-write (mem_offset _ _) (register s) v j m e h = refl
  value-write d absent v j m e h = refl
  value-write d (const_int _) v j m e h = refl
  value-write d (mem_offset _ _) v j m e h = refl

  abbrev machine_of : Flow W → Machine W
  machine_of (onward m) = m
  machine_of (away m) = m

  value-written :
      (d : Operand) (v : ℕ) (m : Machine W) → is_register d ≡ true → value d (write d v m).regs ≡ v
  value-written (register r) v m h = rw (same_register_refl r) refl
  value-written absent v m h = ground arith
  value-written (const_int _) v m h = ground arith
  value-written (mem_offset _ _) v m h = ground arith

  result-congruent :
      (i j : Instruction) (m : Machine W)
      → defines i ≡ true
      → congruent i j ≡ true
      → result i m ≡ result j m
  result-congruent i j m d c =
      let first = value-congruent_operand i.src1 j.src1 m.regs (ground arith) (ground arith) in
      let second = value-congruent_operand i.src2 j.src2 m.regs (ground arith) (ground arith) in
      rw (first, second) (sum-same_sum i.op j.op _ _ (ground arith))

  Flow-cases : (f : Flow W) → ((m : Machine W) × (f ≡ onward m)) ⊎ ((m : Machine W) × (f ≡ away m))
  Flow-cases (onward m) = inl (m, refl)
  Flow-cases (away m) = inr (m, refl)

  -- The destination holds what the sum computes.
  abbrev Holds : Instruction → Machine W → Type 0
  Holds i m = value i.dest m.regs ≡ result i m

  module _ (other : Instruction → Machine W → Flow W) where
    exec_op-cases :
        (op : Opcode) (j : Instruction) (m : Machine W)
        → ((v : ℕ) × (exec_op other op j m ≡ onward (write j.dest v m)))
          ⊎ (exec_op other op j m ≡ other j m)
    exec_op-cases Opcode.add_i64 j m = inl (_, refl)
    exec_op-cases Opcode.sub_i64 j m = inl (_, refl)
    exec_op-cases Opcode.move j m = inl (_, refl)
    exec_op-cases Opcode.move_const j m = inl (_, refl)
    exec_op-cases _ j m = inr refl

    pub exec_op-is_sum :
        (op : Opcode) (i : Instruction) (m : Machine W)
        → is_sum op ≡ true
        → exec_op other op i m ≡ onward (write i.dest (result i m) m)
    exec_op-is_sum op i m h = ground arith

    module _ (writes_dest : WritesDest other) where
      value-other :
          (j : Instruction) (o : Operand) (m m' : Machine W)
          → other j m ≡ onward m'
          → keeps j o ≡ true
          → value o m'.regs ≡ value o m.regs
      value-other j (register r) m m' e h = writes_dest j m m' r e (ground arith)
      value-other j absent m m' e h = refl
      value-other j (const_int _) m m' e h = refl
      value-other j (mem_offset _ _) m m' e h = refl

      value-exec :
          (j : Instruction) (o : Operand) (m m' : Machine W)
          → exec other j m ≡ onward m'
          → keeps j o ≡ true
          → value o m'.regs ≡ value o m.regs
      unfolding exec
      value-exec j o m m' e h = elim (exec_op-cases j.op j m) [
        | inl (v, q) ↦
            ap (λ f. value o (machine_of f).regs) (sym e ∙ q) ∙ value-write j.dest o v j m refl h
        | inr q ↦ value-other j o m m' (sym q ∙ e) h
      ]

      Holds-exec :
          (i j : Instruction) (m m' : Machine W)
          → exec other j m ≡ onward m'
          → keeps_sum i j ≡ true
          → Holds i m
          → Holds i m'
      Holds-exec i j m m' e k h =
          let dest = value-exec j i.dest m m' e (ground arith) in
          let first = value-exec j i.src1 m m' e (ground arith) in
          let second = value-exec j i.src2 m m' e (ground arith) in rw (dest, first, second) h

      exec-Holds :
          (i : Instruction) (m m' : Machine W)
          → is_sum i.op ≡ true
          → defines i ≡ true
          → exec other i m ≡ onward m'
          → Holds i m'
      unfolding exec
      exec-Holds i m m' s d e =
          let written = exec_op-is_sum i.op i m s in
          let first = value-exec i i.src1 m m' e (ground arith) in
          let second = value-exec i i.src2 m m' e (ground arith) in
          ap (λ f. value i.dest (machine_of f).regs) (sym e ∙ written)
          ∙ value-written i.dest (result i m) m (ground arith)
          ∙ rw (first, second) refl

      exec-move_from :
          (i j : Instruction) (m : Machine W)
          → is_sum i.op ≡ true
          → defines i ≡ true
          → congruent i j ≡ true
          → Holds i m
          → exec other (move_from i.dest j) m ≡ exec other j m
      unfolding exec
      exec-move_from i j m s d c h =
          let written = exec_op-is_sum j.op j m (ground arith) in
          rw (written, h, result-congruent i j m d c) refl

      -- Whatever follows a sum in single assignment form, replacing what is congruent to it by
      -- moves keeps what the instructions do.
      exec_block-replace_later :
          (i : Instruction) (c : AnaSsaIr) (js : List Instruction) (m : Machine W)
          → is_sum i.op ≡ true
          → defines i ≡ true
          → kept_by i js ≡ true
          → Holds i m
          → exec_block other (replace_later i c js).2 m ≡ exec_block other js m
      unfolding exec_block replace_later
      exec_block-replace_later i c [] m s d k h = refl
      exec_block-replace_later i c (j ∷ js) m s d k h =
          let rest : (c' : AnaSsaIr)
              → go_on (exec other j m) (exec_block other (replace_later i c' js).2)
                ≡ go_on (exec other j m) (exec_block other js) =
            λ c'. elim (Flow-cases (exec other j m)) [
              | inl (m', e) ↦ rw e (
                  exec_block-replace_later i c' js m' s d (ground arith)
                    (Holds-exec i j m m' e (ground arith) h))
              | inr (m', e) ↦ rw e refl
            ] in
          elim (Bool-cases (congruent i j)) [
            | inl e ↦ rw (e, exec-move_from i j m s d e h) (rest (eliminated c))
            | inr e ↦ rw e (rest c)
          ]

      -- Where the sums of a block are in single assignment form and the other instructions write no
      -- register but their destination, the elimination keeps what the block does: from any state
      -- the new block ends in the same state, or leaves at the same instruction with the same state.
      pub exec_block-gvn_insns :
          (n : ℕ) (c : AnaSsaIr) (is : List Instruction) (m : Machine W)
          → is_single is ≡ true
          → exec_block other (gvn_insns n c is).2 m ≡ exec_block other is m
      unfolding exec_block gvn_insns
      exec_block-gvn_insns zero c is m h = refl
      exec_block-gvn_insns (suc n) c [] m h = refl
      exec_block-gvn_insns (suc n) c (i ∷ is) m h =
          let rest : (c' : AnaSsaIr) (js : List Instruction)
              → is_single js ≡ true
              → ((m' : Machine W)
                  → exec other i m ≡ onward m'
                  → exec_block other js m' ≡ exec_block other is m')
              → go_on (exec other i m) (exec_block other (gvn_insns n c' js).2)
                ≡ go_on (exec other i m) (exec_block other is) =
            λ c' js single same. elim (Flow-cases (exec other i m)) [
              | inl (m', e) ↦ rw e (exec_block-gvn_insns n c' js m' single ∙ same m' e)
              | inr (m', e) ↦ rw e refl
            ] in
          elim (Bool-cases (is_sum i.op)) [
            | inl s ↦ rw s (
                rest _ (replace_later i c is).2 (is_single-replace_later i c is (ground arith))
                  (λ m' e.
                    exec_block-replace_later i c is m' s (ground arith) (ground arith)
                      (exec-Holds i m m' s (ground arith) e)))
            | inr s ↦ rw s (rest c is (ground arith) (λ m' e. refl))
          ]
