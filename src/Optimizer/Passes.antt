-- ===== src/Optimizer/Passes.antt =====
-- Whole passes of src/optimizer/ana_ssa.cpp against the meaning of the blocks: `run_gvn`,
-- `run_mem2reg` and `run_licm`.
use anastasia.Base.{
  ◌≡◌, refl, sym, ap, ◌∙◌, fun_ext, true, inl, inr, List, [], ◌∷◌, Bool-cases, arith,
}
use anastasia.Base.Lists.{All}
use anastasia.Ast.{Opcode, same_register, Operand, register, Instruction, BasicBlock}
use anastasia.Optimizer.Pass.{
  AnaSsaIr, promoted, is_move, is_self_move, same_operand_register, Visit, visit_insns,
  visit_blocks, mem2reg_insns, run_mem2reg, run_licm, licm_op, stream_op, run_stream_analysis,
}
use anastasia.Optimizer.Congruence.{run_gvn}
use anastasia.Optimizer.Semantics.{
  Machine, Flow, onward, same_register-≡, value, write, exec_op, exec, go_on, exec_block,
  WritesDest,
}
use anastasia.Optimizer.Single.{is_single}
use anastasia.Optimizer.Gvn.{exec_block-gvn_insns}

module _ {W : Type 0} (other : Instruction → Machine W → Flow W) where
  -- Equal labels, and instructions that do the same from every state.
  pub data Matches : List BasicBlock → List BasicBlock → Type 0 where
    nothing : Matches [] []
    block :
        {a b : BasicBlock} {as' bs : List BasicBlock}
        → a.label ≡ b.label
        → ((m : Machine W) → exec_block other a.insns m ≡ exec_block other b.insns m)
        → Matches as' bs
        → Matches (a ∷ as') (b ∷ bs)

  -- Where the sums of every block are in single assignment form and the other instructions write
  -- no register but their destination, every block does after `run_gvn` what it did before, and
  -- stands at the same place under the same label.
  pub run_gvn-Matches :
      WritesDest other
      → (bs : List BasicBlock) (c : AnaSsaIr) → All (λ b. is_single b.insns ≡ true) bs
      → Matches (run_gvn c bs).2 bs
  unfolding run_gvn
  run_gvn-Matches w [] c h = nothing
  run_gvn-Matches w (b ∷ bs) c h =
      block refl (λ m. exec_block-gvn_insns other w _ c b.insns m h.0) (run_gvn-Matches w bs _ h.1)

  exec_op-move :
      (op : Opcode) (i : Instruction) (m : Machine W)
      → is_move op ≡ true
      → exec_op other op i m ≡ onward (write i.dest (value i.src1 m.regs) m)
  exec_op-move op i m h = ground arith

  write-same :
      (d s : Operand) (m : Machine W)
      → same_operand_register d s ≡ true
      → write d (value s m.regs) m ≡ m
  write-same (register r) (register s) m h =
      ap (λ f. record m { regs = f })
        (fun_ext λ t. elim (Bool-cases (same_register r t)) [
          | inl e ↦ rw e (ap m.regs (sym (same_register-≡ r s h) ∙ same_register-≡ r t e))
          | inr e ↦ rw e refl
        ])
  write-same d s m h = ground arith

  exec-self_move :
      (i : Instruction) (m : Machine W) → is_self_move i ≡ true → exec other i m ≡ onward m
  unfolding exec
  exec-self_move i m h =
      exec_op-move i.op i m (ground arith) ∙ ap onward (write-same i.dest i.src1 m (ground arith))

  exec_block-mem2reg_insns :
      (is : List Instruction) (c : AnaSsaIr) (m : Machine W)
      → exec_block other (mem2reg_insns c is).2 m ≡ exec_block other is m
  unfolding exec_block mem2reg_insns
  exec_block-mem2reg_insns [] c m = refl
  exec_block-mem2reg_insns (i ∷ is) c m = elim (Bool-cases (is_self_move i)) [
    | inl e ↦ rw (e, exec-self_move i m e) (exec_block-mem2reg_insns is (promoted c) m)
    | inr e ↦ rw e (ap (go_on (exec other i m)) (fun_ext (λ m'. exec_block-mem2reg_insns is c m')))
  ]

  -- Every block does after `run_mem2reg` what it did before, and stands at the same place under
  -- the same label.
  pub run_mem2reg-Matches : (bs : List BasicBlock) (c : AnaSsaIr) → Matches (run_mem2reg c bs).2 bs
  unfolding run_mem2reg
  run_mem2reg-Matches [] c = nothing
  run_mem2reg-Matches (b ∷ bs) c =
      block refl (exec_block-mem2reg_insns b.insns c) (run_mem2reg-Matches bs _)

visit_insns-keeps :
    (f : Visit)
    → ((c : AnaSsaIr) (i : Instruction) → (f c i).2 ≡ i)
    → (is : List Instruction) (c : AnaSsaIr) → (visit_insns f c is).2 ≡ is
unfolding visit_insns
visit_insns-keeps f keeps [] c = refl
visit_insns-keeps f keeps (i ∷ is) c = rw (keeps c i, visit_insns-keeps f keeps is (f c i).1) refl

visit_blocks-keeps :
    (f : Visit)
    → ((c : AnaSsaIr) (i : Instruction) → (f c i).2 ≡ i)
    → (bs : List BasicBlock) (c : AnaSsaIr) → (visit_blocks f c bs).2 ≡ bs
unfolding visit_blocks
visit_blocks-keeps f keeps [] c = refl
visit_blocks-keeps f keeps (b ∷ bs) c =
    rw
      (
        visit_insns-keeps f keeps b.insns c,
        visit_blocks-keeps f keeps bs (visit_insns f c b.insns).1,
      )
      refl

licm_op-keeps : (op : Opcode) (c : AnaSsaIr) (i : Instruction) → (licm_op op c i).2 ≡ i
licm_op-keeps op c i = ground arith

stream_op-keeps : (op : Opcode) (c : AnaSsaIr) (i : Instruction) → (stream_op op c i).2 ≡ i
stream_op-keeps op c i = ground arith

-- The loop invariant motion and the stream analysis change no instruction of any block, whatever
-- they count.
licm_stream_lem :
    (bs : List BasicBlock) (c : AnaSsaIr)
    → ((run_licm c bs).2 ≡ bs) × ((run_stream_analysis c bs).2 ≡ bs)
unfolding run_licm run_stream_analysis
licm_stream_lem bs c = (
  visit_blocks-keeps _ (λ c i. licm_op-keeps i.op c i) bs c,
  visit_blocks-keeps _ (λ c i. stream_op-keeps i.op c i) bs c,
)
