-- ===== src/Lowerer/Moves.antt =====
-- The code of MUL, NEG, MOVE and MOVE_CONST of src/backend/ana_lowerer.cpp computes what the opcode
-- says.
use anastasia.Base.{ℕ, ◌-◌, ◌*◌, ◌%◌, ◌^◌, ◌<◌, ◌≡◌, refl, ap, ◌∙◌, some, arith}
use anastasia.Ast.{Register, Operand, const_int, Instruction}
use anastasia.RegAlloc.{AnaRegAlloc}
use anastasia.RegAlloc.Layout.{Entity, Live}
use anastasia.RegAlloc.Contract.{IsLayout}
use anastasia.Encoder.RoundTrip.RegReg
use anastasia.Lowerer.Cpu.{Cpu, set_reg, alu}
use anastasia.Lowerer.Runs.{
  Computes-mov_reg_reg, Computes-move_if_other, Computes-mov_reg_imm64, Computes-reg_reg,
}
use anastasia.Lowerer.Operands.{rax, rcx, r11, reg_member, load_operand, dst_reg, is_i32_op}
use anastasia.Lowerer.Arithmetic.{lower_mul, lower_neg}
use anastasia.Lowerer.Memory.{lower_move, lower_move_const}
use anastasia.Lowerer.Slots.{HoldsBut, FrameAt, entity_of, updated, HoldsBut-set_reg}
use anastasia.Lowerer.Access.{
  IsSource, literal, in_place, value, no_entity, is_entity, Stores, load_operand-Loads,
}
use anastasia.Lowerer.Written.{store_operand-Stores, HoldsBut-dst_reg, dst_reg-lt}
use anastasia.Lowerer.Operation.{wrapped, Stores-after}
use anastasia.Lowerer.TwoOperands.{wrap_and_store, weaken}

module _ (a : AnaRegAlloc) (laid : IsLayout a) (base : ℕ) (fits : FrameAt a base) (ref : Cpu)
    (contents : Entity → ℕ) where
  value-lt :
      (o : Operand) (c : Cpu)
      → HoldsBut a base ref contents no_entity c
      → IsSource a o
      → value contents o < 2 ^ 64
  value-lt _ c h (in_place r live) = h.words (entity_of r)
  value-lt _ c h (literal v k) = k

  pub lower_move-Stores :
      (i : Instruction) (r : Register) (c : Cpu)
      → reg_member i.dest ≡ r
      → Live a (entity_of r)
      → IsSource a i.src1
      → HoldsBut a base ref contents no_entity c
      → Stores a base ref
          (updated contents (entity_of r) (value contents i.src1))
          c
          (lower_move a i)
  unfolding lower_move
  lower_move-Stores i r c e live ok h =
      let load =
        load_operand-Loads a laid base fits ref contents i.src1 rax c (ground arith) h ok in
      let at = load.reg_is in
      rw e (
        Stores-after load.computes (
          store_operand-Stores a laid base fits ref contents r (load_operand a i.src1 rax).1
            (value contents i.src1) load.after live (ground arith) (value-lt i.src1 c h ok)
            (weaken a laid base fits ref contents (is_entity (entity_of r)) load.after load.holds)
            load.value_in))

  -- The destination register after a value has been put into it.
  in_dst :
      (r : Register) (v : ℕ) (c : Cpu)
      → Live a (entity_of r)
      → HoldsBut a base ref contents no_entity c
      → HoldsBut a base ref contents (is_entity (entity_of r)) (set_reg (dst_reg a r rcx) v c)
  in_dst r v c live h =
      HoldsBut-dst_reg a laid base fits ref contents r rcx v c live (ground arith)
        (weaken a laid base fits ref contents (is_entity (entity_of r)) c h)

  dst_small : (r : Register) → Live a (entity_of r) → dst_reg a r rcx < 16
  dst_small r live =
      let at = dst_reg-lt a laid base fits ref contents r rcx live (ground arith) in ground arith

  pub lower_move_const-Stores :
      (i : Instruction) (r : Register) (v : ℕ) (c : Cpu)
      → reg_member i.dest ≡ r
      → i.src1 ≡ const_int v
      → Live a (entity_of r)
      → v < 2 ^ 64
      → HoldsBut a base ref contents no_entity c
      → Stores a base ref (updated contents (entity_of r) v) c (lower_move_const a i)
  unfolding lower_move_const
  lower_move_const-Stores i r v c e f live k h =
      let small = dst_small r live in
      let dst = dst_reg a r rcx in
      rw (e, f)
        (Stores-after (Computes-mov_reg_imm64 dst v c small k) (
          store_operand-Stores a laid base fits ref contents r dst v (set_reg dst v c) live small k
            (in_dst r v c live h) (ground arith)))

  pub lower_neg-Stores :
      (i : Instruction) (r : Register) (c : Cpu)
      → reg_member i.dest ≡ r
      → Live a (entity_of r)
      → IsSource a i.src1
      → HoldsBut a base ref contents no_entity c
      → Stores a base ref
          (updated contents
            (entity_of r)
            (wrapped (is_i32_op i.op) ((2 ^ 64 - value contents i.src1) % 2 ^ 64)))
          c
          (lower_neg a i)
  unfolding lower_neg alu
  lower_neg-Stores i r c e live ok h =
      let load =
        load_operand-Loads a laid base fits ref contents i.src1 rcx c (ground arith) h ok in
      let at = load.reg_is in
      let s1 = (load_operand a i.src1 rcx).1 in
      let dst = dst_reg a r rcx in
      let small = dst_small r live in
      let v = (2 ^ 64 - value contents i.src1) % 2 ^ 64 in
      let c1 = set_reg r11 0 load.after in
      let c2 = set_reg r11 v c1 in
      let kept : c1.gpr s1 ≡ value contents i.src1 = ground (arith, load.value_in) in
      let holds2 =
        HoldsBut-set_reg a laid base fits ref contents no_entity r11 v c1 (ground arith) (
          HoldsBut-set_reg a laid base fits ref contents no_entity r11 0 load.after (ground arith)
            load.holds) in
      rw e (
        Stores-after load.computes (
          Stores-after (Computes-mov_reg_imm64 r11 0 load.after (omega arith) (omega arith)) (
            Stores-after
              (Computes-reg_reg RegReg.sub_reg_reg r11 s1 v c1 (omega arith) (ground arith) tt refl
                (ap some (ground (arith, kept))))
              (Stores-after (Computes-mov_reg_reg dst r11 c2 small (omega arith)) (
                wrap_and_store a laid base fits ref contents r (is_i32_op i.op) v
                  (set_reg dst (c2.gpr r11) c2) live (omega arith)
                  (in_dst r (c2.gpr r11) c2 live holds2) (ground arith))))))

  pub lower_mul-Stores :
      (i : Instruction) (r : Register) (c : Cpu)
      → reg_member i.dest ≡ r
      → Live a (entity_of r)
      → IsSource a i.src1
      → IsSource a i.src2
      → HoldsBut a base ref contents no_entity c
      → Stores a base ref
          (updated contents
            (entity_of r)
            (wrapped (is_i32_op i.op) (value contents i.src1 * value contents i.src2 % 2 ^ 64)))
          c
          (lower_mul a i)
  unfolding lower_mul alu
  lower_mul-Stores i r c e live ok1 ok2 h =
      let x = value contents i.src1 in
      let y = value contents i.src2 in
      let load2 =
        load_operand-Loads a laid base fits ref contents i.src2 r11 c (ground arith) h ok2 in
      let s2 = (load_operand a i.src2 r11).1 in
      let at2 = load2.reg_is in
      let c1 = set_reg r11 (load2.after.gpr s2) load2.after in
      let holds1 =
        HoldsBut-set_reg a laid base fits ref contents no_entity r11 (load2.after.gpr s2)
          load2.after (ground arith) load2.holds in
      let load1 =
        load_operand-Loads a laid base fits ref contents i.src1 rcx c1 (ground arith) holds1 ok1 in
      let s1 = (load_operand a i.src1 rcx).1 in
      let at1 = load1.reg_is in
      let dst = dst_reg a r rcx in
      let at = dst_reg-lt a laid base fits ref contents r rcx live (ground arith) in
      let small = dst_small r live in
      let c2 = set_reg dst (load1.after.gpr s1) load1.after in
      let v = x * y % 2 ^ 64 in
      let kept : load1.after.gpr r11 ≡ y =
        load1.others r11 (ground arith) ∙ ground (arith, load2.value_in) in
      let left : c2.gpr dst ≡ x = ground (arith, load1.value_in) in
      let right : c2.gpr r11 ≡ y = ground (arith, kept) in
      let product : c2.gpr dst * c2.gpr r11 % 2 ^ 64 ≡ v =
        ap (λ z. z * c2.gpr r11 % 2 ^ 64) left ∙ ap (λ z. x * z % 2 ^ 64) right in
      rw e (
        Stores-after load2.computes (
          Stores-after (Computes-move_if_other r11 s2 load2.after (omega arith) (ground arith)) (
            Stores-after load1.computes (
              Stores-after (Computes-mov_reg_reg dst s1 load1.after small (ground arith)) (
                Stores-after
                  (Computes-reg_reg RegReg.imul_reg_reg dst r11 v c2 small (omega arith) tt refl
                    (ap some product))
                  (wrap_and_store a laid base fits ref contents r (is_i32_op i.op) v
                    (set_reg dst v c2) live (omega arith)
                    (HoldsBut-dst_reg a laid base fits ref contents r rcx v c2 live (ground arith)
                      (in_dst r (load1.after.gpr s1) load1.after live load1.holds))
                    (ground arith)))))))
