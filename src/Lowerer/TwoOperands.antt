-- ===== src/Lowerer/TwoOperands.antt =====
-- The code of ADD, SUB, AND, OR and XOR of src/backend/ana_lowerer.cpp computes what the opcode says,
-- wherever the registers are and whichever of them are the same.
use anastasia.Base.{
  ℕ, ◌^◌, ◌<◌, ◌≡◌, ◌⊎◌, inl, inr, refl, ◌∙◌, Bool, true, false, [], ◌++◌, ◌==◌, if◌then◌else◌,
  arith, Bool-cases, not, ◌&&◌,
}
use anastasia.Ast.{Register, Operand, Instruction}
use anastasia.RegAlloc.{AnaRegAlloc}
use anastasia.RegAlloc.Layout.{Entity, Live}
use anastasia.RegAlloc.Contract.{IsLayout, IsSaved}
use anastasia.Encoder.Integer.{mov_reg_reg}
use anastasia.Encoder.RoundTrip.RegReg
use anastasia.Encoder.RoundTrip.RegImm
use anastasia.Lowerer.Cpu.{Cpu, set_reg}
use anastasia.Lowerer.Runs.{Computes, Computes-nil, Computes-append, Computes-mov_reg_reg}
use anastasia.Lowerer.Operands.{
  rcx, r11, is_const, const_val, reg_member, load_operand, store_operand, dst_reg,
}
use anastasia.Lowerer.Arithmetic.{wrap_i32, two_operands}
use anastasia.Lowerer.Slots.{HoldsBut, IsScratch, FrameAt, entity_of, updated, HoldsBut-set_reg}
use anastasia.Lowerer.Access.{
  IsSource, literal, in_place, value, no_entity, is_entity, Stores, load_operand-Loads,
}
use anastasia.Lowerer.Written.{store_operand-Stores, HoldsBut-dst_reg, dst_reg-lt}
use anastasia.Lowerer.Operation.{
  BinOp, reg_form, imm_form, combine, wrapped, FitsImm32, Stores-after, Stores-after_both,
  Computes-wrap_i32, combine-lt, wrapped-lt, operate,
}

module _ (a : AnaRegAlloc) (laid : IsLayout a) (base : ℕ) (fits : FrameAt a base) (ref : Cpu)
    (contents : Entity → ℕ) where
  -- From the result in the destination register on.
  pub wrap_and_store :
      (r : Register) (narrow : Bool) (v : ℕ) (c : Cpu)
      → Live a (entity_of r)
      → v < 2 ^ 64
      → HoldsBut a base ref contents (is_entity (entity_of r)) c
      → c.gpr (dst_reg a r rcx) ≡ v
      → Stores a base ref
          (updated contents (entity_of r) (wrapped narrow v))
          c
          (wrap_i32 narrow (dst_reg a r rcx) ++ store_operand a r (dst_reg a r rcx))
  wrap_and_store r narrow v c live h holds e =
      let scratch : IsScratch rcx = ground arith in
      let dst = dst_reg a r rcx in
      let where_is = dst_reg-lt a laid base fits ref contents r rcx live scratch in
      let small : dst < 16 = ground arith in
      Stores-after (Computes-wrap_i32 narrow dst v c small e) (
        store_operand-Stores a laid base fits ref contents r dst (wrapped narrow v)
          (set_reg dst (wrapped narrow v) c) live small (wrapped-lt narrow v h)
          (HoldsBut-dst_reg a laid base fits ref contents r rcx (wrapped narrow v) c live scratch
            holds)
          (ground arith))

  pub weaken :
      (skipped : Entity → Bool) (c : Cpu)
      → HoldsBut a base ref contents no_entity c
      → HoldsBut a base ref contents skipped c
  weaken skipped c h = record {
    frame = h.frame;
    words = h.words;
    holds = λ y live _. h.holds y live refl;
    outside = h.outside;
    quiet = h.quiet;
  }

  const_value : (o : Operand) → IsSource a o → is_const o ≡ true → const_val o ≡ value contents o
  const_value _ (in_place r live) l = ground arith
  const_value _ (literal v h) l = refl

  -- The copy of the second operand out of the destination's way, and the move of the first.
  place_operands :
      (r : Register) (o : Operand) (s1 s2 x y : ℕ) (c : Cpu)
      → Live a (entity_of r)
      → (s1 ≡ rcx) ⊎ IsSaved s1
      → (s2 ≡ r11) ⊎ IsSaved s2
      → HoldsBut a base ref contents no_entity c
      → c.gpr s1 ≡ x
      → c.gpr s2 ≡ y
      → let dst = dst_reg a r rcx in
        let aliased = dst == s2 && not (s2 == r11) && not (is_const o) in
        (c' : Cpu) × Computes
          ((if aliased then mov_reg_reg r11 s2 else []) ++ mov_reg_reg dst s1)
          c
          c'
        × HoldsBut a base ref contents (is_entity (entity_of r)) c'
        × (c'.gpr dst ≡ x)
        × (is_const o ≡ false → c'.gpr (if aliased then r11 else s2) ≡ y)
  place_operands r o s1 s2 x y c live at1 at2 h e1 e2 =
      let scratch : IsScratch rcx = ground arith in
      let dst = dst_reg a r rcx in
      let aliased = dst == s2 && not (s2 == r11) && not (is_const o) in
      let at_dst = dst_reg-lt a laid base fits ref contents r rcx live scratch in
      let moved : (c3 : Cpu) → Cpu = λ c3. set_reg dst (c3.gpr s1) c3 in
      elim (Bool-cases aliased) [
        | inl l ↦
            let c3 = set_reg r11 (c.gpr s2) c in
            rw l (
              moved c3,
              Computes-append (Computes-mov_reg_reg r11 s2 c (omega arith) (ground arith))
                  (Computes-mov_reg_reg dst s1 c3 (ground arith) (ground arith)),
              HoldsBut-dst_reg a laid base fits ref contents r rcx (c3.gpr s1) c3 live scratch (
                  weaken (is_entity (entity_of r)) c3 (
                    HoldsBut-set_reg a laid base fits ref contents no_entity r11 (c.gpr s2) c
                      (ground arith) h)),
              ground arith,
              λ k. ground arith,
            )
        | inr l ↦ rw l (
          moved c,
          Computes-append (Computes-nil c)
              (Computes-mov_reg_reg dst s1 c (ground arith) (ground arith)),
          HoldsBut-dst_reg a laid base fits ref contents r rcx (c.gpr s1) c live scratch
              (weaken (is_entity (entity_of r)) c h),
          ground arith,
          λ k. ground arith,
        )
      ]

  -- The loads, the copy, the operation, the wrap and the store.
  pub two_operands-Stores :
      (i : Instruction) (t : BinOp) (narrow : Bool) (r : Register) (c : Cpu)
      → reg_member i.dest ≡ r
      → Live a (entity_of r)
      → IsSource a i.src1
      → IsSource a i.src2
      → FitsImm32 i.src2
      → HoldsBut a base ref contents no_entity c
      → Stores a base ref
          (updated contents
            (entity_of r)
            (wrapped narrow (combine t (value contents i.src1) (value contents i.src2))))
          c
          (two_operands a i (RegReg.encode (reg_form t)) (RegImm.encode (imm_form t)) narrow)
  unfolding two_operands
  two_operands-Stores i t narrow r c e live ok1 ok2 fit h =
      let x = value contents i.src1 in
      let y = value contents i.src2 in
      let load2 =
        load_operand-Loads a laid base fits ref contents i.src2 r11 c (ground arith) h ok2 in
      let load1 =
        load_operand-Loads a laid base fits ref contents i.src1 rcx load2.after (ground arith)
          load2.holds ok1 in
      let s1 = (load_operand a i.src1 rcx).1 in
      let s2 = (load_operand a i.src2 r11).1 in
      let dst = dst_reg a r rcx in
      let aliased = dst == s2 && not (s2 == r11) && not (is_const i.src2) in
      let at2 = load2.reg_is in
      let kept : load1.after.gpr s2 ≡ y = load1.others s2 (ground arith) ∙ load2.value_in in
      let (c', moves, rest, in_dst, in_s2) =
        place_operands r i.src2 s1 s2 x y load1.after live load1.reg_is at2 load1.holds
          load1.value_in kept in
      let scratch : IsScratch rcx = ground arith in
      let at_dst = dst_reg-lt a laid base fits ref contents r rcx live scratch in
      let result = combine t x y in
      rw e (
        Stores-after load2.computes (
          Stores-after load1.computes (
            Stores-after_both (if aliased then mov_reg_reg r11 s2 else []) (mov_reg_reg dst s1) _
              moves
              (Stores-after
                (operate t i.src2 dst (if aliased then r11 else s2) x y c' (ground arith)
                  (ground arith) fit in_dst (const_value i.src2 ok2) in_s2)
                (wrap_and_store r narrow result (set_reg dst result c') live (combine-lt t x y)
                  (HoldsBut-dst_reg a laid base fits ref contents r rcx result c' live scratch rest)
                  (ground arith))))))
