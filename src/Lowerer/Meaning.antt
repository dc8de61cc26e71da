-- ===== src/Lowerer/Meaning.antt =====
-- What the arithmetic opcodes and moves mean, on 64-bit words, and that the code which
-- src/backend/ana_lowerer.cpp writes for one of them computes it. The I32 opcodes give the sign
-- extension of a 32-bit result, but for AND, OR and XOR, which combine all 64 bits at both widths.
-- NEG_I32 has no meaning here: its code negates 64 bits, and nothing of 32 bits.
use anastasia.Base.{
  ℕ, ◌+◌, ◌-◌, ◌*◌, ◌%◌, ◌^◌, ◌<◌, ◌≡◌, refl, ap, Bool, true, false, Option, none, some, arith,
  subst,
}
use anastasia.Base.Words.{sign_extend32, bitwise, both, either, differ}
use anastasia.Ast.{Opcode, Register, Operand, register, Instruction, const_int}
use anastasia.RegAlloc.{AnaRegAlloc}
use anastasia.RegAlloc.Layout.{Entity, Live}
use anastasia.RegAlloc.Contract.{IsLayout}
use anastasia.Lowerer.Cpu.{Cpu}
use anastasia.Lowerer.Operands.{reg_member, is_const, is_i32_op}
use anastasia.Lowerer.Arithmetic.{
  lower_add, lower_sub, lower_and, lower_or, lower_xor, two_operands,
}
use anastasia.Lowerer.Compile.{Context, straight_line}
use anastasia.Lowerer.Slots.{HoldsBut, FrameAt, entity_of, updated}
use anastasia.Lowerer.Access.{IsSource, literal, in_place, value, no_entity, Stores}
use anastasia.Lowerer.Operation.{BinOp, FitsImm32, wrapped, combine, reg_form, imm_form}
use anastasia.Encoder.RoundTrip.RegReg
use anastasia.Encoder.RoundTrip.RegImm
use anastasia.Lowerer.TwoOperands.{two_operands-Stores}
use anastasia.Lowerer.Moves.{
  lower_move-Stores, lower_move_const-Stores, lower_neg-Stores, lower_mul-Stores,
}

abbrev wrap32 : ℕ → ℕ
wrap32 v = sign_extend32 (v % 2 ^ 32)

-- The opcodes with a meaning here, on the values of the two sources; NEG and the moves read the
-- first.
unfoldable pub meaning : Opcode → Option (ℕ → ℕ → ℕ)
meaning Opcode.add_i64 = some λ x y. (x + y) % 2 ^ 64
meaning Opcode.sub_i64 = some λ x y. (x + (2 ^ 64 - y)) % 2 ^ 64
meaning Opcode.mul_i64 = some λ x y. x * y % 2 ^ 64
meaning Opcode.neg_i64 = some λ x y. (2 ^ 64 - x) % 2 ^ 64
meaning Opcode.add_i32 = some λ x y. wrap32 (x + y)
meaning Opcode.sub_i32 = some λ x y. wrap32 (x + (2 ^ 64 - y))
meaning Opcode.mul_i32 = some λ x y. wrap32 (x * y)
meaning Opcode.and_i64 = some λ x y. bitwise both 64 x y
meaning Opcode.and_i32 = some λ x y. bitwise both 64 x y
meaning Opcode.or_i64 = some λ x y. bitwise either 64 x y
meaning Opcode.or_i32 = some λ x y. bitwise either 64 x y
meaning Opcode.xor_i64 = some λ x y. bitwise differ 64 x y
meaning Opcode.xor_i32 = some λ x y. bitwise differ 64 x y
meaning Opcode.move = some λ x y. x
meaning Opcode.move_const = some λ x y. x
meaning _ = none

abbrev pub has_meaning : Option (ℕ → ℕ → ℕ) → Bool
has_meaning none = false
has_meaning (some f) = true

abbrev pub denoted : Option (ℕ → ℕ → ℕ) → ℕ → ℕ → ℕ
denoted none x y = 0
denoted (some f) x y = f x y

abbrev pub reads_two : Opcode → Bool
reads_two Opcode.neg_i64 = false
reads_two Opcode.move = false
reads_two Opcode.move_const = false
reads_two _ = true

-- The opcodes that write a constant second source as a 32-bit immediate.
abbrev pub takes_imm32 : Opcode → Bool
takes_imm32 Opcode.add_i64 = true
takes_imm32 Opcode.sub_i64 = true
takes_imm32 Opcode.add_i32 = true
takes_imm32 Opcode.sub_i32 = true
takes_imm32 Opcode.and_i64 = true
takes_imm32 Opcode.or_i64 = true
takes_imm32 Opcode.xor_i64 = true
takes_imm32 Opcode.and_i32 = true
takes_imm32 Opcode.or_i32 = true
takes_imm32 Opcode.xor_i32 = true
takes_imm32 _ = false

-- The opcode has a meaning, the destination is a register of the function, the sources are such
-- registers or constants, and a constant second source of ADD, SUB, AND, OR and XOR fits an
-- `int32_t`. MOVE_CONST has a constant.
pub record Ready (a : AnaRegAlloc) (i : Instruction) : Type 0 where
  pub dest : Register
  pub dest_is : i.dest ≡ register dest
  pub live : Live a (entity_of dest)
  pub first : IsSource a i.src1
  pub second : reads_two i.op ≡ true → IsSource a i.src2
  pub fit : takes_imm32 i.op ≡ true → FitsImm32 i.src2
  pub known : has_meaning (meaning i.op) ≡ true
  pub literal_first : i.op ≡ Opcode.move_const → is_const i.src1 ≡ true

wrap_mod : (v : ℕ) → sign_extend32 (v % 2 ^ 64 % 2 ^ 32) ≡ wrap32 v
wrap_mod v = let e : v % 2 ^ 64 % 2 ^ 32 ≡ v % 2 ^ 32 = omega arith in ap sign_extend32 e

module _ (k : Context) (laid : IsLayout k.regalloc) (base : ℕ) (fits : FrameAt k.regalloc base)
    (ref : Cpu) (contents : Entity → ℕ) where
  abbrev Result : Opcode → Instruction → Register → ℕ → Cpu → Type 0
  Result op i r v c =
      Stores k.regalloc base ref (updated contents (entity_of r) v) c (straight_line k op i)

  dest_member : (i : Instruction) (ready : Ready k.regalloc i) → reg_member i.dest ≡ ready.dest
  dest_member i ready = rw ready.dest_is refl

  stores_at :
      (op : Opcode) (i : Instruction) (r : Register) (v w : ℕ) (c : Cpu)
      → v ≡ w
      → Result op i r v c
      → Result op i r w c
  stores_at op i r v w c e s = subst (λ u. Result op i r u c) e s

  literal_source :
      (o : Operand)
      → IsSource k.regalloc o
      → is_const o ≡ true
      → (v : ℕ) × (o ≡ const_int v) × (v < 2 ^ 64)
  literal_source _ (literal v h) e = (v, refl, h)
  literal_source _ (in_place r live) e = ground arith

  -- ADD, SUB, AND, OR and XOR.
  binary :
      (t : BinOp) (i : Instruction) (narrow : Bool) (v : ℕ) (c : Cpu)
      → (ready : Ready k.regalloc i) → reads_two i.op ≡ true
      → takes_imm32 i.op ≡ true
      → HoldsBut k.regalloc base ref contents no_entity c
      → wrapped narrow (combine t (value contents i.src1) (value contents i.src2)) ≡ v
      → Stores k.regalloc base ref (updated contents (entity_of ready.dest) v) c (
          two_operands k.regalloc i
            (RegReg.encode (reg_form t))
            (RegImm.encode (imm_form t))
            narrow)
  binary t i narrow v c ready two imm h e =
      subst
        (λ u. Stores k.regalloc base ref (updated contents (entity_of ready.dest) u) c (
          two_operands k.regalloc i (RegReg.encode (reg_form t)) (RegImm.encode (imm_form t))
            narrow))
        e
        (two_operands-Stores k.regalloc laid base fits ref contents i t narrow ready.dest c
          (dest_member i ready) ready.live ready.first (ready.second two) (ready.fit imm) h)

  straight_line_op :
      (op : Opcode) (i : Instruction) (c : Cpu)
      → i.op ≡ op
      → has_meaning (meaning op) ≡ true
      → (ready : Ready k.regalloc i) → HoldsBut k.regalloc base ref contents no_entity c
      → Result op i ready.dest
          (denoted (meaning op) (value contents i.src1) (value contents i.src2))
          c
  unfolding meaning straight_line lower_add lower_sub lower_and lower_or lower_xor
  straight_line_op Opcode.add_i64 i c o e ready h =
      binary BinOp.add i (is_i32_op i.op) _ c ready (rw o refl) (rw o refl) h (rw o refl)
  straight_line_op Opcode.sub_i64 i c o e ready h =
      binary BinOp.sub i (is_i32_op i.op) _ c ready (rw o refl) (rw o refl) h (rw o refl)
  straight_line_op Opcode.add_i32 i c o e ready h =
      binary BinOp.add i (is_i32_op i.op) _ c ready (rw o refl) (rw o refl) h (rw o (wrap_mod _))
  straight_line_op Opcode.sub_i32 i c o e ready h =
      binary BinOp.sub i (is_i32_op i.op) _ c ready (rw o refl) (rw o refl) h (rw o (wrap_mod _))
  straight_line_op Opcode.and_i64 i c o e ready h =
      binary BinOp.and i false _ c ready (rw o refl) (rw o refl) h refl
  straight_line_op Opcode.and_i32 i c o e ready h =
      binary BinOp.and i false _ c ready (rw o refl) (rw o refl) h refl
  straight_line_op Opcode.or_i64 i c o e ready h =
      binary BinOp.or i false _ c ready (rw o refl) (rw o refl) h refl
  straight_line_op Opcode.or_i32 i c o e ready h =
      binary BinOp.or i false _ c ready (rw o refl) (rw o refl) h refl
  straight_line_op Opcode.xor_i64 i c o e ready h =
      binary BinOp.xor i false _ c ready (rw o refl) (rw o refl) h refl
  straight_line_op Opcode.xor_i32 i c o e ready h =
      binary BinOp.xor i false _ c ready (rw o refl) (rw o refl) h refl
  straight_line_op Opcode.mul_i64 i c o e ready h =
      stores_at Opcode.mul_i64 i ready.dest _ _ c (rw o refl) (
        lower_mul-Stores k.regalloc laid base fits ref contents i ready.dest c (dest_member i ready)
          ready.live ready.first (ready.second (rw o refl)) h)
  straight_line_op Opcode.mul_i32 i c o e ready h =
      stores_at Opcode.mul_i32 i ready.dest _ _ c (rw o (wrap_mod _)) (
        lower_mul-Stores k.regalloc laid base fits ref contents i ready.dest c (dest_member i ready)
          ready.live ready.first (ready.second (rw o refl)) h)
  straight_line_op Opcode.neg_i64 i c o e ready h =
      stores_at Opcode.neg_i64 i ready.dest _ _ c (rw o refl) (
        lower_neg-Stores k.regalloc laid base fits ref contents i ready.dest c (dest_member i ready)
          ready.live ready.first h)
  straight_line_op Opcode.move i c o e ready h =
      lower_move-Stores k.regalloc laid base fits ref contents i ready.dest c (dest_member i ready)
        ready.live ready.first h
  straight_line_op Opcode.move_const i c o e ready h =
      let (v, is_v, small) = literal_source i.src1 ready.first (ready.literal_first o) in
      stores_at Opcode.move_const i ready.dest v _ c (rw is_v refl) (
        lower_move_const-Stores k.regalloc laid base fits ref contents i ready.dest v c
          (dest_member i ready) is_v ready.live small h)
  straight_line_op _ i c o e ready h = ground arith

  -- The code of one instruction gives its destination the value that the opcode means, and leaves
  -- every other place alone.
  pub straight_line-Stores :
      (i : Instruction) (c : Cpu)
      → Ready k.regalloc i
      → HoldsBut k.regalloc base ref contents no_entity c
      → Stores k.regalloc base ref
          (updated contents
            (entity_of (reg_member i.dest))
            (denoted (meaning i.op) (value contents i.src1) (value contents i.src2)))
          c
          (straight_line k i.op i)
  straight_line-Stores i c ready h =
      rw (dest_member i ready) (straight_line_op i.op i c refl ready.known ready h)
