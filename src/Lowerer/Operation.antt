-- ===== src/Lowerer/Operation.antt =====
-- The arithmetic between loads and store in src/backend/ana_lowerer.cpp: the instruction of an
-- operation in its two forms, and the sign extension of the I32 opcodes.
use Prim.Native.Nat.pow
use anastasia.Base.{
  ℕ, zero, suc, ◌+◌, ◌-◌, ◌*◌, ◌/◌, ◌%◌, ◌^◌, ◌<◌, ◌≡◌, inl, inr, refl, sym, ap, ◌∙◌, Bool, true,
  false, some, [], ◌++◌, if◌then◌else◌, arith, Bool-cases, append_assoc, subst,
}
use anastasia.Base.Words.{sign_extend32, bitwise, both, either, differ}
use anastasia.Ast.{Operand}
use anastasia.RegAlloc.{AnaRegAlloc}
use anastasia.RegAlloc.Layout.{Entity}
use anastasia.Encoder.Prefix.{Code}
use anastasia.Encoder.RoundTrip.RegReg
use anastasia.Encoder.RoundTrip.RegImm
use anastasia.Lowerer.Cpu.{Cpu, set_reg, alu}
use anastasia.Lowerer.Runs.{
  Computes, Computes-nil, set_reg_same, Computes-append, Computes-reg_reg, Computes-reg_imm,
  IsImm32,
}
use anastasia.Lowerer.Operands.{is_const, const_val}
use anastasia.Lowerer.Arithmetic.{wrap_i32}
use anastasia.Lowerer.Access.{Stores}

-- An operation, its two encoder methods and its meaning.
pub data BinOp : Type 0 where
  add sub and or xor : BinOp

abbrev pub reg_form : BinOp → RegReg.RegReg
reg_form add = RegReg.add_reg_reg
reg_form sub = RegReg.sub_reg_reg
reg_form and = RegReg.and_reg_reg
reg_form or = RegReg.or_reg_reg
reg_form xor = RegReg.xor_reg_reg

abbrev pub imm_form : BinOp → RegImm.RegImm
imm_form add = RegImm.add_reg_imm32
imm_form sub = RegImm.sub_reg_imm32
imm_form and = RegImm.and_reg_imm32
imm_form or = RegImm.or_reg_imm32
imm_form xor = RegImm.xor_reg_imm32

abbrev pub combine : BinOp → ℕ → ℕ → ℕ
combine add a b = (a + b) % 2 ^ 64
combine sub a b = (a + (2 ^ 64 - b)) % 2 ^ 64
combine and a b = bitwise both 64 a b
combine or a b = bitwise either 64 a b
combine xor a b = bitwise differ 64 a b

bitwise-lt : (f : Bool → Bool → Bool) (n a b : ℕ) → bitwise f n a b < 2 ^ n
unfolding bitwise
bitwise-lt f zero a b = omega arith
bitwise-lt f (suc n) a b =
    let e : 2 ^ suc n ≡ 2 ^ n * 2 = pow.suc 2 n in
    let half = bitwise-lt f n (a / 2) (b / 2) in rw e (ground (arith, half))

-- The result of an opcode of the I32 family is the sign extension of its low half.
abbrev pub wrapped : Bool → ℕ → ℕ
wrapped narrow v = if narrow then sign_extend32 (v % 2 ^ 32) else v

-- A constant that the instruction can hold.
abbrev pub FitsImm32 : Operand → Type 0
FitsImm32 o = is_const o ≡ true → sign_extend32 (const_val o % 2 ^ 32) ≡ const_val o

pub Stores-after :
    {a : AnaRegAlloc} {base : ℕ} {ref : Cpu} {contents : Entity → ℕ} {c c' : Cpu} {code rest : Code}
    → Computes code c c'
    → Stores a base ref contents c' rest
    → Stores a base ref contents c (code ++ rest)
Stores-after p s = record {
  after = s.after;
  computes = Computes-append p s.computes;
  holds = s.holds;
}

pub Stores-after_both :
    {a : AnaRegAlloc} {base : ℕ} {ref : Cpu} {contents : Entity → ℕ} {c c' : Cpu} (x y rest : Code)
    → Computes (x ++ y) c c'
    → Stores a base ref contents c' rest
    → Stores a base ref contents c (x ++ (y ++ rest))
Stores-after_both x y rest p s = rw⁻¹ (append_assoc x y rest) (Stores-after p s)

pub Computes-wrap_i32 :
    (narrow : Bool) (dst v : ℕ) (c : Cpu)
    → dst < 16
    → c.gpr dst ≡ v
    → Computes (wrap_i32 narrow dst) c (set_reg dst (wrapped narrow v) c)
unfolding alu
Computes-wrap_i32 true dst v c h e =
    Computes-reg_reg RegReg.movsxd_reg_reg dst dst (sign_extend32 (v % 2 ^ 32)) c h h tt refl
      (rw e refl)
Computes-wrap_i32 false dst v c h e =
    subst (λ c'. Computes [] c c') (sym (set_reg_same dst c) ∙ ap (λ w. set_reg dst w c) e)
      (Computes-nil c)

combine-alu :
    (t : BinOp) (a b : ℕ)
    → (alu (RegReg.mnemonic (reg_form t)) a b ≡ some (combine t a b))
      × (alu (RegImm.mnemonic (imm_form t)) a b ≡ some (combine t a b))
unfolding alu
combine-alu add a b = (refl, refl)
combine-alu sub a b = (refl, refl)
combine-alu and a b = (refl, refl)
combine-alu or a b = (refl, refl)
combine-alu xor a b = (refl, refl)

forms :
    (t : BinOp) (dst src : ℕ)
    → RegReg.Writes (reg_form t) dst src
      × (RegReg.is_wide (reg_form t) ≡ true)
      × IsImm32 (imm_form t)
forms add dst src = (tt, refl, IsImm32.add)
forms sub dst src = (tt, refl, IsImm32.sub)
forms and dst src = (tt, refl, IsImm32.and)
forms or dst src = (tt, refl, IsImm32.or)
forms xor dst src = (tt, refl, IsImm32.xor)

pub combine-lt : (t : BinOp) (a b : ℕ) → combine t a b < 2 ^ 64
combine-lt add a b = omega arith
combine-lt sub a b = omega arith
combine-lt and a b = bitwise-lt both 64 a b
combine-lt or a b = bitwise-lt either 64 a b
combine-lt xor a b = bitwise-lt differ 64 a b

pub wrapped-lt : (narrow : Bool) (v : ℕ) → v < 2 ^ 64 → wrapped narrow v < 2 ^ 64
wrapped-lt true v h = ground arith
wrapped-lt false v h = h

-- The instruction itself, in the form that the kind of the second operand selects.
pub operate :
    (t : BinOp) (o : Operand) (dst src x y : ℕ) (c : Cpu)
    → dst < 16
    → src < 16
    → FitsImm32 o
    → c.gpr dst ≡ x
    → (is_const o ≡ true → const_val o ≡ y)
    → (is_const o ≡ false → c.gpr src ≡ y)
    → Computes
        (if is_const o
          then RegImm.encode (imm_form t) dst (const_val o % 2 ^ 32)
          else RegReg.encode (reg_form t) dst src)
        c
        (set_reg dst (combine t x y) c)
operate t o dst src x y c h k fit e const other = elim (Bool-cases (is_const o)) [
  | inl l ↦ rw l (
      Computes-reg_imm (imm_form t) dst (const_val o % 2 ^ 32) (combine t x y) c (forms t dst src).2
        h (omega arith) (rw (fit l, e, const l) (combine-alu t x y).1))
  | inr l ↦ rw l (
      Computes-reg_reg (reg_form t) dst src (combine t x y) c h k (forms t dst src).0
        (forms t dst src).1 (rw (e, other l) (combine-alu t x y).0))
]
