-- ===== src/Optimizer/Escaping.antt =====
-- Which objects `run_escape_analysis` of src/optimizer/ana_ssa.cpp replaces by a constant.
use anastasia.Base.{◌≡◌, refl, ap, true, ◌≢◌, ◌⊎◌, inl, inr, List, [], ◌∷◌, Bool-cases, arith}
use anastasia.Ast.{
  Opcode, Register, Operand, absent, register, const_int, mem_offset, Instruction, BasicBlock,
}
use anastasia.Optimizer.Pass.{AnaSsaIr, same_operand_register}
use anastasia.Optimizer.Semantics.{same_register-≡, same_register_refl}
use anastasia.Optimizer.Scalars.{
  is_new_instance, escape_op, escapes_insns, escapes_blocks, run_escape_analysis,
}
use anastasia.Optimizer.Escape.{scalar, scalar_insns, scalar_blocks, escape_analysis-scalar_blocks}

-- Of some member.
abbrev Any : {A : Type 0} → (A → Type 0) → List A → Type 0
Any P [] = ⊥
Any P (x ∷ xs) = P x ⊎ Any P xs

-- The instruction is a RETURN_VAL into the register, or a STORE_MEM of it.
abbrev GivesAway : Register → Instruction → Type 0
GivesAway r i =
    ((i.op ≡ Opcode.return_val) × (i.dest ≡ register r))
    ⊎ ((i.op ≡ Opcode.store_mem) × (i.src1 ≡ register r))

abbrev pub Escaping : Register → List BasicBlock → Type 0
Escaping r fn = Any (λ b. Any (GivesAway r) b.insns) fn

-- What becomes of an instruction of the function `fn`.
pub data Becomes (fn : List BasicBlock) (i : Instruction) : Instruction → Type 0 where
  replaced :
      i.op ≡ Opcode.new_instance
      → ((r : Register) → i.dest ≡ register r → ¬ Escaping r fn)
      → Becomes fn i (record i { op = Opcode.move_const; src1 = const_int 0 })
  escaping :
      (r : Register)
      → i.op ≡ Opcode.new_instance
      → i.dest ≡ register r
      → Escaping r fn
      → Becomes fn i i
  other : i.op ≢ Opcode.new_instance → Becomes fn i i

abbrev InsnsBecome : List BasicBlock → List Instruction → List Instruction → Type 0
InsnsBecome fn [] [] = Unit
InsnsBecome fn (i ∷ is) (j ∷ js) = Becomes fn i j × InsnsBecome fn is js
InsnsBecome fn [] (j ∷ js) = ⊥
InsnsBecome fn (i ∷ is) [] = ⊥

abbrev pub BlocksBecome : List BasicBlock → List BasicBlock → List BasicBlock → Type 0
BlocksBecome fn [] [] = Unit
BlocksBecome fn (b ∷ bs) (c ∷ cs) =
    (c.label ≡ b.label) × InsnsBecome fn b.insns c.insns × BlocksBecome fn bs cs
BlocksBecome fn [] (c ∷ cs) = ⊥
BlocksBecome fn (b ∷ bs) [] = ⊥

same_operand_lem :
    (a b : Operand)
    → same_operand_register a b ≡ true
    → (r : Register) × (b ≡ register r) × (a ≡ register r)
same_operand_lem (register a) (register b) h = (b, refl, ap register (same_register-≡ a b h))
same_operand_lem (register a) absent h = absurd (cc)
same_operand_lem (register a) (const_int v) h = absurd (cc)
same_operand_lem (register a) (mem_offset s v) h = absurd (cc)
same_operand_lem absent b h = absurd (cc)
same_operand_lem (const_int v) b h = absurd (cc)
same_operand_lem (mem_offset s v) b h = absurd (cc)

-- The analysis finds a register to escape.
abbrev Given : Operand → Instruction → Type 0
Given o i = (r : Register) × (o ≡ register r) × GivesAway r i

escape_op-Given :
    (op : Opcode) (o : Operand) (i : Instruction) → i.op ≡ op → escape_op op o i ≡ true → Given o i
escape_op-Given Opcode.return_val o i e h =
    let (r, is, at_r) = same_operand_lem i.dest o h in (r, is, inl (e, at_r))
escape_op-Given Opcode.store_mem o i e h =
    let (r, is, at_r) = same_operand_lem i.src1 o h in (r, is, inr (e, at_r))
escape_op-Given _ o i e h = absurd (cc)

escapes_insns-Any :
    (o : Operand) (is : List Instruction)
    → escapes_insns o is ≡ true
    → (r : Register) × (o ≡ register r) × Any (GivesAway r) is
unfolding escapes_insns
escapes_insns-Any o [] h = absurd (cc)
escapes_insns-Any o (i ∷ is) h = elim (Bool-cases (escape_op i.op o i)) [
  | inl e ↦ let (r, at_r, g) = escape_op-Given i.op o i refl e in (r, at_r, inl g)
  | inr e ↦ let (r, at_r, g) = escapes_insns-Any o is (ground arith) in (r, at_r, inr g)
]

escapes_blocks-Escaping :
    (o : Operand) (bs : List BasicBlock)
    → escapes_blocks o bs ≡ true
    → (r : Register) × (o ≡ register r) × Escaping r bs
unfolding escapes_blocks
escapes_blocks-Escaping o [] h = absurd (cc)
escapes_blocks-Escaping o (b ∷ bs) h = elim (Bool-cases (escapes_insns o b.insns)) [
  | inl e ↦ let (r, at_r, g) = escapes_insns-Any o b.insns e in (r, at_r, inl g)
  | inr e ↦ let (r, at_r, g) = escapes_blocks-Escaping o bs (ground arith) in (r, at_r, inr g)
]

GivesAway-escape_op :
    (r : Register) (i : Instruction) → GivesAway r i → escape_op i.op (register r) i ≡ true
GivesAway-escape_op r i (inl (e, h)) = rw (e, h) (same_register_refl r)
GivesAway-escape_op r i (inr (e, h)) = rw (e, h) (same_register_refl r)

Any-escapes_insns :
    (r : Register) (is : List Instruction)
    → Any (GivesAway r) is
    → escapes_insns (register r) is ≡ true
unfolding escapes_insns
Any-escapes_insns r [] h = absurd h
Any-escapes_insns r (i ∷ is) (inl g) = rw (GivesAway-escape_op r i g) refl
Any-escapes_insns r (i ∷ is) (inr g) = rw (Any-escapes_insns r is g) (ground arith)

Escaping-escapes_blocks :
    (r : Register) (bs : List BasicBlock) → Escaping r bs → escapes_blocks (register r) bs ≡ true
unfolding escapes_blocks
Escaping-escapes_blocks r [] h = absurd h
Escaping-escapes_blocks r (b ∷ bs) (inl g) = rw (Any-escapes_insns r b.insns g) refl
Escaping-escapes_blocks r (b ∷ bs) (inr g) = rw (Escaping-escapes_blocks r bs g) (ground arith)

is_new_lem : (op : Opcode) → is_new_instance op ≡ true → op ≡ Opcode.new_instance
is_new_lem Opcode.new_instance h = refl
is_new_lem _ h = absurd (cc)

scalar-Becomes : (fn : List BasicBlock) (i : Instruction) → Becomes fn i (scalar fn i)
scalar-Becomes fn i = elim (Bool-cases (is_new_instance i.op)) [
  | inl new ↦ elim (Bool-cases (escapes_blocks i.dest fn)) [
    | inl e ↦
        let (r, at_r, g) = escapes_blocks-Escaping i.dest fn e in
        rw (new, e) (escaping r (is_new_lem i.op new) at_r g)
    | inr e ↦
        rw (new, e)
          (replaced (is_new_lem i.op new) (λ r at_r g.
            let h : escapes_blocks i.dest fn ≡ true = rw at_r (Escaping-escapes_blocks r fn g) in
            absurd (cc)))
  ]
  | inr old ↦ rw old (other (λ e. let h : is_new_instance i.op ≡ true = rw e refl in absurd (cc)))
]

scalar_insns-Become :
    (fn : List BasicBlock) (is : List Instruction) → InsnsBecome fn is (scalar_insns fn is)
unfolding scalar_insns
scalar_insns-Become fn [] = tt
scalar_insns-Become fn (i ∷ is) = (scalar-Becomes fn i, scalar_insns-Become fn is)

scalar_blocks-Become : (fn bs : List BasicBlock) → BlocksBecome fn bs (scalar_blocks fn bs)
unfolding scalar_blocks
scalar_blocks-Become fn [] = tt
scalar_blocks-Become fn (b ∷ bs) =
    (refl, scalar_insns-Become fn b.insns, scalar_blocks-Become fn bs)

-- The analysis looks at the function while it changes it, and yet decides on each object as if it
-- looked at the function it was given. A NEW_INSTANCE becomes the constant 0 just when that function
-- has neither a RETURN_VAL with its register as the destination nor a STORE_MEM with it as the first
-- source. All other instructions, the labels, and the order of the blocks stay.
pub run_escape_analysis-Become :
    (c : AnaSsaIr) (bs : List BasicBlock) → BlocksBecome bs bs (run_escape_analysis c bs).2
run_escape_analysis-Become c bs =
    rw (escape_analysis-scalar_blocks c bs) (scalar_blocks-Become bs bs)
