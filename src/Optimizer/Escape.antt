-- ===== src/Optimizer/Escape.antt =====
-- `run_escape_analysis` of src/optimizer/ana_ssa.cpp looks at the function while it changes it, and yet
-- decides as if it looked at the function it was given.
use anastasia.Base.{
  ◌≡◌, refl, sym, ap, ◌∙◌, true, false, not, ◌&&◌, ◌||◌, inl, inr, List, [], ◌∷◌, if◌then◌else◌,
  Bool-cases, arith,
}
use anastasia.Ast.{Opcode, Operand, Instruction, BasicBlock}
use anastasia.Optimizer.Pass.{AnaSsaIr}
use anastasia.Optimizer.Scalars.{
  is_new_instance, escape_op, escapes_insns, escapes_blocks, escape_insns, escape_blocks,
  run_escape_analysis,
}
use anastasia.Optimizer.Lengths.{to_move_const}

-- What becomes of an instruction of the function `fn`, given only what `fn` was at first.
abbrev pub scalar : List BasicBlock → Instruction → Instruction
scalar fn i =
    if is_new_instance i.op && not (escapes_blocks i.dest fn) then to_move_const 0 i else i

unfoldable pub scalar_insns : List BasicBlock → List Instruction → List Instruction
scalar_insns fn [] = []
scalar_insns fn (i ∷ is) = scalar fn i ∷ scalar_insns fn is

unfoldable pub scalar_blocks : List BasicBlock → List BasicBlock → List BasicBlock
scalar_blocks fn [] = []
scalar_blocks fn (b ∷ bs) = record b { insns = scalar_insns fn b.insns } ∷ scalar_blocks fn bs

-- Two functions in which the analysis finds the same registers to escape.
abbrev Alike : List BasicBlock → List BasicBlock → Type 0
Alike as' bs = (o : Operand) → escapes_blocks o as' ≡ escapes_blocks o bs

escape_op-new :
    (op : Opcode) (o : Operand) (i : Instruction)
    → is_new_instance op ≡ true
    → escape_op op o i ≡ false
escape_op-new op o i h = ground arith

escape_op-scalar :
    (fn : List BasicBlock) (o : Operand) (i : Instruction)
    → escape_op (scalar fn i).op o (scalar fn i) ≡ escape_op i.op o i
escape_op-scalar fn o i =
    elim (Bool-cases (is_new_instance i.op && not (escapes_blocks i.dest fn))) [
      | inl e ↦ rw e (sym (escape_op-new i.op o i (ground arith)))
      | inr e ↦ rw e refl
    ]

escapes_insns-scalar_insns :
    (fn : List BasicBlock) (o : Operand) (is : List Instruction)
    → escapes_insns o (scalar_insns fn is) ≡ escapes_insns o is
unfolding escapes_insns scalar_insns
escapes_insns-scalar_insns fn o [] = refl
escapes_insns-scalar_insns fn o (i ∷ is) =
    rw (escape_op-scalar fn o i, escapes_insns-scalar_insns fn o is) refl

-- Instructions in which the same registers escape stand for each other.
abbrev Respects : (List Instruction → List BasicBlock) → Type 0
Respects whole =
    (js ks : List Instruction)
    → ((o : Operand) → escapes_insns o js ≡ escapes_insns o ks)
    → Alike (whole js) (whole ks)

escape_insns-scalar_insns :
    (fn : List BasicBlock) (whole : List Instruction → List BasicBlock)
    → (c : AnaSsaIr) (is : List Instruction) → Respects whole
    → Alike (whole is) fn
    → (escape_insns whole c is).2 ≡ scalar_insns fn is
unfolding escape_insns scalar_insns escapes_insns
escape_insns-scalar_insns fn whole c [] resp alike = refl
escape_insns-scalar_insns fn whole c (i ∷ is) resp alike = rw (alike i.dest) (
    ap (λ js. scalar fn i ∷ js)
      (escape_insns-scalar_insns fn (λ js. whole (scalar fn i ∷ js)) _ is
        (λ js ks same.
          resp _ _ (λ o. ap (λ b. escape_op (scalar fn i).op o (scalar fn i) || b) (same o)))
        (λ o.
          resp _ _ (λ p. ap (λ b. b || escapes_insns p is) (escape_op-scalar fn p i)) o ∙ alike o)))

escape_blocks-scalar_blocks :
    (fn : List BasicBlock) (before : List BasicBlock → List BasicBlock)
    → (c : AnaSsaIr) (bs : List BasicBlock)
    → ((cs ds : List BasicBlock) → Alike cs ds → Alike (before cs) (before ds))
    → Alike (before bs) fn
    → (escape_blocks before c bs).2 ≡ scalar_blocks fn bs
unfolding escape_blocks scalar_blocks escapes_blocks
escape_blocks-scalar_blocks fn before c [] resp alike = refl
escape_blocks-scalar_blocks fn before c (b ∷ bs) resp alike =
    let here =
      escape_insns-scalar_insns fn (λ is. before (record b { insns = is } ∷ bs)) c b.insns
        (λ js ks same. resp _ _ (λ o. ap (λ t. t || escapes_blocks o bs) (same o))) alike in
    rw here (
      ap (λ cs. record b { insns = scalar_insns fn b.insns } ∷ cs)
        (escape_blocks-scalar_blocks fn
          (λ cs. before (record b { insns = scalar_insns fn b.insns } ∷ cs)) _ bs
          (λ cs ds same.
            resp _ _ (λ o. ap (λ t. escapes_insns o (scalar_insns fn b.insns) || t) (same o)))
          (λ o.
            resp _ _
              (λ p. ap (λ t. t || escapes_blocks p bs) (escapes_insns-scalar_insns fn p b.insns)) o
            ∙ alike o)))

pub escape_analysis-scalar_blocks :
    (c : AnaSsaIr) (bs : List BasicBlock) → (run_escape_analysis c bs).2 ≡ scalar_blocks bs bs
unfolding run_escape_analysis
escape_analysis-scalar_blocks c bs =
    escape_blocks-scalar_blocks bs (λ cs. cs) c bs (λ cs ds same. same) (λ o. refl)
