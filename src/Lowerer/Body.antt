-- ===== src/Lowerer/Body.antt =====
-- The instructions of a block in order, under src/backend/ana_lowerer.cpp, and the return behind
-- them.
use anastasia.Base.{
  ℕ, ◌+◌, ◌%◌, ◌^◌, ◌≤◌, ◌<◌, ◌≡◌, ◌≢◌, ◌⊎◌, refl, ap, ◌∙◌, true, false, some, List, [], ◌∷◌, ◌++◌,
  arith, if◌then◌else◌,
}
use anastasia.Base.Lists.{All}
use anastasia.Ast.{Register, RegisterType, Instruction, Operand}
use anastasia.RegAlloc.{AnaRegAlloc, saved_reg}
use anastasia.RegAlloc.Layout.{Entity}
use anastasia.RegAlloc.Contract.{IsLayout}
use anastasia.Encoder.Prefix.{Code, bytes}
use anastasia.Encoder.Integer.{mov_reg_reg}
use anastasia.Encoder.System.{ret, pop_reg}
use anastasia.Lowerer.Cpu.{Cpu, set_reg, pop_word, run, load64}
use anastasia.Lowerer.Runs.{
  Computes, Computes-nil, Computes-append, Computes-move_if_other, Computes-mov_reg_reg, run-add,
  bytes_append,
}
use anastasia.Lowerer.Operands.{rax, rsp, rbp, reg_member, load_operand}
use anastasia.Lowerer.Frame.{lower_return_val, epilogue, restore_from}
use anastasia.Lowerer.Compile.{Context, straight_line}
use anastasia.Lowerer.Slots.{
  HoldsBut, FrameAt, IsQuiet, entity_of, same_entity, updated, HoldsBut-set_reg,
}
use anastasia.Lowerer.Access.{IsSource, value, no_entity, Stores, load_operand-Loads}
use anastasia.Lowerer.Operation.{Stores-after}
use anastasia.Lowerer.TwoOperands.{weaken}
use anastasia.Lowerer.Meaning.{Ready, meaning, denoted, straight_line-Stores}
use anastasia.Lowerer.Exit.{is_local, Restored, restore_from-Restores, Computes-pop_rbp}

-- The code of instructions that use no label.
unfoldable pub block_code : Context → List Instruction → Code
block_code k [] = []
block_code k (i ∷ is) = straight_line k i.op i ++ block_code k is

-- What the instructions mean for the contents of the registers.
unfoldable pub outcome : List Instruction → (Entity → ℕ) → Entity → ℕ
outcome [] f = f
outcome (i ∷ is) f = outcome is (
    updated f (entity_of (reg_member i.dest))
      (denoted (meaning i.op) (value f i.src1) (value f i.src2)))

not_preserved : (r : Register) (j : ℕ) → same_entity (Entity.preserved j) (entity_of r) ≡ false
not_preserved r j = typed r.type r.index
  where
    typed :
        (t : RegisterType) (i : ℕ)
        → same_entity (Entity.preserved j) (entity_of (record { type = t; index = i })) ≡ false
    typed RegisterType.untyped i = refl
    typed RegisterType.param i = refl
    typed RegisterType.local i = refl

-- No instruction writes a saved register of the caller.
pub outcome_preserved :
    (is : List Instruction) (f : Entity → ℕ) (j : ℕ)
    → outcome is f (Entity.preserved j) ≡ f (Entity.preserved j)
unfolding outcome
outcome_preserved [] f j = refl
outcome_preserved (i ∷ is) f j =
    outcome_preserved is _ j ∙ rw (not_preserved (reg_member i.dest) j) refl

-- The code reaches `left` in its own text.
pub record Reaches (code : Code) (c : Cpu) (left : Code) (c' : Cpu) : Type 0 where
  pub steps : ℕ
  pub runs : (rest : List ℕ) → run steps (bytes code ++ rest, c) ≡ some (bytes left ++ rest, c')

pub Reaches-append :
    {x y left : Code} {a b c : Cpu}
    → Computes x a b
    → Reaches y b left c
    → Reaches (x ++ y) a left c
Reaches-append {x} {y} p q = record {
  steps = p.steps + q.steps;
  runs = λ rest.
      rw (bytes_append x y rest, run-add p.steps q.steps, p.runs (bytes y ++ rest)) (q.runs rest);
}

Reaches-left : {x : Code} (left : Code) {a b : Cpu} → Computes x a b → Reaches (x ++ left) a left b
Reaches-left {x} left p = record {
  steps = p.steps;
  runs = λ rest. rw (bytes_append x left rest) (p.runs (bytes left ++ rest));
}

epilogue_framed :
    (a : AnaRegAlloc)
    → a.requires_frame ≡ true
    → epilogue a ≡ (restore_from a.saved_reg_count 0 ++ (mov_reg_reg rsp rbp ++ pop_reg rbp)) ++ ret
unfolding epilogue
epilogue_framed a e =
    ap
      (λ b.
        (if b then restore_from a.saved_reg_count 0 ++ (mov_reg_reg rsp rbp ++ pop_reg rbp) else [])
        ++ ret)
      e

module _ (k : Context) (laid : IsLayout k.regalloc) (base : ℕ) (fits : FrameAt k.regalloc base)
    (ref : Cpu) where
  abbrev a : AnaRegAlloc
  a = k.regalloc

  pub block_code-Stores :
      (is : List Instruction) (contents : Entity → ℕ) (c : Cpu)
      → All (Ready a) is
      → HoldsBut a base ref contents no_entity c
      → Stores a base ref (outcome is contents) c (block_code k is)
  unfolding block_code outcome
  block_code-Stores [] contents c ready h = record {
    after = c;
    computes = Computes-nil c;
    holds = h;
  }
  block_code-Stores (i ∷ is) contents c ready h =
      let one = straight_line-Stores k laid base fits ref contents i c ready.0 h in
      Stores-after one.computes (block_code-Stores is _ one.after ready.1 one.holds)

  -- The registers when the epilogue has run, up to its RET.
  pub record Left (contents : Entity → ℕ) (v : ℕ) (code : Code) (c : Cpu) : Type 0 where
    pub after : Cpu
    pub reaches : Reaches code c ret after
    pub result : after.gpr rax ≡ v
    pub stack : after.gpr rsp ≡ (base + 8) % 2 ^ 64
    pub link : after.gpr rbp ≡ load64 after.memory base
    pub back :
        (j : ℕ) → j < a.saved_reg_count → after.gpr (saved_reg j) ≡ contents (Entity.preserved j)
    pub calm : (r : ℕ) → IsQuiet a r → r ≢ rsp → after.gpr r ≡ ref.gpr r
    pub outside :
        (x : ℕ)
        → x < 2 ^ 64
        → (x + a.stack_frame_size < base) ⊎ (base ≤ x)
        → after.memory x ≡ ref.memory x

  pub lower_return_val-Left :
      (src : Operand) (contents : Entity → ℕ) (c : Cpu)
      → a.requires_frame ≡ true
      → IsSource a src
      → HoldsBut a base ref contents no_entity c
      → Left contents (value contents src) (lower_return_val a src) c
  unfolding lower_return_val
  lower_return_val-Left src contents c framed ok h =
      let load = load_operand-Loads a laid base fits ref contents src rax c (ground arith) h ok in
      let at = load.reg_is in
      let s = (load_operand a src rax).1 in
      let v = value contents src in
      let c1 = set_reg rax (load.after.gpr s) load.after in
      let holds1 =
        HoldsBut-set_reg a laid base fits ref contents no_entity rax (load.after.gpr s) load.after
          (ground arith) load.holds in
      let start : Restored a laid base fits ref contents v 0 c1 = record {
        holds = weaken a laid base fits ref contents is_local c1 holds1;
        back = λ j h. absurd (omega arith);
        result = ground (arith, load.value_in);
      } in
      let all =
        restore_from-Restores a laid base fits ref contents v a.saved_reg_count 0 a.saved_reg_count
          c1 (omega arith) refl start in
      let done = all.restored in
      let c2 = set_reg rsp (all.after.gpr rbp) all.after in
      let c3 = pop_word rbp c2 in
      let few = laid.saved_few in
      rw (epilogue_framed a framed) (record {
        after = c3;
        reaches = Reaches-append load.computes (
            Reaches-append (Computes-move_if_other rax s load.after (omega arith) (ground arith)) (
              Reaches-left ret (
                Computes-append all.computes (
                  Computes-append
                    (Computes-mov_reg_reg rsp rbp all.after (omega arith) (omega arith))
                    (Computes-pop_rbp c2)))));
        result = done.result;
        stack = ap (λ z. (z + 8) % 2 ^ 64) done.holds.frame;
        link = ap (load64 all.after.memory) done.holds.frame;
        back = λ j h. ground (arith, done.back j h);
        calm = λ r q n. ground (arith, done.holds.quiet r q);
        outside = done.holds.outside;
      })
