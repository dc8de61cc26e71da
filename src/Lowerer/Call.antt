-- ===== src/Lowerer/Call.antt =====
-- A call of the code that src/backend/ana_lowerer.cpp writes for a function of one block without
-- branches: from the first byte to the RET.
use anastasia.Base.{ℕ, ◌^◌, ◌≤◌, ◌<◌, ◌≡◌, ◌≢◌, inl, inr, ◌∙◌, true, List, ◌++◌, arith}
use anastasia.Base.Lists.{All}
use anastasia.Ast.{Instruction, Operand}
use anastasia.RegAlloc.{saved_reg, get_param_raw_reg}
use anastasia.RegAlloc.Layout.{Entity}
use anastasia.RegAlloc.Contract.{IsLayout}
use anastasia.Encoder.Prefix.{Code}
use anastasia.Encoder.System.{ret}
use anastasia.Lowerer.Cpu.{Cpu}
use anastasia.Lowerer.Cells.{load64-store64, store64_miss, load64_congr}
use anastasia.Lowerer.Operands.{rax, rsp, rbp}
use anastasia.Lowerer.Frame.{prologue, save_params, lower_return_val}
use anastasia.Lowerer.Compile.{Context}
use anastasia.Lowerer.Slots.{IsQuiet}
use anastasia.Lowerer.Access.{IsSource, value}
use anastasia.Lowerer.Meaning.{Ready}
use anastasia.Lowerer.Entry.{entered}
use anastasia.Lowerer.Body.{
  block_code, outcome, Reaches, Reaches-append, outcome_preserved, block_code-Stores,
  lower_return_val-Left,
}
use anastasia.Lowerer.Function.{
  IsMachine, StackFits, framed, base_of, fits, found, prologue-Entered,
}

-- The code of the function: `is` and then RETURN_VAL of `src`.
unfoldable pub function_code : Context → List Instruction → Operand → Code
unfolding block_code
function_code k is src =
    (prologue k.regalloc ++ save_params k.regalloc)
    ++ (block_code k is ++ lower_return_val k.regalloc src)

-- The code reaches its RET as a function of the System V ABI does: RAX has the result that the
-- instructions give when the parameters start as the argument registers, RSP, RBP and the
-- callee-saved registers are as at the call, and so are the registers that the function does not use
-- and the memory of the caller.
pub record Returns (k : Context) (is : List Instruction) (src : Operand) (c : Cpu) : Type 0 where
  pub after : Cpu
  pub initial : Entity → ℕ
  pub reaches : Reaches (function_code k is src) c ret after
  pub arguments :
      (i : ℕ) → i < k.regalloc.param_count → initial (Entity.param i) ≡ c.gpr (get_param_raw_reg i)
  pub result : after.gpr rax ≡ value (outcome is initial) src
  pub stack : after.gpr rsp ≡ c.gpr rsp
  pub link : after.gpr rbp ≡ c.gpr rbp
  pub saved :
      (j : ℕ) → j < k.regalloc.saved_reg_count → after.gpr (saved_reg j) ≡ c.gpr (saved_reg j)
  pub unused : (r : ℕ) → IsQuiet k.regalloc r → r ≢ rsp → after.gpr r ≡ c.gpr r
  pub callers : (x : ℕ) → c.gpr rsp ≤ x → x < 2 ^ 64 → after.memory x ≡ c.memory x

pub function_code-Returns :
    (k : Context) (is : List Instruction) (src : Operand) (c : Cpu)
    → IsLayout k.regalloc
    → k.regalloc.requires_frame ≡ true
    → IsMachine c
    → StackFits k.regalloc c
    → All (Ready k.regalloc) is
    → IsSource k.regalloc src
    → Returns k is src c
unfolding function_code get_param_raw_reg
function_code-Returns k is src c laid framed_fn machine room ready ok =
    let a = k.regalloc in
    let frame_fits = fits a laid c machine room in
    let few = laid.saved_few in
    let top = machine.registers rsp in
    let enter = prologue-Entered a laid c machine room framed_fn in
    let initial =
      entered (framed a c).gpr a.saved_reg_count a.param_count (found a laid c machine room) in
    let body =
      block_code-Stores k laid (base_of c) frame_fits (framed a c) is initial enter.after ready
        enter.holds in
    let exit =
      lower_return_val-Left k laid (base_of c) frame_fits (framed a c) src (outcome is initial)
        body.after framed_fn ok body.holds in
    record {
      after = exit.after;
      initial = initial;
      reaches = Reaches-append enter.computes (Reaches-append body.computes exit.reaches);
      arguments = λ i h. ground arith;
      result = exit.result;
      stack = exit.stack ∙ omega arith;
      link =
          exit.link
          ∙ load64_congr exit.after.memory (framed a c).memory (base_of c) (omega arith)
              (λ x below above. exit.outside x below (inr above))
          ∙ load64-store64 (base_of c) (c.gpr rbp) c.memory (omega arith) (machine.registers rbp);
      saved = λ j h. exit.back j h ∙ outcome_preserved is initial j ∙ ground arith;
      unused = λ r q n. exit.calm r q n ∙ ground arith;
      callers = λ x h l.
          exit.outside x l (inr (omega arith))
          ∙ store64_miss (base_of c) (c.gpr rbp) c.memory x (omega arith) l (inl (omega arith));
    }
