-- ===== src/Lowerer/Compiled.antt =====
-- What `compile_function` of src/backend/ana_lowerer.cpp makes of a function of one block without
-- branches, and a call of it.
use anastasia.Base.{
  ℕ, ◌^◌, ◌<◌, ◌≡◌, sym, ap, ◌∙◌, true, Option, none, some, List, [], ◌∷◌, ◌++◌, arith, subst,
}
use anastasia.Base.Lists.{All, length, length-append}
use anastasia.Ast.{Opcode, Instruction, Operand, BasicBlock, Function, Program}
use anastasia.RegAlloc.{allocate_registers}
use anastasia.RegAlloc.Contract.{allocate_registers-IsLayout}
use anastasia.Encoder.Buffer.{Kernel, new_encoder}
use anastasia.Encoder.Prefix.{Code, bytes, emit}
use anastasia.Encoder.Granted.{HasMemory}
use anastasia.Encoder.Labels.{new_label, bind_label}
use anastasia.Lowerer.Frame.{prologue, save_params, lower_return_val}
use anastasia.Lowerer.Memory.{Addresses}
use anastasia.Lowerer.Compile.{
  Context, lower_insns, label_blocks, lower_blocks, lower_all, lower_function, finish_code,
  compile_function, System, page_rounded,
}
use anastasia.Lowerer.Cpu.{Cpu}
use anastasia.Lowerer.Access.{IsSource}
use anastasia.Lowerer.Meaning.{Ready}
use anastasia.Lowerer.Body.{block_code}
use anastasia.Lowerer.Emit.{
  Emitted, bytes_append_all, lower_insns-emit, first_label-Emitted, first_label, emit-Emitted,
  bind_label-Emitted, installed,
}
use anastasia.Encoder.System.{push_reg}
use anastasia.Lowerer.Function.{prologue_framed, IsMachine, StackFits}
use anastasia.Lowerer.Call.{function_code, Returns, function_code-Returns}

-- The context of the only block.
abbrev pub only_context : Kernel → Addresses → Option Program → Function → BasicBlock → Context
only_context grants addresses prog fn b = record {
  regalloc = allocate_registers (some fn);
  addresses = addresses;
  prog = prog;
  labels = record { block = b; label_id = (new_label (new_encoder grants)).0 } ∷ [];
  next = none;
}

module _ (grants : Kernel) (memory : HasMemory grants) where
  module _ (sys : System) (addresses : Addresses) (prog : Option Program) (fn : Function) where
    lower_function_one :
        (b : BasicBlock)
        → fn.blocks ≡ b ∷ []
        → let k = only_context grants addresses prog fn b in
          lower_function grants addresses prog fn
          ≡ some (
              lower_insns grants k b.insns (
                bind_label (new_label (new_encoder grants)).0 (
                  emit grants
                    (prologue k.regalloc ++ save_params k.regalloc)
                    (new_label (new_encoder grants)).1)))
    unfolding lower_function label_blocks lower_blocks
    lower_function_one b e =
        ap
          (λ bs.
            lower_all grants addresses prog (allocate_registers (some fn))
              (label_blocks grants bs 0 (new_encoder grants)))
          e

    -- The code that is emitted for it.
    emitted :
        (b : BasicBlock) (is : List Instruction) (last : Instruction)
        → b.insns ≡ is ++ last ∷ []
        → last.op ≡ Opcode.return_val
        → All (Ready (only_context grants addresses prog fn b).regalloc) is
        → let k = only_context grants addresses prog fn b in
          let code = bytes (function_code k is last.src1) in
          length code < 2 ^ 30
          → Emitted code (
              lower_insns grants k b.insns (
                bind_label (new_label (new_encoder grants)).0 (
                  emit grants
                    (prologue k.regalloc ++ save_params k.regalloc)
                    (new_label (new_encoder grants)).1)))
    unfolding function_code
    emitted b is last e r ready room =
        let k = only_context grants addresses prog fn b in
        let head : Code = prologue k.regalloc ++ save_params k.regalloc in
        let tail : Code = block_code k is ++ lower_return_val k.regalloc last.src1 in
        let split = bytes_append_all head tail in
        let total = ap length split ∙ length-append (bytes head) (bytes tail) in
        let (l, e1) = new_label (new_encoder grants) in
        let e2 = emit grants head e1 in
        let written =
          emit-Emitted grants memory [] head e1 (omega arith) (first_label-Emitted grants memory) in
        let walk : lower_insns grants k b.insns (bind_label l e2)
            ≡ emit grants tail (bind_label 0 e2) =
          ap (λ m. lower_insns grants k b.insns (bind_label m e2)) (first_label grants memory)
          ∙ ap (λ xs. lower_insns grants k xs (bind_label 0 e2)) e
          ∙ lower_insns-emit grants k is last (bind_label 0 e2) ready r in
        subst (Emitted (bytes (function_code k is last.src1))) (sym walk) (
          subst (λ cs. Emitted cs (emit grants tail (bind_label 0 e2))) (sym split)
            (emit-Emitted grants memory (bytes head) tail (bind_label 0 e2) (rw⁻¹ split room)
              (bind_label-Emitted grants memory (bytes head) e2 written)))

    made :
        (b : BasicBlock) (is : List Instruction) (last : Instruction) (address : ℕ)
        → fn.blocks ≡ b ∷ []
        → b.insns ≡ is ++ last ∷ []
        → last.op ≡ Opcode.return_val
        → All (Ready (only_context grants addresses prog fn b).regalloc) is
        → let code = bytes (function_code (only_context grants addresses prog fn b) is last.src1) in
          length code < 2 ^ 30
          → 0 < length code
          → sys.mmap (page_rounded (length code)) ≡ some address
          → sys.mprotect address (page_rounded (length code)) ≡ true
          → compile_function grants sys addresses prog (some fn)
            ≡ some
                (record { address = address; code = code; map_size = page_rounded (length code) })
    unfolding compile_function
    made b is last address one e r ready room some_code at guarded =
        ap (finish_code sys) (lower_function_one b one)
        ∙ installed grants memory sys
            (bytes (function_code (only_context grants addresses prog fn b) is last.src1)) address _
            (emitted b is last e r ready room) some_code at guarded

    some_code :
        (k : Context) (is : List Instruction) (src : Operand)
        → k.regalloc.requires_frame ≡ true
        → 0 < length (bytes (function_code k is src))
    unfolding function_code push_reg
    some_code k is src e = rw (prologue_framed k.regalloc e) (omega arith)

    -- For a function of one block that ends in RETURN_VAL of a register or constant, whose other instructions are ADD, SUB and
    -- MUL of both widths, AND, OR and XOR of both widths (taken on all 64 bits), NEG_I64, MOVE and
    -- MOVE_CONST, from registers of the function and constants into registers of the function, and in
    -- which every constant second operand of ADD, SUB, AND, OR and XOR is the sign extension of its
    -- low 32 bits, and which the allocator gives a frame (NEG_I32 is left out), `compile_function` gives
    -- executable code, if its code is shorter than 1 GiB and the system maps and protects the
    -- memory. Run by the processor at any state with room for the frame on the stack, the code
    -- reaches its RET with what the instructions compute from the argument registers in RAX, with
    -- RSP, RBP, the callee-saved registers it uses and every register it does not use as at the
    -- call, and without a change to the caller's memory.
    pub compile_function-Returns :
        (b : BasicBlock) (is : List Instruction) (last : Instruction) (address : ℕ) (c : Cpu)
        → fn.blocks ≡ b ∷ []
        → b.insns ≡ is ++ last ∷ []
        → last.op ≡ Opcode.return_val
        → (only_context grants addresses prog fn b).regalloc.requires_frame ≡ true
        → All (Ready (only_context grants addresses prog fn b).regalloc) is
        → IsSource (only_context grants addresses prog fn b).regalloc last.src1
        → let code = bytes (function_code (only_context grants addresses prog fn b) is last.src1) in
          length code < 2 ^ 30
          → sys.mmap (page_rounded (length code)) ≡ some address
          → sys.mprotect address (page_rounded (length code)) ≡ true
          → IsMachine c
          → StackFits (only_context grants addresses prog fn b).regalloc c
          → (compile_function grants sys addresses prog (some fn)
              ≡ some (record {
                address = address;
                code = code;
                map_size = page_rounded (length code);
              }))
            × Returns (only_context grants addresses prog fn b) is last.src1 c
    compile_function-Returns b is last address c one e r framed ready ok room at guarded machine
          stack =
        (
          made b is last address one e r ready room
              (some_code (only_context grants addresses prog fn b) is last.src1 framed) at guarded,
          function_code-Returns (only_context grants addresses prog fn b) is last.src1 c
              (allocate_registers-IsLayout (some fn)) framed machine stack ready ok,
        )
