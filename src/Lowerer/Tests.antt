-- ===== src/Lowerer/Tests.antt =====
-- Runs of the model of src/backend/ana_lowerer.cpp, and its theorems at concrete functions.
use anastasia.Base.{
  ℕ, zero, suc, ◌-◌, ◌^◌, ◌<◌, ◌≡◌, refl, ◌==◌, leb, if◌then◌else◌, true, false, Option, none, some,
  List, [], ◌∷◌, ◌++◌, arith,
}
use anastasia.Base.Lists.{All, length}
use anastasia.Ast.{
  Opcode, RegisterType, Register, Operand, absent, register, const_int, Instruction, BasicBlock,
  DataType, Function,
}
use anastasia.RegAlloc.{
  allocate_registers, count_locals, count_params, lay_out, locals_from, params_from, scan_blocks,
  scan_insns, get_reg_loc, get_param_loc, get_local_loc, get_param_raw_reg,
}
use anastasia.RegAlloc.Layout.{Live}
use anastasia.Encoder.Buffer.{Kernel}
use anastasia.Encoder.Prefix.{bytes, emit_rex, emit_modrm, mem_operand}
use anastasia.Encoder.Integer.{
  mov_reg_reg, mov_reg_imm64, mov_reg_mem, mov_mem_reg, add_reg_reg, add_reg_imm32, sub_reg_reg,
  sub_reg_imm32, imul_reg_reg,
}
use anastasia.Encoder.System.{push_reg, pop_reg, ret, movsxd_reg_reg}
use anastasia.Encoder.Granted.{HasMemory}
use anastasia.Lowerer.Operands.{load_operand, store_operand, dst_reg}
use anastasia.Lowerer.Frame.{
  prologue, save_params, save_from, save_params_from, restore_from, epilogue, lower_return_val,
}
use anastasia.Lowerer.Arithmetic.{lower_add, lower_sub, lower_mul, two_operands}
use anastasia.Lowerer.Memory.{Addresses}
use anastasia.Lowerer.Compile.{
  Context, System, JitCode, compile_function, straight_line, page_rounded,
}
use anastasia.Encoder.Decode.{split_prefix, split_rex, decode_modrm}
use anastasia.Encoder.Disassemble.{decode}
use anastasia.Lowerer.Cpu.{Cpu, run, step, execute, alu}
use anastasia.Lowerer.Slots.{entity_of}
use anastasia.Lowerer.Access.{in_place, literal}
use anastasia.Lowerer.Meaning.{Ready, meaning, denoted}
use anastasia.Lowerer.Folding.{optimize_instruction-meaning}
use anastasia.Frontend.Fold.{optimize_instruction, fold}
use anastasia.Lowerer.Body.{block_code}
use anastasia.Lowerer.Function.{IsMachine, StackFits}
use anastasia.Lowerer.Call.{function_code, Returns}
use anastasia.Lowerer.Refusals.{compile_function-none}
use anastasia.Lowerer.Compiled.{only_context, compile_function-Returns}

abbrev local : ℕ → Register
local n = record { type = RegisterType.local; index = n }

abbrev param : ℕ → Register
param n = record { type = RegisterType.param; index = n }

abbrev insn : Opcode → Operand → Operand → Operand → Instruction
insn op d s t = record {
  op = op;
  dest = d;
  src1 = s;
  src2 = t;
  vtable_slot = 0;
  target_label = none;
  text = none;
  string_hash = 0;
  is_likely = false;
}

-- v0 = p0 - 5; v0 = p1 - v0; v1 = v0 * p0 at 32 bits
abbrev body : List Instruction
body =
    insn Opcode.sub_i64 (register (local 0)) (register (param 0)) (const_int 5)
    ∷ insn Opcode.sub_i64 (register (local 0)) (register (param 1)) (register (local 0))
    ∷ insn Opcode.mul_i32 (register (local 1)) (register (local 0)) (register (param 0))
    ∷ []

abbrev last : Instruction
last = insn Opcode.return_val absent (register (local 1)) absent

abbrev entry : BasicBlock
entry = record { label = b'.' ∷ b'e' ∷ []; insns = body ++ last ∷ [] }

abbrev scale : Function
scale = record {
  name = b's' ∷ [];
  params = DataType.i64 ∷ DataType.i64 ∷ [];
  local_count = 2;
  blocks = entry ∷ [];
}

abbrev large : Kernel
large n size = leb size (2 ^ 32)

large-HasMemory : HasMemory large
large-HasMemory n size h = ground arith

abbrev linux : System
linux = record { mmap = λ size. some 0x7F00_0000; mprotect = λ address size. true }

abbrev nowhere : Addresses
nowhere = record {
  interned = λ text hash. 0;
  benchmark_consume = 0;
  alloc_object = 0;
  vtable_array = λ c. 0;
}

-- Called with 7 and 30.
abbrev caller : Cpu
caller = record {
  gpr = λ r.
      (if r == 4
        then 0x8000
        else if r == 7
        then 7
        else if r == 6
        then 30
        else if r == 5
        then 0x9000
        else 0x1234);
  memory = λ x. 0;
}

abbrev k : Context
k = only_context large nowhere none scale entry

local-Live : (n : ℕ) → n < 2 → Live k.regalloc (entity_of (local n))
unfolding allocate_registers lay_out count_locals count_params scan_blocks scan_insns
local-Live n h = h

param-Live : (n : ℕ) → n < 2 → Live k.regalloc (entity_of (param n))
unfolding allocate_registers lay_out count_locals count_params scan_blocks scan_insns
param-Live n h = h

body-Ready : All (Ready k.regalloc) body
unfolding meaning
body-Ready = (
  record {
    dest = local 0;
    dest_is = refl;
    live = local-Live 0 (omega arith);
    first = in_place (param 0) (param-Live 0 (omega arith));
    second = λ _. literal 5 (omega arith);
    fit = λ imm e. refl;
    known = refl;
    literal_first = λ e. ground arith;
  },
  (
    record {
      dest = local 0;
      dest_is = refl;
      live = local-Live 0 (omega arith);
      first = in_place (param 1) (param-Live 1 (omega arith));
      second = λ _. in_place (local 0) (local-Live 0 (omega arith));
      fit = λ imm e. ground arith;
      known = refl;
      literal_first = λ e. ground arith;
    },
    (
      record {
        dest = local 1;
        dest_is = refl;
        live = local-Live 1 (omega arith);
        first = in_place (local 0) (local-Live 0 (omega arith));
        second = λ _. in_place (param 0) (param-Live 0 (omega arith));
        fit = λ imm e. ground arith;
        known = refl;
        literal_first = λ e. ground arith;
      },
      tt,
    ),
  ),
)

scale_framed : k.regalloc.requires_frame ≡ true
unfolding allocate_registers lay_out count_locals count_params scan_blocks scan_insns locals_from
scale_framed = refl

scale_code : length (bytes (function_code k body (register (local 1)))) ≡ 88
unfolding allocate_registers lay_out count_locals count_params scan_blocks scan_insns locals_from
    params_from get_reg_loc get_param_loc get_local_loc get_param_raw_reg emit_rex emit_modrm
    mem_operand mov_reg_reg mov_reg_imm64 mov_reg_mem mov_mem_reg add_reg_reg add_reg_imm32
    sub_reg_reg sub_reg_imm32 imul_reg_reg push_reg pop_reg ret movsxd_reg_reg load_operand
    store_operand dst_reg prologue save_params save_from save_params_from restore_from epilogue
    lower_return_val lower_add lower_sub lower_mul two_operands straight_line block_code
    function_code
scale_code = refl

scale_short : length (bytes (function_code k body last.src1)) < 2 ^ 30
scale_short = rw scale_code (omega arith)

caller-IsMachine : IsMachine caller
caller-IsMachine = record { registers = λ r. ground arith; cells = λ x. omega arith }

caller-StackFits : StackFits k.regalloc caller
unfolding allocate_registers lay_out count_locals count_params scan_blocks scan_insns locals_from
caller-StackFits = omega arith

-- The address that the system gives, and the code with its page.
abbrev scale_jit : JitCode
scale_jit = record {
  address = 0x7F00_0000;
  code = bytes (function_code k body last.src1);
  map_size = page_rounded (length (bytes (function_code k body last.src1)));
}

compile_function-Returns_example :
    (compile_function large linux nowhere none (some scale) ≡ some scale_jit)
    × Returns k body last.src1 caller
compile_function-Returns_example =
    compile_function-Returns large large-HasMemory linux nowhere none scale entry body last
      0x7F00_0000 caller refl refl refl scale_framed body-Ready
      (in_place (local 1) (local-Live 1 (omega arith))) scale_short refl refl caller-IsMachine
      caller-StackFits

-- A function of 513 empty blocks.
abbrev blocks_of_nothing : ℕ → List BasicBlock
blocks_of_nothing zero = []
blocks_of_nothing (suc n) = record { label = []; insns = [] } ∷ blocks_of_nothing n

abbrev too_long : Function
too_long = record { name = []; params = []; local_count = 0; blocks = blocks_of_nothing 513 }

compile_function-none_example : compile_function large linux nowhere none (some too_long) ≡ none
compile_function-none_example =
    compile_function-none large linux nowhere none too_long (omega arith)

abbrev result_of : Option (List ℕ × Cpu) → ℕ
result_of none = 0
result_of (some (bs, c)) = c.gpr 0

-- The processor runs the code: (30 - (7 - 5)) * 7 is in RAX before the RET.
scale_runs : result_of (run 24 (bytes (function_code k body last.src1), caller)) ≡ 196
unfolding allocate_registers lay_out count_locals count_params scan_blocks scan_insns locals_from
    params_from get_reg_loc get_param_loc get_local_loc get_param_raw_reg emit_rex emit_modrm
    mem_operand mov_reg_reg mov_reg_imm64 mov_reg_mem mov_mem_reg add_reg_reg add_reg_imm32
    sub_reg_reg sub_reg_imm32 imul_reg_reg push_reg pop_reg ret movsxd_reg_reg load_operand
    store_operand dst_reg prologue save_params save_from save_params_from restore_from epilogue
    lower_return_val lower_add lower_sub lower_mul two_operands straight_line block_code
    function_code run step execute alu decode split_prefix split_rex decode_modrm
scale_runs = refl

-- v0 = -7 * 3 at 32 bits
abbrev product : Instruction
product = insn Opcode.mul_i32 (register (local 0)) (const_int (2 ^ 64 - 7)) (const_int 3)

optimize_instruction-meaning_example : optimize_instruction product ≡ record product {
  op = Opcode.move_const;
  src1 = const_int (denoted (meaning Opcode.mul_i32) (2 ^ 64 - 7) 3);
  src2 = const_int 0;
}
optimize_instruction-meaning_example =
    optimize_instruction-meaning product (2 ^ 64 - 7) 3 refl refl (omega arith) (omega arith) refl

product_folded :
    optimize_instruction product
    ≡ record product { op = Opcode.move_const; src1 = const_int (2 ^ 64 - 21); src2 = const_int 0 }
unfolding optimize_instruction fold
product_folded = refl
