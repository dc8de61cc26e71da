-- ===== src/Lowerer/Operands.antt =====
-- The operands of src/backend/ana_lowerer.cpp: the union members that it reads, `load_operand`,
-- `store_operand` and the register that a result is computed in.
use anastasia.Base.{ℕ, ◌+◌, ◌-◌, ◌*◌, ◌/◌, ◌%◌, ◌^◌, Bool, true, false, [], ◌==◌, if◌then◌else◌}
use anastasia.Ast.{Opcode, RegisterType, Register, Operand, absent, register, const_int, mem_offset}
use anastasia.RegAlloc.{RegLocation, AnaRegAlloc, physical_reg, stack_spill, get_reg_loc}
use anastasia.Encoder.Prefix.{Code}
use anastasia.Encoder.Integer.{X86Reg, mov_reg_reg, mov_reg_imm64, mov_reg_mem, mov_mem_reg}

abbrev pub rax : X86Reg
rax = 0

abbrev pub rcx : X86Reg
rcx = 1

abbrev pub rdx : X86Reg
rdx = 2

abbrev pub rsp : X86Reg
rsp = 4

abbrev pub rbp : X86Reg
rbp = 5

abbrev pub rsi : X86Reg
rsi = 6

abbrev pub rdi : X86Reg
rdi = 7

abbrev pub r11 : X86Reg
r11 = 11

-- `-d` for an `int32_t`.
abbrev pub neg32 : ℕ → ℕ
neg32 d = (2 ^ 32 - d) % 2 ^ 32

-- `RegisterType` as the number that the union holds; a number outside it is no parameter.
abbrev type_code : RegisterType → ℕ
type_code RegisterType.untyped = 0
type_code RegisterType.param = 1
type_code RegisterType.local = 2

abbrev type_of_code : ℕ → RegisterType
type_of_code n =
    if n == 1
    then RegisterType.param
    else if n == 2
    then RegisterType.local
    else RegisterType.untyped

-- The first eight bytes of the union as a `Register`, whatever the kind.
abbrev pub reg_member : Operand → Register
reg_member absent = record { type = RegisterType.untyped; index = 0 }
reg_member (register r) = r
reg_member (const_int v) = record { type = type_of_code (v % 2 ^ 32); index = v / 2 ^ 32 }
reg_member (mem_offset base offset) = base

-- The first eight bytes of the union as an `int64_t`.
abbrev pub const_val : Operand → ℕ
const_val absent = 0
const_val (register r) = type_code r.type + 2 ^ 32 * r.index
const_val (const_int v) = v
const_val (mem_offset base offset) = type_code base.type + 2 ^ 32 * base.index

-- `mem.offset`; it is read only from memory operands.
abbrev pub offset_member : Operand → ℕ
offset_member (mem_offset base offset) = offset
offset_member _ = 0

abbrev pub is_const : Operand → Bool
is_const (const_int v) = true
is_const _ = false

abbrev pub is_register : Operand → Bool
is_register (register r) = true
is_register _ = false

abbrev pub is_i32_op : Opcode → Bool
is_i32_op Opcode.add_i32 = true
is_i32_op Opcode.sub_i32 = true
is_i32_op Opcode.mul_i32 = true
is_i32_op Opcode.div_i32 = true
is_i32_op Opcode.shl_i32 = true
is_i32_op Opcode.shr_i32 = true
is_i32_op Opcode.ushr_i32 = true
is_i32_op _ = false

abbrev pub load_location : RegLocation → X86Reg → Code × X86Reg
load_location loc scratch = elim loc.kind [
  | physical_reg ↦ ([], loc.phys_reg)
  | stack_spill ↦ (mov_reg_mem scratch rbp (neg32 loc.stack_disp), scratch)
]

abbrev pub store_location : RegLocation → X86Reg → Code
store_location loc src_reg = elim loc.kind [
  | physical_reg ↦ (if loc.phys_reg == src_reg then [] else mov_reg_reg loc.phys_reg src_reg)
  | stack_spill ↦ mov_mem_reg rbp (neg32 loc.stack_disp) src_reg
]

-- The code written, and the register that then holds the operand.
unfoldable pub load_operand : AnaRegAlloc → Operand → X86Reg → Code × X86Reg
load_operand regalloc (const_int v) scratch = (mov_reg_imm64 scratch v, scratch)
load_operand regalloc (register r) scratch = load_location (get_reg_loc regalloc r) scratch
load_operand regalloc _ scratch = ([], scratch)

unfoldable pub store_operand : AnaRegAlloc → Register → X86Reg → Code
store_operand regalloc reg src_reg = store_location (get_reg_loc regalloc reg) src_reg

abbrev pub physical_or : RegLocation → X86Reg → X86Reg
physical_or loc scratch = elim loc.kind [ physical_reg ↦ loc.phys_reg | stack_spill ↦ scratch ]

-- The register of `reg`, or `scratch` for a spilled one.
unfoldable pub dst_reg : AnaRegAlloc → Register → X86Reg → X86Reg
dst_reg regalloc reg scratch = physical_or (get_reg_loc regalloc reg) scratch

-- `if (dst != src) mov_reg_reg(dst, src);`
abbrev pub move_if_other : X86Reg → X86Reg → Code
move_if_other dst src = if dst == src then [] else mov_reg_reg dst src
