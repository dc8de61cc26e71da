-- ===== src/RegAlloc.antt =====
-- The register allocator of src/backend/ana_regalloc.cpp.
pub mod Layout
pub mod Places
pub mod Named
pub mod Scratch
pub mod Contract
mod Tests
use anastasia.Base.{
  ℕ, zero, suc, ◌+◌, ◌*◌, ◌/◌, ◌%◌, ◌^◌, ◌-◌, Bool, true, false, ◌&&◌, ◌||◌, not, List, [], ◌∷◌,
  ltb, leb, ◌==◌, if◌then◌else◌, Option, none, some,
}
use anastasia.Base.Lists.{length, get_elem?}
use anastasia.Ast.{
  Opcode, Register, RegisterType, param, local, untyped, Operand, absent, register, const_int,
  mem_offset, Instruction, BasicBlock, Function,
}

pub data RegLocKind : Type 0 where
  physical_reg stack_spill : RegLocKind

-- `phys_reg` is an `X86Reg` number; a spill is at `[rbp - stack_disp]`.
pub record RegLocation : Type 0 where
  pub kind : RegLocKind
  pub phys_reg : ℕ
  pub stack_disp : ℕ

abbrev pub no_reg : ℕ
no_reg = 255

abbrev pub num_allocatable : ℕ
num_allocatable = 3

abbrev pub max_locals : ℕ
max_locals = 1024

abbrev pub max_params : ℕ
max_params = 8

-- `kAllocatablePhysRegs` is RBX, R12, R13; `saved_reg` reads it too.
abbrev pub saved_reg : ℕ → ℕ
saved_reg zero = 3
saved_reg (suc zero) = 12
saved_reg (suc (suc zero)) = 13
saved_reg (suc (suc (suc _))) = 255

abbrev pub saved_reg_disp : ℕ → ℕ
saved_reg_disp i = 8 * (i + 1) % 2 ^ 32

-- `local_locs` and `param_locs` hold the used entries of the two arrays.
pub record AnaRegAlloc : Type 0 where
  pub local_locs : List RegLocation
  pub param_locs : List RegLocation
  pub local_count : ℕ
  pub param_count : ℕ
  pub saved_reg_count : ℕ
  pub stack_frame_size : ℕ
  pub requires_frame : Bool

abbrev pub physical : ℕ → RegLocation
physical r = record { kind = physical_reg; phys_reg = r; stack_disp = 0 }

abbrev pub spilled : ℕ → RegLocation
spilled disp = record { kind = stack_spill; phys_reg = no_reg; stack_disp = disp }

abbrev calls_out : Opcode → Bool
calls_out Opcode.call_virt = true
calls_out Opcode.call_virt_fast = true
calls_out Opcode.new_instance = true
calls_out Opcode.sink_mem = true
calls_out _ = false

-- The largest local named so far.
abbrev pub raise_local : Operand → ℕ → ℕ
raise_local (register r) top = elim r.type [
  | local ↦ (if ltb top r.index then r.index else top)
  | _ ↦ top
]
raise_local _ top = top

-- One more than the largest parameter named so far, in `uint32_t` arithmetic.
abbrev pub raise_param : Operand → ℕ → ℕ
raise_param (register r) top =
    let n = (r.index + 1) % 2 ^ 32 in
    elim r.type [ param ↦ (if ltb top n then n else top) | _ ↦ top ]
raise_param _ top = top

abbrev pub insn_locals : Instruction → ℕ → ℕ
insn_locals i top = raise_local i.src2 (raise_local i.src1 (raise_local i.dest top))

abbrev pub insn_params : Instruction → ℕ → ℕ
insn_params i top = raise_param i.src2 (raise_param i.src1 (raise_param i.dest top))

unfoldable pub scan_insns : (Instruction → ℕ → ℕ) → List Instruction → ℕ → ℕ
scan_insns f [] top = top
scan_insns f (i ∷ is) top = scan_insns f is (f i top)

unfoldable pub scan_blocks : (Instruction → ℕ → ℕ) → List BasicBlock → ℕ → ℕ
scan_blocks f [] top = top
scan_blocks f (b ∷ bs) top = scan_blocks f bs (scan_insns f b.insns top)

insns_call : List Instruction → Bool
insns_call [] = false
insns_call (i ∷ is) = calls_out i.op || insns_call is

blocks_call : List BasicBlock → Bool
unfolding insns_call
blocks_call [] = false
blocks_call (b ∷ bs) = insns_call b.insns || blocks_call bs

abbrev pub cap_at : ℕ → ℕ → ℕ
cap_at top n = if ltb top n then top else n

-- `(total_slots * 8 + 15) & ~15UL`
abbrev pub frame_bytes : ℕ → ℕ
frame_bytes slots = (slots * 8 + 15) / 16 * 16

-- The loop over the locals: `n` rounds from index `i` on, after `spills` spills. It gives the
-- entries that it fills and the spill count at its end.
unfoldable pub locals_from : ℕ → ℕ → ℕ → ℕ → List RegLocation × ℕ
locals_from reserved zero i spills = ([], spills)
locals_from reserved (suc n) i spills =
    let spill_here = leb num_allocatable i in
    let spills' = if spill_here then spills + 1 else spills in
    let rest = locals_from reserved n (i + 1) spills' in
    (
      (if spill_here then spilled (8 * (reserved + spills')) else physical (saved_reg i)) ∷ rest.0,
      rest.1,
    )

-- The loop over the parameters: `n` rounds from index `i` on.
unfoldable pub params_from : ℕ → ℕ → ℕ → List RegLocation
params_from base zero i = []
params_from base (suc n) i = spilled (8 * (base + 1 + i)) ∷ params_from base n (i + 1)

abbrev blocks_of : Option Function → List BasicBlock
blocks_of none = []
blocks_of (some fn) = fn.blocks

abbrev first_max_reg : Option Function → ℕ
first_max_reg none = 0
first_max_reg (some fn) = fn.local_count - 1

abbrev declared_params : Option Function → ℕ
declared_params none = 0
declared_params (some fn) = length fn.params

unfoldable pub count_locals : Option Function → ℕ
unfolding scan_blocks scan_insns
count_locals fn =
    cap_at max_locals ((scan_blocks insn_locals (blocks_of fn) (first_max_reg fn) + 1) % 2 ^ 32)

unfoldable pub count_params : Option Function → ℕ
unfolding scan_blocks scan_insns
count_params fn =
    let max_param = scan_blocks insn_params (blocks_of fn) 0 in
    cap_at max_params (if ltb max_param (declared_params fn) then declared_params fn else max_param)

-- The rest of `allocate_registers`, from the two counts on.
unfoldable pub lay_out : ℕ → ℕ → Bool → AnaRegAlloc
unfolding locals_from params_from
lay_out local_count param_count has_call =
    let saved = if ltb local_count num_allocatable then local_count else num_allocatable in
    let locals = locals_from saved local_count 0 0 in
    let total_slots = saved + locals.1 + param_count in
    let framed = ltb 0 total_slots || has_call in
    record {
      local_locs = locals.0;
      param_locs = params_from (saved + locals.1) param_count 0;
      local_count = local_count;
      param_count = param_count;
      saved_reg_count = saved;
      stack_frame_size = if framed then frame_bytes total_slots else 0;
      requires_frame = framed;
    }

-- A null pointer is `none`.
unfoldable pub allocate_registers : Option Function → AnaRegAlloc
unfolding count_locals count_params lay_out blocks_call
allocate_registers fn = lay_out (count_locals fn) (count_params fn) (blocks_call (blocks_of fn))

-- RDI, RSI, RDX, RCX, R8, R9.
unfoldable pub get_param_raw_reg : ℕ → ℕ
get_param_raw_reg i =
    if i == 0
    then 7
    else if i == 1
    then 6
    else if i == 2
    then 2
    else if i == 3
    then 1
    else if i == 4
    then 8
    else if i == 5
    then 9
    else 7

abbrev location_or : Option RegLocation → ℕ → RegLocation
location_or (some l) disp = l
location_or none disp = spilled disp

unfoldable pub get_param_loc : AnaRegAlloc → ℕ → RegLocation
get_param_loc a i =
    if ltb i a.param_count && ltb i max_params
    then location_or (get_elem? a.param_locs i) 0
    else spilled (8 * (i + 1) % 2 ^ 32)

unfoldable pub get_local_loc : AnaRegAlloc → ℕ → RegLocation
get_local_loc a i =
    if ltb i a.local_count && ltb i max_locals
    then location_or (get_elem? a.local_locs i) 0
    else spilled (if ltb 0 a.stack_frame_size then a.stack_frame_size else 8)

unfoldable pub get_reg_loc : AnaRegAlloc → Register → RegLocation
unfolding get_param_loc get_local_loc
get_reg_loc a reg = elim reg.type [
  | param ↦ get_param_loc a reg.index
  | _ ↦ get_local_loc a reg.index
]
