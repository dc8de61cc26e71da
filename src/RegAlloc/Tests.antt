-- ===== src/RegAlloc/Tests.antt =====
-- Allocations of src/backend/ana_regalloc.cpp for concrete functions.
use anastasia.Base.{ℕ, ◌+◌, ◌%◌, ◌≤◌, ◌<◌, ◌≡◌, ◌⊎◌, refl, false, some, none, [], ◌∷◌, arith}
use anastasia.Ast.{
  DataType, Opcode, RegisterType, Operand, register, const_int, Instruction, Function,
}
use anastasia.RegAlloc.{
  stack_spill, max_locals, count_locals, count_params, scan_insns, scan_blocks, lay_out,
  locals_from, params_from, allocate_registers, get_local_loc,
}
use anastasia.RegAlloc.Layout.{Entity, place, Live}
use anastasia.RegAlloc.Places.{place-injective, place_in_frame}
use anastasia.RegAlloc.Scratch.{scratch_slot_collides}
use anastasia.RegAlloc.Named.{OnBlocks, named_local_has_entry}

abbrev local_operand : ℕ → Operand
local_operand n = register (record { type = RegisterType.local; index = n })

abbrev param_operand : ℕ → Operand
param_operand n = register (record { type = RegisterType.param; index = n })

-- v5 = p0 + 7
abbrev add_seven : Instruction
add_seven = record {
  op = Opcode.add_i64;
  dest = local_operand 5;
  src1 = param_operand 0;
  src2 = const_int 7;
  vtable_slot = 0;
  target_label = none;
  text = none;
  string_hash = 0;
  is_likely = false;
}

-- Two locals are declared and a sixth is named, so with the two parameters there are eight.
abbrev adder : Function
adder = record {
  name = 0x66 ∷ [];
  params = DataType.i64 ∷ DataType.i64 ∷ [];
  local_count = 2;
  blocks = record { label = []; insns = add_seven ∷ [] } ∷ [];
}

adder_locals : count_locals (some adder) ≡ 6
unfolding count_locals scan_blocks scan_insns
adder_locals = refl

adder-Live : (n : ℕ) → n < 6 → Live (allocate_registers (some adder)) (Entity.local n)
unfolding allocate_registers lay_out count_locals count_params scan_blocks scan_insns
adder-Live n h = h

adder_spilled : (place (allocate_registers (some adder)) (Entity.local 4)).kind ≡ stack_spill
unfolding allocate_registers lay_out count_locals count_params scan_blocks scan_insns locals_from
    params_from get_local_loc
adder_spilled = refl

place-injective_example : Entity.local 4 ≡ Entity.local 4
place-injective_example =
    place-injective (some adder) (Entity.local 4) (Entity.local 4) (adder-Live 4 (omega arith))
      (adder-Live 4 (omega arith)) refl

place_in_frame_example :
    (8 ≤ (place (allocate_registers (some adder)) (Entity.local 4)).stack_disp)
    × ((place (allocate_registers (some adder)) (Entity.local 4)).stack_disp % 8 ≡ 0)
    × ((place (allocate_registers (some adder)) (Entity.local 4)).stack_disp
        ≤ (allocate_registers (some adder)).stack_frame_size)
    × ((allocate_registers (some adder)).stack_frame_size % 16 ≡ 0)
place_in_frame_example =
    place_in_frame (some adder) (Entity.local 4) (adder-Live 4 (omega arith)) adder_spilled

adder_even : (count_locals (some adder) + count_params (some adder)) % 2 ≡ 0
unfolding count_locals count_params scan_blocks scan_insns
adder_even = refl

adder_used : 0 < count_locals (some adder) + count_params (some adder)
unfolding count_locals count_params scan_blocks scan_insns
adder_used = omega arith

adder_out : count_locals (some adder) ≤ 9
unfolding count_locals scan_blocks scan_insns
adder_out = omega arith

scratch_slot_collides_example :
    (a : Entity) × Live (allocate_registers (some adder)) a
    × (get_local_loc (allocate_registers (some adder)) 9
        ≡ place (allocate_registers (some adder)) a)
scratch_slot_collides_example = scratch_slot_collides (some adder) 9 adder_even adder_used adder_out

named_local_has_entry_example :
    OnBlocks (λ n. (max_locals ≤ n) ⊎ (n < count_locals (some adder))) adder.blocks
named_local_has_entry_example = named_local_has_entry adder (omega arith) (ground arith)
