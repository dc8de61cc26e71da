-- ===== src/RegAlloc/Scratch.antt =====
-- The answer of `get_local_loc` in src/backend/ana_regalloc.cpp for a register that has no entry.
use anastasia.Base.{
  ℕ, ◌+◌, ◌-◌, ◌*◌, ◌%◌, ◌≤◌, ◌<◌, ◌≡◌, sym, ◌∙◌, Bool, Option, ltb, if◌then◌else◌, arith,
}
use anastasia.Ast.{Function}
use anastasia.RegAlloc.{
  max_locals, max_params, spilled, lay_out, count_locals, count_params, blocks_call, blocks_of,
  allocate_registers, get_local_loc,
}
use anastasia.RegAlloc.Layout.{
  Entity, place, Live, entity_rule, EntityLive, stack_frame_size-lay_out, place-entity_rule,
  EntityLive-Live,
}
use anastasia.RegAlloc.Places.{count_locals-le, count_params-le}

-- The entity in the last slot of the frame.
abbrev pub last_entity : ℕ → ℕ → Entity
last_entity lc pc =
    if ltb 0 pc
    then Entity.param (pc - 1)
    else if ltb 3 lc
    then Entity.local (lc - 1)
    else Entity.preserved (lc - 1)

last_rule :
    (lc pc : ℕ) (called : Bool) (few : lc ≤ max_locals) (fewp : pc ≤ max_params)
    → 0 < lc + pc
    → EntityLive lc pc called few fewp (last_entity lc pc)
      × (entity_rule lc pc called few fewp (last_entity lc pc) ≡ spilled (8 * (lc + pc)))
last_rule lc pc called few fewp h = ground arith

out_of_range_loc :
    (lc pc i : ℕ) (called : Bool) (few : lc ≤ max_locals) (fewp : pc ≤ max_params)
    → (lc + pc) % 2 ≡ 0
    → 0 < lc + pc
    → lc ≤ i
    → get_local_loc (lay_out lc pc called) i ≡ spilled (8 * (lc + pc))
unfolding get_local_loc lay_out
out_of_range_loc lc pc i called few fewp even some_slots h =
    ground (arith, stack_frame_size-lay_out lc pc called few fewp)

-- Where the locals and the parameters of a function are even in number, and not both none, the
-- slot that `get_local_loc` answers for a register outside the table is the place of an entity that
-- is in use, so a write through it destroys that entity.
pub scratch_slot_collides :
    (fn : Option Function) (i : ℕ)
    → (count_locals fn + count_params fn) % 2 ≡ 0
    → 0 < count_locals fn + count_params fn
    → count_locals fn ≤ i
    → let regs = allocate_registers fn in
      (a : Entity) × Live regs a × (get_local_loc regs i ≡ place regs a)
unfolding allocate_registers
scratch_slot_collides fn i even some_slots h =
    let lc = count_locals fn in
    let pc = count_params fn in
    let called = blocks_call (blocks_of fn) in
    let few = count_locals-le fn in
    let fewp = count_params-le fn in
    let last = last_rule lc pc called few fewp some_slots in
    let live = EntityLive-Live lc pc called few fewp (last_entity lc pc) last.0 in
    (
      last_entity lc pc,
      live,
      out_of_range_loc lc pc i called few fewp even some_slots h
          ∙ sym last.1
          ∙ sym (place-entity_rule lc pc called few fewp (last_entity lc pc) live),
    )
