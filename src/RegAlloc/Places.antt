-- ===== src/RegAlloc/Places.antt =====
-- What src/backend/ana_regalloc.cpp does with the registers that have entries in its tables.
use anastasia.Base.{ℕ, ◌+◌, ◌*◌, ◌%◌, ◌≤◌, ◌≡◌, sym, ap, ◌∙◌, Bool, Option, arith}
use anastasia.Ast.{Function}
use anastasia.RegAlloc.{
  stack_spill, RegLocation, max_locals, max_params, count_locals, count_params, blocks_call,
  blocks_of, allocate_registers,
}
use anastasia.RegAlloc.Layout.{
  Entity, place, Live, entity_rule, EntityLive, Live-EntityLive, place-entity_rule,
  saved_reg-injective, stack_frame_size-lay_out,
}

rule-injective :
    (lc pc : ℕ) (called : Bool) (few : lc ≤ max_locals) (fewp : pc ≤ max_params) (a b : Entity)
    → EntityLive lc pc called few fewp a
    → EntityLive lc pc called few fewp b
    → entity_rule lc pc called few fewp a ≡ entity_rule lc pc called few fewp b
    → a ≡ b
rule-injective lc pc called few fewp (Entity.preserved i) (Entity.preserved j) h k e = ground arith
rule-injective lc pc called few fewp (Entity.preserved i) (Entity.local j) h k e = ground arith
rule-injective lc pc called few fewp (Entity.preserved i) (Entity.param j) h k e = ground arith
rule-injective lc pc called few fewp (Entity.local i) (Entity.preserved j) h k e = ground arith
rule-injective lc pc called few fewp (Entity.local i) (Entity.local j) h k e =
    ground (arith, saved_reg-injective i j)
rule-injective lc pc called few fewp (Entity.local i) (Entity.param j) h k e = ground arith
rule-injective lc pc called few fewp (Entity.param i) (Entity.preserved j) h k e = ground arith
rule-injective lc pc called few fewp (Entity.param i) (Entity.local j) h k e = ground arith
rule-injective lc pc called few fewp (Entity.param i) (Entity.param j) h k e = ground arith

pub count_locals-le : (fn : Option Function) → count_locals fn ≤ max_locals
unfolding count_locals
count_locals-le fn = ground arith

pub count_params-le : (fn : Option Function) → count_params fn ≤ max_params
unfolding count_params
count_params-le fn = ground arith

-- In every allocation, two entities that are in use, be they callee-saved registers preserved in
-- the frame, locals or parameters, have the same place only if they are the same.
pub place-injective :
    (fn : Option Function) (a b : Entity)
    → let regs = allocate_registers fn in
      Live regs a → Live regs b → place regs a ≡ place regs b → a ≡ b
unfolding allocate_registers
place-injective fn a b h k e =
    let lc = count_locals fn in
    let pc = count_params fn in
    let called = blocks_call (blocks_of fn) in
    let few = count_locals-le fn in
    let fewp = count_params-le fn in
    rule-injective lc pc called few fewp a b (Live-EntityLive lc pc called few fewp a h)
      (Live-EntityLive lc pc called few fewp b k)
      (sym (place-entity_rule lc pc called few fewp a h)
        ∙ e
        ∙ place-entity_rule lc pc called few fewp b k)

rule_in_frame :
    (lc pc : ℕ) (called : Bool) (few : lc ≤ max_locals) (fewp : pc ≤ max_params) (a : Entity)
    → EntityLive lc pc called few fewp a
    → (entity_rule lc pc called few fewp a).kind ≡ stack_spill
    → let disp = (entity_rule lc pc called few fewp a).stack_disp in
      (8 ≤ disp) × (disp % 8 ≡ 0) × (disp ≤ 8 * (lc + pc))
rule_in_frame lc pc called few fewp (Entity.preserved i) h s = ground arith
rule_in_frame lc pc called few fewp (Entity.local i) h s = ground arith
rule_in_frame lc pc called few fewp (Entity.param i) h s = ground arith

-- Every place on the stack is an aligned 8-byte slot inside the frame, and the frame keeps the
-- stack pointer 16-byte aligned.
pub place_in_frame :
    (fn : Option Function) (a : Entity)
    → let regs = allocate_registers fn in
      Live regs a
      → (place regs a).kind ≡ stack_spill
      → (8 ≤ (place regs a).stack_disp)
        × ((place regs a).stack_disp % 8 ≡ 0)
        × ((place regs a).stack_disp ≤ regs.stack_frame_size)
        × (regs.stack_frame_size % 16 ≡ 0)
unfolding allocate_registers
place_in_frame fn a h s =
    let lc = count_locals fn in
    let pc = count_params fn in
    let called = blocks_call (blocks_of fn) in
    let few = count_locals-le fn in
    let fewp = count_params-le fn in
    let at = place-entity_rule lc pc called few fewp a h in
    let size = stack_frame_size-lay_out lc pc called few fewp in
    let slot =
      rule_in_frame lc pc called few fewp a (Live-EntityLive lc pc called few fewp a h)
        (ap (λ (l : RegLocation). l.kind) (sym at) ∙ s) in
    rw (at, size) (slot.0, slot.1, ground arith, ground arith)
