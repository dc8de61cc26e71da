-- ===== src/RegAlloc/Contract.antt =====
-- What src/backend/ana_lowerer.cpp relies on in an allocation of src/backend/ana_regalloc.cpp: every
-- entity in use has a place of its own, a slot of the frame or a callee-saved register.
use anastasia.Base.{
  ℕ, ◌+◌, ◌-◌, ◌*◌, ◌%◌, ◌^◌, ◌≤◌, ◌<◌, ◌≡◌, ◌⊎◌, inl, inr, refl, ap, ◌∙◌, Bool, Option, arith, leb,
  ltb, ◌||◌, if◌then◌else◌, Bool-cases,
}
use anastasia.Ast.{Function}
use anastasia.RegAlloc.{
  RegLocation, stack_spill, AnaRegAlloc, max_locals, max_params, saved_reg, physical, spilled,
  frame_bytes, lay_out, count_locals, count_params, blocks_call, blocks_of, allocate_registers,
}
use anastasia.RegAlloc.Layout.{
  Entity, place, Live, entity_rule, EntityLive, saved_count, stack_frame_size-lay_out,
  place-entity_rule, Live-EntityLive, EntityLive-Live,
}
use anastasia.RegAlloc.Places.{place-injective, count_locals-le, count_params-le}

-- RBX, R12 or R13.
abbrev pub IsSaved : ℕ → Type 0
IsSaved r = (r ≡ 3) ⊎ (r ≡ 12) ⊎ (r ≡ 13)

-- A slot of the frame, or a register.
pub data Placed (size : ℕ) (l : RegLocation) : Type 0 where
  slot : (d : ℕ) → l ≡ spilled d → 8 ≤ d → d % 8 ≡ 0 → d ≤ size → Placed size l
  in_register : (r : ℕ) → l ≡ physical r → IsSaved r → Placed size l

pub record IsLayout (a : AnaRegAlloc) : Type 0 where
  pub injective : (x y : Entity) → Live a x → Live a y → place a x ≡ place a y → x ≡ y
  pub placed : (x : Entity) → Live a x → Placed a.stack_frame_size (place a x)
  pub small : a.stack_frame_size < 2 ^ 31
  pub saved_few : a.saved_reg_count ≤ 3
  pub saved_local :
      (i : ℕ)
      → i < a.saved_reg_count
      → Live a (Entity.local i) × (place a (Entity.local i) ≡ physical (saved_reg i))
  pub param_slot : (i : ℕ) → Live a (Entity.param i) → (place a (Entity.param i)).kind ≡ stack_spill

abbrev frame_rule : ℕ → ℕ → Bool → ℕ
frame_rule lc pc called = if ltb 0 (lc + pc) || called then frame_bytes (lc + pc) else 0

saved_reg-IsSaved : (j : ℕ) → j < 3 → IsSaved (saved_reg j)
saved_reg-IsSaved j h = ground arith

rule-Placed :
    (lc pc : ℕ) (called : Bool) (few : lc ≤ max_locals) (fewp : pc ≤ max_params) (x : Entity)
    → EntityLive lc pc called few fewp x
    → Placed (frame_rule lc pc called) (entity_rule lc pc called few fewp x)
rule-Placed lc pc called few fewp (Entity.preserved i) h =
    slot (8 * (i + 1)) refl (omega arith) (omega arith) (ground arith)
rule-Placed lc pc called few fewp (Entity.param i) h =
    slot (8 * (saved_count lc pc called few fewp + (lc - 3) + 1 + i)) refl (omega arith)
      (omega arith) (ground arith)
rule-Placed lc pc called few fewp (Entity.local i) h = elim (Bool-cases (leb 3 i)) [
  | inl e ↦ rw e (
      slot (8 * (saved_count lc pc called few fewp + (i - 3) + 1)) refl (omega arith) (omega arith)
        (ground arith))
  | inr e ↦ rw e (in_register (saved_reg i) refl (saved_reg-IsSaved i (ground arith)))
]

lay_out-Placed :
    (lc pc : ℕ) (called : Bool) (few : lc ≤ max_locals) (fewp : pc ≤ max_params) (x : Entity)
    → Live (lay_out lc pc called) x
    → Placed (lay_out lc pc called).stack_frame_size (place (lay_out lc pc called) x)
lay_out-Placed lc pc called few fewp x h =
    rw (place-entity_rule lc pc called few fewp x h, stack_frame_size-lay_out lc pc called few fewp)
      (rule-Placed lc pc called few fewp x (Live-EntityLive lc pc called few fewp x h))

lay_out-small :
    (lc pc : ℕ) (called : Bool) (few : lc ≤ max_locals) (fewp : pc ≤ max_params)
    → (lay_out lc pc called).stack_frame_size < 2 ^ 31
lay_out-small lc pc called few fewp =
    rw (stack_frame_size-lay_out lc pc called few fewp) (ground arith)

lay_out-saved_local :
    (lc pc : ℕ) (called : Bool) (few : lc ≤ max_locals) (fewp : pc ≤ max_params) (i : ℕ)
    → i < (lay_out lc pc called).saved_reg_count
    → Live (lay_out lc pc called) (Entity.local i)
      × (place (lay_out lc pc called) (Entity.local i) ≡ physical (saved_reg i))
lay_out-saved_local lc pc called few fewp i h =
    let saved : EntityLive lc pc called few fewp (Entity.preserved i) =
      Live-EntityLive lc pc called few fewp (Entity.preserved i) h in
    let used : EntityLive lc pc called few fewp (Entity.local i) = ground arith in
    let live = EntityLive-Live lc pc called few fewp (Entity.local i) used in
    (live, place-entity_rule lc pc called few fewp (Entity.local i) live ∙ ground arith)

lay_out-param_slot :
    (lc pc : ℕ) (called : Bool) (few : lc ≤ max_locals) (fewp : pc ≤ max_params) (i : ℕ)
    → Live (lay_out lc pc called) (Entity.param i)
    → (place (lay_out lc pc called) (Entity.param i)).kind ≡ stack_spill
lay_out-param_slot lc pc called few fewp i h =
    ap (λ (l : RegLocation). l.kind) (place-entity_rule lc pc called few fewp (Entity.param i) h)

lay_out-saved_few : (lc pc : ℕ) (called : Bool) → (lay_out lc pc called).saved_reg_count ≤ 3
unfolding lay_out
lay_out-saved_few lc pc called = ground arith

-- Every allocation keeps these laws.
pub allocate_registers-IsLayout : (fn : Option Function) → IsLayout (allocate_registers fn)
unfolding allocate_registers
allocate_registers-IsLayout fn =
    let lc = count_locals fn in
    let pc = count_params fn in
    let called = blocks_call (blocks_of fn) in
    let few = count_locals-le fn in
    let fewp = count_params-le fn in
    record {
      injective = place-injective fn;
      placed = lay_out-Placed lc pc called few fewp;
      small = lay_out-small lc pc called few fewp;
      saved_few = lay_out-saved_few lc pc called;
      saved_local = lay_out-saved_local lc pc called few fewp;
      param_slot = lay_out-param_slot lc pc called few fewp;
    }
