-- ===== src/Lowerer/Slots.antt =====
-- The frame of a function under src/backend/ana_lowerer.cpp: the laws of a register allocation that
-- the lowering relies on, which `allocate_registers` of src/backend/ana_regalloc.cpp keeps, and what
-- the places of the registers hold on the processor.
use anastasia.Base.{
  ℕ, ◌+◌, ◌-◌, ◌%◌, ◌^◌, ◌≤◌, ◌<◌, ◌≡◌, ◌≢◌, ◌⊎◌, refl, sym, ap, ◌∙◌, Bool, true, false, ◌==◌,
  if◌then◌else◌, arith,
}
use anastasia.Ast.{Register, RegisterType}
use anastasia.RegAlloc.{
  RegLocation, physical_reg, stack_spill, AnaRegAlloc, physical, spilled, get_reg_loc,
}
use anastasia.RegAlloc.Layout.{Entity, place, Live}
use anastasia.RegAlloc.Contract.{Placed, slot, in_register, IsLayout}
use anastasia.Lowerer.Cpu.{Cpu, set_reg, load64, store64, address}
use anastasia.Lowerer.Cells.{load64-store64, load64-store64_apart}
use anastasia.Lowerer.Operands.{neg32}

abbrev pub entity_of : Register → Entity
entity_of r = elim r.type [ RegisterType.param ↦ Entity.param r.index | _ ↦ Entity.local r.index ]

pub get_reg_loc-place : (a : AnaRegAlloc) (r : Register) → get_reg_loc a r ≡ place a (entity_of r)
unfolding get_reg_loc
get_reg_loc-place a r = typed r.type r.index
  where
    typed :
        (t : RegisterType) (i : ℕ)
        → let r : Register = record { type = t; index = i } in
          get_reg_loc a r ≡ place a (entity_of r)
    typed RegisterType.untyped i = refl
    typed RegisterType.param i = refl
    typed RegisterType.local i = refl

-- What a place holds; a slot is below RBP.
abbrev pub fetch : RegLocation → Cpu → ℕ
fetch l c = elim l.kind [
  | physical_reg ↦ c.gpr l.phys_reg
  | stack_spill ↦ load64 c.memory (c.gpr 5 - l.stack_disp)
]

abbrev pub same_entity : Entity → Entity → Bool
same_entity (Entity.preserved i) (Entity.preserved j) = i == j
same_entity (Entity.local i) (Entity.local j) = i == j
same_entity (Entity.param i) (Entity.param j) = i == j
same_entity _ _ = false

pub same_entity-≡ : (x y : Entity) → same_entity x y ≡ true → x ≡ y
same_entity-≡ x y h = ground arith

pub same_entity_refl : (x : Entity) → same_entity x x ≡ true
same_entity_refl x = ground arith

-- The contents with `x` replaced.
abbrev pub updated : (Entity → ℕ) → Entity → ℕ → Entity → ℕ
updated contents x v y = if same_entity y x then v else contents y

-- The frame whose base is in RBP lies in the address space.
abbrev pub FrameAt : AnaRegAlloc → ℕ → Type 0
FrameAt a base = (a.stack_frame_size ≤ base) × (base < 2 ^ 64)

pub rbp_address :
    (a : AnaRegAlloc) (c : Cpu) (d : ℕ)
    → FrameAt a (c.gpr 5)
    → a.stack_frame_size < 2 ^ 31
    → 8 ≤ d
    → d ≤ a.stack_frame_size
    → address 5 (neg32 d) c ≡ c.gpr 5 - d
rbp_address a c d h s k l = ground arith

-- A register that the code of a function leaves alone: no scratch register, and the place of no
-- live entity.
abbrev pub IsQuiet : AnaRegAlloc → ℕ → Type 0
IsQuiet a r =
    (r ≢ 0) × (r ≢ 1) × (r ≢ 11) × (r ≢ 5) × ((y : Entity) → Live a y → place a y ≢ physical r)

-- RBP holds `base`, and the place of every live entity that is not skipped holds its contents, a
-- 64-bit word. The memory outside the frame and the quiet registers are as in `ref`.
pub record HoldsBut (a : AnaRegAlloc) (base : ℕ) (ref : Cpu) (contents : Entity → ℕ)
    (skipped : Entity → Bool) (c : Cpu) : Type 0 where
  pub frame : c.gpr 5 ≡ base
  pub words : (y : Entity) → contents y < 2 ^ 64
  pub holds : (y : Entity) → Live a y → skipped y ≡ false → fetch (place a y) c ≡ contents y
  pub outside :
      (x : ℕ)
      → x < 2 ^ 64
      → (x + a.stack_frame_size < base) ⊎ (base ≤ x)
      → c.memory x ≡ ref.memory x
  pub quiet : (r : ℕ) → IsQuiet a r → c.gpr r ≡ ref.gpr r

-- A register that is the place of no entity and not RBP.
abbrev pub IsScratch : ℕ → Type 0
IsScratch r = (r ≡ 0) ⊎ (r ≡ 1) ⊎ (r ≡ 11)

module _ (a : AnaRegAlloc) (laid : IsLayout a) (base : ℕ) (fits : FrameAt a base) where
  pub fetch-set_reg :
      (l : RegLocation) (r v : ℕ) (c : Cpu)
      → Placed a.stack_frame_size l
      → r ≢ 5
      → l ≢ physical r
      → fetch l (set_reg r v c) ≡ fetch l c
  fetch-set_reg l r v c (slot d e _ _ _) n apart = rw e (ground arith)
  fetch-set_reg l r v c (in_register s e _) n apart = rw e (grind arith)

  -- A store into a slot of the frame.
  abbrev pub stored : ℕ → ℕ → Cpu → Cpu
  stored d v c = record c { memory = store64 (c.gpr 5 - d) v c.memory }

  pub fetch-stored :
      (l : RegLocation) (d v : ℕ) (c : Cpu)
      → c.gpr 5 ≡ base
      → Placed a.stack_frame_size l
      → 8 ≤ d
      → d % 8 ≡ 0
      → d ≤ a.stack_frame_size
      → l ≢ spilled d
      → fetch l (stored d v c) ≡ fetch l c
  fetch-stored l d v c f (in_register s e _) lo al hi n = rw e refl
  fetch-stored l d v c f (slot d' e lo' al' hi') lo al hi n =
      let other : d ≢ d' = λ q. n (e ∙ ap spilled (sym q)) in
      rw e (
        load64-store64_apart (c.gpr 5 - d) (c.gpr 5 - d') v c.memory (omega arith) (omega arith)
          (ground arith))

  pub fetch-stored_same :
      (d v : ℕ) (c : Cpu) → c.gpr 5 ≡ base → v < 2 ^ 64 → fetch (spilled d) (stored d v c) ≡ v
  fetch-stored_same d v c f h = load64-store64 (c.gpr 5 - d) v c.memory (omega arith) h

  module _ (ref : Cpu) (contents : Entity → ℕ) where
    not_scratch :
        (l : RegLocation) (r : ℕ) → Placed a.stack_frame_size l → IsScratch r → l ≢ physical r
    not_scratch l r (slot d e _ _ _) s q =
        ground (arith, ap (λ (m : RegLocation). m.kind) (sym e ∙ q))
    not_scratch l r (in_register t e saved) s q =
        ground (arith, ap (λ (m : RegLocation). m.phys_reg) (sym e ∙ q))

    -- A scratch register may change.
    pub HoldsBut-set_reg :
        (skipped : Entity → Bool) (r v : ℕ) (c : Cpu)
        → IsScratch r
        → HoldsBut a base ref contents skipped c
        → HoldsBut a base ref contents skipped (set_reg r v c)
    HoldsBut-set_reg skipped r v c s h = record {
      frame = ground (arith, h.frame);
      words = h.words;
      holds = λ y live kept.
          fetch-set_reg (place a y) r v c (laid.placed y live) (ground arith)
            (not_scratch (place a y) r (laid.placed y live) s)
          ∙ h.holds y live kept;
      outside = h.outside;
      quiet = λ q calm. ground (arith, h.quiet q calm);
    }
