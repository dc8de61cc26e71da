-- ===== src/Lowerer/Access.antt =====
-- What the code of `load_operand` and `store_operand` of src/backend/ana_lowerer.cpp does to the
-- places of the registers.
use anastasia.Base.{ℕ, ◌^◌, ◌<◌, ◌≡◌, ◌≢◌, ◌⊎◌, inl, inr, refl, ap, ◌∙◌, Bool, false, arith, subst}
use anastasia.Ast.{Register, Operand, register, const_int}
use anastasia.RegAlloc.{RegLocation, AnaRegAlloc}
use anastasia.RegAlloc.Layout.{Entity, place, Live}
use anastasia.RegAlloc.Contract.{Placed, slot, in_register, IsLayout, IsSaved}
use anastasia.Encoder.Integer.{mov_reg_mem}
use anastasia.Encoder.Prefix.{Code}
use anastasia.Lowerer.Cpu.{Cpu, set_reg, load64}
use anastasia.Lowerer.Runs.{Computes, Computes-nil, Computes-mov_reg_mem, Computes-mov_reg_imm64}
use anastasia.Lowerer.Operands.{neg32, load_location, load_operand}
use anastasia.Lowerer.Slots.{
  HoldsBut, IsScratch, FrameAt, fetch, entity_of, get_reg_loc-place, rbp_address, HoldsBut-set_reg,
  same_entity,
}

-- An operand that has a value: a register with a place, or a constant.
pub data IsSource (a : AnaRegAlloc) : Operand → Type 0 where
  in_place : (r : Register) → Live a (entity_of r) → IsSource a (register r)
  literal : (v : ℕ) → v < 2 ^ 64 → IsSource a (const_int v)

abbrev pub value : (Entity → ℕ) → Operand → ℕ
value contents (register r) = contents (entity_of r)
value contents (const_int v) = v
value contents _ = 0

abbrev pub no_entity : Entity → Bool
no_entity _ = false

-- After `code`, which may change the register `scratch`, the places hold what they held and `reg`
-- holds `v`.
pub record Loads (a : AnaRegAlloc) (base : ℕ) (ref : Cpu) (contents : Entity → ℕ) (scratch : ℕ)
    (c : Cpu) (v : ℕ) (load : Code × ℕ) : Type 0 where
  pub after : Cpu
  pub computes : Computes load.0 c after
  pub holds : HoldsBut a base ref contents no_entity after
  pub value_in : after.gpr load.1 ≡ v
  pub others : (r : ℕ) → r ≢ scratch → after.gpr r ≡ c.gpr r
  pub reg_is : (load.1 ≡ scratch) ⊎ IsSaved load.1

-- After `code` the places hold `contents`.
pub record Stores (a : AnaRegAlloc) (base : ℕ) (ref : Cpu) (contents : Entity → ℕ) (c : Cpu)
    (code : Code) : Type 0 where
  pub after : Cpu
  pub computes : Computes code c after
  pub holds : HoldsBut a base ref contents no_entity after

abbrev pub is_entity : Entity → Entity → Bool
is_entity x y = same_entity y x

module _ (a : AnaRegAlloc) (laid : IsLayout a) (base : ℕ) (fits : FrameAt a base) (ref : Cpu)
    (contents : Entity → ℕ) where
  set_scratch :
      (load : Code) (scratch v : ℕ) (c : Cpu)
      → IsScratch scratch
      → HoldsBut a base ref contents no_entity c
      → Computes load c (set_reg scratch v c)
      → Loads a base ref contents scratch c v (load, scratch)
  set_scratch load scratch v c s h run = record {
    after = set_reg scratch v c;
    computes = run;
    holds = HoldsBut-set_reg a laid base fits ref contents no_entity scratch v c s h;
    value_in = ground arith;
    others = λ r n. ground arith;
    reg_is = inl refl;
  }

  load_location-Loads :
      (l : RegLocation) (scratch v : ℕ) (c : Cpu)
      → IsScratch scratch
      → HoldsBut a base ref contents no_entity c
      → Placed a.stack_frame_size l
      → fetch l c ≡ v
      → Loads a base ref contents scratch c v (load_location l scratch)
  load_location-Loads l scratch v c s h (in_register r e saved) f = rw e (record {
    after = c;
    computes = Computes-nil c;
    holds = h;
    value_in = rw e at f;
    others = λ r n. refl;
    reg_is = inr saved;
  })
  load_location-Loads l scratch v c s h (slot d e lo al hi) f =
      let small = laid.small in
      let at_slot = rbp_address a c d (ground (arith, h.frame)) small lo hi in
      let moved =
        Computes-mov_reg_mem scratch 5 (neg32 d) c (ground arith) (omega arith) (omega arith) in
      rw e (
        set_scratch (mov_reg_mem scratch 5 (neg32 d)) scratch v c s h (
          subst (λ w. Computes (mov_reg_mem scratch 5 (neg32 d)) c (set_reg scratch w c))
            (ap (load64 c.memory) at_slot ∙ rw e at f) moved))

  pub load_operand-Loads :
      (o : Operand) (scratch : ℕ) (c : Cpu)
      → IsScratch scratch
      → HoldsBut a base ref contents no_entity c
      → IsSource a o
      → Loads a base ref contents scratch c (value contents o) (load_operand a o scratch)
  unfolding load_operand
  load_operand-Loads _ scratch c s h (literal v k) =
      set_scratch _ scratch v c s h (Computes-mov_reg_imm64 scratch v c (ground arith) k)
  load_operand-Loads _ scratch c s h (in_place r live) = rw (get_reg_loc-place a r) (
      load_location-Loads (place a (entity_of r)) scratch (contents (entity_of r)) c s h
        (laid.placed (entity_of r) live) (h.holds (entity_of r) live refl))
