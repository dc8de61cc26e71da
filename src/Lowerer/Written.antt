-- ===== src/Lowerer/Written.antt =====
-- What `store_operand` of src/backend/ana_lowerer.cpp does to the places of the registers.
use anastasia.Base.{
  ℕ, ◌+◌, ◌-◌, ◌%◌, ◌^◌, ◌≤◌, ◌<◌, ◌≡◌, ◌≢◌, ◌⊎◌, inl, inr, refl, sym, ap, ◌∙◌, true, false, arith,
  Bool-cases, subst,
}
use anastasia.Ast.{Register}
use anastasia.RegAlloc.{AnaRegAlloc, physical, spilled}
use anastasia.RegAlloc.Layout.{Entity, place, Live}
use anastasia.RegAlloc.Contract.{Placed, slot, in_register, IsLayout, IsSaved}
use anastasia.Encoder.Integer.{mov_mem_reg}
use anastasia.Lowerer.Cpu.{Cpu, set_reg, store64}
use anastasia.Lowerer.Cells.{store64_miss}
use anastasia.Lowerer.Runs.{Computes, Computes-move_if_other, Computes-mov_mem_reg}
use anastasia.Lowerer.Operands.{rbp, neg32, store_location, store_operand, dst_reg, physical_or}
use anastasia.Lowerer.Slots.{
  HoldsBut, IsScratch, IsQuiet, FrameAt, fetch, entity_of, get_reg_loc-place, rbp_address, stored,
  HoldsBut-set_reg, updated, same_entity, same_entity-≡, same_entity_refl, fetch-stored,
  fetch-stored_same, fetch-set_reg,
}
use anastasia.Lowerer.Access.{Stores, is_entity, no_entity}

module _ (a : AnaRegAlloc) (laid : IsLayout a) (base : ℕ) (fits : FrameAt a base) (ref : Cpu)
    (contents : Entity → ℕ) where
  place_apart :
      (x y : Entity) → Live a x → Live a y → same_entity y x ≡ false → place a y ≢ place a x
  place_apart x y h k n q =
      let e : y ≡ x = laid.injective y x k h q in
      let same : same_entity y x ≡ true = rw e (same_entity_refl x) in ground arith

  -- The place of `x` gets `v`, the others are left alone.
  HoldsBut-updated :
      (x : Entity) (v : ℕ) (c after : Cpu)
      → v < 2 ^ 64
      → HoldsBut a base ref contents (is_entity x) c
      → after.gpr 5 ≡ c.gpr 5
      → fetch (place a x) after ≡ v
      → ((y : Entity)
          → Live a y
          → place a y ≢ place a x
          → fetch (place a y) after ≡ fetch (place a y) c)
      → ((m : ℕ)
          → m < 2 ^ 64
          → (m + a.stack_frame_size < base) ⊎ (base ≤ m)
          → after.memory m ≡ c.memory m)
      → ((r : ℕ) → IsQuiet a r → after.gpr r ≡ c.gpr r)
      → Live a x
      → HoldsBut a base ref (updated contents x v) no_entity after
  HoldsBut-updated x v c after small h f here there far calm live_x = record {
    frame = f ∙ h.frame;
    words = word;
    holds = λ y live _. at_place y live;
    outside = λ m k out. far m k out ∙ h.outside m k out;
    quiet = λ r q. calm r q ∙ h.quiet r q;
  }
    where
      word : (y : Entity) → updated contents x v y < 2 ^ 64
      word y = elim (Bool-cases (same_entity y x)) [ inl e ↦ rw e small | inr e ↦ rw e (h.words y) ]

      at_place : (y : Entity) → Live a y → fetch (place a y) after ≡ updated contents x v y
      at_place y live = elim (Bool-cases (same_entity y x)) [
        | inl e ↦ rw (e, same_entity-≡ y x e) here
        | inr e ↦ rw e (there y live (place_apart x y live_x live e) ∙ h.holds y live e)
      ]

  set_quiet :
      (x : Entity) (r q v : ℕ) (c : Cpu)
      → place a x ≡ physical r
      → IsQuiet a q
      → Live a x
      → (set_reg r v c).gpr q ≡ c.gpr q
  set_quiet x r q v c p calm live =
      let other : q ≢ r = λ e. calm.4 x live (p ∙ ap physical (sym e)) in ground arith

  -- A store into the slot of `x` changes no register.
  pub store_slot :
      (x : Entity) (d src v : ℕ) (c : Cpu)
      → place a x ≡ spilled d
      → 8 ≤ d
      → d % 8 ≡ 0
      → d ≤ a.stack_frame_size
      → Live a x
      → src < 16
      → v < 2 ^ 64
      → HoldsBut a base ref contents (is_entity x) c
      → c.gpr src ≡ v
      → (s : Stores a base ref (updated contents x v) c (mov_mem_reg rbp (neg32 d) src))
        × (s.after.gpr ≡ c.gpr)
  store_slot x d src v c p lo al hi live k small h e =
      let at_slot = rbp_address a c d (ground (arith, h.frame)) laid.small lo hi in
      let moved = Computes-mov_mem_reg 5 (neg32 d) src c k (omega arith) (omega arith) in
      let same = fetch-stored_same a laid base fits d v c h.frame small in
      (
        record {
          after = stored a laid base fits d v c;
          computes =
              subst (λ w. Computes (mov_mem_reg 5 (neg32 d) src) c (record c { memory = w }))
                (ap (λ z. store64 z (c.gpr src) c.memory) at_slot
                  ∙ ap (λ w. store64 (c.gpr 5 - d) w c.memory) e)
                moved;
          holds =
              HoldsBut-updated x v c (stored a laid base fits d v c) small h refl (rw p same)
                (λ y live_y apart.
                  fetch-stored a laid base fits (place a y) d v c h.frame (laid.placed y live_y) lo
                    al hi (rw p at apart))
                (λ m below out.
                  store64_miss (c.gpr 5 - d) v c.memory m (omega (arith, h.frame)) below
                    (ground (arith, h.frame)))
                (λ r _. refl) live;
        },
        refl,
      )

  store_location-Stores :
      (x : Entity) (src v : ℕ) (c : Cpu)
      → Live a x
      → src < 16
      → v < 2 ^ 64
      → HoldsBut a base ref contents (is_entity x) c
      → c.gpr src ≡ v
      → Placed a.stack_frame_size (place a x)
      → Stores a base ref (updated contents x v) c (store_location (place a x) src)
  store_location-Stores x src v c live k small h e (in_register r p saved) =
      let wide : r < 16 = ground arith in
      rw p (record {
        after = set_reg r (c.gpr src) c;
        computes = Computes-move_if_other r src c wide k;
        holds =
            HoldsBut-updated x v c (set_reg r (c.gpr src) c) small h (ground arith)
              (rw p (ground (arith, e)))
              (λ y live_y apart.
                fetch-set_reg a laid base fits (place a y) r (c.gpr src) c (laid.placed y live_y)
                  (ground arith) (rw p at apart))
              (λ m _ _. refl) (λ q calm. set_quiet x r q (c.gpr src) c p calm live) live;
      })
  store_location-Stores x src v c live k small h e (slot d p lo al hi) =
      rw p (store_slot x d src v c p lo al hi live k small h e).0

  -- Whatever place a live entity has, `store_operand` writes it and no other.
  pub store_operand-Stores :
      (r : Register) (src v : ℕ) (c : Cpu)
      → Live a (entity_of r)
      → src < 16
      → v < 2 ^ 64
      → HoldsBut a base ref contents (is_entity (entity_of r)) c
      → c.gpr src ≡ v
      → Stores a base ref (updated contents (entity_of r) v) c (store_operand a r src)
  unfolding store_operand
  store_operand-Stores r src v c live k small h e = rw (get_reg_loc-place a r) (
      store_location-Stores (entity_of r) src v c live k small h e (laid.placed (entity_of r) live))

  -- The register of a live entity, or the scratch register, may change while the entity is written.
  pub HoldsBut-dst_reg :
      (r : Register) (scratch v : ℕ) (c : Cpu)
      → Live a (entity_of r)
      → IsScratch scratch
      → HoldsBut a base ref contents (is_entity (entity_of r)) c
      → HoldsBut a base ref contents (is_entity (entity_of r)) (set_reg (dst_reg a r scratch) v c)
  unfolding dst_reg
  HoldsBut-dst_reg r scratch v c live s h =
      rw (get_reg_loc-place a r) (placed (laid.placed (entity_of r) live))
    where
      placed :
          Placed a.stack_frame_size (place a (entity_of r))
          → HoldsBut a base ref contents
              (is_entity (entity_of r))
              (set_reg (physical_or (place a (entity_of r)) scratch) v c)
      placed (slot d e lo al hi) =
          rw e (
            HoldsBut-set_reg a laid base fits ref contents (is_entity (entity_of r)) scratch v c s
              h)
      placed (in_register t e saved) = rw e (record {
        frame = ground (arith, h.frame);
        words = h.words;
        holds = λ y live_y kept.
            fetch-set_reg a laid base fits (place a y) t v c (laid.placed y live_y) (ground arith)
              (rw e at (place_apart (entity_of r) y live live_y kept))
            ∙ h.holds y live_y kept;
        outside = h.outside;
        quiet = λ q calm. set_quiet (entity_of r) t q v c e calm live ∙ h.quiet q calm;
      })

  pub dst_reg-lt :
      (r : Register) (scratch : ℕ)
      → Live a (entity_of r)
      → IsScratch scratch
      → (dst_reg a r scratch ≡ scratch) ⊎ IsSaved (dst_reg a r scratch)
  unfolding dst_reg
  dst_reg-lt r scratch live s = rw (get_reg_loc-place a r) (placed (laid.placed (entity_of r) live))
    where
      placed :
          Placed a.stack_frame_size (place a (entity_of r))
          → (physical_or (place a (entity_of r)) scratch ≡ scratch)
            ⊎ IsSaved (physical_or (place a (entity_of r)) scratch)
      placed (slot d e lo al hi) = rw e (inl refl)
      placed (in_register t e saved) = rw e (inr saved)
