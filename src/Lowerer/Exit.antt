-- ===== src/Lowerer/Exit.antt =====
-- The stack in src/backend/ana_lowerer.cpp: PUSH and POP of RBP, and the epilogue, which gives the
-- callee-saved registers their values back.
use anastasia.Base.{
  ℕ, zero, suc, ◌+◌, ◌≤◌, ◌<◌, ◌≡◌, ◌≢◌, inl, inr, refl, sym, ap, ◌∙◌, Bool, true, false, arith,
  subst, Bool-cases, ==_iff, ◌==◌,
}
use anastasia.RegAlloc.{AnaRegAlloc, RegLocation, stack_spill, physical, saved_reg, saved_reg_disp}
use anastasia.RegAlloc.Layout.{Entity, Live, place, saved_reg-injective}
use anastasia.RegAlloc.Contract.{IsLayout}
use anastasia.Encoder.Prefix.{Code}
use anastasia.Encoder.Decode.{direct, split_prefix, split_rex}
use anastasia.Encoder.Disassemble.{Mnemonic, Insn, implied, decode}
use anastasia.Encoder.Integer.{mov_reg_mem}
use anastasia.Encoder.System.{push_reg, pop_reg}
use anastasia.Lowerer.Cpu.{Cpu, set_reg, load64, execute, push_word, pop_word}
use anastasia.Lowerer.Runs.{
  Computes, Computes-nil, Computes-append, Computes-insn, Computes-mov_reg_mem,
}
use anastasia.Lowerer.Operands.{rbp, neg32}
use anastasia.Lowerer.Frame.{restore_from}
use anastasia.Lowerer.Slots.{HoldsBut, FrameAt, fetch-set_reg, rbp_address}
use anastasia.Lowerer.Entry.{slot_bounds}

abbrev stack_insn : Mnemonic → Insn
stack_insn m = record { locked = false; wide = false; op = m; target = direct 5; source = implied }

pub Computes-push_rbp : (c : Cpu) → Computes (push_reg rbp) c (push_word (c.gpr 5) c)
unfolding push_reg decode execute split_prefix split_rex
Computes-push_rbp c =
    Computes-insn {code = push_reg rbp} (stack_insn Mnemonic.push) (λ rest. refl) refl

pub Computes-pop_rbp : (c : Cpu) → Computes (pop_reg rbp) c (pop_word 5 c)
unfolding pop_reg decode execute split_prefix split_rex
Computes-pop_rbp c =
    Computes-insn {code = pop_reg rbp} (stack_insn Mnemonic.pop) (λ rest. refl) refl

abbrev pub is_local : Entity → Bool
is_local (Entity.local i) = true
is_local _ = false

module _ (a : AnaRegAlloc) (laid : IsLayout a) (base : ℕ) (fits : FrameAt a base) (ref : Cpu)
    (contents : Entity → ℕ) (v : ℕ) where
  -- The first `n` callee-saved registers have their values back, and RAX has the result.
  pub record Restored (n : ℕ) (c : Cpu) : Type 0 where
    pub holds : HoldsBut a base ref contents is_local c
    pub back : (j : ℕ) → j < n → c.gpr (saved_reg j) ≡ contents (Entity.preserved j)
    pub result : c.gpr 0 ≡ v

  pub record Restores (n : ℕ) (c : Cpu) (code : Code) : Type 0 where
    pub after : Cpu
    pub computes : Computes code c after
    pub restored : Restored n after

  slot_apart : (l : RegLocation) (r : ℕ) → l.kind ≡ stack_spill → l ≢ physical r
  slot_apart l r k q = let same = ap (λ (m : RegLocation). m.kind) q in ground arith

  other_slot : (y : Entity) → Live a y → is_local y ≡ false → (place a y).kind ≡ stack_spill
  other_slot (Entity.preserved i) live k = refl
  other_slot (Entity.local i) live k = ground arith
  other_slot (Entity.param i) live k = laid.param_slot i live

  Restored-back :
      (i j : ℕ) (c : Cpu)
      → a.saved_reg_count ≤ 3
      → i < a.saved_reg_count
      → j < i + 1
      → Restored i c
      → (set_reg (saved_reg i) (contents (Entity.preserved i)) c).gpr (saved_reg j)
        ≡ contents (Entity.preserved j)
  Restored-back i j c few h k s = elim (Bool-cases (j == i)) [
    | inl e ↦ rw ((==_iff j i).0 e) (ground arith)
    | inr e ↦
        let other : saved_reg j ≢ saved_reg i =
          λ q. (let same = saved_reg-injective j i (omega arith) (omega arith) q in ground arith) in
        ground (arith, s.back j (ground arith))
  ]

  -- Another callee-saved register.
  restore_one :
      (i : ℕ) (c : Cpu)
      → i < a.saved_reg_count
      → Restored i c
      → Restored (i + 1) (set_reg (saved_reg i) (contents (Entity.preserved i)) c)
  restore_one i c h s =
      let few = laid.saved_few in
      let r = saved_reg i in
      let w = contents (Entity.preserved i) in
      let (live, at) = laid.saved_local i h in
      record {
        holds = record {
          frame = ground (arith, s.holds.frame);
          words = s.holds.words;
          holds = λ y live_y kept.
              fetch-set_reg a laid base fits (place a y) r w c (laid.placed y live_y) (ground arith)
                (slot_apart (place a y) r (other_slot y live_y kept))
              ∙ s.holds.holds y live_y kept;
          outside = s.holds.outside;
          quiet = λ q calm.
              let other : q ≢ r = λ e. calm.4 (Entity.local i) live (at ∙ ap physical (sym e)) in
              ground (arith, s.holds.quiet q calm);
        };
        back = λ j k. Restored-back i j c few h k s;
        result = ground (arith, s.result);
      }

  pub restore_from-Restores :
      (n i m : ℕ) (c : Cpu)
      → i + n ≡ m
      → m ≡ a.saved_reg_count
      → Restored i c
      → Restores m c (restore_from n i)
  unfolding restore_from
  restore_from-Restores zero i m c e q s =
      let end : m ≡ i = omega arith in
      rw end (record { after = c; computes = Computes-nil c; restored = s })
  restore_from-Restores (suc n) i m c e q s =
      let live : i < a.saved_reg_count = omega arith in
      let few = laid.saved_few in
      let d = saved_reg_disp i in
      let bounds =
        slot_bounds (place a (Entity.preserved i)) d refl (laid.placed (Entity.preserved i) live) in
      let at_slot =
        rbp_address a c d (ground (arith, s.holds.frame)) laid.small bounds.0 bounds.2 in
      let loaded =
        Computes-mov_reg_mem (saved_reg i) rbp (neg32 d) c (ground arith) (omega arith)
          (omega arith) in
      let w = contents (Entity.preserved i) in
      let one =
        subst
          (λ u. Computes (mov_reg_mem (saved_reg i) rbp (neg32 d)) c (set_reg (saved_reg i) u c))
          (ap (load64 c.memory) at_slot ∙ s.holds.holds (Entity.preserved i) live refl) loaded in
      let rest =
        restore_from-Restores n (i + 1) m (set_reg (saved_reg i) w c) (omega arith) q
          (restore_one i c live s) in
      record {
        after = rest.after;
        computes = Computes-append one rest.computes;
        restored = rest.restored;
      }
