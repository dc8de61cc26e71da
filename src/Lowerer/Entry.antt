-- ===== src/Lowerer/Entry.antt =====
-- The prologue of src/backend/ana_lowerer.cpp and the saves of the parameters: from the call on, to
-- a frame in which the callee-saved registers and the parameters are in their places.
use anastasia.Base.{
  ℕ, zero, suc, ◌+◌, ◌%◌, ◌^◌, ◌≤◌, ◌<◌, ◌≡◌, inl, inr, refl, sym, ap, ◌∙◌, ◌++◌, arith, Bool-cases,
  ==_iff, ltb, ◌==◌, if◌then◌else◌,
}
use anastasia.RegAlloc.{
  AnaRegAlloc, RegLocation, stack_spill, spilled, saved_reg, saved_reg_disp, get_param_raw_reg,
  get_param_loc,
}
use anastasia.RegAlloc.Layout.{Entity, place}
use anastasia.RegAlloc.Contract.{IsLayout, Placed, slot, in_register}
use anastasia.Encoder.Prefix.{Code}
use anastasia.Lowerer.Cpu.{Cpu}
use anastasia.Lowerer.Runs.{Computes, Computes-nil, Computes-append}
use anastasia.Lowerer.Frame.{save_from, save_params_from}
use anastasia.Lowerer.Slots.{HoldsBut, FrameAt, updated}
use anastasia.Lowerer.Access.{no_entity, is_entity}
use anastasia.Lowerer.Written.{store_slot}
use anastasia.Lowerer.TwoOperands.{weaken}

-- The contents once `ns` callee-saved registers and `np` parameters are stored, from registers `g`.
abbrev pub entered : (ℕ → ℕ) → ℕ → ℕ → (Entity → ℕ) → Entity → ℕ
entered g ns np contents (Entity.preserved j) =
    if ltb j ns then g (saved_reg j) else contents (Entity.preserved j)
entered g ns np contents (Entity.param j) =
    if ltb j np then g (get_param_raw_reg j) else contents (Entity.param j)
entered g ns np contents (Entity.local j) = contents (Entity.local j)

abbrev pub AllWords : Cpu → Type 0
AllWords c = (r : ℕ) → c.gpr r < 2 ^ 64

one_more_index :
    (f : ℕ → ℕ) (c i j : ℕ)
    → (if j == i then f i else if ltb j i then f j else c) ≡ (if ltb j (i + 1) then f j else c)
one_more_index f c i j = elim (Bool-cases (j == i)) [
  | inl e ↦ rw (e, (==_iff j i).0 e) (ground arith)
  | inr e ↦ rw e (ground arith)
]

pub slot_bounds :
    {size : ℕ} (l : RegLocation) (d : ℕ)
    → l ≡ spilled d
    → Placed size l
    → (8 ≤ d) × (d % 8 ≡ 0) × (d ≤ size)
slot_bounds l d e (slot d' e' lo al hi) =
    let same = ap (λ (m : RegLocation). m.stack_disp) (sym e ∙ e') in
    (omega arith, omega arith, omega arith)
slot_bounds l d e (in_register r e' saved) =
    let same = ap (λ (m : RegLocation). m.kind) (sym e ∙ e') in ground arith

slot_of :
    {size : ℕ} (l : RegLocation) → Placed size l → l.kind ≡ stack_spill → (d : ℕ) × (l ≡ spilled d)
slot_of l (slot d e lo al hi) k = (d, e)
slot_of l (in_register r e saved) k = let same = ap (λ (m : RegLocation). m.kind) e in ground arith

get_param_raw_reg-lt : (i : ℕ) → get_param_raw_reg i < 16
unfolding get_param_raw_reg
get_param_raw_reg-lt i = ground arith

module _ (a : AnaRegAlloc) (laid : IsLayout a) (base : ℕ) (fits : FrameAt a base) (ref : Cpu)
    (contents : Entity → ℕ) (g : ℕ → ℕ) (words : (r : ℕ) → g r < 2 ^ 64) where
  -- The frame after some stores, with the registers unchanged.
  pub record Entering (ns np : ℕ) (c : Cpu) (code : Code) : Type 0 where
    pub after : Cpu
    pub computes : Computes code c after
    pub holds : HoldsBut a base ref (entered g ns np contents) no_entity after
    pub regs : after.gpr ≡ g

  pub Entering-after :
      (ns np : ℕ) {c c' : Cpu} {code rest : Code}
      → Computes code c c'
      → Entering ns np c' rest
      → Entering ns np c (code ++ rest)
  Entering-after ns np p s = record {
    after = s.after;
    computes = Computes-append p s.computes;
    holds = s.holds;
    regs = s.regs;
  }

  pub HoldsBut-congr :
      (f f' : Entity → ℕ) (c : Cpu)
      → ((y : Entity) → f y ≡ f' y)
      → HoldsBut a base ref f no_entity c
      → HoldsBut a base ref f' no_entity c
  HoldsBut-congr f f' c e h = record {
    frame = h.frame;
    words = λ y. rw⁻¹ (e y) (h.words y);
    holds = λ y live kept. h.holds y live kept ∙ e y;
    outside = h.outside;
    quiet = h.quiet;
  }

  save_step :
      (i : ℕ) (y : Entity)
      → updated (entered g i 0 contents) (Entity.preserved i) (g (saved_reg i)) y
        ≡ entered g (i + 1) 0 contents y
  save_step i (Entity.preserved j) =
      one_more_index (λ n. g (saved_reg n)) (contents (Entity.preserved j)) i j
  save_step i (Entity.local j) = refl
  save_step i (Entity.param j) = ground arith

  param_step :
      (ns i : ℕ) (y : Entity)
      → updated (entered g ns i contents) (Entity.param i) (g (get_param_raw_reg i)) y
        ≡ entered g ns (i + 1) contents y
  param_step ns i (Entity.preserved j) = refl
  param_step ns i (Entity.local j) = refl
  param_step ns i (Entity.param j) =
      one_more_index (λ n. g (get_param_raw_reg n)) (contents (Entity.param j)) i j

  pub save_from-Entering :
      (n i m : ℕ) (c : Cpu)
      → i + n ≡ m
      → m ≡ a.saved_reg_count
      → HoldsBut a base ref (entered g i 0 contents) no_entity c
      → c.gpr ≡ g
      → Entering m 0 c (save_from n i)
  unfolding save_from
  save_from-Entering zero i m c e q h same =
      let end : m ≡ i = omega arith in
      rw end (record { after = c; computes = Computes-nil c; holds = h; regs = same })
  save_from-Entering (suc n) i m c e q h same =
      let live : i < a.saved_reg_count = omega arith in
      let few = laid.saved_few in
      let v = g (saved_reg i) in
      let bounds =
        slot_bounds (place a (Entity.preserved i)) (saved_reg_disp i) refl
          (laid.placed (Entity.preserved i) live) in
      let old = entered g i 0 contents in
      let (s, kept) =
        store_slot a laid base fits ref old (Entity.preserved i) (saved_reg_disp i) (saved_reg i) v
          c refl bounds.0 bounds.1 bounds.2 live (ground arith) (words (saved_reg i))
          (weaken a laid base fits ref old (is_entity (Entity.preserved i)) c h)
          (ap (λ f. f (saved_reg i)) same) in
      let one_more : (y : Entity)
          → updated old (Entity.preserved i) v y ≡ entered g (i + 1) 0 contents y =
        λ y. save_step i y in
      Entering-after m 0 s.computes (
        save_from-Entering n (i + 1) m s.after (omega arith) q
          (HoldsBut-congr (updated old (Entity.preserved i) v) (entered g (i + 1) 0 contents)
            s.after one_more s.holds)
          (kept ∙ same))

  pub save_params_from-Entering :
      (n i m : ℕ) (c : Cpu)
      → i + n ≡ m
      → m ≡ a.param_count
      → HoldsBut a base ref (entered g a.saved_reg_count i contents) no_entity c
      → c.gpr ≡ g
      → Entering a.saved_reg_count m c (save_params_from a n i)
  unfolding save_params_from
  save_params_from-Entering zero i m c e q h same =
      let end : m ≡ i = omega arith in
      rw end (record { after = c; computes = Computes-nil c; holds = h; regs = same })
  save_params_from-Entering (suc n) i m c e q h same =
      let live : i < a.param_count = omega arith in
      let v = g (get_param_raw_reg i) in
      let old = entered g a.saved_reg_count i contents in
      let (d, is_slot) =
        slot_of (get_param_loc a i) (laid.placed (Entity.param i) live) (laid.param_slot i live) in
      let bounds = slot_bounds (get_param_loc a i) d is_slot (laid.placed (Entity.param i) live) in
      let (s, kept) =
        store_slot a laid base fits ref old (Entity.param i) d (get_param_raw_reg i) v c is_slot
          bounds.0 bounds.1 bounds.2 live (get_param_raw_reg-lt i) (words (get_param_raw_reg i))
          (weaken a laid base fits ref old (is_entity (Entity.param i)) c h)
          (ap (λ f. f (get_param_raw_reg i)) same) in
      let one_more : (y : Entity)
          → updated old (Entity.param i) v y ≡ entered g a.saved_reg_count (i + 1) contents y =
        λ y. param_step a.saved_reg_count i y in
      rw is_slot (
        Entering-after a.saved_reg_count m s.computes (
          save_params_from-Entering n (i + 1) m s.after (omega arith) q
            (HoldsBut-congr (updated old (Entity.param i) v)
              (entered g a.saved_reg_count (i + 1) contents) s.after one_more s.holds)
            (kept ∙ same)))
