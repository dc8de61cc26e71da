-- ===== src/RegAlloc/Layout.antt =====
-- Where the tables of src/backend/ana_regalloc.cpp put each register: distinct places, inside an
-- aligned frame.
use anastasia.Base.{
  ℕ, zero, suc, ◌+◌, ◌-◌, ◌*◌, ◌≤◌, ◌<◌, ◌≡◌, ap, ◌∙◌, Bool, ◌||◌, some, ltb, leb, if◌then◌else◌,
  arith,
}
use anastasia.Base.Lists.{get_elem?}
use anastasia.RegAlloc.{
  RegLocation, AnaRegAlloc, max_locals, max_params, saved_reg, saved_reg_disp, physical, spilled,
  frame_bytes, locals_from, params_from, lay_out, get_local_loc, get_param_loc,
}

-- The rule of the table of locals: three registers, then spills.
abbrev pub local_rule : ℕ → ℕ → RegLocation
local_rule reserved j =
    if leb 3 j then spilled (8 * (reserved + (j - 3) + 1)) else physical (saved_reg j)

locals_from-get_elem? :
    (reserved n i spills k : ℕ)
    → spills ≡ i - 3
    → k < n
    → get_elem? (locals_from reserved n i spills).0 k ≡ some (local_rule reserved (i + k))
unfolding locals_from
locals_from-get_elem? reserved zero i spills k h l = absurd (omega arith)
locals_from-get_elem? reserved (suc n) i spills zero h l = ground arith
locals_from-get_elem? reserved (suc n) i spills (suc k) h l =
    locals_from-get_elem? reserved n (i + 1) (if leb 3 i then spills + 1 else spills) k
      (ground arith) (omega arith)
    ∙ ap (λ j. some (local_rule reserved j)) (omega arith)

locals_from-spills :
    (reserved n i spills : ℕ) → spills ≡ i - 3 → (locals_from reserved n i spills).1 ≡ (i + n) - 3
unfolding locals_from
locals_from-spills reserved zero i spills h = omega arith
locals_from-spills reserved (suc n) i spills h =
    locals_from-spills reserved n (i + 1) (if leb 3 i then spills + 1 else spills) (ground arith)
    ∙ omega arith

params_from-get_elem? :
    (base n i k : ℕ)
    → k < n
    → get_elem? (params_from base n i) k ≡ some (spilled (8 * (base + 1 + (i + k))))
unfolding params_from
params_from-get_elem? base zero i k l = absurd (omega arith)
params_from-get_elem? base (suc n) i zero l =
    ap (λ j. some (spilled (8 * (base + 1 + j)))) (omega arith)
params_from-get_elem? base (suc n) i (suc k) l =
    params_from-get_elem? base n (i + 1) k (omega arith)
    ∙ ap (λ j. some (spilled (8 * (base + 1 + j)))) (omega arith)

-- A register of the function, or a callee-saved register that the prologue preserves.
pub data Entity : Type 0 where
  preserved local param : ℕ → Entity

abbrev pub place : AnaRegAlloc → Entity → RegLocation
place a (Entity.preserved i) = spilled (saved_reg_disp i)
place a (Entity.local i) = get_local_loc a i
place a (Entity.param i) = get_param_loc a i

abbrev pub Live : AnaRegAlloc → Entity → Type 0
Live a (Entity.preserved i) = i < a.saved_reg_count
Live a (Entity.local i) = i < a.local_count
Live a (Entity.param i) = i < a.param_count

module _ (lc pc : ℕ) (called : Bool) (few_locals : lc ≤ max_locals)
    (few_params : pc ≤ max_params) where
  abbrev pub saved_count : ℕ
  saved_count = if ltb lc 3 then lc else 3

  get_local_loc-lay_out :
      (i : ℕ) → i < lc → get_local_loc (lay_out lc pc called) i ≡ local_rule saved_count i
  unfolding get_local_loc lay_out
  get_local_loc-lay_out i h =
      ground (arith, locals_from-get_elem? saved_count lc 0 0 i (omega arith) h)

  get_param_loc-lay_out :
      (i : ℕ)
      → i < pc
      → get_param_loc (lay_out lc pc called) i ≡ spilled (8 * (saved_count + (lc - 3) + 1 + i))
  unfolding get_param_loc lay_out
  get_param_loc-lay_out i h = ground (
    arith,
    params_from-get_elem? (saved_count + (locals_from saved_count lc 0 0).1) pc 0 i h,
    locals_from-spills saved_count lc 0 0 (omega arith),
  )

  pub stack_frame_size-lay_out :
      (lay_out lc pc called).stack_frame_size
      ≡ (if ltb 0 (lc + pc) || called then frame_bytes (lc + pc) else 0)
  unfolding lay_out
  stack_frame_size-lay_out = ground (arith, locals_from-spills saved_count lc 0 0 (omega arith))

  -- The place of a live entity, in numbers.
  abbrev pub entity_rule : Entity → RegLocation
  entity_rule (Entity.preserved i) = spilled (8 * (i + 1))
  entity_rule (Entity.local i) = local_rule saved_count i
  entity_rule (Entity.param i) = spilled (8 * (saved_count + (lc - 3) + 1 + i))

  abbrev pub EntityLive : Entity → Type 0
  EntityLive (Entity.preserved i) = i < saved_count
  EntityLive (Entity.local i) = i < lc
  EntityLive (Entity.param i) = i < pc

  pub Live-EntityLive : (a : Entity) → Live (lay_out lc pc called) a → EntityLive a
  unfolding lay_out
  Live-EntityLive (Entity.preserved i) h = h
  Live-EntityLive (Entity.local i) h = h
  Live-EntityLive (Entity.param i) h = h

  pub EntityLive-Live : (a : Entity) → EntityLive a → Live (lay_out lc pc called) a
  unfolding lay_out
  EntityLive-Live (Entity.preserved i) h = h
  EntityLive-Live (Entity.local i) h = h
  EntityLive-Live (Entity.param i) h = h

  pub place-entity_rule :
      (a : Entity) → Live (lay_out lc pc called) a → place (lay_out lc pc called) a ≡ entity_rule a
  place-entity_rule (Entity.preserved i) h = ground (arith, Live-EntityLive (Entity.preserved i) h)
  place-entity_rule (Entity.local i) h =
      get_local_loc-lay_out i (Live-EntityLive (Entity.local i) h)
  place-entity_rule (Entity.param i) h =
      get_param_loc-lay_out i (Live-EntityLive (Entity.param i) h)

pub saved_reg-injective : (i j : ℕ) → i < 3 → j < 3 → saved_reg i ≡ saved_reg j → i ≡ j
saved_reg-injective i j h k e = ground arith
