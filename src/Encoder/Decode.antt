-- ===== src/Encoder/Decode.antt =====
-- An independent reading of x86-64 operands, after the processor manual: a legacy prefix, a REX
-- byte, and ModRM with its SIB byte and displacement; scaled-index addressing is outside it.
use anastasia.Base.{
  ℕ, ◌+◌, ◌/◌, ◌%◌, Bool, false, ◌&&◌, Option, none, some, List, [], ◌∷◌, ◌==◌, if◌then◌else◌,
}
use anastasia.Base.Words.{from_le, sign_extend8}

pub record Rex : Type 0 where
  pub w : Bool
  pub r : Bool
  pub x : Bool
  pub b : Bool

-- A register, `[base + disp]`, or `[rip + disp]`.
pub data Rm : Type 0 where
  direct : ℕ → Rm
  indirect : ℕ → ℕ → Rm
  rip_relative : ℕ → Rm

abbrev no_rex : Rex
no_rex = record { w = false; r = false; x = false; b = false }

abbrev rex_fields : ℕ → Rex
rex_fields v = record { w = v / 8 % 2 == 1; r = v / 4 % 2 == 1; x = v / 2 % 2 == 1; b = v % 2 == 1 }

pub data Legacy : Type 0 where
  no_prefix lock_f0 repne_f2 rep_f3 opsize_66 : Legacy

unfoldable pub split_prefix : List ℕ → Legacy × List ℕ
split_prefix [] = (no_prefix, [])
split_prefix (v ∷ bs) =
    if v == 0xF0
    then (lock_f0, bs)
    else if v == 0xF2
    then (repne_f2, bs)
    else if v == 0xF3
    then (rep_f3, bs)
    else if v == 0x66
    then (opsize_66, bs)
    else (no_prefix, v ∷ bs)

unfoldable pub split_rex : List ℕ → Rex × List ℕ
split_rex [] = (no_rex, [])
split_rex (v ∷ bs) = if v / 16 == 4 then (rex_fields v, bs) else (no_rex, v ∷ bs)

-- A register number from a REX bit and a three-bit field.
abbrev pub extend : Bool → ℕ → ℕ
extend bit field = (if bit then 8 else 0) + field

abbrev pub disp8 : List ℕ → Option (ℕ × List ℕ)
disp8 [] = none
disp8 (v ∷ bs) = some (sign_extend8 v, bs)

abbrev pub disp32 : List ℕ → Option (ℕ × List ℕ)
disp32 (b0 ∷ b1 ∷ b2 ∷ b3 ∷ bs) = some (from_le (b0 ∷ b1 ∷ b2 ∷ b3 ∷ []), bs)
disp32 _ = none

abbrev with_disp : (ℕ → Rm) → ℕ → Option (ℕ × List ℕ) → Option (ℕ × Rm × List ℕ)
with_disp f reg none = none
with_disp f reg (some (d, bs)) = some (reg, f d, bs)

abbrev displaced : ℕ → ℕ → ℕ → List ℕ → Option (ℕ × Rm × List ℕ)
displaced mode reg base bs =
    if mode == 0
    then some (reg, indirect base 0, bs)
    else if mode == 1
    then with_disp (indirect base) reg (disp8 bs)
    else with_disp (indirect base) reg (disp32 bs)

abbrev decode_sib : Rex → ℕ → ℕ → List ℕ → Option (ℕ × Rm × List ℕ)
decode_sib rex mode reg [] = none
decode_sib rex mode reg (s ∷ bs) =
    if extend rex.x (s / 8 % 8) == 4
    then (if s % 8 == 5 && mode == 0 then none else displaced mode reg (extend rex.b (s % 8)) bs)
    else none

-- ModRM: the register field, the operand and the bytes behind.
unfoldable pub decode_modrm : Rex → List ℕ → Option (ℕ × Rm × List ℕ)
decode_modrm rex [] = none
decode_modrm rex (m ∷ bs) =
    let mode = m / 64 in
    let reg = extend rex.r (m / 8 % 8) in
    let rm = m % 8 in
    if mode == 3
    then some (reg, direct (extend rex.b rm), bs)
    else if rm == 4
    then decode_sib rex mode reg bs
    else if rm == 5 && mode == 0
    then with_disp rip_relative reg (disp32 bs)
    else displaced mode reg (extend rex.b rm) bs
