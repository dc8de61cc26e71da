-- ===== src/Encoder/DecodeVector.antt =====
-- An independent reading of x86-64 vector instructions, after the processor manual: the three-byte
-- VEX prefix and the EVEX prefix. Registers above 15, masks and broadcasts are outside it.
use anastasia.Base.{
  ℕ, ◌-◌, ◌*◌, ◌/◌, ◌%◌, ◌^◌, Bool, false, ◌&&◌, Option, none, some, List, [], ◌∷◌, ◌==◌,
  if◌then◌else◌,
}
use anastasia.Encoder.Decode.{Rex, Rm, direct, indirect, rip_relative, decode_modrm}

pub data VecMnemonic : Type 0 where
  vpaddd vpmulld vmovdqu_load vmovdqu_store vmovntdq : VecMnemonic

-- `size` is that of a vector in bytes, `second` the register in the field vvvv.
pub record VecInsn : Type 0 where
  pub size : ℕ
  pub op : VecMnemonic
  pub reg : ℕ
  pub second : ℕ
  pub rm : Rm

-- The prefixes hold the REX bits inverted.
abbrev vector_rex : ℕ → Rex
vector_rex v = record { w = false; r = v / 128 % 2 == 0; x = v / 64 % 2 == 0; b = v / 32 % 2 == 0 }

-- The instruction, from the opcode map, the implied prefix (1 for 66, 2 for F3) and the opcode.
abbrev pub vector_op : ℕ → ℕ → ℕ → Option VecMnemonic
vector_op map pp o =
    if map == 1 && pp == 1 && o == 0xFE
    then some VecMnemonic.vpaddd
    else if map == 2 && pp == 1 && o == 0x40
    then some VecMnemonic.vpmulld
    else if map == 1 && pp == 2 && o == 0x6F
    then some VecMnemonic.vmovdqu_load
    else if map == 1 && pp == 2 && o == 0x7F
    then some VecMnemonic.vmovdqu_store
    else if map == 1 && pp == 1 && o == 0xE7
    then some VecMnemonic.vmovntdq
    else none

-- Under EVEX a displacement of one byte counts in whole vectors.
abbrev scaled : ℕ → Rm → Rm
scaled n (direct r) = direct r
scaled n (indirect base d) = indirect base (d * n % 2 ^ 32)
scaled n (rip_relative d) = rip_relative d

abbrev pub finish :
    ℕ → ℕ → ℕ → Option VecMnemonic → Option (ℕ × Rm × List ℕ) → Option (VecInsn × List ℕ)
finish size second scale none _ = none
finish size second scale (some op) none = none
finish size second scale (some op) (some (reg, rm, bs)) =
    some (record { size = size; op = op; reg = reg; second = second; rm = scaled scale rm }, bs)

-- What a displacement of one byte counts in.
abbrev pub unit : ℕ → List ℕ → ℕ
unit size [] = 1
unit size (m ∷ bs) = if m / 64 == 1 then size else 1

abbrev decode_vex : List ℕ → Option (VecInsn × List ℕ)
decode_vex (p0 ∷ p1 ∷ o ∷ bs) =
    finish (if p1 / 4 % 2 == 1 then 32 else 16) (15 - p1 / 8 % 16) 1
      (vector_op (p0 % 32) (p1 % 4) o) (decode_modrm (vector_rex p0) bs)
decode_vex _ = none

-- The fixed bits, and those for the registers above 15, for masks and for broadcasts.
abbrev is_plain : ℕ → ℕ → ℕ → Bool
is_plain p0 p1 p2 =
    p0 / 4 % 8 == 4
    && p1 / 4 % 2 == 1
    && p2 / 8 % 2 == 1
    && p2 % 8 == 0
    && p2 / 128 == 0
    && p2 / 16 % 2 == 0

abbrev decode_evex : List ℕ → Option (VecInsn × List ℕ)
decode_evex (p0 ∷ p1 ∷ p2 ∷ o ∷ bs) =
    if is_plain p0 p1 p2
    then finish (16 * 2 ^ (p2 / 32 % 4)) (15 - p1 / 8 % 16) (unit (16 * 2 ^ (p2 / 32 % 4)) bs)
        (vector_op (p0 % 4) (p1 % 4) o) (decode_modrm (vector_rex p0) bs)
    else none
decode_evex _ = none

unfoldable pub decode_vector : List ℕ → Option (VecInsn × List ℕ)
decode_vector [] = none
decode_vector (v ∷ bs) =
    if v == 0xC4 then decode_vex bs else if v == 0x62 then decode_evex bs else none
