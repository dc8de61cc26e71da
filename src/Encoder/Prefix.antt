-- ===== src/Encoder/Prefix.antt =====
-- What one call of an encoder method writes: the sequence of its `emit8`, `emit32` and `emit64`
-- calls, and the operand helpers of src/backend/ana_encoder.cpp that the methods share.
-- Register numbers and opcodes are bytes; shifts, masks and `|` of disjoint bit fields are written
-- as `*`, `%` and `+`.
use anastasia.Base.{
  ℕ, ◌+◌, ◌-◌, ◌*◌, ◌%◌, Bool, not, ◌&&◌, ◌||◌, List, [], ◌∷◌, ◌++◌, leb, ◌==◌, if◌then◌else◌,
}
use anastasia.Base.Words.{le_bytes, fits_int8}
use anastasia.Encoder.Buffer.{Kernel, AnaEncoder, emit8, emit32, emit64}

pub data Emission : Type 0 where
  byte dword qword : ℕ → Emission

abbrev pub Code : Type 0
Code = List Emission

abbrev pub bytes : Code → List ℕ
bytes [] = []
bytes (byte b ∷ c) = b ∷ bytes c
bytes (dword d ∷ c) = le_bytes 4 d ++ bytes c
bytes (qword q ∷ c) = le_bytes 8 q ++ bytes c

module _ (grants : Kernel) where
  unfoldable pub emit : Code → AnaEncoder → AnaEncoder
  emit [] e = e
  emit (byte b ∷ c) e = emit c (emit8 grants b e)
  emit (dword d ∷ c) e = emit c (emit32 grants d e)
  emit (qword q ∷ c) e = emit c (emit64 grants q e)

abbrev pub flag : Bool → ℕ
flag b = if b then 1 else 0

unfoldable pub emit_rex : Bool → ℕ → ℕ → ℕ → Code
emit_rex w reg_idx index_idx base_idx =
    let r = leb 8 reg_idx in
    let x = leb 8 index_idx in
    let b = leb 8 base_idx in
    if w || r || x || b
    then byte (0x40 + flag w * 8 + flag r * 4 + flag x * 2 + flag b) ∷ []
    else []

unfoldable pub emit_modrm : ℕ → ℕ → ℕ → Emission
emit_modrm mode reg rm = byte (mode % 4 * 64 + reg % 8 * 8 + rm % 8)

-- The SIB byte for RSP and R12.
abbrev sib_if_needed : ℕ → Code → Code
sib_if_needed b rest = if b % 8 == 4 then byte 0x24 ∷ rest else rest

-- The memory operand `[base + disp]`, which every method with one writes out in these words.
unfoldable pub mem_operand : ℕ → ℕ → ℕ → Code
unfolding emit_modrm
mem_operand reg base disp =
    if disp == 0 && not (base % 8 == 5)
    then emit_modrm 0 reg base ∷ sib_if_needed base []
    else if fits_int8 disp
    then emit_modrm 1 reg base ∷ sib_if_needed base (byte (disp % 256) ∷ [])
    else emit_modrm 2 reg base ∷ sib_if_needed base (dword disp ∷ [])

-- `~v & 1` and `~v & 0x0F` of a byte.
abbrev inverted_bit : ℕ → ℕ
inverted_bit v = 1 - v % 2

abbrev inverted_nibble : ℕ → ℕ
inverted_nibble v = 15 - v % 16

unfoldable pub emit_vex3 : ℕ → ℕ → Bool → ℕ → Bool → ℕ → ℕ → ℕ → Code
emit_vex3 m_mmmm pp w vvvv l r x b =
    let byte1 = inverted_bit r * 128 + inverted_bit x * 64 + inverted_bit b * 32 + m_mmmm % 32 in
    let byte2 = flag w * 128 + inverted_nibble vvvv * 8 + flag l * 4 + pp % 4 in
    byte 0xC4 ∷ byte byte1 ∷ byte byte2 ∷ []

unfoldable pub emit_evex : ℕ → ℕ → Bool → ℕ → ℕ → ℕ → ℕ → ℕ → ℕ → Code
emit_evex mm pp w vvvv lll r x b aaa =
    let byte1 = inverted_bit r * 128 + inverted_bit x * 64 + inverted_bit b * 32 + 16 + mm % 4 in
    let byte2 = flag w * 128 + inverted_nibble vvvv * 8 + 4 + pp % 4 in
    let byte3 = lll % 4 * 32 + 8 + aaa % 8 in byte 0x62 ∷ byte byte1 ∷ byte byte2 ∷ byte byte3 ∷ []
