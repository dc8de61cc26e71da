-- ===== src/Encoder/Operands.antt =====
-- The prefixes and operands that the encoder writes decode to what was asked for.
use anastasia.Base.{
  ℕ, ◌/◌, ◌%◌, ◌^◌, ◌<◌, ◌≡◌, refl, Bool, true, false, not, ◌||◌, some, List, [], ◌∷◌, ◌++◌, leb,
  ◌==◌, arith, if◌then◌else◌, ap,
}
use anastasia.Encoder.Prefix.{Code, byte, bytes, emit_rex, emit_modrm, mem_operand}
use anastasia.Encoder.Decode.{
  Rex, direct, indirect, Legacy, no_prefix, lock_f0, repne_f2, rep_f3, opsize_66, decode_modrm,
  split_prefix, split_rex,
}
use anastasia.Encoder.Disassemble.{decode, decode_opcode}

-- The REX bits that `emit_rex w reg 0 base` stands for.
abbrev pub rex_of : Bool → ℕ → ℕ → Rex
rex_of w reg base = record { w = w; r = leb 8 reg; x = false; b = leb 8 base }

pub decode_modrm-direct :
    (w : Bool) (reg rm : ℕ) (tail : Code) (rest : List ℕ)
    → reg < 16
    → rm < 16
    → decode_modrm (rex_of w reg rm) (bytes (emit_modrm 3 reg rm ∷ tail) ++ rest)
      ≡ some (reg, direct rm, bytes tail ++ rest)
unfolding decode_modrm emit_modrm
decode_modrm-direct w reg rm tail rest h k = ground arith

pub decode_modrm-mem_operand :
    (w : Bool) (reg base disp : ℕ) (rest : List ℕ)
    → reg < 16
    → base < 16
    → disp < 2 ^ 32
    → decode_modrm (rex_of w reg base) (bytes (mem_operand reg base disp) ++ rest)
      ≡ some (reg, indirect base disp, rest)
unfolding decode_modrm mem_operand
decode_modrm-mem_operand w reg base disp rest h k l = ground arith

-- The methods that mask their register numbers first write the same bytes.
pub emit_modrm-mod : (mode reg rm : ℕ) → emit_modrm mode (reg % 8) (rm % 8) ≡ emit_modrm mode reg rm
unfolding emit_modrm
emit_modrm-mod mode reg rm = ap byte (omega arith)

pub mem_operand-mod :
    (reg base disp : ℕ) → mem_operand (reg % 8) (base % 8) disp ≡ mem_operand reg base disp
unfolding mem_operand
mem_operand-mod reg base disp = ground arith

pub mem_operand-mod_base :
    (reg base disp : ℕ) → mem_operand reg (base % 8) disp ≡ mem_operand reg base disp
unfolding mem_operand
mem_operand-mod_base reg base disp = ground arith

-- The test before `emit_rex` in the SSE methods changes nothing.
pub rex_if_high-eq_emit_rex :
    (reg rm : ℕ)
    → (if leb 8 reg || leb 8 rm then emit_rex false reg 0 rm else []) ≡ emit_rex false reg 0 rm
unfolding emit_rex
rex_if_high-eq_emit_rex reg rm = ground arith

-- An opcode digit in the register field needs no REX bit.
pub emit_rex-digit :
    (w : Bool) (digit rm : ℕ) → digit < 8 → emit_rex w 0 0 rm ≡ emit_rex w digit 0 rm
unfolding emit_rex
emit_rex-digit w digit rm h = ground arith

-- A byte that is neither a prefix nor REX.
abbrev pub is_opcode : ℕ → Bool
is_opcode v = not (v / 16 == 4 || v == 0xF0 || v == 0xF2 || v == 0xF3 || v == 0x66)

abbrev pub legacy_code : Legacy → Code
legacy_code no_prefix = []
legacy_code lock_f0 = byte 0xF0 ∷ []
legacy_code repne_f2 = byte 0xF2 ∷ []
legacy_code rep_f3 = byte 0xF3 ∷ []
legacy_code opsize_66 = byte 0x66 ∷ []

split_rex-emit_rex :
    (w : Bool) (reg rm o : ℕ) (tail : Code) (rest : List ℕ)
    → is_opcode o ≡ true
    → split_rex (bytes (emit_rex w reg 0 rm ++ byte o ∷ tail) ++ rest)
      ≡ (rex_of w reg rm, o ∷ (bytes tail ++ rest))
unfolding emit_rex split_rex
split_rex-emit_rex w reg rm o tail rest h = ground arith

split_prefix-emit_rex :
    (w : Bool) (reg rm o : ℕ) (tail : Code) (rest : List ℕ)
    → is_opcode o ≡ true
    → split_prefix (bytes (emit_rex w reg 0 rm ++ byte o ∷ tail) ++ rest)
      ≡ (no_prefix, bytes (emit_rex w reg 0 rm ++ byte o ∷ tail) ++ rest)
unfolding emit_rex split_prefix
split_prefix-emit_rex w reg rm o tail rest h = ground arith

split_prefix-legacy_code :
    (p : Legacy) (w : Bool) (reg rm o : ℕ) (tail : Code) (rest : List ℕ)
    → is_opcode o ≡ true
    → split_prefix (bytes (legacy_code p ++ (emit_rex w reg 0 rm ++ byte o ∷ tail)) ++ rest)
      ≡ (p, bytes (emit_rex w reg 0 rm ++ byte o ∷ tail) ++ rest)
unfolding split_prefix
split_prefix-legacy_code no_prefix w reg rm o tail rest h =
    split_prefix-emit_rex w reg rm o tail rest h
split_prefix-legacy_code _ w reg rm o tail rest h = refl

-- The prefix, REX and the opcode byte are read back as written.
pub decode-legacy_code :
    (p : Legacy) (w : Bool) (reg rm o : ℕ) (tail : Code) (rest : List ℕ)
    → is_opcode o ≡ true
    → decode (bytes (legacy_code p ++ (emit_rex w reg 0 rm ++ byte o ∷ tail)) ++ rest)
      ≡ decode_opcode p (rex_of w reg rm) (o ∷ (bytes tail ++ rest))
unfolding decode
decode-legacy_code p w reg rm o tail rest h =
    rw
      (split_prefix-legacy_code p w reg rm o tail rest h, split_rex-emit_rex w reg rm o tail rest h)
