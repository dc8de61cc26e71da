-- ===== src/Encoder/RoundTrip/Scalar.antt =====
-- The SSE register methods of src/backend/ana_encoder.cpp.
use anastasia.Base.{ℕ, ◌<◌, ◌≡◌, refl, false, some, List, [], ◌∷◌, ◌++◌}
use anastasia.Encoder.Prefix.{Code, byte, bytes, emit_modrm}
use anastasia.Encoder.Decode.{direct, repne_f2, rep_f3, opsize_66}
use anastasia.Encoder.Disassemble.{Mnemonic, Insn, operand, decode}
use anastasia.Encoder.Vector
use anastasia.Encoder.Operands.{
  decode-legacy_code, decode_modrm-direct, emit_modrm-mod, rex_if_high-eq_emit_rex,
}

pub data Scalar : Type 0 where
  addss_xmm_xmm addsd_xmm_xmm subsd_xmm_xmm paddd_xmm_xmm psubd_xmm_xmm : Scalar
  mulsd_xmm_xmm divsd_xmm_xmm : Scalar

abbrev pub encode : Scalar → ℕ → ℕ → Code
encode addss_xmm_xmm = Vector.addss_xmm_xmm
encode addsd_xmm_xmm = Vector.addsd_xmm_xmm
encode subsd_xmm_xmm = Vector.subsd_xmm_xmm
encode paddd_xmm_xmm = Vector.paddd_xmm_xmm
encode psubd_xmm_xmm = Vector.psubd_xmm_xmm
encode mulsd_xmm_xmm = Vector.mulsd_xmm_xmm
encode divsd_xmm_xmm = Vector.divsd_xmm_xmm

-- What a processor executes for each: `mulsd_xmm_xmm` has the opcode of `divsd`, and
-- `divsd_xmm_xmm` that of `maxsd`.
abbrev pub executed : Scalar → Mnemonic
executed addss_xmm_xmm = Mnemonic.addss
executed addsd_xmm_xmm = Mnemonic.addsd
executed subsd_xmm_xmm = Mnemonic.subsd
executed paddd_xmm_xmm = Mnemonic.paddd
executed psubd_xmm_xmm = Mnemonic.psubd
executed mulsd_xmm_xmm = Mnemonic.divsd
executed divsd_xmm_xmm = Mnemonic.maxsd

-- The mnemonic in the name.
abbrev pub named : Scalar → Mnemonic
named addss_xmm_xmm = Mnemonic.addss
named addsd_xmm_xmm = Mnemonic.addsd
named subsd_xmm_xmm = Mnemonic.subsd
named paddd_xmm_xmm = Mnemonic.paddd
named psubd_xmm_xmm = Mnemonic.psubd
named mulsd_xmm_xmm = Mnemonic.mulsd
named divsd_xmm_xmm = Mnemonic.divsd

abbrev pub insn : Mnemonic → ℕ → ℕ → Insn
insn m dst src = record {
  locked = false;
  wide = false;
  op = m;
  target = direct dst;
  source = operand (direct src);
}

-- Every SSE register method writes one instruction on its two registers. It is the instruction of
-- its name for the additions and subtractions; `mulsd_xmm_xmm` divides and `divsd_xmm_xmm` takes
-- the maximum.
pub decode-scalar :
    (m : Scalar) (dst src : ℕ) (rest : List ℕ)
    → dst < 16
    → src < 16
    → decode (bytes (encode m dst src) ++ rest) ≡ some (insn (executed m) dst src, rest)
unfolding Vector.addss_xmm_xmm Vector.addsd_xmm_xmm Vector.subsd_xmm_xmm Vector.paddd_xmm_xmm
    Vector.psubd_xmm_xmm Vector.mulsd_xmm_xmm Vector.divsd_xmm_xmm
decode-scalar addss_xmm_xmm dst src rest h k = rw (
  rex_if_high-eq_emit_rex dst src,
  emit_modrm-mod 3 dst src,
  decode-legacy_code rep_f3 false dst src 0x0F (byte 0x58 ∷ emit_modrm 3 dst src ∷ []) rest refl,
  decode_modrm-direct false dst src [] rest h k,
)
decode-scalar addsd_xmm_xmm dst src rest h k = rw (
  rex_if_high-eq_emit_rex dst src,
  emit_modrm-mod 3 dst src,
  decode-legacy_code repne_f2 false dst src 0x0F (byte 0x58 ∷ emit_modrm 3 dst src ∷ []) rest refl,
  decode_modrm-direct false dst src [] rest h k,
)
decode-scalar subsd_xmm_xmm dst src rest h k = rw (
  rex_if_high-eq_emit_rex dst src,
  emit_modrm-mod 3 dst src,
  decode-legacy_code repne_f2 false dst src 0x0F (byte 0x5C ∷ emit_modrm 3 dst src ∷ []) rest refl,
  decode_modrm-direct false dst src [] rest h k,
)
decode-scalar paddd_xmm_xmm dst src rest h k = rw (
  rex_if_high-eq_emit_rex dst src,
  emit_modrm-mod 3 dst src,
  decode-legacy_code opsize_66 false dst src 0x0F (byte 0xFE ∷ emit_modrm 3 dst src ∷ []) rest refl,
  decode_modrm-direct false dst src [] rest h k,
)
decode-scalar psubd_xmm_xmm dst src rest h k = rw (
  rex_if_high-eq_emit_rex dst src,
  emit_modrm-mod 3 dst src,
  decode-legacy_code opsize_66 false dst src 0x0F (byte 0xFA ∷ emit_modrm 3 dst src ∷ []) rest refl,
  decode_modrm-direct false dst src [] rest h k,
)
decode-scalar mulsd_xmm_xmm dst src rest h k = rw (
  rex_if_high-eq_emit_rex dst src,
  emit_modrm-mod 3 dst src,
  decode-legacy_code repne_f2 false dst src 0x0F (byte 0x5E ∷ emit_modrm 3 dst src ∷ []) rest refl,
  decode_modrm-direct false dst src [] rest h k,
)
decode-scalar divsd_xmm_xmm dst src rest h k = rw (
  rex_if_high-eq_emit_rex dst src,
  emit_modrm-mod 3 dst src,
  decode-legacy_code repne_f2 false dst src 0x0F (byte 0x5F ∷ emit_modrm 3 dst src ∷ []) rest refl,
  decode_modrm-direct false dst src [] rest h k,
)
