-- ===== src/Encoder/RoundTrip/RegReg.antt =====
-- The register-to-register methods of src/backend/ana_encoder.cpp.
use anastasia.Base.{
  ℕ, ◌<◌, ◌≡◌, ◌≢◌, refl, Bool, true, false, some, List, [], ◌∷◌, ◌++◌, arith, ◌==◌,
}
use anastasia.Encoder.Prefix.{Code, byte, bytes, emit_modrm}
use anastasia.Encoder.Decode.{direct, no_prefix, rep_f3}
use anastasia.Encoder.Disassemble.{Mnemonic, Insn, operand, decode}
use anastasia.Encoder.Integer
use anastasia.Encoder.System
use anastasia.Encoder.Operands.{decode-legacy_code, decode_modrm-direct, emit_modrm-mod}

pub data RegReg : Type 0 where
  mov_reg_reg add_reg_reg sub_reg_reg imul_reg_reg and_reg_reg or_reg_reg xor_reg_reg : RegReg
  bts_reg_reg btr_reg_reg popcnt_reg_reg lzcnt_reg_reg cmp_reg_reg test_reg_reg : RegReg
  movsxd_reg_reg movzxd_reg_reg : RegReg

abbrev pub encode : RegReg → ℕ → ℕ → Code
encode mov_reg_reg = Integer.mov_reg_reg
encode add_reg_reg = Integer.add_reg_reg
encode sub_reg_reg = Integer.sub_reg_reg
encode imul_reg_reg = Integer.imul_reg_reg
encode and_reg_reg = Integer.and_reg_reg
encode or_reg_reg = Integer.or_reg_reg
encode xor_reg_reg = Integer.xor_reg_reg
encode bts_reg_reg = Integer.bts_reg_reg
encode btr_reg_reg = Integer.btr_reg_reg
encode popcnt_reg_reg = Integer.popcnt_reg_reg
encode lzcnt_reg_reg = Integer.lzcnt_reg_reg
encode cmp_reg_reg = Integer.cmp_reg_reg
encode test_reg_reg = Integer.test_reg_reg
encode movsxd_reg_reg = System.movsxd_reg_reg
encode movzxd_reg_reg = System.movzxd_reg_reg

abbrev pub mnemonic : RegReg → Mnemonic
mnemonic mov_reg_reg = Mnemonic.mov
mnemonic add_reg_reg = Mnemonic.add
mnemonic sub_reg_reg = Mnemonic.sub
mnemonic imul_reg_reg = Mnemonic.imul
mnemonic and_reg_reg = Mnemonic.and
mnemonic or_reg_reg = Mnemonic.or
mnemonic xor_reg_reg = Mnemonic.xor
mnemonic bts_reg_reg = Mnemonic.bts
mnemonic btr_reg_reg = Mnemonic.btr
mnemonic popcnt_reg_reg = Mnemonic.popcnt
mnemonic lzcnt_reg_reg = Mnemonic.lzcnt
mnemonic cmp_reg_reg = Mnemonic.cmp
mnemonic test_reg_reg = Mnemonic.test
mnemonic movsxd_reg_reg = Mnemonic.movsxd
mnemonic movzxd_reg_reg = Mnemonic.mov

-- 64-bit operands but for the 32-bit `mov`, which clears the upper half.
abbrev pub is_wide : RegReg → Bool
is_wide movzxd_reg_reg = false
is_wide _ = true

abbrev pub insn : RegReg → ℕ → ℕ → Insn
insn m dst src = record {
  locked = false;
  wide = is_wide m;
  op = mnemonic m;
  target = direct dst;
  source = operand (direct src);
}

-- `mov_reg_reg` writes nothing for a move to itself.
abbrev pub Writes : RegReg → ℕ → ℕ → Type 0
Writes mov_reg_reg dst src = dst ≢ src
Writes _ dst src = Unit

differ : (dst src : ℕ) → dst ≢ src → (dst == src) ≡ false
differ dst src h = ground arith

-- Every register-to-register method writes one instruction, with the mnemonic of its name, its
-- first argument as the target and its second as the source, for any two registers; for
-- `mov_reg_reg` they are different.
pub decode-reg_reg :
    (m : RegReg) (dst src : ℕ) (rest : List ℕ)
    → dst < 16
    → src < 16
    → Writes m dst src
    → decode (bytes (encode m dst src) ++ rest) ≡ some (insn m dst src, rest)
unfolding Integer.mov_reg_reg Integer.add_reg_reg Integer.sub_reg_reg Integer.imul_reg_reg
    Integer.and_reg_reg Integer.or_reg_reg Integer.xor_reg_reg Integer.bts_reg_reg
    Integer.btr_reg_reg Integer.popcnt_reg_reg Integer.lzcnt_reg_reg Integer.cmp_reg_reg
    Integer.test_reg_reg System.movsxd_reg_reg System.movzxd_reg_reg
decode-reg_reg mov_reg_reg dst src rest h k n = rw (
  differ dst src n,
  decode-legacy_code no_prefix true src dst 0x89 (emit_modrm 3 src dst ∷ []) rest refl,
  decode_modrm-direct true src dst [] rest k h,
)
decode-reg_reg add_reg_reg dst src rest h k n = rw (
  decode-legacy_code no_prefix true src dst 0x01 (emit_modrm 3 src dst ∷ []) rest refl,
  decode_modrm-direct true src dst [] rest k h,
)
decode-reg_reg sub_reg_reg dst src rest h k n = rw (
  decode-legacy_code no_prefix true src dst 0x29 (emit_modrm 3 src dst ∷ []) rest refl,
  decode_modrm-direct true src dst [] rest k h,
)
decode-reg_reg imul_reg_reg dst src rest h k n = rw (
  decode-legacy_code no_prefix true dst src 0x0F (byte 0xAF ∷ emit_modrm 3 dst src ∷ []) rest refl,
  decode_modrm-direct true dst src [] rest h k,
)
decode-reg_reg and_reg_reg dst src rest h k n = rw (
  decode-legacy_code no_prefix true src dst 0x21 (emit_modrm 3 src dst ∷ []) rest refl,
  decode_modrm-direct true src dst [] rest k h,
)
decode-reg_reg or_reg_reg dst src rest h k n = rw (
  decode-legacy_code no_prefix true src dst 0x09 (emit_modrm 3 src dst ∷ []) rest refl,
  decode_modrm-direct true src dst [] rest k h,
)
decode-reg_reg xor_reg_reg dst src rest h k n = rw (
  decode-legacy_code no_prefix true src dst 0x31 (emit_modrm 3 src dst ∷ []) rest refl,
  decode_modrm-direct true src dst [] rest k h,
)
decode-reg_reg bts_reg_reg dst src rest h k n = rw (
  decode-legacy_code no_prefix true src dst 0x0F (byte 0xAB ∷ emit_modrm 3 src dst ∷ []) rest refl,
  decode_modrm-direct true src dst [] rest k h,
)
decode-reg_reg btr_reg_reg dst src rest h k n = rw (
  decode-legacy_code no_prefix true src dst 0x0F (byte 0xB3 ∷ emit_modrm 3 src dst ∷ []) rest refl,
  decode_modrm-direct true src dst [] rest k h,
)
decode-reg_reg popcnt_reg_reg dst src rest h k n = rw (
  decode-legacy_code rep_f3 true dst src 0x0F (byte 0xB8 ∷ emit_modrm 3 dst src ∷ []) rest refl,
  decode_modrm-direct true dst src [] rest h k,
)
decode-reg_reg lzcnt_reg_reg dst src rest h k n = rw (
  decode-legacy_code rep_f3 true dst src 0x0F (byte 0xBD ∷ emit_modrm 3 dst src ∷ []) rest refl,
  decode_modrm-direct true dst src [] rest h k,
)
decode-reg_reg cmp_reg_reg dst src rest h k n = rw (
  decode-legacy_code no_prefix true src dst 0x39 (emit_modrm 3 src dst ∷ []) rest refl,
  decode_modrm-direct true src dst [] rest k h,
)
decode-reg_reg test_reg_reg dst src rest h k n = rw (
  decode-legacy_code no_prefix true src dst 0x85 (emit_modrm 3 src dst ∷ []) rest refl,
  decode_modrm-direct true src dst [] rest k h,
)
decode-reg_reg movsxd_reg_reg dst src rest h k n = rw (
  emit_modrm-mod 3 dst src,
  decode-legacy_code no_prefix true dst src 0x63 (emit_modrm 3 dst src ∷ []) rest refl,
  decode_modrm-direct true dst src [] rest h k,
)
decode-reg_reg movzxd_reg_reg dst src rest h k n = rw (
  emit_modrm-mod 3 dst src,
  decode-legacy_code no_prefix false dst src 0x8B (emit_modrm 3 dst src ∷ []) rest refl,
  decode_modrm-direct false dst src [] rest h k,
)
