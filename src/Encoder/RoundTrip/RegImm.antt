-- ===== src/Encoder/RoundTrip/RegImm.antt =====
-- The methods of src/backend/ana_encoder.cpp with an immediate operand.
use anastasia.Base.{
  ℕ, ◌+◌, ◌%◌, ◌^◌, ◌<◌, ◌≡◌, refl, true, false, some, List, [], ◌∷◌, ◌++◌, arith, ◌==◌,
  if◌then◌else◌, Bool-cases, inl, inr, ==_iff,
}
use anastasia.Base.Words.{
  fits_int8, sign_extend8, sign_extend32, from_le-le_bytes4, from_le-le_bytes8,
}
use anastasia.Encoder.Prefix.{Code, byte, dword, qword, bytes, emit_rex, emit_modrm}
use anastasia.Encoder.Decode.{direct, no_prefix}
use anastasia.Encoder.Disassemble.{
  Mnemonic, Insn, Source, immediate, times, decode, grouped, arithmetic_group, shift_group,
  bit_group,
}
use anastasia.Encoder.Integer
use anastasia.Encoder.Operands.{decode-legacy_code, decode_modrm-direct, emit_rex-digit}

sign_extend8-mod : (imm : ℕ) → fits_int8 imm ≡ true → imm < 2 ^ 32 → sign_extend8 (imm % 256) ≡ imm
sign_extend8-mod imm fits h = ground arith

-- The two encodings of `op dst, imm`, chosen by the size of the immediate.
decode-group_imm :
    (digit dst imm : ℕ) (rest : List ℕ)
    → digit < 8
    → dst < 16
    → imm < 2 ^ 32
    → decode (
        bytes (
          emit_rex true 0 0 dst
          ++ (if fits_int8 imm
              then byte 0x83 ∷ emit_modrm 3 digit dst ∷ byte (imm % 256) ∷ []
              else byte 0x81 ∷ emit_modrm 3 digit dst ∷ dword imm ∷ []))
        ++ rest)
      ≡ grouped false true (arithmetic_group (digit % 8)) (direct dst) (immediate imm) rest
decode-group_imm digit dst imm rest h k l =
    let short : Code = emit_modrm 3 digit dst ∷ byte (imm % 256) ∷ [] in
    let long : Code = emit_modrm 3 digit dst ∷ dword imm ∷ [] in
    elim (Bool-cases (fits_int8 imm)) [
      | inl small ↦ rw (
        small,
        emit_rex-digit true digit dst h,
        decode-legacy_code no_prefix true digit dst 0x83 short rest refl,
        decode_modrm-direct true digit dst (byte (imm % 256) ∷ []) rest (omega arith) k,
        sign_extend8-mod imm small l,
      )
      | inr large ↦ rw (
        large,
        emit_rex-digit true digit dst h,
        decode-legacy_code no_prefix true digit dst 0x81 long rest refl,
        decode_modrm-direct true digit dst (dword imm ∷ []) rest (omega arith) k,
        from_le-le_bytes4 imm l,
      )
    ]

-- The two encodings of a shift: by one, and by an immediate count.
decode-shift_imm :
    (digit dst imm : ℕ) (rest : List ℕ)
    → digit < 8
    → dst < 16
    → decode (
        bytes (
          emit_rex true 0 0 dst
          ++ (if imm == 1
              then byte 0xD1 ∷ emit_modrm 3 digit dst ∷ []
              else byte 0xC1 ∷ emit_modrm 3 digit dst ∷ byte imm ∷ []))
        ++ rest)
      ≡ grouped false true (shift_group (digit % 8)) (direct dst) (immediate imm) rest
decode-shift_imm digit dst imm rest h k =
    let counted : Code = emit_modrm 3 digit dst ∷ byte imm ∷ [] in
    elim (Bool-cases (imm == 1)) [
      | inl one ↦ rw (
        one,
        emit_rex-digit true digit dst h,
        decode-legacy_code no_prefix true digit dst 0xD1 (emit_modrm 3 digit dst ∷ []) rest refl,
        decode_modrm-direct true digit dst [] rest (omega arith) k,
        (==_iff imm 1).0 one,
      )
      | inr more ↦ rw (
        more,
        emit_rex-digit true digit dst h,
        decode-legacy_code no_prefix true digit dst 0xC1 counted rest refl,
        decode_modrm-direct true digit dst (byte imm ∷ []) rest (omega arith) k,
      )
    ]

decode-imul_imm :
    (dst src imm : ℕ) (rest : List ℕ)
    → dst < 16
    → src < 16
    → imm < 2 ^ 32
    → decode (bytes (Integer.imul_reg_imm32 dst src imm) ++ rest)
      ≡ some (
        record {
          locked = false;
          wide = true;
          op = Mnemonic.imul;
          target = direct dst;
          source = times (direct src) imm;
        },
        rest,
      )
unfolding Integer.imul_reg_imm32
decode-imul_imm dst src imm rest h k l =
    let short : Code = emit_modrm 3 dst src ∷ byte (imm % 256) ∷ [] in
    let long : Code = emit_modrm 3 dst src ∷ dword imm ∷ [] in
    elim (Bool-cases (fits_int8 imm)) [
      | inl small ↦ rw (
        small,
        decode-legacy_code no_prefix true dst src 0x6B short rest refl,
        decode_modrm-direct true dst src (byte (imm % 256) ∷ []) rest h k,
        sign_extend8-mod imm small l,
      )
      | inr large ↦ rw (
        large,
        decode-legacy_code no_prefix true dst src 0x69 long rest refl,
        decode_modrm-direct true dst src (dword imm ∷ []) rest h k,
        from_le-le_bytes4 imm l,
      )
    ]

decode-bit_imm :
    (digit dst imm : ℕ) (rest : List ℕ)
    → digit < 8
    → dst < 16
    → decode (
        bytes
          (emit_rex true 0 0 dst ++ byte 0x0F ∷ byte 0xBA ∷ emit_modrm 3 digit dst ∷ byte imm ∷ [])
        ++ rest)
      ≡ grouped false true (bit_group (digit % 8)) (direct dst) (immediate imm) rest
decode-bit_imm digit dst imm rest h k =
    let tail : Code = byte 0xBA ∷ emit_modrm 3 digit dst ∷ byte imm ∷ [] in
    rw (
      emit_rex-digit true digit dst h,
      decode-legacy_code no_prefix true digit dst 0x0F tail rest refl,
      decode_modrm-direct true digit dst (byte imm ∷ []) rest (omega arith) k,
    )

-- The opcode byte itself holds the register.
decode-mov_imm64 :
    (dst imm : ℕ) (rest : List ℕ)
    → dst < 16
    → imm < 2 ^ 64
    → decode (bytes (Integer.mov_reg_imm64 dst imm) ++ rest)
      ≡ some (
        record {
          locked = false;
          wide = true;
          op = Mnemonic.mov;
          target = direct dst;
          source = immediate imm;
        },
        rest,
      )
unfolding Integer.mov_reg_imm64
decode-mov_imm64 dst imm rest h k =
    rw
      (decode-legacy_code no_prefix true 0 dst (0xB8 + dst % 8) (qword imm ∷ []) rest
        (ground arith))
      (ground (arith, from_le-le_bytes8 imm k))

-- The methods; `imul_reg_imm32` has a register as its source too.
pub data RegImm : Type 0 where
  add_reg_imm32 sub_reg_imm32 and_reg_imm32 or_reg_imm32 xor_reg_imm32 cmp_reg_imm32 : RegImm
  mov_reg_imm32 mov_reg_imm64 shl_reg_imm8 sar_reg_imm8 shr_reg_imm8 : RegImm
  bts_reg_imm8 btr_reg_imm8 : RegImm
  imul_reg_imm32 : ℕ → RegImm

abbrev pub encode : RegImm → ℕ → ℕ → Code
encode add_reg_imm32 = Integer.add_reg_imm32
encode sub_reg_imm32 = Integer.sub_reg_imm32
encode and_reg_imm32 = Integer.and_reg_imm32
encode or_reg_imm32 = Integer.or_reg_imm32
encode xor_reg_imm32 = Integer.xor_reg_imm32
encode cmp_reg_imm32 = Integer.cmp_reg_imm32
encode mov_reg_imm32 = Integer.mov_reg_imm32
encode mov_reg_imm64 = Integer.mov_reg_imm64
encode shl_reg_imm8 = Integer.shl_reg_imm8
encode sar_reg_imm8 = Integer.sar_reg_imm8
encode shr_reg_imm8 = Integer.shr_reg_imm8
encode bts_reg_imm8 = Integer.bts_reg_imm8
encode btr_reg_imm8 = Integer.btr_reg_imm8
encode (imul_reg_imm32 src) = λ dst imm. Integer.imul_reg_imm32 dst src imm

abbrev pub mnemonic : RegImm → Mnemonic
mnemonic add_reg_imm32 = Mnemonic.add
mnemonic sub_reg_imm32 = Mnemonic.sub
mnemonic and_reg_imm32 = Mnemonic.and
mnemonic or_reg_imm32 = Mnemonic.or
mnemonic xor_reg_imm32 = Mnemonic.xor
mnemonic cmp_reg_imm32 = Mnemonic.cmp
mnemonic mov_reg_imm32 = Mnemonic.mov
mnemonic mov_reg_imm64 = Mnemonic.mov
mnemonic shl_reg_imm8 = Mnemonic.shl
mnemonic sar_reg_imm8 = Mnemonic.sar
mnemonic shr_reg_imm8 = Mnemonic.shr
mnemonic bts_reg_imm8 = Mnemonic.bts
mnemonic btr_reg_imm8 = Mnemonic.btr
mnemonic (imul_reg_imm32 src) = Mnemonic.imul

-- The width of the immediate: a byte, an `int32_t` or a `uint64_t`.
abbrev pub imm_limit : RegImm → ℕ
imm_limit mov_reg_imm64 = 2 ^ 64
imm_limit shl_reg_imm8 = 2 ^ 8
imm_limit sar_reg_imm8 = 2 ^ 8
imm_limit shr_reg_imm8 = 2 ^ 8
imm_limit bts_reg_imm8 = 2 ^ 8
imm_limit btr_reg_imm8 = 2 ^ 8
imm_limit _ = 2 ^ 32

-- `mov_reg_imm32` moves the sign extension of its immediate.
abbrev pub moved : RegImm → ℕ → ℕ
moved mov_reg_imm32 imm = sign_extend32 imm
moved _ imm = imm

-- The second register, where there is one.
abbrev pub source_reg : RegImm → ℕ
source_reg (imul_reg_imm32 src) = src
source_reg _ = 0

abbrev pub source : RegImm → ℕ → Source
source (imul_reg_imm32 src) imm = times (direct src) imm
source m imm = immediate (moved m imm)

abbrev pub insn : RegImm → ℕ → ℕ → Insn
insn m dst imm = record {
  locked = false;
  wide = true;
  op = mnemonic m;
  target = direct dst;
  source = source m imm;
}

-- Every method of the encoder that ends in `_reg_imm32`, `_reg_imm64` or `_reg_imm8` writes one
-- instruction, with the mnemonic of its name, that names its register, for `imul_reg_imm32` both of
-- its registers, and the whole immediate, whichever of the short and long forms it chooses; that of
-- `mov_reg_imm32` is sign-extended. Registers are below 16, and the immediate is of the width in
-- the name.
pub decode-reg_imm :
    (m : RegImm) (dst imm : ℕ) (rest : List ℕ)
    → dst < 16
    → imm < imm_limit m
    → source_reg m < 16
    → decode (bytes (encode m dst imm) ++ rest) ≡ some (insn m dst imm, rest)
unfolding Integer.add_reg_imm32 Integer.sub_reg_imm32 Integer.and_reg_imm32 Integer.or_reg_imm32
    Integer.xor_reg_imm32 Integer.cmp_reg_imm32 Integer.mov_reg_imm32 Integer.mov_reg_imm64
    Integer.shl_reg_imm8 Integer.sar_reg_imm8 Integer.shr_reg_imm8 Integer.bts_reg_imm8
    Integer.btr_reg_imm8 Integer.imul_reg_imm32
decode-reg_imm add_reg_imm32 dst imm rest h k _ = decode-group_imm 0 dst imm rest (omega arith) h k
decode-reg_imm sub_reg_imm32 dst imm rest h k _ = decode-group_imm 5 dst imm rest (omega arith) h k
decode-reg_imm and_reg_imm32 dst imm rest h k _ = decode-group_imm 4 dst imm rest (omega arith) h k
decode-reg_imm or_reg_imm32 dst imm rest h k _ = decode-group_imm 1 dst imm rest (omega arith) h k
decode-reg_imm xor_reg_imm32 dst imm rest h k _ = decode-group_imm 6 dst imm rest (omega arith) h k
decode-reg_imm cmp_reg_imm32 dst imm rest h k _ = decode-group_imm 7 dst imm rest (omega arith) h k
decode-reg_imm mov_reg_imm32 dst imm rest h k _ = rw (
  decode-legacy_code no_prefix true 0 dst 0xC7 (emit_modrm 3 0 dst ∷ dword imm ∷ []) rest refl,
  decode_modrm-direct true 0 dst (dword imm ∷ []) rest (omega arith) h,
  from_le-le_bytes4 imm k,
)
decode-reg_imm mov_reg_imm64 dst imm rest h k _ = decode-mov_imm64 dst imm rest h k
decode-reg_imm shl_reg_imm8 dst imm rest h k _ = decode-shift_imm 4 dst imm rest (omega arith) h
decode-reg_imm sar_reg_imm8 dst imm rest h k _ = decode-shift_imm 7 dst imm rest (omega arith) h
decode-reg_imm shr_reg_imm8 dst imm rest h k _ = decode-shift_imm 5 dst imm rest (omega arith) h
decode-reg_imm bts_reg_imm8 dst imm rest h k _ = decode-bit_imm 5 dst imm rest (omega arith) h
decode-reg_imm btr_reg_imm8 dst imm rest h k _ = decode-bit_imm 6 dst imm rest (omega arith) h
decode-reg_imm (imul_reg_imm32 src) dst imm rest h k l = decode-imul_imm dst src imm rest h l k
