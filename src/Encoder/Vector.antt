-- ===== src/Encoder/Vector.antt =====
-- The SSE2, AVX2 and AVX-512 instructions of src/backend/ana_encoder.cpp.
use anastasia.Base.{ℕ, ◌/◌, ◌%◌, true, false, ◌||◌, [], ◌∷◌, ◌++◌, leb, if◌then◌else◌}
use anastasia.Encoder.Prefix.{Code, byte, emit_rex, emit_modrm, mem_operand, emit_vex3, emit_evex}
use anastasia.Encoder.Integer.{X86Reg}

-- An `xmm`, `ymm` or `zmm` register, by its number.
abbrev pub VecReg : Type 0
VecReg = ℕ

-- `if (reg >= 8 || rm >= 8) emit_rex(false, reg, 0, rm)`
abbrev pub rex_if_high : ℕ → ℕ → Code
rex_if_high reg rm = if leb 8 reg || leb 8 rm then emit_rex false reg 0 rm else []

unfoldable pub addss_xmm_xmm : VecReg → VecReg → Code
addss_xmm_xmm dst_xmm src_xmm =
    byte 0xF3
    ∷ (rex_if_high dst_xmm src_xmm
        ++ byte 0x0F ∷ byte 0x58 ∷ emit_modrm 3 (dst_xmm % 8) (src_xmm % 8) ∷ [])

unfoldable pub addsd_xmm_xmm : VecReg → VecReg → Code
addsd_xmm_xmm dst_xmm src_xmm =
    byte 0xF2
    ∷ (rex_if_high dst_xmm src_xmm
        ++ byte 0x0F ∷ byte 0x58 ∷ emit_modrm 3 (dst_xmm % 8) (src_xmm % 8) ∷ [])

unfoldable pub subsd_xmm_xmm : VecReg → VecReg → Code
subsd_xmm_xmm dst_xmm src_xmm =
    byte 0xF2
    ∷ (rex_if_high dst_xmm src_xmm
        ++ byte 0x0F ∷ byte 0x5C ∷ emit_modrm 3 (dst_xmm % 8) (src_xmm % 8) ∷ [])

unfoldable pub mulsd_xmm_xmm : VecReg → VecReg → Code
mulsd_xmm_xmm dst_xmm src_xmm =
    byte 0xF2
    ∷ (rex_if_high dst_xmm src_xmm
        ++ byte 0x0F ∷ byte 0x5E ∷ emit_modrm 3 (dst_xmm % 8) (src_xmm % 8) ∷ [])

unfoldable pub divsd_xmm_xmm : VecReg → VecReg → Code
divsd_xmm_xmm dst_xmm src_xmm =
    byte 0xF2
    ∷ (rex_if_high dst_xmm src_xmm
        ++ byte 0x0F ∷ byte 0x5F ∷ emit_modrm 3 (dst_xmm % 8) (src_xmm % 8) ∷ [])

unfoldable pub paddd_xmm_xmm : VecReg → VecReg → Code
paddd_xmm_xmm dst_xmm src_xmm =
    byte 0x66
    ∷ (rex_if_high dst_xmm src_xmm
        ++ byte 0x0F ∷ byte 0xFE ∷ emit_modrm 3 (dst_xmm % 8) (src_xmm % 8) ∷ [])

unfoldable pub psubd_xmm_xmm : VecReg → VecReg → Code
psubd_xmm_xmm dst_xmm src_xmm =
    byte 0x66
    ∷ (rex_if_high dst_xmm src_xmm
        ++ byte 0x0F ∷ byte 0xFA ∷ emit_modrm 3 (dst_xmm % 8) (src_xmm % 8) ∷ [])

unfoldable pub movss_xmm_mem : VecReg → X86Reg → ℕ → Code
movss_xmm_mem dst_xmm base disp =
    byte 0xF3
    ∷ (rex_if_high dst_xmm base
        ++ byte 0x0F ∷ byte 0x10 ∷ mem_operand (dst_xmm % 8) (base % 8) disp)

unfoldable pub movss_mem_xmm : X86Reg → ℕ → VecReg → Code
movss_mem_xmm base disp src_xmm =
    byte 0xF3
    ∷ (rex_if_high src_xmm base
        ++ byte 0x0F ∷ byte 0x11 ∷ mem_operand (src_xmm % 8) (base % 8) disp)

unfoldable pub movsd_xmm_mem : VecReg → X86Reg → ℕ → Code
movsd_xmm_mem dst_xmm base disp =
    byte 0xF2
    ∷ (rex_if_high dst_xmm base
        ++ byte 0x0F ∷ byte 0x10 ∷ mem_operand (dst_xmm % 8) (base % 8) disp)

unfoldable pub movsd_mem_xmm : X86Reg → ℕ → VecReg → Code
movsd_mem_xmm base disp src_xmm =
    byte 0xF2
    ∷ (rex_if_high src_xmm base
        ++ byte 0x0F ∷ byte 0x11 ∷ mem_operand (src_xmm % 8) (base % 8) disp)

unfoldable pub movdqu_xmm_mem : VecReg → X86Reg → ℕ → Code
movdqu_xmm_mem dst_xmm base disp =
    byte 0xF3
    ∷ (rex_if_high dst_xmm base
        ++ byte 0x0F ∷ byte 0x6F ∷ mem_operand (dst_xmm % 8) (base % 8) disp)

unfoldable pub movdqu_mem_xmm : X86Reg → ℕ → VecReg → Code
movdqu_mem_xmm base disp src_xmm =
    byte 0xF3
    ∷ (rex_if_high src_xmm base
        ++ byte 0x0F ∷ byte 0x7F ∷ mem_operand (src_xmm % 8) (base % 8) disp)

unfoldable pub vpaddd_ymm_ymm : VecReg → VecReg → VecReg → Code
vpaddd_ymm_ymm dst src1 src2 =
    emit_vex3 0x01 0x01 false src1 true (dst / 8) 0 (src2 / 8)
    ++ byte 0xFE ∷ emit_modrm 3 (dst % 8) (src2 % 8) ∷ []

unfoldable pub vpaddd_zmm_zmm : VecReg → VecReg → VecReg → Code
vpaddd_zmm_zmm dst src1 src2 =
    emit_evex 0x01 0x01 false src1 0x02 (dst / 8) 0 (src2 / 8) 0
    ++ byte 0xFE ∷ emit_modrm 3 (dst % 8) (src2 % 8) ∷ []

unfoldable pub vpmulld_ymm_ymm : VecReg → VecReg → VecReg → Code
vpmulld_ymm_ymm dst src1 src2 =
    emit_vex3 0x02 0x01 false src1 true (dst / 8) 0 (src2 / 8)
    ++ byte 0x40 ∷ emit_modrm 3 (dst % 8) (src2 % 8) ∷ []

unfoldable pub vmovdqu_ymm_mem : VecReg → X86Reg → ℕ → Code
vmovdqu_ymm_mem dst base disp =
    emit_vex3 0x01 0x02 false 0 true (dst / 8) 0 (base / 8)
    ++ byte 0x6F ∷ mem_operand (dst % 8) (base % 8) disp

unfoldable pub vmovdqu_mem_ymm : X86Reg → ℕ → VecReg → Code
vmovdqu_mem_ymm base disp src =
    emit_vex3 0x01 0x02 false 0 true (src / 8) 0 (base / 8)
    ++ byte 0x7F ∷ mem_operand (src % 8) (base % 8) disp

unfoldable pub vmovdqu_zmm_mem : VecReg → X86Reg → ℕ → Code
vmovdqu_zmm_mem dst base disp =
    emit_evex 0x01 0x02 false 0 0x02 (dst / 8) 0 (base / 8) 0
    ++ byte 0x6F ∷ mem_operand (dst % 8) (base % 8) disp

unfoldable pub vmovdqu_mem_zmm : X86Reg → ℕ → VecReg → Code
vmovdqu_mem_zmm base disp src =
    emit_evex 0x01 0x02 false 0 0x02 (src / 8) 0 (base / 8) 0
    ++ byte 0x7F ∷ mem_operand (src % 8) (base % 8) disp

unfoldable pub vmovntdq_ymm_mem : X86Reg → ℕ → VecReg → Code
vmovntdq_ymm_mem base disp src =
    emit_vex3 0x01 0x01 false 0 true (src / 8) 0 (base / 8)
    ++ byte 0xE7 ∷ mem_operand (src % 8) (base % 8) disp

unfoldable pub vmovntdq_zmm_mem : X86Reg → ℕ → VecReg → Code
vmovntdq_zmm_mem base disp src =
    emit_evex 0x01 0x01 false 0 0x02 (src / 8) 0 (base / 8) 0
    ++ byte 0xE7 ∷ mem_operand (src % 8) (base % 8) disp

unfoldable pub movntdq_mem_xmm : X86Reg → ℕ → VecReg → Code
movntdq_mem_xmm base disp src_xmm =
    byte 0x66
    ∷ (rex_if_high src_xmm base
        ++ byte 0x0F ∷ byte 0xE7 ∷ mem_operand (src_xmm % 8) (base % 8) disp)
