-- ===== src/Encoder/Integer.antt =====
-- The integer instructions of src/backend/ana_encoder.cpp: one function for each method, giving
-- the emissions that it makes. An `int32_t` immediate or displacement is its bit pattern.
use anastasia.Base.{ℕ, ◌+◌, ◌%◌, true, [], ◌∷◌, ◌++◌, ◌==◌, if◌then◌else◌}
use anastasia.Base.Words.{fits_int8}
use anastasia.Encoder.Prefix.{Code, byte, dword, qword, emit_rex, emit_modrm, mem_operand}

-- An `X86Reg`, by its number: 0 to 15, and 255 for NONE.
abbrev pub X86Reg : Type 0
X86Reg = ℕ

unfoldable pub mov_reg_reg : X86Reg → X86Reg → Code
mov_reg_reg dst src =
    if dst == src then [] else emit_rex true src 0 dst ++ byte 0x89 ∷ emit_modrm 3 src dst ∷ []

unfoldable pub mov_reg_imm64 : X86Reg → ℕ → Code
mov_reg_imm64 dst imm = emit_rex true 0 0 dst ++ byte (0xB8 + dst % 8) ∷ qword imm ∷ []

unfoldable pub mov_reg_imm32 : X86Reg → ℕ → Code
mov_reg_imm32 dst imm = emit_rex true 0 0 dst ++ byte 0xC7 ∷ emit_modrm 3 0 dst ∷ dword imm ∷ []

unfoldable pub mov_reg_mem : X86Reg → X86Reg → ℕ → Code
mov_reg_mem dst base disp = emit_rex true dst 0 base ++ byte 0x8B ∷ mem_operand dst base disp

unfoldable pub mov_mem_reg : X86Reg → ℕ → X86Reg → Code
mov_mem_reg base disp src = emit_rex true src 0 base ++ byte 0x89 ∷ mem_operand src base disp

unfoldable pub add_reg_reg : X86Reg → X86Reg → Code
add_reg_reg dst src = emit_rex true src 0 dst ++ byte 0x01 ∷ emit_modrm 3 src dst ∷ []

unfoldable pub add_reg_imm32 : X86Reg → ℕ → Code
add_reg_imm32 dst imm =
    emit_rex true 0 0 dst
    ++ (if fits_int8 imm
        then byte 0x83 ∷ emit_modrm 3 0 dst ∷ byte (imm % 256) ∷ []
        else byte 0x81 ∷ emit_modrm 3 0 dst ∷ dword imm ∷ [])

unfoldable pub add_mem_reg : X86Reg → ℕ → X86Reg → Code
add_mem_reg base disp src = emit_rex true src 0 base ++ byte 0x01 ∷ mem_operand src base disp

unfoldable pub sub_reg_reg : X86Reg → X86Reg → Code
sub_reg_reg dst src = emit_rex true src 0 dst ++ byte 0x29 ∷ emit_modrm 3 src dst ∷ []

unfoldable pub sub_reg_imm32 : X86Reg → ℕ → Code
sub_reg_imm32 dst imm =
    emit_rex true 0 0 dst
    ++ (if fits_int8 imm
        then byte 0x83 ∷ emit_modrm 3 5 dst ∷ byte (imm % 256) ∷ []
        else byte 0x81 ∷ emit_modrm 3 5 dst ∷ dword imm ∷ [])

unfoldable pub imul_reg_reg : X86Reg → X86Reg → Code
imul_reg_reg dst src = emit_rex true dst 0 src ++ byte 0x0F ∷ byte 0xAF ∷ emit_modrm 3 dst src ∷ []

unfoldable pub imul_reg_imm32 : X86Reg → X86Reg → ℕ → Code
imul_reg_imm32 dst src imm =
    emit_rex true dst 0 src
    ++ (if fits_int8 imm
        then byte 0x6B ∷ emit_modrm 3 dst src ∷ byte (imm % 256) ∷ []
        else byte 0x69 ∷ emit_modrm 3 dst src ∷ dword imm ∷ [])

unfoldable pub and_reg_reg : X86Reg → X86Reg → Code
and_reg_reg dst src = emit_rex true src 0 dst ++ byte 0x21 ∷ emit_modrm 3 src dst ∷ []

unfoldable pub and_reg_imm32 : X86Reg → ℕ → Code
and_reg_imm32 dst imm =
    emit_rex true 0 0 dst
    ++ (if fits_int8 imm
        then byte 0x83 ∷ emit_modrm 3 4 dst ∷ byte (imm % 256) ∷ []
        else byte 0x81 ∷ emit_modrm 3 4 dst ∷ dword imm ∷ [])

unfoldable pub or_reg_reg : X86Reg → X86Reg → Code
or_reg_reg dst src = emit_rex true src 0 dst ++ byte 0x09 ∷ emit_modrm 3 src dst ∷ []

unfoldable pub or_reg_imm32 : X86Reg → ℕ → Code
or_reg_imm32 dst imm =
    emit_rex true 0 0 dst
    ++ (if fits_int8 imm
        then byte 0x83 ∷ emit_modrm 3 1 dst ∷ byte (imm % 256) ∷ []
        else byte 0x81 ∷ emit_modrm 3 1 dst ∷ dword imm ∷ [])

unfoldable pub xor_reg_reg : X86Reg → X86Reg → Code
xor_reg_reg dst src = emit_rex true src 0 dst ++ byte 0x31 ∷ emit_modrm 3 src dst ∷ []

unfoldable pub xor_reg_imm32 : X86Reg → ℕ → Code
xor_reg_imm32 dst imm =
    emit_rex true 0 0 dst
    ++ (if fits_int8 imm
        then byte 0x83 ∷ emit_modrm 3 6 dst ∷ byte (imm % 256) ∷ []
        else byte 0x81 ∷ emit_modrm 3 6 dst ∷ dword imm ∷ [])

unfoldable pub shl_reg_cl : X86Reg → Code
shl_reg_cl dst = emit_rex true 0 0 dst ++ byte 0xD3 ∷ emit_modrm 3 4 dst ∷ []

unfoldable pub shl_reg_imm8 : X86Reg → ℕ → Code
shl_reg_imm8 dst imm =
    emit_rex true 0 0 dst
    ++ (if imm == 1
        then byte 0xD1 ∷ emit_modrm 3 4 dst ∷ []
        else byte 0xC1 ∷ emit_modrm 3 4 dst ∷ byte imm ∷ [])

unfoldable pub sar_reg_cl : X86Reg → Code
sar_reg_cl dst = emit_rex true 0 0 dst ++ byte 0xD3 ∷ emit_modrm 3 7 dst ∷ []

unfoldable pub sar_reg_imm8 : X86Reg → ℕ → Code
sar_reg_imm8 dst imm =
    emit_rex true 0 0 dst
    ++ (if imm == 1
        then byte 0xD1 ∷ emit_modrm 3 7 dst ∷ []
        else byte 0xC1 ∷ emit_modrm 3 7 dst ∷ byte imm ∷ [])

unfoldable pub shr_reg_cl : X86Reg → Code
shr_reg_cl dst = emit_rex true 0 0 dst ++ byte 0xD3 ∷ emit_modrm 3 5 dst ∷ []

unfoldable pub shr_reg_imm8 : X86Reg → ℕ → Code
shr_reg_imm8 dst imm =
    emit_rex true 0 0 dst
    ++ (if imm == 1
        then byte 0xD1 ∷ emit_modrm 3 5 dst ∷ []
        else byte 0xC1 ∷ emit_modrm 3 5 dst ∷ byte imm ∷ [])

unfoldable pub bts_reg_reg : X86Reg → X86Reg → Code
bts_reg_reg dst src = emit_rex true src 0 dst ++ byte 0x0F ∷ byte 0xAB ∷ emit_modrm 3 src dst ∷ []

unfoldable pub bts_reg_imm8 : X86Reg → ℕ → Code
bts_reg_imm8 dst imm =
    emit_rex true 0 0 dst ++ byte 0x0F ∷ byte 0xBA ∷ emit_modrm 3 5 dst ∷ byte imm ∷ []

unfoldable pub btr_reg_reg : X86Reg → X86Reg → Code
btr_reg_reg dst src = emit_rex true src 0 dst ++ byte 0x0F ∷ byte 0xB3 ∷ emit_modrm 3 src dst ∷ []

unfoldable pub btr_reg_imm8 : X86Reg → ℕ → Code
btr_reg_imm8 dst imm =
    emit_rex true 0 0 dst ++ byte 0x0F ∷ byte 0xBA ∷ emit_modrm 3 6 dst ∷ byte imm ∷ []

unfoldable pub popcnt_reg_reg : X86Reg → X86Reg → Code
popcnt_reg_reg dst src =
    byte 0xF3 ∷ (emit_rex true dst 0 src ++ byte 0x0F ∷ byte 0xB8 ∷ emit_modrm 3 dst src ∷ [])

unfoldable pub lzcnt_reg_reg : X86Reg → X86Reg → Code
lzcnt_reg_reg dst src =
    byte 0xF3 ∷ (emit_rex true dst 0 src ++ byte 0x0F ∷ byte 0xBD ∷ emit_modrm 3 dst src ∷ [])

unfoldable pub cmp_reg_reg : X86Reg → X86Reg → Code
cmp_reg_reg src1 src2 = emit_rex true src2 0 src1 ++ byte 0x39 ∷ emit_modrm 3 src2 src1 ∷ []

unfoldable pub cmp_reg_imm32 : X86Reg → ℕ → Code
cmp_reg_imm32 dst imm =
    emit_rex true 0 0 dst
    ++ (if fits_int8 imm
        then byte 0x83 ∷ emit_modrm 3 7 dst ∷ byte (imm % 256) ∷ []
        else byte 0x81 ∷ emit_modrm 3 7 dst ∷ dword imm ∷ [])

unfoldable pub test_reg_reg : X86Reg → X86Reg → Code
test_reg_reg src1 src2 = emit_rex true src2 0 src1 ++ byte 0x85 ∷ emit_modrm 3 src2 src1 ∷ []
