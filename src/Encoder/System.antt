-- ===== src/Encoder/System.antt =====
-- Calls, the stack, division, sign extension, atomics and fences of src/backend/ana_encoder.cpp.
use anastasia.Base.{ℕ, ◌+◌, ◌%◌, true, false, [], ◌∷◌, ◌++◌, leb, if◌then◌else◌}
use anastasia.Encoder.Prefix.{Code, byte, dword, emit_rex, emit_modrm, mem_operand}
use anastasia.Encoder.Integer.{X86Reg}

unfoldable pub call_reg : X86Reg → Code
call_reg target = emit_rex false 0 0 target ++ byte 0xFF ∷ emit_modrm 3 2 target ∷ []

unfoldable pub call_rel32_disp : ℕ → Code
call_rel32_disp disp = byte 0xE8 ∷ dword disp ∷ []

unfoldable pub push_reg : X86Reg → Code
push_reg reg = (if leb 8 reg then byte 0x41 ∷ [] else []) ++ byte (0x50 + reg % 8) ∷ []

unfoldable pub pop_reg : X86Reg → Code
pop_reg reg = (if leb 8 reg then byte 0x41 ∷ [] else []) ++ byte (0x58 + reg % 8) ∷ []

unfoldable pub ret : Code
ret = byte 0xC3 ∷ []

unfoldable pub cqo : Code
cqo = byte 0x48 ∷ byte 0x99 ∷ []

unfoldable pub idiv_reg : X86Reg → Code
idiv_reg reg = emit_rex true 7 0 reg ++ byte 0xF7 ∷ emit_modrm 3 7 reg ∷ []

unfoldable pub lock_cmpxchg_mem_reg : X86Reg → ℕ → X86Reg → Code
lock_cmpxchg_mem_reg base disp src =
    byte 0xF0 ∷ (emit_rex true src 0 base ++ byte 0x0F ∷ byte 0xB1 ∷ mem_operand src base disp)

unfoldable pub xchg_mem_reg : X86Reg → ℕ → X86Reg → Code
xchg_mem_reg base disp src = emit_rex true src 0 base ++ byte 0x87 ∷ mem_operand src base disp

unfoldable pub lock_add_mem_reg : X86Reg → ℕ → X86Reg → Code
lock_add_mem_reg base disp src =
    byte 0xF0 ∷ (emit_rex true src 0 base ++ byte 0x01 ∷ mem_operand src base disp)

unfoldable pub lock_and_mem_reg : X86Reg → ℕ → X86Reg → Code
lock_and_mem_reg base disp src =
    byte 0xF0 ∷ (emit_rex true src 0 base ++ byte 0x21 ∷ mem_operand src base disp)

unfoldable pub lock_or_mem_reg : X86Reg → ℕ → X86Reg → Code
lock_or_mem_reg base disp src =
    byte 0xF0 ∷ (emit_rex true src 0 base ++ byte 0x09 ∷ mem_operand src base disp)

unfoldable pub mfence : Code
mfence = byte 0x0F ∷ byte 0xAE ∷ byte 0xF0 ∷ []

unfoldable pub sfence : Code
sfence = byte 0x0F ∷ byte 0xAE ∷ byte 0xF8 ∷ []

unfoldable pub clflush : X86Reg → ℕ → Code
clflush base disp = emit_rex false 0 0 base ++ byte 0x0F ∷ byte 0xAE ∷ mem_operand 7 base disp

unfoldable pub prefetcht0 : X86Reg → ℕ → Code
prefetcht0 base disp =
    (if leb 8 base then emit_rex false 1 0 base else [])
    ++ byte 0x0F ∷ byte 0x18 ∷ mem_operand 1 (base % 8) disp

unfoldable pub lea_reg_rip_disp32 : X86Reg → ℕ → Code
lea_reg_rip_disp32 dst disp32 =
    emit_rex true dst 0 0 ++ byte 0x8D ∷ emit_modrm 0 (dst % 8) 5 ∷ dword disp32 ∷ []

unfoldable pub movsxd_reg_reg : X86Reg → X86Reg → Code
movsxd_reg_reg dst src =
    emit_rex true dst 0 src ++ byte 0x63 ∷ emit_modrm 3 (dst % 8) (src % 8) ∷ []

unfoldable pub movzxd_reg_reg : X86Reg → X86Reg → Code
movzxd_reg_reg dst src =
    emit_rex false dst 0 src ++ byte 0x8B ∷ emit_modrm 3 (dst % 8) (src % 8) ∷ []

unfoldable pub cdq : Code
cdq = byte 0x99 ∷ []

unfoldable pub idiv_reg32 : X86Reg → Code
idiv_reg32 src = emit_rex false 7 0 src ++ byte 0xF7 ∷ emit_modrm 3 7 (src % 8) ∷ []
