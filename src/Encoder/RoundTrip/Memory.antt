-- ===== src/Encoder/RoundTrip/Memory.antt =====
-- The methods of src/backend/ana_encoder.cpp with a memory operand `[base + disp]`.
use anastasia.Base.{ℕ, ◌^◌, ◌<◌, ◌≡◌, refl, Bool, true, false, some, List, ◌∷◌, ◌++◌}
use anastasia.Encoder.Prefix.{Code, byte, bytes, mem_operand}
use anastasia.Encoder.Decode.{direct, indirect, no_prefix, lock_f0, repne_f2, rep_f3, opsize_66}
use anastasia.Encoder.Disassemble.{Mnemonic, Insn, operand, decode}
use anastasia.Encoder.Integer
use anastasia.Encoder.System
use anastasia.Encoder.Vector
use anastasia.Encoder.Operands.{
  decode-legacy_code, decode_modrm-mem_operand, mem_operand-mod, rex_if_high-eq_emit_rex,
}

-- Loads have the memory operand as their source, stores and read-modify-writes as their target.
pub data Load : Type 0 where
  mov_reg_mem movss_xmm_mem movsd_xmm_mem movdqu_xmm_mem : Load

pub data Store : Type 0 where
  mov_mem_reg add_mem_reg xchg_mem_reg : Store
  lock_cmpxchg_mem_reg lock_add_mem_reg lock_and_mem_reg lock_or_mem_reg : Store
  movss_mem_xmm movsd_mem_xmm movdqu_mem_xmm movntdq_mem_xmm : Store

abbrev pub encode_load : Load → ℕ → ℕ → ℕ → Code
encode_load mov_reg_mem = Integer.mov_reg_mem
encode_load movss_xmm_mem = Vector.movss_xmm_mem
encode_load movsd_xmm_mem = Vector.movsd_xmm_mem
encode_load movdqu_xmm_mem = Vector.movdqu_xmm_mem

abbrev pub encode_store : Store → ℕ → ℕ → ℕ → Code
encode_store mov_mem_reg = Integer.mov_mem_reg
encode_store add_mem_reg = Integer.add_mem_reg
encode_store xchg_mem_reg = System.xchg_mem_reg
encode_store lock_cmpxchg_mem_reg = System.lock_cmpxchg_mem_reg
encode_store lock_add_mem_reg = System.lock_add_mem_reg
encode_store lock_and_mem_reg = System.lock_and_mem_reg
encode_store lock_or_mem_reg = System.lock_or_mem_reg
encode_store movss_mem_xmm = Vector.movss_mem_xmm
encode_store movsd_mem_xmm = Vector.movsd_mem_xmm
encode_store movdqu_mem_xmm = Vector.movdqu_mem_xmm
encode_store movntdq_mem_xmm = Vector.movntdq_mem_xmm

abbrev load_mnemonic : Load → Mnemonic
load_mnemonic mov_reg_mem = Mnemonic.mov
load_mnemonic movss_xmm_mem = Mnemonic.movss
load_mnemonic movsd_xmm_mem = Mnemonic.movsd
load_mnemonic movdqu_xmm_mem = Mnemonic.movdqu

abbrev store_mnemonic : Store → Mnemonic
store_mnemonic mov_mem_reg = Mnemonic.mov
store_mnemonic add_mem_reg = Mnemonic.add
store_mnemonic xchg_mem_reg = Mnemonic.xchg
store_mnemonic lock_cmpxchg_mem_reg = Mnemonic.cmpxchg
store_mnemonic lock_add_mem_reg = Mnemonic.add
store_mnemonic lock_and_mem_reg = Mnemonic.and
store_mnemonic lock_or_mem_reg = Mnemonic.or
store_mnemonic movss_mem_xmm = Mnemonic.movss
store_mnemonic movsd_mem_xmm = Mnemonic.movsd
store_mnemonic movdqu_mem_xmm = Mnemonic.movdqu
store_mnemonic movntdq_mem_xmm = Mnemonic.movntdq

abbrev load_is_wide : Load → Bool
load_is_wide mov_reg_mem = true
load_is_wide _ = false

abbrev store_is_wide : Store → Bool
store_is_wide movss_mem_xmm = false
store_is_wide movsd_mem_xmm = false
store_is_wide movdqu_mem_xmm = false
store_is_wide movntdq_mem_xmm = false
store_is_wide _ = true

abbrev store_is_locked : Store → Bool
store_is_locked lock_cmpxchg_mem_reg = true
store_is_locked lock_add_mem_reg = true
store_is_locked lock_and_mem_reg = true
store_is_locked lock_or_mem_reg = true
store_is_locked _ = false

abbrev pub load_insn : Load → ℕ → ℕ → ℕ → Insn
load_insn m dst base disp = record {
  locked = false;
  wide = load_is_wide m;
  op = load_mnemonic m;
  target = direct dst;
  source = operand (indirect base disp);
}

abbrev pub store_insn : Store → ℕ → ℕ → ℕ → Insn
store_insn m base disp src = record {
  locked = store_is_locked m;
  wide = store_is_wide m;
  op = store_mnemonic m;
  target = indirect base disp;
  source = operand (direct src);
}

-- Every load without a VEX or EVEX prefix (`mov_reg_mem`, `movss_xmm_mem`, `movsd_xmm_mem`,
-- `movdqu_xmm_mem`) writes one instruction that reads `[base + disp]` into its register, for every base
-- register and every 32-bit displacement, whichever addressing form it chooses.
pub decode-load :
    (m : Load) (dst base disp : ℕ) (rest : List ℕ)
    → dst < 16
    → base < 16
    → disp < 2 ^ 32
    → decode (bytes (encode_load m dst base disp) ++ rest) ≡ some (load_insn m dst base disp, rest)
unfolding Integer.mov_reg_mem Vector.movss_xmm_mem Vector.movsd_xmm_mem Vector.movdqu_xmm_mem
decode-load mov_reg_mem dst base disp rest h k l = rw (
  decode-legacy_code no_prefix true dst base 0x8B (mem_operand dst base disp) rest refl,
  decode_modrm-mem_operand true dst base disp rest h k l,
)
decode-load movss_xmm_mem dst base disp rest h k l = rw (
  rex_if_high-eq_emit_rex dst base,
  mem_operand-mod dst base disp,
  decode-legacy_code rep_f3 false dst base 0x0F (byte 0x10 ∷ mem_operand dst base disp) rest refl,
  decode_modrm-mem_operand false dst base disp rest h k l,
)
decode-load movsd_xmm_mem dst base disp rest h k l = rw (
  rex_if_high-eq_emit_rex dst base,
  mem_operand-mod dst base disp,
  decode-legacy_code repne_f2 false dst base 0x0F (byte 0x10 ∷ mem_operand dst base disp) rest refl,
  decode_modrm-mem_operand false dst base disp rest h k l,
)
decode-load movdqu_xmm_mem dst base disp rest h k l = rw (
  rex_if_high-eq_emit_rex dst base,
  mem_operand-mod dst base disp,
  decode-legacy_code rep_f3 false dst base 0x0F (byte 0x6F ∷ mem_operand dst base disp) rest refl,
  decode_modrm-mem_operand false dst base disp rest h k l,
)

-- Every store and atomic operation without a VEX or EVEX prefix writes one instruction on
-- `[base + disp]` with its register as the source, under a LOCK prefix exactly for the `lock_`
-- methods.
pub decode-store :
    (m : Store) (base disp src : ℕ) (rest : List ℕ)
    → src < 16
    → base < 16
    → disp < 2 ^ 32
    → decode (bytes (encode_store m base disp src) ++ rest)
      ≡ some (store_insn m base disp src, rest)
unfolding Integer.mov_mem_reg Integer.add_mem_reg System.xchg_mem_reg System.lock_cmpxchg_mem_reg
    System.lock_add_mem_reg System.lock_and_mem_reg System.lock_or_mem_reg Vector.movss_mem_xmm
    Vector.movsd_mem_xmm Vector.movdqu_mem_xmm Vector.movntdq_mem_xmm
decode-store mov_mem_reg base disp src rest h k l = rw (
  decode-legacy_code no_prefix true src base 0x89 (mem_operand src base disp) rest refl,
  decode_modrm-mem_operand true src base disp rest h k l,
)
decode-store add_mem_reg base disp src rest h k l = rw (
  decode-legacy_code no_prefix true src base 0x01 (mem_operand src base disp) rest refl,
  decode_modrm-mem_operand true src base disp rest h k l,
)
decode-store xchg_mem_reg base disp src rest h k l = rw (
  decode-legacy_code no_prefix true src base 0x87 (mem_operand src base disp) rest refl,
  decode_modrm-mem_operand true src base disp rest h k l,
)
decode-store lock_cmpxchg_mem_reg base disp src rest h k l = rw (
  decode-legacy_code lock_f0 true src base 0x0F (byte 0xB1 ∷ mem_operand src base disp) rest refl,
  decode_modrm-mem_operand true src base disp rest h k l,
)
decode-store lock_add_mem_reg base disp src rest h k l = rw (
  decode-legacy_code lock_f0 true src base 0x01 (mem_operand src base disp) rest refl,
  decode_modrm-mem_operand true src base disp rest h k l,
)
decode-store lock_and_mem_reg base disp src rest h k l = rw (
  decode-legacy_code lock_f0 true src base 0x21 (mem_operand src base disp) rest refl,
  decode_modrm-mem_operand true src base disp rest h k l,
)
decode-store lock_or_mem_reg base disp src rest h k l = rw (
  decode-legacy_code lock_f0 true src base 0x09 (mem_operand src base disp) rest refl,
  decode_modrm-mem_operand true src base disp rest h k l,
)
decode-store movss_mem_xmm base disp src rest h k l = rw (
  rex_if_high-eq_emit_rex src base,
  mem_operand-mod src base disp,
  decode-legacy_code rep_f3 false src base 0x0F (byte 0x11 ∷ mem_operand src base disp) rest refl,
  decode_modrm-mem_operand false src base disp rest h k l,
)
decode-store movsd_mem_xmm base disp src rest h k l = rw (
  rex_if_high-eq_emit_rex src base,
  mem_operand-mod src base disp,
  decode-legacy_code repne_f2 false src base 0x0F (byte 0x11 ∷ mem_operand src base disp) rest refl,
  decode_modrm-mem_operand false src base disp rest h k l,
)
decode-store movdqu_mem_xmm base disp src rest h k l = rw (
  rex_if_high-eq_emit_rex src base,
  mem_operand-mod src base disp,
  decode-legacy_code rep_f3 false src base 0x0F (byte 0x7F ∷ mem_operand src base disp) rest refl,
  decode_modrm-mem_operand false src base disp rest h k l,
)
decode-store movntdq_mem_xmm base disp src rest h k l = rw (
  rex_if_high-eq_emit_rex src base,
  mem_operand-mod src base disp,
  decode-legacy_code opsize_66 false src base 0x0F (byte 0xE7 ∷ mem_operand src base disp) rest
      refl,
  decode_modrm-mem_operand false src base disp rest h k l,
)
