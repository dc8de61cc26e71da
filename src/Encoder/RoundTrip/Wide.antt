-- ===== src/Encoder/RoundTrip/Wide.antt =====
-- The methods of src/backend/ana_encoder.cpp on `ymm` and `zmm` registers.
use anastasia.Base.{
  ℕ, ◌*◌, ◌/◌, ◌%◌, ◌^◌, ◌<◌, ◌≡◌, refl, Bool, true, false, ◌&&◌, some, List, [], ◌∷◌, ◌++◌, arith,
  if◌then◌else◌,
}
use anastasia.Base.Words.{fits_int8}
use anastasia.Encoder.Prefix.{Code, byte, bytes, emit_modrm, mem_operand, emit_vex3, emit_evex}
use anastasia.Encoder.Decode.{direct, indirect}
use anastasia.Encoder.DecodeVector.{VecMnemonic, VecInsn, vector_op, decode_vector}
use anastasia.Encoder.Operands.{
  decode_modrm-direct, decode_modrm-mem_operand, emit_modrm-mod, mem_operand-mod,
}
use anastasia.Encoder.Vector
use anastasia.Encoder.VectorPrefix.{decode-emit_vex3, decode-emit_evex, unit-mem_operand}

pub data WideMove : Type 0 where
  vmovdqu_ymm_mem vmovdqu_mem_ymm vmovntdq_ymm_mem : WideMove
  vmovdqu_zmm_mem vmovdqu_mem_zmm vmovntdq_zmm_mem : WideMove

abbrev pub encode_move : WideMove → ℕ → ℕ → ℕ → Code
encode_move vmovdqu_ymm_mem reg base disp = Vector.vmovdqu_ymm_mem reg base disp
encode_move vmovdqu_mem_ymm reg base disp = Vector.vmovdqu_mem_ymm base disp reg
encode_move vmovntdq_ymm_mem reg base disp = Vector.vmovntdq_ymm_mem base disp reg
encode_move vmovdqu_zmm_mem reg base disp = Vector.vmovdqu_zmm_mem reg base disp
encode_move vmovdqu_mem_zmm reg base disp = Vector.vmovdqu_mem_zmm base disp reg
encode_move vmovntdq_zmm_mem reg base disp = Vector.vmovntdq_zmm_mem base disp reg

abbrev move_mnemonic : WideMove → VecMnemonic
move_mnemonic vmovdqu_ymm_mem = VecMnemonic.vmovdqu_load
move_mnemonic vmovdqu_mem_ymm = VecMnemonic.vmovdqu_store
move_mnemonic vmovntdq_ymm_mem = VecMnemonic.vmovntdq
move_mnemonic vmovdqu_zmm_mem = VecMnemonic.vmovdqu_load
move_mnemonic vmovdqu_mem_zmm = VecMnemonic.vmovdqu_store
move_mnemonic vmovntdq_zmm_mem = VecMnemonic.vmovntdq

abbrev is_zmm : WideMove → Bool
is_zmm vmovdqu_zmm_mem = true
is_zmm vmovdqu_mem_zmm = true
is_zmm vmovntdq_zmm_mem = true
is_zmm _ = false

abbrev pub move_insn : WideMove → ℕ → ℕ → ℕ → VecInsn
move_insn m reg base disp = record {
  size = if is_zmm m then 64 else 32;
  op = move_mnemonic m;
  reg = reg;
  second = 0;
  rm = indirect base (if is_zmm m && fits_int8 disp then disp * 64 % 2 ^ 32 else disp);
}

-- A move under VEX with a memory operand.
vex_move :
    (pp o reg base disp : ℕ) (op : VecMnemonic) (rest : List ℕ)
    → pp < 4
    → reg < 16
    → base < 16
    → disp < 2 ^ 32
    → vector_op 1 pp o ≡ some op
    → decode_vector (
        bytes (
          emit_vex3 1 pp false 0 true (reg / 8) 0 (base / 8)
          ++ byte o ∷ mem_operand (reg % 8) (base % 8) disp)
        ++ rest)
      ≡ some (record { size = 32; op = op; reg = reg; second = 0; rm = indirect base disp }, rest)
vex_move pp o reg base disp op rest a b c d e =
    let whole : disp * 1 % 2 ^ 32 ≡ disp = omega arith in
    rw
      (
        mem_operand-mod reg base disp,
        decode-emit_vex3 1 pp 0 reg base o (mem_operand reg base disp) rest (omega arith) a
            (omega arith) b c,
        decode_modrm-mem_operand false reg base disp rest b c d,
        e,
        whole,
      )
      refl

evex_move :
    (pp o reg base disp : ℕ) (op : VecMnemonic) (rest : List ℕ)
    → pp < 4
    → reg < 16
    → base < 16
    → disp < 2 ^ 32
    → vector_op 1 pp o ≡ some op
    → decode_vector (
        bytes (
          emit_evex 1 pp false 0 2 (reg / 8) 0 (base / 8) 0
          ++ byte o ∷ mem_operand (reg % 8) (base % 8) disp)
        ++ rest)
      ≡ some (
        record {
          size = 64;
          op = op;
          reg = reg;
          second = 0;
          rm = indirect base (if fits_int8 disp then disp * 64 % 2 ^ 32 else disp);
        },
        rest,
      )
evex_move pp o reg base disp op rest a b c d e =
    rw
      (
        mem_operand-mod reg base disp,
        decode-emit_evex 1 pp 0 reg base o (mem_operand reg base disp) rest (omega arith) a
            (omega arith) b c,
        decode_modrm-mem_operand false reg base disp rest b c d,
        e,
        unit-mem_operand reg base disp rest b c d,
      )
      refl

-- The moves between memory and `ymm` registers write one instruction, VMOVDQU or VMOVNTDQ of 32
-- bytes, on `[base + disp]`. Those of `zmm` registers write one of 64 bytes, on `[base + disp]` when
-- `disp` does not fit a signed byte; when it fits, the processor reads the displacement in whole
-- vectors, and the instruction is on `[base + 64 * disp]`.
pub decode-move :
    (m : WideMove) (reg base disp : ℕ) (rest : List ℕ)
    → reg < 16
    → base < 16
    → disp < 2 ^ 32
    → decode_vector (bytes (encode_move m reg base disp) ++ rest)
      ≡ some (move_insn m reg base disp, rest)
unfolding Vector.vmovdqu_ymm_mem Vector.vmovdqu_mem_ymm Vector.vmovntdq_ymm_mem
    Vector.vmovdqu_zmm_mem Vector.vmovdqu_mem_zmm Vector.vmovntdq_zmm_mem
decode-move vmovdqu_ymm_mem reg base disp rest h k l =
    vex_move 2 0x6F reg base disp _ rest (omega arith) h k l refl
decode-move vmovdqu_mem_ymm reg base disp rest h k l =
    vex_move 2 0x7F reg base disp _ rest (omega arith) h k l refl
decode-move vmovntdq_ymm_mem reg base disp rest h k l =
    vex_move 1 0xE7 reg base disp _ rest (omega arith) h k l refl
decode-move vmovdqu_zmm_mem reg base disp rest h k l =
    evex_move 2 0x6F reg base disp _ rest (omega arith) h k l refl
decode-move vmovdqu_mem_zmm reg base disp rest h k l =
    evex_move 2 0x7F reg base disp _ rest (omega arith) h k l refl
decode-move vmovntdq_zmm_mem reg base disp rest h k l =
    evex_move 1 0xE7 reg base disp _ rest (omega arith) h k l refl

pub data WideSum : Type 0 where
  vpaddd_ymm_ymm vpaddd_zmm_zmm vpmulld_ymm_ymm : WideSum

abbrev pub encode_sum : WideSum → ℕ → ℕ → ℕ → Code
encode_sum vpaddd_ymm_ymm = Vector.vpaddd_ymm_ymm
encode_sum vpaddd_zmm_zmm = Vector.vpaddd_zmm_zmm
encode_sum vpmulld_ymm_ymm = Vector.vpmulld_ymm_ymm

abbrev sum_size : WideSum → ℕ
sum_size vpaddd_zmm_zmm = 64
sum_size _ = 32

abbrev sum_mnemonic : WideSum → VecMnemonic
sum_mnemonic vpmulld_ymm_ymm = VecMnemonic.vpmulld
sum_mnemonic _ = VecMnemonic.vpaddd

abbrev pub sum_insn : WideSum → ℕ → ℕ → ℕ → VecInsn
sum_insn m dst src1 src2 = record {
  size = sum_size m;
  op = sum_mnemonic m;
  reg = dst;
  second = src1;
  rm = direct src2;
}

-- The additions and the multiplication of `ymm` and `zmm` registers write one instruction, of 32 or
-- 64 bytes, with `dst`, `src1` and `src2` in this order, for all of the lower sixteen registers.
pub decode-sum :
    (m : WideSum) (dst src1 src2 : ℕ) (rest : List ℕ)
    → dst < 16
    → src1 < 16
    → src2 < 16
    → decode_vector (bytes (encode_sum m dst src1 src2) ++ rest)
      ≡ some (sum_insn m dst src1 src2, rest)
unfolding Vector.vpaddd_ymm_ymm Vector.vpaddd_zmm_zmm Vector.vpmulld_ymm_ymm
decode-sum vpaddd_ymm_ymm dst src1 src2 rest h k l =
    rw
      (
        emit_modrm-mod 3 dst src2,
        decode-emit_vex3 1 1 src1 dst src2 0xFE (emit_modrm 3 dst src2 ∷ []) rest (omega arith)
            (omega arith) k h l,
        decode_modrm-direct false dst src2 [] rest h l,
      )
      refl
decode-sum vpmulld_ymm_ymm dst src1 src2 rest h k l =
    rw
      (
        emit_modrm-mod 3 dst src2,
        decode-emit_vex3 2 1 src1 dst src2 0x40 (emit_modrm 3 dst src2 ∷ []) rest (omega arith)
            (omega arith) k h l,
        decode_modrm-direct false dst src2 [] rest h l,
      )
      refl
decode-sum vpaddd_zmm_zmm dst src1 src2 rest h k l =
    rw
      (
        emit_modrm-mod 3 dst src2,
        decode-emit_evex 1 1 src1 dst src2 0xFE (emit_modrm 3 dst src2 ∷ []) rest (omega arith)
            (omega arith) k h l,
        decode_modrm-direct false dst src2 [] rest h l,
      )
      refl
