-- ===== src/Encoder/Tests.antt =====
-- Runs of the encoder of src/backend/ana_encoder.cpp on concrete input.
use anastasia.Base.{
  ◌^◌, ◌≡◌, ◌≢◌, ◌↔◌, refl, true, false, some, List, [], ◌∷◌, ◌++◌, leb, arith, ◌+◌, ◌<◌,
}
use anastasia.Base.Lists.{length, slice, All}
use anastasia.Encoder.Buffer.{
  Kernel, AnaEncoder, new_encoder, ensure_capacity, reset, emit8, emit32,
}
use anastasia.Encoder.Prefix.{byte, dword, bytes, emit}
use anastasia.Encoder.Decode.{indirect}
use anastasia.Encoder.Disassemble.{decode}
use anastasia.Encoder.Growth.{AddressSpace, IsSized, Appends, emit-Appends}
use anastasia.Encoder.Granted.{HasMemory, IsOpen, Writes, emit-Writes}
use anastasia.Encoder.Labels.{
  new_label, bind_label, add_reloc, jmp_label, je_label, resolve_labels, resolve_from, displacement,
  patch,
}
use anastasia.Encoder.Resolve.{Outside}
use anastasia.Encoder.Session.{Call, step, run, session}
use anastasia.Encoder.Branches.{IsBound, IsShort, session_resolves, resolve_labels-slice}
use anastasia.Encoder.Trace.{trace_from, traced, trace}
use anastasia.Encoder.Jumps.{Jumps, session-Jumps}
use anastasia.Encoder.Vector
use anastasia.Encoder.RoundTrip.RegReg
use anastasia.Encoder.RoundTrip.RegImm
use anastasia.Encoder.RoundTrip.Memory
use anastasia.Encoder.RoundTrip.Scalar
use anastasia.Encoder.RoundTrip.Wide
use anastasia.Encoder.DecodeVector.{decode_vector}

-- A kernel that maps at most 1 MiB at once.
abbrev kernel : Kernel
kernel n size = leb size (2 ^ 20)

kernel_space : AddressSpace kernel
kernel_space n size h = ground arith

-- A loop: a label, a conditional branch forward over a NOP, a jump back.
abbrev loop_calls : List Call
loop_calls =
    Call.label
    ∷ Call.label
    ∷ Call.bind 0
    ∷ Call.je 1
    ∷ Call.emission (byte 0x90 ∷ [])
    ∷ Call.jmp 0
    ∷ Call.bind 1
    ∷ []

abbrev loop_code : AnaEncoder
loop_code = session kernel loop_calls

abbrev loop_linked : AnaEncoder
loop_linked = (resolve_labels loop_code).1

loop-IsShort : IsShort loop_code
unfolding run step new_encoder ensure_capacity reset new_label bind_label jmp_label je_label
    add_reloc emit emit8 emit32
loop-IsShort = ground arith

loop_resolves : resolve_labels loop_code ≡ (true, loop_linked)
unfolding run step new_encoder ensure_capacity reset new_label bind_label jmp_label je_label
    add_reloc emit emit8 emit32 resolve_labels resolve_from displacement patch
loop_resolves = refl

loop_bytes :
    loop_linked.buffer ≡ 0x0F ∷ 0x84 ∷ 6 ∷ 0 ∷ 0 ∷ 0 ∷ 0x90 ∷ 0xE9 ∷ 0xF4 ∷ 0xFF ∷ 0xFF ∷ 0xFF ∷ []
unfolding run step new_encoder ensure_capacity reset new_label bind_label jmp_label je_label
    add_reloc emit emit8 emit32 resolve_labels resolve_from displacement patch
loop_bytes = refl

loop-Outside : Outside 6 2 loop_code.relocs
unfolding run step new_encoder ensure_capacity reset new_label bind_label jmp_label je_label
    add_reloc emit emit8 emit32
loop-Outside = ground arith

loop_trace-IsShort : length (trace loop_calls).code < 2 ^ 31
unfolding trace_from traced
loop_trace-IsShort = ground arith

-- The loop's two branches and the places of its two labels.
loop_branches :
    ((trace loop_calls).places ≡ some 0 ∷ some 12 ∷ [])
    × ((trace loop_calls).branches
        ≡ record { opcode = 0x0F ∷ 0x84 ∷ []; field = 2; label_id = 1 }
          ∷ record { opcode = 0xE9 ∷ []; field = 8; label_id = 0 }
          ∷ [])
unfolding trace_from traced
loop_branches = (refl, refl)

session-Jumps_example :
    All (Jumps (trace loop_calls).places loop_linked.buffer) (trace loop_calls).branches
    × (length loop_linked.buffer ≡ length (trace loop_calls).code)
session-Jumps_example =
    session-Jumps kernel loop_calls loop_linked kernel_space loop_trace-IsShort loop_resolves

resolve_labels-slice_example : slice loop_linked.buffer 6 2 ≡ slice loop_code.buffer 6 2
resolve_labels-slice_example =
    resolve_labels-slice loop_code loop_linked 6 2 loop_resolves loop-Outside

session_resolves_example : ((resolve_labels loop_code).0 ≡ true) ↔ (
    (loop_code.failed ≡ false)
    × (loop_code.capacity ≢ 0)
    × All (IsBound loop_code.labels) loop_code.relocs)
session_resolves_example = session_resolves kernel loop_calls kernel_space loop-IsShort

abbrev fresh : AnaEncoder
fresh = new_encoder kernel

fresh-IsSized : IsSized fresh
unfolding new_encoder ensure_capacity reset
fresh-IsSized = record { inside = ground arith; mappable = ground arith }

emit-Appends_example :
    Appends (0x0F ∷ 1 ∷ 2 ∷ 0 ∷ 0 ∷ []) fresh (emit kernel (byte 0x0F ∷ dword 0x201 ∷ []) fresh)
emit-Appends_example =
    emit-Appends kernel kernel_space (byte 0x0F ∷ dword 0x201 ∷ []) fresh fresh-IsSized

-- A kernel that grants everything up to 4 GiB.
abbrev large : Kernel
large n size = leb size (2 ^ 32)

large-HasMemory : HasMemory large
large-HasMemory n size h = ground arith

abbrev opened : AnaEncoder
opened = new_encoder large

opened-IsOpen : IsOpen opened
unfolding new_encoder ensure_capacity reset
opened-IsOpen = record { works = refl; inside = omega arith }

opened_room : length opened.buffer + 5 < 2 ^ 30
unfolding new_encoder ensure_capacity reset
opened_room = omega arith

emit-Writes_example :
    Writes (0x0F ∷ 1 ∷ 2 ∷ 0 ∷ 0 ∷ []) opened (emit large (byte 0x0F ∷ dword 0x201 ∷ []) opened)
emit-Writes_example =
    emit-Writes large large-HasMemory (byte 0x0F ∷ dword 0x201 ∷ []) opened opened-IsOpen
      opened_room

decode-load_example :
    decode (bytes (Memory.encode_load Memory.mov_reg_mem 9 13 0) ++ [])
    ≡ some (Memory.load_insn Memory.mov_reg_mem 9 13 0, [])
decode-load_example =
    Memory.decode-load Memory.mov_reg_mem 9 13 0 [] (omega arith) (omega arith) (omega arith)

decode-store_example :
    decode (bytes (Memory.encode_store Memory.lock_cmpxchg_mem_reg 12 0xFFFF_FF80 3) ++ 0xC3 ∷ [])
    ≡ some (Memory.store_insn Memory.lock_cmpxchg_mem_reg 12 0xFFFF_FF80 3, 0xC3 ∷ [])
decode-store_example =
    Memory.decode-store Memory.lock_cmpxchg_mem_reg 12 0xFFFF_FF80 3 (0xC3 ∷ []) (omega arith)
      (omega arith) (omega arith)

decode-reg_reg_example :
    decode (bytes (RegReg.encode RegReg.sub_reg_reg 11 2) ++ [])
    ≡ some (RegReg.insn RegReg.sub_reg_reg 11 2, [])
decode-reg_reg_example =
    RegReg.decode-reg_reg RegReg.sub_reg_reg 11 2 [] (omega arith) (omega arith) tt

decode-reg_imm_example :
    decode (bytes (RegImm.encode RegImm.add_reg_imm32 3 0xFFFF_FFFF) ++ [])
    ≡ some (RegImm.insn RegImm.add_reg_imm32 3 0xFFFF_FFFF, [])
decode-reg_imm_example =
    RegImm.decode-reg_imm RegImm.add_reg_imm32 3 0xFFFF_FFFF [] (omega arith) (omega arith)
      (omega arith)

decode-scalar_example :
    decode (bytes (Scalar.encode Scalar.divsd_xmm_xmm 1 9) ++ [])
    ≡ some (Scalar.insn (Scalar.executed Scalar.divsd_xmm_xmm) 1 9, [])
decode-scalar_example = Scalar.decode-scalar Scalar.divsd_xmm_xmm 1 9 [] (omega arith) (omega arith)

decode-move_example :
    decode_vector (bytes (Vector.vmovdqu_zmm_mem 9 13 64) ++ [])
    ≡ some (Wide.move_insn Wide.vmovdqu_zmm_mem 9 13 64, [])
decode-move_example =
    Wide.decode-move Wide.vmovdqu_zmm_mem 9 13 64 [] (omega arith) (omega arith) (omega arith)

-- The load asks for 64 bytes behind R13 and reads 4096 bytes behind it.
zmm_displacement : (Wide.move_insn Wide.vmovdqu_zmm_mem 9 13 64).rm ≡ indirect 13 4096
zmm_displacement = refl

decode-sum_example :
    decode_vector (bytes (Vector.vpmulld_ymm_ymm 1 9 14) ++ [])
    ≡ some (Wide.sum_insn Wide.vpmulld_ymm_ymm 1 9 14, [])
decode-sum_example =
    Wide.decode-sum Wide.vpmulld_ymm_ymm 1 9 14 [] (omega arith) (omega arith) (omega arith)
