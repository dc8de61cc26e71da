-- ===== src/Lowerer/Compile.antt =====
-- `compile_function` of src/backend/ana_lowerer.cpp, on x86-64: the code of every opcode, the loop
-- over the blocks, and the executable mapping that the code is copied to.
use anastasia.Base.{
  ℕ, ◌+◌, ◌*◌, ◌/◌, ◌%◌, ◌^◌, Bool, true, false, ◌||◌, Option, none, some, List, [], ◌∷◌, ◌++◌, leb,
  ◌==◌, if◌then◌else◌,
}
use anastasia.Base.Lists.{length}
use anastasia.Ast.{Opcode, Instruction, BasicBlock, Function, Program}
use anastasia.RegAlloc.{AnaRegAlloc, allocate_registers}
use anastasia.Encoder.Buffer.{Kernel, AnaEncoder, cursor, new_encoder}
use anastasia.Encoder.Prefix.{Code, emit}
use anastasia.Encoder.System.{mfence}
use anastasia.Encoder.Labels.{new_label, bind_label, resolve_labels}
use anastasia.Lowerer.Memory.{Addresses}
use anastasia.Lowerer.Labels.{BlockLabelEntry}
use anastasia.Lowerer.Frame.{prologue, save_params, epilogue, lower_return_val}
use anastasia.Lowerer.Arithmetic
use anastasia.Lowerer.Memory
use anastasia.Lowerer.Vectors
use anastasia.Lowerer.Labels

abbrev pub max_blocks : ℕ
max_blocks = 512

-- What the cases of the switch read besides the instruction. `next` is the block behind this one.
pub record Context : Type 0 where
  pub regalloc : AnaRegAlloc
  pub addresses : Addresses
  pub prog : Option Program
  pub labels : List BlockLabelEntry
  pub next : Option BasicBlock

-- The cases that use no label; those that do, and the opcodes without a case, write nothing here.
unfoldable pub straight_line : Context → Opcode → Instruction → Code
straight_line k Opcode.add_i32 i = Arithmetic.lower_add k.regalloc i
straight_line k Opcode.add_i64 i = Arithmetic.lower_add k.regalloc i
straight_line k Opcode.sub_i32 i = Arithmetic.lower_sub k.regalloc i
straight_line k Opcode.sub_i64 i = Arithmetic.lower_sub k.regalloc i
straight_line k Opcode.neg_i32 i = Arithmetic.lower_neg k.regalloc i
straight_line k Opcode.neg_i64 i = Arithmetic.lower_neg k.regalloc i
straight_line k Opcode.const_string i = Memory.lower_const_string k.regalloc i k.addresses
straight_line k Opcode.str_len i = Memory.lower_str_len k.regalloc i
straight_line k Opcode.mul_i32 i = Arithmetic.lower_mul k.regalloc i
straight_line k Opcode.mul_i64 i = Arithmetic.lower_mul k.regalloc i
straight_line k Opcode.and_i32 i = Arithmetic.lower_and k.regalloc i
straight_line k Opcode.and_i64 i = Arithmetic.lower_and k.regalloc i
straight_line k Opcode.or_i32 i = Arithmetic.lower_or k.regalloc i
straight_line k Opcode.or_i64 i = Arithmetic.lower_or k.regalloc i
straight_line k Opcode.xor_i32 i = Arithmetic.lower_xor k.regalloc i
straight_line k Opcode.xor_i64 i = Arithmetic.lower_xor k.regalloc i
straight_line k Opcode.shl_i32 i = Arithmetic.lower_shl k.regalloc i
straight_line k Opcode.shl_i64 i = Arithmetic.lower_shl k.regalloc i
straight_line k Opcode.shr_i32 i = Arithmetic.lower_shr k.regalloc i
straight_line k Opcode.shr_i64 i = Arithmetic.lower_shr k.regalloc i
straight_line k Opcode.ushr_i32 i = Arithmetic.lower_ushr k.regalloc i
straight_line k Opcode.ushr_i64 i = Arithmetic.lower_ushr k.regalloc i
straight_line k Opcode.bts_i64 i = Arithmetic.lower_bts k.regalloc i
straight_line k Opcode.btr_i64 i = Arithmetic.lower_btr k.regalloc i
straight_line k Opcode.popcount_i64 i = Arithmetic.lower_popcount k.regalloc i
straight_line k Opcode.lzcnt_i64 i = Arithmetic.lower_lzcnt k.regalloc i
straight_line k Opcode.add_float_32 i = Vectors.lower_add_float_32 k.regalloc i
straight_line k Opcode.add_float_64 i = Vectors.lower_add_float_64 k.regalloc i
straight_line k Opcode.sub_float_64 i = Vectors.lower_sub_float_64 k.regalloc i
straight_line k Opcode.mul_float_64 i = Vectors.lower_mul_float_64 k.regalloc i
straight_line k Opcode.div_float_64 i = Vectors.lower_div_float_64 k.regalloc i
straight_line k Opcode.add_vector_i32x4 i = Vectors.lower_add_vector_i32x4 k.regalloc i
straight_line k Opcode.add_vector_i32x8 i = Vectors.lower_add_vector_i32x8 k.regalloc i
straight_line k Opcode.add_vector_i32x16 i = Vectors.lower_add_vector_i32x16 k.regalloc i
straight_line k Opcode.mul_vector_i32x8 i = Vectors.lower_mul_vector_i32x8 k.regalloc i
straight_line k Opcode.sink_mem i = Memory.lower_sink_mem k.regalloc i k.addresses
straight_line k Opcode.sub_vector_i32x4 i = Vectors.lower_sub_vector_i32x4 k.regalloc i
straight_line k Opcode.move_const i = Memory.lower_move_const k.regalloc i
straight_line k Opcode.move i = Memory.lower_move k.regalloc i
straight_line k Opcode.load_mem i = Memory.lower_load_mem k.regalloc i
straight_line k Opcode.store_mem i = Memory.lower_store_mem k.regalloc i
straight_line k Opcode.bind_vtable i = Memory.lower_bind_vtable k.regalloc i
straight_line k Opcode.call_virt i = Memory.lower_call_virt k.regalloc i
straight_line k Opcode.call_virt_fast i = Memory.lower_call_virt k.regalloc i
straight_line k Opcode.new_instance i = Memory.lower_new_instance k.regalloc i k.addresses k.prog
straight_line k Opcode.atomic_cas_i64 i = Memory.lower_atomic_cas k.regalloc i
straight_line k Opcode.atomic_xchg_i64 i = Memory.lower_atomic_xchg k.regalloc i
straight_line k Opcode.atomic_add_i64 i = Memory.lower_atomic_add k.regalloc i
straight_line k Opcode.atomic_and_i64 i = Memory.lower_atomic_and k.regalloc i
straight_line k Opcode.atomic_or_i64 i = Memory.lower_atomic_or k.regalloc i
straight_line k Opcode.fence i = mfence
straight_line k Opcode.return_val i = lower_return_val k.regalloc i.src1
straight_line k Opcode.return_void i = epilogue k.regalloc
straight_line k _ i = []

abbrev next_block : List BasicBlock → Option BasicBlock
next_block [] = none
next_block (b ∷ bs) = some b

abbrev with_entry :
    BlockLabelEntry
    → Option (List BlockLabelEntry × AnaEncoder)
    → Option (List BlockLabelEntry × AnaEncoder)
with_entry b none = none
with_entry b (some (bs, e)) = some (b ∷ bs, e)

-- A finished function: where its code lies, the code, and the size of the mapping.
pub record JitCode : Type 0 where
  pub address : ℕ
  pub code : List ℕ
  pub map_size : ℕ

-- `(code_sz + 4095) & ~4095`
abbrev pub page_rounded : ℕ → ℕ
page_rounded n = (n + 4095) % 2 ^ 64 / 4096 * 4096

-- The answers of the system to the mapping of a size and to its protection.
pub record System : Type 0 where
  pub mmap : ℕ → Option ℕ
  pub mprotect : ℕ → ℕ → Bool

abbrev pub install_at : System → List ℕ → Option ℕ → Option JitCode
install_at sys code none = none
install_at sys code (some address) =
    let map_size = page_rounded (length code) in
    if sys.mprotect address map_size
    then some (record { address = address; code = code; map_size = map_size })
    else none

-- From `code_size()` on. A mapping at 0 or -1 is a failure, as `none` is.
unfoldable pub install : System → AnaEncoder → Option JitCode
install sys e =
    if cursor e == 0 || e.failed
    then none
    else install_at sys e.buffer (sys.mmap (page_rounded (cursor e)))

-- The branch on the result of `resolve_labels`.
abbrev pub install_if : System → Bool × AnaEncoder → Option JitCode
install_if sys (true, e) = install sys e
install_if sys (false, e) = none

abbrev pub finish_code : System → Option AnaEncoder → Option JitCode
finish_code sys none = none
finish_code sys (some e) = install_if sys (resolve_labels e)

module _ (grants : Kernel) where
  -- The switch.
  unfoldable pub lower_op : Context → Opcode → Instruction → AnaEncoder → AnaEncoder
  lower_op k Opcode.div_i32 i e = Labels.lower_div grants k.regalloc i e
  lower_op k Opcode.div_i64 i e = Labels.lower_div grants k.regalloc i e
  lower_op k Opcode.goto i e = Labels.lower_goto grants k.regalloc i k.labels k.next e
  lower_op k Opcode.if_eq i e = Labels.lower_if_compare grants k.regalloc i k.labels e
  lower_op k Opcode.if_ne i e = Labels.lower_if_compare grants k.regalloc i k.labels e
  lower_op k Opcode.if_lt i e = Labels.lower_if_compare grants k.regalloc i k.labels e
  lower_op k Opcode.if_ge i e = Labels.lower_if_compare grants k.regalloc i k.labels e
  lower_op k Opcode.if_z i e = Labels.lower_if_zero grants k.regalloc i k.labels e
  lower_op k Opcode.if_nz i e = Labels.lower_if_zero grants k.regalloc i k.labels e
  lower_op k op i e = emit grants (straight_line k op i) e

  -- The loop over the instructions of a block.
  unfoldable pub lower_insns : Context → List Instruction → AnaEncoder → AnaEncoder
  unfolding lower_op
  lower_insns k [] e = e
  lower_insns k (i ∷ is) e = lower_insns k is (lower_op k i.op i e)

  -- The first loop: a label for each block, or `none` at the 513th.
  unfoldable pub label_blocks :
      List BasicBlock → ℕ → AnaEncoder → Option (List BlockLabelEntry × AnaEncoder)
  label_blocks [] block_count e = some ([], e)
  label_blocks (b ∷ bs) block_count e =
      let (l, e1) = new_label e in
      let rest = label_blocks bs (block_count + 1) e1 in
      if leb max_blocks block_count
      then none
      else with_entry (record { block = b; label_id = l }) rest

  -- The second loop, from a block on. `get_block_label` finds a block by its address, so it gives
  -- the label in the block's own entry.
  unfoldable pub lower_blocks : Context → List BlockLabelEntry → AnaEncoder → AnaEncoder
  unfolding lower_insns
  lower_blocks k [] e = e
  lower_blocks k (b ∷ []) e =
      lower_insns (record k { next = none }) b.block.insns (bind_label b.label_id e)
  lower_blocks k (b ∷ c ∷ bs) e =
      lower_blocks k (c ∷ bs)
        (lower_insns (record k { next = some c.block }) b.block.insns (bind_label b.label_id e))

  -- The code of a function, before the labels are resolved.
  abbrev pub lower_all :
      Addresses
      → Option Program
      → AnaRegAlloc
      → Option (List BlockLabelEntry × AnaEncoder)
      → Option AnaEncoder
  lower_all addresses prog regalloc none = none
  lower_all addresses prog regalloc (some (labels, e)) =
      let k : Context = record {
        regalloc = regalloc;
        addresses = addresses;
        prog = prog;
        labels = labels;
        next = none;
      } in
      some (lower_blocks k labels (emit grants (prologue regalloc ++ save_params regalloc) e))

  unfoldable pub lower_function : Addresses → Option Program → Function → Option AnaEncoder
  unfolding label_blocks lower_blocks
  lower_function addresses prog fn =
      lower_all addresses prog (allocate_registers (some fn))
        (label_blocks fn.blocks 0 (new_encoder grants))

  -- A null function is `none`, and so is a null result.
  unfoldable pub compile_function :
      System → Addresses → Option Program → Option Function → Option JitCode
  unfolding lower_function install
  compile_function sys addresses prog none = none
  compile_function sys addresses prog (some fn) = finish_code sys (lower_function addresses prog fn)
