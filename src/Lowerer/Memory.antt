-- ===== src/Lowerer/Memory.antt =====
-- Moves, memory, atomics, strings and calls of src/backend/ana_lowerer.cpp.
use anastasia.Base.{ℕ, ◌*◌, ◌%◌, ◌^◌, Option, none, some, List, [], ◌∷◌, ◌++◌, ltb, if◌then◌else◌}
use anastasia.Base.Lists.{length}
use anastasia.Ast.{register, Instruction, ClassDecl, Program}
use anastasia.RegAlloc.{AnaRegAlloc}
use anastasia.Encoder.Prefix.{Code}
use anastasia.Encoder.Integer.{X86Reg, mov_reg_imm64, mov_reg_imm32, mov_reg_mem, mov_mem_reg}
use anastasia.Encoder.System.{
  call_reg, lock_cmpxchg_mem_reg, xchg_mem_reg, lock_add_mem_reg, lock_and_mem_reg, lock_or_mem_reg,
}
use anastasia.Lowerer.Operands.{
  rax, rcx, rdx, rsi, rdi, r11, reg_member, const_val, offset_member, is_register, load_operand,
  store_operand, dst_reg, move_if_other,
}
use anastasia.Lowerer.Names.{streq_impl}

-- Addresses known when the code is compiled: of the interned copy of a text, by the text and its
-- hash, of `ana_benchmark_consume`, of `ana_alloc_object` and of the vtable of a class.
pub record Addresses : Type 0 where
  pub interned : Option (List ℕ) → ℕ → ℕ
  pub benchmark_consume : ℕ
  pub alloc_object : ℕ
  pub vtable_array : ClassDecl → ℕ

abbrev text_length : Option (List ℕ) → ℕ
text_length none = 0
text_length (some t) = length t

-- The class that a NEW_INSTANCE names: the first with its name.
unfoldable pub find_class : List ClassDecl → Option (List ℕ) → Option ClassDecl
find_class [] name = none
find_class (c ∷ cs) name = if streq_impl (some c.name) name then some c else find_class cs name

abbrev classes_of : Option Program → List ClassDecl
classes_of none = []
classes_of (some p) = p.classes

abbrev instance_size : Option ClassDecl → ℕ
instance_size none = 16
instance_size (some c) = if ltb 0 c.size then c.size else 16

abbrev vtable_of : Addresses → Option ClassDecl → ℕ
vtable_of at none = 0
vtable_of at (some c) = at.vtable_array c

module _ (regalloc : AnaRegAlloc) (i : Instruction) where
  abbrev dest_reg : X86Reg → X86Reg
  dest_reg scratch = dst_reg regalloc (reg_member i.dest) scratch

  abbrev store_dest : X86Reg → Code
  store_dest src = store_operand regalloc (reg_member i.dest) src

  unfoldable pub lower_const_string : Addresses → Code
  lower_const_string at =
      mov_reg_imm64 (dest_reg rcx) (at.interned i.text i.string_hash) ++ store_dest (dest_reg rcx)

  unfoldable pub lower_str_len : Code
  lower_str_len = mov_reg_imm64 (dest_reg rcx) (text_length i.text) ++ store_dest (dest_reg rcx)

  unfoldable pub lower_move_const : Code
  lower_move_const = mov_reg_imm64 (dest_reg rcx) (const_val i.src1) ++ store_dest (dest_reg rcx)

  unfoldable pub lower_move : Code
  lower_move = let (load1, s1) = load_operand regalloc i.src1 rax in load1 ++ store_dest s1

  unfoldable pub lower_load_mem : Code
  lower_load_mem =
      let (load, base) = load_operand regalloc (register (reg_member i.src1)) rax in
      load ++ (mov_reg_mem (dest_reg rax) base (offset_member i.src1) ++ store_dest (dest_reg rax))

  unfoldable pub lower_store_mem : Code
  lower_store_mem =
      let (load, base) = load_operand regalloc (register (reg_member i.dest)) rax in
      let (load1, src) = load_operand regalloc i.src1 r11 in
      load ++ (load1 ++ mov_mem_reg base (offset_member i.dest) src)

  unfoldable pub lower_bind_vtable : Code
  lower_bind_vtable =
      let (load, obj) = load_operand regalloc i.src1 rax in
      load ++ (mov_reg_imm64 r11 (const_val i.src2) ++ mov_mem_reg obj 0 r11)

  unfoldable pub lower_sink_mem : Addresses → Code
  lower_sink_mem at =
      let (load, val_reg) = load_operand regalloc i.src1 rdi in
      load
      ++ (move_if_other rdi val_reg ++ (mov_reg_imm64 rax at.benchmark_consume ++ call_reg rax))

  unfoldable pub lower_call_virt : Code
  lower_call_virt =
      let (load, obj) = load_operand regalloc i.src1 rdi in
      load
      ++ (move_if_other rdi obj
          ++ (mov_reg_mem r11 rdi 0
              ++ (mov_reg_mem r11 r11 (i.vtable_slot * 8 % 2 ^ 32)
                  ++ (call_reg r11 ++ (if is_register i.dest then store_dest rax else [])))))

  unfoldable pub lower_new_instance : Addresses → Option Program → Code
  unfolding find_class
  lower_new_instance at prog =
      let found = find_class (classes_of prog) i.target_label in
      mov_reg_imm32 rdi (instance_size found)
      ++ (mov_reg_imm64 rsi (vtable_of at found)
          ++ (mov_reg_imm32 rdx 1
              ++ (mov_reg_imm64 rax at.alloc_object ++ (call_reg rax ++ store_dest rax))))

  unfoldable pub lower_atomic_cas : Code
  lower_atomic_cas =
      let (load, base) = load_operand regalloc (register (reg_member i.src1)) rdi in
      let (load2, desired) = load_operand regalloc i.src2 rsi in
      let (load_expected, expected) = load_operand regalloc i.dest rax in
      load
      ++ (load2
          ++ (move_if_other rsi desired
              ++ ((if is_register i.dest then load_expected ++ move_if_other rax expected else [])
                  ++ (lock_cmpxchg_mem_reg base (offset_member i.src1) rsi
                      ++ (if is_register i.dest then store_dest rax else [])))))

  -- The shape of the other atomic operations.
  unfoldable pub atomic : (X86Reg → ℕ → X86Reg → Code) → Code
  atomic op =
      let (load, base) = load_operand regalloc (register (reg_member i.dest)) rdi in
      let (load1, src) = load_operand regalloc i.src1 rax in
      load ++ (load1 ++ op base (offset_member i.dest) src)

  unfoldable pub lower_atomic_xchg : Code
  unfolding atomic
  lower_atomic_xchg = atomic xchg_mem_reg

  unfoldable pub lower_atomic_add : Code
  unfolding atomic
  lower_atomic_add = atomic lock_add_mem_reg

  unfoldable pub lower_atomic_and : Code
  unfolding atomic
  lower_atomic_and = atomic lock_and_mem_reg

  unfoldable pub lower_atomic_or : Code
  unfolding atomic
  lower_atomic_or = atomic lock_or_mem_reg
