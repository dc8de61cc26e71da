-- ===== src/Ast.antt =====
-- The program tree of src/frontend/ana_ast.h. Linked lists are lists; labels and names are byte
-- lists; an `int64_t`, `int32_t` or `uint32_t` is its bit pattern.
use anastasia.Base.{ℕ, Bool, true, false, ◌&&◌, Option, List, ◌==◌}

pub data DataType : Type 0 where
  void i32 i64 ptr f32 : DataType

pub data Opcode : Type 0 where
  add_i32 sub_i32 mul_i32 div_i32 neg_i32 add_i64 sub_i64 mul_i64 div_i64 neg_i64 : Opcode
  move move_const sys_call load_mem store_mem bind_vtable call_virt call_virt_fast : Opcode
  return_void return_val goto if_eq if_ne if_lt if_ge if_z if_nz : Opcode
  and_i32 and_i64 or_i32 or_i64 xor_i32 xor_i64 shl_i32 shl_i64 shr_i32 shr_i64 : Opcode
  ushr_i32 ushr_i64 bts_i64 btr_i64 popcount_i64 lzcnt_i64 : Opcode
  atomic_cas_i64 atomic_xchg_i64 atomic_add_i64 atomic_and_i64 atomic_or_i64 fence : Opcode
  new_instance add_float_32 add_float_64 sub_float_64 mul_float_64 div_float_64 : Opcode
  add_vector_i32x4 sub_vector_i32x4 add_vector_i32x8 add_vector_i32x16 mul_vector_i32x8 : Opcode
  load_vector_256 load_vector_512 sink_mem const_string str_len call_extern load_fn_ptr : Opcode

pub data RegisterType : Type 0 where
  untyped param local : RegisterType

pub record Register : Type 0 where
  pub type : RegisterType
  pub index : ℕ

abbrev pub same_type : RegisterType → RegisterType → Bool
same_type untyped untyped = true
same_type param param = true
same_type local local = true
same_type _ _ = false

-- `Register::operator==`
abbrev pub same_register : Register → Register → Bool
same_register a b = same_type a.type b.type && a.index == b.index

-- `Operand`: the kind and the member of the union that it selects.
pub data Operand : Type 0 where
  absent : Operand
  register : Register → Operand
  const_int : ℕ → Operand
  mem_offset : Register → ℕ → Operand

-- `text` is `string_val` with its `string_len` bytes, `none` for a null pointer.
pub record Instruction : Type 0 where
  pub op : Opcode
  pub dest : Operand
  pub src1 : Operand
  pub src2 : Operand
  pub vtable_slot : ℕ
  pub target_label : Option (List ℕ)
  pub text : Option (List ℕ)
  pub string_hash : ℕ
  pub is_likely : Bool

-- `last_insn` is left out: no code reads it.
pub record BasicBlock : Type 0 where
  pub label : List ℕ
  pub insns : List Instruction

pub record ClassField : Type 0 where
  pub name : List ℕ
  pub type : DataType
  pub offset : ℕ

pub record ClassDecl : Type 0 where
  pub name : List ℕ
  pub fields : List ClassField
  pub size : ℕ

-- `params` gives the types of the declared parameters.
pub record Function : Type 0 where
  pub name : List ℕ
  pub params : List DataType
  pub local_count : ℕ
  pub blocks : List BasicBlock

pub record Program : Type 0 where
  pub classes : List ClassDecl
  pub functions : List Function
