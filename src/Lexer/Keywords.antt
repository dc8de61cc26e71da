-- ===== src/Lexer/Keywords.antt =====
-- The keyword tables of src/frontend/ana_lexer.cpp. A word is known by its 64-bit FNV-1a hash alone.
use Prim.Native.Char.{code}
use Prim.Native.String.{String}
use anastasia.Base.Words.{bitwise, differ}
use anastasia.Base.{
  ℕ, ◌+◌, ◌-◌, ◌*◌, ◌%◌, ◌^◌, Option, none, some, List, [], ◌∷◌, ltb, ◌==◌, if◌then◌else◌,
}
use anastasia.Ast.{DataType, Opcode}

-- The bytes of a keyword.
abbrev pub codes : String → List ℕ
codes String.[] = []
codes (String.◌∷◌ c s) = code c ∷ codes s

-- `static_cast<uint64_t>` of a `char`, which is signed.
abbrev extended : ℕ → ℕ
extended c = if ltb c 128 then c else c + (2 ^ 64 - 256)

unfoldable pub hash_from : ℕ → List ℕ → ℕ
unfolding bitwise
hash_from hash [] = hash
hash_from hash (c ∷ cs) =
    hash_from (bitwise differ 64 hash (extended c) * 1099511628211 % 2 ^ 64) cs

unfoldable pub fnv1a_hash : List ℕ → ℕ
unfolding hash_from
fnv1a_hash bs = hash_from 14695981039346656037 bs

-- A switch on a hash: the entry of the first word with it.
unfoldable pub find_word {ℓ} : {A : Type ℓ} → List (List ℕ × A) → ℕ → Option A
unfolding fnv1a_hash
find_word [] hash = none
find_word ((w, a) ∷ ws) hash =
    let later = find_word ws hash in if fnv1a_hash w == hash then some a else later

pub data TokenType : Type 0 where
  token_eof token_fn token_end_fn token_class token_end_class token_field : TokenType
  token_registers token_import_sys token_opcode token_identifier token_label : TokenType
  token_register token_int_literal token_lbracket token_rbracket token_lparen : TokenType
  token_rparen token_colon token_comma token_plus token_minus token_arrow token_type : TokenType
  token_likely token_unlikely token_string_literal token_error : TokenType

abbrev pub directives : List (List ℕ × TokenType)
directives =
    (codes "fn", token_fn)
    ∷ (codes "end_fn", token_end_fn)
    ∷ (codes "class", token_class)
    ∷ (codes "end_class", token_end_class)
    ∷ (codes "field", token_field)
    ∷ (codes "registers", token_registers)
    ∷ (codes "import-sys", token_import_sys)
    ∷ []

-- The native types and the hints, with the `data_type` that is set.
abbrev pub types_and_hints : List (List ℕ × (TokenType × DataType))
types_and_hints =
    (codes "i32", (token_type, DataType.i32))
    ∷ (codes "i64", (token_type, DataType.i64))
    ∷ (codes "ptr", (token_type, DataType.ptr))
    ∷ (codes "f32", (token_type, DataType.f32))
    ∷ (codes "void", (token_type, DataType.void))
    ∷ (codes "likely", (token_likely, DataType.void))
    ∷ (codes "unlikely", (token_unlikely, DataType.void))
    ∷ []

abbrev pub opcodes : List (List ℕ × Opcode)
opcodes =
    (codes "add-int/32", Opcode.add_i32)
    ∷ (codes "sub-int/32", Opcode.sub_i32)
    ∷ (codes "neg-int/32", Opcode.neg_i32)
    ∷ (codes "mul-int/32", Opcode.mul_i32)
    ∷ (codes "div-int/32", Opcode.div_i32)
    ∷ (codes "add-int/64", Opcode.add_i64)
    ∷ (codes "sub-int/64", Opcode.sub_i64)
    ∷ (codes "neg-int/64", Opcode.neg_i64)
    ∷ (codes "mul-int/64", Opcode.mul_i64)
    ∷ (codes "div-int/64", Opcode.div_i64)
    ∷ (codes "and-int/32", Opcode.and_i32)
    ∷ (codes "and-int/64", Opcode.and_i64)
    ∷ (codes "or-int/32", Opcode.or_i32)
    ∷ (codes "or-int/64", Opcode.or_i64)
    ∷ (codes "xor-int/32", Opcode.xor_i32)
    ∷ (codes "xor-int/64", Opcode.xor_i64)
    ∷ (codes "shl-int/32", Opcode.shl_i32)
    ∷ (codes "shl-int/64", Opcode.shl_i64)
    ∷ (codes "shr-int/32", Opcode.shr_i32)
    ∷ (codes "shr-int/64", Opcode.shr_i64)
    ∷ (codes "ushr-int/32", Opcode.ushr_i32)
    ∷ (codes "ushr-int/64", Opcode.ushr_i64)
    ∷ (codes "bts-int/64", Opcode.bts_i64)
    ∷ (codes "btr-int/64", Opcode.btr_i64)
    ∷ (codes "popcount-int/64", Opcode.popcount_i64)
    ∷ (codes "lzcnt-int/64", Opcode.lzcnt_i64)
    ∷ (codes "move", Opcode.move)
    ∷ (codes "move-const", Opcode.move_const)
    ∷ (codes "move_const", Opcode.move_const)
    ∷ (codes "sys-call", Opcode.sys_call)
    ∷ (codes "sys_call", Opcode.sys_call)
    ∷ (codes "load-mem", Opcode.load_mem)
    ∷ (codes "load_mem", Opcode.load_mem)
    ∷ (codes "store-mem", Opcode.store_mem)
    ∷ (codes "store_mem", Opcode.store_mem)
    ∷ (codes "bind-vtable", Opcode.bind_vtable)
    ∷ (codes "bind_vtable", Opcode.bind_vtable)
    ∷ (codes "call-virt", Opcode.call_virt)
    ∷ (codes "call_virt", Opcode.call_virt)
    ∷ (codes "call-virt-fast", Opcode.call_virt_fast)
    ∷ (codes "call_virt_fast", Opcode.call_virt_fast)
    ∷ (codes "return-void", Opcode.return_void)
    ∷ (codes "return_void", Opcode.return_void)
    ∷ (codes "return-val", Opcode.return_val)
    ∷ (codes "return_val", Opcode.return_val)
    ∷ (codes "goto", Opcode.goto)
    ∷ (codes "if-eq", Opcode.if_eq)
    ∷ (codes "if-ne", Opcode.if_ne)
    ∷ (codes "if-lt", Opcode.if_lt)
    ∷ (codes "if-ge", Opcode.if_ge)
    ∷ (codes "if-z", Opcode.if_z)
    ∷ (codes "if-nz", Opcode.if_nz)
    ∷ (codes "atomic-cas/64", Opcode.atomic_cas_i64)
    ∷ (codes "atomic-xchg/64", Opcode.atomic_xchg_i64)
    ∷ (codes "atomic-add/64", Opcode.atomic_add_i64)
    ∷ (codes "atomic-and/64", Opcode.atomic_and_i64)
    ∷ (codes "atomic-or/64", Opcode.atomic_or_i64)
    ∷ (codes "fence", Opcode.fence)
    ∷ (codes "new-instance", Opcode.new_instance)
    ∷ (codes "add-float/32", Opcode.add_float_32)
    ∷ (codes "add-float/64", Opcode.add_float_64)
    ∷ (codes "sub-float/64", Opcode.sub_float_64)
    ∷ (codes "mul-float/64", Opcode.mul_float_64)
    ∷ (codes "div-float/64", Opcode.div_float_64)
    ∷ (codes "add-vector/i32x4", Opcode.add_vector_i32x4)
    ∷ (codes "sub-vector/i32x4", Opcode.sub_vector_i32x4)
    ∷ (codes "add-vector/i32x8", Opcode.add_vector_i32x8)
    ∷ (codes "add-vector/i32x16", Opcode.add_vector_i32x16)
    ∷ (codes "mul-vector/i32x8", Opcode.mul_vector_i32x8)
    ∷ (codes "load-vector/256", Opcode.load_vector_256)
    ∷ (codes "load-vector/512", Opcode.load_vector_512)
    ∷ (codes "sink-mem", Opcode.sink_mem)
    ∷ (codes "const-string", Opcode.const_string)
    ∷ (codes "str-len", Opcode.str_len)
    ∷ []
