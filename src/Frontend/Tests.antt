-- ===== src/Frontend/Tests.antt =====
-- Runs of the passes of src/frontend/ana_parser.cpp on concrete input.
use anastasia.Base.{ℕ, ◌-◌, ◌%◌, ◌^◌, ◌<◌, ◌≡◌, refl, none, some, List, [], ◌∷◌, false, arith}
use anastasia.Base.Lists.{length}
use anastasia.Ast.{
  DataType, Opcode, Operand, absent, const_int, register, RegisterType, Instruction, BasicBlock,
  ClassDecl,
}
use anastasia.Frontend.Layout.{
  declare_field, declare_fields, open_class, resolve_class, layout_fields, Laid, resolve_class-Laid,
  resolve_class-declare_fields,
}
use anastasia.Frontend.Fold.{fold, optimize_instruction}
use anastasia.Frontend.Folded.{exec-optimize_instruction}
use anastasia.Optimizer.Semantics.{Machine, Flow, away, exec}

-- An i32, an i64 and a pointer.
abbrev declared : List (List ℕ × DataType)
declared = (0x61 ∷ [], DataType.i32) ∷ (0x62 ∷ [], DataType.i64) ∷ (0x63 ∷ [], DataType.ptr) ∷ []

abbrev point : ClassDecl
point = declare_fields declared (open_class (0x70 ∷ []))

point_small : length point.fields < 2 ^ 27
unfolding declare_fields declare_field
point_small = omega arith

resolve_class-Laid_example :
    Laid 8 (resolve_class point).fields (resolve_class point).size
    × ((resolve_class point).size % 8 ≡ 0)
resolve_class-Laid_example = resolve_class-Laid point point_small

point_size : (resolve_class point).size ≡ 32
unfolding declare_fields declare_field resolve_class layout_fields
point_size = refl

resolve_class-declare_fields_example : (resolve_class point).fields ≡ point.fields
resolve_class-declare_fields_example = resolve_class-declare_fields (0x70 ∷ []) declared

abbrev leave : Instruction → Machine ℕ → Flow ℕ
leave i m = away m

abbrev insn : Opcode → Operand → Operand → Instruction
insn op a b = record {
  op = op;
  dest = register (record { type = RegisterType.local; index = 0 });
  src1 = a;
  src2 = b;
  vtable_slot = 0;
  target_label = none;
  text = none;
  string_hash = 0;
  is_likely = false;
}

-- v0 = 1; return; v0 = 2
abbrev block : BasicBlock
block = record {
  label = [];
  insns =
      insn Opcode.move_const (const_int 1) absent
      ∷ insn Opcode.return_void absent absent
      ∷ insn Opcode.move_const (const_int 2) absent
      ∷ [];
}

abbrev zeros : Machine ℕ
zeros = record { regs = λ r. 0; world = 0 }

minus_seven_by_two : fold Opcode.div_i64 (2 ^ 64 - 7) 2 ≡ some (2 ^ 64 - 3)
unfolding fold
minus_seven_by_two = refl

exec-optimize_instruction_example :
    exec leave (optimize_instruction (insn Opcode.sub_i64 (const_int 3) (const_int 5))) zeros
    ≡ exec leave (insn Opcode.sub_i64 (const_int 3) (const_int 5)) zeros
exec-optimize_instruction_example =
    exec-optimize_instruction leave (insn Opcode.sub_i64 (const_int 3) (const_int 5)) zeros refl
