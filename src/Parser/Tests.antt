-- ===== src/Parser/Tests.antt =====
-- Runs of the model of src/frontend/ana_parser.cpp, and its theorems at concrete texts.
use Prim.Native.String.{String}
use anastasia.Base.{
  ℕ, ◌+◌, ◌^◌, ◌≡◌, refl, true, false, Option, none, some, List, [], ◌∷◌, ◌++◌, arith, leb,
}
use anastasia.Ast.{
  DataType, Opcode, Register, RegisterType, absent, register, const_int, Instruction, Program,
}
use anastasia.Encoder.Buffer.{Kernel}
use anastasia.Frontend.Layout.{resolve_class_layouts}
use anastasia.Lexer.Scan.{span, decimal_from}
use anastasia.Lexer.Keywords.{codes, find_word}
use anastasia.Lexer.Tokens.{next_token}
use anastasia.Parser.State.{Parser, new_parser, advance, expect, fail}
use anastasia.Parser.Blocks.{Outcome}
use anastasia.Parser.Declarations.{parse_program}
use anastasia.Parser.Progress.{measure}
use anastasia.Parser.Loops.{Comes}
use anastasia.Parser.Instructions.{parse_instruction}
use anastasia.Parser.Printed.{ReadBack, operand_text, standing, parse_instruction-ReadBack}
use anastasia.Lexer.Numbers.{digits_from}
use anastasia.Parser.Programs.{parse_program-Comes, Refused, parse_program-Refused}

-- A kernel that maps at most 1 MiB at once.
abbrev kernel : Kernel
kernel n size = leb size (2 ^ 20)

abbrev parser_of : String → Parser
parser_of s = new_parser kernel (codes s)

abbrev program_of : Outcome (Option Program) → Option Program
program_of (some (some prog, p)) = some prog
program_of _ = none

abbrev message_of : Outcome (Option Program) → String
message_of (some (prog, p)) = p.error_msg
message_of none = ""

-- A function of one parameter.
abbrev spaced : Parser
spaced = parser_of ".fn inc(p0 : i64) -> i64\n add-int/64 v0, p0, 1\n return-val v0\n.end_fn"

abbrev insn : Opcode → Instruction
insn op = record {
  op = op;
  dest = absent;
  src1 = absent;
  src2 = absent;
  vtable_slot = 0;
  target_label = none;
  text = none;
  string_hash = 0;
  is_likely = false;
}

spaced_program :
    program_of (parse_program 90 spaced)
    ≡ some (record {
      classes = [];
      functions =
          record {
            name = codes "inc";
            params = DataType.i64 ∷ [];
            local_count = 0;
            blocks =
                record {
                  label = codes "entry";
                  insns =
                      record (insn Opcode.add_i64) {
                        dest = register (record { type = RegisterType.local; index = 0 });
                        src1 = register (record { type = RegisterType.param; index = 0 });
                        src2 = const_int 1;
                      }
                      ∷ record (insn Opcode.return_val) {
                        src1 = register (record { type = RegisterType.local; index = 0 });
                      }
                      ∷ [];
                }
                ∷ [];
          }
          ∷ [];
    })
unfolding parse_program new_parser next_token find_word span advance anastasia.Lexer.Scan.advance
    expect resolve_class_layouts decimal_from
spaced_program = refl

-- With the colon behind the name, the name is a label and the parameter is not declared.
abbrev params_of : Option Program → List (List DataType)
params_of none = []
params_of (some prog) = elim prog.functions [ [] ↦ [] | ◌∷◌ f fs ↦ f.params ∷ [] ]

close_colon :
    params_of
      (program_of (parse_program 90 (parser_of ".fn inc(p0: i64)\n return-val p0\n.end_fn")))
    ≡ [] ∷ []
unfolding parse_program new_parser next_token find_word span advance anastasia.Lexer.Scan.advance
    expect resolve_class_layouts
close_colon = refl

-- A character that is no token.
abbrev broken : Parser
broken = parser_of "@ .class"

broken_message : message_of (parse_program 20 broken) ≡ "Invalid character in source"
unfolding parse_program new_parser next_token advance anastasia.Lexer.Scan.advance find_word span
    expect fail
broken_message = refl

parse_program-Comes_example : Comes 0 spaced (parse_program (measure spaced + 1) spaced)
parse_program-Comes_example = parse_program-Comes spaced

broken_had_error : broken.had_error ≡ true
unfolding new_parser next_token
broken_had_error = refl

parse_program-Refused_example : Refused broken (parse_program (measure broken + 1) broken)
parse_program-Refused_example = parse_program-Refused broken broken_had_error

abbrev line_end : List ℕ
line_end = codes "\n return-val v0"

abbrev v0 : Register
v0 = record { type = RegisterType.local; index = 0 }

abbrev p1 : Register
p1 = record { type = RegisterType.param; index = 1 }

abbrev v12 : Register
v12 = record { type = RegisterType.local; index = 12 }

parse_instruction-ReadBack_example : ReadBack spaced 7 v0 p1 v12 line_end Opcode.sub_i64 (
    parse_instruction (
      advance (
        standing spaced spaced.current_tok
          (codes "sub-int/64" ++ operand_text spaced 7 v0 p1 v12 line_end)
          40
          7)))
parse_instruction-ReadBack_example =
    parse_instruction-ReadBack spaced 7 v0 p1 v12 line_end 6 (codes "sub-int/64") Opcode.sub_i64
      spaced.current_tok 40 refl refl (record { named = refl; small = ground arith })
      (record { named = refl; small = ground arith })
      (record { named = refl; small = ground arith })
      (record { no_word = refl; no_colon = ground arith })

-- The text of these operands.
operands_as_written :
    operand_text spaced 7 v0 p1 v12 line_end ≡ codes " v0, p1, v12\n return-val v0"
unfolding digits_from
operands_as_written = refl
