-- ===== src/Optimizer/Lengths.antt =====
-- `run_length_folding` of src/optimizer/ana_ssa.cpp.
use anastasia.Base.{
  ℕ, Bool, true, false, ◌||◌, Option, none, some, List, [], ◌∷◌, ◌++◌, ltb, if◌then◌else◌,
}
use anastasia.Base.Lists.{length}
use anastasia.Ast.{Opcode, Register, same_register, Operand, register, const_int, Instruction}
use anastasia.Optimizer.Pass.{bump, Pass, Visit, AnaSsaIr}

abbrev pub to_move_const : ℕ → Instruction → Instruction
to_move_const v i = record i { op = Opcode.move_const; src1 = const_int v }

-- The first entry of `known_strings` for the register.
abbrev pub find_length : Operand → List (Register × ℕ) → Option ℕ
find_length (register r) [] = none
find_length (register r) ((k, len) ∷ known) =
    if same_register k r then some len else find_length (register r) known
find_length _ known = none

abbrev pub text_length : Option (List ℕ) → ℕ
text_length none = 0
text_length (some t) = length t

abbrev pub known_after : Instruction → List (Register × ℕ) → List (Register × ℕ)
known_after i known = elim i.dest [
  | register r ↦ if ltb (length known) 64 then known ++ (r, text_length i.text) ∷ [] else known
  | _ ↦ known
]

abbrev pub length_of : Instruction → List (Register × ℕ) → Option ℕ
length_of i known = elim i.text [ some t ↦ some (length t) | none ↦ find_length i.src1 known ]

abbrev pub fold_length : Option ℕ → Visit
fold_length none c i = (false, c, i)
fold_length (some len) c i =
    (true, record c { folded_string_lengths = bump c.folded_string_lengths }, to_move_const len i)

-- One instruction of `run_length_folding`, with the table of known strings.
abbrev pub length_op :
    Opcode
    → List (Register × ℕ)
    → AnaSsaIr
    → Instruction
    → List (Register × ℕ) × (Bool × AnaSsaIr × Instruction)
length_op Opcode.const_string known c i = (known_after i known, (false, c, i))
length_op Opcode.str_len known c i = (known, fold_length (length_of i known) c i)
length_op _ known c i = (known, (false, c, i))

unfoldable pub length_insns :
    List (Register × ℕ)
    → AnaSsaIr
    → List Instruction
    → List (Register × ℕ) × (Bool × AnaSsaIr × List Instruction)
length_insns known c [] = (known, (false, c, []))
length_insns known c (i ∷ is) =
    let (known1, here) = length_op i.op known c i in
    let (known2, rest) = length_insns known1 here.1 is in
    (known2, (here.0 || rest.0, rest.1, here.2 ∷ rest.2))

unfoldable pub length_blocks : List (Register × ℕ) → Pass
unfolding length_insns
length_blocks known c [] = (false, c, [])
length_blocks known c (b ∷ bs) =
    let (known1, here) = length_insns known c b.insns in
    let rest = length_blocks known1 here.1 bs in
    (here.0 || rest.0, rest.1, record b { insns = here.2 } ∷ rest.2)

unfoldable pub run_length_folding : Pass
unfolding length_blocks
run_length_folding = length_blocks []
