-- ===== src/Lowerer/Cpu.antt =====
-- An x86-64 processor for the code that src/backend/ana_lowerer.cpp writes, after the processor
-- manual: sixteen registers of 64 bits, a memory of bytes, and the decoded instructions that move,
-- add, subtract, multiply, combine bits and use the stack. An instruction outside these stops it.
use anastasia.Base.{
  ℕ, zero, suc, ◌+◌, ◌-◌, ◌*◌, ◌/◌, ◌%◌, ◌^◌, not, ◌&&◌, Option, none, some, List, [], ◌∷◌, ltb,
  ◌==◌, if◌then◌else◌,
}
use anastasia.Base.Words.{from_le, sign_extend32, bitwise, both, either, differ}
use anastasia.Encoder.Decode.{Rm, direct, indirect, rip_relative}
use anastasia.Encoder.Disassemble.{Mnemonic, Source, operand, immediate, Insn, decode}

pub record Cpu : Type 0 where
  pub gpr : ℕ → ℕ
  pub memory : ℕ → ℕ

abbrev pub set_reg : ℕ → ℕ → Cpu → Cpu
set_reg r v c = record c { gpr = λ s. if s == r then v else c.gpr s }

-- The `n` bytes from an address on; addresses wrap around.
abbrev pub load_bytes : (ℕ → ℕ) → ℕ → ℕ → List ℕ
load_bytes memory zero a = []
load_bytes memory (suc n) a = memory (a % 2 ^ 64) ∷ load_bytes memory n (a + 1)

abbrev pub load64 : (ℕ → ℕ) → ℕ → ℕ
load64 memory a = from_le (load_bytes memory 8 a)

-- The byte of the word `v` at distance `k` from its lowest.
abbrev pub byte_of : ℕ → ℕ → ℕ
byte_of v k = v / 256 ^ k % 256

abbrev pub store64 : ℕ → ℕ → (ℕ → ℕ) → ℕ → ℕ
store64 a v memory x =
    let k = (x + 2 ^ 64 - a) % 2 ^ 64 in if ltb k 8 then byte_of v k else memory x

abbrev pub address : ℕ → ℕ → Cpu → ℕ
address base disp c = (c.gpr base + sign_extend32 disp) % 2 ^ 64

abbrev read_operand : Rm → Cpu → Option ℕ
read_operand (direct r) c = some (c.gpr r)
read_operand (indirect base disp) c = some (load64 c.memory (address base disp c))
read_operand (rip_relative disp) c = none

abbrev write_operand : Rm → ℕ → Cpu → Option Cpu
write_operand (direct r) v c = some (set_reg r v c)
write_operand (indirect base disp) v c =
    some (record c { memory = store64 (address base disp c) v c.memory })
write_operand (rip_relative disp) v c = none

abbrev read_source : Mnemonic → Source → Cpu → Option ℕ
read_source Mnemonic.mov (immediate v) c = some v
read_source _ (immediate v) c = some (sign_extend32 v)
read_source _ (operand rm) c = read_operand rm c
read_source _ _ c = none

-- What is written for the old target and the source.
unfoldable pub alu : Mnemonic → ℕ → ℕ → Option ℕ
unfolding bitwise
alu Mnemonic.mov a b = some b
alu Mnemonic.add a b = some ((a + b) % 2 ^ 64)
alu Mnemonic.sub a b = some ((a + (2 ^ 64 - b)) % 2 ^ 64)
alu Mnemonic.imul a b = some (a * b % 2 ^ 64)
alu Mnemonic.and a b = some (bitwise both 64 a b)
alu Mnemonic.or a b = some (bitwise either 64 a b)
alu Mnemonic.xor a b = some (bitwise differ 64 a b)
alu Mnemonic.movsxd a b = some (sign_extend32 (b % 2 ^ 32))
alu _ a b = none

abbrev pub with_value {ℓ} : {A : Type ℓ} → Option ℕ → (ℕ → Option A) → Option A
with_value none f = none
with_value (some v) f = f v

abbrev two_operand : Insn → Cpu → Option Cpu
two_operand i c = with_value (read_operand i.target c) λ a.
    with_value (read_source i.op i.source c)
      λ b. with_value (alu i.op a b) λ v. write_operand i.target v c

abbrev pub push_word : ℕ → Cpu → Cpu
push_word v c =
    let sp = (c.gpr 4 + (2 ^ 64 - 8)) % 2 ^ 64 in
    set_reg 4 sp (record c { memory = store64 sp v c.memory })

-- The stack pointer moves first, so that `pop rsp` gets the word.
abbrev pub pop_word : ℕ → Cpu → Cpu
pop_word r c = set_reg r (load64 c.memory (c.gpr 4)) (set_reg 4 ((c.gpr 4 + 8) % 2 ^ 64) c)

-- Only whole words are computed with; a LOCK prefix is left out.
abbrev pub execute_op : Mnemonic → Insn → Cpu → Option Cpu
execute_op Mnemonic.push i c = with_value (read_operand i.target c) λ v. some (push_word v c)
execute_op Mnemonic.pop i c = elim i.target [ direct r ↦ some (pop_word r c) | _ ↦ none ]
execute_op _ i c = if i.wide && not i.locked then two_operand i c else none

unfoldable pub execute : Insn → Cpu → Option Cpu
unfolding alu
execute i c = execute_op i.op i c

abbrev State : Type 0
State = List ℕ × Cpu

abbrev pub go_on : Option State → (State → Option State) → Option State
go_on none f = none
go_on (some s) f = f s

abbrev behind : List ℕ → Option Cpu → Option State
behind bs none = none
behind bs (some c) = some (bs, c)

abbrev executed : Option (Insn × List ℕ) → Cpu → Option State
executed none c = none
executed (some (i, bs)) c = behind bs (execute i c)

-- One instruction of the code: the code behind it and the processor.
unfoldable pub step : State → Option State
unfolding execute
step (bs, c) = executed (decode bs) c

-- `n` instructions.
unfoldable pub run : ℕ → State → Option State
run zero s = some s
run (suc n) s = go_on (step s) (run n)
