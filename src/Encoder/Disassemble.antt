-- ===== src/Encoder/Disassemble.antt =====
-- The opcode tables of x86-64 for the integer, atomic and SSE instructions, written from the
-- processor manual and not from the encoder, and the decoding of a whole instruction.
use anastasia.Base.{
  ℕ, ◌/◌, ◌%◌, Bool, true, false, Option, none, some, List, [], ◌∷◌, ◌==◌, if◌then◌else◌,
}
use anastasia.Base.Words.{from_le, sign_extend32}
use anastasia.Encoder.Decode.{
  Rex, Rm, direct, Legacy, no_prefix, lock_f0, repne_f2, rep_f3, opsize_66, split_prefix, split_rex,
  decode_modrm, disp8, disp32, extend,
}

pub data Mnemonic : Type 0 where
  mov add sub imul and or xor shl sar shr bts btr popcnt lzcnt cmp test : Mnemonic
  call idiv cmpxchg xchg push pop clflush prefetcht0 lea movsxd : Mnemonic
  addss addsd subsd mulsd divsd maxsd paddd psubd movss movsd movdqu movntdq : Mnemonic

pub data Source : Type 0 where
  operand : Rm → Source
  immediate : ℕ → Source
  times : Rm → ℕ → Source
  register_cl : Source
  implied : Source

-- An immediate of `mov` is the 64-bit value written; another one is the `int32_t` that is extended.
-- `wide` is REX.W; `target` is written, or compared, with `source`.
pub record Insn : Type 0 where
  pub locked : Bool
  pub wide : Bool
  pub op : Mnemonic
  pub target : Rm
  pub source : Source

-- How the operands of an opcode are laid out.
pub data Form : Type 0 where
  rm_reg reg_rm rm_alone : Mnemonic → Form
  group_imm8 group_imm32 : Form
  mov_imm32 : Form
  imul_imm8 imul_imm32 : Form
  shift_cl shift_one shift_imm8 : Form
  bit_imm8 : Form
  digit_only : ℕ → Mnemonic → Form
  unknown : Form

abbrev one_byte : ℕ → Form
one_byte o =
    if o == 0x01
    then rm_reg add
    else if o == 0x09
    then rm_reg or
    else if o == 0x21
    then rm_reg and
    else if o == 0x29
    then rm_reg sub
    else if o == 0x31
    then rm_reg xor
    else if o == 0x39
    then rm_reg cmp
    else if o == 0x63
    then reg_rm movsxd
    else if o == 0x69
    then imul_imm32
    else if o == 0x6B
    then imul_imm8
    else if o == 0x81
    then group_imm32
    else if o == 0x83
    then group_imm8
    else if o == 0x85
    then rm_reg test
    else if o == 0x87
    then rm_reg xchg
    else if o == 0x89
    then rm_reg mov
    else if o == 0x8B
    then reg_rm mov
    else if o == 0x8D
    then reg_rm lea
    else if o == 0xC1
    then shift_imm8
    else if o == 0xC7
    then mov_imm32
    else if o == 0xD1
    then shift_one
    else if o == 0xD3
    then shift_cl
    else if o == 0xF7
    then digit_only 7 idiv
    else if o == 0xFF
    then digit_only 2 call
    else unknown

abbrev two_byte : Legacy → ℕ → Form
two_byte no_prefix o =
    if o == 0xAF
    then reg_rm imul
    else if o == 0xAB
    then rm_reg bts
    else if o == 0xB3
    then rm_reg btr
    else if o == 0xBA
    then bit_imm8
    else if o == 0xB1
    then rm_reg cmpxchg
    else if o == 0xAE
    then digit_only 7 clflush
    else if o == 0x18
    then digit_only 1 prefetcht0
    else unknown
two_byte lock_f0 o = if o == 0xB1 then rm_reg cmpxchg else unknown
two_byte rep_f3 o =
    if o == 0xB8
    then reg_rm popcnt
    else if o == 0xBD
    then reg_rm lzcnt
    else if o == 0x58
    then reg_rm addss
    else if o == 0x10
    then reg_rm movss
    else if o == 0x11
    then rm_reg movss
    else if o == 0x6F
    then reg_rm movdqu
    else if o == 0x7F
    then rm_reg movdqu
    else unknown
two_byte repne_f2 o =
    if o == 0x58
    then reg_rm addsd
    else if o == 0x59
    then reg_rm mulsd
    else if o == 0x5C
    then reg_rm subsd
    else if o == 0x5E
    then reg_rm divsd
    else if o == 0x5F
    then reg_rm maxsd
    else if o == 0x10
    then reg_rm movsd
    else if o == 0x11
    then rm_reg movsd
    else unknown
two_byte opsize_66 o =
    if o == 0xFE
    then reg_rm paddd
    else if o == 0xFA
    then reg_rm psubd
    else if o == 0xE7
    then rm_reg movntdq
    else unknown

-- The instruction that the ModRM `/digit` selects in the opcodes 81 and 83, in the shifts, and in
-- 0F BA.
abbrev pub arithmetic_group : ℕ → Option Mnemonic
arithmetic_group d =
    if d == 0
    then some add
    else if d == 1
    then some or
    else if d == 4
    then some and
    else if d == 5
    then some sub
    else if d == 6
    then some xor
    else if d == 7
    then some cmp
    else none

abbrev pub shift_group : ℕ → Option Mnemonic
shift_group d =
    if d == 4 then some shl else if d == 5 then some shr else if d == 7 then some sar else none

abbrev pub bit_group : ℕ → Option Mnemonic
bit_group d = if d == 5 then some bts else if d == 6 then some btr else none

abbrev pub Decoded : Type 0
Decoded = Option (Insn × List ℕ)

module _ (locked wide : Bool) where
  abbrev pub insn : Mnemonic → Rm → Source → Insn
  insn m t s = record { locked = locked; wide = wide; op = m; target = t; source = s }

  abbrev pub grouped : Option Mnemonic → Rm → Source → List ℕ → Decoded
  grouped none t s bs = none
  grouped (some m) t s bs = some (insn m t s, bs)

  abbrev pub with_imm : Option Mnemonic → Rm → (ℕ → Source) → Option (ℕ × List ℕ) → Decoded
  with_imm m t f none = none
  with_imm m t f (some (i, bs)) = grouped m t (f i) bs

  -- `reg` and `rm` are the ModRM operands.
  abbrev pub finish : Form → Option (ℕ × Rm × List ℕ) → Decoded
  finish f none = none
  finish (rm_reg m) (some (reg, rm, bs)) = some (insn m rm (operand (direct reg)), bs)
  finish (reg_rm m) (some (reg, rm, bs)) = some (insn m (direct reg) (operand rm), bs)
  finish (rm_alone m) (some (reg, rm, bs)) = some (insn m rm implied, bs)
  finish group_imm8 (some (reg, rm, bs)) =
      with_imm (arithmetic_group (reg % 8)) rm immediate (disp8 bs)
  finish group_imm32 (some (reg, rm, bs)) =
      with_imm (arithmetic_group (reg % 8)) rm immediate (disp32 bs)
  finish mov_imm32 (some (reg, rm, bs)) =
      if reg % 8 == 0
      then with_imm (some mov) rm (λ v. immediate (sign_extend32 v)) (disp32 bs)
      else none
  finish imul_imm8 (some (reg, rm, bs)) = with_imm (some imul) (direct reg) (times rm) (disp8 bs)
  finish imul_imm32 (some (reg, rm, bs)) = with_imm (some imul) (direct reg) (times rm) (disp32 bs)
  finish shift_cl (some (reg, rm, bs)) = grouped (shift_group (reg % 8)) rm register_cl bs
  finish shift_one (some (reg, rm, bs)) = grouped (shift_group (reg % 8)) rm (immediate 1) bs
  finish shift_imm8 (some (reg, rm, [])) = none
  finish shift_imm8 (some (reg, rm, i ∷ bs)) = grouped (shift_group (reg % 8)) rm (immediate i) bs
  finish bit_imm8 (some (reg, rm, [])) = none
  finish bit_imm8 (some (reg, rm, i ∷ bs)) = grouped (bit_group (reg % 8)) rm (immediate i) bs
  finish (digit_only d m) (some (reg, rm, bs)) =
      if reg % 8 == d then some (insn m rm implied, bs) else none
  finish unknown (some (reg, rm, bs)) = none

abbrev imm64 : Bool → Rm → List ℕ → Decoded
imm64 locked t (b0 ∷ b1 ∷ b2 ∷ b3 ∷ b4 ∷ b5 ∷ b6 ∷ b7 ∷ bs) =
    let v = from_le (b0 ∷ b1 ∷ b2 ∷ b3 ∷ b4 ∷ b5 ∷ b6 ∷ b7 ∷ []) in
    some (insn locked true mov t (immediate v), bs)
imm64 locked t _ = none

abbrev is_lock : Legacy → Bool
is_lock lock_f0 = true
is_lock _ = false

-- The one-byte opcodes: a LOCK prefix, or none, stands before those that the encoder uses.
abbrev decode_one : Legacy → Rex → ℕ → List ℕ → Decoded
decode_one repne_f2 rex o bs = none
decode_one rep_f3 rex o bs = none
decode_one opsize_66 rex o bs = none
decode_one p rex o bs =
    if o / 8 == 10
    then some (insn false rex.w push (direct (extend rex.b (o % 8))) implied, bs)
    else if o / 8 == 11
    then some (insn false rex.w pop (direct (extend rex.b (o % 8))) implied, bs)
    else if o / 8 == 23
    then (if rex.w then imm64 (is_lock p) (direct (extend rex.b (o % 8))) bs else none)
    else finish (is_lock p) rex.w (one_byte o) (decode_modrm rex bs)

abbrev decode_two : Legacy → Rex → List ℕ → Decoded
decode_two p rex [] = none
decode_two p rex (o ∷ bs) = finish (is_lock p) rex.w (two_byte p o) (decode_modrm rex bs)

abbrev pub decode_opcode : Legacy → Rex → List ℕ → Decoded
decode_opcode p rex [] = none
decode_opcode p rex (o ∷ bs) = if o == 0x0F then decode_two p rex bs else decode_one p rex o bs

-- One instruction, and the bytes behind it.
unfoldable pub decode : List ℕ → Decoded
decode bs =
    let (p, after_prefix) = split_prefix bs in
    let (rex, after_rex) = split_rex after_prefix in decode_opcode p rex after_rex
