-- ===== src/Frontend/Fold.antt =====
-- The constant folding of `optimize_instruction` in src/frontend/ana_parser.cpp. An `int64_t` is its
-- bit pattern, and so is an `int32_t`.
use Prim.Native.Nat.{bit_and, bit_or, bit_xor}
use anastasia.Base.{
  ℕ, ◌+◌, ◌-◌, ◌*◌, ◌/◌, ◌%◌, ◌^◌, Bool, true, false, not, Option, none, some, leb, ◌==◌,
  if◌then◌else◌,
}
use anastasia.Base.Words.{sign_extend32}
use anastasia.Ast.{Opcode, Operand, const_int, Instruction}

-- The sign bit, at the size of which `modulus` is the number of values.
abbrev pub is_negative : ℕ → ℕ → Bool
is_negative modulus a = leb (modulus / 2) a

abbrev pub magnitude : ℕ → ℕ → ℕ
magnitude modulus a = if is_negative modulus a then modulus - a else a

abbrev pub differ : Bool → Bool → Bool
differ true b = not b
differ false b = b

-- `a / b` of two signed values, rounded towards zero.
abbrev pub quotient : ℕ → ℕ → ℕ → ℕ
quotient modulus a b =
    let q = magnitude modulus a / magnitude modulus b in
    if differ (is_negative modulus a) (is_negative modulus b) then (modulus - q) % modulus else q

-- `a >> s` of a signed value.
abbrev pub shift_right : ℕ → ℕ → ℕ → ℕ
shift_right modulus a s =
    if is_negative modulus a then (a + modulus * (2 ^ s - 1)) / 2 ^ s else a / 2 ^ s

-- The two divisions, with their guards for 0 and -1.
abbrev pub divide : ℕ → ℕ → ℕ → Option ℕ
divide modulus a b =
    if b == 0
    then none
    else some (if b == modulus - 1 then (modulus - a) % modulus else quotient modulus a b)

-- An `int32_t` result, as the `int64_t` that it is stored in.
abbrev pub widen : Option ℕ → Option ℕ
widen none = none
widen (some r) = some (sign_extend32 (r % 2 ^ 32))

abbrev pub fold32 : Opcode → ℕ → ℕ → ℕ → Option ℕ
fold32 Opcode.add_i32 x1 x2 s = some (x1 + x2)
fold32 Opcode.sub_i32 x1 x2 s = some (x1 + (2 ^ 32 - x2))
fold32 Opcode.mul_i32 x1 x2 s = some (x1 * x2)
fold32 Opcode.div_i32 x1 x2 s = divide (2 ^ 32) x1 x2
fold32 Opcode.and_i32 x1 x2 s = some (bit_and x1 x2)
fold32 Opcode.or_i32 x1 x2 s = some (bit_or x1 x2)
fold32 Opcode.xor_i32 x1 x2 s = some (bit_xor x1 x2)
fold32 Opcode.shl_i32 x1 x2 s = some (x1 * 2 ^ s)
fold32 Opcode.shr_i32 x1 x2 s = some (shift_right (2 ^ 32) x1 s)
fold32 Opcode.ushr_i32 x1 x2 s = some (x1 / 2 ^ s)
fold32 _ x1 x2 s = none

abbrev pub fold64 : Opcode → ℕ → ℕ → ℕ → Option ℕ
fold64 Opcode.add_i64 u1 u2 s = some ((u1 + u2) % 2 ^ 64)
fold64 Opcode.sub_i64 u1 u2 s = some ((u1 + (2 ^ 64 - u2 % 2 ^ 64)) % 2 ^ 64)
fold64 Opcode.mul_i64 u1 u2 s = some (u1 * u2 % 2 ^ 64)
fold64 Opcode.div_i64 u1 u2 s = divide (2 ^ 64) u1 u2
fold64 Opcode.and_i64 u1 u2 s = some (bit_and u1 u2)
fold64 Opcode.or_i64 u1 u2 s = some (bit_or u1 u2)
fold64 Opcode.xor_i64 u1 u2 s = some (bit_xor u1 u2)
fold64 Opcode.shl_i64 u1 u2 s = some (u1 * 2 ^ s % 2 ^ 64)
fold64 Opcode.shr_i64 u1 u2 s = some (shift_right (2 ^ 64) u1 s)
fold64 Opcode.ushr_i64 u1 u2 s = some (u1 / 2 ^ s)
fold64 _ u1 u2 s = none

abbrev pub first_of : Option ℕ → Option ℕ → Option ℕ
first_of (some r) other = some r
first_of none other = other

-- The switch over the opcode.
unfoldable pub fold : Opcode → ℕ → ℕ → Option ℕ
fold op u1 u2 =
    first_of (widen (fold32 op (u1 % 2 ^ 32) (u2 % 2 ^ 32) (u2 % 32))) (fold64 op u1 u2 (u2 % 64))

abbrev pub fold_into : Instruction → Option ℕ → Instruction
fold_into i none = i
fold_into i (some r) = record i { op = Opcode.move_const; src1 = const_int r; src2 = const_int 0 }

abbrev pub fold_operands : Instruction → Operand → Operand → Instruction
fold_operands i (const_int v1) (const_int v2) = fold_into i (fold i.op v1 v2)
fold_operands i _ _ = i

unfoldable pub optimize_instruction : Instruction → Instruction
unfolding fold
optimize_instruction i = fold_operands i i.src1 i.src2
