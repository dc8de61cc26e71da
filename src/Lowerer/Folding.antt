-- ===== src/Lowerer/Folding.antt =====
-- The constant folding of src/frontend/ana_parser.cpp beside the meaning of the instructions that
-- src/backend/ana_lowerer.cpp compiles: its comment says that it mirrors the backend.
use native.Mathlib.Nat.{mod-add-div, add-mul, mul_assoc, mul_comm, add-mul-mod_self_left}
use anastasia.Base.{
  ℕ, ◌+◌, ◌-◌, ◌*◌, ◌/◌, ◌%◌, ◌^◌, ◌<◌, ◌≡◌, refl, sym, ap, ◌∙◌, Bool, true, false, some, arith,
}
use anastasia.Base.Words.{sign_extend32}
use anastasia.Ast.{Opcode, Operand, const_int, Instruction}
use anastasia.Frontend.Fold.{fold, fold_into, fold_operands, optimize_instruction}
use anastasia.Lowerer.Bits.{bit_and-both, bit_or-either, bit_xor-differ}
use anastasia.Lowerer.Meaning.{meaning, denoted}

-- The folded operations with a meaning that takes no more than the low halves at 32 bits.
abbrev pub is_mirrored : Opcode → Bool
is_mirrored Opcode.add_i64 = true
is_mirrored Opcode.sub_i64 = true
is_mirrored Opcode.mul_i64 = true
is_mirrored Opcode.add_i32 = true
is_mirrored Opcode.sub_i32 = true
is_mirrored Opcode.mul_i32 = true
is_mirrored Opcode.and_i64 = true
is_mirrored Opcode.or_i64 = true
is_mirrored Opcode.xor_i64 = true
is_mirrored _ = false

-- A product modulo `m` depends on its factors modulo `m` only.
mul-mod_left_factor : (a c m : ℕ) → a % m * c % m ≡ a * c % m
mul-mod_left_factor a c m =
    let whole : a * c ≡ a % m * c + m * (a / m * c) =
      ap (λ n. n * c) (sym (mod-add-div a m))
      ∙ add-mul (a % m) (m * (a / m)) c
      ∙ ap (λ n. a % m * c + n) (mul_assoc m (a / m) c) in
    sym (ap (λ n. n % m) whole ∙ add-mul-mod_self_left (a % m * c) m (a / m * c))

mul_halves : (a b : ℕ) → a % 2 ^ 32 * (b % 2 ^ 32) % 2 ^ 32 ≡ a * b % 2 ^ 32
mul_halves a b =
    mul-mod_left_factor a (b % 2 ^ 32) (2 ^ 32)
    ∙ ap (λ n. n % 2 ^ 32) (mul_comm a (b % 2 ^ 32))
    ∙ mul-mod_left_factor b a (2 ^ 32)
    ∙ ap (λ n. n % 2 ^ 32) (mul_comm b a)

sub64 : (a b : ℕ) → b < 2 ^ 64 → (a + (2 ^ 64 - b % 2 ^ 64)) % 2 ^ 64 ≡ (a + (2 ^ 64 - b)) % 2 ^ 64
sub64 a b h = omega arith

add32 : (a b : ℕ) → (a % 2 ^ 32 + b % 2 ^ 32) % 2 ^ 32 ≡ (a + b) % 2 ^ 32
add32 a b = omega arith

sub32 :
    (a b : ℕ)
    → b < 2 ^ 64
    → (a % 2 ^ 32 + (2 ^ 32 - b % 2 ^ 32)) % 2 ^ 32 ≡ (a + (2 ^ 64 - b)) % 2 ^ 32
sub32 a b h = omega arith

fold-meaning :
    (op : Opcode) (u1 u2 : ℕ)
    → u1 < 2 ^ 64
    → u2 < 2 ^ 64
    → is_mirrored op ≡ true
    → fold op u1 u2 ≡ some (denoted (meaning op) u1 u2)
unfolding fold meaning
fold-meaning Opcode.add_i64 u1 u2 h k r = refl
fold-meaning Opcode.sub_i64 u1 u2 h k r = ap some (sub64 u1 u2 k)
fold-meaning Opcode.mul_i64 u1 u2 h k r = refl
fold-meaning Opcode.and_i64 u1 u2 h k r = ap some (bit_and-both u1 u2 h k)
fold-meaning Opcode.or_i64 u1 u2 h k r = ap some (bit_or-either u1 u2 h k)
fold-meaning Opcode.xor_i64 u1 u2 h k r = ap some (bit_xor-differ u1 u2 h k)
fold-meaning Opcode.add_i32 u1 u2 h k r = ap (λ w. some (sign_extend32 w)) (add32 u1 u2)
fold-meaning Opcode.sub_i32 u1 u2 h k r = ap (λ w. some (sign_extend32 w)) (sub32 u1 u2 k)
fold-meaning Opcode.mul_i32 u1 u2 h k r = ap (λ w. some (sign_extend32 w)) (mul_halves u1 u2)
fold-meaning _ u1 u2 h k r = absurd (cc)

-- An ADD, SUB or MUL of 32 or 64 bits, or a 64-bit AND, OR or XOR, of two constants is folded into a
-- MOVE_CONST, with the destination and the rest of the instruction kept, of the very word that the
-- unfolded instruction means in the theorem on its machine code (`meaning` of Lowerer/Meaning.antt).
pub optimize_instruction-meaning :
    (i : Instruction) (u1 u2 : ℕ)
    → i.src1 ≡ const_int u1
    → i.src2 ≡ const_int u2
    → u1 < 2 ^ 64
    → u2 < 2 ^ 64
    → is_mirrored i.op ≡ true
    → optimize_instruction i ≡ record i {
      op = Opcode.move_const;
      src1 = const_int (denoted (meaning i.op) u1 u2);
      src2 = const_int 0;
    }
unfolding optimize_instruction
optimize_instruction-meaning i u1 u2 e f h k r =
    ap (λ (p : Operand × Operand). fold_operands i p.0 p.1) (λ t. (e t, f t))
    ∙ ap (fold_into i) (fold-meaning i.op u1 u2 h k r)
