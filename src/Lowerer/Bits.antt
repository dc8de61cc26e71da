-- ===== src/Lowerer/Bits.antt =====
-- The native operations on binary digits, as `bitwise` of Base/Words.antt states them.
use Prim.Native.Nat.{
  bit_and, bit_or, bit_xor, bit_and-bitwise, bit_or-bitwise, bit_xor-bitwise, digits, min, max,
}
use Prim.Native.Nat
use anastasia.Base.{
  ℕ, zero, suc, ◌/◌, ◌%◌, ◌^◌, ◌≤◌, ◌<◌, ◌≡◌, refl, sym, ◌∙◌, Bool, ◌==◌, if◌then◌else◌, arith,
}
use anastasia.Base.Words.{bitwise, both, either, differ}

-- An operation on digits and its test on Booleans.
abbrev Digit : (ℕ → ℕ → ℕ) → (Bool → Bool → Bool) → Type 0
Digit f g = (p q : ℕ) → p < 2 → q < 2 → f p q ≡ (if g (p == 1) (q == 1) then 1 else 0)

and-Digit : Digit min both
and-Digit zero zero h k = refl
and-Digit zero (suc zero) h k = refl
and-Digit zero (suc (suc q)) h k = absurd (omega arith)
and-Digit (suc zero) zero h k = refl
and-Digit (suc zero) (suc zero) h k = refl
and-Digit (suc zero) (suc (suc q)) h k = absurd (omega arith)
and-Digit (suc (suc p)) q h k = absurd (omega arith)

or-Digit : Digit max either
or-Digit zero zero h k = refl
or-Digit zero (suc zero) h k = refl
or-Digit zero (suc (suc q)) h k = absurd (omega arith)
or-Digit (suc zero) zero h k = refl
or-Digit (suc zero) (suc zero) h k = refl
or-Digit (suc zero) (suc (suc q)) h k = absurd (omega arith)
or-Digit (suc (suc p)) q h k = absurd (omega arith)

xor-Digit : Digit Nat.differ differ
xor-Digit zero zero h k = refl
xor-Digit zero (suc zero) h k = refl
xor-Digit zero (suc (suc q)) h k = absurd (omega arith)
xor-Digit (suc zero) zero h k = refl
xor-Digit (suc zero) (suc zero) h k = refl
xor-Digit (suc zero) (suc (suc q)) h k = absurd (omega arith)
xor-Digit (suc (suc p)) q h k = absurd (omega arith)

module _ (z : ℕ → ℕ) (f : ℕ → ℕ → ℕ) (g : Bool → Bool → Bool) (same : Digit f g)
    (rest : (n b : ℕ) → b < 2 ^ n → bitwise g n 0 b ≡ z b) where
  digits-bitwise :
      (n fuel a b : ℕ) → a < 2 ^ n → b < 2 ^ n → a ≤ fuel → digits z f fuel a b ≡ bitwise g n a b
  unfolding bitwise
  digits-bitwise n zero zero b h k l = sym (rest n b k)
  digits-bitwise n (suc m) zero b h k l = sym (rest n b k)
  digits-bitwise n zero (suc a) b h k l = absurd (omega arith)
  digits-bitwise zero (suc m) (suc a) b h k l = absurd (omega arith)
  digits-bitwise (suc n) (suc m) (suc a) b h k l =
      let rec : digits z f m (suc a / 2) (b / 2) ≡ bitwise g n (suc a / 2) (b / 2) =
        digits-bitwise n m (suc a / 2) (b / 2) (omega arith) (omega arith) (omega arith) in
      rw (rec, same (suc a % 2) (b % 2) (omega arith) (omega arith)) (omega arith)

rest_and : (n b : ℕ) → b < 2 ^ n → bitwise both n 0 b ≡ 0
unfolding bitwise
rest_and zero b h = refl
rest_and (suc n) b h = omega (arith, rest_and n (b / 2) (omega arith))

rest_or : (n b : ℕ) → b < 2 ^ n → bitwise either n 0 b ≡ b
unfolding bitwise
rest_or zero b h = omega arith
rest_or (suc n) b h = let r = rest_or n (b / 2) (omega arith) in ground arith

rest_xor : (n b : ℕ) → b < 2 ^ n → bitwise differ n 0 b ≡ b
unfolding bitwise
rest_xor zero b h = omega arith
rest_xor (suc n) b h = let r = rest_xor n (b / 2) (omega arith) in ground arith

pub bit_and-both : (a b : ℕ) → a < 2 ^ 64 → b < 2 ^ 64 → bit_and a b ≡ bitwise both 64 a b
bit_and-both a b h k =
    bit_and-bitwise a b
    ∙ digits-bitwise (λ b. 0) min both and-Digit rest_and 64 a a b h k (omega arith)

pub bit_or-either : (a b : ℕ) → a < 2 ^ 64 → b < 2 ^ 64 → bit_or a b ≡ bitwise either 64 a b
bit_or-either a b h k =
    bit_or-bitwise a b
    ∙ digits-bitwise (λ b. b) max either or-Digit rest_or 64 a a b h k (omega arith)

pub bit_xor-differ : (a b : ℕ) → a < 2 ^ 64 → b < 2 ^ 64 → bit_xor a b ≡ bitwise differ 64 a b
bit_xor-differ a b h k =
    bit_xor-bitwise a b
    ∙ digits-bitwise (λ b. b) Nat.differ differ xor-Digit rest_xor 64 a a b h k (omega arith)
