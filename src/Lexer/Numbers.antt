-- ===== src/Lexer/Numbers.antt =====
-- Decimal numbers and registers are read back by `next_token` of src/frontend/ana_lexer.cpp.
use Prim.Native.Nat.{ℕ, zero, suc}
use native.Mathlib.Nat.{mod-eq_of_lt}
use anastasia.Base.{
  ◌+◌, ◌-◌, ◌*◌, ◌/◌, ◌%◌, ◌^◌, ◌≤◌, ◌<◌, ◌≡◌, ◌≢◌, refl, ap, ◌∙◌, Bool, true, false, some, List,
  [], ◌∷◌, ◌++◌, ltb, ◌==◌, if◌then◌else◌, Bool-cases, inl, inr, arith,
}
use anastasia.Base.Lists.{length, length-append}
use anastasia.Ast.{Register, RegisterType}
use anastasia.Lexer.Scan.{Lexer, at, peek, is_letter, in_identifier, decimal_from, span}
use anastasia.Lexer.Keywords.{token_register}
use anastasia.Encoder.Buffer.{Kernel}
use anastasia.Lexer.Words.{all, span_from-append, skip-letter, lex_char-letter, other_than_letter}
use anastasia.Lexer.Tokens.{
  StringPool, Token, blank_token, register_of, all_digits, lex_identifier, next_token,
}

-- The digits of a number, with as many as `fuel`.
unfoldable pub digits_from : ℕ → ℕ → List ℕ
digits_from zero n = []
digits_from (suc fuel) n =
    let before = digits_from fuel (n / 10) in
    if ltb n 10 then (n + b'0') ∷ [] else before ++ ((n % 10 + b'0') ∷ [])

abbrev pub digits : ℕ → List ℕ
digits n = digits_from (suc n) n

decimal_from-append :
    (w acc : ℕ) (cs : List ℕ) (d : ℕ)
    → decimal_from w acc (cs ++ ((d + b'0') ∷ [])) ≡ (decimal_from w acc cs * 10 + d) % 2 ^ w
unfolding decimal_from
decimal_from-append w acc [] d = ap (λ z. (acc * 10 + z) % 2 ^ w) (omega arith)
decimal_from-append w acc (c ∷ cs) d = decimal_from-append w ((acc * 10 + (c - b'0')) % 2 ^ w) cs d

decimal_from-digits_from :
    (w fuel n : ℕ) → n < fuel → n < 2 ^ w → decimal_from w 0 (digits_from fuel n) ≡ n
unfolding digits_from decimal_from
decimal_from-digits_from w zero n h k = absurd (omega arith)
decimal_from-digits_from w (suc fuel) n h k = elim (Bool-cases (ltb n 10)) [
  | inl e ↦
      let v : decimal_from w 0 [] * 10 + n ≡ n = omega arith in
      rw e (decimal_from-append w 0 [] n ∙ ap (λ z. z % 2 ^ w) v ∙ mod-eq_of_lt k)
  | inr e ↦
      let tenth : n / 10 < fuel = ground arith in
      let before = decimal_from-digits_from w fuel (n / 10) tenth (omega arith) in
      let v : decimal_from w 0 (digits_from fuel (n / 10)) * 10 + n % 10 ≡ n = omega arith in
      rw e (
        decimal_from-append w 0 (digits_from fuel (n / 10)) (n % 10)
        ∙ ap (λ z. z % 2 ^ w) v
        ∙ mod-eq_of_lt k)
]

all_digits-append :
    (cs : List ℕ) (d : ℕ)
    → d < 10
    → all_digits cs ≡ true
    → all_digits (cs ++ ((d + b'0') ∷ [])) ≡ true
all_digits-append [] d h e = ground arith
all_digits-append (c ∷ cs) d h e =
    let later = all_digits-append cs d h (ground arith) in ground arith

all_digits-digits_from : (fuel n : ℕ) → all_digits (digits_from fuel n) ≡ true
unfolding digits_from
all_digits-digits_from zero n = refl
all_digits-digits_from (suc fuel) n = elim (Bool-cases (ltb n 10)) [
  | inl e ↦ rw e (all_digits-append [] n (ground arith) refl)
  | inr e ↦ rw e (
      all_digits-append (digits_from fuel (n / 10)) (n % 10) (omega arith)
        (all_digits-digits_from fuel (n / 10)))
]

length-digits : (n : ℕ) → 1 ≤ length (digits n)
unfolding digits_from
length-digits n = elim (Bool-cases (ltb n 10)) [
  | inl e ↦ rw e (omega arith)
  | inr e ↦
      let more = length-append (digits_from n (n / 10)) ((n % 10 + b'0') ∷ []) in rw e (omega arith)
]

-- The word of a register.
abbrev pub letter_of : RegisterType → ℕ
letter_of RegisterType.param = b'p'
letter_of _ = b'v'

abbrev pub is_named : RegisterType → Bool
is_named RegisterType.untyped = false
is_named _ = true

abbrev pub spelled : Register → List ℕ
spelled r = letter_of r.type ∷ digits r.index

register_of-digits :
    (t : RegisterType) (ds : List ℕ) (n : ℕ)
    → is_named t ≡ true
    → 1 ≤ length ds
    → all_digits ds ≡ true
    → decimal_from 32 0 ds ≡ n
    → register_of (letter_of t ∷ ds) ≡ some (record { type = t; index = n })
unfolding register_of
register_of-digits t [] n h l e v = absurd (omega arith)
register_of-digits RegisterType.untyped (d ∷ ds) n h l e v = absurd (ground arith)
register_of-digits RegisterType.param (d ∷ ds) n h l e v = rw (e, v) refl
register_of-digits RegisterType.local (d ∷ ds) n h l e v = rw (e, v) refl

register_of-spelled :
    (r : Register) → is_named r.type ≡ true → r.index < 2 ^ 32 → register_of (spelled r) ≡ some r
register_of-spelled r h k =
    register_of-digits r.type (digits r.index) r.index h (length-digits r.index)
      (all_digits-digits_from (suc r.index) r.index)
      (decimal_from-digits_from 32 (suc r.index) r.index (omega arith) k)

all-digits : (ds : List ℕ) → all_digits ds ≡ true → all in_identifier ds ≡ true
all-digits [] e = refl
all-digits (d ∷ ds) e = let later = all-digits ds (ground arith) in ground arith

-- The token of a register at `x`.
abbrev pub register_token : Lexer → Register → Token
register_token x r = record (blank_token x) {
  type = token_register;
  length = length (spelled r);
  reg = r;
}

lex_identifier-register :
    (w rest : List ℕ) (r : Register) (k l : ℕ) (pool : StringPool)
    → all in_identifier w ≡ true
    → register_of w ≡ some r
    → in_identifier (peek (at rest k l)) ≡ false
    → peek (at rest k l) ≢ b':'
    → lex_identifier (at (w ++ rest) k l) pool ≡ (
      record (blank_token (at (w ++ rest) k l)) {
        type = token_register;
        length = length w;
        reg = r;
      },
      at rest (k + length w) l,
      pool,
    )
unfolding lex_identifier span
lex_identifier-register w rest r k l pool chars found stop colon =
    let taken = span_from-append in_identifier w rest k l chars stop in
    let not_label : (peek (at rest k l) == b':') ≡ false = ground arith in
    let size : k + length w - k ≡ length w = omega arith in rw (taken, not_label, found, size) refl

letter_of-letter : (t : RegisterType) → is_letter (letter_of t) ≡ true
letter_of-letter RegisterType.untyped = refl
letter_of-letter RegisterType.param = refl
letter_of-letter RegisterType.local = refl

-- The word of a parameter or a local of a `uint32_t` index is read as that register.
pub next_token-register :
    (grants : Kernel) (r : Register) (rest : List ℕ) (k l : ℕ) (pool : StringPool)
    → is_named r.type ≡ true
    → r.index < 2 ^ 32
    → in_identifier (peek (at rest k l)) ≡ false
    → peek (at rest k l) ≢ b':'
    → next_token grants (at (spelled r ++ rest) k l) pool
      ≡ (register_token (at (spelled r ++ rest) k l) r, at rest (k + length (spelled r)) l, pool)
unfolding next_token
next_token-register grants r rest k l pool h small stop colon =
    let c = letter_of r.type in
    let ds = digits r.index in
    let letter = letter_of-letter r.type in
    let x = at (spelled r ++ rest) k l in
    let all_chars = all-digits ds (all_digits-digits_from (suc r.index) r.index) in
    rw
      (
        skip-letter c (ds ++ rest) k l letter,
        other_than_letter c letter 0 refl,
        lex_char-letter grants c x pool letter,
      )
      (lex_identifier-register (spelled r) rest r k l pool (ground arith)
        (register_of-spelled r h small) stop colon)
