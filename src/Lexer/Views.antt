-- ===== src/Lexer/Views.antt =====
-- Each branch of `next_token` of src/frontend/ana_lexer.cpp passes a byte, and the view of its token
-- is of the bytes that it passes.
use anastasia.Base.{
  ℕ, ◌+◌, ◌-◌, ◌≤◌, ◌≡◌, ◌≢◌, inl, inr, refl, Bool, true, false, ◌||◌, Option, none, some, List,
  ◌==◌, if◌then◌else◌, Bool-cases, arith,
}
use anastasia.Base.Lists.{length}
use anastasia.Ast.{DataType, Opcode, Register}
use anastasia.Encoder.Buffer.{Kernel}
use anastasia.Lexer.Scan.{
  Lexer, peek, advance, span, is_digit, is_letter, in_directive, in_identifier, literal_from,
}
use anastasia.Lexer.Keywords.{TokenType, fnv1a_hash, find_word, types_and_hints, opcodes}
use anastasia.Lexer.Tokens.{
  StringPool, Token, Step, blank_token, single, integer_from, lex_minus, literal_token,
  lexer_alloc_string, lex_string, lex_directive, register_of, as_opcode, as_type, as_register,
  lex_identifier, lex_char,
}
use anastasia.Lexer.Progress.{
  Moves, Moves-trans, Moves-none, Moves-weaken, advance-Moves, span_from-Moves,
  span_from-Moves_first, literal_from-Moves,
}

-- From `x`, a token whose view begins at `x` and ends where the lexer stands.
pub record Took (x : Lexer) (s : Step) : Type 0 where
  pub moves : Moves 1 x s.1
  pub from : s.0.start ≡ x.cursor
  pub within : s.0.start + s.0.length ≤ s.1.cursor

module _ {x : Lexer} where
  -- A property of both branches holds of a conditional.
  branch :
      (b : Bool) (s t : Step)
      → (b ≡ true → Took x s)
      → (b ≡ false → Took x t)
      → Took x (if b then s else t)
  branch true s t p q = p refl
  branch false s t p q = q refl

  -- A token at `x` that is at most as long as what is passed.
  took :
      (tok : Token) (y : Lexer) (pool : StringPool)
      → Moves 1 x y
      → tok.start ≡ x.cursor
      → tok.length ≤ y.cursor - x.cursor
      → Took x (tok, y, pool)
  took tok y pool m e l = let a = m.counted in record { moves = m; from = e; within = omega arith }

single-Took :
    (t : TokenType) (x : Lexer) (pool : StringPool) → peek x ≢ 0 → Took x (single t x pool)
single-Took t x pool n =
    let m = advance-Moves x n in
    let a = m.counted in let b = m.enough in record { moves = m; from = refl; within = omega arith }

integer_from-Took :
    (negative : Bool) (x y : Lexer) (pool : StringPool)
    → Moves 1 x (span is_digit y).1
    → Took x (integer_from negative x y pool)
integer_from-Took negative x y pool m =
    took (integer_from negative x y pool).0 (span is_digit y).1 pool m refl (omega arith)

span-Moves : (p : ℕ → Bool) (x : Lexer) → Moves 0 x (span p x).1
unfolding span
span-Moves p x = span_from-Moves p x.rest x.cursor x.line

span-Moves_first :
    (p : ℕ → Bool) (x : Lexer) → p (peek x) ≡ true → peek x ≢ 0 → Moves 1 x (span p x).1
unfolding span
span-Moves_first p x e n = span_from-Moves_first p x.rest x.cursor x.line e n

lex_minus-Took : (x : Lexer) (pool : StringPool) → peek x ≢ 0 → Took x (lex_minus x pool)
unfolding lex_minus
lex_minus-Took x pool n =
    let y = advance x in
    let m = advance-Moves x n in
    let a = m.counted in
    let b = m.enough in
    branch (peek y == b'>') _ _
      (λ e.
        let k = advance-Moves y (ground arith) in
        let c = k.counted in
        let d = k.enough in took _ (advance y) pool (Moves-trans 1 m k) refl (omega arith))
      (λ _.
        branch (is_digit (peek y)) _ _
          (λ _. integer_from-Took true x y pool (Moves-trans 0 m (span-Moves is_digit y)))
          (λ _. took _ y pool m refl (omega arith)))

literal_token-Took :
    (x : Lexer) (bs : List ℕ) (y : Lexer) (r : Bool × StringPool)
    → Moves 1 x y
    → Took x (literal_token x bs y r)
literal_token-Took x bs y (true, pool) m =
    took (literal_token x bs y (true, pool)).0 y pool m refl (omega arith)
literal_token-Took x bs y (false, pool) m =
    took (literal_token x bs y (false, pool)).0 y pool m refl (omega arith)

-- A closing quote is passed over.
past_quote : (z : Lexer) → Moves 0 z (if peek z == b'"' then advance z else z)
past_quote z = elim (Bool-cases (peek z == b'"')) [
  | inl e ↦ rw e (Moves-weaken (advance-Moves z (ground arith)))
  | inr e ↦ rw e (Moves-none z)
]

lex_string-Took :
    (grants : Kernel) (x : Lexer) (pool : StringPool)
    → peek x ≢ 0
    → Took x (lex_string grants x pool)
unfolding lex_string
lex_string-Took grants x pool n =
    let y = advance x in
    let l = literal_from y.rest 0 y.cursor y.line in
    literal_token-Took x l.0 _ (lexer_alloc_string grants (length l.0) pool) (
      Moves-trans 0
        (Moves-trans 0 (advance-Moves x n) (literal_from-Moves y.rest 0 y.cursor y.line))
        (past_quote l.1))

lex_directive-Took : (x : Lexer) (pool : StringPool) → peek x ≢ 0 → Took x (lex_directive x pool)
unfolding lex_directive
lex_directive-Took x pool n =
    took (lex_directive x pool).0 _ pool
      (Moves-trans 0 (advance-Moves x n) (span-Moves in_directive (advance x))) refl (omega arith)

-- What a word is leaves its view as it is.
as_opcode-view :
    (tok : Token) (o : Option Opcode)
    → ((as_opcode tok o).start ≡ tok.start) × ((as_opcode tok o).length ≡ tok.length)
as_opcode-view tok (some op) = (refl, refl)
as_opcode-view tok none = (refl, refl)

as_type-view :
    (tok : Token) (hash : ℕ) (o : Option (TokenType × DataType))
    → ((as_type tok hash o).start ≡ tok.start) × ((as_type tok hash o).length ≡ tok.length)
as_type-view tok hash (some (t, d)) = (refl, refl)
as_type-view tok hash none = as_opcode-view tok (find_word opcodes hash)

as_register-view :
    (tok : Token) (name : List ℕ) (o : Option Register)
    → ((as_register tok name o).start ≡ tok.start) × ((as_register tok name o).length ≡ tok.length)
as_register-view tok name (some r) = (refl, refl)
as_register-view tok name none =
    as_type-view tok (fnv1a_hash name)
      (find_word {A = TokenType × DataType} types_and_hints (fnv1a_hash name))

lex_identifier-Took :
    (x : Lexer) (pool : StringPool)
    → in_identifier (peek x) ≡ true
    → peek x ≢ 0
    → Took x (lex_identifier x pool)
unfolding lex_identifier
lex_identifier-Took x pool e n =
    let word = span in_identifier x in
    let m = span-Moves_first in_identifier x e n in
    let view =
      as_register-view (record (blank_token x) { length = word.1.cursor - x.cursor }) word.0
        (register_of word.0) in
    let start = view.0 in
    let size = view.1 in
    let a = m.counted in
    branch (peek word.1 == b':') _ _
      (λ colon.
        let k = advance-Moves word.1 (ground arith) in
        let b = k.counted in took _ (advance word.1) pool (Moves-trans 1 m k) refl (omega arith))
      (λ _. took _ word.1 pool m start (omega arith))

pub lex_char-Took :
    (grants : Kernel) (x : Lexer) (pool : StringPool)
    → peek x ≢ 0
    → Took x (lex_char grants (peek x) x pool)
unfolding lex_char
lex_char-Took grants x pool n =
    let c = peek x in
    let one : (t : TokenType) → Took x (single t x pool) = λ t. single-Took t x pool n in
    branch (c == b'"') _ _ (λ _. lex_string-Took grants x pool n)
      (λ _.
        branch (c == b'[') _ _ (λ _. one _)
          (λ _.
            branch (c == b']') _ _ (λ _. one _)
              (λ _.
                branch (c == b'(') _ _ (λ _. one _)
                  (λ _.
                    branch (c == b')') _ _ (λ _. one _)
                      (λ _.
                        branch (c == b':') _ _ (λ _. one _)
                          (λ _.
                            branch (c == b',') _ _ (λ _. one _)
                              (λ _.
                                branch (c == b'+') _ _ (λ _. one _)
                                  (λ _.
                                    branch (c == b'-') _ _ (λ _. lex_minus-Took x pool n)
                                      (λ _.
                                        branch (is_digit c) _ _
                                          (λ e.
                                            integer_from-Took false x x pool
                                              (span-Moves_first is_digit x e n))
                                          (λ _.
                                            branch (c == b'.') _ _
                                              (λ _. lex_directive-Took x pool n)
                                              (λ _.
                                                branch (is_letter c || c == b'_') _ _
                                                  (λ e. lex_identifier-Took x pool (ground arith) n)
                                                  (λ _. one _))))))))))))
