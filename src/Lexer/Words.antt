-- ===== src/Lexer/Words.antt =====
-- The words of the opcodes are read back by `next_token` of src/frontend/ana_lexer.cpp: none is
-- mistaken for another word with the same hash.
use Prim.Native.Nat.{ℕ, zero, suc}
use anastasia.Base.{
  ◌+◌, ◌-◌, ◌≡◌, ◌≢◌, refl, sym, ap, ◌∙◌, Bool, true, false, not, ◌&&◌, Option, none, some, List,
  [], ◌∷◌, ◌++◌, ◌==◌, Bool-cases, inl, inr, arith,
}
use anastasia.Base.Lists.{length, get_elem?}
use anastasia.Ast.{DataType, Opcode}
use anastasia.Encoder.Buffer.{Kernel}
use anastasia.Lexer.Scan.{
  Lexer, at, peek, skip_from, skip_whitespace_and_comments, span_from, span, is_digit, is_letter,
  in_identifier,
}
use anastasia.Lexer.Keywords.{
  TokenType, token_opcode, fnv1a_hash, find_word, types_and_hints, opcodes,
}
use anastasia.Lexer.Tokens.{
  StringPool, Token, blank_token, lex_identifier, register_of, lex_char, next_token,
}

module _ {ℓ} {A : Type ℓ} where
  some-injective : {x y : A} → some x ≡ some y → x ≡ y
  some-injective {x} {y} e = ap (or_else x) e
    where
      or_else : A → Option A → A
      or_else a (some b) = b
      or_else a none = a

  abbrev is_none : Option A → Bool
  is_none none = true
  is_none (some a) = false

  none_of : (o : Option A) → is_none o ≡ true → o ≡ none
  none_of none e = refl
  none_of (some a) e = absurd (ground arith)

  abbrev pub all : (A → Bool) → List A → Bool
  all p [] = true
  all p (x ∷ xs) = p x && all p xs

  all-get_elem? :
      (p : A → Bool) (xs : List A) (i : ℕ) (x : A)
      → all p xs ≡ true
      → get_elem? xs i ≡ some x
      → p x ≡ true
  all-get_elem? p [] i x e m = absurd (ground arith)
  all-get_elem? p (y ∷ ys) zero x e m =
      let f : p y ≡ true = ground arith in ap p (sym (some-injective m)) ∙ f
  all-get_elem? p (y ∷ ys) (suc i) x e m = all-get_elem? p ys i x (ground arith) m

-- No entry has the hash, and no two entries have one.
abbrev is_new : ℕ → List (List ℕ × Opcode) → Bool
is_new hash table = all (λ e. not (hash == fnv1a_hash e.0)) table

abbrev are_distinct : List (List ℕ × Opcode) → Bool
are_distinct [] = true
are_distinct (e ∷ table) = is_new (fnv1a_hash e.0) table && are_distinct table

opcodes_distinct : are_distinct opcodes ≡ true
unfolding fnv1a_hash
opcodes_distinct = refl

-- What makes a word one that only the table of the opcodes reads.
abbrev is_plain : List ℕ → Bool
is_plain w =
    all in_identifier w
    && is_letter (peek (at w 0 0))
    && is_none (register_of w)
    && is_none (find_word {A = TokenType × DataType} types_and_hints (fnv1a_hash w))

opcodes_plain : all (λ e. is_plain e.0) opcodes ≡ true
unfolding fnv1a_hash register_of find_word
opcodes_plain = refl

find_word_lem :
    (table : List (List ℕ × Opcode)) (i : ℕ) (w : List ℕ) (op : Opcode)
    → are_distinct table ≡ true
    → get_elem? table i ≡ some (w, op)
    → find_word table (fnv1a_hash w) ≡ some op
unfolding find_word
find_word_lem [] i w op e m = absurd (ground arith)
find_word_lem ((v, o) ∷ table) zero w op e m =
    let entry = some-injective m in
    let hash = ap (λ f. fnv1a_hash f.0) entry in
    let same : (fnv1a_hash v == fnv1a_hash w) ≡ true = ground arith in
    rw same (ap (λ f. some f.1) entry)
find_word_lem ((v, o) ∷ table) (suc i) w op e m =
    let new : is_new (fnv1a_hash v) table ≡ true = ground arith in
    let other = all-get_elem? (λ e. not (fnv1a_hash v == fnv1a_hash e.0)) table i (w, op) new m in
    let ne : (fnv1a_hash v == fnv1a_hash w) ≡ false = ground arith in
    rw ne (find_word_lem table i w op (ground arith) m)

-- A span ends where the text goes on with another character.
pub span_from-append :
    (p : ℕ → Bool) (w rest : List ℕ) (k l : ℕ)
    → all p w ≡ true
    → p (peek (at rest k l)) ≡ false
    → span_from p (w ++ rest) k l ≡ (w, at rest (k + length w) l)
unfolding span_from
span_from-append p [] [] k l e f = ap (λ z. ([], at [] z l)) (omega arith)
span_from-append p [] (c ∷ cs) k l e f = rw f (ap (λ z. ([], at (c ∷ cs) z l)) (omega arith))
span_from-append p (c ∷ w) rest k l e f =
    let first : p c ≡ true = ground arith in
    let later = span_from-append p w rest (k + 1) l (ground arith) f in
    let len : k + 1 + length w ≡ k + length (c ∷ w) = omega arith in rw (first, later, len) refl

pub other_than_letter :
    (c : ℕ) → is_letter c ≡ true → (d : ℕ) → is_letter d ≡ false → (c == d) ≡ false
other_than_letter c e d f = elim (Bool-cases (c == d)) [
  | inl same ↦ let eq : c ≡ d = ground arith in let g = ap is_letter eq in absurd (ground arith)
  | inr other ↦ other
]

pub lex_char-letter :
    (grants : Kernel) (c : ℕ) (x : Lexer) (pool : StringPool)
    → is_letter c ≡ true
    → lex_char grants c x pool ≡ lex_identifier x pool
unfolding lex_char
lex_char-letter grants c x pool e =
    let no : (d : ℕ) → is_letter d ≡ false → (c == d) ≡ false = other_than_letter c e in
    let not_digit : is_digit c ≡ false = ground arith in
    rw
      (
        no b'"' refl,
        no b'[' refl,
        no b']' refl,
        no b'(' refl,
        no b')' refl,
        no b':' refl,
        no b',' refl,
        no b'+' refl,
        no b'-' refl,
        not_digit,
        no b'.' refl,
        e,
      )
      refl

pub skip-letter :
    (c : ℕ) (cs : List ℕ) (k l : ℕ)
    → is_letter c ≡ true
    → skip_whitespace_and_comments (at (c ∷ cs) k l) ≡ at (c ∷ cs) k l
unfolding skip_whitespace_and_comments skip_from
skip-letter c cs k l e =
    let no : (d : ℕ) → is_letter d ≡ false → (c == d) ≡ false = other_than_letter c e in
    rw (no b' ' refl, no b'\t' refl, no b'\r' refl, no b'\n' refl, no b'#' refl, no b';' refl) refl

-- The token of an opcode's word at `x`.
abbrev pub opcode_token : Lexer → List ℕ → Opcode → Token
opcode_token x w op = record (blank_token x) { type = token_opcode; length = length w; opcode = op }

lex_identifier-word :
    (w rest : List ℕ) (op : Opcode) (k l : ℕ) (pool : StringPool)
    → is_plain w ≡ true
    → find_word opcodes (fnv1a_hash w) ≡ some op
    → in_identifier (peek (at rest k l)) ≡ false
    → peek (at rest k l) ≢ b':'
    → lex_identifier (at (w ++ rest) k l) pool
      ≡ (opcode_token (at (w ++ rest) k l) w op, at rest (k + length w) l, pool)
unfolding lex_identifier span
lex_identifier-word w rest op k l pool plain found stop colon =
    let taken = span_from-append in_identifier w rest k l (ground arith) stop in
    let not_register = none_of (register_of w) (ground arith) in
    let not_type =
      none_of (find_word {A = TokenType × DataType} types_and_hints (fnv1a_hash w))
        (ground arith) in
    let not_label : (peek (at rest k l) == b':') ≡ false = ground arith in
    let size : k + length w - k ≡ length w = omega arith in
    rw (taken, not_label, not_register, not_type, found, size) refl

next_token-word :
    (grants : Kernel) (w rest : List ℕ) (op : Opcode) (k l : ℕ) (pool : StringPool)
    → is_plain w ≡ true
    → find_word opcodes (fnv1a_hash w) ≡ some op
    → in_identifier (peek (at rest k l)) ≡ false
    → peek (at rest k l) ≢ b':'
    → next_token grants (at (w ++ rest) k l) pool
      ≡ (opcode_token (at (w ++ rest) k l) w op, at rest (k + length w) l, pool)
unfolding next_token
next_token-word grants [] rest op k l pool plain found stop colon = absurd (ground arith)
next_token-word grants (c ∷ cs) rest op k l pool plain found stop colon =
    let letter : is_letter c ≡ true = ground arith in
    let x = at (c ∷ cs ++ rest) k l in
    rw
      (
        skip-letter c (cs ++ rest) k l letter,
        other_than_letter c letter 0 refl,
        lex_char-letter grants c x pool letter,
      )
      (lex_identifier-word (c ∷ cs) rest op k l pool plain found stop colon)

-- For every word of the table of opcodes, and a text behind it that does not go on with a
-- character of an identifier or a colon: `next_token` passes over the word and nothing else, and
-- its token is the opcode of the word's entry, with the word as its view.
pub next_token-opcode :
    (grants : Kernel) (i : ℕ) (w rest : List ℕ) (op : Opcode) (k l : ℕ) (pool : StringPool)
    → get_elem? opcodes i ≡ some (w, op)
    → in_identifier (peek (at rest k l)) ≡ false
    → peek (at rest k l) ≢ b':'
    → next_token grants (at (w ++ rest) k l) pool
      ≡ (opcode_token (at (w ++ rest) k l) w op, at rest (k + length w) l, pool)
next_token-opcode grants i w rest op k l pool m stop colon =
    next_token-word grants w rest op k l pool
      (all-get_elem? (λ e. is_plain e.0) opcodes i (w, op) opcodes_plain m)
      (find_word_lem opcodes i w op opcodes_distinct m) stop colon
