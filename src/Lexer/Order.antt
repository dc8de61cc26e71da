-- ===== src/Lexer/Order.antt =====
-- The tokens of a text, one call of `next_token` of src/frontend/ana_lexer.cpp after the other, as
-- `Parser::advance_token` makes them.
use anastasia.Base.{
  ℕ, zero, suc, ◌+◌, ◌≤◌, ◌<◌, ◌≡◌, ◌⊎◌, inl, inr, refl, Bool, true, false, Option, none, some,
  List, [], ◌∷◌, ◌==◌, if◌then◌else◌, Bool-cases, arith,
}
use anastasia.Base.Lists.{length}
use anastasia.Encoder.Buffer.{Kernel}
use anastasia.Lexer.Scan.{Lexer, peek, skip_whitespace_and_comments}
use anastasia.Lexer.Keywords.{TokenType, token_eof}
use anastasia.Lexer.Tokens.{StringPool, Token, Step, next_token}
use anastasia.Lexer.Progress.{Moves, skip_from-Moves}
use anastasia.Lexer.Views.{lex_char-Took}

skip-Moves : (x : Lexer) → Moves 0 x (skip_whitespace_and_comments x)
unfolding skip_whitespace_and_comments
skip-Moves x = skip_from-Moves false x.rest x.cursor x.line

-- From `x`, either the end of the text or a token that takes some of it.
pub record Reads (x : Lexer) (s : Step) : Type 0 where
  pub moves : Moves 0 x s.1
  pub from : x.cursor ≤ s.0.start
  pub within : s.0.start + s.0.length ≤ s.1.cursor
  pub progress : (s.0.type ≡ token_eof) ⊎ (length s.1.rest < length x.rest)

-- `next_token` returns the end of the text, or the lexer is at least one byte further; the view of
-- the token begins at or behind the byte where the lexer stood and ends at or before the one where
-- it stands now, and the position counts the bytes of the text that are passed.
pub next_token-Reads :
    (grants : Kernel) (x : Lexer) (pool : StringPool) → Reads x (next_token grants x pool)
unfolding next_token
next_token-Reads grants x pool =
    let y = skip_whitespace_and_comments x in
    let m = skip-Moves x in
    let a = m.counted in
    let b = m.shorter in
    elim (Bool-cases (peek y == 0)) [
      | inl e ↦
          rw e (record { moves = m; from = omega arith; within = omega arith; progress = inl refl })
      | inr e ↦
          let t = lex_char-Took grants y pool (ground arith) in
          let k = t.moves in
          let c = k.counted in
          let d = k.shorter in
          let f = k.enough in
          let g = t.from in
          rw e (record {
            moves = record {
              passed = m.passed + k.passed;
              enough = omega arith;
              shorter = omega arith;
              counted = omega arith;
            };
            from = omega arith;
            within = t.within;
            progress = inr (omega arith);
          })
    ]

abbrev is_eof : TokenType → Bool
is_eof token_eof = true
is_eof _ = false

abbrev prepend : Token → Option (List Token) → Option (List Token)
prepend t (some ts) = some (t ∷ ts)
prepend t none = none

-- The tokens up to the end of the text, `none` if it does not come within so many calls.
unfoldable pub tokens : Kernel → ℕ → Lexer → StringPool → Option (List Token)
tokens grants zero x pool = none
tokens grants (suc calls) x pool =
    let s = next_token grants x pool in
    let more = tokens grants calls s.1 s.2 in
    if is_eof s.0.type then some (s.0 ∷ []) else prepend s.0 more

-- Views that follow one another from `low` to `high` without overlap.
pub data InOrder : ℕ → List Token → ℕ → Type 0 where
  last : (low high : ℕ) → low ≤ high → InOrder low [] high
  later :
      (low middle high : ℕ) (t : Token) (ts : List Token)
      → low ≤ t.start
      → t.start + t.length ≤ middle
      → InOrder middle ts high
      → InOrder low (t ∷ ts) high

-- The calls come to the end of the text, and the views of their tokens follow one another in it.
pub record Tokenised (grants : Kernel) (calls : ℕ) (x : Lexer) (pool : StringPool) : Type 0 where
  pub found : List Token
  pub come : tokens grants calls x pool ≡ some found
  pub ordered : InOrder x.cursor found (x.cursor + length x.rest)
