-- ===== src/Parser/Progress.antt =====
-- What every step of the parser of src/frontend/ana_parser.cpp keeps: it goes on in the text, and the
-- first error stays.
use Prim.Native.String.{String}
use anastasia.Base.{
  ℕ, ◌+◌, ◌≤◌, ◌<◌, ◌≡◌, ◌⊎◌, inl, inr, refl, ap, ◌∙◌, Bool, true, false, ◌==◌, if◌then◌else◌,
  arith,
}
use anastasia.Base.Lists.{length}
use anastasia.Lexer.Keywords.{TokenType, token_eof, token_error}
use anastasia.Lexer.Order.{next_token-Reads}
use anastasia.Parser.State.{Parser, is, token_code, fail_at, fail, read_token, advance, expect}

-- The tokens that may still come: one for each byte that is left, and the current one.
abbrev pub measure : Parser → ℕ
measure p = length p.lexer.rest + (if is p token_eof then 0 else 1)

-- From `p` to `q` no text comes back, and an error of `p` is the error of `q`.
pub record After (p q : Parser) : Type 0 where
  pub fewer : measure q ≤ measure p
  pub still : p.had_error ≡ true → q.had_error ≡ true
  pub message : p.had_error ≡ true → q.error_msg ≡ p.error_msg
  pub line : p.had_error ≡ true → q.error_line ≡ p.error_line

pub After-none : (p : Parser) → After p p
After-none p = record { fewer = omega arith; still = λ e. e; message = λ e. refl; line = λ e. refl }

pub After-trans : {p q r : Parser} → After p q → After q r → After p r
After-trans {p} {q} {r} a b =
    let c = a.fewer in
    let d = b.fewer in
    record {
      fewer = omega arith;
      still = λ e. b.still (a.still e);
      message = λ e. b.message (a.still e) ∙ a.message e;
      line = λ e. b.line (a.still e) ∙ a.line e;
    }

pub choose :
    {p : Parser} (b : Bool) (q r : Parser) → After p q → After p r → After p (if b then q else r)
choose true q r m n = m
choose false q r m n = n

pub fail_at-After : (line : ℕ) (msg : String) (p : Parser) → After p (fail_at line msg p)
unfolding fail_at
fail_at-After line msg p = failed p.had_error refl
  where
    failed :
        (b : Bool)
        → p.had_error ≡ b
        → After p
            (if b then p else record p { had_error = true; error_msg = msg; error_line = line })
    failed true e = After-none p
    failed false e = record {
      fewer = omega arith;
      still = λ f. refl;
      message = λ f. absurd (ground arith);
      line = λ f. absurd (ground arith);
    }

eof_code : (t : TokenType) → t ≡ token_eof → (token_code t == 0) ≡ true
eof_code t e = ap (λ s. token_code s == 0) e

-- Of the bytes left, and the current token, before (`m`, `c`) and behind (`n`, `b`) a token.
counts_down :
    (m n : ℕ) (b c : Bool)
    → (b ≡ true) ⊎ (n < m)
    → n ≤ m
    → (n + (if b then 0 else 1) ≤ m + (if c then 0 else 1))
      × (c ≡ false → n + (if b then 0 else 1) < m + (if c then 0 else 1))
counts_down m n true c h l = (ground arith, λ e. ground arith)
counts_down m n false c (inl e) l = absurd (ground arith)
counts_down m n false c (inr h) l = (ground arith, λ e. ground arith)

read_token-fewer :
    (p : Parser)
    → (measure (read_token p) ≤ measure p)
      × (is p token_eof ≡ false → measure (read_token p) < measure p)
unfolding read_token
read_token-fewer p =
    let r = next_token-Reads p.grants p.lexer p.pool in
    let q = read_token p in
    let a = r.moves.shorter in
    let progress : (is q token_eof ≡ true) ⊎ (length q.lexer.rest < length p.lexer.rest) =
      elim r.progress [ inl e ↦ inl (eof_code q.current_tok.type e) | inr l ↦ inr l ] in
    counts_down (length p.lexer.rest) (length q.lexer.rest) (is q token_eof) (is p token_eof)
      progress (omega arith)

read_token-After : (p : Parser) → After p (read_token p)
unfolding read_token
read_token-After p = record {
  fewer = (read_token-fewer p).0;
  still = λ e. e;
  message = λ e. refl;
  line = λ e. refl;
}

-- Reporting an invalid character leaves the text.
error_token-After :
    (q : Parser)
    → After q
        (if is q token_error then fail_at q.current_tok.line "Invalid character in source" q else q)
error_token-After q =
    choose (is q token_error) (fail_at q.current_tok.line "Invalid character in source" q) q
      (fail_at-After q.current_tok.line "Invalid character in source" q) (After-none q)

pub advance-After : (p : Parser) → After p (advance p)
unfolding advance
advance-After p = After-trans (read_token-After p) (error_token-After (read_token p))

-- Before the end, a token is passed over.
pub advance-fewer : (p : Parser) → is p token_eof ≡ false → measure (advance p) < measure p
unfolding advance
advance-fewer p e =
    let a = (read_token-fewer p).1 e in
    let b = (error_token-After (read_token p)).fewer in omega arith

pub expect-After : (t : TokenType) (msg : String) (p : Parser) → After p (expect t msg p)
unfolding expect
expect-After t msg p =
    choose (is p t) (advance p) (fail_at p.current_tok.line msg p) (advance-After p)
      (fail_at-After p.current_tok.line msg p)

pub fail-After : (msg : String) (p : Parser) → After p (fail msg p)
unfolding fail
fail-After msg p = fail_at-After p.error_line msg p
