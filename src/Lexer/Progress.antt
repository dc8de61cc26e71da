-- ===== src/Lexer/Progress.antt =====
-- Every token of src/frontend/ana_lexer.cpp but the end of the text takes at least one byte, so the
-- lexer comes to the end.
use anastasia.Base.{
  ℕ, ◌+◌, ◌≤◌, ◌≡◌, ◌≢◌, inl, inr, refl, Bool, true, false, not, ◌&&◌, ◌||◌, List, [], ◌∷◌, leb,
  ◌==◌, if◌then◌else◌, Bool-cases, arith,
}
use anastasia.Base.Lists.{length}
use anastasia.Lexer.Scan.{
  Lexer, at, peek, advance, skip_from, span_from, next_line, is_blank, starts_comment, literal_from,
}

-- From `x` to `y` at least `least` bytes are passed, and the position counts them.
pub record Moves (least : ℕ) (x y : Lexer) : Type 0 where
  pub passed : ℕ
  pub enough : least ≤ passed
  pub shorter : length x.rest ≡ passed + length y.rest
  pub counted : y.cursor ≡ x.cursor + passed

module _ {x y z : Lexer} where
  pub Moves-trans : (n : ℕ) → Moves 1 x y → Moves n y z → Moves 1 x z
  Moves-trans n p q =
      let a = p.enough in
      let b = q.enough in
      let c = p.shorter in
      let d = q.shorter in
      let e = p.counted in
      let f = q.counted in
      record {
        passed = p.passed + q.passed;
        enough = omega arith;
        shorter = omega arith;
        counted = omega arith;
      }

pub Moves-weaken : {x y : Lexer} → Moves 1 x y → Moves 0 x y
Moves-weaken m = record {
  passed = m.passed;
  enough = omega arith;
  shorter = m.shorter;
  counted = m.counted;
}

pub Moves-none : (x : Lexer) → Moves 0 x x
Moves-none x = record {
  passed = 0;
  enough = omega arith;
  shorter = omega arith;
  counted = omega arith;
}

-- A property of both branches holds of a conditional.
choose :
    {x : Lexer} (b : Bool) {y z : Lexer}
    → Moves 0 x y
    → Moves 0 x z
    → Moves 0 x (if b then y else z)
choose true p q = p
choose false p q = q

pub advance-Moves : (x : Lexer) → peek x ≢ 0 → Moves 1 x (advance x)
unfolding advance
advance-Moves x n = advanced x.rest x.cursor x.line n
  where
    advanced :
        (cs : List ℕ) (k l : ℕ) → peek (at cs k l) ≢ 0 → Moves 1 (at cs k l) (advance (at cs k l))
    advanced [] k l n = absurd (n refl)
    advanced (c ∷ cs) k l n =
        let e : (c == 0) ≡ false = ground arith in
        rw e (record {
          passed = 1;
          enough = omega arith;
          shorter = omega arith;
          counted = omega arith;
        })

-- One byte and then some.
pub Moves-cons :
    (c : ℕ) (cs : List ℕ) (k l l' : ℕ) (y : Lexer)
    → Moves 0 (at cs (k + 1) l') y
    → Moves 0 (at (c ∷ cs) k l) y
Moves-cons c cs k l l' y p =
    let a = p.shorter in
    let b = p.counted in
    record {
      passed = p.passed + 1;
      enough = omega arith;
      shorter = omega arith;
      counted = omega arith;
    }

pub skip_from-Moves :
    (inside : Bool) (cs : List ℕ) (k l : ℕ) → Moves 0 (at cs k l) (skip_from inside cs k l)
unfolding skip_from
skip_from-Moves inside [] k l = Moves-none (at [] k l)
skip_from-Moves inside (c ∷ cs) k l =
    let l' = next_line c l in
    let into =
      Moves-cons c cs k l l' (skip_from true cs (k + 1) l') (skip_from-Moves true cs (k + 1) l') in
    let out =
      Moves-cons c cs k l l' (skip_from false cs (k + 1) l')
        (skip_from-Moves false cs (k + 1) l') in
    let stay = Moves-none (at (c ∷ cs) k l) in
    choose (inside && not (c == b'\n' || c == 0)) into
      (choose (is_blank c) out (choose (starts_comment c) into stay))

pub span_from-Moves :
    (p : ℕ → Bool) (cs : List ℕ) (k l : ℕ) → Moves 0 (at cs k l) (span_from p cs k l).1
unfolding span_from
span_from-Moves p [] k l = Moves-none (at [] k l)
span_from-Moves p (c ∷ cs) k l = elim (Bool-cases (p c)) [
  | inl e ↦
      rw e (Moves-cons c cs k l l (span_from p cs (k + 1) l).1 (span_from-Moves p cs (k + 1) l))
  | inr e ↦ rw e (Moves-none (at (c ∷ cs) k l))
]

-- A first character in the class is passed.
pub span_from-Moves_first :
    (p : ℕ → Bool) (cs : List ℕ) (k l : ℕ)
    → p (peek (at cs k l)) ≡ true
    → peek (at cs k l) ≢ 0
    → Moves 1 (at cs k l) (span_from p cs k l).1
unfolding span_from
span_from-Moves_first p [] k l e n = absurd (n refl)
span_from-Moves_first p (c ∷ cs) k l e n =
    let more = span_from-Moves p cs (k + 1) l in
    let a = more.shorter in
    let b = more.counted in
    rw e (record {
      passed = more.passed + 1;
      enough = omega arith;
      shorter = omega arith;
      counted = omega arith;
    })

chosen :
    {x : Lexer} (b : Bool) (s t : List ℕ × Lexer)
    → Moves 0 x s.1
    → Moves 0 x t.1
    → Moves 0 x (if b then s else t).1
chosen true s t p q = p
chosen false s t p q = q

pub literal_from-Moves : (cs : List ℕ) (n k l : ℕ) → Moves 0 (at cs k l) (literal_from cs n k l).1
unfolding literal_from
literal_from-Moves [] n k l = Moves-none (at [] k l)
literal_from-Moves (c ∷ []) n k l =
    let stay = Moves-none (at (c ∷ []) k l) in
    let passed_one : (l' : ℕ) → Moves 0 (at (c ∷ []) k l) (at [] (k + 1) l') =
      λ l'. Moves-cons c [] k l l' (at [] (k + 1) l') (Moves-none (at [] (k + 1) l')) in
    chosen (c == b'"' || c == 0 || leb 2047 n) _ _ stay
      (chosen (c == b'\\') _ _ (passed_one l) (passed_one (next_line c l)))
literal_from-Moves (c ∷ e ∷ cs) n k l =
    let plain = literal_from-Moves (e ∷ cs) (n + 1) (k + 1) (next_line c l) in
    let escape = literal_from-Moves cs (n + 1) (k + 2) (next_line e l) in
    let a = escape.shorter in
    let b = escape.counted in
    chosen (c == b'"' || c == 0 || leb 2047 n) _ _ (Moves-none (at (c ∷ e ∷ cs) k l)) (
      chosen (not (c == b'\\')) _ _
        (Moves-cons c (e ∷ cs) k l (next_line c l)
          (literal_from (e ∷ cs) (n + 1) (k + 1) (next_line c l)).1 plain)
        (chosen (e == 0) _ _
          (record {
            passed = 1;
            enough = omega arith;
            shorter = omega arith;
            counted = omega arith;
          })
          (record {
            passed = escape.passed + 2;
            enough = omega arith;
            shorter = omega arith;
            counted = omega arith;
          })))
