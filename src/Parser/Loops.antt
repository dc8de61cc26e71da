-- ===== src/Parser/Loops.antt =====
-- The loops of `parse_basic_block` and `parse_function` of src/frontend/ana_parser.cpp come to their
-- ends.
use anastasia.Base.{
  ℕ, zero, suc, ◌+◌, ◌≤◌, ◌<◌, ◌≡◌, refl, ap, ◌∙◌, Bool, true, false, ◌||◌, some, [], ◌∷◌,
  if◌then◌else◌, Bool-cases, inl, inr, subst, arith,
}
use anastasia.Frontend.Fold.{optimize_instruction}
use anastasia.Lexer.Keywords.{
  token_eof, token_end_fn, token_opcode, token_identifier, token_label, token_register,
  token_rparen, token_colon, token_comma,
}
use anastasia.Parser.State.{Parser, is, advance, expect}
use anastasia.Parser.Instructions.{parse_instruction}
use anastasia.Parser.Blocks.{
  Outcome, read_map, read_then, block_insns, parse_basic_block, parse_params,
}
use anastasia.Parser.Progress.{
  After, After-none, After-trans, choose, measure, advance-After, advance-fewer, expect-After,
}
use anastasia.Parser.Passed.{parse_instruction-After, parse_instruction-fewer}

-- From `p`, a result comes, at least `least` tokens are passed and the first error is kept.
pub record Comes {A : Type 0} (least : ℕ) (p : Parser) (o : Outcome A) : Type 0 where
  pub result : A
  pub behind : Parser
  pub come : o ≡ some (result, behind)
  pub after : After p behind
  pub passed : least + measure behind ≤ measure p

module _ {A B : Type 0} where
  pub Comes-map :
      {least : ℕ} {p : Parser} {o : Outcome A} (f : A → B)
      → Comes least p o
      → Comes least p (read_map f o)
  Comes-map f c = record {
    result = f c.result;
    behind = c.behind;
    come = ap (read_map f) c.come;
    after = c.after;
    passed = c.passed;
  }

  pub Comes-then :
      {least : ℕ} {p : Parser} {o : Outcome A} (f : A → Parser → Outcome B)
      → Comes least p o
      → ((a : A) (q : Parser) → least + measure q ≤ measure p → Comes 0 q (f a q))
      → Comes least p (read_then o f)
  Comes-then f c k =
      let d = k c.result c.behind c.passed in
      let a = c.passed in
      let b = d.passed in
      record {
        result = d.result;
        behind = d.behind;
        come = ap (λ o. read_then o f) c.come ∙ d.come;
        after = After-trans c.after d.after;
        passed = omega arith;
      }

module _ {A : Type 0} where
  pub Comes-now : (a : A) (p : Parser) → Comes 0 p (some (a, p))
  Comes-now a p = record {
    result = a;
    behind = p;
    come = refl;
    after = After-none p;
    passed = omega arith;
  }

  -- Behind some tokens.
  pub Comes-from :
      {least more : ℕ} {p q : Parser} {o : Outcome A}
      → After p q
      → least + measure q ≤ measure p
      → Comes more q o
      → Comes least p o
  Comes-from a l c =
      let b = c.passed in
      record {
        result = c.result;
        behind = c.behind;
        come = c.come;
        after = After-trans a c.after;
        passed = omega arith;
      }

  pub branch :
      {least : ℕ} {p : Parser} (b : Bool) (s t : Outcome A)
      → (b ≡ true → Comes least p s)
      → (b ≡ false → Comes least p t)
      → Comes least p (if b then s else t)
  branch true s t f g = f refl
  branch false s t f g = g refl

-- The loop over the instructions passes a token, unless it stops at once.
abbrev stops : Parser → Bool
stops p = is p token_end_fn || is p token_label || is p token_eof

block_insns-Comes :
    (fuel : ℕ) (p : Parser)
    → measure p < fuel
    → Comes (if stops p then 0 else 1) p (block_insns fuel p)
unfolding block_insns
block_insns-Comes zero p h = absurd (omega arith)
block_insns-Comes (suc fuel) p h = elim (Bool-cases (stops p)) [
  | inl e ↦ rw e (Comes-now [] p)
  | inr e ↦
      let more : is p token_eof ≡ false = ground arith in
      let r = parse_instruction p in
      let a = parse_instruction-fewer p more in
      let b = advance-fewer p more in
      rw e (
        branch (is p token_opcode) _ _
          (λ _.
            Comes-map (λ is. optimize_instruction r.0 ∷ is)
              (Comes-from (parse_instruction-After p) (omega arith)
                (block_insns-Comes fuel r.1 (omega arith))))
          (λ _.
            Comes-from (advance-After p) (omega arith)
              (block_insns-Comes fuel (advance p) (omega arith))))
]

-- A block passes a token where a function goes on.
pub parse_basic_block-Comes :
    (fuel : ℕ) (p : Parser)
    → measure p < fuel
    → (is p token_end_fn || is p token_eof) ≡ false
    → Comes 1 p (parse_basic_block fuel p)
unfolding parse_basic_block
parse_basic_block-Comes fuel p h e =
    let more : is p token_eof ≡ false = ground arith in
    let b = advance-fewer p more in
    branch (is p token_label) _ _
      (λ _. Comes-map _ (
        Comes-from (advance-After p) (omega arith)
          (block_insns-Comes fuel (advance p) (omega arith))))
      (λ l.
        let on : stops p ≡ false = ground arith in
        let c = block_insns-Comes fuel p h in
        Comes-map _ (subst (λ d. Comes (if d then 0 else 1) p (block_insns fuel p)) on c))

pub parse_params-Comes :
    (fuel : ℕ) (p : Parser) → measure p < fuel → Comes 0 p (parse_params fuel p)
unfolding parse_params
parse_params-Comes zero p h = absurd (omega arith)
parse_params-Comes (suc fuel) p h =
    branch (is p token_rparen || is p token_eof) _ _ (λ _. Comes-now [] p)
      (λ e.
        let more : is p token_eof ≡ false = ground arith in
        let a = advance-fewer p more in
        let q = expect token_colon "Expected :" (advance p) in
        let r = advance q in
        let s = if is r token_comma then advance r else r in
        let on : After p s = After-trans (advance-After p) (
          After-trans (expect-After token_colon "Expected :" (advance p)) (
            After-trans (advance-After q)
              (choose (is r token_comma) (advance r) r (advance-After r) (After-none r)))) in
        let b = (expect-After token_colon "Expected :" (advance p)).fewer in
        let c = (advance-After q).fewer in
        let d = (choose (is r token_comma) (advance r) r (advance-After r) (After-none r)).fewer in
        branch (is p token_register || is p token_identifier) _ _
          (λ _. Comes-map _ (Comes-from on (omega arith) (parse_params-Comes fuel s (omega arith))))
          (λ _.
            Comes-from (advance-After p) (omega arith)
              (parse_params-Comes fuel (advance p) (omega arith))))
