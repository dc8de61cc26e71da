-- ===== src/Parser/Total.antt =====
-- `parse_function`, `parse_class` and `parse_program` of src/frontend/ana_parser.cpp come to their ends.
use Prim.Native.String.{String}
use anastasia.Base.{
  ℕ, zero, suc, ◌<◌, ◌≡◌, Bool, true, false, not, ◌||◌, Option, none, some, [], ◌%◌, ◌^◌, arith,
}
use anastasia.Ast.{ClassDecl}
use anastasia.Frontend.Layout.{declare_field, open_class}
use anastasia.Lexer.Keywords.{
  TokenType, token_eof, token_fn, token_class, token_end_class, token_field, token_end_fn,
  token_registers, token_identifier, token_label, token_int_literal, token_lparen, token_rparen,
  token_colon, token_type, token_arrow,
}
use anastasia.Parser.State.{Parser, is, advance, expect, fail, token_text}
use anastasia.Parser.Blocks.{read_then, parse_body, skip_result, parse_function}
use anastasia.Parser.Declarations.{
  field_colon, parse_fields, end_class, parse_class, parse_declarations,
}
use anastasia.Parser.Progress.{
  After, After-none, After-trans, choose, measure, advance-After, advance-fewer, expect-After,
  fail-After,
}
use anastasia.Parser.Loops.{
  Comes, Comes-map, Comes-then, Comes-now, Comes-from, branch, parse_basic_block-Comes,
  parse_params-Comes,
}

parse_body-Comes :
    (fuel count : ℕ) (p : Parser) → measure p < fuel → Comes 0 p (parse_body fuel count p)
unfolding parse_body
parse_body-Comes zero count p h = absurd (omega arith)
parse_body-Comes (suc fuel) count p h =
    let q = advance p in
    branch (is p token_end_fn || is p token_eof) _ _ (λ _. Comes-now (count, []) p)
      (λ e.
        let more : is p token_eof ≡ false = ground arith in
        let a = advance-fewer p more in
        let b = (advance-After q).fewer in
        branch (is p token_registers) _ _
          (λ _.
            branch (is q token_int_literal) _ _
              (λ _.
                Comes-from (After-trans (advance-After p) (advance-After q)) (omega arith) (
                  parse_body-Comes fuel (q.current_tok.int_val % 2 ^ 32) (advance q) (omega arith)))
              (λ _.
                Comes-from (advance-After p) (omega arith)
                  (parse_body-Comes fuel count q (omega arith))))
          (λ _. Comes-from (After-none p) (omega arith) (
            Comes-then _ (parse_basic_block-Comes (suc fuel) p h e)
              (λ b r l. Comes-map _ (parse_body-Comes fuel count r (omega arith))))))

skip_result-After : (p : Parser) → After p (skip_result p)
unfolding skip_result
skip_result-After p =
    choose (is p token_arrow) _ _ (After-trans (advance-After p) (advance-After (advance p)))
      (After-none p)

-- A declaration passes its keyword.
expect-fewer :
    (t : TokenType) (msg : String) (p : Parser)
    → is p t ≡ true
    → is p token_eof ≡ false
    → measure (expect t msg p) < measure p
unfolding expect
expect-fewer t msg p e more = rw e (advance-fewer p more)

-- A function behind its parameters.
parse_rest-Comes :
    (fuel : ℕ) (p : Parser)
    → measure p < fuel
    → Comes 0 p (
        read_then
          (parse_body fuel 0 (skip_result (expect token_rparen "Expected )" p)))
          (λ body t. some (body, expect token_end_fn "Expected .end_fn" t)))
parse_rest-Comes fuel p h =
    let q = expect token_rparen "Expected )" p in
    let r = skip_result q in
    let a = (expect-After token_rparen "Expected )" p).fewer in
    let b = (skip_result-After q).fewer in
    Comes-from (After-trans (expect-After token_rparen "Expected )" p) (skip_result-After q))
      (omega arith)
      (Comes-then _ (parse_body-Comes fuel 0 r (omega arith)) (λ body t l.
        let c = (expect-After token_end_fn "Expected .end_fn" t).fewer in
        Comes-from (expect-After token_end_fn "Expected .end_fn" t) (omega arith)
          (Comes-now body (expect token_end_fn "Expected .end_fn" t))))

pub parse_function-Comes :
    (fuel : ℕ) (p : Parser)
    → measure p < fuel
    → is p token_fn ≡ true
    → Comes 1 p (parse_function fuel p)
unfolding parse_function
parse_function-Comes fuel p h e =
    let q = expect token_fn "Expected .fn" p in
    let r = expect token_lparen "Expected (" (advance q) in
    let more : is p token_eof ≡ false = ground arith in
    let named = expect-After token_fn "Expected .fn" p in
    let opened =
      After-trans (advance-After q) (expect-After token_lparen "Expected (" (advance q)) in
    let a = expect-fewer token_fn "Expected .fn" p e more in
    let b = opened.fewer in
    branch (not (is q token_identifier)) _ _
      (λ _. Comes-from named (omega arith) (Comes-now none q))
      (λ _. Comes-from (After-trans named opened) (omega arith) (
        Comes-then _ (parse_params-Comes fuel r (omega arith))
          (λ params s l. Comes-map _ (parse_rest-Comes fuel s (omega arith)))))

field_colon-After : (b : Bool) (p : Parser) → After p (field_colon b p)
unfolding field_colon
field_colon-After b p =
    choose b _ _ (After-none p) (expect-After token_colon "Expected : after field name" p)

-- A result without a value, behind an error.
failed : (p : Parser) (msg : String) → Comes {A = Option ClassDecl} 0 p (some (none, fail msg p))
failed p msg =
    let a = (fail-After msg p).fewer in
    Comes-from (fail-After msg p) (omega arith) (Comes-now none (fail msg p))

parse_fields-Comes :
    (fuel : ℕ) (cls : ClassDecl) (p : Parser)
    → measure p < fuel
    → Comes 0 p (parse_fields fuel cls p)
unfolding parse_fields
parse_fields-Comes zero cls p h = absurd (omega arith)
parse_fields-Comes (suc fuel) cls p h =
    let q = advance p in
    let r = field_colon (is q token_label) (advance q) in
    branch (is p token_end_class || is p token_eof) _ _ (λ _. Comes-now (some cls) p)
      (λ e.
        let more : is p token_eof ≡ false = ground arith in
        let a = advance-fewer p more in
        let name =
          After-trans (advance-After q) (field_colon-After (is q token_label) (advance q)) in
        let to_name = After-trans (advance-After p) name in
        let b = name.fewer in
        let c = (advance-After r).fewer in
        branch (not (is p token_field)) _ _
          (λ _.
            Comes-from (advance-After p) (omega arith)
              (parse_fields-Comes fuel cls q (omega arith)))
          (λ _.
            branch (not (is q token_label || is q token_identifier)) _ _
              (λ _.
                Comes-from (advance-After p) (omega arith)
                  (failed q "Expected field name after .field"))
              (λ _.
                branch (not (is r token_type)) _ _
                  (λ _. Comes-from to_name (omega arith) (failed r "Expected field type"))
                  (λ _. Comes-from (After-trans to_name (advance-After r)) (omega arith) (
                    parse_fields-Comes fuel
                      (declare_field (token_text q) r.current_tok.data_type cls) (advance r)
                      (omega arith))))))

end_class-Comes : (cls : Option ClassDecl) (p : Parser) → Comes 0 p (end_class cls p)
end_class-Comes none p = Comes-now none p
end_class-Comes (some cls) p =
    let a = (expect-After token_end_class "Expected .end_class" p).fewer in
    Comes-from (expect-After token_end_class "Expected .end_class" p) (omega arith)
      (Comes-now (some cls) (expect token_end_class "Expected .end_class" p))

parse_class-Comes :
    (fuel : ℕ) (p : Parser)
    → measure p < fuel
    → is p token_class ≡ true
    → Comes 1 p (parse_class fuel p)
unfolding parse_class
parse_class-Comes fuel p h e =
    let q = expect token_class "Expected .class" p in
    let more : is p token_eof ≡ false = ground arith in
    let a = expect-fewer token_class "Expected .class" p e more in
    let b = (advance-After q).fewer in
    let keyword = expect-After token_class "Expected .class" p in
    branch (not (is q token_identifier)) _ _
      (λ _. Comes-from keyword (omega arith) (failed q "Expected class name after .class"))
      (λ _. Comes-from (After-trans keyword (advance-After q)) (omega arith) (
        Comes-then _ (parse_fields-Comes fuel (open_class (token_text q)) (advance q) (omega arith))
          (λ cls r _. end_class-Comes cls r)))

pub parse_declarations-Comes :
    (fuel : ℕ) (p : Parser) → measure p < fuel → Comes 0 p (parse_declarations fuel p)
unfolding parse_declarations
parse_declarations-Comes zero p h = absurd (omega arith)
parse_declarations-Comes (suc fuel) p h =
    branch (is p token_eof) _ _ (λ _. Comes-now (record { classes = []; functions = [] }) p)
      (λ more.
        let a = advance-fewer p more in
        branch (is p token_class) _ _
          (λ e. Comes-from (After-none p) (omega arith) (
            Comes-then _ (parse_class-Comes (suc fuel) p h e)
              (λ c q l. Comes-map _ (parse_declarations-Comes fuel q (omega arith)))))
          (λ _.
            branch (is p token_fn) _ _
              (λ e. Comes-from (After-none p) (omega arith) (
                Comes-then _ (parse_function-Comes (suc fuel) p h e)
                  (λ f q l. Comes-map _ (parse_declarations-Comes fuel q (omega arith)))))
              (λ _.
                Comes-from (advance-After p) (omega arith)
                  (parse_declarations-Comes fuel (advance p) (omega arith)))))
