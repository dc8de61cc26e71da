-- ===== src/Parser/Declarations.antt =====
-- `parse_class` and `parse_program` of src/frontend/ana_parser.cpp.
use anastasia.Base.{ℕ, zero, suc, Bool, not, ◌||◌, Option, none, some, [], ◌∷◌, if◌then◌else◌}
use anastasia.Ast.{ClassDecl, Function, Program}
use anastasia.Frontend.Layout.{declare_field, open_class, resolve_class_layouts}
use anastasia.Lexer.Keywords.{
  token_eof, token_fn, token_class, token_end_class, token_field, token_identifier, token_label,
  token_colon, token_type,
}
use anastasia.Parser.State.{Parser, is, advance, expect, fail, token_text}
use anastasia.Parser.Blocks.{Outcome, read_map, read_then, parse_function}

-- The colon that the lexer has not taken into a label.
unfoldable pub field_colon : Bool → Parser → Parser
field_colon taken p = if taken then p else expect token_colon "Expected : after field name" p

-- The loop over the fields of a class. A field without a name or a type makes the class null.
unfoldable pub parse_fields : ℕ → ClassDecl → Parser → Outcome (Option ClassDecl)
unfolding field_colon declare_field
parse_fields zero cls p = none
parse_fields (suc fuel) cls p =
    let q = advance p in
    let r = field_colon (is q token_label) (advance q) in
    let behind_field =
      parse_fields fuel (declare_field (token_text q) r.current_tok.data_type cls) (advance r) in
    let behind_token = parse_fields fuel cls q in
    if is p token_end_class || is p token_eof
    then some (some cls, p)
    else if not (is p token_field)
    then behind_token
    else if not (is q token_label || is q token_identifier)
    then some (none, fail "Expected field name after .field" q)
    else if not (is r token_type)
    then some (none, fail "Expected field type" r)
    else behind_field

abbrev pub end_class : Option ClassDecl → Parser → Outcome (Option ClassDecl)
end_class none p = some (none, p)
end_class (some cls) p = some (some cls, expect token_end_class "Expected .end_class" p)

unfoldable pub parse_class : ℕ → Parser → Outcome (Option ClassDecl)
unfolding parse_fields
parse_class fuel p =
    let q = expect token_class "Expected .class" p in
    if not (is q token_identifier)
    then some (none, fail "Expected class name after .class" q)
    else read_then (parse_fields fuel (open_class (token_text q)) (advance q)) end_class

abbrev pub with_class : Option ClassDecl → Program → Program
with_class none prog = prog
with_class (some c) prog = record prog { classes = c ∷ prog.classes }

abbrev pub with_function : Option Function → Program → Program
with_function none prog = prog
with_function (some f) prog = record prog { functions = f ∷ prog.functions }

-- The loop of `parse_program`.
unfoldable pub parse_declarations : ℕ → Parser → Outcome Program
unfolding parse_class parse_function
parse_declarations zero p = none
parse_declarations (suc fuel) p =
    let behind_token = parse_declarations fuel (advance p) in
    if is p token_eof
    then some (record { classes = []; functions = [] }, p)
    else if is p token_class
    then read_then (parse_class (suc fuel) p)
        (λ c q. read_map (with_class c) (parse_declarations fuel q))
    else if is p token_fn
    then read_then (parse_function (suc fuel) p)
        (λ f q. read_map (with_function f) (parse_declarations fuel q))
    else behind_token

-- The program is null after an error.
abbrev pub accepted : Program → Parser → Outcome (Option Program)
accepted prog p = some (if p.had_error then none else some (resolve_class_layouts prog), p)

unfoldable pub parse_program : ℕ → Parser → Outcome (Option Program)
unfolding parse_declarations
parse_program fuel p = read_then (parse_declarations fuel p) accepted
