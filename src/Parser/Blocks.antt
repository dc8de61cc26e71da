-- ===== src/Parser/Blocks.antt =====
-- `parse_basic_block` and `parse_function` of src/frontend/ana_parser.cpp. A loop runs on fuel, and
-- is `none` without it.
use anastasia.Base.{
  ℕ, zero, suc, ◌%◌, ◌^◌, not, ◌||◌, Option, none, some, List, [], ◌∷◌, if◌then◌else◌,
}
use anastasia.Ast.{DataType, Instruction, BasicBlock, Function}
use anastasia.Frontend.DeadCode.{apply_dce}
use anastasia.Frontend.Fold.{optimize_instruction}
use anastasia.Lexer.Keywords.{
  codes, token_eof, token_fn, token_end_fn, token_registers, token_opcode, token_identifier,
  token_label, token_register, token_int_literal, token_lparen, token_rparen, token_colon,
  token_comma, token_arrow,
}
use anastasia.Parser.State.{Parser, is, advance, expect, token_text}
use anastasia.Parser.Instructions.{parse_instruction}

-- What a loop has read, and the parser behind it.
abbrev pub Outcome : Type 0 → Type 0
Outcome A = Option (A × Parser)

module _ {A B : Type 0} where
  abbrev pub read_map : (A → B) → Outcome A → Outcome B
  read_map f none = none
  read_map f (some (a, p)) = some (f a, p)

  abbrev pub read_then : Outcome A → (A → Parser → Outcome B) → Outcome B
  read_then none f = none
  read_then (some (a, p)) f = f a p

unfoldable pub block_insns : ℕ → Parser → Outcome (List Instruction)
unfolding parse_instruction optimize_instruction
block_insns zero p = none
block_insns (suc fuel) p =
    let (i, q) = parse_instruction p in
    let behind_insn = block_insns fuel q in
    let behind_token = block_insns fuel (advance p) in
    if is p token_end_fn || is p token_label || is p token_eof
    then some ([], p)
    else if is p token_opcode
    then read_map (λ is. optimize_instruction i ∷ is) behind_insn
    else behind_token

unfoldable pub parse_basic_block : ℕ → Parser → Outcome BasicBlock
unfolding block_insns
parse_basic_block fuel p =
    if is p token_label
    then read_map (λ is. record { label = token_text p; insns = is }) (block_insns fuel (advance p))
    else read_map (λ is. record { label = codes "entry"; insns = is }) (block_insns fuel p)

-- The loop over the parameters: their types.
unfoldable pub parse_params : ℕ → Parser → Outcome (List DataType)
parse_params zero p = none
parse_params (suc fuel) p =
    let q = expect token_colon "Expected :" (advance p) in
    let r = advance q in
    let behind_param = parse_params fuel (if is r token_comma then advance r else r) in
    let behind_token = parse_params fuel (advance p) in
    if is p token_rparen || is p token_eof
    then some ([], p)
    else if is p token_register || is p token_identifier
    then read_map (λ ts. q.current_tok.data_type ∷ ts) behind_param
    else behind_token

-- The loop over the blocks, with the `local_count` so far. `parse_basic_block` is never null.
unfoldable pub parse_body : ℕ → ℕ → Parser → Outcome (ℕ × List BasicBlock)
unfolding parse_basic_block apply_dce
parse_body zero count p = none
parse_body (suc fuel) count p =
    let q = advance p in
    let behind_count = parse_body fuel (q.current_tok.int_val % 2 ^ 32) (advance q) in
    let behind_directive = parse_body fuel count q in
    if is p token_end_fn || is p token_eof
    then some ((count, []), p)
    else if is p token_registers
    then if is q token_int_literal then behind_count else behind_directive
    else read_then (parse_basic_block (suc fuel) p)
        (λ b r. read_map (λ rest. (rest.0, apply_dce b ∷ rest.1)) (parse_body fuel count r))

-- `if (match(TOKEN_ARROW))`; the type of the result is not kept.
unfoldable pub skip_result : Parser → Parser
skip_result p = if is p token_arrow then advance (advance p) else p

-- A function without a name is null. The index of the last parameter is their number.
unfoldable pub parse_function : ℕ → Parser → Outcome (Option Function)
unfolding parse_params parse_body skip_result
parse_function fuel p =
    let q = expect token_fn "Expected .fn" p in
    let r = expect token_lparen "Expected (" (advance q) in
    if not (is q token_identifier)
    then some (none, q)
    else read_then (parse_params fuel r) (λ params s.
      read_map
        (λ body.
          some (record {
            name = token_text q;
            params = params;
            local_count = body.0;
            blocks = body.1;
          }))
        (read_then (parse_body fuel 0 (skip_result (expect token_rparen "Expected )" s)))
          (λ body t. some (body, expect token_end_fn "Expected .end_fn" t))))
