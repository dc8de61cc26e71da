-- ===== src/Parser/Kept.antt =====
-- Every operand that the parser of src/frontend/ana_parser.cpp reads goes on in the text and keeps the
-- first error.
use anastasia.Base.{Bool, true, false, ◌||◌, if◌then◌else◌}
use anastasia.Ast.{Operand, Instruction}
use anastasia.Lexer.Keywords.{
  TokenType, token_identifier, token_label, token_register, token_int_literal, token_lbracket,
  token_rbracket, token_comma, token_plus, token_likely, token_unlikely, token_string_literal,
}
use anastasia.Parser.State.{Parser, is, advance}
use anastasia.Parser.Operands.{
  Reading, comma, destination, bare_destination, source1_register, source1_comma, source1_value,
  source1_const, source2_register, source2_const, source2_value, literal, target, after, hint,
  memory, memory_dest, memory_source, then_comma,
}
use anastasia.Parser.Instructions.{checked, arithmetic, store_register, slot}
use anastasia.Parser.Progress.{
  After, After-none, After-trans, advance-After, expect-After, fail-After,
}

pub choose_reading :
    {p : Parser} (b : Bool) (s t : Reading)
    → After p s.1
    → After p t.1
    → After p (if b then s else t).1
choose_reading true s t m n = m
choose_reading false s t m n = n

-- The shape of an optional token.
taken :
    (b : Bool) (i j : Instruction) (p q : Parser)
    → After p q
    → After p (if◌then◌else◌ {A = Reading} b (j, q) (i, p)).1
taken true i j p q m = m
taken false i j p q m = After-none p

comma-After : (p : Parser) → After p (comma p)
comma-After p = expect-After token_comma "Expected ," p

passed_comma : (p : Parser) → After p (comma (advance p))
passed_comma p = After-trans (advance-After p) (comma-After (advance p))

pub destination-After : (r : Reading) → After r.1 (destination r).1
unfolding destination
destination-After (i, p) = taken (is p token_register) i _ p _ (passed_comma p)

pub bare_destination-After : (r : Reading) → After r.1 (bare_destination r).1
unfolding bare_destination
bare_destination-After (i, p) = taken (is p token_register) i _ p _ (advance-After p)

pub source1_register-After : (r : Reading) → After r.1 (source1_register r).1
unfolding source1_register
source1_register-After (i, p) = taken (is p token_register) i _ p _ (advance-After p)

pub source1_comma-After : (r : Reading) → After r.1 (source1_comma r).1
unfolding source1_comma
source1_comma-After (i, p) = taken (is p token_register) i _ p _ (passed_comma p)

pub source1_const-After : (r : Reading) → After r.1 (source1_const r).1
unfolding source1_const
source1_const-After (i, p) = taken (is p token_int_literal) i _ p _ (advance-After p)

pub source2_register-After : (r : Reading) → After r.1 (source2_register r).1
unfolding source2_register
source2_register-After (i, p) = taken (is p token_register) i _ p _ (advance-After p)

source2_const-After : (r : Reading) → After r.1 (source2_const r).1
unfolding source2_const
source2_const-After (i, p) = taken (is p token_int_literal) i _ p _ (advance-After p)

pub literal-After : (r : Reading) → After r.1 (literal r).1
unfolding literal
literal-After (i, p) = taken (is p token_string_literal) i _ p _ (advance-After p)

pub slot-After : (r : Reading) → After r.1 (slot r).1
unfolding slot
slot-After (i, p) = taken (is p token_int_literal) i _ p _ (advance-After p)

pub source1_value-After : (r : Reading) → After r.1 (source1_value r).1
unfolding source1_value
source1_value-After (i, p) =
    choose_reading (is p token_register) _ _ (source1_register-After (i, p))
      (source1_const-After (i, p))

pub source2_value-After : (r : Reading) → After r.1 (source2_value r).1
unfolding source2_value
source2_value-After (i, p) =
    choose_reading (is p token_register) _ _ (source2_register-After (i, p))
      (source2_const-After (i, p))

pub target-After : (r : Reading) → After r.1 (target r).1
unfolding target
target-After (i, p) = taken (is p token_identifier || is p token_label) i _ p _ (advance-After p)

pub hint-After : (r : Reading) → After r.1 (hint r).1
unfolding hint
hint-After (i, p) =
    choose_reading (is p token_likely) _ _ (advance-After p)
      (taken (is p token_unlikely) i _ p _ (advance-After p))

pub after-After :
    (t : TokenType) (f : Reading → Reading)
    → ((r : Reading) → After r.1 (f r).1)
    → (r : Reading) → After r.1 (after t f r).1
after-After t f h (i, p) =
    choose_reading (is p t) _ _ (After-trans (advance-After p) (h (i, advance p))) (After-none p)

memory-After : (p : Parser) → After p (memory p).1
unfolding memory
memory-After p =
    let q = advance p in
    let r = advance q in
    chosen (is q token_plus) _ _
      (After-trans (After-trans (advance-After p) (After-trans (advance-After q) (advance-After r)))
        (expect-After token_rbracket "Expected ]" (advance r)))
      (After-trans (advance-After p) (expect-After token_rbracket "Expected ]" q))
  where
    chosen :
        (b : Bool) (s t : Operand × Parser)
        → After p s.1
        → After p t.1
        → After p (if b then s else t).1
    chosen true s t m n = m
    chosen false s t m n = n

pub memory_dest-After : (r : Reading) → After r.1 (memory_dest r).1
unfolding memory_dest
memory_dest-After (i, p) = memory-After p

pub memory_source-After : (r : Reading) → After r.1 (memory_source r).1
unfolding memory_source
memory_source-After (i, p) = memory-After p

pub then_comma-After : (r : Reading) → After r.1 (then_comma r).1
unfolding then_comma
then_comma-After (i, p) = comma-After p

checked-After : (ok : Bool) (r : Reading) → After r.1 (checked ok r).1
unfolding checked
checked-After ok (i, p) =
    choose_reading ok _ _ (After-none p) (fail-After "Missing operand in arithmetic instruction" p)

pub arithmetic-After : (r : Reading) → After r.1 (arithmetic r).1
unfolding arithmetic
arithmetic-After r =
    let r1 = destination r in
    After-trans (After-trans (destination-After r) (source1_value-After r1)) (
      After-trans (checked-After _ (source1_value r1))
        (after-After token_comma source2_value source2_value-After _))

pub store_register-After : (r : Reading) → After r.1 (store_register r).1
unfolding store_register
store_register-After (i, p) =
    let q = comma (advance p) in
    choose_reading (is q token_lbracket) _ _
      (After-trans (passed_comma p) (After-trans (advance-After q) (memory-After (advance q))))
      (passed_comma p)
