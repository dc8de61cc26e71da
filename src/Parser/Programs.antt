-- ===== src/Parser/Programs.antt =====
-- `parse_program` of src/frontend/ana_parser.cpp: it comes to its end, and refuses a text with an error.
use anastasia.Base.{◌+◌, ◌≡◌, refl, ap, ◌∙◌, true, none, some, Option, arith, if◌then◌else◌}
use anastasia.Ast.{Program}
use anastasia.Frontend.Layout.{resolve_class_layouts}
use anastasia.Parser.State.{Parser}
use anastasia.Parser.Blocks.{Outcome, read_then}
use anastasia.Parser.Declarations.{accepted, parse_program}
use anastasia.Parser.Progress.{measure}
use anastasia.Parser.Loops.{Comes, Comes-then, Comes-now}
use anastasia.Parser.Total.{parse_declarations-Comes}

-- From any state of the parser, `parse_program` returns, with one step of its loops more than there
-- are bytes left and a token at hand. No text comes back on the way, and an error that had occurred
-- is still the one that is reported, with its line.
pub parse_program-Comes : (p : Parser) → Comes 0 p (parse_program (measure p + 1) p)
unfolding parse_program
parse_program-Comes p =
    Comes-then accepted (parse_declarations-Comes (measure p + 1) p (omega arith))
      (λ prog q l. Comes-now (if q.had_error then none else some (resolve_class_layouts prog)) q)

-- The program is null, and the report is that of `p`.
pub record Refused (p : Parser) (o : Outcome (Option Program)) : Type 0 where
  pub behind : Parser
  pub refused : o ≡ some (none, behind)
  pub same_message : behind.error_msg ≡ p.error_msg
  pub same_line : behind.error_line ≡ p.error_line

-- After an error, whatever text follows, `parse_program` returns null, and the message and the line
-- are those of that error.
pub parse_program-Refused :
    (p : Parser) → p.had_error ≡ true → Refused p (parse_program (measure p + 1) p)
unfolding parse_program
parse_program-Refused p e =
    let c = parse_declarations-Comes (measure p + 1) p (omega arith) in
    let f = c.after.still e in
    record {
      behind = c.behind;
      refused = ap (λ o. read_then o accepted) c.come ∙ rw f refl;
      same_message = c.after.message e;
      same_line = c.after.line e;
    }
