-- ===== src/Optimizer/Pipeline.antt =====
-- `optimize_function` and `optimize_program` of src/optimizer/ana_ssa.cpp.
use anastasia.Base.{Bool, false, ◌||◌, List, [], ◌∷◌}
use anastasia.Ast.{BasicBlock, Function, Program}
use anastasia.Optimizer.Pass.{
  Pass, run_autovectorizer, run_stream_analysis, run_licm, run_mem2reg, AnaSsaIr,
}
use anastasia.Optimizer.Congruence.{run_gvn}
use anastasia.Optimizer.Lengths.{run_length_folding}
use anastasia.Optimizer.Scalars.{run_escape_analysis}

-- One pass after another.
unfoldable pub then_pass : Pass → Pass → Pass
then_pass p q c bs =
    let (changed, c1, bs1) = p c bs in let (also, c2, bs2) = q c1 bs1 in (changed || also, c2, bs2)

unfoldable pub optimize_blocks : Pass
unfolding then_pass
optimize_blocks = then_pass run_length_folding (
    then_pass run_escape_analysis (
      then_pass run_autovectorizer
        (then_pass run_stream_analysis (then_pass run_mem2reg (then_pass run_licm run_gvn)))))

-- `optimize_function`, on the blocks of the function.
unfoldable pub optimize_from : List BasicBlock → AnaSsaIr → Function → Bool × AnaSsaIr × Function
unfolding optimize_blocks
optimize_from [] c fn = (false, c, fn)
optimize_from (b ∷ bs) c fn =
    let (changed, c1, bs1) = optimize_blocks c (b ∷ bs) in (changed, c1, record fn { blocks = bs1 })

unfoldable pub optimize_function : AnaSsaIr → Function → Bool × AnaSsaIr × Function
unfolding optimize_from
optimize_function c fn = optimize_from fn.blocks c fn

unfoldable pub optimize_functions : AnaSsaIr → List Function → Bool × AnaSsaIr × List Function
unfolding optimize_function
optimize_functions c [] = (false, c, [])
optimize_functions c (fn ∷ fns) =
    let (changed, c1, fn') = optimize_function c fn in
    let (also, c2, fns') = optimize_functions c1 fns in (changed || also, c2, fn' ∷ fns')

unfoldable pub optimize_program : AnaSsaIr → Program → Bool × AnaSsaIr × Program
unfolding optimize_functions
optimize_program c prog =
    let (changed, c1, fns) = optimize_functions c prog.functions in
    (changed, c1, record prog { functions = fns })
