-- ===== src/Encoder/Trace.antt =====
-- Where the branches of a session with the encoder of src/backend/ana_encoder.cpp stand and where its
-- labels are bound, read off the calls alone, and that the encoder has recorded just that.
use anastasia.Base.{ℕ, zero, suc, ◌+◌, Option, none, some, List, [], ◌∷◌, ◌++◌}
use anastasia.Base.Lists.{length}
use anastasia.Encoder.Prefix.{bytes}
use anastasia.Encoder.Session.{Call}

-- A branch: its opcode bytes, the place of its four-byte displacement, and the label that the call names.
pub record Branch : Type 0 where
  pub opcode : List ℕ
  pub field : ℕ
  pub label_id : ℕ

-- The labels that a session has made, in order, with the place of the last binding of each; the
-- branches that it has written, and the bytes of the code, with zeros for the displacements.
pub record Trace : Type 0 where
  pub places : List (Option ℕ)
  pub branches : List Branch
  pub code : List ℕ

abbrev pub nothing : Trace
nothing = record { places = []; branches = []; code = [] }

abbrev pub placed_at : List (Option ℕ) → ℕ → ℕ → List (Option ℕ)
placed_at [] i here = []
placed_at (p ∷ ps) zero here = some here ∷ ps
placed_at (p ∷ ps) (suc i) here = p ∷ placed_at ps i here

abbrev pub with_branch : List ℕ → ℕ → Trace → Trace
with_branch opcode i t = record t {
  branches =
      t.branches
      ++ record { opcode = opcode; field = length t.code + length opcode; label_id = i } ∷ [];
  code = (t.code ++ opcode) ++ (0 ∷ 0 ∷ 0 ∷ 0 ∷ []);
}

-- The processor's near jumps: E9, and 0F with the condition.
unfoldable pub traced : Call → Trace → Trace
traced (Call.emission c) t = record t { code = t.code ++ bytes c }
traced Call.label t = record t { places = t.places ++ none ∷ [] }
traced Call.restart t = nothing
traced (Call.bind i) t = record t { places = placed_at t.places i (length t.code) }
traced (Call.jmp i) t = with_branch (0xE9 ∷ []) i t
traced (Call.je i) t = with_branch (0x0F ∷ 0x84 ∷ []) i t
traced (Call.jne i) t = with_branch (0x0F ∷ 0x85 ∷ []) i t
traced (Call.jl i) t = with_branch (0x0F ∷ 0x8C ∷ []) i t
traced (Call.jge i) t = with_branch (0x0F ∷ 0x8D ∷ []) i t
traced (Call.jz i) t = with_branch (0x0F ∷ 0x84 ∷ []) i t
traced (Call.jnz i) t = with_branch (0x0F ∷ 0x85 ∷ []) i t

unfoldable pub trace_from : List Call → Trace → Trace
trace_from [] t = t
trace_from (c ∷ cs) t = trace_from cs (traced c t)

abbrev pub trace : List Call → Trace
trace cs = trace_from cs nothing
