-- ===== src/Encoder/TraceShape.antt =====
-- How the branches of a session with the encoder of src/backend/ana_encoder.cpp lie in the code.
use anastasia.Base.{
  ℕ, zero, suc, ◌+◌, ◌-◌, ◌≤◌, ◌≡◌, refl, ap, ◌∙◌, Option, none, some, List, [], ◌∷◌, ◌++◌, arith,
}
use anastasia.Base.Lists.{length, length-append, get_elem?, take, slice, slice-append}
use anastasia.Encoder.Prefix.{bytes}
use anastasia.Encoder.Session.{Call}
use anastasia.Encoder.Trace.{Branch, Trace, nothing, placed_at, with_branch, traced, trace_from}

-- Behind `lo` the branches stand one behind the other in the code, each with its opcode.
abbrev pub Written : ℕ → List Branch → List ℕ → Type 0
Written lo [] code = lo ≤ length code
Written lo (b ∷ bs) code =
    (lo + length b.opcode ≤ b.field)
    × (slice code (b.field - length b.opcode) (length b.opcode) ≡ b.opcode)
    × Written (b.field + 4) bs code

-- The places of the labels lie in the code.
abbrev pub Inside : ℕ → List (Option ℕ) → Type 0
Inside size ps = (i p : ℕ) → get_elem? ps i ≡ some (some p) → p ≤ size

take_all : (xs : List ℕ) → take (length xs) xs ≡ xs
take_all [] = refl
take_all (x ∷ xs) = ap (λ t. x ∷ t) (take_all xs)

slice_end : (xs ys : List ℕ) → slice (xs ++ ys) (length xs) (length ys) ≡ ys
slice_end [] ys = take_all ys
slice_end (x ∷ xs) ys = slice_end xs ys

Written-le : (lo : ℕ) (bs : List Branch) (code : List ℕ) → Written lo bs code → lo ≤ length code
Written-le lo [] code w = w
Written-le lo (b ∷ bs) code w = omega (arith, Written-le (b.field + 4) bs code w.2)

Written-append :
    (lo : ℕ) (bs : List Branch) (code more : List ℕ)
    → Written lo bs code
    → Written lo bs (code ++ more)
Written-append lo [] code more w = omega (arith, length-append code more)
Written-append lo (b ∷ bs) code more (above, here, w) =
    let end = Written-le (b.field + 4) bs code w in
    (
      above,
      slice-append code more (b.field - length b.opcode) (length b.opcode) (omega arith) ∙ here,
      Written-append (b.field + 4) bs code more w,
    )

Written-with_branch :
    (lo : ℕ) (bs : List Branch) (code opcode : List ℕ) (i : ℕ)
    → Written lo bs code
    → Written lo
        (bs ++ record { opcode = opcode; field = length code + length opcode; label_id = i } ∷ [])
        ((code ++ opcode) ++ (0 ∷ 0 ∷ 0 ∷ 0 ∷ []))
Written-with_branch lo [] code opcode i w =
    let zeros : List ℕ = 0 ∷ 0 ∷ 0 ∷ 0 ∷ [] in
    let start : length code + length opcode - length opcode ≡ length code = omega arith in
    let first = length-append code opcode in
    let whole = length-append (code ++ opcode) zeros in
    (
      omega arith,
      rw start (
          slice-append (code ++ opcode) zeros (length code) (length opcode) (omega arith)
          ∙ slice_end code opcode),
      omega arith,
    )
Written-with_branch lo (b ∷ bs) code opcode i (above, here, w) =
    let end = Written-le (b.field + 4) bs code w in
    let kept =
      slice-append code opcode (b.field - length b.opcode) (length b.opcode) (omega arith) in
    let longer = length-append code opcode in
    (
      above,
      slice-append (code ++ opcode) (0 ∷ 0 ∷ 0 ∷ 0 ∷ []) (b.field - length b.opcode)
            (length b.opcode) (omega arith)
          ∙ kept
          ∙ here,
      Written-with_branch (b.field + 4) bs code opcode i w,
    )

pub record IsTrace (t : Trace) : Type 0 where
  pub written : Written 0 t.branches t.code
  pub inside : Inside (length t.code) t.places

pub nothing-IsTrace : IsTrace nothing
nothing-IsTrace = record { written = omega arith; inside = λ i p e. absurd (cc) }

Inside-mono : (m n : ℕ) (ps : List (Option ℕ)) → m ≤ n → Inside m ps → Inside n ps
Inside-mono m n ps h k = λ i p e. let a = k i p e in omega arith

Inside-append : (n : ℕ) (ps : List (Option ℕ)) → Inside n ps → Inside n (ps ++ none ∷ [])
Inside-append n [] h zero p e = absurd (cc)
Inside-append n [] h (suc i) p e = absurd (cc)
Inside-append n (q ∷ ps) h zero p e = h 0 p e
Inside-append n (q ∷ ps) h (suc i) p e = Inside-append n ps (λ j r f. h (suc j) r f) i p e

placed : (a b : ℕ) → some (some a) ≡ some (some b) → a ≡ b
placed a b e =
    ap (λ (o : Option (Option ℕ)). elim o [ none ↦ 0 | some q ↦ elim q [ none ↦ 0 | some n ↦ n ] ])
      e

Inside-placed_at :
    (n here : ℕ) (ps : List (Option ℕ)) (j : ℕ)
    → here ≤ n
    → Inside n ps
    → Inside n (placed_at ps j here)
Inside-placed_at n here [] j l h i p e = h i p e
Inside-placed_at n here (q ∷ ps) zero l h zero p e =
    let same : here ≡ p = placed here p e in omega arith
Inside-placed_at n here (q ∷ ps) zero l h (suc i) p e = h (suc i) p e
Inside-placed_at n here (q ∷ ps) (suc j) l h zero p e = h 0 p e
Inside-placed_at n here (q ∷ ps) (suc j) l h (suc i) p e =
    Inside-placed_at n here ps j l (λ k r f. h (suc k) r f) i p e

with_branch-IsTrace :
    (opcode : List ℕ) (i : ℕ) (t : Trace) → IsTrace t → IsTrace (with_branch opcode i t)
with_branch-IsTrace opcode i t h =
    let a = length-append t.code opcode in
    let b = length-append (t.code ++ opcode) (0 ∷ 0 ∷ 0 ∷ 0 ∷ []) in
    record {
      written = Written-with_branch 0 t.branches t.code opcode i h.written;
      inside = Inside-mono (length t.code) _ t.places (omega arith) h.inside;
    }

traced-IsTrace : (c : Call) (t : Trace) → IsTrace t → IsTrace (traced c t)
unfolding traced
traced-IsTrace (Call.emission c) t h =
    let a = length-append t.code (bytes c) in
    record {
      written = Written-append 0 t.branches t.code (bytes c) h.written;
      inside = Inside-mono (length t.code) _ t.places (omega arith) h.inside;
    }
traced-IsTrace Call.label t h = record {
  written = h.written;
  inside = Inside-append (length t.code) t.places h.inside;
}
traced-IsTrace Call.restart t h = nothing-IsTrace
traced-IsTrace (Call.bind i) t h = record {
  written = h.written;
  inside = Inside-placed_at (length t.code) (length t.code) t.places i (omega arith) h.inside;
}
traced-IsTrace (Call.jmp i) t h = with_branch-IsTrace (0xE9 ∷ []) i t h
traced-IsTrace (Call.je i) t h = with_branch-IsTrace (0x0F ∷ 0x84 ∷ []) i t h
traced-IsTrace (Call.jne i) t h = with_branch-IsTrace (0x0F ∷ 0x85 ∷ []) i t h
traced-IsTrace (Call.jl i) t h = with_branch-IsTrace (0x0F ∷ 0x8C ∷ []) i t h
traced-IsTrace (Call.jge i) t h = with_branch-IsTrace (0x0F ∷ 0x8D ∷ []) i t h
traced-IsTrace (Call.jz i) t h = with_branch-IsTrace (0x0F ∷ 0x84 ∷ []) i t h
traced-IsTrace (Call.jnz i) t h = with_branch-IsTrace (0x0F ∷ 0x85 ∷ []) i t h

pub trace_from-IsTrace : (cs : List Call) (t : Trace) → IsTrace t → IsTrace (trace_from cs t)
unfolding trace_from
trace_from-IsTrace [] t h = h
trace_from-IsTrace (c ∷ cs) t h = trace_from-IsTrace cs (traced c t) (traced-IsTrace c t h)
