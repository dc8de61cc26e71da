-- ===== src/RegAlloc/Named.antt =====
-- The scan of src/backend/ana_regalloc.cpp for the local registers, which has 1024 entries for them.
use native.Mathlib.Nat.{le_refl, le_trans}
use anastasia.Base.{ℕ, ◌-◌, ◌^◌, ◌≤◌, ◌<◌, ◌⊎◌, some, List, [], ◌∷◌, arith}
use anastasia.Base.Lists.{All}
use anastasia.Ast.{
  Register, RegisterType, param, local, untyped, Operand, absent, register, const_int, mem_offset,
  Instruction, BasicBlock, Function,
}
use anastasia.RegAlloc.{raise_local, insn_locals, scan_insns, scan_blocks, count_locals, max_locals}

-- A condition on the index of the operand, if it is a local register.
abbrev pub OnLocal : (ℕ → Type 0) → Operand → Type 0
OnLocal P (register r) = elim r.type [ local ↦ P r.index | _ ↦ Unit {0} ]
OnLocal P _ = Unit {0}

abbrev pub OnInsn : (ℕ → Type 0) → Instruction → Type 0
OnInsn P i = OnLocal P i.dest × OnLocal P i.src1 × OnLocal P i.src2

abbrev pub OnBlocks : (ℕ → Type 0) → List BasicBlock → Type 0
OnBlocks P bs = All (λ (b : BasicBlock). All (OnInsn P) b.insns) bs

raise_local_lem :
    (o : Operand) (top : ℕ) → (top ≤ raise_local o top) × OnLocal (λ n. n ≤ raise_local o top) o
raise_local_lem absent top = (omega arith, tt)
raise_local_lem (const_int c) top = (omega arith, tt)
raise_local_lem (mem_offset r d) top = (omega arith, tt)
raise_local_lem (register r) top = register_lem r.type r.index top
  where
    register_lem :
        (t : RegisterType) (n top : ℕ)
        → let r : Register = record { type = t; index = n } in
          (top ≤ raise_local (register r) top)
          × OnLocal (λ m. m ≤ raise_local (register r) top) (register r)
    register_lem untyped n top = (omega arith, tt)
    register_lem param n top = (omega arith, tt)
    register_lem local n top = ground arith

OnLocal-map : (P Q : ℕ → Type 0) (o : Operand) → ((n : ℕ) → P n → Q n) → OnLocal P o → OnLocal Q o
OnLocal-map P Q absent f k = tt
OnLocal-map P Q (const_int c) f k = tt
OnLocal-map P Q (mem_offset r d) f k = tt
OnLocal-map P Q (register r) f k = typed r.type r.index k
  where
    typed :
        (t : RegisterType) (i : ℕ)
        → OnLocal P (register (record { type = t; index = i }))
        → OnLocal Q (register (record { type = t; index = i }))
    typed untyped i k = tt
    typed param i k = tt
    typed local i k = f i k

OnInsn-map : (P Q : ℕ → Type 0) (i : Instruction) → ((n : ℕ) → P n → Q n) → OnInsn P i → OnInsn Q i
OnInsn-map P Q i f (d, s, t) =
    (OnLocal-map P Q i.dest f d, OnLocal-map P Q i.src1 f s, OnLocal-map P Q i.src2 f t)

OnInsns-map :
    (P Q : ℕ → Type 0) (is : List Instruction)
    → ((n : ℕ) → P n → Q n)
    → All (OnInsn P) is
    → All (OnInsn Q) is
OnInsns-map P Q [] f h = tt
OnInsns-map P Q (i ∷ is) f h = (OnInsn-map P Q i f h.0, OnInsns-map P Q is f h.1)

OnBlocks-map :
    (P Q : ℕ → Type 0) (bs : List BasicBlock)
    → ((n : ℕ) → P n → Q n)
    → OnBlocks P bs
    → OnBlocks Q bs
OnBlocks-map P Q [] f h = tt
OnBlocks-map P Q (b ∷ bs) f h = (OnInsns-map P Q b.insns f h.0, OnBlocks-map P Q bs f h.1)

abbrev UpTo : ℕ → ℕ → Type 0
UpTo top n = n ≤ top

insn_locals_lem :
    (i : Instruction) (top : ℕ) → (top ≤ insn_locals i top) × OnInsn (UpTo (insn_locals i top)) i
insn_locals_lem i top =
    let t1 = raise_local i.dest top in
    let t2 = raise_local i.src1 t1 in
    let t3 = raise_local i.src2 t2 in
    let d = raise_local_lem i.dest top in
    let s = raise_local_lem i.src1 t1 in
    let t = raise_local_lem i.src2 t2 in
    (
      le_trans (le_trans d.0 s.0) t.0,
      (
        OnLocal-map (UpTo t1) (UpTo t3) i.dest (λ n h. le_trans h (le_trans s.0 t.0)) d.1,
        OnLocal-map (UpTo t2) (UpTo t3) i.src1 (λ n h. le_trans h t.0) s.1,
        t.1,
      ),
    )

scan_insns_lem :
    (is : List Instruction) (top : ℕ)
    → (top ≤ scan_insns insn_locals is top) × All (OnInsn (UpTo (scan_insns insn_locals is top))) is
unfolding scan_insns
scan_insns_lem [] top = (le_refl top, tt)
scan_insns_lem (i ∷ is) top =
    let here = insn_locals_lem i top in
    let rest = scan_insns_lem is (insn_locals i top) in
    (
      le_trans here.0 rest.0,
      (
        OnInsn-map (UpTo (insn_locals i top)) (UpTo (scan_insns insn_locals is (insn_locals i top)))
            i (λ n h. le_trans h rest.0) here.1,
        rest.1,
      ),
    )

scan_blocks_lem :
    (bs : List BasicBlock) (top : ℕ)
    → (top ≤ scan_blocks insn_locals bs top) × OnBlocks (UpTo (scan_blocks insn_locals bs top)) bs
unfolding scan_blocks
scan_blocks_lem [] top = (le_refl top, tt)
scan_blocks_lem (b ∷ bs) top =
    let top' = scan_insns insn_locals b.insns top in
    let here = scan_insns_lem b.insns top in
    let rest = scan_blocks_lem bs top' in
    (
      le_trans here.0 rest.0,
      (
        OnInsns-map (UpTo top') (UpTo (scan_blocks insn_locals bs top')) b.insns
            (λ n h. le_trans h rest.0) here.1,
        rest.1,
      ),
    )

-- The scan goes no higher than the registers that are named.
raise_local_lt :
    (limit : ℕ) (o : Operand) (top : ℕ)
    → top < limit
    → OnLocal (λ n. n < limit) o
    → raise_local o top < limit
raise_local_lt limit absent top h k = h
raise_local_lt limit (const_int c) top h k = h
raise_local_lt limit (mem_offset r d) top h k = h
raise_local_lt limit (register r) top h k = typed r.type r.index k
  where
    typed :
        (t : RegisterType) (i : ℕ)
        → OnLocal (λ n. n < limit) (register (record { type = t; index = i }))
        → raise_local (register (record { type = t; index = i })) top < limit
    typed untyped i k = h
    typed param i k = h
    typed local i k = ground arith

scan_insns-lt :
    (limit : ℕ) (is : List Instruction) (top : ℕ)
    → top < limit
    → All (OnInsn (λ n. n < limit)) is
    → scan_insns insn_locals is top < limit
unfolding scan_insns
scan_insns-lt limit [] top h k = h
scan_insns-lt limit (i ∷ is) top h ((d, s, t), k) =
    scan_insns-lt limit is (insn_locals i top)
      (raise_local_lt limit i.src2 (raise_local i.src1 (raise_local i.dest top))
        (raise_local_lt limit i.src1 (raise_local i.dest top) (raise_local_lt limit i.dest top h d)
          s)
        t)
      k

scan_blocks-lt :
    (limit : ℕ) (bs : List BasicBlock) (top : ℕ)
    → top < limit
    → OnBlocks (λ n. n < limit) bs
    → scan_blocks insn_locals bs top < limit
unfolding scan_blocks
scan_blocks-lt limit [] top h k = h
scan_blocks-lt limit (b ∷ bs) top h k =
    scan_blocks-lt limit bs (scan_insns insn_locals b.insns top)
      (scan_insns-lt limit b.insns top h k.0) k.1

-- Every local register below 1024 that an instruction of the function names as a register operand
-- has an entry of its own in the table, provided that no operand names the local register
-- 4294967295, whose successor is 0 in a `uint32_t`. The declared count is a `uint32_t`.
pub named_local_has_entry :
    (fn : Function)
    → fn.local_count < 2 ^ 32
    → OnBlocks (λ n. n < 2 ^ 32 - 1) fn.blocks
    → OnBlocks (λ n. (max_locals ≤ n) ⊎ (n < count_locals (some fn))) fn.blocks
unfolding count_locals
named_local_has_entry fn h k =
    let top = fn.local_count - 1 in
    let bound = scan_blocks-lt (2 ^ 32 - 1) fn.blocks top (omega arith) k in
    OnBlocks-map (UpTo (scan_blocks insn_locals fn.blocks top))
      (λ n. (max_locals ≤ n) ⊎ (n < count_locals (some fn))) fn.blocks (λ n below. ground arith)
      (scan_blocks_lem fn.blocks top).1
