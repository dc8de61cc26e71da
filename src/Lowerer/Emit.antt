-- ===== src/Lowerer/Emit.antt =====
-- The emission of a function of one block without branches in src/backend/ana_lowerer.cpp: the loops
-- write its code into the encoder, and the code is installed as it is.
use anastasia.Base.{
  ℕ, ◌%◌, ◌^◌, ◌<◌, ◌≡◌, refl, sym, ap, ◌∙◌, ◌||◌, true, false, none, some, List, [], ◌∷◌, ◌++◌,
  append_assoc, append-nil, arith, if◌then◌else◌, ltb, ◌==◌,
}
use anastasia.Base.Lists.{All, length, length-append}
use anastasia.Ast.{Opcode, Instruction}
use anastasia.Encoder.Buffer.{
  EncoderLabel, Kernel, AnaEncoder, new_encoder, ensure_capacity, write_bytes, emit8, emit32,
  emit64, reset,
}
use anastasia.Encoder.Prefix.{Code, byte, dword, qword, bytes, emit}
use anastasia.Encoder.Granted.{HasMemory, IsOpen, emit-Writes}
use anastasia.Encoder.Labels.{new_label, bind_label, resolve_labels, resolve_from, bind_at}
use anastasia.Lowerer.Frame.{lower_return_val}
use anastasia.Lowerer.Compile.{
  Context, straight_line, lower_op, lower_insns, install, finish_code, install_at, install_if,
  System, JitCode, page_rounded,
}
use anastasia.Lowerer.Runs.{bytes_append}
use anastasia.Lowerer.Meaning.{Ready, meaning, has_meaning}
use anastasia.Lowerer.Body.{block_code}

pub bytes_append_all : (x y : Code) → bytes (x ++ y) ≡ bytes x ++ bytes y
bytes_append_all x y =
    sym (append-nil (bytes (x ++ y)))
    ∙ bytes_append x y []
    ∙ ap (◌++◌ (bytes x)) (append-nil (bytes y))

module _ (grants : Kernel) where
  emit_append :
      (x y : Code) (e : AnaEncoder) → emit grants (x ++ y) e ≡ emit grants y (emit grants x e)
  unfolding emit
  emit_append [] y e = refl
  emit_append (byte b ∷ x) y e = emit_append x y (emit8 grants b e)
  emit_append (dword d ∷ x) y e = emit_append x y (emit32 grants d e)
  emit_append (qword q ∷ x) y e = emit_append x y (emit64 grants q e)

  -- Writing bytes adds no label and no relocation.
  abbrev Same : AnaEncoder → AnaEncoder → Type 0
  Same e e' = (e'.labels ≡ e.labels) × (e'.relocs ≡ e.relocs)

  Same-trans : (e e1 e2 : AnaEncoder) → Same e e1 → Same e1 e2 → Same e e2
  Same-trans e e1 e2 p q = (q.0 ∙ p.0, q.1 ∙ p.1)

  write_bytes-Same :
      (n : ℕ) (bs : List ℕ) (e : AnaEncoder) → Same e (write_bytes bs (ensure_capacity grants n e))
  unfolding ensure_capacity
  write_bytes-Same n bs e = ground arith

  emit-Same : (c : Code) (e : AnaEncoder) → Same e (emit grants c e)
  unfolding emit emit8 emit32 emit64
  emit-Same [] e = (refl, refl)
  emit-Same (byte b ∷ c) e =
      Same-trans e (emit8 grants b e) (emit grants c (emit8 grants b e)) (write_bytes-Same 1 _ e)
        (emit-Same c (emit8 grants b e))
  emit-Same (dword d ∷ c) e =
      Same-trans e (emit32 grants d e) (emit grants c (emit32 grants d e)) (write_bytes-Same 4 _ e)
        (emit-Same c (emit32 grants d e))
  emit-Same (qword q ∷ c) e =
      Same-trans e (emit64 grants q e) (emit grants c (emit64 grants q e)) (write_bytes-Same 8 _ e)
        (emit-Same c (emit64 grants q e))

  lower_op-emit :
      (k : Context) (op : Opcode) (i : Instruction) (e : AnaEncoder)
      → has_meaning (meaning op) ≡ true
      → lower_op grants k op i e ≡ emit grants (straight_line k op i) e
  unfolding lower_op meaning
  lower_op-emit k Opcode.div_i32 i e h = ground arith
  lower_op-emit k Opcode.div_i64 i e h = ground arith
  lower_op-emit k Opcode.goto i e h = ground arith
  lower_op-emit k Opcode.if_eq i e h = ground arith
  lower_op-emit k Opcode.if_ne i e h = ground arith
  lower_op-emit k Opcode.if_lt i e h = ground arith
  lower_op-emit k Opcode.if_ge i e h = ground arith
  lower_op-emit k Opcode.if_z i e h = ground arith
  lower_op-emit k Opcode.if_nz i e h = ground arith
  lower_op-emit k _ i e h = refl

  -- The loop over the instructions writes their code and then that of the return.
  pub lower_insns-emit :
      (k : Context) (is : List Instruction) (last : Instruction) (e : AnaEncoder)
      → All (Ready k.regalloc) is
      → last.op ≡ Opcode.return_val
      → lower_insns grants k (is ++ last ∷ []) e
        ≡ emit grants (block_code k is ++ lower_return_val k.regalloc last.src1) e
  unfolding lower_insns block_code lower_op straight_line
  lower_insns-emit k [] last e ready r = ap (λ op. lower_op grants k op last e) r
  lower_insns-emit k (i ∷ is) last e ready r =
      ap (lower_insns grants k (is ++ last ∷ [])) (lower_op-emit k i.op i e ready.0.known)
      ∙ lower_insns-emit k is last (emit grants (straight_line k i.op i) e) ready.1 r
      ∙ sym (
          emit_append (straight_line k i.op i)
            (block_code k is ++ lower_return_val k.regalloc last.src1) e)
      ∙ ap (λ c. emit grants c e)
          (sym (
            append_assoc (straight_line k i.op i) (block_code k is)
              (lower_return_val k.regalloc last.src1)))

-- An encoder in which the code so far stands, with one label and no branch.
pub record Emitted (code : List ℕ) (e : AnaEncoder) : Type 0 where
  pub still_open : IsOpen e
  pub written : e.buffer ≡ code
  pub one_label : length e.labels ≡ 1
  pub no_relocs : e.relocs ≡ []

module _ (grants : Kernel) (memory : HasMemory grants) where
  -- The encoder after `new_label` for the first block.
  pub first_label-Emitted : Emitted [] (new_label (new_encoder grants)).1
  unfolding new_encoder ensure_capacity reset new_label
  first_label-Emitted =
      let granted = memory 0 4096 (omega arith) in
      record {
        still_open = record { works = ground arith; inside = ground arith };
        written = ground arith;
        one_label = ground arith;
        no_relocs = ground arith;
      }

  pub first_label : (new_label (new_encoder grants)).0 ≡ 0
  unfolding new_encoder ensure_capacity reset new_label
  first_label = ground arith

  pub emit-Emitted :
      (code : List ℕ) (c : Code) (e : AnaEncoder)
      → length (code ++ bytes c) < 2 ^ 30
      → Emitted code e
      → Emitted (code ++ bytes c) (emit grants c e)
  emit-Emitted code c e room s =
      let same = emit-Same grants c e in
      let total = length-append code (bytes c) in
      let done = emit-Writes grants memory c e s.still_open (rw s.written (omega arith)) in
      record {
        still_open = done.still_open;
        written = done.written ∙ ap (λ b. b ++ bytes c) s.written;
        one_label = ap length same.0 ∙ s.one_label;
        no_relocs = same.1 ∙ s.no_relocs;
      }

  length-bind_at : (ls : List EncoderLabel) (at : ℕ) → length (bind_at ls 0 at) ≡ length ls
  length-bind_at [] at = refl
  length-bind_at (l ∷ ls) at = refl

  pub bind_label-Emitted :
      (code : List ℕ) (e : AnaEncoder) → Emitted code e → Emitted code (bind_label 0 e)
  unfolding bind_label
  bind_label-Emitted code e s =
      let at = length e.buffer % 2 ^ 32 in
      let bound = record e { labels = bind_at e.labels 0 at } in
      let found : bind_label 0 e ≡ bound =
        ap (λ n. if ltb 0 n then bound else record e { failed = true }) s.one_label in
      rw found (record {
        still_open = record { works = s.still_open.works; inside = s.still_open.inside };
        written = s.written;
        one_label = length-bind_at e.labels at ∙ s.one_label;
        no_relocs = s.no_relocs;
      })

  -- With no branch to resolve, the code is installed as it is.
  pub installed :
      (sys : System) (code : List ℕ) (address : ℕ) (e : AnaEncoder)
      → Emitted code e
      → 0 < length code
      → sys.mmap (page_rounded (length code)) ≡ some address
      → sys.mprotect address (page_rounded (length code)) ≡ true
      → finish_code sys (some e)
        ≡ some (record { address = address; code = code; map_size = page_rounded (length code) })
  unfolding install resolve_labels resolve_from
  installed sys code address e s some_code at guarded =
      let size = ap length s.written in
      let inside = s.still_open.inside in
      let works = s.still_open.works in
      let ready : (e.failed || e.capacity == 0) ≡ false = ground arith in
      let full : (length e.buffer == 0 || e.failed) ≡ false = ground arith in
      let done : JitCode = record {
        address = address;
        code = code;
        map_size = page_rounded (length code);
      } in
      ap (λ b. install_if sys (if b then (false, e) else resolve_from e.relocs e)) ready
      ∙ ap (λ rs. install_if sys (resolve_from rs e)) s.no_relocs
      ∙ ap
          (λ b.
            if b then none else install_at sys e.buffer (sys.mmap (page_rounded (length e.buffer))))
          full
      ∙ ap (λ bs. install_at sys bs (sys.mmap (page_rounded (length bs)))) s.written
      ∙ ap (install_at sys code) at
      ∙ ap (λ b. if b then some done else none) guarded
