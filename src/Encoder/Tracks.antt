-- ===== src/Encoder/Tracks.antt =====
-- The encoder of src/backend/ana_encoder.cpp records the bindings and the branches of the calls.
use anastasia.Base.{
  ℕ, zero, suc, ◌+◌, ◌%◌, ◌^◌, ◌≡◌, refl, ap, ◌∙◌, Bool, true, false, Option, none, some, List, [],
  ◌∷◌, ◌++◌, ltb, leb, arith, Bool-cases, inl, inr,
}
use anastasia.Base.Lists.{length, length-append}
use anastasia.Encoder.Buffer.{
  Kernel, EncoderLabel, LabelReloc, AnaEncoder, cursor, reset, emit8, emit32, new_encoder,
  ensure_capacity,
}
use anastasia.Encoder.Prefix.{Code, bytes, emit}
use anastasia.Encoder.Labels.{
  max_labels, max_relocs, unbound_label, new_label, bind_at, bind_label, add_reloc, jmp_label, jcc,
  je_label, jne_label, jl_label, jge_label, jz_label, jnz_label,
}
use anastasia.Encoder.Growth.{
  AddressSpace, IsSized, Appends, not_latched, emit-Appends, emit8-Appends, emit32-Appends,
  Appends-trans,
}
use anastasia.Encoder.Invariant.{IsValid}
use anastasia.Encoder.Session.{Call, step, run, session, step-IsValid, new_encoder-IsValid}
use anastasia.Encoder.Trace.{
  Branch, Trace, nothing, placed_at, with_branch, traced, trace_from, trace,
}

-- What the encoder has recorded of a place, and of a branch.
pub data AtLabel : EncoderLabel → Option ℕ → Type 0 where
  unbound : (l : EncoderLabel) → l.bound ≡ false → AtLabel l none
  bound : (l : EncoderLabel) (p : ℕ) → l.bound ≡ true → l.offset ≡ p % 2 ^ 32 → AtLabel l (some p)

abbrev pub SameLabels : List EncoderLabel → List (Option ℕ) → Type 0
SameLabels [] [] = Unit
SameLabels (l ∷ ls) (p ∷ ps) = AtLabel l p × SameLabels ls ps
SameLabels [] (p ∷ ps) = ⊥
SameLabels (l ∷ ls) [] = ⊥

abbrev pub SameBranches : List LabelReloc → List Branch → Type 0
SameBranches [] [] = Unit
SameBranches (r ∷ rs) (b ∷ bs) =
    (r.patch_offset ≡ b.field) × (r.label_id ≡ b.label_id) × SameBranches rs bs
SameBranches [] (b ∷ bs) = ⊥
SameBranches (r ∷ rs) [] = ⊥

pub record Follows (e : AnaEncoder) (t : Trace) : Type 0 where
  pub labels : SameLabels e.labels t.places
  pub branches : SameBranches e.relocs t.branches
  pub code : e.buffer ≡ t.code

SameLabels-append :
    (ls : List EncoderLabel) (ps : List (Option ℕ)) (n : ℕ)
    → SameLabels ls ps
    → SameLabels (ls ++ unbound_label n ∷ []) (ps ++ none ∷ [])
SameLabels-append [] [] n h = (unbound (unbound_label n) refl, tt)
SameLabels-append [] (p ∷ ps) n h = absurd h
SameLabels-append (l ∷ ls) [] n h = absurd h
SameLabels-append (l ∷ ls) (p ∷ ps) n h = (h.0, SameLabels-append ls ps n h.1)

SameLabels-bind_at :
    (ls : List EncoderLabel) (ps : List (Option ℕ)) (i here : ℕ)
    → SameLabels ls ps
    → SameLabels (bind_at ls i (here % 2 ^ 32)) (placed_at ps i here)
SameLabels-bind_at [] [] i here h = tt
SameLabels-bind_at [] (p ∷ ps) i here h = absurd h
SameLabels-bind_at (l ∷ ls) [] i here h = absurd h
SameLabels-bind_at (l ∷ ls) (p ∷ ps) zero here h =
    (bound (record l { offset = here % 2 ^ 32; bound = true }) here refl refl, h.1)
SameLabels-bind_at (l ∷ ls) (p ∷ ps) (suc i) here h = (h.0, SameLabels-bind_at ls ps i here h.1)

SameBranches-append :
    (rs : List LabelReloc) (bs : List Branch) (r : LabelReloc) (b : Branch)
    → SameBranches rs bs
    → r.patch_offset ≡ b.field
    → r.label_id ≡ b.label_id
    → SameBranches (rs ++ r ∷ []) (bs ++ b ∷ [])
SameBranches-append [] [] r b h e f = (e, f, tt)
SameBranches-append [] (c ∷ bs) r b h e f = absurd h
SameBranches-append (q ∷ rs) [] r b h e f = absurd h
SameBranches-append (q ∷ rs) (c ∷ bs) r b h e f = (h.0, h.1, SameBranches-append rs bs r b h.2 e f)

Appends-Follows :
    (bs : List ℕ) (e e' : AnaEncoder) (t : Trace)
    → Appends bs e e'
    → e'.failed ≡ false
    → Follows e t
    → Follows e' (record t { code = t.code ++ bs })
Appends-Follows bs e e' t a ok f = record {
  labels = rw a.labels_kept f.labels;
  branches = rw a.relocs_kept f.branches;
  code = a.added ok ∙ ap (λ code. code ++ bs) f.code;
}

-- Unless a failure is latched, the encoder follows the trace.
abbrev pub Tracks : AnaEncoder → Trace → Type 0
Tracks e t = e.failed ≡ false → Follows e t

new_label-Tracks :
    (e : AnaEncoder) (t : Trace) → Tracks e t → Tracks (new_label e).1 (traced Call.label t)
unfolding new_label traced
new_label-Tracks e t h = elim (Bool-cases (ltb (length e.labels) max_labels)) [
  | inl room ↦ rw room (λ ok. record {
    labels = SameLabels-append e.labels t.places (length e.labels) (h ok).labels;
    branches = (h ok).branches;
    code = (h ok).code;
  })
  | inr full ↦ rw full (λ ok. absurd (ground arith))
]

bind_label-Tracks :
    (i : ℕ) (e : AnaEncoder) (t : Trace)
    → Tracks e t
    → Tracks (bind_label i e) (traced (Call.bind i) t)
unfolding bind_label traced
bind_label-Tracks i e t h = elim (Bool-cases (ltb i (length e.labels))) [
  | inl known ↦ rw known (λ ok. record {
    labels =
        rw (ap length (h ok).code)
          (SameLabels-bind_at e.labels t.places i (length t.code) (h ok).labels);
    branches = (h ok).branches;
    code = (h ok).code;
  })
  | inr unknown ↦ rw unknown (λ ok. absurd (ground arith))
]

module _ (grants : Kernel) (space : AddressSpace grants) where
  emit-Tracks :
      (c : Code) (e : AnaEncoder) (t : Trace)
      → IsSized e
      → Tracks e t
      → Tracks (emit grants c e) (traced (Call.emission c) t)
  unfolding traced
  emit-Tracks c e t s h ok =
      let a = emit-Appends grants space c e s in
      Appends-Follows (bytes c) e (emit grants c e) t a ok (h (not_latched a ok))

  -- The field of a branch behind its opcode.
  field-Tracks :
      (i : ℕ) (conditional : Bool) (opcode : List ℕ) (e e1 : AnaEncoder) (t : Trace)
      → Appends opcode e e1
      → Tracks e t
      → Tracks (emit32 grants 0 (add_reloc i conditional e1)) (with_branch opcode i t)
  unfolding add_reloc
  field-Tracks i conditional opcode e e1 t a h =
      elim (Bool-cases (leb max_relocs (length e1.relocs))) [
        | inl full ↦ rw full (λ ok.
            let e2 : AnaEncoder = record e1 { failed = true } in
            let b =
              emit32-Appends grants space 0 e2
                (record { inside = a.sized.inside; mappable = a.sized.mappable }) in
            let f : e2.failed ≡ false = not_latched b ok in absurd (ground arith))
        | inr room ↦ rw room (λ ok.
            let r : LabelReloc = record {
              label_id = i;
              patch_offset = cursor e1;
              is_jcc_rel32 = conditional;
            } in
            let e2 : AnaEncoder = record e1 { relocs = e1.relocs ++ r ∷ [] } in
            let b =
              emit32-Appends grants space 0 e2
                (record { inside = a.sized.inside; mappable = a.sized.mappable }) in
            let ok1 : e1.failed ≡ false = not_latched b ok in
            let f = Appends-Follows opcode e e1 t a ok1 (h (not_latched a ok1)) in
            let at_end : length e1.buffer ≡ length t.code + length opcode =
              ap length f.code ∙ length-append t.code opcode in
            record {
              labels = rw b.labels_kept f.labels;
              branches = rw b.relocs_kept (
                  SameBranches-append e1.relocs t.branches r
                    (record {
                      opcode = opcode;
                      field = length t.code + length opcode;
                      label_id = i;
                    })
                    f.branches at_end refl);
              code = b.added ok ∙ ap (λ code. code ++ (0 ∷ 0 ∷ 0 ∷ 0 ∷ [])) f.code;
            })
      ]

  jmp_label-Tracks :
      (i : ℕ) (e : AnaEncoder) (t : Trace)
      → IsSized e
      → Tracks e t
      → Tracks (jmp_label grants i e) (with_branch (0xE9 ∷ []) i t)
  unfolding jmp_label
  jmp_label-Tracks i e t s h =
      field-Tracks i false (0xE9 ∷ []) e (emit8 grants 0xE9 e) t
        (emit8-Appends grants space 0xE9 e s) h

  jcc-Tracks :
      (opcode i : ℕ) (e : AnaEncoder) (t : Trace)
      → IsSized e
      → Tracks e t
      → Tracks (jcc grants opcode i e) (with_branch (0x0F ∷ opcode ∷ []) i t)
  jcc-Tracks opcode i e t s h =
      let first = emit8-Appends grants space 0x0F e s in
      let e1 = emit8 grants 0x0F e in
      field-Tracks i true (0x0F ∷ opcode ∷ []) e (emit8 grants opcode e1) t
        (Appends-trans (0x0F ∷ []) (opcode ∷ []) first
          (emit8-Appends grants space opcode e1 first.sized))
        h

  step-Tracks :
      (c : Call) (e : AnaEncoder) (t : Trace)
      → IsSized e
      → Tracks e t
      → Tracks (step grants c e) (traced c t)
  unfolding step traced je_label jne_label jl_label jge_label jz_label jnz_label reset
  step-Tracks (Call.emission c) e t s h = emit-Tracks c e t s h
  step-Tracks Call.label e t s h = new_label-Tracks e t h
  step-Tracks Call.restart e t s h = λ _. record { labels = tt; branches = tt; code = refl }
  step-Tracks (Call.bind i) e t s h = bind_label-Tracks i e t h
  step-Tracks (Call.jmp i) e t s h = jmp_label-Tracks i e t s h
  step-Tracks (Call.je i) e t s h = jcc-Tracks 0x84 i e t s h
  step-Tracks (Call.jne i) e t s h = jcc-Tracks 0x85 i e t s h
  step-Tracks (Call.jl i) e t s h = jcc-Tracks 0x8C i e t s h
  step-Tracks (Call.jge i) e t s h = jcc-Tracks 0x8D i e t s h
  step-Tracks (Call.jz i) e t s h = jcc-Tracks 0x84 i e t s h
  step-Tracks (Call.jnz i) e t s h = jcc-Tracks 0x85 i e t s h

  run-Tracks :
      (cs : List Call) (e : AnaEncoder) (t : Trace)
      → IsValid e
      → Tracks e t
      → Tracks (run grants cs e) (trace_from cs t)
  unfolding run trace_from
  run-Tracks [] e t v h = h
  run-Tracks (c ∷ cs) e t v h =
      run-Tracks cs (step grants c e) (traced c t) (step-IsValid grants space c e v)
        (step-Tracks c e t v.sized h)

  new_encoder-Tracks : Tracks (new_encoder grants) nothing
  unfolding new_encoder ensure_capacity reset
  new_encoder-Tracks = ground arith

  pub session-Tracks : (cs : List Call) → Tracks (session grants cs) (trace cs)
  session-Tracks cs =
      run-Tracks cs (new_encoder grants) nothing (new_encoder-IsValid grants space)
        new_encoder-Tracks
