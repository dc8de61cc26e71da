-- ===== src/Encoder/Invariant.antt =====
-- The invariant of the encoder of src/backend/ana_encoder.cpp, kept by every method.
use anastasia.Base.{
  ℕ, zero, suc, ◌+◌, ◌%◌, ◌^◌, ◌≤◌, ◌<◌, ◌≡◌, refl, ap, Bool, true, false, List, [], ◌∷◌, ◌++◌, ltb,
  leb, arith, Bool-cases, inl, inr,
}
use anastasia.Base.Words.{le_bytes}
use anastasia.Base.Lists.{length, length-append, All}
use anastasia.Encoder.Buffer.{
  Kernel, EncoderLabel, LabelReloc, AnaEncoder, cursor, reset, emit8, emit32,
}
use anastasia.Encoder.Prefix.{Code, bytes, emit}
use anastasia.Encoder.Growth.{
  AddressSpace, IsSized, Appends, not_latched, emit-Appends, emit8-Appends, emit32-Appends,
}
use anastasia.Encoder.Labels.{
  max_labels, max_relocs, unbound_label, new_label, bind_at, bind_label, add_reloc, jmp_label, jcc,
}
use anastasia.Encoder.Resolve.{SitesFrom}

-- A label holds -1, or an offset inside the code.
abbrev pub LabelFits : ℕ → EncoderLabel → Type 0
LabelFits size l = l.bound ≡ true → l.offset ≤ size

pub record IsValid (e : AnaEncoder) : Type 0 where
  pub sized : IsSized e
  pub label_room : length e.labels ≤ max_labels
  pub reloc_room : length e.relocs ≤ max_relocs
  pub offsets : All (LabelFits (length e.buffer)) e.labels
  pub sites : e.failed ≡ false → SitesFrom 0 e.relocs (length e.buffer)

LabelFits-mono :
    (m n : ℕ) (ls : List EncoderLabel) → m ≤ n → All (LabelFits m) ls → All (LabelFits n) ls
LabelFits-mono m n [] h k = tt
LabelFits-mono m n (l ∷ ls) h k = ((λ b. omega (arith, k.0 b)), LabelFits-mono m n ls h k.1)

LabelFits-append :
    (n : ℕ) (ls : List EncoderLabel) (l : EncoderLabel)
    → All (LabelFits n) ls
    → LabelFits n l
    → All (LabelFits n) (ls ++ l ∷ [])
LabelFits-append n [] l h k = (k, tt)
LabelFits-append n (x ∷ ls) l h k = (h.0, LabelFits-append n ls l h.1 k)

LabelFits-bind_at :
    (n : ℕ) (ls : List EncoderLabel) (i offset : ℕ)
    → offset ≤ n
    → All (LabelFits n) ls
    → All (LabelFits n) (bind_at ls i offset)
LabelFits-bind_at n [] i offset k h = tt
LabelFits-bind_at n (l ∷ ls) zero offset k h = ((λ _. k), h.1)
LabelFits-bind_at n (l ∷ ls) (suc i) offset k h = (h.0, LabelFits-bind_at n ls i offset k h.1)

length-bind_at : (ls : List EncoderLabel) (i offset : ℕ) → length (bind_at ls i offset) ≡ length ls
length-bind_at [] i offset = refl
length-bind_at (l ∷ ls) zero offset = refl
length-bind_at (l ∷ ls) (suc i) offset = ap suc (length-bind_at ls i offset)

SitesFrom-mono :
    (lo : ℕ) (rs : List LabelReloc) (m n : ℕ) → m ≤ n → SitesFrom lo rs m → SitesFrom lo rs n
SitesFrom-mono lo [] m n h k = omega arith
SitesFrom-mono lo (r ∷ rs) m n h k = (k.0, SitesFrom-mono (r.patch_offset + 4) rs m n h k.1)

SitesFrom-append :
    (lo : ℕ) (rs : List LabelReloc) (m n : ℕ) (r : LabelReloc)
    → m ≤ r.patch_offset
    → r.patch_offset + 4 ≤ n
    → SitesFrom lo rs m
    → SitesFrom lo (rs ++ r ∷ []) n
SitesFrom-append lo [] m n r h k s = (omega arith, k)
SitesFrom-append lo (x ∷ rs) m n r h k s =
    (s.0, SitesFrom-append (x.patch_offset + 4) rs m n r h k s.1)

pub reset-IsValid : (e : AnaEncoder) → IsSized e → IsValid (reset e)
unfolding reset
reset-IsValid e h = record {
  sized = record { inside = omega arith; mappable = h.mappable };
  label_room = omega arith;
  reloc_room = omega arith;
  offsets = tt;
  sites = λ _. omega arith;
}

pub new_label-IsValid : (e : AnaEncoder) → IsValid e → IsValid (new_label e).1
unfolding new_label
new_label-IsValid e h = elim (Bool-cases (ltb (length e.labels) max_labels)) [
  | inl room ↦ rw room (record {
    sized = record { inside = h.sized.inside; mappable = h.sized.mappable };
    label_room = ground (arith, length-append e.labels (unbound_label (length e.labels) ∷ []));
    reloc_room = h.reloc_room;
    offsets =
        LabelFits-append (length e.buffer) e.labels (unbound_label (length e.labels)) h.offsets
          (λ b. cc);
    sites = h.sites;
  })
  | inr full ↦ rw full (record {
    sized = record { inside = h.sized.inside; mappable = h.sized.mappable };
    label_room = h.label_room;
    reloc_room = h.reloc_room;
    offsets = h.offsets;
    sites = λ b. cc;
  })
]

pub bind_label-IsValid : (i : ℕ) (e : AnaEncoder) → IsValid e → IsValid (bind_label i e)
unfolding bind_label
bind_label-IsValid i e h = elim (Bool-cases (ltb i (length e.labels))) [
  | inl known ↦ rw known (record {
    sized = record { inside = h.sized.inside; mappable = h.sized.mappable };
    label_room = omega (arith, h.label_room, length-bind_at e.labels i (cursor e % 2 ^ 32));
    reloc_room = h.reloc_room;
    offsets =
        LabelFits-bind_at (length e.buffer) e.labels i (cursor e % 2 ^ 32) (omega arith) h.offsets;
    sites = h.sites;
  })
  | inr unknown ↦ rw unknown (record {
    sized = record { inside = h.sized.inside; mappable = h.sized.mappable };
    label_room = h.label_room;
    reloc_room = h.reloc_room;
    offsets = h.offsets;
    sites = λ b. cc;
  })
]

-- Writing bytes only moves the end of the code.
Appends-IsValid : (bs : List ℕ) (e e' : AnaEncoder) → Appends bs e e' → IsValid e → IsValid e'
Appends-IsValid bs e e' a h = record {
  sized = a.sized;
  label_room = rw a.labels_kept h.label_room;
  reloc_room = rw a.relocs_kept h.reloc_room;
  offsets =
      rw a.labels_kept
        (LabelFits-mono (length e.buffer) (length e'.buffer) e.labels a.grown h.offsets);
  sites = λ ok. rw a.relocs_kept (
      SitesFrom-mono 0 e.relocs (length e.buffer) (length e'.buffer) a.grown
        (h.sites (not_latched a ok)));
}

module _ (grants : Kernel) (space : AddressSpace grants) where
  pub emit-IsValid : (c : Code) (e : AnaEncoder) → IsValid e → IsValid (emit grants c e)
  emit-IsValid c e h =
      Appends-IsValid (bytes c) e (emit grants c e) (emit-Appends grants space c e h.sized) h

  -- The relocation and the four bytes that it stands for come together.
  field_with_room :
      (r : LabelReloc) (e : AnaEncoder)
      → r.patch_offset ≡ cursor e
      → length e.relocs < max_relocs
      → IsValid e
      → IsValid (emit32 grants 0 (record e { relocs = e.relocs ++ r ∷ [] }))
  field_with_room r e at_end room h =
      let e2 : AnaEncoder = record e { relocs = e.relocs ++ r ∷ [] } in
      let e3 : AnaEncoder = emit32 grants 0 e2 in
      let sized2 : IsSized e2 = record { inside = h.sized.inside; mappable = h.sized.mappable } in
      let a : Appends (le_bytes 4 0) e2 e3 = emit32-Appends grants space 0 e2 sized2 in
      record {
        sized = a.sized;
        label_room = rw a.labels_kept h.label_room;
        reloc_room = rw a.relocs_kept (omega (arith, length-append e.relocs (r ∷ [])));
        offsets =
            rw a.labels_kept
              (LabelFits-mono (length e.buffer) (length e3.buffer) e.labels a.grown h.offsets);
        sites = λ ok. rw a.relocs_kept (
            SitesFrom-append 0 e.relocs (length e.buffer) (length e3.buffer) r (omega arith)
              (omega (arith, ap length (a.added ok), length-append e.buffer (le_bytes 4 0)))
              (h.sites (not_latched a ok)));
      }

  -- With the table full the failure is latched, and no site is claimed.
  field_without_room :
      (e : AnaEncoder) → IsValid e → IsValid (emit32 grants 0 (record e { failed = true }))
  field_without_room e h =
      let e2 : AnaEncoder = record e { failed = true } in
      let sized2 : IsSized e2 = record { inside = h.sized.inside; mappable = h.sized.mappable } in
      Appends-IsValid (le_bytes 4 0) e2 (emit32 grants 0 e2)
        (emit32-Appends grants space 0 e2 sized2)
        (record {
          sized = sized2;
          label_room = h.label_room;
          reloc_room = h.reloc_room;
          offsets = h.offsets;
          sites = λ b. cc;
        })

  branch_field-IsValid :
      (i : ℕ) (jcc : Bool) (e : AnaEncoder)
      → IsValid e
      → IsValid (emit32 grants 0 (add_reloc i jcc e))
  unfolding add_reloc
  branch_field-IsValid i jcc e h = elim (Bool-cases (leb max_relocs (length e.relocs))) [
    | inl full ↦ rw full (field_without_room e h)
    | inr room ↦ rw room (
        field_with_room (record { label_id = i; patch_offset = cursor e; is_jcc_rel32 = jcc }) e
          refl (ground arith) h)
  ]

  emit8-IsValid : (b : ℕ) (e : AnaEncoder) → IsValid e → IsValid (emit8 grants b e)
  emit8-IsValid b e h =
      Appends-IsValid (b ∷ []) e (emit8 grants b e) (emit8-Appends grants space b e h.sized) h

  pub jmp_label-IsValid : (i : ℕ) (e : AnaEncoder) → IsValid e → IsValid (jmp_label grants i e)
  unfolding jmp_label
  jmp_label-IsValid i e h =
      branch_field-IsValid i false (emit8 grants 0xE9 e) (emit8-IsValid 0xE9 e h)

  pub jcc-IsValid : (opcode i : ℕ) (e : AnaEncoder) → IsValid e → IsValid (jcc grants opcode i e)
  jcc-IsValid opcode i e h =
      let e1 : AnaEncoder = emit8 grants 0x0F e in
      branch_field-IsValid i true (emit8 grants opcode e1)
        (emit8-IsValid opcode e1 (emit8-IsValid 0x0F e h))
