-- ===== src/Encoder/Labels.antt =====
-- Labels, branches and their resolution in src/backend/ana_encoder.cpp.
use anastasia.Base.{
  ℕ, ◌+◌, ◌-◌, ◌%◌, ◌^◌, Bool, true, false, not, ◌||◌, Option, none, some, List, [], ◌∷◌, ◌++◌,
  zero, suc, ltb, leb, ◌==◌, if◌then◌else◌,
}
use anastasia.Base.Lists.{length, get_elem?, write_at}
use anastasia.Base.Words.{le_bytes, sign_extend32}
use anastasia.Encoder.Buffer.{Kernel, EncoderLabel, LabelReloc, AnaEncoder, cursor, emit8, emit32}

abbrev pub max_labels : ℕ
max_labels = 512

abbrev pub max_relocs : ℕ
max_relocs = 1024

abbrev pub invalid_label : ℕ
invalid_label = 0xFFFF_FFFF

abbrev pub unbound_label : ℕ → EncoderLabel
unbound_label n = record { id = n; offset = 2 ^ 32 - 1; bound = false }

unfoldable pub new_label : AnaEncoder → ℕ × AnaEncoder
new_label e =
    let n = length e.labels in
    if ltb n max_labels
    then (n, record e { labels = e.labels ++ unbound_label n ∷ [] })
    else (invalid_label, record e { failed = true })

-- `labels_[i].offset = offset; labels_[i].bound = true;`
abbrev pub bind_at : List EncoderLabel → ℕ → ℕ → List EncoderLabel
bind_at [] i offset = []
bind_at (l ∷ ls) zero offset = record l { offset = offset; bound = true } ∷ ls
bind_at (l ∷ ls) (suc i) offset = l ∷ bind_at ls i offset

unfoldable pub bind_label : ℕ → AnaEncoder → AnaEncoder
bind_label label_id e =
    if ltb label_id (length e.labels)
    then record e { labels = bind_at e.labels label_id (cursor e % 2 ^ 32) }
    else record e { failed = true }

-- The two `if`s on `reloc_count_` in each branch method.
unfoldable pub add_reloc : ℕ → Bool → AnaEncoder → AnaEncoder
add_reloc label_id jcc e =
    if leb max_relocs (length e.relocs) then record e { failed = true } else record e {
      relocs =
          e.relocs
          ++ record { label_id = label_id; patch_offset = cursor e; is_jcc_rel32 = jcc } ∷ [];
    }

module _ (grants : Kernel) where
  unfoldable pub jmp_label : ℕ → AnaEncoder → AnaEncoder
  jmp_label label_id e = emit32 grants 0 (add_reloc label_id false (emit8 grants 0xE9 e))

  -- The conditional branches differ in their second opcode byte.
  abbrev pub jcc : ℕ → ℕ → AnaEncoder → AnaEncoder
  jcc opcode label_id e =
      emit32 grants 0 (add_reloc label_id true (emit8 grants opcode (emit8 grants 0x0F e)))

  unfoldable pub je_label : ℕ → AnaEncoder → AnaEncoder
  je_label label_id e = jcc 0x84 label_id e

  unfoldable pub jne_label : ℕ → AnaEncoder → AnaEncoder
  jne_label label_id e = jcc 0x85 label_id e

  unfoldable pub jl_label : ℕ → AnaEncoder → AnaEncoder
  jl_label label_id e = jcc 0x8C label_id e

  unfoldable pub jge_label : ℕ → AnaEncoder → AnaEncoder
  jge_label label_id e = jcc 0x8D label_id e

  unfoldable pub jz_label : ℕ → AnaEncoder → AnaEncoder
  jz_label label_id e = je_label label_id e

  unfoldable pub jnz_label : ℕ → AnaEncoder → AnaEncoder
  jnz_label label_id e = jne_label label_id e

-- `r.patch_offset + 4`, from where the processor counts a branch.
abbrev pub site_end : LabelReloc → ℕ
site_end r = (r.patch_offset + 4) % 2 ^ 64

-- An `int64_t` between -2147483648 and 2147483647.
abbrev pub fits_rel32 : ℕ → Bool
fits_rel32 rel = ltb rel (2 ^ 31) || leb (2 ^ 64 - 2 ^ 31) rel

abbrev pub relative : ℕ → LabelReloc → ℕ
relative offset r = (sign_extend32 offset + (2 ^ 64 - site_end r)) % 2 ^ 64

-- The displacement to write at a relocation, or `none` where the loop returns false.
unfoldable pub displacement : AnaEncoder → LabelReloc → Option ℕ
displacement e r = elim (get_elem? e.labels r.label_id) [
  | none ↦ none
  | some l ↦
      if not l.bound
      then none
      else if ltb (cursor e) (site_end r)
      then none
      else if fits_rel32 (relative l.offset r)
      then some (relative l.offset r % 2 ^ 32)
      else none
]

unfoldable pub patch : ℕ → LabelReloc → AnaEncoder → AnaEncoder
patch rel r e = record e { buffer = write_at e.buffer r.patch_offset (le_bytes 4 rel) }

unfoldable pub resolve_from : List LabelReloc → AnaEncoder → Bool × AnaEncoder
resolve_from [] e = (true, e)
resolve_from (r ∷ rs) e = elim (displacement e r) [
  | none ↦ (false, e)
  | some rel ↦ resolve_from rs (patch rel r e)
]

unfoldable pub resolve_labels : AnaEncoder → Bool × AnaEncoder
resolve_labels e = if e.failed || e.capacity == 0 then (false, e) else resolve_from e.relocs e
