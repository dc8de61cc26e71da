-- ===== src/Encoder/Resolve.antt =====
-- What `resolve_labels` of src/backend/ana_encoder.cpp achieves.
use anastasia.Base.{
  ℕ, ◌+◌, ◌-◌, ◌%◌, ◌^◌, ◌≤◌, ◌≡◌, ◌⊎◌, inl, inr, refl, sym, ap, ◌∙◌, subst, Bool, true, false,
  none, some, List, [], ◌∷◌, arith, Option-cases,
}
use anastasia.Base.Lists.{
  length, get_elem?, slice, All, length-write_at, slice-write_at_self, slice-write_at_after,
  slice-write_at_before,
}
use anastasia.Base.Words.{le_bytes, from_le, sign_extend32, from_le-le_bytes4}
use anastasia.Encoder.Buffer.{EncoderLabel, LabelReloc, AnaEncoder, cursor}
use anastasia.Encoder.Labels.{displacement, patch, resolve_from, site_end, relative, fits_rel32}

-- The four-byte fields of the relocations lie one behind the other between `lo` and `hi`.
abbrev pub SitesFrom : ℕ → List LabelReloc → ℕ → Type 0
SitesFrom lo [] hi = lo ≤ hi
SitesFrom lo (r ∷ rs) hi = (lo ≤ r.patch_offset) × SitesFrom (r.patch_offset + 4) rs hi

-- Where the processor goes from a branch: the end of its field plus the displacement in it.
abbrev pub branch_target : List ℕ → LabelReloc → ℕ
branch_target buffer r =
    (r.patch_offset + 4 + sign_extend32 (from_le (slice buffer r.patch_offset 4))) % 2 ^ 64

-- The branch goes to the bound label that it names.
abbrev pub Lands : List EncoderLabel → List ℕ → LabelReloc → Type 0
Lands labels buffer r =
    (l : EncoderLabel) × (get_elem? labels r.label_id ≡ some l)
    × (l.bound ≡ true)
    × (branch_target buffer r ≡ sign_extend32 l.offset % 2 ^ 64)

pub SitesFrom-le : (lo : ℕ) (rs : List LabelReloc) (hi : ℕ) → SitesFrom lo rs hi → lo ≤ hi
SitesFrom-le lo [] hi h = h
SitesFrom-le lo (r ∷ rs) hi h = omega (arith, SitesFrom-le (r.patch_offset + 4) rs hi h.1)

relative_leads :
    (p o : ℕ)
    → fits_rel32 ((o + (2 ^ 64 - (p + 4) % 2 ^ 64)) % 2 ^ 64) ≡ true
    → (p + 4 + sign_extend32 ((o + (2 ^ 64 - (p + 4) % 2 ^ 64)) % 2 ^ 64 % 2 ^ 32)) % 2 ^ 64
      ≡ o % 2 ^ 64
relative_leads p o k = ground arith

-- What the loop has found out where it goes on.
displacement-eq_some :
    (e : AnaEncoder) (r : LabelReloc) (rel : ℕ)
    → displacement e r ≡ some rel
    → (l : EncoderLabel) × (get_elem? e.labels r.label_id ≡ some l)
      × (l.bound ≡ true)
      × (site_end r ≤ cursor e)
      × (fits_rel32 (relative l.offset r) ≡ true)
      × (rel ≡ relative l.offset r % 2 ^ 32)
unfolding displacement
displacement-eq_some e r rel h = elim (Option-cases (get_elem? e.labels r.label_id)) [
  | inl no_label ↦ absurd (ground arith)
  | inr (l, found) ↦ (l, found, ground arith, ground arith, ground arith, ground arith)
]

-- A displacement of the loop, read back from the code, leads to the label.
displacement_leads :
    (e : AnaEncoder) (r : LabelReloc) (rel : ℕ) (buffer : List ℕ)
    → displacement e r ≡ some rel
    → from_le (slice buffer r.patch_offset 4) ≡ rel
    → Lands e.labels buffer r
displacement_leads e r rel buffer h k =
    let (l, found, bound, inside, fits, value) = displacement-eq_some e r rel h in
    (l, found, bound, rw (k, value) (relative_leads r.patch_offset (sign_extend32 l.offset) fits))

pub patch-labels : (rel : ℕ) (r : LabelReloc) (e : AnaEncoder) → (patch rel r e).labels ≡ e.labels
unfolding patch
patch-labels rel r e = refl

pub length-patch :
    (rel : ℕ) (r : LabelReloc) (e : AnaEncoder) → length (patch rel r e).buffer ≡ length e.buffer
unfolding patch
length-patch rel r e = length-write_at e.buffer r.patch_offset (le_bytes 4 rel)

resolve_from_stop :
    (r : LabelReloc) (rs : List LabelReloc) (e : AnaEncoder)
    → displacement e r ≡ none
    → resolve_from (r ∷ rs) e ≡ (false, e)
unfolding resolve_from
resolve_from_stop r rs e h = rw (resolve_from, h)

pub resolve_from_go :
    (r : LabelReloc) (rs : List LabelReloc) (e : AnaEncoder) (rel : ℕ)
    → displacement e r ≡ some rel
    → resolve_from (r ∷ rs) e ≡ resolve_from rs (patch rel r e)
unfolding resolve_from
resolve_from_go r rs e rel h = rw (resolve_from, h)

resolve_from-labels :
    (rs : List LabelReloc) (e : AnaEncoder) → (resolve_from rs e).1.labels ≡ e.labels
unfolding resolve_from
resolve_from-labels [] e = refl
resolve_from-labels (r ∷ rs) e = elim (Option-cases (displacement e r)) [
  | inl stop ↦ rw (resolve_from_stop r rs e stop)
  | inr (rel, go) ↦
      rw (resolve_from_go r rs e rel go)
        (resolve_from-labels rs (patch rel r e) ∙ patch-labels rel r e)
]

pub resolve_from-length :
    (rs : List LabelReloc) (e : AnaEncoder) → length (resolve_from rs e).1.buffer ≡ length e.buffer
unfolding resolve_from
resolve_from-length [] e = refl
resolve_from-length (r ∷ rs) e = elim (Option-cases (displacement e r)) [
  | inl stop ↦ rw (resolve_from_stop r rs e stop)
  | inr (rel, go) ↦
      rw (resolve_from_go r rs e rel go)
        (resolve_from-length rs (patch rel r e) ∙ length-patch rel r e)
]

-- The bytes at `j` and behind, `n` of them, belong to no relocation.
abbrev pub Outside : ℕ → ℕ → List LabelReloc → Type 0
Outside j n rs = All (λ r. (j + n ≤ r.patch_offset) ⊎ (r.patch_offset + 4 ≤ j)) rs

slice-patch :
    (rel : ℕ) (r : LabelReloc) (e : AnaEncoder) (j n : ℕ)
    → (j + n ≤ r.patch_offset) ⊎ (r.patch_offset + 4 ≤ j)
    → slice (patch rel r e).buffer j n ≡ slice e.buffer j n
unfolding patch
slice-patch rel r e j n (inl before) =
    slice-write_at_before e.buffer r.patch_offset (le_bytes 4 rel) j n before
slice-patch rel r e j n (inr behind) =
    slice-write_at_after e.buffer r.patch_offset (le_bytes 4 rel) j n behind

pub resolve_from-slice :
    (rs : List LabelReloc) (e : AnaEncoder) (j n : ℕ)
    → Outside j n rs
    → slice (resolve_from rs e).1.buffer j n ≡ slice e.buffer j n
unfolding resolve_from
resolve_from-slice [] e j n h = refl
resolve_from-slice (r ∷ rs) e j n h = elim (Option-cases (displacement e r)) [
  | inl stop ↦ rw (resolve_from_stop r rs e stop)
  | inr (rel, go) ↦
      rw (resolve_from_go r rs e rel go)
        (resolve_from-slice rs (patch rel r e) j n h.1 ∙ slice-patch rel r e j n h.0)
]

SitesFrom-Outside :
    (lo : ℕ) (rs : List LabelReloc) (hi j n : ℕ) → SitesFrom lo rs hi → j + n ≤ lo → Outside j n rs
SitesFrom-Outside lo [] hi j n h k = tt
SitesFrom-Outside lo (r ∷ rs) hi j n h k =
    (inl (omega arith), SitesFrom-Outside (r.patch_offset + 4) rs hi j n h.1 (omega arith))

-- The field that the loop has just written still holds its displacement at the end.
resolve_from-slice_self :
    (r : LabelReloc) (rs : List LabelReloc) (e : AnaEncoder) (rel hi : ℕ)
    → displacement e r ≡ some rel
    → r.patch_offset + 4 ≤ length e.buffer
    → SitesFrom (r.patch_offset + 4) rs hi
    → from_le (slice (resolve_from rs (patch rel r e)).1.buffer r.patch_offset 4) ≡ rel
unfolding patch
resolve_from-slice_self r rs e rel hi go inside sites =
    let (l, found, bound, below, fits, value) = displacement-eq_some e r rel go in
    let apart = SitesFrom-Outside (r.patch_offset + 4) rs hi r.patch_offset 4 sites (omega arith) in
    ap from_le (
      resolve_from-slice rs (patch rel r e) r.patch_offset 4 apart
      ∙ slice-write_at_self e.buffer r.patch_offset (le_bytes 4 rel) inside)
    ∙ from_le-le_bytes4 rel (omega arith)

-- After the loop has gone through, every relocation leads to its label: the fields of the earlier
-- relocations are left alone by the later ones.
pub resolve_from-Lands :
    (lo : ℕ) (rs : List LabelReloc) (e out : AnaEncoder)
    → SitesFrom lo rs (length e.buffer)
    → resolve_from rs e ≡ (true, out)
    → All (Lands e.labels out.buffer) rs
resolve_from-Lands lo [] e out h k = tt
resolve_from-Lands lo (r ∷ rs) e out h k = elim (Option-cases (displacement e r)) [
  | inl stop ↦ absurd (cc (resolve_from_stop r rs e stop))
  | inr (rel, go) ↦
      let rest = sym (resolve_from_go r rs e rel go) ∙ k in
      let inside = SitesFrom-le (r.patch_offset + 4) rs (length e.buffer) h.1 in
      let kept = length-patch rel r e in
      (
        displacement_leads e r rel out.buffer go (
            ap (λ (p : Bool × AnaEncoder). from_le (slice p.1.buffer r.patch_offset 4)) (sym rest)
            ∙ resolve_from-slice_self r rs e rel (length e.buffer) go inside h.1),
        subst (λ ls. All (Lands ls out.buffer) rs) (patch-labels rel r e)
            (resolve_from-Lands (r.patch_offset + 4) rs (patch rel r e) out (rw kept h.1) rest),
      )
]
