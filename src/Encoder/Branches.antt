-- ===== src/Encoder/Branches.antt =====
-- Resolution after a session with the encoder of src/backend/ana_encoder.cpp: when it succeeds, and
-- where the branches then go.
use anastasia.Base.{
  ℕ, ◌+◌, ◌-◌, ◌%◌, ◌^◌, ◌≤◌, ◌<◌, ◌≡◌, ◌≢◌, ◌↔◌, refl, sym, ap, ◌∙◌, Bool, true, false, some, List,
  [], ◌∷◌, arith,
}
use anastasia.Base.Lists.{length, get_elem?, slice, All, All-get_elem?}
use anastasia.Base.Words.{sign_extend32}
use anastasia.Encoder.Buffer.{Kernel, EncoderLabel, LabelReloc, AnaEncoder, cursor}
use anastasia.Encoder.Labels.{
  displacement, patch, resolve_from, resolve_labels, site_end, relative, fits_rel32,
}
use anastasia.Encoder.Growth.{AddressSpace}
use anastasia.Encoder.Resolve.{
  SitesFrom, Lands, branch_target, Outside, resolve_from_go, resolve_from-Lands, resolve_from-slice,
  resolve_from-length, SitesFrom-le, length-patch, patch-labels,
}
use anastasia.Encoder.Invariant.{IsValid, LabelFits}
use anastasia.Encoder.Session.{Call, session, session-IsValid}

-- The label that a relocation names is bound.
abbrev pub IsBound : List EncoderLabel → LabelReloc → Type 0
IsBound labels r = (l : EncoderLabel) × (get_elem? labels r.label_id ≡ some l) × (l.bound ≡ true)

-- In `buffer` the branch goes to the offset of its label, inside the code.
abbrev pub Branches : List EncoderLabel → List ℕ → LabelReloc → Type 0
Branches labels buffer r =
    (l : EncoderLabel) × (get_elem? labels r.label_id ≡ some l)
    × (l.bound ≡ true)
    × (branch_target buffer r ≡ l.offset)
    × (l.offset ≤ length buffer)

-- The code is shorter than the `int32_t` in which a label holds its offset.
abbrev pub IsShort : AnaEncoder → Type 0
IsShort e = cursor e < 2 ^ 31

Lands-Branches :
    (labels : List EncoderLabel) (buffer : List ℕ) (n : ℕ) (rs : List LabelReloc)
    → All (LabelFits n) labels
    → n < 2 ^ 31
    → n ≡ length buffer
    → All (Lands labels buffer) rs
    → All (Branches labels buffer) rs
Lands-Branches labels buffer n [] fit short same h = tt
Lands-Branches labels buffer n (r ∷ rs) fit short same ((l, found, bound, leads), h) =
    let inside = All-get_elem? (LabelFits n) labels r.label_id fit found bound in
    (
      (l, found, bound, leads ∙ ground arith, omega arith),
      Lands-Branches labels buffer n rs fit short same h,
    )

fits_rel32_short :
    (o s : ℕ)
    → o < 2 ^ 31
    → s < 2 ^ 31
    → fits_rel32 ((sign_extend32 o + (2 ^ 64 - s)) % 2 ^ 64) ≡ true
fits_rel32_short o s h k = ground arith

-- For a bound label in short code the loop finds a displacement.
displacement_found :
    (e : AnaEncoder) (r : LabelReloc)
    → All (LabelFits (length e.buffer)) e.labels
    → IsShort e
    → r.patch_offset + 4 ≤ cursor e
    → IsBound e.labels r
    → (rel : ℕ) × (displacement e r ≡ some rel)
unfolding displacement
displacement_found e r fit short inside (l, found, bound) =
    let o = All-get_elem? (LabelFits (length e.buffer)) e.labels r.label_id fit found bound in
    let fits = fits_rel32_short l.offset (site_end r) (omega arith) (omega arith) in
    (relative l.offset r % 2 ^ 32, ground arith)

resolve_from_succeeds :
    (lo : ℕ) (rs : List LabelReloc) (e : AnaEncoder)
    → SitesFrom lo rs (length e.buffer)
    → All (LabelFits (length e.buffer)) e.labels
    → IsShort e
    → All (IsBound e.labels) rs
    → (resolve_from rs e).0 ≡ true
unfolding resolve_from
resolve_from_succeeds lo [] e sites fit short bound = refl
resolve_from_succeeds lo (r ∷ rs) e sites fit short bound =
    let inside = SitesFrom-le (r.patch_offset + 4) rs (length e.buffer) sites.1 in
    let (rel, go) = displacement_found e r fit short inside bound.0 in
    let kept = length-patch rel r e in
    let same = patch-labels rel r e in
    rw (resolve_from_go r rs e rel go) (
      resolve_from_succeeds (r.patch_offset + 4) rs (patch rel r e) (rw kept sites.1)
        (rw (kept, same) fit) (rw kept short) (rw same bound.1))

resolve_labels_open :
    (e : AnaEncoder)
    → e.failed ≡ false
    → e.capacity ≢ 0
    → resolve_labels e ≡ resolve_from e.relocs e
unfolding resolve_labels
resolve_labels_open e h k = ground arith

pub resolve_labels-true :
    (e : AnaEncoder) → (resolve_labels e).0 ≡ true → (e.failed ≡ false) × (e.capacity ≢ 0)
unfolding resolve_labels
resolve_labels-true e h = ground arith

Branches-IsBound :
    (labels : List EncoderLabel) (buffer : List ℕ) (rs : List LabelReloc)
    → All (Branches labels buffer) rs
    → All (IsBound labels) rs
Branches-IsBound labels buffer [] h = tt
Branches-IsBound labels buffer (r ∷ rs) ((l, found, bound, leads, inside), h) =
    ((l, found, bound), Branches-IsBound labels buffer rs h)

pub resolve_labels-Branches :
    (e out : AnaEncoder)
    → IsValid e
    → IsShort e
    → resolve_labels e ≡ (true, out)
    → All (Branches e.labels out.buffer) e.relocs
resolve_labels-Branches e out v short done =
    let (ok, mapped) = resolve_labels-true e (ap (λ (p : Bool × AnaEncoder). p.0) done) in
    let looped = sym (resolve_labels_open e ok mapped) ∙ done in
    let same = ap (λ (p : Bool × AnaEncoder). length p.1.buffer) looped in
    Lands-Branches e.labels out.buffer (length e.buffer) e.relocs v.offsets short
      (sym (resolve_from-length e.relocs e) ∙ same)
      (resolve_from-Lands 0 e.relocs e out (v.sites ok) looped)

pub resolve_labels-length :
    (e out : AnaEncoder) → resolve_labels e ≡ (true, out) → length out.buffer ≡ length e.buffer
resolve_labels-length e out done =
    let (ok, mapped) = resolve_labels-true e (ap (λ (p : Bool × AnaEncoder). p.0) done) in
    let looped = sym (resolve_labels_open e ok mapped) ∙ done in
    sym (ap (λ (p : Bool × AnaEncoder). length p.1.buffer) looped) ∙ resolve_from-length e.relocs e

-- A resolution that returns true changes no run of bytes that meets none of the four-byte fields of
-- the branches.
pub resolve_labels-slice :
    (e out : AnaEncoder) (j n : ℕ)
    → resolve_labels e ≡ (true, out)
    → Outside j n e.relocs
    → slice out.buffer j n ≡ slice e.buffer j n
resolve_labels-slice e out j n done apart =
    let (ok, mapped) = resolve_labels-true e (ap (λ (p : Bool × AnaEncoder). p.0) done) in
    let looped = sym (resolve_labels_open e ok mapped) ∙ done in
    sym (ap (λ (p : Bool × AnaEncoder). slice p.1.buffer j n) looped)
    ∙ resolve_from-slice e.relocs e j n apart

-- After any sequence of method calls that leaves less than 2 GiB of code, under a kernel that maps
-- no more than 2^47 bytes at once, `resolve_labels` returns true exactly when no failure is
-- latched, the buffer is mapped, and every relocation names a label that is bound.
pub session_resolves :
    (grants : Kernel) (cs : List Call)
    → AddressSpace grants
    → IsShort (session grants cs)
    → let e = session grants cs in
      ((resolve_labels e).0 ≡ true)
      ↔ ((e.failed ≡ false) × (e.capacity ≢ 0) × All (IsBound e.labels) e.relocs)
session_resolves grants cs space short =
    let e : AnaEncoder = session grants cs in
    let v : IsValid e = session-IsValid grants space cs in
    (
      (λ done.
          let (ok, mapped) = resolve_labels-true e done in
          let out : AnaEncoder = (resolve_labels e).1 in
          (
            ok,
            mapped,
            Branches-IsBound e.labels out.buffer e.relocs
                (resolve_labels-Branches e out v short (λ i. (done i, out))),
          )),
      (λ (ok, mapped, bound).
          ap (λ (p : Bool × AnaEncoder). p.0) (resolve_labels_open e ok mapped)
          ∙ resolve_from_succeeds 0 e.relocs e (v.sites ok) v.offsets short bound),
    )
