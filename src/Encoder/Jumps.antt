-- ===== src/Encoder/Jumps.antt =====
-- The branches of a session with the encoder of src/backend/ana_encoder.cpp, as the processor reads
-- them after `resolve_labels`.
use anastasia.Base.{
  ℕ, zero, suc, ◌+◌, ◌-◌, ◌%◌, ◌^◌, ◌≤◌, ◌<◌, ◌≡◌, refl, ap, ◌∙◌, subst, Bool, true, Option, none,
  some, List, [], ◌∷◌, arith, inl, inr,
}
use anastasia.Base.Lists.{length, get_elem?, slice, All}
use anastasia.Base.Words.{from_le, sign_extend32}
use anastasia.Encoder.Buffer.{Kernel, EncoderLabel, LabelReloc, AnaEncoder}
use anastasia.Encoder.Labels.{resolve_labels}
use anastasia.Encoder.Growth.{AddressSpace}
use anastasia.Encoder.Resolve.{Outside}
use anastasia.Encoder.Session.{Call, session, session-IsValid}
use anastasia.Encoder.Trace.{Branch, Trace, nothing, trace}
use anastasia.Encoder.TraceShape.{Written, Inside, IsTrace, nothing-IsTrace, trace_from-IsTrace}
use anastasia.Encoder.Tracks.{bound, unbound, SameLabels, SameBranches, Follows, session-Tracks}
use anastasia.Encoder.Branches.{
  Branches, resolve_labels-true, resolve_labels-Branches, resolve_labels-slice,
  resolve_labels-length,
}

All-zip :
    (P Q R : Branch → Type 0)
    → ((b : Branch) → P b → Q b → R b)
    → (bs : List Branch) → All P bs
    → All Q bs
    → All R bs
All-zip P Q R f [] ps qs = tt
All-zip P Q R f (b ∷ bs) (p, ps) (q, qs) = (f b p q, All-zip P Q R f bs ps qs)

All-map :
    (P R : Branch → Type 0) → ((b : Branch) → P b → R b) → (bs : List Branch) → All P bs → All R bs
All-map P R f [] ps = tt
All-map P R f (b ∷ bs) (p, ps) = (f b p, All-map P R f bs ps)

-- A bound label of the encoder has its place in the trace.
place_of :
    (ls : List EncoderLabel) (ps : List (Option ℕ)) (i : ℕ) (l : EncoderLabel)
    → SameLabels ls ps
    → get_elem? ls i ≡ some l
    → l.bound ≡ true
    → (p : ℕ) × (get_elem? ps i ≡ some (some p)) × (l.offset ≡ p % 2 ^ 32)
place_of [] ps i l same found b = absurd (cc)
place_of (k ∷ ls) [] i l same found b = absurd same
place_of (k ∷ ls) (none ∷ ps) zero l (unbound m free, same) found b = absurd (ground arith)
place_of (k ∷ ls) (some p ∷ ps) zero l (bound m q set is, same) found b = (q, refl, ground arith)
place_of (k ∷ ls) (p ∷ ps) (suc i) l same found b = place_of ls ps i l same.1 found b

-- The opcode of a later branch meets no field.
Written-Outside :
    (lo : ℕ) (rs : List LabelReloc) (bs : List Branch) (code : List ℕ) (j n : ℕ)
    → SameBranches rs bs
    → Written lo bs code
    → j + n ≤ lo
    → Outside j n rs
Written-Outside lo [] bs code j n same w h = tt
Written-Outside lo (r ∷ rs) [] code j n same w h = absurd same
Written-Outside lo (r ∷ rs) (b ∷ bs) code j n same w h =
    let own = w.0 in
    (
      inl (rw same.0 (omega arith)),
      Written-Outside (b.field + 4) rs bs code j n same.2 w.2 (omega arith),
    )

Written-above :
    (lo : ℕ) (bs : List Branch) (code : List ℕ)
    → Written lo bs code
    → All (λ b. lo ≤ b.field - length b.opcode) bs
Written-above lo [] code w = tt
Written-above lo (b ∷ bs) code w = (
  omega (arith, w.0),
  All-map _ _ (λ c h. omega (arith, w.0)) bs (Written-above (b.field + 4) bs code w.2),
)

-- No opcode meets a field.
opcodes-Outside :
    (lo : ℕ) (rs : List LabelReloc) (bs : List Branch) (code : List ℕ)
    → SameBranches rs bs
    → Written lo bs code
    → All (λ b. Outside (b.field - length b.opcode) (length b.opcode) rs) bs
opcodes-Outside lo [] [] code same w = tt
opcodes-Outside lo [] (b ∷ bs) code same w = absurd same
opcodes-Outside lo (r ∷ rs) [] code same w = absurd same
opcodes-Outside lo (r ∷ rs) (b ∷ bs) code same w =
    let own = w.0 in
    (
      (
        inl (rw same.0 (omega arith)),
        Written-Outside (b.field + 4) rs bs code (b.field - length b.opcode) (length b.opcode)
            same.2 w.2 (omega arith),
      ),
      All-zip _ _ _ (λ c h above. (inr (rw same.0 above), h)) bs
          (opcodes-Outside (b.field + 4) rs bs code same.2 w.2)
          (Written-above (b.field + 4) bs code w.2),
    )

-- In `buffer` the opcode of the branch stands before its field, and the processor goes from it to
-- the place, in the code, at which the label that it names was bound.
abbrev pub Jumps : List (Option ℕ) → List ℕ → Branch → Type 0
Jumps places buffer b =
    (slice buffer (b.field - length b.opcode) (length b.opcode) ≡ b.opcode)
    × (p : ℕ) × (get_elem? places b.label_id ≡ some (some p))
    × ((b.field + 4 + sign_extend32 (from_le (slice buffer b.field 4))) % 2 ^ 64 ≡ p)
    × (p ≤ length buffer)

relocs_jump :
    (labels : List EncoderLabel) (places : List (Option ℕ)) (buffer code : List ℕ) (lo : ℕ)
    (rs : List LabelReloc) (bs : List Branch)
    → SameLabels labels places
    → Inside (length buffer) places
    → length buffer < 2 ^ 31
    → SameBranches rs bs
    → Written lo bs code
    → All
        (λ b.
          slice buffer (b.field - length b.opcode) (length b.opcode)
          ≡ slice code (b.field - length b.opcode) (length b.opcode))
        bs
    → All (Branches labels buffer) rs
    → All (Jumps places buffer) bs
relocs_jump labels places buffer code lo [] [] known inside short same w kept h = tt
relocs_jump labels places buffer code lo [] (b ∷ bs) known inside short same w kept h = absurd same
relocs_jump labels places buffer code lo (r ∷ rs) [] known inside short same w kept h = tt
relocs_jump labels places buffer code lo (r ∷ rs) (b ∷ bs) known inside short same w kept
      ((l, found, is_bound, leads, within), h) =
    let (p, placed_p, offset) =
      place_of labels places b.label_id l known
        (subst (λ i. get_elem? labels i ≡ some l) same.1 found) is_bound in
    let low = inside b.label_id p placed_p in
    let at_p : l.offset ≡ p = omega arith in
    (
      (
        kept.0 ∙ w.1,
        p,
        placed_p,
        subst (λ f. (f + 4 + sign_extend32 (from_le (slice buffer f 4))) % 2 ^ 64 ≡ p) same.0
            (leads ∙ at_p),
        low,
      ),
      relocs_jump labels places buffer code (b.field + 4) rs bs known inside short same.2 w.2 kept.1
          h,
    )

-- After any sequence of method calls that leaves less than 2 GiB of code, under a kernel that maps
-- no more than 2^47 bytes at once, if `resolve_labels` returns true, then every branch that the
-- calls have written since the last reset has its opcode (E9, or 0F and the byte of its condition)
-- in the code, and goes, by the displacement that the processor reads behind it, to the
-- place in the code at which the label that the call names was last bound. Where the branches stand,
-- which labels they name and where these were bound is read off the calls, not off the encoder.
-- The code keeps its length.
pub session-Jumps :
    (grants : Kernel) (cs : List Call) (out : AnaEncoder)
    → AddressSpace grants
    → length (trace cs).code < 2 ^ 31
    → resolve_labels (session grants cs) ≡ (true, out)
    → All (Jumps (trace cs).places out.buffer) (trace cs).branches
      × (length out.buffer ≡ length (trace cs).code)
session-Jumps grants cs out space short done =
    let e : AnaEncoder = session grants cs in
    let t : Trace = trace cs in
    let (ok, mapped) = resolve_labels-true e (ap (λ (p : Bool × AnaEncoder). p.0) done) in
    let f : Follows e t = session-Tracks grants space cs ok in
    let is : IsTrace t = trace_from-IsTrace cs nothing nothing-IsTrace in
    let same_size : length e.buffer ≡ length t.code = ap length f.code in
    let kept : length out.buffer ≡ length e.buffer = resolve_labels-length e out done in
    let short_code : length e.buffer < 2 ^ 31 = rw same_size short in
    (
      relocs_jump e.labels t.places out.buffer t.code 0 e.relocs t.branches f.labels
          (rw (kept, same_size) is.inside) (rw kept short_code) f.branches is.written
          (All-map _ _
            (λ b h.
              resolve_labels-slice e out _ _ done h
              ∙ ap (λ c. slice c (b.field - length b.opcode) (length b.opcode)) f.code)
            t.branches (opcodes-Outside 0 e.relocs t.branches t.code f.branches is.written))
          (resolve_labels-Branches e out (session-IsValid grants space cs) short_code done),
      kept ∙ same_size,
    )
