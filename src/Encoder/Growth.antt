-- ===== src/Encoder/Growth.antt =====
-- The code buffer of src/backend/ana_encoder.cpp grows before every write.
use native.Mathlib.Nat.{le_trans}
use anastasia.Base.{
  ℕ, ◌+◌, ◌^◌, ◌≤◌, ◌≡◌, refl, sym, ◌∙◌, true, false, List, [], ◌∷◌, ◌++◌, arith, append_assoc,
  append-nil, Bool-cases, inl, inr,
}
use anastasia.Base.Lists.{length, length-append}
use anastasia.Base.Words.{le_bytes}
use anastasia.Encoder.Buffer.{
  Kernel, AnaEncoder, grown_capacity, ensure_capacity, emit8, emit32, emit64, write_bytes,
}
use anastasia.Encoder.Prefix.{byte, dword, qword, Code, bytes, emit}

-- The kernel maps nothing larger than the user half of a 48-bit address space.
abbrev pub AddressSpace : Kernel → Type 0
AddressSpace grants = (n size : ℕ) → grants n size ≡ true → size ≤ 2 ^ 47

-- Every byte written lies in the mapping.
pub record IsSized (e : AnaEncoder) : Type 0 where
  pub inside : length e.buffer ≤ e.capacity
  pub mappable : e.capacity ≤ 2 ^ 47

-- What `emit c` may change: the bytes of `c` are added, or the failure is latched.
pub record Appends (bs : List ℕ) (e e' : AnaEncoder) : Type 0 where
  pub sized : IsSized e'
  pub labels_kept : e'.labels ≡ e.labels
  pub relocs_kept : e'.relocs ≡ e.relocs
  pub grown : length e.buffer ≤ length e'.buffer
  pub latched : e.failed ≡ true → e'.failed ≡ true
  pub added : e'.failed ≡ false → e'.buffer ≡ e.buffer ++ bs

pub not_latched :
    {bs : List ℕ} {e e' : AnaEncoder} → Appends bs e e' → e'.failed ≡ false → e.failed ≡ false
not_latched {e = e} a h = elim (Bool-cases e.failed) [ inl f ↦ cc (a.latched f) | inr f ↦ f ]

pub Appends-trans :
    (cs bs : List ℕ) {e e1 e2 : AnaEncoder}
    → Appends cs e e1
    → Appends bs e1 e2
    → Appends (cs ++ bs) e e2
Appends-trans cs bs {e} {e1} {e2} p q = record {
  sized = q.sized;
  labels_kept = q.labels_kept ∙ p.labels_kept;
  relocs_kept = q.relocs_kept ∙ p.relocs_kept;
  grown = le_trans p.grown q.grown;
  latched = λ h. q.latched (p.latched h);
  added = λ h. rw (q.added h, p.added (not_latched q h)) (append_assoc e.buffer cs bs);
}

module _ (grants : Kernel) (space : AddressSpace grants) where
  ensure_capacity-IsSized :
      (n : ℕ) (e : AnaEncoder) → n ≤ 4096 → IsSized e → IsSized (ensure_capacity grants n e).1
  unfolding ensure_capacity
  ensure_capacity-IsSized n e small h = ground (arith, space e.mapped (grown_capacity e.capacity n))

  ensure_capacity_room :
      (n : ℕ) (e : AnaEncoder)
      → n ≤ 4096
      → IsSized e
      → (ensure_capacity grants n e).0 ≡ true
      → length e.buffer + n ≤ (ensure_capacity grants n e).1.capacity
  unfolding ensure_capacity
  ensure_capacity_room n e small h = ground arith

  pub write_bytes-Appends :
      (n : ℕ) (bs : List ℕ) (e : AnaEncoder)
      → length bs ≡ n
      → n ≤ 4096
      → IsSized e
      → Appends bs e (write_bytes bs (ensure_capacity grants n e))
  unfolding ensure_capacity
  write_bytes-Appends n bs e len small h =
      ground (arith, space e.mapped (grown_capacity e.capacity n), length-append e.buffer bs)

  -- However a kernel that maps no more than 2^47 bytes at once answers, running the emissions of a
  -- method on an encoder whose bytes lie in its mapping keeps every written byte inside the mapping
  -- and the labels and relocations as they were; a failure stays latched, and an encoder that has
  -- not failed has gained exactly the bytes of the method.
  pub emit-Appends : (c : Code) (e : AnaEncoder) → IsSized e → Appends (bytes c) e (emit grants c e)
  unfolding emit emit8 emit32 emit64
  emit-Appends [] e h = record {
    sized = h;
    labels_kept = refl;
    relocs_kept = refl;
    grown = omega arith;
    latched = λ f. f;
    added = λ _. sym (append-nil e.buffer);
  }
  emit-Appends (byte b ∷ c) e h =
      let first = write_bytes-Appends 1 (b ∷ []) e refl (omega arith) h in
      Appends-trans (b ∷ []) (bytes c) first (emit-Appends c (emit8 grants b e) first.sized)
  emit-Appends (dword d ∷ c) e h =
      let first = write_bytes-Appends 4 (le_bytes 4 d) e refl (omega arith) h in
      Appends-trans (le_bytes 4 d) (bytes c) first (emit-Appends c (emit32 grants d e) first.sized)
  emit-Appends (qword q ∷ c) e h =
      let first = write_bytes-Appends 8 (le_bytes 8 q) e refl (omega arith) h in
      Appends-trans (le_bytes 8 q) (bytes c) first (emit-Appends c (emit64 grants q e) first.sized)

  pub emit8-Appends : (b : ℕ) (e : AnaEncoder) → IsSized e → Appends (b ∷ []) e (emit8 grants b e)
  unfolding emit8
  emit8-Appends b e h = write_bytes-Appends 1 (b ∷ []) e refl (omega arith) h

  pub emit32-Appends :
      (d : ℕ) (e : AnaEncoder) → IsSized e → Appends (le_bytes 4 d) e (emit32 grants d e)
  unfolding emit32
  emit32-Appends d e h = write_bytes-Appends 4 (le_bytes 4 d) e refl (omega arith) h
