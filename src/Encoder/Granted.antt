-- ===== src/Encoder/Granted.antt =====
-- The emissions of src/backend/ana_encoder.cpp under a kernel that has memory.
use anastasia.Base.{
  ℕ, ◌+◌, ◌^◌, ◌≤◌, ◌<◌, ◌≡◌, refl, sym, ap, ◌∙◌, true, false, List, [], ◌∷◌, ◌++◌, arith,
  append_assoc, append-nil,
}
use anastasia.Base.Lists.{length, length-append}
use anastasia.Base.Words.{le_bytes}
use anastasia.Encoder.Buffer.{
  Kernel, AnaEncoder, grown_capacity, ensure_capacity, emit8, emit32, emit64, write_bytes,
}
use anastasia.Encoder.Prefix.{byte, dword, qword, Code, bytes, emit}

-- The kernel grants every mapping of at most 4 GiB.
abbrev pub HasMemory : Kernel → Type 0
HasMemory grants = (n size : ℕ) → size ≤ 2 ^ 32 → grants n size ≡ true

-- An encoder that has not failed, whose bytes lie in its mapping.
pub record IsOpen (e : AnaEncoder) : Type 0 where
  pub works : e.failed ≡ false
  pub inside : length e.buffer ≤ e.capacity

-- `bs` has been written.
pub record Writes (bs : List ℕ) (e e' : AnaEncoder) : Type 0 where
  pub still_open : IsOpen e'
  pub written : e'.buffer ≡ e.buffer ++ bs

Writes-then :
    (cs bs : List ℕ) {e e1 e2 : AnaEncoder}
    → Writes cs e e1
    → Writes bs e1 e2
    → Writes (cs ++ bs) e e2
Writes-then cs bs {e} {e1} {e2} p q = record {
  still_open = q.still_open;
  written = rw (q.written, p.written) (append_assoc e.buffer cs bs);
}

-- The rest of the code still fits when the first bytes are written.
room_after :
    (cs bs : List ℕ) {e e1 : AnaEncoder}
    → Writes cs e e1
    → length e.buffer + length (cs ++ bs) < 2 ^ 30
    → length e1.buffer + length bs < 2 ^ 30
room_after cs bs {e} {e1} p room =
    let total = length-append cs bs in
    let after : length e1.buffer ≡ length e.buffer + length cs =
      ap length p.written ∙ length-append e.buffer cs in
    omega arith

module _ (grants : Kernel) (memory : HasMemory grants) where
  write_bytes-Writes :
      (n : ℕ) (bs : List ℕ) (e : AnaEncoder)
      → length bs ≡ n
      → n ≤ 8
      → IsOpen e
      → length e.buffer + n < 2 ^ 30
      → Writes bs e (write_bytes bs (ensure_capacity grants n e))
  unfolding ensure_capacity
  write_bytes-Writes n bs e len small h room =
      ground (arith, memory e.mapped (grown_capacity e.capacity n), length-append e.buffer bs)

  -- Under a kernel that grants every mapping of at most 4 GiB, running the emissions of a method on
  -- an encoder that has not failed and whose bytes lie in its mapping does not fail, and adds all
  -- the bytes of the method, as long as the code stays shorter than 1 GiB.
  pub emit-Writes :
      (c : Code) (e : AnaEncoder)
      → IsOpen e
      → length e.buffer + length (bytes c) < 2 ^ 30
      → Writes (bytes c) e (emit grants c e)
  unfolding emit emit8 emit32 emit64
  emit-Writes [] e h room = record { still_open = h; written = sym (append-nil e.buffer) }
  emit-Writes (byte b ∷ c) e h room =
      let first =
        write_bytes-Writes 1 (b ∷ []) e refl (omega arith) h
          (omega (arith, length-append (b ∷ []) (bytes c))) in
      Writes-then (b ∷ []) (bytes c) first (
        emit-Writes c (emit8 grants b e) first.still_open
          (room_after (b ∷ []) (bytes c) first room))
  emit-Writes (dword d ∷ c) e h room =
      let first =
        write_bytes-Writes 4 (le_bytes 4 d) e refl (omega arith) h
          (omega (arith, length-append (le_bytes 4 d) (bytes c))) in
      Writes-then (le_bytes 4 d) (bytes c) first (
        emit-Writes c (emit32 grants d e) first.still_open
          (room_after (le_bytes 4 d) (bytes c) first room))
  emit-Writes (qword q ∷ c) e h room =
      let first =
        write_bytes-Writes 8 (le_bytes 8 q) e refl (omega arith) h
          (omega (arith, length-append (le_bytes 8 q) (bytes c))) in
      Writes-then (le_bytes 8 q) (bytes c) first (
        emit-Writes c (emit64 grants q e) first.still_open
          (room_after (le_bytes 8 q) (bytes c) first room))
