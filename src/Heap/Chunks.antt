-- ===== src/Heap/Chunks.antt =====
-- Whether a chunk of src/sys/object_heap.cpp has room, and what making room does.
use anastasia.Base.{
  ℕ, ◌+◌, ◌%◌, ◌^◌, ◌≤◌, ◌≡◌, ◌⊎◌, inl, inr, Bool, true, false, none, some, List, [], ◌∷◌, arith,
  refl, Option-cases, Bool-cases,
}
use anastasia.Base.Lists.{All}
use anastasia.Heap.{
  Kernel, HeapChunk, ObjectHeap, rounded_mapping, fresh_chunk, new_chunk, has_room, ensure_room,
}
use anastasia.Heap.Invariant.{IsMmap, ChunkFits, IsValid, ChunkFits-mono, fresh_apart}

-- The bytes lie in the used part of a chunk.
abbrev pub Within : HeapChunk → ℕ → ℕ → Type 0
Within c a n = (c.base + 64 ≤ a) × (a + n ≤ c.base + 64 + c.offset)

abbrev pub Used : List HeapChunk → ℕ → ℕ → Type 0
Used [] a n = ⊥
Used (c ∷ cs) a n = Within c a n ⊎ Used cs a n

-- The current chunk has room for `need` bytes.
abbrev pub HasRoom : ℕ → List HeapChunk → Type 0
HasRoom need [] = ⊥
HasRoom need (c ∷ cs) = c.offset + need ≤ c.capacity

abbrev pub mapping_for : ℕ → ℕ
mapping_for need = rounded_mapping ((need + 64) % 2 ^ 64)

-- `h'` has every used byte of `h`, and the same memory.
pub record Extends (h h' : ObjectHeap) : Type 0 where
  pub used : (a n : ℕ) → Used h.chunks a n → Used h'.chunks a n
  pub memory_kept : h'.memory ≡ h.memory

module _ (mmap : Kernel) where
  new_chunk-none :
      (need : ℕ) (h : ObjectHeap)
      → need ≤ 2 ^ 30
      → mmap h.mapped (mapping_for need) ≡ none
      → new_chunk mmap need h ≡ (false, record h { mapped = h.mapped + 1 })
  unfolding new_chunk
  new_chunk-none need h small e = ground arith

  new_chunk-some :
      (need base : ℕ) (h : ObjectHeap)
      → need ≤ 2 ^ 30
      → mmap h.mapped (mapping_for need) ≡ some base
      → new_chunk mmap need h ≡ (
        true,
        record h { chunks = fresh_chunk base (mapping_for need) ∷ h.chunks; mapped = h.mapped + 1 },
      )
  unfolding new_chunk
  new_chunk-some need base h small e = ground arith

  -- What `ensure_room` leaves behind.
  pub record Prepared (need : ℕ) (h : ObjectHeap) (r : Bool × ObjectHeap) : Type 0 where
    pub valid : IsValid mmap r.1
    pub extends : Extends h r.1
    pub room : r.0 ≡ true → HasRoom need r.1.chunks

  has_room-HasRoom :
      (need : ℕ) (h : ObjectHeap)
      → IsValid mmap h
      → has_room need h.chunks ≡ true
      → HasRoom need h.chunks
  has_room-HasRoom need h v e = in_current h.chunks v.fits e
    where
      in_current :
          (cs : List HeapChunk)
          → All (ChunkFits mmap h.mapped) cs
          → has_room need cs ≡ true
          → HasRoom need cs
      in_current [] f e = cc
      in_current (c ∷ cs) f e = ground (arith, f.0.within)

module _ (mmap : Kernel) (good : IsMmap mmap) where
  grown-Prepared :
      (need base : ℕ) (h : ObjectHeap)
      → need ≤ 2 ^ 30
      → IsValid mmap h
      → mmap h.mapped (mapping_for need) ≡ some base
      → Prepared mmap need h (new_chunk mmap need h)
  grown-Prepared need base h small v e = rw (new_chunk-some mmap need base h small e) (record {
    valid = record {
      fits = (
        record {
          call = h.mapped;
          earlier = omega arith;
          granted = e;
          header = ground arith;
          within = omega arith;
          on_line = omega arith;
        },
        ChunkFits-mono mmap h.mapped (h.mapped + 1) h.chunks (omega arith) v.fits,
      );
      apart = (fresh_apart mmap good h.mapped (mapping_for need) base h.chunks e v.fits, v.apart);
    };
    extends = record { used = λ a n u. inr u; memory_kept = refl };
    room = λ _. ground arith;
  })

  pub ensure_room-Prepared :
      (need : ℕ) (h : ObjectHeap)
      → need ≤ 2 ^ 30
      → IsValid mmap h
      → Prepared mmap need h (ensure_room mmap need h)
  unfolding ensure_room
  ensure_room-Prepared need h small v = elim (Bool-cases (has_room need h.chunks)) [
    | inl room ↦ rw room (record {
      valid = v;
      extends = record { used = λ a n u. u; memory_kept = refl };
      room = λ _. has_room-HasRoom mmap need h v room;
    })
    | inr full ↦ rw full (elim (Option-cases (mmap h.mapped (mapping_for need))) [
      | inl refused ↦ rw (new_chunk-none mmap need h small refused) (record {
        valid = record {
          fits = ChunkFits-mono mmap h.mapped (h.mapped + 1) h.chunks (omega arith) v.fits;
          apart = v.apart;
        };
        extends = record { used = λ a n u. u; memory_kept = refl };
        room = λ b. absurd (cc);
      })
      | inr (base, granted) ↦ grown-Prepared need base h small v granted
    ])
  ]
