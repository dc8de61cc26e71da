-- ===== src/Heap/Invariant.antt =====
-- The chunks of src/sys/object_heap.cpp: in bounds, aligned, and apart from one another.
use anastasia.Base.{ℕ, ◌+◌, ◌%◌, ◌≤◌, ◌<◌, ◌≡◌, ◌⊎◌, some, List, [], ◌∷◌, arith}
use anastasia.Base.Lists.{All}
use anastasia.Heap.{Kernel, HeapChunk, ObjectHeap, fresh_chunk}

-- Two ranges of bytes do not meet.
abbrev pub Apart : ℕ → ℕ → ℕ → ℕ → Type 0
Apart a m b n = (a + m ≤ b) ⊎ (b + n ≤ a)

-- What is relied on of `mmap`: a mapping begins at a page, and meets no earlier one.
pub record IsMmap (mmap : Kernel) : Type 0 where
  pub aligned : (n size base : ℕ) → mmap n size ≡ some base → base % 4096 ≡ 0
  pub apart : (m n s t a b : ℕ) → m < n → mmap m s ≡ some a → mmap n t ≡ some b → Apart a s b t

module _ (mmap : Kernel) where
  -- The chunk is a mapping made before the k-th call.
  pub record ChunkFits (k : ℕ) (c : HeapChunk) : Type 0 where
    pub call : ℕ
    pub earlier : call < k
    pub granted : mmap call c.mapping_size ≡ some c.base
    pub header : c.capacity + 64 ≡ c.mapping_size
    pub within : c.offset ≤ c.capacity
    pub on_line : c.offset % 64 ≡ 0

abbrev pub ApartFrom : HeapChunk → HeapChunk → Type 0
ApartFrom c d = Apart c.base c.mapping_size d.base d.mapping_size

abbrev pub PairwiseApart : List HeapChunk → Type 0
PairwiseApart [] = Unit {0}
PairwiseApart (c ∷ cs) = All (ApartFrom c) cs × PairwiseApart cs

module _ (mmap : Kernel) where
  pub record IsValid (h : ObjectHeap) : Type 0 where
    pub fits : All (ChunkFits mmap h.mapped) h.chunks
    pub apart : PairwiseApart h.chunks

  pub ChunkFits-mono :
      (k l : ℕ) (cs : List HeapChunk)
      → k ≤ l
      → All (ChunkFits mmap k) cs
      → All (ChunkFits mmap l) cs
  ChunkFits-mono k l [] h f = tt
  ChunkFits-mono k l (c ∷ cs) h (f, fs) = (
    record {
      call = f.call;
      earlier = omega (arith, f.earlier);
      granted = f.granted;
      header = f.header;
      within = f.within;
      on_line = f.on_line;
    },
    ChunkFits-mono k l cs h fs,
  )

module _ (mmap : Kernel) (good : IsMmap mmap) where
  pub fresh_apart :
      (k size base : ℕ) (cs : List HeapChunk)
      → mmap k size ≡ some base
      → All (ChunkFits mmap k) cs
      → All (ApartFrom (fresh_chunk base size)) cs
  fresh_apart k size base [] e f = tt
  fresh_apart k size base (c ∷ cs) e (f, fs) = (
    ground (arith, good.apart f.call k c.mapping_size size c.base base f.earlier f.granted e),
    fresh_apart k size base cs e fs,
  )
