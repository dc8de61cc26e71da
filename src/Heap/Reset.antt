-- ===== src/Heap/Reset.antt =====
-- `reset`, `chunk_count` and `bytes_allocated` of src/sys/object_heap.cpp.
use anastasia.Base.{ℕ, ◌≤◌, ◌≡◌, List, [], ◌∷◌, arith, refl}
use anastasia.Base.Lists.{All, length}
use anastasia.Heap.{
  Kernel, HeapChunk, ObjectHeap, reset, rewound, chunk_count, bytes_allocated, sum_offsets,
}
use anastasia.Heap.Invariant.{IsValid, ChunkFits, PairwiseApart}

rewound-fits :
    (mmap : Kernel) (k : ℕ) (cs : List HeapChunk)
    → All (ChunkFits mmap k) cs
    → All (ChunkFits mmap k) (rewound cs)
rewound-fits mmap k [] f = tt
rewound-fits mmap k (c ∷ []) (f, _) = (
  record {
    call = f.call;
    earlier = f.earlier;
    granted = f.granted;
    header = f.header;
    within = omega arith;
    on_line = omega arith;
  },
  tt,
)
rewound-fits mmap k (c ∷ d ∷ cs) (f, fs) = rewound-fits mmap k (d ∷ cs) fs

rewound-apart : (cs : List HeapChunk) → PairwiseApart (rewound cs)
rewound-apart [] = tt
rewound-apart (c ∷ []) = (tt, tt)
rewound-apart (c ∷ d ∷ cs) = rewound-apart (d ∷ cs)

length-rewound : (cs : List HeapChunk) → length (rewound cs) ≤ 1
length-rewound [] = omega arith
length-rewound (c ∷ []) = omega arith
length-rewound (c ∷ d ∷ cs) = length-rewound (d ∷ cs)

sum_offsets-rewound : (cs : List HeapChunk) → sum_offsets (rewound cs) ≡ 0
sum_offsets-rewound [] = refl
sum_offsets-rewound (c ∷ []) = refl
sum_offsets-rewound (c ∷ d ∷ cs) = sum_offsets-rewound (d ∷ cs)

-- A reset keeps a valid heap valid, keeps one chunk at most and leaves no byte allocated.
pub reset_lem :
    (mmap : Kernel) (h : ObjectHeap)
    → IsValid mmap h
    → IsValid mmap (reset h) × (chunk_count (reset h) ≤ 1) × (bytes_allocated (reset h) ≡ 0)
unfolding reset chunk_count bytes_allocated
reset_lem mmap h v = (
  record { fits = rewound-fits mmap h.mapped h.chunks v.fits; apart = rewound-apart h.chunks },
  length-rewound h.chunks,
  sum_offsets-rewound h.chunks,
)
