-- ===== src/Heap.antt =====
-- The chunked bump allocator of src/sys/object_heap.cpp. Addresses are numbers; memory is a function
-- from addresses to bytes.
pub mod Invariant
pub mod Chunks
pub mod Fresh
pub mod Session
pub mod Reset
mod Tests
use anastasia.Base.{
  ℕ, ◌+◌, ◌-◌, ◌*◌, ◌/◌, ◌%◌, ◌^◌, ◌≤◌, Bool, true, false, ◌&&◌, Option, none, some, List, [], ◌∷◌,
  ltb, leb, if◌then◌else◌, zero, suc,
}
use anastasia.Base.Lists.{length}
use anastasia.Base.Words.{le_bytes}

-- The answer of the kernel to the n-th `raw_mmap` call, by its size: the address of a fresh,
-- zeroed mapping, or `none`.
abbrev pub Kernel : Type 0
Kernel = ℕ → ℕ → Option ℕ

abbrev pub Memory : Type 0
Memory = ℕ → ℕ

-- `base` is the address of the chunk, its header included.
pub record HeapChunk : Type 0 where
  pub base : ℕ
  pub mapping_size : ℕ
  pub capacity : ℕ
  pub offset : ℕ

-- The chunks, the newest first: `current_` is the first and `head_` the last of them. `mapped`
-- counts the mmap calls.
pub record ObjectHeap : Type 0 where
  pub chunks : List HeapChunk
  pub memory : Memory
  pub mapped : ℕ

abbrev pub header_bytes : ℕ
header_bytes = 64

abbrev pub default_chunk_bytes : ℕ
default_chunk_bytes = 65536

abbrev pub page_bytes : ℕ
page_bytes = 4096

abbrev pub max_single_object : ℕ
max_single_object = 0x4000_0000

abbrev pub object_header_bytes : ℕ
object_header_bytes = 16

abbrev byte_at : List ℕ → ℕ → ℕ
byte_at [] i = 0
byte_at (b ∷ bs) zero = b
byte_at (b ∷ bs) (suc i) = byte_at bs i

-- A write of the bytes `bs` at `p`.
abbrev pub store : ℕ → List ℕ → Memory → Memory
store p bs m a = if leb p a && ltb a (p + length bs) then byte_at bs (a - p) else m a

-- `freestanding_memset(p, 0, n)`
abbrev pub clear : ℕ → ℕ → Memory → Memory
clear p n m a = if leb p a && ltb a (p + n) then 0 else m a

abbrev pub rounded_mapping : ℕ → ℕ
rounded_mapping needed =
    let mapping = if ltb default_chunk_bytes needed then needed else default_chunk_bytes in
    (mapping + (page_bytes - 1)) % 2 ^ 64 / page_bytes * page_bytes

abbrev pub fresh_chunk : ℕ → ℕ → HeapChunk
fresh_chunk base size = record {
  base = base;
  mapping_size = size;
  capacity = size - header_bytes;
  offset = 0;
}

-- `!(!c || need > (c->capacity - c->offset))`
abbrev pub has_room : ℕ → List HeapChunk → Bool
has_room need [] = false
has_room need (c ∷ cs) = leb need (c.capacity - c.offset)

module _ (mmap : Kernel) where
  -- The two overflow tests, then the mapping. Whether it succeeded, and the heap.
  unfoldable pub new_chunk : ℕ → ObjectHeap → Bool × ObjectHeap
  new_chunk min_usable h =
      let needed = (min_usable + header_bytes) % 2 ^ 64 in
      let mapping = if ltb default_chunk_bytes needed then needed else default_chunk_bytes in
      let rounded = rounded_mapping needed in
      if ltb needed min_usable
      then (false, h)
      else if ltb rounded mapping
      then (false, h)
      else elim (mmap h.mapped rounded) [
        | none ↦ (false, record h { mapped = h.mapped + 1 })
        | some base ↦
            (true, record h { chunks = fresh_chunk base rounded ∷ h.chunks; mapped = h.mapped + 1 })
      ]

  unfoldable pub ensure_room : ℕ → ObjectHeap → Bool × ObjectHeap
  ensure_room need h = if has_room need h.chunks then (true, h) else new_chunk need h

-- `(16 + instance_size + 63) & ~63`, in 64 bits: it cannot wrap.
abbrev pub object_bytes : ℕ → ℕ
object_bytes instance_size = (object_header_bytes + instance_size + 63) / 64 * 64

-- The header, then the cleared fields.
abbrev pub initialise : ℕ → ℕ → ℕ → ℕ → Memory → Memory
initialise obj vtable class_id size m = clear (obj + object_header_bytes) size (
    store (obj + 12) (le_bytes 4 size)
      (store (obj + 8) (le_bytes 4 class_id) (store obj (le_bytes 8 vtable) m)))

-- The object is placed at the cursor of the current chunk, which moves by `need`.
abbrev pub place_object : ℕ → ℕ → ℕ → ℕ → List HeapChunk → ObjectHeap → Option ℕ × ObjectHeap
place_object need size vtable class_id [] h = (none, h)
place_object need size vtable class_id (c ∷ cs) h =
    let obj = c.base + header_bytes + c.offset in
    (
      some obj,
      record h {
        chunks = record c { offset = c.offset + need } ∷ cs;
        memory = initialise obj vtable class_id size h.memory;
      },
    )

abbrev pub place_if : Bool × ObjectHeap → ℕ → ℕ → ℕ → ℕ → Option ℕ × ObjectHeap
place_if (false, h) need size vtable class_id = (none, h)
place_if (true, h) need size vtable class_id = place_object need size vtable class_id h.chunks h

-- `none` is a null pointer.
unfoldable pub allocate_object : Kernel → ℕ → ℕ → ℕ → ObjectHeap → Option ℕ × ObjectHeap
allocate_object mmap instance_size vtable class_id h =
    let need = object_bytes instance_size in
    if ltb max_single_object need
    then (none, h)
    else place_if (ensure_room mmap need h) need instance_size vtable class_id

abbrev pub rewound : List HeapChunk → List HeapChunk
rewound [] = []
rewound (c ∷ []) = record c { offset = 0 } ∷ []
rewound (c ∷ d ∷ cs) = rewound (d ∷ cs)

-- All chunks but the first of the source's list are unmapped.
unfoldable pub reset : ObjectHeap → ObjectHeap
reset h = record h { chunks = rewound h.chunks }

unfoldable pub chunk_count : ObjectHeap → ℕ
chunk_count h = length h.chunks

abbrev pub sum_offsets : List HeapChunk → ℕ
sum_offsets [] = 0
sum_offsets (c ∷ cs) = c.offset + sum_offsets cs

unfoldable pub bytes_allocated : ObjectHeap → ℕ
bytes_allocated h = sum_offsets h.chunks
