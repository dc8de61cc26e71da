-- ===== src/Heap/Tests.antt =====
-- Allocations of src/sys/object_heap.cpp under a concrete kernel.
use anastasia.Base.{
  ℕ, ◌+◌, ◌*◌, ◌^◌, ◌≤◌, ◌≡◌, refl, Option, some, none, List, [], ◌∷◌, leb, if◌then◌else◌, arith,
}
use anastasia.Heap.{
  Kernel, ObjectHeap, new_chunk, ensure_room, allocate_object, reset, chunk_count, bytes_allocated,
}
use anastasia.Heap.Invariant.{IsMmap, IsValid}
use anastasia.Heap.Chunks.{Extends}
use anastasia.Heap.Fresh.{Placed, allocate_object-Placed, allocate_object_null}
use anastasia.Heap.Session.{Request, PairwiseApart, run, run-PairwiseApart}
use anastasia.Heap.Reset.{reset_lem}

-- Every mapping has 2 TiB of addresses of its own.
abbrev kernel : Kernel
kernel n size = if leb size (2 ^ 40) then some ((n + 1) * 2 ^ 41) else none

kernel-IsMmap : IsMmap kernel
kernel-IsMmap = record {
  aligned = λ n size base h. ground arith;
  apart = λ m n s t a b l h k. ground arith;
}

abbrev empty : ObjectHeap
empty = record { chunks = []; memory = λ a. 0; mapped = 0 }

empty-IsValid : IsValid kernel empty
empty-IsValid = record { fits = tt; apart = tt }

abbrev first_call : Option ℕ × ObjectHeap
first_call = allocate_object kernel 24 0x1000 7 empty

first_address : first_call ≡ (some (2 ^ 41 + 64), first_call.1)
unfolding allocate_object new_chunk ensure_room
first_address = refl

allocate_object-Placed_example : Placed kernel 24 empty first_call.1 (2 ^ 41 + 64)
allocate_object-Placed_example =
    allocate_object-Placed kernel kernel-IsMmap 24 0x1000 7 empty first_call.1 (2 ^ 41 + 64)
      empty-IsValid first_address

first-IsValid : IsValid kernel first_call.1
first-IsValid =
    (allocate_object-Placed kernel kernel-IsMmap 24 0x1000 7 empty first_call.1 (2 ^ 41 + 64)
      empty-IsValid first_address).valid

too_large : (allocate_object kernel (2 ^ 31) 0 0 empty).0 ≡ none
unfolding allocate_object new_chunk ensure_room
too_large = refl

allocate_object_null_example :
    IsValid kernel (allocate_object kernel (2 ^ 31) 0 0 empty).1
    × Extends empty (allocate_object kernel (2 ^ 31) 0 0 empty).1
allocate_object_null_example =
    allocate_object_null kernel kernel-IsMmap (2 ^ 31) 0 0 empty empty-IsValid too_large

abbrev requests : List Request
requests =
    record { size = 24; vtable = 0x1000; class_id = 7 }
    ∷ record { size = 70000; vtable = 0x2000; class_id = 8 }
    ∷ record { size = 1; vtable = 0x1000; class_id = 7 }
    ∷ []

run-PairwiseApart_example : PairwiseApart (run kernel requests empty)
run-PairwiseApart_example = run-PairwiseApart kernel kernel-IsMmap requests empty empty-IsValid

reset_lem_example :
    IsValid kernel (reset first_call.1)
    × (chunk_count (reset first_call.1) ≤ 1)
    × (bytes_allocated (reset first_call.1) ≡ 0)
reset_lem_example = reset_lem kernel first_call.1 first-IsValid
