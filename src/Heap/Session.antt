-- ===== src/Heap/Session.antt =====
-- Any sequence of calls of `allocate_object` in src/sys/object_heap.cpp.
use anastasia.Base.{ℕ, inl, inr, Option, none, some, List, [], ◌∷◌, Option-cases}
use anastasia.Base.Lists.{All}
use anastasia.Heap.{Kernel, ObjectHeap, allocate_object, object_bytes}
use anastasia.Heap.Invariant.{Apart, IsMmap, IsValid}
use anastasia.Heap.Chunks.{Used}
use anastasia.Heap.Fresh.{allocate_object-Placed, allocate_object_null}

pub record Request : Type 0 where
  pub size : ℕ
  pub vtable : ℕ
  pub class_id : ℕ

-- An object that was handed out: its address and its bytes, padding included.
pub record Block : Type 0 where
  pub address : ℕ
  pub bytes : ℕ

abbrev pub blocks_of : Option ℕ → ℕ → List Block → List Block
blocks_of none size bs = bs
blocks_of (some p) size bs = record { address = p; bytes = object_bytes size } ∷ bs

unfoldable pub run : Kernel → List Request → ObjectHeap → List Block
run mmap [] h = []
run mmap (r ∷ rs) h =
    let (o, h') = allocate_object mmap r.size r.vtable r.class_id h in
    blocks_of o r.size (run mmap rs h')

abbrev pub ApartBlocks : Block → Block → Type 0
ApartBlocks a b = Apart a.address a.bytes b.address b.bytes

abbrev pub PairwiseApart : List Block → Type 0
PairwiseApart [] = Unit {0}
PairwiseApart (b ∷ bs) = All (ApartBlocks b) bs × PairwiseApart bs

module _ (mmap : Kernel) (good : IsMmap mmap) where
  -- Whatever was in use stays apart from all that is handed out later.
  run_fresh :
      (rs : List Request) (h : ObjectHeap) (b : Block)
      → IsValid mmap h
      → Used h.chunks b.address b.bytes
      → All (ApartBlocks b) (run mmap rs h)
  unfolding run
  run_fresh [] h b v u = tt
  run_fresh (r ∷ rs) h b v u =
      elim (Option-cases (allocate_object mmap r.size r.vtable r.class_id h).0) [
        | inl refused ↦
            let (valid, extends) =
              allocate_object_null mmap good r.size r.vtable r.class_id h v refused in
            rw refused (
              run_fresh rs (allocate_object mmap r.size r.vtable r.class_id h).1 b valid
                (extends.used b.address b.bytes u))
        | inr (p, placed_at) ↦
            let h' = (allocate_object mmap r.size r.vtable r.class_id h).1 in
            let placed =
              allocate_object-Placed mmap good r.size r.vtable r.class_id h h' p v
                (λ i. (placed_at i, h')) in
            rw placed_at (
              placed.fresh b.address b.bytes u,
              run_fresh rs h' b placed.valid (placed.kept b.address b.bytes u),
            )
      ]

  -- No two objects of a session that starts with a valid heap share a byte, however the kernel
  -- answers, as long as its mappings begin at pages and do not overlap.
  pub run-PairwiseApart :
      (rs : List Request) (h : ObjectHeap) → IsValid mmap h → PairwiseApart (run mmap rs h)
  unfolding run
  run-PairwiseApart [] h v = tt
  run-PairwiseApart (r ∷ rs) h v =
      elim (Option-cases (allocate_object mmap r.size r.vtable r.class_id h).0) [
        | inl refused ↦
            let (valid, extends) =
              allocate_object_null mmap good r.size r.vtable r.class_id h v refused in
            rw refused
              (run-PairwiseApart rs (allocate_object mmap r.size r.vtable r.class_id h).1 valid)
        | inr (p, placed_at) ↦
            let h' = (allocate_object mmap r.size r.vtable r.class_id h).1 in
            let placed =
              allocate_object-Placed mmap good r.size r.vtable r.class_id h h' p v
                (λ i. (placed_at i, h')) in
            rw placed_at (
              run_fresh rs h' (record { address = p; bytes = object_bytes r.size }) placed.valid
                  placed.mine,
              run-PairwiseApart rs h' placed.valid,
            )
      ]
