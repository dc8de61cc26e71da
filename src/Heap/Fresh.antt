-- ===== src/Heap/Fresh.antt =====
-- What one call of `allocate_object` in src/sys/object_heap.cpp does.
use anastasia.Base.{
  ℕ, ◌+◌, ◌%◌, ◌≤◌, ◌<◌, ◌≡◌, ◌⊎◌, inl, inr, Bool, true, false, Option, none, some, List, [], ◌∷◌,
  ltb, arith, refl, sym, ap, ◌∙◌, subst, Bool-cases,
}
use anastasia.Base.Lists.{All}
use anastasia.Heap.{
  Kernel, HeapChunk, ObjectHeap, Memory, ensure_room, place_object, place_if, allocate_object,
  object_bytes, max_single_object, initialise,
}
use anastasia.Heap.Invariant.{Apart, IsMmap, ChunkFits, IsValid, ApartFrom}
use anastasia.Heap.Chunks.{Used, HasRoom, Extends, Prepared, ensure_room-Prepared}

used_fits :
    (mmap : Kernel) (k : ℕ) (cs : List HeapChunk) (c : HeapChunk) (need a n : ℕ)
    → All (ChunkFits mmap k) cs
    → All (ApartFrom c) cs
    → c.capacity + 64 ≡ c.mapping_size
    → c.offset + need ≤ c.capacity
    → Used cs a n
    → Apart a n (c.base + 64 + c.offset) need
used_fits mmap k [] c need a n f apart header room u = absurd u
used_fits mmap k (d ∷ cs) c need a n f apart header room (inl here) =
    ground (arith, f.0.within, f.0.header)
used_fits mmap k (d ∷ cs) c need a n f apart header room (inr there) =
    used_fits mmap k cs c need a n f.1 apart.1 header room there

bumped-Used :
    (c : HeapChunk) (cs : List HeapChunk) (need a n : ℕ)
    → Used (c ∷ cs) a n
    → Used (record c { offset = c.offset + need } ∷ cs) a n
bumped-Used c cs need a n (inl (lo, hi)) = inl (lo, omega arith)
bumped-Used c cs need a n (inr there) = inr there

bumped_fresh :
    (mmap : Kernel) (k : ℕ) (c : HeapChunk) (cs : List HeapChunk) (need a n : ℕ)
    → All (ChunkFits mmap k) (c ∷ cs)
    → All (ApartFrom c) cs
    → c.offset + need ≤ c.capacity
    → Used (c ∷ cs) a n
    → Apart a n (c.base + 64 + c.offset) need
bumped_fresh mmap k c cs need a n f apart room (inl here) = inl here.1
bumped_fresh mmap k c cs need a n f apart room (inr there) =
    used_fits mmap k cs c need a n f.1 apart f.0.header room there

initialise_cleared :
    (p vtable class_id size i : ℕ) (m : Memory)
    → i < size
    → initialise p vtable class_id size m (p + 16 + i) ≡ 0
initialise_cleared p vtable class_id size i m h = ground arith

initialise_outside :
    (p vtable class_id size x : ℕ) (m : Memory)
    → (x < p) ⊎ (p + object_bytes size ≤ x)
    → initialise p vtable class_id size m x ≡ m x
initialise_outside p vtable class_id size x m h = ground arith

-- The new object: aligned, inside a chunk, apart from every byte handed out before, with its field
-- area cleared; nothing outside it has changed.
pub record Placed (mmap : Kernel) (size : ℕ) (h h' : ObjectHeap) (p : ℕ) : Type 0 where
  pub valid : IsValid mmap h'
  pub aligned : p % 64 ≡ 0
  pub mine : Used h'.chunks p (object_bytes size)
  pub kept : (a n : ℕ) → Used h.chunks a n → Used h'.chunks a n
  pub fresh : (a n : ℕ) → Used h.chunks a n → Apart a n p (object_bytes size)
  pub cleared : (i : ℕ) → i < size → h'.memory (p + 16 + i) ≡ 0
  pub outside : (x : ℕ) → (x < p) ⊎ (p + object_bytes size ≤ x) → h'.memory x ≡ h.memory x

module _ (mmap : Kernel) (good : IsMmap mmap) where
  place_object-Placed :
      (size vtable class_id : ℕ) (cs : List HeapChunk) (h : ObjectHeap)
      → h.chunks ≡ cs
      → IsValid mmap h
      → HasRoom (object_bytes size) cs
      → (p : ℕ) × (h' : ObjectHeap) × (place_object (object_bytes size) size vtable class_id cs h
          ≡ (some p, h'))
        × Placed mmap size h h' p
  place_object-Placed size vtable class_id [] h e v room = absurd room
  place_object-Placed size vtable class_id (c ∷ cs) h e v room =
      let fits : All (ChunkFits mmap h.mapped) (c ∷ cs) = rw e at v.fits in
      let need : ℕ = object_bytes size in
      (
        c.base + 64 + c.offset,
        _,
        refl,
        record {
          valid = record {
            fits = (
              record {
                call = fits.0.call;
                earlier = fits.0.earlier;
                granted = fits.0.granted;
                header = fits.0.header;
                within = room;
                on_line = omega (arith, fits.0.on_line);
              },
              fits.1,
            );
            apart = (rw e at v.apart);
          };
          aligned = omega (
            arith,
            good.aligned fits.0.call c.mapping_size c.base fits.0.granted,
            fits.0.on_line,
          );
          mine = inl (omega arith, omega arith);
          kept = λ a n u. bumped-Used c cs need a n (rw e at u);
          fresh = λ a n u.
              bumped_fresh mmap h.mapped c cs need a n fits (rw e at v.apart).0 room (rw e at u);
          cleared = λ i below.
              initialise_cleared (c.base + 64 + c.offset) vtable class_id size i h.memory below;
          outside = λ x away.
              initialise_outside (c.base + 64 + c.offset) vtable class_id size x h.memory away;
        },
      )

  allocate_split :
      (size vtable class_id : ℕ) (h : ObjectHeap)
      → IsValid mmap h
      → ((allocate_object mmap size vtable class_id h).0 ≡ none
          × IsValid mmap (allocate_object mmap size vtable class_id h).1
          × Extends h (allocate_object mmap size vtable class_id h).1)
        ⊎ ((p : ℕ) × (h' : ObjectHeap) × (allocate_object mmap size vtable class_id h
              ≡ (some p, h'))
            × Placed mmap size h h' p)
  unfolding allocate_object
  allocate_split size vtable class_id h v =
      elim (Bool-cases (ltb max_single_object (object_bytes size))) [
        | inl large ↦ rw large (inl (refl, v, record { used = λ a n u. u; memory_kept = refl }))
        | inr small ↦
            let need : ℕ = object_bytes size in
            let r : Bool × ObjectHeap = ensure_room mmap need h in
            let ready = ensure_room-Prepared mmap good need h (ground arith) v in
            rw small (from_room r.0 r.1 ready)
      ]
    where
      from_room :
          (ok : Bool) (h1 : ObjectHeap)
          → Prepared mmap (object_bytes size) h (ok, h1)
          → ((place_if (ok, h1) (object_bytes size) size vtable class_id).0 ≡ none
              × IsValid mmap (place_if (ok, h1) (object_bytes size) size vtable class_id).1
              × Extends h (place_if (ok, h1) (object_bytes size) size vtable class_id).1)
            ⊎ ((p : ℕ) × (h' : ObjectHeap) × (place_if
                    (ok, h1)
                    (object_bytes size)
                    size
                    vtable
                    class_id
                  ≡ (some p, h'))
                × Placed mmap size h h' p)
      from_room false h1 ready = inl (refl, ready.valid, ready.extends)
      from_room true h1 ready =
          let (p, h', e, placed) =
            place_object-Placed size vtable class_id h1.chunks h1 refl ready.valid
              (ready.room refl) in
          inr (
            p,
            h',
            e,
            record {
              valid = placed.valid;
              aligned = placed.aligned;
              mine = placed.mine;
              kept = λ a n u. placed.kept a n (ready.extends.used a n u);
              fresh = λ a n u. placed.fresh a n (ready.extends.used a n u);
              cleared = placed.cleared;
              outside = λ x away.
                  placed.outside x away ∙ ap (λ (m : Memory). m x) ready.extends.memory_kept;
            },
          )

  -- On a valid heap, and with mappings that begin at pages and do not overlap, a call that answers
  -- an address keeps the heap valid and gives an object that is aligned to 64
  -- bytes, lies inside a chunk, meets no byte that an earlier object holds, has a cleared field area,
  -- and leaves every byte outside itself as it was.
  pub allocate_object-Placed :
      (size vtable class_id : ℕ) (h h' : ObjectHeap) (p : ℕ)
      → IsValid mmap h
      → allocate_object mmap size vtable class_id h ≡ (some p, h')
      → Placed mmap size h h' p
  allocate_object-Placed size vtable class_id h h' p v e =
      elim (allocate_split size vtable class_id h v) [
        | inl (refused, _, _) ↦ absurd (cc)
        | inr (q, h2, e2, placed) ↦
            subst (λ (r : Option ℕ × ObjectHeap). Placed mmap size h r.1 (address r.0)) (sym e2 ∙ e)
              placed
      ]
    where
      address : Option ℕ → ℕ
      address none = p
      address (some a) = a

  -- On a valid heap, and with mappings that begin at pages and do not overlap, a call that answers a
  -- null pointer keeps the heap valid and every object in place.
  pub allocate_object_null :
      (size vtable class_id : ℕ) (h : ObjectHeap)
      → IsValid mmap h
      → (allocate_object mmap size vtable class_id h).0 ≡ none
      → IsValid mmap (allocate_object mmap size vtable class_id h).1
        × Extends h (allocate_object mmap size vtable class_id h).1
  allocate_object_null size vtable class_id h v e = elim (allocate_split size vtable class_id h v) [
    | inl (refused, valid, extends) ↦ (valid, extends)
    | inr (q, h2, e2, placed) ↦ absurd (cc)
  ]
