-- ===== src/Tlab/Slab.antt =====
-- Objects of `tlab_allocate` in src/sys/tlab_provider.cpp and the slab they lie in.
use anastasia.Base.{ℕ, ◌+◌, ◌%◌, ◌≤◌, ◌<◌, ◌≡◌, ◌⊎◌, inr, refl, some, arith}
use anastasia.Tlab.{Kernel, slab_bytes, TlabState, refill, get_thread_tlab, sigsegv_tlab_handler}

-- No slab yet, or a slab whose free part begins at an aligned address inside it.
pub record IsValid (s : TlabState) : Type 0 where
  pub aligned : s.tlab.top % 8 ≡ 0
  pub begins : s.tlab.slab_start ≤ s.tlab.top
  pub ends : s.tlab.top ≤ s.tlab.end
  pub size : (s.tlab.slab_start ≡ 0) ⊎ (s.tlab.end ≡ s.tlab.slab_start + slab_bytes)

-- Every request for a slab is granted, at a page and not at 0.
abbrev pub Grants : Kernel → Type 0
Grants mmap = (n : ℕ) → (mem : ℕ) × (mmap n ≡ some mem) × (mem % 4096 ≡ 0) × (0 < mem)

-- The object lies in the slab that is then in use, behind all that was given out from it before.
pub record Allocated (s s' : TlabState) (address total : ℕ) : Type 0 where
  pub valid : IsValid s'
  pub aligned : address % 8 ≡ 0
  pub inside : (s'.tlab.slab_start ≤ address) × (address + total ≤ s'.tlab.end)
  pub next : s'.tlab.top ≡ address + total
  pub fresh :
      ((s'.tlab.slab_start ≡ s.tlab.slab_start) × (address ≡ s.tlab.top))
      ⊎ (address ≡ s'.tlab.slab_start)

-- A fresh slab.
record Fresh (s : TlabState) : Type 0 where
  start : s.tlab.top ≡ s.tlab.slab_start
  mapped : s.tlab.end ≡ s.tlab.slab_start + slab_bytes
  page : s.tlab.top % 8 ≡ 0
  somewhere : 0 < s.tlab.slab_start

module _ (mmap : Kernel) (grants : Grants mmap) where
  refill-Fresh : (s : TlabState) → Fresh (refill mmap s)
  unfolding refill
  refill-Fresh s =
      let (mem, e, page, positive) = grants s.mapped in
      rw e (record { start = refl; mapped = refl; page = omega arith; somewhere = positive })

  -- A slab with room for the object, the one of `s` or a fresh one.
  record Roomy (total : ℕ) (s s' : TlabState) : Type 0 where
    start : s'.tlab.slab_start ≤ s'.tlab.top
    mapped : s'.tlab.end ≡ s'.tlab.slab_start + slab_bytes
    aligned : s'.tlab.top % 8 ≡ 0
    room : s'.tlab.top + total ≤ s'.tlab.end
    fresh :
        ((s'.tlab.slab_start ≡ s.tlab.slab_start) × (s'.tlab.top ≡ s.tlab.top))
        ⊎ (s'.tlab.top ≡ s'.tlab.slab_start)

  -- With every request for a slab granted, the handler of a fault in the guard page leaves a valid
  -- buffer in a new slab, nothing of which is given out.
  pub sigsegv_tlab_handler_lem :
      (s : TlabState)
      → let s' = sigsegv_tlab_handler mmap s in
        IsValid s'
        × (s'.tlab.top ≡ s'.tlab.slab_start)
        × (s'.tlab.end ≡ s'.tlab.slab_start + slab_bytes)
  unfolding sigsegv_tlab_handler
  sigsegv_tlab_handler_lem s =
      let f = refill-Fresh (get_thread_tlab mmap s) in
      (
        record {
          aligned = f.page;
          begins = omega (arith, f.start);
          ends = omega (arith, f.start, f.mapped);
          size = inr f.mapped;
        },
        f.start,
        f.mapped,
      )
