-- ===== src/Tlab.antt =====
-- The thread-local allocation buffer of src/sys/tlab_provider.cpp. Addresses are numbers, 0 is a
-- null pointer. The header that an allocation writes is given with its address, wherever it lies.
pub mod Slab
mod Tests
use anastasia.Base.{
  ℕ, ◌+◌, ◌*◌, ◌/◌, ◌%◌, ◌^◌, Bool, true, false, Option, none, some, leb, ◌==◌, if◌then◌else◌,
}

-- The answer of the kernel to the n-th `raw_mmap` of a slab and its guard page.
abbrev pub Kernel : Type 0
Kernel = ℕ → Option ℕ

abbrev pub slab_bytes : ℕ
slab_bytes = 65536

pub record Tlab : Type 0 where
  pub top : ℕ
  pub end : ℕ
  pub slab_start : ℕ

-- An object header that was written.
pub record ObjectHeader : Type 0 where
  pub address : ℕ
  pub vtable_ptr : ℕ
  pub class_id : ℕ
  pub instance_size : ℕ

-- `g_main_tlab`, and the number of mmap calls.
pub record TlabState : Type 0 where
  pub tlab : Tlab
  pub mapped : ℕ

abbrev pub no_tlab : TlabState
no_tlab = record { tlab = record { top = 0; end = 0; slab_start = 0 }; mapped = 0 }

abbrev pub slab_at : Option ℕ → Tlab → Tlab
slab_at none t = t
slab_at (some mem) t = record { top = mem; end = mem + slab_bytes; slab_start = mem }

-- A request for a slab, which replaces the one in use if it is granted.
unfoldable pub refill : Kernel → TlabState → TlabState
refill mmap s = record { tlab = slab_at (mmap s.mapped) s.tlab; mapped = s.mapped + 1 }

unfoldable pub get_thread_tlab : Kernel → TlabState → TlabState
unfolding refill
get_thread_tlab mmap s = if s.tlab.slab_start == 0 then refill mmap s else s

unfoldable pub sigsegv_tlab_handler : Kernel → TlabState → TlabState
unfolding get_thread_tlab refill
sigsegv_tlab_handler mmap s = refill mmap (get_thread_tlab mmap s)

-- `(sizeof(ObjectHeader) + instance_size + 7) & ~7U`, whose mask has 32 bits.
abbrev pub total_size : ℕ → ℕ
total_size instance_size = (16 + instance_size + 7) % 2 ^ 32 / 8 * 8

abbrev pub with_room : Kernel → ℕ → TlabState → TlabState
with_room mmap total s = if leb s.tlab.end (s.tlab.top + total) then refill mmap s else s

abbrev pub bumped : ℕ → TlabState → TlabState
bumped total s = record s { tlab = record s.tlab { top = s.tlab.top + total } }

-- The header that is written at the object, and the state after.
unfoldable pub tlab_allocate : Kernel → ℕ → ℕ → ℕ → TlabState → ObjectHeader × TlabState
unfolding get_thread_tlab refill
tlab_allocate mmap instance_size vtable_ptr class_id s =
    let total = total_size instance_size in
    let s' = with_room mmap total (get_thread_tlab mmap s) in
    (
      record {
        address = s'.tlab.top;
        vtable_ptr = vtable_ptr;
        class_id = class_id;
        instance_size = instance_size;
      },
      bumped total s',
    )
