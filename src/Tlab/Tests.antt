-- ===== src/Tlab/Tests.antt =====
-- Allocations of src/sys/tlab_provider.cpp under a concrete kernel.
use anastasia.Base.{◌+◌, ◌*◌, ◌^◌, ◌≡◌, refl, true, some, ltb}
use anastasia.Tlab.{Kernel, TlabState, no_tlab, refill, get_thread_tlab, tlab_allocate}

abbrev kernel : Kernel
kernel n = some ((n + 1) * 2 ^ 20)

-- An object larger than a slab is placed in one all the same, and ends behind the guard page.
abbrev oversized : TlabState
oversized = (tlab_allocate kernel 100000 0x1000 7 no_tlab).1

oversized_overruns : ltb (oversized.tlab.end + 4096) oversized.tlab.top ≡ true
unfolding tlab_allocate get_thread_tlab refill
oversized_overruns = refl
