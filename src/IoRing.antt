-- ===== src/IoRing.antt =====
-- The ring of src/sys/io_ring.cpp. The system calls that announce it pass it no address, so what
-- they answer is left out. `none` as the result of a call is a write through a null pointer or a
-- division by 0.
pub mod Queue
mod Tests
use anastasia.Base.{
  ℕ, zero, suc, ◌+◌, ◌%◌, ◌^◌, Bool, true, false, Option, none, some, List, [], ◌∷◌, ltb, ◌==◌,
  if◌then◌else◌,
}
use anastasia.Base.Lists.{get_elem?, set}

-- `io_uring_sqe_raw`, less the members that are always 0.
pub record Sqe : Type 0 where
  pub opcode : ℕ
  pub fd : ℕ
  pub addr : ℕ
  pub len : ℕ
  pub user_data : ℕ

abbrev pub zero_sqe : Sqe
zero_sqe = record { opcode = 0; fd = 0; addr = 0; len = 0; user_data = 0 }

-- `sqes` is `none` for a null pointer. The completion queue and its counters are never used.
pub record IoRing : Type 0 where
  pub sqes : Option (List Sqe)
  pub sq_head : ℕ
  pub sq_tail : ℕ
  pub ring_entries : ℕ
  pub total_submissions : ℕ
  pub total_completions : ℕ

abbrev pub new_ring : IoRing
new_ring = record {
  sqes = none;
  sq_head = 0;
  sq_tail = 0;
  ring_entries = 32;
  total_submissions = 0;
  total_completions = 0;
}

abbrev pub zeroed : ℕ → List Sqe
zeroed zero = []
zeroed (suc n) = zero_sqe ∷ zeroed n

-- What `malloc` answers for the two arrays: the entries of the first as it gives them, or `none`
-- for a null pointer, and whether the second is one.
abbrev pub Malloc : Type 0
Malloc = Option (List Sqe) × Bool

-- Both arrays are cleared, or `init` is false and the first stays as `malloc` gave it.
unfoldable pub init : Malloc → ℕ → IoRing → Bool × IoRing
init (some q, true) entries r =
    (true, record r { sqes = some (zeroed entries); ring_entries = entries })
init (q, _) entries r = (false, record r { sqes = q; ring_entries = entries })

abbrev pub ready : Malloc → IoRing → IoRing
ready arrays r = elim r.sqes [ some q ↦ r | none ↦ (init arrays 32 r).1 ]

abbrev pub put : Sqe → IoRing → Option (List Sqe) → Option IoRing
put s r none = none
put s r (some q) =
    if r.ring_entries == 0
    then none
    else some (record r {
      sqes = some (set q (r.sq_tail % r.ring_entries) s);
      sq_tail = (r.sq_tail + 1) % 2 ^ 32;
      total_submissions = (r.total_submissions + 1) % 2 ^ 64;
    })

unfoldable pub submit_sqe : Malloc → Sqe → IoRing → Option IoRing
unfolding init
submit_sqe arrays s r = let r' = ready arrays r in put s r' r'.sqes

-- A completion: `user_data` and `len`.
abbrev pub completion : Sqe → ℕ × ℕ
completion s = (s.user_data, s.len)

abbrev pub entry_at : Option (List Sqe) → ℕ → Option Sqe
entry_at none i = none
entry_at (some q) i = get_elem? q i

abbrev pub taken : IoRing → Option Sqe → Option (Option (ℕ × ℕ) × IoRing)
taken r none = none
taken r (some s) = some (
  some (completion s),
  record r {
    sq_head = (r.sq_head + 1) % 2 ^ 32;
    total_completions = (r.total_completions + 1) % 2 ^ 64;
  },
)

-- `none` inside is the answer that nothing is ready.
unfoldable pub poll_cqe : IoRing → Option (Option (ℕ × ℕ) × IoRing)
poll_cqe r =
    if ltb r.sq_head r.sq_tail
    then taken r (entry_at r.sqes (r.sq_head % r.ring_entries))
    else some (none, r)
