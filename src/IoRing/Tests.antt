-- ===== src/IoRing/Tests.antt =====
-- A session with the ring of src/sys/io_ring.cpp.
use anastasia.Base.{ℕ, ◌≡◌, refl, ◌+◌, ◌<◌, ◌^◌, some, none, List, [], ◌∷◌, true, false, arith}
use anastasia.Base.Lists.{length}
use anastasia.IoRing.{Malloc, Sqe, IoRing, new_ring, init, submit_sqe, poll_cqe}
use anastasia.IoRing.Queue.{IoCall, run, queue_run, never_full, run-queue_run, init-Pending}

abbrev request : ℕ → Sqe
request n = record { opcode = 1; fd = 3; addr = 0x1000; len = n; user_data = 100 + n }

-- Three entries, and five submissions that go around the ring.
abbrev calls : List IoCall
calls =
    IoCall.submit (request 1)
    ∷ IoCall.submit (request 2)
    ∷ IoCall.poll
    ∷ IoCall.submit (request 3)
    ∷ IoCall.submit (request 4)
    ∷ IoCall.poll
    ∷ IoCall.submit (request 5)
    ∷ IoCall.poll
    ∷ IoCall.poll
    ∷ IoCall.poll
    ∷ IoCall.poll
    ∷ []

-- `malloc` gives both arrays.
abbrev both : Malloc
both = (some [], true)

abbrev ring : IoRing
ring = (init both 3 new_ring).1

ring_tail : ring.sq_tail + length calls < 2 ^ 32
unfolding init
ring_tail = omega arith

ring_never_full : never_full ring.ring_entries calls 0 ≡ true
unfolding init never_full
ring_never_full = refl

run-queue_run_example : run both calls ring ≡ some (queue_run calls [])
run-queue_run_example = run-queue_run both calls ring [] (init-Pending 3) ring_never_full ring_tail

calls_answers :
    queue_run calls []
    ≡ some (101, 1) ∷ some (102, 2) ∷ some (103, 3) ∷ some (104, 4) ∷ some (105, 5) ∷ none ∷ []
unfolding queue_run
calls_answers = refl

-- One entry takes two submissions, and the first is lost: both polls give the second.
abbrev overfilled : List IoCall
overfilled = IoCall.submit (request 1) ∷ IoCall.submit (request 2) ∷ IoCall.poll ∷ IoCall.poll ∷ []

overfilled_answers :
    run both overfilled (init both 1 new_ring).1 ≡ some (some (102, 2) ∷ some (102, 2) ∷ [])
unfolding run init submit_sqe poll_cqe
overfilled_answers = refl

-- With the second array alone refused, `init` is false and a later submission is taken all the
-- same.
abbrev one_array : Malloc
one_array = (some (request 9 ∷ []), false)

half_initialised :
    run one_array (IoCall.submit (request 1) ∷ IoCall.poll ∷ []) (init one_array 1 new_ring).1
    ≡ some (some (101, 1) ∷ [])
unfolding run init submit_sqe poll_cqe
half_initialised = refl
