-- ===== src/IoRing/Queue.antt =====
-- The ring of src/sys/io_ring.cpp is a first-in first-out queue as long as it is not overfilled.
use native.Mathlib.Nat.{div-add-mod, mod-lt, mul-le-mul_left}
use anastasia.Base.{
  ℕ, zero, suc, ◌+◌, ◌-◌, ◌/◌, ◌%◌, ◌^◌, ◌≤◌, ◌<◌, ◌≡◌, ◌≢◌, inl, inr, refl, ap, ◌∙◌, subst, Bool,
  true, ◌&&◌, Option, none, some, List, [], ◌∷◌, ◌++◌, ltb, leb, Bool-cases, leb→le, lt→ltb, arith,
}
use anastasia.Base.Lists.{length, get_elem?, set, length-append}
use anastasia.IoRing.{Malloc, Sqe, IoRing, new_ring, zeroed, init, submit_sqe, completion, poll_cqe}

-- Two different numbers less than `n` apart have different remainders.
different_slots : (a b n : ℕ) → a < b → b < a + n → a % n ≢ b % n
different_slots a b n h k e =
    let below = div-add-mod a n in
    let above = div-add-mod b n in
    elim (Bool-cases (leb (b / n) (a / n))) [
      | inl l ↦ omega (arith, mul-le-mul_left n (leb→le (b / n) (a / n) l))
      | inr g ↦ omega (arith, mul-le-mul_left {m = a / n + 1} {n = b / n} n (ground arith))
    ]

get_elem?-set_self :
    (q : List Sqe) (i : ℕ) (s : Sqe) → i < length q → get_elem? (set q i s) i ≡ some s
get_elem?-set_self [] i s h = absurd (omega arith)
get_elem?-set_self (x ∷ q) zero s h = refl
get_elem?-set_self (x ∷ q) (suc i) s h = get_elem?-set_self q i s (omega arith)

get_elem?-set_other :
    (q : List Sqe) (i j : ℕ) (s : Sqe) → j ≢ i → get_elem? (set q i s) j ≡ get_elem? q j
get_elem?-set_other [] i j s h = refl
get_elem?-set_other (x ∷ q) zero zero s h = absurd (h refl)
get_elem?-set_other (x ∷ q) zero (suc j) s h = refl
get_elem?-set_other (x ∷ q) (suc i) zero s h = refl
get_elem?-set_other (x ∷ q) (suc i) (suc j) s h = get_elem?-set_other q i j s (λ e. h (ap suc e))

length-set : (q : List Sqe) (i : ℕ) (s : Sqe) → length (set q i s) ≡ length q
length-set [] i s = refl
length-set (x ∷ q) zero s = refl
length-set (x ∷ q) (suc i) s = ap suc (length-set q i s)

-- The slots from `h` on, around the ring of `n` entries, hold `xs`.
abbrev Window : List Sqe → ℕ → ℕ → List Sqe → Type 0
Window q n h [] = Unit {0}
Window q n h (x ∷ xs) = (get_elem? q (h % n) ≡ some x) × Window q n (h + 1) xs

Window-set :
    (q : List Sqe) (n h t : ℕ) (s : Sqe) (xs : List Sqe)
    → h + length xs ≤ t
    → t < h + n
    → Window q n h xs
    → Window (set q (t % n) s) n h xs
Window-set q n h t s [] k l w = tt
Window-set q n h t s (x ∷ xs) k l (here, w) = (
  get_elem?-set_other q (t % n) (h % n) s (different_slots h t n (omega arith) l) ∙ here,
  Window-set q n (h + 1) t s xs (omega arith) (omega arith) w,
)

Window-append :
    (q : List Sqe) (n h : ℕ) (s : Sqe) (xs : List Sqe)
    → Window q n h xs
    → get_elem? q ((h + length xs) % n) ≡ some s
    → Window q n h (xs ++ s ∷ [])
Window-append q n h s [] w e = (subst (λ i. get_elem? q (i % n) ≡ some s) (omega arith) e, tt)
Window-append q n h s (x ∷ xs) (here, w) e = (
  here,
  Window-append q n (h + 1) s xs w (subst (λ i. get_elem? q (i % n) ≡ some s) (omega arith) e),
)

-- `xs` is pending in the ring, oldest first.
pub record Pending (r : IoRing) (xs : List Sqe) : Type 0 where
  pub slots : List Sqe
  pub mapped : r.sqes ≡ some slots
  pub full_size : length slots ≡ r.ring_entries
  pub span : r.sq_tail ≡ r.sq_head + length xs
  pub room : length xs ≤ r.ring_entries
  pub window : Window slots r.ring_entries r.sq_head xs

-- A call of the ring.
pub data IoCall : Type 0 where
  submit : Sqe → IoCall
  poll : IoCall

abbrev and_then : {A B : Type 0} → Option A → (A → Option B) → Option B
and_then none f = none
and_then (some a) f = f a

-- The answers to the polls of a session; `none` for a crash.
unfoldable pub run : Malloc → List IoCall → IoRing → Option (List (Option (ℕ × ℕ)))
run arrays [] r = some []
run arrays (IoCall.submit s ∷ cs) r = and_then (submit_sqe arrays s r) (run arrays cs)
run arrays (IoCall.poll ∷ cs) r =
    and_then (poll_cqe r) (λ p. and_then (run arrays cs p.1) (λ os. some (p.0 ∷ os)))

-- The answers of a queue.
unfoldable pub queue_run : List IoCall → List Sqe → List (Option (ℕ × ℕ))
queue_run [] xs = []
queue_run (IoCall.submit s ∷ cs) xs = queue_run cs (xs ++ s ∷ [])
queue_run (IoCall.poll ∷ cs) [] = none ∷ queue_run cs []
queue_run (IoCall.poll ∷ cs) (x ∷ xs) = some (completion x) ∷ queue_run cs xs

-- With `k` pending, no submission of the session finds `n` pending.
unfoldable pub never_full : ℕ → List IoCall → ℕ → Bool
never_full n [] k = true
never_full n (IoCall.submit s ∷ cs) k = ltb k n && never_full n cs (k + 1)
never_full n (IoCall.poll ∷ cs) k = never_full n cs (k - 1)

submit_sqe-Pending :
    (arrays : Malloc) (s : Sqe) (r : IoRing) (xs : List Sqe)
    → Pending r xs
    → length xs < r.ring_entries
    → r.sq_tail + 1 < 2 ^ 32
    → (r' : IoRing) × (submit_sqe arrays s r ≡ some r')
      × Pending r' (xs ++ s ∷ [])
      × (r'.ring_entries ≡ r.ring_entries)
      × (r'.sq_tail ≡ r.sq_tail + 1)
unfolding submit_sqe
submit_sqe-Pending arrays s r xs p room small =
    let slot : ℕ = r.sq_tail % r.ring_entries in
    let slots' : List Sqe = set p.slots slot s in
    let r' : IoRing = record r {
      sqes = some slots';
      sq_tail = (r.sq_tail + 1) % 2 ^ 32;
      total_submissions = (r.total_submissions + 1) % 2 ^ 64;
    } in
    let stays = p.span in
    let inside : slot < length p.slots =
      omega (arith, mod-lt r.sq_tail {m = r.ring_entries} (omega arith), p.full_size) in
    (
      r',
      rw p.mapped (ground arith),
      record {
        slots = slots';
        mapped = refl;
        full_size = length-set p.slots slot s ∙ p.full_size;
        span = omega (arith, length-append xs (s ∷ []), p.span);
        room = omega (arith, length-append xs (s ∷ []));
        window =
            Window-append slots' r.ring_entries r.sq_head s xs
              (Window-set p.slots r.ring_entries r.sq_head r.sq_tail s xs (omega arith)
                (omega arith) p.window)
              (subst (λ i. get_elem? slots' (i % r.ring_entries) ≡ some s) p.span
                (get_elem?-set_self p.slots slot s inside));
      },
      refl,
      omega arith,
    )

poll_cqe-Pending :
    (r : IoRing) (x : Sqe) (xs : List Sqe)
    → Pending r (x ∷ xs)
    → r.sq_tail < 2 ^ 32
    → (r' : IoRing) × (poll_cqe r ≡ some (some (completion x), r'))
      × Pending r' xs
      × (r'.ring_entries ≡ r.ring_entries)
      × (r'.sq_tail ≡ r.sq_tail)
unfolding poll_cqe
poll_cqe-Pending r x xs p small = (
  record r {
    sq_head = (r.sq_head + 1) % 2 ^ 32;
    total_completions = (r.total_completions + 1) % 2 ^ 64;
  },
  rw (lt→ltb r.sq_head r.sq_tail (omega (arith, p.span)), p.mapped, p.window.0) refl,
  record {
    slots = p.slots;
    mapped = p.mapped;
    full_size = p.full_size;
    span = omega (arith, p.span);
    room = omega (arith, p.room);
    window = subst (λ h. Window p.slots r.ring_entries h xs) (omega (arith, p.span)) p.window.1;
  },
  refl,
  refl,
)

poll_cqe-empty : (r : IoRing) → Pending r [] → poll_cqe r ≡ some (none, r)
unfolding poll_cqe
poll_cqe-empty r p = ground (arith, p.span)

-- A ring in which `xs` are pending answers the polls of a session as a queue with `xs` in it does,
-- as long as no submission finds the ring full and the tail stays below 2^32; it does not crash.
pub run-queue_run :
    (arrays : Malloc) (cs : List IoCall) (r : IoRing) (xs : List Sqe)
    → Pending r xs
    → never_full r.ring_entries cs (length xs) ≡ true
    → r.sq_tail + length cs < 2 ^ 32
    → run arrays cs r ≡ some (queue_run cs xs)
unfolding run queue_run never_full
run-queue_run arrays [] r xs p f small = refl
run-queue_run arrays (IoCall.submit s ∷ cs) r xs p f small =
    let (r', e, p', same, tail) = submit_sqe-Pending arrays s r xs p (ground arith) (omega arith) in
    rw e (
      run-queue_run arrays cs r' (xs ++ s ∷ []) p'
        (rw (same, length-append xs (s ∷ [])) (ground arith)) (omega arith))
run-queue_run arrays (IoCall.poll ∷ cs) r [] p f small =
    rw (poll_cqe-empty r p, run-queue_run arrays cs r [] p f (omega arith)) refl
run-queue_run arrays (IoCall.poll ∷ cs) r (x ∷ xs) p f small =
    let (r', e, p', same, tail) = poll_cqe-Pending r x xs p (omega arith) in
    rw (e, run-queue_run arrays cs r' xs p' (rw same (ground arith)) (omega arith)) refl

length-zeroed : (n : ℕ) → length (zeroed n) ≡ n
length-zeroed zero = refl
length-zeroed (suc n) = ap suc (length-zeroed n)

pub init-Pending : (n : ℕ) → Pending (init (some [], true) n new_ring).1 []
unfolding init
init-Pending n = record {
  slots = zeroed n;
  mapped = refl;
  full_size = length-zeroed n;
  span = refl;
  room = omega arith;
  window = tt;
}
