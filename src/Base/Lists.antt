-- ===== src/Base/Lists.antt =====
-- Arrays and byte buffers as lists with native indices; `write_at` is `memcpy` into a buffer.
use Prim.Native.Nat.{ℕ, zero, suc, ◌+◌, ◌≤◌}
use mathlib.Core.Path.{◌≡◌, refl, ap, subst}
use mathlib.Core.List.{List, [], ◌∷◌, ◌++◌}
use mathlib.Core.Option.{Option, none, some, some-injective}
use native.Mathlib.Omega.{arith}

module _ {ℓ} {A : Type ℓ} where
  abbrev pub length : List A → ℕ
  length [] = 0
  length (x ∷ xs) = suc (length xs)

  abbrev pub get_elem? : List A → ℕ → Option A
  get_elem? [] i = none
  get_elem? (x ∷ xs) zero = some x
  get_elem? (x ∷ xs) (suc i) = get_elem? xs i

  abbrev pub set : List A → ℕ → A → List A
  set [] i v = []
  set (x ∷ xs) zero v = v ∷ xs
  set (x ∷ xs) (suc i) v = x ∷ set xs i v

  abbrev pub take : ℕ → List A → List A
  take zero xs = []
  take (suc n) [] = []
  take (suc n) (x ∷ xs) = x ∷ take n xs

  abbrev pub drop : ℕ → List A → List A
  drop zero xs = xs
  drop (suc n) [] = []
  drop (suc n) (x ∷ xs) = drop n xs

  -- Bytes of `src` past the end of the buffer are lost; the callers' bounds exclude that.
  abbrev pub overwrite : List A → List A → List A
  overwrite [] src = []
  overwrite (x ∷ xs) [] = x ∷ xs
  overwrite (x ∷ xs) (b ∷ src) = b ∷ overwrite xs src

  abbrev pub write_at : List A → ℕ → List A → List A
  write_at xs zero src = overwrite xs src
  write_at [] (suc i) src = []
  write_at (x ∷ xs) (suc i) src = x ∷ write_at xs i src

  abbrev pub All {κ} : (A → Type κ) → List A → Type κ
  All P [] = Unit
  All P (x ∷ xs) = P x × All P xs

module _ {ℓ} {A : Type ℓ} where
  abbrev pub slice : List A → ℕ → ℕ → List A
  slice xs i n = take n (drop i xs)

  pub length-append : (xs ys : List A) → length (xs ++ ys) ≡ length xs + length ys
  length-append [] ys = omega arith
  length-append (x ∷ xs) ys = omega (arith, length-append xs ys)

  pub length-overwrite : (xs src : List A) → length (overwrite xs src) ≡ length xs
  length-overwrite [] src = refl
  length-overwrite (x ∷ xs) [] = refl
  length-overwrite (x ∷ xs) (b ∷ src) = ap suc (length-overwrite xs src)

  pub length-write_at :
      (xs : List A) (i : ℕ) (src : List A) → length (write_at xs i src) ≡ length xs
  length-write_at xs zero src = length-overwrite xs src
  length-write_at [] (suc i) src = refl
  length-write_at (x ∷ xs) (suc i) src = ap suc (length-write_at xs i src)

  pub take-overwrite_self :
      (xs src : List A) → length src ≤ length xs → take (length src) (overwrite xs src) ≡ src
  take-overwrite_self xs [] h = refl
  take-overwrite_self [] (b ∷ src) h = absurd (omega arith)
  take-overwrite_self (x ∷ xs) (b ∷ src) h =
      ap (λ t. b ∷ t) (take-overwrite_self xs src (omega arith))

  pub slice-write_at_self :
      (xs : List A) (i : ℕ) (src : List A)
      → i + length src ≤ length xs
      → slice (write_at xs i src) i (length src) ≡ src
  slice-write_at_self xs zero src h = take-overwrite_self xs src (omega arith)
  slice-write_at_self [] (suc i) src h = absurd (omega arith)
  slice-write_at_self (x ∷ xs) (suc i) src h = slice-write_at_self xs i src (omega arith)

  pub drop-overwrite_after :
      (xs src : List A) (j : ℕ) → length src ≤ j → drop j (overwrite xs src) ≡ drop j xs
  drop-overwrite_after [] src j h = refl
  drop-overwrite_after (x ∷ xs) [] j h = refl
  drop-overwrite_after (x ∷ xs) (b ∷ src) zero h = absurd (omega arith)
  drop-overwrite_after (x ∷ xs) (b ∷ src) (suc j) h = drop-overwrite_after xs src j (omega arith)

  pub slice-write_at_after :
      (xs : List A) (i : ℕ) (src : List A) (j n : ℕ)
      → i + length src ≤ j
      → slice (write_at xs i src) j n ≡ slice xs j n
  slice-write_at_after xs zero src j n h = ap (take n) (drop-overwrite_after xs src j (omega arith))
  slice-write_at_after [] (suc i) src j n h = refl
  slice-write_at_after (x ∷ xs) (suc i) src zero n h = absurd (omega arith)
  slice-write_at_after (x ∷ xs) (suc i) src (suc j) n h =
      slice-write_at_after xs i src j n (omega arith)

  take-write_at_before :
      (xs : List A) (i : ℕ) (src : List A) (n : ℕ) → n ≤ i → take n (write_at xs i src) ≡ take n xs
  take-write_at_before xs i src zero h = refl
  take-write_at_before xs zero src (suc n) h = absurd (omega arith)
  take-write_at_before [] (suc i) src (suc n) h = refl
  take-write_at_before (x ∷ xs) (suc i) src (suc n) h =
      ap (λ t. x ∷ t) (take-write_at_before xs i src n (omega arith))

  pub slice-write_at_before :
      (xs : List A) (i : ℕ) (src : List A) (j n : ℕ)
      → j + n ≤ i
      → slice (write_at xs i src) j n ≡ slice xs j n
  slice-write_at_before xs i src zero n h = take-write_at_before xs i src n (omega arith)
  slice-write_at_before xs zero src (suc j) n h = absurd (omega arith)
  slice-write_at_before [] (suc i) src (suc j) n h = refl
  slice-write_at_before (x ∷ xs) (suc i) src (suc j) n h =
      slice-write_at_before xs i src j n (omega arith)

  pub slice-append :
      (xs ys : List A) (j n : ℕ) → j + n ≤ length xs → slice (xs ++ ys) j n ≡ slice xs j n
  slice-append [] ys zero zero h = refl
  slice-append [] ys zero (suc n) h = absurd (omega arith)
  slice-append [] ys (suc j) n h = absurd (omega arith)
  slice-append (x ∷ xs) ys zero zero h = refl
  slice-append (x ∷ xs) ys zero (suc n) h =
      ap (λ t. x ∷ t) (slice-append xs ys zero n (omega arith))
  slice-append (x ∷ xs) ys (suc j) n h = slice-append xs ys j n (omega arith)

module _ {ℓ κ} {A : Type ℓ} where
  pub All-get_elem? :
      (P : A → Type κ) (xs : List A) (i : ℕ) {x : A} → All P xs → get_elem? xs i ≡ some x → P x
  All-get_elem? P [] i {x} h e = absurd (cc)
  All-get_elem? P (y ∷ xs) zero {x} h e = subst P (some-injective y x e) h.0
  All-get_elem? P (y ∷ xs) (suc i) {x} h e = All-get_elem? P xs i h.1 e
