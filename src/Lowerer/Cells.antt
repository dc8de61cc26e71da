-- ===== src/Lowerer/Cells.antt =====
-- Words in the processor's memory: a store is read back, and leaves words apart from it alone.
use anastasia.Base.{
  ℕ, ◌+◌, ◌-◌, ◌%◌, ◌^◌, ◌≤◌, ◌<◌, ◌≡◌, ◌⊎◌, refl, ap, ◌∙◌, arith, zero, suc, List, [], ◌∷◌,
}
use anastasia.Base.Words.{from_le}
use anastasia.Lowerer.Cpu.{load_bytes, load64, store64, byte_of}

store64_hit :
    (a v j : ℕ) (memory : ℕ → ℕ) (x : ℕ)
    → a < 2 ^ 64
    → j < 8
    → x ≡ (a + j) % 2 ^ 64
    → store64 a v memory x ≡ byte_of v j
store64_hit a v j memory x h k e =
    let d : (x + 2 ^ 64 - a) % 2 ^ 64 ≡ j = omega arith in rw d (ground arith)

from_le-byte_of :
    (v : ℕ)
    → v < 2 ^ 64
    → from_le (
        byte_of v 0
        ∷ byte_of v 1
        ∷ byte_of v 2
        ∷ byte_of v 3
        ∷ byte_of v 4
        ∷ byte_of v 5
        ∷ byte_of v 6
        ∷ byte_of v 7
        ∷ [])
      ≡ v
from_le-byte_of v h = omega arith

-- The bytes of a word from the `j`-th on.
abbrev bytes_from : ℕ → ℕ → ℕ → List ℕ
bytes_from v zero j = []
bytes_from v (suc n) j = byte_of v j ∷ bytes_from v n (j + 1)

load_bytes_hit :
    (a v : ℕ) (memory : ℕ → ℕ) (n j b : ℕ)
    → a < 2 ^ 64
    → j + n ≤ 8
    → b ≡ a + j
    → load_bytes (store64 a v memory) n b ≡ bytes_from v n j
load_bytes_hit a v memory zero j b h k e = refl
load_bytes_hit a v memory (suc n) j b h k e =
    ap (λ x. x ∷ load_bytes (store64 a v memory) n (b + 1))
      (store64_hit a v j memory (b % 2 ^ 64) h (omega arith) (omega arith))
    ∙ ap (◌∷◌ (byte_of v j))
        (load_bytes_hit a v memory n (j + 1) (b + 1) h (omega arith) (omega arith))

pub load64-store64 :
    (a v : ℕ) (memory : ℕ → ℕ) → a < 2 ^ 64 → v < 2 ^ 64 → load64 (store64 a v memory) a ≡ v
load64-store64 a v memory h k =
    ap from_le (load_bytes_hit a v memory 8 0 a h (omega arith) (omega arith)) ∙ from_le-byte_of v k

pub store64_miss :
    (a v : ℕ) (memory : ℕ → ℕ) (x : ℕ)
    → a + 8 ≤ 2 ^ 64
    → x < 2 ^ 64
    → (a + 8 ≤ x) ⊎ (x < a)
    → store64 a v memory x ≡ memory x
store64_miss a v memory x h k apart = ground arith

load_bytes_miss :
    (a v : ℕ) (memory : ℕ → ℕ) (n b : ℕ)
    → a + 8 ≤ 2 ^ 64
    → b + n ≤ 2 ^ 64
    → (a + 8 ≤ b) ⊎ (b + n ≤ a)
    → load_bytes (store64 a v memory) n b ≡ load_bytes memory n b
load_bytes_miss a v memory zero b h k apart = refl
load_bytes_miss a v memory (suc n) b h k apart =
    ap (λ x. x ∷ load_bytes (store64 a v memory) n (b + 1))
      (store64_miss a v memory (b % 2 ^ 64) h (omega arith) (ground arith))
    ∙ ap (◌∷◌ (memory (b % 2 ^ 64)))
        (load_bytes_miss a v memory n (b + 1) h (omega arith) (ground arith))

-- Two words of memory that share no byte.
abbrev pub Apart : ℕ → ℕ → Type 0
Apart a b = (a + 8 ≤ b) ⊎ (b + 8 ≤ a)

pub load64-store64_apart :
    (a b v : ℕ) (memory : ℕ → ℕ)
    → a + 8 ≤ 2 ^ 64
    → b + 8 ≤ 2 ^ 64
    → Apart a b
    → load64 (store64 a v memory) b ≡ load64 memory b
load64-store64_apart a b v memory h k apart = ap from_le (load_bytes_miss a v memory 8 b h k apart)

load_bytes_congr :
    (memory memory' : ℕ → ℕ) (n a : ℕ)
    → a + n ≤ 2 ^ 64
    → ((x : ℕ) → x < 2 ^ 64 → a ≤ x → memory x ≡ memory' x)
    → load_bytes memory n a ≡ load_bytes memory' n a
load_bytes_congr memory memory' zero a h same = refl
load_bytes_congr memory memory' (suc n) a h same =
    ap (λ x. x ∷ load_bytes memory n (a + 1)) (same (a % 2 ^ 64) (omega arith) (omega arith))
    ∙ ap (◌∷◌ (memory' (a % 2 ^ 64))) (
        load_bytes_congr memory memory' n (a + 1) (omega arith)
          λ x below above. same x below (omega arith))

-- A word depends on the bytes from its address on.
pub load64_congr :
    (memory memory' : ℕ → ℕ) (a : ℕ)
    → a + 8 ≤ 2 ^ 64
    → ((x : ℕ) → x < 2 ^ 64 → a ≤ x → memory x ≡ memory' x)
    → load64 memory a ≡ load64 memory' a
load64_congr memory memory' a h same = ap from_le (load_bytes_congr memory memory' 8 a h same)
