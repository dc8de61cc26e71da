-- ===== src/Base/Words.antt =====
-- Machine words as native numbers. An `int32_t` is its bit pattern, below 2 ^ 32.
use Prim.Native.Nat.{ℕ, zero, suc, ◌+◌, ◌-◌, ◌*◌, ◌/◌, ◌%◌, ◌^◌, ◌<◌}
use mathlib.Core.Path.{◌≡◌, refl, ap}
use mathlib.Core.Bool.{Bool, not, ◌&&◌, ◌||◌}
use mathlib.Core.List.{List, [], ◌∷◌}
use native.Mathlib.Omega.{arith}
use anastasia.Base.Tests.{ltb, leb, ◌==◌, if◌then◌else◌}
use anastasia.Base.Lists.{length}

-- The low `n` bytes of a word, least significant first, as `memcpy` of it lays them out.
abbrev pub le_bytes : ℕ → ℕ → List ℕ
le_bytes zero v = []
le_bytes (suc n) v = v % 256 ∷ le_bytes n (v / 256)

abbrev pub from_le : List ℕ → ℕ
from_le [] = 0
from_le (b ∷ bs) = b + 256 * from_le bs

pub length-le_bytes : (n v : ℕ) → length (le_bytes n v) ≡ n
length-le_bytes zero v = refl
length-le_bytes (suc n) v = ap suc (length-le_bytes n (v / 256))

pub from_le-le_bytes4 : (v : ℕ) → v < 2 ^ 32 → from_le (le_bytes 4 v) ≡ v
from_le-le_bytes4 v h = omega arith

pub from_le-le_bytes8 : (v : ℕ) → v < 2 ^ 64 → from_le (le_bytes 8 v) ≡ v
from_le-le_bytes8 v h = omega arith

-- `imm >= -128 && imm <= 127` on an `int32_t`
abbrev pub fits_int8 : ℕ → Bool
fits_int8 imm = ltb imm 128 || leb (2 ^ 32 - 128) imm

-- sign extension of a byte to an `int32_t`
abbrev pub sign_extend8 : ℕ → ℕ
sign_extend8 b = if ltb b 128 then b else b + (2 ^ 32 - 256)

-- sign extension of an `int32_t` to an `int64_t`
abbrev pub sign_extend32 : ℕ → ℕ
sign_extend32 w = if ltb w (2 ^ 31) then w else w + (2 ^ 64 - 2 ^ 32)

-- `(n + a - 1) & ~(a - 1)` at a power of two `a`
abbrev pub align_up : ℕ → ℕ → ℕ
align_up a n = (n + (a - 1)) / a * a

-- `f` on the low `n` bits of two words.
unfoldable pub bitwise : (Bool → Bool → Bool) → ℕ → ℕ → ℕ → ℕ
bitwise f zero a b = 0
bitwise f (suc n) a b =
    (if f (a % 2 == 1) (b % 2 == 1) then 1 else 0) + 2 * bitwise f n (a / 2) (b / 2)

abbrev pub both : Bool → Bool → Bool
both p q = p && q

abbrev pub either : Bool → Bool → Bool
either p q = p || q

abbrev pub differ : Bool → Bool → Bool
differ p q = if p then not q else q
