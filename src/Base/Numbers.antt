-- ===== src/Base/Numbers.antt =====
-- A number of the program as far as the services' range checks read it, and signed integers.
use Prim.Native.Nat.{ℕ, min, max}

-- `negsuc n` is -(n + 1).
pub data ℤ : Type 0 where
  pos : ℕ → ℤ
  negsuc : ℕ → ℤ

-- An integer, a finite number between `below` and `below + 1`, or NaN and the infinities.
pub data Number : Type 0 where
  whole : ℤ → Number
  between : (below : ℤ) → Number
  not_finite : Number

-- `Math.min(hi, Math.max(lo, z))` where the bounds are no negative numbers.
abbrev pub clamp : ℕ → ℕ → ℤ → ℕ
clamp lo hi (pos n) = min hi (max lo n)
clamp lo hi (negsuc n) = min hi lo
