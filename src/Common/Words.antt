-- ===== src/Common/Words.antt =====
-- Machine words: bytes, and 32-bit words in big endian order.
use Prim.Native.Nat.{ℕ, ◌+◌, ◌*◌, ◌/◌, ◌%◌, ◌^◌, ◌<◌}
use mathlib.Core.Path.{◌≡◌, refl}
use mathlib.Core.List.{[], ◌∷◌}
use native.Mathlib.Omega.{arith}
use safewrt.Common.Lists.{Bytes, length}

-- The four bytes of a word, the highest first. Each is stored into a `uint8_t`.
unfoldable pub be32 : ℕ → Bytes
be32 v = (v / 2 ^ 24 % 256) ∷ (v / 2 ^ 16 % 256) ∷ (v / 2 ^ 8 % 256) ∷ (v % 256) ∷ []

unfoldable pub from_be : ℕ → Bytes → ℕ
from_be acc [] = acc
from_be acc (b ∷ bs) = from_be (acc * 256 + b) bs

pub from_be-be32 : (v : ℕ) → v < 2 ^ 32 → from_be 0 (be32 v) ≡ v
unfolding from_be be32
from_be-be32 v h = omega arith

pub length-be32 : (v : ℕ) → length (be32 v) ≡ 4
unfolding be32
length-be32 v = refl
