-- ===== src/Base/Bytes.antt =====
-- Little-endian integers in memory, as `memcpy` to and from a native integer reads and writes them.
use Prim.Native.Nat.{ℕ, zero, suc, ◌+◌, ◌*◌, ◌/◌, ◌%◌, ◌^◌, ◌<◌}
use mathlib.Core.Path.{◌≡◌, refl, ap}
use mathlib.Core.List.{List, [], ◌∷◌}
use native.Mathlib.Omega.{arith}
use native.Mathlib.Nat.{pow-suc}
use wapi.Base.Arrays.{length}

-- The `n` low bytes of `v`, lowest first.
abbrev pub to_le : ℕ → ℕ → List ℕ
to_le zero v = []
to_le (suc n) v = (v % 256) ∷ to_le n (v / 256)

abbrev pub from_le : List ℕ → ℕ
from_le [] = 0
from_le (b ∷ bs) = b + 256 * from_le bs

pub length-to_le : (n v : ℕ) → length (to_le n v) ≡ n
length-to_le zero v = refl
length-to_le (suc n) v = ap suc (length-to_le n (v / 256))

-- Reading back what was written, at every width that holds the value.
pub from_le-to_le : (n v : ℕ) → v < 256 ^ n → from_le (to_le n v) ≡ v
from_le-to_le zero v h = omega arith
from_le-to_le (suc n) v h =
    let ih = from_le-to_le n (v / 256) (omega (arith, pow-suc 256 n)) in omega (arith, ih)
