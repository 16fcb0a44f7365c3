-- ===== src/Base/Bits.antt =====
-- `&` on machine words: its law digit by digit, and the two masks that the allocators use,
-- `x & ~(2^k - 1)` and the power-of-two test `x & (x - 1)`.
use Prim.Native.Nat.{
  ℕ, zero, suc, ◌+◌, ◌-◌, ◌*◌, ◌/◌, ◌%◌, ◌^◌, ◌≤◌, ◌<◌, min, bit_and, digits, bit_and-bitwise,
}
use mathlib.Core.Path.{◌≡◌, refl, sym, ap, ◌∙◌}
use native.Mathlib.Omega.{arith}
use native.Mathlib.Nat.{pow-suc, pow-succ', one-le-pow, div-div-eq-div-mul}
use native.Mathlib.Decide.{ℕ_discrete}

-- The bits of `x & y`, of which at most `fuel` are looked at.
abbrev and_upto : ℕ → ℕ → ℕ → ℕ
and_upto fuel x y = digits (λ _. zero) min fuel x y

-- More fuel than `x` changes nothing.
and_upto_enough : (m n x y : ℕ) → x ≤ m → x ≤ n → and_upto m x y ≡ and_upto n x y
and_upto_enough zero zero x y hm hn = refl
and_upto_enough (suc m) zero zero y hm hn = refl
and_upto_enough (suc m) zero (suc x) y hm hn = absurd (omega arith)
and_upto_enough zero (suc n) zero y hm hn = refl
and_upto_enough zero (suc n) (suc x) y hm hn = absurd (omega arith)
and_upto_enough (suc m) (suc n) zero y hm hn = refl
and_upto_enough (suc m) (suc n) (suc x) y hm hn =
    let rest = and_upto_enough m n (suc x / 2) (y / 2) (omega arith) (omega arith) in
    omega (arith, rest)

bit_and_zero_left : (y : ℕ) → bit_and 0 y ≡ 0
bit_and_zero_left y = bit_and-bitwise 0 y

-- `x & y` from its lowest bit and the rest.
pub bit_and_halves : (x y : ℕ) → bit_and x y ≡ bit_and (x / 2) (y / 2) * 2 + min (x % 2) (y % 2)
bit_and_halves zero y = omega (arith, bit_and_zero_left y, bit_and_zero_left (y / 2))
bit_and_halves (suc x) y = omega (
  arith,
  bit_and-bitwise (suc x) y,
  bit_and-bitwise (suc x / 2) (y / 2),
  and_upto_enough x (suc x / 2) (suc x / 2) (y / 2) (omega arith) (omega arith),
)

bit_and_zero_upto : (n x : ℕ) → x ≤ n → bit_and x 0 ≡ 0
bit_and_zero_upto n zero h = refl
bit_and_zero_upto zero (suc x) h = absurd (omega arith)
bit_and_zero_upto (suc n) (suc x) h =
    omega (arith, bit_and_halves (suc x) 0, bit_and_zero_upto n (suc x / 2) (omega arith))

bit_and_zero_right : (x : ℕ) → bit_and x 0 ≡ 0
bit_and_zero_right x = bit_and_zero_upto x x (omega arith)

-- `x & x` is `x`, by induction on a bound of `x`.
bit_and_same_upto : (n x : ℕ) → x ≤ n → bit_and x x ≡ x
bit_and_same_upto n zero h = refl
bit_and_same_upto zero (suc x) h = absurd (omega arith)
bit_and_same_upto (suc n) (suc x) h =
    omega (arith, bit_and_halves (suc x) (suc x), bit_and_same_upto n (suc x / 2) (omega arith))

-- The low `w` bits are all kept by the mask of `w` ones.
bit_and_ones : (w x : ℕ) → x < 2 ^ w → bit_and x (2 ^ w - 1) ≡ x
bit_and_ones zero x h = let e : x ≡ 0 = omega arith in omega (arith, ap (λ (t : ℕ). bit_and t 0) e)
bit_and_ones (suc w) x h =
    let p = one-le-pow w 2 (omega arith) in
    let half : (2 ^ suc w - 1) / 2 ≡ 2 ^ w - 1 = omega (arith, pow-suc 2 w) in
    omega (
      arith,
      pow-suc 2 w,
      bit_and_halves x (2 ^ suc w - 1),
      ap (bit_and (x / 2)) half,
      bit_and_ones w (x / 2) (omega (arith, pow-suc 2 w)),
    )

-- The quotient by `2 ^ suc k`, put back together.
high_suc : (k x : ℕ) → x / 2 ^ suc k * 2 ^ suc k ≡ 2 * (x / 2 / 2 ^ k * 2 ^ k)
high_suc k x = omega (
  arith,
  ap (λ (t : ℕ). x / 2 ^ suc k * t) (pow-succ' 2 k),
  ap (λ (t : ℕ). t * 2 ^ k)
      (div-div-eq-div-mul x 2 (2 ^ k) ∙ ap (λ (t : ℕ). x / t) (sym (pow-succ' 2 k))),
)

-- `x & ~(2^k - 1)` in `d + k` bits rounds down to a multiple of `2 ^ k`.
pub bit_and_high :
    (k d x : ℕ) → x < 2 ^ d * 2 ^ k → bit_and x (2 ^ d * 2 ^ k - 2 ^ k) ≡ x / 2 ^ k * 2 ^ k
bit_and_high zero d x h =
    let mask : 2 ^ d * 2 ^ zero - 2 ^ zero ≡ 2 ^ d - 1 = omega arith in
    omega (arith, ap (bit_and x) mask, bit_and_ones d x (omega arith))
bit_and_high (suc k) d x h =
    let doubled : 2 ^ d * 2 ^ suc k ≡ 2 * (2 ^ d * 2 ^ k) =
      omega (arith, ap (λ (t : ℕ). 2 ^ d * t) (pow-suc 2 k)) in
    let half : (2 ^ d * 2 ^ suc k - 2 ^ suc k) / 2 ≡ 2 ^ d * 2 ^ k - 2 ^ k =
      omega (arith, pow-suc 2 k, doubled) in
    omega (
      arith,
      pow-suc 2 k,
      doubled,
      bit_and_halves x (2 ^ d * 2 ^ suc k - 2 ^ suc k),
      ap (bit_and (x / 2)) half,
      bit_and_high k d (x / 2) (omega arith),
      high_suc k x,
    )

-- `x & (x - 1) == 0` holds of the powers of two only.
pub bit_and_pred-zero : (n x : ℕ) → x ≤ n → 0 < x → bit_and x (x - 1) ≡ 0 → (k : ℕ) × (x ≡ 2 ^ k)
bit_and_pred-zero zero x h pos e = absurd (omega arith)
bit_and_pred-zero (suc n) x h pos e = elim (ℕ_discrete (x % 2) 0) [
  | yes even ↦
      let half : (x - 1) / 2 ≡ x / 2 - 1 = omega arith in
      let (k, power) =
        bit_and_pred-zero n (x / 2) (omega arith) (omega arith)
          (omega (arith, bit_and_halves x (x - 1), ap (bit_and (x / 2)) half)) in
      (suc k, omega (arith, power, pow-suc 2 k))
  | no odd ↦
      let half : (x - 1) / 2 ≡ x / 2 = omega arith in
      (
        0,
        omega (
          arith,
          bit_and_halves x (x - 1),
          ap (bit_and (x / 2)) half,
          bit_and_same_upto x (x / 2) (omega arith),
        ),
      )
]

-- A mask and its complement split a word in two.
pub bit_and_complement :
    (w x m : ℕ) → x < 2 ^ w → m < 2 ^ w → bit_and x (2 ^ w - 1 - m) + bit_and x m ≡ x
bit_and_complement zero x m h k =
    let none : x ≡ 0 = omega arith in
    omega (
      arith,
      ap (λ (t : ℕ). bit_and t (2 ^ zero - 1 - m)) none,
      ap (λ (t : ℕ). bit_and t m) none,
      bit_and_zero_left (2 ^ zero - 1 - m),
      bit_and_zero_left m,
    )
bit_and_complement (suc w) x m h k =
    let half : (2 ^ suc w - 1 - m) / 2 ≡ 2 ^ w - 1 - m / 2 = omega (arith, pow-suc 2 w) in
    omega (
      arith,
      pow-suc 2 w,
      bit_and_halves x (2 ^ suc w - 1 - m),
      bit_and_halves x m,
      ap (bit_and (x / 2)) half,
      bit_and_complement w (x / 2) (m / 2) (omega (arith, pow-suc 2 w))
          (omega (arith, pow-suc 2 w)),
    )

pub bit_and-le_mask : (w x m : ℕ) → m < 2 ^ w → bit_and x m ≤ m
bit_and-le_mask zero x m k =
    let none : m ≡ 0 = omega arith in omega (arith, ap (bit_and x) none, bit_and_zero_right x)
bit_and-le_mask (suc w) x m k =
    omega
      (arith, bit_and_halves x m, bit_and-le_mask w (x / 2) (m / 2) (omega (arith, pow-suc 2 w)))

-- A power of two splits at every exponent below.
pub pow-split : (d k n : ℕ) → d + k ≡ n → 2 ^ d * 2 ^ k ≡ 2 ^ n
pow-split d zero n h = let e : d ≡ n = omega arith in omega (arith, ap (λ (t : ℕ). 2 ^ t) e)
pow-split d (suc k) zero h = absurd (omega arith)
pow-split d (suc k) (suc n) h =
    omega
      (arith, ap (λ (t : ℕ). 2 ^ d * t) (pow-suc 2 k), pow-suc 2 n, pow-split d k n (omega arith))

-- The mask of the low `k` bits, in place of its complement.
pub round_down : (x a m k d : ℕ) → a ≡ 2 ^ k → 2 ^ d * a ≡ m → x < m → bit_and x (m - a) ≡ x / a * a
round_down x a m k d power product h =
    rw (← product, power) (bit_and_high k d x (rw (← power, product) h))

-- `(v + m) & ~m` is not below `v`, whatever the mask.
pub le-round_up :
    (w v m : ℕ)
    → v + m < 2 ^ w
    → (v ≤ bit_and (v + m) (2 ^ w - 1 - m)) × (bit_and (v + m) (2 ^ w - 1 - m) ≤ v + m)
le-round_up w v m h =
    let both = bit_and_complement w (v + m) m h (omega arith) in
    let low = bit_and-le_mask w (v + m) m (omega arith) in (omega arith, omega arith)
