-- ===== src/Memory/Align.antt =====
-- `align_up`: the least multiple of the alignment that is not below the value, where the sum does
-- not wrap, and 0 where it does.
use wapi.Base.{ℕ, ◌+◌, ◌-◌, ◌*◌, ◌/◌, ◌%◌, ◌^◌, ◌≤◌, ◌<◌, ◌≡◌, ap, ◌∙◌, true, arith, ==_iff, dec_lt}
use native.Mathlib.Nat.{mul-mod_left, lt-div-mul-add, div-mul-le_self, div-eq_of_lt, one-le-pow}
use wapi.Base.Bits.{round_down, bit_and_pred-zero, pow-split}
use wapi.Abi.{u32, u32_mod}
use wapi.Memory.{align_up, power_of_two}

-- A power of two below `2 ^ 32` divides it.
pub record Divides32 (a : ℕ) : Type 0 where
  pub exponent : ℕ
  pub cofactor : ℕ
  pub is_power : a ≡ 2 ^ exponent
  pub product : 2 ^ cofactor * a ≡ u32_mod
  pub positive : 0 < a

-- Powers grow with the exponent, so one that fits 32 bits has an exponent below 32.
pow_mono : (d k n : ℕ) → d + k ≡ n → 2 ^ k ≤ 2 ^ n
pow_mono d k n h = grind (arith, pow-split d k n h, one-le-pow d 2 (omega arith))

-- What the guards of the allocator let through.
pub power_of_two-Divides32 : (a : ℕ) → 0 < a → a < u32_mod → power_of_two a ≡ true → Divides32 a
power_of_two-Divides32 a pos lt e =
    let (k, power) = bit_and_pred-zero a a (omega arith) pos ((==_iff _ 0).0 e) in
    elim (dec_lt k 32) [
      | yes small ↦ record {
        exponent = k;
        cofactor = 32 - k;
        is_power = power;
        product = ap (λ (t : ℕ). 2 ^ (32 - k) * t) power ∙ pow-split (32 - k) k 32 (omega arith);
        positive = pos;
      }
      | no large ↦ absurd (omega (arith, pow_mono (k - 32) 32 k (omega arith)))
    ]

-- Rounding down to a multiple of the alignment.
pub align_up-div : (v a : ℕ) → Divides32 a → align_up v a ≡ u32 (v + a - 1) / a * a
unfolding align_up
align_up-div v a d =
    round_down (u32 (v + a - 1)) a u32_mod d.exponent d.cofactor d.is_power d.product (omega arith)

-- Without a wrap the result is a multiple of the alignment, and the least one that is not below the
-- value.
pub align_up_lem :
    (v a : ℕ)
    → Divides32 a
    → v + a ≤ u32_mod
    → (align_up v a % a ≡ 0) × (v ≤ align_up v a) × (align_up v a < v + a)
align_up_lem v a d h =
    let sum : u32 (v + a - 1) ≡ v + a - 1 = omega (arith, d.positive) in
    let e = align_up-div v a d ∙ ap (λ (t : ℕ). t / a * a) sum in
    (
      rw e (mul-mod_left ((v + a - 1) / a) a),
      omega (arith, e, lt-div-mul-add {a = v + a - 1} d.positive),
      omega (arith, e, div-mul-le_self (v + a - 1) a, d.positive),
    )

-- Where the sum wraps the result is 0, wherever the value lies.
pub align_up_wraps : (v a : ℕ) → Divides32 a → v < u32_mod → u32_mod < v + a → align_up v a ≡ 0
align_up_wraps v a d lt h =
    let small : u32 (v + a - 1) < a = omega arith in
    align_up-div v a d ∙ ap (λ (t : ℕ). t * a) (div-eq_of_lt small) ∙ omega arith
