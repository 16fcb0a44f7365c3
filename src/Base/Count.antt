-- ===== src/Base/Count.antt =====
-- How many indices of a range pass a test.
use Prim.Native.Nat.{ℕ, zero, suc, ◌+◌, ◌≤◌, ◌<◌}
use mathlib.Core.Path.{◌≡◌, refl, ap, ◌∙◌}
use mathlib.Core.Logic.{◌≢◌}
use mathlib.Core.Bool.{Bool, true, false}
use native.Mathlib.Omega.{arith}
use native.Mathlib.Decide.{ℕ_discrete}
use wapi.Base.Tests.{if◌then◌else◌}

-- Among the `n` indices from `i` on.
unfoldable pub count_from : (ℕ → Bool) → ℕ → ℕ → ℕ
count_from p i zero = 0
count_from p i (suc n) = (if p i then 1 else 0) + count_from p (i + 1) n

pub count_from-le : (p : ℕ → Bool) (i n : ℕ) → count_from p i n ≤ n
unfolding count_from
count_from-le p i zero = omega arith
count_from-le p i (suc n) = ground (arith, count_from-le p (i + 1) n)

pub count_from_ext :
    (p q : ℕ → Bool) (i n : ℕ)
    → ((j : ℕ) → i ≤ j → j < i + n → p j ≡ q j)
    → count_from p i n ≡ count_from q i n
unfolding count_from
count_from_ext p q i zero same = refl
count_from_ext p q i (suc n) same =
    let rest = count_from_ext p q (i + 1) n (λ j a b. same j (omega arith) (omega arith)) in
    ground (arith, rest, same i (omega arith) (omega arith))

pub count_from-none :
    (p : ℕ → Bool) (i n : ℕ) → ((j : ℕ) → i ≤ j → j < i + n → p j ≡ false) → count_from p i n ≡ 0
unfolding count_from
count_from-none p i zero none_there = refl
count_from-none p i (suc n) none_there =
    let rest = count_from-none p (i + 1) n (λ j a b. none_there j (omega arith) (omega arith)) in
    ground (arith, rest, none_there i (omega arith) (omega arith))

-- One index more passes.
pub count_from_more :
    (p q : ℕ → Bool) (h i n : ℕ)
    → i ≤ h
    → h < i + n
    → p h ≡ false
    → q h ≡ true
    → ((j : ℕ) → j ≢ h → p j ≡ q j)
    → count_from q i n ≡ count_from p i n + 1
unfolding count_from
count_from_more p q h i zero low high was now same = absurd (omega arith)
count_from_more p q h i (suc n) low high was now same = elim (ℕ_discrete i h) [
  | yes e ↦
      let rest = count_from_ext p q (i + 1) n (λ j a b. same j (λ f. omega arith)) in
      let was' : p i ≡ false = ap p e ∙ was in
      let now' : q i ≡ true = ap q e ∙ now in ground (arith, rest)
  | no ne ↦
      let rest = count_from_more p q h (i + 1) n (omega arith) (omega arith) was now same in
      ground (arith, rest, same i ne)
]

-- An index that passes is counted.
pub count_from_pos :
    (p : ℕ → Bool) (h i n : ℕ) → i ≤ h → h < i + n → p h ≡ true → 0 < count_from p i n
unfolding count_from
count_from_pos p h i zero low high hit = absurd (omega arith)
count_from_pos p h i (suc n) low high hit = elim (ℕ_discrete i h) [
  | yes e ↦ let here : p i ≡ true = ap p e ∙ hit in ground arith
  | no ne ↦ omega (arith, count_from_pos p h (i + 1) n (omega arith) (omega arith) hit)
]
