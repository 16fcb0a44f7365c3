-- ===== src/Base/Find.antt =====
-- The search that most tables of the runtime use: `for (i = lo; i < lo + n; i++) if (p(i)) return i;`.
use Prim.Native.Nat.{ℕ, zero, suc, ◌+◌, ◌≤◌, ◌<◌}
use mathlib.Core.Path.{◌≡◌, sym, ◌∙◌}
use mathlib.Core.Logic.{inl, inr}
use mathlib.Core.Bool.{Bool, true, false, false≢true}
use mathlib.Core.Option.{Option, none, some}
use native.Mathlib.Omega.{arith}
use native.Mathlib.Decide.{dec_lt}
use wapi.Base.Tests.{Bool-cases, Option-cases}

-- The first index of `[i, i + n)` at which the test holds.
unfoldable pub find_from : (ℕ → Bool) → ℕ → ℕ → Option ℕ
find_from p i zero = none
find_from p i (suc n) = elim (p i) [ true ↦ some i | false ↦ find_from p (i + 1) n ]

-- What a search that succeeds says of its result.
pub record Found (p : ℕ → Bool) (i n k : ℕ) : Type 0 where
  pub low : i ≤ k
  pub high : k < i + n
  pub hit : p k ≡ true
  pub first : (j : ℕ) → i ≤ j → j < k → p j ≡ false

module _ (p : ℕ → Bool) where
  -- One step of the loop past an index at which the test fails.
  Found-later : (i n k : ℕ) → p i ≡ false → Found p (i + 1) n k → Found p i (suc n) k
  Found-later i n k miss f = record {
    low = omega (arith, f.low);
    high = omega (arith, f.high);
    hit = f.hit;
    first = λ j a b. elim (dec_lt i j) [
      | yes lt ↦ f.first j (omega arith) b
      | no ge ↦ let e : j ≡ i = omega arith in rw e miss
    ];
  }

  -- A result lies in the range and passes, and nothing before it does.
  pub find_from-Found : (i n k : ℕ) → find_from p i n ≡ some k → Found p i n k
  unfolding find_from
  find_from-Found i zero k h = cc
  find_from-Found i (suc n) k h = elim (Bool-cases (p i)) [
    | inl hit ↦
        let e : i ≡ k = ground arith in
        rw (← e) (record {
          low = omega arith;
          high = omega arith;
          hit = hit;
          first = λ j a b. absurd (omega arith);
        })
    | inr miss ↦ Found-later i n k miss (find_from-Found (i + 1) n k (rw (miss, find_from) at h))
  ]

  -- A search that fails has seen the whole range.
  pub find_from-none :
      (i n : ℕ) → find_from p i n ≡ none → (j : ℕ) → i ≤ j → j < i + n → p j ≡ false
  unfolding find_from
  find_from-none i zero h j a b = absurd (omega arith)
  find_from-none i (suc n) h j a b = elim (Bool-cases (p i)) [
    | inl hit ↦ ground arith
    | inr miss ↦ elim (dec_lt i j) [
      | yes lt ↦ find_from-none (i + 1) n (rw (miss, find_from) at h) j (omega arith) (omega arith)
      | no ge ↦ let e : j ≡ i = omega arith in rw e miss
    ]
  ]

  -- So a search succeeds if some index of the range passes.
  pub find_from-hit :
      (i n j : ℕ) → i ≤ j → j < i + n → p j ≡ true → (k : ℕ) × (find_from p i n ≡ some k)
  find_from-hit i n j a b hit = elim (Option-cases (find_from p i n)) [
    | inl e ↦ absurd (false≢true (sym (find_from-none i n e j a b) ∙ hit))
    | inr found ↦ found
  ]
