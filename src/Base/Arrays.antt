-- ===== src/Base/Arrays.antt =====
-- Arrays and tables of fixed size as functions of the index; lists with native indices.
use Prim.Native.Nat.{ℕ, zero, suc, ◌+◌, ◌<◌, ◌≤◌}
use mathlib.Core.Path.{◌≡◌, refl, ap, ap₂, ◌∙◌}
use mathlib.Core.Logic.{◌≢◌, ◌⊎◌, inl, inr}
use mathlib.Core.List.{List, [], ◌∷◌, ◌++◌}
use native.Mathlib.Omega.{arith}
use wapi.Base.Tests.{◌==◌, if◌then◌else◌}

module _ {ℓ} {A : Type ℓ} where
  -- `a[i] = v`
  abbrev pub update : (ℕ → A) → ℕ → A → ℕ → A
  update a i v j = if j == i then v else a j

  pub update_self : (a : ℕ → A) (i : ℕ) (v : A) → update a i v i ≡ v
  update_self a i v = ground arith

  pub update_ne : (a : ℕ → A) (i : ℕ) (v : A) (j : ℕ) → j ≢ i → update a i v j ≡ a j
  update_ne a i v j h = ground arith

  abbrev pub length : List A → ℕ
  length [] = 0
  length (x ∷ xs) = suc (length xs)

  abbrev pub get_or : List A → ℕ → A → A
  get_or [] i d = d
  get_or (x ∷ xs) zero d = x
  get_or (x ∷ xs) (suc i) d = get_or xs i d

  abbrev pub take : ℕ → List A → List A
  take zero xs = []
  take (suc n) [] = []
  take (suc n) (x ∷ xs) = x ∷ take n xs

  abbrev pub drop : ℕ → List A → List A
  drop zero xs = xs
  drop (suc n) [] = []
  drop (suc n) (x ∷ xs) = drop n xs

  abbrev pub replicate : ℕ → A → List A
  replicate zero a = []
  replicate (suc n) a = a ∷ replicate n a

  pub length-append : (xs ys : List A) → length (xs ++ ys) ≡ length xs + length ys
  length-append [] ys = omega arith
  length-append (x ∷ xs) ys = omega (arith, length-append xs ys)

  pub take_over : (n : ℕ) (xs : List A) → length xs ≤ n → take n xs ≡ xs
  take_over zero [] h = refl
  take_over (suc n) [] h = refl
  take_over zero (x ∷ xs) h = absurd (omega arith)
  take_over (suc n) (x ∷ xs) h = ap (◌∷◌ x) (take_over n xs (omega arith))

  pub length-take : (n : ℕ) (xs : List A) → n ≤ length xs → length (take n xs) ≡ n
  length-take zero xs h = refl
  length-take (suc n) [] h = absurd (omega arith)
  length-take (suc n) (x ∷ xs) h = ap suc (length-take n xs (omega arith))

  pub length-take_le : (n : ℕ) (xs : List A) → length (take n xs) ≤ n
  length-take_le zero xs = omega arith
  length-take_le (suc n) [] = omega arith
  length-take_le (suc n) (x ∷ xs) = omega (arith, length-take_le n xs)

  -- The `n` cells from index `i` on, as a list.
  abbrev pub cells : (ℕ → A) → ℕ → ℕ → List A
  cells a i zero = []
  cells a i (suc n) = a i ∷ cells a (i + 1) n

  -- One cell more, at the end.
  pub cells_snoc : (a : ℕ → A) (i n : ℕ) → cells a i (suc n) ≡ cells a i n ++ a (i + n) ∷ []
  cells_snoc a i zero = ap (λ k. a k ∷ []) (omega arith)
  cells_snoc a i (suc n) =
      ap (◌∷◌ (a i))
        (cells_snoc a (i + 1) n ∙ ap (λ k. cells a (i + 1) n ++ a k ∷ []) (omega arith))

  pub length-cells : (a : ℕ → A) (i n : ℕ) → length (cells a i n) ≡ n
  length-cells a i zero = refl
  length-cells a i (suc n) = ap suc (length-cells a (i + 1) n)

  pub cells_ext :
      (a b : ℕ → A) (i n : ℕ)
      → ((j : ℕ) → i ≤ j → j < i + n → a j ≡ b j)
      → cells a i n ≡ cells b i n
  cells_ext a b i zero h = refl
  cells_ext a b i (suc n) h =
      ap₂ ◌∷◌ (h i (omega arith) (omega arith))
        (cells_ext a b (i + 1) n (λ j p q. h j (omega arith) (omega arith)))

  -- `memcpy(a + i, xs, length xs)`
  abbrev pub store : (ℕ → A) → ℕ → List A → ℕ → A
  store a i [] = a
  store a i (x ∷ xs) = update (store a (i + 1) xs) i x

  pub store_below : (a : ℕ → A) (i : ℕ) (xs : List A) (j : ℕ) → j < i → store a i xs j ≡ a j
  store_below a i [] j h = refl
  store_below a i (x ∷ xs) j h =
      update_ne (store a (i + 1) xs) i x j (λ e. omega arith)
      ∙ store_below a (i + 1) xs j (omega arith)

  pub store_above :
      (a : ℕ → A) (i : ℕ) (xs : List A) (j : ℕ) → i + length xs ≤ j → store a i xs j ≡ a j
  store_above a i [] j h = refl
  store_above a i (x ∷ xs) j h =
      update_ne (store a (i + 1) xs) i x j (λ e. omega arith)
      ∙ store_above a (i + 1) xs j (omega arith)

  -- What was stored is read back.
  pub cells-store : (a : ℕ → A) (i : ℕ) (xs : List A) → cells (store a i xs) i (length xs) ≡ xs
  cells-store a i [] = refl
  cells-store a i (x ∷ xs) = ap₂ ◌∷◌ (update_self (store a (i + 1) xs) i x) (
      cells_ext (store a i (x ∷ xs)) (store a (i + 1) xs) (i + 1) (length xs)
        (λ j p q. update_ne (store a (i + 1) xs) i x j (λ e. omega arith))
      ∙ cells-store a (i + 1) xs)

  -- A store leaves a range that it does not meet as it was.
  pub cells-store_apart :
      (a : ℕ → A) (i : ℕ) (xs : List A) (j n : ℕ)
      → (j + n ≤ i) ⊎ (i + length xs ≤ j)
      → cells (store a i xs) j n ≡ cells a j n
  cells-store_apart a i xs j n (inl h) =
      cells_ext (store a i xs) a j n (λ k p q. store_below a i xs k (omega arith))
  cells-store_apart a i xs j n (inr h) =
      cells_ext (store a i xs) a j n (λ k p q. store_above a i xs k (omega arith))
