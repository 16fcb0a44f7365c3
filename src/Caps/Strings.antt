-- ===== src/Caps/Strings.antt =====
-- `read_wapi_sv` and the comparison of names (runtime/desktop/src/wapi_host_io.c).
use wapi.Base.{
  ℕ, ◌+◌, ◌-◌, ◌≡◌, refl, ap₂, ◌&&◌, Bool, true, false, Option, none, some, List, [], ◌∷◌,
  find_from, ltb, ◌==◌, if◌then◌else◌, arith,
}
use wapi.Base.Bytes.{from_le}
use wapi.Abi.{u32, u64_mod}
use wapi.Guest.{Guest, memory_size, wasm_ptr, peek}

-- `none` is a fault of the host: a read past the end of the guest's memory.
abbrev pub Fallible : Type 0 → Type 0
Fallible A = Option A

-- The lengths agree and `memcmp` finds no difference.
abbrev pub bytes_eq : List ℕ → List ℕ → Bool
bytes_eq [] [] = true
bytes_eq [] (y ∷ ys) = false
bytes_eq (x ∷ xs) [] = false
bytes_eq (x ∷ xs) (y ∷ ys) = x == y && bytes_eq xs ys

-- `uint32_t n = 0; while (s[n]) n++;`, which nothing stops at the end of the memory.
unfoldable pub measure : Guest → ℕ → Fallible ℕ
measure m s = elim (find_from (λ i. m.bytes i == 0) s (memory_size m - s)) [
  | none ↦ none
  | some k ↦ some (k - s)
]

-- From the two fields of the view.
unfoldable pub read_chars : Guest → ℕ → ℕ → Fallible (Option (List ℕ))
read_chars m start len =
    if len == u64_mod - 1
    then elim (wasm_ptr m (u32 start) 1) [
      | none ↦ some none
      | some s ↦ elim (measure m s) [ none ↦ none | some n ↦ some (some (peek m s n)) ]
    ]
    else if ltb 0x7FFFFFFF len
    then some none
    else if len == 0
    then some (some [])
    else elim (wasm_ptr m (u32 start) len) [
      | none ↦ some none
      | some s ↦ some (some (peek m s len))
    ]

-- `read_wapi_sv`: the bytes of the string, or `none` inside for NULL.
unfoldable pub read_sv : Guest → ℕ → Fallible (Option (List ℕ))
read_sv m sv_ptr = if sv_ptr == 0 then some none else elim (wasm_ptr m sv_ptr 16) [
  | none ↦ some none
  | some p ↦ read_chars m (from_le (peek m p 8)) (from_le (peek m (p + 8) 8))
]

pub bytes_eq_refl : (xs : List ℕ) → bytes_eq xs xs ≡ true
bytes_eq_refl [] = refl
bytes_eq_refl (x ∷ xs) = let ih = bytes_eq_refl xs in ground arith

pub bytes_eq-≡ : (xs ys : List ℕ) → bytes_eq xs ys ≡ true → xs ≡ ys
bytes_eq-≡ [] [] h = refl
bytes_eq-≡ [] (y ∷ ys) h = ground arith
bytes_eq-≡ (x ∷ xs) [] h = ground arith
bytes_eq-≡ (x ∷ xs) (y ∷ ys) h =
    ap₂ (λ c cs. c ∷ cs) (ground arith) (bytes_eq-≡ xs ys (ground arith))
