-- ===== src/Caps/Lookup.antt =====
-- What the capability queries answer, and which bytes a string view stands for.
use wapi.Base.{
  ℕ, ◌+◌, ◌-◌, ◌^◌, ◌≤◌, ◌<◌, ◌≡◌, ◌≢◌, refl, ap, sym, ◌∙◌, inl, inr, Bool, true, false, none, some,
  List, [], ◌∷◌, arith, find_from, find_from-Found, find_from-hit, Option-cases, Bool-cases, ◌==◌,
  ltb, dec_lt, if◌then◌else◌,
}
use mathlib.Core.Bool.{true≢false}
use wapi.Abi.{u32, u64_mod, ok, err_notcapable}
use wapi.Guest.{Guest, memory_size, peek}
use wapi.Guest.Access.{wasm_ptr_complete}
use wapi.Caps.{CapEntry, find_in, find_named, cap_supported, cap_version, cap_query}
use wapi.Caps.Strings.{bytes_eq, bytes_eq-≡, Fallible, measure, read_chars, read_sv}

find_in-name :
    (name : List ℕ) (cs : List CapEntry) (c : CapEntry) → find_in name cs ≡ some c → c.name ≡ name
unfolding find_in
find_in-name name [] c e = ground arith
find_in-name name (d ∷ cs) c e = elim (Bool-cases (bytes_eq d.name name)) [
  | inl same ↦ bytes_eq-≡ c.name name (ground arith)
  | inr other ↦ find_in-name name cs c (ground arith)
]

-- The code that a query returns, if it returns.
abbrev pub status : Fallible (ℕ × Guest) → Fallible ℕ
status none = none
status (some (code, m)) = some code

-- The code that goes with an answer of `cap_supported`.
abbrev pub status_of : Fallible ℕ → Fallible ℕ
status_of none = none
status_of (some n) = some (if n == 0 then err_notcapable else ok)

-- `cap_supported`, `cap_version` and `cap_query` agree on every string view: the latter two
-- return OK where the first says 1, NOTCAPABLE where it says 0, and run past the memory where it
-- does.
queries-agree :
    (m : Guest) (sv_ptr ver_ptr state_ptr : ℕ)
    → (status (cap_version m sv_ptr ver_ptr) ≡ status_of (cap_supported m sv_ptr))
      × (status (cap_query m sv_ptr state_ptr) ≡ status_of (cap_supported m sv_ptr))
unfolding cap_supported cap_version cap_query
queries-agree m sv_ptr ver_ptr state_ptr = elim (Option-cases (read_sv m sv_ptr)) [
  | inl e ↦ rw (cap_supported, cap_version, cap_query, e) (refl, refl)
  | inr (name, e) ↦ elim (Option-cases (find_named name)) [
    | inl n ↦ rw (cap_supported, cap_version, cap_query, e, n) (refl, refl)
    | inr (c, s) ↦ rw (cap_supported, cap_version, cap_query, e, s) (refl, refl)
  ]
]

-- The bytes up to a first 0.
pub record Terminated (m : Guest) (start len : ℕ) : Type 0 where
  pub in_memory : start + len < memory_size m
  pub ends : m.bytes (start + len) ≡ 0
  pub no_zero : (i : ℕ) → start ≤ i → i < start + len → (m.bytes i == 0) ≡ false

measure-Terminated :
    (m : Guest) (start len : ℕ) → Terminated m start len → measure m start ≡ some len
unfolding measure
measure-Terminated m start len t =
    let zero_at : ℕ → Bool = λ i. m.bytes i == 0 in
    let n = memory_size m - start in
    let hit : zero_at (start + len) ≡ true = ground (arith, t.ends) in
    let (k, e) =
      find_from-hit zero_at start n (start + len) (omega arith) (omega (arith, t.in_memory)) hit in
    let f = find_from-Found zero_at start n k e in
    let at : k ≡ start + len = elim (dec_lt k (start + len)) [
      | yes below ↦ absurd (true≢false (sym f.hit ∙ t.no_zero k f.low below))
      | no nb ↦ elim (dec_lt (start + len) k) [
        | yes above ↦ absurd (true≢false (sym hit ∙ f.first (start + len) (omega arith) above))
        | no na ↦ omega arith
      ]
    ] in
    rw (measure, e) (ap some (omega (arith, at)))

-- With a memory present, a string of 1 to 2 ^ 31 - 1 bytes without a 0, followed by a 0 inside
-- the memory, at an address below 2 ^ 32, reads the same whether the view gives its length or
-- says that it ends at a 0.
read_chars-Terminated :
    (m : Guest) (start len : ℕ)
    → m.memory_valid ≡ true
    → start < 2 ^ 32
    → 0 < len
    → len ≤ 0x7FFFFFFF
    → Terminated m start len
    → (read_chars m start (u64_mod - 1) ≡ some (some (peek m start len)))
      × (read_chars m start len ≡ some (some (peek m start len)))
unfolding read_chars
read_chars-Terminated m start len v small pos short t =
    let narrow : u32 start ≡ start = omega arith in
    let one = wasm_ptr_complete m start 1 v (λ e. omega arith) (omega (arith, t.in_memory)) in
    let all = wasm_ptr_complete m start len v (λ e. omega arith) (omega (arith, t.in_memory)) in
    let n = measure-Terminated m start len t in
    let sized : (len == (u64_mod - 1)) ≡ false = ground arith in
    let not_long : ltb 0x7FFFFFFF len ≡ false = ground arith in
    let not_empty : (len == 0) ≡ false = ground arith in
    (
      rw (read_chars, narrow, one, n) refl,
      rw (read_chars, sized, not_long, not_empty, narrow, all) refl,
    )

-- With a memory present, a view that says that it ends at a 0, at an address inside the memory
-- and below 2 ^ 32 with no 0 behind it, takes the host past the end of the guest's memory.
pub read_chars-unterminated :
    (m : Guest) (start : ℕ)
    → m.memory_valid ≡ true
    → start < 2 ^ 32
    → start < memory_size m
    → ((i : ℕ) → start ≤ i → i < memory_size m → m.bytes i ≢ 0)
    → read_chars m start (u64_mod - 1) ≡ none
unfolding read_chars measure
read_chars-unterminated m start v small inside no_zero =
    let narrow : u32 start ≡ start = omega arith in
    let one = wasm_ptr_complete m start 1 v (λ e. omega arith) (omega arith) in
    elim (Option-cases (find_from (λ i. m.bytes i == 0) start (memory_size m - start))) [
      | inl e ↦ rw (read_chars, narrow, one, measure, e) refl
      | inr (k, e) ↦
          let f = find_from-Found (λ i. m.bytes i == 0) start (memory_size m - start) k e in
          absurd (no_zero k f.low (omega (arith, f.high)) (ground (arith, f.hit)))
    ]
