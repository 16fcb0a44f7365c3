-- ===== src/Gamepads/Digits.antt =====
-- Numbers in decimal digits, as `gpdb_encode_source` reads them (runtime/desktop/src/wapi_host_gamepaddb.c).
use wapi.Base.{
  ℕ, ◌+◌, ◌-◌, ◌*◌, ◌/◌, ◌%◌, ◌<◌, ◌≡◌, refl, sym, ap, ◌∙◌, inl, inr, Bool, true, false, some, List,
  [], ◌∷◌, ◌++◌, ltb, ◌==◌, if◌then◌else◌, Bool-cases, arith,
}
use mathlib.Core.List.{append-nil}
use wapi.Gamepads.{is_digit, is_space, read_digits, atoi, skip_digits, after}

-- A number below 1000 in decimal digits.
unfoldable pub decimal : ℕ → List ℕ
decimal n =
    if ltb n 10
    then (48 + n) ∷ []
    else if ltb n 100
    then (48 + n / 10) ∷ (48 + n % 10) ∷ []
    else (48 + n / 100) ∷ (48 + n / 10 % 10) ∷ (48 + n % 10) ∷ []

-- The digit in front of a text.
read_digits-cons :
    (n d : ℕ) (cs : List ℕ) → d < 10 → read_digits n ((48 + d) ∷ cs) ≡ read_digits (n * 10 + d) cs
read_digits-cons n d cs h =
    let digit : is_digit (48 + d) ≡ true = ground arith in
    let value : n * 10 + (48 + d - 48) ≡ n * 10 + d = omega arith in rw (digit, value) refl

abbrev pub starts_digit : List ℕ → Bool
starts_digit [] = false
starts_digit (c ∷ cs) = is_digit c

read_digits-end : (n : ℕ) (cs : List ℕ) → starts_digit cs ≡ false → read_digits n cs ≡ n
read_digits-end n [] h = refl
read_digits-end n (c ∷ cs) h = rw h refl

read_digits-decimal :
    (n : ℕ) (cs : List ℕ) → n < 1000 → starts_digit cs ≡ false → read_digits 0 (decimal n ++ cs) ≡ n
unfolding decimal
read_digits-decimal n cs small h = elim (Bool-cases (ltb n 10)) [
  | inl a ↦
      rw a
        (read_digits-cons 0 n cs (ground arith) ∙ read_digits-end (0 * 10 + n) cs h ∙ omega arith)
  | inr a ↦ elim (Bool-cases (ltb n 100)) [
    | inl b ↦
        rw (a, b)
          (read_digits-cons 0 (n / 10) ((48 + n % 10) ∷ cs) (ground arith)
            ∙ read_digits-cons (0 * 10 + n / 10) (n % 10) cs (omega arith)
            ∙ read_digits-end _ cs h
            ∙ omega arith)
    | inr b ↦
        rw (a, b)
          (read_digits-cons 0 (n / 100) ((48 + n / 10 % 10) ∷ (48 + n % 10) ∷ cs) (omega arith)
            ∙ read_digits-cons (0 * 10 + n / 100) (n / 10 % 10) ((48 + n % 10) ∷ cs) (omega arith)
            ∙ read_digits-cons _ (n % 10) cs (omega arith)
            ∙ read_digits-end _ cs h
            ∙ omega arith)
  ]
]

-- A decimal number starts with a digit.
decimal-cons : (n : ℕ) → n < 1000 → (d : ℕ) × (ds : List ℕ) × (d < 10) × (decimal n ≡ (48 + d) ∷ ds)
unfolding decimal
decimal-cons n small = elim (Bool-cases (ltb n 10)) [
  | inl a ↦ (n, [], ground arith, rw a refl)
  | inr a ↦ elim (Bool-cases (ltb n 100)) [
    | inl b ↦ (n / 10, (48 + n % 10) ∷ [], ground arith, rw (a, b) refl)
    | inr b ↦ (n / 100, (48 + n / 10 % 10) ∷ (48 + n % 10) ∷ [], omega arith, rw (a, b) refl)
  ]
]

atoi-digit :
    (d : ℕ) (cs : List ℕ) → d < 10 → atoi ((48 + d) ∷ cs) ≡ some (read_digits 0 ((48 + d) ∷ cs))
atoi-digit d cs h =
    let text : is_space (48 + d) ≡ false = ground arith in
    let no_minus : (48 + d == 45) ≡ false = ground arith in
    let no_plus : (48 + d == 43) ≡ false = ground arith in rw (text, no_minus, no_plus) refl

pub atoi-decimal :
    (n : ℕ) (cs : List ℕ) → n < 1000 → starts_digit cs ≡ false → atoi (decimal n ++ cs) ≡ some n
atoi-decimal n cs small h =
    let (d, ds, digit, e) = decimal-cons n small in
    let front : decimal n ++ cs ≡ (48 + d) ∷ (ds ++ cs) = ap (λ t. t ++ cs) e in
    ap atoi front
    ∙ atoi-digit d (ds ++ cs) digit
    ∙ ap some (ap (read_digits 0) (sym front) ∙ read_digits-decimal n cs small h)

skip_digits-cons : (d : ℕ) (cs : List ℕ) → d < 10 → skip_digits ((48 + d) ∷ cs) ≡ skip_digits cs
skip_digits-cons d cs h = let digit : is_digit (48 + d) ≡ true = ground arith in rw digit refl

after-cons : (d : ℕ) (cs : List ℕ) → after 46 ((48 + d) ∷ cs) ≡ after 46 cs
after-cons d cs = let apart : (48 + d == 46) ≡ false = ground arith in rw apart refl

-- Behind the digits is what the number is followed by, and the dot is the one behind them.
skip_digits-end : (cs : List ℕ) → starts_digit cs ≡ false → skip_digits cs ≡ cs
skip_digits-end [] h = refl
skip_digits-end (c ∷ cs) h = rw h refl

pub skip_digits-decimal :
    (n : ℕ) (cs : List ℕ) → n < 1000 → starts_digit cs ≡ false → skip_digits (decimal n ++ cs) ≡ cs
unfolding decimal
skip_digits-decimal n cs small h = elim (Bool-cases (ltb n 10)) [
  | inl a ↦ rw a (skip_digits-cons n cs (ground arith) ∙ skip_digits-end cs h)
  | inr a ↦ elim (Bool-cases (ltb n 100)) [
    | inl b ↦
        rw (a, b)
          (skip_digits-cons (n / 10) ((48 + n % 10) ∷ cs) (ground arith)
            ∙ skip_digits-cons (n % 10) cs (omega arith)
            ∙ skip_digits-end cs h)
    | inr b ↦
        rw (a, b)
          (skip_digits-cons (n / 100) ((48 + n / 10 % 10) ∷ (48 + n % 10) ∷ cs) (omega arith)
            ∙ skip_digits-cons (n / 10 % 10) ((48 + n % 10) ∷ cs) (omega arith)
            ∙ skip_digits-cons (n % 10) cs (omega arith)
            ∙ skip_digits-end cs h)
  ]
]

pub after-decimal : (n : ℕ) (cs : List ℕ) → after 46 (decimal n ++ 46 ∷ cs) ≡ some cs
unfolding decimal
after-decimal n cs = elim (Bool-cases (ltb n 10)) [
  | inl a ↦ rw a (after-cons n (46 ∷ cs))
  | inr a ↦ elim (Bool-cases (ltb n 100)) [
    | inl b ↦
        rw (a, b) (after-cons (n / 10) ((48 + n % 10) ∷ 46 ∷ cs) ∙ after-cons (n % 10) (46 ∷ cs))
    | inr b ↦
        rw (a, b)
          (after-cons (n / 100) ((48 + n / 10 % 10) ∷ (48 + n % 10) ∷ 46 ∷ cs)
            ∙ after-cons (n / 10 % 10) ((48 + n % 10) ∷ 46 ∷ cs)
            ∙ after-cons (n % 10) (46 ∷ cs))
  ]
]

pub atoi-own : (n : ℕ) → n < 1000 → atoi (decimal n) ≡ some n
atoi-own n small = ap atoi (sym (append-nil (decimal n))) ∙ atoi-decimal n [] small refl

pub skip_digits-own : (n : ℕ) → n < 1000 → skip_digits (decimal n) ≡ []
skip_digits-own n small =
    ap skip_digits (sym (append-nil (decimal n))) ∙ skip_digits-decimal n [] small refl
