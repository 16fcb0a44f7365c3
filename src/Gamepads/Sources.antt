-- ===== src/Gamepads/Sources.antt =====
-- The codes of buttons, axes and hats.
use wapi.Base.{
  ℕ, ◌+◌, ◌*◌, ◌/◌, ◌%◌, ◌≤◌, ◌≡◌, refl, ap, ◌∙◌, ◌&&◌, not, Bool, true, false, Option, none, some,
  List, [], ◌∷◌, ◌++◌, leb, ◌==◌, if◌then◌else◌, arith,
}
use wapi.Gamepads.{encode_body, encode_source}
use wapi.Gamepads.Digits.{
  decimal, atoi-decimal, skip_digits-decimal, after-decimal, atoi-own, skip_digits-own,
}

-- What a value of a mapping means.
pub data Source : Type 0 where
  button : ℕ → Source
  axis : ℕ → Bool → Source
  hat : ℕ → ℕ → Source

abbrev pub in_bounds : Source → Bool
in_bounds (button n) = leb n 127
in_bounds (axis n inverted) = leb n 127
in_bounds (hat n mask) = leb n 7 && (leb 1 mask && leb mask 15)

-- The value as SDL's database writes it: an inverted axis has a tilde behind its number.
abbrev pub print : Source → List ℕ
print (button n) = 98 ∷ decimal n
print (axis n false) = 97 ∷ decimal n
print (axis n true) = 97 ∷ (decimal n ++ 126 ∷ [])
print (hat n mask) = 104 ∷ (decimal n ++ 46 ∷ decimal mask)

-- What a minus in front of the value changes.
abbrev pub flipped : Source → Source
flipped (button n) = button n
flipped (axis n inverted) = axis n (not inverted)
flipped (hat n mask) = hat n mask

-- A code as the table above `gpdb_encode_source` explains it.
abbrev pub decode : ℕ → Option Source
decode code =
    if code / 0x1000 == 1
    then some (button (code % 0x1000))
    else if code / 0x1000 == 2
    then some (axis (code % 0x800) (code / 0x800 % 2 == 1))
    else if code / 0x1000 == 4
    then some (hat (code / 256 % 16) (code % 256))
    else none

encode_axis :
    (n : ℕ) (minus : Bool)
    → n ≤ 127
    → encode_body minus (97 ∷ decimal n) ≡ (if minus then 0x2800 else 0x2000) + n
unfolding encode_body
encode_axis n minus h =
    let low : leb 0 n ≡ true = ground arith in
    let high : leb n 127 ≡ true = ground arith in
    rw (skip_digits-own n (omega arith), atoi-own n (omega arith), low, high) refl

encode_tilde :
    (n : ℕ) (minus : Bool)
    → n ≤ 127
    → encode_body minus (97 ∷ (decimal n ++ 126 ∷ [])) ≡ (if not minus then 0x2800 else 0x2000) + n
unfolding encode_body
encode_tilde n minus h =
    let low : leb 0 n ≡ true = ground arith in
    let high : leb n 127 ≡ true = ground arith in
    rw
      (
        skip_digits-decimal n (126 ∷ []) (omega arith) refl,
        atoi-decimal n (126 ∷ []) (omega arith) refl,
        low,
        high,
      )
      refl

decode_axis : (n : ℕ) → n ≤ 127 → decode (0x2000 + n) ≡ some (axis n false)
decode_axis n h =
    let kind : (0x2000 + n) / 0x1000 ≡ 2 = ground arith in
    let index : (0x2000 + n) % 0x800 ≡ n = ground arith in
    let sign : (0x2000 + n) / 0x800 % 2 ≡ 0 = ground arith in rw (kind, index, sign) refl

decode_inverted : (n : ℕ) → n ≤ 127 → decode (0x2800 + n) ≡ some (axis n true)
decode_inverted n h =
    let kind : (0x2800 + n) / 0x1000 ≡ 2 = ground arith in
    let index : (0x2800 + n) % 0x800 ≡ n = ground arith in
    let sign : (0x2800 + n) / 0x800 % 2 ≡ 1 = ground arith in rw (kind, index, sign) refl

-- The value behind a sign, or without one.
decode-encode_body :
    (src : Source) (minus : Bool)
    → in_bounds src ≡ true
    → decode (encode_body minus (print src)) ≡ some (if minus then flipped src else src)
unfolding encode_body
decode-encode_body (button n) minus h =
    let high : leb n 127 ≡ true = h in
    let low : leb 0 n ≡ true = ground arith in
    let kind : (0x1000 + n) / 0x1000 ≡ 1 = ground arith in
    let index : (0x1000 + n) % 0x1000 ≡ n = ground arith in
    rw (atoi-own n (ground arith), low, high, kind, index) (ground arith)
decode-encode_body (axis n false) true h =
    rw (encode_axis n true (ground arith)) (decode_inverted n (ground arith))
decode-encode_body (axis n false) false h =
    rw (encode_axis n false (ground arith)) (decode_axis n (ground arith))
decode-encode_body (axis n true) true h =
    rw (encode_tilde n true (ground arith)) (decode_axis n (ground arith))
decode-encode_body (axis n true) false h =
    rw (encode_tilde n false (ground arith)) (decode_inverted n (ground arith))
decode-encode_body (hat n mask) minus h =
    let n_low : leb 0 n ≡ true = ground arith in
    let n_high : leb n 7 ≡ true = ground arith in
    let m_low : leb 1 mask ≡ true = ground arith in
    let m_high : leb mask 15 ≡ true = ground arith in
    let kind : (0x4000 + n * 256 + mask) / 0x1000 ≡ 4 = ground arith in
    let index : (0x4000 + n * 256 + mask) / 256 % 16 ≡ n = ground arith in
    let shape : (0x4000 + n * 256 + mask) % 256 ≡ mask = ground arith in
    rw
      (
        after-decimal n (decimal mask),
        atoi-decimal n (46 ∷ decimal mask) (ground arith) refl,
        atoi-own mask (ground arith),
        n_low,
        n_high,
        m_low,
        m_high,
        kind,
        index,
        shape,
      )
      (ground arith)

-- Without a sign, the first character is that of the kind.
encode_source-print : (src : Source) → encode_source (print src) ≡ encode_body false (print src)
unfolding encode_source
encode_source-print (button n) = refl
encode_source-print (axis n false) = refl
encode_source-print (axis n true) = refl
encode_source-print (hat n mask) = refl

-- A button or axis up to 127, and a hat up to 7 with a mask from 1 to 15, written as in the
-- database, an inverted axis with a tilde behind its number, is encoded as the code that stands
-- for it; with a minus in front, an axis is encoded as its inverse, and a button or hat as
-- without it.
pub decode-encode_source :
    (src : Source)
    → in_bounds src ≡ true
    → (decode (encode_source (print src)) ≡ some src)
      × (decode (encode_source (45 ∷ print src)) ≡ some (flipped src))
unfolding encode_source
decode-encode_source src h = (
  ap decode (encode_source-print src) ∙ decode-encode_body src false h,
  decode-encode_body src true h,
)
