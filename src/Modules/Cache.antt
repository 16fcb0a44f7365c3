-- ===== src/Modules/Cache.antt =====
-- What the command line puts in the cache is found there by its hash.
use wapi.Base.{
  ℕ, ◌+◌, ◌*◌, ◌<◌, ◌≡◌, ◌≢◌, refl, ap, sym, ◌∙◌, inl, inr, ◌&&◌, true, false, none, some, List, [],
  ◌∷◌, length, find_from, find_from-Found, find_from-none, find_from-hit, update, update_self,
  update_ne, ltb, ◌/◌, ◌%◌, arith, ℕ_discrete, Option-cases, Bool-cases, leb, if◌then◌else◌,
}
use mathlib.Core.Bool.{true≢false}
use wapi.Caps.Strings.{bytes_eq, bytes_eq_refl}
use wapi.Modules.{
  Cache, CacheEntry, cache_max, path_size, hex_nibble, decode_hash_hex, unused_in, cached_at,
  cache_insert, cache_find,
}

-- The one entry with a hash is the one that is found.
found :
    {hash path : List ℕ} (t : Cache) (i : ℕ)
    → i < cache_max
    → t i ≡ record { hash = hash; path = path; in_use = true }
    → ((k : ℕ) → k < cache_max → k ≢ i → cached_at hash t k ≡ false)
    → cache_find hash t ≡ some path
unfolding cache_find
found {hash} {path} t i lt here others =
    let hit : cached_at hash t i ≡ true =
      ap (λ e. e.in_use && bytes_eq e.hash hash) here ∙ bytes_eq_refl hash in
    let (k, e) = find_from-hit (cached_at hash t) 0 cache_max i (omega arith) (omega arith) hit in
    let f = find_from-Found (cached_at hash t) 0 cache_max k e in
    let same : k ≡ i = elim (ℕ_discrete k i) [
      | yes y ↦ y
      | no ne ↦ absurd (true≢false (sym f.hit ∙ others k (omega (arith, f.high)) ne))
    ] in
    rw (cache_find, e) (ap (λ n. some n.path) (ap t same ∙ here))

absent :
    (hash : List ℕ) (t : Cache)
    → cache_find hash t ≡ none
    → (k : ℕ) → k < cache_max
    → cached_at hash t k ≡ false
unfolding cache_find
absent hash t fresh k lt = elim (Option-cases (find_from (cached_at hash t) 0 cache_max)) [
  | inl n ↦ find_from-none (cached_at hash t) 0 cache_max n k (omega arith) (omega arith)
  | inr (i, e) ↦ absurd (ground (arith, fresh, e))
]

-- Where a hash is not in the cache and a path is accepted for it, `cache_find` of the hash then
-- returns that path, and the path is shorter than 512 bytes.
cache_insert-cache_find :
    (hash path : List ℕ) (t : Cache)
    → cache_find hash t ≡ none
    → (cache_insert hash path t).0 ≡ true
    → (cache_find hash (cache_insert hash path t).1 ≡ some path) × (length path < path_size)
unfolding cache_insert
cache_insert-cache_find hash path t fresh accepted =
    elim (Option-cases (find_from (unused_in t) 0 cache_max)) [
      | inl n ↦ absurd (ground (arith, n, accepted))
      | inr (i, e) ↦ elim (Bool-cases (leb path_size (length path))) [
        | inl long ↦ absurd (ground (arith, e, long, accepted))
        | inr fits ↦
            let f = find_from-Found (unused_in t) 0 cache_max i e in
            let new : CacheEntry = record { hash = hash; path = path; in_use = true } in
            rw (cache_insert, e, fits)
              (
                found (update t i new) i (omega (arith, f.high)) (update_self t i new) (λ k hi ne.
                    ap (λ n. n.in_use && bytes_eq n.hash hash) (update_ne t i new k ne)
                    ∙ absent hash t fresh k hi),
                ground arith,
              )
      ]
    ]

-- A hash in lower-case digits, as tools print it.
unfoldable pub hex_digit : ℕ → ℕ
hex_digit n = if ltb n 10 then 48 + n else 87 + n

unfoldable pub to_hex : List ℕ → List ℕ
to_hex [] = []
to_hex (b ∷ bs) = hex_digit (b / 16) ∷ hex_digit (b % 16) ∷ to_hex bs

-- Bytes, each below 256.
pub data AreBytes : List ℕ → Type 0 where
  no_bytes : AreBytes []
  byte : {b : ℕ} {bs : List ℕ} → b < 256 → AreBytes bs → AreBytes (b ∷ bs)

hex_nibble-hex_digit : (n : ℕ) → n < 16 → hex_nibble (hex_digit n) ≡ some n
unfolding hex_nibble hex_digit
hex_nibble-hex_digit n lt = ground arith

-- Bytes that are printed as lower-case hexadecimal digits are what `decode_hash_hex` reads from
-- them.
decode_hash_hex-to_hex : {hash : List ℕ} → AreBytes hash → decode_hash_hex (to_hex hash) ≡ some hash
unfolding decode_hash_hex to_hex
decode_hash_hex-to_hex no_bytes = refl
decode_hash_hex-to_hex (byte {b} {bs} lt rest) =
    let hi = hex_nibble-hex_digit (b / 16) (omega arith) in
    let lo = hex_nibble-hex_digit (b % 16) (omega arith) in
    let ih = decode_hash_hex-to_hex rest in
    let whole : b / 16 * 16 + b % 16 ≡ b = omega arith in
    rw (decode_hash_hex, to_hex, hi, lo, ih) (ap (λ x. some (x ∷ bs)) whole)
