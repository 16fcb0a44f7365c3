-- ===== src/Devices/Merged.antt =====
-- What a lookup finds after `commit_entry`.
use wapi.Base.{
  ℕ, ◌+◌, ◌^◌, ◌≤◌, ◌<◌, ◌≡◌, refl, sym, ap, ◌∙◌, ◌⊎◌, inl, inr, ◌&&◌, ◌||◌, Bool, true, false,
  none, some, List, [], ◌∷◌, ◌++◌, length, length-append, leb, ltb, ◌==◌, ==_refl, subst,
  Bool-cases, arith,
}
use wapi.Caps.Strings.{bytes_eq}
use wapi.Devices.{
  Entry, Key, Devices, same_key, has_key, shares, add_key, union, merge, merge_into, commit,
  find_row, lookup, max_keys, key_max_len,
}
use wapi.Devices.Growth.{Roomy, add_entry-entries}
use wapi.Devices.Fields.{Fields, Fields-same, merge-Fields}

-- The first of the rows that shares a key with the entry; the entry itself, if no row does.
pub data Partner (e : Entry) : List Entry → Entry → Type 0 where
  alone : Partner e [] e
  here : (o : Entry) (os : List Entry) → shares e.keys o.keys ≡ true → Partner e (o ∷ os) o
  there :
      (p o : Entry) (os : List Entry)
      → shares e.keys p.keys ≡ false
      → Partner e os o
      → Partner e (p ∷ os) o

bytes_eq_refl : (xs : List ℕ) → bytes_eq xs xs ≡ true
bytes_eq_refl [] = refl
bytes_eq_refl (x ∷ xs) = rw (==_refl x, bytes_eq_refl xs) refl

same_key_refl : (k : Key) → same_key k k ≡ true
same_key_refl k = rw (same_key, ==_refl k.kind, bytes_eq_refl k.bytes) refl

shares-has_key :
    (xs ys : List Key) (k : Key) (os : List Key)
    → shares (xs ++ k ∷ ys) os ≡ false
    → has_key k os ≡ false
shares-has_key [] ys k os h = ground arith
shares-has_key (x ∷ xs) ys k os h = shares-has_key xs ys k os (ground arith)

has_key-append : (k : Key) (os ps : List Key) → has_key k os ≡ true → has_key k (os ++ ps) ≡ true
has_key-append k [] ps h = ground arith
has_key-append k (o ∷ os) ps h = elim (Bool-cases (same_key k o)) [
  | inl e ↦ rw e refl
  | inr e ↦ rw e (has_key-append k os ps (ground arith))
]

has_key_last : (k : Key) (os : List Key) → has_key k (os ++ k ∷ []) ≡ true
has_key_last k [] = rw (has_key, same_key_refl k) refl
has_key_last k (o ∷ os) = elim (Bool-cases (same_key k o)) [
  | inl e ↦ rw e refl
  | inr e ↦ rw e (has_key_last k os)
]

add_key-has_key : (k : Key) (os : List Key) → has_key k (add_key k os) ≡ true
add_key-has_key k os = elim (Bool-cases (has_key k os)) [
  | inl h ↦ rw (add_key, h) h
  | inr h ↦ rw (add_key, h) (has_key_last k os)
]

add_key-keeps : (k j : Key) (os : List Key) → has_key k os ≡ true → has_key k (add_key j os) ≡ true
add_key-keeps k j os h = elim (Bool-cases (has_key j os)) [
  | inl g ↦ rw (add_key, g) h
  | inr g ↦ rw (add_key, g) (has_key-append k os (j ∷ []) h)
]

length-add_key : (k : Key) (os : List Key) → length (add_key k os) ≤ length os + 1
length-add_key k os = elim (Bool-cases (has_key k os)) [
  | inl h ↦ rw (add_key, h) (omega arith)
  | inr h ↦ rw (add_key, h) (omega (arith, length-append os (k ∷ [])))
]

union-keeps : (k : Key) (ks os : List Key) → has_key k os ≡ true → has_key k (union ks os) ≡ true
union-keeps k [] os h = h
union-keeps k (j ∷ ks) os h = elim (Bool-cases (leb max_keys (length os))) [
  | inl full ↦ rw (union, full) h
  | inr free ↦ rw (union, free) (union-keeps k ks (add_key j os) (add_key-keeps k j os h))
]

-- Every key of the entry is in the union, if there is room for all.
union-has_key :
    (xs ys : List Key) (k : Key) (os : List Key)
    → length (xs ++ k ∷ ys) + length os ≤ max_keys
    → has_key k (union (xs ++ k ∷ ys) os) ≡ true
union-has_key [] ys k os h =
    let free : leb max_keys (length os) ≡ false = ground arith in
    rw (union, free) (union-keeps k ys (add_key k os) (add_key-has_key k os))
union-has_key (x ∷ xs) ys k os h =
    let free : leb max_keys (length os) ≡ false = ground arith in
    rw (union, free) (union-has_key xs ys k (add_key x os) (omega (arith, h, length-add_key x os)))

-- The keys of the entry fit into every row beside the row's own.
abbrev pub has_room : List Key → List Entry → Bool
has_room ks [] = true
has_room ks (o ∷ os) = leb (length ks + length o.keys) max_keys && has_room ks os

find_row-append :
    (k : Key) (os : List Entry) (e : Entry)
    → find_row k os ≡ none
    → has_key k e.keys ≡ true
    → find_row k (os ++ e ∷ []) ≡ some e
find_row-append k [] e h own = rw (find_row, own) refl
find_row-append k (o ∷ os) e h own = elim (Bool-cases (has_key k o.keys)) [
  | inl g ↦ absurd (ground arith)
  | inr g ↦ rw (find_row, g) (find_row-append k os e (ground arith) own)
]

-- The row that a lookup finds, with the entry's fields over those of its partner before.
abbrev Found : Entry → Key → List Entry → List Entry → Type 0
Found e k before rows =
    (o r : Entry) × Partner e before o × (find_row k rows ≡ some r) × Fields e o r

-- Either no row shares a key, and a lookup finds none; or the lookup finds the merged row.
merge_into-Found :
    (e : Entry) (xs ys : List Key) (k : Key) (os : List Entry)
    → e.keys ≡ xs ++ k ∷ ys
    → has_room e.keys os ≡ true
    → (merge_into e os ≡ none) × (find_row k os ≡ none) × Partner e os e
      ⊎ ((rows : List Entry) × (merge_into e os ≡ some rows) × Found e k os rows)
unfolding merge
merge_into-Found e xs ys k [] keys room = inl (refl, refl, alone)
merge_into-Found e xs ys k (o ∷ os) keys room = elim (Bool-cases (shares e.keys o.keys)) [
  | inl h ↦
      let fits : length (xs ++ k ∷ ys) + length o.keys ≤ max_keys =
        subst (λ ks. length ks + length o.keys ≤ max_keys) keys (ground arith) in
      let own : has_key k (union e.keys o.keys) ≡ true =
        subst (λ ks. has_key k (union ks o.keys) ≡ true) (sym keys)
          (union-has_key xs ys k o.keys fits) in
      inr (
        merge e o ∷ os,
        rw (merge_into, h) refl,
        (o, merge e o, here o os h, rw (find_row, own) refl, merge-Fields e o),
      )
  | inr h ↦
      let other : has_key k o.keys ≡ false =
        shares-has_key xs ys k o.keys (subst (λ ks. shares ks o.keys ≡ false) keys h) in
      elim (merge_into-Found e xs ys k os keys (ground arith)) [
        | inl (none_merged, none_found, alone_in) ↦ inl (
          rw (merge_into, h, none_merged) refl,
          rw (find_row, other) none_found,
          there o e os h alone_in,
        )
        | inr (rows, merged, (p, r, partner, found, fields)) ↦ inr (
          o ∷ rows,
          rw (merge_into, h, merged) refl,
          (p, r, there o p os h partner, rw (find_row, other) found, fields),
        )
      ]
]

has_key_own : (xs ys : List Key) (k : Key) → has_key k (xs ++ k ∷ ys) ≡ true
has_key_own [] ys k = rw (has_key, same_key_refl k) refl
has_key_own (x ∷ xs) ys k = elim (Bool-cases (same_key k x)) [
  | inl h ↦ rw (has_key, h) refl
  | inr h ↦ rw (has_key, h) (has_key_own xs ys k)
]

commit-Found :
    (realloc : ℕ → Bool) (e : Entry) (t : Devices) (xs ys : List Key) (k : Key)
    → Roomy realloc
    → length t.entries < 2 ^ 30
    → e.keys ≡ xs ++ k ∷ ys
    → has_room e.keys t.entries ≡ true
    → Found e k t.entries (commit realloc e t).entries
unfolding commit
commit-Found realloc e t xs ys k more small keys room =
    let some_key : (length e.keys == 0 && length e.name == 0) ≡ false =
      let count = ap length keys ∙ length-append xs (k ∷ ys) in ground (arith, count) in
    elim (merge_into-Found e xs ys k t.entries keys room) [
      | inl (none_merged, none_found, alone_in) ↦
          let own : has_key k e.keys ≡ true =
            subst (λ ks. has_key k ks ≡ true) (sym keys) (has_key_own xs ys k) in
          rw (commit, some_key, none_merged, add_entry-entries realloc e t more small)
            (e, e, alone_in, find_row-append k t.entries e none_found own, Fields-same e)
      | inr (rows, merged, found) ↦ rw (commit, some_key, merged) found
    ]

-- After `commit_entry` of an entry, a lookup of any of its keys, from 1 to 62 bytes long, finds a
-- row that has the entry's value in every field that the entry flags, and in every other field
-- the value that was there in the first row that shares a key with the entry, or the entry's own
-- where no row does; `realloc` is taken never to fail, the table to have fewer than 2 ^ 30 rows,
-- and every row, with the entry's keys beside its own, to have no more than 4 keys.
pub lookup-commit :
    (realloc : ℕ → Bool) (e : Entry) (t : Devices) (xs ys : List Key) (k : Key)
    → Roomy realloc
    → length t.entries < 2 ^ 30
    → e.keys ≡ xs ++ k ∷ ys
    → has_room e.keys t.entries ≡ true
    → 0 < length k.bytes
    → length k.bytes ≤ key_max_len
    → (o r : Entry) × Partner e t.entries o
      × (lookup k (commit realloc e t) ≡ some r)
      × Fields e o r
unfolding lookup
lookup-commit realloc e t xs ys k more small keys room pos short =
    let fine : (length k.bytes == 0 || ltb key_max_len (length k.bytes)) ≡ false = ground arith in
    let (o, r, partner, found, fields) = commit-Found realloc e t xs ys k more small keys room in
    (o, r, partner, rw (lookup, fine) found, fields)
