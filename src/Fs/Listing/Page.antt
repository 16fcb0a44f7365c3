-- ===== src/Fs/Listing/Page.antt =====
-- The page that `readdir` fills: as many entries from the cookie on as the buffer has room for.
use wapi.Base.{
  ℕ, zero, suc, ◌+◌, ◌-◌, ◌^◌, ◌≤◌, ◌≡◌, refl, ap, ◌∙◌, ◌⊎◌, inl, inr, true, false, some, List, [],
  ◌∷◌, ◌++◌, length, drop, ltb, leb, if◌then◌else◌, length-append, leb→le, Bool-cases, not-ltb→le,
  lt→ltb, ℕ_discrete, arith,
}
use wapi.Base.Bytes.{to_le}
use wapi.Abi.{u32}
use wapi.Guest.{Guest, memory_size, peek, write_bytes}
use wapi.Guest.Wrote.{
  Wrote, Wrote-refl, Wrote-append, write_nothing, Wrote-at, Wrote-apart, write_u64-Wrote,
  write_bytes-Wrote,
}
use wapi.Fs.{CLib, Fs, FindData}
use wapi.Fs.Listing.{entry_size, header, put_entry, list_entries, search_path, fill_page}

-- Entries as they lie in the buffer, the first with the number `entry_index`.
abbrev pub encode : ℕ → List FindData → List ℕ
encode entry_index [] = []
encode entry_index (e ∷ es) = header entry_index e ++ e.file_name ++ encode (entry_index + 1) es

-- The longest run of entries that `room` bytes hold.
abbrev pub fit : ℕ → List FindData → List FindData
fit room [] = []
fit room (e ∷ es) =
    let rest = fit (room - entry_size e) es in if leb (entry_size e) room then e ∷ rest else []

pub length-header : (i : ℕ) (e : FindData) → length (header i e) ≡ 24
unfolding header
length-header i e = refl

pub length-entry : (i : ℕ) (e : FindData) → length (header i e ++ e.file_name) ≡ entry_size e
length-entry i e =
    length-append (header i e) e.file_name ∙ ap (λ n. n + length e.file_name) (length-header i e)

-- A buffer of `buf_len` bytes at `buf_ptr`, inside a memory of at most 4 GiB.
pub record Buffer (m : Guest) (buf_ptr buf_len : ℕ) : Type 0 where
  pub present : m.memory_valid ≡ true
  pub inside : buf_ptr + buf_len ≤ memory_size m
  pub small : memory_size m ≤ 2 ^ 32

pub Wrote-Buffer :
    {m m' : Guest} {p : ℕ} {bs : List ℕ} {buf_ptr buf_len : ℕ}
    → Wrote m p bs m'
    → Buffer m buf_ptr buf_len
    → Buffer m' buf_ptr buf_len
unfolding memory_size
Wrote-Buffer w b = record {
  present = w.same_valid ∙ b.present;
  inside = rw (w.same_valid, w.same_size) b.inside;
  small = rw (w.same_valid, w.same_size) b.small;
}

put_entry-Wrote :
    (m : Guest) (buf_ptr buf_len used i : ℕ) (e : FindData)
    → Buffer m buf_ptr buf_len
    → used + entry_size e ≤ buf_len
    → Wrote m (buf_ptr + used) (header i e ++ e.file_name) (put_entry buf_ptr used i e m)
unfolding put_entry
put_entry-Wrote m buf_ptr buf_len used i e b h =
    let first_at : u32 (buf_ptr + u32 used) ≡ buf_ptr + used = omega (arith, b.inside, b.small) in
    let first =
      write_bytes-Wrote m (buf_ptr + used) (header i e) b.present
        (omega (arith, b.inside, length-header i e)) in
    let b' = Wrote-Buffer first b in
    let then_name = name_at e.file_name h b' in
    rw (put_entry, first_at)
      (Wrote-append (header i e) e.file_name first
        (Wrote-at then_name (omega (arith, length-header i e))))
  where
    name_at :
        {m' : Guest} (name : List ℕ)
        → used + (24 + length name) ≤ buf_len
        → Buffer m' buf_ptr buf_len
        → Wrote m'
            (buf_ptr + used + 24)
            name
            (write_bytes m' (u32 (buf_ptr + u32 used + 24)) name).1
    name_at {m'} [] fits b = write_nothing m' (buf_ptr + used + 24) (u32 (buf_ptr + u32 used + 24))
    name_at {m'} (c ∷ cs) fits b =
        let at : u32 (buf_ptr + u32 used + 24) ≡ buf_ptr + used + 24 =
          omega (arith, b.inside, b.small) in
        rw at
          (write_bytes-Wrote m' (buf_ptr + used + 24) (c ∷ cs) b.present (omega (arith, b.inside)))

pub drop_nil : {A : Type 0} (n : ℕ) → drop {A = A} n [] ≡ []
drop_nil zero = refl
drop_nil (suc n) = refl

module _ (buf_ptr buf_len cookie : ℕ) where
  -- The loop behind the entries that it skips.
  list_entries-past :
      (es : List FindData) (used i : ℕ) (m : Guest)
      → Buffer m buf_ptr buf_len
      → cookie ≤ i
      → used ≤ buf_len
      → ((list_entries buf_ptr buf_len cookie es used i m).0
          ≡ used + length (encode i (fit (buf_len - used) es)))
        × Wrote m
            (buf_ptr + used)
            (encode i (fit (buf_len - used) es))
            (list_entries buf_ptr buf_len cookie es used i m).1
  unfolding list_entries
  list_entries-past [] used i m b ge le = (omega arith, Wrote-refl m (buf_ptr + used))
  list_entries-past (e ∷ es) used i m b ge le =
      let wanted : ltb i cookie ≡ false = ground arith in
      elim (Bool-cases (ltb buf_len (used + entry_size e))) [
        | inl full ↦
            let cut : leb (entry_size e) (buf_len - used) ≡ false = ground arith in
            rw (wanted, full, cut) (omega arith, Wrote-refl m (buf_ptr + used))
        | inr room ↦
            let w = put_entry-Wrote m buf_ptr buf_len used i e b (not-ltb→le _ _ room) in
            let (count, rest) =
              list_entries-past es (used + entry_size e) (i + 1) (put_entry buf_ptr used i e m)
                (Wrote-Buffer w b) (omega arith) (not-ltb→le _ _ room) in
            let fits : leb (entry_size e) (buf_len - used) ≡ true = ground arith in
            let left : buf_len - used - entry_size e ≡ buf_len - (used + entry_size e) =
              omega arith in
            let entry = header i e ++ e.file_name in
            rw (wanted, room, fits, left)
              (
                count
                    ∙ omega (
                      arith,
                      length-entry i e,
                      length-append entry
                          (encode (i + 1) (fit (buf_len - (used + entry_size e)) es)),
                    ),
                Wrote-append entry _ w (Wrote-at rest (omega (arith, length-entry i e))),
              )
      ]

  -- The loop from its start.
  list_entries-from :
      (es : List FindData) (i : ℕ) (m : Guest)
      → Buffer m buf_ptr buf_len
      → i ≤ cookie
      → ((list_entries buf_ptr buf_len cookie es 0 i m).0
          ≡ length (encode cookie (fit buf_len (drop (cookie - i) es))))
        × Wrote m buf_ptr
            (encode cookie (fit buf_len (drop (cookie - i) es)))
            (list_entries buf_ptr buf_len cookie es 0 i m).1
  unfolding list_entries
  list_entries-from [] i m b le = rw (drop_nil (cookie - i)) (refl, Wrote-refl m buf_ptr)
  list_entries-from (f ∷ fs) i m b le = elim (ℕ_discrete i cookie) [
    | yes e ↦
        let none_skipped : cookie - i ≡ 0 = omega arith in
        let all_room : buf_len - 0 ≡ buf_len = omega arith in
        let (count, w) =
          rw all_room at (list_entries-past (f ∷ fs) 0 cookie m b (omega arith) (omega arith)) in
        rw (none_skipped, e) (count ∙ omega arith, Wrote-at w (omega arith))
    | no ne ↦
        let skip : ltb i cookie ≡ true = lt→ltb i cookie (omega arith) in
        let one : cookie - i ≡ suc (cookie - (i + 1)) = omega arith in
        rw (skip, one) (list_entries-from fs (i + 1) m b (omega arith))
  ]

-- What a call of `readdir` that answers OK leaves in the guest's memory: the size of the page where
-- `used_ptr` points, and the page in the buffer.
pub record Filled (m : Guest) (buf_ptr used_ptr : ℕ) (page : List ℕ) (m' : Guest) : Type 0 where
  pub used_is : peek m' used_ptr 8 ≡ to_le 8 (length page)
  pub page_is : peek m' buf_ptr (length page) ≡ page
  pub same_valid : m'.memory_valid ≡ m.memory_valid
  pub same_size : m'.data_size ≡ m.data_size

-- The place for the size: inside the memory, and apart from the buffer.
pub record Apart (m : Guest) (buf_ptr buf_len used_ptr : ℕ) : Type 0 where
  pub inside : used_ptr + 8 ≤ memory_size m
  pub outside : (used_ptr + 8 ≤ buf_ptr) ⊎ (buf_ptr + buf_len ≤ used_ptr)

pub length-encode-fit : (i room : ℕ) (es : List FindData) → length (encode i (fit room es)) ≤ room
length-encode-fit i room [] = omega arith
length-encode-fit i room (e ∷ es) = elim (Bool-cases (leb (entry_size e) room)) [
  | inr too_big ↦ rw too_big (omega arith)
  | inl yes_fits ↦ rw yes_fits (
      omega (
        arith,
        leb→le _ _ yes_fits,
        length-entry i e,
        length-append (header i e ++ e.file_name) (encode (i + 1) (fit (room - entry_size e) es)),
        length-encode-fit (i + 1) (room - entry_size e) es,
      ))
]

reported :
    {m m1 m2 : Guest} {buf_ptr used_ptr : ℕ} {page : List ℕ}
    → Wrote m buf_ptr page m1
    → Wrote m1 used_ptr (to_le 8 (length page)) m2
    → (buf_ptr + length page ≤ used_ptr) ⊎ (used_ptr + 8 ≤ buf_ptr)
    → Filled m buf_ptr used_ptr page m2
reported {m} {m1} {m2} {buf_ptr} {used_ptr} {page} w u apart = record {
  used_is = u.content;
  page_is = Wrote-apart buf_ptr (length page) u apart ∙ w.content;
  same_valid = u.same_valid ∙ w.same_valid;
  same_size = u.same_size ∙ w.same_size;
}

module _ {W : Type 0} (lib : CLib W) where
  pub fill_page-Filled :
      (s : Fs W) (buf_ptr buf_len cookie used_ptr : ℕ) (path : List ℕ) {e : FindData}
      {es : List FindData}
      → lib.find_files s.world (search_path path) ≡ some (e, es)
      → Buffer s.guest buf_ptr buf_len
      → Apart s.guest buf_ptr buf_len used_ptr
      → Filled s.guest buf_ptr used_ptr
          (encode cookie (fit buf_len (drop cookie (e ∷ es))))
          (fill_page lib buf_ptr buf_len cookie used_ptr path s).guest
  unfolding fill_page memory_size
  fill_page-Filled s buf_ptr buf_len cookie used_ptr path {e} {es} found b a =
      let from_start : cookie - 0 ≡ cookie = omega arith in
      let (count, w) =
        rw from_start at
          (list_entries-from buf_ptr buf_len cookie (e ∷ es) 0 s.guest b (omega arith)) in
      let b' = Wrote-Buffer w b in
      let short = length-encode-fit cookie buf_len (drop cookie (e ∷ es)) in
      rw (fill_page, found)
        (rw count (
          reported w
            (write_u64-Wrote _ used_ptr _ b'.present (rw (w.same_valid, w.same_size) a.inside))
            (elim a.outside [ inl below ↦ inr below | inr above ↦ inl (omega arith) ])))
