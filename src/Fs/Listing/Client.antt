-- ===== src/Fs/Listing/Client.antt =====
-- A guest that reads a directory with `readdir` page by page, and what it gets.
use wapi.Base.{
  ℕ, zero, suc, ◌+◌, ◌-◌, ◌^◌, ◌≤◌, ◌<◌, ◌≡◌, refl, sym, ap, ◌∙◌, inl, inr, Bool, true, false, List,
  [], ◌∷◌, ◌++◌, length, take, drop, leb, leb→le, ◌==◌, ◌&&◌, if◌then◌else◌, length-append,
  Bool-cases, arith,
}
use wapi.Base.Bytes.{to_le, from_le, from_le-to_le}
use wapi.Guest.{Guest, peek}
use wapi.Fs.{CLib, Fs, FindData}
use wapi.Fs.Listing.{entry_size, header, readdir}
use wapi.Fs.Listing.Page.{encode, fit, Filled, drop_nil, length-entry}

-- The entries of a page with their cookies, as include/wapi/wapi_filesystem.h lays them out.
abbrev pub decode : ℕ → List ℕ → List (ℕ × FindData)
decode zero bs = []
decode (suc n) [] = []
decode (suc n) (b ∷ bs) =
    let name_len = from_le (take 4 (drop 16 (b ∷ bs))) in
    let name = take name_len (drop 24 (b ∷ bs)) in
    (
      from_le (take 8 (b ∷ bs)),
      record { file_name = name; is_directory = from_le (take 4 (drop 20 (b ∷ bs))) == 3 },
    )
    ∷ decode n (drop name_len (drop 24 (b ∷ bs)))

abbrev pub last_cookie : List (ℕ × FindData) → ℕ → ℕ
last_cookie [] cookie = cookie
last_cookie (x ∷ xs) cookie = last_cookie xs x.0

abbrev pub entries_of : List (ℕ × FindData) → List FindData
entries_of [] = []
entries_of (x ∷ xs) = x.1 ∷ entries_of xs

-- The page that a call left.
unfoldable pub page_of : Guest → ℕ → ℕ → List (ℕ × FindData)
page_of m buf_ptr used_ptr =
    let used = from_le (peek m used_ptr 8) in decode used (peek m buf_ptr used)

-- From the cookie on, at most `fuel` pages, up to the first that is empty.
unfoldable pub list_all : {W : Type 0} → CLib W → ℕ → ℕ → ℕ → ℕ → ℕ → ℕ → Fs W → List FindData
list_all lib fd buf_ptr buf_len used_ptr zero cookie s = []
list_all lib fd buf_ptr buf_len used_ptr (suc fuel) cookie s =
    let s' = (readdir lib fd buf_ptr buf_len cookie used_ptr s).1 in
    let got = page_of s'.guest buf_ptr used_ptr in
    let rest = list_all lib fd buf_ptr buf_len used_ptr fuel (last_cookie got cookie) s' in
    if length got == 0 then [] else entries_of got ++ rest

abbrev pub numbered : ℕ → List FindData → List (ℕ × FindData)
numbered i [] = []
numbered i (e ∷ es) = (i + 1, e) ∷ numbered (i + 1) es

-- Every entry fits a buffer of this size by itself.
abbrev pub all_fit : ℕ → List FindData → Bool
all_fit buf_len [] = true
all_fit buf_len (e ∷ es) = leb (entry_size e) buf_len && all_fit buf_len es

take_own : {A : Type 0} (xs ys : List A) → take (length xs) (xs ++ ys) ≡ xs
take_own [] ys = refl
take_own (x ∷ xs) ys = ap (λ zs. x ∷ zs) (take_own xs ys)

drop_own : {A : Type 0} (xs ys : List A) → drop (length xs) (xs ++ ys) ≡ ys
drop_own [] ys = refl
drop_own (x ∷ xs) ys = drop_own xs ys

flag_read : (d : Bool) → (from_le (to_le 4 (if d then 3 else 4)) == 3) ≡ d
flag_read true = refl
flag_read false = refl

decode-encode :
    (n i buf_len : ℕ) (es : List FindData)
    → length es ≤ n
    → i + length es < 2 ^ 64
    → all_fit buf_len es ≡ true
    → buf_len < 2 ^ 32
    → decode n (encode i es) ≡ numbered i es
unfolding header
decode-encode zero i buf_len [] h c a b = refl
decode-encode (suc n) i buf_len [] h c a b = refl
decode-encode zero i buf_len (e ∷ es) h c a b = absurd (omega arith)
decode-encode (suc n) i buf_len (e ∷ es) h c a b =
    let size : entry_size e ≤ buf_len = leb→le _ _ (ground arith) in
    let name_len = from_le-to_le 4 (length e.file_name) (omega arith) in
    let cookie = from_le-to_le 8 (i + 1) (omega arith) in
    let ih = decode-encode n (i + 1) buf_len es (omega arith) (omega arith) (ground arith) b in
    let flag = flag_read e.is_directory in
    rw
      (
        cookie,
        name_len,
        flag,
        take_own e.file_name (encode (i + 1) es),
        drop_own e.file_name (encode (i + 1) es),
        ih,
      )
      refl

pub last_cookie-numbered :
    (i c : ℕ) (es : List FindData) → i ≡ c → last_cookie (numbered i es) c ≡ i + length es
last_cookie-numbered i c [] e = omega arith
last_cookie-numbered i c (x ∷ es) e = last_cookie-numbered (i + 1) (i + 1) es refl ∙ omega arith

pub entries_of-numbered : (i : ℕ) (es : List FindData) → entries_of (numbered i es) ≡ es
entries_of-numbered i [] = refl
entries_of-numbered i (e ∷ es) = ap (λ xs. e ∷ xs) (entries_of-numbered (i + 1) es)

pub length-numbered : (i : ℕ) (es : List FindData) → length (numbered i es) ≡ length es
length-numbered i [] = refl
length-numbered i (e ∷ es) = ap suc (length-numbered (i + 1) es)

length-encode_ge : (i : ℕ) (es : List FindData) → length es ≤ length (encode i es)
length-encode_ge i [] = omega arith
length-encode_ge i (e ∷ es) = omega (
  arith,
  length-entry i e,
  length-append (header i e ++ e.file_name) (encode (i + 1) es),
  length-encode_ge (i + 1) es,
)

pub Filled-page_of :
    {m m' : Guest} {buf_ptr used_ptr : ℕ} (buf_len cookie : ℕ) (es : List FindData)
    → Filled m buf_ptr used_ptr (encode cookie es) m'
    → length (encode cookie es) ≤ buf_len
    → buf_len < 2 ^ 32
    → all_fit buf_len es ≡ true
    → cookie + length es < 2 ^ 64
    → page_of m' buf_ptr used_ptr ≡ numbered cookie es
unfolding page_of
Filled-page_of {m} {m'} {buf_ptr} {used_ptr} buf_len cookie es f size short fits small =
    let used : from_le (peek m' used_ptr 8) ≡ length (encode cookie es) =
      ap from_le f.used_is ∙ from_le-to_le 8 (length (encode cookie es)) (omega arith) in
    ap (λ n. decode n (peek m' buf_ptr n)) used
    ∙ ap (decode (length (encode cookie es))) f.page_is
    ∙ decode-encode (length (encode cookie es)) cookie buf_len es (length-encode_ge cookie es) small
        fits short

-- A page is the front of what is left.
pub fit_append-drop :
    (room : ℕ) (es : List FindData) → fit room es ++ drop (length (fit room es)) es ≡ es
fit_append-drop room [] = refl
fit_append-drop room (e ∷ es) = elim (Bool-cases (leb (entry_size e) room)) [
  | inl h ↦ rw h (ap (λ xs. e ∷ xs) (fit_append-drop (room - entry_size e) es))
  | inr h ↦ rw h refl
]

pub all_fit-fit :
    (buf_len room : ℕ) (es : List FindData)
    → all_fit buf_len es ≡ true
    → all_fit buf_len (fit room es) ≡ true
all_fit-fit buf_len room [] h = refl
all_fit-fit buf_len room (e ∷ es) h = elim (Bool-cases (leb (entry_size e) room)) [
  | inl y ↦
      let ih = all_fit-fit buf_len (room - entry_size e) es (ground arith) in
      rw y (ground (arith, ih))
  | inr y ↦ rw y refl
]

pub all_fit-drop :
    (buf_len n : ℕ) (es : List FindData)
    → all_fit buf_len es ≡ true
    → all_fit buf_len (drop n es) ≡ true
all_fit-drop buf_len zero es h = h
all_fit-drop buf_len (suc n) [] h = refl
all_fit-drop buf_len (suc n) (e ∷ es) h = all_fit-drop buf_len n es (ground arith)

pub drop-drop : {A : Type 0} (m n : ℕ) (xs : List A) → drop m (drop n xs) ≡ drop (n + m) xs
drop-drop m zero xs = let none_first : m ≡ 0 + m = omega arith in ap (λ k. drop k xs) none_first
drop-drop m (suc n) [] = drop_nil m ∙ sym (drop_nil (suc n + m))
drop-drop m (suc n) (x ∷ xs) =
    let more : suc (n + m) ≡ suc n + m = omega arith in
    drop-drop m n xs ∙ ap (λ k. drop k (x ∷ xs)) more

pub length-fit_le : (room : ℕ) (es : List FindData) → length (fit room es) ≤ length es
length-fit_le room [] = omega arith
length-fit_le room (e ∷ es) = elim (Bool-cases (leb (entry_size e) room)) [
  | inl h ↦ rw h (omega (arith, length-fit_le (room - entry_size e) es))
  | inr h ↦ rw h (omega arith)
]

-- An empty page is the last.
pub fit_empty :
    (buf_len : ℕ) (es : List FindData)
    → all_fit buf_len es ≡ true
    → length (fit buf_len es) ≡ 0
    → es ≡ []
fit_empty buf_len [] fits h = refl
fit_empty buf_len (e ∷ es) fits h =
    let first : leb (entry_size e) buf_len ≡ true = ground arith in
    let none_there : suc (length (fit (buf_len - entry_size e) es)) ≡ 0 = rw first at h in
    absurd (omega (arith, none_there))
