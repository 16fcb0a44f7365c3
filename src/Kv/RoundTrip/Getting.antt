-- ===== src/Kv/RoundTrip/Getting.antt =====
-- `get`: what the guest finds of a file's content, and of a value that was set before.
use wapi.Base.{
  ℕ, zero, suc, ◌+◌, ◌^◌, ◌≤◌, ◌<◌, ◌≡◌, refl, sym, ap, ◌∙◌, ◌⊎◌, inl, inr, true, false, some, List,
  [], ◌∷◌, length, take, take_over, length-take, length-take_le, ltb, ◌==◌, ==_refl, if◌then◌else◌,
  Bool-cases, Option-cases, length-cells, arith,
}
use wapi.Base.Bytes.{to_le}
use wapi.Abi.{ok, u32, is_neg}
use wapi.Guest.{Guest, wasm_ptr, peek, poke, write_u64}
use wapi.Guest.Wrote.{Wrote, poke-Wrote, Wrote-apart, write_u64-Wrote}
use wapi.Guest.Access.{wasm_ptr_complete, wasm_ptr-in_bounds}
use wapi.Fs.{CLib}
use wapi.Fs.Views.{read_stringview}
use wapi.Fs.Opening.{rb}
use wapi.Fs.Streams.{buffer, seek_set}
use wapi.Fs.Listing.Page.{Buffer, Apart, Wrote-Buffer}
use wapi.Kv.{
  Kv, sanitize_key, build_key_path, set, seek_end, storage_path, ensure_kv_dir, get_bytes, get_from,
  get_file, get_at, get,
}
use wapi.Kv.RoundTrip.{FileLaws}
use wapi.Kv.RoundTrip.Setting.{
  set-WasSet, storage_path_again, Resolved, resolve_key_path-ok, ensure_kv_dir-same,
}

-- What a guest finds that asks for at most `buf_len` bytes of the value `bs`.
pub record Got (buf_ptr buf_len len_ptr : ℕ) (bs : List ℕ) (r : ℕ) (m : Guest) : Type 0 where
  pub answers : r ≡ ok
  pub size_is : peek m len_ptr 8 ≡ to_le 8 (length bs)
  pub value_is : peek m buf_ptr (length (take buf_len bs)) ≡ take buf_len bs

take_min : (n : ℕ) (bs : List ℕ) → take (if ltb (length bs) n then length bs else n) bs ≡ take n bs
take_min n bs = elim (Bool-cases (ltb (length bs) n)) [
  | inl e ↦
      let small : length bs ≤ n = ground arith in
      rw e (take_over (length bs) bs (omega arith) ∙ sym (take_over n bs small))
  | inr e ↦ rw e refl
]

length-take_min :
    (n : ℕ) (bs : List ℕ) → length (take n bs) ≡ (if ltb (length bs) n then length bs else n)
length-take_min n bs = elim (Bool-cases (ltb (length bs) n)) [
  | inl e ↦ let small : length bs ≤ n = ground arith in rw e (ap length (take_over n bs small))
  | inr e ↦ rw e (length-take n bs (ground arith))
]

-- The bytes behind an accepted buffer are those at its own address.
buffer-peek :
    (m : Guest) (p n : ℕ) {q : ℕ} → n < 2 ^ 32 → buffer m p n ≡ some q → peek m q n ≡ peek m p n
unfolding buffer
buffer-peek m p zero small h = refl
buffer-peek m p (suc n) {q} small h = elim (Option-cases (wasm_ptr m p (u32 (suc n)))) [
  | inl e ↦ absurd (ground arith)
  | inr (q', e) ↦
      let is_q : q' ≡ q = ground arith in
      let whole : u32 (suc n) ≡ suc n = omega arith in
      let (at_p, _) = wasm_ptr-in_bounds m p (u32 (suc n)) (λ z. omega arith) e in
      ap (λ x. peek m x (suc n)) (sym is_q ∙ at_p)
]

module _ {W : Type 0} (lib : CLib W) (buf_ptr buf_len len_ptr : ℕ) where
  get_bytes-Got :
      (m : Guest) (f : ℕ) (bs value : List ℕ) (s : Kv W)
      → Wrote m len_ptr (to_le 8 (length bs)) s.guest
      → value ≡ take buf_len bs
      → length value ≤ buf_len
      → (lib.fread s.world f (length value)).0 ≡ value
      → Buffer m buf_ptr buf_len
      → Apart m buf_ptr buf_len len_ptr
      → Got buf_ptr buf_len len_ptr bs
          (get_bytes lib f (length value) buf_ptr s).0
          (get_bytes lib f (length value) buf_ptr s).1.guest
  unfolding get_bytes
  get_bytes-Got m f bs [] s w is_value fits got b a = record {
    answers = refl;
    size_is = w.content;
    value_is = ap (λ v. peek s.guest buf_ptr (length v)) (sym is_value) ∙ is_value;
  }
  get_bytes-Got m f bs (v ∷ vs) s w is_value fits got b a =
      let value = v ∷ vs in
      let b' = Wrote-Buffer w b in
      let not_empty : (length value == 0) ≡ false = ground arith in
      let whole : u32 (length value) ≡ length value = omega (arith, b.inside, b.small, fits) in
      let accepted : wasm_ptr s.guest buf_ptr (length value) ≡ some buf_ptr =
        wasm_ptr_complete s.guest buf_ptr (length value) b'.present (λ e. omega arith)
          (omega (arith, b'.inside, fits)) in
      let put = poke-Wrote s.guest buf_ptr value in
      let side : (len_ptr + 8 ≤ buf_ptr) ⊎ (buf_ptr + length value ≤ len_ptr) = elim a.outside [
        | inl x ↦ inl x
        | inr x ↦ inr (omega (arith, fits))
      ] in
      rw (get_bytes, not_empty, whole, accepted, got)
        (record {
          answers = rw (==_refl (length value)) refl;
          size_is = Wrote-apart len_ptr 8 put side ∙ w.content;
          value_is =
              ap (λ x. peek (poke s.guest buf_ptr value) buf_ptr (length x)) (sym is_value)
              ∙ put.content
              ∙ is_value;
        })

  get_from-Got :
      (f : ℕ) (bs : List ℕ) (s : Kv W)
      → length bs < 2 ^ 31
      → ((n : ℕ) → (lib.fread s.world f n).0 ≡ take n bs)
      → Buffer s.guest buf_ptr buf_len
      → Apart s.guest buf_ptr buf_len len_ptr
      → Got buf_ptr buf_len len_ptr bs
          (get_from lib f (length bs) buf_ptr buf_len len_ptr s).0
          (get_from lib f (length bs) buf_ptr buf_len len_ptr s).1.guest
  unfolding get_from
  get_from-Got f bs s small reads b a =
      let positive : is_neg (length bs) ≡ false = ground arith in
      let value = take buf_len bs in
      let is_copy : (if ltb (length bs) buf_len then length bs else buf_len) ≡ length value =
        sym (length-take_min buf_len bs) in
      rw (get_from, positive, is_copy)
        (get_bytes-Got s.guest f bs value
          (record s { guest = (write_u64 s.guest len_ptr (length bs)).1 })
          (write_u64-Wrote s.guest len_ptr (length bs) b.present a.inside) refl
          (length-take_le buf_len bs)
          (reads (length value) ∙ ap (λ n. take n bs) (sym is_copy) ∙ take_min buf_len bs) b a)

  get_file-Got :
      (f : ℕ) (bs : List ℕ) (s : Kv W)
      → length bs < 2 ^ 31
      → lib.ftell (lib.fseek s.world f 0 seek_end).1 f ≡ length bs
      → ((n : ℕ)
          → (lib.fread (lib.fseek (lib.fseek s.world f 0 seek_end).1 f 0 seek_set).1 f n).0
            ≡ take n bs)
      → Buffer s.guest buf_ptr buf_len
      → Apart s.guest buf_ptr buf_len len_ptr
      → Got buf_ptr buf_len len_ptr bs
          (get_file lib f buf_ptr buf_len len_ptr s).0
          (get_file lib f buf_ptr buf_len len_ptr s).1.guest
  unfolding get_file
  get_file-Got f bs s small size reads b a =
      let positive : is_neg (length bs) ≡ false = ground arith in
      rw (size, positive)
        (get_from-Got f bs
          (record s { world = (lib.fseek (lib.fseek s.world f 0 seek_end).1 f 0 seek_set).1 }) small
          reads b a)

  -- The search for the directory leaves the files in it.
  ensure_kv_dir-Holds :
      (Holds : W → List ℕ → List ℕ → Type 0) (Flushed Readable : W → Type 0) (s : Kv W)
      {path bs : List ℕ}
      → FileLaws lib Holds Flushed Readable
      → Holds s.world path bs
      → Holds (ensure_kv_dir lib s).1.world path bs
  unfolding ensure_kv_dir
  ensure_kv_dir-Holds Holds Flushed Readable s {path} {bs} laws holds =
      let d = storage_path s.kv_storage_path in
      let kept = laws.stat_keeps s.world path d bs holds in
      elim (Option-cases (lib.stat s.world d).0) [
        | inr (st, e) ↦ rw (ensure_kv_dir, e) kept
        | inl e ↦ rw (ensure_kv_dir, e) (laws.mkdir_keeps (lib.stat s.world d).1 path d bs kept)
      ]

  -- A key whose file has the content `bs`.
  pub get-Got :
      (Holds : W → List ℕ → List ℕ → Type 0) (Flushed Readable : W → Type 0) (s : Kv W) (key_sv : ℕ)
      {key path bs : List ℕ}
      → FileLaws lib Holds Flushed Readable
      → Resolved s.guest s.kv_storage_path key_sv key path
      → (ensure_kv_dir lib s).0 ≡ true
      → Readable (ensure_kv_dir lib s).1.world
      → Holds s.world path bs
      → length bs < 2 ^ 31
      → Buffer s.guest buf_ptr buf_len
      → Apart s.guest buf_ptr buf_len len_ptr
      → Got buf_ptr buf_len len_ptr bs
          (get lib key_sv buf_ptr buf_len len_ptr s).0
          (get lib key_sv buf_ptr buf_len len_ptr s).1.guest
  unfolding get get_at
  get-Got Holds Flushed Readable s key_sv {key} {path} {bs} laws r ready readable holds small b a =
      let s1 = (ensure_kv_dir lib s).1 in
      let all = resolve_key_path-ok lib s key_sv r ready in
      let held : Holds s1.world path bs = ensure_kv_dir-Holds Holds Flushed Readable s laws holds in
      let (f, opened) = laws.opens s1.world path bs readable held in
      let same : s1.guest ≡ s.guest = (ensure_kv_dir-same lib s).0 in
      rw (all, get_at, opened)
        (get_file-Got f bs (record s1 { world = (lib.fopen s1.world path rb).1 }) small
          (laws.sized s1.world path bs f small held opened)
          (λ n. laws.reads s1.world path bs f n held opened) (rw same b) (rw same a))

  -- Where `set` of a readable key answers OK for a value below 2 ^ 31 bytes and the file was
  -- flushed when it was closed, which `set` does not test, a `get` of the same key, from whatever
  -- memory the guest has by then, answers OK, reports the length of the value and puts as much of
  -- its front into the buffer as that has room for; of the C library it is assumed that files
  -- keep what is flushed to them (`FileLaws`), the directory has to be there and the system to
  -- let its files be opened, and the buffer, and apart from it the place for the length, have to
  -- lie inside a memory of at most 4 GiB.
  pub get-set :
      (Holds : W → List ℕ → List ℕ → Type 0) (Flushed Readable : W → Type 0) (s : Kv W)
      (key_sv val_ptr val_len : ℕ) (m : Guest) (key_sv' : ℕ) {key : List ℕ}
      → FileLaws lib Holds Flushed Readable
      → read_stringview s.guest key_sv 256 ≡ some key
      → val_len < 2 ^ 31
      → (set lib key_sv val_ptr val_len s).0 ≡ ok
      → Flushed (set lib key_sv val_ptr val_len s).1.world
      → read_stringview m key_sv' 256 ≡ some key
      → (ensure_kv_dir lib (record (set lib key_sv val_ptr val_len s).1 { guest = m })).0 ≡ true
      → Readable
          (ensure_kv_dir lib (record (set lib key_sv val_ptr val_len s).1 { guest = m })).1.world
      → Buffer m buf_ptr buf_len
      → Apart m buf_ptr buf_len len_ptr
      → Got buf_ptr buf_len len_ptr
          (peek s.guest val_ptr val_len)
          (get lib key_sv' buf_ptr buf_len len_ptr
            (record (set lib key_sv val_ptr val_len s).1 { guest = m })).0
          (get lib key_sv' buf_ptr buf_len len_ptr
            (record (set lib key_sv val_ptr val_len s).1 { guest = m })).1.guest
  get-set Holds Flushed Readable s key_sv val_ptr val_len m key_sv' {key} laws is_key small done
        flushed is_key' ready readable b a =
      let w = set-WasSet lib Holds Flushed Readable s key_sv val_ptr val_len laws done flushed in
      let same_key : w.key ≡ key = ground (arith, w.resolved.is_key, is_key) in
      let value : peek s.guest w.place val_len ≡ peek s.guest val_ptr val_len =
        buffer-peek s.guest val_ptr val_len (omega arith) w.is_place in
      get-Got Holds Flushed Readable (record (set lib key_sv val_ptr val_len s).1 { guest = m })
        key_sv' laws
        (record {
          is_key = is_key';
          name = w.resolved.name;
          is_name = ap sanitize_key (sym same_key) ∙ w.resolved.is_name;
          is_path =
              ap (λ d. build_key_path d w.resolved.name)
                (ap storage_path w.same_dir ∙ storage_path_again s.kv_storage_path)
              ∙ w.resolved.is_path;
        })
        ready readable (rw value at w.holds)
        (omega (arith, length-cells s.guest.bytes val_ptr val_len)) b a
