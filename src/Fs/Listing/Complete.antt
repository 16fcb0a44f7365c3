-- ===== src/Fs/Listing/Complete.antt =====
-- A guest that reads a directory page by page gets every entry, and comes to an end.
use wapi.Base.{
  ℕ, zero, suc, ◌+◌, ◌^◌, ◌<◌, ◌≡◌, refl, sym, ap, ◌∙◌, true, false, some, List, [], ◌∷◌, ◌++◌,
  length, drop, ◌==◌, if◌then◌else◌, length-append, ℕ_discrete, arith,
}
use wapi.Abi.{ok}
use wapi.Guest.{Guest, memory_size, wasm_ptr}
use wapi.Fs.{CLib, Fs, FindData}
use wapi.Fs.Streams.{buffer}
use wapi.Fs.Listing.{dir_path_of, search_path, fill_page, readdir}
use wapi.Fs.Listing.Page.{encode, fit, Buffer, Apart, Filled, fill_page-Filled, length-encode-fit}
use wapi.Fs.Listing.Client.{
  list_all, all_fit, last_cookie-numbered, entries_of-numbered, length-numbered, Filled-page_of,
  fit_append-drop, all_fit-fit, all_fit-drop, drop-drop, length-fit_le, fit_empty,
}

-- What the reading of a directory stands on, and keeps: the handle `fd` is a directory in which the
-- system finds the entries `es`, and the guest has room for the page and for its size.
pub record Readable {W : Type 0} (lib : CLib W) (fd buf_ptr buf_len used_ptr : ℕ) (s : Fs W)
    (es : List FindData) : Type 0 where
  pub path : List ℕ
  pub is_dir : dir_path_of s fd ≡ some path
  pub first : FindData
  pub others : List FindData
  pub found : lib.find_files s.world (search_path path) ≡ some (first, others)
  pub entries : es ≡ first ∷ others
  pub page : Buffer s.guest buf_ptr buf_len
  pub size : Apart s.guest buf_ptr buf_len used_ptr
  pub short : buf_len < 2 ^ 32

module _ {W : Type 0} (lib : CLib W) (fd buf_ptr buf_len used_ptr : ℕ) where
  -- The buffer is accepted.
  buffer-accepted :
      (m : Guest)
      → Buffer m buf_ptr buf_len
      → buf_len < 2 ^ 32
      → (p : ℕ) × (buffer m buf_ptr buf_len ≡ some p)
  unfolding buffer wasm_ptr
  buffer-accepted m b short = (buf_ptr, ground (arith, b.present, b.inside))

  dir_path_of-same :
      (s s' : Fs W)
      → s'.handles ≡ s.handles
      → s'.preopens ≡ s.preopens
      → dir_path_of s' fd ≡ dir_path_of s fd
  unfolding dir_path_of
  dir_path_of-same s s' a b = rw (a, b, dir_path_of) refl

  fill_page-same :
      (s : Fs W) (cookie : ℕ) (path : List ℕ)
      → ((fill_page lib buf_ptr buf_len cookie used_ptr path s).handles ≡ s.handles)
        × ((fill_page lib buf_ptr buf_len cookie used_ptr path s).preopens ≡ s.preopens)
        × ((fill_page lib buf_ptr buf_len cookie used_ptr path s).world ≡ s.world)
  unfolding fill_page
  fill_page-same s cookie path = ground arith

  Filled-Readable :
      (s s' : Fs W) {page : List ℕ} {es : List FindData}
      → (s'.handles ≡ s.handles) × (s'.preopens ≡ s.preopens) × (s'.world ≡ s.world)
      → Filled s.guest buf_ptr used_ptr page s'.guest
      → Readable lib fd buf_ptr buf_len used_ptr s es
      → Readable lib fd buf_ptr buf_len used_ptr s' es
  unfolding memory_size
  Filled-Readable s s' (handles, preopens, world) f r = record {
    path = r.path;
    is_dir = dir_path_of-same s s' handles preopens ∙ r.is_dir;
    first = r.first;
    others = r.others;
    found = rw world r.found;
    entries = r.entries;
    page = record {
      present = f.same_valid ∙ r.page.present;
      inside = rw (f.same_valid, f.same_size) r.page.inside;
      small = rw (f.same_valid, f.same_size) r.page.small;
    };
    size = record {
      inside = rw (f.same_valid, f.same_size) r.size.inside;
      outside = r.size.outside;
    };
    short = r.short;
  }

  readdir-page :
      (s : Fs W) (cookie : ℕ) {es : List FindData}
      → Readable lib fd buf_ptr buf_len used_ptr s es
      → ((readdir lib fd buf_ptr buf_len cookie used_ptr s).0 ≡ ok)
        × Filled s.guest buf_ptr used_ptr
            (encode cookie (fit buf_len (drop cookie es)))
            (readdir lib fd buf_ptr buf_len cookie used_ptr s).1.guest
        × Readable lib fd buf_ptr buf_len used_ptr
            (readdir lib fd buf_ptr buf_len cookie used_ptr s).1
            es
  unfolding readdir
  readdir-page s cookie {es} r =
      let f : Filled s.guest buf_ptr used_ptr (encode cookie (fit buf_len (drop cookie es)))
          (fill_page lib buf_ptr buf_len cookie used_ptr r.path s).guest =
        rw r.entries
          (fill_page-Filled lib s buf_ptr buf_len cookie used_ptr r.path r.found r.page r.size) in
      let (p, accepted) = buffer-accepted s.guest r.page r.short in
      rw (readdir, r.is_dir, accepted)
        (
          refl,
          f,
          Filled-Readable s (fill_page lib buf_ptr buf_len cookie used_ptr r.path s)
              (fill_page-same s cookie r.path) f r,
        )

  -- One round of the reading, with the page that it gets.
  list_all-round :
      (s : Fs W) (fuel cookie : ℕ) {es : List FindData}
      → Readable lib fd buf_ptr buf_len used_ptr s es
      → all_fit buf_len es ≡ true
      → cookie + length (drop cookie es) < 2 ^ 64
      → list_all lib fd buf_ptr buf_len used_ptr (suc fuel) cookie s ≡ (
          if length (fit buf_len (drop cookie es)) == 0
          then []
          else fit buf_len (drop cookie es)
            ++ list_all lib fd buf_ptr buf_len used_ptr fuel
                (cookie + length (fit buf_len (drop cookie es)))
                (readdir lib fd buf_ptr buf_len cookie used_ptr s).1)
  unfolding list_all
  list_all-round s fuel cookie {es} r fits small =
      let left = drop cookie es in
      let (_, f, _) = readdir-page s cookie r in
      let page =
        Filled-page_of buf_len cookie (fit buf_len left) f (length-encode-fit cookie buf_len left)
          r.short (all_fit-fit buf_len buf_len left (all_fit-drop buf_len cookie es fits))
          (omega (arith, length-fit_le buf_len left)) in
      rw
        (
          page,
          length-numbered cookie (fit buf_len left),
          entries_of-numbered cookie (fit buf_len left),
          last_cookie-numbered cookie cookie (fit buf_len left) refl,
        )
        refl

  -- A guest that reads a directory with `readdir` from a cookie on, each time with the cookie of
  -- the last entry of the page before, gets every entry from that number on, once and in order,
  -- and then an empty page at which it stops, within one page more than there are entries; the
  -- handle is a directory in which the system finds these entries each time, every entry fits the
  -- buffer by itself, the buffer, below 2 ^ 32 bytes, and apart from it the place for the size
  -- lie in a memory of at most 4 GiB, and the numbers stay below 2 ^ 64.
  pub list_all_complete :
      (s : Fs W) (fuel cookie : ℕ) {es : List FindData}
      → Readable lib fd buf_ptr buf_len used_ptr s es
      → all_fit buf_len es ≡ true
      → cookie + length (drop cookie es) < 2 ^ 64
      → length (drop cookie es) < fuel
      → list_all lib fd buf_ptr buf_len used_ptr fuel cookie s ≡ drop cookie es
  list_all_complete s zero cookie r fits small enough = absurd (omega arith)
  list_all_complete s (suc fuel) cookie {es} r fits small enough =
      let left = drop cookie es in
      let page = fit buf_len left in
      list_all-round s fuel cookie r fits small ∙ elim (ℕ_discrete (length page) 0) [
        | yes e ↦
            let last : (length page == 0) ≡ true = ground arith in
            rw last (sym (fit_empty buf_len left (all_fit-drop buf_len cookie es fits) e))
        | no ne ↦
            let more : (length page == 0) ≡ false = ground arith in
            let behind : drop (cookie + length page) es ≡ drop (length page) left =
              sym (drop-drop (length page) cookie es) in
            let split : length left ≡ length page + length (drop (length page) left) =
              ap length (sym (fit_append-drop buf_len left))
              ∙ length-append page (drop (length page) left) in
            let count : length (drop (cookie + length page) es) ≡ length (drop (length page) left) =
              ap length behind in
            let ih =
              list_all_complete (readdir lib fd buf_ptr buf_len cookie used_ptr s).1 fuel
                (cookie + length page) (readdir-page s cookie r).2 fits
                (omega (arith, split, count)) (omega (arith, split, count)) in
            rw more (ap (λ xs. page ++ xs) (ih ∙ behind) ∙ fit_append-drop buf_len left)
      ]
