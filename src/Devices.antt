-- ===== src/Devices.antt =====
-- runtime/desktop/src/wapi_host_devicedb.c: the entries of the database of displays, the merge of an
-- entry into one that it shares a key with, and the table.
pub mod Growth
pub mod Fields
pub mod Merged
use Prim.Native.Nat.{bit_and, bit_or}
use wapi.Base.{
  ℕ, zero, suc, ◌+◌, ◌*◌, ◌&&◌, ◌||◌, not, Bool, true, false, Option, none, some, List, [], ◌∷◌,
  ◌++◌, length, take, leb, ltb, ◌==◌, if◌then◌else◌,
}
use wapi.Abi.{u32, is_neg}
use wapi.Caps.Strings.{bytes_eq}

-- `wapi_devicedb_sp_t`
pub record Subpixel : Type 0 where
  pub color : ℕ
  pub x : ℕ
  pub y : ℕ

-- `wapi_devicedb_cutout_t`
pub record Cutout : Type 0 where
  pub x : ℕ
  pub y : ℕ
  pub w : ℕ
  pub h : ℕ

-- `wapi_devicedb_key_t`, the first `len` bytes of its data
pub record Key : Type 0 where
  pub kind : ℕ
  pub bytes : List ℕ

-- `wapi_devicedb_entry_t`. Each array with a count is a list; the eight coordinates of the primaries
-- and the white point are one list, in the order of the fields.
pub record Entry : Type 0 where
  pub name : List ℕ
  pub keys : List Key
  pub subpixels : List Subpixel
  pub envelope : ℕ
  pub corner_radius_px : List ℕ
  pub cutouts : List Cutout
  pub width_mm : ℕ
  pub height_mm : ℕ
  pub diagonal_mm : ℕ
  pub panel_class : ℕ
  pub peak_sdr_cd_m2 : ℕ
  pub peak_hdr_cd_m2 : ℕ
  pub min_mcd_m2 : ℕ
  pub primaries : List ℕ
  pub coverage_srgb : ℕ
  pub coverage_p3 : ℕ
  pub coverage_rec2020 : ℕ
  pub coverage_adobe_rgb : ℕ
  pub white_point_k : ℕ
  pub refresh_min_mhz : ℕ
  pub refresh_max_mhz : ℕ
  pub update_class : ℕ
  pub has_touch : ℕ
  pub has_stylus : ℕ
  pub stylus_has_tilt : ℕ
  pub stylus_pressure_levels : ℕ
  pub flags : ℕ

abbrev pub flag_has_subpixels : ℕ
flag_has_subpixels = 1

abbrev pub flag_has_width : ℕ
flag_has_width = 2

abbrev pub flag_has_height : ℕ
flag_has_height = 4

abbrev pub flag_has_diagonal : ℕ
flag_has_diagonal = 8

abbrev pub flag_has_panel : ℕ
flag_has_panel = 16

abbrev pub flag_has_peak_sdr : ℕ
flag_has_peak_sdr = 32

abbrev pub flag_has_peak_hdr : ℕ
flag_has_peak_hdr = 64

abbrev pub flag_has_min : ℕ
flag_has_min = 128

abbrev pub flag_has_primaries : ℕ
flag_has_primaries = 256

abbrev pub flag_has_cov_srgb : ℕ
flag_has_cov_srgb = 512

abbrev pub flag_has_cov_p3 : ℕ
flag_has_cov_p3 = 1024

abbrev pub flag_has_cov_rec20 : ℕ
flag_has_cov_rec20 = 2048

abbrev pub flag_has_cov_adobe : ℕ
flag_has_cov_adobe = 4096

abbrev pub flag_has_white : ℕ
flag_has_white = 8192

abbrev pub flag_has_refresh : ℕ
flag_has_refresh = 16384

abbrev pub flag_has_update : ℕ
flag_has_update = 32768

abbrev pub flag_has_envelope : ℕ
flag_has_envelope = 65536

abbrev pub flag_has_corners : ℕ
flag_has_corners = 131072

abbrev pub flag_has_cutouts : ℕ
flag_has_cutouts = 262144

abbrev pub flag_has_touch : ℕ
flag_has_touch = 524288

abbrev pub flag_has_stylus : ℕ
flag_has_stylus = 1048576

abbrev pub max_keys : ℕ
max_keys = 4

abbrev pub key_max_len : ℕ
key_max_len = 62

-- The kind, the length and the bytes of two keys are the same.
abbrev pub same_key : Key → Key → Bool
same_key a b = a.kind == b.kind && bytes_eq a.bytes b.bytes

abbrev pub has_key : Key → List Key → Bool
has_key k [] = false
has_key k (o ∷ os) = same_key k o || has_key k os

-- The two loops over the keys of an entry and of a row.
abbrev pub shares : List Key → List Key → Bool
shares [] os = false
shares (k ∷ ks) os = has_key k os || shares ks os

abbrev pub add_key : Key → List Key → List Key
add_key k os = if has_key k os then os else os ++ k ∷ []

-- The loop over the keys of the new entry, for a row with the keys `os`.
abbrev pub union : List Key → List Key → List Key
union [] os = os
union (k ∷ ks) os =
    let rest = union ks (add_key k os) in if leb max_keys (length os) then os else rest

-- One flagged field: the new value if the flag is set.
unfoldable pub pick : {A : Type 0} → ℕ → ℕ → A → A → A
pick flags bit new old = if bit_and flags bit == 0 then old else new

-- `commit_entry` on a row that shares a key with the entry.
unfoldable pub merge : Entry → Entry → Entry
merge e o = record {
  name = if length e.name == 0 then o.name else take 63 e.name;
  keys = union e.keys o.keys;
  subpixels = pick e.flags flag_has_subpixels e.subpixels o.subpixels;
  envelope = pick e.flags flag_has_envelope e.envelope o.envelope;
  corner_radius_px = pick e.flags flag_has_corners e.corner_radius_px o.corner_radius_px;
  cutouts = pick e.flags flag_has_cutouts e.cutouts o.cutouts;
  width_mm = pick e.flags flag_has_width e.width_mm o.width_mm;
  height_mm = pick e.flags flag_has_height e.height_mm o.height_mm;
  diagonal_mm = pick e.flags flag_has_diagonal e.diagonal_mm o.diagonal_mm;
  panel_class = pick e.flags flag_has_panel e.panel_class o.panel_class;
  peak_sdr_cd_m2 = pick e.flags flag_has_peak_sdr e.peak_sdr_cd_m2 o.peak_sdr_cd_m2;
  peak_hdr_cd_m2 = pick e.flags flag_has_peak_hdr e.peak_hdr_cd_m2 o.peak_hdr_cd_m2;
  min_mcd_m2 = pick e.flags flag_has_min e.min_mcd_m2 o.min_mcd_m2;
  primaries = pick e.flags flag_has_primaries e.primaries o.primaries;
  coverage_srgb = pick e.flags flag_has_cov_srgb e.coverage_srgb o.coverage_srgb;
  coverage_p3 = pick e.flags flag_has_cov_p3 e.coverage_p3 o.coverage_p3;
  coverage_rec2020 = pick e.flags flag_has_cov_rec20 e.coverage_rec2020 o.coverage_rec2020;
  coverage_adobe_rgb = pick e.flags flag_has_cov_adobe e.coverage_adobe_rgb o.coverage_adobe_rgb;
  white_point_k = pick e.flags flag_has_white e.white_point_k o.white_point_k;
  refresh_min_mhz = pick e.flags flag_has_refresh e.refresh_min_mhz o.refresh_min_mhz;
  refresh_max_mhz = pick e.flags flag_has_refresh e.refresh_max_mhz o.refresh_max_mhz;
  update_class = pick e.flags flag_has_update e.update_class o.update_class;
  has_touch = pick e.flags flag_has_touch e.has_touch o.has_touch;
  has_stylus = pick e.flags flag_has_stylus e.has_stylus o.has_stylus;
  stylus_has_tilt = pick e.flags flag_has_stylus e.stylus_has_tilt o.stylus_has_tilt;
  stylus_pressure_levels =
      pick e.flags flag_has_stylus e.stylus_pressure_levels o.stylus_pressure_levels;
  flags = bit_or o.flags e.flags;
}

-- The first row that shares a key with the entry, merged; none if there is no such row.
abbrev pub merge_into : Entry → List Entry → Option (List Entry)
merge_into e [] = none
merge_into e (o ∷ os) =
    let rest = merge_into e os in
    if shares e.keys o.keys
    then some (merge e o ∷ os)
    else elim rest [ none ↦ none | some os' ↦ some (o ∷ os') ]

-- `g_ddb`, the first `g_ddb_count`, and `g_ddb_capacity`.
pub record Devices : Type 0 where
  pub entries : List Entry
  pub capacity : ℕ

-- The loop of `ddb_reserve` over an int, on fuel. C leaves an overflow open; here it wraps around, so
-- that the int can be negative, or 0 from then on, and the rounds run out.
abbrev pub double : ℕ → ℕ → ℕ → ℕ
double zero cap need = cap
double (suc fuel) cap need =
    let rest = double fuel (u32 (cap * 2)) need in if is_neg cap || ltb cap need then rest else cap

-- `ddb_reserve`, where `realloc` says whether there is room for so many entries.
unfoldable pub reserve : (ℕ → Bool) → ℕ → Devices → Bool × Devices
reserve realloc need t =
    if leb need t.capacity
    then (true, t)
    else let cap = double need (if t.capacity == 0 then 128 else t.capacity) need in
      if realloc cap then (true, record t { capacity = cap }) else (false, t)

-- `commit_entry` on a table with no row to merge into.
unfoldable pub add_entry : (ℕ → Bool) → Entry → Devices → Devices
add_entry realloc e t =
    let (room, t') = reserve realloc (length t.entries + 1) t in
    if room then record t' { entries = t'.entries ++ e ∷ [] } else t'

-- `commit_entry`
unfoldable pub commit : (ℕ → Bool) → Entry → Devices → Devices
commit realloc e t =
    if length e.keys == 0 && length e.name == 0 then t else elim (merge_into e t.entries) [
      | none ↦ add_entry realloc e t
      | some rows ↦ record t { entries = rows }
    ]

abbrev pub find_row : Key → List Entry → Option Entry
find_row k [] = none
find_row k (o ∷ os) = let rest = find_row k os in if has_key k o.keys then some o else rest

-- `wapi_devicedb_lookup`, with a kind of 8 bits and a key that is not NULL
unfoldable pub lookup : Key → Devices → Option Entry
lookup k t =
    if length k.bytes == 0 || ltb key_max_len (length k.bytes) then none else find_row k t.entries
