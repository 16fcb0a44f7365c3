-- ===== src/Tests/Devices.antt =====
-- Runs of the device database (runtime/desktop/src/wapi_host_devicedb.c).
use wapi.Base.{ℕ, ◌≤◌, ◌≡◌, refl, true, some, List, [], ◌∷◌, arith}
use wapi.Devices.{Key, Entry, Devices, reserve, commit, lookup}
use wapi.Devices.Growth.{reserve_lem}
use wapi.Devices.Fields.{Fields}
use wapi.Devices.Merged.{Partner, lookup-commit}

abbrev apple : Key
apple = record { kind = 2; bytes = 97 ∷ [] }

abbrev edid : Key
edid = record { kind = 1; bytes = 98 ∷ 99 ∷ [] }

abbrev display : List Key → ℕ → ℕ → Entry
display keys width flags = record {
  name = 65 ∷ [];
  keys = keys;
  subpixels = [];
  envelope = 0;
  corner_radius_px = 0 ∷ 0 ∷ 0 ∷ 0 ∷ [];
  cutouts = [];
  width_mm = width;
  height_mm = 0;
  diagonal_mm = 0;
  panel_class = 0;
  peak_sdr_cd_m2 = 0;
  peak_hdr_cd_m2 = 0;
  min_mcd_m2 = 0;
  primaries = [];
  coverage_srgb = 0;
  coverage_p3 = 0;
  coverage_rec2020 = 0;
  coverage_adobe_rgb = 0;
  white_point_k = 0;
  refresh_min_mhz = 0;
  refresh_max_mhz = 0;
  update_class = 0;
  has_touch = 0;
  has_stylus = 0;
  stylus_has_tilt = 0;
  stylus_pressure_levels = 0;
  flags = flags;
}

-- One row, in a table that is full.
abbrev one_row : Devices
one_row = record { entries = display (apple ∷ []) 300 2 ∷ []; capacity = 1 }

-- A second source has another width for the row, and another key.
abbrev newer : Entry
newer = display (edid ∷ apple ∷ []) 310 2

lookup-commit_example :
    (o r : Entry) × Partner newer one_row.entries o
    × (lookup edid (commit (λ n. true) newer one_row) ≡ some r)
    × Fields newer o r
lookup-commit_example =
    lookup-commit (λ n. true) newer one_row [] (apple ∷ []) edid (λ n. refl) (omega arith) refl refl
      (omega arith) (omega arith)

reserve_lem_example :
    ((reserve (λ n. true) 300 one_row).0 ≡ true)
    × (300 ≤ (reserve (λ n. true) 300 one_row).1.capacity)
    × ((reserve (λ n. true) 300 one_row).1.entries ≡ one_row.entries)
reserve_lem_example = reserve_lem (λ n. true) 300 one_row (λ n. refl) (omega arith)
