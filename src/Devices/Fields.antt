-- ===== src/Devices/Fields.antt =====
-- The fields of a row after a merge (runtime/desktop/src/wapi_host_devicedb.c, `commit_entry`).
use wapi.Base.{ℕ, ◌≡◌, refl, ◌⊎◌, inl, inr, arith, ℕ_discrete, ◌≢◌}
use Prim.Native.Nat.{bit_and}
use wapi.Devices.{
  Entry, pick, merge, flag_has_subpixels, flag_has_width, flag_has_height, flag_has_diagonal,
  flag_has_panel, flag_has_peak_sdr, flag_has_peak_hdr, flag_has_min, flag_has_primaries,
  flag_has_cov_srgb, flag_has_cov_p3, flag_has_cov_rec20, flag_has_cov_adobe, flag_has_white,
  flag_has_refresh, flag_has_update, flag_has_envelope, flag_has_corners, flag_has_cutouts,
  flag_has_touch, flag_has_stylus,
}

-- One field, as it was before and as it is after: a flagged one is the entry's, another is as before.
unfoldable pub Takes : {A : Type 0} → ℕ → ℕ → A → A → A → Type 0
Takes flags bit new old got =
    ((bit_and flags bit ≡ 0) × (got ≡ old)) ⊎ ((bit_and flags bit ≢ 0) × (got ≡ new))

-- The row `r` is the row `o` with the fields that the entry `e` flags.
unfoldable pub Fields : Entry → Entry → Entry → Type 0
Fields e o r =
    Takes e.flags flag_has_subpixels e.subpixels o.subpixels r.subpixels
    × Takes e.flags flag_has_envelope e.envelope o.envelope r.envelope
    × Takes e.flags flag_has_corners e.corner_radius_px o.corner_radius_px r.corner_radius_px
    × Takes e.flags flag_has_cutouts e.cutouts o.cutouts r.cutouts
    × Takes e.flags flag_has_width e.width_mm o.width_mm r.width_mm
    × Takes e.flags flag_has_height e.height_mm o.height_mm r.height_mm
    × Takes e.flags flag_has_diagonal e.diagonal_mm o.diagonal_mm r.diagonal_mm
    × Takes e.flags flag_has_panel e.panel_class o.panel_class r.panel_class
    × Takes e.flags flag_has_peak_sdr e.peak_sdr_cd_m2 o.peak_sdr_cd_m2 r.peak_sdr_cd_m2
    × Takes e.flags flag_has_peak_hdr e.peak_hdr_cd_m2 o.peak_hdr_cd_m2 r.peak_hdr_cd_m2
    × Takes e.flags flag_has_min e.min_mcd_m2 o.min_mcd_m2 r.min_mcd_m2
    × Takes e.flags flag_has_primaries e.primaries o.primaries r.primaries
    × Takes e.flags flag_has_cov_srgb e.coverage_srgb o.coverage_srgb r.coverage_srgb
    × Takes e.flags flag_has_cov_p3 e.coverage_p3 o.coverage_p3 r.coverage_p3
    × Takes e.flags flag_has_cov_rec20 e.coverage_rec2020 o.coverage_rec2020 r.coverage_rec2020
    × Takes e.flags flag_has_cov_adobe e.coverage_adobe_rgb o.coverage_adobe_rgb
        r.coverage_adobe_rgb
    × Takes e.flags flag_has_white e.white_point_k o.white_point_k r.white_point_k
    × Takes e.flags flag_has_refresh e.refresh_min_mhz o.refresh_min_mhz r.refresh_min_mhz
    × Takes e.flags flag_has_refresh e.refresh_max_mhz o.refresh_max_mhz r.refresh_max_mhz
    × Takes e.flags flag_has_update e.update_class o.update_class r.update_class
    × Takes e.flags flag_has_touch e.has_touch o.has_touch r.has_touch
    × Takes e.flags flag_has_stylus e.has_stylus o.has_stylus r.has_stylus
    × Takes e.flags flag_has_stylus e.stylus_has_tilt o.stylus_has_tilt r.stylus_has_tilt
    × Takes e.flags flag_has_stylus e.stylus_pressure_levels o.stylus_pressure_levels
        r.stylus_pressure_levels

pick-Takes :
    {A : Type 0} (flags bit : ℕ) (new old : A) → Takes flags bit new old (pick flags bit new old)
unfolding pick Takes
pick-Takes flags bit new old = elim (ℕ_discrete (bit_and flags bit) 0) [
  | yes e ↦ inl (e, ground (arith, e))
  | no ne ↦ inr (ne, ground (arith, ne))
]

Takes-same : {A : Type 0} (flags bit : ℕ) (x : A) → Takes flags bit x x x
unfolding Takes
Takes-same flags bit x = elim (ℕ_discrete (bit_and flags bit) 0) [
  | yes e ↦ inl (e, refl)
  | no ne ↦ inr (ne, refl)
]

pub Fields-same : (e : Entry) → Fields e e e
unfolding Fields
Fields-same e = (
  Takes-same e.flags flag_has_subpixels e.subpixels,
  Takes-same e.flags flag_has_envelope e.envelope,
  Takes-same e.flags flag_has_corners e.corner_radius_px,
  Takes-same e.flags flag_has_cutouts e.cutouts,
  Takes-same e.flags flag_has_width e.width_mm,
  Takes-same e.flags flag_has_height e.height_mm,
  Takes-same e.flags flag_has_diagonal e.diagonal_mm,
  Takes-same e.flags flag_has_panel e.panel_class,
  Takes-same e.flags flag_has_peak_sdr e.peak_sdr_cd_m2,
  Takes-same e.flags flag_has_peak_hdr e.peak_hdr_cd_m2,
  Takes-same e.flags flag_has_min e.min_mcd_m2,
  Takes-same e.flags flag_has_primaries e.primaries,
  Takes-same e.flags flag_has_cov_srgb e.coverage_srgb,
  Takes-same e.flags flag_has_cov_p3 e.coverage_p3,
  Takes-same e.flags flag_has_cov_rec20 e.coverage_rec2020,
  Takes-same e.flags flag_has_cov_adobe e.coverage_adobe_rgb,
  Takes-same e.flags flag_has_white e.white_point_k,
  Takes-same e.flags flag_has_refresh e.refresh_min_mhz,
  Takes-same e.flags flag_has_refresh e.refresh_max_mhz,
  Takes-same e.flags flag_has_update e.update_class,
  Takes-same e.flags flag_has_touch e.has_touch,
  Takes-same e.flags flag_has_stylus e.has_stylus,
  Takes-same e.flags flag_has_stylus e.stylus_has_tilt,
  Takes-same e.flags flag_has_stylus e.stylus_pressure_levels,
)

pub merge-Fields : (e o : Entry) → Fields e o (merge e o)
unfolding Fields merge
merge-Fields e o = (
  pick-Takes e.flags flag_has_subpixels e.subpixels o.subpixels,
  pick-Takes e.flags flag_has_envelope e.envelope o.envelope,
  pick-Takes e.flags flag_has_corners e.corner_radius_px o.corner_radius_px,
  pick-Takes e.flags flag_has_cutouts e.cutouts o.cutouts,
  pick-Takes e.flags flag_has_width e.width_mm o.width_mm,
  pick-Takes e.flags flag_has_height e.height_mm o.height_mm,
  pick-Takes e.flags flag_has_diagonal e.diagonal_mm o.diagonal_mm,
  pick-Takes e.flags flag_has_panel e.panel_class o.panel_class,
  pick-Takes e.flags flag_has_peak_sdr e.peak_sdr_cd_m2 o.peak_sdr_cd_m2,
  pick-Takes e.flags flag_has_peak_hdr e.peak_hdr_cd_m2 o.peak_hdr_cd_m2,
  pick-Takes e.flags flag_has_min e.min_mcd_m2 o.min_mcd_m2,
  pick-Takes e.flags flag_has_primaries e.primaries o.primaries,
  pick-Takes e.flags flag_has_cov_srgb e.coverage_srgb o.coverage_srgb,
  pick-Takes e.flags flag_has_cov_p3 e.coverage_p3 o.coverage_p3,
  pick-Takes e.flags flag_has_cov_rec20 e.coverage_rec2020 o.coverage_rec2020,
  pick-Takes e.flags flag_has_cov_adobe e.coverage_adobe_rgb o.coverage_adobe_rgb,
  pick-Takes e.flags flag_has_white e.white_point_k o.white_point_k,
  pick-Takes e.flags flag_has_refresh e.refresh_min_mhz o.refresh_min_mhz,
  pick-Takes e.flags flag_has_refresh e.refresh_max_mhz o.refresh_max_mhz,
  pick-Takes e.flags flag_has_update e.update_class o.update_class,
  pick-Takes e.flags flag_has_touch e.has_touch o.has_touch,
  pick-Takes e.flags flag_has_stylus e.has_stylus o.has_stylus,
  pick-Takes e.flags flag_has_stylus e.stylus_has_tilt o.stylus_has_tilt,
  pick-Takes e.flags flag_has_stylus e.stylus_pressure_levels o.stylus_pressure_levels,
)
