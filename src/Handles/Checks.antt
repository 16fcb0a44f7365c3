-- ===== src/Handles/Checks.antt =====
-- What the checks on a guest's handle mean, and what freeing a handle does to them.
use wapi.Base.{ℕ, ◌<◌, ◌≡◌, refl, ◌↔◌, ◌≢◌, true, false, some, arith}
use wapi.Handles.{
  HandleType, free, same_type_iff, Handles, Entry, max_handles, type_at, alloc, valid, release, get,
}
use wapi.Handles.Alloc.{IsValid, Outcome, took, full, alloc-Outcome}

module _ {D : Type 0} where
  -- For a type other than FREE, a guest's handle passes `wapi_handle_valid` exactly when it lies
  -- between 1 and 4095 and its entry has that type.
  pub valid_iff :
      (t : Handles D) (h : ℕ) (type : HandleType)
      → type ≢ free
      → (valid t h type ≡ true) ↔ ((0 < h) × (h < max_handles) × (type_at t h ≡ type))
  unfolding valid
  valid_iff t h type ne = (
    λ e. ground (arith, same_type_iff (type_at t h) type, same_type_iff type free),
    λ p. ground (
      arith,
      same_type_iff (type_at t h) type,
      same_type_iff type free,
      same_type_iff (type_at t h) free,
    ),
  )

  -- The unchecked lookup succeeds exactly on the handles that some type's check accepts.
  pub get-valid :
      (t : Handles D) (h : ℕ) {e : Entry D}
      → get t h ≡ some e
      → (valid t h e.type ≡ true) × (e ≡ t.entries h)
  unfolding get valid
  get-valid t h q = ground (arith, same_type_iff (type_at t h) (type_at t h))

  -- On a table whose cursor lies in its bounds, a handle that `wapi_handle_alloc` returns, other
  -- than 0, passes `wapi_handle_valid` for the type it was allocated for, where that is not FREE.
  pub valid-alloc :
      (zeroed : D) (t : Handles D) (type : HandleType)
      → IsValid t
      → type ≢ free
      → (alloc zeroed t type).0 ≢ 0
      → valid (alloc zeroed t type).1 (alloc zeroed t type).0 type ≡ true
  valid-alloc zeroed t type v ne nz = passes ne nz (alloc-Outcome zeroed t type v)
    where
      passes :
          {r : ℕ × Handles D}
          → type ≢ free
          → r.0 ≢ 0
          → Outcome zeroed t type r
          → valid r.1 r.0 type ≡ true
      passes {r} ne nz (took a) =
          (valid_iff r.1 r.0 type ne).1 (omega (arith, a.above_streams), a.in_table, a.has_type)
      passes ne nz (full f) = absurd (nz refl)

  -- For a type other than FREE, after `wapi_handle_free` of a handle between 1 and 4095 the
  -- handle fails `wapi_handle_valid`, and any other handle passes it exactly if it did before.
  valid-release :
      (zeroed : D) (t : Handles D) (h i : ℕ) (type : HandleType)
      → type ≢ free
      → 0 < h
      → h < max_handles
      → i ≢ h
      → (valid (release zeroed t h) h type ≡ false)
        × (valid (release zeroed t h) i type ≡ valid t i type)
  unfolding valid release
  valid-release zeroed t h i type ne lo hi apart = ground (arith, same_type_iff free free)
