-- ===== src/Handles.antt =====
-- runtime/desktop/src/wapi_host.h, "Handle Table": every resource that a guest can name is an entry
-- of one table of 4096; 0 is no handle, 1 to 3 are the standard streams.
mod Types
pub mod Alloc
pub mod Checks
unfoldable pub use Types.*
use wapi.Base.{
  ℕ, ◌+◌, ◌-◌, ◌&&◌, ◌||◌, not, Bool, true, false, Option, none, some, find_from, update, leb, ◌==◌,
  if◌then◌else◌,
}
use wapi.Abi.{le_zero}

abbrev pub max_handles : ℕ
max_handles = 4096

-- `wapi_handle_entry_t`; `D` is the union of the types' own data.
pub record Entry (D : Type 0) : Type 0 where
  pub type : HandleType
  pub payload : D

pub record Handles (D : Type 0) : Type 0 where
  pub entries : ℕ → Entry D
  pub next_handle : ℕ

module _ {D : Type 0} where
  abbrev pub type_at : Handles D → ℕ → HandleType
  type_at t i = (t.entries i).type

  abbrev pub payload_at : Handles D → ℕ → D
  payload_at t i = (t.entries i).payload

  -- `g_rt.handles[h].data = d`
  abbrev pub set_payload : Handles D → ℕ → D → Handles D
  set_payload t h d = record t {
    entries = update t.entries h (record { type = type_at t h; payload = d });
  }

  abbrev pub free_at : Handles D → ℕ → Bool
  free_at t i = same_type (type_at t i) free

  -- The entry `i` taken for a new resource; `zeroed` is the union after `memset`.
  abbrev pub take_entry : D → Handles D → HandleType → ℕ → Handles D
  take_entry zeroed t type i = record {
    entries = update t.entries i (record { type = type; payload = zeroed });
    next_handle = i + 1;
  }

  -- `wapi_handle_alloc`: next fit from the cursor, then from 4; 0 when the table is full.
  unfoldable pub alloc : D → Handles D → HandleType → ℕ × Handles D
  alloc zeroed t type = elim (find_from (free_at t) t.next_handle (max_handles - t.next_handle)) [
    | some i ↦ (i, take_entry zeroed t type i)
    | none ↦ elim (find_from (free_at t) 4 (t.next_handle - 4)) [
      | some i ↦ (i, take_entry zeroed t type i)
      | none ↦ (0, t)
    ]
  ]

  -- `wapi_handle_valid`: `h` comes from the guest, so any `int32_t`.
  unfoldable pub valid : Handles D → ℕ → HandleType → Bool
  valid t h expected =
      if le_zero h || leb max_handles h
      then false
      else if same_type (type_at t h) free
      then false
      else if not (same_type expected free) && not (same_type (type_at t h) expected)
      then false
      else true

  unfoldable pub valid_any : Handles D → ℕ → Bool
  valid_any t h =
      if le_zero h || leb max_handles h then false else not (same_type (type_at t h) free)

  -- `wapi_handle_free`
  unfoldable pub release : D → Handles D → ℕ → Handles D
  release zeroed t h =
      if not (le_zero h) && not (leb max_handles h)
      then record t { entries = update t.entries h (record { type = free; payload = zeroed }) }
      else t

  -- `wapi_handle_get`
  unfoldable pub get : Handles D → ℕ → Option (Entry D)
  get t h =
      if not (le_zero h) && (not (leb max_handles h) && not (same_type (type_at t h) free))
      then some (t.entries h)
      else none
