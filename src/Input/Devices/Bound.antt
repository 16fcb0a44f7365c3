-- ===== src/Input/Devices/Bound.antt =====
-- The gamepad of each slot and the handle that stands for it.
use wapi.Base.{
  ℕ, ◌≤◌, ◌<◌, ◌≡◌, refl, sym, ap, ◌∙◌, ◌≢◌, inl, inr, ◌&&◌, not, true, false, Option, none, some,
  arith, ◌==◌, leb, if◌then◌else◌, update_self, update_ne, ℕ_discrete, Bool-cases,
}
use wapi.Abi.{le_zero}
use wapi.Handles.{
  Handles, Entry, free, input_device, same_type, same_type_iff, max_handles, type_at, payload_at,
  alloc, valid, release,
}
use wapi.Handles.Alloc.{IsValid, Outcome, took, full, alloc-Outcome, release-IsValid}
use wapi.Input.{
  Input, Device, Payload, zeroed, device, is_device, gamepad_slots, role_gamepad, dev_get,
}
use wapi.Input.Devices.{dev_alloc}

abbrev pub pad_of : Option Device → Option ℕ
pad_of none = none
pad_of (some d) = if d.kind == role_gamepad then some d.backend_slot else none

-- The slot of an entry that is a gamepad.
abbrev pub pad_slot : Entry Payload → Option ℕ
pad_slot e = if same_type e.type input_device then pad_of (is_device e.payload) else none

-- A slot's handle is that of a gamepad of this slot, and no other handle is.
pub record IsBound (t : Handles Payload) (pads : ℕ → ℕ) : Type 0 where
  pub cursor : IsValid t
  pub live :
      (slot : ℕ)
      → slot < gamepad_slots
      → pads slot ≢ 0
      → (pads slot < max_handles) × (pad_slot (t.entries (pads slot)) ≡ some slot)
  pub owned :
      (h slot : ℕ)
      → h < max_handles
      → pad_slot (t.entries h) ≡ some slot
      → (slot < gamepad_slots) × ((h ≢ 0) × (pads slot ≡ h))

-- The same entries are gamepads, of the same slots.
pub record SamePads (t t' : Handles Payload) : Type 0 where
  pub cursor : IsValid t'
  pub same : (h : ℕ) → h < max_handles → pad_slot (t'.entries h) ≡ pad_slot (t.entries h)

pub SamePads-IsBound :
    {t t' : Handles Payload} {pads : ℕ → ℕ} → SamePads t t' → IsBound t pads → IsBound t' pads
SamePads-IsBound {t} {t'} {pads} k b = record {
  cursor = record { low = k.cursor.low; high = k.cursor.high };
  live = λ slot lt ne.
      let (inside, here) = b.live slot lt ne in (inside, k.same (pads slot) inside ∙ here);
  owned = λ h slot lt e. b.owned h slot lt (sym (k.same h lt) ∙ e);
}

input_device≢free : input_device ≢ free
input_device≢free e = ground (arith, (same_type_iff input_device free).1 e)

pub free-pad_slot : (e : Entry Payload) → e.type ≡ free → pad_slot e ≡ none
free-pad_slot e is_free =
    let other : same_type e.type input_device ≡ false =
      ground (arith, same_type_iff e.type input_device, input_device≢free, is_free) in
    rw other refl

-- A freed entry, and the entries beside it.
pub release-entries :
    (t : Handles Payload) (h : ℕ)
    → h ≢ 0
    → h < max_handles
    → ((release zeroed t h).entries h).type ≡ free
      × ((i : ℕ) → i ≢ h → (release zeroed t h).entries i ≡ t.entries i)
unfolding release
release-entries t h ne lt =
    let in_range : (not (le_zero h) && not (leb max_handles h)) ≡ true = ground arith in
    rw in_range (
      ap (λ (e : Entry Payload). e.type) (update_self t.entries h _),
      λ i apart. update_ne t.entries h _ i apart,
    )

-- The ways in which an allocation of a device ends.
pub data Added {W : Type 0} (d : Device) (s : Input W) : ℕ × Input W → Type 0 where
  added :
      {h : ℕ} {t : Handles Payload}
      → 4 ≤ h
      → h < max_handles
      → IsValid t
      → pad_slot (s.handles.entries h) ≡ none
      → t.entries h ≡ record { type = input_device; payload = device d }
      → ((i : ℕ) → i ≢ h → t.entries i ≡ s.handles.entries i)
      → Added d s (h, record s { handles = t })
  refused : {t : Handles Payload} → SamePads s.handles t → Added d s (0, record s { handles = t })

module _ {W : Type 0} where
  -- What the lookup of a device reads, in the table.
  pub dev_get_lem :
      (s : Input W) (h : ℕ)
      → h ≢ 0
      → h < max_handles
      → dev_get s h ≡ (
          if same_type (type_at s.handles h) input_device
          then is_device (payload_at s.handles h)
          else none)
  unfolding dev_get valid
  dev_get_lem s h ne lt = ground (
    arith,
    same_type_iff (type_at s.handles h) input_device,
    same_type_iff (type_at s.handles h) free,
    same_type_iff input_device free,
    input_device≢free,
  )

  pub dev_get-inside :
      (s : Input W) (h : ℕ) {d : Device} → dev_get s h ≡ some d → (h ≢ 0) × (h < max_handles)
  unfolding dev_get valid
  dev_get-inside s h e = ground arith

  -- A device that is no gamepad stands for no slot.
  pub other-pad_slot :
      (s : Input W) (h : ℕ) {d : Device}
      → dev_get s h ≡ some d
      → (d.kind == role_gamepad) ≡ false
      → pad_slot (s.handles.entries h) ≡ none
  other-pad_slot s h {d} e ne =
      let (nz, lt) = dev_get-inside s h e in
      elim (Bool-cases (same_type (type_at s.handles h) input_device)) [
        | inl is ↦
            let found : is_device (payload_at s.handles h) ≡ some d =
              rw is at (sym (dev_get_lem s h nz lt) ∙ e) in
            rw (is, found, ne) refl
        | inr is ↦ rw is refl
      ]

  pub dev_alloc-Added : (d : Device) (s : Input W) → IsValid s.handles → Added d s (dev_alloc d s)
  unfolding dev_alloc
  dev_alloc-Added d s v = go refl (alloc-Outcome zeroed s.handles input_device v)
    where
      go :
          {q : ℕ × Handles Payload}
          → alloc zeroed s.handles input_device ≡ q
          → Outcome zeroed s.handles input_device q
          → Added d s (dev_alloc d s)
      go e (took {h} {t' = t} a) =
          let apart : (h == 0) ≡ false = ground (arith, a.above_streams) in
          rw (dev_alloc, e, apart)
            (added a.above_streams a.in_table (record { low = a.keeps.low; high = a.keeps.high })
              (free-pad_slot (s.handles.entries h) a.was_free)
              (update_self t.entries h _
                ∙ ap (λ k. record { type = k; payload = device d }) a.has_type)
              (λ i ne. update_ne t.entries h _ i ne ∙ a.others i ne))
      go e (full f) =
          rw (dev_alloc, e)
            (refused
              (record { cursor = record { low = v.low; high = v.high }; same = λ h lt. refl }))

-- A freed entry that was no gamepad's.
pub release-SamePads :
    (t : Handles Payload) (h : ℕ)
    → IsValid t
    → h ≢ 0
    → h < max_handles
    → pad_slot (t.entries h) ≡ none
    → SamePads t (release zeroed t h)
release-SamePads t h v ne lt was =
    let (freed, others) = release-entries t h ne lt in
    let kept = release-IsValid zeroed t h v in
    record {
      cursor = record { low = kept.low; high = kept.high };
      same = λ i inside. elim (ℕ_discrete i h) [
        | yes same ↦
            ap (λ j. pad_slot ((release zeroed t h).entries j)) same
            ∙ (free-pad_slot ((release zeroed t h).entries h) freed ∙ sym was)
            ∙ sym (ap (λ j. pad_slot (t.entries j)) same)
        | no apart ↦ ap pad_slot (others i apart)
      ];
    }
