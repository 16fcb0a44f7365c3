-- ===== src/Input/Runs.antt =====
-- Every run of the input code keeps each gamepad slot and its handle paired.
use wapi.Base.{
  none≢some, inl, inr, ℕ, zero, suc, ◌<◌, ◌≡◌, refl, sym, ap, ◌∙◌, subst, ◌≢◌, ◌↔◌, Bool, true,
  false, Option, none, some, List, [], ◌∷◌, arith, ◌==◌, if◌then◌else◌, Bool-cases, Option-cases,
}
use wapi.Handles.{input_device, same_type, max_handles, type_at, payload_at}
use wapi.Handles.Alloc.{IsValid}
use wapi.Input.{Input, Device, is_device, gamepad_slots, dev_get}
use wapi.Input.Platform.{
  Platform, HidInfo, PlatEvent, Body, quit, window_close, window_focus, window_blur, window_show,
  window_hide, window_min, window_max, window_restore, window_resize, window_move, key, text_input,
  ime_start, ime_update, ime_cancel, mouse_motion, mouse_button, mouse_wheel, finger, pen,
  gpad_added, gpad_removed, gpad_axis, gpad_button, hotkey, menu_select, tray_click, tray_menu,
  drop_files, unknown,
}
use wapi.Input.Devices.{dev_alloc, init, resolve_role, close}
use wapi.Input.Devices.Bound.{
  IsBound, SamePads, pad_of, pad_slot, SamePads-IsBound, dev_get_lem, dev_get-inside,
}
use wapi.Input.Devices.Pairing.{
  Bound, Quiet, quiet, dev_alloc-Quiet, gamepad_for_slot-Bound, gamepad_free_slot-Bound, init-Bound,
  resolve_role-Bound, close-Bound,
}
use wapi.Input.Translate.{
  window_for, push_pointer, push_ime, on_added, on_removed, on_gamepad, on_preedit, translate_body,
  translate, translate_all, pump,
}
use wapi.Input.Pads.{slot_from_handle, pad_slot_of}
use wapi.Input.Hid.{hid_request_role, hid_device, open_first, grant}

-- No handle is a gamepad's, and no slot has one.
pub record IsFresh {W : Type 0} (s : Input W) : Type 0 where
  pub cursor : IsValid s.handles
  pub no_pads : (h : ℕ) → pad_slot (s.handles.entries h) ≡ none
  pub no_handles : (slot : ℕ) → s.minted.gamepads slot ≡ 0

-- What other imports and components leave as it is.
pub record Elsewhere {W : Type 0} (s s' : Input W) : Type 0 where
  pub handles : SamePads s.handles s'.handles
  pub gamepads : s'.minted.gamepads ≡ s.minted.gamepads

-- The state after any calls of the functions that touch device handles, from a fresh one on; other
-- code leaves the gamepads' entries and slots alone.
pub data Run {W : Type 0} (plat : Platform W) : Input W → Type 0 where
  started : (s : Input W) → IsFresh s → Run plat s
  initialised : {s : Input W} → Run plat s → Run plat (init plat s)
  translated : {s : Input W} (pe : PlatEvent) → Run plat s → Run plat (translate plat pe s)
  pumped : {s : Input W} (fuel : ℕ) → Run plat s → Run plat (pump plat fuel s)
  resolved :
      {s : Input W} (kind index : ℕ) → Run plat s → Run plat (resolve_role plat kind index s).1
  closed : {s : Input W} (h : ℕ) → Run plat s → Run plat (close plat h s).1
  requested :
      {s : Input W} (vendor product usage_page usage : ℕ)
      → Run plat s
      → Run plat (hid_request_role plat vendor product usage_page usage s).1
  elsewhere : {s : Input W} (s' : Input W) → Run plat s → Elsewhere s s' → Run plat s'

-- A slot's handle, and the slot that the imports find behind a handle.
pub record IsPaired {W : Type 0} (s : Input W) : Type 0 where
  pub paired :
      (h slot : ℕ)
      → h ≢ 0
      → slot < gamepad_slots
      → (s.minted.gamepads slot ≡ h) ↔ (slot_from_handle s h ≡ some slot)

-- The two readings of a device agree on the slots that exist.
agree :
    (slot : ℕ)
    → slot < gamepad_slots
    → (c : Bool) (o : Option Device)
    → (pad_slot_of (if c then o else none) ≡ some slot)
      ↔ ((if c then pad_of o else none) ≡ some slot)
agree slot lt false o = (λ e. e, λ e. e)
agree slot lt true none = (λ e. e, λ e. e)
agree slot lt true (some d) = (λ e. ground arith, λ e. ground arith)

module _ {W : Type 0} where
  IsFresh-Bound : (s : Input W) → IsFresh s → Bound s
  IsFresh-Bound s f = record {
    cursor = record { low = f.cursor.low; high = f.cursor.high };
    live = λ slot lt ne. absurd (ne (f.no_handles slot));
    owned = λ h slot lt e. absurd (let never = f.no_pads h in none≢some (sym never ∙ e));
  }

  slot_from_handle_lem :
      (s : Input W) (h slot : ℕ)
      → slot < gamepad_slots
      → h ≢ 0
      → h < max_handles
      → (slot_from_handle s h ≡ some slot) ↔ (pad_slot (s.handles.entries h) ≡ some slot)
  unfolding slot_from_handle
  slot_from_handle_lem s h slot lt ne inside = rw (dev_get_lem s h ne inside) (
      agree slot lt (same_type (type_at s.handles h) input_device)
        (is_device (payload_at s.handles h)))

  pub slot_from_handle-inside :
      (s : Input W) (h : ℕ) {k : ℕ}
      → slot_from_handle s h ≡ some k
      → (k < gamepad_slots) × ((h ≢ 0) × (h < max_handles))
  unfolding slot_from_handle
  slot_from_handle-inside s h {k} e = elim (Option-cases (dev_get s h)) [
    | inl missing ↦ absurd (none≢some (sym (ap pad_slot_of missing) ∙ e))
    | inr (d, found) ↦
        let (ne, inside) = dev_get-inside s h found in
        (pad_slot_of-inside d (sym (ap pad_slot_of found) ∙ e), (ne, inside))
  ]
    where
      pad_slot_of-inside : (d : Device) {k : ℕ} → pad_slot_of (some d) ≡ some k → k < gamepad_slots
      pad_slot_of-inside d e = ground arith

  Bound-IsPaired : (s : Input W) → Bound s → IsPaired s
  Bound-IsPaired s b = record {
    paired = λ h slot ne lt. (
      λ e.
          let bound : s.minted.gamepads slot ≢ 0 = λ z. ne (sym e ∙ z) in
          let (inside, here) = b.live slot lt bound in
          (slot_from_handle_lem s h slot lt ne (subst (λ i. i < max_handles) e inside)).1
            (sym (ap (λ i. pad_slot (s.handles.entries i)) e) ∙ here),
      λ e.
          let (k_in, (nonzero, inside)) = slot_from_handle-inside s h e in
          let (k_lt, (k_some, k_own)) =
            b.owned h slot inside ((slot_from_handle_lem s h slot lt ne inside).0 e) in
          k_own,
    );
  }

  preedit-Bound :
      (plat : Platform W) (type sid ts : ℕ) (s : Input W)
      → Bound s
      → Bound (on_preedit plat type sid ts s)
  unfolding on_preedit push_ime
  preedit-Bound plat type sid ts s b = elim (Bool-cases (window_for plat sid s == 0)) [
    | inl nothing ↦ rw nothing b
    | inr there ↦ rw there b
  ]

module _ {W : Type 0} (plat : Platform W) where
  translate_body-Bound :
      (body : Body) (sid ts : ℕ) (s : Input W) → Bound s → Bound (translate_body plat body sid ts s)
  unfolding translate_body push_pointer push_ime on_added on_removed on_gamepad
  translate_body-Bound quit sid ts s b = b
  translate_body-Bound window_close sid ts s b = b
  translate_body-Bound window_focus sid ts s b = b
  translate_body-Bound window_blur sid ts s b = b
  translate_body-Bound window_show sid ts s b = b
  translate_body-Bound window_hide sid ts s b = b
  translate_body-Bound window_min sid ts s b = b
  translate_body-Bound window_max sid ts s b = b
  translate_body-Bound window_restore sid ts s b = b
  translate_body-Bound (window_resize w h) sid ts s b = b
  translate_body-Bound (window_move x y) sid ts s b = b
  translate_body-Bound (key is_down scancode keycode mods down_byte repeat) sid ts s b = b
  translate_body-Bound (text_input text) sid ts s b = b
  translate_body-Bound ime_start sid ts s b = preedit-Bound plat 0x320 sid ts s b
  translate_body-Bound ime_update sid ts s b = preedit-Bound plat 0x321 sid ts s b
  translate_body-Bound ime_cancel sid ts s b = b
  translate_body-Bound (mouse_motion button_state x y xrel yrel) sid ts s b = b
  translate_body-Bound (mouse_button is_down button down_byte clicks x y) sid ts s b = b
  translate_body-Bound (mouse_wheel x y) sid ts s b = b
  translate_body-Bound (finger phase touch_id finger_id x y dx dy pressure) sid ts s b = b
  translate_body-Bound (pen phase pen_id tool button x y pressure tilt_x tilt_y twist distance) sid
        ts s b =
      b
  translate_body-Bound (gpad_added slot) sid ts s b = gamepad_for_slot-Bound slot s b
  translate_body-Bound (gpad_removed slot) sid ts s b = gamepad_free_slot-Bound slot _ b
  translate_body-Bound (gpad_axis slot axis axis_value) sid ts s b = gamepad_for_slot-Bound slot s b
  translate_body-Bound (gpad_button is_down slot button) sid ts s b =
      gamepad_for_slot-Bound slot s b
  translate_body-Bound (hotkey hotkey_id) sid ts s b = b
  translate_body-Bound (menu_select token item_id) sid ts s b = b
  translate_body-Bound (tray_click token item_id) sid ts s b = b
  translate_body-Bound (tray_menu token item_id) sid ts s b = b
  translate_body-Bound (drop_files x y) sid ts s b = b
  translate_body-Bound unknown sid ts s b = b

  translate-Bound : (pe : PlatEvent) (s : Input W) → Bound s → Bound (translate plat pe s)
  unfolding translate
  translate-Bound pe s b = translate_body-Bound pe.body _ pe.timestamp_ns s b

  translate_all-Bound :
      (pes : List PlatEvent) (s : Input W) → Bound s → Bound (translate_all plat pes s)
  unfolding translate_all
  translate_all-Bound [] s b = b
  translate_all-Bound (pe ∷ pes) s b =
      translate_all-Bound pes (translate plat pe s) (translate-Bound pe s b)

  pump-Bound : (fuel : ℕ) (s : Input W) → Bound s → Bound (pump plat fuel s)
  unfolding pump
  pump-Bound zero s b = b
  pump-Bound (suc fuel) s b = batch (pump-Bound fuel) (plat.poll_events s.world).0
    where
      batch :
          ((s' : Input W) → Bound s' → Bound (pump plat fuel s'))
          → (pes : List PlatEvent)
          → Bound (elim pes as (λ x. Input W) [
            | [] ↦ record s { world = (plat.poll_events s.world).1 }
            | pe ∷ pes ↦
                pump plat fuel (
                  translate_all plat (pe ∷ pes) (record s { world = (plat.poll_events s.world).1 }))
          ])
      batch rest [] = b
      batch rest (pe ∷ pes) =
          rest _
            (translate_all-Bound (pe ∷ pes) (record s { world = (plat.poll_events s.world).1 }) b)

  grant-Bound : (o : Option (ℕ × HidInfo)) (s : Input W) → Bound s → Bound (grant plat o s).1
  unfolding grant
  grant-Bound none s b = b
  grant-Bound (some (dev, info)) s b =
      go refl (dev_alloc-Quiet (hid_device info dev) s refl b.cursor)
    where
      go :
          {q : ℕ × Input W}
          → dev_alloc (hid_device info dev) s ≡ q
          → Quiet s q
          → Bound (grant plat (some (dev, info)) s).1
      go e (quiet {h} {t} same) = elim (Bool-cases (h == 0)) [
        | inl refused ↦ rw (grant, e, refused) (SamePads-IsBound same b)
        | inr given ↦ rw (grant, e, given) (SamePads-IsBound same b)
      ]

  hid_request_role-Bound :
      (vendor product usage_page usage : ℕ) (s : Input W)
      → Bound s
      → Bound (hid_request_role plat vendor product usage_page usage s).1
  unfolding hid_request_role
  hid_request_role-Bound vendor product usage_page usage s b =
      grant-Bound
        (open_first plat usage (plat.hid_enumerate s.world vendor product usage_page) s.world).0 _ b

  Run-Bound : {s : Input W} → Run plat s → Bound s
  Run-Bound (started s fresh) = IsFresh-Bound s fresh
  Run-Bound (initialised {s} run) = init-Bound plat s (Run-Bound run)
  Run-Bound (translated {s} pe run) = translate-Bound pe s (Run-Bound run)
  Run-Bound (pumped {s} fuel run) = pump-Bound fuel s (Run-Bound run)
  Run-Bound (resolved {s} kind index run) = resolve_role-Bound plat kind index s (Run-Bound run)
  Run-Bound (closed {s} h run) = close-Bound plat h s (Run-Bound run)
  Run-Bound (requested {s} vendor product usage_page usage run) =
      hid_request_role-Bound vendor product usage_page usage s (Run-Bound run)
  Run-Bound (elsewhere {s} s' run other) =
      subst (λ pads. IsBound s'.handles pads) (sym other.gamepads)
        (SamePads-IsBound other.handles (Run-Bound run))

  -- In every state of a run of the input code, from one without gamepads on, through any `init`,
  -- translations and pumps of platform events, grants of roles, requests of HID devices and calls
  -- of `close`, with any other changes in between that leave the gamepads' entries and slots
  -- alone, a slot below 16 has the handle, one that is not 0, exactly if
  -- `gamepad_slot_from_handle` finds this slot behind the handle.
  pub Run-IsPaired : {s : Input W} → Run plat s → IsPaired s
  Run-IsPaired {s} run = Bound-IsPaired s (Run-Bound run)
