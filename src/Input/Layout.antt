-- ===== src/Input/Layout.antt =====
-- The layouts of events in runtime/desktop/src/wapi_host_input.c, those of wapi.h, and what the tokens in
-- an event of the platform stand for.
use wapi.Base.{
  ℕ, ◌-◌, ◌&&◌, Bool, false, Option, none, some, List, [], ◌∷◌, ◌++◌, length, replicate, find_from,
  ◌==◌,
}
use wapi.Base.Bytes.{to_le}
use wapi.Handles.{Handles, menu, tray, same_type, max_handles, type_at, payload_at}
use wapi.EventQueue.{Event}
use wapi.Input.{Input, Payload, menu_of, tray_of}
use wapi.Input.Platform.{Phase, down, up, motion}

-- `ev_header`, the fields behind it from offset 16 on, and zeros up to 128 bytes.
unfoldable pub event : ℕ → ℕ → ℕ → List ℕ → Event
event type sid ts fields =
    to_le 4 type ++ (to_le 4 sid ++ (to_le 8 ts ++ (fields ++ replicate (112 - length fields) 0)))

-- 0.5 and 1.0 as floats
abbrev pub half : ℕ
half = 0x3F000000

abbrev pub one : ℕ
one = 0x3F800000

-- What `push_pointer` is given.
pub record PointerEvent : Type 0 where
  pub type : ℕ
  pub pointer_id : ℕ
  pub pointer_type : ℕ
  pub button : ℕ
  pub buttons : ℕ
  pub x : ℕ
  pub y : ℕ
  pub dx : ℕ
  pub dy : ℕ
  pub pressure : ℕ
  pub tilt_x : ℕ
  pub tilt_y : ℕ
  pub twist : ℕ

abbrev pub pointer_fields : PointerEvent → List ℕ
pointer_fields p =
    to_le 4 p.pointer_id
    ++ (p.pointer_type ∷ p.button ∷ p.buttons ∷ 0 ∷ []
        ++ (to_le 4 p.x
            ++ (to_le 4 p.y
                ++ (to_le 4 p.dx
                    ++ (to_le 4 p.dy
                        ++ (to_le 4 p.pressure
                            ++ (to_le 4 p.tilt_x
                                ++ (to_le 4 p.tilt_y
                                    ++ (to_le 4 p.twist ++ (to_le 4 one ++ to_le 4 one))))))))))

abbrev pub of_phase : Phase → ℕ → ℕ → ℕ → ℕ
of_phase down a b c = a
of_phase up a b c = b
of_phase motion a b c = c

-- `btn_state`: 0 when it goes up
abbrev pub touching : Phase → ℕ
touching up = 0
touching _ = 1

abbrev menu_token : Payload → Option ℕ
menu_token (menu_of plat token) = some token
menu_token _ = none

abbrev tray_token : Payload → Option ℕ
tray_token (tray_of plat token menu_handle) = some token
tray_token _ = none

abbrev is_token : ℕ → Option ℕ → Bool
is_token token none = false
is_token token (some t) = t == token

abbrev handle_or_0 : Option ℕ → ℕ
handle_or_0 none = 0
handle_or_0 (some i) = i

-- `handle_from_menu_token` and `handle_from_tray_token`
unfoldable pub menu_handle : Handles Payload → ℕ → ℕ
menu_handle t token = handle_or_0 (
    find_from (λ i. same_type (type_at t i) menu && is_token token (menu_token (payload_at t i))) 1
      (max_handles - 1))

unfoldable pub tray_handle : Handles Payload → ℕ → ℕ
tray_handle t token = handle_or_0 (
    find_from (λ i. same_type (type_at t i) tray && is_token token (tray_token (payload_at t i))) 1
      (max_handles - 1))

-- The fields of `wapi_ime_event_t`
abbrev pub ime_fields : ℕ → ℕ → ℕ → ℕ → ℕ → List ℕ
ime_fields seq len cursor segment_count flags =
    to_le 8 seq ++ (to_le 4 len ++ (to_le 4 cursor ++ (to_le 4 segment_count ++ (flags ∷ []))))

abbrev pub uid_or_zeros : Option (List ℕ) → List ℕ
uid_or_zeros none = replicate 16 0
uid_or_zeros (some uid) = uid

-- The first eight bytes of a mouse event's fields: the mouse, and four bytes.
abbrev pub with_mouse : {W : Type 0} → Input W → List ℕ → List ℕ
with_mouse s rest = to_le 4 s.minted.mouse ++ rest
