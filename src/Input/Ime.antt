-- ===== src/Input/Ime.antt =====
-- The IME store of runtime/desktop/src/wapi_host_input.c: eight slots, taken in turn, for the text that an
-- event announces by its sequence number.
pub mod Log
pub mod Reading
use wapi.Base.{
  ℕ, zero, suc, ◌+◌, ◌-◌, ◌%◌, ◌||◌, not, Bool, true, false, Option, none, some, List, [], ◌∷◌,
  ◌++◌, length, take, get_or, update, find_from, leb, ltb, ◌==◌, if◌then◌else◌,
}
use wapi.Base.Bytes.{to_le}
use wapi.Abi.{ok, err_badf, err_inval, err_noent, err_range, u64_mod}
use wapi.Guest.{Guest, wasm_ptr, poke, write_bytes, write_u32}
use wapi.Handles.{surface, valid, payload_at}
use wapi.Input.{Input, ImeSlot, ImeStore, Segment, window_at}
use wapi.Input.Platform.{Platform}

abbrev pub ime_slots : ℕ
ime_slots = 8

abbrev pub text_max : ℕ
text_max = 1024

abbrev pub segs_max : ℕ
segs_max = 32

abbrev no_segment : Segment
no_segment = record { start = 0; length = 0; flags = 0 }

-- What a slot holds of an event: of a text of 1024 bytes or more the first 1023, and its own length.
abbrev pub slot_for : ℕ → List ℕ → ℕ → ℕ → ℕ → List Segment → ImeSlot
slot_for seq text len cursor flags segments = record {
  seq = seq;
  text = take (if ltb len text_max then len else text_max - 1) text;
  text_len = len;
  cursor = cursor;
  flags = flags;
  segments = take segs_max segments;
}

-- `ime_alloc_event`; the 64-bit number does not wrap in practice, and here it does not wrap at all.
unfoldable pub alloc_event : List ℕ → ℕ → ℕ → ℕ → List Segment → ImeStore → ℕ × ImeStore
alloc_event text len cursor flags segments st =
    let seq = st.next_seq in
    (
      seq,
      record {
        slots =
            update st.slots ((seq - 1) % ime_slots) (slot_for seq text len cursor flags segments);
        next_seq = seq + 1;
      },
    )

-- `ime_find`
unfoldable pub find : ℕ → ImeStore → Option ImeSlot
find seq st =
    if seq == 0 then none else elim (find_from (λ i. (st.slots i).seq == seq) 0 ime_slots) [
      | none ↦ none
      | some i ↦ some (st.slots i)
    ]

-- The twelve bytes of `wapi_ime_segment_t`
abbrev segment_bytes : Segment → List ℕ
segment_bytes g = to_le 4 g.start ++ (to_le 4 g.length ++ to_le 4 g.flags)

-- How much of a text of that length is copied into a buffer.
unfoldable pub copy_size : ℕ → ℕ → ℕ
copy_size text_len buf_len =
    let avail = if ltb text_len (text_max - 1) then text_len else text_max - 1 in
    if ltb avail buf_len then avail else buf_len

-- The length goes out where the guest wants it.
unfoldable pub put_length : ImeSlot → ℕ → Guest → Guest
put_length slot out_ptr m = if out_ptr == 0 then m else (write_u32 m out_ptr slot.text_len).1

unfoldable pub read_code : ImeSlot → ℕ → ℕ
read_code slot buf_len = if ltb buf_len slot.text_len then err_range else ok

module _ {W : Type 0} where
  -- `h_ime_read_text`, with the slot
  unfoldable pub read_slot : ImeSlot → ℕ → ℕ → ℕ → Input W → ℕ × Input W
  read_slot slot buf_ptr buf_len out_ptr s =
      let m = put_length slot out_ptr s.guest in
      let copy = copy_size slot.text_len buf_len in
      if copy == 0 || buf_ptr == 0
      then (read_code slot buf_len, record s { guest = m })
      else elim (wasm_ptr m buf_ptr copy) [
        | none ↦ (err_inval, record s { guest = m })
        | some dst ↦ (read_code slot buf_len, record s { guest = poke m dst (take copy slot.text) })
      ]

  -- `h_ime_read_text`
  unfoldable pub read_text : ℕ → ℕ → ℕ → ℕ → Input W → ℕ × Input W
  read_text seq buf_ptr buf_len out_ptr s = elim (find seq s.ime) [
    | none ↦ (err_noent, s)
    | some slot ↦ read_slot slot buf_ptr buf_len out_ptr s
  ]

  -- `h_ime_read_segment`
  unfoldable pub read_segment : ℕ → ℕ → ℕ → Input W → ℕ × Input W
  read_segment seq index out_ptr s = elim (find seq s.ime) [
    | none ↦ (err_noent, s)
    | some slot ↦
        if leb (length slot.segments) index
        then (err_range, s)
        else let (done, m) =
            write_bytes s.guest out_ptr (segment_bytes (get_or slot.segments index no_segment)) in
          (if done then ok else err_inval, record s { guest = m })
  ]

module _ {W : Type 0} (plat : Platform W) where
  -- What an import does to the window of a surface.
  unfoldable pub on_surface : ℕ → (W → ℕ → W) → Input W → ℕ × Input W
  on_surface sh act s =
      if not (valid s.handles sh surface)
      then (err_badf, s)
      else (ok, record s { world = act s.world (window_at (payload_at s.handles sh)) })

  -- `h_start_textinput` and `h_stop_textinput`, which answer nothing
  abbrev pub start_textinput : ℕ → Input W → Input W
  start_textinput sh s = (on_surface sh plat.start_text_input s).1

  abbrev pub stop_textinput : ℕ → Input W → Input W
  stop_textinput sh s = (on_surface sh plat.stop_text_input s).1

  -- `h_ime_enable`, `h_ime_disable`, `h_ime_commit_force` and `h_ime_cancel`
  abbrev pub enable : ℕ → Input W → ℕ × Input W
  enable sh s = on_surface sh plat.start_text_input s

  abbrev pub disable : ℕ → Input W → ℕ × Input W
  disable sh s = on_surface sh plat.stop_text_input s

  abbrev pub commit_force : ℕ → Input W → ℕ × Input W
  commit_force sh s = on_surface sh plat.ime_force_commit s

  abbrev pub cancel : ℕ → Input W → ℕ × Input W
  cancel sh s = on_surface sh plat.ime_force_cancel s

  -- `h_ime_set_candidate_rect`
  abbrev pub set_candidate_rect : ℕ → ℕ → ℕ → ℕ → ℕ → Input W → ℕ × Input W
  set_candidate_rect sh x y w h s =
      on_surface sh
        (λ world win.
          plat.ime_set_candidate_rect world win (plat.float_round x) (plat.float_round y)
            (plat.float_round w) (plat.float_round h))
        s
