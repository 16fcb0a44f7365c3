-- ===== src/Input/Ime/Reading.antt =====
-- What a guest reads of an IME event while it is in the store.
use wapi.Base.{
  ℕ, ◌+◌, ◌-◌, ◌≤◌, ◌<◌, ◌≡◌, refl, sym, ap, ◌∙◌, ◌||◌, inl, inr, true, false, some, List, [], ◌∷◌,
  ◌++◌, length, length-append, take, take_over, length-take, ltb, leb, ◌==◌, ==_refl, if◌then◌else◌,
  Bool-cases, arith,
}
use wapi.Abi.{ok}
use wapi.Guest.{Guest, memory_size, peek, poke, write_u32}
use wapi.Guest.Access.{wasm_ptr_complete}
use wapi.Guest.Wrote.{poke-Wrote}
use wapi.Input.{Input, ImeSlot}
use wapi.Input.Ime.{
  ime_slots, text_max, find, copy_size, put_length, read_code, read_slot, read_text,
}
use wapi.Input.Ime.Log.{Commit, slot_of, store_after, entry, is_recent, find-store_after}

-- An event with newer ones in front of it.
entry_behind :
    (newer older : List Commit) (c : Commit)
    → entry (newer ++ c ∷ older) (length older + 1) ≡ slot_of (length older + 1) c
unfolding entry
entry_behind [] older c = rw (==_refl (length older + 1)) refl
entry_behind (d ∷ newer) older c =
    let later : (length older + 1 == length (newer ++ c ∷ older) + 1) ≡ false =
      ground (arith, length-append newer (c ∷ older)) in
    rw later (entry_behind newer older c)

find-behind :
    (newer older : List Commit) (c : Commit)
    → length newer < ime_slots
    → find (length older + 1) (store_after (newer ++ c ∷ older))
      ≡ some (slot_of (length older + 1) c)
find-behind newer older c few =
    let live : is_recent (newer ++ c ∷ older) (length older + 1) ≡ true =
      ground (arith, length-append newer (c ∷ older)) in
    find-store_after (newer ++ c ∷ older) (length older + 1)
    ∙ rw live (ap some (entry_behind newer older c))

-- The front of a text that a slot has room for.
unfoldable pub front : List ℕ → List ℕ
front text = take (text_max - 1) text

stored_front :
    (text : List ℕ)
    → (if leb 1024 (length text) then take 1023 text else take (length text) text) ≡ front text
unfolding front
stored_front text = elim (Bool-cases (leb 1024 (length text))) [
  | inl long ↦ rw long refl
  | inr short ↦ rw short (
      take_over (length text) text (omega arith)
      ∙ sym (take_over (text_max - 1) text (ground arith)))
]

length-front :
    (text : List ℕ)
    → length (front text) ≡ (if ltb (length text) (text_max - 1) then length text else text_max - 1)
unfolding front
length-front text = elim (Bool-cases (ltb (length text) (text_max - 1))) [
  | inl short ↦ rw short (ap length (take_over (text_max - 1) text (ground arith)))
  | inr long ↦ rw long (length-take (text_max - 1) text (ground arith))
]

put_length-same :
    (slot : ImeSlot) (out_ptr : ℕ) (m : Guest)
    → ((put_length slot out_ptr m).memory_valid ≡ m.memory_valid)
      × (memory_size (put_length slot out_ptr m) ≡ memory_size m)
unfolding put_length write_u32 memory_size
put_length-same slot out_ptr m = ground arith

copy_size-room :
    (n k buf_len : ℕ)
    → k ≡ (if ltb n (text_max - 1) then n else text_max - 1)
    → n ≤ buf_len
    → copy_size n buf_len ≡ k
unfolding copy_size
copy_size-room n k buf_len measure room = ground arith

module _ {W : Type 0} where
  -- A slot that holds as much of a text of length `n` as it has room for, read into a buffer with
  -- room for the text.
  read_slot-kept :
      (slot : ImeSlot) (t : List ℕ) (n buf_ptr buf_len out_ptr : ℕ) (s : Input W)
      → slot.text ≡ t
      → slot.text_len ≡ n
      → length t ≡ (if ltb n (text_max - 1) then n else text_max - 1)
      → 0 < n
      → 0 < buf_ptr
      → n ≤ buf_len
      → s.guest.memory_valid ≡ true
      → buf_ptr + n ≤ memory_size s.guest
      → read_slot slot buf_ptr buf_len out_ptr s
        ≡ (ok, record s { guest = poke (put_length slot out_ptr s.guest) buf_ptr t })
  unfolding read_slot
  read_slot-kept slot t n buf_ptr buf_len out_ptr s kept len measure some_text here room valid
        inside =
      let (same_valid, same_size) = put_length-same slot out_ptr s.guest in
      let le : length t ≤ n = ground (arith, measure) in
      let some_kept : 0 < length t = ground (arith, measure) in
      let copy =
        ap (λ k. copy_size k buf_len) len ∙ copy_size-room n (length t) buf_len measure room in
      let code : read_code slot buf_len ≡ ok = unfold read_code in ground arith in
      let wanted : (length t == 0 || buf_ptr == 0) ≡ false = ground arith in
      let ptr =
        wasm_ptr_complete (put_length slot out_ptr s.guest) buf_ptr (length t) (same_valid ∙ valid)
          (λ e. omega arith) (omega (arith, same_size)) in
      let taken : take (copy_size slot.text_len buf_len) slot.text ≡ t =
        ap (λ k. take k slot.text) copy
        ∙ ap (take (length t)) kept
        ∙ take_over (length t) t (omega arith) in
      rw (read_slot, copy, wanted, ptr, code, taken) refl

  -- In the store after a history of IME events, the text of an event with at most seven newer
  -- ones, not empty and with its own length given, is read back by `ime_read_text`, into a buffer
  -- not at 0, at least as long as the text and inside a memory that is present: the call answers
  -- OK, and the buffer starts with the text, or with its first 1023 bytes if it is longer.
  pub read_text-commit :
      (newer older : List Commit) (c : Commit) (buf_ptr buf_len out_ptr : ℕ) (s : Input W)
      → s.ime ≡ store_after (newer ++ c ∷ older)
      → length newer < ime_slots
      → c.text_len ≡ length c.text
      → 0 < length c.text
      → 0 < buf_ptr
      → length c.text ≤ buf_len
      → s.guest.memory_valid ≡ true
      → buf_ptr + length c.text ≤ memory_size s.guest
      → ((read_text (length older + 1) buf_ptr buf_len out_ptr s).0 ≡ ok)
        × (peek
              (read_text (length older + 1) buf_ptr buf_len out_ptr s).1.guest
              buf_ptr
              (length (front c.text))
            ≡ front c.text)
  unfolding read_text read_slot
  read_text-commit newer older c buf_ptr buf_len out_ptr s store few len some_text here room valid
        inside =
      let found = ap (find (length older + 1)) store ∙ find-behind newer older c few in
      let slot = slot_of (length older + 1) c in
      let kept : slot.text ≡ front c.text =
        ap (λ n. if leb 1024 n then take 1023 c.text else take n c.text) len
        ∙ stored_front c.text in
      let read =
        read_slot-kept slot (front c.text) (length c.text) buf_ptr buf_len out_ptr s kept len
          (length-front c.text) some_text here room valid inside in
      rw (read_text, found, read)
        (refl, (poke-Wrote (put_length slot out_ptr s.guest) buf_ptr (front c.text)).content)
