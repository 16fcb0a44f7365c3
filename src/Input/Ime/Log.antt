-- ===== src/Input/Ime/Log.antt =====
-- The store as a log of which the last eight entries can be read.
use wapi.Base.{
  ℕ, ◌+◌, ◌-◌, ◌*◌, ◌/◌, ◌%◌, ◌≤◌, ◌<◌, ◌≡◌, refl, sym, ap, ◌∙◌, ◌≢◌, ◌&&◌, inl, inr, Bool, true,
  false, none, some, List, [], ◌∷◌, length, take, leb, ltb, ◌==◌, ==_iff, if◌then◌else◌,
  update_self, update_ne, ℕ_discrete, Bool-cases, Option-cases, dec_lt, find_from, find_from-Found,
  find_from-none, arith,
}
use wapi.Input.{ImeSlot, ImeStore, Segment}
use wapi.Input.Ime.{ime_slots, slot_for, text_max, alloc_event, find}

-- What an IME event brings.
pub record Commit : Type 0 where
  pub text : List ℕ
  pub text_len : ℕ
  pub cursor : ℕ
  pub flags : ℕ
  pub segments : List Segment

-- What the host keeps of an event: the front of its text below 1023 bytes or up to them, its first 32
-- segments, and all else as it came.
abbrev pub slot_of : ℕ → Commit → ImeSlot
slot_of seq c = record {
  seq = seq;
  text = if leb 1024 c.text_len then take 1023 c.text else take c.text_len c.text;
  text_len = c.text_len;
  cursor = c.cursor;
  flags = c.flags;
  segments = take 32 c.segments;
}

slot_of-slot_for :
    (seq : ℕ) (c : Commit)
    → slot_for seq c.text c.text_len c.cursor c.flags c.segments ≡ slot_of seq c
slot_of-slot_for seq c = elim (Bool-cases (leb 1024 c.text_len)) [
  | inl long ↦ let cut : ltb c.text_len text_max ≡ false = ground arith in rw (long, cut) refl
  | inr short ↦ let whole : ltb c.text_len text_max ≡ true = ground arith in rw (short, whole) refl
]

-- `s_ime_slots` and `s_ime_next_seq` at the start
abbrev pub empty_store : ImeStore
empty_store = record {
  slots = λ i. record { seq = 0; text = []; text_len = 0; cursor = 0; flags = 0; segments = [] };
  next_seq = 1;
}

-- The store after a history of events, the newest first.
unfoldable pub store_after : List Commit → ImeStore
store_after [] = empty_store
store_after (c ∷ older) =
    (alloc_event c.text c.text_len c.cursor c.flags c.segments (store_after older)).1

-- The event with a number, in a history with the newest first; the numbers count from 1.
unfoldable pub entry : List Commit → ℕ → ImeSlot
entry [] seq = empty_store.slots 0
entry (c ∷ older) seq = if seq == length older + 1 then slot_of seq c else entry older seq

-- The number is that of one of the last eight events.
abbrev pub is_recent : List Commit → ℕ → Bool
is_recent history seq =
    ltb 0 seq && (leb seq (length history) && ltb (length history) (seq + ime_slots))

record Holds (n : ℕ) (log : ℕ → ImeSlot) (st : ImeStore) : Type 0 where
  next : st.next_seq ≡ n + 1
  stamped : (k : ℕ) → 0 < k → k ≤ n → (log k).seq ≡ k
  held : (k : ℕ) → 0 < k → k ≤ n → n < k + ime_slots → st.slots ((k - 1) % ime_slots) ≡ log k
  idle : (i : ℕ) → i < ime_slots → n ≤ i → (st.slots i).seq ≡ 0

alloc_event-Holds :
    (n : ℕ) (log : ℕ → ImeSlot) (st : ImeStore) (c : Commit)
    → Holds n log st
    → Holds
        (n + 1)
        (λ k. if k == n + 1 then slot_of k c else log k)
        (alloc_event c.text c.text_len c.cursor c.flags c.segments st).1
unfolding alloc_event
alloc_event-Holds n log st c h = record {
  next = omega (arith, h.next);
  stamped = λ k pos le. elim (ℕ_discrete k (n + 1)) [
    | yes e ↦ let hit : (k == n + 1) ≡ true = ground arith in rw hit refl
    | no ne ↦
        let miss : (k == n + 1) ≡ false = ground arith in rw miss (h.stamped k pos (omega arith))
  ];
  held = λ k pos le recent. elim (ℕ_discrete k (n + 1)) [
    | yes e ↦
        let hit : (k == n + 1) ≡ true = ground arith in
        let same : st.next_seq ≡ k = omega (arith, h.next) in
        rw (hit, same) (update_self st.slots ((k - 1) % ime_slots) _ ∙ slot_of-slot_for k c)
    | no ne ↦
        let miss : (k == n + 1) ≡ false = ground arith in
        rw miss (
          update_ne st.slots ((st.next_seq - 1) % ime_slots) _ ((k - 1) % ime_slots)
            (λ e. omega (arith, h.next))
          ∙ h.held k pos (omega arith) (omega arith))
  ];
  idle = λ i lt le.
      ap (λ s. s.seq)
        (update_ne st.slots ((st.next_seq - 1) % ime_slots) _ i (λ e. omega (arith, h.next)))
      ∙ h.idle i lt (omega arith);
}

store_after-Holds :
    (history : List Commit) → Holds (length history) (entry history) (store_after history)
unfolding store_after entry
store_after-Holds [] = record {
  next = refl;
  stamped = λ k pos le. absurd (omega arith);
  held = λ k pos le recent. absurd (omega arith);
  idle = λ i lt le. refl;
}
store_after-Holds (c ∷ older) =
    let h =
      alloc_event-Holds (length older) (entry older) (store_after older) c
        (store_after-Holds older) in
    record {
      next = omega (arith, h.next);
      stamped = λ k pos le. h.stamped k pos (omega arith);
      held = λ k pos le recent. h.held k pos (omega arith) (omega arith);
      idle = λ i lt le. h.idle i lt (omega arith);
    }

-- Each slot is idle, or holds one of the last eight events.
slot-cases :
    (n : ℕ) (log : ℕ → ImeSlot) (st : ImeStore) (i : ℕ)
    → Holds n log st
    → i < ime_slots
    → (st.slots i).seq ≢ 0
    → (0 < (st.slots i).seq)
      × ((st.slots i).seq ≤ n)
      × (n < (st.slots i).seq + ime_slots)
      × (st.slots i ≡ log (st.slots i).seq)
slot-cases n log st i h lt ne = elim (dec_lt i n) [
  | no le ↦ absurd (ne (h.idle i lt (omega arith)))
  | yes used ↦
      let k = (i + 1) + ime_slots * ((n - (i + 1)) / ime_slots) in
      let pos : 0 < k = omega arith in
      let le : k ≤ n = omega arith in
      let recent : n < k + ime_slots = omega arith in
      let at_i : (k - 1) % ime_slots ≡ i = omega arith in
      let slot : st.slots i ≡ log k = ap st.slots (sym at_i) ∙ h.held k pos le recent in
      let here : (st.slots i).seq ≡ k = ap (λ s. s.seq) slot ∙ h.stamped k pos le in
      (omega (arith, here), omega (arith, here), omega (arith, here), slot ∙ ap log (sym here))
]

-- After any history of IME events, from an empty store on, `ime_find` of a number finds what the
-- host keeps of that event if it is one of the last eight, and nothing otherwise, even if an
-- older one has not been delivered yet; the numbers count the events from 1.
pub find-store_after :
    (history : List Commit) (seq : ℕ)
    → find seq (store_after history)
      ≡ (if is_recent history seq then some (entry history seq) else none)
unfolding find
find-store_after history seq =
    let n = length history in
    let st = store_after history in
    let h = store_after-Holds history in
    let p = λ (i : ℕ). (st.slots i).seq == seq in
    elim (ℕ_discrete seq 0) [
      | yes e ↦ rw e refl
      | no ne ↦
          let nonzero : (seq == 0) ≡ false = ground arith in
          elim (Option-cases (find_from p 0 ime_slots)) [
            | inr (j, e) ↦
                let f = find_from-Found p 0 ime_slots j e in
                let same : (st.slots j).seq ≡ seq = (==_iff (st.slots j).seq seq).0 f.hit in
                let (pos, le, recent, slot) =
                  slot-cases n (entry history) st j h (omega (arith, f.high))
                    (λ z. ne (sym same ∙ z)) in
                let live : is_recent history seq ≡ true = ground (arith, same) in
                rw (nonzero, e, live) (ap some (slot ∙ ap (entry history) same))
            | inl e ↦ elim (Bool-cases (is_recent history seq)) [
              | inr old ↦ rw (nonzero, e, old) refl
              | inl live ↦
                  let miss =
                    find_from-none p 0 ime_slots e ((seq - 1) % ime_slots) (omega arith)
                      (omega arith) in
                  let pos : 0 < seq = omega arith in
                  let le : seq ≤ n = ground arith in
                  let recent : n < seq + ime_slots = ground arith in
                  let same = ap (λ s. s.seq) (h.held seq pos le recent) ∙ h.stamped seq pos le in
                  absurd (ground (arith, miss, same))
            ]
          ]
    ]
