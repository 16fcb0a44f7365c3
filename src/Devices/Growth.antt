-- ===== src/Devices/Growth.antt =====
-- The growth of the table of displays.
use wapi.Base.{
  ℕ, zero, suc, ◌+◌, ◌*◌, ◌^◌, ◌≤◌, ◌<◌, ◌≡◌, refl, ap, inl, inr, Bool, true, false, [], ◌∷◌, ◌++◌,
  length, leb, ltb, ◌==◌, if◌then◌else◌, Bool-cases, arith,
}
use wapi.Abi.{u32, is_neg}
use wapi.Devices.{Entry, Devices, double, reserve, add_entry}

-- There is always room for more.
abbrev pub Roomy : (ℕ → Bool) → Type 0
Roomy realloc = (n : ℕ) → realloc n ≡ true

-- Below 2 ^ 30 entries no int overflows, and the rounds that the loop is given are enough.
double_enough :
    (fuel cap need : ℕ)
    → 0 < cap
    → cap < 2 ^ 31
    → need ≤ 2 ^ 30
    → need ≤ fuel + cap
    → need ≤ double fuel cap need
double_enough zero cap need pos int small h = omega arith
double_enough (suc fuel) cap need pos int small h =
    let positive : is_neg cap ≡ false = ground arith in
    elim (Bool-cases (ltb cap need)) [
      | inl lt ↦
          let same : u32 (cap * 2) ≡ cap * 2 = ground arith in
          rw (positive, lt, same)
            (double_enough fuel (cap * 2) need (omega arith) (ground arith) small (ground arith))
      | inr ge ↦ rw (positive, ge) (ground arith)
    ]

-- For up to 2 ^ 30 entries the doubling loop of `ddb_reserve` ends within `need` rounds: where
-- `realloc` gives the room, `reserve` answers true, and the table then has room for `need`
-- entries and its entries as before.
pub reserve_lem :
    (realloc : ℕ → Bool) (need : ℕ) (t : Devices)
    → Roomy realloc
    → need ≤ 2 ^ 30
    → ((reserve realloc need t).0 ≡ true)
      × (need ≤ (reserve realloc need t).1.capacity)
      × ((reserve realloc need t).1.entries ≡ t.entries)
unfolding reserve
reserve_lem realloc need t room small = elim (Bool-cases (leb need t.capacity)) [
  | inl h ↦ rw (reserve, h) (refl, ground arith, refl)
  | inr h ↦
      let start = if t.capacity == 0 then 128 else t.capacity in
      let pos : 0 < start = ground arith in
      let int : start < 2 ^ 31 = ground arith in
      rw (reserve, h, room (double need start need))
        (refl, double_enough need start need pos int small (omega arith), refl)
]

pub add_entry-entries :
    (realloc : ℕ → Bool) (e : Entry) (t : Devices)
    → Roomy realloc
    → length t.entries < 2 ^ 30
    → (add_entry realloc e t).entries ≡ t.entries ++ e ∷ []
unfolding add_entry
add_entry-entries realloc e t room small =
    let (yes_room, _, same) = reserve_lem realloc (length t.entries + 1) t room (omega arith) in
    rw (add_entry, yes_room) (ap (λ es. es ++ e ∷ []) same)
