-- ===== src/Io/Completion/Layout.antt =====
-- The fields of a completion event, read back at their offsets.
use wapi.Base.{
  ℕ, ◌^◌, ◌<◌, ◌≡◌, refl, take, drop, length, arith, if◌then◌else◌, Bool-cases, inl, inr, replicate,
}
use Prim.Native.Nat.{bit_or}
use wapi.Base.Bytes.{from_le, from_le-to_le}
use wapi.EventQueue.{Event}
use wapi.Runtime.{OpCtx}
use wapi.Io.Completion.{completion_event, cqe_f_inline, event_io_completion}

-- The integer of `n` bytes at offset `k` of an event.
unfoldable pub event_field : Event → ℕ → ℕ → ℕ
event_field ev k n = from_le (take n (drop k ev))

-- The flags that a completion reports.
abbrev pub flags_of : OpCtx → ℕ
flags_of c = if c.inline_payload then bit_or c.cqe_flags cqe_f_inline else c.cqe_flags

-- The fields of `c` are as wide as in C.
pub record FitsWidths (ts : ℕ) (c : OpCtx) : Type 0 where
  pub time_fits : ts < 2 ^ 64
  pub result_fits : c.result < 2 ^ 32
  pub flags_fit : flags_of c < 2 ^ 32
  pub user_data_fits : c.user_data < 2 ^ 64
  pub payload_fits : length c.payload ≡ 96

-- For a time, result, flags, user data and inline payload of the widths that they have in C, the
-- event of a completion has 128 bytes, and holds its type, time, result, flags and user data as
-- little-endian integers at the offsets 0, 8, 16, 20 and 24.
pub completion_event-fields :
    (ts : ℕ) (c : OpCtx)
    → FitsWidths ts c
    → (event_field (completion_event ts c) 0 4 ≡ event_io_completion)
      × (event_field (completion_event ts c) 8 8 ≡ ts)
      × (event_field (completion_event ts c) 16 4 ≡ c.result)
      × (event_field (completion_event ts c) 20 4 ≡ flags_of c)
      × (event_field (completion_event ts c) 24 8 ≡ c.user_data)
      × (length (completion_event ts c) ≡ 128)
unfolding completion_event event_field
completion_event-fields ts c w = (
  refl,
  from_le-to_le 8 ts w.time_fits,
  from_le-to_le 4 c.result w.result_fits,
  from_le-to_le 4 (flags_of c) w.flags_fit,
  from_le-to_le 8 c.user_data w.user_data_fits,
  omega (arith, payload_length c w.payload_fits),
)
  where
    payload_length :
        (c : OpCtx)
        → length c.payload ≡ 96
        → length (if c.inline_payload then c.payload else replicate 96 0) ≡ 96
    payload_length c h = elim (Bool-cases c.inline_payload) [ inl e ↦ rw e h | inr e ↦ rw e refl ]
