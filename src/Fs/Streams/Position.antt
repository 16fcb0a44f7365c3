-- ===== src/Fs/Streams/Position.antt =====
-- The position of a stream under `pread` and `pwrite`, and what is left of a 64-bit offset.
use wapi.Base.{
  ℕ, ◌+◌, ◌^◌, ◌≡◌, ◌≢◌, refl, inl, inr, true, false, some, Bool-cases, Option-cases, arith,
}
use wapi.Abi.{ok, u32, err_inval}
use wapi.Guest.{peek}
use wapi.Fs.{
  CLib, Fs, Errno, errno_to_tp, enoent, eacces, eexist, enotdir, eisdir, enospc, enomem,
  enametoolong, enotempty, eio, ebadf, einval, ebusy, other_errno,
}
use wapi.Fs.Streams.{seek_set, file_of, buffer, pread, pwrite, seek}

-- What the C standard says of `fseek` with SEEK_SET and `ftell`: a call that succeeds sets the
-- position.
pub record FseekLaws {W : Type 0} (lib : CLib W) : Type 0 where
  pub sets :
      (w : W) (f pos : ℕ)
      → (lib.fseek w f pos seek_set).0 ≡ true
      → lib.ftell (lib.fseek w f pos seek_set).1 f ≡ pos

errno_to_tp≢ok : (e : Errno) → errno_to_tp e ≢ ok
unfolding errno_to_tp
errno_to_tp≢ok enoent h = omega arith
errno_to_tp≢ok eacces h = omega arith
errno_to_tp≢ok eexist h = omega arith
errno_to_tp≢ok enotdir h = omega arith
errno_to_tp≢ok eisdir h = omega arith
errno_to_tp≢ok enospc h = omega arith
errno_to_tp≢ok enomem h = omega arith
errno_to_tp≢ok enametoolong h = omega arith
errno_to_tp≢ok enotempty h = omega arith
errno_to_tp≢ok eio h = omega arith
errno_to_tp≢ok ebadf h = omega arith
errno_to_tp≢ok einval h = omega arith
errno_to_tp≢ok ebusy h = omega arith
errno_to_tp≢ok (other_errno n) h = omega arith

module _ {W : Type 0} (lib : CLib W) where
  -- The world `w'` after a transfer that began in `w`: the position of the stream is that before, or
  -- the call that was to set it back failed.
  pub data Restored (f : ℕ) (w w' : W) : Type 0 where
    kept : lib.ftell w' f ≡ lib.ftell w f → Restored f w w'
    not_restored :
        (moved : W)
        → (lib.fseek moved f (lib.ftell w f) seek_set).0 ≡ false
        → w' ≡ (lib.fseek moved f (lib.ftell w f) seek_set).1
        → Restored f w w'

  restore :
      (f : ℕ) (w moved : W)
      → FseekLaws lib
      → Restored f w (lib.fseek moved f (lib.ftell w f) seek_set).1
  restore f w moved laws = elim (Bool-cases (lib.fseek moved f (lib.ftell w f) seek_set).0) [
    | inl done ↦ kept (laws.sets moved f (lib.ftell w f) done)
    | inr failed ↦ not_restored moved failed refl
  ]

  pread-position :
      (fd buf_ptr len offset out : ℕ) (s : Fs W) {f : ℕ}
      → FseekLaws lib
      → file_of s fd ≡ some f
      → (pread lib fd buf_ptr len offset out s).0 ≡ ok
      → Restored f s.world (pread lib fd buf_ptr len offset out s).1.world
  unfolding pread
  pread-position fd buf_ptr len offset out s {f} laws file h =
      elim (Option-cases (buffer s.guest buf_ptr len)) [
        | inl e ↦
            let refused : err_inval ≡ ok = rw (pread, file, e) at h in
            absurd (omega (arith, refused))
        | inr (buf, e) ↦ elim (Bool-cases (lib.fseek s.world f (u32 offset) seek_set).0) [
          | inr m ↦
              let moved = (lib.fseek s.world f (u32 offset) seek_set).1 in
              absurd (errno_to_tp≢ok (lib.errno moved) (rw (pread, file, e, m) at h))
          | inl m ↦
              rw (pread, file, e, m)
                (restore f s.world (lib.fread (lib.fseek s.world f (u32 offset) seek_set).1 f len).1
                  laws)
        ]
      ]

  pwrite-position :
      (fd buf_ptr len offset out : ℕ) (s : Fs W) {f : ℕ}
      → FseekLaws lib
      → file_of s fd ≡ some f
      → (pwrite lib fd buf_ptr len offset out s).0 ≡ ok
      → Restored f s.world (pwrite lib fd buf_ptr len offset out s).1.world
  unfolding pwrite
  pwrite-position fd buf_ptr len offset out s {f} laws file h =
      elim (Option-cases (buffer s.guest buf_ptr len)) [
        | inl e ↦
            let refused : err_inval ≡ ok = rw (pwrite, file, e) at h in
            absurd (omega (arith, refused))
        | inr (buf, e) ↦ elim (Bool-cases (lib.fseek s.world f (u32 offset) seek_set).0) [
          | inr m ↦
              let moved = (lib.fseek s.world f (u32 offset) seek_set).1 in
              absurd (errno_to_tp≢ok (lib.errno moved) (rw (pwrite, file, e, m) at h))
          | inl m ↦
              rw (pwrite, file, e, m)
                (restore f s.world
                  (lib.fwrite (lib.fseek s.world f (u32 offset) seek_set).1 f
                    (peek s.guest buf len)).1
                  laws)
        ]
      ]

  -- With a `fseek` that sets the position where it succeeds, `pread` and `pwrite` on a file that
  -- answer OK leave its position as it was, unless the call that is to set it back fails; they
  -- answer OK then all the same.
  pub transfers-position :
      (fd buf_ptr len offset out : ℕ) (s : Fs W) {f : ℕ}
      → FseekLaws lib
      → file_of s fd ≡ some f
      → ((pread lib fd buf_ptr len offset out s).0 ≡ ok
          → Restored f s.world (pread lib fd buf_ptr len offset out s).1.world)
        × ((pwrite lib fd buf_ptr len offset out s).0 ≡ ok
            → Restored f s.world (pwrite lib fd buf_ptr len offset out s).1.world)
  transfers-position fd buf_ptr len offset out s laws file = (
    pread-position fd buf_ptr len offset out s laws file,
    pwrite-position fd buf_ptr len offset out s laws file,
  )

  -- `pread`, `pwrite` and `seek` do at an offset that is 2 ^ 32 larger what they do at the offset
  -- itself.
  offsets-wrap :
      (fd buf_ptr len offset whence out : ℕ) (s : Fs W)
      → (pread lib fd buf_ptr len (offset + 2 ^ 32) out s ≡ pread lib fd buf_ptr len offset out s)
        × (pwrite lib fd buf_ptr len (offset + 2 ^ 32) out s
            ≡ pwrite lib fd buf_ptr len offset out s)
        × (seek lib fd (offset + 2 ^ 32) whence out s ≡ seek lib fd offset whence out s)
  unfolding pread pwrite seek
  offsets-wrap fd buf_ptr len offset whence out s =
      let same : u32 (offset + 2 ^ 32) ≡ u32 offset = omega arith in
      (ground (arith, same), ground (arith, same), ground (arith, same))
