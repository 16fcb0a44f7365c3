-- ===== src/Kv/RoundTrip.antt =====
-- What is set under a key is got back.
pub mod Setting
pub mod Getting
use wapi.Base.{ℕ, ◌+◌, ◌^◌, ◌<◌, ◌≡◌, ◌≢◌, Bool, true, some, List, [], length, take}
use wapi.Fs.{CLib}
use wapi.Fs.Opening.{rb, wb}
use wapi.Fs.Streams.{seek_set}
use wapi.Kv.{seek_end}

-- What the host relies on of files. `Holds w p bs` says that in the world `w` the file at `p` has the
-- content `bs`, `Flushed w` that what was written to the files that are closed has reached them (the
-- `fclose` of each succeeded), and `Readable w` that the system does not refuse to open a file that
-- is there. A file opened to be written, written in one call and closed holds what was written, if it
-- was flushed; other calls on directories leave it alone; and a file opened to be read has the bytes
-- of its content and the size, if that fits a long of 32 bits.
pub record FileLaws {W : Type 0} (lib : CLib W) (Holds : W → List ℕ → List ℕ → Type 0)
    (Flushed Readable : W → Type 0) : Type 0 where
  pub empties :
      (w : W) (p : List ℕ) (f : ℕ)
      → (lib.fopen w p wb).0 ≡ some f
      → Flushed (lib.fclose (lib.fopen w p wb).1 f)
      → Holds (lib.fclose (lib.fopen w p wb).1 f) p []
  pub stores :
      (w : W) (p bs : List ℕ) (f : ℕ)
      → (lib.fopen w p wb).0 ≡ some f
      → (lib.fwrite (lib.fopen w p wb).1 f bs).0 ≡ length bs
      → Flushed (lib.fclose (lib.fwrite (lib.fopen w p wb).1 f bs).1 f)
      → Holds (lib.fclose (lib.fwrite (lib.fopen w p wb).1 f bs).1 f) p bs
  pub stat_keeps : (w : W) (p q bs : List ℕ) → Holds w p bs → Holds (lib.stat w q).1 p bs
  pub mkdir_keeps : (w : W) (p q bs : List ℕ) → Holds w p bs → Holds (lib.mkdir w q).1 p bs
  pub opens :
      (w : W) (p bs : List ℕ)
      → Readable w
      → Holds w p bs
      → (f : ℕ) × ((lib.fopen w p rb).0 ≡ some f)
  pub sized :
      (w : W) (p bs : List ℕ) (f : ℕ)
      → length bs < 2 ^ 31
      → Holds w p bs
      → (lib.fopen w p rb).0 ≡ some f
      → lib.ftell (lib.fseek (lib.fopen w p rb).1 f 0 seek_end).1 f ≡ length bs
  pub reads :
      (w : W) (p bs : List ℕ) (f n : ℕ)
      → Holds w p bs
      → (lib.fopen w p rb).0 ≡ some f
      → (lib.fread (lib.fseek (lib.fseek (lib.fopen w p rb).1 f 0 seek_end).1 f 0 seek_set).1 f n).0
        ≡ take n bs
