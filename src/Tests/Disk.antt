-- ===== src/Tests/Disk.antt =====
-- A C library over a system with one file, for runs of the file system and of the key-value storage.
use wapi.Base.{
  ℕ, ◌+◌, ◌≡◌, refl, ap, true, false, some, List, [], ◌∷◌, ◌++◌, length, take, drop, ◌==◌,
  if◌then◌else◌,
}
use wapi.Caps.Strings.{bytes_eq}
use wapi.Fs.{CLib, enoent}
use wapi.Fs.Opening.{wb}
use wapi.Fs.Streams.Position.{FseekLaws}
use wapi.Kv.RoundTrip.{FileLaws}

pub record Disk : Type 0 where
  pub content : List ℕ
  pub pos : ℕ

abbrev pub empty_disk : Disk
empty_disk = record { content = []; pos = 0 }

abbrev pub disk : CLib Disk
disk = record {
  stdin = 1;
  stdout = 2;
  stderr = 3;
  errno = λ w. enoent;
  strerror = λ e. [];
  fopen =
      λ w p mode. if bytes_eq mode wb then (some 5, empty_disk) else (some 5, record w { pos = 0 });
  fclose = λ w f. w;
  fread = λ w f n. (take n (drop w.pos w.content), record w { pos = w.pos + n });
  fwrite = λ w f bs. (length bs, record w { content = w.content ++ bs });
  fflush = λ w f. w;
  fseek =
      λ w f pos whence. (true, record w { pos = if whence == 2 then length w.content else pos });
  ftell = λ w f. w.pos;
  fstat = λ w f.
      (some (record { dev = 0; ino = 0; mode = 0; nlink = 1; size = 0; atime = 0; mtime = 0 }), w);
  stat = λ w p.
      (some (record { dev = 0; ino = 0; mode = 0; nlink = 1; size = 0; atime = 0; mtime = 0 }), w);
  chsize = λ w f n. (true, w);
  mkdir = λ w p. (true, w);
  rmdir = λ w p. (true, w);
  remove = λ w p. (true, w);
  rename = λ w p q. (true, w);
  find_files = λ w p. some (
    record { file_name = 97 ∷ []; is_directory = false },
    (record { file_name = 98 ∷ 99 ∷ []; is_directory = true })
        ∷ (record { file_name = 100 ∷ []; is_directory = false })
        ∷ [],
  );
}

-- The one file holds these bytes.
abbrev pub HoldsAll : Disk → List ℕ → List ℕ → Type 0
HoldsAll w p bs = w.content ≡ bs

-- Nothing is buffered, and every file can be opened.
abbrev pub Always : Disk → Type 0
Always w = w ≡ w

pub disk-FileLaws : FileLaws disk HoldsAll Always Always
disk-FileLaws = record {
  empties = λ w p f o u. refl;
  stores = λ w p bs f o e u. refl;
  stat_keeps = λ w p q bs h. h;
  mkdir_keeps = λ w p q bs h. h;
  opens = λ w p bs r h. (5, refl);
  sized = λ w p bs f small h o. ap length h;
  reads = λ w p bs f n h o. ap (take n) h;
}

pub disk-FseekLaws : FseekLaws disk
disk-FseekLaws = record { sets = λ w f pos h. refl }
