-- ===== src/Gamepads/Table.antt =====
-- The table of runtime/desktop/src/wapi_host_gamepaddb.c: growth, and the order in which files are
-- loaded.
pub mod Growth
use wapi.Base.{
  ℕ, ◌+◌, ◌*◌, ◌&&◌, not, Bool, true, false, Option, none, some, List, [], ◌∷◌, ◌++◌, length, take,
  leb, ltb, ◌==◌, if◌then◌else◌,
}
use wapi.Gamepads.{Entry}
use wapi.Gamepads.Lines.{parse_line}

-- `g_gpdb_entries`, the first `g_gpdb_count`, and `g_gpdb_cap`.
pub record Table : Type 0 where
  pub entries : List Entry
  pub cap : ℕ

-- What the loading asks of the system: whether `realloc` gets room for so many entries, the lines that
-- `fgets` gives of a file (none if it cannot be opened), the environment, and the path beside the
-- program.
pub record System : Type 0 where
  pub realloc : ℕ → Bool
  pub lines_of : List ℕ → List (List ℕ)
  pub override : Option (List ℕ)
  pub default_path : Option (List ℕ)
  pub home : Option (List ℕ)

-- "/.wapi/gamepaddb.txt"
abbrev pub user_file : List ℕ
user_file =
    47 ∷ 46 ∷ 119 ∷ 97 ∷ 112 ∷ 105 ∷ 47 ∷ 103 ∷ 97 ∷ 109 ∷ 101 ∷ 112 ∷ 97 ∷ 100 ∷ 100 ∷ 98 ∷ 46
    ∷ 116 ∷ 120 ∷ 116 ∷ []

module _ (sys : System) where
  -- `gpdb_grow`
  unfoldable pub grow : Table → Table
  grow t =
      let new_cap = if t.cap == 0 then 64 else t.cap * 2 in
      if sys.realloc new_cap then record t { cap = new_cap } else t

  abbrev pub is_full : Table → Bool
  is_full t = leb t.cap (length t.entries)

  -- `gpdb_append`
  unfoldable pub append : Entry → Table → Table
  append e t =
      let t' = if is_full t then grow t else t in
      if is_full t' then t' else record t' { entries = t'.entries ++ e ∷ [] }

  -- `gpdb_load_file`
  unfoldable pub load_lines : List (List ℕ) → Table → Table
  load_lines [] t = t
  load_lines (line ∷ lines) t = elim (parse_line line) [
    | none ↦ load_lines lines t
    | some e ↦ load_lines lines (append e t)
  ]

  -- A variable of the environment that is set, and not to nothing.
  abbrev pub given : Option (List ℕ) → Option (List ℕ)
  given none = none
  given (some v) = if length v == 0 then none else some v

  abbrev pub load_file : Option (List ℕ) → Table → Table
  load_file none t = t
  load_file (some path) t = load_lines (sys.lines_of path) t

  abbrev pub home_file : Option (List ℕ) → Option (List ℕ)
  home_file none = none
  home_file (some v) = some (take 1023 (v ++ user_file))

  -- `wapi_gamepaddb_load`
  unfoldable pub load : Table → Table
  load t =
      if not (length t.entries == 0)
      then t
      else load_file (home_file (given sys.home))
          (load_file sys.default_path (load_file (given sys.override) t))
