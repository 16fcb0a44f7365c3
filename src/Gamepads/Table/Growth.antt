-- ===== src/Gamepads/Table/Growth.antt =====
-- What loading leaves in the table of mappings, and in which order a lookup sees it.
use wapi.Base.{
  ℕ, ◌*◌, ◌≤◌, ◌<◌, ◌≡◌, refl, sym, ap, ◌∙◌, inl, inr, not, true, false, Option, none, some, List,
  [], ◌∷◌, ◌++◌, length, length-append, leb, ◌==◌, if◌then◌else◌, Bool-cases, Option-cases, arith,
}
use mathlib.Core.List.{append_assoc, append-nil}
use wapi.Caps.Strings.{bytes_eq}
use wapi.Gamepads.{Entry, lookup}
use wapi.Gamepads.Lines.{parse_line}
use wapi.Gamepads.Table.{
  Table, System, grow, is_full, append, load_lines, given, load_file, home_file, load,
}

-- The entries lie in the room that was allocated.
unfoldable IsValid : Table → Type 0
IsValid t = length t.entries ≤ t.cap

-- The entries of a file, as if there were no table.
abbrev pub parsed : List (List ℕ) → List Entry
parsed [] = []
parsed (line ∷ lines) =
    let rest = parsed lines in elim (parse_line line) [ none ↦ rest | some e ↦ e ∷ rest ]

parsed-none :
    (line : List ℕ) (lines : List (List ℕ))
    → parse_line line ≡ none
    → parsed (line ∷ lines) ≡ parsed lines
parsed-none line lines h = rw (parsed, h) refl

parsed-some :
    (line : List ℕ) (lines : List (List ℕ)) {e : Entry}
    → parse_line line ≡ some e
    → parsed (line ∷ lines) ≡ e ∷ parsed lines
parsed-some line lines h = rw (parsed, h) refl

abbrev pub or_else : Option Entry → Option Entry → Option Entry
or_else none b = b
or_else (some e) b = some e

lookup-append :
    (guid : List ℕ) (xs ys : List Entry)
    → lookup guid (xs ++ ys) ≡ or_else (lookup guid xs) (lookup guid ys)
lookup-append guid [] ys = refl
lookup-append guid (x ∷ xs) ys = elim (Bool-cases (bytes_eq x.guid guid)) [
  | inl h ↦ rw h refl
  | inr h ↦ rw h (lookup-append guid xs ys)
]

or_else_assoc : (a b c : Option Entry) → or_else (or_else a b) c ≡ or_else a (or_else b c)
or_else_assoc none b c = refl
or_else_assoc (some e) b c = refl

empty-IsValid : (t : Table) → t.entries ≡ [] → IsValid t
unfolding IsValid
empty-IsValid t h = let none_there : length t.entries ≡ 0 = ap length h in omega (arith, none_there)

module _ (sys : System) where
  abbrev new_cap : Table → ℕ
  new_cap t = if t.cap == 0 then 64 else t.cap * 2

  abbrev put : Entry → Table → Table
  put e t = record t { entries = t.entries ++ e ∷ [] }

  -- The three ways in which an entry is appended.
  append-room : (e : Entry) (t : Table) → is_full sys t ≡ false → append sys e t ≡ put e t
  unfolding append
  append-room e t h = rw (append, h, h) refl

  append-grown :
      (e : Entry) (t : Table)
      → IsValid t
      → is_full sys t ≡ true
      → sys.realloc (new_cap t) ≡ true
      → append sys e t ≡ put e (record t { cap = new_cap t })
  unfolding append grow IsValid
  append-grown e t v h r =
      let more : leb (new_cap t) (length t.entries) ≡ false = ground arith in
      rw (append, h, grow, r, more) refl

  append-dropped :
      (e : Entry) (t : Table)
      → is_full sys t ≡ true
      → sys.realloc (new_cap t) ≡ false
      → append sys e t ≡ t
  unfolding append grow
  append-dropped e t h r = rw (append, h, grow, r, h) refl

  put-IsValid : (e : Entry) (t : Table) → length t.entries < t.cap → IsValid (put e t)
  unfolding IsValid
  put-IsValid e t h = omega (arith, length-append t.entries (e ∷ []))

  append-IsValid : (e : Entry) (t : Table) → IsValid t → IsValid (append sys e t)
  unfolding IsValid
  append-IsValid e t v = elim (Bool-cases (is_full sys t)) [
    | inr h ↦ rw (append-room e t h) (put-IsValid e t (ground arith))
    | inl h ↦ elim (Bool-cases (sys.realloc (new_cap t))) [
      | inl r ↦
          rw (append-grown e t v h r) (put-IsValid e (record t { cap = new_cap t }) (ground arith))
      | inr r ↦ rw (append-dropped e t h r) v
    ]
  ]

  load_lines-IsValid :
      (lines : List (List ℕ)) (t : Table) → IsValid t → IsValid (load_lines sys lines t)
  unfolding load_lines
  load_lines-IsValid [] t v = v
  load_lines-IsValid (line ∷ lines) t v = elim (Option-cases (parse_line line)) [
    | inl h ↦ rw (load_lines, h) (load_lines-IsValid lines t v)
    | inr (e, h) ↦
        rw (load_lines, h) (load_lines-IsValid lines (append sys e t) (append-IsValid e t v))
  ]

  load_file-IsValid :
      (path : Option (List ℕ)) (t : Table) → IsValid t → IsValid (load_file sys path t)
  load_file-IsValid none t v = v
  load_file-IsValid (some path) t v = load_lines-IsValid (sys.lines_of path) t v

  -- Whatever `realloc` answers, loading keeps the table of mappings within the room that was
  -- allocated.
  load-IsValid : (t : Table) → IsValid t → IsValid (load sys t)
  unfolding load
  load-IsValid t v = elim (Bool-cases (not (length t.entries == 0))) [
    | inl h ↦ rw (load, h) v
    | inr h ↦
        rw (load, h)
          (load_file-IsValid (home_file sys (given sys sys.home)) _
            (load_file-IsValid sys.default_path _ (load_file-IsValid (given sys sys.override) t v)))
  ]

  append-entries :
      (e : Entry) (t : Table)
      → ((n : ℕ) → sys.realloc n ≡ true)
      → IsValid t
      → (append sys e t).entries ≡ t.entries ++ e ∷ []
  append-entries e t room v = elim (Bool-cases (is_full sys t)) [
    | inr h ↦ rw (append-room e t h) refl
    | inl h ↦ rw (append-grown e t v h (room (new_cap t))) refl
  ]

  load_lines-entries :
      (lines : List (List ℕ)) (t : Table)
      → ((n : ℕ) → sys.realloc n ≡ true)
      → IsValid t
      → (load_lines sys lines t).entries ≡ t.entries ++ parsed lines
  unfolding load_lines
  load_lines-entries [] t room v = sym (append-nil t.entries)
  load_lines-entries (line ∷ lines) t room v = elim (Option-cases (parse_line line)) [
    | inl h ↦
        rw (load_lines, h)
          (load_lines-entries lines t room v
            ∙ ap (λ es. t.entries ++ es) (sym (parsed-none line lines h)))
    | inr (e, h) ↦
        rw (load_lines, h)
          (load_lines-entries lines (append sys e t) room (append-IsValid e t v)
            ∙ ap (λ es. es ++ parsed lines) (append-entries e t room v)
            ∙ append_assoc t.entries (e ∷ []) (parsed lines)
            ∙ ap (λ es. t.entries ++ es) (sym (parsed-some line lines h)))
  ]

  -- The entries of a file that may be missing.
  abbrev pub parsed_file : Option (List ℕ) → List Entry
  parsed_file none = []
  parsed_file (some path) = parsed (sys.lines_of path)

  load_file-entries :
      (path : Option (List ℕ)) (t : Table)
      → ((n : ℕ) → sys.realloc n ≡ true)
      → IsValid t
      → (load_file sys path t).entries ≡ t.entries ++ parsed_file path
  load_file-entries none t room v = sym (append-nil t.entries)
  load_file-entries (some path) t room v = load_lines-entries (sys.lines_of path) t room v

  -- Where the table is empty and `realloc` never fails, a lookup after the loading of the
  -- database finds the first entry with the GUID that the lines of the override file have, else
  -- of the file beside the program, else of the user's file: an entry of the user's file is found
  -- only if neither other file has one.
  pub lookup-load :
      (t : Table) (guid : List ℕ)
      → ((n : ℕ) → sys.realloc n ≡ true)
      → t.entries ≡ []
      → lookup guid (load sys t).entries
        ≡ or_else (lookup guid (parsed_file (given sys sys.override))) (
            or_else
              (lookup guid (parsed_file sys.default_path))
              (lookup guid (parsed_file (home_file sys (given sys sys.home)))))
  unfolding load
  lookup-load t guid room empty =
      let fresh : not (length t.entries == 0) ≡ false = ap (λ es. not (length es == 0)) empty in
      let first = given sys sys.override in
      let last = home_file sys (given sys sys.home) in
      let v : IsValid t = empty-IsValid t empty in
      let v1 = load_file-IsValid first t v in
      let t1 = load_file sys first t in
      let v2 = load_file-IsValid sys.default_path t1 v1 in
      let t2 = load_file sys sys.default_path t1 in
      let all =
        load_file-entries last t2 room v2
        ∙ ap (λ es. es ++ parsed_file last)
            (load_file-entries sys.default_path t1 room v1
              ∙ ap (λ es. es ++ parsed_file sys.default_path)
                  (load_file-entries first t room v ∙ ap (λ es. es ++ parsed_file first) empty)) in
      rw (load, fresh)
        (ap (lookup guid) all
          ∙ lookup-append guid (parsed_file first ++ parsed_file sys.default_path)
              (parsed_file last)
          ∙ ap (λ o. or_else o (lookup guid (parsed_file last)))
              (lookup-append guid (parsed_file first) (parsed_file sys.default_path))
          ∙ or_else_assoc (lookup guid (parsed_file first)) _ _)
