-- ===== src/Gamepads.antt =====
-- runtime/desktop/src/wapi_host_gamepaddb.c, the build for Windows: the table of gamepad mappings,
-- their lookup by GUID, and what the mappings say of buttons and axes.
pub mod Lines
pub mod Digits
pub mod Sources
pub mod Table
use wapi.Base.{
  ℕ, zero, suc, ◌+◌, ◌-◌, ◌*◌, ◌/◌, ◌%◌, ◌&&◌, ◌||◌, not, Bool, true, false, Option, none, some,
  List, [], ◌∷◌, ◌++◌, map, length, drop, replicate, leb, ltb, ◌==◌, if◌then◌else◌,
}
use wapi.Caps.Strings.{bytes_eq}

-- `wapi_gpdb_field_t`
pub record Field : Type 0 where
  pub key : List ℕ
  pub value : List ℕ

-- `wapi_gpdb_entry_t`, the first `field_count` fields
pub record Entry : Type 0 where
  pub guid : List ℕ
  pub name : List ℕ
  pub fields : List Field

-- `gpdb_lookup`
abbrev pub lookup : List ℕ → List Entry → Option Entry
lookup guid [] = none
lookup guid (e ∷ es) = let rest = lookup guid es in if bytes_eq e.guid guid then some e else rest

-- `wapi_gamepaddb_make_guid`, for 16-bit numbers
unfoldable pub make_guid : ℕ → ℕ → ℕ → ℕ → List ℕ
make_guid bus vid pid version =
    bus % 256
    ∷ bus / 256
    ∷ 0
    ∷ 0
    ∷ vid % 256
    ∷ vid / 256
    ∷ 0
    ∷ 0
    ∷ pid % 256
    ∷ pid / 256
    ∷ 0
    ∷ 0
    ∷ version % 256
    ∷ version / 256
    ∷ 0
    ∷ 0
    ∷ []

-- `k_btn_keys`, in the order of the buttons.
abbrev pub button_keys : List (List ℕ)
button_keys =
    (97 ∷ [])
    ∷ (98 ∷ [])
    ∷ (120 ∷ [])
    ∷ (121 ∷ [])
    ∷ (98 ∷ 97 ∷ 99 ∷ 107 ∷ [])
    ∷ (103 ∷ 117 ∷ 105 ∷ 100 ∷ 101 ∷ [])
    ∷ (115 ∷ 116 ∷ 97 ∷ 114 ∷ 116 ∷ [])
    ∷ (108 ∷ 101 ∷ 102 ∷ 116 ∷ 115 ∷ 116 ∷ 105 ∷ 99 ∷ 107 ∷ [])
    ∷ (114 ∷ 105 ∷ 103 ∷ 104 ∷ 116 ∷ 115 ∷ 116 ∷ 105 ∷ 99 ∷ 107 ∷ [])
    ∷ (108 ∷ 101 ∷ 102 ∷ 116 ∷ 115 ∷ 104 ∷ 111 ∷ 117 ∷ 108 ∷ 100 ∷ 101 ∷ 114 ∷ [])
    ∷ (114 ∷ 105 ∷ 103 ∷ 104 ∷ 116 ∷ 115 ∷ 104 ∷ 111 ∷ 117 ∷ 108 ∷ 100 ∷ 101 ∷ 114 ∷ [])
    ∷ (100 ∷ 112 ∷ 117 ∷ 112 ∷ [])
    ∷ (100 ∷ 112 ∷ 100 ∷ 111 ∷ 119 ∷ 110 ∷ [])
    ∷ (100 ∷ 112 ∷ 108 ∷ 101 ∷ 102 ∷ 116 ∷ [])
    ∷ (100 ∷ 112 ∷ 114 ∷ 105 ∷ 103 ∷ 104 ∷ 116 ∷ [])
    ∷ []

-- `k_axis_keys`, in the order of the axes.
abbrev pub axis_keys : List (List ℕ)
axis_keys =
    (108 ∷ 101 ∷ 102 ∷ 116 ∷ 120 ∷ [])
    ∷ (108 ∷ 101 ∷ 102 ∷ 116 ∷ 121 ∷ [])
    ∷ (114 ∷ 105 ∷ 103 ∷ 104 ∷ 116 ∷ 120 ∷ [])
    ∷ (114 ∷ 105 ∷ 103 ∷ 104 ∷ 116 ∷ 121 ∷ [])
    ∷ (108 ∷ 101 ∷ 102 ∷ 116 ∷ 116 ∷ 114 ∷ 105 ∷ 103 ∷ 103 ∷ 101 ∷ 114 ∷ [])
    ∷ (114 ∷ 105 ∷ 103 ∷ 104 ∷ 116 ∷ 116 ∷ 114 ∷ 105 ∷ 103 ∷ 103 ∷ 101 ∷ 114 ∷ [])
    ∷ []

abbrev pub is_digit : ℕ → Bool
is_digit c = leb 48 c && leb c 57

-- `isspace` in the C locale.
abbrev pub is_space : ℕ → Bool
is_space c = c == 32 || leb 9 c && leb c 13

abbrev pub skip_spaces : List ℕ → List ℕ
skip_spaces [] = []
skip_spaces (c ∷ cs) = let rest = skip_spaces cs in if is_space c then rest else c ∷ cs

-- The number that the digits in front say, after those that are read.
abbrev pub read_digits : ℕ → List ℕ → ℕ
read_digits n [] = n
read_digits n (c ∷ cs) =
    let rest = read_digits (n * 10 + (c - 48)) cs in if is_digit c then rest else n

-- `atoi`: `none` is a negative number. The values that fields hold are too short to say much more than
-- an `int`; where C leaves the result open, it is the number here.
abbrev pub atoi_at : List ℕ → Option ℕ
atoi_at [] = some 0
atoi_at (c ∷ cs) =
    if c == 45
    then (if read_digits 0 cs == 0 then some 0 else none)
    else if c == 43
    then some (read_digits 0 cs)
    else some (read_digits 0 (c ∷ cs))

abbrev pub atoi : List ℕ → Option ℕ
atoi cs = atoi_at (skip_spaces cs)

abbrev pub skip_digits : List ℕ → List ℕ
skip_digits [] = []
skip_digits (c ∷ cs) = let rest = skip_digits cs in if is_digit c then rest else c ∷ cs

abbrev pub starts_with : ℕ → List ℕ → Bool
starts_with c [] = false
starts_with c (d ∷ ds) = d == c

-- `strchr(v, c)`, what stands behind the letter it finds.
abbrev pub after : ℕ → List ℕ → Option (List ℕ)
after c [] = none
after c (d ∷ ds) = let rest = after c ds in if d == c then some ds else rest

-- A number from `low` to `high`, 0 for any other.
abbrev pub in_range : ℕ → ℕ → Option ℕ → (ℕ → ℕ) → ℕ
in_range low high none code = 0
in_range low high (some n) code = if leb low n && leb n high then code n else 0

-- `gpdb_encode_source` behind the sign; the parts of a code have no bit in common.
unfoldable pub encode_body : Bool → List ℕ → ℕ
encode_body invert [] = 0
encode_body invert (c ∷ cs) =
    if c == 98
    then in_range 0 127 (atoi cs) (λ n. 0x1000 + n)
    else if c == 97
    then (let flip = starts_with 126 (skip_digits cs) in
        let inverted = if flip then not invert else invert in
        in_range 0 127 (atoi cs) (λ n. (if inverted then 0x2800 else 0x2000) + n))
    else if c == 104
    then elim (after 46 cs) [
      | none ↦ 0
      | some mask ↦
          in_range 0 7 (atoi cs) (λ n. in_range 1 15 (atoi mask) (λ m. 0x4000 + n * 256 + m))
    ]
    else 0

-- `gpdb_encode_source`
unfoldable pub encode_source : List ℕ → ℕ
encode_source [] = 0
encode_source (c ∷ cs) =
    if c == 43
    then encode_body false cs
    else if c == 45
    then encode_body true cs
    else encode_body false (c ∷ cs)

-- `gpdb_find_key`, the value of the field.
abbrev pub find_key : List ℕ → List Field → Option (List ℕ)
find_key key [] = none
find_key key (f ∷ fs) =
    let rest = find_key key fs in if bytes_eq f.key key then some f.value else rest

-- The slot of the mapping for a key; 0 after `memset`.
abbrev pub slot_of : Entry → List ℕ → ℕ
slot_of e key = elim (find_key key e.fields) [ none ↦ 0 | some value ↦ encode_source value ]

-- `wapi_gpdb_mapping_t`
pub record Mapping : Type 0 where
  pub buttons : List ℕ
  pub axes : List ℕ

abbrev pub mapping_of : Entry → Mapping
mapping_of e = record { buttons = map (slot_of e) button_keys; axes = map (slot_of e) axis_keys }

-- The GUID without its bus.
abbrev pub without_bus : List ℕ → List ℕ
without_bus guid = 0 ∷ 0 ∷ drop 2 guid

-- `wapi_gamepaddb_resolve`, for a GUID of 16 bytes.
unfoldable pub resolve : List ℕ → List Entry → Option Mapping
resolve guid es = elim (lookup guid es) [
  | some e ↦ some (mapping_of e)
  | none ↦ elim (lookup (without_bus guid) es) [ none ↦ none | some e ↦ some (mapping_of e) ]
]
