-- ===== src/Gamepads/Lines.antt =====
-- `gpdb_parse_line` of runtime/desktop/src/wapi_host_gamepaddb.c.
use wapi.Base.{
  ℕ, zero, suc, ◌+◌, ◌*◌, ◌&&◌, ◌||◌, not, Bool, true, false, Option, none, some, List, [], ◌∷◌,
  ◌++◌, length, take, ltb, ◌==◌, if◌then◌else◌,
}
use wapi.Caps.Strings.{bytes_eq}
use wapi.Modules.{hex_nibble}
use wapi.Gamepads.{Field, Entry, skip_spaces, starts_with}

-- The pairs of digits of a GUID; `hex_nibble` is the one of wapi_host_module.c.
abbrev pub hex_bytes : ℕ → List ℕ → Option (List ℕ)
hex_bytes zero cs = some []
hex_bytes (suc n) [] = none
hex_bytes (suc n) (a ∷ []) = none
hex_bytes (suc n) (a ∷ b ∷ cs) =
    let rest = hex_bytes n cs in
    elim (hex_nibble a) [
      | none ↦ none
      | some hi ↦ elim (hex_nibble b) [
        | none ↦ none
        | some lo ↦ elim rest [ none ↦ none | some bs ↦ some ((hi * 16 + lo) ∷ bs) ]
      ]
    ]

-- `parse_guid`
unfoldable pub parse_guid : List ℕ → Option (List ℕ)
parse_guid cs = hex_bytes 16 (skip_spaces cs)

-- The letters that are trimmed at the end of a line.
abbrev pub is_trimmed : ℕ → Bool
is_trimmed c = (c == 10 || c == 13) || (c == 32 || c == 9)

abbrev pub trim_end : List ℕ → List ℕ
trim_end [] = []
trim_end (c ∷ cs) =
    let rest = trim_end cs in if length rest == 0 && is_trimmed c then [] else c ∷ rest

-- The tokens between the separators.
abbrev pub push_front : ℕ → List (List ℕ) → List (List ℕ)
push_front c [] = (c ∷ []) ∷ []
push_front c (t ∷ ts) = (c ∷ t) ∷ ts

abbrev pub split_on : ℕ → List ℕ → List (List ℕ)
split_on sep [] = [] ∷ []
split_on sep (c ∷ cs) =
    let rest = split_on sep cs in if c == sep then [] ∷ rest else push_front c rest

-- "key:value" at the first colon.
abbrev pub key_value : List ℕ → Option (List ℕ × List ℕ)
key_value [] = none
key_value (c ∷ cs) =
    let rest = key_value cs in
    if c == 58 then some ([], cs) else elim rest [ none ↦ none | some kv ↦ some (c ∷ kv.0, kv.1) ]

abbrev pub max_fields : ℕ
max_fields = 64

-- "platform" and `WAPI_PLATFORM_STRING`
abbrev pub platform_key : List ℕ
platform_key = 112 ∷ 108 ∷ 97 ∷ 116 ∷ 102 ∷ 111 ∷ 114 ∷ 109 ∷ []

abbrev pub platform_name : List ℕ
platform_name = 87 ∷ 105 ∷ 110 ∷ 100 ∷ 111 ∷ 119 ∷ 115 ∷ []

-- What the loop keeps besides the GUID and the name.
pub record Fields : Type 0 where
  pub fields : List Field
  pub platform_seen : Bool
  pub platform_match : Bool

-- One token from the third on.
unfoldable pub take_field : List ℕ → Fields → Fields
take_field tok s = elim (key_value tok) [
  | none ↦ s
  | some (key, val) ↦
      if bytes_eq key platform_key
      then record s { platform_seen = true; platform_match = bytes_eq val platform_name }
      else if ltb (length s.fields) max_fields
      then record s {
        fields = s.fields ++ (record { key = take 15 key; value = take 15 val }) ∷ [];
      }
      else s
]

abbrev pub take_fields : List (List ℕ) → Fields → Fields
take_fields [] s = s
take_fields (tok ∷ toks) s = take_fields toks (take_field tok s)

-- The entry that the tokens make.
unfoldable pub entry_of : List (List ℕ) → Option Entry
entry_of [] = none
entry_of (tok ∷ []) = none
entry_of (tok ∷ name ∷ toks) = elim (parse_guid tok) [
  | none ↦ none
  | some guid ↦
      let s =
        take_fields toks (record { fields = []; platform_seen = false; platform_match = false }) in
      if s.platform_seen && not s.platform_match
      then none
      else some (record { guid = guid; name = take 63 name; fields = s.fields })
]

-- `gpdb_parse_line` up to the table; the line has no 0 in it.
unfoldable pub parse_line : List ℕ → Option Entry
parse_line line =
    let text = skip_spaces line in
    let kept = trim_end (take 1023 text) in
    if length text == 0 || starts_with 35 text
    then none
    else if length kept == 0
    then none
    else entry_of (split_on 44 kept)
