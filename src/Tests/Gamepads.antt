-- ===== src/Tests/Gamepads.antt =====
-- Runs of the gamepad database (runtime/desktop/src/wapi_host_gamepaddb.c).
use wapi.Base.{ℕ, ◌≡◌, refl, true, false, some, none, List, [], ◌∷◌, ◌++◌, replicate}
use wapi.Gamepads.{lookup, encode_source}
use wapi.Gamepads.Sources.{axis, print, decode, decode-encode_source}
use wapi.Gamepads.Table.{Table, System, given, home_file, load}
use wapi.Gamepads.Table.Growth.{parsed_file, or_else, lookup-load}

decode-encode_source_example :
    (decode (encode_source (print (axis 3 true))) ≡ some (axis 3 true))
    × (decode (encode_source (45 ∷ print (axis 3 true))) ≡ some (axis 3 false))
decode-encode_source_example = decode-encode_source (axis 3 true) refl

-- Thirty-two zeros, a name and a button, in the user's file.
abbrev a_line : List ℕ
a_line = replicate 32 48 ++ 44 ∷ 80 ∷ 44 ∷ 97 ∷ 58 ∷ 98 ∷ 48 ∷ []

abbrev user_only : System
user_only = record {
  realloc = λ n. true;
  lines_of = λ path. a_line ∷ [];
  override = none;
  default_path = none;
  home = some (99 ∷ []);
}

abbrev no_table : Table
no_table = record { entries = []; cap = 0 }

lookup-load_example :
    lookup (replicate 16 0) (load user_only no_table).entries
    ≡ or_else
        (lookup (replicate 16 0) (parsed_file user_only (given user_only user_only.override)))
        (or_else (lookup (replicate 16 0) (parsed_file user_only user_only.default_path)) (
          lookup
            (replicate 16 0)
            (parsed_file user_only (home_file user_only (given user_only user_only.home)))))
lookup-load_example = lookup-load user_only no_table (replicate 16 0) (λ n. refl) refl
