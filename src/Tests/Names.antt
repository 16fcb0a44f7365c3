-- ===== src/Tests/Names.antt =====
-- Runs of the capability queries, the namespaces (runtime/desktop/src/wapi_host_io.c) and the module
-- cache (runtime/desktop/src/wapi_host_module.c).
use wapi.Base.{◌-◌, ◌≡◌, refl, true, false, none, [], ◌∷◌, arith, if◌then◌else◌, ltb}
use wapi.Abi.{u64_mod}
use wapi.Guest.{Guest, memory_size}
use wapi.Caps.Strings.{read_chars}
use wapi.Caps.Lookup.{read_chars-unterminated}
use wapi.Namespaces.{Namespaces, register}
use wapi.Namespaces.Inv.{IsValid, register-IsValid}

-- 1024 bytes of which the first 12 are 1 and the others 0.
abbrev ones : Guest
ones = record { memory_valid = true; data_size = 1024; bytes = λ i. if ltb i 12 then 1 else 0 }

abbrev all_ones : Guest
all_ones = record { memory_valid = true; data_size = 1024; bytes = λ i. 1 }

all_ones-size : memory_size all_ones ≡ 1024
unfolding memory_size
all_ones-size = refl

read_chars-unterminated_example : read_chars all_ones 8 (u64_mod - 1) ≡ none
read_chars-unterminated_example =
    read_chars-unterminated all_ones 8 refl (omega arith) (omega (arith, all_ones-size))
      (λ i lo hi e. omega arith)

abbrev no_names : Namespaces
no_names = record { entries = λ i. record { name = []; id = 0; in_use = false }; next_id = 1 }

no_names-IsValid : IsValid no_names
no_names-IsValid = record {
  used = 0;
  bounded = omega arith;
  next = refl;
  numbered = λ i lt. absurd (omega arith);
  rest = λ i lo hi. refl;
}

register-IsValid_example : IsValid (register (97 ∷ []) no_names).1
register-IsValid_example = register-IsValid (97 ∷ []) no_names no_names-IsValid
