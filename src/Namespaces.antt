-- ===== src/Namespaces.antt =====
-- The namespaces of the I/O bridge (runtime/desktop/src/wapi_host_io.c, `g_namespaces`,
-- `cb_namespace_register` and `cb_namespace_name`): 64 names, numbered in the order of registration.
pub mod Inv
use wapi.Base.{
  ℕ, zero, suc, ◌+◌, ◌-◌, ◌%◌, ◌^◌, ◌≤◌, ◌<◌, ◌≡◌, ◌&&◌, ◌||◌, not, Bool, true, false, Option, none,
  some, List, [], ◌∷◌, find_from, update, length, take, leb, ltb, ◌==◌, if◌then◌else◌,
}
use wapi.Base.Bytes.{to_le}
use wapi.Abi.{ok, err_inval, err_noent, err_nospc, u32}
use wapi.Guest.{Guest, write_bytes, write_u64}
use wapi.Caps.{report}
use wapi.Caps.Strings.{bytes_eq, Fallible, read_sv}

abbrev pub max_namespaces : ℕ
max_namespaces = 64

-- The size of `name` in an entry.
abbrev pub name_size : ℕ
name_size = 128

-- `namespace_entry_t`; the name is what was copied, before the 0 behind it.
pub record Namespace : Type 0 where
  pub name : List ℕ
  pub id : ℕ
  pub in_use : Bool

pub record Namespaces : Type 0 where
  pub entries : ℕ → Namespace
  pub next_id : ℕ

-- What `strlen` and the functions that take a C string see of a name.
abbrev pub c_string : List ℕ → List ℕ
c_string [] = []
c_string (b ∷ bs) = if b == 0 then [] else b ∷ c_string bs

abbrev pub registered_at : List ℕ → Namespaces → ℕ → Bool
registered_at name t i = (t.entries i).in_use && bytes_eq (c_string (t.entries i).name) name

abbrev pub unused_at : Namespaces → ℕ → Bool
unused_at t i = not (t.entries i).in_use

-- The two loops of `cb_namespace_register`: the id, `none` if there is no room.
unfoldable pub register : List ℕ → Namespaces → Option ℕ × Namespaces
register name t = elim (find_from (registered_at name t) 0 max_namespaces) [
  | some i ↦ (some (t.entries i).id, t)
  | none ↦ elim (find_from (unused_at t) 0 max_namespaces) [
    | none ↦ (none, t)
    | some i ↦ (
      some t.next_id,
      record {
        entries = update t.entries i (record { name = name; id = t.next_id; in_use = true });
        next_id = (t.next_id + 1) % 2 ^ 16;
      },
    )
  ]
]

abbrev pub acceptable : List ℕ → Bool
acceptable name = not (length name == 0) && ltb (length name) name_size

unfoldable pub register_named : Guest → ℕ → Option (List ℕ) → Namespaces → ℕ × Guest × Namespaces
register_named m out_id_ptr none t = (err_inval, m, t)
register_named m out_id_ptr (some name) t =
    if not (acceptable name)
    then (err_inval, m, t)
    else let (id, t') = register name t in
      elim id [ none ↦ (err_nospc, m, t') | some n ↦ (ok, report out_id_ptr (to_le 2 n) m, t') ]

-- `cb_namespace_register`
unfoldable pub namespace_register : Guest → ℕ → ℕ → Namespaces → Fallible (ℕ × Guest × Namespaces)
namespace_register m sv_ptr out_id_ptr t = elim (read_sv m sv_ptr) [
  | none ↦ none
  | some name ↦ some (register_named m out_id_ptr name t)
]

abbrev pub has_id : ℕ → Namespaces → ℕ → Bool
has_id id t i = (t.entries i).in_use && (t.entries i).id == id % 2 ^ 16

-- The name that an id stands for.
unfoldable pub name_of : ℕ → Namespaces → Option (List ℕ)
name_of id t = elim (find_from (has_id id t) 0 max_namespaces) [
  | none ↦ none
  | some i ↦ some (c_string (t.entries i).name)
]

-- `if (buf && copy) wapi_wasm_write_bytes(...)`, of at most `buf_len` bytes.
unfoldable pub copy_out : ℕ → ℕ → List ℕ → Guest → Guest
copy_out buf buf_len name m =
    let copy = take buf_len name in
    if buf == 0 || length copy == 0 then m else (write_bytes m buf copy).1

-- `if (out_ptr) wapi_wasm_write_u64(...)`
abbrev pub report_length : ℕ → ℕ → Guest → Guest
report_length out_ptr n m = if out_ptr == 0 then m else (write_u64 m out_ptr n).1

-- `cb_namespace_name`
unfoldable pub namespace_name : Guest → ℕ → ℕ → ℕ → ℕ → Namespaces → ℕ × Guest
namespace_name m id buf buf_len out_ptr t = elim (name_of id t) [
  | none ↦ (err_noent, m)
  | some name ↦ (ok, copy_out buf buf_len name (report_length out_ptr (length name) m))
]
