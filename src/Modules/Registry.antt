-- ===== src/Modules/Registry.antt =====
-- Loading, joining and releasing modules (runtime/desktop/src/wapi_host_module.c): the slots that hold
-- the instances, and the services, through which several handles share a slot.
pub mod Refs
pub mod Counted
pub mod Operations
pub mod Services
pub mod Calls
pub mod Runs
pub mod Counts
use wapi.Base.{
  ℕ, ◌+◌, ◌-◌, ◌&&◌, ◌||◌, not, Bool, true, false, Option, none, some, List, [], ◌⊎◌, inl, inr,
  find_from, update, leb, ◌==◌, if◌then◌else◌,
}
use wapi.Base.Bytes.{from_le}
use wapi.Abi.{u32, u32_mod, u64_mod, ok, err_inval, err_badf, err_noent, err_nomem, err_io}
use wapi.Guest.{Guest, wasm_ptr, peek, write_bytes, write_u32}
use wapi.Handles.{Handles, loaded_module, alloc, release, valid, payload_at, set_payload}
use wapi.Caps.Strings.{bytes_eq, Fallible, measure}
use wapi.Namespaces.{c_string}
use wapi.Modules.{Cache, cache_find}

abbrev pub max_slots : ℕ
max_slots = 16

abbrev pub max_services : ℕ
max_services = 16

-- `wapi_module_slot_t`, less the instance, its memory and its functions; `loaded` says that the module
-- is not NULL.
pub record Slot : Type 0 where
  pub loaded : Bool
  pub hash : List ℕ
  pub svc_name : List ℕ
  pub refcount : ℕ

abbrev pub empty_slot : Slot
empty_slot = record { loaded = false; hash = []; svc_name = []; refcount = 0 }

-- `wapi_module_service_entry_t`; the slot is its index.
pub record Service : Type 0 where
  pub hash : List ℕ
  pub name : List ℕ
  pub slot : ℕ
  pub in_use : Bool

-- A handle's data is its slot; `none` is NULL.
pub record Registry (W : Type 0) : Type 0 where
  pub guest : Guest
  pub handles : Handles (Option ℕ)
  pub cache : Cache
  pub slots : ℕ → Slot
  pub services : ℕ → Service
  pub world : W

-- The C library's files, the hash of the operating system, and wasmtime. A file is read as its bytes or
-- as the result code of what failed. The start function of a module is taken not to call the host.
pub record Loader (W : Type 0) : Type 0 where
  pub read_file : W → List ℕ → (ℕ ⊎ List ℕ) × W
  pub sha256 : List ℕ → Option (List ℕ)
  pub module_new : W → List ℕ → Bool × W
  pub instantiate : W → ℕ → Bool × W

-- The size of the buffer that `cb_join` reads a service's name into.
abbrev pub name_buf_size : ℕ
name_buf_size = 64

-- `strlen`, where the view does not give the length.
unfoldable pub name_length : Guest → ℕ → ℕ → Fallible (Option ℕ)
name_length m start len =
    if len == u64_mod - 1
    then elim (wasm_ptr m (u32 start) 1) [
      | none ↦ some none
      | some s ↦ elim (measure m s) [ none ↦ none | some n ↦ some (some n) ]
    ]
    else some (some len)

-- The bytes of a name of known length, if they fit the buffer and lie in the memory.
unfoldable pub name_bytes : Guest → ℕ → ℕ → Option (List ℕ)
name_bytes m start len =
    if leb name_buf_size len
    then none
    else if len == 0
    then some []
    else elim (wasm_ptr m (u32 start) len) [ none ↦ none | some s ↦ some (peek m s len) ]

-- How `cb_join` reads the service's name: `none` inside is INVAL, NULL is the empty name.
unfoldable pub read_name : Guest → ℕ → Fallible (Option (List ℕ))
read_name m sv_ptr = if sv_ptr == 0 then some (some []) else elim (wasm_ptr m sv_ptr 16) [
  | none ↦ some none
  | some p ↦
      let start = from_le (peek m p 8) in
      elim (name_length m start (from_le (peek m (p + 8) 8))) [
        | none ↦ none
        | some len ↦ elim len [ none ↦ some none | some n ↦ some (name_bytes m start n) ]
      ]
]

module _ {W : Type 0} where
  -- `slot_alloc`
  unfoldable pub slot_alloc : Registry W → Option ℕ
  slot_alloc r = find_from (λ i. not (r.slots i).loaded) 0 max_slots

  abbrev pub set_slot : Registry W → ℕ → Slot → Registry W
  set_slot r i s = record r { slots = update r.slots i s }

  -- `slot_free`
  abbrev pub slot_free : Registry W → ℕ → Registry W
  slot_free r i = set_slot r i empty_slot

  abbrev pub set_refcount : Registry W → ℕ → ℕ → Registry W
  set_refcount r i n = set_slot r i (record {
    loaded = (r.slots i).loaded;
    hash = (r.slots i).hash;
    svc_name = (r.slots i).svc_name;
    refcount = n;
  })

  abbrev pub serves : List ℕ → List ℕ → Registry W → ℕ → Bool
  serves hash name r i =
      (r.services i).in_use
      && (bytes_eq (r.services i).hash hash
          && bytes_eq (c_string (r.services i).name) (c_string name))

  -- `service_find` and `service_alloc`, the index of the entry
  unfoldable pub service_find : List ℕ → List ℕ → Registry W → Option ℕ
  service_find hash name r = find_from (serves hash name r) 0 max_services

  unfoldable pub service_alloc : Registry W → Option ℕ
  service_alloc r = find_from (λ i. not (r.services i).in_use) 0 max_services

  -- `svc->in_use = false`
  abbrev pub drop_service : Registry W → ℕ → Registry W
  drop_service r i = record r {
    services = update r.services i (record {
      hash = (r.services i).hash;
      name = (r.services i).name;
      slot = (r.services i).slot;
      in_use = false;
    });
  }

  abbrev pub add_service : Registry W → ℕ → List ℕ → List ℕ → ℕ → Registry W
  add_service r i hash name slot = record r {
    services =
        update r.services i (record { hash = hash; name = name; slot = slot; in_use = true });
  }

  -- The handle of a slot, written out for the guest; or what undoes the load.
  unfoldable pub give_handle : ℕ → ℕ → (Registry W → Registry W) → Registry W → ℕ × Registry W
  give_handle out_mod_ptr slot undo r =
      let (h, handles) = alloc none r.handles loaded_module in
      if h == 0 then (err_nomem, undo (record r { handles = handles })) else (
        ok,
        record r {
          guest = (write_u32 r.guest out_mod_ptr h).1;
          handles = set_payload handles h (some slot);
        },
      )

  -- `--slot->refcount`, and at 0 the slot is freed, after what `clear` does.
  unfoldable pub drop_reference : ℕ → (Registry W → Registry W) → Registry W → Registry W
  drop_reference slot clear r =
      let n = u32 ((r.slots slot).refcount + (u32_mod - 1)) in
      if n == 0 then slot_free (clear (set_refcount r slot n)) slot else set_refcount r slot n

  -- The loop of `cb_release` that clears the slot's service.
  unfoldable pub clear_service : ℕ → Registry W → Registry W
  clear_service slot r =
      elim (find_from (λ i. (r.services i).in_use && (r.services i).slot == slot) 0 max_services) [
        | none ↦ r
        | some i ↦ drop_service r i
      ]

  -- `cb_release`
  unfoldable pub release_module : ℕ → Registry W → ℕ × Registry W
  release_module mh r =
      if not (valid r.handles mh loaded_module)
      then (err_badf, r)
      else let freed = record r { handles = release none r.handles mh } in
        elim (payload_at r.handles mh) [
          | none ↦ (ok, freed)
          | some slot ↦ (ok, drop_reference slot (clear_service slot) freed)
        ]

  -- `cb_get_hash`
  unfoldable pub get_hash : ℕ → ℕ → Registry W → ℕ × Registry W
  get_hash mh out_ptr r =
      if not (valid r.handles mh loaded_module) || out_ptr == 0
      then (err_badf, r)
      else elim (payload_at r.handles mh) [
        | none ↦ (err_badf, r)
        | some slot ↦ (ok, record r { guest = (write_bytes r.guest out_ptr (r.slots slot).hash).1 })
      ]

module _ {W : Type 0} (loader : Loader W) where
  -- `instantiate_from_cache` from `slot_alloc` on.
  unfoldable pub instantiate_slot : List ℕ → Registry W → (ℕ ⊎ ℕ) × Registry W
  instantiate_slot hash r = elim (slot_alloc r) [
    | none ↦ (inl err_nomem, r)
    | some i ↦
        let (good, w) = loader.instantiate r.world i in
        if good
        then (
          inr i,
          set_slot (record r { world = w }) i
              (record { loaded = true; hash = hash; svc_name = []; refcount = 1 }),
        )
        else (inl err_inval, slot_free (record r { world = w }) i)
  ]

  -- The bytes of a file: their hash, and their compilation.
  unfoldable pub check_bytes : List ℕ → List ℕ → Registry W → (ℕ ⊎ ℕ) × Registry W
  check_bytes wanted bytes r = elim (loader.sha256 bytes) [
    | none ↦ (inl err_io, r)
    | some got ↦
        if not (bytes_eq got wanted)
        then (inl err_inval, r)
        else let (good, w) = loader.module_new r.world bytes in
          if good
          then instantiate_slot got (record r { world = w })
          else (inl err_inval, record r { world = w })
  ]

  -- `instantiate_from_cache`: a result code, or a new slot with one reference.
  unfoldable pub instantiate_from_cache : List ℕ → Registry W → (ℕ ⊎ ℕ) × Registry W
  instantiate_from_cache wanted r = elim (cache_find wanted r.cache) [
    | none ↦ (inl err_noent, r)
    | some path ↦
        let (content, w) = loader.read_file r.world path in
        elim content [
          | inl code ↦ (inl code, record r { world = w })
          | inr bytes ↦ check_bytes wanted bytes (record r { world = w })
        ]
  ]

  -- `cb_load`
  unfoldable pub load : ℕ → ℕ → Registry W → ℕ × Registry W
  load hash_ptr out_mod_ptr r =
      if hash_ptr == 0 || out_mod_ptr == 0
      then (err_inval, r)
      else elim (wasm_ptr r.guest hash_ptr 32) [
        | none ↦ (err_inval, r)
        | some hp ↦
            let (made, r') = instantiate_from_cache (peek r.guest hp 32) r in
            elim made [
              | inl code ↦ (code, r')
              | inr slot ↦ give_handle out_mod_ptr slot (λ s. slot_free s slot) r'
            ]
      ]

  -- `cb_join` from `service_find` on.
  unfoldable pub join_named : List ℕ → List ℕ → ℕ → Registry W → ℕ × Registry W
  join_named hash name out_mod_ptr r = elim (service_find hash name r) [
    | some i ↦
        let slot = (r.services i).slot in
        give_handle out_mod_ptr slot (drop_reference slot (λ s. drop_service s i))
          (set_refcount r slot (u32 ((r.slots slot).refcount + 1)))
    | none ↦
        let (made, r') = instantiate_from_cache hash r in
        elim made [
          | inl code ↦ (code, r')
          | inr slot ↦ elim (service_alloc r') [
            | none ↦ (err_nomem, slot_free r' slot)
            | some i ↦ give_handle out_mod_ptr slot (drop_reference slot (λ s. drop_service s i)) (
                set_slot (add_service r' i hash name slot) slot (record {
                  loaded = (r'.slots slot).loaded;
                  hash = (r'.slots slot).hash;
                  svc_name = name;
                  refcount = (r'.slots slot).refcount;
                }))
          ]
        ]
  ]

  -- `cb_join`
  unfoldable pub join : ℕ → ℕ → ℕ → Registry W → Fallible (ℕ × Registry W)
  join hash_ptr name_sv_ptr out_mod_ptr r =
      if hash_ptr == 0 || out_mod_ptr == 0
      then some (err_inval, r)
      else elim (wasm_ptr r.guest hash_ptr 32) [
        | none ↦ some (err_inval, r)
        | some hp ↦ elim (read_name r.guest name_sv_ptr) [
          | none ↦ none
          | some name ↦ elim name [
            | none ↦ some (err_inval, r)
            | some bytes ↦ some (join_named (peek r.guest hp 32) bytes out_mod_ptr r)
          ]
        ]
      ]
