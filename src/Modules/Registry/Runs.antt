-- ===== src/Modules/Registry/Runs.antt =====
-- Every run of the imports that load, join and release modules keeps the counts.
use wapi.Base.{ℕ, ◌<◌, ◌≡◌, sym, ◌∙◌, ◌↔◌, true, false, Option, some, arith}
use wapi.Guest.{Guest}
use wapi.Handles.{Handles, loaded_module, valid, payload_at}
use wapi.Handles.Alloc.{IsValid}
use wapi.Modules.Registry.{Registry, Loader, max_slots, max_services, release_module, load, join}
use wapi.Modules.Registry.Refs.{is_ref, refs, is_ref-valid}
use wapi.Modules.Registry.Counted.{settled, Inv}
use wapi.Modules.Registry.Refs.{refs_pos, refs_ext, refs-none}
use wapi.Modules.Registry.Calls.{release_module-Inv, load-Inv, join-Inv}

-- The same handles are modules', with the same slots.
pub record Elsewhere (t t' : Handles (Option ℕ)) : Type 0 where
  pub cursor : IsValid t'
  pub same : (h s : ℕ) → is_ref s (t'.entries h) ≡ is_ref s (t.entries h)

-- No module is loaded.
pub record IsFresh {W : Type 0} (r : Registry W) : Type 0 where
  pub cursor : IsValid r.handles
  pub no_refs : (h s : ℕ) → is_ref s (r.handles.entries h) ≡ false
  pub no_modules : (s : ℕ) → ((r.slots s).loaded ≡ false) × ((r.slots s).refcount ≡ 0)
  pub no_services : (i : ℕ) → (r.services i).in_use ≡ false

-- The state after any calls of the imports, from an empty registry on; what the guest, the world and
-- other components do in between leaves slots, services and the module handles alone.
pub data Run {W : Type 0} (loader : Loader W) : Registry W → Type 0 where
  started : (r : Registry W) → IsFresh r → Run loader r
  loaded :
      {r : Registry W} (hash_ptr out_mod_ptr : ℕ)
      → Run loader r
      → Run loader (load loader hash_ptr out_mod_ptr r).1
  joined :
      {r : Registry W} (hash_ptr name_sv_ptr out_mod_ptr : ℕ) {q : ℕ × Registry W}
      → Run loader r
      → join loader hash_ptr name_sv_ptr out_mod_ptr r ≡ some q
      → Run loader q.1
  released : {r : Registry W} (mh : ℕ) → Run loader r → Run loader (release_module mh r).1
  elsewhere :
      {r : Registry W} (m : Guest) (w : W) (t : Handles (Option ℕ))
      → Run loader r
      → Elsewhere r.handles t
      → Run loader (record r { guest = m; world = w; handles = t })

-- Counts and handles agree, and what is named is loaded.
pub record IsConsistent {W : Type 0} (r : Registry W) : Type 0 where
  pub counted : (s : ℕ) → s < max_slots → (r.slots s).refcount ≡ refs r.handles s
  pub loaded_iff : (s : ℕ) → s < max_slots → ((r.slots s).loaded ≡ true) ↔ (0 < refs r.handles s)
  pub handles_live :
      (h s : ℕ)
      → valid r.handles h loaded_module ≡ true
      → payload_at r.handles h ≡ some s
      → (s < max_slots) × ((r.slots s).loaded ≡ true)
  pub services_live :
      (i : ℕ)
      → i < max_services
      → (r.services i).in_use ≡ true
      → ((r.services i).slot < max_slots) × ((r.slots (r.services i).slot).loaded ≡ true)

module _ {W : Type 0} where
  IsFresh-Inv : (r : Registry W) → IsFresh r → Inv settled r
  IsFresh-Inv r f = record {
    cursor = record { low = f.cursor.low; high = f.cursor.high };
    counted = λ s lt. omega (arith, f.no_modules s, refs-none r.handles s (λ h. f.no_refs h s));
    in_slots = λ h s e. absurd (let never = f.no_refs h s in ground arith);
    live = λ s lt. ground (arith, f.no_modules s);
    served = λ i lt u. absurd (let never = f.no_services i in ground arith);
    unique = λ i j a b u v e. absurd (let never = f.no_services i in ground arith);
  }

  Elsewhere-Inv :
      (r : Registry W) (m : Guest) (w : W) (t : Handles (Option ℕ))
      → Elsewhere r.handles t
      → Inv settled r
      → Inv settled (record r { guest = m; world = w; handles = t })
  Elsewhere-Inv r m w t other inv = record {
    cursor = record { low = other.cursor.low; high = other.cursor.high };
    counted = λ s lt. omega (arith, inv.counted s lt, refs_ext r.handles t s (λ h. other.same h s));
    in_slots = λ h s e. inv.in_slots h s (sym (other.same h s) ∙ e);
    live = inv.live;
    served = inv.served;
    unique = inv.unique;
  }

  Inv-IsConsistent : (r : Registry W) → Inv settled r → IsConsistent r
  Inv-IsConsistent r inv = record {
    counted = λ s lt. omega (arith, inv.counted s lt);
    loaded_iff = λ s lt. (
      λ e. ground (arith, inv.counted s lt, inv.live s lt),
      λ p. ground (arith, inv.counted s lt, inv.live s lt),
    );
    handles_live = λ h s v e.
        let inside = inv.in_slots h s (is_ref-valid r.handles h v s e) in
        let some_there = refs_pos r.handles h v s e in
        (inside, ground (arith, inv.counted s inside, inv.live s inside));
    services_live = inv.served;
  }

module _ {W : Type 0} (loader : Loader W) where
  Run-Inv : {r : Registry W} → Run loader r → Inv settled r
  Run-Inv (started r fresh) = IsFresh-Inv r fresh
  Run-Inv (loaded {r} hash_ptr out_mod_ptr run) =
      load-Inv loader hash_ptr out_mod_ptr r (Run-Inv run)
  Run-Inv (joined {r} hash_ptr name_sv_ptr out_mod_ptr run e) =
      join-Inv loader hash_ptr name_sv_ptr out_mod_ptr r (Run-Inv run) e
  Run-Inv (released {r} mh run) = release_module-Inv mh r (Run-Inv run)
  Run-Inv (elsewhere {r} m w t run other) = Elsewhere-Inv r m w t other (Run-Inv run)

  -- In every state of a run of `load`, `join` and `release` from a registry without modules on,
  -- with any changes of the guest's memory, of the world and of handles that are no modules in
  -- between, the reference count of each slot is the number of module handles that stand for it;
  -- a slot is loaded exactly if there is such a handle; and the slot of every module handle that
  -- has one, and of every service in use, is one of the 16 and loaded.
  pub Run-IsConsistent : {r : Registry W} → Run loader r → IsConsistent r
  Run-IsConsistent {r} run = Inv-IsConsistent r (Run-Inv run)
