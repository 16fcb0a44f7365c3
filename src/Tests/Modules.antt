-- ===== src/Tests/Modules.antt =====
-- Runs of the module registry (runtime/desktop/src/wapi_host_module.c).
use wapi.Base.{ℕ, refl, false, true, none, some, [], ◌∷◌, replicate, inr, ◌==◌, arith}
use wapi.Guest.{Guest}
use wapi.Handles.{free, same_type, number}
use wapi.Modules.Registry.{Registry, Loader, load, release_module}
use wapi.Modules.Registry.Runs.{started, loaded, released, IsFresh, IsConsistent, Run-IsConsistent}

abbrev zeros : Guest
zeros = record { memory_valid = true; data_size = 1024; bytes = λ i. 0 }

-- The cache has one module, whose hash is all zeros.
abbrev nothing_loaded : Registry ℕ
nothing_loaded = record {
  guest = zeros;
  handles = record { entries = λ i. record { type = free; payload = none }; next_handle = 4 };
  cache = λ i. record { hash = replicate 32 0; path = 109 ∷ []; in_use = i == 0 };
  slots = λ i. record { loaded = false; hash = []; svc_name = []; refcount = 0 };
  services = λ i. record { hash = []; name = []; slot = 0; in_use = false };
  world = 0;
}

abbrev one_file : Loader ℕ
one_file = record {
  read_file = λ w path. (inr (7 ∷ []), w);
  sha256 = λ bytes. some (replicate 32 0);
  module_new = λ w bytes. (true, w);
  instantiate = λ w slot. (true, w);
}

nothing_loaded-IsFresh : IsFresh nothing_loaded
unfolding same_type number
nothing_loaded-IsFresh = record {
  cursor = record { low = omega arith; high = omega arith };
  no_refs = λ h s. refl;
  no_modules = λ s. (refl, refl);
  no_services = λ i. refl;
}

abbrev after_load : Registry ℕ
after_load = (load one_file 16 64 nothing_loaded).1

-- Two loads, and the release of the first handle.
Run-IsConsistent_example : IsConsistent (release_module 4 (load one_file 16 64 after_load).1).1
Run-IsConsistent_example =
    Run-IsConsistent one_file
      (released 4 (loaded 16 64 (loaded 16 64 (started nothing_loaded nothing_loaded-IsFresh))))
