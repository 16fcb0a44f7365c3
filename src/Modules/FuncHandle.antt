-- ===== src/Modules/FuncHandle.antt =====
-- A packed function handle gives back its module and its index.
use wapi.Base.{ℕ, ◌/◌, ◌%◌, ◌^◌, ◌<◌, ◌≡◌, refl, true, some, arith}
use wapi.Handles.{Handles, loaded_module, valid, payload_at, max_handles}
use wapi.Modules.{pack_func_handle, unpack}

-- For a handle below 4096 of a loaded module and an index below 2 ^ 16, unpacking the packed
-- function handle gives the module's own data and the index.
unpack-pack_func_handle :
    {D : Type 0} (t : Handles D) (mh fi : ℕ)
    → mh < max_handles
    → fi < 2 ^ 16
    → valid t mh loaded_module ≡ true
    → unpack t (pack_func_handle mh fi) ≡ (some (payload_at t mh), fi)
unfolding unpack pack_func_handle
unpack-pack_func_handle t mh fi hi small v =
    let low : pack_func_handle mh fi % 2 ^ 16 ≡ fi = omega arith in
    let high : pack_func_handle mh fi / 2 ^ 16 % 2 ^ 16 ≡ mh = omega arith in
    rw (unpack, high, low, v) refl
