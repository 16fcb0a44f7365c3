-- ===== src/Io/Files/Bounds.antt =====
-- Which bytes of the guest `op_read` changes.
use wapi.Base.{
  ℕ, ◌+◌, ◌^◌, ◌≤◌, ◌<◌, ◌≡◌, refl, ◌∙◌, ◌⊎◌, inl, inr, true, length, arith, store_below,
  store_above, ℕ_discrete, Option-cases, Bool-cases,
}
use wapi.Abi.{u32}
use wapi.Guest.{wasm_ptr}
use wapi.Guest.Access.{wasm_ptr-in_bounds, wasm_ptr-empty}
use wapi.Handles.{valid, file, payload_at}
use wapi.Runtime.{Runtime, Host, OpCtx, stream_of}
use wapi.Io.Files.{seek, read_into, op_read}

-- `fread` stores no more than it was asked for.
unfoldable pub FreadBounded : {W : Type 0} → Host W → Type 0
FreadBounded {W} host = (w : W) (f n : ℕ) → length (host.fread w f n).0 ≤ n

module _ {W : Type 0} (host : Host W) where
  read_into-same_outside :
      (c : OpCtx) (buf : ℕ) (rt : Runtime W)
      → FreadBounded host
      → c.result_ptr ≡ 0
      → (j : ℕ) → (j < buf) ⊎ (buf + c.len ≤ j)
      → (read_into host c buf rt).1.guest.bytes j ≡ rt.guest.bytes j
  unfolding read_into FreadBounded
  read_into-same_outside c buf rt bounded no_ptr j out =
      let f = stream_of (payload_at rt.handles c.fd) in
      let (got, w) = host.fread (seek host f c.offset rt.world) f c.len in
      let fits = bounded (seek host f c.offset rt.world) f c.len in
      rw (read_into, no_ptr)
        (elim out [
          | inl low ↦ store_below rt.guest.bytes buf got j low
          | inr high ↦ store_above rt.guest.bytes buf got j (omega (arith, fits, high))
        ])

  -- With a `fread` that stores no more than it is asked for, an operation without a result
  -- pointer, and an address and a length below 2 ^ 32, `op_read` changes no byte outside the
  -- guest's buffer.
  pub op_read-same_outside :
      (c : OpCtx) (rt : Runtime W)
      → FreadBounded host
      → c.result_ptr ≡ 0
      → c.addr < 2 ^ 32
      → c.len < 2 ^ 32
      → (j : ℕ) → (j < c.addr) ⊎ (c.addr + c.len ≤ j)
      → (op_read host c rt).1.guest.bytes j ≡ rt.guest.bytes j
  unfolding op_read
  op_read-same_outside c rt bounded no_ptr addr len j out =
      elim (Bool-cases (valid rt.handles c.fd file)) [
        | inr e ↦ rw (e, op_read) refl
        | inl e ↦ elim (Option-cases (wasm_ptr rt.guest (u32 c.addr) (u32 c.len))) [
          | inl n ↦ rw (e, op_read, n) refl
          | inr (buf, s) ↦
              rw (e, op_read, s)
                (read_at buf (elim (ℕ_discrete c.len 0) [
                  | yes z ↦ inr z
                  | no nz ↦ inl (
                      (wasm_ptr-in_bounds rt.guest (u32 c.addr) (u32 c.len) (omega arith) s).0
                      ∙ omega arith)
                ]))
        ]
      ]
    where
      read_at :
          (buf : ℕ)
          → (buf ≡ c.addr) ⊎ (c.len ≡ 0)
          → (read_into host c buf rt).1.guest.bytes j ≡ rt.guest.bytes j
      read_at buf (inl e) = read_into-same_outside c buf rt bounded no_ptr j (rw e out)
      read_at buf (inr z) = read_into-same_outside c buf rt bounded no_ptr j (omega arith)

  -- On a file handle, with a memory present, `op_read` of 2 ^ 32 bytes passes the check of the
  -- buffer at any address and goes on to read, whatever the size of the memory.
  op_read-unchecked_length :
      (c : OpCtx) (rt : Runtime W)
      → valid rt.handles c.fd file ≡ true
      → rt.guest.memory_valid ≡ true
      → c.len ≡ 2 ^ 32
      → op_read host c rt ≡ read_into host c (u32 c.addr) rt
  unfolding op_read
  op_read-unchecked_length c rt v m len =
      let accepted = wasm_ptr-empty rt.guest (u32 c.addr) (u32 c.len) m (omega arith) in
      rw (op_read, v, accepted) refl
