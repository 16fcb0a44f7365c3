-- ===== src/Handles/Alloc.antt =====
-- What the handle table guarantees to the code that allocates and frees its entries.
use wapi.Base.{
  ℕ, ◌-◌, ◌≤◌, ◌<◌, ◌≡◌, ap, ◌≢◌, inl, inr, true, false, arith, find_from, find_from-Found,
  find_from-none, update_self, update_ne, Option-cases, dec_lt,
}
use wapi.Handles.{
  HandleType, free, same_type_iff, Handles, max_handles, type_at, payload_at, free_at, take_entry,
  alloc, release,
}

module _ {D : Type 0} where
  -- The cursor lies behind the standard streams and inside the table.
  pub record IsValid (t : Handles D) : Type 0 where
    pub low : 4 ≤ t.next_handle
    pub high : t.next_handle ≤ max_handles

  -- What a successful allocation of the entry `h` has done to the table `t`.
  pub record Allocated (zeroed : D) (t : Handles D) (type : HandleType) (h : ℕ) (t' : Handles D)
      : Type 0 where
    pub above_streams : 4 ≤ h
    pub in_table : h < max_handles
    pub was_free : type_at t h ≡ free
    pub has_type : type_at t' h ≡ type
    pub is_zeroed : payload_at t' h ≡ zeroed
    pub others : (i : ℕ) → i ≢ h → t'.entries i ≡ t.entries i
    pub keeps : IsValid t'

  take_entry-Allocated :
      (zeroed : D) (t : Handles D) (type : HandleType) (h : ℕ)
      → 4 ≤ h
      → h < max_handles
      → free_at t h ≡ true
      → Allocated zeroed t type h (take_entry zeroed t type h)
  take_entry-Allocated zeroed t type h lo hi e = record {
    above_streams = lo;
    in_table = hi;
    was_free = (same_type_iff (type_at t h) free).0 e;
    has_type =
        ap (λ x. x.type) (update_self t.entries h (record { type = type; payload = zeroed }));
    is_zeroed =
        ap (λ x. x.payload) (update_self t.entries h (record { type = type; payload = zeroed }));
    others = λ i ne. update_ne t.entries h (record { type = type; payload = zeroed }) i ne;
    keeps = omega arith;
  }

  -- The two ways in which an allocation ends.
  pub data Outcome (zeroed : D) (t : Handles D) (type : HandleType) : ℕ × Handles D → Type 0 where
    took : {h : ℕ} {t' : Handles D} → Allocated zeroed t type h t' → Outcome zeroed t type (h, t')
    full : ((i : ℕ) → 4 ≤ i → i < max_handles → free_at t i ≡ false) → Outcome zeroed t type (0, t)

  -- On a table whose cursor lies between 4 and 4096, `wapi_handle_alloc` returns an entry from 4
  -- to 4095 that was free, now zeroed and of the wanted type, changes no other entry and keeps
  -- the cursor in its bounds; or it returns 0 and changes nothing, and then no entry from 4 on is
  -- free.
  pub alloc-Outcome :
      (zeroed : D) (t : Handles D) (type : HandleType)
      → IsValid t
      → Outcome zeroed t type (alloc zeroed t type)
  unfolding alloc
  alloc-Outcome zeroed t type v =
      elim (Option-cases (find_from (free_at t) t.next_handle (max_handles - t.next_handle))) [
        | inr (i, e) ↦
            let f = find_from-Found (free_at t) _ _ i e in
            rw (e, alloc)
              (took (take_entry-Allocated zeroed t type i (omega arith) (omega arith) f.hit))
        | inl none_above ↦ elim (Option-cases (find_from (free_at t) 4 (t.next_handle - 4))) [
          | inr (i, e) ↦
              let f = find_from-Found (free_at t) _ _ i e in
              rw (none_above, e, alloc)
                (took (take_entry-Allocated zeroed t type i (omega arith) (omega arith) f.hit))
          | inl none_below ↦
              rw (none_above, none_below, alloc)
                (full (λ i lo hi. elim (dec_lt i t.next_handle) [
                  | yes below ↦ find_from-none (free_at t) 4 _ none_below i lo (omega arith)
                  | no above ↦
                      find_from-none (free_at t) _ _ none_above i (omega arith) (omega arith)
                ]))
        ]
      ]

  pub release-IsValid :
      (zeroed : D) (t : Handles D) (h : ℕ) → IsValid t → IsValid (release zeroed t h)
  unfolding release
  release-IsValid zeroed t h v = ground arith
