-- ===== src/Kv/Listing/Indices.antt =====
-- `count` and `key_at` agree.
use wapi.Base.{
  ℕ, zero, suc, ◌^◌, ◌<◌, ◌≡◌, refl, sym, ap, ◌∙◌, ◌↔◌, inl, inr, true, false, List, [], ◌∷◌,
  length, Bool-cases, Option-cases, is_some, arith,
}
use mathlib.Core.Bool.{false≢true}
use wapi.Abi.{ok, u32, is_neg}
use wapi.Fs.{CLib}
use wapi.Kv.{Kv, ensure_kv_dir}
use wapi.Kv.Listing.{nth_name, key_files, count, report_key, key_at}

nth_name-some : (ks : List (List ℕ)) (i : ℕ) → (is_some (nth_name ks i) ≡ true) ↔ (i < length ks)
nth_name-some [] i = (λ h. ground arith, λ h. absurd (omega arith))
nth_name-some (k ∷ ks) zero = (λ h. omega arith, λ h. refl)
nth_name-some (k ∷ ks) (suc i) =
    let (to, from) = nth_name-some ks i in (λ h. omega (arith, to h), λ h. from (omega (arith, h)))

module _ {W : Type 0} (lib : CLib W) where
  -- For an index below 2 ^ 31 and less than 2 ^ 31 files, `key_at` answers OK exactly if the
  -- index lies below the number that `count` gives in the same state.
  pub key_at-count :
      (s : Kv W) (index buf_ptr buf_len len_ptr : ℕ)
      → index < 2 ^ 31
      → length (key_files lib (ensure_kv_dir lib s).1) < 2 ^ 31
      → ((key_at lib index buf_ptr buf_len len_ptr s).0 ≡ ok) ↔ (index < (count lib s).0)
  unfolding key_at count report_key
  key_at-count s index buf_ptr buf_len len_ptr small few =
      let (to, from) = nth_name-some (key_files lib (ensure_kv_dir lib s).1) index in
      let nonneg : is_neg index ≡ false = ground arith in
      let wrap : u32 (length (key_files lib (ensure_kv_dir lib s).1))
          ≡ length (key_files lib (ensure_kv_dir lib s).1) =
        omega arith in
      elim (Bool-cases (ensure_kv_dir lib s).0) [
        | inr e ↦
            rw (key_at, nonneg, e) (λ h. absurd (omega (arith, h)), λ h. absurd (omega (arith, h)))
        | inl e ↦ elim (Option-cases (nth_name (key_files lib (ensure_kv_dir lib s).1) index)) [
          | inl n ↦
              rw (key_at, nonneg, e, n, wrap)
                (
                  λ h. absurd (omega (arith, h)),
                  λ h. absurd (false≢true (sym (ap is_some n) ∙ from h)),
                )
          | inr (k, n) ↦ rw (key_at, nonneg, e, n, wrap) (λ h. to (ap is_some n), λ h. refl)
        ]
      ]
