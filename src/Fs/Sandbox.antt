-- ===== src/Fs/Sandbox.antt =====
-- Which host paths a guest can reach through the imports of runtime/desktop/src/wapi_host_fs.c: the
-- invariant of the handle table and the list of pre-opened directories.
pub mod Calls
pub mod Runs
use wapi.Base.{
  ℕ, ◌+◌, ◌-◌, ◌≤◌, ◌<◌, ◌≡◌, refl, sym, ap, ◌∙◌, subst, ◌≢◌, inl, inr, not, Bool, true, false,
  none, some, List, [], ◌∷◌, ◌++◌, leb, ◌&&◌, take, length, ◌==◌, ==_iff, ==_refl, if◌then◌else◌,
  update, update_self, update_ne, Bool-cases, Option-cases, ℕ_discrete, arith,
}
use wapi.Abi.{le_zero}
use wapi.Handles.{
  Handles, Entry, HandleType, number, free, file, directory, preopen_dir, same_type, same_type_iff,
  type_at, payload_at, set_payload, max_handles, alloc, valid, release,
}
use wapi.Handles.Alloc.{IsValid, Allocated, Outcome, took, full, alloc-Outcome}
use wapi.Handles.Checks.{valid_iff}
use wapi.Fs.{Fs, Payload, zeroed, dir, dir_of, Preopen}
use wapi.Fs.Paths.{base_of, suffix_of, resolve_path, preopen_path_of}
use wapi.Fs.Paths.Confined.{Rooted, Rooted-append, suffix_of-plain}

-- Every directory handle and every pre-opened directory stands for a path under a pre-opened one.
pub record IsRooted (t : Handles Payload) (pos : List Preopen) : Type 0 where
  pub cursor : IsValid t
  pub dirs : (h : ℕ) → type_at t h ≡ directory → Rooted pos (dir_of (payload_at t h))
  pub roots : (fd : ℕ) {base : List ℕ} → preopen_path_of pos fd ≡ some base → Rooted pos base

directory≢free : directory ≢ free
directory≢free e = ground (arith, (same_type_iff directory free).1 e)

preopen_dir≢free : preopen_dir ≢ free
preopen_dir≢free e = ground (arith, (same_type_iff preopen_dir free).1 e)

module _ {W : Type 0} (s : Fs W) where
  base_of-Rooted :
      (fd : ℕ) {base : List ℕ}
      → IsRooted s.handles s.preopens
      → base_of s fd ≡ some base
      → Rooted s.preopens base
  unfolding base_of
  base_of-Rooted fd {base} inv h = elim (Bool-cases (valid s.handles fd directory)) [
    | inl v ↦ elim (Bool-cases (same_type (type_at s.handles fd) preopen_dir)) [
      | inl e ↦ inv.roots fd (ground arith)
      | inr e ↦
          subst (λ p. Rooted s.preopens p) {y = base} (ground arith)
            (inv.dirs fd ((valid_iff s.handles fd directory directory≢free).0 v).2)
    ]
    | inr v ↦ inv.roots fd (
        ground (
          arith,
          valid_iff s.handles fd preopen_dir preopen_dir≢free,
          same_type_iff (type_at s.handles fd) preopen_dir,
        ))
  ]

  -- A path that `resolve_path` gives, with 1024 bytes for it.
  pub resolve_path-Rooted :
      (fd : ℕ) (rel : List ℕ) {path : List ℕ}
      → IsRooted s.handles s.preopens
      → resolve_path s fd rel 1024 ≡ some path
      → Rooted s.preopens path
  unfolding resolve_path
  resolve_path-Rooted fd rel {path} inv h = elim (Option-cases (base_of s fd)) [
    | inl n ↦ absurd (ground arith)
    | inr (base, e) ↦ elim (Option-cases (suffix_of rel)) [
      | inl n ↦ absurd (ground arith)
      | inr (suffix, f) ↦
          let (sep, plain) = suffix_of-plain rel f in
          subst (λ p. Rooted s.preopens p) {y = path} (ground arith)
            (Rooted-append suffix 1023 (base_of-Rooted fd inv e) sep plain (omega arith))
    ]
  ]

-- Writing one entry of the table.
dirs-update :
    {pos : List Preopen} (es : ℕ → Entry Payload) (h : ℕ) (v : Entry Payload)
    → (v.type ≡ directory → Rooted pos (dir_of v.payload))
    → ((i : ℕ) → i ≢ h → (es i).type ≡ directory → Rooted pos (dir_of (es i).payload))
    → (i : ℕ) → (update es h v i).type ≡ directory
    → Rooted pos (dir_of (update es h v i).payload)
dirs-update {pos} es h v new old i is_dir = elim (ℕ_discrete i h) [
  | yes e ↦
      let here : update es h v i ≡ v = ap (update es h v) e ∙ update_self es h v in
      subst (λ x. Rooted pos (dir_of x.payload)) (sym here)
        (new (sym (ap (λ x. x.type) here) ∙ is_dir))
  | no ne ↦
      let there = update_ne es h v i ne in
      subst (λ x. Rooted pos (dir_of x.payload)) (sym there)
        (old i ne (sym (ap (λ x. x.type) there) ∙ is_dir))
]

-- A new entry, a directory only with a path under a pre-opened one.
pub IsRooted-new :
    {t t' : Handles Payload} {pos : List Preopen} {type : HandleType} {h : ℕ} (d : Payload)
    → IsRooted t pos
    → Allocated zeroed t type h t'
    → (type ≡ directory → Rooted pos (dir_of d))
    → IsRooted (set_payload t' h d) pos
IsRooted-new {t} {t'} {pos} {type} {h} d inv a new = record {
  cursor = record { low = a.keeps.low; high = a.keeps.high };
  dirs =
      dirs-update t'.entries h (record { type = type_at t' h; payload = d })
        (λ is_dir. new (sym a.has_type ∙ is_dir))
        (λ i ne is_dir.
          subst (λ x. Rooted pos (dir_of x.payload)) (sym (a.others i ne))
            (inv.dirs i (sym (ap (λ x. x.type) (a.others i ne)) ∙ is_dir)));
  roots = inv.roots;
}

pub IsRooted-release :
    {t : Handles Payload} {pos : List Preopen} (h : ℕ)
    → IsRooted t pos
    → IsRooted (release zeroed t h) pos
unfolding release
IsRooted-release {t} {pos} h inv = elim (Bool-cases (not (le_zero h) && not (leb max_handles h))) [
  | inr e ↦ rw e inv
  | inl e ↦ rw e (record {
    cursor = record { low = inv.cursor.low; high = inv.cursor.high };
    dirs =
        dirs-update t.entries h (record { type = free; payload = zeroed })
          (λ is_dir. absurd (directory≢free (sym is_dir))) (λ i ne is_dir. inv.dirs i is_dir);
    roots = inv.roots;
  })
]
