-- ===== src/Fs/Paths/Confined.antt =====
-- What the suffix that `resolve_path` accepts can name: nothing above the directory it stands behind.
use wapi.Base.{
  ℕ, zero, suc, ◌-◌, ◌≤◌, ◌≡◌, refl, sym, ap, subst, ◌∙◌, inl, inr, ◌&&◌, ◌||◌, not, Bool, true,
  false, Option, none, some, List, [], ◌∷◌, ◌++◌, length, take, ◌==◌, if◌then◌else◌, Bool-cases,
  arith,
}
use mathlib.Core.List.{append_assoc, append-nil}
use wapi.Caps.Strings.{bytes_eq}
use wapi.Fs.{Preopen}
use wapi.Fs.Paths.{dot, is_sep, has_dotdot, suffix_of}

-- A path from left to right: the names between separators.
abbrev pub push_front : ℕ → List (List ℕ) → List (List ℕ)
push_front c [] = (c ∷ []) ∷ []
push_front c (s ∷ ss) = (c ∷ s) ∷ ss

abbrev pub segments : List ℕ → List (List ℕ)
segments [] = [] ∷ []
segments (c ∷ cs) = if is_sep c then [] ∷ segments cs else push_front c (segments cs)

abbrev pub dotdot : List ℕ
dotdot = dot ∷ dot ∷ []

-- The depth below the start at which a walk along the names ends; `none` if it ever leaves the start
-- upwards.
abbrev pub walk : List (List ℕ) → ℕ → Option ℕ
walk [] depth = some depth
walk (s ∷ ss) zero =
    let stay = walk ss 0 in
    let down = walk ss 1 in
    if bytes_eq s dotdot
    then none
    else if length s == 0 || bytes_eq s (dot ∷ [])
    then stay
    else down
walk (s ∷ ss) (suc depth) =
    let up = walk ss depth in
    let stay = walk ss (suc depth) in
    let down = walk ss (suc (suc depth)) in
    if bytes_eq s dotdot then up else if length s == 0 || bytes_eq s (dot ∷ []) then stay else down

abbrev pub at_sep : List ℕ → Bool
at_sep [] = true
at_sep (c ∷ cs) = is_sep c

-- `path` is the directory `root`, or lies below it.
pub record Under (root path : List ℕ) : Type 0 where
  pub rest : List ℕ
  pub is_rest : path ≡ root ++ rest
  pub apart : at_sep rest ≡ true
  pub plain : has_dotdot rest ≡ false
  pub stays : (depth : ℕ) × (walk (segments rest) 0 ≡ some depth)

-- `path` lies under one of the pre-opened directories, whose own path fits its array.
pub data Rooted : List Preopen → List ℕ → Type 0 where
  here :
      {po : Preopen} {pos : List Preopen} {path : List ℕ}
      → length po.host_path ≤ 511
      → Under po.host_path path
      → Rooted (po ∷ pos) path
  later :
      {po : Preopen} {pos : List Preopen} {path : List ℕ} → Rooted pos path → Rooted (po ∷ pos) path

abbrev up_free : List (List ℕ) → Bool
up_free [] = true
up_free (s ∷ ss) = not (bytes_eq s dotdot) && up_free ss

walk-up_free : (ss : List (List ℕ)) (d : ℕ) → up_free ss ≡ true → (n : ℕ) × (walk ss d ≡ some n)
walk-up_free [] d h = (d, refl)
walk-up_free (s ∷ ss) zero h =
    let (n, stay) = walk-up_free ss 0 (ground arith) in
    let (k, down) = walk-up_free ss 1 (ground arith) in
    let ordinary : bytes_eq s dotdot ≡ false = ground arith in
    elim (Bool-cases (length s == 0 || bytes_eq s (dot ∷ []))) [
      | inl e ↦ (n, rw (ordinary, e) stay)
      | inr e ↦ (k, rw (ordinary, e) down)
    ]
walk-up_free (s ∷ ss) (suc d) h =
    let (n, stay) = walk-up_free ss (suc d) (ground arith) in
    let (k, down) = walk-up_free ss (suc (suc d)) (ground arith) in
    let ordinary : bytes_eq s dotdot ≡ false = ground arith in
    elim (Bool-cases (length s == 0 || bytes_eq s (dot ∷ []))) [
      | inl e ↦ (n, rw (ordinary, e) stay)
      | inr e ↦ (k, rw (ordinary, e) down)
    ]

-- Two letters in front that are not both dots.
up_free-push_front :
    (a b : ℕ) (ss : List (List ℕ))
    → ((a == dot) && (b == dot)) ≡ false
    → up_free (push_front b ss) ≡ true
    → up_free (push_front a (push_front b ss)) ≡ true
up_free-push_front a b [] apart h = ground arith
up_free-push_front a b (s ∷ ss) apart h = ground arith

has_dotdot-up_free : (cs : List ℕ) → has_dotdot cs ≡ false → up_free (segments cs) ≡ true
has_dotdot-up_free [] h = refl
has_dotdot-up_free (a ∷ []) h = ground arith
has_dotdot-up_free (a ∷ b ∷ cs) h =
    let ih = has_dotdot-up_free (b ∷ cs) (ground arith) in
    let apart : ((a == dot) && (b == dot)) ≡ false = ground arith in
    elim (Bool-cases (is_sep a)) [
      | inl e ↦ rw e ih
      | inr e ↦ elim (Bool-cases (is_sep b)) [
        | inl f ↦ rw (e, f) (ground (arith, ih))
        | inr f ↦ rw (e, f) (up_free-push_front a b (segments cs) apart (rw f at ih))
      ]
    ]

-- A cut keeps a path that has no "..".
has_dotdot-take : (n : ℕ) (cs : List ℕ) → has_dotdot cs ≡ false → has_dotdot (take n cs) ≡ false
has_dotdot-take zero cs h = refl
has_dotdot-take (suc n) [] h = refl
has_dotdot-take (suc zero) (a ∷ []) h = refl
has_dotdot-take (suc (suc n)) (a ∷ []) h = refl
has_dotdot-take (suc zero) (a ∷ b ∷ cs) h = refl
has_dotdot-take (suc (suc n)) (a ∷ b ∷ cs) h =
    let ih = has_dotdot-take (suc n) (b ∷ cs) (ground arith) in ground arith

has_dotdot-append :
    (xs ys : List ℕ)
    → has_dotdot xs ≡ false
    → has_dotdot ys ≡ false
    → at_sep ys ≡ true
    → has_dotdot (xs ++ ys) ≡ false
has_dotdot-append [] ys hx hy sep = hy
has_dotdot-append (a ∷ []) [] hx hy sep = refl
has_dotdot-append (a ∷ []) (y ∷ ys) hx hy sep = ground arith
has_dotdot-append (a ∷ b ∷ xs) ys hx hy sep =
    let ih = has_dotdot-append (b ∷ xs) ys (ground arith) hy sep in ground arith

at_sep-append : (xs ys : List ℕ) → at_sep xs ≡ true → at_sep ys ≡ true → at_sep (xs ++ ys) ≡ true
at_sep-append [] ys hx hy = hy
at_sep-append (x ∷ xs) ys hx hy = hx

at_sep-take : (n : ℕ) (xs : List ℕ) → at_sep xs ≡ true → at_sep (take n xs) ≡ true
at_sep-take zero xs h = refl
at_sep-take (suc n) [] h = refl
at_sep-take (suc n) (x ∷ xs) h = h

take-append :
    (xs ys : List ℕ) (n : ℕ) → length xs ≤ n → take n (xs ++ ys) ≡ xs ++ take (n - length xs) ys
take-append [] ys n h = ap (λ k. take k ys) (omega arith)
take-append (x ∷ xs) ys zero h = absurd (omega arith)
take-append (x ∷ xs) ys (suc n) h =
    ap (λ zs. x ∷ zs) (take-append xs ys n (omega arith) ∙ ap (λ k. xs ++ take k ys) (omega arith))

-- What lies under a directory, then behind a separator and without "..", lies under it, cut or not,
-- as long as the cut spares the directory's own path.
pub Under-append :
    {root path : List ℕ} (suffix : List ℕ) (n : ℕ)
    → Under root path
    → at_sep suffix ≡ true
    → has_dotdot suffix ≡ false
    → length root ≤ n
    → Under root (take n (path ++ suffix))
Under-append {root} {path} suffix n u sep plain fits =
    let cut = take (n - length root) (u.rest ++ suffix) in
    let cut_plain =
      has_dotdot-take (n - length root) (u.rest ++ suffix)
        (has_dotdot-append u.rest suffix u.plain plain sep) in
    record {
      rest = cut;
      is_rest =
          ap (take n) (ap (λ p. p ++ suffix) u.is_rest ∙ append_assoc root u.rest suffix)
          ∙ take-append root (u.rest ++ suffix) n fits;
      apart =
          at_sep-take (n - length root) (u.rest ++ suffix)
            (at_sep-append u.rest suffix u.apart sep);
      plain = cut_plain;
      stays = walk-up_free (segments cut) 0 (has_dotdot-up_free cut cut_plain);
    }

-- The suffix of an accepted path.
pub suffix_of-plain :
    (rel : List ℕ) {suffix : List ℕ}
    → suffix_of rel ≡ some suffix
    → (at_sep suffix ≡ true) × (has_dotdot suffix ≡ false)
unfolding suffix_of
suffix_of-plain [] h = ground arith
suffix_of-plain (c ∷ cs) h = ground arith

pub Under-refl : (root : List ℕ) → Under root root
Under-refl root = record {
  rest = [];
  is_rest = sym (append-nil root);
  apart = refl;
  plain = refl;
  stays = (0, refl);
}

pub Rooted-append :
    {pos : List Preopen} {path : List ℕ} (suffix : List ℕ) (n : ℕ)
    → Rooted pos path
    → at_sep suffix ≡ true
    → has_dotdot suffix ≡ false
    → 511 ≤ n
    → Rooted pos (take n (path ++ suffix))
Rooted-append suffix n (here short u) sep plain fits =
    here short (Under-append suffix n u sep plain (omega arith))
Rooted-append suffix n (later r) sep plain fits = later (Rooted-append suffix n r sep plain fits)

-- A cut path.
pub Rooted-take :
    {pos : List Preopen} {path : List ℕ} (n : ℕ)
    → Rooted pos path
    → 511 ≤ n
    → Rooted pos (take n path)
Rooted-take {pos} {path} n r fits =
    subst (λ p. Rooted pos (take n p)) (append-nil path) (Rooted-append [] n r refl refl fits)

-- More pre-opened directories.
pub Rooted-more :
    {pos : List Preopen} {path : List ℕ} (more : List Preopen)
    → Rooted pos path
    → Rooted (pos ++ more) path
Rooted-more more (here short u) = here short u
Rooted-more more (later r) = later (Rooted-more more r)

pub Rooted-last :
    (pos : List Preopen) {po : Preopen} {path : List ℕ}
    → Rooted (po ∷ []) path
    → Rooted (pos ++ po ∷ []) path
Rooted-last [] r = r
Rooted-last (q ∷ pos) r = later (Rooted-last pos r)
