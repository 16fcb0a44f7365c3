-- ===== src/Kv/Keys.antt =====
-- Keys and the paths of their files.
use wapi.Base.{
  ℕ, ◌≡◌, refl, sym, ap, ap₂, ◌∙◌, subst, ◌↔◌, not, ◌&&◌, ◌||◌, Bool, true, false, some, List, [],
  ◌∷◌, ◌++◌, length, take, ◌==◌, if◌then◌else◌, length-append, arith,
}
use mathlib.Core.List.{append_cancel_left, head-eq_of_cons-eq, tail-eq_of_cons-eq}
use wapi.Fs.Paths.{path_sep, dot, has_dotdot}
use wapi.Fs.Paths.Confined.{Under, Under-refl, Under-append}
use wapi.Kv.{is_alnum, underscore, sanitize, sanitize_key, build_key_path}

take_all : {A : Type 0} (xs : List A) → take (length xs) xs ≡ xs
take_all [] = refl
take_all (x ∷ xs) = ap (λ ys. x ∷ ys) (take_all xs)

-- No letter of a name is a dot.
sanitize-plain : (a : ℕ) (cs : List ℕ) → (a == dot) ≡ false → has_dotdot (a ∷ sanitize cs) ≡ false
sanitize-plain a [] h = refl
sanitize-plain a (c ∷ cs) h =
    let apart : ((if is_alnum c then c else underscore) == dot) ≡ false = ground arith in
    let ih = sanitize-plain (if is_alnum c then c else underscore) cs apart in ground arith

-- The path of a key lies under the storage directory: behind it come a separator and names along
-- which a walk never climbs above the directory.
pub build_key_path-Under :
    (dir key : List ℕ) {name path : List ℕ}
    → sanitize_key key ≡ some name
    → build_key_path dir name ≡ some path
    → Under dir path
unfolding sanitize_key build_key_path
build_key_path-Under dir key {name} {path} h e =
    let whole = dir ++ path_sep ∷ name in
    let is_whole : whole ≡ path = ground arith in
    let is_name : sanitize key ≡ name = ground arith in
    let plain = sanitize-plain path_sep key refl in
    let u =
      Under-append (path_sep ∷ name) (length whole) (Under-refl dir) refl (rw is_name at plain)
        (omega (arith, length-append dir (path_sep ∷ name))) in
    subst (Under dir) (take_all whole ∙ is_whole) u

-- Two keys of one length that differ only where neither has a letter or a digit.
abbrev pub conflated : List ℕ → List ℕ → Bool
conflated [] [] = true
conflated [] (d ∷ ds) = false
conflated (c ∷ cs) [] = false
conflated (c ∷ cs) (d ∷ ds) = (c == d || not (is_alnum c) && not (is_alnum d)) && conflated cs ds

sanitize-conflated : (cs ds : List ℕ) → (sanitize cs ≡ sanitize ds) ↔ (conflated cs ds ≡ true)
sanitize-conflated [] [] = (λ h. refl, λ h. refl)
sanitize-conflated [] (d ∷ ds) = (λ h. ground arith, λ h. ground arith)
sanitize-conflated (c ∷ cs) [] = (λ h. ground arith, λ h. ground arith)
sanitize-conflated (c ∷ cs) (d ∷ ds) =
    let (to, from) = sanitize-conflated cs ds in
    (
      λ h.
          let letters : (if is_alnum c then c else underscore)
              ≡ (if is_alnum d then d else underscore) =
            head-eq_of_cons-eq h in
          let rest = to (tail-eq_of_cons-eq h) in ground (arith, letters, rest),
      λ h. ap₂ (λ x xs. x ∷ xs) (ground arith) (from (ground arith)),
    )

-- Two keys that have paths in the same directory have the same path exactly if they have the same
-- length and differ only where neither of them has a letter or a digit.
pub build_key_path-same :
    (dir key key' : List ℕ) {name name' path path' : List ℕ}
    → sanitize_key key ≡ some name
    → sanitize_key key' ≡ some name'
    → build_key_path dir name ≡ some path
    → build_key_path dir name' ≡ some path'
    → (path ≡ path') ↔ (conflated key key' ≡ true)
unfolding sanitize_key build_key_path
build_key_path-same dir key key' {name} {name'} {path} {path'} h h' e e' =
    let is_path : dir ++ path_sep ∷ name ≡ path = ground arith in
    let is_path' : dir ++ path_sep ∷ name' ≡ path' = ground arith in
    let is_name : sanitize key ≡ name = ground arith in
    let is_name' : sanitize key' ≡ name' = ground arith in
    let (to, from) = sanitize-conflated key key' in
    (
      λ q. to (
          is_name
          ∙ tail-eq_of_cons-eq (
              append_cancel_left dir (path_sep ∷ name) (path_sep ∷ name')
                (is_path ∙ q ∙ sym is_path'))
          ∙ sym is_name'),
      λ c. sym is_path ∙ ap (λ n. dir ++ path_sep ∷ n) (sym is_name ∙ from c ∙ is_name') ∙ is_path',
    )
