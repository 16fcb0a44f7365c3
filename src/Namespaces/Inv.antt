-- ===== src/Namespaces/Inv.antt =====
-- Registration and lookup of namespaces agree.
use wapi.Base.{
  some-injective, ℕ, ◌+◌, ◌%◌, ◌^◌, ◌≤◌, ◌<◌, ◌≡◌, ◌≢◌, refl, ap, subst, sym, ◌∙◌, inl, inr, ◌&&◌,
  true, false, dec_lt, Option, none, some, List, arith, find_from, find_from-Found, find_from-none,
  find_from-hit, update, update_self, update_ne, Option-cases, ℕ_discrete,
}
use mathlib.Core.Bool.{true≢false}
use wapi.Caps.Strings.{bytes_eq, bytes_eq_refl, bytes_eq-≡}
use wapi.Namespaces.{
  Namespace, Namespaces, max_namespaces, c_string, registered_at, unused_at, register, has_id,
  name_of,
}

-- The `used` names are in the first entries, numbered from 1.
pub record IsValid (t : Namespaces) : Type 0 where
  pub used : ℕ
  pub bounded : used ≤ max_namespaces
  pub next : t.next_id ≡ used + 1
  pub numbered : (i : ℕ) → i < used → ((t.entries i).in_use ≡ true) × ((t.entries i).id ≡ i + 1)
  pub rest : (i : ℕ) → used ≤ i → i < max_namespaces → (t.entries i).in_use ≡ false

-- A name without a 0 in it.
pub IsCString : List ℕ → Type 0
IsCString name = c_string name ≡ name

-- The two ways in which a registration ends.
pub data Outcome (name : List ℕ) (t : Namespaces) : Option ℕ × Namespaces → Type 0 where
  known :
      (i : ℕ)
      → i < max_namespaces
      → registered_at name t i ≡ true
      → Outcome name t (some (t.entries i).id, t)
  added :
      (i : ℕ)
      → i < max_namespaces
      → (t.entries i).in_use ≡ false
      → ((j : ℕ) → j < i → (t.entries j).in_use ≡ true)
      → ((j : ℕ) → j < max_namespaces → registered_at name t j ≡ false)
      → Outcome name t (
        some t.next_id,
        record {
          entries = update t.entries i (record { name = name; id = t.next_id; in_use = true });
          next_id = (t.next_id + 1) % 2 ^ 16;
        },
      )
  no_room : ((i : ℕ) → i < max_namespaces → (t.entries i).in_use ≡ true) → Outcome name t (none, t)

register-Outcome : (name : List ℕ) (t : Namespaces) → Outcome name t (register name t)
unfolding register
register-Outcome name t = elim (Option-cases (find_from (registered_at name t) 0 max_namespaces)) [
  | inr (i, e) ↦
      let f = find_from-Found (registered_at name t) 0 max_namespaces i e in
      rw (e, register) (known i (omega (arith, f.high)) f.hit)
  | inl n ↦ elim (Option-cases (find_from (unused_at t) 0 max_namespaces)) [
    | inl m ↦
        rw (n, register, m)
          (no_room (λ i lt.
            ground (
              arith,
              find_from-none (unused_at t) 0 max_namespaces m i (omega arith) (omega arith),
            )))
    | inr (i, e) ↦
        let f = find_from-Found (unused_at t) 0 max_namespaces i e in
        rw (n, register, e)
          (added i (omega (arith, f.high)) (ground (arith, f.hit))
            (λ j lt. ground (arith, f.first j (omega arith) lt))
            (λ j lt.
              find_from-none (registered_at name t) 0 max_namespaces n j (omega arith)
                (omega arith)))
  ]
]

-- The index at which a new name goes is the number of names in use.
free_index :
    (t : Namespaces) (v : IsValid t) (i : ℕ)
    → i < max_namespaces
    → (t.entries i).in_use ≡ false
    → ((j : ℕ) → j < i → (t.entries j).in_use ≡ true)
    → i ≡ v.used
free_index t v i lt idle busy = elim (dec_lt i v.used) [
  | yes below ↦ absurd (true≢false (sym (v.numbered i below).0 ∙ idle))
  | no above ↦ elim (ℕ_discrete i v.used) [
    | yes e ↦ e
    | no ne ↦
        absurd
          (true≢false (sym (busy v.used (omega arith)) ∙ v.rest v.used (omega arith) (omega arith)))
  ]
]

-- Registration keeps the invariant of the table: the names in use are in the first entries, at
-- most 64, numbered from 1 in order, and the next number is one more than their count.
pub register-IsValid : (name : List ℕ) (t : Namespaces) → IsValid t → IsValid (register name t).1
register-IsValid name t v = keeps (register-Outcome name t)
  where
    keeps : {r : Option ℕ × Namespaces} → Outcome name t r → IsValid r.1
    keeps (known i lt h) = v
    keeps (no_room h) = v
    keeps (added i lt idle busy absent) =
        let at = free_index t v i lt idle busy in
        let new : Namespace = record { name = name; id = t.next_id; in_use = true } in
        record {
          used = v.used + 1;
          bounded = omega (arith, v.bounded, at);
          next = omega (arith, v.next, v.bounded);
          numbered = λ j below. elim (ℕ_discrete j i) [
            | yes e ↦ rw (e, update_self t.entries i new) (refl, omega (arith, v.next, at))
            | no ne ↦ rw (update_ne t.entries i new j ne) (v.numbered j (omega (arith, at)))
          ];
          rest = λ j above hi.
              rw (update_ne t.entries i new j (λ e. omega (arith, at))) (v.rest j (omega arith) hi);
        }

-- The names in use have different ids.
index_of :
    (t : Namespaces) (v : IsValid t) (i k : ℕ)
    → i < v.used
    → k < max_namespaces
    → has_id (t.entries i).id t k ≡ true
    → k ≡ i
index_of t v i k lt hi h =
    let at_i = (v.numbered i lt).1 in
    elim (dec_lt k v.used) [
      | yes below ↦ let at_k = (v.numbered k below).1 in ground (arith, at_i, at_k, v.bounded)
      | no above ↦ absurd (ground (arith, v.rest k (omega arith) hi))
    ]

-- The id that an entry has leads back to it.
id_of :
    (t : Namespaces)
    → IsValid t
    → (i : ℕ) → i < max_namespaces
    → (t.entries i).in_use ≡ true
    → name_of (t.entries i).id t ≡ some (c_string (t.entries i).name)
unfolding name_of
id_of t v i lt busy =
    let below : i < v.used = elim (dec_lt i v.used) [
      | yes b ↦ b
      | no above ↦ absurd (true≢false (sym busy ∙ v.rest i (omega arith) lt))
    ] in
    let small : (t.entries i).id % 2 ^ 16 ≡ (t.entries i).id =
      omega (arith, (v.numbered i below).1, v.bounded) in
    let same : has_id (t.entries i).id t i ≡ true = ground (arith, busy, small) in
    let (k, e) =
      find_from-hit (has_id (t.entries i).id t) 0 max_namespaces i (omega arith) (omega arith)
        same in
    let f = find_from-Found (has_id (t.entries i).id t) 0 max_namespaces k e in
    rw (e, name_of)
      (ap (λ j. some (c_string (t.entries j).name))
        (index_of t v i k below (omega (arith, f.high)) f.hit))

-- On a table that satisfies the invariant, the id that the registration of a name without a 0 in
-- it returns stands for that name.
register-name_of :
    (name : List ℕ) (t : Namespaces) (id : ℕ)
    → IsValid t
    → c_string name ≡ name
    → (register name t).0 ≡ some id
    → name_of id (register name t).1 ≡ some name
register-name_of name t id v plain e = back (register-Outcome name t) (register-IsValid name t v) e
  where
    back :
        {r : Option ℕ × Namespaces}
        → Outcome name t r
        → IsValid r.1
        → r.0 ≡ some id
        → name_of id r.1 ≡ some name
    back (known i lt h) v' e =
        let at_i = id_of t v' i lt (ground (arith, h)) in
        (rw (some-injective _ _ e) at at_i)
        ∙ ap some (bytes_eq-≡ (c_string (t.entries i).name) name (ground (arith, h)))
    back (no_room h) v' e = absurd (ground (arith, e))
    back (added i lt idle busy absent) v' e =
        let t' : Namespaces = record {
          entries = update t.entries i (record { name = name; id = t.next_id; in_use = true });
          next_id = (t.next_id + 1) % 2 ^ 16;
        } in
        let here =
          update_self t.entries i (record { name = name; id = t.next_id; in_use = true }) in
        let at_i = id_of t' v' i lt (ap (λ n. n.in_use) here) in
        subst (λ n. name_of n t' ≡ some name) (some-injective _ _ e)
          (subst (λ n. name_of n.id t' ≡ some (c_string n.name)) here at_i ∙ ap some plain)

-- A table in which one entry has the name, and only that.
found :
    {name : List ℕ} {id next : ℕ} (t : Namespaces) (i : ℕ)
    → some next ≡ some id
    → c_string name ≡ name
    → t.entries i ≡ record { name = name; id = next; in_use = true }
    → ((k : ℕ) → k < max_namespaces → k ≢ i → registered_at name t k ≡ false)
    → i < max_namespaces
    → register name t ≡ (some id, t)
unfolding register
found {name} {id} {next} t i e plain here others lt =
    let hit : registered_at name t i ≡ true =
      subst (λ n. (n.in_use && bytes_eq (c_string n.name) name) ≡ true) (sym here)
        (subst (λ n. bytes_eq n name ≡ true) (sym plain) (bytes_eq_refl name)) in
    let (k, s) =
      find_from-hit (registered_at name t) 0 max_namespaces i (omega arith) (omega arith) hit in
    let f = find_from-Found (registered_at name t) 0 max_namespaces k s in
    let same : k ≡ i = elim (ℕ_discrete k i) [
      | yes y ↦ y
      | no ne ↦ absurd (true≢false (sym f.hit ∙ others k (omega (arith, f.high)) ne))
    ] in
    rw (register, s) (ap (λ o. (o, t)) (ap (λ n. some n.id) (ap t.entries same ∙ here) ∙ e))

-- Where the registration of a name without a 0 in it returns an id, registering the name again
-- returns the same id and leaves the table as it is.
register-again :
    (name : List ℕ) (t : Namespaces) (id : ℕ)
    → c_string name ≡ name
    → (register name t).0 ≡ some id
    → register name (register name t).1 ≡ (some id, (register name t).1)
register-again name t id plain e = again refl (register-Outcome name t) e
  where
    again :
        {r : Option ℕ × Namespaces}
        → r ≡ register name t
        → Outcome name t r
        → r.0 ≡ some id
        → register name r.1 ≡ (some id, r.1)
    again q (known i lt h) e = sym q ∙ ap (λ o. (o, t)) e
    again q (no_room h) e = absurd (ground (arith, e))
    again q (added i lt idle busy absent) e =
        let new : Namespace = record { name = name; id = t.next_id; in_use = true } in
        let t' : Namespaces = record {
          entries = update t.entries i new;
          next_id = (t.next_id + 1) % 2 ^ 16;
        } in
        let here = update_self t.entries i new in
        found t' i e plain here
          (λ k hi ne.
            ap (λ n. n.in_use && bytes_eq (c_string n.name) name) (update_ne t.entries i new k ne)
            ∙ absent k hi)
          lt
