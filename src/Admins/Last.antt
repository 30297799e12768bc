-- ===== src/Admins/Last.antt =====
-- Sequences of the operations of src/gafaelfawr/services/admin.py.
use mathlib.Core.Path.{subst}
use gafaelfawr.Prelude.{
  ℕ, String, ◌≡◌, ◌≢◌, ◌⊎◌, inl, inr, refl, false, not, List, ◌∷◌, [], arith, ◌==◌, string_eq,
  contains, filter, Bool-cases, ==→≡, ==_refl,
}
use gafaelfawr.Models.Scopes.{sorted, insert}
use gafaelfawr.Admins.{
  AdminDatabase, add_row, delete_row, get_admins, is_admin_in, may_change, is_only, is_entry,
  add_admin, noted, delete_admin, record_change, add_initial_admins,
}
use gafaelfawr.Admins.Laws.{contains-filter}

-- The primary key of the table `admin`.
abbrev pub IsUnique : List String → Type 0
IsUnique [] = Unit
IsUnique (x ∷ xs) = (contains xs x ≡ false) × IsUnique xs

abbrev pub HasAdmin : AdminDatabase → Type 0
HasAdmin db = (db.admins ≢ []) × IsUnique db.admins

-- Calls in any order, whatever they return.
pub data Changes : AdminDatabase → AdminDatabase → Type 0 where
  none : {db : AdminDatabase} → Changes db db
  after_add :
      {db t : AdminDatabase} (username actor ip_address : String) (now : ℕ)
      → Changes db t
      → Changes db (add_admin username actor ip_address now t).1
  after_delete :
      {db t : AdminDatabase} (username actor ip_address : String) (now : ℕ)
      → Changes db t
      → Changes db (delete_admin username actor ip_address now t).1
  after_start :
      {db t : AdminDatabase} (usernames : List String)
      → Changes db t
      → Changes db (add_initial_admins usernames t).1

IsUnique-filter :
    (u : String) (xs : List String) → IsUnique xs → IsUnique (filter (λ a. not (a == u)) xs)
IsUnique-filter u [] h = tt
IsUnique-filter u (x ∷ xs) h = elim (Bool-cases (x == u)) [
  | inl same ↦ rw same (IsUnique-filter u xs h.1)
  | inr other ↦ rw other (ground (arith, h.0, contains-filter xs u x), IsUnique-filter u xs h.1)
]

-- Only the user goes away.
filter-empty :
    (u : String) (xs : List String)
    → IsUnique xs
    → filter (λ a. not (a == u)) xs ≡ []
    → (xs ≡ []) ⊎ (xs ≡ u ∷ [])
filter-empty u [] h e = inl refl
filter-empty u (x ∷ xs) h e = elim (Bool-cases (x == u)) [
  | inr other ↦ absurd (ground arith)
  | inl same ↦ elim (filter-empty u xs h.1 (ground arith)) [
    | inl nothing ↦ inr (rw (nothing, ==→≡ x u same) refl)
    | inr again ↦
        let twice : contains (u ∷ []) x ≡ false = subst (λ ys. contains ys x ≡ false) again h.0 in
        absurd (ground (arith, ==→≡ x u same))
  ]
]

add_row-HasAdmin : (u : String) (t : AdminDatabase) → HasAdmin t → HasAdmin (add_row u t).1
unfolding add_row
add_row-HasAdmin u t h = elim (Bool-cases (contains t.admins u)) [
  | inl present ↦ rw present h
  | inr absent ↦ rw absent (λ e. ground arith, (absent, h.1))
]

add_admin-HasAdmin :
    (username actor ip_address : String) (now : ℕ) (t : AdminDatabase)
    → HasAdmin t
    → HasAdmin (add_admin username actor ip_address now t).1
unfolding add_admin add_row record_change
add_admin-HasAdmin username actor ip_address now t h = elim (Bool-cases (may_change t actor)) [
  | inr denied ↦ rw denied h
  | inl allowed ↦ elim (Bool-cases (is_admin_in t username)) [
    | inl present ↦ rw (allowed, present) h
    | inr absent ↦ elim (Bool-cases (is_entry username actor)) [
      | inr bad ↦ rw (allowed, absent, bad) h
      | inl fit ↦ elim (Bool-cases (contains t.admins username)) [
        | inl row ↦ rw (allowed, absent, fit, row) h
        | inr new ↦ rw (allowed, absent, fit, new) (λ e. ground arith, (new, h.1))
      ]
    ]
  ]
]

remaining :
    (u : String) (xs : List String)
    → xs ≢ []
    → IsUnique xs
    → is_only (sorted xs) u ≡ false
    → filter (λ a. not (a == u)) xs ≢ []
unfolding sorted insert
remaining u xs some_there unique several e = elim (filter-empty u xs unique e) [
  | inl nothing ↦ some_there nothing
  | inr single ↦
      let only : is_only (sorted (u ∷ [])) u ≡ false =
        subst (λ ys. is_only (sorted ys) u ≡ false) single several in
      ground (arith, ==_refl u)
]

delete_admin-HasAdmin :
    (username actor ip_address : String) (now : ℕ) (t : AdminDatabase)
    → HasAdmin t
    → HasAdmin (delete_admin username actor ip_address now t).1
unfolding delete_admin delete_row noted record_change get_admins
delete_admin-HasAdmin username actor ip_address now t h = elim (Bool-cases (may_change t actor)) [
  | inr denied ↦ rw denied h
  | inl allowed ↦ elim (Bool-cases (is_entry username actor)) [
    | inr bad ↦ rw (allowed, bad) h
    | inl fit ↦ elim (Bool-cases (is_only (sorted t.admins) username)) [
      | inl last ↦ rw (allowed, fit, last) h
      | inr several ↦
          let rest : HasAdmin (record t { admins = filter (λ a. not (a == username)) t.admins }) =
            (remaining username t.admins h.0 h.1 several, IsUnique-filter username t.admins h.1) in
          elim (Bool-cases (contains t.admins username)) [
            | inl present ↦ rw (allowed, fit, several, present) rest
            | inr absent ↦ rw (allowed, fit, several, absent) rest
          ]
    ]
  ]
]

insert-ne-empty : (x : String) (xs : List String) → insert x xs ≢ []
unfolding insert
insert-ne-empty x [] e = ground arith
insert-ne-empty x (y ∷ ys) e = ground arith

sorted-eq-empty : (xs : List String) → sorted xs ≡ [] → xs ≡ []
unfolding sorted
sorted-eq-empty [] e = refl
sorted-eq-empty (x ∷ xs) e = absurd (insert-ne-empty x (sorted xs) e)

List-cases : (xs : List String) → (xs ≡ []) ⊎ ((y : String) × (ys : List String) × (xs ≡ y ∷ ys))
List-cases [] = inl refl
List-cases (y ∷ ys) = inr (y, ys, refl)

add_initial_admins-HasAdmin :
    (usernames : List String) (t : AdminDatabase)
    → HasAdmin t
    → HasAdmin (add_initial_admins usernames t).1
unfolding add_initial_admins get_admins
add_initial_admins-HasAdmin usernames t h = elim (List-cases (sorted t.admins)) [
  | inl nothing ↦ absurd (h.0 (sorted-eq-empty t.admins nothing))
  | inr (y, ys, there) ↦ rw there h
]

-- If there is an administrator, and no row of the table is there twice, then the same holds after
-- any calls, by any actors and with any results.
pub Changes-HasAdmin : {db t : AdminDatabase} → HasAdmin db → Changes db t → HasAdmin t
Changes-HasAdmin h none = h
Changes-HasAdmin h (after_add {db} {t} username actor ip_address now run) =
    add_admin-HasAdmin username actor ip_address now t (Changes-HasAdmin h run)
Changes-HasAdmin h (after_delete {db} {t} username actor ip_address now run) =
    delete_admin-HasAdmin username actor ip_address now t (Changes-HasAdmin h run)
Changes-HasAdmin h (after_start {db} {t} usernames run) =
    add_initial_admins-HasAdmin usernames t (Changes-HasAdmin h run)
