-- ===== src/History/Order.antt =====
-- The order of the queries in src/gafaelfawr/storage/history.py, and where a cursor cuts it.
use gafaelfawr.Prelude.{
  ◌≡◌, ◌≢◌, refl, Bool, true, false, List, [], ◌∷◌, ◌++◌, arith, nat_eq, filter, All, Bool-cases,
  inl, inr,
}
use gafaelfawr.History.{ChangeRow, is_newer, insert_row, newest_first, apply_cursor, next_cursor_of}

-- The primary key of the table.
abbrev pub IsKeyed : List ChangeRow → Type 0
IsKeyed [] = Unit
IsKeyed (x ∷ xs) = All (λ (y : ChangeRow). y.id ≢ x.id) xs × IsKeyed xs

abbrev pub IsOrdered : List ChangeRow → Type 0
IsOrdered [] = Unit
IsOrdered (x ∷ xs) = All (λ y. is_newer x y ≡ true) xs × IsOrdered xs

newer_trans : (x y z : ChangeRow) → is_newer x y ≡ true → is_newer y z ≡ true → is_newer x z ≡ true
newer_trans x y z p q = ground arith

newer_total : (x y : ChangeRow) → y.id ≢ x.id → is_newer x y ≡ false → is_newer y x ≡ true
newer_total x y apart p = ground arith

module _ {ℓ} (P : ChangeRow → Type ℓ) where
  All-insert_row : (x : ChangeRow) (ys : List ChangeRow) → P x → All P ys → All P (insert_row x ys)
  unfolding insert_row
  All-insert_row x [] p h = (p, tt)
  All-insert_row x (y ∷ ys) p h = elim (Bool-cases (is_newer x y)) [
    | inl first ↦ rw first (p, h)
    | inr later ↦ rw later (h.0, All-insert_row x ys p h.1)
  ]

  All-newest_first : (xs : List ChangeRow) → All P xs → All P (newest_first xs)
  unfolding newest_first
  All-newest_first [] h = tt
  All-newest_first (x ∷ xs) h = All-insert_row x (newest_first xs) h.0 (All-newest_first xs h.1)

  pub All-filter : (f : ChangeRow → Bool) (xs : List ChangeRow) → All P xs → All P (filter f xs)
  All-filter f [] h = tt
  All-filter f (x ∷ xs) h = elim (Bool-cases (f x)) [
    | inl e ↦ rw e (h.0, All-filter f xs h.1)
    | inr e ↦ rw e (All-filter f xs h.1)
  ]

newer_than_each :
    (x y : ChangeRow) (ys : List ChangeRow)
    → is_newer x y ≡ true
    → All (λ z. is_newer y z ≡ true) ys
    → All (λ z. is_newer x z ≡ true) ys
newer_than_each x y [] p h = tt
newer_than_each x y (z ∷ zs) p h = (newer_trans x y z p h.0, newer_than_each x y zs p h.1)

insert_row-IsOrdered :
    (x : ChangeRow) (ys : List ChangeRow)
    → All (λ (y : ChangeRow). y.id ≢ x.id) ys
    → IsOrdered ys
    → IsOrdered (insert_row x ys)
unfolding insert_row
insert_row-IsOrdered x [] apart h = (tt, tt)
insert_row-IsOrdered x (y ∷ ys) apart h = elim (Bool-cases (is_newer x y)) [
  | inl first ↦ rw first ((first, newer_than_each x y ys first h.0), h)
  | inr later ↦ rw later (
    All-insert_row (λ z. is_newer y z ≡ true) x ys (newer_total x y apart.0 later) h.0,
    insert_row-IsOrdered x ys apart.1 h.1,
  )
]

pub newest_first-IsOrdered : (xs : List ChangeRow) → IsKeyed xs → IsOrdered (newest_first xs)
unfolding newest_first
newest_first-IsOrdered [] h = tt
newest_first-IsOrdered (x ∷ xs) h =
    insert_row-IsOrdered x (newest_first xs)
      (All-newest_first (λ (y : ChangeRow). y.id ≢ x.id) xs h.0) (newest_first-IsOrdered xs h.1)

pub filter-IsOrdered :
    (f : ChangeRow → Bool) (xs : List ChangeRow) → IsOrdered xs → IsOrdered (filter f xs)
filter-IsOrdered f [] h = tt
filter-IsOrdered f (x ∷ xs) h = elim (Bool-cases (f x)) [
  | inl e ↦ rw e (All-filter (λ y. is_newer x y ≡ true) f xs h.0, filter-IsOrdered f xs h.1)
  | inr e ↦ rw e (filter-IsOrdered f xs h.1)
]

older_rows :
    (x : ChangeRow) (ys : List ChangeRow)
    → All (λ y. is_newer x y ≡ true) ys
    → filter (apply_cursor (next_cursor_of x)) ys ≡ ys
unfolding apply_cursor
older_rows x [] h = refl
older_rows x (y ∷ ys) h = ground (arith, h.0, older_rows x ys h.1)

pub All-middle :
    (y x : ChangeRow) (before after : List ChangeRow)
    → All (λ z. is_newer y z ≡ true) (before ++ (x ∷ after))
    → is_newer y x ≡ true
All-middle y x [] after h = h.0
All-middle y x (z ∷ before) after h = All-middle y x before after h.1

-- A cursor at a row cuts off what is newer than it.
pub filter-apply_cursor :
    (x : ChangeRow) (before after : List ChangeRow)
    → IsOrdered (before ++ (x ∷ after))
    → filter (apply_cursor (next_cursor_of x)) (before ++ (x ∷ after)) ≡ x ∷ after
unfolding apply_cursor
filter-apply_cursor x [] after h = ground (arith, older_rows x after h.0)
filter-apply_cursor x (y ∷ before) after h =
    ground (arith, All-middle y x before after h.0, filter-apply_cursor x before after h.1)
