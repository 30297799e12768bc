-- ===== src/History/Previous.antt =====
-- The way back through the pages of src/gafaelfawr/storage/history.py.
use mathlib.Core.List.{reverse, reverse-cons, reverse-append, reverse-reverse}
use mathlib.Core.Path.{subst}
use gafaelfawr.Prelude.{
  ℕ, zero, suc, ◌≡◌, ◌∙◌, refl, sym, ap, Bool, true, some, List, [], ◌∷◌, ◌++◌, arith, nat_eq,
  length, length-append, take, filter, All,
}
use gafaelfawr.History.{
  ChangeRow, is_newer, newest_first, apply_cursor, next_cursor_of, invert, backward_page,
  all_matching, rows_for, paginated_query,
}
use gafaelfawr.History.Order.{
  IsKeyed, IsOrdered, newest_first-IsOrdered, filter-IsOrdered, All-middle,
}

length-reverse : (xs : List ChangeRow) → length (reverse xs) ≡ length xs
length-reverse [] = refl
length-reverse (x ∷ xs) =
    rw (reverse-cons x xs) (omega (arith, length-append (reverse xs) (x ∷ []), length-reverse xs))

take-append :
    (n : ℕ) (xs ys : List ChangeRow) → length xs ≡ n → take n (take (suc n) (xs ++ ys)) ≡ xs
take-append zero [] ys e = refl
take-append zero (x ∷ xs) ys e = absurd (omega arith)
take-append (suc n) [] ys e = absurd (omega arith)
take-append (suc n) (x ∷ xs) ys e = ap (λ r. x ∷ r) (take-append n xs ys (omega arith))

no_newer :
    (x : ChangeRow) (ys : List ChangeRow)
    → All (λ y. is_newer x y ≡ true) ys
    → filter (apply_cursor (invert (next_cursor_of x))) ys ≡ []
unfolding apply_cursor
no_newer x [] h = refl
no_newer x (y ∷ ys) h = ground (arith, h.0, no_newer x ys h.1)

-- An inverted cursor at a row cuts off that row and what is older.
filter-invert :
    (x : ChangeRow) (before after : List ChangeRow)
    → IsOrdered (before ++ (x ∷ after))
    → filter (apply_cursor (invert (next_cursor_of x))) (before ++ (x ∷ after)) ≡ before
unfolding apply_cursor
filter-invert x [] after h = ground (arith, no_newer x after h.0)
filter-invert x (y ∷ before) after h =
    ground (arith, All-middle y x before after h.0, filter-invert x before after h.1)

module _ (rows : List ChangeRow) (wanted : ChangeRow → Bool) where
  backward :
      (x : ChangeRow) (n : ℕ)
      → (paginated_query rows wanted (some (invert (next_cursor_of x))) n).entries
        ≡ reverse (take n (take (suc n) (rows_for rows wanted (some (invert (next_cursor_of x))))))
  unfolding paginated_query backward_page
  backward x n = refl

  -- If no two rows have the same id, and the rows that meet the conditions, newest first, are some,
  -- then a page of as many as the limit, and then a row with those behind it, then the inverted
  -- cursor of that row gives exactly that page, in the same order.
  invert-page :
      (earlier page after : List ChangeRow) (x : ChangeRow) (limit : ℕ)
      → IsKeyed rows
      → (earlier ++ page) ++ (x ∷ after) ≡ all_matching rows wanted
      → length page ≡ limit
      → (paginated_query rows wanted (some (invert (next_cursor_of x))) limit).entries ≡ page
  invert-page earlier page after x limit keyed whole size =
      let ordered =
        filter-IsOrdered wanted (newest_first rows) (newest_first-IsOrdered rows keyed) in
      let found : filter (apply_cursor (invert (next_cursor_of x))) (all_matching rows wanted)
          ≡ earlier ++ page =
        subst (λ r. filter (apply_cursor (invert (next_cursor_of x))) r ≡ earlier ++ page) whole
          (filter-invert x (earlier ++ page) after (subst IsOrdered (sym whole) ordered)) in
      let turned : reverse (earlier ++ page) ≡ reverse page ++ reverse earlier =
        reverse-append earlier page in
      backward x limit
      ∙ ap (λ r. reverse (take limit (take (suc limit) r))) (ap reverse found ∙ turned)
      ∙ ap reverse (take-append limit (reverse page) (reverse earlier) (length-reverse page ∙ size))
      ∙ reverse-reverse page
