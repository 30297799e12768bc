-- ===== src/History/Pages.antt =====
-- Reading the history page by page, as src/gafaelfawr/storage/history.py serves it.
use mathlib.Core.Option
use mathlib.Core.Path.{subst}
use mathlib.Core.List.{append_assoc, append-nil}
use gafaelfawr.Prelude.{
  ℕ, zero, suc, ◌+◌, ◌<◌, ◌≡◌, ◌∙◌, refl, sym, ap, ◌⊎◌, inl, inr, Bool, Option, none, some, List,
  [], ◌∷◌, ◌++◌, arith, length, take, filter,
}
use gafaelfawr.History.{
  ChangeRow, HistoryCursor, newest_first, apply_cursor, next_cursor_of, get_elem?, forward_page,
  all_matching, rows_for, paginated_query,
}
use gafaelfawr.History.Order.{
  IsKeyed, IsOrdered, newest_first-IsOrdered, filter-IsOrdered, filter-apply_cursor,
}

-- What a page holds of the rows that are left, and where the next one starts.
cut :
    (limit : ℕ) (rest : List ChangeRow)
    → ((take limit (take (suc limit) rest) ≡ rest)
        × (get_elem? (take (suc limit) rest) limit ≡ none))
      ⊎ ((y : ChangeRow) × (ys : List ChangeRow) × (take limit (take (suc limit) rest) ++ (y ∷ ys)
            ≡ rest)
          × (get_elem? (take (suc limit) rest) limit ≡ some y)
          × (limit + length (y ∷ ys) ≡ length rest))
cut zero [] = inl (refl, refl)
cut zero (x ∷ xs) = inr (x, xs, refl, refl, omega arith)
cut (suc limit) [] = inl (refl, refl)
cut (suc limit) (x ∷ xs) = elim (cut limit xs) [
  | inl (whole, none_left) ↦ inl (ap (λ r. x ∷ r) whole, none_left)
  | inr (y, ys, whole, next, count) ↦ inr (y, ys, ap (λ r. x ∷ r) whole, next, omega (arith, count))
]

module _ (rows : List ChangeRow) (wanted : ChangeRow → Bool) where
  -- A client that follows the cursors of the pages, at most so many of them, and keeps all entries.
  unfoldable pub read_pages : ℕ → ℕ → Option HistoryCursor → List ChangeRow
  read_pages zero limit cursor = []
  read_pages (suc pages) limit cursor =
      let page = paginated_query rows wanted cursor limit in
      page.entries
      ++ elim (page.next_cursor) [ none ↦ [] | some next ↦ read_pages pages limit (some next) ]

  abbrev IsForward : Option HistoryCursor → Type 0
  IsForward o = (o ≡ none) ⊎ ((x : ChangeRow) × (o ≡ some (next_cursor_of x)))

  page-forward :
      (limit : ℕ) (o : Option HistoryCursor)
      → IsForward o
      → ((paginated_query rows wanted o limit).entries
          ≡ take limit (take (suc limit) (rows_for rows wanted o)))
        × ((paginated_query rows wanted o limit).next_cursor
            ≡ Option.map next_cursor_of
                (get_elem? (take (suc limit) (rows_for rows wanted o)) limit))
  unfolding paginated_query forward_page
  page-forward limit o (inl none_given) = rw none_given (refl, refl)
  page-forward limit o (inr (x, at)) = rw at (refl, refl)

  read_from :
      (pages n : ℕ) (o : Option HistoryCursor) (before rest : List ChangeRow)
      → IsOrdered (all_matching rows wanted)
      → before ++ rest ≡ all_matching rows wanted
      → IsForward o
      → rows_for rows wanted o ≡ rest
      → length rest < pages
      → read_pages pages (suc n) o ≡ rest
  unfolding read_pages
  read_from zero n o before rest ordered whole forward left enough = absurd (omega arith)
  read_from (suc pages) n o before rest ordered whole forward left enough =
      let (entries, next) = page-forward (suc n) o forward in
      elim (cut (suc n) rest) [
        | inl (all_left, last) ↦ rw (entries, next, left, last) (append-nil _ ∙ all_left)
        | inr (y, ys, split, more, count) ↦
            let taken = take (suc n) (take (suc (suc n)) rest) in
            let joined : (before ++ taken) ++ (y ∷ ys) ≡ all_matching rows wanted =
              append_assoc before taken (y ∷ ys) ∙ ap (λ r. before ++ r) split ∙ whole in
            let onward : read_pages pages (suc n) (some (next_cursor_of y)) ≡ y ∷ ys =
              read_from pages n (some (next_cursor_of y)) (before ++ taken) (y ∷ ys) ordered joined
                (inr (y, refl))
                (subst (λ r. filter (apply_cursor (next_cursor_of y)) r ≡ y ∷ ys) joined
                  (filter-apply_cursor y (before ++ taken) ys
                    (subst IsOrdered (sym joined) ordered)))
                (omega (arith, count)) in
            rw (entries, next, left, more, onward) split
      ]

  -- If no two rows have the same id, a client that starts without a cursor and follows the next
  -- cursor of each page of a positive limit reads all rows that meet the conditions, newest first,
  -- each once and in order; it is done after at most one page more than there are such rows.
  pub read_pages-all_matching :
      (pages n : ℕ)
      → IsKeyed rows
      → length (all_matching rows wanted) < pages
      → read_pages pages (suc n) none ≡ all_matching rows wanted
  read_pages-all_matching pages n keyed enough =
      read_from pages n none [] (all_matching rows wanted)
        (filter-IsOrdered wanted (newest_first rows) (newest_first-IsOrdered rows keyed)) refl
        (inl refl) refl enough
