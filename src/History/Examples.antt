-- ===== src/History/Examples.antt =====
-- Pages of a short history.
use gafaelfawr.Prelude.{ℕ, ◌≡◌, refl, Bool, true, false, none, some, List, [], ◌∷◌, arith, nat_eq}
use gafaelfawr.Models.{TokenChangeHistoryEntry, user, revoke}
use gafaelfawr.History.{
  ChangeRow, insert_row, newest_first, all_matching, paginated_query, forward_page, apply_cursor,
}
use gafaelfawr.History.Order.{IsKeyed}
use gafaelfawr.History.Pages.{read_pages, read_pages-all_matching}

abbrev revoked : TokenChangeHistoryEntry
revoked = record {
  token = "5KVApqcVbSQWtO3VIRgOhQ";
  username = "someuser";
  token_type = user;
  token_name = some "laptop";
  parent = none;
  scopes = "read:all" ∷ [];
  service = none;
  expires = none;
  actor = "someuser";
  action = revoke;
  old_token_name = none;
  old_scopes = none;
  old_expires = none;
  ip_address = some "192.0.2.1";
  event_time = 100;
}

abbrev row : ℕ → ℕ → ChangeRow
row id time = record { id = id; event_time = time; entry = revoked }

abbrev history : List ChangeRow
history = row 1 100 ∷ row 2 300 ∷ row 3 200 ∷ row 4 300 ∷ []

abbrev everything : ChangeRow → Bool
everything r = true

history-IsKeyed : IsKeyed history
history-IsKeyed = (
  (λ e. omega arith, (λ e. omega arith, (λ e. omega arith, tt))),
  ((λ e. omega arith, (λ e. omega arith, tt)), ((λ e. omega arith, tt), (tt, tt))),
)

-- The second of two pages of two.
second_page :
    (paginated_query history everything
      (some (record { time = 200; id = 3; previous = false }))
      2).entries
    ≡ row 3 200 ∷ row 1 100 ∷ []
unfolding paginated_query forward_page apply_cursor newest_first insert_row nat_eq
second_page = refl

read_pages-all_matching_example :
    read_pages history everything 5 2 none ≡ all_matching history everything
unfolding newest_first insert_row nat_eq
read_pages-all_matching_example =
    read_pages-all_matching history everything 5 1 history-IsKeyed (omega arith)
