-- ===== src/History.antt =====
-- The pages of the history of token changes: `TokenChangeHistoryStore` of
-- src/gafaelfawr/storage/history.py, and the cursors of src/gafaelfawr/models/history.py. Event times
-- are in whole seconds here, as `current_datetime` gives them. A query returns the rows that meet its
-- conditions in its order.
pub mod Order
pub mod Pages
pub mod Previous
mod Examples
use mathlib.Core.Option
use mathlib.Core.List.{reverse}
use gafaelfawr.Prelude.{
  ℕ, zero, suc, ◌-◌, String, Bool, true, false, not, ◌&&◌, ◌||◌, Option, none, some, List, [], ◌∷◌,
  ◌==◌, string_eq, option_eq, nat_eq, ltb, leb, if◌then◌else◌, filter, take, length,
}
use gafaelfawr.Models.{TokenType, TokenChangeHistoryEntry, type_eq}
use gafaelfawr.Storage.Database.{is_text}

pub record ChangeRow : Type 0 where
  pub id : ℕ
  pub event_time : ℕ
  pub entry : TokenChangeHistoryEntry

pub record HistoryCursor : Type 0 where
  pub time : ℕ
  pub id : ℕ
  pub previous : Bool

pub record PaginatedHistory : Type 0 where
  pub entries : List ChangeRow
  pub count : ℕ
  pub next_cursor : Option HistoryCursor
  pub prev_cursor : Option HistoryCursor

-- `HistoryCursor.invert`
abbrev pub invert : HistoryCursor → HistoryCursor
invert c = record c { previous = not c.previous }

-- `event_time.desc(), id.desc()`
abbrev pub is_newer : ChangeRow → ChangeRow → Bool
is_newer a b = ltb b.event_time a.event_time || (a.event_time == b.event_time && ltb b.id a.id)

unfoldable pub insert_row : ChangeRow → List ChangeRow → List ChangeRow
insert_row x [] = x ∷ []
insert_row x (y ∷ ys) = let rest = insert_row x ys in if is_newer x y then x ∷ y ∷ ys else y ∷ rest

unfoldable pub newest_first : List ChangeRow → List ChangeRow
newest_first [] = []
newest_first (x ∷ xs) = insert_row x (newest_first xs)

-- The conditions of `list`, with PostgreSQL's test of an address in a network as an argument.
pub record Conditions : Type 0 where
  pub since : Option ℕ
  pub until : Option ℕ
  pub username : Option String
  pub actor : Option String
  pub key : Option String
  pub token : Option String
  pub token_type : Option TokenType
  pub ip_or_cidr : Option String

abbrev pub is_text_or : Option String → Bool → Bool
is_text_or o test = not (is_text o) || test

unfoldable pub matches : (String → Option String → Bool) → Conditions → ChangeRow → Bool
matches address_matches c r =
    elim (c.since) [ none ↦ true | some t ↦ leb t r.event_time ]
    && elim (c.until) [ none ↦ true | some t ↦ leb r.event_time t ]
    && is_text_or c.username (c.username == some r.entry.username)
    && is_text_or c.actor (c.actor == some r.entry.actor)
    && is_text_or c.key (c.key == some r.entry.token || c.key == r.entry.parent)
    && is_text_or c.token (c.token == some r.entry.token)
    && elim (c.token_type) [ none ↦ true | some t ↦ t == r.entry.token_type ]
    && elim (c.ip_or_cidr) [ none ↦ true | some a ↦ address_matches a r.entry.ip_address ]

-- `_apply_cursor`
unfoldable pub apply_cursor : HistoryCursor → ChangeRow → Bool
apply_cursor c r =
    if c.previous
    then ltb c.time r.event_time || (r.event_time == c.time && ltb c.id r.id)
    else ltb r.event_time c.time || (r.event_time == c.time && leb r.id c.id)

-- `_build_next_cursor` and `_build_prev_cursor`
abbrev pub next_cursor_of : ChangeRow → HistoryCursor
next_cursor_of r = record { time = r.event_time; id = r.id; previous = false }

abbrev pub prev_cursor_of : ChangeRow → HistoryCursor
prev_cursor_of r = record { time = r.event_time; id = r.id; previous = true }

abbrev pub get_elem? : List ChangeRow → ℕ → Option ChangeRow
get_elem? [] n = none
get_elem? (x ∷ xs) zero = some x
get_elem? (x ∷ xs) (suc n) = get_elem? xs n

-- The end of `_paginated_query` for a limit, given the rows fetched, at most one more than it.
unfoldable pub backward_page : ℕ → HistoryCursor → ℕ → List ChangeRow → PaginatedHistory
backward_page count c limit fetched = record {
  entries = reverse (take limit fetched);
  count = count;
  next_cursor = some (invert c);
  prev_cursor =
      if ltb limit (length fetched)
      then Option.map prev_cursor_of (get_elem? fetched (limit - 1))
      else none;
}

unfoldable pub forward_page : ℕ → Option HistoryCursor → ℕ → List ChangeRow → PaginatedHistory
forward_page count c limit fetched = record {
  entries = take limit fetched;
  count = count;
  next_cursor = Option.map next_cursor_of (get_elem? fetched limit);
  prev_cursor = Option.map invert c;
}

module _ (rows : List ChangeRow) (wanted : ChangeRow → Bool) where
  abbrev pub all_matching : List ChangeRow
  all_matching = filter wanted (newest_first rows)

  -- The query without a limit.
  abbrev pub rows_for : Option HistoryCursor → List ChangeRow
  rows_for none = all_matching
  rows_for (some c) =
      let found = filter (apply_cursor c) all_matching in
      if c.previous then reverse found else found

  -- `_paginated_query`, for a limit that is not zero.
  unfoldable pub paginated_query : Option HistoryCursor → ℕ → PaginatedHistory
  paginated_query none limit =
      forward_page (length all_matching) none limit (take (suc limit) (rows_for none))
  paginated_query (some c) limit =
      let fetched = take (suc limit) (rows_for (some c)) in
      if c.previous
      then backward_page (length all_matching) c limit fetched
      else forward_page (length all_matching) (some c) limit fetched
