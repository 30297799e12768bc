-- ===== src/Storage/Consistency.antt =====
-- The foreign key of `subtoken.parent`, and what `add` does to the tables.
use gafaelfawr.Prelude.{
  String, ◌≡◌, refl, Bool, true, Option, none, some, List, [], ◌∷◌, arith, string_eq, all, any,
  if◌then◌else◌,
}
use gafaelfawr.Prelude.Result.{ok}
use gafaelfawr.Models.{TokenData, TokenChangeHistoryEntry}
use gafaelfawr.Storage.Database.{
  TokenRow, SubtokenRow, Database, is_text, has_key, add, check_name_conflict, insert_token,
  insert_subtoken, row_of,
}
use gafaelfawr.Storage.Queries.{add_change}
use gafaelfawr.Storage.World.{parent_exists}

abbrev pub IsConsistent : Database → Type 0
IsConsistent db = all (parent_exists db) db.subtokens ≡ true

-- The tables that `add` leaves if it succeeds.
abbrev subtokens_of : Option String → String → List SubtokenRow → List SubtokenRow
subtokens_of none child rows = rows
subtokens_of (some p) child rows =
    if is_text (some p) then record { child = child; parent = some p } ∷ rows else rows

abbrev pub with_token :
    TokenData → Option String → Option String → Option String → Database → Database
with_token d token_name for_service parent db = record db {
  tokens = row_of d token_name for_service ∷ db.tokens;
  subtokens = subtokens_of parent d.token.key db.subtokens;
}

module _ (d : TokenData) (token_name for_service parent : Option String) (db : Database) where
  pub add_ok :
      (add d token_name for_service parent db).0 ≡ ok tt
      → (add d token_name for_service parent db).1 ≡ with_token d token_name for_service parent db
  unfolding add check_name_conflict insert_token insert_subtoken
  add_ok h = ground arith

-- More tokens have every parent that fewer had.
abbrev has_parent : List TokenRow → SubtokenRow → Bool
has_parent tokens r = elim (r.parent) [ none ↦ true | some p ↦ any (has_key p) tokens ]

parents-cons :
    (row : TokenRow) (tokens : List TokenRow) (rows : List SubtokenRow)
    → all (has_parent tokens) rows ≡ true
    → all (has_parent (row ∷ tokens)) rows ≡ true
parents-cons row tokens [] h = refl
parents-cons row tokens (r ∷ rows) h = ground (arith, parents-cons row tokens rows)

pub with_token-IsConsistent :
    (d : TokenData) (token_name for_service parent : Option String) (db : Database)
    → IsConsistent db
    → parent_exists db (record { child = d.token.key; parent = parent }) ≡ true
    → IsConsistent (with_token d token_name for_service parent db)
with_token-IsConsistent d token_name for_service none db c p =
    parents-cons (row_of d token_name for_service) db.tokens db.subtokens c
with_token-IsConsistent d token_name for_service (some q) db c p =
    ground (arith, parents-cons (row_of d token_name for_service) db.tokens db.subtokens)

pub add_change-IsConsistent :
    (e : TokenChangeHistoryEntry) (db : Database)
    → IsConsistent db
    → IsConsistent (add_change e db).1
unfolding add_change
add_change-IsConsistent e db c = c
