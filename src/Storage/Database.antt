-- ===== src/Storage/Database.antt =====
-- The tables `token`, `subtoken` and `token_change_history` of src/gafaelfawr/schema, and the
-- queries of `TokenDatabaseStore` on single rows. A table is the list of its
-- rows, and a query does what its SQL says; the constraints are those of the schema.
use gafaelfawr.Prelude.{
  ℕ, String, Bool, false, not, ◌&&◌, ◌||◌, Option, none, some, List, [], ◌∷◌, ◌==◌, contains,
  string_eq, option_eq, if◌then◌else◌, filter, any, find, leb, is_some,
}
use mathlib.Core.Option
use mathlib.Core.List.{map}
use gafaelfawr.Prelude.Result.{ok, err}
use gafaelfawr.Prelude.Exec.{Exec, ◌>>◌}
use gafaelfawr.Errors.{Error, duplicate_token_name, integrity_error}
use gafaelfawr.Models.{TokenType, TokenData, TokenInfo, TokenChangeHistoryEntry, type_eq}
use gafaelfawr.Models.Scopes.{join_scopes, normalize_scopes}

pub record TokenRow : Type 0 where
  pub token : String
  pub username : String
  pub token_type : TokenType
  pub token_name : Option String
  pub scopes : String
  pub service : Option String
  pub created : ℕ
  pub last_used : Option ℕ
  pub expires : Option ℕ

pub record SubtokenRow : Type 0 where
  pub child : String
  pub parent : Option String

pub record Database : Type 0 where
  pub tokens : List TokenRow
  pub subtokens : List SubtokenRow
  pub changes : List TokenChangeHistoryEntry

abbrev pub Query : Type 0 → Type 0
Query = Exec Database Error

-- `if text:`, for a text that may be `None`.
abbrev pub is_text : Option String → Bool
is_text none = false
is_text (some s) = not (s == "")

abbrev pub has_key : String → TokenRow → Bool
has_key key r = r.token == key

abbrev pub has_child : String → SubtokenRow → Bool
has_child key r = r.child == key

-- `TokenInfo.model_validate(row)`, with `info.parent = parent`.
abbrev pub info_of : Option String → TokenRow → TokenInfo
info_of parent r = record {
  token = r.token;
  username = r.username;
  token_type = r.token_type;
  token_name = r.token_name;
  scopes = normalize_scopes r.scopes;
  service = r.service;
  created = r.created;
  last_used = r.last_used;
  expires = r.expires;
  parent = parent;
}

abbrev pub in_parents : Option String → List String → Bool
in_parents none parents = false
in_parents (some p) parents = contains parents p

-- The `parent` of the left outer join with `subtoken`; `child` is its primary key.
unfoldable pub parent_of : List SubtokenRow → String → Option String
parent_of [] key = none
parent_of (r ∷ rows) key = if has_child key r then r.parent else parent_of rows key

unfoldable pub get_info : String → Database → Option TokenInfo
get_info key db = Option.map (info_of (parent_of db.subtokens key)) (find (has_key key) db.tokens)

-- A row with this username and this name: the query of `_check_name_conflict`.
unfoldable pub name_taken : String → String → Database → Bool
name_taken username name db =
    any (λ r. r.username == username && r.token_name == some name) db.tokens

unfoldable pub check_name_conflict : String → Option String → Query (Unit {0})
check_name_conflict username none db = (ok tt, db)
check_name_conflict username (some name) db =
    if name_taken username name db then (err duplicate_token_name, db) else (ok tt, db)

-- The primary key of `token` and its unique constraint, in which `NULL` names do not conflict.
abbrev violates : TokenRow → Database → Bool
violates r db =
    any (has_key r.token) db.tokens
    || any (λ q. q.username == r.username && is_some q.token_name && q.token_name == r.token_name)
        db.tokens

-- `session.add(new)` and `flush`.
unfoldable pub insert_token : TokenRow → Query (Unit {0})
insert_token r db =
    if violates r db
    then (err integrity_error, db)
    else (ok tt, record db { tokens = r ∷ db.tokens })

unfoldable pub insert_subtoken : Option String → String → Query (Unit {0})
insert_subtoken none child db = (ok tt, db)
insert_subtoken (some parent) child db =
    (ok tt, record db { subtokens = record { child = child; parent = some parent } ∷ db.subtokens })

abbrev pub row_of : TokenData → Option String → Option String → TokenRow
row_of data' token_name service = record {
  token = data'.token.key;
  username = data'.username;
  token_type = data'.token_type;
  token_name = token_name;
  scopes = join_scopes data'.scopes;
  service = service;
  created = data'.created;
  last_used = none;
  expires = data'.expires;
}

-- `if token_name: await self._check_name_conflict(data.username, token_name)`
abbrev check_new_name : String → Option String → Query (Unit {0})
check_new_name username name db =
    if is_text name then check_name_conflict username name db else (ok tt, db)

-- `if parent: self._session.add(Subtoken(...))`
abbrev link_parent : Option String → String → Query (Unit {0})
link_parent parent child db =
    if is_text parent then insert_subtoken parent child db else (ok tt, db)

-- `TokenDatabaseStore.add`
unfoldable pub add : TokenData → Option String → Option String → Option String → Query (Unit {0})
add data' token_name service parent = do
  check_new_name data'.username token_name
  insert_token (row_of data' token_name service)
  link_parent parent data'.token.key

-- `DELETE FROM token` where the key passes the test. The foreign keys of `subtoken` cascade from
-- the child, and clear the parent.
unfoldable pub orphan : (String → Bool) → SubtokenRow → SubtokenRow
orphan gone r = elim (r.parent) [
  | none ↦ r
  | some p ↦ if gone p then record r { parent = none } else r
]

unfoldable pub delete_where : (String → Bool) → Database → Database
delete_where gone db = record db {
  tokens = filter (λ r. not (gone r.token)) db.tokens;
  subtokens = map (orphan gone) (filter (λ r. not (gone r.child)) db.subtokens);
}

-- `TokenDatabaseStore.delete`, with `rowcount >= 1`.
unfoldable pub delete : String → Query Bool
delete key db = (ok (any (has_key key) db.tokens), delete_where (λ k. k == key) db)

-- `SQLToken.expires <= now`
abbrev pub has_expired : ℕ → TokenRow → Bool
has_expired now r = elim (r.expires) [ none ↦ false | some t ↦ leb t now ]

abbrev pub info_in : Database → TokenRow → TokenInfo
info_in db r = info_of (parent_of db.subtokens r.token) r

-- `TokenDatabaseStore.delete_expired`
unfoldable pub delete_expired : ℕ → Query (List TokenInfo)
delete_expired now db =
    let expired = filter (has_expired now) db.tokens in
    (
      ok (map (info_in db) expired),
      delete_where (λ k. contains (map (λ (r : TokenRow). r.token) expired) k) db,
    )
