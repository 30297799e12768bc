-- ===== src/Storage/Queries.antt =====
-- The other queries of src/gafaelfawr/storage/token.py: changes to a row, the tree of subtokens and
-- the lookups of delegated tokens; and `TokenChangeHistoryStore.add`.
use mathlib.Core.Option
use mathlib.Core.List.{map}
use gafaelfawr.Prelude.{
  ℕ, zero, suc, String, Bool, true, false, not, ◌&&◌, Option, none, some, List, [], ◌∷◌, ◌++◌, ◌==◌,
  string_eq, option_eq, if◌then◌else◌, find, leb, length,
}
use gafaelfawr.Prelude.Result.{ok}
use gafaelfawr.Prelude.Exec.{pure, raise, ◌>>=◌, ◌>>◌}
use gafaelfawr.Errors.{diverges}
use gafaelfawr.Models.{internal, notebook, TokenData, TokenInfo, TokenChangeHistoryEntry, type_eq}
use gafaelfawr.Models.Scopes.{join_scopes, sorted}
use gafaelfawr.Storage.Database.{
  TokenRow, SubtokenRow, Database, Query, is_text, has_key, info_of, in_parents,
  check_name_conflict,
}

unfoldable pub renamed : Option String → TokenRow → Query TokenRow
renamed token_name r = do
  check_name_conflict r.username token_name
  pure (record r { token_name = token_name })

-- The new name in `modify`, which is checked for conflicts only if it differs.
unfoldable pub rename : Option String → TokenRow → Query TokenRow
rename token_name r db =
    if is_text token_name && not (r.token_name == token_name)
    then renamed token_name r db
    else (ok r, db)

-- `if scopes: token.scopes = ",".join(sorted(scopes))`
unfoldable pub rescope : Option (List String) → TokenRow → TokenRow
rescope none r = r
rescope (some []) r = r
rescope (some (x ∷ xs)) r = record r { scopes = join_scopes (x ∷ xs) }

-- `if no_expire: token.expires = None` and `elif expires: token.expires = expires`
unfoldable pub reexpire : Option ℕ → Bool → TokenRow → TokenRow
reexpire expires true r = record r { expires = none }
reexpire none false r = r
reexpire (some t) false r = record r { expires = some t }

unfoldable pub put_row : TokenRow → Query TokenInfo
put_row r db = (
  ok (info_of none r),
  record db { tokens = map (λ q. if has_key r.token q then r else q) db.tokens },
)

unfoldable pub modify_row :
    Option String → Option (List String) → Option ℕ → Bool → TokenRow → Query TokenInfo
modify_row token_name scopes expires no_expire r = do
  r' ← rename token_name r
  put_row (reexpire expires no_expire (rescope scopes r'))

unfoldable pub modify_found :
    Option String
    → Option (List String)
    → Option ℕ
    → Bool
    → Option TokenRow
    → Query (Option TokenInfo)
modify_found token_name scopes expires no_expire none = pure none
modify_found token_name scopes expires no_expire (some r) = do
  info ← modify_row token_name scopes expires no_expire r
  pure (some info)

-- `TokenDatabaseStore.modify`. The changes of a row reach the table with the last of them, and
-- not if the name is refused.
unfoldable pub modify :
    String → Option String → Option (List String) → Option ℕ → Bool → Query (Option TokenInfo)
modify key token_name scopes expires no_expire db =
    modify_found token_name scopes expires no_expire (find (has_key key) db.tokens) db

-- `select(Subtoken.child).where(Subtoken.parent.in_(parents))`
unfoldable pub children_of : List SubtokenRow → List String → List String
children_of [] parents = []
children_of (r ∷ rows) parents =
    let rest = children_of rows parents in
    if in_parents r.parent parents then r.child ∷ rest else rest

-- The loop of `get_children`, with fuel; `none` if it has not ended.
unfoldable pub descend : ℕ → List SubtokenRow → List String → Option (List String)
descend fuel rows [] = some []
descend zero rows (p ∷ ps) = none
descend (suc fuel) rows (p ∷ ps) =
    let children = children_of rows (p ∷ ps) in
    Option.map (λ more. children ++ more) (descend fuel rows children)

unfoldable pub ended : Option (List String) → Query (List String)
ended none = raise diverges
ended (some keys) = pure keys

-- `get_children`
unfoldable pub get_children : String → Query (List String)
get_children key db = ended (descend (suc (length db.subtokens)) db.subtokens (key ∷ [])) db

-- `SQLToken.expires >= min_expires`, which no `NULL` meets.
abbrev expires_from : ℕ → TokenRow → Bool
expires_from t r = elim (r.expires) [ none ↦ false | some e ↦ leb t e ]

abbrev passes : (TokenRow → Bool) → Option TokenRow → Bool
passes test none = false
passes test (some r) = test r

-- The join of `subtoken` with `token` on the child, and its first key that passes the test.
unfoldable pub first_child :
    (TokenRow → Bool) → String → Database → List SubtokenRow → Option String
first_child test parent db [] = none
first_child test parent db (r ∷ rows) =
    if r.parent == some parent && passes test (find (has_key r.child) db.tokens)
    then some r.child
    else first_child test parent db rows

unfoldable pub is_internal_match : String → List String → ℕ → TokenRow → Bool
is_internal_match service scopes min_expires r =
    r.token_type == internal
    && r.service == some service
    && r.scopes == join_scopes scopes
    && expires_from min_expires r

-- `get_internal_token_key` and `get_notebook_token_key`
unfoldable pub get_internal_token_key :
    TokenData → String → List String → ℕ → Database → Option String
get_internal_token_key parent service scopes min_expires db =
    first_child (is_internal_match service scopes min_expires) parent.token.key db db.subtokens

unfoldable pub get_notebook_token_key : TokenData → ℕ → Database → Option String
get_notebook_token_key parent min_expires db =
    first_child (λ r. r.token_type == notebook && expires_from min_expires r) parent.token.key db
      db.subtokens

-- `TokenChangeHistoryStore.add`. A scopes column is shown as the list that it is read back as.
unfoldable pub add_change : TokenChangeHistoryEntry → Query (Unit {0})
add_change e db = (
  ok tt,
  record db {
    changes =
        record e { scopes = sorted e.scopes; old_scopes = Option.map sorted e.old_scopes }
        ∷ db.changes;
  },
)
