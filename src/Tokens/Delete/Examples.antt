-- ===== src/Tokens/Delete/Examples.antt =====
-- The descendants of a token and their removal, at concrete data.
use gafaelfawr.Prelude.{
  String, ◌≡◌, ◌≢◌, ◌⊎◌, ◌↔◌, refl, true, false, none, some, List, [], ◌∷◌, contains, string_eq,
  option_eq, ==_false→≢, if◌then◌else◌,
}
use gafaelfawr.Prelude.Result.{ok}
use gafaelfawr.Models.{TokenData, TokenInfo, notebook}
use gafaelfawr.Storage.Redis.{missing, found}
use gafaelfawr.Storage.Redis.Memory.{memory-IsLawful}
use gafaelfawr.Storage.Database.{Database, TokenRow, get_info, info_of, parent_of}
use gafaelfawr.Storage.Queries.{get_children}
use gafaelfawr.Storage.World.{World}
use gafaelfawr.Storage.Tree.{IsForest, Descends}
use gafaelfawr.Storage.Tree.Descendants.{get_children-Descends}
use gafaelfawr.Tokens.{check_authorization}
use gafaelfawr.Tokens.Examples.{R, now, someone, own_row}
use gafaelfawr.Tokens.Delete.{delete_token, get_token_info_unchecked}
use gafaelfawr.Tokens.Delete.Cascade.{IsGone, IsKept, delete_token_cascades}

abbrev child_row : TokenRow
child_row = record own_row { token = "notebook"; token_type = notebook; token_name = none }

abbrev database : Database
database = record {
  tokens = child_row ∷ own_row ∷ [];
  subtokens = record { child = "notebook"; parent = some own_row.token } ∷ [];
  changes = [];
}

abbrev world : World R
world = record {
  db = database;
  redis = λ t k. if contains ("notebook" ∷ []) k then found someone else missing;
}

is_forest : IsForest database.subtokens
unfolding string_eq option_eq
is_forest = (==_false→≢ (some own_row.token) (some "notebook") refl, tt, tt)

get_children-Descends_example :
    (keys : List String) × (get_children own_row.token database ≡ (ok keys, database))
    × ((x : String) → (contains keys x ≡ true) ↔ Descends database.subtokens own_row.token x)
get_children-Descends_example = get_children-Descends own_row.token database is_forest

abbrev own_info : TokenInfo
own_info = info_of none own_row

found_info : get_token_info_unchecked own_row.token (some "someuser") database ≡ some own_info
unfolding get_token_info_unchecked get_info parent_of string_eq option_eq
found_info = refl

allowed : check_authorization (some "someuser") someone false false ≡ ok tt
unfolding check_authorization string_eq option_eq
allowed = refl

delete_token_cascades_example :
    (t : World R) × (delete_token R now someone "127.0.0.1" own_row.token "someuser" world
      ≡ (ok true, t))
    × ((x : String)
        → ((x ≡ own_row.token) ⊎ Descends database.subtokens own_row.token x → IsGone R x world t)
          × (x ≢ own_row.token
              → ¬ Descends database.subtokens own_row.token x
              → IsKept R x world t))
delete_token_cascades_example =
    delete_token_cascades R (memory-IsLawful TokenData) now someone "127.0.0.1" own_row.token
      "someuser" own_info world is_forest found_info allowed
