-- ===== src/Storage/World.antt =====
-- The two stores that the token service changes, over any Redis storage; database transactions;
-- and `TokenRedisStore` of src/gafaelfawr/storage/token.py.
use gafaelfawr.Prelude.{
  ℕ, ◌-◌, ◌/◌, String, Bool, true, ◌&&◌, Option, none, some, ◌==◌, string_eq, all, any,
  if◌then◌else◌,
}
use mathlib.Core.Option
use gafaelfawr.Prelude.Result.{Result, ok, err}
use gafaelfawr.Prelude.Exec.{Exec}
use gafaelfawr.Errors.{Error, integrity_error, redis_error}
use gafaelfawr.Credential.{Token}
use gafaelfawr.Models.{TokenData, second, whole_seconds}
use gafaelfawr.Storage.Redis.{Fetched, missing, corrupt, found, Storage}
use gafaelfawr.Storage.Database.{Database, SubtokenRow, Query, has_key}

-- `Token.__eq__` compares both parts.
abbrev pub same_token : Token → Token → Bool
same_token s t = s.key == t.key && s.secret == t.secret

-- `int((data.expires - now).total_seconds())`, or a lifetime that Redis refuses if `expires` has
-- passed: then the source's number is zero or negative, and this one is zero.
abbrev pub lifetime_of : ℕ → Option ℕ → Option ℕ
lifetime_of now none = none
lifetime_of now (some e) = some ((e - now) / second)

-- The value that comes back from its JSON: a `Timestamp` is written in whole seconds.
abbrev pub on_wire : TokenData → TokenData
on_wire d = record d {
  created = whole_seconds d.created;
  expires = Option.map whole_seconds d.expires;
}

abbrev pub data_of : Fetched TokenData → Option TokenData
data_of missing = none
data_of corrupt = none
data_of (found d) = some d

abbrev pub check_secret : Token → Option TokenData → Option TokenData
check_secret token none = none
check_secret token (some d) = if same_token d.token token then some d else none

-- The foreign key of `subtoken.parent`, which the database checks when the row is written.
abbrev pub parent_exists : Database → SubtokenRow → Bool
parent_exists db r = elim (r.parent) [ none ↦ true | some p ↦ any (has_key p) db.tokens ]

module _ (R : Storage TokenData) where
  pub record World : Type 0 where
    pub db : Database
    pub redis : R.State

  abbrev pub Action : Type 0 → Type 0
  Action A = Exec World Error A

  abbrev pub in_db : {A : Type 0} → Query A → Action A
  in_db q w = let (r, db) = q w.db in (r, record w { db = db })

  -- `async with session.begin()`: the end of the block writes the last rows and commits, and an
  -- exception undoes what the block did to the database. Redis is not part of the transaction. The
  -- end fails here only for a violated foreign key, not for a database that is lost.
  abbrev pub close : {A : Type 0} → Database → Result Error A → Action A
  close before (ok a) w =
      if all (parent_exists w.db) w.db.subtokens
      then (ok a, w)
      else (err integrity_error, record w { db = before })
  close before (err e) w = (err e, record w { db = before })

  unfoldable pub transaction : {A : Type 0} → Action A → Action A
  transaction m w = let (r, t) = m w in close w.db r t

  -- `TokenRedisStore.delete` and `delete_all`
  abbrev pub delete_data : String → Action (Unit {0})
  delete_data key w = (ok tt, record w { redis = R.delete w.redis key })

  abbrev pub delete_all_data : Action (Unit {0})
  delete_all_data w = (ok tt, record w { redis = R.delete_all w.redis })

  module _ (now : ℕ) where
    unfoldable pub get_data_by_key : String → World → Option TokenData
    get_data_by_key key w = data_of (R.get now w.redis key)

    unfoldable pub get_data : Token → World → Option TokenData
    get_data token w = check_secret token (get_data_by_key token.key w)

    abbrev stored : Option R.State → Action (Unit {0})
    stored none w = (err redis_error, w)
    stored (some s) w = (ok tt, record w { redis = s })

    unfoldable pub store_data : TokenData → Action (Unit {0})
    store_data d w =
        stored (R.store now w.redis d.token.key (on_wire d) (lifetime_of now d.expires)) w
