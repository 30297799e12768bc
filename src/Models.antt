-- ===== src/Models.antt =====
-- The data of src/gafaelfawr/models/token.py, src/gafaelfawr/models/history.py and the rows of
-- src/gafaelfawr/schema. A time is a number of microseconds since the epoch.
pub mod Scopes
use gafaelfawr.Prelude.{ℕ, ◌*◌, ◌/◌, String, Bool, true, false, Option, none, some, List, [], Eq}
use gafaelfawr.Credential.{Token}

-- One second, in microseconds.
abbrev pub second : ℕ
second = 1_000_000

-- `t.replace(microsecond=0)`, which is also what `int(t.timestamp())` keeps of a time.
abbrev pub whole_seconds : ℕ → ℕ
whole_seconds t = t / second * second

pub data TokenType : Type 0 where
  session user notebook internal service oidc : TokenType

type_dec : Discrete TokenType
type_dec = hlevel

instance unfoldable pub type_eq : Eq TokenType
unfolding type_dec
type_eq = record { dec = type_dec }

pub record Group : Type 0 where
  pub name : String
  pub id : ℕ

-- `TokenUserInfo` without its `username`.
pub record Metadata : Type 0 where
  pub name : Option String
  pub email : Option String
  pub uid : Option ℕ
  pub gid : Option ℕ
  pub groups : Option (List Group)

pub record TokenData : Type 0 where
  pub token : Token
  pub username : String
  pub token_type : TokenType
  pub scopes : List String
  pub created : ℕ
  pub expires : Option ℕ
  pub metadata : Metadata

-- `TokenInfo`; its `token` is the key alone.
pub record TokenInfo : Type 0 where
  pub token : String
  pub username : String
  pub token_type : TokenType
  pub token_name : Option String
  pub scopes : List String
  pub service : Option String
  pub created : ℕ
  pub last_used : Option ℕ
  pub expires : Option ℕ
  pub parent : Option String

pub record AdminTokenRequest : Type 0 where
  pub username : String
  pub token_type : TokenType
  pub token_name : Option String
  pub scopes : List String
  pub expires : Option ℕ
  pub metadata : Metadata

pub data TokenChange : Type 0 where
  create revoke expire edit : TokenChange

pub record TokenChangeHistoryEntry : Type 0 where
  pub token : String
  pub username : String
  pub token_type : TokenType
  pub token_name : Option String
  pub parent : Option String
  pub scopes : List String
  pub service : Option String
  pub expires : Option ℕ
  pub actor : String
  pub action : TokenChange
  pub old_token_name : Option String
  pub old_scopes : Option (List String)
  pub old_expires : Option ℕ
  pub ip_address : Option String
  pub event_time : ℕ
