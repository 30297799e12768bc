-- ===== src/Login/Providers.antt =====
-- The interface `Provider` of src/gafaelfawr/providers/base.py, and `TokenUserInfo`. What the provider
-- answers over HTTP is part of its functions.
use gafaelfawr.Prelude.{String, ◌≡◌, Option}
use gafaelfawr.Prelude.Result.{Result}
use gafaelfawr.Errors.{Error}
use gafaelfawr.Models.{Metadata}
use gafaelfawr.Login.Session.{State}

pub record TokenUserInfo : Type 0 where
  pub username : String
  pub metadata : Metadata

-- `create_user_info` may store data in the session for the logout; `logout` gives the access token that
-- it asks the provider to revoke.
pub record Provider : Type 0 where
  pub get_redirect_url : String → String
  pub create_user_info : String → String → State → Result Error TokenUserInfo × State
  pub logout : State → Option String

-- A provider leaves the rest of the session alone.
pub record IsDiscreet (provider : Provider) : Type 0 where
  pub keeps_token :
      (code state : String) (s : State) → (provider.create_user_info code state s).1.token ≡ s.token
  pub keeps_return_url :
      (code state : String) (s : State)
      → (provider.create_user_info code state s).1.return_url ≡ s.return_url
