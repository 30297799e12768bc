-- ===== src/Headers/Authorization.antt =====
-- `clean_authorization`, `parse_authorization` and `_find_token_in_basic_auth` of
-- src/gafaelfawr/auth.py. `decode` is `base64.b64decode(auth).decode()`, with `none` where that
-- raises.
pub mod Cleaned
use Prim.Native.Char.{Char}
use gafaelfawr.Prelude.{
  String, Bool, true, false, not, ◌&&◌, Option, none, some, List, [], ◌∷◌, ◌++◌, ◌==◌, string_eq,
  is_some, if◌then◌else◌,
}
use gafaelfawr.Prelude.Result.{Result, ok, err, ◌>>=◌}
use gafaelfawr.Prelude.Text.{char_eq, has_char}
use gafaelfawr.Errors.{Error, invalid_request, value_error}
use gafaelfawr.Credential.{is_token}
use gafaelfawr.Headers.Words.{strip, split_word, split_char, lower_is}

abbrev space : Char
space = " "

abbrev colon : Char
colon = ":"

unfoldable pub first_token : List String → Option String
first_token [] = none
first_token (candidate ∷ candidates) =
    if is_token candidate then some candidate else first_token candidates

-- `basic_auth.strip().split(":")` and the loop over the candidates.
unfoldable pub find_token_in : Option String → Option String
find_token_in none = none
find_token_in (some basic_auth) =
    let (x, xs) = split_char colon (strip basic_auth) in first_token (x ∷ xs)

-- The token in a pair of username and password: the one in the username first.
unfoldable pub choose : String → String → Result Error (Option String)
choose user password =
    if is_token user
    then if is_token password && not (user == password) then err invalid_request else ok (some user)
    else if is_token password
    then ok (some password)
    else ok none

-- `user, password = basic_auth.strip().split(":")`, which raises unless there are two pieces.
unfoldable pub parse_pair : String × List String → Result Error (Option String)
parse_pair (user, []) = err invalid_request
parse_pair (user, password ∷ []) = choose user password
parse_pair (user, password ∷ other ∷ others) = err invalid_request

unfoldable pub parse_basic : Option String → Result Error (Option String)
parse_basic none = err invalid_request
parse_basic (some basic_auth) = parse_pair (split_char colon (strip basic_auth))

module _ (decode : String → Option String) where
  -- `_find_token_in_basic_auth`
  unfoldable pub find_token_in_basic_auth : String → Option String
  find_token_in_basic_auth auth = find_token_in (decode auth)

  -- Whether a header of this type and blob has a token.
  unfoldable pub has_token : String → String → Bool
  has_token auth_type auth_blob =
      if lower_is auth_type "bearer"
      then is_token auth_blob
      else if lower_is auth_type "basic"
      then is_some (find_token_in_basic_auth auth_blob)
      else false

  -- The split into two names raises `ValueError` if there are not two pieces.
  unfoldable pub clean_words : String → Option (String × String) → Result Error (List String)
  clean_words header none = err value_error
  clean_words header (some (auth_type, auth_blob)) =
      ok (if has_token auth_type auth_blob then [] else header ∷ [])

  unfoldable pub clean_header : String → Result Error (List String)
  clean_header header =
      if not (has_char space header)
      then ok (header ∷ [])
      else clean_words header (split_word header)

  unfoldable pub clean_authorization : List String → Result Error (List String)
  clean_authorization [] = ok []
  clean_authorization (header ∷ headers) = do
    kept ← clean_header header
    rest ← clean_authorization headers
    ok (kept ++ rest)

  unfoldable pub parse_words : Bool → Option (String × String) → Result Error (Option String)
  parse_words only_bearer none = err value_error
  parse_words only_bearer (some (auth_type, auth_blob)) =
      if lower_is auth_type "bearer"
      then ok (some auth_blob)
      else if only_bearer
      then err invalid_request
      else if not (lower_is auth_type "basic")
      then err invalid_request
      else parse_basic (decode auth_blob)

  -- The first `Authorization` header, if there is one.
  unfoldable pub parse_authorization : Bool → Option String → Result Error (Option String)
  parse_authorization only_bearer none = ok none
  parse_authorization only_bearer (some header) =
      if header == ""
      then ok none
      else if not (has_char space header)
      then err invalid_request
      else parse_words only_bearer (split_word header)
