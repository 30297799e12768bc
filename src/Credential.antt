-- ===== src/Credential.antt =====
-- The opaque credentials of src/gafaelfawr/models/token.py (`Token`) and
-- src/gafaelfawr/models/oidc.py (`OIDCAuthorizationCode`), and their serialised forms. The two
-- classes have the same code over two prefixes and two exceptions.
pub mod Format
pub mod Examples
use Prim.Native.Char.{Char}
use Prim.Native.String.{count}
use gafaelfawr.Prelude.{
  String, ◌<>◌, Bool, true, false, not, ◌&&◌, ◌||◌, Option, none, some, ◌==◌, nat_eq, if◌then◌else◌,
}
use gafaelfawr.Prelude.Result.{Result, ok, err, ◌>>=◌}
use gafaelfawr.Prelude.Text.{starts_with, drop, split_once}
use gafaelfawr.Errors.{Error, invalid_token, invalid_grant}

pub record Token : Type 0 where
  pub key : String
  pub secret : String

pub record AuthorizationCode : Type 0 where
  pub key : String
  pub secret : String

abbrev pub dot : Char
dot = "."

-- `len(key) != 22 or len(secret) != 22`
unfoldable pub malformed : String × String → Bool
malformed (key, secret) = not (count key == 22) || not (count secret == 22)

-- `trimmed.split(".", 1)` behind its test, and the check of the lengths.
unfoldable pub parse_trimmed : Error → Option (String × String) → Result Error (String × String)
parse_trimmed e none = err e
parse_trimmed e (some parts) = if malformed parts then err e else ok parts

-- The body that the two `from_str` share, over the prefix and the exception.
unfoldable pub parse : String → Error → String → Result Error (String × String)
parse prefix e text =
    if not (starts_with text prefix)
    then err e
    else parse_trimmed e (split_once dot (drop (count prefix) text))

abbrev pub print : String → String → String → String
print prefix key secret = prefix <> (key <> ("." <> secret))

unfoldable pub token_from_str : String → Result Error Token
token_from_str text = do
  (key, secret) ← parse "gt-" invalid_token text
  ok (record { key = key; secret = secret })

unfoldable pub token_to_str : Token → String
token_to_str t = print "gt-" t.key t.secret

-- `Token.is_token` repeats the tests of `from_str` with no exception.
unfoldable pub is_token_trimmed : Option (String × String) → Bool
is_token_trimmed none = false
is_token_trimmed (some (key, secret)) = count key == 22 && count secret == 22

unfoldable pub is_token : String → Bool
is_token text =
    if not (starts_with text "gt-") then false else is_token_trimmed (split_once dot (drop 3 text))

unfoldable pub code_from_str : String → Result Error AuthorizationCode
code_from_str text = do
  (key, secret) ← parse "gc-" invalid_grant text
  ok (record { key = key; secret = secret })

unfoldable pub code_to_str : AuthorizationCode → String
code_to_str c = print "gc-" c.key c.secret
