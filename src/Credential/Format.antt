-- ===== src/Credential/Format.antt =====
-- The serialised forms of `Token` of src/gafaelfawr/models/token.py and `OIDCAuthorizationCode` of
-- src/gafaelfawr/models/oidc.py against their parsers.
use Prim.Native.String.{count}
use text.Mathlib.TextLemmas.{cons-append, nil-append}
use gafaelfawr.Prelude.{String, ◌<>◌, ◌≡◌, ap, ◌↔◌, true, false, Option, none, some, arith, nat_eq}
use gafaelfawr.Prelude.Result.{ok, err, is_ok}
use gafaelfawr.Prelude.Text.{
  starts_with, drop, has_char, split_once, starts_with-append, drop-append, append-drop,
  split_once-append, append-split_once,
}
use gafaelfawr.Errors.{Error, invalid_token, invalid_grant}
use gafaelfawr.Credential.{
  Token, AuthorizationCode, dot, malformed, parse_trimmed, parse, print, token_from_str,
  token_to_str, is_token, is_token_trimmed, code_from_str, code_to_str,
}

-- The two parts as `random_128_bits` makes them: 22 characters each, and no dot in the key.
pub record IsWellFormed (key secret : String) : Type 0 where
  pub key_length : count key ≡ 22
  pub secret_length : count secret ≡ 22
  pub key_dotless : has_char dot key ≡ false

dot-append : (secret : String) → "." <> secret ≡ String.◌∷◌ dot secret
dot-append secret = rw cons-append (ap (String.◌∷◌ dot) (nil-append secret))

parse-print :
    (prefix : String) (e : Error) (key secret : String)
    → IsWellFormed key secret
    → parse prefix e (print prefix key secret) ≡ ok (key, secret)
unfolding parse parse_trimmed malformed
parse-print prefix e key secret w =
    rw
      (
        starts_with-append,
        drop-append,
        dot-append secret,
        split_once-append dot key secret w.key_dotless,
      )
      (ground arith)

parse_trimmed-eq_ok :
    (e : Error) (o : Option (String × String)) (key secret : String)
    → parse_trimmed e o ≡ ok (key, secret)
    → (o ≡ some (key, secret)) × (count key ≡ 22) × (count secret ≡ 22)
unfolding parse_trimmed malformed
parse_trimmed-eq_ok e none key secret h = cc
parse_trimmed-eq_ok e (some (k, r)) key secret h = ground arith

parse-eq_ok :
    (prefix : String) (e : Error) (text key secret : String)
    → parse prefix e text ≡ ok (key, secret)
    → (starts_with text prefix ≡ true)
      × (split_once dot (drop (count prefix) text) ≡ some (key, secret))
      × (count key ≡ 22)
      × (count secret ≡ 22)
unfolding parse
parse-eq_ok prefix e text key secret h =
    ground (arith, parse_trimmed-eq_ok e (split_once dot (drop (count prefix) text)) key secret)

print-parse :
    (prefix : String) (e : Error) (text key secret : String)
    → parse prefix e text ≡ ok (key, secret)
    → (print prefix key secret ≡ text) × IsWellFormed key secret
print-parse prefix e text key secret h =
    let (starts, splits, k, r) = parse-eq_ok prefix e text key secret h in
    let (whole, dotless) = append-split_once dot _ _ splits in
    (
      rw (dot-append secret, ← whole) (append-drop text prefix starts),
      record { key_length = k; secret_length = r; key_dotless = dotless },
    )

-- A text parses to a token exactly when it is the printed form of that token and the token has a
-- key and a secret of 22 characters each and no dot in the key.
pub token_from_str-eq_ok_iff :
    (text : String) (t : Token)
    → (token_from_str text ≡ ok t) ↔ ((token_to_str t ≡ text) × IsWellFormed t.key t.secret)
unfolding token_from_str token_to_str
token_from_str-eq_ok_iff text t = (
  λ h. print-parse "gt-" invalid_token text t.key t.secret (ground arith),
  λ (printed, w).
      let parses = parse-print "gt-" invalid_token t.key t.secret w in rw (← printed, parses),
)

-- A text parses to an authorization code exactly when it is the printed form of that code and the
-- code has a key and a secret of 22 characters each and no dot in the key.
pub code_from_str-eq_ok_iff :
    (text : String) (c : AuthorizationCode)
    → (code_from_str text ≡ ok c) ↔ ((code_to_str c ≡ text) × IsWellFormed c.key c.secret)
unfolding code_from_str code_to_str
code_from_str-eq_ok_iff text c = (
  λ h. print-parse "gc-" invalid_grant text c.key c.secret (ground arith),
  λ (printed, w).
      let parses = parse-print "gc-" invalid_grant c.key c.secret w in rw (← printed, parses),
)

-- `is_token` accepts exactly the texts that `Token.from_str` parses, and every other text makes
-- `from_str` raise `InvalidTokenError`.
token_from_str-is_token :
    (text : String)
    → (is_ok (token_from_str text) ≡ is_token text)
      × (is_token text ≡ false → token_from_str text ≡ err invalid_token)
unfolding token_from_str is_token is_token_trimmed parse parse_trimmed malformed
token_from_str-is_token text = ground arith
