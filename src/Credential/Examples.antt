-- ===== src/Credential/Examples.antt =====
-- Tests of the credential formats, and their theorems at concrete credentials.
use gafaelfawr.Prelude.{◌≡◌, refl, ◌↔◌, nat_eq}
use gafaelfawr.Prelude.Result.{ok, err}
use gafaelfawr.Prelude.Text.{starts_with, drop, split_once, char_eq}
use gafaelfawr.Errors.{invalid_token}
use gafaelfawr.Credential.{
  Token, AuthorizationCode, token_from_str, token_to_str, code_from_str, parse, parse_trimmed,
  malformed,
}
use gafaelfawr.Credential.Format.{IsWellFormed, token_from_str-eq_ok_iff}

abbrev sample : Token
sample = record { key = "5KVApqcVbSQWtO3VIRgOhQ"; secret = "8t5XdPSYTrteD0pDB15zqQ" }

abbrev sample_code : AuthorizationCode
sample_code = record { key = "5KVApqcVbSQWtO3VIRgOhQ"; secret = "8t5XdPSYTrteD0pDB15zqQ" }

prints : token_to_str sample ≡ "gt-5KVApqcVbSQWtO3VIRgOhQ.8t5XdPSYTrteD0pDB15zqQ"
unfolding token_to_str
prints = refl

wrong_prefix : token_from_str "gc-5KVApqcVbSQWtO3VIRgOhQ.8t5XdPSYTrteD0pDB15zqQ" ≡ err invalid_token
unfolding token_from_str parse starts_with char_eq
wrong_prefix = refl

short_secret : token_from_str "gt-5KVApqcVbSQWtO3VIRgOhQ.8t5XdPSYT" ≡ err invalid_token
unfolding token_from_str parse parse_trimmed malformed starts_with drop split_once char_eq nat_eq
short_secret = refl

token_from_str-eq_ok_iff_example :
    (token_from_str "gt-5KVApqcVbSQWtO3VIRgOhQ.8t5XdPSYTrteD0pDB15zqQ" ≡ ok sample) ↔ (
      (token_to_str sample ≡ "gt-5KVApqcVbSQWtO3VIRgOhQ.8t5XdPSYTrteD0pDB15zqQ")
      × IsWellFormed sample.key sample.secret)
token_from_str-eq_ok_iff_example =
    token_from_str-eq_ok_iff "gt-5KVApqcVbSQWtO3VIRgOhQ.8t5XdPSYTrteD0pDB15zqQ" sample

code_parses : code_from_str "gc-5KVApqcVbSQWtO3VIRgOhQ.8t5XdPSYTrteD0pDB15zqQ" ≡ ok sample_code
unfolding code_from_str parse parse_trimmed malformed starts_with drop split_once char_eq nat_eq
code_parses = refl
