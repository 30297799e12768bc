-- ===== src/Headers/Examples.antt =====
-- The headers of a request at concrete values.
use mathlib.Core.List.{map}
use gafaelfawr.Prelude.{
  String, ◌≡◌, refl, false, Option, none, some, List, [], ◌∷◌, All, ◌==◌, string_eq, nat_eq,
  if◌then◌else◌,
}
use gafaelfawr.Prelude.Text.{char_eq, starts_with, drop, split_once, has_char}
use gafaelfawr.Prelude.Result.{ok}
use gafaelfawr.Credential.{is_token, is_token_trimmed}
use gafaelfawr.Headers.Words.{
  is_space, strip_left, strip_right, strip, first_word, split_word, split_char, lowers_to, lower_is,
}
use gafaelfawr.Headers.Cookies.{
  extend, split_cookies, pieces, join_cookies, is_kept, rejoin, clean_cookies,
}
use gafaelfawr.Headers.Cookies.Kept.{IsUncut, kept_pieces, clean_cookies_lem}
use gafaelfawr.Headers.Authorization.{
  first_token, find_token_in, find_token_in_basic_auth, has_token, clean_words, clean_header,
  clean_authorization, choose, parse_pair, parse_basic, parse_words, parse_authorization,
}
use gafaelfawr.Headers.Authorization.Cleaned.{IsClean, clean_authorization-IsClean}

abbrev cookies : List String
cookies = "a=1; gafaelfawr=Z0FBQUFB; b" ∷ "gafaelfawr=Z0FBQUFB" ∷ []

cleaned : clean_cookies cookies ≡ "a=1; b" ∷ []
unfolding clean_cookies split_cookies extend is_kept rejoin join_cookies split_once starts_with drop
    string_eq char_eq
cleaned = refl

clean_cookies_lem_example :
    (map pieces (clean_cookies cookies) ≡ kept_pieces cookies)
    × ((header : String) → All IsUncut (pieces header) × (join_cookies (pieces header) ≡ header))
    × (clean_cookies (clean_cookies cookies) ≡ clean_cookies cookies)
clean_cookies_lem_example = clean_cookies_lem cookies

abbrev token : String
token = "gt-DGO1OnPohl0r3C7wqhzRgQ.2T1RHkIi4b14JzswnXfCsQ"

-- A decoder that knows one text, a token as the username.
abbrev decode : String → Option String
decode text =
    if text == "c29tZQ=="
    then some "gt-DGO1OnPohl0r3C7wqhzRgQ.2T1RHkIi4b14JzswnXfCsQ:x-oauth-basic"
    else none

abbrev authorizations : List String
authorizations =
    "Bearer gt-DGO1OnPohl0r3C7wqhzRgQ.2T1RHkIi4b14JzswnXfCsQ" ∷ "basic c29tZQ==" ∷ "Basic b3RoZXI="
    ∷ "Other" ∷ []

abbrev others : List String
others = "Basic b3RoZXI=" ∷ "Other" ∷ []

keeps : clean_authorization decode authorizations ≡ ok others
unfolding clean_authorization clean_header clean_words has_token find_token_in_basic_auth
    find_token_in first_token is_token is_token_trimmed split_word first_word split_char strip
    strip_left strip_right is_space lower_is lowers_to has_char starts_with drop split_once
    string_eq char_eq nat_eq
keeps = refl

clean_authorization-IsClean_example : All (IsClean decode) others
clean_authorization-IsClean_example = clean_authorization-IsClean decode authorizations others keeps

found : parse_authorization decode false (some "basic c29tZQ==") ≡ ok (some token)
unfolding parse_authorization parse_words parse_basic parse_pair choose is_token is_token_trimmed
    split_word first_word split_char strip strip_left strip_right is_space lower_is lowers_to
    has_char starts_with drop split_once string_eq char_eq nat_eq
found = refl
