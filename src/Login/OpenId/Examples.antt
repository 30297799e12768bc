-- ===== src/Login/OpenId/Examples.antt =====
-- An ID token that is verified with one of two keys.
use gafaelfawr.Prelude.{String, ◌≡◌, refl, none, some, [], ◌∷◌, string_eq, nat_eq, option_eq}
use gafaelfawr.Prelude.Text.{char_eq}
use gafaelfawr.Prelude.Result.{ok}
use gafaelfawr.Usernames.{valid_username}
use gafaelfawr.Login.Http.{reply}
use gafaelfawr.Login.Session.{new_state, given}
use gafaelfawr.Login.Providers.{TokenUserInfo}
use gafaelfawr.Login.OpenId.{
  OidcProviderConfig, Calls, Jwk, text, no_metadata, rstrip_slash, claim_of, find_key, id_token_of,
  jwks_uri_of, get_jwks_uri, keys_of, get_keys, key_as_pem, get_key_as_pem, verify_token,
  username_in, get_username, username_of, user_info_of, oidc_provider,
}
use gafaelfawr.Login.OpenId.Verified.{IsVerified, create_user_info-IsVerified}

abbrev config : OidcProviderConfig
config = record {
  client_id = "some-client";
  redirect_url = "https://example.org/login";
  login_url = "https://issuer.example.com/authorize";
  login_params = [];
  scopes = "email" ∷ [];
  issuer = "https://issuer.example.com/";
  audience = "some-client";
  username_claim = "username";
}

abbrev key : String → Jwk
key kid = record { kid = some kid; alg = some "RS256"; n = some kid; e = some "AQAB" }

abbrev calls : Calls
calls = record {
  post_token = λ code.
      reply 200
        (some (record { error = none; error_description = none; id_token = some "encoded" }));
  get_metadata = λ url. reply 404 none;
  get_keys = λ url. reply 200 (some (record { keys = some (key "one" ∷ key "two" ∷ []) }));
  get_unverified_kid = λ encoded. ok (some "one");
  get_unverified_iss = λ encoded. ok (some "https://issuer.example.com/");
  decode = λ encoded pem audience. ok (("sub", text "1") ∷ ("username", text "someuser") ∷ []);
  build_public_key = λ e n. ok n;
  urlencode = λ params. "";
}

abbrev user : TokenUserInfo
user = record { username = "someuser"; metadata = no_metadata }

identified :
    (oidc_provider config calls).create_user_info "code" "state" new_state ≡ (ok user, new_state)
unfolding oidc_provider user_info_of id_token_of username_of verify_token get_key_as_pem get_keys
    get_jwks_uri jwks_uri_of keys_of rstrip_slash find_key key_as_pem get_username username_in
    claim_of given valid_username string_eq nat_eq option_eq char_eq
identified = refl

create_user_info-IsVerified_example :
    (encoded : String) × (id_token_of config calls (calls.post_token "code") ≡ ok encoded)
    × IsVerified config calls encoded "someuser"
    × (user.metadata ≡ no_metadata)
    × (new_state ≡ new_state)
create_user_info-IsVerified_example =
    create_user_info-IsVerified config calls "code" "state" new_state new_state user identified
