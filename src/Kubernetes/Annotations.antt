-- ===== src/Kubernetes/Annotations.antt =====
-- What an ingress asks for: `GafaelfawrIngressConfig` of src/gafaelfawr/models/kubernetes.py, its query for
-- the authorization handler, and its annotations of src/gafaelfawr/services/kubernetes.py.
pub mod Guarded
use Prim.Native.Char.{Char}
use gafaelfawr.Prelude.{
  ℕ, ◌/◌, String, ◌<>◌, Bool, true, false, not, ◌&&◌, ◌||◌, Option, none, some, List, [], ◌∷◌, ◌++◌,
  is_some, ◌==◌, nat_eq, string_eq, option_eq, if◌then◌else◌,
}
use mathlib.Core.List.{map}
use gafaelfawr.Prelude.Result.{Result, guard, ◌>>◌}
use gafaelfawr.Prelude.Text.{char_eq}
use gafaelfawr.Prelude.Dict.{Dict, get, update}
use gafaelfawr.Errors.{Error, value_error}
use gafaelfawr.Models.{second}
use gafaelfawr.Models.Scopes.{join}
use gafaelfawr.Headers.Challenges.{AuthType, basic, bearer}
use gafaelfawr.Login.Session.{given}
use gafaelfawr.Login.OpenId.{rstrip_slash}

-- `GafaelfawrIngressScopesAll` and its siblings.
pub data IngressScopes : Type 0 where
  all_of any_of : List String → IngressScopes
  anonymous : IngressScopes

abbrev pub scopes_in : IngressScopes → List String
scopes_in (all_of scopes) = scopes
scopes_in (any_of scopes) = scopes
scopes_in anonymous = []

abbrev pub is_anonymous : IngressScopes → Bool
is_anonymous (all_of scopes) = false
is_anonymous (any_of scopes) = false
is_anonymous anonymous = true

-- Exactly one of `notebook` and `internal` is given.
pub data Delegated : Type 0 where
  notebook : Delegated
  internal : String → List String → Delegated

-- `minimum_lifetime` is in microseconds.
pub record IngressDelegate : Type 0 where
  pub to : Delegated
  pub minimum_lifetime : Option ℕ
  pub use_authorization : Bool

pub record IngressConfig : Type 0 where
  pub auth_cache_duration : Option String
  pub auth_type : Option AuthType
  pub base_url : String
  pub delegate : Option IngressDelegate
  pub login_redirect : Bool
  pub replace_403 : Bool
  pub scopes : IngressScopes
  pub service : Option String
  pub username : Option String

-- The value of a parameter; a number stands for its digits.
pub data Param : Type 0 where
  text : String → Param
  number : ℕ → Param

abbrev pub Params : Type 0
Params = List (String × Param)

abbrev given_param : String → Option String → Params
given_param name none = []
given_param name (some value) = (name, text value) ∷ []

abbrev true_param : String → Bool → Params
true_param name false = []
true_param name true = (name, text "true") ∷ []

abbrev satisfy_param : IngressScopes → Params
satisfy_param (all_of scopes) = []
satisfy_param (any_of scopes) = ("satisfy", text "any") ∷ []
satisfy_param anonymous = ("satisfy", text "any") ∷ []

abbrev to_params : Delegated → Params
to_params notebook = ("notebook", text "true") ∷ []
to_params (internal service scopes) =
    ("delegate_to", text service) ∷ ("delegate_scope", text (join scopes)) ∷ []

-- A lifetime of zero is false.
abbrev lifetime_param : Option ℕ → Params
lifetime_param none = []
lifetime_param (some lifetime) =
    if lifetime == 0 then [] else ("minimum_lifetime", number (lifetime / second)) ∷ []

abbrev delegate_params : Option IngressDelegate → Params
delegate_params none = []
delegate_params (some d) =
    to_params d.to
    ++ (lifetime_param d.minimum_lifetime ++ true_param "use_authorization" d.use_authorization)

abbrev auth_type_param : Option AuthType → Params
auth_type_param none = []
auth_type_param (some basic) = ("auth_type", text "basic") ∷ []
auth_type_param (some bearer) = ("auth_type", text "bearer") ∷ []

-- The query of `to_auth_url`.
unfoldable pub auth_params : IngressConfig → Params
auth_params config =
    map (λ scope. ("scope", text scope)) (scopes_in config.scopes)
    ++ (given_param "service" (given config.service)
        ++ (satisfy_param config.scopes
            ++ (delegate_params config.delegate
                ++ (auth_type_param config.auth_type
                    ++ given_param "username" (given config.username)))))

-- What has no effect for an anonymous ingress.
abbrev has_effects : IngressConfig → Bool
has_effects config =
    is_some (given config.auth_cache_duration)
    || is_some config.auth_type
    || is_some config.delegate
    || config.login_redirect
    || config.replace_403
    || is_some (given config.username)

abbrev is_basic : Option AuthType → Bool
is_basic none = false
is_basic (some basic) = true
is_basic (some bearer) = false

abbrev internal_service : Option IngressDelegate → Option String
internal_service none = none
internal_service (some d) = elim (d.to) [ notebook ↦ none | internal service scopes ↦ some service ]

abbrev same_service : Option String → Option String → Bool
same_service none internal_name = true
same_service (some service) none = true
same_service (some service) (some internal_name) = service == internal_name

-- `_validate_conflicts`
unfoldable pub validate_conflicts : IngressConfig → Result Error (Unit {0})
validate_conflicts config = do
  guard (not (is_basic config.auth_type && config.login_redirect)) value_error
  guard (not (is_anonymous config.scopes && has_effects config)) value_error
  guard (same_service (given config.service) (internal_service config.delegate)) value_error

abbrev newline : Char
newline = "\n"

-- `snippet.endswith("\n")`
unfoldable pub ends_line : String → Bool
ends_line String.[] = false
ends_line (String.◌∷◌ c String.[]) = c == newline
ends_line (String.◌∷◌ c (String.◌∷◌ d s)) = ends_line (String.◌∷◌ d s)

-- `NGINX_SNIPPET` and `NGINX_RESPONSE_HEADERS`
abbrev nginx_snippet : String
nginx_snippet =
    "auth_request_set $auth_www_authenticate $upstream_http_www_authenticate;\n"
    <> ("auth_request_set $auth_status $upstream_http_x_error_status;\n"
        <> ("auth_request_set $auth_error_body $upstream_http_x_error_body;\n"
            <> "error_page 403 = @autherror;\n"))

abbrev response_headers : String
response_headers =
    "Authorization,Cookie,X-Auth-Request-Email,X-Auth-Request-Token,X-Auth-Request-User"

abbrev pub snippet_key : String
snippet_key = "nginx.ingress.kubernetes.io/configuration-snippet"

-- The snippet of the template, with a line end, and then our own.
unfoldable pub with_snippet : Option String → String
with_snippet none = nginx_snippet
with_snippet (some snippet) =
    if snippet == "" || ends_line snippet
    then snippet <> nginx_snippet
    else snippet <> ("\n" <> nginx_snippet)

abbrev cache_annotations : Option String → Dict
cache_annotations none = []
cache_annotations (some duration) =
    ("nginx.ingress.kubernetes.io/auth-cache-key", "$http_cookie$http_authorization")
    ∷ ("nginx.ingress.kubernetes.io/auth-cache-duration", "200 202 401 " <> duration)
    ∷ []

abbrev signin_annotations : Bool → String → Dict
signin_annotations false base_url = []
signin_annotations true base_url =
    ("nginx.ingress.kubernetes.io/auth-signin", rstrip_slash base_url <> "/login") ∷ []

-- The three annotations that every ingress has, for an authorization URL.
abbrev auth_annotations : String → Dict
auth_annotations url =
    ("nginx.ingress.kubernetes.io/auth-method", "GET")
    ∷ ("nginx.ingress.kubernetes.io/auth-response-headers", response_headers)
    ∷ ("nginx.ingress.kubernetes.io/auth-url", url)
    ∷ []

module _ (urlencode : Params → String) where
  unfoldable pub to_auth_url : IngressConfig → String
  to_auth_url config = rstrip_slash config.base_url <> ("/auth?" <> urlencode (auth_params config))

  -- `_build_annotations`
  unfoldable pub build_annotations : IngressConfig → Dict → Dict
  build_annotations config annotations = update annotations (
      auth_annotations (to_auth_url config)
      ++ ((snippet_key, with_snippet (get annotations snippet_key)) ∷ [])
      ++ cache_annotations (given config.auth_cache_duration)
      ++ signin_annotations config.login_redirect config.base_url)

  -- `_build_anonymous_annotations`
  unfoldable pub build_anonymous_annotations : IngressConfig → Dict → Dict
  build_anonymous_annotations config annotations =
      update annotations (auth_annotations (rstrip_slash config.base_url <> "/auth/anonymous"))

  unfoldable pub annotations_for : IngressConfig → Dict → Dict
  annotations_for config annotations =
      if is_anonymous config.scopes
      then build_anonymous_annotations config annotations
      else build_annotations config annotations
