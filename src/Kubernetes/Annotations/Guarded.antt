-- ===== src/Kubernetes/Annotations/Guarded.antt =====
-- The authorization URL among the annotations that src/gafaelfawr/services/kubernetes.py builds.
use gafaelfawr.Prelude.{
  String, ◌<>◌, ◌≡◌, refl, ◌∙◌, Bool, true, false, Option, none, some, [], ◌∷◌, ◌++◌, string_eq,
  if◌then◌else◌, inl, inr, Bool-cases,
}
use gafaelfawr.Prelude.Dict.{Dict, get, update, get-set_item, get-update}
use gafaelfawr.Login.Session.{given}
use gafaelfawr.Login.OpenId.{rstrip_slash}
use gafaelfawr.Kubernetes.Annotations.{
  IngressConfig, Params, is_anonymous, cache_annotations, signin_annotations, snippet_key,
  to_auth_url, build_annotations, build_anonymous_annotations, annotations_for,
}

abbrev pub auth_url_key : String
auth_url_key = "nginx.ingress.kubernetes.io/auth-url"

not_given :
    (snippet base_url : String) (duration : Option String) (login_redirect : Bool)
    → get
        (((snippet_key, snippet) ∷ [])
          ++ cache_annotations duration
          ++ signin_annotations login_redirect base_url)
        auth_url_key
      ≡ none
unfolding get string_eq
not_given snippet base_url none false = refl
not_given snippet base_url none true = refl
not_given snippet base_url (some duration) false = refl
not_given snippet base_url (some duration) true = refl

module _ (urlencode : Params → String) (config : IngressConfig) where
  -- What NGINX asks about a request to the ingress.
  abbrev pub auth_url_of : String
  auth_url_of =
      if is_anonymous config.scopes
      then rstrip_slash config.base_url <> "/auth/anonymous"
      else to_auth_url urlencode config

  pub annotations_for-auth_url :
      (annotations : Dict)
      → get (annotations_for urlencode config annotations) auth_url_key ≡ some auth_url_of
  unfolding annotations_for build_annotations build_anonymous_annotations update string_eq
  annotations_for-auth_url annotations = elim (Bool-cases (is_anonymous config.scopes)) [
    | inl anyone ↦ rw anyone (get-set_item auth_url_key _ auth_url_key _)
    | inr closed ↦ rw closed (
        get-update _ _ auth_url_key
          (not_given _ config.base_url (given config.auth_cache_duration) config.login_redirect)
        ∙ get-set_item auth_url_key _ auth_url_key _)
  ]
