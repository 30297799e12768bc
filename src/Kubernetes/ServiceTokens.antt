-- ===== src/Kubernetes/ServiceTokens.antt =====
-- `KubernetesTokenService` of src/gafaelfawr/services/kubernetes.py over `KubernetesTokenStorage` of
-- src/gafaelfawr/storage/kubernetes.py: service tokens that are kept in secrets of the cluster.
pub mod Issued
pub mod Valid
pub mod Served
use Prim.Native.String.{count}
use gafaelfawr.Prelude.{
  ℕ, String, Bool, true, false, not, ◌&&◌, ◌||◌, Option, none, some, List, [], ◌∷◌, ◌==◌, nat_eq,
  string_eq, leb, if◌then◌else◌,
}
use gafaelfawr.Prelude.Result.{Result, ok, err}
use gafaelfawr.Prelude.Exec.{Exec, pure, raise, lift, ◌>>=◌, ◌>>◌}
use gafaelfawr.Prelude.Dict.{Dict, same_dict}
use gafaelfawr.Errors.{
  Error, duplicate_admin, duplicate_token_name, invalid_client_id, invalid_csrf, invalid_cursor,
  invalid_delegate_to, invalid_expires, invalid_minimum_lifetime, invalid_return_url,
  invalid_scopes, invalid_service, kubernetes_error, no_scopes, permission_denied,
  return_uri_mismatch, value_error,
}
use gafaelfawr.Credential.{Token, token_from_str, token_to_str}
use gafaelfawr.Models.{TokenData, TokenType, service, AdminTokenRequest, Metadata}
use gafaelfawr.Models.Scopes.{sorted}
use gafaelfawr.Storage.Redis.{Storage}
use gafaelfawr.Storage.World.{World, Action, get_data, transaction}
use gafaelfawr.Tokens.{Config}
use gafaelfawr.Tokens.Create.{create_token_from_admin_request}
use gafaelfawr.Kubernetes.{
  ParentMetadata, ResourceStatus, created, updated, failed, status_of, OwnerReference, owner_of,
}
use gafaelfawr.Kubernetes.Annotations.{ends_line}
use gafaelfawr.Kubernetes.Ingresses.{same_labels}
use gafaelfawr.Usernames.{valid_username}

-- `GafaelfawrServiceToken`
pub record GafaelfawrServiceToken : Type 0 where
  pub metadata : ParentMetadata
  pub service : String
  pub scopes : List String

-- `V1Secret`; `token` is the value under that key in its data.
pub record Secret : Type 0 where
  pub token : Option String
  pub annotations : Option Dict
  pub labels : Option Dict
  pub owner : Option OwnerReference

-- The API for secrets, by namespace and name; an `ApiException` has a status. `patch` replaces the
-- annotations and the labels.
pub record SecretApi : Type 1 where
  pub State : Type 0
  pub read : State → String → String → Result ℕ Secret
  pub create : State → String → String → Secret → Result ℕ State
  pub replace : State → String → String → Secret → Result ℕ State
  pub patch : State → String → String → Option Dict → Option Dict → Result ℕ State

-- base64 of a text's bytes; `b64decode` and `decode` raise for some texts.
pub record Base64 : Type 0 where
  pub encode : String → String
  pub decode : String → Option String

-- `InputValidationError`, `PermissionDeniedError` and `KubernetesError`
abbrev pub is_reported : Error → Bool
is_reported e = elim e [
  | duplicate_admin ↦ true
  | duplicate_token_name ↦ true
  | invalid_client_id ↦ true
  | invalid_csrf ↦ true
  | invalid_cursor ↦ true
  | invalid_delegate_to ↦ true
  | invalid_expires ↦ true
  | invalid_minimum_lifetime ↦ true
  | invalid_return_url ↦ true
  | invalid_scopes ↦ true
  | invalid_service ↦ true
  | kubernetes_error ↦ true
  | no_scopes ↦ true
  | permission_denied ↦ true
  | return_uri_mismatch ↦ true
  | _ ↦ false
]

-- `==` of lists of texts.
unfoldable pub same_texts : List String → List String → Bool
same_texts [] [] = true
same_texts [] (t ∷ ts) = false
same_texts (s ∷ ss) [] = false
same_texts (s ∷ ss) (t ∷ ts) = s == t && same_texts ss ts

abbrev nothing : Metadata
nothing = record { name = none; email = none; uid = none; gid = none; groups = none }

-- `TokenData.internal_token`, which draws a token of its own.
unfoldable pub internal_token : ℕ → Token → TokenData
internal_token now drawn = record {
  token = drawn;
  username = "<internal>";
  token_type = service;
  scopes = "admin:token" ∷ [];
  created = now;
  expires = none;
  metadata = nothing;
}

-- `pattern=USERNAME_REGEX`, whose `$` pydantic matches at the end of the text only.
abbrev pub is_username : String → Bool
is_username username = valid_username username && not (ends_line username)

-- The model refuses a username of another form, or longer than 64 characters, with a
-- `ValidationError`, which is a `ValueError`.
unfoldable pub service_request : GafaelfawrServiceToken → Result Error AdminTokenRequest
service_request parent =
    if is_username parent.service && leb (count parent.service) 64
    then ok (record {
      username = parent.service;
      token_type = service;
      token_name = none;
      scopes = parent.scopes;
      expires = none;
      metadata = nothing;
    })
    else err value_error

-- `_build_secret`
unfoldable pub build_secret : Base64 → GafaelfawrServiceToken → Token → Secret
build_secret base64 parent token = record {
  token = some (base64.encode (token_to_str token));
  annotations = parent.metadata.annotations;
  labels = parent.metadata.labels;
  owner = some (owner_of "GafaelfawrServiceToken" parent.metadata);
}

-- `get_secret`, of what the API has answered.
unfoldable pub found_secret : Result ℕ Secret → Result Error (Option Secret)
found_secret (ok secret) = ok (some secret)
found_secret (err status) = if status == 404 then ok none else err kubernetes_error

-- `_secret_needs_metadata_update`
unfoldable pub secret_needs_metadata_update : GafaelfawrServiceToken → Secret → Bool
secret_needs_metadata_update parent secret = not (
    same_labels secret.annotations parent.metadata.annotations
    && same_labels secret.labels parent.metadata.labels)

abbrev pub is_data_for : GafaelfawrServiceToken → Option TokenData → Bool
is_data_for parent none = false
is_data_for parent (some d) =
    d.username == parent.service && same_texts (sorted d.scopes) (sorted parent.scopes)

module _ (R : Storage TokenData) (K : SecretApi) where
  -- The stores of tokens, and the cluster.
  pub record OperatorWorld : Type 0 where
    pub tokens : World R
    pub cluster : K.State

  abbrev pub OperatorAction : Type 0 → Type 0
  OperatorAction B = Exec OperatorWorld Error B

  abbrev pub on_tokens : {B : Type 0} → Action R B → OperatorAction B
  on_tokens m w = let (r, v) = m w.tokens in (r, record w { tokens = v })

  -- The end of a call of the API.
  unfoldable pub written_as : {B : Type 0} → B → Result ℕ K.State → OperatorAction B
  written_as b (ok cluster) w = (ok b, record w { cluster = cluster })
  written_as b (err status) w = (err kubernetes_error, w)

  module _ (base64 : Base64) (config : Config) (now : ℕ) (internal drawn : Token)
      (parent : GafaelfawrServiceToken) where
    -- `_is_token_valid`
    unfoldable pub is_token_valid : Token → World R → Bool
    is_token_valid token w = is_data_for parent (get_data R now token w)

    abbrev pub is_parsed_valid : Result Error Token → World R → Bool
    is_parsed_valid (err e) w = false
    is_parsed_valid (ok token) w = is_token_valid token w

    abbrev pub is_text_valid : Option String → World R → Bool
    is_text_valid none w = false
    is_text_valid (some text) w = is_parsed_valid (token_from_str text) w

    abbrev pub is_value_valid : Option String → World R → Bool
    is_value_valid none w = false
    is_value_valid (some value) w = is_text_valid (base64.decode value) w

    -- `_secret_needs_update`
    unfoldable pub secret_needs_update : Option Secret → World R → Bool
    secret_needs_update none w = true
    secret_needs_update (some secret) w = not (is_value_valid secret.token w)

    -- `_create_token`
    unfoldable pub create_token : OperatorAction Token
    create_token = do
      request ← lift (service_request parent)
      on_tokens (
          transaction R (
            create_token_from_admin_request R config now drawn request (internal_token now internal)
              none))

    unfoldable pub create_secret : Token → OperatorAction ResourceStatus
    create_secret token w =
        written_as (status_of parent.metadata created)
          (K.create w.cluster parent.metadata.namespace parent.metadata.name
            (build_secret base64 parent token))
          w

    unfoldable pub replace_secret : Token → OperatorAction ResourceStatus
    replace_secret token w =
        written_as (status_of parent.metadata updated)
          (K.replace w.cluster parent.metadata.namespace parent.metadata.name
            (build_secret base64 parent token))
          w

    unfoldable pub update_secret_metadata : OperatorAction (Unit {0})
    update_secret_metadata w =
        written_as tt
          (K.patch w.cluster parent.metadata.namespace parent.metadata.name
            parent.metadata.annotations parent.metadata.labels)
          w

    unfoldable pub write_secret : Option Secret → Token → OperatorAction ResourceStatus
    write_secret none token = create_secret token
    write_secret (some secret) token = replace_secret token

    unfoldable pub make_secret : Option Secret → OperatorAction ResourceStatus
    make_secret secret = do token ← create_token; write_secret secret token

    -- The errors that are reported in the status of the parent.
    abbrev pub reported : Result Error ResourceStatus → OperatorAction (Option ResourceStatus)
    reported (ok status) = pure (some status)
    reported (err e) =
        if is_reported e then pure (some (status_of parent.metadata failed)) else raise e

    -- Its only exception, `KubernetesError`, is logged.
    unfoldable pub refresh_metadata : Bool → OperatorAction (Option ResourceStatus)
    refresh_metadata false w = (ok none, w)
    refresh_metadata true w = let (r, t) = update_secret_metadata w in (ok none, t)

    unfoldable pub refresh : Option Secret → OperatorAction (Option ResourceStatus)
    refresh none = pure none
    refresh (some secret) = refresh_metadata (secret_needs_metadata_update parent secret)

    unfoldable pub renew : Option Secret → OperatorAction (Option ResourceStatus)
    renew secret w = let (r, t) = make_secret secret w in reported r t

    -- `_update_secret`
    unfoldable pub update_secret : Option Secret → OperatorAction (Option ResourceStatus)
    update_secret secret w =
        if secret_needs_update secret w.tokens then renew secret w else refresh secret w

    -- `KubernetesTokenService.update`
    unfoldable pub update_token : OperatorAction (Option ResourceStatus)
    update_token w =
        (do
          secret ←
              lift (found_secret (K.read w.cluster parent.metadata.namespace parent.metadata.name))
          update_secret secret)
          w
