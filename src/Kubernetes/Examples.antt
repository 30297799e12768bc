-- ===== src/Kubernetes/Examples.antt =====
-- An ingress and a service token in a cluster that holds one object of each kind.
use gafaelfawr.Prelude.{
  ℕ, String, ◌≡◌, refl, ap, sym, false, Option, none, some, [], ◌∷◌, nat_eq, string_eq, option_eq,
}
use gafaelfawr.Prelude.Text.{char_eq, starts_with, drop}
use gafaelfawr.Prelude.Result.{Result, ok, err}
use gafaelfawr.Prelude.Dict.{IsDict, get}
use gafaelfawr.Errors.{Error}
use gafaelfawr.Models.{TokenData, type_eq}
use gafaelfawr.Usernames.{valid_username, is_bot_user}
use gafaelfawr.Storage.Redis.{IsLawful}
use gafaelfawr.Storage.Redis.Memory.{memory-IsLawful}
use gafaelfawr.Storage.Database.{
  add, check_name_conflict, name_taken, insert_token, insert_subtoken,
}
use gafaelfawr.Storage.Queries.{add_change}
use gafaelfawr.Storage.World.{store_data, transaction}
use gafaelfawr.Tokens.{check_authorization, validate_username, validate_expires, validate_scopes}
use gafaelfawr.Tokens.Checks.{check_admin_request}
use gafaelfawr.Tokens.Create.{store_new, create_token_from_admin_request}
use gafaelfawr.Tokens.Examples.{R, config, now, drawn, own, start}
use gafaelfawr.Kubernetes.{ParentMetadata, ResourceStatus, created, status_of}
use gafaelfawr.Kubernetes.Annotations.{Params, all_of}
use gafaelfawr.Kubernetes.Ingresses.{
  GafaelfawrIngress, KubernetesIngress, IngressApi, validate_ingress_scopes, found_ingress,
  get_ingress, written_as, create_ingress, add_owner, build_kubernetes_ingress, update_ingress,
  update_valid, update_checked, update_for,
}
use gafaelfawr.Kubernetes.Annotations.{ends_line}
use gafaelfawr.Kubernetes.Ingresses.Update
use gafaelfawr.Kubernetes.Ingresses.Update.{IsCurrent, update_for_settles}
use gafaelfawr.Kubernetes.ServiceTokens
use gafaelfawr.Kubernetes.ServiceTokens.{
  GafaelfawrServiceToken, Secret, SecretApi, Base64, OperatorWorld, internal_token, service_request,
  build_secret, found_secret, secret_needs_update, create_token, create_secret, write_secret,
  make_secret, renew, update_secret, update_token,
}
use gafaelfawr.Kubernetes.ServiceTokens.Served
use gafaelfawr.Kubernetes.ServiceTokens.Served.{IsServed, update_token-IsServed}

-- A cluster with room for one object, whatever its name.
module _ {V : Type 0} where
  abbrev stored : Option V → Result ℕ V
  stored none = err 404
  stored (some v) = ok v

  abbrev after : Result ℕ (Option V) → Result ℕ V
  after (ok s) = stored s
  after (err status) = err status

abbrev ingresses : IngressApi String String
ingresses = record {
  State = Option (KubernetesIngress String String);
  read = λ s namespace name. stored s;
  create = λ s namespace i. ok (some i);
  replace = λ s namespace name i. ok (some i);
}

ingresses-IsFaithful : Update.IsFaithful String String ingresses
ingresses-IsFaithful = record {
  read-create = λ s t namespace i wrote. ap after (sym wrote);
  read-replace = λ s t namespace name i wrote. ap after (sym wrote);
}

abbrev metadata : ParentMetadata
metadata = record {
  name = "bot-secret";
  namespace = "default";
  annotations = none;
  labels = none;
  uid = "a9c3";
  generation = 1;
}

abbrev ingress : GafaelfawrIngress String String
ingress = record {
  metadata = metadata;
  config = record {
    auth_cache_duration = none;
    auth_type = none;
    base_url = "https://example.org/";
    delegate = none;
    login_redirect = false;
    replace_403 = false;
    scopes = all_of ("read:all" ∷ []);
    service = some "app";
    username = none;
  };
  name = "app";
  annotations = ("example.org/owner", "app") ∷ [];
  labels = none;
  rules = "example.org";
  tls = none;
}

abbrev urlencode : Params → String
urlencode params = "scope=read%3Aall&service=app"

abbrev made : KubernetesIngress String String
made =
    add_owner String String ingress
      (build_kubernetes_ingress String String urlencode ingresses config ingress)

known : validate_ingress_scopes config ingress.config.scopes ≡ ok tt
unfolding validate_ingress_scopes string_eq
known = refl

updates :
    update_for String String urlencode ingresses config ingress none
    ≡ (ok (some (status_of metadata created)), some made)
unfolding known update_for update_checked update_valid get_ingress found_ingress update_ingress
    create_ingress written_as nat_eq
updates = refl

proper : IsDict ingress.annotations
unfolding get
proper = (refl, tt)

update_for_settles_example :
    IsCurrent String String urlencode ingresses ingresses-IsFaithful config ingress proper tt
      (some made)
    × (update_for String String urlencode ingresses config ingress (some made)
        ≡ (ok none, some made))
update_for_settles_example =
    update_for_settles String String urlencode ingresses ingresses-IsFaithful config ingress proper
      tt none (some made) (some (status_of metadata created)) known updates

abbrev secrets : SecretApi
secrets = record {
  State = Option Secret;
  read = λ s namespace name. stored s;
  create = λ s namespace name secret. ok (some secret);
  replace = λ s namespace name secret. ok (some secret);
  patch = λ s namespace name annotations labels. ok s;
}

abbrev base64 : Base64
base64 = record { encode = λ text. text; decode = λ value. some value }

abbrev bot : GafaelfawrServiceToken
bot = record { metadata = metadata; service = "bot-ci"; scopes = "read:all" ∷ [] }

abbrev L : IsLawful R
L = memory-IsLawful TokenData

secrets-IsFaithful : Served.IsFaithful R L secrets base64 config now own drawn bot
secrets-IsFaithful = record {
  read-create = λ s t namespace name secret wrote. ap after (sym wrote);
  read-replace = λ s t namespace name secret wrote. ap after (sym wrote);
}

abbrev empty : OperatorWorld R secrets
empty = record { tokens = start; cluster = none }

serve : OperatorWorld R secrets → Result Error (Option ResourceStatus) × OperatorWorld R secrets
serve = update_token R secrets base64 config now own drawn bot

serves : serve empty ≡ (ok (some (status_of metadata created)), (serve empty).1)
unfolding serve update_token found_secret update_secret secret_needs_update renew make_secret
    create_token service_request internal_token write_secret create_secret ServiceTokens.written_as
    create_token_from_admin_request check_admin_request check_authorization validate_username
    validate_expires validate_scopes valid_username is_bot_user store_new store_data add
    check_name_conflict insert_token insert_subtoken name_taken add_change transaction string_eq
    option_eq char_eq nat_eq starts_with drop type_eq ends_line
serves = refl

update_token-IsServed_example :
    IsServed R L secrets base64 config now own drawn bot empty
      (some (status_of metadata created))
      (serve empty).1
unfolding serve
update_token-IsServed_example =
    update_token-IsServed R L secrets base64 config now own drawn bot secrets-IsFaithful empty
      (serve empty).1 (some (status_of metadata created)) serves
