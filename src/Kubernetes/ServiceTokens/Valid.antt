-- ===== src/Kubernetes/ServiceTokens/Valid.antt =====
-- When src/gafaelfawr/services/kubernetes.py keeps the token that is in a secret.
use gafaelfawr.Prelude.{
  ℕ, String, ◌≡◌, refl, true, Option, none, some, List, [], ◌∷◌, string_eq, arith, ==→≡,
}
use gafaelfawr.Prelude.Result.{Result, ok, err}
use gafaelfawr.Errors.{Error}
use gafaelfawr.Credential.{Token, token_from_str}
use gafaelfawr.Models.{TokenData}
use gafaelfawr.Models.Scopes.{sorted}
use gafaelfawr.Storage.Redis.{Storage}
use gafaelfawr.Storage.World.{World, get_data}
use gafaelfawr.Tokens.{Config}
use gafaelfawr.Kubernetes.ServiceTokens.{
  GafaelfawrServiceToken, SecretApi, Base64, same_texts, is_data_for, is_token_valid,
  is_parsed_valid, is_text_valid, is_value_valid,
}

same_texts→≡ : (ss ts : List String) → same_texts ss ts ≡ true → ss ≡ ts
unfolding same_texts
same_texts→≡ [] [] h = refl
same_texts→≡ [] (t ∷ ts) h = absurd (ground arith)
same_texts→≡ (s ∷ ss) [] h = absurd (ground arith)
same_texts→≡ (s ∷ ss) (t ∷ ts) h =
    let first = ==→≡ s t (ground arith) in
    let rest = same_texts→≡ ss ts (ground arith) in λ i. first i ∷ rest i

-- The data is for the service, with its scopes in any order.
abbrev pub IsFor : GafaelfawrServiceToken → Option TokenData → Type 0
IsFor parent o =
    (d : TokenData) × (o ≡ some d)
    × (d.username ≡ parent.service)
    × (sorted d.scopes ≡ sorted parent.scopes)

is_data_for-IsFor :
    (parent : GafaelfawrServiceToken) (o : Option TokenData)
    → is_data_for parent o ≡ true
    → IsFor parent o
is_data_for-IsFor parent none h = absurd (ground arith)
is_data_for-IsFor parent (some d) h = (
  d,
  refl,
  ==→≡ d.username parent.service (ground arith),
  same_texts→≡ (sorted d.scopes) (sorted parent.scopes) (ground arith),
)

module _ (R : Storage TokenData) (K : SecretApi) (base64 : Base64) (config : Config) (now : ℕ)
    (internal drawn : Token) (parent : GafaelfawrServiceToken) where
  parsed_valid :
      (parsed : Result Error Token) (v : World R)
      → is_parsed_valid R K base64 config now internal drawn parent parsed v ≡ true
      → (token : Token) × (parsed ≡ ok token) × IsFor parent (get_data R now token v)
  unfolding is_token_valid
  parsed_valid (err e) v h = absurd (ground arith)
  parsed_valid (ok token) v h = (token, refl, is_data_for-IsFor parent (get_data R now token v) h)

  text_valid :
      (o : Option String) (v : World R)
      → is_text_valid R K base64 config now internal drawn parent o v ≡ true
      → (text : String) × (token : Token) × (o ≡ some text)
        × (token_from_str text ≡ ok token)
        × IsFor parent (get_data R now token v)
  text_valid none v h = absurd (ground arith)
  text_valid (some text) v h =
      let (token, parsed, valid) = parsed_valid (token_from_str text) v h in
      (text, token, refl, parsed, valid)

  pub value_valid :
      (o : Option String) (v : World R)
      → is_value_valid R K base64 config now internal drawn parent o v ≡ true
      → (value text : String) × (token : Token) × (o ≡ some value)
        × (base64.decode value ≡ some text)
        × (token_from_str text ≡ ok token)
        × IsFor parent (get_data R now token v)
  value_valid none v h = absurd (ground arith)
  value_valid (some value) v h =
      let (text, token, decoded, parsed, valid) = text_valid (base64.decode value) v h in
      (value, text, token, refl, decoded, parsed, valid)
