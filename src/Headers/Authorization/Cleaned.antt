-- ===== src/Headers/Authorization/Cleaned.antt =====
-- `clean_authorization` of src/gafaelfawr/auth.py against `parse_authorization`.
use mathlib.Core.Path.{subst}
use gafaelfawr.Prelude.{
  String, ◌≡◌, refl, Bool, false, inl, inr, Option, none, some, List, [], ◌∷◌, ◌++◌, arith, All,
  All-append, Bool-cases, is_some, string_eq,
}
use gafaelfawr.Prelude.Result.{Result, ok, err, ◌>>=◌}
use gafaelfawr.Prelude.Text.{has_char}
use gafaelfawr.Errors.{Error}
use gafaelfawr.Credential.{is_token}
use gafaelfawr.Headers.Words.{strip, split_word, split_char, lower_is}
use gafaelfawr.Headers.Authorization.{
  colon, first_token, find_token_in, find_token_in_basic_auth, has_token, clean_words, clean_header,
  clean_authorization, choose, parse_pair, parse_basic, parse_words, parse_authorization,
}

-- A text that the program finds in a header, but that is not a token.
abbrev NoToken : Result Error (Option String) → Type 0
NoToken r = (found : String) → r ≡ ok (some found) → is_token found ≡ false

choose-NoToken :
    (user password : String)
    → is_some (first_token (user ∷ password ∷ [])) ≡ false
    → NoToken (choose user password)
unfolding choose first_token
choose-NoToken user password h found e = ground arith

parse_pair-NoToken :
    (x : String) (xs : List String)
    → is_some (first_token (x ∷ xs)) ≡ false
    → NoToken (parse_pair (x, xs))
unfolding parse_pair
parse_pair-NoToken x [] h found e = absurd (ground arith)
parse_pair-NoToken x (y ∷ []) h found e = choose-NoToken x y h found e
parse_pair-NoToken x (y ∷ z ∷ zs) h found e = absurd (ground arith)

parse_basic-NoToken :
    (decoded : Option String)
    → is_some (find_token_in decoded) ≡ false
    → NoToken (parse_basic decoded)
unfolding parse_basic find_token_in
parse_basic-NoToken none h found e = absurd (ground arith)
parse_basic-NoToken (some text) h found e =
    let (x, xs) = split_char colon (strip text) in parse_pair-NoToken x xs h found e

both_ok :
    (r q : Result Error (List String)) (kept : List String)
    → (r >>= λ xs. q >>= λ ys. ok (xs ++ ys)) ≡ ok kept
    → (xs : List String) × (ys : List String) × (r ≡ ok xs) × (q ≡ ok ys) × (kept ≡ xs ++ ys)
both_ok (err e) q kept h = absurd (ground arith)
both_ok (ok xs) (err e) kept h = absurd (ground arith)
both_ok (ok xs) (ok ys) kept h = (xs, ys, refl, refl, ground arith)

module _ (decode : String → Option String) where
  -- Nothing that the program takes for a token is in this header.
  abbrev pub IsClean : String → Type 0
  IsClean header =
      (only_bearer : Bool) (found : String)
      → parse_authorization decode only_bearer (some header) ≡ ok (some found)
      → is_token found ≡ false

  parse_words-NoToken :
      (only_bearer : Bool) (auth_type auth_blob : String)
      → has_token decode auth_type auth_blob ≡ false
      → NoToken (parse_words decode only_bearer (some (auth_type, auth_blob)))
  unfolding parse_words has_token find_token_in_basic_auth
  parse_words-NoToken only_bearer auth_type auth_blob h found e =
      elim (Bool-cases (lower_is auth_type "bearer")) [
        | inl bearer ↦ ground arith
        | inr other ↦ elim (Bool-cases (lower_is auth_type "basic")) [
          | inl basic ↦ parse_basic-NoToken (decode auth_blob) (ground arith) found (ground arith)
          | inr unknown ↦ absurd (ground arith)
        ]
      ]

  clean_words-IsClean :
      (header : String) (words : Option (String × String)) (kept : List String)
      → ((only_bearer : Bool) (found : String)
          → parse_authorization decode only_bearer (some header) ≡ ok (some found)
          → parse_words decode only_bearer words ≡ ok (some found))
      → clean_words decode header words ≡ ok kept
      → All IsClean kept
  unfolding clean_words
  clean_words-IsClean header none kept s h = absurd (ground arith)
  clean_words-IsClean header (some (auth_type, auth_blob)) kept s h =
      elim (Bool-cases (has_token decode auth_type auth_blob)) [
        | inl has ↦ let none_left : [] ≡ kept = ground arith in subst (All IsClean) none_left tt
        | inr clean ↦
            let whole : header ∷ [] ≡ kept = ground arith in
            subst (All IsClean) whole (
              λ only_bearer found e.
                  parse_words-NoToken only_bearer auth_type auth_blob clean found
                    (s only_bearer found e),
              tt,
            )
      ]

  clean_header-IsClean :
      (header : String) (kept : List String)
      → clean_header decode header ≡ ok kept
      → All IsClean kept
  unfolding clean_header parse_authorization
  clean_header-IsClean header kept h = elim (Bool-cases (has_char " " header)) [
    | inl spaced ↦
        clean_words-IsClean header (split_word header) kept (λ only_bearer found e. ground arith)
          (ground arith)
    | inr plain ↦
        let whole : header ∷ [] ≡ kept = ground arith in
        subst (All IsClean) whole ((λ only_bearer found e. absurd (ground arith)), tt)
  ]

  -- No header that `clean_authorization` keeps is one in which `parse_authorization` finds a token,
  -- whether it looks for bearer tokens only or not.
  pub clean_authorization-IsClean :
      (headers kept : List String) → clean_authorization decode headers ≡ ok kept → All IsClean kept
  unfolding clean_authorization
  clean_authorization-IsClean [] kept h =
      let none_left : [] ≡ kept = ground arith in subst (All IsClean) none_left tt
  clean_authorization-IsClean (header ∷ headers) kept h =
      let (first, rest, one, others, whole) =
        both_ok (clean_header decode header) (clean_authorization decode headers) kept h in
      rw whole (
        All-append IsClean first rest (clean_header-IsClean header first one)
          (clean_authorization-IsClean headers rest others))
