-- ===== src/Headers/Cookies/Kept.antt =====
-- What `clean_cookies` of src/gafaelfawr/auth.py leaves of a `Cookie` header.
use Prim.Native.Char.{Char}
use mathlib.Core.List.{map}
use text.Mathlib.TextLemmas.{cons-append, nil-append}
use gafaelfawr.Prelude.{
  String, ◌<>◌, ◌≡◌, ◌≢◌, refl, ap, sym, ◌∙◌, not, ==→≡, Bool, false, inl, inr, List, [], ◌∷◌, ◌++◌,
  arith, All, All-filter, filter, Bool-cases,
}
use gafaelfawr.Prelude.Text.{starts_with, drop, char_eq, append-drop}
use gafaelfawr.Headers.Cookies.Named.{
  one-append, is_ours, is_kept-is_ours, separator_text, split_cookies-behind,
}
use gafaelfawr.Headers.Cookies.{
  semicolon, separates, extend, split_cookies, pieces, join_cookies, is_kept, rejoin, clean_cookies,
}

-- A text that holds no separator.
abbrev pub IsPiece : String → Type 0
IsPiece p = split_cookies p ≡ (p, [])

extend-single :
    (c : Char) (x : String) (xs : List String) (p : String)
    → extend c x xs ≡ (String.◌∷◌ c p, [])
    → (x ≡ p) × (xs ≡ []) × (separates c p ≡ false)
unfolding extend
extend-single c x xs p h = ground arith

extend-plain :
    (c : Char) (x : String) (xs : List String)
    → separates c x ≡ false
    → extend c x xs ≡ (String.◌∷◌ c x, xs)
unfolding extend
extend-plain c x xs h = ground arith

IsPiece-tail :
    (c : Char) (p : String) → IsPiece (String.◌∷◌ c p) → IsPiece p × (separates c p ≡ false)
unfolding split_cookies
IsPiece-tail c p h =
    let (first, rest) = split_cookies p in
    let (first_eq, rest_eq, plain) = extend-single c first rest p h in (ground arith, plain)

split_cookies-separator : (s : String) → split_cookies ("; " <> s) ≡ ("", pieces s)
unfolding split_cookies extend starts_with drop char_eq
split_cookies-separator s = rw (separator_text s) refl

split_cookies-append : (p s : String) → IsPiece p → split_cookies (p <> ("; " <> s)) ≡ (p, pieces s)
unfolding split_cookies
split_cookies-append String.[] s h = rw nil-append (split_cookies-separator s)
split_cookies-append (String.◌∷◌ c p) s h =
    let (tail, plain) = IsPiece-tail c p h in
    rw (cons-append, split_cookies-append p s tail) (extend-plain c p (pieces s) plain)

-- The pieces of a text hold no separator.
IsPiece-drop : (x : String) → IsPiece x → IsPiece (drop 1 x)
unfolding drop
IsPiece-drop String.[] h = h
IsPiece-drop (String.◌∷◌ c s) h = (IsPiece-tail c s h).0

IsPiece-nil : IsPiece ""
unfolding split_cookies
IsPiece-nil = refl

IsPiece-cons :
    (c : Char) (x : String) → separates c x ≡ false → IsPiece x → IsPiece (String.◌∷◌ c x)
unfolding split_cookies
IsPiece-cons c x plain h = rw h (extend-plain c x [] plain)

All-extend :
    (c : Char) (x : String) (xs : List String)
    → All IsPiece (x ∷ xs)
    → All IsPiece (let (y, ys) = extend c x xs in y ∷ ys)
unfolding extend
All-extend c x xs h = elim (Bool-cases (separates c x)) [
  | inl cut ↦ rw cut (IsPiece-nil, (IsPiece-drop x h.0, h.1))
  | inr plain ↦ rw plain (IsPiece-cons c x plain h.0, h.1)
]

pub All-pieces : (s : String) → All IsPiece (pieces s)
unfolding split_cookies
All-pieces String.[] = (IsPiece-nil, tt)
All-pieces (String.◌∷◌ c s) = let (x, xs) = split_cookies s in All-extend c x xs (All-pieces s)

pub pieces-join_cookies :
    (x : String) (xs : List String) → All IsPiece (x ∷ xs) → pieces (join_cookies (x ∷ xs)) ≡ x ∷ xs
unfolding join_cookies
pieces-join_cookies x [] h = rw h.0 refl
pieces-join_cookies x (y ∷ ys) h =
    rw (split_cookies-append x (join_cookies (y ∷ ys)) h.0, pieces-join_cookies y ys h.1) refl

-- A header of these pieces, and none if there are none.
abbrev pub add_header : List String → List (List String) → List (List String)
add_header [] headers = headers
add_header (x ∷ xs) headers = (x ∷ xs) ∷ headers

-- What is to be left of the headers, in pieces: those that do not start with `gafaelfawr=`.
unfoldable pub kept_pieces : List String → List (List String)
kept_pieces [] = []
kept_pieces (header ∷ headers) =
    add_header (filter (λ cookie. not (is_ours cookie)) (pieces header)) (kept_pieces headers)

pieces-rejoin :
    (xs rest : List String)
    → All IsPiece xs
    → map pieces (rejoin xs ++ rest) ≡ add_header xs (map pieces rest)
unfolding rejoin
pieces-rejoin [] rest h = refl
pieces-rejoin (x ∷ xs) rest h = rw (pieces-join_cookies x xs h) refl

filter-same :
    (p q : String → Bool) (xs : List String)
    → ((x : String) → p x ≡ q x)
    → filter p xs ≡ filter q xs
filter-same p q [] same = refl
filter-same p q (x ∷ xs) same = ground (arith, same x, filter-same p q xs same)

clean_cookies-pieces :
    (headers : List String) → map pieces (clean_cookies headers) ≡ kept_pieces headers
unfolding clean_cookies kept_pieces
clean_cookies-pieces [] = refl
clean_cookies-pieces (header ∷ headers) =
    let kept = All-filter IsPiece is_kept (pieces header) (All-pieces header) in
    rw (pieces-rejoin _ (clean_cookies headers) kept, clean_cookies-pieces headers)
      (ap (λ xs. add_header xs (kept_pieces headers))
        (filter-same is_kept (λ cookie. not (is_ours cookie)) (pieces header) is_kept-is_ours))

filter-filter : (p : String → Bool) (xs : List String) → filter p (filter p xs) ≡ filter p xs
filter-filter p [] = refl
filter-filter p (x ∷ xs) = elim (Bool-cases (p x)) [
  | inl e ↦ rw (e, e, filter-filter p xs) refl
  | inr e ↦ rw (e, filter-filter p xs) refl
]

clean_cookies-rejoin :
    (xs rest : List String)
    → All IsPiece xs
    → clean_cookies (rejoin xs ++ rest) ≡ rejoin (filter is_kept xs) ++ clean_cookies rest
unfolding clean_cookies rejoin
clean_cookies-rejoin [] rest h = refl
clean_cookies-rejoin (x ∷ xs) rest h =
    ap (λ ps. rejoin (filter is_kept ps) ++ clean_cookies rest) (pieces-join_cookies x xs h)

clean_cookies-clean_cookies :
    (headers : List String) → clean_cookies (clean_cookies headers) ≡ clean_cookies headers
unfolding clean_cookies
clean_cookies-clean_cookies [] = refl
clean_cookies-clean_cookies (header ∷ headers) =
    let kept = All-filter IsPiece is_kept (pieces header) (All-pieces header) in
    rw
      (
        clean_cookies-rejoin _ (clean_cookies headers) kept,
        filter-filter is_kept (pieces header),
        clean_cookies-clean_cookies headers,
      )
      refl

-- A text with no separator in it.
abbrev pub IsUncut : String → Type 0
IsUncut p = (before after : String) → p ≢ before <> ("; " <> after)

not_empty : (xs : List String) (y : String) (ys : List String) → xs ++ (y ∷ ys) ≢ []
not_empty [] y ys h = ground arith
not_empty (x ∷ xs) y ys h = ground arith

IsPiece-IsUncut : (p : String) → IsPiece p → IsUncut p
IsPiece-IsUncut p h before after is =
    let (first, rest) = split_cookies after in
    not_empty (split_cookies before).1 first rest (
      ap (λ (q : String × List String). q.1)
        (sym (split_cookies-behind before after) ∙ (ap split_cookies (sym is) ∙ h)))

All-IsUncut : (xs : List String) → All IsPiece xs → All IsUncut xs
All-IsUncut [] h = tt
All-IsUncut (x ∷ xs) h = (IsPiece-IsUncut x h.0, All-IsUncut xs h.1)

join_cookies-cons :
    (c : Char) (x : String) (xs : List String)
    → join_cookies (String.◌∷◌ c x ∷ xs) ≡ String.◌∷◌ c (join_cookies (x ∷ xs))
unfolding join_cookies
join_cookies-cons c x [] = refl
join_cookies-cons c x (y ∷ ys) = rw cons-append refl

join_cookies-extend :
    (c : Char) (x : String) (xs : List String)
    → join_cookies (let (y, ys) = extend c x xs in y ∷ ys) ≡ String.◌∷◌ c (join_cookies (x ∷ xs))
unfolding extend join_cookies
join_cookies-extend c x xs = elim (Bool-cases (separates c x)) [
  | inr plain ↦ rw plain (join_cookies-cons c x xs)
  | inl cut ↦
      let is_semicolon : c ≡ semicolon = ==→≡ c semicolon (ground arith) in
      let behind : " " <> drop 1 x ≡ x = append-drop x " " (ground arith) in
      let rest = join_cookies (drop 1 x ∷ xs) in
      let spaced : join_cookies (x ∷ xs) ≡ String.◌∷◌ " " rest =
        ap (λ t. join_cookies (t ∷ xs)) (sym behind ∙ one-append " " (drop 1 x))
        ∙ join_cookies-cons " " (drop 1 x) xs in
      rw cut (
        nil-append ("; " <> rest)
        ∙ (separator_text rest
            ∙ (ap (λ d. String.◌∷◌ d (String.◌∷◌ " " rest)) (sym is_semicolon)
                ∙ ap (String.◌∷◌ c) (sym spaced))))
]

join_cookies-pieces : (header : String) → join_cookies (pieces header) ≡ header
unfolding split_cookies join_cookies
join_cookies-pieces String.[] = refl
join_cookies-pieces (String.◌∷◌ c s) =
    let (x, xs) = split_cookies s in
    join_cookies-extend c x xs ∙ ap (String.◌∷◌ c) (join_cookies-pieces s)

-- `clean_cookies` keeps, of the pieces of each header and in their order, those that do not start
-- with `gafaelfawr=`, and drops the headers of which nothing is left. The pieces of a header, before
-- and after, have no `; ` in them, and joined by it they are the header. A second call changes nothing.
pub clean_cookies_lem :
    (headers : List String)
    → (map pieces (clean_cookies headers) ≡ kept_pieces headers)
      × ((header : String) → All IsUncut (pieces header) × (join_cookies (pieces header) ≡ header))
      × (clean_cookies (clean_cookies headers) ≡ clean_cookies headers)
clean_cookies_lem headers = (
  clean_cookies-pieces headers,
  λ header. (All-IsUncut (pieces header) (All-pieces header), join_cookies-pieces header),
  clean_cookies-clean_cookies headers,
)
