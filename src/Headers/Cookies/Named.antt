-- ===== src/Headers/Cookies/Named.antt =====
-- What `clean_cookies` of src/gafaelfawr/auth.py takes for Gafaelfawr's cookie, said of the text of a
-- header alone.
use Prim.Native.Char.{Char}
use text.Mathlib.TextLemmas.{cons-append, nil-append, append_assoc}
use mathlib.Core.Path.{subst}
use gafaelfawr.Prelude.{
  String, ◌<>◌, ◌≡◌, ◌≢◌, refl, ap, sym, ◌∙◌, Bool, true, false, not, inl, inr, some, List, [], ◌∷◌,
  ◌++◌, arith, ◌==◌, string_eq, All, Option-cases, Bool-cases, ==→≡,
}
use gafaelfawr.Prelude.Text.{
  starts_with, drop, has_char, split_once, char_eq, starts_with-append, append-drop,
  split_once-append, append-split_once,
}
use gafaelfawr.Headers.Cookies.{
  semicolon, equals, cookie_name, separates, extend, split_cookies, pieces, is_kept,
}

pub one-append : (c : Char) (s : String) → String.◌∷◌ c String.[] <> s ≡ String.◌∷◌ c s
one-append c s = rw cons-append (ap (String.◌∷◌ c) (nil-append s))

-- A cookie with Gafaelfawr's name.
unfoldable pub is_ours : String → Bool
is_ours cookie = starts_with cookie "gafaelfawr="

ours_text : (value : String) → "gafaelfawr=" <> value ≡ cookie_name <> String.◌∷◌ equals value
ours_text value =
    append_assoc cookie_name "=" value ∙ ap (λ s. cookie_name <> s) (one-append equals value)

no_equals : has_char equals cookie_name ≡ false
unfolding has_char char_eq
no_equals = refl

split_once-ours :
    (value : String) → split_once equals ("gafaelfawr=" <> value) ≡ some (cookie_name, value)
split_once-ours value =
    ap (split_once equals) (ours_text value) ∙ split_once-append equals cookie_name value no_equals

split_once-is_ours :
    (cookie : String)
    → is_ours cookie ≡ true
    → (value : String) × (split_once equals cookie ≡ some (cookie_name, value))
unfolding is_ours
split_once-is_ours cookie h =
    let whole = append-drop cookie "gafaelfawr=" h in
    (_, ap (split_once equals) (sym whole) ∙ split_once-ours _)

pub is_kept-ours : (value : String) → is_kept ("gafaelfawr=" <> value) ≡ false
unfolding is_kept string_eq
is_kept-ours value = rw (split_once-ours value) refl

pub is_kept-is_ours : (cookie : String) → is_kept cookie ≡ not (is_ours cookie)
unfolding is_kept is_ours
is_kept-is_ours cookie = elim (Bool-cases (is_ours cookie)) [
  | inl ours ↦
      let (value, split) = split_once-is_ours cookie ours in rw (ours, split) (ground arith)
  | inr other ↦ elim (Option-cases (split_once equals cookie)) [
    | inl whole ↦ rw (other, whole) refl
    | inr ((name, value), split) ↦ elim (Bool-cases (name == cookie_name)) [
      | inr differs ↦ rw (other, split, differs) refl
      | inl same ↦
          let text : cookie ≡ name <> String.◌∷◌ equals value =
            (append-split_once equals cookie (name, value) split).0 in
          let named : name ≡ cookie_name = ==→≡ name cookie_name same in
          let ours : cookie ≡ "gafaelfawr=" <> value =
            text ∙ (ap (λ n. n <> String.◌∷◌ equals value) named ∙ sym (ours_text value)) in
          let yes : is_ours cookie ≡ true =
            ap is_ours ours ∙ starts_with-append "gafaelfawr=" value in
          absurd (ground arith)
    ]
  ]
]

-- The pieces behind a separator are pieces of the whole.
extend-more :
    (c : Char) (x : String) (xs more : List String)
    → extend c x (xs ++ more) ≡ (let (y, ys) = extend c x xs in (y, ys ++ more))
unfolding extend
extend-more c x xs more = elim (Bool-cases (separates c x)) [
  | inl cut ↦ rw cut refl
  | inr plain ↦ rw plain refl
]

pub separator_text : (s : String) → "; " <> s ≡ String.◌∷◌ semicolon (String.◌∷◌ " " s)
separator_text s =
    append_assoc ";" " " s
    ∙ (one-append semicolon (" " <> s) ∙ ap (String.◌∷◌ semicolon) (one-append " " s))

split_cookies-space :
    (s : String) → split_cookies (String.◌∷◌ semicolon (String.◌∷◌ " " s)) ≡ ("", pieces s)
unfolding split_cookies extend starts_with drop char_eq
split_cookies-space s = refl

pub split_cookies-behind :
    (before s : String)
    → split_cookies (before <> ("; " <> s))
      ≡ (let (x, xs) = split_cookies before in (x, xs ++ pieces s))
unfolding split_cookies
split_cookies-behind String.[] s = rw (nil-append, separator_text s) (split_cookies-space s)
split_cookies-behind (String.◌∷◌ c before) s =
    let (x, xs) = split_cookies before in
    rw (cons-append, split_cookies-behind before s) (extend-more c x xs (pieces s))

-- A text without a semicolon stands whole in the first piece.
split_cookies-plain :
    (p s : String)
    → has_char semicolon p ≡ false
    → split_cookies (p <> s) ≡ (let (x, xs) = split_cookies s in (p <> x, xs))
unfolding split_cookies has_char extend
split_cookies-plain String.[] s h = rw (nil-append, nil-append) refl
split_cookies-plain (String.◌∷◌ c p) s h =
    let (x, xs) = split_cookies s in
    let other : (c == semicolon) ≡ false = ground arith in
    rw (cons-append, cons-append, split_cookies-plain p s (ground arith), other) refl

-- No Gafaelfawr cookie stands at the start of the header or behind a separator.
abbrev pub IsForeign : String → Type 0
IsForeign header =
    ((value : String) → header ≢ "gafaelfawr=" <> value)
    × ((before value : String) → header ≢ before <> ("; gafaelfawr=" <> value))

abbrev AllKept : List String → Type 0
AllKept = All (λ cookie. is_kept cookie ≡ true)

AllKept-behind : (xs ys : List String) → AllKept (xs ++ ys) → AllKept ys
AllKept-behind [] ys h = h
AllKept-behind (x ∷ xs) ys h = AllKept-behind xs ys h.1

no_semicolon : has_char semicolon "gafaelfawr=" ≡ false
unfolding has_char char_eq
no_semicolon = refl

pieces-ours :
    (value : String)
    → pieces ("gafaelfawr=" <> value)
      ≡ (let (x, xs) = split_cookies value in ("gafaelfawr=" <> x) ∷ xs)
pieces-ours value =
    ap (λ (q : String × List String). q.0 ∷ q.1)
      (split_cookies-plain "gafaelfawr=" value no_semicolon)

not_kept : (value : String) → ¬ (AllKept (pieces ("gafaelfawr=" <> value)))
not_kept value h =
    let kept = (subst AllKept (pieces-ours value) h).0 in
    let dropped = is_kept-ours (split_cookies value).0 in absurd (ground arith)

pub IsForeign-kept : (header : String) → AllKept (pieces header) → IsForeign header
IsForeign-kept header h = (
  λ value is. not_kept value (subst (λ t. AllKept (pieces t)) is h),
  λ before value is.
      let text : header ≡ before <> ("; " <> ("gafaelfawr=" <> value)) =
        is ∙ ap (λ t. before <> t) (append_assoc "; " "gafaelfawr=" value) in
      let behind =
        subst (λ (q : String × List String). AllKept (q.0 ∷ q.1))
          (split_cookies-behind before ("gafaelfawr=" <> value))
          (subst (λ t. AllKept (pieces t)) text h) in
      not_kept value
        (AllKept-behind (split_cookies before).1 (pieces ("gafaelfawr=" <> value)) behind.1),
)
