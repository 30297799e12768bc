-- ===== src/Models/Scopes/Roundtrip.antt =====
-- Writing and reading the column of scopes.
use text.Mathlib.TextLemmas.{cons-append, nil-append}
use gafaelfawr.Prelude.{
  String, ◌<>◌, ◌≡◌, refl, ◌≢◌, false, List, [], ◌∷◌, arith, ◌==◌, All, ap, contains, string_eq,
  ◌||◌, Bool-cases, inl, inr,
}
use gafaelfawr.Prelude.Text.{has_char, char_eq}
use gafaelfawr.Models.Scopes.{
  text_le, insert, sorted, join, comma, split_commas, normalize_scopes, join_scopes, to_set,
}

-- A scope that the configuration can hold: not empty, and with no comma.
abbrev pub IsScope : String → Type 0
IsScope s = (s ≢ "") × (has_char comma s ≡ false)

split_commas-no_comma : (s : String) → has_char comma s ≡ false → split_commas s ≡ (s, [])
unfolding split_commas has_char
split_commas-no_comma String.[] h = refl
split_commas-no_comma (String.◌∷◌ c s) h = ground (arith, split_commas-no_comma s)

split_commas-append :
    (s t : String)
    → has_char comma s ≡ false
    → split_commas (s <> String.◌∷◌ comma t) ≡ (s, (split_commas t).0 ∷ (split_commas t).1)
unfolding split_commas has_char
split_commas-append String.[] t h = rw nil-append (ground arith)
split_commas-append (String.◌∷◌ c s) t h = rw cons-append (ground (arith, split_commas-append s t))

comma-append : (s : String) → "," <> s ≡ String.◌∷◌ comma s
comma-append s = rw cons-append (ap (String.◌∷◌ comma) (nil-append s))

split_commas-join :
    (x : String) (xs : List String) → All IsScope (x ∷ xs) → split_commas (join (x ∷ xs)) ≡ (x, xs)
unfolding join
split_commas-join x [] h = split_commas-no_comma x h.0.1
split_commas-join x (y ∷ ys) h =
    rw (comma-append, split_commas-append x (join (y ∷ ys)) h.0.1, split_commas-join y ys h.1)

join-ne-empty : (x : String) (xs : List String) → x ≢ "" → join (x ∷ xs) ≢ ""
unfolding join
join-ne-empty x [] h = h
join-ne-empty String.[] (y ∷ ys) h = λ e. h refl
join-ne-empty (String.◌∷◌ c s) (y ∷ ys) h = rw cons-append (λ e. cc)

normalize_scopes-ne_empty :
    (s : String) → s ≢ "" → normalize_scopes s ≡ (split_commas s).0 ∷ (split_commas s).1
unfolding normalize_scopes
normalize_scopes-ne_empty String.[] h = absurd (h refl)
normalize_scopes-ne_empty (String.◌∷◌ c s) h = refl

normalize_scopes-join : (xs : List String) → All IsScope xs → normalize_scopes (join xs) ≡ xs
normalize_scopes-join [] h = unfold normalize_scopes join in refl
normalize_scopes-join (x ∷ xs) h =
    rw (normalize_scopes-ne_empty _ (join-ne-empty x xs h.0.0), split_commas-join x xs h)

module _ {ℓ} (P : String → Type ℓ) where
  All-insert : (x : String) (xs : List String) → P x → All P xs → All P (insert x xs)
  unfolding insert
  All-insert x [] p h = (p, tt)
  All-insert x (y ∷ ys) p h = elim (Bool-cases (text_le x y)) [
    | inl e ↦ rw e (p, h)
    | inr e ↦ rw e (h.0, All-insert x ys p h.1)
  ]

  All-sorted : (xs : List String) → All P xs → All P (sorted xs)
  unfolding sorted
  All-sorted [] h = tt
  All-sorted (x ∷ xs) h = All-insert x (sorted xs) h.0 (All-sorted xs h.1)

contains-insert :
    (a x : String) (xs : List String) → contains (insert x xs) a ≡ (a == x || contains xs a)
unfolding insert
contains-insert a x [] = refl
contains-insert a x (y ∷ ys) = ground (arith, contains-insert a x ys)

pub contains-sorted : (a : String) (xs : List String) → contains (sorted xs) a ≡ contains xs a
unfolding sorted
contains-sorted a [] = refl
contains-sorted a (x ∷ xs) = ground (arith, contains-insert a x (sorted xs), contains-sorted a xs)

pub contains-to_set : (xs : List String) (a : String) → contains (to_set xs) a ≡ contains xs a
unfolding to_set
contains-to_set [] a = refl
contains-to_set (x ∷ xs) a = elim (Bool-cases (contains (to_set xs) x)) [
  | inl again ↦ elim (string_eq.dec a x) [
    | yes same ↦ ground (arith, contains-to_set xs x, contains-to_set xs a)
    | no differ ↦ ground (arith, contains-to_set xs a)
  ]
  | inr new ↦ rw (new, contains-to_set xs a) refl
]

-- Scopes that are not empty and hold no comma come back from the column, sorted; and sorting keeps
-- which scopes are in the list.
pub normalize_scopes-join_scopes :
    (scopes : List String)
    → All IsScope scopes
    → (normalize_scopes (join_scopes scopes) ≡ sorted scopes)
      × ((a : String) → contains (sorted scopes) a ≡ contains scopes a)
unfolding join_scopes
normalize_scopes-join_scopes scopes h = (
  normalize_scopes-join (sorted scopes) (All-sorted IsScope scopes h),
  λ a. contains-sorted a scopes,
)
