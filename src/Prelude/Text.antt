-- ===== src/Prelude/Text.antt =====
-- Python's `str` as a list of characters: prefixes, slices and the split at the first separator.
use Prim.Native.Char.{Char, code}
use Prim.Native.String.{count}
use native.Mathlib.Decide.{ℕ_discrete}
use text.Mathlib.TextEquality.{Char-path}
use text.Mathlib.TextLemmas.{nil-append, cons-append, length-cons}
use mathlib.Core.Logic.{dite}
use mathlib.Core.Option
use gafaelfawr.Prelude.{
  ℕ, zero, suc, String, ◌<>◌, ◌≡◌, refl, ap, Bool, true, false, ◌&&◌, ◌||◌, Option, none, some,
  arith, Eq, ◌==◌, if◌then◌else◌,
}

char_dec : Discrete Char
char_dec c d =
    dite (ℕ_discrete (code c) (code d)) (λ p. yes (Char-path c d p)) (λ n. no (λ q. n (ap code q)))

instance unfoldable pub char_eq : Eq Char
unfolding char_dec ℕ_discrete
char_eq = record { dec = char_dec }

-- `s.startswith(prefix)`
unfoldable pub starts_with : String → String → Bool
starts_with s String.[] = true
starts_with String.[] (String.◌∷◌ d t) = false
starts_with (String.◌∷◌ c s) (String.◌∷◌ d t) = c == d && starts_with s t

-- `s[n:]`
unfoldable pub drop : ℕ → String → String
drop zero s = s
drop (suc n) String.[] = String.[]
drop (suc n) (String.◌∷◌ c s) = drop n s

-- `c in s`, for one character.
unfoldable pub has_char : Char → String → Bool
has_char d String.[] = false
has_char d (String.◌∷◌ c s) = c == d || has_char d s

-- `s.split(c, 1)`, with `none` where `c in s` is false.
unfoldable pub split_once : Char → String → Option (String × String)
split_once d String.[] = none
split_once d (String.◌∷◌ c s) =
    if c == d
    then some (String.[], s)
    else Option.map (λ (k, r). (String.◌∷◌ c k, r)) (split_once d s)

-- The lemmas on these, for every prefix and separator.
pub starts_with-append : (p s : String) → starts_with (p <> s) p ≡ true
unfolding starts_with
starts_with-append String.[] s = refl
starts_with-append (String.◌∷◌ c p) s = rw cons-append (ground (arith, starts_with-append p s))

pub drop-append : (p s : String) → drop (count p) (p <> s) ≡ s
unfolding drop
drop-append String.[] s = rw nil-append
drop-append (String.◌∷◌ c p) s = rw (length-cons, cons-append) (drop-append p s)

pub append-drop : (s p : String) → starts_with s p ≡ true → p <> drop (count p) s ≡ s
unfolding starts_with drop
append-drop s String.[] h = rw nil-append
append-drop String.[] (String.◌∷◌ d t) h = cc
append-drop (String.◌∷◌ c s) (String.◌∷◌ d t) h =
    rw (length-cons, cons-append) (ground (arith, append-drop s t))

pub split_once-append :
    (d : Char) (k r : String)
    → has_char d k ≡ false
    → split_once d (k <> String.◌∷◌ d r) ≡ some (k, r)
unfolding has_char split_once
split_once-append d String.[] r h = rw nil-append (ground arith)
split_once-append d (String.◌∷◌ c k) r h = rw cons-append (ground (arith, split_once-append d k r))

-- What a split says of the text: its halves make it up, and the first is the shortest.
abbrev pub IsSplit : Char → String → String × String → Type 0
IsSplit d s (k, r) = (s ≡ k <> String.◌∷◌ d r) × (has_char d k ≡ false)

has_char-nil : (d : Char) → has_char d String.[] ≡ false
unfolding has_char
has_char-nil d = refl

has_char-cons : (d c : Char) (s : String) → has_char d (String.◌∷◌ c s) ≡ (c == d || has_char d s)
unfolding has_char
has_char-cons d c s = refl

IsSplit-once_step :
    (d c : Char) (s : String) (o : Option (String × String))
    → ((p : String × String) → o ≡ some p → IsSplit d s p)
    → (p : String × String)
    → (if c == d then some (String.[], s) else Option.map (λ (k, r). (String.◌∷◌ c k, r)) o)
      ≡ some p
    → IsSplit d (String.◌∷◌ c s) p
IsSplit-once_step d c s none ih (k, r) h =
    ground (arith, nil-append (String.◌∷◌ d r), has_char-nil d)
IsSplit-once_step d c s (some (k', r')) ih (k, r) h = ground (
  arith,
  ih (k', r') refl,
  nil-append (String.◌∷◌ d r),
  cons-append c k' (String.◌∷◌ d r),
  has_char-nil d,
  has_char-cons d c k',
)

pub append-split_once :
    (d : Char) (s : String) (p : String × String) → split_once d s ≡ some p → IsSplit d s p
unfolding split_once
append-split_once d String.[] p h = cc
append-split_once d (String.◌∷◌ c s) p h =
    IsSplit-once_step d c s (split_once d s) (append-split_once d s) p h
