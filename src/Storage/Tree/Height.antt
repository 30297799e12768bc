-- ===== src/Storage/Tree/Height.antt =====
-- The height of a token in the forest of subtokens, for the loop of `get_children` in
-- src/gafaelfawr/storage/token.py.
use gafaelfawr.Prelude.{
  sym, ℕ, zero, suc, ◌≤◌, ◌<◌, String, ◌≡◌, refl, true, Option, none, some, List, [], ◌∷◌, ◌++◌,
  arith, ◌==◌, string_eq, option_eq, contains, length, All, All-contains, Bool-cases, inl, inr,
  if◌then◌else◌,
}
use gafaelfawr.Storage.Database.{SubtokenRow, in_parents}
use gafaelfawr.Storage.Queries.{children_of, descend}
use gafaelfawr.Storage.Tree.{IsApart, IsForest, is_edge, IsEdge, Descends, child, further}

abbrev height : List SubtokenRow → String → ℕ
height [] key = 0
height (r ∷ rows) key = if key == r.child then 0 else suc (height rows key)

height-le-length : (rows : List SubtokenRow) (key : String) → height rows key ≤ length rows
height-le-length [] key = omega arith
height-le-length (r ∷ rows) key = ground (arith, height-le-length rows key)

-- A row goes down.
abbrev IsDown : List SubtokenRow → SubtokenRow → Type 0
IsDown rows r = (p : String) → r.parent ≡ some p → height rows r.child < height rows p

IsDown-cons :
    (q : SubtokenRow) (rows : List SubtokenRow) (some_rows : List SubtokenRow)
    → All (IsApart q.child) some_rows
    → All (IsDown rows) some_rows
    → All (IsDown (q ∷ rows)) some_rows
IsDown-cons q rows [] apart down = tt
IsDown-cons q rows (r ∷ rest) apart down =
    (λ p e. ground (arith, down.0 p), IsDown-cons q rows rest apart.1 down.1)

IsForest-IsDown : (rows : List SubtokenRow) → IsForest rows → All (IsDown rows) rows
IsForest-IsDown [] f = tt
IsForest-IsDown (r ∷ rows) f =
    (λ p e. ground arith, IsDown-cons r rows rows f.1 (IsForest-IsDown rows f.2))

pub in_parents-eq_true :
    (o : Option String) (parents : List String)
    → in_parents o parents ≡ true
    → (p : String) × (o ≡ some p) × (contains parents p ≡ true)
in_parents-eq_true none parents h = cc
in_parents-eq_true (some p) parents h = (p, refl, h)

children-height :
    (n : ℕ) (whole rows : List SubtokenRow) (parents : List String)
    → All (IsDown whole) rows
    → All (λ p. height whole p ≤ n) parents
    → All (λ c. height whole c < n) (children_of rows parents)
unfolding children_of
children-height n whole [] parents down low = tt
children-height n whole (r ∷ rows) parents down low =
    elim (Bool-cases (in_parents r.parent parents)) [
      | inl inside ↦
          let (p, e, c) = in_parents-eq_true r.parent parents inside in
          let falls : height whole r.child < height whole p = down.0 p e in
          let bound : height whole p ≤ n = All-contains (λ q. height whole q ≤ n) parents p low c in
          rw inside (omega arith, children-height n whole rows parents down.1 low)
      | inr outside ↦ rw outside (children-height n whole rows parents down.1 low)
    ]

All-below :
    (rows : List SubtokenRow) (n : ℕ) (keys : List String)
    → All (λ p. height rows p < suc n) keys
    → All (λ p. height rows p ≤ n) keys
All-below rows n [] low = tt
All-below rows n (k ∷ keys) low = (omega arith, All-below rows n keys low.1)

-- `descend` ends if the fuel exceeds the height of every token that it starts from.
descend_ends :
    (fuel : ℕ) (rows : List SubtokenRow) (parents : List String)
    → IsForest rows
    → All (λ p. height rows p < fuel) parents
    → (keys : List String) × (descend fuel rows parents ≡ some keys)
unfolding descend
descend_ends zero rows [] f low = ([], refl)
descend_ends (suc fuel) rows [] f low = ([], refl)
descend_ends zero rows (p ∷ ps) f low = absurd (omega arith)
descend_ends (suc fuel) rows (p ∷ ps) f low =
    let (keys, e) = descend_ends fuel rows (children_of rows (p ∷ ps)) f (
      children-height fuel rows rows (p ∷ ps) (IsForest-IsDown rows f)
        (All-below rows fuel (p ∷ ps) low)) in
    (children_of rows (p ∷ ps) ++ keys, rw e)

-- In a forest, the loop of `get_children` ends within the fuel, whatever the token.
pub descend_ends_from :
    (rows : List SubtokenRow) (key : String)
    → IsForest rows
    → (keys : List String) × (descend (suc (length rows)) rows (key ∷ []) ≡ some keys)
descend_ends_from rows key f =
    descend_ends (suc (length rows)) rows (key ∷ []) f
      (omega (arith, height-le-length rows key), tt)

IsEdge-height :
    (whole rows : List SubtokenRow) (p c : String)
    → All (IsDown whole) rows
    → IsEdge rows p c
    → height whole c < height whole p
IsEdge-height whole [] p c down e = absurd (ground arith)
IsEdge-height whole (r ∷ rows) p c down e = elim (Bool-cases (is_edge p c r)) [
  | inl here ↦
      let child_eq : r.child ≡ c = ground arith in
      let falls : height whole r.child < height whole p = down.0 p (ground arith) in
      rw (sym child_eq) falls
  | inr there ↦ IsEdge-height whole rows p c down.1 (ground arith)
]

Descends-height :
    {rows : List SubtokenRow} {p x : String}
    → IsForest rows
    → Descends rows p x
    → height rows x < height rows p
Descends-height {rows} f (child {p} {c} e) = IsEdge-height rows rows p c (IsForest-IsDown rows f) e
Descends-height {rows} f (further {p} {c} {x} e d) =
    let below : height rows x < height rows c = Descends-height f d in
    omega (arith, IsEdge-height rows rows p c (IsForest-IsDown rows f) e)

-- No token of a forest descends from itself.
pub Descends-irrefl :
    (rows : List SubtokenRow) (key : String) → IsForest rows → ¬ Descends rows key key
Descends-irrefl rows key f d = omega (arith, Descends-height f d)
