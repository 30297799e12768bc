-- ===== src/Storage/Tree/Descendants.antt =====
-- `TokenDatabaseStore.get_children` of src/gafaelfawr/storage/token.py and the descendants of a token.
use mathlib.Core.Option
use mathlib.Core.Path.{subst}
use gafaelfawr.Prelude.{
  ℕ, zero, suc, String, ◌≡◌, refl, true, ◌||◌, Option, none, some, List, [], ◌∷◌, ◌++◌, arith,
  string_eq, ◌↔◌, ◌⊎◌, sym, ==_refl, option_eq, contains, length, Bool-cases, inl, inr, ==→≡,
}
use gafaelfawr.Prelude.Result.{ok}
use gafaelfawr.Storage.Database.{SubtokenRow, Database, in_parents}
use gafaelfawr.Storage.Queries.{children_of, descend, get_children, ended}
use gafaelfawr.Storage.Tree.{IsForest, is_edge, IsEdge, Descends, child, further}
use gafaelfawr.Storage.Tree.Height.{descend_ends_from, in_parents-eq_true}

pub contains-append :
    (xs ys : List String) (x : String) → contains (xs ++ ys) x ≡ (contains xs x || contains ys x)
contains-append [] ys x = refl
contains-append (y ∷ xs) ys x = ground (arith, contains-append xs ys x)

children_of-IsEdge :
    (rows : List SubtokenRow) (parents : List String) (c : String)
    → contains (children_of rows parents) c ≡ true
    → (p : String) × (contains parents p ≡ true) × IsEdge rows p c
unfolding children_of
children_of-IsEdge [] parents c h = absurd (ground arith)
children_of-IsEdge (r ∷ rows) parents c h = elim (Bool-cases (in_parents r.parent parents)) [
  | inl inside ↦ elim (string_eq.dec c r.child) [
    | yes same ↦ let (p, e, i) = in_parents-eq_true r.parent parents inside in (p, i, ground arith)
    | no differ ↦
        let (p, i, e) = children_of-IsEdge rows parents c (ground arith) in (p, i, ground arith)
  ]
  | inr outside ↦
      let (p, i, e) = children_of-IsEdge rows parents c (ground arith) in (p, i, ground arith)
]

IsEdge-children_of :
    (rows : List SubtokenRow) (parents : List String) (p c : String)
    → contains parents p ≡ true
    → IsEdge rows p c
    → contains (children_of rows parents) c ≡ true
unfolding children_of
IsEdge-children_of [] parents p c h e = e
IsEdge-children_of (r ∷ rows) parents p c h e = elim (Bool-cases (is_edge p c r)) [
  | inl here ↦
      let parent_eq : r.parent ≡ some p = ground arith in
      let child_eq : r.child ≡ c = ground arith in rw (parent_eq, h) (ground arith)
  | inr there ↦
      let below : contains (children_of rows parents) c ≡ true =
        IsEdge-children_of rows parents p c h (ground arith) in
      elim (Bool-cases (in_parents r.parent parents)) [
        | inl inside ↦ ground arith
        | inr outside ↦ ground arith
      ]
]

map-append-eq_some :
    (o : Option (List String)) (keys out : List String)
    → Option.map (λ more. keys ++ more) o ≡ some out
    → (more : List String) × (o ≡ some more) × (keys ++ more ≡ out)
map-append-eq_some none keys out e = absurd (ground arith)
map-append-eq_some (some more) keys out e = (more, refl, ground arith)

-- Something in the first list, or something in the second.
contains-append-cases :
    (xs ys zs : List String) (x : String)
    → xs ++ ys ≡ zs
    → contains zs x ≡ true
    → (contains xs x ≡ true) ⊎ (contains ys x ≡ true)
contains-append-cases xs ys zs x e h =
    let joined : contains (xs ++ ys) x ≡ true = rw e h in
    elim (Bool-cases (contains xs x)) [
      | inl inside ↦ inl inside
      | inr outside ↦ inr (ground (arith, contains-append xs ys x))
    ]

descend_sound :
    (fuel : ℕ) (rows : List SubtokenRow) (parents out : List String) (x : String)
    → descend fuel rows parents ≡ some out
    → contains out x ≡ true
    → (p : String) × (contains parents p ≡ true) × Descends rows p x
unfolding descend
descend_sound zero rows [] out x e h = absurd (ground arith)
descend_sound (suc fuel) rows [] out x e h = absurd (ground arith)
descend_sound zero rows (p ∷ ps) out x e h = absurd (ground arith)
descend_sound (suc fuel) rows (p ∷ ps) out x e h =
    let (more, rest, joined) = map-append-eq_some (descend fuel rows children) children out e in
    elim (contains-append-cases children more out x joined h) [
      | inl direct ↦
          let (q, i, edge) = children_of-IsEdge rows (p ∷ ps) x direct in (q, i, child edge)
      | inr deeper ↦
          let (c, inside, d) = descend_sound fuel rows children more x rest deeper in
          let (q, i, edge) = children_of-IsEdge rows (p ∷ ps) c inside in (q, i, further edge d)
    ]
  where
    children : List String
    children = children_of rows (p ∷ ps)

descend_complete :
    {rows : List SubtokenRow} {p x : String} (fuel : ℕ) (parents out : List String)
    → Descends rows p x
    → descend fuel rows parents ≡ some out
    → contains parents p ≡ true
    → contains out x ≡ true
unfolding descend
descend_complete fuel [] out d e h = absurd (ground arith)
descend_complete zero (q ∷ qs) out d e h = absurd (ground arith)
descend_complete {rows} (suc fuel) (q ∷ qs) out (child {p} {c} edge) e h =
    let children = children_of rows (q ∷ qs) in
    let (more, rest, joined) = map-append-eq_some (descend fuel rows children) children out e in
    let direct : contains children c ≡ true = IsEdge-children_of rows (q ∷ qs) p c h edge in
    rw (sym joined, contains-append children more c, direct) refl
descend_complete {rows} (suc fuel) (q ∷ qs) out (further {p} {c} {x} edge d) e h =
    let children = children_of rows (q ∷ qs) in
    let (more, rest, joined) = map-append-eq_some (descend fuel rows children) children out e in
    let direct : contains children c ≡ true = IsEdge-children_of rows (q ∷ qs) p c h edge in
    let below : contains more x ≡ true = descend_complete fuel children more d rest direct in
    rw (sym joined, contains-append children more x, below) (ground arith)

only_item : (p key : String) → contains (key ∷ []) p ≡ true → p ≡ key
only_item p key h = ==→≡ p key (ground arith)

-- If the subtoken table is a forest, then `get_children` ends without an error, changes nothing,
-- and a key is among those that it returns exactly if it is a descendant of the given key.
pub get_children-Descends :
    (key : String) (db : Database)
    → IsForest db.subtokens
    → (keys : List String) × (get_children key db ≡ (ok keys, db))
      × ((x : String) → (contains keys x ≡ true) ↔ Descends db.subtokens key x)
unfolding get_children ended
get_children-Descends key db f =
    let rows = db.subtokens in
    let fuel = suc (length rows) in
    let (keys, e) = descend_ends_from rows key f in
    (
      keys,
      rw e refl,
      λ x. (
        λ h.
            let (p, i, d) = descend_sound fuel rows (key ∷ []) keys x e h in
            let same : p ≡ key = only_item p key i in subst (λ q. Descends rows q x) same d,
        λ d. descend_complete fuel (key ∷ []) keys d e (rw (==_refl key) refl),
      ),
    )
