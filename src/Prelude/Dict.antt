-- ===== src/Prelude/Dict.antt =====
-- Python's dictionaries of texts, as lists of pairs in which no key stands twice.
use mathlib.Core.Path.{◌≡◌, refl, ap, sym, ◌∙◌}
use Prim.Native.String.{String}
use mathlib.Core.Bool.{Bool, true, ◌&&◌}
use mathlib.Core.Option.{Option, none, some}
use mathlib.Core.List.{List, [], ◌∷◌}
use native.Mathlib.Omega.{arith}
use mathlib.Core.Logic.{inl, inr}
use gafaelfawr.Prelude.Tests.{Bool-cases, Option-cases}
use gafaelfawr.Prelude.Equality.{==→≡, ◌==◌, string_eq, option_eq, if◌then◌else◌}

abbrev pub Dict : Type 0
Dict = List (String × String)

-- `d.get(key)`
unfoldable pub get : Dict → String → Option String
get [] key = none
get ((name, value) ∷ d) key = if name == key then some value else get d key

-- `d[name] = value`
unfoldable pub set_item : String → String → Dict → Dict
set_item name value [] = (name, value) ∷ []
set_item name value ((key, old) ∷ d) =
    let rest = set_item name value d in if key == name then (name, value) ∷ d else (key, old) ∷ rest

-- `d.update(more)`, which is also `{**d, **more}`.
unfoldable pub update : Dict → Dict → Dict
update d [] = d
update d ((name, value) ∷ more) = update (set_item name value d) more

unfoldable pub within : Dict → Dict → Bool
within [] d = true
within ((name, value) ∷ more) d = get d name == some value && within more d

-- `d == e`
unfoldable pub same_dict : Dict → Dict → Bool
same_dict d e = within d e && within e d

-- No key stands twice.
abbrev pub IsDict : Dict → Type 0
IsDict [] = Unit
IsDict ((name, value) ∷ d) = (get d name ≡ none) × IsDict d

pub get-set_item :
    (name value key : String) (d : Dict)
    → get (set_item name value d) key ≡ (if name == key then some value else get d key)
unfolding get set_item
get-set_item name value key [] = refl
get-set_item name value key ((other, old) ∷ d) = ground (arith, get-set_item name value key d)

pub set_item-IsDict : (name value : String) (d : Dict) → IsDict d → IsDict (set_item name value d)
unfolding get set_item
set_item-IsDict name value [] h = (refl, tt)
set_item-IsDict name value ((key, old) ∷ d) h = elim (Bool-cases (key == name)) [
  | inl same ↦ rw same (ground (arith, ==→≡ key name same), h.1)
  | inr differ ↦
      rw differ (ground (arith, get-set_item name value key d), set_item-IsDict name value d h.1)
]

pub update-IsDict : (d more : Dict) → IsDict d → IsDict (update d more)
unfolding update
update-IsDict d [] h = h
update-IsDict d ((name, value) ∷ more) h =
    update-IsDict (set_item name value d) more (set_item-IsDict name value d h)

-- Every item of the one is an item of the other.
abbrev Holds : Dict → Dict → Type 0
Holds [] d = Unit
Holds ((name, value) ∷ more) d = (get d name ≡ some value) × Holds more d

Holds-within : (more d : Dict) → Holds more d → within more d ≡ true
unfolding within
Holds-within [] d h = refl
Holds-within ((name, value) ∷ more) d h = ground (arith, Holds-within more d h.1, h.0)

Holds-cons :
    (name value : String) (more d : Dict)
    → get d name ≡ none
    → Holds more d
    → Holds more ((name, value) ∷ d)
unfolding get
Holds-cons name value [] d fresh h = tt
Holds-cons name value ((key, old) ∷ more) d fresh h =
    (ground arith, Holds-cons name value more d fresh h.1)

Holds-self : (d : Dict) → IsDict d → Holds d d
unfolding get
Holds-self [] h = tt
Holds-self ((name, value) ∷ d) h = (ground arith, Holds-cons name value d d h.0 (Holds-self d h.1))

pub same_dict_refl : (d : Dict) → IsDict d → same_dict d d ≡ true
unfolding same_dict
same_dict_refl d h = ground (arith, Holds-within d d (Holds-self d h))

-- The same values under the same keys.
abbrev pub SameEntries : Dict → Dict → Type 0
SameEntries d e = (key : String) → get d key ≡ get e key

within-get :
    (d e : Dict) (key value : String)
    → within d e ≡ true
    → get d key ≡ some value
    → get e key ≡ some value
unfolding within get
within-get [] e key value inside h = absurd (ground arith)
within-get ((name, old) ∷ d) e key value inside h = elim (Bool-cases (name == key)) [
  | inl same ↦
      let found : get e name ≡ some old = ground arith in
      let names : name ≡ key = ==→≡ name key same in
      let olds : some old ≡ some value = rw same at h in ap (get e) (sym names) ∙ (found ∙ olds)
  | inr differ ↦ within-get d e key value (ground arith) (rw differ at h)
]

pub same_dict-SameEntries : (d e : Dict) → same_dict d e ≡ true → SameEntries d e
unfolding same_dict
same_dict-SameEntries d e h key =
    let forth : within d e ≡ true = ground arith in
    let back : within e d ≡ true = ground arith in
    elim (Option-cases (get d key)) [
      | inl missing ↦ elim (Option-cases (get e key)) [
        | inl none_there ↦ missing ∙ sym none_there
        | inr (value, found) ↦ absurd (ground (arith, within-get e d key value back found))
      ]
      | inr (value, found) ↦ found ∙ sym (within-get d e key value forth found)
    ]

-- What an update does not name stays.
pub get-update :
    (d more : Dict) (key : String) → get more key ≡ none → get (update d more) key ≡ get d key
unfolding get update
get-update d [] key h = refl
get-update d ((name, value) ∷ more) key h = elim (Bool-cases (name == key)) [
  | inl same ↦ absurd (ground arith)
  | inr differ ↦
      get-update (set_item name value d) more key (rw differ at h)
      ∙ (get-set_item name value key d ∙ rw differ refl)
]
