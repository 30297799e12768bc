-- ===== src/Storage/Tree.antt =====
-- The subtoken table of src/gafaelfawr/schema/subtoken.py as a forest, for `get_children`.
pub mod Height
pub mod Descendants
use gafaelfawr.Prelude.{
  String, ◌≡◌, ◌≢◌, Bool, true, false, ◌&&◌, Option, none, some, List, [], ◌∷◌, ◌==◌, string_eq,
  option_eq, any, All,
}
use gafaelfawr.Storage.Database.{SubtokenRow}

-- Neither end of the row is this key.
abbrev pub IsApart : String → SubtokenRow → Type 0
IsApart key r = (r.child ≢ key) × (r.parent ≢ some key)

-- Newest row first: a child is new to the table when its row is added, and is not its own parent.
abbrev pub IsForest : List SubtokenRow → Type 0
IsForest [] = Unit
IsForest (r ∷ rows) = (r.parent ≢ some r.child) × All (IsApart r.child) rows × IsForest rows

abbrev pub is_edge : String → String → SubtokenRow → Bool
is_edge parent child r = r.child == child && r.parent == some parent

abbrev pub IsEdge : List SubtokenRow → String → String → Type 0
IsEdge rows parent child = any (is_edge parent child) rows ≡ true

-- The children of a token, and theirs.
pub data Descends (rows : List SubtokenRow) : String → String → Type 0 where
  child : {p c : String} → IsEdge rows p c → Descends rows p c
  further : {p c x : String} → IsEdge rows p c → Descends rows c x → Descends rows p x
