-- ===== src/Userinfo/Granted.antt =====
-- The scopes that `get_scopes` of src/gafaelfawr/services/userinfo.py gives to a user who logs in.
use gafaelfawr.Prelude.{
  ℕ, String, ◌≡◌, refl, ap, sym, ◌∙◌, Bool, false, ◌||◌, Option, none, some, List, [], ◌∷◌, ◌++◌,
  any, contains, arith, ◌==◌, string_eq,
}
use gafaelfawr.Prelude.Result.{Result, ok}
use gafaelfawr.Prelude.Exec.{continue-eq_ok}
use gafaelfawr.Errors.{Error}
use gafaelfawr.Models.{Group}
use gafaelfawr.Models.Scopes.{to_set}
use gafaelfawr.Models.Scopes.Roundtrip.{contains-sorted, contains-to_set}
use gafaelfawr.Userinfo.{
  Sources, InfoConfig, names_of, scopes_of, with_user_token, group_names, get_scopes,
}

contains-append :
    (xs ys : List String) (a : String) → contains (xs ++ ys) a ≡ (contains xs a || contains ys a)
contains-append [] ys a = refl
contains-append (x ∷ xs) ys a = ground (arith, contains-append xs ys a)

-- Whether one of the groups gives the scope.
abbrev pub is_given_by : (String → List String) → List String → String → Bool
is_given_by scopes_for_group groups scope =
    any (λ group. contains (scopes_for_group group) scope) groups

contains-scopes_of :
    (f : String → List String) (groups : List String) (a : String)
    → contains (scopes_of f groups) a ≡ is_given_by f groups a
unfolding scopes_of
contains-scopes_of f [] a = refl
contains-scopes_of f (group ∷ groups) a =
    rw (contains-append (f group) (scopes_of f groups) a, contains-scopes_of f groups a) refl

-- No scopes if no group gives one, and otherwise those of the groups and `user:token`.
abbrev pub IsGranted : (String → List String) → List String → Option (List String) → Type 0
IsGranted f groups none = (scope : String) → is_given_by f groups scope ≡ false
IsGranted f groups (some scopes) =
    (scope : String) → contains scopes scope ≡ (scope == "user:token" || is_given_by f groups scope)

with_user_token-IsGranted :
    (f : String → List String) (groups scopes : List String)
    → scopes_of f groups ≡ scopes
    → IsGranted f groups (with_user_token scopes)
unfolding with_user_token
with_user_token-IsGranted f groups [] is =
    λ scope. sym (contains-scopes_of f groups scope) ∙ ap (λ xs. contains xs scope) is
with_user_token-IsGranted f groups (x ∷ xs) is = λ scope.
    contains-sorted scope (to_set ("user:token" ∷ x ∷ xs))
    ∙ contains-to_set ("user:token" ∷ x ∷ xs) scope
    ∙ ap (λ b. scope == "user:token" || b)
        (ap (λ ys. contains ys scope) (sym is) ∙ contains-scopes_of f groups scope)

module _ {Q : Type 0} (plus : Q → Q → Q) (S : Sources) (config : InfoConfig Q) where
  names_of-group_names :
      (username : String) (gid : Option ℕ) (groups : List Group) (s t : S.State)
      (names : List String)
      → group_names plus S config username gid groups s ≡ (ok names, t)
      → (g : Group) (gs : List Group) → groups ≡ g ∷ gs
      → names ≡ names_of groups
  unfolding group_names
  names_of-group_names username gid [] s t names h g gs is = absurd (ground arith)
  names_of-group_names username gid (g' ∷ gs') s t names h g gs is = ground arith

  -- When `get_scopes` answers, it has found the names of the user's groups: those that come with the
  -- user information if there are any. It answers with no scopes if no group gives one, and
  -- otherwise with exactly the scopes that the groups give and `user:token`.
  pub get_scopes-IsGranted :
      (username : String) (gid : Option ℕ) (groups : List Group) (s t : S.State)
      (scopes : Option (List String))
      → get_scopes plus S config username gid groups s ≡ (ok scopes, t)
      → (names : List String) × (group_names plus S config username gid groups s ≡ (ok names, t))
        × ((g : Group) (gs : List Group) → groups ≡ g ∷ gs → names ≡ names_of groups)
        × IsGranted config.scopes_for_group names scopes
  unfolding get_scopes
  get_scopes-IsGranted username gid groups s t scopes h =
      let (r, u) = group_names plus S config username gid groups s in
      let (names, is, rest) = continue-eq_ok r _ u t scopes h in
      let found : ◌≡◌ {A = Result Error (List String) × S.State} (r, u) (ok names, t) =
        λ i. (is i, (rest i).1) in
      let answer : with_user_token (scopes_of config.scopes_for_group names) ≡ scopes =
        ground arith in
      (
        names,
        found,
        names_of-group_names username gid groups s t names found,
        rw answer at (
            with_user_token-IsGranted config.scopes_for_group names
              (scopes_of config.scopes_for_group names) refl),
      )
