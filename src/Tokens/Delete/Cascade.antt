-- ===== src/Tokens/Delete/Cascade.antt =====
-- `TokenService.delete_token` of src/gafaelfawr/services/token.py over the whole subtree.
use mathlib.Core.List.{reverse, reverse-cons}
use gafaelfawr.Prelude.{
  ℕ, String, ◌≡◌, ◌≢◌, refl, sym, true, false, Option, none, some, List, [], ◌∷◌, arith, string_eq,
  contains, Bool-cases, ◌⊎◌, inl, inr, is_some, ◌↔◌, Option-cases,
}
use gafaelfawr.Prelude.Result.{ok}
use gafaelfawr.Models.{TokenData, TokenInfo}
use gafaelfawr.Storage.Redis.{missing, Storage, IsLawful}
use gafaelfawr.Storage.Database.{Database, get_info}
use gafaelfawr.Storage.World.{World}
use gafaelfawr.Storage.Tree.{IsForest, Descends}
use gafaelfawr.Storage.Tree.Height.{Descends-irrefl}
use gafaelfawr.Storage.Tree.Descendants.{get_children-Descends, contains-append}
use gafaelfawr.Tokens.{check_authorization}
use gafaelfawr.Tokens.Delete.{
  delete_one_token, delete_each, delete_owned, delete_token, get_token_info_unchecked,
}
use gafaelfawr.Tokens.Delete.Removed.{row, delete_each-Removed, delete_one_token-Removed}

contains-reverse : (xs : List String) (x : String) → contains (reverse xs) x ≡ contains xs x
contains-reverse [] x = refl
contains-reverse (y ∷ xs) x =
    rw (reverse-cons y xs, contains-append (reverse xs) (y ∷ []) x, contains-reverse xs x)
      (ground arith)

not_in : (xs : List String) (x : String) → ¬ (contains xs x ≡ true) → contains xs x ≡ false
not_in xs x h = elim (Bool-cases (contains xs x)) [
  | inl inside ↦ absurd (h inside)
  | inr outside ↦ outside
]

found-row :
    (key : String) (username : Option String) (info : TokenInfo) (db : Database)
    → get_token_info_unchecked key username db ≡ some info
    → is_some (row key db) ≡ true
unfolding get_token_info_unchecked get_info
found-row key username info db h = elim (Option-cases (row key db)) [
  | inl absent ↦ absurd (ground arith)
  | inr (r, there) ↦ ground arith
]

module _ (R : Storage TokenData) where
  -- The token is in neither store. A value of Redis without a row is not looked for.
  abbrev pub IsGone : String → World R → World R → Type 0
  IsGone x w t =
      (row x t.db ≡ none)
      × (is_some (row x w.db) ≡ true → (later : ℕ) → R.get later t.redis x ≡ missing)

  abbrev pub IsKept : String → World R → World R → Type 0
  IsKept x w t =
      (row x t.db ≡ row x w.db) × ((later : ℕ) → R.get later t.redis x ≡ R.get later w.redis x)

  module _ (L : IsLawful R) (now : ℕ) (auth : TokenData) (ip_address : String) where
    delete_below :
        (key : String) (children : List String) (w : World R)
        → contains children key ≡ false
        → is_some (row key w.db) ≡ true
        → (u : World R) × (t : World R) × (delete_each R now auth ip_address (reverse children) w
            ≡ (ok tt, u))
          × (delete_one_token R now auth ip_address key u ≡ (ok true, t))
          × ((x : String)
              → ((x ≡ key) ⊎ (contains children x ≡ true) → IsGone x w t)
                × (x ≢ key → contains children x ≡ false → IsKept x w t))
    delete_below key children w apart there =
        let (u, each, many) = delete_each-Removed R L now auth ip_address (reverse children) w in
        let (t, last, one) = delete_one_token-Removed R L now auth ip_address key u in
        let remains : is_some (row key u.db) ≡ true =
          ground (arith, (many key).0, contains-reverse children key) in
        (
          u,
          t,
          each,
          rw (sym remains) last,
          λ x. (
            λ h. (
              ground (arith, (many x).0, (one x).0, contains-reverse children x),
              λ known later. ground (
                arith,
                (many x).0,
                (one x).0,
                (many x).1 later,
                (one x).1 later,
                contains-reverse children x,
              ),
            ),
            λ other outside. (
              ground (arith, (many x).0, (one x).0, contains-reverse children x),
              λ later. ground (
                arith,
                (many x).0,
                (one x).0,
                (many x).1 later,
                (one x).1 later,
                contains-reverse children x,
              ),
            ),
          ),
        )

    -- If the subtoken table is a forest, the token is found under this username and the
    -- authorization check passes, then `delete_token` answers with `True`; after it the token and
    -- each of its descendants have no row, and no value in Redis if they had a row, while the rows
    -- and the values of all other tokens are as before.
    pub delete_token_cascades :
        (key username : String) (info : TokenInfo) (w : World R)
        → IsForest w.db.subtokens
        → get_token_info_unchecked key (some username) w.db ≡ some info
        → check_authorization (some info.username) auth false false ≡ ok tt
        → (t : World R) × (delete_token R now auth ip_address key username w ≡ (ok true, t))
          × ((x : String)
              → ((x ≡ key) ⊎ Descends w.db.subtokens key x → IsGone x w t)
                × (x ≢ key → ¬ Descends w.db.subtokens key x → IsKept x w t))
    unfolding delete_token delete_owned
    delete_token_cascades key username info w forest known allowed =
        let (children, finds, exact) = get_children-Descends key w.db forest in
        let (u, t, each, last, result) =
          delete_below key children w (not_own children exact) there in
        (
          t,
          rw (known, allowed, finds, each) last,
          λ x. (
            λ h. (result x).0 (elim h [ inl same ↦ inl same | inr d ↦ inr ((exact x).1 d) ]),
            λ other outside. (result x).1 other (not_in children x (λ h. outside ((exact x).0 h))),
          ),
        )
      where
        there : is_some (row key w.db) ≡ true
        there = found-row key (some username) info w.db known

        not_own :
            (children : List String)
            → ((x : String) → (contains children x ≡ true) ↔ Descends w.db.subtokens key x)
            → contains children key ≡ false
        not_own children exact =
            not_in children key (λ h. Descends-irrefl w.db.subtokens key forest ((exact key).0 h))
