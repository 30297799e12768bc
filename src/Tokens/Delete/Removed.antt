-- ===== src/Tokens/Delete/Removed.antt =====
-- What the loop of `delete_token` of src/gafaelfawr/services/token.py leaves in the two stores.
use gafaelfawr.Prelude.{
  ℕ, String, ◌≡◌, refl, ◌∙◌, true, not, ◌&&◌, Option, none, some, List, [], ◌∷◌, arith, ◌==◌,
  string_eq, option_eq, contains, Option-cases, inl, inr, if◌then◌else◌, any, find, filter, is_some,
}
use gafaelfawr.Prelude.Result.{ok}
use gafaelfawr.Models.{TokenData, TokenInfo}
use gafaelfawr.Storage.Redis.{missing, Storage, IsLawful}
use gafaelfawr.Storage.Database.{
  TokenRow, Database, has_key, get_info, info_of, parent_of, delete, delete_where,
}
use gafaelfawr.Storage.Queries.{add_change}
use gafaelfawr.Storage.World.{World}
use gafaelfawr.Tokens.Delete.{
  delete_one_token, delete_each, remove_known, recorded, get_token_info_unchecked,
}

abbrev pub row : String → Database → Option TokenRow
row key db = find (has_key key) db.tokens

find-filter :
    (rows : List TokenRow) (key x : String)
    → find (has_key x) (filter (λ r. not (r.token == key)) rows)
      ≡ (if x == key then none else find (has_key x) rows)
find-filter [] key x = ground arith
find-filter (r ∷ rows) key x = ground (arith, find-filter rows key x)

any-find :
    (rows : List TokenRow) (key : String)
    → any (has_key key) rows ≡ is_some (find (has_key key) rows)
any-find [] key = refl
any-find (r ∷ rows) key = ground (arith, any-find rows key)

module _ (R : Storage TokenData) where
  -- The rows and the Redis values with these keys are gone, and no others; a value without a row
  -- stays.
  abbrev pub Removed : List String → World R → World R → Type 0
  Removed keys w t =
      (x : String)
      → (row x t.db ≡ (if contains keys x then none else row x w.db))
        × ((later : ℕ)
            → R.get later t.redis x ≡ (
                if contains keys x && is_some (row x w.db) then missing else R.get later w.redis x))

  Removed-cons :
      (key : String) (keys : List String) (w u t : World R)
      → Removed (key ∷ []) w u
      → Removed keys u t
      → Removed (key ∷ keys) w t
  Removed-cons key keys w u t first rest x = (
    ground (arith, (first x).0, (rest x).0),
    λ later. ground (arith, (first x).0, (first x).1 later, (rest x).1 later),
  )

  module _ (L : IsLawful R) (now : ℕ) (auth : TokenData) (ip_address : String) where
    abbrev removes : String → TokenInfo → World R → World R
    removes key info w = (remove_known R now auth ip_address key (some info) w).1

    remove_known-ok :
        (key : String) (info : TokenInfo) (w : World R)
        → any (has_key key) w.db.tokens ≡ true
        → remove_known R now auth ip_address key (some info) w ≡ (ok true, removes key info w)
    unfolding remove_known recorded delete add_change
    remove_known-ok key info w there = rw there refl

    remove_known-stores :
        (key : String) (info : TokenInfo) (w : World R)
        → any (has_key key) w.db.tokens ≡ true
        → ((removes key info w).db.tokens ≡ filter (λ r. not (r.token == key)) w.db.tokens)
          × ((removes key info w).redis ≡ R.delete w.redis key)
    unfolding remove_known recorded delete delete_where add_change
    remove_known-stores key info w there = rw there (refl, refl)

    remove_known-Removed :
        (key : String) (info : TokenInfo) (w : World R)
        → is_some (row key w.db) ≡ true
        → Removed (key ∷ []) w (removes key info w)
    remove_known-Removed key info w there x =
        let (tokens, redis) = remove_known-stores key info w (any-find w.db.tokens key ∙ there) in
        (
          rw tokens (ground (arith, find-filter w.db.tokens key x)),
          λ later. rw redis (ground (arith, L.get-delete later w.redis key x)),
        )

    -- It never raises.
    pub delete_one_token-Removed :
        (key : String) (w : World R)
        → (t : World R) × (delete_one_token R now auth ip_address key w
            ≡ (ok (is_some (row key w.db)), t))
          × Removed (key ∷ []) w t
    unfolding delete_one_token remove_known get_token_info_unchecked get_info
    delete_one_token-Removed key w = elim (Option-cases (row key w.db)) [
      | inl none_there ↦ (w, rw none_there refl, λ x. (ground arith, λ later. ground arith))
      | inr (r, there) ↦
          let info = info_of (parent_of w.db.subtokens key) r in
          let known : is_some (row key w.db) ≡ true = rw there refl in
          (
            removes key info w,
            rw there (remove_known-ok key info w (any-find w.db.tokens key ∙ known)),
            remove_known-Removed key info w known,
          )
    ]

    pub delete_each-Removed :
        (keys : List String) (w : World R)
        → (t : World R) × (delete_each R now auth ip_address keys w ≡ (ok tt, t)) × Removed keys w t
    unfolding delete_each
    delete_each-Removed [] w = (w, refl, λ x. (refl, λ later. refl))
    delete_each-Removed (key ∷ keys) w =
        let (u, one, first) = delete_one_token-Removed key w in
        let (t, each, rest) = delete_each-Removed keys u in
        (t, rw one each, Removed-cons key keys w u t first rest)
