-- ===== src/Tokens/Create/Outcome.antt =====
-- What the end of a creation, `store_new`, leaves in the stores, on success and on failure.
use gafaelfawr.Prelude.{
  ℕ, ◌≤◌, String, ◌≡◌, refl, ◌⊎◌, inl, inr, Option, some, arith, ◌==◌, string_eq, option_eq,
  Option-cases, if◌then◌else◌,
}
use gafaelfawr.Prelude.Result.{Result, ok, err}
use gafaelfawr.Errors.{Error}
use gafaelfawr.Credential.{Token}
use gafaelfawr.Models.{TokenData, TokenChangeHistoryEntry}
use gafaelfawr.Storage.Redis.{missing, found, Storage, IsLawful, is_live}
use gafaelfawr.Storage.Database.{Database, add}
use gafaelfawr.Storage.Queries.{add_change}
use gafaelfawr.Storage.World.{World, Action, store_data, on_wire, lifetime_of}
use gafaelfawr.Tokens.Create.{store_new}

module _ (R : Storage TokenData) (now : ℕ) where
  -- Redis answers every later read as before.
  abbrev pub SameRedis : World R → World R → Type 0
  SameRedis w t =
      (later : ℕ) (j : String) → now ≤ later → R.get later t.redis j ≡ R.get later w.redis j

  -- No value has this key yet.
  abbrev pub IsFresh : String → World R → Type 0
  IsFresh key w = (later : ℕ) → R.get later w.redis key ≡ missing

  module _ (d : TokenData) (token_name for_service parent : Option String)
      (entry : TokenChangeHistoryEntry) where
    abbrev creates : Action R Token
    creates = store_new R now d token_name for_service parent entry

    abbrev added : Database → Result Error (Unit {0}) × Database
    added = add d token_name for_service parent

    abbrev stores : World R → Option R.State
    stores w = R.store now w.redis d.token.key (on_wire d) (lifetime_of now d.expires)

    pub store_new_ok :
        (w t : World R) (token : Token)
        → creates w ≡ (ok token, t)
        → (token ≡ d.token)
          × (stores w ≡ some t.redis)
          × ((added w.db).0 ≡ ok tt)
          × (t.db ≡ (add_change entry (added w.db).1).1)
    unfolding store_new store_data add_change
    store_new_ok w t token h = ground arith

    pub store_new_err :
        (w t : World R) (e : Error)
        → creates w ≡ (err e, t)
        → (t.redis ≡ w.redis)
          ⊎ ((s : R.State) × (stores w ≡ some s) × (t.redis ≡ R.delete s d.token.key))
    unfolding store_new store_data add_change
    store_new_err w t e h = elim (Option-cases (stores w)) [
      | inl refused ↦ ground arith
      | inr (s, accepted) ↦ inr (s, accepted, ground arith)
    ]

    -- A failed creation leaves nothing in Redis.
    pub store_new_err-SameRedis :
        IsLawful R
        → (w t : World R) (e : Error) → creates w ≡ (err e, t)
        → IsFresh d.token.key w
        → SameRedis w t
    store_new_err-SameRedis L w t e h fresh later j le = elim (store_new_err w t e h) [
      | inl same ↦ rw same refl
      | inr (s, accepted, deleted) ↦
          rw (deleted, L.get-delete)
            (ground (
              arith,
              L.get-store now later w.redis s d.token.key j (on_wire d) _ accepted le,
              fresh later,
            ))
    ]

    -- A successful one stores the data, and changes no other key.
    pub store_new_ok-get :
        IsLawful R
        → (w t : World R) (token : Token) → creates w ≡ (ok token, t)
        → (later : ℕ) (j : String) → now ≤ later
        → R.get later t.redis j ≡ (
            if j == d.token.key
            then (if is_live now (lifetime_of now d.expires) later
                then found (on_wire d)
                else missing)
            else R.get later w.redis j)
    store_new_ok-get L w t token h later j le =
        L.get-store now later w.redis t.redis d.token.key j (on_wire d) _
          (store_new_ok w t token h).1 le
