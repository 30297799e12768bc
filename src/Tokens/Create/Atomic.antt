-- ===== src/Tokens/Create/Atomic.antt =====
-- Creations of `TokenService` that fail in a transaction.
use gafaelfawr.Prelude.{
  ℕ, ◌≤◌, String, ◌≡◌, refl, sym, ap, false, Option, none, some, List, arith, string_eq,
}
use gafaelfawr.Prelude.Result.{Result, ok, err, is_ok}
use gafaelfawr.Prelude.Exec.{lift, ◌>>=◌}
use gafaelfawr.Errors.{Error}
use gafaelfawr.Credential.{Token}
use gafaelfawr.Models.{TokenData, TokenChangeHistoryEntry, Metadata, AdminTokenRequest}
use gafaelfawr.Storage.Redis.{Storage, IsLawful}
use gafaelfawr.Storage.World.{World, Action, transaction, close}
use gafaelfawr.Tokens.{Config, validate_username}
use gafaelfawr.Tokens.Checks.{check_user_request, check_admin_request}
use gafaelfawr.Tokens.Create.{
  store_new, creation, user_data, session_data, admin_data, oidc_data, create_session_token,
  create_oidc_token, create_user_token, create_token_from_admin_request,
}
use gafaelfawr.Tokens.Create.Outcome.{SameRedis, IsFresh, store_new_err-SameRedis}

module _ (R : Storage TokenData) (L : IsLawful R) (now : ℕ) (w : World R) where
  -- An exception of the body leaves Redis alone.
  abbrev IsUndoable : Action R Token → Type 0
  IsUndoable m = (t : World R) (e : Error) → m w ≡ (err e, t) → SameRedis R now w t

  -- The database is the same, and Redis answers a read of this key at this time as before.
  abbrev pub IsSameAt : ℕ → String → World R → Type 0
  IsSameAt later j t = (t.db ≡ w.db) × (R.get later t.redis j ≡ R.get later w.redis j)

  lift-IsUndoable :
      {A : Type 0} (r : Result Error A) (m : Action R Token)
      → IsUndoable m
      → IsUndoable (lift r >>= λ _. m)
  lift-IsUndoable (ok a) m u = u
  lift-IsUndoable (err e) m u = λ t e h later j le. ap (λ out. R.get later out.1.redis j) (sym h)

  close_out :
      (out : Result Error Token × World R) (later : ℕ) (j : String)
      → ((e : Error) → out.0 ≡ err e → SameRedis R now w out.1)
      → now ≤ later
      → is_ok out.0 ≡ false
      → (is_ok (close R w.db out.0 out.1).0 ≡ false) × IsSameAt later j (close R w.db out.0 out.1).1
  close_out (ok token, t) later j undone le failed = absurd (ground arith)
  close_out (err e, t) later j undone le failed = (refl, (refl, undone e refl later j le))

  transaction-IsSameAt :
      (m : Action R Token)
      → IsUndoable m
      → (later : ℕ) (j : String) → now ≤ later
      → is_ok (m w).0 ≡ false
      → (is_ok (transaction R m w).0 ≡ false) × IsSameAt later j (transaction R m w).1
  unfolding transaction
  transaction-IsSameAt m u later j le failed =
      close_out (m w) later j (λ e h. u (m w).1 e (ground arith)) le failed

  store_new-IsUndoable :
      (d : TokenData) (token_name for_service parent : Option String)
      (entry : TokenChangeHistoryEntry)
      → IsFresh R now d.token.key w
      → IsUndoable (store_new R now d token_name for_service parent entry)
  store_new-IsUndoable d token_name for_service parent entry fresh t e h =
      store_new_err-SameRedis R now d token_name for_service parent entry L w t e h fresh

  -- Redis holds nothing under the new key.
  module _ (config : Config) (token : Token) (fresh : IsFresh R now token.key w) where
    -- If `create_user_token` raises inside a transaction, the transaction raises, the database is the one before
    -- the call, and Redis answers every read at that time or later as before. This supposes that the
    -- drawn key is new to Redis.
    pub create_user_token_atomic :
        (auth : TokenData) (username token_name : String) (scopes : List String)
        (expires : Option ℕ) (ip_address : String) (later : ℕ) (j : String)
        → now ≤ later
        → is_ok
            (create_user_token R config now token auth username token_name scopes expires ip_address
              w).0
          ≡ false
        → (is_ok
              (transaction R
                (create_user_token R config now token auth username token_name scopes expires
                  ip_address)
                w).0
            ≡ false)
          × IsSameAt later j
              (transaction R
                (create_user_token R config now token auth username token_name scopes expires
                  ip_address)
                w).1
    unfolding create_user_token
    create_user_token_atomic auth username token_name scopes expires ip_address later j le failed =
        let d = user_data R config now token auth username scopes expires in
        let entry = creation d (some token_name) none none auth.username (some ip_address) in
        transaction-IsSameAt
          (create_user_token R config now token auth username token_name scopes expires ip_address)
          (lift-IsUndoable (check_user_request config now auth username scopes expires)
            (store_new R now d (some token_name) none none entry)
            (store_new-IsUndoable d (some token_name) none none entry fresh))
          later j le failed

    -- If `create_session_token` raises inside a transaction, the transaction raises, the database is the one before
    -- the call, and Redis answers every read at that time or later as before. This supposes that the
    -- drawn key is new to Redis.
    create_session_token_atomic :
        (username : String) (metadata : Metadata) (scopes : List String) (ip_address : String)
        (later : ℕ) (j : String)
        → now ≤ later
        → is_ok (create_session_token R config now token username metadata scopes ip_address w).0
          ≡ false
        → (is_ok
              (transaction R
                (create_session_token R config now token username metadata scopes ip_address)
                w).0
            ≡ false)
          × IsSameAt later j
              (transaction R
                (create_session_token R config now token username metadata scopes ip_address)
                w).1
    unfolding create_session_token
    create_session_token_atomic username metadata scopes ip_address later j le failed =
        let d = session_data R config now token username metadata scopes in
        let entry = creation d none none none username (some ip_address) in
        transaction-IsSameAt
          (create_session_token R config now token username metadata scopes ip_address)
          (lift-IsUndoable (validate_username username) (store_new R now d none none none entry)
            (store_new-IsUndoable d none none none entry fresh))
          later j le failed

    -- If `create_token_from_admin_request` raises inside a transaction, the transaction raises, the database is the one before
    -- the call, and Redis answers every read at that time or later as before. This supposes that the
    -- drawn key is new to Redis.
    create_token_from_admin_request_atomic :
        (request : AdminTokenRequest) (auth : TokenData) (ip_address : Option String) (later : ℕ)
        (j : String)
        → now ≤ later
        → is_ok (create_token_from_admin_request R config now token request auth ip_address w).0
          ≡ false
        → (is_ok
              (transaction R
                (create_token_from_admin_request R config now token request auth ip_address)
                w).0
            ≡ false)
          × IsSameAt later j
              (transaction R
                (create_token_from_admin_request R config now token request auth ip_address)
                w).1
    unfolding create_token_from_admin_request
    create_token_from_admin_request_atomic request auth ip_address later j le failed =
        let d = admin_data R config now token request in
        let entry = creation d request.token_name none none auth.username ip_address in
        transaction-IsSameAt
          (create_token_from_admin_request R config now token request auth ip_address)
          (lift-IsUndoable (check_admin_request config now request auth)
            (store_new R now d request.token_name none none entry)
            (store_new-IsUndoable d request.token_name none none entry fresh))
          later j le failed

    -- If `create_oidc_token` raises inside a transaction, the transaction raises, the database is the one before
    -- the call, and Redis answers every read at that time or later as before. This supposes that the
    -- drawn key is new to Redis.
    create_oidc_token_atomic :
        (auth : TokenData) (ip_address : String) (later : ℕ) (j : String)
        → now ≤ later
        → is_ok (create_oidc_token R config now token auth ip_address w).0 ≡ false
        → (is_ok (transaction R (create_oidc_token R config now token auth ip_address) w).0 ≡ false)
          × IsSameAt later j
              (transaction R (create_oidc_token R config now token auth ip_address) w).1
    unfolding create_oidc_token
    create_oidc_token_atomic auth ip_address later j le failed =
        let d = oidc_data R config now token auth in
        let entry = creation d none none none auth.username (some ip_address) in
        transaction-IsSameAt (create_oidc_token R config now token auth ip_address)
          (store_new-IsUndoable d none none (some auth.token.key) entry fresh) later j le failed
