-- ===== src/Userinfo.antt =====
-- `UserInfoService` of src/gafaelfawr/services/userinfo.py, over the cached services for LDAP and for
-- Firestore, which it takes as an interface. The numbers of the notebook quota, which are floating
-- point in the source, are of any type with an addition.
pub mod Quotas
pub mod Granted
pub mod Examples
use gafaelfawr.Prelude.{
  ℕ, String, Bool, true, false, not, ◌&&◌, Option, none, some, List, [], ◌∷◌, ◌++◌, any, ◌==◌,
  nat_eq, string_eq, is_some, if◌then◌else◌,
}
use gafaelfawr.Prelude.Result.{ok}
use gafaelfawr.Prelude.Exec.{Exec, pure, ◌>>=◌, ◌>>◌}
use gafaelfawr.Errors.{Error}
use gafaelfawr.Models.{TokenData, Group}
use gafaelfawr.Models.Scopes.{text_le, sorted, to_set}
use gafaelfawr.Userinfo.Quotas.{QuotaConfig, Quota, calculate_quota}

pub record LdapUserData : Type 0 where
  pub name : Option String
  pub email : Option String
  pub uid : Option ℕ
  pub gid : Option ℕ

-- The methods of `FirestoreService` and `LDAPService` that are called, over one state.
pub record Sources : Type 1 where
  pub State : Type 0
  pub get_uid : String → Exec State Error ℕ
  pub get_gid : String → Exec State Error ℕ
  pub get_data : String → Exec State Error LdapUserData
  pub get_group_names : String → Option ℕ → Exec State Error (List String)
  pub get_groups : String → Option ℕ → Exec State Error (List Group)
  pub invalidate_cache : String → State → State

-- Which services are configured, and what the service reads of the configuration.
pub record InfoConfig (Q : Type 0) : Type 0 where
  pub has_firestore : Bool
  pub has_ldap : Bool
  pub has_gid_attr : Bool
  pub add_user_group : Bool
  pub scopes_for_group : String → List String
  pub quota : Option (QuotaConfig Q)

pub record UserInfo (Q : Type 0) : Type 0 where
  pub username : String
  pub name : Option String
  pub uid : Option ℕ
  pub gid : Option ℕ
  pub email : Option String
  pub groups : List Group
  pub quota : Option (Quota Q)

-- `a or b`: zero, the empty text and `None` are false.
abbrev pub number_or : Option ℕ → Option ℕ → Option ℕ
number_or none o = o
number_or (some n) o = if n == 0 then o else some n

abbrev pub text_or : Option String → Option String → Option String
text_or none o = o
text_or (some s) o = if s == "" then o else some s

abbrev pub is_number : Option ℕ → Bool
is_number none = false
is_number (some n) = not (n == 0)

-- `sorted(groups, key=lambda g: g.name)`
unfoldable pub insert_group : Group → List Group → List Group
insert_group g [] = g ∷ []
insert_group g (h ∷ hs) =
    let rest = insert_group g hs in if text_le g.name h.name then g ∷ h ∷ hs else h ∷ rest

unfoldable pub sort_groups : List Group → List Group
sort_groups [] = []
sort_groups (g ∷ gs) = insert_group g (sort_groups gs)

abbrev pub names_of : List Group → List String
names_of [] = []
names_of (g ∷ gs) = g.name ∷ names_of gs

abbrev pub groups_or_empty : Option (List Group) → List Group
groups_or_empty none = []
groups_or_empty (some groups) = groups

abbrev pub no_data : LdapUserData
no_data = record { name = none; email = none; uid = none; gid = none }

-- The private group of the user, unless there is a group of this name.
unfoldable pub with_user_group : Bool → String → Option ℕ → List Group → List Group
with_user_group add username none groups = groups
with_user_group add username (some uid) groups =
    if add && not (uid == 0) && not (any (λ g. g.name == username) groups)
    then record { name = username; id = uid } ∷ groups
    else groups

-- `set()` after `scopes.update(...)` for each group, in any order and with repetitions.
unfoldable pub scopes_of : (String → List String) → List String → List String
scopes_of scopes_for_group [] = []
scopes_of scopes_for_group (group ∷ groups) =
    scopes_for_group group ++ scopes_of scopes_for_group groups

-- `sorted(scopes | {"user:token"}) if scopes else None`
unfoldable pub with_user_token : List String → Option (List String)
with_user_token [] = none
with_user_token (scope ∷ scopes) = some (sorted (to_set ("user:token" ∷ scope ∷ scopes)))

module _ {Q : Type 0} (plus : Q → Q → Q) (S : Sources) (config : InfoConfig Q) where
  abbrev pub Lookup : Type 0 → Type 0
  Lookup B = Exec S.State Error B

  -- `uid` of the token, or from Firestore.
  unfoldable pub find_uid : String → Option ℕ → Lookup (Option ℕ)
  find_uid username (some uid) = pure (some uid)
  find_uid username none =
      if config.has_firestore then (do uid ← S.get_uid username; pure (some uid)) else pure none

  unfoldable pub find_gid : Option ℕ → Option ℕ → Option ℕ
  find_gid (some gid) uid = some gid
  find_gid none uid = if config.has_firestore && config.add_user_group then uid else none

  unfoldable pub group_ids : List String → Lookup (List Group)
  group_ids [] = pure []
  group_ids (name ∷ names) = do
    gid ← S.get_gid name
    rest ← group_ids names
    pure (record { name = name; id = gid } ∷ rest)

  -- `_get_groups_from_ldap`
  unfoldable pub get_groups_from_ldap : String → Option ℕ → Option ℕ → Lookup (List Group)
  get_groups_from_ldap username uid primary_gid = do
    groups ←
        if config.has_firestore
        then S.get_group_names username primary_gid >>= group_ids
        else S.get_groups username primary_gid
    pure (with_user_group config.add_user_group username uid groups)

  unfoldable pub find_groups : String → List Group → Option ℕ → Option ℕ → Lookup (List Group)
  find_groups username (g ∷ gs) uid gid = pure (g ∷ gs)
  find_groups username [] uid gid = get_groups_from_ldap username uid gid

  -- The data and the groups, if LDAP is configured.
  unfoldable pub from_ldap :
      String → List Group → Option ℕ → Option ℕ → Lookup (LdapUserData × List Group)
  from_ldap username groups uid gid =
      if config.has_ldap
      then (do
        d ← S.get_data username
        found ← find_groups username groups (number_or uid d.uid) (number_or gid d.gid)
        pure (d, found))
      else pure (no_data, groups)

  -- A primary GID that is the UID, if there is no other.
  abbrev private_gid : Option ℕ → Option ℕ → LdapUserData → Option ℕ
  private_gid uid gid d =
      if not (is_number gid) && not (is_number d.gid) && config.add_user_group
      then number_or uid d.uid
      else gid

  unfoldable pub info_of : TokenData → Option ℕ → Option ℕ → LdapUserData → List Group → UserInfo Q
  info_of token_data uid gid d groups = record {
    username = token_data.username;
    name = text_or token_data.metadata.name d.name;
    uid = number_or uid d.uid;
    gid = number_or (private_gid uid gid d) d.gid;
    email = text_or token_data.metadata.email d.email;
    groups = sort_groups groups;
    quota = calculate_quota plus config.quota (names_of groups);
  }

  unfoldable pub get_user_info_from_token : TokenData → Lookup (UserInfo Q)
  get_user_info_from_token token_data = do
    uid ← find_uid token_data.username token_data.metadata.uid
    let gid = find_gid token_data.metadata.gid uid
    (d, groups) ← from_ldap token_data.username (groups_or_empty token_data.metadata.groups) uid gid
    pure (info_of token_data uid gid d groups)

  -- The GID with which `get_scopes` asks for the groups.
  unfoldable pub scope_gid : String → Option ℕ → Lookup (Option ℕ)
  scope_gid username gid =
      if not (is_number gid) && config.has_gid_attr
      then (do d ← S.get_data username; pure d.gid)
      else pure gid

  unfoldable pub group_names : String → Option ℕ → List Group → Lookup (List String)
  group_names username gid (g ∷ gs) = pure (names_of (g ∷ gs))
  group_names username gid [] =
      if config.has_ldap
      then (do primary ← scope_gid username gid; S.get_group_names username primary)
      else pure []

  unfoldable pub get_scopes : String → Option ℕ → List Group → Lookup (Option (List String))
  get_scopes username gid groups = do
    names ← group_names username gid groups
    pure (with_user_token (scopes_of config.scopes_for_group names))

  unfoldable pub invalidate_cache : String → Lookup (Unit {0})
  invalidate_cache username s =
      (ok tt, if config.has_ldap then S.invalidate_cache username s else s)
