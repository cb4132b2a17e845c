-- ===== src/Github/InstallationState.antt =====
-- The one-time state of a link to an installation: src/github/installation-state.ts, whose store
-- in memory and whose table in the database (`create` and `consume` of
-- src/infrastructure/github/postgres-github-authorization-store.ts) both hold a list of records.
-- The digest, the encoding of the random bytes and the URL are parameters.
pub mod Once
pub mod Stores
use Prim.Native.Char.{code}
use reproforge.Base.{
  ℕ, ◌+◌, ◌*◌, String, Bool, true, false, not, ◌&&◌, ◌||◌, Option, none, some, List, [], ◌∷◌, ◌++◌,
  Outcome, ok, err, ◌>>=◌, ◌>>◌, require, leb, ltb, ◌==◌, ◌===◌, length, utf16_length, is_sha256,
  if◌then◌else◌,
}
use reproforge.Domain.Case.{is_datetime}
use reproforge.Domain.Job.{is_some}
use reproforge.Github.Schemas.{Actor, is_actor}
use reproforge.Github.Rows.{Principal, find_row, update_rows}

-- `GitHubInstallationStateRecord`
pub record StateRecord : Type 0 where
  pub consumed_at : Option ℕ
  pub created_at : ℕ
  pub expires_at : ℕ
  pub principal_id : String
  pub state_hash : String
  pub tenant_id : String

pub data StateError : Type 0 where
  state_collision invalid_slug invalid_entropy invalid_state invalid_actor : StateError
  -- the schema or a check of the table
  state_refused : StateError

pub record Consumption : Type 0 where
  pub at : ℕ
  pub principal_id : String
  pub state_hash : String
  pub tenant_id : String

abbrev pub is_hashed : String → StateRecord → Bool
is_hashed hash r = r.state_hash === hash

-- `create` of the store in memory
unfoldable pub create_state : StateRecord → List StateRecord → Outcome StateError (List StateRecord)
unfolding find_row
create_state r records =
    if is_some (find_row (is_hashed r.state_hash) records)
    then err state_collision
    else ok (records ++ r ∷ [])

abbrev pub is_usable : Consumption → StateRecord → Bool
is_usable input r =
    not (is_some r.consumed_at)
    && r.principal_id === input.principal_id
    && r.tenant_id === input.tenant_id
    && not (ltb r.expires_at input.at)

abbrev pub used : ℕ → StateRecord → StateRecord
used at r = record r { consumed_at = some at }

abbrev pub consume_found :
    Consumption → Option StateRecord → List StateRecord → Option StateRecord × List StateRecord
consume_found input none records = (none, records)
consume_found input (some r) records =
    if is_usable input r
    then (some (used input.at r), update_rows (is_hashed input.state_hash) (used input.at) records)
    else (none, records)

-- `consume` of the store in memory
unfoldable pub consume_state :
    Consumption → List StateRecord → Option StateRecord × List StateRecord
unfolding find_row update_rows
consume_state input records =
    consume_found input (find_row (is_hashed input.state_hash) records) records

-- `stateSchema` and the checks of `github_installation_states`
unfoldable pub is_state_row : StateRecord → Bool
unfolding is_actor is_sha256
is_state_row r =
    is_actor (record { principal_id = r.principal_id; tenant_id = r.tenant_id })
    && is_datetime r.created_at
    && is_datetime r.expires_at
    && is_sha256 r.state_hash
    && ltb r.created_at r.expires_at

abbrev consumed_after_creation : StateRecord → Option ℕ → Bool
consumed_after_creation r none = true
consumed_after_creation r (some at) = is_datetime at && leb r.created_at at

-- `github_installation_states_principal_fk`
unfoldable pub has_principal : List Principal → StateRecord → Bool
unfolding find_row
has_principal principals r =
    is_some (find_row (λ p. p.tenant_id === r.tenant_id && p.id === r.principal_id) principals)

-- `create` of the database's store; the foreign key asks for the principal.
unfoldable pub insert_state :
    List Principal → StateRecord → List StateRecord → Outcome StateError (List StateRecord)
unfolding is_state_row has_principal find_row
insert_state principals r records =
    if is_state_row r
      && has_principal principals r
      && consumed_after_creation r r.consumed_at
      && not (is_some (find_row (is_hashed r.state_hash) records))
    then ok (records ++ r ∷ [])
    else err state_refused

abbrev pub is_consumption : Consumption → Bool
is_consumption input =
    is_actor (record { principal_id = input.principal_id; tenant_id = input.tenant_id })
    && is_datetime input.at
    && is_sha256 input.state_hash

-- The WHERE clause of the UPDATE that consumes a state.
abbrev pub is_consumable : Consumption → StateRecord → Bool
is_consumable input r =
    r.state_hash === input.state_hash
    && r.tenant_id === input.tenant_id
    && r.principal_id === input.principal_id
    && not (is_some r.consumed_at)
    && leb input.at r.expires_at

unfoldable pub update_found :
    Consumption
    → Option StateRecord
    → List StateRecord
    → Outcome StateError (Option StateRecord × List StateRecord)
unfolding update_rows
update_found input none records = ok (none, records)
update_found input (some r) records =
    if leb r.created_at input.at
    then ok (some (used input.at r), update_rows (is_consumable input) (used input.at) records)
    else err state_refused

-- `consume` of the database's store
unfoldable pub update_state :
    Consumption → List StateRecord → Outcome StateError (Option StateRecord × List StateRecord)
unfolding update_found find_row is_actor is_sha256
update_state input records =
    if is_consumption input
    then update_found input (find_row (is_consumable input) records) records
    else err state_refused

abbrev is_slug_character : ℕ → Bool
is_slug_character c = leb b'a' c && leb c b'z' || leb b'0' c && leb c b'9'

slug_characters : Bool → String → Bool
slug_characters ends String.[] = ends
slug_characters ends (String.◌∷◌ c s) =
    (is_slug_character (code c) || code c == b'-') && slug_characters (is_slug_character (code c)) s

starts_slug : String → Bool
starts_slug String.[] = false
starts_slug (String.◌∷◌ c s) = is_slug_character (code c)

-- `/^[a-z0-9](?:[a-z0-9-]{0,98}[a-z0-9])?$/`
unfoldable pub is_slug : String → Bool
unfolding slug_characters starts_slug utf16_length
is_slug s = starts_slug s && slug_characters false s && leb (utf16_length s) 100

state_characters : String → Bool
state_characters String.[] = true
state_characters (String.◌∷◌ c s) =
    (is_slug_character (code c)
      || leb b'A' (code c) && leb (code c) b'Z'
      || code c == b'_'
      || code c == b'-')
    && state_characters s

pub record InstallationLink : Type 0 where
  pub expires_at : ℕ
  pub state : String
  pub url : String

module _ (hash_state : String → String) where
  -- `githubInstallationStateHash`
  unfoldable pub installation_state_hash : String → Outcome StateError String
  unfolding state_characters utf16_length
  installation_state_hash s =
      if state_characters s && utf16_length s == 43 then ok (hash_state s) else err invalid_state

  module _ (encode : List ℕ → String) (url_of : String → String → String) where
    abbrev pub new_state : Actor → ℕ → List ℕ → StateRecord
    new_state actor now bytes = record {
      consumed_at = none;
      created_at = now;
      expires_at = now + 10 * 60000;
      principal_id = actor.principal_id;
      state_hash = hash_state (encode bytes);
      tenant_id = actor.tenant_id;
    }

    -- `createGitHubInstallationAuthorization`, with the store in memory
    unfoldable pub create_authorization :
        Actor
        → String
        → ℕ
        → List ℕ
        → List StateRecord
        → Outcome StateError (InstallationLink × List StateRecord)
    unfolding is_actor is_slug create_state
    create_authorization actor slug now bytes records = do
      require (is_actor actor) invalid_actor
      require (is_slug slug) invalid_slug
      require (length bytes == 32) invalid_entropy
      stored ← create_state (new_state actor now bytes) records
      ok (
        record {
          expires_at = now + 10 * 60000;
          state = encode bytes;
          url = url_of slug (encode bytes);
        },
        stored,
      )
