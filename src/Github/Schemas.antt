-- ===== src/Github/Schemas.antt =====
-- What the schemas of src/infrastructure/github/postgres-github-authorization-store.ts accept.
use Prim.Native.Char.{code}
use reproforge.Base.{
  ℕ, String, Bool, true, false, not, ◌&&◌, ◌||◌, Option, none, some, List, [], ◌∷◌, leb, ◌==◌,
  ◌===◌, is_nonempty, utf16_length, every, length, map, if◌then◌else◌,
}
use reproforge.Domain.Case.{is_datetime}
use reproforge.Durable.Records.{is_opaque_id, has_control_character}

-- `z.number().int().positive().safe()`
abbrev pub is_provider_id : ℕ → Bool
is_provider_id n = leb 1 n && leb n 9007199254740991

-- `permissionsSchema`: the keys of a JSON object differ, so three entries that hold these three
-- are exactly these.
abbrev pub grants : String → List (String × String) → Bool
grants name [] = false
grants name ((key, value) ∷ rest) = (if key === name then value === "read" else grants name rest)

unfoldable pub is_exact : List (String × String) → Bool
is_exact permissions =
    length permissions == 3
    && grants "contents" permissions
    && grants "issues" permissions
    && grants "metadata" permissions

-- `\s` of the regular expressions.
abbrev is_space : ℕ → Bool
is_space c =
    leb 9 c && leb c 13
    || c == 32
    || c == 160
    || c == 5760
    || leb 8192 c && leb c 8202
    || c == 8232
    || c == 8233
    || c == 8239
    || c == 8287
    || c == 12288
    || c == 65279

-- The rest of a full name after its owner: no further slash, and not empty.
name_part : Bool → String → Bool
name_part seen String.[] = seen
name_part seen (String.◌∷◌ c s) =
    not (code c == b'/') && not (is_space (code c)) && name_part true s

owner_part : Bool → String → Bool
unfolding name_part
owner_part seen String.[] = false
owner_part seen (String.◌∷◌ c s) =
    if code c == b'/'
    then seen && name_part false s
    else not (is_space (code c)) && owner_part true s

-- `/^[^/\s]+\/[^/\s]+$/`, of 3 to 255 characters.
unfoldable pub is_full_name : String → Bool
unfolding owner_part utf16_length
is_full_name s = owner_part false s && leb 3 (utf16_length s) && leb (utf16_length s) 255

unfoldable pub is_branch : String → Bool
unfolding utf16_length has_control_character
is_branch s = is_nonempty s && leb (utf16_length s) 255 && not (has_control_character s)

abbrev is_letter_or_digit : ℕ → Bool
is_letter_or_digit c =
    leb b'0' c && leb c b'9' || leb b'A' c && leb c b'Z' || leb b'a' c && leb c b'z'

-- Letters, digits and inner dashes: the flag tells whether the character before may end the text.
login_characters : Bool → String → Bool
login_characters ends String.[] = ends
login_characters ends (String.◌∷◌ c s) =
    (is_letter_or_digit (code c) || code c == b'-')
    && login_characters (is_letter_or_digit (code c)) s

starts_login : String → Bool
starts_login String.[] = false
starts_login (String.◌∷◌ c s) = is_letter_or_digit (code c)

unfoldable pub is_account_login : String → Bool
unfolding login_characters starts_login utf16_length
is_account_login s = starts_login s && login_characters false s && leb (utf16_length s) 39

-- `repositorySchema`
pub record Repository : Type 0 where
  pub default_branch : String
  pub full_name : String
  pub is_private : Bool
  pub repository_id : ℕ

unfoldable pub is_repository : Repository → Bool
unfolding is_branch is_full_name
is_repository r =
    is_branch r.default_branch && is_full_name r.full_name && is_provider_id r.repository_id

pub data RepositorySelection : Type 0 where
  all_repositories selected_repositories : RepositorySelection

-- `VerifiedGitHubInstallation`, with the repositories that default to none.
pub record Installation : Type 0 where
  pub account_id : ℕ
  pub account_login : String
  pub installation_id : ℕ
  pub permissions : List (String × String)
  pub provider_updated_at : Option ℕ
  pub repositories : List Repository
  pub repository_selection : RepositorySelection

abbrev pub has_number : ℕ → List ℕ → Bool
has_number n [] = false
has_number n (m ∷ ms) = m == n || has_number n ms

unfoldable pub are_distinct : List ℕ → Bool
are_distinct [] = true
are_distinct (n ∷ ns) = not (has_number n ns) && are_distinct ns

abbrev is_optional_datetime : Option ℕ → Bool
is_optional_datetime none = true
is_optional_datetime (some t) = is_datetime t

-- `installationSchema`
unfoldable pub is_installation : Installation → Bool
unfolding is_account_login is_exact is_repository are_distinct
is_installation i =
    is_provider_id i.account_id
    && is_account_login i.account_login
    && is_provider_id i.installation_id
    && is_exact i.permissions
    && is_optional_datetime i.provider_updated_at
    && leb (length i.repositories) 10000
    && every is_repository i.repositories
    && are_distinct (map (λ r. r.repository_id) i.repositories)

-- `actorSchema`
pub record Actor : Type 0 where
  pub principal_id : String
  pub tenant_id : String

unfoldable pub is_actor : Actor → Bool
unfolding is_opaque_id
is_actor a = is_opaque_id a.principal_id && is_opaque_id a.tenant_id

-- `webhookInstallationSchema`, of the fields that are read later.
pub record InstallationPayload : Type 0 where
  pub action : String
  pub installation_id : ℕ
  pub permissions : List (String × String)
  pub suspended_at : Option ℕ
  pub updated_at : ℕ

action_characters : String → Bool
action_characters String.[] = true
action_characters (String.◌∷◌ c s) =
    (leb b'a' (code c) && leb (code c) b'z' || code c == b'_') && action_characters s

unfoldable pub is_installation_payload : InstallationPayload → Bool
unfolding action_characters utf16_length
is_installation_payload p =
    is_nonempty p.action
    && leb (utf16_length p.action) 64
    && action_characters p.action
    && is_provider_id p.installation_id
    && is_optional_datetime p.suspended_at
    && is_datetime p.updated_at

pub record AddedRepository : Type 0 where
  pub default_branch : Option String
  pub full_name : Option String
  pub id : ℕ
  pub is_private : Option Bool

pub data RepositoryAction : Type 0 where
  added_repositories removed_repositories : RepositoryAction

-- `webhookRepositorySchema`
pub record RepositoryPayload : Type 0 where
  pub action : RepositoryAction
  pub installation_id : ℕ
  pub updated_at : ℕ
  pub repositories_added : List AddedRepository
  pub repositories_removed : List ℕ

abbrev is_branch_text : Option String → Bool
is_branch_text none = true
is_branch_text (some s) = is_nonempty s && leb (utf16_length s) 255

abbrev is_name_text : Option String → Bool
is_name_text none = true
is_name_text (some s) = is_full_name s

unfoldable pub is_added : AddedRepository → Bool
unfolding is_full_name utf16_length
is_added r = is_branch_text r.default_branch && is_name_text r.full_name && is_provider_id r.id

unfoldable pub is_repository_payload : RepositoryPayload → Bool
unfolding is_added
is_repository_payload p =
    is_provider_id p.installation_id
    && is_datetime p.updated_at
    && leb (length p.repositories_added) 10000
    && every is_added p.repositories_added
    && leb (length p.repositories_removed) 10000
    && every is_provider_id p.repositories_removed
