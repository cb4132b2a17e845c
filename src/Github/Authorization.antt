-- ===== src/Github/Authorization.antt =====
-- The reducer of src/github/authorization-state.ts: how the status of an installation or of a
-- repository follows what the provider reports.
pub mod Order
use reproforge.Base.{
  ℕ, Bool, true, false, ◌&&◌, Option, none, some, ltb, if◌then◌else◌, List, [], ◌∷◌,
}

-- `GitHubAuthorizationStatus`
pub data AuthorizationStatus : Type 0 where
  active removed suspended : AuthorizationStatus

pub record AuthorizationState : Type 0 where
  pub provider_updated_at : Option ℕ
  pub status : AuthorizationStatus

pub record AuthorizationTransition : Type 0 where
  pub at : ℕ
  pub status : AuthorizationStatus

-- `STATUS_PRECEDENCE`
abbrev pub precedence : AuthorizationStatus → ℕ
precedence active = 0
precedence suspended = 1
precedence removed = 2

abbrev pub is_removed : AuthorizationStatus → Bool
is_removed removed = true
is_removed _ = false

abbrev pub accepted : AuthorizationTransition → AuthorizationState
accepted t = record { provider_updated_at = some t.at; status = t.status }

abbrev pub is_later_than : ℕ → Option ℕ → Bool
is_later_than at none = true
is_later_than at (some last) = ltb last at

-- The cases of a state that is not removed, and of a transition that does not remove.
abbrev pub reduce_dated :
    AuthorizationState → AuthorizationTransition → Option ℕ → AuthorizationState
reduce_dated current t none = accepted t
reduce_dated current t (some last) =
    if ltb last t.at
    then accepted t
    else if ltb t.at last
    then current
    else if ltb (precedence current.status) (precedence t.status)
    then accepted t
    else current

-- `reduceGitHubAuthorizationState`
unfoldable pub reduce_authorization :
    AuthorizationState → AuthorizationTransition → AuthorizationState
reduce_authorization current t =
    if is_removed current.status
    then (if is_removed t.status && is_later_than t.at current.provider_updated_at
        then accepted t
        else current)
    else if is_removed t.status
    then accepted t
    else reduce_dated current t current.provider_updated_at

-- The state after a sequence of reports.
unfoldable pub after_reports :
    AuthorizationState → List AuthorizationTransition → AuthorizationState
unfolding reduce_authorization
after_reports s [] = s
after_reports s (t ∷ ts) = after_reports (reduce_authorization s t) ts
