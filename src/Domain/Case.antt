-- ===== src/Domain/Case.antt =====
-- The case state machine of src/domain/case.ts. A `Date` is its number of milliseconds since 1970,
-- and `z.string().datetime()` accepts the printed form up to the end of the year 9999.
pub mod Trail
use reproforge.Base.{
  ℕ, String, Bool, true, false, ◌&&◌, List, [], ◌∷◌, ◌++◌, Outcome, ok, err, ◌>>=◌, ◌>>◌, require,
  ite, ltb, every, includes, is_nonempty, if◌then◌else◌,
}

pub data CaseState : Type 0 where
  draft ingesting inspecting hypothesizing experimenting verifying minimizing packaging : CaseState
  verified unstable not_reproduced blocked cancelled : CaseState

unfoldable pub CaseState-discrete : Discrete CaseState
CaseState-discrete = hlevel

abbrev pub same_case_state : CaseState → CaseState → Bool
unfolding CaseState-discrete
same_case_state s t = ite (CaseState-discrete s t) true false

abbrev pub active_case_states : List CaseState
active_case_states =
    draft ∷ ingesting ∷ inspecting ∷ hypothesizing ∷ experimenting ∷ verifying ∷ minimizing
    ∷ packaging ∷ []

abbrev pub terminal_case_states : List CaseState
terminal_case_states = verified ∷ unstable ∷ not_reproduced ∷ blocked ∷ cancelled ∷ []

pub record TransitionEntry : Type 0 where
  pub at : ℕ
  pub from : CaseState
  pub reason : String
  pub to : CaseState

pub record ReproCase : Type 0 where
  pub created_at : ℕ
  pub history : List TransitionEntry
  pub id : String
  pub state : CaseState
  pub updated_at : ℕ

pub data CaseError : Type 0 where
  invalid_case_transition : CaseState → CaseState → CaseError
  invalid_case : CaseError

abbrev pub is_datetime : ℕ → Bool
is_datetime t = ltb t 253402300800000

abbrev is_transition_entry : TransitionEntry → Bool
is_transition_entry e = is_datetime e.at && is_nonempty e.reason

-- `reproCaseSchema.parse`
unfoldable pub parse_case : ReproCase → Outcome CaseError ReproCase
parse_case c =
    if is_datetime c.created_at
      && every is_transition_entry c.history
      && is_nonempty c.id
      && is_datetime c.updated_at
    then ok c
    else err invalid_case

allowed_transitions : CaseState → List CaseState
allowed_transitions draft = ingesting ∷ cancelled ∷ []
allowed_transitions ingesting = inspecting ∷ blocked ∷ cancelled ∷ []
allowed_transitions inspecting = hypothesizing ∷ blocked ∷ cancelled ∷ []
allowed_transitions hypothesizing = experimenting ∷ blocked ∷ cancelled ∷ []
allowed_transitions experimenting = verifying ∷ blocked ∷ cancelled ∷ []
allowed_transitions verifying = minimizing ∷ unstable ∷ not_reproduced ∷ blocked ∷ cancelled ∷ []
allowed_transitions minimizing = packaging ∷ blocked ∷ cancelled ∷ []
allowed_transitions packaging = verified ∷ blocked ∷ cancelled ∷ []
allowed_transitions verified = []
allowed_transitions unstable = []
allowed_transitions not_reproduced = []
allowed_transitions blocked = []
allowed_transitions cancelled = []

unfoldable pub create_case : String → ℕ → Outcome CaseError ReproCase
unfolding parse_case
create_case id at =
    parse_case (record { created_at = at; history = []; id = id; state = draft; updated_at = at })

unfoldable pub can_transition : CaseState → CaseState → Bool
unfolding allowed_transitions CaseState-discrete
can_transition from to = includes CaseState-discrete (allowed_transitions from) to

unfoldable pub transition_case : ReproCase → CaseState → String → ℕ → Outcome CaseError ReproCase
unfolding parse_case
transition_case current to reason at = do
  require (can_transition current.state to) (invalid_case_transition current.state to)
  parse_case (record current {
    history =
        current.history ++ record { at = at; from = current.state; reason = reason; to = to } ∷ [];
    state = to;
    updated_at = at;
  })
