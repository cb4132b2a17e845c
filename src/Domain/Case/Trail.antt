-- ===== src/Domain/Case/Trail.antt =====
-- What the history of a case says.
use reproforge.Base.{
  ◌&&◌, not, ℕ, ◌+◌, ◌≤◌, ◌<◌, ◌≡◌, refl, String, true, false, Option, none, some, List, [], ◌∷◌,
  ◌++◌, map, ok, arith, length, includes,
}
use reproforge.Domain.Case.{
  CaseState, draft, ingesting, inspecting, hypothesizing, experimenting, verifying, minimizing,
  packaging, verified, cancelled, CaseState-discrete, active_case_states, TransitionEntry,
  ReproCase, create_case, can_transition, transition_case,
}

-- A history leads from one state to another by allowed steps, each from where the last one ended.
abbrev pub IsTrail : CaseState → List TransitionEntry → CaseState → Type 0
IsTrail s [] t = s ≡ t
IsTrail s (e ∷ es) t = (e.from ≡ s) × (can_transition e.from e.to ≡ true) × IsTrail e.to es t

-- The cases that the two operations build.
pub data Reachable : ReproCase → Type 0 where
  created : (id : String) (at : ℕ) {c : ReproCase} → create_case id at ≡ ok c → Reachable c
  moved :
      {c : ReproCase} (to : CaseState) (reason : String) (at : ℕ) {c' : ReproCase}
      → Reachable c
      → transition_case c to reason at ≡ ok c'
      → Reachable c'

IsTrail-snoc :
    (s t : CaseState) (h : List TransitionEntry) (e : TransitionEntry)
    → IsTrail s h t
    → e.from ≡ t
    → can_transition e.from e.to ≡ true
    → IsTrail s (h ++ e ∷ []) e.to
IsTrail-snoc s t [] e p q r = (ground arith, r, refl)
IsTrail-snoc s t (x ∷ h) e p q r = (p.0, p.1, IsTrail-snoc x.to t h e p.2 q r)

-- An active case can be cancelled, and a terminal one is left by no transition.
cancellable_iff :
    (s t : CaseState)
    → (can_transition s cancelled ≡ includes CaseState-discrete active_case_states s)
      × ((can_transition s t && not (includes CaseState-discrete active_case_states s)) ≡ false)
unfolding can_transition CaseState-discrete
cancellable_iff s t = ground arith

transition_case-IsTrail :
    (c : ReproCase) (to : CaseState) (reason : String) (at : ℕ) (c' : ReproCase)
    → IsTrail draft c.history c.state
    → transition_case c to reason at ≡ ok c'
    → IsTrail draft c'.history c'.state
unfolding transition_case
transition_case-IsTrail c to reason at c' p e =
    let allowed : can_transition c.state to ≡ true = ground arith in
    let there =
      IsTrail-snoc draft c.state c.history
        (record { at = at; from = c.state; reason = reason; to = to }) p refl allowed in
    ground arith

Reachable-IsTrail : {c : ReproCase} → Reachable c → IsTrail draft c.history c.state
unfolding create_case
Reachable-IsTrail (created id at e) = ground arith
Reachable-IsTrail (moved {c} to reason at {c'} r e) =
    transition_case-IsTrail c to reason at c' (Reachable-IsTrail r) e

-- The most transitions that are left from a state.
abbrev steps_left : CaseState → ℕ
steps_left draft = 8
steps_left ingesting = 7
steps_left inspecting = 6
steps_left hypothesizing = 5
steps_left experimenting = 4
steps_left verifying = 3
steps_left minimizing = 2
steps_left packaging = 1
steps_left _ = 0

can_transition-steps_left :
    (s t : CaseState) → can_transition s t ≡ true → steps_left t < steps_left s
unfolding can_transition CaseState-discrete
can_transition-steps_left s t h = ground arith

length-IsTrail :
    (s t : CaseState) (h : List TransitionEntry)
    → IsTrail s h t
    → length h + steps_left t ≤ steps_left s
length-IsTrail s t [] p = ground arith
length-IsTrail s t (e ∷ h) p =
    ground (arith, can_transition-steps_left e.from e.to, length-IsTrail e.to t h p.2)

-- The states on the way from a state to `verified`, where there is a way.
abbrev road : CaseState → Option (List CaseState)
road draft = some (
    ingesting ∷ inspecting ∷ hypothesizing ∷ experimenting ∷ verifying ∷ minimizing ∷ packaging
    ∷ verified ∷ [])
road ingesting = some (
    inspecting ∷ hypothesizing ∷ experimenting ∷ verifying ∷ minimizing ∷ packaging ∷ verified ∷ [])
road inspecting =
    some (hypothesizing ∷ experimenting ∷ verifying ∷ minimizing ∷ packaging ∷ verified ∷ [])
road hypothesizing = some (experimenting ∷ verifying ∷ minimizing ∷ packaging ∷ verified ∷ [])
road experimenting = some (verifying ∷ minimizing ∷ packaging ∷ verified ∷ [])
road verifying = some (minimizing ∷ packaging ∷ verified ∷ [])
road minimizing = some (packaging ∷ verified ∷ [])
road packaging = some (verified ∷ [])
road verified = some []
road _ = none

can_transition-road :
    (s t : CaseState) (r : List CaseState)
    → can_transition s t ≡ true
    → road t ≡ some r
    → road s ≡ some (t ∷ r)
unfolding can_transition CaseState-discrete
can_transition-road s t r h e = ground arith

abbrev pub states_of : List TransitionEntry → List CaseState
states_of = map (λ e. e.to)

IsTrail-road :
    (s : CaseState) (h : List TransitionEntry) → IsTrail s h verified → road s ≡ some (states_of h)
IsTrail-road s [] p = ground arith
IsTrail-road s (e ∷ h) p =
    ground (arith, can_transition-road s e.to (states_of h), IsTrail-road e.to h p.2)

-- The history of a case is a chain of allowed transitions from DRAFT to its state, and has at
-- most eight entries.
pub Reachable-history :
    (c : ReproCase) → Reachable c → IsTrail draft c.history c.state × (length c.history ≤ 8)
Reachable-history c r = (
  Reachable-IsTrail r,
  omega (arith, length-IsTrail draft c.state c.history (Reachable-IsTrail r)),
)

-- A case that is VERIFIED has gone through all the phases, each once and in this order.
pub verified-history :
    (c : ReproCase)
    → Reachable c
    → c.state ≡ verified
    → states_of c.history
      ≡ ingesting ∷ inspecting ∷ hypothesizing ∷ experimenting ∷ verifying ∷ minimizing ∷ packaging
        ∷ verified ∷ []
verified-history c r e =
    ground (arith, IsTrail-road draft c.history (rw e at (Reachable-IsTrail r)))
