-- ===== src/Github/Authorization/Order.antt =====
-- Deliveries of GitHub may come twice and in any order: the status that the reducer of
-- src/github/authorization-state.ts ends with does not depend on it.
use mathlib.Core.List.{Mem, not-mem-nil, mem-cons, mem-cons_self, mem-cons_of_mem}
use mathlib.Core.Logic.Or
use reproforge.Base.{◌≡◌, refl, sym, ◌∙◌, ap, ◌↔◌, arith, List, [], ◌∷◌, ℕ_discrete}
use reproforge.Github.Authorization.{
  AuthorizationState, AuthorizationTransition, reduce_authorization, after_reports,
}

AuthorizationState-discrete : Discrete AuthorizationState
AuthorizationState-discrete = hlevel (ℕ_discrete)

reduce_comm :
    (s : AuthorizationState) (a b : AuthorizationTransition)
    → reduce_authorization (reduce_authorization s a) b
      ≡ reduce_authorization (reduce_authorization s b) a
unfolding reduce_authorization
reduce_comm s a b = ground arith

reduce_twice :
    (s : AuthorizationState) (a : AuthorizationTransition)
    → reduce_authorization (reduce_authorization s a) a ≡ reduce_authorization s a
unfolding reduce_authorization
reduce_twice s a = ground arith

-- A report can be taken first as well as last.
reduce-after_reports :
    (s : AuthorizationState) (t : AuthorizationTransition) (ts : List AuthorizationTransition)
    → reduce_authorization (after_reports s ts) t ≡ after_reports (reduce_authorization s t) ts
unfolding after_reports
reduce-after_reports s t [] = refl
reduce-after_reports s t (u ∷ ts) =
    reduce-after_reports (reduce_authorization s u) t ts
    ∙ ap (λ x. after_reports x ts) (reduce_comm s u t)

-- A report that was taken already changes nothing.
reduce_absorbed :
    (s : AuthorizationState) (t : AuthorizationTransition) (ts : List AuthorizationTransition)
    → Mem t ts
    → reduce_authorization (after_reports s ts) t ≡ after_reports s ts
unfolding after_reports
reduce_absorbed s t [] m = absurd (not-mem-nil m)
reduce_absorbed s t (u ∷ ts) m =
    Or.elim (hlevel) (mem-cons.0 m)
      (λ e.
        reduce-after_reports (reduce_authorization s u) t ts
        ∙ ap (λ x. after_reports x ts)
            (ap (λ x. reduce_authorization (reduce_authorization s u) x) e ∙ reduce_twice s u))
      (reduce_absorbed (reduce_authorization s u) t ts)

after_reports_absorbed :
    (s : AuthorizationState) (ts us : List AuthorizationTransition)
    → ((t : AuthorizationTransition) → Mem t us → Mem t ts)
    → after_reports (after_reports s ts) us ≡ after_reports s ts
unfolding after_reports
after_reports_absorbed s ts [] h = refl
after_reports_absorbed s ts (u ∷ us) h =
    rw (reduce_absorbed s u ts (h u mem-cons_self))
      (after_reports_absorbed s ts us (λ t m. h t (mem-cons_of_mem u m)))

after_reports_comm :
    (s : AuthorizationState) (ts us : List AuthorizationTransition)
    → after_reports (after_reports s ts) us ≡ after_reports (after_reports s us) ts
unfolding after_reports
after_reports_comm s ts [] = refl
after_reports_comm s ts (u ∷ us) =
    ap (λ x. after_reports x us) (reduce-after_reports s u ts)
    ∙ after_reports_comm (reduce_authorization s u) ts us

-- Two sequences of reports that hold the same reports, in whatever order and however often each,
-- end in the same state.
pub reports_converge :
    (s : AuthorizationState) (ts us : List AuthorizationTransition)
    → ((t : AuthorizationTransition) → Mem t ts ↔ Mem t us)
    → after_reports s ts ≡ after_reports s us
reports_converge s ts us same =
    sym (after_reports_absorbed s ts us (λ t. (same t).1))
    ∙ after_reports_comm s ts us
    ∙ after_reports_absorbed s us ts (λ t. (same t).0)
