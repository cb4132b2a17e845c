-- ===== src/Durable/History/Order.antt =====
-- How the row of one job moves: its version is a token for the whole row, its attempts never go
-- back, an ended job stays as it is, and a request for cancellation is final.
use reproforge.Base.{
  ◌+◌, ◌<◌, ◌≤◌, ◌≡◌, refl, sym, ◌∙◌, subst, String, Bool, true, false, not, ◌&&◌, ◌||◌, some,
  arith, ◌⊎◌, inl, inr, Bool-cases,
}
use reproforge.Domain.Job.{
  JobState, JobState-discrete, queued, running, succeeded, failed, cancelled, same_job_state,
  is_some, can_transition_job,
}
use reproforge.Durable.Table.{Key, find}
use reproforge.Durable.Rows.{JobRow, Database}
use reproforge.Durable.History.{
  RowStep, claimed, renewed, completed, lost, requested, withdrawn, Step, Runs, start, next,
  Step-Change, Change-row,
}
use reproforge.Durable.History.Sound.{is_sound, AreSound, Runs-sound}

abbrev pub is_over : JobRow → Bool
is_over j =
    same_job_state j.state succeeded
    || same_job_state j.state failed
    || same_job_state j.state cancelled

-- The states between which a row may move: the machine of the domain, and from running to itself
-- (a renewal, a request for cancellation, a claim of an expired lease) and back to the queue.
abbrev may_move : JobState → JobState → Bool
may_move s t =
    can_transition_job s t
    || same_job_state s running && (same_job_state t running || same_job_state t queued)

-- A later row of the same job.
pub record Later (j j' : JobRow) : Type 0 where
  pub same_case : j'.case_id ≡ j.case_id
  pub same_bound : j'.max_attempts ≡ j.max_attempts
  pub attempts : j.attempt ≤ j'.attempt
  pub moved : (j' ≡ j) ⊎ ((j.version < j'.version) × (is_over j ≡ false))
  pub asked :
      (not (is_some j.cancellation_requested_at) || is_some j'.cancellation_requested_at) ≡ true

pub record IsStep (j j' : JobRow) : Type 0 where
  pub same_case : j'.case_id ≡ j.case_id
  pub same_bound : j'.max_attempts ≡ j.max_attempts
  pub attempts : j.attempt ≤ j'.attempt
  pub version : j'.version ≡ j.version + 1
  pub alive : is_over j ≡ false
  pub moves : may_move j.state j'.state ≡ true
  pub asked :
      is_some j.cancellation_requested_at ≡ true → is_some j'.cancellation_requested_at ≡ true

pub RowStep-IsStep : (j j' : JobRow) → RowStep j j' → IsStep j j'
unfolding JobState-discrete can_transition_job
RowStep-IsStep _ _ (claimed input j c l) = record {
  same_case = refl;
  same_bound = refl;
  attempts = ground arith;
  version = refl;
  alive = ground arith;
  moves = ground arith;
  asked = λ a. a;
}
RowStep-IsStep _ _ (renewed l at expires_at j c e) = record {
  same_case = refl;
  same_bound = refl;
  attempts = ground arith;
  version = refl;
  alive = ground arith;
  moves = ground arith;
  asked = λ a. a;
}
RowStep-IsStep _ _ (completed l r j c f e) = record {
  same_case = refl;
  same_bound = refl;
  attempts = ground arith;
  version = refl;
  alive = ground arith;
  moves = ground arith;
  asked = λ a. a;
}
RowStep-IsStep _ _ (RowStep.cancelled l at j o a) = record {
  same_case = refl;
  same_bound = refl;
  attempts = ground arith;
  version = refl;
  alive = ground arith;
  moves = ground arith;
  asked = λ a. a;
}
RowStep-IsStep _ _ (lost l failure j o n) = record {
  same_case = refl;
  same_bound = refl;
  attempts = ground arith;
  version = refl;
  alive = ground arith;
  moves = ground arith;
  asked = λ a. a;
}
RowStep-IsStep _ _ (requested at j r) = record {
  same_case = refl;
  same_bound = refl;
  attempts = ground arith;
  version = refl;
  alive = ground arith;
  moves = ground arith;
  asked = λ a. ground arith;
}
RowStep-IsStep _ _ (withdrawn at j q) = record {
  same_case = refl;
  same_bound = refl;
  attempts = ground arith;
  version = refl;
  alive = ground arith;
  moves = ground arith;
  asked = λ a. ground arith;
}

-- A transaction leaves the row of a job as it is, or gives it the next version. In the second case
-- the job was not over, and its state moves as the state machine of the job allows, stays running,
-- or goes from running back to queued.
pub Step-moves :
    (looks_secret : String → Bool) (db db' : Database) (k : Key) (j j' : JobRow)
    → Step looks_secret db db'
    → find k db.jobs ≡ some j
    → find k db'.jobs ≡ some j'
    → (j' ≡ j)
      ⊎ ((j'.version ≡ j.version + 1)
          × (is_over j ≡ false)
          × ((can_transition_job j.state j'.state ≡ true)
              ⊎ ((j.state ≡ running) × ((j'.state ≡ running) ⊎ (j'.state ≡ queued)))))
unfolding JobState-discrete
Step-moves looks_secret db db' k j j' step f g =
    let (m, h, either) = Change-row db db' k j (Step-Change looks_secret db db' step) f in
    let same_row : m ≡ j' = cc (g, h) in
    elim either [
      | inl p ↦ inl (sym same_row ∙ p)
      | inr r ↦
          let s = subst (IsStep j) same_row (RowStep-IsStep j m r) in
          let moves = s.moves in inr (s.version, s.alive, ground arith)
    ]

step-Later : (j j' : JobRow) → IsStep j j' → Later j j'
step-Later j j' s =
    let version = s.version in
    record {
      same_case = s.same_case;
      same_bound = s.same_bound;
      attempts = s.attempts;
      moved = inr (omega (arith, version), s.alive);
      asked = elim (Bool-cases (is_some j.cancellation_requested_at)) [
        | inl a ↦ ground (arith, s.asked a)
        | inr n ↦ ground arith
      ];
    }

Later-refl : (j : JobRow) → Later j j
Later-refl j = record {
  same_case = refl;
  same_bound = refl;
  attempts = omega arith;
  moved = inl refl;
  asked = ground arith;
}

Later-trans : (i j k : JobRow) → Later i j → Later j k → Later i k
Later-trans i j k p q =
    let a = p.attempts in
    let b = q.attempts in
    let u = p.asked in
    let v = q.asked in
    record {
      same_case = q.same_case ∙ p.same_case;
      same_bound = q.same_bound ∙ p.same_bound;
      attempts = omega (arith, a, b);
      moved = elim p.moved [
        | inl e ↦
            subst (λ (x : JobRow). (k ≡ x) ⊎ ((x.version < k.version) × (is_over x ≡ false))) e
              q.moved
        | inr (m, o) ↦ elim q.moved [
          | inl f ↦ inr (subst (λ (x : JobRow). i.version < x.version) (sym f) m, o)
          | inr (n, _) ↦ inr (omega (arith, m, n), o)
        ]
      ];
      asked = ground arith;
    }

module _ (looks_secret : String → Bool) where
  -- After any run of transactions the row of a job is still there, for the same case and with the
  -- same bound on attempts; its attempts did not go back; either the whole row is the one it was, or
  -- its version is larger and the job was not over; and a request for cancellation is not forgotten.
  pub Runs-Later :
      (db db' : Database) (k : Key) (j : JobRow)
      → Runs looks_secret db db'
      → find k db.jobs ≡ some j
      → (j' : JobRow) × (find k db'.jobs ≡ some j') × Later j j'
  Runs-Later _ _ k j (start db) f = (j, f, Later-refl j)
  Runs-Later _ _ k j (next db mid db' runs step) f =
      let (m, g, p) = Runs-Later db mid k j runs f in
      let (j', h, either) = Change-row mid db' k m (Step-Change looks_secret mid db' step) g in
      elim either [
        | inl same ↦ (j', h, subst (Later j) (sym same) p)
        | inr r ↦ (j', h, Later-trans j m j' p (step-Later m j' (RowStep-IsStep m j' r)))
      ]

  asked-state :
      (j : JobRow)
      → is_sound j ≡ true
      → is_some j.cancellation_requested_at ≡ true
      → (j.state ≡ running) ⊎ (j.state ≡ cancelled)
  unfolding JobState-discrete
  asked-state j s a = ground arith

  -- From a table of sound rows, a job of which cancellation was asked is, after any run, still
  -- marked and either running or cancelled: it neither succeeds, nor fails, nor is queued again.
  pub cancellation-final :
      (db db' : Database) (k : Key) (j : JobRow)
      → AreSound db
      → Runs looks_secret db db'
      → find k db.jobs ≡ some j
      → is_some j.cancellation_requested_at ≡ true
      → (j' : JobRow) × (find k db'.jobs ≡ some j')
        × (is_some j'.cancellation_requested_at ≡ true)
        × ((j'.state ≡ running) ⊎ (j'.state ≡ cancelled))
  cancellation-final db db' k j sound runs f a =
      let (j', g, p) = Runs-Later db db' k j runs f in
      let kept = p.asked in
      let still : is_some j'.cancellation_requested_at ≡ true = ground arith in
      (j', g, still, asked-state j' (Runs-sound looks_secret db db' runs sound k j' g) still)
