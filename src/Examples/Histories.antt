-- ===== src/Examples/Histories.antt =====
-- Histories of that store.
use reproforge.Base.{
  ◌≡◌, ◌+◌, ◌⊎◌, refl, sym, ◌∙◌, subst, String, Bool, true, false, some, ok, arith, is_sha256, take,
}
use reproforge.Domain.Job.{
  JobState-discrete, can_transition_job, running, queued, cancelled, is_some,
}
use reproforge.Durable.Table.{Key, find}
use reproforge.Durable.Rows.{JobRow, Database}
use reproforge.Durable.Records.{is_opaque_id, parses, agrees}
use reproforge.Durable.Lease.{claim_key, claimed_row, claim_lease}
use reproforge.Durable.Cancel.{cancelled_row}
use reproforge.Durable.Reserve.{case_key_of, new_case, reserve}
use reproforge.Durable.Effects.{same_key-eq}
use reproforge.Durable.Steps.{case_of}
use reproforge.Durable.Exclusion.{IsPowerless}
use reproforge.Durable.History.{Step, Runs, start, next}
use reproforge.Durable.History
use reproforge.Durable.History.Sound.{is_sound, AreSound, Runs-sound}
use reproforge.Durable.History.Order.{Later, is_over, Step-moves, Runs-Later, cancellation-final}
use reproforge.Durable.History.Lockstep.{InLockstep, Runs-lockstep}
use reproforge.Durable.History.Fencing.{stale_lease-IsPowerless, ended_job-IsPowerless}
use reproforge.Durable.Recover.{RecoverySummary, recover_expired_leases}
use reproforge.Durable.Recover.Committed.{IsRecovery, recover_expired_leases-IsRecovery}
use reproforge.Examples.Store.{
  looks_clean, ticket, after, waiting, worker, lease, at_work, taken_over, asked_to_stop, stopped,
  first_row, asked_row, claimed_once, claimed_again, stopped_once, asked_found, stopped_found,
  find-single, waiting_jobs, asked_jobs,
}

claim-Step : Step looks_clean waiting at_work
claim-Step = History.claim (worker 10 "one") (some (lease 10 1 "one")) waiting at_work claimed_once

to_work : Runs looks_clean waiting at_work
to_work = next waiting waiting at_work (start waiting) claim-Step

to_stop : Runs looks_clean asked_to_stop stopped
to_stop =
    next asked_to_stop asked_to_stop stopped (start asked_to_stop)
      (History.cancel (lease 10 1 "one") 30 stopped_once.0 asked_to_stop stopped stopped_once.1)

first_sound : is_sound first_row ≡ true
unfolding JobState-discrete
first_sound = refl

asked_sound : is_sound asked_row ≡ true
unfolding JobState-discrete
asked_sound = refl

waiting_sound : AreSound waiting
waiting_sound k j f =
    let one =
      find-single (claim_key (worker 10 "one")) k first_row j
        (subst (λ t. find k t ≡ some j) waiting_jobs f) in
    subst (λ x. is_sound x ≡ true) (one.0) first_sound

asked_to_stop_sound : AreSound asked_to_stop
asked_to_stop_sound k j f =
    let one =
      find-single (claim_key (worker 10 "one")) k asked_row j
        (subst (λ t. find k t ≡ some j) asked_jobs f) in
    subst (λ x. is_sound x ≡ true) (one.0) asked_sound

Runs-sound_example : AreSound at_work
Runs-sound_example = Runs-sound looks_clean waiting at_work to_work waiting_sound

waiting_case : find (case_key_of ticket) waiting.cases ≡ some (new_case ticket)
unfolding reserve find parses is_opaque_id agrees is_sha256
waiting_case = refl

waiting_lockstep : InLockstep waiting
waiting_lockstep = record {
  paired = λ k j f.
      let key = claim_key (worker 10 "one") in
      let (same, at_key) =
        find-single key k first_row j (subst (λ t. find k t ≡ some j) waiting_jobs f) in
      let here : case_of key first_row ≡ case_of k j =
        λ n. record { tenant = (same_key-eq key k at_key n).tenant; id = (same n).case_id } in
      (
        new_case ticket,
        subst (λ x. find x waiting.cases ≡ some (new_case ticket)) here waiting_case,
        λ n. (same n).version,
      );
  alone = λ k i j h f g e.
      let key = claim_key (worker 10 "one") in
      let (_, p) = find-single key k first_row j (subst (λ t. find k t ≡ some j) waiting_jobs f) in
      let (_, q) = find-single key i first_row h (subst (λ t. find i t ≡ some h) waiting_jobs g) in
      sym (same_key-eq key k p) ∙ same_key-eq key i q;
}

Runs-lockstep_example : InLockstep at_work
Runs-lockstep_example = Runs-lockstep looks_clean waiting at_work to_work waiting_lockstep

waiting_found : find (claim_key (worker 10 "one")) waiting.jobs ≡ some first_row
unfolding reserve find parses is_opaque_id agrees is_sha256
waiting_found = refl

at_work_found :
    find (claim_key (worker 10 "one")) at_work.jobs ≡ some (claimed_row (worker 10 "one") first_row)
unfolding claim_lease reserve find parses is_opaque_id agrees is_sha256 JobState-discrete
at_work_found = refl

Step-moves_example :
    (claimed_row (worker 10 "one") first_row ≡ first_row)
    ⊎ (((claimed_row (worker 10 "one") first_row).version ≡ first_row.version + 1)
        × (is_over first_row ≡ false)
        × ((can_transition_job queued running ≡ true)
            ⊎ ((queued ≡ running) × ((running ≡ running) ⊎ (running ≡ queued)))))
Step-moves_example =
    Step-moves looks_clean waiting at_work (claim_key (worker 10 "one")) first_row
      (claimed_row (worker 10 "one") first_row) claim-Step waiting_found at_work_found

Runs-Later_example :
    (j' : JobRow) × (find (claim_key (worker 10 "one")) at_work.jobs ≡ some j') × Later first_row j'
Runs-Later_example =
    Runs-Later looks_clean waiting at_work (claim_key (worker 10 "one")) first_row to_work
      waiting_found

cancellation-final_example :
    (j' : JobRow) × (find (claim_key (worker 10 "one")) stopped.jobs ≡ some j')
    × (is_some j'.cancellation_requested_at ≡ true)
    × ((j'.state ≡ running) ⊎ (j'.state ≡ cancelled))
cancellation-final_example =
    cancellation-final looks_clean asked_to_stop stopped (claim_key (worker 10 "one")) asked_row
      asked_to_stop_sound to_stop asked_found refl

stale_lease-IsPowerless_example : IsPowerless looks_clean (lease 10 1 "one") taken_over
stale_lease-IsPowerless_example =
    stale_lease-IsPowerless looks_clean (worker 70000 "two") (lease 70000 2 "two")
      (lease 10 1 "one") at_work taken_over taken_over claimed_again (start taken_over) refl
      (omega arith)

over : is_over (cancelled_row 30 asked_row) ≡ true
unfolding JobState-discrete
over = refl

ended_job-IsPowerless_example : IsPowerless looks_clean (lease 10 1 "one") stopped
ended_job-IsPowerless_example =
    ended_job-IsPowerless looks_clean (lease 10 1 "one") (cancelled_row 30 asked_row) stopped
      stopped stopped_found over (start stopped)

abbrev collation : String → String → Bool
collation s t = false

abbrev unlocked : Key → Bool
unlocked k = false

abbrev recovered : Database
recovered = after at_work (recover_expired_leases looks_clean collation unlocked 70000 5 at_work)

abbrev one_requeued : RecoverySummary
one_requeued = record { cancelled_leases = 0; exhausted_leases = 0; requeued_leases = 1 }

recovered_once :
    recover_expired_leases looks_clean collation unlocked 70000 5 at_work
    ≡ ok (one_requeued, recovered)
unfolding recover_expired_leases claim_lease reserve parses is_opaque_id agrees is_sha256
    JobState-discrete take
recovered_once = refl

recover_expired_leases-IsRecovery_example :
    IsRecovery looks_clean unlocked 70000 5 one_requeued at_work recovered
recover_expired_leases-IsRecovery_example =
    recover_expired_leases-IsRecovery looks_clean collation unlocked 70000 5 one_requeued at_work
      recovered recovered_once
