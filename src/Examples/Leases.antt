-- ===== src/Examples/Leases.antt =====
-- A lease that its owner renewed, and a claim after the time of the first lease.
use reproforge.Base.{◌≡◌, refl, true, ◌+◌, none, some, ok, arith, is_sha256}
use reproforge.Domain.Case.{CaseState-discrete}
use reproforge.Domain.Job.{JobState-discrete}
use reproforge.Durable.Table.{find}
use reproforge.Durable.Rows.{JobRow, Database}
use reproforge.Durable.Records.{is_opaque_id, parses, agrees}
use reproforge.Durable.Lease.{JobLease, lease_key, claimed_row, claim_lease, renew_lease}
use reproforge.Durable.Cancel.{requested, requested_row, request_cancellation}
use reproforge.Durable.Reserve.{reserve}
use reproforge.Durable.History.{Runs, start, next}
use reproforge.Durable.History
use reproforge.Durable.History.Holding.{by_renewal, held_lease-exclusive}
use reproforge.Examples.Store.{looks_clean, after, at_work, worker, lease, first_row, user}

abbrev longer : JobLease
longer = record (lease 10 1 "one") { expires_at = 100000 }

abbrev renewed : Database
renewed = after at_work (renew_lease (lease 10 1 "one") 40 100000 at_work)

renewed_once : renew_lease (lease 10 1 "one") 40 100000 at_work ≡ ok (longer, renewed)
unfolding renew_lease claim_lease reserve parses is_opaque_id agrees is_sha256 JobState-discrete
renewed_once = refl

abbrev marked : Database
marked = after renewed (request_cancellation looks_clean user "job" 50 renewed)

marked_once :
    request_cancellation looks_clean user "job" 50 renewed
    ≡ ok (some (record { case_id = "case"; changed = true; disposition = requested }), marked)
unfolding request_cancellation renew_lease claim_lease reserve parses is_opaque_id agrees is_sha256
    CaseState-discrete JobState-discrete
marked_once = refl

to_marked : Runs looks_clean renewed marked
to_marked =
    next renewed renewed marked (start renewed)
      (History.request user "job" 50 _ renewed marked marked_once)

abbrev renewed_row : JobRow
renewed_row = record (claimed_row (worker 10 "one") first_row) {
  lease_expires_at = some 100000;
  updated_at = 40;
  version = first_row.version + 2;
}

marked_found : find (lease_key longer) marked.jobs ≡ some (requested_row 50 renewed_row)
unfolding find request_cancellation renew_lease claim_lease reserve parses is_opaque_id agrees
    is_sha256 CaseState-discrete JobState-discrete
marked_found = refl

held_lease-exclusive_example : claim_lease (worker 80000 "two") marked ≡ ok (none, marked)
held_lease-exclusive_example =
    held_lease-exclusive looks_clean longer at_work renewed marked (requested_row 50 renewed_row)
      (worker 80000 "two") (by_renewal (lease 10 1 "one") 40 renewed_once) to_marked marked_found
      (refl, refl) refl (omega arith) (omega arith, omega arith)
