-- ===== src/Examples/Cancellations.antt =====
-- The user cancels a running job.
use reproforge.Base.{true}
use reproforge.Durable.Rows.{Database}
use reproforge.Cancellation.{
  CancellationDisposition, DurableCancellationResult, request_durable_cancellation,
}
use reproforge.Examples.Store.{looks_clean, after, at_work, user}

abbrev told_to_stop : Database
told_to_stop = after at_work (request_durable_cancellation looks_clean user "job" 20 21 at_work)

abbrev marked : DurableCancellationResult
marked = record {
  accepted = true;
  changed_job = true;
  disposition = CancellationDisposition.requested;
}
