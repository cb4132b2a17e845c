-- ===== src/Examples/Attempts.antt =====
-- An attempt of two runs, in which the first creation fails and a sandbox cannot be stopped.
use reproforge.Base.{
  ℕ, ◌+◌, ◌*◌, ◌≤◌, ◌≡◌, refl, String, true, Option, none, some, [], ◌∷◌, length, ok, not, ◌==◌,
  if◌then◌else◌,
}
use reproforge.Durable.Records.{is_opaque_id}
use reproforge.Sandbox.{Surroundings, quiet, quarantined, sandbox, prepared, execute_attempt}
use reproforge.Sandbox.Cleanup.{IsSettled}
use reproforge.Sandbox.Cleanup.Ending.{told_status, execute_attempt-IsSettled}
use reproforge.Sandbox.Bounds.Attempt.{IsComplete, execute_attempt-bounds}

abbrev not_second : ℕ → Option String
not_second n = if n == 2 then none else some "sandbox"

abbrev world : Surroundings ℕ
world = record {
  signal = λ n. quiet;
  takes_snapshot = λ n. some "snapshot";
  creates = not_second;
  runs = λ index n. ok (index + 40);
  stops = λ n. not (n == 5);
  deletes = λ n. true;
}

two_runs :
    (execute_attempt world "attempt" 1 2 "first").0
    ≡ ok (record { cleanup_status = quarantined; provider_retries = 1; values = 40 ∷ 41 ∷ [] })
unfolding execute_attempt
two_runs = refl

one_left_over :
    (execute_attempt world "attempt" 1 2 "first").1.quarantine
    ≡ record { attempt_id = "attempt"; provider_resource_id = "sandbox"; resource_type = sandbox }
      ∷ []
unfolding execute_attempt
one_left_over = refl

accepted_input : is_opaque_id "attempt" ≡ true
unfolding is_opaque_id
accepted_input = refl

execute_attempt-IsSettled_example :
    IsSettled "attempt" (prepared "first") (execute_attempt world "attempt" 1 2 "first").1
    × (told_status (execute_attempt world "attempt" 1 2 "first").0
        ≡ some (execute_attempt world "attempt" 1 2 "first").1.cleanup_status)
unfolding is_opaque_id
execute_attempt-IsSettled_example =
    execute_attempt-IsSettled world "attempt" 1 2 "first" accepted_input

execute_attempt-bounds_example :
    (length (execute_attempt world "attempt" 1 2 "first").1.created ≤ 2 * (1 + 1))
    × ((execute_attempt world "attempt" 1 2 "first").1.provider_retries ≤ 2 * 1)
    × IsComplete 2
        (execute_attempt world "attempt" 1 2 "first").1
        (execute_attempt world "attempt" 1 2 "first").0
execute_attempt-bounds_example = execute_attempt-bounds world "attempt" 1 2 "first"
