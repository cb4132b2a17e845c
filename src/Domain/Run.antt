-- ===== src/Domain/Run.antt =====
-- A run of the experiment, src/domain/run.ts. Counts are safe integers, of which the schema asks
-- that they are not negative.
use reproforge.Base.{
  ℕ, ℤ, String, Bool, true, ◌&&◌, Option, none, some, leb, is_nonempty, is_sha256,
}

pub record RunOutputCapture : Type 0 where
  pub original_bytes : ℕ
  pub sha256 : String
  pub truncated : Bool

pub record Captures : Type 0 where
  pub stderr : RunOutputCapture
  pub stdout : RunOutputCapture

pub record RunResult : Type 0 where
  pub capture : Option Captures
  pub id : String
  pub command : String
  pub duration_ms : ℕ
  pub environment_hash : String
  pub exit_code : ℤ
  pub stderr : String
  pub stdout : String

abbrev pub max_safe_integer : ℕ
max_safe_integer = 9007199254740991

abbrev is_output_capture : RunOutputCapture → Bool
is_output_capture c = leb c.original_bytes max_safe_integer && is_sha256 c.sha256

abbrev is_capture : Option Captures → Bool
is_capture none = true
is_capture (some c) = is_output_capture c.stderr && is_output_capture c.stdout

-- `runResultSchema`
unfoldable pub is_run_result : RunResult → Bool
is_run_result run =
    is_capture run.capture
    && is_nonempty run.id
    && is_nonempty run.command
    && is_nonempty run.environment_hash
