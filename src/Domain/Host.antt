-- ===== src/Domain/Host.antt =====
-- What the program uses of its JavaScript engine and does not implement: regular expressions,
-- JSON texts and the order of `localeCompare`.
use Prim.Native.Nat.{Ordering}
use reproforge.Base.{String, Bool, Option}

pub record Host : Type 1 where
  -- The values that `JSON.parse` gives, and `undefined`.
  pub Value : Type 0
  pub undefined : Value
  -- `JSON.parse`, with `none` for a text that it throws on.
  pub parse_json : String → Option Value
  -- `JSON.stringify`, with `none` for its result `undefined`.
  pub stringify : Value → Option String
  -- `typeof value === "object" && value !== null`
  pub is_object : Value → Bool
  -- `value[segment]`
  pub get_property : Value → String → Value
  -- Whether `new RegExp(pattern)` returns.
  pub is_regex : String → Bool
  -- `new RegExp(pattern).test(text)`
  pub regex_test : String → String → Bool
  -- `left.localeCompare(right)`
  pub locale_compare : String → String → Ordering
