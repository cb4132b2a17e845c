-- ===== src/Examples/States.antt =====
-- A state that is made, used too late, used, and used again, in the database and in memory.
use reproforge.Base.{◌≡◌, refl, true, none, some, List, [], ◌∷◌, ℕ, arith, leb, is_sha256}
use reproforge.Github.Rows.{Principal, find_row}
use reproforge.Github.InstallationState.{
  has_principal, StateRecord, Consumption, is_state_row, create_state, consume_state,
}
use reproforge.Github.InstallationState.Once.{Use, making, consuming}
use reproforge.Github.InstallationState.Stores.{
  IsProper, AreProper, IsKeyed, in_memory, in_database, serve, stores_agree,
}

abbrev fresh : StateRecord
fresh = record {
  consumed_at = none;
  created_at = 5;
  expires_at = 10;
  principal_id = "user";
  state_hash = "aaaaaaaaaaaaaaaaaaaaaaaaaaaaaaaaaaaaaaaaaaaaaaaaaaaaaaaaaaaaaaaa";
  tenant_id = "acme";
}

abbrev attempt_at : ℕ → Consumption
attempt_at at = record {
  at = at;
  principal_id = "user";
  state_hash = "aaaaaaaaaaaaaaaaaaaaaaaaaaaaaaaaaaaaaaaaaaaaaaaaaaaaaaaaaaaaaaaa";
  tenant_id = "acme";
}

abbrev tries : List Use
tries =
    making fresh
    ∷ consuming (attempt_at 11)
    ∷ consuming (attempt_at 10)
    ∷ consuming (attempt_at 10)
    ∷ []

abbrev known : List Principal
known = record { tenant_id = "acme"; id = "user" } ∷ []

tries-AreProper : AreProper known tries []
unfolding AreProper IsProper in_memory create_state consume_state is_state_row has_principal
    is_sha256 find_row
tries-AreProper =
    let later : (r : StateRecord) → some fresh ≡ some r → leb r.created_at 11 ≡ true =
      λ r e. ground arith in
    let still : (r : StateRecord) → some fresh ≡ some r → leb r.created_at 10 ≡ true =
      λ r e. ground arith in
    let again : (r : StateRecord)
        → some (record fresh { consumed_at = some 10 }) ≡ some r
        → leb r.created_at 10 ≡ true =
      λ r e. ground arith in
    ((refl, refl, refl), ((refl, later), ((refl, still), ((refl, again), tt))))

none-IsKeyed : IsKeyed []
unfolding IsKeyed
none-IsKeyed = tt

stores_agree_example : serve (in_database known) tries [] ≡ serve in_memory tries []
stores_agree_example = stores_agree known tries [] none-IsKeyed tries-AreProper
