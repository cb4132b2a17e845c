-- ===== src/Github/InstallationState/Once.antt =====
-- A state is used at most once, by the principal that it was made for.
use reproforge.Base.{
  String, Bool, true, ◌≡◌, refl, sym, subst, inl, inr, Option, none, some, List, [], ◌∷◌, ◌++◌,
  Outcome, ok, err, Bool-cases, arith,
}
use reproforge.Domain.Job.{is_some}
use reproforge.Github.Rows.{find_row}
use reproforge.Github.Effects.{find_row-update_rows, find_row-update_rows_met}
use reproforge.Github.Status.{find_row-met}
use reproforge.Github.InstallationState.{
  StateRecord, StateError, Consumption, is_hashed, create_state, is_usable, used, consume_found,
  consume_state,
}

pub data Use : Type 0 where
  making : StateRecord → Use
  consuming : Consumption → Use

abbrev kept_records : List StateRecord → Outcome StateError (List StateRecord) → List StateRecord
kept_records records (ok stored) = stored
kept_records records (err e) = records

unfoldable pub after_use : Use → List StateRecord → List StateRecord
unfolding create_state consume_state
after_use (making r) records = kept_records records (create_state r records)
after_use (consuming input) records = (consume_state input records).1

unfoldable pub after_uses : List Use → List StateRecord → List StateRecord
unfolding after_use
after_uses [] records = records
after_uses (u ∷ us) records = after_uses us (after_use u records)

module _ {ℓ} {A : Type ℓ} where
  find_row-append :
      (q : A → Bool) (rows more : List A) (r : A)
      → find_row q rows ≡ some r
      → find_row q (rows ++ more) ≡ some r
  unfolding find_row
  find_row-append q [] more r f = absurd (ground arith)
  find_row-append q (s ∷ rows) more r f = elim (Bool-cases (q s)) [
    | inl here ↦ ground arith
    | inr there ↦ rw there (find_row-append q rows more r (ground arith))
  ]

abbrev IsUsed : String → List StateRecord → Type 0
IsUsed hash records =
    (r : StateRecord) × (find_row (is_hashed hash) records ≡ some r)
    × (is_some r.consumed_at ≡ true)

consume_found-IsUsed :
    (hash : String) (input : Consumption) (o : Option StateRecord) (records : List StateRecord)
    → IsUsed hash records
    → IsUsed hash (consume_found input o records).1
consume_found-IsUsed hash input none records u = u
consume_found-IsUsed hash input (some s) records (r, f, w) = elim (Bool-cases (is_usable input s)) [
  | inl yes_usable ↦
      let (r', g, m) =
        find_row-update_rows (is_hashed hash) (is_hashed input.state_hash) (used input.at)
          (λ x. refl) records r f in
      rw yes_usable (r', g, elim m [ inl same ↦ ground arith | inr (_, changed) ↦ ground arith ])
  | inr n ↦ rw n (r, f, w)
]

after_use-IsUsed :
    (hash : String) (u : Use) (records : List StateRecord)
    → IsUsed hash records
    → IsUsed hash (after_use u records)
unfolding after_use create_state consume_state
after_use-IsUsed hash (making s) records (r, f, w) =
    elim (Bool-cases (is_some (find_row (is_hashed s.state_hash) records))) [
      | inl taken ↦ rw taken (r, f, w)
      | inr new ↦ rw new (r, find_row-append (is_hashed hash) records (s ∷ []) r f, w)
    ]
after_use-IsUsed hash (consuming input) records u =
    consume_found-IsUsed hash input (find_row (is_hashed input.state_hash) records) records u

after_uses-IsUsed :
    (hash : String) (us : List Use) (records : List StateRecord)
    → IsUsed hash records
    → IsUsed hash (after_uses us records)
unfolding after_uses
after_uses-IsUsed hash [] records w = w
after_uses-IsUsed hash (u ∷ us) records w =
    after_uses-IsUsed hash us (after_use u records) (after_use-IsUsed hash u records w)

consume_found-once :
    (input : Consumption) (o : Option StateRecord) (records : List StateRecord) (r : StateRecord)
    → find_row (is_hashed input.state_hash) records ≡ o
    → (consume_found input o records).0 ≡ some r
    → IsUsed input.state_hash (consume_found input o records).1
      × ((s : StateRecord) × (o ≡ some s) × (is_usable input s ≡ true))
consume_found-once input none records r p e = cc
consume_found-once input (some s) records r p e = elim (Bool-cases (is_usable input s)) [
  | inl y ↦
      let here : is_hashed input.state_hash s ≡ true =
        find_row-met (is_hashed input.state_hash) records s p in
      let written =
        find_row-update_rows_met (is_hashed input.state_hash) (is_hashed input.state_hash)
          (used input.at) (λ x. refl) records s p here in
      rw y ((used input.at s, written, refl), (s, refl, y))
  | inr n ↦ absurd (ground arith)
]

consume_found-spent :
    (again : Consumption) (o : Option StateRecord) (r : StateRecord) (records : List StateRecord)
    → o ≡ some r
    → is_some r.consumed_at ≡ true
    → (consume_found again o records).0 ≡ none
consume_found-spent again none r records p w = refl
consume_found-spent again (some s) r records p w = ground arith

consume_state-IsUsed :
    (input again : Consumption) (records : List StateRecord)
    → again.state_hash ≡ input.state_hash
    → IsUsed input.state_hash records
    → (consume_state again records).0 ≡ none
unfolding consume_state
consume_state-IsUsed input again records same (r, f, w) =
    consume_found-spent again (find_row (is_hashed again.state_hash) records) r records
      (subst (λ (x : String). find_row (is_hashed x) records ≡ some r) (sym same) f) w

-- If a state is consumed, then it was there unused, for that principal of that tenant and not yet
-- past its expiry; and after any further uses of the store, by whomever, nobody consumes that
-- state again.
pub consume_state-once :
    (input again : Consumption) (us : List Use) (records : List StateRecord) (r : StateRecord)
    → (consume_state input records).0 ≡ some r
    → again.state_hash ≡ input.state_hash
    → ((s : StateRecord) × (find_row (is_hashed input.state_hash) records ≡ some s)
        × (is_usable input s ≡ true))
      × ((consume_state again (after_uses us (consume_state input records).1)).0 ≡ none)
unfolding consume_state
consume_state-once input again us records r e same =
    let (u, found) =
      consume_found-once input (find_row (is_hashed input.state_hash) records) records r refl e in
    let later = after_uses-IsUsed input.state_hash us (consume_state input records).1 u in
    (
      found,
      consume_state-IsUsed input again (after_uses us (consume_state input records).1) same later,
    )
