-- ===== src/Github/InstallationState/Stores.antt =====
-- The store of states in the database does what the store in memory does.
use reproforge.Base.{
  ℕ, String, Bool, true, false, ◌&&◌, ◌≡◌, refl, subst, ap, inl, inr, Option, none, some, List, [],
  ◌∷◌, ◌++◌, Outcome, ok, err, leb, Bool-cases, Option-cases, arith, eq_iff, if◌then◌else◌,
}
use reproforge.Github.Rows.{Principal, find_row, update_rows}
use reproforge.Github.InstallationState.Once.{Use, making, consuming}
use reproforge.Github.InstallationState.{
  StateRecord, StateError, Consumption, is_hashed, create_state, is_usable, used, consume_found,
  consume_state, is_state_row, insert_state, has_principal, is_consumption, is_consumable,
  update_found, update_state,
}

-- No two records have one digest, which is the key of the map and of the table.
unfoldable pub IsKeyed : List StateRecord → Type 0
IsKeyed [] = Unit
IsKeyed (r ∷ records) = (find_row (is_hashed r.state_hash) records ≡ none) × IsKeyed records

hashed_by : (hash : String) (r : StateRecord) → is_hashed hash r ≡ true → r.state_hash ≡ hash
hashed_by hash r h = (eq_iff r.state_hash hash).0 h

consumable-usable :
    (input : Consumption) (r : StateRecord)
    → is_consumable input r ≡ (is_hashed input.state_hash r && is_usable input r)
consumable-usable input r = ground arith

-- Where no record has the digest, none is found and none is written.
find_row-unknown :
    (input : Consumption) (records : List StateRecord)
    → find_row (is_hashed input.state_hash) records ≡ none
    → (find_row (is_consumable input) records ≡ none)
      × (update_rows (is_consumable input) (used input.at) records ≡ records)
      × (update_rows (is_hashed input.state_hash) (used input.at) records ≡ records)
unfolding find_row update_rows
find_row-unknown input [] f = (refl, refl, refl)
find_row-unknown input (r ∷ records) f = elim (Bool-cases (is_hashed input.state_hash r)) [
  | inl h ↦ absurd (ground arith)
  | inr h ↦
      let (a, b, c) = find_row-unknown input records (ground arith) in
      let n : is_consumable input r ≡ false = ground arith in
      (rw n a, rw n (ap (λ t. r ∷ t) b), rw h (ap (λ t. r ∷ t) c))
]

-- The only record with the digest is the one that both statements read and write.
find_row-known :
    (input : Consumption) (records : List StateRecord) (r : StateRecord)
    → IsKeyed records
    → find_row (is_hashed input.state_hash) records ≡ some r
    → (find_row (is_consumable input) records ≡ (if is_usable input r then some r else none))
      × (is_usable input r ≡ true
          → update_rows (is_consumable input) (used input.at) records
            ≡ update_rows (is_hashed input.state_hash) (used input.at) records)
unfolding find_row update_rows IsKeyed
find_row-known input [] r k f = absurd (ground arith)
find_row-known input (s ∷ records) r (alone, k) f =
    elim (Bool-cases (is_hashed input.state_hash s)) [
      | inl h ↦
          let here : s ≡ r = ground arith in
          let none_left =
            subst (λ x. find_row (is_hashed x) records ≡ none) (hashed_by input.state_hash s h)
              alone in
          let (a, b, c) = find_row-unknown input records none_left in
          subst
            (λ (x : StateRecord).
              (find_row (is_consumable input) (s ∷ records)
                ≡ (if is_usable input x then some x else none))
              × (is_usable input x ≡ true
                  → update_rows (is_consumable input) (used input.at) (s ∷ records)
                    ≡ update_rows (is_hashed input.state_hash) (used input.at) (s ∷ records)))
            here
            (
              ground (arith, a, consumable-usable input s),
              λ u. cc (b, c, u, h, consumable-usable input s),
            )
      | inr h ↦
          let (a, b) = find_row-known input records r k (ground arith) in
          let n : is_consumable input s ≡ false = ground arith in
          (rw n a, λ u. rw (n, h) (ap (λ t. s ∷ t) (b u)))
    ]

find_row-fresh :
    (hash : String) (records : List StateRecord) (r : StateRecord)
    → find_row (is_hashed hash) records ≡ none
    → is_hashed hash r ≡ false
    → find_row (is_hashed hash) (records ++ r ∷ []) ≡ none
unfolding find_row
find_row-fresh hash [] r f n = rw n refl
find_row-fresh hash (s ∷ records) r f n = elim (Bool-cases (is_hashed hash s)) [
  | inl h ↦ absurd (ground arith)
  | inr h ↦ rw h (find_row-fresh hash records r (ground arith) n)
]

append-IsKeyed :
    (records : List StateRecord) (r : StateRecord)
    → IsKeyed records
    → find_row (is_hashed r.state_hash) records ≡ none
    → IsKeyed (records ++ r ∷ [])
unfolding find_row IsKeyed
append-IsKeyed [] r k f = (refl, tt)
append-IsKeyed (s ∷ records) r (alone, k) f = elim (Bool-cases (is_hashed r.state_hash s)) [
  | inl h ↦ absurd (ground arith)
  | inr h ↦
      let other : is_hashed s.state_hash r ≡ false = ground (
        arith,
        eq_iff s.state_hash r.state_hash,
        eq_iff r.state_hash s.state_hash,
        eq_iff s.state_hash s.state_hash,
      ) in
      (find_row-fresh s.state_hash records r alone other, append-IsKeyed records r k (ground arith))
]

find_row-used :
    (hash : String) (wanted : StateRecord → Bool) (at : ℕ) (records : List StateRecord)
    → find_row (is_hashed hash) records ≡ none
    → find_row (is_hashed hash) (update_rows wanted (used at) records) ≡ none
unfolding find_row update_rows
find_row-used hash wanted at [] f = refl
find_row-used hash wanted at (s ∷ records) f =
    let rest = find_row-used hash wanted at records in
    elim (Bool-cases (is_hashed hash s)) [
      | inl h ↦ absurd (ground arith)
      | inr h ↦ elim (Bool-cases (wanted s)) [
        | inl w ↦ rw (w, h) (rest (ground arith))
        | inr w ↦ rw (w, h) (rest (ground arith))
      ]
    ]

update_rows-IsKeyed :
    (wanted : StateRecord → Bool) (at : ℕ) (records : List StateRecord)
    → IsKeyed records
    → IsKeyed (update_rows wanted (used at) records)
unfolding update_rows IsKeyed
update_rows-IsKeyed wanted at [] k = tt
update_rows-IsKeyed wanted at (s ∷ records) (alone, k) =
    let rest = update_rows-IsKeyed wanted at records k in
    let fresh = find_row-used s.state_hash wanted at records alone in
    elim (Bool-cases (wanted s)) [ inl w ↦ rw w (fresh, rest) | inr w ↦ rw w (fresh, rest) ]

-- What a caller of a store sees.
pub data Answer : Type 0 where
  refused stored : Answer
  answered : Option StateRecord → Answer

abbrev of_making :
    List StateRecord → Outcome StateError (List StateRecord) → Answer × List StateRecord
of_making records (ok more) = (stored, more)
of_making records (err e) = (refused, records)

abbrev of_consuming :
    List StateRecord
    → Outcome StateError (Option StateRecord × List StateRecord)
    → Answer × List StateRecord
of_consuming records (ok (o, more)) = (answered o, more)
of_consuming records (err e) = (refused, records)

unfoldable pub in_memory : Use → List StateRecord → Answer × List StateRecord
unfolding create_state consume_state
in_memory (making r) records = of_making records (create_state r records)
in_memory (consuming input) records = of_consuming records (ok (consume_state input records))

pub in_database : List Principal → Use → List StateRecord → Answer × List StateRecord
unfolding insert_state update_state
in_database principals (making r) records = of_making records (insert_state principals r records)
in_database principals (consuming input) records = of_consuming records (update_state input records)

-- The answers of a store to a sequence of uses, and what it holds then.
pub serve :
    (Use → List StateRecord → Answer × List StateRecord)
    → List Use
    → List StateRecord
    → List Answer × List StateRecord
serve store [] records = ([], records)
serve store (u ∷ us) records =
    let (answer, next) = store u records in
    let (answers, last) = serve store us next in (answer ∷ answers, last)

-- A record as the program makes it for a principal that the database knows, and a consumption that is not before its record was made.
unfoldable pub IsProper : List Principal → Use → List StateRecord → Type 0
unfolding is_state_row has_principal find_row
IsProper principals (making r) records =
    (is_state_row r ≡ true) × (has_principal principals r ≡ true) × (r.consumed_at ≡ none)
IsProper principals (consuming input) records =
    (is_consumption input ≡ true)
    × ((r : StateRecord)
        → find_row (is_hashed input.state_hash) records ≡ some r
        → leb r.created_at input.at ≡ true)

unfoldable pub AreProper : List Principal → List Use → List StateRecord → Type 0
unfolding IsProper in_memory
AreProper principals [] records = Unit
AreProper principals (u ∷ us) records =
    IsProper principals u records × AreProper principals us (in_memory u records).1

consume-agrees :
    (input : Consumption) (records : List StateRecord) (o : Option StateRecord)
    → IsKeyed records
    → find_row (is_hashed input.state_hash) records ≡ o
    → ((r : StateRecord) → o ≡ some r → leb r.created_at input.at ≡ true)
    → update_found input (find_row (is_consumable input) records) records
      ≡ ok (consume_found input o records)
unfolding update_found
consume-agrees input records none k f later =
    let (a, b, c) = find_row-unknown input records f in rw a refl
consume-agrees input records (some r) k f later =
    let (a, b) = find_row-known input records r k f in
    elim (Bool-cases (is_usable input r)) [
      | inl u ↦
          let t = later r refl in
          let found : find_row (is_consumable input) records ≡ some r = rw u at a in
          rw (found, t, u, b u) refl
      | inr u ↦
          let found : find_row (is_consumable input) records ≡ none = rw u at a in
          rw (found, u) refl
    ]

use-agrees :
    (principals : List Principal) (u : Use) (records : List StateRecord)
    → IsKeyed records
    → IsProper principals u records
    → in_database principals u records ≡ in_memory u records
unfolding in_database in_memory insert_state create_state update_state consume_state IsProper
use-agrees principals (making r) records k (valid, known, fresh) = ground arith
use-agrees principals (consuming input) records k (valid, later) =
    rw
      (
        valid,
        consume-agrees input records (find_row (is_hashed input.state_hash) records) k refl later,
      )
      refl

consume_found-IsKeyed :
    (input : Consumption) (o : Option StateRecord) (records : List StateRecord)
    → IsKeyed records
    → IsKeyed (consume_found input o records).1
consume_found-IsKeyed input none records k = k
consume_found-IsKeyed input (some r) records k = elim (Bool-cases (is_usable input r)) [
  | inl u ↦ rw u (update_rows-IsKeyed (is_hashed input.state_hash) input.at records k)
  | inr u ↦ rw u k
]

in_memory-IsKeyed :
    (u : Use) (records : List StateRecord) → IsKeyed records → IsKeyed (in_memory u records).1
unfolding in_memory create_state consume_state
in_memory-IsKeyed (making r) records k =
    elim (Option-cases (find_row (is_hashed r.state_hash) records)) [
      | inl f ↦ rw f (append-IsKeyed records r k f)
      | inr (s, f) ↦ rw f k
    ]
in_memory-IsKeyed (consuming input) records k =
    consume_found-IsKeyed input (find_row (is_hashed input.state_hash) records) records k

-- The two stores of installation states are one to a caller, while the principals that the database
-- holds stay the same: from records with distinct digests, any sequence of creations of well-formed
-- unused records for these principals and of well-formed consumptions, none of which is dated before
-- its record was made, has the same answers and leaves the same records in the database as in memory.
pub stores_agree :
    (principals : List Principal) (us : List Use) (records : List StateRecord)
    → IsKeyed records
    → AreProper principals us records
    → serve (in_database principals) us records ≡ serve in_memory us records
unfolding serve AreProper
stores_agree principals [] records k p = refl
stores_agree principals (u ∷ us) records k (now, rest) =
    let same = use-agrees principals u records k now in
    let later =
      stores_agree principals us (in_memory u records).1 (in_memory-IsKeyed u records k) rest in
    rw (same, later) refl
