-- ===== src/Durable/Table.antt =====
-- A table with a primary key of two texts: the tenant and the row's identifier. There is at most
-- one row to a key, as the key constraint of the database has it.
use reproforge.Base.{
  ◌≡◌, refl, String, Bool, ◌&&◌, Option, none, some, List, [], ◌∷◌, arith, eq_iff, ◌===◌,
  if◌then◌else◌,
}

pub record Key : Type 0 where
  pub tenant : String
  pub id : String

abbrev pub same_key : Key → Key → Bool
same_key a b = a.tenant === b.tenant && a.id === b.id

abbrev pub Table {ℓ} : Type ℓ → Type ℓ
Table R = List (Key × R)

module _ {ℓ} {R : Type ℓ} where
  unfoldable pub find : Key → Table R → Option R
  find k [] = none
  find k ((j, r) ∷ t) = if same_key j k then some r else find k t

  -- Writes the row of a key, or inserts it.
  unfoldable pub put : Key → R → Table R → Table R
  put k r [] = (k, r) ∷ []
  put k r ((j, s) ∷ t) = if same_key j k then (k, r) ∷ t else (j, s) ∷ put k r t

  pub find-put :
      (k j : Key) (r : R) (t : Table R)
      → find j (put k r t) ≡ (if same_key k j then some r else find j t)
  unfolding find put
  find-put k j r [] = refl
  find-put k j r ((i, s) ∷ t) = ground (
    arith,
    find-put k j r t,
    eq_iff k.tenant j.tenant,
    eq_iff k.id j.id,
    eq_iff i.tenant k.tenant,
    eq_iff i.id k.id,
    eq_iff i.tenant j.tenant,
    eq_iff i.id j.id,
  )
