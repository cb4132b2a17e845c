-- ===== src/Durable/Recover/Whole.antt =====
-- A recovery that stays below its limit leaves no expired lease that is not locked.
use reproforge.Base.{
  not, ◌&&◌, false, ℕ, ◌<◌, ◌≡◌, refl, sym, subst, ap, String, Bool, true, ◌⊎◌, inl, inr, some,
  List, [], ◌∷◌, ok, bind-ok, arith, length, take, All, Bool-cases, zero, suc,
}
use reproforge.Durable.Table.{Key, same_key, Table, find}
use reproforge.Durable.Rows.{JobRow, Database}
use reproforge.Durable.Effects.{same_key_refl, same_key-eq}
use reproforge.Durable.Recover.{
  RecoverySummary, lease_of_row, is_expired, expired_rows, row_before, insert_row, order_rows,
  recover_lease, recover_all,
}
use reproforge.Durable.Recover.Rows.{
  Recovered, Recovered-apart, recover_lease-row, put-treated, AllExpired, recover_all-rows,
}

module _ {A : Type 0} where
  -- The element stands in the list.
  abbrev pub Among : A → List A → Type 0
  Among x [] = ⊥
  Among x (y ∷ ys) = (x ≡ y) ⊎ Among x ys

  pub take-short : (n : ℕ) (xs : List A) → length (take n xs) < n → take n xs ≡ xs
  unfolding take
  take-short zero xs b = absurd (omega (arith, b))
  take-short (suc n) [] b = refl
  take-short (suc n) (x ∷ xs) b = ap (λ t. x ∷ t) (take-short n xs (omega (arith, b)))

  pub All-take : (P : A → Type 0) (n : ℕ) (xs : List A) → All P xs → All P (take n xs)
  unfolding take
  All-take P zero xs a = tt
  All-take P (suc n) [] a = tt
  All-take P (suc n) (x ∷ xs) (p, a) = (p, All-take P n xs a)

module _ (locked : Key → Bool) (at : ℕ) where
  pub expired_rows-AllExpired : (t : Table JobRow) → AllExpired at (expired_rows locked at t)
  unfolding expired_rows
  expired_rows-AllExpired [] = tt
  expired_rows-AllExpired ((k, j) ∷ t) = elim (Bool-cases (is_expired at j && not (locked k))) [
    | inl x ↦ rw x (ground arith, expired_rows-AllExpired t)
    | inr n ↦ rw n (expired_rows-AllExpired t)
  ]

  pub expired_rows-Among :
      (k : Key) (j : JobRow) (t : Table JobRow)
      → find k t ≡ some j
      → is_expired at j ≡ true
      → locked k ≡ false
      → Among (k, j) (expired_rows locked at t)
  unfolding expired_rows find
  expired_rows-Among k j [] f x u = absurd (ground arith)
  expired_rows-Among k j ((i, r) ∷ t) f x u = elim (Bool-cases (same_key i k)) [
    | inl s ↦
        let key = same_key-eq i k s in
        let this : r ≡ j = ground arith in
        let met : is_expired at r ≡ true = subst (λ y. is_expired at y ≡ true) (sym this) x in
        let free : locked i ≡ false = subst (λ y. locked y ≡ false) (sym key) u in
        rw (met, free) (inl (λ n. (sym key n, sym this n)))
    | inr n ↦
        let rest = expired_rows-Among k j t (ground arith) x u in
        elim (Bool-cases (is_expired at r && not (locked i))) [
          | inl y ↦ rw y (inr rest)
          | inr z ↦ rw z rest
        ]
  ]

module _ (text_before : String → String → Bool) where
  insert_row-AllExpired :
      (at : ℕ) (r : Key × JobRow) (t : Table JobRow)
      → is_expired at r.1 ≡ true
      → AllExpired at t
      → AllExpired at (insert_row text_before r t)
  unfolding insert_row
  insert_row-AllExpired at r [] x a = (x, tt)
  insert_row-AllExpired at r (s ∷ t) x (y, a) = elim (Bool-cases (row_before text_before r s)) [
    | inl b ↦ rw b (x, (y, a))
    | inr n ↦ rw n (y, insert_row-AllExpired at r t x a)
  ]

  pub order_rows-AllExpired :
      (at : ℕ) (t : Table JobRow) → AllExpired at t → AllExpired at (order_rows text_before t)
  unfolding order_rows
  order_rows-AllExpired at [] a = tt
  order_rows-AllExpired at (r ∷ t) (x, a) =
      insert_row-AllExpired at r (order_rows text_before t) x (order_rows-AllExpired at t a)

  insert_row-Among :
      (q r : Key × JobRow) (t : Table JobRow)
      → (q ≡ r) ⊎ Among q t
      → Among q (insert_row text_before r t)
  unfolding insert_row
  insert_row-Among q r [] m = m
  insert_row-Among q r (s ∷ t) m = elim (Bool-cases (row_before text_before r s)) [
    | inl b ↦ rw b m
    | inr n ↦ rw n (elim m [
      | inl e ↦ inr (insert_row-Among q r t (inl e))
      | inr (inl e) ↦ inl e
      | inr (inr a) ↦ inr (insert_row-Among q r t (inr a))
    ])
  ]

  pub order_rows-Among :
      (q : Key × JobRow) (t : Table JobRow) → Among q t → Among q (order_rows text_before t)
  unfolding order_rows
  order_rows-Among q [] m = m
  order_rows-Among q (r ∷ t) (inl e) = insert_row-Among q r (order_rows text_before t) (inl e)
  order_rows-Among q (r ∷ t) (inr m) =
      insert_row-Among q r (order_rows text_before t) (inr (order_rows-Among q t m))

module _ (looks_secret : String → Bool) where
  -- A row that the recovery read is recovered.
  pub recover_all-recovers :
      (at : ℕ) (t : Table JobRow) (s s' : RecoverySummary) (db db' : Database)
      → AllExpired at t
      → recover_all looks_secret at t s db ≡ ok (s', db')
      → (k : Key) (h j : JobRow) → Among (k, h) t
      → find k db.jobs ≡ some j
      → (j' : JobRow) × (find k db'.jobs ≡ some j') × Recovered looks_secret at j j'
  unfolding recover_all
  recover_all-recovers at [] s s' db db' x e k h j m f = absurd m
  recover_all-recovers at ((i, r) ∷ t) s s' db db' (x, xs) e k h j m f =
      let ((s₁, mid), p, e₁) =
        bind-ok (recover_lease looks_secret at (lease_of_row i r) s db) _ e in
      let (old, new, g, w, rec) =
        recover_lease-row looks_secret at i r (lease_of_row i r) s s₁ db mid x refl p in
      elim (put-treated looks_secret at k i j old new db mid g w rec f) [
        | inl (_, found, done) ↦
            let (j', found', either) =
              recover_all-rows looks_secret at t s₁ s' mid db' xs e₁ k new found in
            elim either [
              | inl same ↦ (j', found', subst (λ y. Recovered looks_secret at j y) (sym same) done)
              | inr twice ↦ absurd (Recovered-apart looks_secret at j new j' done twice)
            ]
        | inr (other, found) ↦ elim m [
          | inl here ↦
              let key : k ≡ i = ap (λ (y : Key × JobRow). y.0) here in
              absurd (cc (other, same_key_refl i, key))
          | inr there ↦ recover_all-recovers at t s₁ s' mid db' xs e₁ k h j there found
        ]
      ]
