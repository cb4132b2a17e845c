-- ===== src/Github/Effects.antt =====
-- The statements on repositories and audit events leave the installations as they are.
use reproforge.Base.{
  ℕ, String, Bool, true, ◌≡◌, ◌∙◌, ◌⊎◌, inl, inr, Option, none, some, List, [], ◌∷◌, ok, bind-ok,
  require, Bool-cases, arith,
}
use reproforge.Durable.Records.{is_opaque_id}
use reproforge.Durable.Rows.{AuditEvent}
use reproforge.Github.Schemas.{Repository, AddedRepository, RepositoryPayload}
use reproforge.Github.Authorization.{active, AuthorizationState, reduce_authorization}
use reproforge.Github.Webhooks.{repository_state}
use reproforge.Github.Rows.{
  RepositoryRow, Tables, rejected, find_row, is_repository_at, update_repositories,
  insert_repository, record_audit, update_rows,
}
use reproforge.Github.Repositories.{
  fresh_id, write_repository, upsert_found, upsert_repository, upsert_repositories,
  RepositoryTransition, start_repository, move_repository, transition_found,
  apply_repository_transition,
}
use reproforge.Github.Reconcile.{
  transition_of, complete_entry, remove_listed, add_entry, add_listed,
}

module _ {ℓ} {A : Type ℓ} (q : A → Bool) (wanted : A → Bool) (change : A → A)
    (same : (r : A) → q (change r) ≡ q r) where
  -- An update that keeps what a SELECT asks of a row meets the same row.
  pub find_row-update_rows :
      (rows : List A) (r : A)
      → find_row q rows ≡ some r
      → (r' : A) × (find_row q (update_rows wanted change rows) ≡ some r')
        × ((r' ≡ r) ⊎ ((wanted r ≡ true) × (r' ≡ change r)))
  unfolding find_row update_rows
  find_row-update_rows [] r f = absurd (ground arith)
  find_row-update_rows (s ∷ rows) r f = elim (Bool-cases (q s)) [
    | inl here ↦ elim (Bool-cases (wanted s)) [
      | inl w ↦ (change s, ground (arith, same s), inr (ground arith, ground arith))
      | inr n ↦ (s, ground arith, inl (ground arith))
    ]
    | inr there ↦
        let (r', g, d) = find_row-update_rows rows r (ground arith) in
        (r', ground (arith, same s), d)
  ]

  -- The row that the SELECT meets is written if the update wants it.
  pub find_row-update_rows_met :
      (rows : List A) (r : A)
      → find_row q rows ≡ some r
      → wanted r ≡ true
      → find_row q (update_rows wanted change rows) ≡ some (change r)
  unfolding find_row update_rows
  find_row-update_rows_met [] r f w = absurd (ground arith)
  find_row-update_rows_met (s ∷ rows) r f w = elim (Bool-cases (q s)) [
    | inl here ↦ ground (arith, same s)
    | inr there ↦ ground (arith, same s, find_row-update_rows_met rows r)
  ]

pub update_repositories-installations :
    (wanted : RepositoryRow → Bool) (change : RepositoryRow → RepositoryRow) (t t' : Tables)
    → update_repositories wanted change t ≡ ok t'
    → t'.installations ≡ t.installations
unfolding update_repositories
update_repositories-installations wanted change t t' e = ground arith

pub record_audit-installations :
    (event : AuditEvent) (t t' : Tables)
    → record_audit event t ≡ ok t'
    → t'.installations ≡ t.installations
unfolding record_audit
record_audit-installations event t t' e = ground arith

write_repository-installations :
    (tenant_id id : String) (i : ℕ) (r : Repository) (updated : Option ℕ) (now : ℕ)
    (o : Option RepositoryRow) (t t' : Tables)
    → write_repository tenant_id id i r updated now o t ≡ ok t'
    → t'.installations ≡ t.installations
unfolding write_repository insert_repository update_repositories
write_repository-installations tenant_id id i r updated now none t t' e = ground arith
write_repository-installations tenant_id id i r updated now (some row) t t' e = ground arith

move_repository-installations :
    (input : RepositoryTransition) (r : Option Repository) (current next : AuthorizationState)
    (t t' : Tables)
    → move_repository input r current next t ≡ ok t'
    → t'.installations ≡ t.installations
unfolding move_repository update_repositories
move_repository-installations input r current next t t' e = ground arith

module _ (new_id : ℕ → String) where
  upsert_found-installations :
      (tenant_id : String) (i : ℕ) (r : Repository) (updated : Option ℕ) (now : ℕ)
      (o : Option RepositoryRow) (t t' : Tables)
      → upsert_found new_id tenant_id i r updated now o t ≡ ok t'
      → t'.installations ≡ t.installations
  unfolding upsert_found
  upsert_found-installations tenant_id i r updated now o t t' e =
      let (_, _, written) =
        bind-ok (require (is_opaque_id (fresh_id new_id r.repository_id o)) rejected) _ e in
      write_repository-installations tenant_id (fresh_id new_id r.repository_id o) i r updated now o
        t t' written

  upsert_repository-installations :
      (tenant_id : String) (i : ℕ) (updated : Option ℕ) (now : ℕ) (r : Repository) (t t' : Tables)
      → upsert_repository new_id tenant_id i updated now r t ≡ ok t'
      → t'.installations ≡ t.installations
  unfolding upsert_repository
  upsert_repository-installations tenant_id i updated now r t t' e =
      upsert_found-installations tenant_id i r updated now
        (find_row (is_repository_at tenant_id i r.repository_id) t.repositories) t t' e

  pub upsert_repositories-installations :
      (tenant_id : String) (i : ℕ) (updated : Option ℕ) (now : ℕ) (rs : List Repository)
      (t t' : Tables)
      → upsert_repositories new_id tenant_id i updated now rs t ≡ ok t'
      → t'.installations ≡ t.installations
  unfolding upsert_repositories
  upsert_repositories-installations tenant_id i updated now [] t t' e = ground arith
  upsert_repositories-installations tenant_id i updated now (r ∷ rs) t t' e =
      let (mid, first, rest) = bind-ok (upsert_repository new_id tenant_id i updated now r t) _ e in
      upsert_repositories-installations tenant_id i updated now rs mid t' rest
      ∙ upsert_repository-installations tenant_id i updated now r t mid first

  start_repository-installations :
      (input : RepositoryTransition) (now : ℕ) (r : Option Repository) (t t' : Tables)
      → start_repository new_id input now r t ≡ ok t'
      → t'.installations ≡ t.installations
  unfolding start_repository insert_repository
  start_repository-installations input now none t t' e = ground arith
  start_repository-installations input now (some r) t t' e = ground arith

  transition_found-installations :
      (input : RepositoryTransition) (now : ℕ) (r : Option Repository) (o : Option RepositoryRow)
      (t t' : Tables)
      → transition_found new_id input now r o t ≡ ok t'
      → t'.installations ≡ t.installations
  unfolding transition_found
  transition_found-installations input now r none t t' e =
      start_repository-installations input now r t t' e
  transition_found-installations input now r (some row) t t' e =
      move_repository-installations input r (repository_state row)
        (reduce_authorization (repository_state row)
          (record { at = input.provider_updated_at; status = input.status }))
        t t' e

  pub apply_repository_transition-installations :
      (input : RepositoryTransition) (now : ℕ) (r : Option Repository) (t t' : Tables)
      → apply_repository_transition new_id input now r t ≡ ok t'
      → t'.installations ≡ t.installations
  unfolding apply_repository_transition
  apply_repository_transition-installations input now r t t' e =
      transition_found-installations input now r
        (find_row
          (is_repository_at input.tenant_id input.installation_id input.provider_repository_id)
          t.repositories)
        t t' e

  pub remove_listed-installations :
      (tenant_id : String) (p : RepositoryPayload) (at now : ℕ) (ids : List ℕ) (t t' : Tables)
      → remove_listed new_id tenant_id p at now ids t ≡ ok t'
      → t'.installations ≡ t.installations
  unfolding remove_listed
  remove_listed-installations tenant_id p at now [] t t' e = ground arith
  remove_listed-installations tenant_id p at now (id ∷ ids) t t' e =
      let (mid, first, rest) =
        bind-ok (apply_repository_transition new_id (transition_of tenant_id p at id) now none t) _
          e in
      remove_listed-installations tenant_id p at now ids mid t' rest
      ∙ apply_repository_transition-installations (transition_of tenant_id p at id) now none t mid
          first

  add_entry-installations :
      (tenant_id : String) (p : RepositoryPayload) (at now id : ℕ) (r : Option Repository)
      (t t' : Tables)
      → add_entry new_id tenant_id p at now id r t ≡ ok t'
      → t'.installations ≡ t.installations
  unfolding add_entry
  add_entry-installations tenant_id p at now id none t t' e = ground arith
  add_entry-installations tenant_id p at now id (some r) t t' e =
      apply_repository_transition-installations
        (record (transition_of tenant_id p at id) { status = active }) now (some r) t t' e

  pub add_listed-installations :
      (tenant_id : String) (p : RepositoryPayload) (at now : ℕ) (es : List AddedRepository)
      (t t' : Tables)
      → add_listed new_id tenant_id p at now es t ≡ ok t'
      → t'.installations ≡ t.installations
  unfolding add_listed
  add_listed-installations tenant_id p at now [] t t' e = ground arith
  add_listed-installations tenant_id p at now (x ∷ es) t t' e =
      let r = complete_entry x.id x.default_branch x.full_name x.is_private in
      let (mid, first, rest) = bind-ok (add_entry new_id tenant_id p at now x.id r t) _ e in
      add_listed-installations tenant_id p at now es mid t' rest
      ∙ add_entry-installations tenant_id p at now x.id r t mid first
