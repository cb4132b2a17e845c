-- ===== src/Github/Status.antt =====
-- What one webhook does to the status of an installation.
use reproforge.Base.{
  ℕ, String, Bool, true, ◌≡◌, refl, sym, subst, ◌⊎◌, inl, inr, Option, none, some, List, [], ◌∷◌,
  ok, bind-ok, require, Bool-cases, arith, eq_iff, ◌==◌, ◌&&◌,
}
use reproforge.Durable.Rows.{AuditEvent}
use reproforge.Github.Authorization.{AuthorizationStatus, AuthorizationState, reduce_authorization}
use reproforge.Github.Schemas.{Installation, InstallationPayload, RepositoryPayload}
use reproforge.Github.Rows.{
  InstallationRow, Tables, snapshot_mismatch, find_row, is_active, is_removed_status,
  is_installation_at, is_repository_of, update_installations, update_repositories, update_rows,
}
use reproforge.Github.Webhooks.{
  desired_status, same_state, installation_state, with_installation_state, removed_repository,
  remove_repositories_if, apply_state, apply_desired, apply_installation_webhook,
}
use reproforge.Github.Reconcile.{
  remove_listed, with_snapshot, apply_listed, apply_repository_webhook,
}
use reproforge.Github.Effects.{
  find_row-update_rows, update_repositories-installations, upsert_repositories-installations,
  remove_listed-installations, add_listed-installations,
}

abbrev pub reported_state :
    InstallationPayload → AuthorizationStatus → InstallationRow → AuthorizationState
reported_state p status r =
    reduce_authorization (installation_state r) (record { at = p.updated_at; status = status })

module _ {ℓ} {A : Type ℓ} where
  pub find_row-met : (q : A → Bool) (rows : List A) (r : A) → find_row q rows ≡ some r → q r ≡ true
  unfolding find_row
  find_row-met q [] r f = absurd (ground arith)
  find_row-met q (s ∷ rows) r f = elim (Bool-cases (q s)) [
    | inl here ↦ ground arith
    | inr there ↦ find_row-met q rows r (ground arith)
  ]

update_installations-rows :
    (wanted : InstallationRow → Bool) (change : InstallationRow → InstallationRow) (t t' : Tables)
    → update_installations wanted change t ≡ ok t'
    → t'.installations ≡ update_rows wanted change t.installations
unfolding update_installations
update_installations-rows wanted change t t' e = ground arith

remove_repositories_if-installations :
    (gone : Bool) (tenant_id : String) (id at : ℕ) (t t' : Tables)
    → remove_repositories_if gone tenant_id id at t ≡ ok t'
    → t'.installations ≡ t.installations
unfolding remove_repositories_if update_repositories
remove_repositories_if-installations gone tenant_id id at t t' e = ground arith

-- The row of one installation of one tenant, before a webhook is taken.
module _ (tenant_id : String) (id : ℕ) (r : InstallationRow) where
  -- The row is there after it too, with the status that `Moved` relates to the earlier one.
  abbrev pub Leads {κ} : (InstallationRow → Type κ) → Tables → Type κ
  Leads Moved t' =
      (r' : InstallationRow) × (find_row (is_installation_at tenant_id id) t'.installations
        ≡ some r')
      × Moved r'

  pub data Move : Option InstallationPayload → InstallationRow → Type 0 where
    kept :
        (o : Option InstallationPayload) (r' : InstallationRow) → r'.status ≡ r.status → Move o r'
    reported :
        (p : InstallationPayload) (s : AuthorizationStatus) (r' : InstallationRow)
        → p.installation_id ≡ id
        → desired_status p ≡ some s
        → installation_state r' ≡ reported_state p s r
        → Move (some p) r'

  update_found :
      (wanted : InstallationRow → Bool) (change : InstallationRow → InstallationRow) (t t' : Tables)
      → ((x : InstallationRow)
          → is_installation_at tenant_id id (change x) ≡ is_installation_at tenant_id id x)
      → find_row (is_installation_at tenant_id id) t.installations ≡ some r
      → update_installations wanted change t ≡ ok t'
      → Leads (λ r'. (r' ≡ r) ⊎ ((wanted r ≡ true) × (r' ≡ change r))) t'
  update_found wanted change t t' same f e =
      subst
        (λ rows.
          (r' : InstallationRow) × (find_row (is_installation_at tenant_id id) rows ≡ some r')
          × ((r' ≡ r) ⊎ ((wanted r ≡ true) × (r' ≡ change r))))
        (sym (update_installations-rows wanted change t t' e))
        (find_row-update_rows (is_installation_at tenant_id id) wanted change same t.installations r
          f)

  apply_state-moves :
      (audit_id owner : String) (p : InstallationPayload) (current next : AuthorizationState)
      (at : ℕ) (t t' : Tables) (event : Option AuditEvent)
      → find_row (is_installation_at tenant_id id) t.installations ≡ some r
      → apply_state audit_id owner p current next at t ≡ ok (event, t')
      → Leads
          (λ r'.
            (r' ≡ r)
            ⊎ ((is_installation_at owner p.installation_id r ≡ true)
                × (r' ≡ with_installation_state next at r)))
          t'
  unfolding apply_state
  apply_state-moves audit_id owner p current next at t t' event f e =
      elim (Bool-cases (same_state next current)) [
        | inl same ↦ (r, ground arith, inl refl)
        | inr other ↦
            let (written, e₁, e₂) =
              bind-ok
                (update_installations (is_installation_at owner p.installation_id)
                  (with_installation_state next at) t)
                _ (rw other at e) in
            let (cleared, e₃, e₄) =
              bind-ok
                (remove_repositories_if (is_removed_status next.status) owner p.installation_id at
                  written)
                _ e₂ in
            let (r', g, m) =
              update_found (is_installation_at owner p.installation_id)
                (with_installation_state next at) t written (λ x. refl) f e₁ in
            (
              r',
              ground (
                arith,
                remove_repositories_if-installations (is_removed_status next.status) owner
                    p.installation_id at written cleared e₃,
              ),
              m,
            )
      ]

  same_id :
      (owner : String) (other_id : ℕ) (t : Tables)
      → find_row (is_installation_at tenant_id id) t.installations ≡ some r
      → is_installation_at owner other_id r ≡ true
      → other_id ≡ id
  same_id owner other_id t f w =
      let met : is_installation_at tenant_id id r ≡ true =
        find_row-met (is_installation_at tenant_id id) t.installations r f in
      ground arith

  -- A row that the query of a webhook meets is the row of the installation.
  same_row :
      (owner : String) (other_id : ℕ) (t : Tables) (row : InstallationRow)
      → find_row (is_installation_at tenant_id id) t.installations ≡ some r
      → find_row (is_installation_at owner other_id) t.installations ≡ some row
      → is_installation_at owner other_id r ≡ true
      → row ≡ r
  same_row owner other_id t row f g w =
      let met : is_installation_at tenant_id id r ≡ true =
        find_row-met (is_installation_at tenant_id id) t.installations r f in
      let owner_eq : owner ≡ tenant_id =
        ground (arith, eq_iff r.tenant_id owner, eq_iff r.tenant_id tenant_id) in
      let id_eq = same_id owner other_id t f w in
      let g' : find_row (is_installation_at tenant_id id) t.installations ≡ some row =
        subst (λ (x : ℕ). find_row (is_installation_at tenant_id x) t.installations ≡ some row)
          id_eq
          (subst
            (λ (x : String). find_row (is_installation_at x other_id) t.installations ≡ some row)
            owner_eq g) in
      ground arith

  apply_desired-moves :
      (audit_id owner : String) (p : InstallationPayload) (at : ℕ) (t t' : Tables)
      (event : Option AuditEvent) (s : Option AuthorizationStatus) (o : Option InstallationRow)
      → desired_status p ≡ s
      → find_row (is_installation_at owner p.installation_id) t.installations ≡ o
      → find_row (is_installation_at tenant_id id) t.installations ≡ some r
      → apply_desired audit_id owner p at t s o ≡ ok (event, t')
      → Leads (Move (some p)) t'
  unfolding apply_desired
  apply_desired-moves audit_id owner p at t t' event none o d g f e =
      (r, ground arith, kept (some p) r refl)
  apply_desired-moves audit_id owner p at t t' event (some s) none d g f e =
      (r, ground arith, kept (some p) r refl)
  apply_desired-moves audit_id owner p at t t' event (some s) (some row) d g f e =
      let (r', h, m) =
        apply_state-moves audit_id owner p (installation_state row) (reported_state p s row) at t t'
          event f e in
      (
        r',
        h,
        elim m [
          | inl same ↦ kept (some p) r' (ground arith)
          | inr (w, written) ↦
              let row_eq : row ≡ r = same_row owner p.installation_id t row f g w in
              reported p s r' (same_id owner p.installation_id t f w) d (
                subst (λ (x : InstallationRow). installation_state r' ≡ reported_state p s x) row_eq
                  (cc (written)))
        ],
      )

  pub apply_installation_webhook-moves :
      (audit_id owner : String) (p : InstallationPayload) (at : ℕ) (t t' : Tables)
      (event : Option AuditEvent)
      → find_row (is_installation_at tenant_id id) t.installations ≡ some r
      → apply_installation_webhook audit_id owner p at t ≡ ok (event, t')
      → Leads (Move (some p)) t'
  unfolding apply_installation_webhook
  apply_installation_webhook-moves audit_id owner p at t t' event f e =
      apply_desired-moves audit_id owner p at t t' event (desired_status p)
        (find_row (is_installation_at owner p.installation_id) t.installations) refl refl f e

  -- A snapshot of the installation changes the rest of the row, never its status.
  apply_listed-keeps :
      (new_id : ℕ → String) (owner : String) (p : RepositoryPayload) (at now : ℕ)
      (o : Option Installation) (t t' : Tables)
      → find_row (is_installation_at tenant_id id) t.installations ≡ some r
      → apply_listed new_id owner p at now o t ≡ ok t'
      → Leads (λ r'. r'.status ≡ r.status) t'
  unfolding apply_listed
  apply_listed-keeps new_id owner p at now none t t' f e =
      let (mid, e₁, e₂) =
        bind-ok (remove_listed new_id owner p at now p.repositories_removed t) _ e in
      (
        r,
        ground (
          arith,
          remove_listed-installations new_id owner p at now p.repositories_removed t mid e₁,
          add_listed-installations new_id owner p at now p.repositories_added mid t' e₂,
        ),
        refl,
      )
  apply_listed-keeps new_id owner p at now (some i) t t' f e =
      let (_, _, e₁) =
        bind-ok (require (i.installation_id == p.installation_id) snapshot_mismatch) _ e in
      let (written, e₂, e₃) =
        bind-ok
          (update_installations (is_installation_at owner i.installation_id) (with_snapshot i at) t)
          _ e₁ in
      let (cleared, e₄, e₅) =
        bind-ok
          (update_repositories
            (λ x. is_repository_of owner i.installation_id x && is_active x.status)
            (removed_repository at) written)
          _ e₃ in
      let (r', g, m) =
        update_found (is_installation_at owner i.installation_id) (with_snapshot i at) t written
          (λ x. refl) f e₂ in
      (
        r',
        ground (
          arith,
          update_repositories-installations
              (λ x. is_repository_of owner i.installation_id x && is_active x.status)
              (removed_repository at) written cleared e₄,
          upsert_repositories-installations new_id owner i.installation_id i.provider_updated_at now
              i.repositories cleared t' e₅,
        ),
        elim m [ inl same ↦ ground arith | inr (w, written_row) ↦ ground arith ],
      )

  pub apply_repository_webhook-keeps :
      (new_id : ℕ → String) (audit_id owner : String) (p : RepositoryPayload) (at now : ℕ)
      (o : Option Installation) (t t' : Tables) (event : AuditEvent)
      → find_row (is_installation_at tenant_id id) t.installations ≡ some r
      → apply_repository_webhook new_id audit_id owner p at now o t ≡ ok (event, t')
      → Leads (λ r'. r'.status ≡ r.status) t'
  unfolding apply_repository_webhook
  apply_repository_webhook-keeps new_id audit_id owner p at now o t t' event f e =
      let (mid, e₁, e₂) = bind-ok (apply_listed new_id owner p at now o t) _ e in
      let (r', g, m) = apply_listed-keeps new_id owner p at now o t mid f e₁ in
      (r', ground arith, m)
