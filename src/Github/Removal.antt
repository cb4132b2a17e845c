-- ===== src/Github/Removal.antt =====
-- What webhooks can do to an installation: a removal is final, and only an exact grant makes an
-- installation active.
use reproforge.Base.{
  ℕ, String, true, false, ◌≡◌, refl, sym, ◌∙◌, subst, ap, Option, none, some, List, [], ◌∷◌,
  Outcome, ok, err, bind-ok, require, arith, eq_iff, ◌===◌, ◌||◌,
}
use reproforge.Durable.Records.{is_opaque_id}
use reproforge.Github.Authorization.{
  AuthorizationStatus, active, removed, AuthorizationState, is_later_than, reduce_authorization,
}
use reproforge.Github.Schemas.{Installation, InstallationPayload, is_exact}
use reproforge.Github.Rows.{
  InstallationRow, RepositoryRow, Tables, GithubError, rejected, find_row, is_active,
  is_installation_at,
}
use reproforge.Github.Webhooks.{desired_status, installation_state}
use reproforge.Github.Store.{
  Payload, on_installation, on_repositories, other, Envelope, Ambient, as_parsed, Receipt,
  process_webhook,
}
use reproforge.Github.Status.{find_row-met, Leads, Move, kept, reported, reported_state}
use reproforge.Github.Taken.{report_of, process_webhook-moves}
use reproforge.Github.Views.{
  RepositoryAuthorization, joined_status, is_repository_named, read_installation,
  repository_from_row, read_repository, find_repository,
}

-- A webhook as it arrives.
pub record Arrival : Type 0 where
  pub ambient : Ambient
  pub envelope : Envelope
  pub snapshot : Option Installation

-- A transaction that throws leaves the tables as they were.
abbrev committed : Tables → Outcome GithubError (Receipt × Tables) → Tables
committed t (ok (x, t')) = t'
committed t (err e) = t

unfoldable pub after_webhooks : List Arrival → Tables → Tables
unfolding process_webhook
after_webhooks [] t = t
after_webhooks (w ∷ ws) t =
    after_webhooks ws (committed t (process_webhook w.ambient w.envelope w.snapshot t))

reduce-removed :
    (s : AuthorizationState) (at : ℕ) (status : AuthorizationStatus)
    → s.status ≡ removed
    → (reduce_authorization s (record { at = at; status = status })).status ≡ removed
unfolding reduce_authorization
reduce-removed s at status e = ground arith

reduce-active :
    (s : AuthorizationState) (at : ℕ) (status : AuthorizationStatus)
    → is_active s.status ≡ false
    → is_active (reduce_authorization s (record { at = at; status = status })).status ≡ true
    → (status ≡ active) × (is_later_than at s.provider_updated_at ≡ true)
unfolding reduce_authorization
reduce-active s at status e h = ground arith

desired_status-active :
    (p : InstallationPayload)
    → desired_status p ≡ some active
    → (is_exact p.permissions ≡ true)
      × ((p.action === "unsuspended" || p.action === "new_permissions_accepted") ≡ true)
unfolding desired_status
desired_status-active p e = ground arith

as_parsed-same :
    (x : Payload) (p : InstallationPayload)
    → report_of (as_parsed x) ≡ some p
    → x ≡ on_installation p
unfolding as_parsed
as_parsed-same (on_installation q) p e = ground arith
as_parsed-same (on_repositories q) p e = ground arith
as_parsed-same other p e = cc

repository_from_row-fields :
    (i : InstallationRow) (row : RepositoryRow) (a : RepositoryAuthorization)
    → repository_from_row i row ≡ ok a
    → (a.status ≡ joined_status i row) × (a.installation_id ≡ row.installation_id)
unfolding repository_from_row
repository_from_row-fields i row a e = ground arith

joined_status-removed :
    (i : InstallationRow) (row : RepositoryRow) → i.status ≡ removed → joined_status i row ≡ removed
unfolding joined_status
joined_status-removed i row e = ground arith

-- The payload grants the three permissions exactly, asks for activation, and is later than what
-- the row holds.
abbrev pub Grant : Payload → ℕ → InstallationRow → Type 0
Grant x id r =
    (p : InstallationPayload) × (x ≡ on_installation p)
    × (p.installation_id ≡ id)
    × (is_exact p.permissions ≡ true)
    × ((p.action === "unsuspended" || p.action === "new_permissions_accepted") ≡ true)
    × (is_later_than p.updated_at r.provider_updated_at ≡ true)

module _ (tenant_id : String) (id : ℕ) where
  Move-removed :
      (o : Option InstallationPayload) (r r' : InstallationRow)
      → Move tenant_id id r o r'
      → r.status ≡ removed
      → r'.status ≡ removed
  Move-removed _ r r' (kept _ _ same) gone = same ∙ gone
  Move-removed _ r r' (reported p s _ _ d e) gone =
      ap (λ x. x.status) e ∙ reduce-removed (installation_state r) p.updated_at s gone

  committed-removed :
      (w : Arrival) (t : Tables) (r : InstallationRow) (o : Outcome GithubError (Receipt × Tables))
      → process_webhook w.ambient w.envelope w.snapshot t ≡ o
      → find_row (is_installation_at tenant_id id) t.installations ≡ some r
      → r.status ≡ removed
      → Leads tenant_id id r (λ r'. r'.status ≡ removed) (committed t o)
  committed-removed w t r (err e) p f gone = (r, f, gone)
  committed-removed w t r (ok (x, t')) p f gone =
      let (r', g, m) =
        process_webhook-moves tenant_id id r w.ambient w.envelope w.snapshot t t' x f p in
      (r', g, Move-removed (report_of (as_parsed w.envelope.payload)) r r' m gone)

  after_webhooks-removed :
      (ws : List Arrival) (t : Tables) (r : InstallationRow)
      → find_row (is_installation_at tenant_id id) t.installations ≡ some r
      → r.status ≡ removed
      → Leads tenant_id id r (λ r'. r'.status ≡ removed) (after_webhooks ws t)
  unfolding after_webhooks
  after_webhooks-removed [] t r f gone = (r, f, gone)
  after_webhooks-removed (w ∷ ws) t r f gone =
      let result = process_webhook w.ambient w.envelope w.snapshot t in
      let (r', g, still) = committed-removed w t r result refl f gone in
      after_webhooks-removed ws (committed t result) r' g still

  read_installation-joined :
      (t : Tables) (i : InstallationRow) (row : RepositoryRow) (a : RepositoryAuthorization)
      (o : Option InstallationRow)
      → find_row (is_installation_at row.tenant_id row.installation_id) t.installations ≡ o
      → find_row (is_installation_at tenant_id id) t.installations ≡ some i
      → read_installation row o ≡ ok (some a)
      → row.tenant_id ≡ tenant_id
      → a.installation_id ≡ id
      → a.status ≡ joined_status i row
  unfolding read_installation
  read_installation-joined t i row a none p f e tenant_eq id_eq = absurd (ground arith)
  read_installation-joined t i row a (some j) p f e tenant_eq id_eq =
      let (b, e₁, e₂) = bind-ok (repository_from_row j row) _ e in
      let same : b ≡ a = cc in
      let (status, number) = repository_from_row-fields j row b e₁ in
      let number_eq : row.installation_id ≡ id = cc in
      let p' : find_row (is_installation_at tenant_id id) t.installations ≡ some j =
        subst (λ (x : ℕ). find_row (is_installation_at tenant_id x) t.installations ≡ some j)
          number_eq
          (subst
            (λ (x : String).
              find_row (is_installation_at x row.installation_id) t.installations ≡ some j)
            tenant_eq p) in
      let row_eq : j ≡ i = cc in
      ap (λ x. x.status) (sym same) ∙ status ∙ ap (λ x. joined_status x row) row_eq

  read_repository-joined :
      (t : Tables) (i : InstallationRow) (repository_id : String) (a : RepositoryAuthorization)
      (o : Option RepositoryRow)
      → find_row (is_repository_named tenant_id repository_id) t.repositories ≡ o
      → find_row (is_installation_at tenant_id id) t.installations ≡ some i
      → read_repository o t ≡ ok (some a)
      → a.installation_id ≡ id
      → (row : RepositoryRow) × (a.status ≡ joined_status i row)
  unfolding read_repository
  read_repository-joined t i repository_id a none p f e id_eq = absurd (ground arith)
  read_repository-joined t i repository_id a (some row) p f e id_eq =
      let met : is_repository_named tenant_id repository_id row ≡ true =
        find_row-met (is_repository_named tenant_id repository_id) t.repositories row p in
      (
        row,
        read_installation-joined t i row a
            (find_row (is_installation_at row.tenant_id row.installation_id) t.installations) refl f
            e (ground (arith, eq_iff row.tenant_id tenant_id)) id_eq,
      )

  find_repository-joined :
      (t : Tables) (i : InstallationRow) (repository_id : String) (a : RepositoryAuthorization)
      → find_row (is_installation_at tenant_id id) t.installations ≡ some i
      → find_repository tenant_id repository_id t ≡ ok (some a)
      → a.installation_id ≡ id
      → (row : RepositoryRow) × (a.status ≡ joined_status i row)
  unfolding find_repository
  find_repository-joined t i repository_id a f e id_eq =
      let (_, _, e₁) = bind-ok (require (is_opaque_id tenant_id) rejected) _ e in
      let (_, _, e₂) = bind-ok (require (is_opaque_id repository_id) rejected) _ e₁ in
      read_repository-joined t i repository_id a
        (find_row (is_repository_named tenant_id repository_id) t.repositories) refl f e₂ id_eq

  -- Once the store holds an installation as removed, then after any sequence of webhooks, in any
  -- order, repeated or refused, with or without a snapshot, every repository of it that is read
  -- is read as removed.
  pub removed_repositories-stay :
      (ws : List Arrival) (t : Tables) (r : InstallationRow) (repository_id : String)
      (a : RepositoryAuthorization)
      → find_row (is_installation_at tenant_id id) t.installations ≡ some r
      → r.status ≡ removed
      → find_repository tenant_id repository_id (after_webhooks ws t) ≡ ok (some a)
      → a.installation_id ≡ id
      → a.status ≡ removed
  removed_repositories-stay ws t r repository_id a f gone e id_eq =
      let (i, g, still) = after_webhooks-removed ws t r f gone in
      let (row, status) =
        find_repository-joined (after_webhooks ws t) i repository_id a g e id_eq in
      status ∙ joined_status-removed i row still

  Move-active :
      (x : Payload) (o : Option InstallationPayload) (r r' : InstallationRow)
      → report_of (as_parsed x) ≡ o
      → Move tenant_id id r o r'
      → is_active r.status ≡ false
      → is_active r'.status ≡ true
      → Grant x id r
  Move-active x _ r r' p (kept _ _ same) before now = absurd (ground arith)
  Move-active x _ r r' p (reported q s _ number d e) before now =
      let status : r'.status ≡ (reported_state q s r).status = ap (λ z. z.status) e in
      let (asked, later) =
        reduce-active (installation_state r) q.updated_at s before
          (subst (λ (z : AuthorizationStatus). is_active z ≡ true) status now) in
      let (exact, action) = desired_status-active q (d ∙ ap some asked) in
      (q, as_parsed-same x q p, number, exact, action, later)

  -- If one webhook turns an installation that is not active into an active one, then its payload
  -- is an event of that very installation which grants exactly the three read permissions, asks
  -- for the activation, and is later than the provider's time in the installation's row, if it
  -- holds one.
  pub activation-Grant :
      (a : Ambient) (e : Envelope) (i : Option Installation) (t t' : Tables) (x : Receipt)
      (r r' : InstallationRow)
      → find_row (is_installation_at tenant_id id) t.installations ≡ some r
      → process_webhook a e i t ≡ ok (x, t')
      → find_row (is_installation_at tenant_id id) t'.installations ≡ some r'
      → is_active r.status ≡ false
      → is_active r'.status ≡ true
      → Grant e.payload id r
  activation-Grant a e i t t' x r r' f h g before now =
      let (r'', g', m) = process_webhook-moves tenant_id id r a e i t t' x f h in
      let same : r'' ≡ r' = cc in
      Move-active e.payload (report_of (as_parsed e.payload)) r r'' refl m before
        (subst (λ (z : InstallationRow). is_active z.status ≡ true) (sym same) now)
