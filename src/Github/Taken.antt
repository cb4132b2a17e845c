-- ===== src/Github/Taken.antt =====
-- A webhook as a whole, and a sequence of them: what becomes of the status of an installation.
use reproforge.Base.{
  ℕ, String, Bool, true, false, ◌≡◌, refl, ◌⊎◌, inl, inr, Option, none, some, [], ◌∷◌, Outcome, ok,
  bind-ok, require, Bool-cases, arith, ◌++◌,
}
use reproforge.Durable.Rows.{AuditEvent}
use reproforge.Github.Schemas.{
  Installation, InstallationPayload, is_installation_payload, RepositoryPayload,
  is_repository_payload,
}
use reproforge.Github.Rows.{
  InstallationRow, Tables, GithubError, rejected, find_row, is_installation_at,
}
use reproforge.Github.Webhooks.{apply_installation_webhook}
use reproforge.Github.Reconcile.{apply_repository_webhook}
use reproforge.Github.Store.{
  Payload, on_installation, on_repositories, other, Envelope, Ambient, as_parsed, subject, owner_of,
  has_delivery, new_delivery, complete_delivery, Receipt, apply_again, take_duplicate,
  finish_audited, apply_payload, take_owned, take_new, is_delivery_id, is_optional_installation,
  process_webhook,
}
use reproforge.Github.Effects.{record_audit-installations}
use reproforge.Github.Status.{
  Leads, Move, kept, apply_installation_webhook-moves, apply_repository_webhook-keeps,
}

-- The payload of an installation event, where the envelope holds one.
abbrev pub report_of : Payload → Option InstallationPayload
report_of (on_installation p) = some p
report_of _ = none

finish_audited-installations :
    (a : Ambient) (e : Envelope) (owner : String) (o : Option AuditEvent) (t t' : Tables)
    → finish_audited a e owner o t ≡ ok t'
    → t'.installations ≡ t.installations
unfolding finish_audited complete_delivery
finish_audited-installations a e owner none t t' h = ground arith
finish_audited-installations a e owner (some event) t t' h =
    record_audit-installations event (complete_delivery e.delivery_id a.at (some owner) true t) t' h

as_parsed-report : (x : Payload) → (report_of (as_parsed x) ≡ none) ⊎ (as_parsed x ≡ x)
unfolding as_parsed
as_parsed-report (on_installation p) = elim (Bool-cases (is_installation_payload p)) [
  | inl y ↦ inr (rw y)
  | inr n ↦ inl (rw n)
]
as_parsed-report (on_repositories p) = elim (Bool-cases (is_repository_payload p)) [
  | inl y ↦ inr (rw y)
  | inr n ↦ inl (rw n)
]
as_parsed-report other = inr refl

completed-installations :
    (id : String) (at : ℕ) (o : Option String) (took : Bool) (t t' : Tables)
    → ◌≡◌ {A = Outcome GithubError Tables} (ok (complete_delivery id at o took t)) (ok t')
    → t'.installations ≡ t.installations
unfolding complete_delivery
completed-installations id at o took t t' h = ground arith

module _ (tenant_id : String) (id : ℕ) (r : InstallationRow) where
  kept_whatever :
      (o : Option InstallationPayload) (r' : InstallationRow)
      → Move tenant_id id r none r'
      → Move tenant_id id r o r'
  kept_whatever o r' (kept _ _ s) = kept o r' s

  abbrev Found : Tables → Type 0
  Found t = find_row (is_installation_at tenant_id id) t.installations ≡ some r

  abbrev After : Option InstallationPayload → Tables → Type 0
  After o t' = Leads tenant_id id r (Move tenant_id id r o) t'

  apply_again-moves :
      (a : Ambient) (p : RepositoryPayload) (i : Installation) (o : Option String) (t t' : Tables)
      → Found t
      → apply_again a p i o t ≡ ok t'
      → After none t'
  unfolding apply_again
  apply_again-moves a p i none t t' f h = (r, ground arith, kept none r refl)
  apply_again-moves a p i (some owner) t t' f h =
      let ((event, mid), h₁, h₂) =
        bind-ok (apply_repository_webhook a.new_id a.audit_id owner p a.at a.now (some i) t) _ h in
      let (r', g, m) =
        apply_repository_webhook-keeps tenant_id id r a.new_id a.audit_id owner p a.at a.now
          (some i) t mid event f h₁ in
      (r', ground arith, kept none r' m)

  take_duplicate-moves :
      (a : Ambient) (x : Payload) (i : Option Installation) (t t' : Tables)
      → Found t
      → take_duplicate a x i t ≡ ok t'
      → After none t'
  unfolding take_duplicate
  take_duplicate-moves a (on_repositories p) (some i) t t' f h =
      apply_again-moves a p i (owner_of p.installation_id t) t t' f h
  take_duplicate-moves a (on_repositories p) none t t' f h = (r, ground arith, kept none r refl)
  take_duplicate-moves a (on_installation p) i t t' f h = (r, ground arith, kept none r refl)
  take_duplicate-moves a other i t t' f h = (r, ground arith, kept none r refl)

  apply_payload-moves :
      (a : Ambient) (e : Envelope) (x : Payload) (i : Option Installation) (owner : String)
      (t t' : Tables)
      → Found t
      → apply_payload a e x i owner t ≡ ok t'
      → After (report_of x) t'
  unfolding apply_payload
  apply_payload-moves a e (on_installation p) i owner t t' f h =
      let ((event, mid), h₁, h₂) =
        bind-ok (apply_installation_webhook a.audit_id owner p a.at t) _ h in
      let (r', g, m) =
        apply_installation_webhook-moves tenant_id id r a.audit_id owner p a.at t mid event f h₁ in
      (r', ground (arith, finish_audited-installations a e owner event mid t' h₂), m)
  apply_payload-moves a e (on_repositories p) i owner t t' f h =
      let ((event, mid), h₁, h₂) =
        bind-ok (apply_repository_webhook a.new_id a.audit_id owner p a.at a.now i t) _ h in
      let (r', g, m) =
        apply_repository_webhook-keeps tenant_id id r a.new_id a.audit_id owner p a.at a.now i t mid
          event f h₁ in
      (
        r',
        ground (arith, finish_audited-installations a e owner (some event) mid t' h₂),
        kept none r' m,
      )
  apply_payload-moves a e other i owner t t' f h = (
    r,
    ground (arith, completed-installations e.delivery_id a.at none false t t' h),
    kept none r refl,
  )

  take_owned-moves :
      (a : Ambient) (e : Envelope) (x : Payload) (i : Option Installation) (o : Option String)
      (t t' : Tables)
      → Found t
      → take_owned a e x i o t ≡ ok t'
      → After (report_of x) t'
  unfolding take_owned
  take_owned-moves a e x i none t t' f h = (
    r,
    ground (arith, completed-installations e.delivery_id a.at none false t t' h),
    kept (report_of x) r refl,
  )
  take_owned-moves a e x i (some owner) t t' f h = apply_payload-moves a e x i owner t t' f h

  take_new-moves :
      (a : Ambient) (e : Envelope) (x : Payload) (i : Option Installation) (o : Option ℕ)
      (t t' : Tables)
      → Found t
      → take_new a e x i o t ≡ ok t'
      → After (report_of x) t'
  unfolding take_new
  take_new-moves a e x i none t t' f h = (
    r,
    ground (arith, completed-installations e.delivery_id a.at none false t t' h),
    kept (report_of x) r refl,
  )
  take_new-moves a e x i (some n) t t' f h = take_owned-moves a e x i (owner_of n t) t t' f h

  -- Every webhook leaves the row of an installation in place, and changes its status only by what
  -- its own payload reports of it.
  pub process_webhook-moves :
      (a : Ambient) (e : Envelope) (i : Option Installation) (t t' : Tables) (x : Receipt)
      → Found t
      → process_webhook a e i t ≡ ok (x, t')
      → After (report_of (as_parsed e.payload)) t'
  unfolding process_webhook
  process_webhook-moves a e i t t' x f h =
      let (_, _, h₁) = bind-ok (require (is_delivery_id e.delivery_id) rejected) _ h in
      let (_, _, h₂) = bind-ok (require (is_optional_installation i) rejected) _ h₁ in
      elim (Bool-cases (has_delivery e.delivery_id t.deliveries)) [
        | inl seen ↦
            let (mid, h₃, h₄) =
              bind-ok (take_duplicate a (as_parsed e.payload) i t) _ (rw seen at h₂) in
            let (r', g, m) = take_duplicate-moves a (as_parsed e.payload) i t mid f h₃ in
            (r', ground arith, kept_whatever (report_of (as_parsed e.payload)) r' m)
        | inr new ↦
            let start = record t {
              deliveries = t.deliveries ++ new_delivery a e (as_parsed e.payload) ∷ [];
            } in
            let (mid, h₃, h₄) =
              bind-ok (take_new a e (as_parsed e.payload) i (subject (as_parsed e.payload)) start) _
                (rw new at h₂) in
            let (r', g, m) =
              take_new-moves a e (as_parsed e.payload) i (subject (as_parsed e.payload)) start mid f
                h₃ in
            (r', ground arith, m)
      ]
