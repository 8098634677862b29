-- ===== src/Admin/Accounted.antt =====
-- No change of the catalogue escapes the two logs, and a call that fails commits nothing
-- (app/modules/admin/connectors/routes.py).
use mathlib.Core.Path.{subst}
use ratinglift_backend_core.Common.{
  ℕ, String, ◌≡◌, ◌⊎◌, refl, sym, ap, ◌∙◌, Option, none, some, List, [], ◌∷◌, ◌++◌, inl, inr, ◌<>◌,
}
use ratinglift_backend_core.Exec.{
  Result, ok, err, pure, ◌>>=◌, ◌>>◌, bind_run, bind_fail, Result-cases,
}
use ratinglift_backend_core.Platform.{Platform}
use ratinglift_backend_core.Values.{Value}
use ratinglift_backend_core.Models.{
  User, Connector, AuditLog, AdminActionLog, Database, DbSession, Db,
}
use ratinglift_backend_core.Audit.{id, coerce_uuid, log_action, audit_row}
use ratinglift_backend_core.Audit.Admin.{
  RequestState, AdminEntry, admin_row, mirror, log_admin_action,
}
use ratinglift_backend_core.Admin.Storage.{Storage, KeyTexts, Media, Admin, in_db}
use ratinglift_backend_core.Admin.Catalog.{Wording}
use ratinglift_backend_core.Admin.Catalog.{snapshot}
use ratinglift_backend_core.Admin.Logos.{Images}
use ratinglift_backend_core.Admin.Quiet.{Keeps}
use ratinglift_backend_core.Admin.Routes.{connector_entry, log_and_commit, changed}

-- What an action is about: a new order is about no source in particular, any other action about the
-- source that the request returns.
abbrev pub IsAbout : String → Option ℕ → List Connector → Type 0
IsAbout action target rows =
    ((action ≡ "connector_reordered") × (target ≡ none))
    ⊎ ((c : Connector) × (rows ≡ c ∷ []) × (target ≡ some c.id))

-- Both logs have one row more: the same action of this administrator about the source that the request
-- returns, with the same values, from the address of the request.
pub record IsLogged (os : Platform) (request : RequestState) (admin : ℕ) (rows : List Connector)
    (before after : Database) : Type 0 where
  pub row : AdminActionLog
  pub copy : AuditLog
  pub logged : after.admin_action_logs ≡ before.admin_action_logs ++ row ∷ []
  pub mirrored : after.audit_logs ≡ before.audit_logs ++ copy ∷ []
  pub admin_logged : row.admin_id ≡ admin
  pub actor_mirrored : copy.actor_id ≡ some admin
  pub action_mirrored : copy.action ≡ "admin." <> row.action
  pub kind_logged : row.target_entity ≡ some "connector"
  pub kind_mirrored : copy.entity ≡ "connector"
  pub target_logged : IsAbout row.action row.target_id rows
  pub target_mirrored : copy.entity_id ≡ row.target_id
  pub values_mirrored :
      (copy.before_value ≡ row.before_value) × (copy.after_value ≡ row.after_value)
  pub origin_logged : row.ip_address ≡ request.ip_address
  pub time_logged : (row.timestamp ≡ os.now) × (copy.timestamp ≡ os.now)

-- Before the endpoint logs: nothing is committed, and nothing is in the logs.
pub record IsPending (d : Database) (s : DbSession) : Type 0 where
  pub nothing_committed : s.committed ≡ d
  pub no_admin_log : s.current.admin_action_logs ≡ d.admin_action_logs
  pub no_audit_log : s.current.audit_logs ≡ d.audit_logs

module _ {B F : Type 0} (os : Platform) (w : Wording) (keys : KeyTexts) (images : Images B)
    (storage : Storage B F) (admin : User) (request : RequestState) where
  abbrev pub logged_db : String → Option ℕ → Value → Value → DbSession → Database
  logged_db action target before after s =
      (log_admin_action os request
        (connector_entry os w keys images storage admin request action target before after)
        s).1.current

  pub log_and_commit_runs :
      (action : String) (target : Option ℕ) (before after : Value) (s : Media F)
      → let d = logged_db action target before after s.db in
        log_and_commit os w keys images storage admin request action target before after s
        ≡ (ok tt, record s { db = record { committed = d; current = d } })
  unfolding log_and_commit log_admin_action connector_entry coerce_uuid log_action
  log_and_commit_runs action target before after s = refl

  target_kept :
      (target : Option ℕ)
      → coerce_uuid os (elim target [ none ↦ none | some t ↦ some (id t) ]) ≡ target
  unfolding coerce_uuid
  target_kept none = refl
  target_kept (some t) = refl

  pub logged_db-IsLogged :
      (action : String) (target : Option ℕ) (before after : Value) (rows : List Connector)
      (d : Database) (s : DbSession)
      → IsAbout action target rows
      → IsPending d s
      → IsLogged os request admin.id rows d (logged_db action target before after s)
  unfolding log_admin_action connector_entry coerce_uuid log_action admin_row mirror audit_row
  logged_db-IsLogged action target before after rows d s about pending =
      let entry : AdminEntry =
        connector_entry os w keys images storage admin request action target before after in
      let row : AdminActionLog = admin_row os request entry admin.id s.current.admin_action_logs in
      let copy : AuditLog = audit_row os (mirror os request entry admin.id) s.current.audit_logs in
      record {
        row = row;
        copy = copy;
        logged = ap (λ rows. rows ++ row ∷ []) pending.no_admin_log;
        mirrored = ap (λ rows. rows ++ copy ∷ []) pending.no_audit_log;
        admin_logged = refl;
        actor_mirrored = refl;
        action_mirrored = refl;
        kind_logged = refl;
        kind_mirrored = refl;
        target_logged = subst (λ t. IsAbout action t rows) (sym (target_kept target)) about;
        target_mirrored = refl;
        values_mirrored = (refl, refl);
        origin_logged = refl;
        time_logged = (refl, refl);
      }

  -- A failure leaves the database as it was; a success leaves it as it was too, or logs the change.
  abbrev pub Accounted : Database → Result (List Connector) × Media F → Type 0
  Accounted before (err e, s') = s'.db.committed ≡ before
  Accounted before (ok rows, s') =
      (s'.db.committed ≡ before) ⊎ IsLogged os request admin.id rows before s'.db.committed

  pub Keeps-IsPending :
      (d : Database) (s s' : DbSession) → Keeps s s' → IsPending d s → IsPending d s'
  Keeps-IsPending d s s' h pending = record {
    nothing_committed = h.committed ∙ pending.nothing_committed;
    no_admin_log = h.admin_log ∙ pending.no_admin_log;
    no_audit_log = h.audit_log ∙ pending.no_audit_log;
  }

  -- what leaves the database pending, and is accounted for afterwards, is accounted for
  pub then-Accounted :
      {A : Type 0} (d : Database) (m : Admin F A) (f : A → Admin F (List Connector)) (s : Media F)
      → IsPending d (m s).1.db
      → ((a : A) → Accounted d (f a (m s).1))
      → Accounted d ((m >>= f) s)
  then-Accounted d m f s pending rest = elim (Result-cases (m s).0) [
    | inl (x, e) ↦ subst (λ r. Accounted d r) (sym (bind_fail m f s x e)) pending.nothing_committed
    | inr (a, e) ↦ subst (λ r. Accounted d r) (sym (bind_run m f s a e)) (rest a)
  ]

  pub bind-Accounted :
      {A : Type 0} (d : Database) (m : Admin F A) (f : A → Admin F (List Connector)) (s : Media F)
      → IsPending d s.db
      → Keeps s.db (m s).1.db
      → ((a : A) → IsPending d (m s).1.db → Accounted d (f a (m s).1))
      → Accounted d ((m >>= f) s)
  bind-Accounted d m f s pending quiet rest =
      let pending' = Keeps-IsPending d s.db (m s).1.db quiet pending in
      then-Accounted d m f s pending' (λ a. rest a pending')

  pub pending-Accounted :
      (d : Database) (r : Result (List Connector)) (s : Media F)
      → IsPending d s.db
      → Accounted d (r, s)
  pending-Accounted d (ok a) s pending = inl pending.nothing_committed
  pending-Accounted d (err e) s pending = pending.nothing_committed

  pub quiet-Accounted :
      (d : Database) (m : Admin F (List Connector)) (s : Media F)
      → IsPending d s.db
      → Keeps s.db (m s).1.db
      → Accounted d (m s)
  quiet-Accounted d m s pending quiet =
      pending-Accounted d (m s).0 (m s).1 (Keeps-IsPending d s.db (m s).1.db quiet pending)

  pub same_Keeps : (s s' : DbSession) → s' ≡ s → Keeps s s'
  same_Keeps s s' e = record {
    committed = ap (λ d. d.committed) e;
    admin_log = ap (λ d. d.current.admin_action_logs) e;
    audit_log = ap (λ d. d.current.audit_logs) e;
  }

  pub logged-Accounted :
      (d : Database) (action : String) (target : Option ℕ) (before after : Value)
      (answer : List Connector) (s : Media F)
      → IsAbout action target answer
      → IsPending d s.db
      → Accounted d (
          (log_and_commit os w keys images storage admin request action target before after
              >> pure answer)
            s)
  logged-Accounted d action target before after answer s about pending =
      let run = log_and_commit_runs action target before after s in
      subst (λ r. Accounted d r)
        (sym (
          bind_run
            (log_and_commit os w keys images storage admin request action target before after)
            (λ _. pure answer) s tt (ap (λ p. p.0) run)))
        (inr (
          subst (λ (x : Media F). IsLogged os request admin.id answer d x.db.committed)
            (sym (ap (λ p. p.1) run))
            (logged_db-IsLogged action target before after answer d s.db about pending)))

  pub changed-Accounted :
      (d : Database) (action : String) (before row : Connector) (s : Media F)
      → IsPending d s.db
      → Accounted d (changed os w keys images storage admin request action before row s)
  unfolding changed
  changed-Accounted d action before row s pending =
      logged-Accounted d action (some row.id) (snapshot os before) (snapshot os row) (row ∷ []) s
        (inr (row, refl, refl)) pending

  -- an endpoint that finds a row and changes it
  pub found-Accounted :
      (d : Database) (get : Db Connector) (m : Connector → Admin F Connector) (action : String)
      (s : Media F)
      → IsPending d s.db
      → (get s.db).1 ≡ s.db
      → ((c : Connector) (s' : Media F) → Keeps s'.db (m c s').1.db)
      → Accounted d (
          (in_db get >>= λ row.
          m row >>= λ row'. changed os w keys images storage admin request action row row')
            s)
  found-Accounted d get m action s pending same quiet =
      bind-Accounted d (in_db get)
        (λ row. m row >>= λ row'. changed os w keys images storage admin request action row row') s
        pending (same_Keeps s.db (get s.db).1 same)
        (λ row pending'.
          bind-Accounted d (m row)
            (λ row'. changed os w keys images storage admin request action row row') (in_db get s).1
            pending' (quiet row (in_db get s).1)
            (λ row' pending''.
              changed-Accounted d action row row' (m row (in_db get s).1).1 pending''))
