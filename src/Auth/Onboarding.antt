-- ===== src/Auth/Onboarding.antt =====
-- From a signup to the first sign-in (app/modules/auth/service.py).
use ratinglift_backend_core.Common.{
  ⊤, String, true, false, ◌≡◌, refl, ap, ◌∙◌, Option, none, some, [], ◌∷◌, ◌++◌, map, arith, str_eq,
  first, is_some,
}
use ratinglift_backend_core.Exec.{
  http, value_error, ok, pure, raise_if, or_raise, ◌>>=◌, ◌>>◌, bind_run, bind_ok,
}
use ratinglift_backend_core.Platform.{Platform}
use ratinglift_backend_core.Models.{User, UserRole, role_of_value, Tenant, DbSession, Db, commit}
use ratinglift_backend_core.Auth.Attempts.{record_audit_login_attempt}
use ratinglift_backend_core.Auth.Sessions.{Settings, NewTokens, AuthResponse}
use ratinglift_backend_core.Auth.Stores.{Redis, Bcrypt, Stores, Auth, on_db}
use ratinglift_backend_core.Auth.Codes.{get_password_hash, issue_token}
use ratinglift_backend_core.Auth.Accounts.{
  Credentials, get_user_by_email, create_session, auth_response, user_id_of,
}
use ratinglift_backend_core.Auth.Recovery.{send_email_verification}
use ratinglift_backend_core.Auth.Lockout.{audited_ok, audited_tenants}
use ratinglift_backend_core.Auth.Signup.{
  TextOps, NewAccount, new_user, get_or_create_tenant, add_user, signup,
}

module _ (os : Platform) (texts : TextOps) {S : Type 0} (redis : Redis S) (settings : Settings)
    (bcrypt : Bcrypt) where
  -- the account that a signup makes, in its tenant
  abbrev pub account_for : NewAccount → Tenant → UserRole → DbSession → User
  account_for account tenant role s =
      new_user (os.new_uuid (map user_id_of s.current.users)) (some tenant.id)
        (os.lower account.credentials.email) account.full_name
        (get_password_hash bcrypt account.credentials.secret) role false os.now

  untaken :
      (email : String) (s : DbSession)
      → first (λ (u : User). str_eq u.email (os.lower email)) s.current.users ≡ none
      → get_user_by_email os email s ≡ (ok none, s)
  unfolding get_user_by_email
  untaken email s free = ground arith

  added :
      (account : NewAccount) (tenant : Tenant) (role : UserRole) (s : DbSession)
      → let user = account_for account tenant role s in
        add_user os
          (some tenant.id)
          (os.lower account.credentials.email)
          account.full_name
          (get_password_hash bcrypt account.credentials.secret)
          role
          false
          s
        ≡ (
          ok user,
          record s { current = record s.current { users = s.current.users ++ user ∷ [] } },
        )
  unfolding add_user
  added account tenant role s = refl

  created_users :
      (fresh : NewTokens) (c : Credentials) (user : User) (s : DbSession)
      → ((create_session os settings fresh c user false s).0 ≡ ok tt)
        × ((create_session os settings fresh c user false s).1.current.users ≡ s.current.users)
        × ((create_session os settings fresh c user false s).1.current.tenants ≡ s.current.tenants)
  unfolding create_session
  created_users fresh c user s = (refl, refl, refl)

  mailed :
      (token : String) (user : User) (s : Stores S)
      → ((send_email_verification os redis settings token user s).0 ≡ ok token)
        × ((send_email_verification os redis settings token user s).1.db ≡ s.db)
  unfolding send_email_verification issue_token
  mailed token user s = (refl, refl)

  -- the rest of a signup, once the account is in the table
  welcome : NewTokens → String → NewAccount → User → Auth S AuthResponse
  welcome fresh mail_token account user = do
    on_db (create_session os settings fresh account.credentials user false)
    on_db (
        record_audit_login_attempt os account.credentials.email true account.credentials.ip_address
          (some user.id) none none)
    send_email_verification os redis settings mail_token user
    on_db commit
    pure (auth_response os settings fresh user false)

  welcomed :
      (fresh : NewTokens) (mail_token : String) (account : NewAccount) (user : User) (s : Stores S)
      → let (r, s') = welcome fresh mail_token account user s in
        (r ≡ ok (auth_response os settings fresh user false))
        × (s'.db.committed.users ≡ s.db.current.users)
        × (s'.db.committed.tenants ≡ s.db.current.tenants)
  unfolding welcome
  welcomed fresh mail_token account user s =
      let c : Credentials = account.credentials in
      let last : Auth S AuthResponse =
        on_db commit >> pure (auth_response os settings fresh user false) in
      let mail : Auth S AuthResponse =
        send_email_verification os redis settings mail_token user >> last in
      let audit : Auth S ⊤ =
        on_db (record_audit_login_attempt os c.email true c.ip_address (some user.id) none none) in
      let (fine1, users1, tenants1) = created_users fresh c user s.db in
      let s1 : Stores S = (on_db (create_session os settings fresh c user false) s).1 in
      let (fine2, users2, sessions2) =
        audited_ok os c.email true c.ip_address (some user.id) none none s1.db in
      let s2 : Stores S = (audit s1).1 in
      let (fine3, same3) = mailed mail_token user s2 in
      let run =
        bind_run (on_db (create_session os settings fresh c user false)) (λ _. audit >> mail) s tt
          fine1
        ∙ bind_run audit (λ _. mail) s1 tt fine2
        ∙ bind_run (send_email_verification os redis settings mail_token user) (λ _. last) s2
            mail_token fine3 in
      (
        ap (λ p. p.0) run,
        ap (λ p. p.1.db.committed.users) run
            ∙ ap (λ (d : DbSession). d.current.users) same3
            ∙ users2
            ∙ users1,
        ap (λ p. p.1.db.committed.tenants) run
            ∙ ap (λ (d : DbSession). d.current.tenants) same3
            ∙ audited_tenants os c.email true c.ip_address (some user.id) none none s1.db
            ∙ tenants1,
      )

  pub signed_up :
      (fresh : NewTokens) (mail_token : String) (account : NewAccount) (tenant : Tenant)
      (role : UserRole) (s : Stores S)
      → first (λ (u : User). str_eq u.email (os.lower account.credentials.email)) s.db.current.users
        ≡ none
      → (get_or_create_tenant os texts account.tenant_name account.credentials.email s.db).0
        ≡ ok tenant
      → (get_or_create_tenant os texts account.tenant_name account.credentials.email
          s.db).1.current.users
        ≡ s.db.current.users
      → role_of_value account.role ≡ some role
      → let (r, s') = signup os texts redis settings bcrypt fresh mail_token account s in
        let user = account_for account tenant role s.db in
        (r ≡ ok (auth_response os settings fresh user false))
        × (s'.db.committed.users ≡ s.db.current.users ++ user ∷ [])
        × (s'.db.committed.tenants
            ≡ (get_or_create_tenant os texts account.tenant_name account.credentials.email
                s.db).1.current.tenants)
  unfolding signup welcome
  signed_up fresh mail_token account tenant role s free found same known =
      let c : Credentials = account.credentials in
      let place : Db Tenant = get_or_create_tenant os texts account.tenant_name c.email in
      let s1 : Stores S = (on_db place s).1 in
      let insert : UserRole → Db User = λ role.
        add_user os (some tenant.id) (os.lower c.email) account.full_name
          (get_password_hash bcrypt c.secret) role false in
      let hello : User → Auth S AuthResponse = λ user. welcome fresh mail_token account user in
      let join : Tenant → Auth S AuthResponse = λ tenant.
        or_raise (role_of_value account.role) (value_error "is not a valid UserRole") >>= λ role.
        on_db (
          add_user os (some tenant.id) (os.lower c.email) account.full_name
            (get_password_hash bcrypt c.secret) role false)
        >>= hello in
      let placed : Option User → Auth S AuthResponse = λ existing.
        raise_if (is_some existing) (http 409 "Email already exists") >> (on_db place >>= join) in
      let looked = untaken c.email s.db free in
      let user1 : User = account_for account tenant role s1.db in
      let put = added account tenant role s1.db in
      let s2 : Stores S = (on_db (insert role) s1).1 in
      let (answered, users, tenants) = welcomed fresh mail_token account user1 s2 in
      let same_user : user1 ≡ account_for account tenant role s.db =
        ap
          (λ us.
            new_user (os.new_uuid (map user_id_of us)) (some tenant.id) (os.lower c.email)
              account.full_name (get_password_hash bcrypt c.secret) role false os.now)
          same in
      let run =
        bind_ok (on_db (get_user_by_email os c.email)) placed s none (ap (λ p. p.0) looked)
          (ap (λ p. record s { db = p.1 }) looked)
        ∙ bind_run (on_db place) join s tenant found
        ∙ ap
            (λ o.
              (or_raise o (value_error "is not a valid UserRole")
                  >>= (λ role. on_db (insert role) >>= hello))
                s1)
            known
        ∙ bind_run (on_db (insert role)) hello s1 user1 (ap (λ p. p.0) put) in
      (
        ap (λ p. p.0) run
            ∙ answered
            ∙ ap (λ u. ok (auth_response os settings fresh u false)) same_user,
        ap (λ p. p.1.db.committed.users) run
            ∙ users
            ∙ ap (λ p. p.1.current.users) put
            ∙ ap
                (λ us.
                  us
                  ++ new_user (os.new_uuid (map user_id_of us)) (some tenant.id) (os.lower c.email)
                      account.full_name (get_password_hash bcrypt c.secret) role false os.now
                    ∷ [])
                same,
        ap (λ p. p.1.db.committed.tenants) run ∙ tenants ∙ ap (λ p. p.1.current.tenants) put,
      )
