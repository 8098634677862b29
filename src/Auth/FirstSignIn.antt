-- ===== src/Auth/FirstSignIn.antt =====
-- Whose tenant a signup ends in, and what its owner can do next (app/modules/auth/service.py).
use ratinglift_backend_core.Common.{
  ℕ, String, true, false, ◌≡◌, ◌⊎◌, refl, ap, ◌∙◌, Option, none, some, List, [], ◌∷◌, ◌++◌, map,
  arith, inl, inr, str_eq, eq_iff, first, first-append, first-none, All, ◌≢◌, ◌==◌, truthy,
  Option-cases,
}
use ratinglift_backend_core.Exec.{Result, ok}
use ratinglift_backend_core.Platform.{Platform, PlatformLaws}
use ratinglift_backend_core.Models.{User, UserRole, role_of_value, Tenant, DbSession}
use ratinglift_backend_core.Auth.Sessions.{
  Settings, NewTokens, AuthResponse, has_jti, get_current_user, access_claims,
}
use ratinglift_backend_core.Auth.Stores.{Redis, Bcrypt, BcryptLaws, Stores}
use ratinglift_backend_core.Auth.Codes.{get_password_hash, verify_password}
use ratinglift_backend_core.Auth.Accounts.{
  Credentials, Draws, signed_in, reset_user, auth_response, user_id_of,
}
use ratinglift_backend_core.Auth.Signup.{
  TextOps, NewAccount, is_named, new_user, new_tenant, requested_name, signup,
}
use ratinglift_backend_core.Security.Blocklist.{at}
use ratinglift_backend_core.Security.IpBlocking.{ensure_ip_allowed}
use ratinglift_backend_core.Auth.Soundness.{MaySignIn, account_of}
use ratinglift_backend_core.Auth.Lockout.{opened}
use ratinglift_backend_core.Auth.WrongPassword.{rate_limit}
use ratinglift_backend_core.Auth.Login.{login_with_password}
use ratinglift_backend_core.Auth.Admission.{login_with_password-get_current_user}
use ratinglift_backend_core.Auth.ResetTokens.{verify-get_password_hash, next_request}
use ratinglift_backend_core.Auth.Tenants.{made, taken}
use ratinglift_backend_core.Auth.Onboarding.{account_for, signed_up}

-- A tenant whose identifier no tenant of the table has.
abbrev pub IsFresh : Tenant → List Tenant → Type 0
IsFresh tenant rows = All (λ (t : Tenant). t.id ≢ tenant.id) rows

other_ids :
    (id : ℕ) (rows : List Tenant)
    → All (λ u. u ≢ id) (map (λ (t : Tenant). t.id) rows)
    → All (λ (t : Tenant). t.id ≢ id) rows
other_ids id [] h = tt
other_ids id (t ∷ rows) (ne, h) = (ne, other_ids id rows h)

-- What a signup makes of the accounts and tenants: this answer, for this account in this tenant.
abbrev Joined :
    {S : Type 0} (os : Platform) (texts : TextOps) (redis : Redis S) (settings : Settings)
    (bcrypt : Bcrypt)
    → NewTokens
    → NewAccount
    → UserRole
    → Tenant
    → List Tenant
    → Stores S
    → Result AuthResponse × Stores S
    → Type 0
Joined os texts redis settings bcrypt fresh account role tenant tenants s (r, s') =
    let user = account_for os texts redis settings bcrypt account tenant role s.db in
    (r ≡ ok (auth_response os settings fresh user false))
    × (s'.db.committed.users ≡ s.db.current.users ++ user ∷ [])
    × (s'.db.committed.tenants ≡ tenants)

module _ (os : Platform) (texts : TextOps) {S : Type 0} (redis : Redis S) (settings : Settings)
    (bcrypt : Bcrypt) where
  joined :
      (fresh : NewTokens) (mail_token : String) (account : NewAccount) (role : UserRole)
      (s : Stores S)
      → first (λ (u : User). str_eq u.email (os.lower account.credentials.email)) s.db.current.users
        ≡ none
      → role_of_value account.role ≡ some role
      → let name = requested_name os texts account.tenant_name account.credentials.email in
        let rows = s.db.current.tenants in
        let run = signup os texts redis settings bcrypt fresh mail_token account s in
        ((tenant : Tenant) × (first (is_named name) rows ≡ some tenant)
          × Joined os texts redis settings bcrypt fresh account role tenant rows s run)
        ⊎ ((first (is_named name) rows ≡ none)
            × Joined os texts redis settings bcrypt fresh account role
                (new_tenant os texts name rows)
                (rows ++ new_tenant os texts name rows ∷ [])
                s
                run)
  joined fresh mail_token account role s free known =
      let email : String = account.credentials.email in
      let name = requested_name os texts account.tenant_name email in
      let rows = s.db.current.tenants in
      elim (Option-cases (first (is_named name) rows)) [
        | inl none_yet ↦
            let run = made os texts account.tenant_name email s.db none_yet in
            let (answered, users, tenants) =
              signed_up os texts redis settings bcrypt fresh mail_token account
                (new_tenant os texts name rows) role s free (ap (λ p. p.0) run)
                (ap (λ p. p.1.current.users) run) known in
            inr (none_yet, (answered, users, tenants ∙ ap (λ p. p.1.current.tenants) run))
        | inr (t, there) ↦
            let run = taken os texts account.tenant_name email t s.db there in
            let (answered, users, tenants) =
              signed_up os texts redis settings bcrypt fresh mail_token account t role s free
                (ap (λ p. p.0) run) (ap (λ p. p.1.current.users) run) known in
            inl (t, there, (answered, users, tenants ∙ ap (λ p. p.1.current.tenants) run))
      ]

module _ (os : Platform) (plaws : PlatformLaws os) (texts : TextOps) {S : Type 0} (redis : Redis S)
    (settings : Settings) (bcrypt : Bcrypt) where
  -- the new account, as the signup asked for it
  pub record IsAccount (account : NewAccount) (tenant : Tenant) (role : UserRole) (user : User)
      : Type 0 where
    pub place : user.tenant_id ≡ some tenant.id
    pub address : user.email ≡ os.lower account.credentials.email
    pub name : user.full_name ≡ account.full_name
    pub entitled : user.role ≡ role
    pub no_admin : user.is_admin ≡ false
    pub active : user.is_active ≡ true
    pub unconfirmed : user.email_verified ≡ false

  account_for-IsAccount :
      (account : NewAccount) (tenant : Tenant) (role : UserRole) (s : DbSession)
      → IsAccount account tenant role
          (account_for os texts redis settings bcrypt account tenant role s)
  unfolding new_user
  account_for-IsAccount account tenant role s = record {
    place = refl;
    address = refl;
    name = refl;
    entitled = refl;
    no_admin = refl;
    active = refl;
    unconfirmed = refl;
  }

  new_tenant-IsFresh :
      (name : String) (rows : List Tenant) → IsFresh (new_tenant os texts name rows) rows
  unfolding new_tenant
  new_tenant-IsFresh name rows =
      other_ids _ rows (plaws.new_uuid_fresh (map (λ (t : Tenant). t.id) rows))

  -- A signup with a free address and a known role succeeds and is committed. It adds one account, with the
  -- name and whatever role it asked for, active and with its address unconfirmed. If a tenant had the
  -- requested name the account is in that tenant, and the tenants stay as they were; or else it is in a
  -- tenant that is added with that name, under an identifier that no other tenant has.
  pub signup_lem :
      (fresh : NewTokens) (mail_token : String) (account : NewAccount) (role : UserRole)
      (s : Stores S)
      → first (λ (u : User). str_eq u.email (os.lower account.credentials.email)) s.db.current.users
        ≡ none
      → role_of_value account.role ≡ some role
      → let (r, s') = signup os texts redis settings bcrypt fresh mail_token account s in
        let name = requested_name os texts account.tenant_name account.credentials.email in
        let rows = s.db.current.tenants in
        (tenant : Tenant) × (user : User) × IsAccount account tenant role user
        × (r ≡ ok (auth_response os settings fresh user false))
        × (s'.db.committed.users ≡ s.db.current.users ++ user ∷ [])
        × (((first (is_named name) rows ≡ some tenant) × (s'.db.committed.tenants ≡ rows))
            ⊎ ((first (is_named name) rows ≡ none)
                × (tenant.name ≡ name)
                × IsFresh tenant rows
                × (s'.db.committed.tenants ≡ rows ++ tenant ∷ [])))
  unfolding new_tenant
  signup_lem fresh mail_token account role s free known =
      let name = requested_name os texts account.tenant_name account.credentials.email in
      let rows = s.db.current.tenants in
      elim (joined os texts redis settings bcrypt fresh mail_token account role s free known) [
        | inl (t, there, (answered, users, tenants)) ↦ (
          t,
          account_for os texts redis settings bcrypt account t role s.db,
          account_for-IsAccount account t role s.db,
          answered,
          users,
          inl (there, tenants),
        )
        | inr (none_yet, (answered, users, tenants)) ↦
            let t = new_tenant os texts name rows in
            (
              t,
              account_for os texts redis settings bcrypt account t role s.db,
              account_for-IsAccount account t role s.db,
              answered,
              users,
              inr (none_yet, refl, new_tenant-IsFresh name rows, tenants),
            )
      ]

none_has :
    (id : ℕ) (users : List User)
    → All (λ u. u ≢ id) (map user_id_of users)
    → All (λ (u : User). (u.id == id) ≡ false) users
none_has id [] h = tt
none_has id (u ∷ users) (ne, h) = (ground arith, none_has id users h)

module _ (os : Platform) (plaws : PlatformLaws os) (texts : TextOps) {S : Type 0} (redis : Redis S)
    (settings : Settings) (bcrypt : Bcrypt) (blaws : BcryptLaws bcrypt) where
  -- a new account may sign in
  new_MaySignIn :
      (account : NewAccount) (tenant : Tenant) (role : UserRole) (s : DbSession) (c : Credentials)
      (later : ℕ)
      → c.secret ≡ account.credentials.secret
      → c.admin_only ≡ false
      → MaySignIn
          (at later os)
          bcrypt
          c
          (account_for os texts redis settings bcrypt account tenant role s)
  unfolding new_user
  new_MaySignIn account tenant role s c later same plain = record {
    password =
        ap (λ p. verify_password bcrypt p (get_password_hash bcrypt account.credentials.secret))
          same
        ∙ verify-get_password_hash bcrypt blaws account.credentials.secret;
    active = refl;
    no_second_factor = refl;
    unlocked = inl refl;
    entitled = ground arith;
  }

  new_by_id :
      (account : NewAccount) (tenant : Tenant) (role : UserRole) (s : DbSession)
      → let user = account_for os texts redis settings bcrypt account tenant role s in
        first (λ (u : User). u.id == user.id) (s.current.users ++ user ∷ []) ≡ some user
  unfolding new_user
  new_by_id account tenant role s =
      let user = account_for os texts redis settings bcrypt account tenant role s in
      let absent =
        first-none (λ (u : User). u.id == user.id) s.current.users
          (none_has user.id s.current.users
            (plaws.new_uuid_fresh (map user_id_of s.current.users))) in
      first-append (λ (u : User). u.id == user.id) s.current.users user absent ∙ ground arith

  new_by_email :
      (account : NewAccount) (tenant : Tenant) (role : UserRole) (s : DbSession)
      → first (λ (u : User). str_eq u.email (os.lower account.credentials.email)) s.current.users
        ≡ none
      → let user = account_for os texts redis settings bcrypt account tenant role s in
        first
          (λ (u : User). str_eq u.email (os.lower account.credentials.email))
          (s.current.users ++ user ∷ [])
        ≡ some user
  unfolding new_user
  new_by_email account tenant role s free =
      let user = account_for os texts redis settings bcrypt account tenant role s in
      let same =
        (eq_iff (os.lower account.credentials.email) (os.lower account.credentials.email)).1 refl in
      first-append (λ (u : User). str_eq u.email (os.lower account.credentials.email))
        s.current.users user free
      ∙ ground (arith, same)

  placed :
      (fresh : NewTokens) (mail_token : String) (account : NewAccount) (role : UserRole)
      (s : Stores S)
      → first (λ (u : User). str_eq u.email (os.lower account.credentials.email)) s.db.current.users
        ≡ none
      → role_of_value account.role ≡ some role
      → let (r, s') = signup os texts redis settings bcrypt fresh mail_token account s in
        (tenant : Tenant) × (r
          ≡ ok (
              auth_response os settings fresh
                (account_for os texts redis settings bcrypt account tenant role s.db)
                false))
        × (s'.db.committed.users
            ≡ s.db.current.users
              ++ account_for os texts redis settings bcrypt account tenant role s.db ∷ [])
  placed fresh mail_token account role s free known =
      elim (joined os texts redis settings bcrypt fresh mail_token account role s free known) [
        | inl (t, there, (answered, users, tenants)) ↦ (t, answered, users)
        | inr (none_yet, (answered, users, tenants)) ↦
            let name = requested_name os texts account.tenant_name account.credentials.email in
            (new_tenant os texts name s.db.current.tenants, answered, users)
      ]

  -- the request after a signup
  abbrev pub asked : NewTokens → String → NewAccount → Stores S → Stores S
  asked fresh mail_token account s =
      next_request (signup os texts redis settings bcrypt fresh mail_token account s).1

  -- the same address and password, from another device
  abbrev pub returning : NewAccount → Option String → Credentials
  returning account ip_address = record account.credentials {
    ip_address = ip_address;
    admin_only = false;
  }

  abbrev pub new_id : Stores S → ℕ
  new_id s = os.new_uuid (map user_id_of s.db.current.users)

  -- Who has signed up can sign in with the same address and password, at once and without having confirmed
  -- the address: from an address that is not blocked and within the rate limit the answer is the new
  -- account's tokens, and the access token among them is accepted. The role of the signup is known, its
  -- address is free, the drawn jti is fresh, lower case is lower case again, and UUIDs print as non-empty
  -- texts that parse back.
  pub signup-login_with_password :
      (fresh : NewTokens) (mail_token : String) (account : NewAccount) (role : UserRole)
      (s : Stores S) (draws : Draws) (ip_address : Option String) (later : ℕ)
      → first (λ (u : User). str_eq u.email (os.lower account.credentials.email)) s.db.current.users
        ≡ none
      → role_of_value account.role ≡ some role
      → os.lower (os.lower account.credentials.email) ≡ os.lower account.credentials.email
      → (ensure_ip_allowed (at later os) ip_address (asked fresh mail_token account s).db).0 ≡ ok tt
      → (rate_limit
          (at later os)
          redis
          settings
          bcrypt
          (returning account ip_address)
          (asked fresh mail_token account s)).0
        ≡ ok tt
      → first
          (has_jti draws.tokens.jti)
          (asked fresh mail_token account s).db.current.login_sessions
        ≡ none
      → os.parse_uuid (os.show_uuid (new_id s)) ≡ some (new_id s)
      → truthy (some (os.show_uuid (new_id s))) ≡ true
      → let (r, s') =
          login_with_password
            (at later os)
            redis
            settings
            bcrypt
            draws
            (returning account ip_address)
            (asked fresh mail_token account s) in
        (user : User) × (user.email ≡ os.lower account.credentials.email)
        × (user.role ≡ role)
        × (r ≡ ok (signed_in (auth_response (at later os) settings draws.tokens user false)))
        × ((get_current_user
              (at later os)
              (access_claims (at later os) user draws.tokens.jti)
              (opened s'.db.committed)).0
            ≡ ok user)
  unfolding new_user reset_user auth_response
  signup-login_with_password fresh mail_token account role s draws ip_address later free known lower
        allowed within unused parsed shown =
      let (tenant, answered, users) = placed fresh mail_token account role s free known in
      let user = account_for os texts redis settings bcrypt account tenant role s.db in
      let c = returning account ip_address in
      let s1 : Stores S = asked fresh mail_token account s in
      let with_email : String → List User → Option User =
        λ e. first (λ (u : User). str_eq u.email e) in
      let found : account_of (at later os) c s1.db ≡ some user =
        ap (λ e. with_email e s1.db.current.users) lower
        ∙ ap (with_email (os.lower account.credentials.email)) users
        ∙ new_by_email account tenant role s.db free in
      let by_id =
        ap (first (λ (u : User). u.id == new_id s)) users ∙ new_by_id account tenant role s.db in
      let (granted, accepted) =
        login_with_password-get_current_user (at later os) redis settings bcrypt draws c user s1
          found by_id (new_MaySignIn account tenant role s.db c later refl refl) allowed within
          unused parsed shown in
      (reset_user user, refl, refl, granted, accepted)
