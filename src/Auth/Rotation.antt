-- ===== src/Auth/Rotation.antt =====
-- `refresh_access_token` of app/modules/auth/service.py: each refresh token is good for one use.
use ratinglift_backend_core.Common.{
  ℕ, String, Bool, true, false, ◌≡◌, ◌+◌, ◌*◌, ◌<◌, refl, sym, ap, ◌∙◌, Option, none, some, List,
  [], ◌∷◌, arith, inl, inr, ◌==◌, str_eq, eq_iff, Bool-cases, Option-cases, All, first, first-All,
  first_sound, save,
}
use ratinglift_backend_core.Exec.{ok, err, http}
use ratinglift_backend_core.Platform.{Platform}
use ratinglift_backend_core.Models.{User, LoginSession, DbSession}
use ratinglift_backend_core.Auth.Sessions.{
  Settings, NewTokens, AuthResponse, session_id_of, has_hash, rotated, access_claims,
  expiry_minutes, refresh_access_token,
}

-- Saving a row that fails the test over the only row that passes it leaves none.
pub first-save-none :
    (p : LoginSession → Bool) (row r : LoginSession) (rows : List LoginSession)
    → All (λ y. p y ≡ true → y.id ≡ r.id) rows
    → row.id ≡ r.id
    → p row ≡ false
    → first p (save session_id_of row rows) ≡ none
unfolding first save
first-save-none p row r [] only k h = refl
first-save-none p row r (x ∷ rows) (one, only) k h = elim (Bool-cases (p x)) [
  | inl here ↦ ground (arith, one here, first-save-none p row r rows only k h)
  | inr later ↦ ground (arith, first-save-none p row r rows only k h)
]

-- Saving a row that passes a test that no row passes makes it the one found.
first-save_only :
    (p q : LoginSession → Bool) (row r : LoginSession) (rows : List LoginSession)
    → All (λ y. p y ≡ false) rows
    → first q rows ≡ some r
    → row.id ≡ r.id
    → p row ≡ true
    → first p (save session_id_of row rows) ≡ some row
unfolding first save
first-save_only p q row r [] free e k h = cc e
first-save_only p q row r (x ∷ rows) (fails, free) e k h = elim (Bool-cases (q x)) [
  | inl here ↦ let same : x ≡ r = ground arith in ground arith
  | inr later ↦ ground (arith, first-save_only p q row r rows free (ground arith) k h)
]

module _ (os : Platform) (settings : Settings) where
  abbrev hash_of : String → LoginSession → Bool
  hash_of t = has_hash (settings.hash_refresh_token t)

  -- what a refresh that succeeds has found and done
  pub record IsRotated (fresh : NewTokens) (ip : Option String) (r : LoginSession)
      (s s' : DbSession) (answer : AuthResponse) : Type 0 where
    pub account : User
    active : account.is_active ≡ true
    found : first (λ (u : User). u.id == r.user_id) s.current.users ≡ some account
    pub rows :
        s'.current.login_sessions
        ≡ save session_id_of
            (rotated os settings fresh account.is_admin ip r)
            s.current.login_sessions
    pub users : s'.current.users ≡ s.current.users
    live : r.revoked ≡ false
    answers : answer.account ≡ account

  pub refresh-IsRotated :
      (fresh : NewTokens) (t : String) (ip : Option String) (r : LoginSession) (s : DbSession)
      (answer : AuthResponse)
      → first (hash_of t) s.current.login_sessions ≡ some r
      → (refresh_access_token os settings fresh t ip s).0 ≡ ok answer
      → IsRotated fresh ip r s (refresh_access_token os settings fresh t ip s).1 answer
  unfolding refresh_access_token
  refresh-IsRotated fresh t ip r s answer e h =
      elim (Option-cases (first (λ (u : User). u.id == r.user_id) s.current.users)) [
        | inl missing ↦ absurd (ground arith)
        | inr (u, found) ↦ record {
          account = u;
          active = ground arith;
          found = found;
          rows = ground arith;
          users = ground arith;
          live = ground arith;
          answers = ground arith;
        }
      ]

  unknown_token :
      (fresh : NewTokens) (t : String) (ip : Option String) (s : DbSession)
      → first (hash_of t) s.current.login_sessions ≡ none
      → refresh_access_token os settings fresh t ip s ≡ (err (http 401 "Invalid refresh token"), s)
  unfolding refresh_access_token
  unknown_token fresh t ip s e = ground arith

  accepted :
      (fresh : NewTokens) (t : String) (ip : Option String) (r : LoginSession) (u : User)
      (s : DbSession)
      → first (hash_of t) s.current.login_sessions ≡ some r
      → r.revoked ≡ false
      → (until : ℕ) → r.refresh_expires_at ≡ some until
      → os.now < until
      → first (λ (x : User). x.id == r.user_id) s.current.users ≡ some u
      → u.is_active ≡ true
      → (answer : AuthResponse) × ((refresh_access_token os settings fresh t ip s).0 ≡ ok answer)
        × (answer.account ≡ u)
  unfolding refresh_access_token
  accepted fresh t ip r u s e live until eu ahead eu' active = (
    record {
      access_claims = access_claims os u fresh.jti;
      admin_token = u.is_admin;
      refresh_token = fresh.refresh;
      expires_in = expiry_minutes os settings u.is_admin * 60;
      account = u;
    },
    ground arith,
    refl,
  )

  new_hash :
      (fresh : NewTokens) (b : Bool) (ip : Option String) (r : LoginSession)
      → hash_of fresh.refresh (rotated os settings fresh b ip r) ≡ true
  unfolding rotated
  new_hash fresh b ip r = (eq_iff _ _).1 refl

  old_hash :
      (fresh : NewTokens) (t : String) (b : Bool) (ip : Option String) (r : LoginSession)
      → hash_of t r ≡ true
      → hash_of fresh.refresh r ≡ false
      → hash_of t (rotated os settings fresh b ip r) ≡ false
  unfolding rotated
  old_hash fresh t b ip r h differ =
      elim (Bool-cases
        (str_eq (settings.hash_refresh_token fresh.refresh) (settings.hash_refresh_token t))) [
          | inr other ↦ other
          | inl same ↦
              let e =
                (eq_iff (settings.hash_refresh_token fresh.refresh)
                    (settings.hash_refresh_token t)).0
                  same in
              let both : hash_of fresh.refresh r ≡ true = rw e h in absurd (ground (arith, both))
        ]

  -- A refresh token is good for one use. After a refresh that succeeds, the token that was used is
  -- refused with 401 and nothing changes, while the new token is accepted for the same user. The
  -- session is the only one with the hash of the used token, no session has the hash of the new
  -- one, and refresh tokens live for some time.
  pub refresh_access_token-refresh_access_token :
      (fresh later : NewTokens) (t : String) (ip ip' : Option String) (r : LoginSession)
      (s : DbSession) (answer : AuthResponse)
      → first (hash_of t) s.current.login_sessions ≡ some r
      → All (λ (y : LoginSession). hash_of t y ≡ true → y.id ≡ r.id) s.current.login_sessions
      → All (λ (y : LoginSession). hash_of fresh.refresh y ≡ false) s.current.login_sessions
      → 0 < settings.refresh_token_expiry_minutes
      → (refresh_access_token os settings fresh t ip s).0 ≡ ok answer
      → let after = (refresh_access_token os settings fresh t ip s).1 in
        (refresh_access_token os settings later t ip' after
          ≡ (err (http 401 "Invalid refresh token"), after))
        × (next : AuthResponse) × ((refresh_access_token os settings later fresh.refresh ip'
              after).0
            ≡ ok next)
        × (next.account ≡ answer.account)
  unfolding rotated
  refresh_access_token-refresh_access_token fresh later t ip ip' r s answer e only free long h =
      let after = (refresh_access_token os settings fresh t ip s).1 in
      let rows = s.current.login_sessions in
      let done = refresh-IsRotated fresh t ip r s answer e h in
      let row = rotated os settings fresh done.account.is_admin ip r in
      let differ = first-All (λ y. hash_of fresh.refresh y ≡ false) (hash_of t) rows r e free in
      let gone =
        ap (first (hash_of t)) done.rows
        ∙ first-save-none (hash_of t) row r rows only refl (
            old_hash fresh t done.account.is_admin ip r (first_sound (hash_of t) rows r e)
              differ) in
      let found =
        ap (first (hash_of fresh.refresh)) done.rows
        ∙ first-save_only (hash_of fresh.refresh) (hash_of t) row r rows free e refl
            (new_hash fresh done.account.is_admin ip r) in
      let owner = ap (first (λ (u : User). u.id == r.user_id)) done.users ∙ done.found in
      let (next, runs, same) =
        accepted later fresh.refresh ip' row done.account after found done.live
          (os.now + settings.refresh_token_expiry_minutes * 60) refl (omega arith) owner
          done.active in
      (unknown_token later t ip' after gone, next, runs, same ∙ sym done.answers)
