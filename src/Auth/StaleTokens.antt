-- ===== src/Auth/StaleTokens.antt =====
-- The access token of before a refresh (app/modules/auth/service.py): its jti is on no session any
-- more, so no revocation reaches it.
use ratinglift_backend_core.Common.{
  String, true, false, ◌≡◌, ◌≢◌, refl, ap, ◌∙◌, Option, none, some, arith, inl, inr, str_eq, eq_iff,
  truthy, Bool-cases, Option-cases, All, All-save, first, first-All, first-none, first-All_none,
  save,
}
use ratinglift_backend_core.Exec.{ok}
use ratinglift_backend_core.Platform.{Platform}
use ratinglift_backend_core.Models.{User, LoginSession, DbSession}
use ratinglift_backend_core.Tenancy.Context.{Claims}
use ratinglift_backend_core.Auth.Sessions.{
  Settings, NewTokens, AuthResponse, session_id_of, has_jti, has_hash, of_user, rotated, add_audit,
  revoke, session_to_leave, logout, refresh_access_token, is_revoked, get_current_user,
}
use ratinglift_backend_core.Auth.Revocation.{revoked_now, revoked_rows}
use ratinglift_backend_core.Auth.Rotation.{first-save-none, refresh-IsRotated}

module _ (os : Platform) (settings : Settings) where
  logout-first-none :
      (user : User) (j k : String) (s : DbSession)
      → first (has_jti j) s.current.login_sessions ≡ none
      → first (has_jti j) (logout os settings user (some k) none s).1.current.login_sessions ≡ none
  unfolding logout session_to_leave
  logout-first-none user j k s e =
      let rows = s.current.login_sessions in
      elim (Bool-cases (truthy (some k))) [
        | inr blank ↦ ground (arith, e)
        | inl real ↦ elim (Option-cases (first (of_user user.id (has_jti k)) rows)) [
          | inl missing ↦ ground (arith, e)
          | inr (r, found) ↦
              let lacks = first-All_none (has_jti j) rows e in
              let never : has_jti j (revoked_now r) ≡ false =
                first-All (λ y. has_jti j y ≡ false) (of_user user.id (has_jti k)) rows r found
                  lacks in
              let saved = first-none (has_jti j) (save session_id_of (revoked_now r) rows) (
                All-save session_id_of (λ y. has_jti j y ≡ false) (revoked_now r) rows never
                  lacks) in
              let run : logout os settings user (some k) none s ≡ revoke os user "logout" r s =
                ground arith in
              rw run (ap (first (has_jti j)) (revoked_rows os user "logout" r s) ∙ saved)
        ]
      ]

  logout-users :
      (user : User) (k : String) (s : DbSession)
      → (logout os settings user (some k) none s).1.current.users ≡ s.current.users
  unfolding logout revoke add_audit
  logout-users user k s =
      elim (Option-cases
        (session_to_leave os settings user (some k) none s.current.login_sessions)) [
          | inl missing ↦ ground (arith, missing)
          | inr (r, found) ↦ ground (arith, found)
        ]

  still_accepted :
      (c : Claims) (j : String) (user : User) (s s' : DbSession)
      → (get_current_user os c s).0 ≡ ok user
      → c.jti ≡ some j
      → s'.current.users ≡ s.current.users
      → first (has_jti j) s'.current.login_sessions ≡ none
      → (get_current_user os c s').0 ≡ ok user
  unfolding get_current_user is_revoked
  still_accepted c j user s s' h ej same e = ground arith

  -- After a refresh, the access token of before the refresh is accepted as before, even once the
  -- user has logged out with the new access token and the session is revoked: the revocation is
  -- looked up by the token's jti, which the refresh has replaced. The jti of the old token is
  -- on no other session and is not the new one.
  pub refresh-get_current_user :
      (fresh : NewTokens) (c : Claims) (j t : String) (ip : Option String) (user : User)
      (r : LoginSession) (s : DbSession) (answer : AuthResponse)
      → (get_current_user os c s).0 ≡ ok user
      → c.jti ≡ some j
      → first (has_hash (settings.hash_refresh_token t)) s.current.login_sessions ≡ some r
      → All (λ (y : LoginSession). has_jti j y ≡ true → y.id ≡ r.id) s.current.login_sessions
      → fresh.jti ≢ j
      → (refresh_access_token os settings fresh t ip s).0 ≡ ok answer
      → let refreshed = (refresh_access_token os settings fresh t ip s).1 in
        let after = (logout os settings user (some fresh.jti) none refreshed).1 in
        (get_current_user os c after).0 ≡ ok user
  unfolding rotated
  refresh-get_current_user fresh c j t ip user r s answer h ej e only differ done =
      let refreshed = (refresh_access_token os settings fresh t ip s).1 in
      let after = (logout os settings user (some fresh.jti) none refreshed).1 in
      let turned = refresh-IsRotated os settings fresh t ip r s answer e done in
      let row = rotated os settings fresh turned.account.is_admin ip r in
      let other : has_jti j row ≡ false = elim (Bool-cases (str_eq fresh.jti j)) [
        | inl same ↦ absurd (differ ((eq_iff fresh.jti j).0 same))
        | inr apart ↦ apart
      ] in
      let gone =
        ap (first (has_jti j)) turned.rows
        ∙ first-save-none (has_jti j) row r s.current.login_sessions only refl other in
      still_accepted c j user s after h ej (logout-users user fresh.jti refreshed ∙ turned.users)
        (logout-first-none user j fresh.jti refreshed gone)
