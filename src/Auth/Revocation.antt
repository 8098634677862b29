-- ===== src/Auth/Revocation.antt =====
-- What ends a login session, and what an ended session can no longer do (app/modules/auth/service.py).
use ratinglift_backend_core.Common.{
  ℕ, String, Bool, true, ◌&&◌, ◌≡◌, ◌≢◌, refl, ap, ◌∙◌, ◌⊎◌, Option, some, List, [], ◌∷◌, arith,
  inl, inr, ◌==◌, ==_iff, truthy, Bool-cases, Option-cases, first, select, save, HasUniqueKeys,
  first_sound, first-save_same, select-save,
}
use ratinglift_backend_core.Exec.{ok, err, http}
use ratinglift_backend_core.Platform.{Platform}
use ratinglift_backend_core.Models.{User, LoginSession, DbSession}
use ratinglift_backend_core.Tenancy.Context.{Claims}
use ratinglift_backend_core.Auth.Sessions.{
  Settings, NewTokens, session_id_of, has_jti, has_hash, add_audit, revoke, revoke_session,
  session_to_leave, logout, refresh_access_token, is_revoked, get_current_user,
}

-- A narrower query that the first row of a wider one passes finds that row.
first_narrow :
    (p q : LoginSession → Bool) (r : LoginSession) (rows : List LoginSession)
    → first q rows ≡ some r
    → p r ≡ true
    → first (λ x. p x && q x) rows ≡ some r
unfolding first
first_narrow p q r [] e h = cc e
first_narrow p q r (x ∷ rows) e h = elim (Bool-cases (q x)) [
  | inl here ↦ let same : x ≡ r = ground arith in ground arith
  | inr later ↦ ground (arith, first_narrow p q r rows (ground arith) h)
]

abbrev pub revoked_now : LoginSession → LoginSession
revoked_now r = record r { revoked = true }

module _ (os : Platform) where
  pub revoked_rows :
      (user : User) (action : String) (r : LoginSession) (s : DbSession)
      → (revoke os user action r s).1.current.login_sessions
        ≡ save session_id_of (revoked_now r) s.current.login_sessions
  unfolding revoke add_audit
  revoked_rows user action r s = refl

  pub revoked_users :
      (user : User) (action : String) (r : LoginSession) (s : DbSession)
      → (revoke os user action r s).1.current.users ≡ s.current.users
  unfolding revoke add_audit
  revoked_users user action r s = refl

  left_session :
      (settings : Settings) (user : User) (j : String) (rt : Option String) (r : LoginSession)
      (rows : List LoginSession)
      → truthy (some j) ≡ true
      → first (has_jti j) rows ≡ some r
      → r.user_id ≡ user.id
      → session_to_leave os settings user (some j) rt rows ≡ some r
  unfolding session_to_leave
  left_session settings user j rt r rows real e own =
      let its =
        first_narrow (λ x. x.user_id == user.id) (has_jti j) r rows e
          ((==_iff r.user_id user.id).1 own) in
      ground (arith, its)

  logout_runs :
      (settings : Settings) (user : User) (j : String) (rt : Option String) (r : LoginSession)
      (s : DbSession)
      → truthy (some j) ≡ true
      → first (has_jti j) s.current.login_sessions ≡ some r
      → r.user_id ≡ user.id
      → logout os settings user (some j) rt s ≡ revoke os user "logout" r s
  unfolding logout
  logout_runs settings user j rt r s real e own =
      ground (arith, left_session settings user j rt r s.current.login_sessions real e own)

  -- A token whose session is revoked is refused.
  refused :
      (c : Claims) (j : String) (user : User) (r : LoginSession) (s s' : DbSession)
      → (get_current_user os c s).0 ≡ ok user
      → s'.current.users ≡ s.current.users
      → c.jti ≡ some j
      → truthy (some j) ≡ true
      → first (has_jti j) s'.current.login_sessions ≡ some r
      → r.revoked ≡ true
      → (get_current_user os c s').0 ≡ err (http 401 "Session revoked")
  unfolding get_current_user is_revoked
  refused c j user r s s' h same ej real e gone = ground arith

  refused_refresh :
      (settings : Settings) (fresh : NewTokens) (t : String) (ip : Option String) (r : LoginSession)
      (s : DbSession)
      → first (has_hash (settings.hash_refresh_token t)) s.current.login_sessions ≡ some r
      → r.revoked ≡ true
      → refresh_access_token os settings fresh t ip s ≡ (err (http 401 "Invalid refresh token"), s)
  unfolding refresh_access_token
  refused_refresh settings fresh t ip r s e gone = ground arith

  -- After a user logs out with the access token of a session, both tokens of that session are
  -- refused: the access token that was accepted before with 401 `Session revoked`, and the
  -- refresh token with 401 `Invalid refresh token`. The logout is committed.
  pub logout-get_current_user :
      (settings : Settings) (fresh : NewTokens) (c : Claims) (j t : String) (rt ip : Option String)
      (user : User) (r : LoginSession) (s : DbSession)
      → (get_current_user os c s).0 ≡ ok user
      → c.jti ≡ some j
      → truthy (some j) ≡ true
      → first (has_jti j) s.current.login_sessions ≡ some r
      → r.user_id ≡ user.id
      → first (has_hash (settings.hash_refresh_token t)) s.current.login_sessions ≡ some r
      → let after = (logout os settings user c.jti rt s).1 in
        ((get_current_user os c after).0 ≡ err (http 401 "Session revoked"))
        × (refresh_access_token os settings fresh t ip after
            ≡ (err (http 401 "Invalid refresh token"), after))
        × (after.committed ≡ after.current)
  unfolding revoke add_audit
  logout-get_current_user settings fresh c j t rt ip user r s h ej real e own er =
      let after = (revoke os user "logout" r s).1 in
      let run =
        ap (λ o. logout os settings user o rt s) ej
        ∙ logout_runs settings user j rt r s real e own in
      let rows = s.current.login_sessions in
      let by_jti =
        ap (first (has_jti j)) (revoked_rows user "logout" r s)
        ∙ first-save_same session_id_of (has_jti j) (revoked_now r) r rows e refl
            (first_sound (has_jti j) rows r e) in
      let by_hash =
        ap (first (has_hash (settings.hash_refresh_token t))) (revoked_rows user "logout" r s)
        ∙ first-save_same session_id_of (has_hash (settings.hash_refresh_token t)) (revoked_now r) r
            rows er refl (first_sound (has_hash (settings.hash_refresh_token t)) rows r er) in
      rw run (
        refused c j user (revoked_now r) s after h (revoked_users user "logout" r s) ej real by_jti
            refl,
        refused_refresh settings fresh t ip (revoked_now r) after by_hash refl,
        refl,
      )

  -- the sessions of one user
  abbrev pub sessions_of : ℕ → DbSession → List LoginSession
  sessions_of u s = select (λ (r : LoginSession). r.user_id == u) s.current.login_sessions

  revoke_elsewhere :
      (user : User) (action : String) (p : LoginSession → Bool) (r : LoginSession) (other : ℕ)
      (s : DbSession)
      → HasUniqueKeys session_id_of s.current.login_sessions
      → first p s.current.login_sessions ≡ some r
      → r.user_id ≡ user.id
      → user.id ≢ other
      → sessions_of other (revoke os user action r s).1 ≡ sessions_of other s
  revoke_elsewhere user action p r other s unique e own differ =
      ap (select (λ (x : LoginSession). x.user_id == other)) (revoked_rows user action r s)
      ∙ select-save session_id_of p (λ (x : LoginSession). x.user_id == other) (revoked_now r) r
          s.current.login_sessions unique e refl (ground arith) (ground arith)

  -- Whatever identifier a user asks to revoke, the sessions of every other user stay as they are;
  -- and the answer is 400 for an identifier that is none, 404 for one that no session of the user
  -- has, and success, with that very session revoked, otherwise.
  pub revoke_session-isolated :
      (user : User) (session_id : String) (other : ℕ) (s : DbSession)
      → HasUniqueKeys session_id_of s.current.login_sessions
      → user.id ≢ other
      → let (r, after) = revoke_session os user session_id s in
        (sessions_of other after ≡ sessions_of other s)
        × (((r ≡ err (http 400 "Invalid session id")) × (after ≡ s))
            ⊎ ((r ≡ err (http 404 "Session not found")) × (after ≡ s))
            ⊎ ((row : LoginSession) × (r ≡ ok tt)
                × (os.parse_uuid session_id ≡ some row.id)
                × (row.user_id ≡ user.id)
                × (after.committed.login_sessions
                    ≡ save session_id_of (revoked_now row) s.current.login_sessions)))
  unfolding revoke_session revoke add_audit
  revoke_session-isolated user session_id other s unique differ =
      elim (Option-cases (os.parse_uuid session_id)) [
        | inl bad ↦ (ground arith, inl (ground arith, ground arith))
        | inr (sid, parsed) ↦
            elim (Option-cases (
              first (λ (x : LoginSession). (x.id == sid) && (x.user_id == user.id))
                s.current.login_sessions)) [
                  | inl missing ↦ (ground arith, inr (inl (ground arith, ground arith)))
                  | inr (row, e) ↦
                      let passed =
                        first_sound (λ (x : LoginSession). (x.id == sid) && (x.user_id == user.id))
                          s.current.login_sessions row e in
                      let own : row.user_id ≡ user.id = ground arith in
                      let its : sid ≡ row.id = ground arith in
                      let kept =
                        revoke_elsewhere user "session_revoked"
                          (λ (x : LoginSession). (x.id == sid) && (x.user_id == user.id)) row other
                          s unique e own differ in
                      (
                        ground (arith, kept),
                        inr (inr (row, ground arith, parsed ∙ ap some its, own, ground arith)),
                      )
                ]
      ]
