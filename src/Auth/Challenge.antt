-- ===== src/Auth/Challenge.antt =====
-- The code that a sign-in with a second factor draws and sends (a part of `login_with_password`, with
-- `_dispatch_login_otp`, of app/modules/auth/service.py).
use ratinglift_backend_core.Common.{
  ℕ, ◌+◌, ◌≤◌, String, Bool, true, false, Bool-cases, ◌&&◌, ◌≡◌, ◌⊎◌, refl, ap, ◌∙◌, Option, none,
  some, List, [], ◌∷◌, ◌++◌, length, length-append, All, All-append, arith, inl, inr, ltb, str_eq,
  truthy, if◌then◌else◌, eq_iff,
}
use ratinglift_backend_core.Exec.{Result, ok, ◌>>=◌, ◌>>◌}
use ratinglift_backend_core.Platform.{Platform}
use ratinglift_backend_core.Security.Blocklist.{at}
use ratinglift_backend_core.Models.{User}
use ratinglift_backend_core.Auth.Sessions.{Settings}
use ratinglift_backend_core.Auth.Stores.{Redis, RedisLaws, Stores, Message}
use ratinglift_backend_core.Auth.Codes.{login_purpose, store_otp, verify_stored_otp}
use ratinglift_backend_core.Auth.Accounts.{Draws}
use ratinglift_backend_core.Auth.Login.{to_channel, or_account, login_messages, challenge}
use ratinglift_backend_core.Auth.OneTimeCodes.{store_otp-verify_stored_otp}

-- A channel of the account, with its mark.
abbrev IsChannel : Option String → Bool → String → Type 0
IsChannel address verified destination = (address ≡ some destination) × (verified ≡ true)

-- A message that carries the code to a verified channel of the account or to its own address.
abbrev pub IsTo : User → String → Message → Type 0
IsTo user otp m =
    (m.secret ≡ otp)
    × (((m.by_sms ≡ false) × IsChannel user.mfa_email user.mfa_email_verified m.destination)
        ⊎ (((m.by_sms ≡ true) × IsChannel user.mfa_phone user.mfa_phone_verified m.destination)
            ⊎ ((m.by_sms ≡ false) × (m.destination ≡ user.email))))

module _ (user : User) (otp : String) where
  IsTo-if :
      (b : Bool) (m : Message)
      → (b ≡ true → IsTo user otp m)
      → All (IsTo user otp) (if b then m ∷ [] else [])
  IsTo-if true m to = (to refl, tt)
  IsTo-if false m to = tt

  mail-IsTo :
      (address : Option String) (verified : Bool)
      → address ≡ user.mfa_email
      → verified ≡ user.mfa_email_verified
      → All (IsTo user otp) (to_channel false address verified otp)
  mail-IsTo none verified same mark = tt
  mail-IsTo (some d) verified same mark =
      IsTo-if (truthy (some d) && verified)
        (record { by_sms = false; destination = d; secret = otp; purpose = login_purpose })
        (λ fits. (refl, inl (refl, (cc same, ground (arith, mark, fits)))))

  phone-IsTo :
      (address : Option String) (verified : Bool)
      → address ≡ user.mfa_phone
      → verified ≡ user.mfa_phone_verified
      → All (IsTo user otp) (to_channel true address verified otp)
  phone-IsTo none verified same mark = tt
  phone-IsTo (some d) verified same mark =
      IsTo-if (truthy (some d) && verified)
        (record { by_sms = true; destination = d; secret = otp; purpose = login_purpose })
        (λ fits. (refl, inr (inl (refl, (cc same, ground (arith, mark, fits))))))

  or_account-IsTo :
      (ms : List Message) → All (IsTo user otp) ms → All (IsTo user otp) (or_account ms user otp)
  or_account-IsTo [] all = ((refl, inr (inr (refl, refl))), tt)
  or_account-IsTo (m ∷ ms) all = all

  length-or_account :
      (ms : List Message)
      → length ms ≤ 2
      → (1 ≤ length (or_account ms user otp)) × (length (or_account ms user otp) ≤ 2)
  length-or_account [] few = (omega arith, omega arith)
  length-or_account (m ∷ ms) few = (omega arith, few)

  length-to_channel :
      (by_sms : Bool) (address : Option String) (verified : Bool)
      → length (to_channel by_sms address verified otp) ≤ 1
  length-to_channel by_sms none verified = omega arith
  length-to_channel by_sms (some d) verified = ground arith

  login_messages-IsTo : All (IsTo user otp) (login_messages user otp)
  unfolding login_messages
  login_messages-IsTo =
      let mail = to_channel false user.mfa_email user.mfa_email_verified otp in
      let phone = to_channel true user.mfa_phone user.mfa_phone_verified otp in
      or_account-IsTo (mail ++ phone) (
        All-append (IsTo user otp) mail phone
          (mail-IsTo user.mfa_email user.mfa_email_verified refl refl)
          (phone-IsTo user.mfa_phone user.mfa_phone_verified refl refl))

  length-login_messages :
      (1 ≤ length (login_messages user otp)) × (length (login_messages user otp) ≤ 2)
  unfolding login_messages
  length-login_messages =
      let mail = to_channel false user.mfa_email user.mfa_email_verified otp in
      let phone = to_channel true user.mfa_phone user.mfa_phone_verified otp in
      length-or_account (mail ++ phone) (
        omega (
          arith,
          length-append mail phone,
          length-to_channel false user.mfa_email user.mfa_email_verified,
          length-to_channel true user.mfa_phone user.mfa_phone_verified,
        ))

module _ (os : Platform) {S : Type 0} (redis : Redis S) (laws : RedisLaws redis)
    (settings : Settings) where
  challenge_app :
      (draws : Draws) (user : User) (s : Stores S)
      → user.totp_verified ≡ true
      → (challenge os redis settings draws user s).1 ≡ s
  unfolding challenge
  challenge_app draws user s app = ground arith

  challenge_sent :
      (draws : Draws) (user : User) (s : Stores S)
      → user.totp_verified ≡ false
      → let stored =
          (store_otp os redis user.id settings.mfa_otp_ttl_seconds login_purpose draws.otp s).1 in
        (challenge os redis settings draws user s).1
        ≡ record stored { outbox = stored.outbox ++ login_messages user draws.otp }
  unfolding challenge store_otp ◌>>=◌ ◌>>◌
  challenge_sent draws user s none_yet = ground (arith, none_yet)

  accepted :
      (user : User) (later : ℕ) (otp : String) (sent : List Message) (s : Stores S)
      → let stored =
          (store_otp os redis user.id settings.mfa_otp_ttl_seconds login_purpose otp s).1 in
        (verify_stored_otp
          (at later os)
          redis
          user.id
          otp
          login_purpose
          (record stored { outbox = stored.outbox ++ sent })).0
        ≡ ok (ltb later (os.now + settings.mfa_otp_ttl_seconds))
  unfolding store_otp
  accepted user later otp sent s =
      let run =
        store_otp-verify_stored_otp os redis laws user.id settings.mfa_otp_ttl_seconds later later
          login_purpose otp otp otp (record s { outbox = s.outbox ++ sent }) in
      let same : str_eq otp otp ≡ true = (eq_iff otp otp).1 refl in run.0 ∙ ground (arith, same)

  -- Drawing up a challenge changes nothing for an account with a verified authenticator app. For any
  -- other it sends one or two messages, each with the drawn code to a verified channel of the account or
  -- to the account's own address, and later that code is accepted just while its time to live has not
  -- passed.
  pub challenge-verify_stored_otp :
      (draws : Draws) (user : User) (later : ℕ) (s : Stores S)
      → let s' = (challenge os redis settings draws user s).1 in
        ((user.totp_verified ≡ true) × (s' ≡ s))
        ⊎ ((user.totp_verified ≡ false)
            × (s'.db ≡ s.db)
            × ((verify_stored_otp (at later os) redis user.id draws.otp login_purpose s').0
                ≡ ok (ltb later (os.now + settings.mfa_otp_ttl_seconds)))
            × ((sent : List Message) × (s'.outbox ≡ s.outbox ++ sent)
                × (1 ≤ length sent)
                × (length sent ≤ 2)
                × All (IsTo user draws.otp) sent))
  unfolding store_otp
  challenge-verify_stored_otp draws user later s = elim (Bool-cases user.totp_verified) [
    | inl app ↦ inl (app, challenge_app draws user s app)
    | inr none_yet ↦
        let run = challenge_sent draws user s none_yet in
        let checked : Stores S → Result Bool =
          λ t. (verify_stored_otp (at later os) redis user.id draws.otp login_purpose t).0 in
        inr (
          none_yet,
          ap (λ (t : Stores S). t.db) run,
          ap checked run ∙ accepted user later draws.otp (login_messages user draws.otp) s,
          (
            login_messages user draws.otp,
            ap (λ (t : Stores S). t.outbox) run,
            (length-login_messages user draws.otp).0,
            (length-login_messages user draws.otp).1,
            login_messages-IsTo user draws.otp,
          ),
        )
  ]
