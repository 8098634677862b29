-- ===== src/Auth/OneTimeCodes.antt =====
-- How often and how long a one-time code is good for (app/modules/auth/mfa.py), and what the second step
-- of a sign-in asks for (app/modules/auth/service.py).
use ratinglift_backend_core.Common.{
  ℕ, ◌+◌, String, true, false, ◌&&◌, Bool-cases, ◌≡◌, ◌⊎◌, ap, ◌∙◌, none, some, arith, inl, inr,
  ltb, str_eq, if◌then◌else◌,
}
use ratinglift_backend_core.Exec.{ok}
use ratinglift_backend_core.Platform.{Platform}
use ratinglift_backend_core.Security.Blocklist.{at}
use ratinglift_backend_core.Auth.Stores.{Redis, RedisLaws, Stores}
use ratinglift_backend_core.Auth.Codes.{otp_key, store_otp, verify_stored_otp}

module _ (os : Platform) {S : Type 0} (redis : Redis S) (laws : RedisLaws redis) where
  verified_none :
      (user_id : ℕ) (tried purpose : String) (s : Stores S)
      → redis.get (otp_key os redis user_id purpose) os.now s.redis ≡ none
      → verify_stored_otp os redis user_id tried purpose s ≡ (ok false, s)
  unfolding verify_stored_otp
  verified_none user_id tried purpose s gone = ground arith

  verified_right :
      (user_id : ℕ) (tried purpose otp : String) (s : Stores S)
      → redis.get (otp_key os redis user_id purpose) os.now s.redis ≡ some otp
      → str_eq otp tried ≡ true
      → verify_stored_otp os redis user_id tried purpose s
        ≡ (ok true, record s { redis = redis.delete (otp_key os redis user_id purpose) s.redis })
  unfolding verify_stored_otp
  verified_right user_id tried purpose otp s there right = ground arith

  verified_wrong :
      (user_id : ℕ) (tried purpose otp : String) (s : Stores S)
      → redis.get (otp_key os redis user_id purpose) os.now s.redis ≡ some otp
      → str_eq otp tried ≡ false
      → verify_stored_otp os redis user_id tried purpose s ≡ (ok false, s)
  unfolding verify_stored_otp
  verified_wrong user_id tried purpose otp s there wrong = ground arith

  stored_get :
      (user_id ttl t : ℕ) (purpose otp : String) (s : Stores S)
      → redis.get
          (otp_key os redis user_id purpose)
          t
          (store_otp os redis user_id ttl purpose otp s).1.redis
        ≡ (if ltb t (os.now + ttl) then some otp else none)
  unfolding store_otp
  stored_get user_id ttl t purpose otp s =
      laws.get-setex (otp_key os redis user_id purpose) otp ttl os.now t s.redis

module _ (os : Platform) {S : Type 0} (redis : Redis S) (laws : RedisLaws redis) where
  -- A one-time code that was stored is accepted later just when it is the code that is tried and its time
  -- to live has not passed. Once accepted it is gone, and whatever is tried next is refused; a code that
  -- is refused changes nothing.
  pub store_otp-verify_stored_otp :
      (user_id ttl later again : ℕ) (purpose otp tried other : String) (s : Stores S)
      → let stored = (store_otp os redis user_id ttl purpose otp s).1 in
        let (r, s') = verify_stored_otp (at later os) redis user_id tried purpose stored in
        let good = ltb later (os.now + ttl) && str_eq otp tried in
        (r ≡ ok good)
        × (((good ≡ true)
              × ((verify_stored_otp (at again os) redis user_id other purpose s').0 ≡ ok false))
            ⊎ ((good ≡ false) × (s' ≡ stored)))
  unfolding otp_key
  store_otp-verify_stored_otp user_id ttl later again purpose otp tried other s =
      let stored = (store_otp os redis user_id ttl purpose otp s).1 in
      let read = stored_get os redis laws user_id ttl later purpose otp s in
      elim (Bool-cases (ltb later (os.now + ttl))) [
        | inl early ↦
            let there = rw (early) at read in
            elim (Bool-cases (str_eq otp tried)) [
              | inl right ↦
                  let run =
                    verified_right (at later os) redis laws user_id tried purpose otp stored there
                      right in
                  let after : Stores S = record stored {
                    redis = redis.delete (otp_key os redis user_id purpose) stored.redis;
                  } in
                  let gone =
                    verified_none (at again os) redis laws user_id other purpose after
                      (laws.get-delete (otp_key os redis user_id purpose) again stored.redis) in
                  (
                    ap (λ p. p.0) run ∙ ground arith,
                    inl (
                      ground arith,
                      ap (λ p. (verify_stored_otp (at again os) redis user_id other purpose p.1).0)
                            run
                          ∙ ap (λ p. p.0) gone,
                    ),
                  )
              | inr wrong ↦
                  let run =
                    verified_wrong (at later os) redis laws user_id tried purpose otp stored there
                      wrong in
                  (ap (λ p. p.0) run ∙ ground arith, inr (ground arith, ap (λ p. p.1) run))
            ]
        | inr late ↦
            let run =
              verified_none (at later os) redis laws user_id tried purpose stored
                (rw (late) at read) in
            (ap (λ p. p.0) run ∙ ground arith, inr (ground arith, ap (λ p. p.1) run))
      ]
