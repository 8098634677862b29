-- ===== src/Security/Blocklist.antt =====
-- How long an address stays blocked, and what lifts a block (app/modules/security/ip_blocking.py).
use ratinglift_backend_core.Common.{
  ⊤, ℕ, String, true, false, not, ◌+◌, ◌≤◌, ◌<◌, ◌≡◌, ◌≢◌, ◌⊎◌, refl, ◌∙◌, inl, inr, Option, none,
  some, List, [], ◌∷◌, arith, ltb, ◌==◌, eq_iff, truthy, Bool-cases, Option-cases, All, first,
  first-append, first-save_same, first-none, first_sound, delete_row,
}
use ratinglift_backend_core.Exec.{ok}
use ratinglift_backend_core.Platform.{Platform}
use ratinglift_backend_core.Models.{IpBlocklist, DbSession}
use ratinglift_backend_core.Security.LoginTracking.{failures_of, recent_failures_for_ip}
use ratinglift_backend_core.Security.IpBlocking.{
  block_duration_seconds, has_ip, block_id, has_expired, is_ip_blocked, ensure_ip_allowed, expiry,
  extended, new_block, block_ip, unblock_ip, register_failed_attempt_for_ip,
}

-- the clock of a later request
abbrev pub at : ℕ → Platform → Platform
at t os = record os { now = t }

has_ip_self : (row : IpBlocklist) (ip : String) → row.ip_address ≡ ip → has_ip ip row ≡ true
has_ip_self row ip e = (eq_iff row.ip_address ip).1 e

-- the entry of an address, as a query finds it
abbrev pub entry_of : String → DbSession → Option IpBlocklist
entry_of ip s = first (has_ip ip) s.current.ip_blocklist

module _ (os : Platform) where
  blocked_of :
      (ip : String) (row : IpBlocklist) (s : DbSession)
      → truthy (some ip) ≡ true
      → entry_of ip s ≡ some row
      → (is_ip_blocked os (some ip) s).0 ≡ ok (not (has_expired os row))
  unfolding is_ip_blocked
  blocked_of ip row s real e = ground arith

  -- A block is in the table with its end.
  entry_of-block_ip :
      (ip : String) (reason : Option String) (n d : ℕ) (s : DbSession)
      → (row : IpBlocklist) × (entry_of ip (block_ip os ip reason n d s).1 ≡ some row)
        × (row.expires_at ≡ expiry os d)
  unfolding block_ip extended new_block
  entry_of-block_ip ip reason n d s = elim (Option-cases (entry_of ip s)) [
    | inl free ↦
        let row = new_block os ip reason n d s.current.ip_blocklist in
        let added = first-append (has_ip ip) s.current.ip_blocklist row free in
        let self = has_ip_self row ip refl in (row, ground arith, refl)
    | inr (old, taken) ↦
        let row = extended os reason n d old in
        let saved =
          first-save_same block_id (has_ip ip) row old s.current.ip_blocklist taken refl
            (first_sound (has_ip ip) s.current.ip_blocklist old taken) in
        (row, ground arith, refl)
  ]

module _ (os : Platform) where
  register_runs :
      (ip reason : String) (threshold window : ℕ) (s : DbSession)
      → truthy (some ip) ≡ true
      → threshold ≤ failures_of os ip window s
      → (register_failed_attempt_for_ip os (some ip) threshold window reason s).1
        ≡ (block_ip os ip (some reason) (failures_of os ip window s) block_duration_seconds s).1
  unfolding register_failed_attempt_for_ip recent_failures_for_ip block_ip
  register_runs ip reason threshold window s real many = ground arith

  pub register_blocks :
      (ip reason : String) (threshold window t : ℕ) (s : DbSession)
      → truthy (some ip) ≡ true
      → threshold ≤ failures_of os ip window s
      → (is_ip_blocked
          (at t os)
          (some ip)
          (register_failed_attempt_for_ip os (some ip) threshold window reason s).1).0
        ≡ ok (ltb t (os.now + 3600))
  unfolding has_expired expiry
  register_blocks ip reason threshold window t s real many =
      let entry =
        entry_of-block_ip os ip (some reason) (failures_of os ip window s) block_duration_seconds
          s in
      let ends : entry.0.expires_at ≡ some (os.now + 3600) = entry.2 in
      rw (register_runs ip reason threshold window s real many)
        (blocked_of (at t os) ip entry.0 _ real entry.1 ∙ (ground arith))

  register_nothing :
      (ip reason : String) (threshold window : ℕ) (s : DbSession)
      → truthy (some ip) ≡ true
      → failures_of os ip window s < threshold
      → register_failed_attempt_for_ip os (some ip) threshold window reason s ≡ (ok false, s)
  unfolding register_failed_attempt_for_ip recent_failures_for_ip
  register_nothing ip reason threshold window s real few = ground arith

  -- Registering a failed attempt of an address whose failures in the window are below the threshold
  -- changes nothing. Once they have reached it, the address is blocked for an hour: whatever entry
  -- it had before, it counts as blocked at a time exactly when the hour is not over.
  pub register-is_ip_blocked :
      (ip reason : String) (threshold window t : ℕ) (s : DbSession)
      → truthy (some ip) ≡ true
      → let after = register_failed_attempt_for_ip os (some ip) threshold window reason s in
        ((failures_of os ip window s < threshold) × (after ≡ (ok false, s)))
        ⊎ ((threshold ≤ failures_of os ip window s)
            × ((is_ip_blocked (at t os) (some ip) after.1).0 ≡ ok (ltb t (os.now + 3600))))
  register-is_ip_blocked ip reason threshold window t s real =
      elim (Bool-cases (ltb (failures_of os ip window s) threshold)) [
        | inl less ↦
            let few : failures_of os ip window s < threshold = ground arith in
            inl (few, register_nothing ip reason threshold window s real few)
        | inr enough ↦
            let many : threshold ≤ failures_of os ip window s = ground arith in
            inr (many, register_blocks ip reason threshold window t s real many)
      ]

-- Every address has one entry at most (the table's constraint).
abbrev pub HasUniqueIps : List IpBlocklist → Type 0
HasUniqueIps [] = ⊤
HasUniqueIps (x ∷ xs) = All (λ (y : IpBlocklist). y.ip_address ≢ x.ip_address) xs × HasUniqueIps xs

All-delete_row :
    (P : IpBlocklist → Type 0) (k : ℕ) (xs : List IpBlocklist)
    → All P xs
    → All P (delete_row block_id k xs)
unfolding delete_row
All-delete_row P k [] h = tt
All-delete_row P k (x ∷ xs) (p, h) = elim (Bool-cases (x.id == k)) [
  | inl gone ↦ rw gone (All-delete_row P k xs h)
  | inr kept ↦ rw kept (p, All-delete_row P k xs h)
]

delete_row-HasUniqueIps :
    (k : ℕ) (xs : List IpBlocklist) → HasUniqueIps xs → HasUniqueIps (delete_row block_id k xs)
unfolding delete_row
delete_row-HasUniqueIps k [] u = tt
delete_row-HasUniqueIps k (x ∷ xs) (ne, u) = elim (Bool-cases (x.id == k)) [
  | inl gone ↦ rw gone (delete_row-HasUniqueIps k xs u)
  | inr kept ↦ rw kept (All-delete_row _ k xs ne, delete_row-HasUniqueIps k xs u)
]

other_ip : (ip : String) (y : IpBlocklist) → y.ip_address ≢ ip → has_ip ip y ≡ false
other_ip ip y ne = elim (Bool-cases (has_ip ip y)) [
  | inl same ↦ absurd (ne ((eq_iff y.ip_address ip).0 same))
  | inr differ ↦ differ
]

All_weaken :
    {P Q : IpBlocklist → Type 0} (f : (y : IpBlocklist) → P y → Q y) (xs : List IpBlocklist)
    → All P xs
    → All Q xs
All_weaken f [] h = tt
All_weaken f (x ∷ xs) (p, h) = (f x p, All_weaken f xs h)

-- Deleting the entry that a query by address found leaves none.
first-delete_row :
    (ip : String) (r : IpBlocklist) (xs : List IpBlocklist)
    → HasUniqueIps xs
    → first (has_ip ip) xs ≡ some r
    → first (has_ip ip) (delete_row block_id r.id xs) ≡ none
unfolding first delete_row
first-delete_row ip r [] u e = cc e
first-delete_row ip r (x ∷ xs) (ne, u) e = elim (Bool-cases (has_ip ip x)) [
  | inl here ↦
      let same : x ≡ r = ground arith in
      let its : x.ip_address ≡ ip = (eq_iff x.ip_address ip).0 here in
      let rest =
        first-none (has_ip ip) (delete_row block_id r.id xs)
          (All-delete_row _ r.id xs (All_weaken (λ y n. other_ip ip y (rw its at n)) xs ne)) in
      ground (arith, rest)
  | inr later ↦ ground (arith, first-delete_row ip r xs u (ground arith))
]

module _ (os : Platform) where
  no_entry :
      (ip : String) (s : DbSession)
      → entry_of ip s ≡ none
      → ensure_ip_allowed os (some ip) s ≡ (ok tt, s)
  unfolding ensure_ip_allowed is_ip_blocked
  no_entry ip s e = elim (Bool-cases (truthy (some ip))) [
    | inl real ↦ ground arith
    | inr blank ↦ ground arith
  ]

  unblocked :
      (ip : String) (s : DbSession)
      → HasUniqueIps s.current.ip_blocklist
      → entry_of ip (unblock_ip os ip s).1 ≡ none
  unfolding unblock_ip
  unblocked ip s u = elim (Option-cases (entry_of ip s)) [
    | inl free ↦ ground arith
    | inr (r, taken) ↦ ground (arith, first-delete_row ip r s.current.ip_blocklist u taken)
  ]

  -- After an address is unblocked, requests from it are let through and change nothing more,
  -- where the table has one entry at most for each address.
  pub unblock_ip-ensure_ip_allowed :
      (ip : String) (s : DbSession)
      → HasUniqueIps s.current.ip_blocklist
      → let after = (unblock_ip os ip s).1 in
        (ensure_ip_allowed os (some ip) after ≡ (ok tt, after))
        × HasUniqueIps after.current.ip_blocklist
  unfolding unblock_ip
  unblock_ip-ensure_ip_allowed ip s u = (
    no_entry ip (unblock_ip os ip s).1 (unblocked ip s u),
    elim (Option-cases (entry_of ip s)) [
      | inl free ↦ rw (free, unblock_ip) u
      | inr (r, taken) ↦
          rw (taken, unblock_ip) (delete_row-HasUniqueIps r.id s.current.ip_blocklist u)
    ],
  )
